-- ===== src/PageFault/Ready.antt =====
-- The mappings once a swap frame has been chosen: coherent but for that frame and the one to be emptied.
use os_virtual_mem.Prelude.{
  ℕ, ◌+◌, ◌*◌, ◌/◌, ◌<◌, ◌≡◌, ◌≢◌, refl, Bool, true, false, none, some, Option, arith, ◌==◌, ap,
  inl, inr, ◌⊎◌, if◌then◌else◌,
}
use os_virtual_mem.FreeList.{FreeList}
use os_virtual_mem.FreeList.Laws.{IsValid}
use os_virtual_mem.Vm.{PtRef, Vm, ok, entry_at, maxffsframe, no_frame, getswapframe, same_ref}
use os_virtual_mem.PageFault.Coherent.{Resident, HasCopy, swap_free, Coherent, Paged}
use os_virtual_mem.PageFault.TakePage.{PageTaken, take_page_lem}

pub record Ready (s s1 : Vm) (offset i f : ℕ) : Type 0 where
  pub resident : (j : ℕ) (r : PtRef) → j < 2048 → s.ptmap j ≡ some r → Resident s1 j r
  pub owned :
      (j : ℕ) (r : PtRef)
      → j < 2048
      → j ≢ i
      → s.ptmap j ≡ some r
      → (entry_at s1 r).already_swapped ≡ true
      → (k : ℕ) × HasCopy s1 j k r × (maxffsframe s + k ≢ f)
  pub unowned :
      (j : ℕ) (r : PtRef)
      → j < 2048
      → j ≢ i
      → s.ptmap j ≡ some r
      → (entry_at s1 r).already_swapped ≡ false
      → s1.ffs2swapmap j ≡ none
  pub shadow :
      (k : ℕ) (r : PtRef)
      → k < 2048
      → maxffsframe s + k ≢ f
      → s1.swap2ffsmap k ≡ some r
      → ((entry_at s1 r).pres ≡ true)
        × ((entry_at s1 r).already_swapped ≡ true)
        × (j : ℕ) × (j < 2048)
        × (j ≢ i)
        × (s.ptmap j ≡ some r)
        × (s1.ffs2swapmap j ≡ some (maxffsframe s + k))
  pub pool :
      (k : ℕ)
      → k < 2048
      → swap_free s1 (maxffsframe s + k) ≡ true
      → (maxffsframe s + k ≢ f)
        × (s1.swap2ffsmap k ≡ none)
        × (swap_free s (maxffsframe s + k) ≡ true)
  pub copies : s1.swap2ffsmap ≡ s.swap2ffsmap
  pub forgets : (j : ℕ) → s.ffs2swapmap j ≡ none → s1.ffs2swapmap j ≡ none
  pub swaplist :
      IsValid (maxffsframe s * 4096) ((maxffsframe s + 2048) * 4096) offset s1.swaplist
      × Paged s1.swaplist.blocks
  pub ffslist : s1.ffslist ≡ s.ffslist

abbrev pub is_copy : Option ℕ → ℕ → Bool
is_copy none k = false
is_copy (some m) k = k == m

abbrev pub copy_frame : Vm → Option ℕ → Option ℕ
copy_frame s none = none
copy_frame s (some m) = some (maxffsframe s + m)

-- What `move_pages` leaves of the mappings that it finds in `s1`, where the faulting page keeps the swap
-- frame number `copy`, if it had one.
pub record Left (s s1 s2 : Vm) (pt old : PtRef) (i f : ℕ) (copy : Option ℕ) : Type 0 where
  pub entries : (q : PtRef) → same_ref q old ≡ false → entry_at s2 q ≡ entry_at s1 q
  pub regions : s2.regions ≡ s.regions
  pub regions1 : s1.regions ≡ s.regions
  pub words1 : s1.words ≡ s.words
  pub swaplist : s2.swaplist ≡ s1.swaplist
  pub ffslist : s2.ffslist ≡ s1.ffslist
  pub ffs_other : (j : ℕ) → (j == i) ≡ false → s2.ffs2swapmap j ≡ s1.ffs2swapmap j
  pub ffs_here : s2.ffs2swapmap i ≡ copy_frame s copy
  pub swap :
      (k : ℕ)
      → k < 2048
      → s2.swap2ffsmap k ≡ (
          if is_copy copy k
          then some pt
          else if maxffsframe s + k == f
          then none
          else s1.swap2ffsmap k)

-- `getswapframe` while the mappings are coherent: no frame, or one page of the swap region.
pub getswapframe-PageTaken :
    (s : Vm) (offset : ℕ)
    → Coherent s offset
    → (getswapframe s ≡ ok no_frame s)
      ⊎ ((k : ℕ) × (l : FreeList) × (getswapframe s
            ≡ ok (maxffsframe s + k) (record s { swaplist = l }))
          × PageTaken (maxffsframe s) offset k s.swaplist l)
unfolding getswapframe
getswapframe-PageTaken s offset co =
    elim (take_page_lem (maxffsframe s) offset s.swaplist (co.swaplist, co.paged)) [
      | inl (none_left, _) ↦ inl (rw none_left refl)
      | inr (k, l, got) ↦
          let page : (maxffsframe s + k) * 4096 / 4096 ≡ maxffsframe s + k = omega arith in
          inr (k, l, rw got.run (ap (λ (z : ℕ). ok z (record s { swaplist = l })) page), got)
    ]
