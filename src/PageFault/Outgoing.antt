-- ===== src/PageFault/Outgoing.antt =====
-- An eviction up to the point where the page that leaves is in swap.
use os_virtual_mem.Prelude.{
  Bool-cases, Option, none, ◌==◌, ℕ, ◌+◌, ◌%◌, ◌^◌, ◌≤◌, ◌<◌, ◌≡◌, ◌≢◌, refl, Bool, true, false,
  ◌||◌, some, arith, if◌then◌else◌, inl, inr, ap, ◌⊎◌, ◌∙◌,
}
use os_virtual_mem.Vm.{
  PtRef, Vm, entry_at, maxpdptframe, maxffsframe, same_ref, set_entry_self, set_entry_ne, update,
}
use os_virtual_mem.PageFault.Coherent.{Coherent}
use os_virtual_mem.PageFault.Move.{moved_out}
use os_virtual_mem.PageFault.Ready.{Left}
use os_virtual_mem.PageFault.Choose.{Chosen}
use os_virtual_mem.Memory.{sub32}

-- what `move_out` and `bring_in` do to memory: the old page's words are in `f`, and the faulting
-- page's, if they were in swap, in `evict`
pub record Moved (s s' : Vm) (pt old : PtRef) (evict f : ℕ) : Type 0 where
  pub kept :
      ((entry_at s old).dirty ≡ true) ⊎ ((entry_at s old).already_swapped ≡ true)
      → (j : ℕ) → j < 1024
      → s'.words f j ≡ s.words evict j
  pub brought :
      (entry_at s pt).isswapped ≡ true
      → (j : ℕ) → j < 1024
      → s'.words evict j ≡ s.words (entry_at s pt).base j
  pub spared : (g j : ℕ) → j < 1024 → g ≢ evict → g ≢ f → s'.words g j ≡ s.words g j
  pub old_entry :
      ((entry_at s' old).pres ≡ false)
      × ((entry_at s' old).isswapped ≡ true)
      × ((entry_at s' old).already_swapped ≡ true)
      × ((entry_at s' old).base ≡ f)
      × ((entry_at s' old).isvmalloc ≡ (entry_at s old).isvmalloc)
  pub pt_entry :
      ((entry_at s' pt).pres ≡ (entry_at s pt).pres)
      × ((entry_at s' pt).isswapped ≡ (entry_at s pt).isswapped)
  pub others :
      (q : PtRef)
      → same_ref q old ≡ false
      → ((entry_at s' q).pres ≡ (entry_at s q).pres)
        × ((entry_at s' q).isswapped ≡ (entry_at s q).isswapped)
        × ((entry_at s' q).base ≡ (entry_at s q).base)
  pub ptmap : s'.ptmap ≡ s.ptmap

module _ (s : Vm) (offset i : ℕ) (pt old : PtRef) (co : Coherent s offset) (small : i < 2048)
    (at : s.ptmap i ≡ some old) (apart : same_ref pt old ≡ false) where
  module _ (s1 : Vm) (f : ℕ) (inplace : Bool) (ch : Chosen s pt old i s1 f inplace) where
    pub frames : (f < 2 ^ 20) × (maxpdptframe s + i ≢ f) × (maxffsframe s ≤ f)
    frames =
        let (k, e, lt) = ch.range in
        let lay = co.layout in let top = co.top in (omega arith, omega arith, omega arith)

    unfoldable pub out : Bool → Vm
    out copied = moved_out s1 old i (maxpdptframe s + i) f copied inplace

    -- what holds of the entries whichever way the words move
    pub out_entries :
        (copied : Bool)
        → (((entry_at (out copied) old).pres ≡ false)
            × ((entry_at (out copied) old).isswapped ≡ true)
            × ((entry_at (out copied) old).already_swapped ≡ true)
            × ((entry_at (out copied) old).base ≡ f)
            × ((entry_at (out copied) old).isvmalloc ≡ (entry_at s old).isvmalloc))
          × (entry_at (out copied) pt ≡ entry_at s1 pt)
          × ((q : PtRef) → same_ref q old ≡ false → entry_at (out copied) q ≡ entry_at s1 q)
    unfolding out
    out_entries copied =
        let e = set_entry_self s1.entries old (record (entry_at s1 old) {
          base = f % 2 ^ 20;
          pres = false;
          isswapped = true;
          already_swapped = true;
          dirty = false;
        }) in
        let b = frames.0 in
        let word : f % 2 ^ 20 ≡ f = omega arith in
        (
          (
            ap (λ x. x.pres) e,
            ap (λ x. x.isswapped) e,
            ap (λ x. x.already_swapped) e,
            ap (λ x. x.base) e ∙ word,
            ap (λ x. x.isvmalloc) e ∙ ap (λ x. x.isvmalloc) ch.old_same,
          ),
          set_entry_ne s1.entries old _ pt apart,
          λ q h. set_entry_ne s1.entries old _ q h,
        )

    pub dirty_same :
        (entry_at s1 old).dirty || (entry_at s1 pt).isswapped
        ≡ ((entry_at s old).dirty || (entry_at s pt).isswapped)
    dirty_same = rw (ch.old_same, ch.pt_swapped)

    pub others_same :
        (copied : Bool) (q : PtRef)
        → same_ref q old ≡ false
        → ((entry_at (out copied) q).pres ≡ (entry_at s q).pres)
          × ((entry_at (out copied) q).isswapped ≡ (entry_at s q).isswapped)
          × ((entry_at (out copied) q).base ≡ (entry_at s q).base)
    others_same copied q h =
        let e = (out_entries copied).2 q h in
        let o = ch.others q in
        (ap (λ x. x.pres) e ∙ o.0, ap (λ x. x.isswapped) e ∙ o.1, ap (λ x. x.base) e ∙ o.2)

    pub pt_same :
        (copied : Bool)
        → ((entry_at (out copied) pt).pres ≡ (entry_at s pt).pres)
          × ((entry_at (out copied) pt).isswapped ≡ (entry_at s pt).isswapped)
    pt_same copied = let o = others_same copied pt apart in (o.0, o.1)

    -- the slot of the swap frame in `swap2ffsmap`
    pub slot_dropped :
        (maps : ℕ → Option PtRef) (k : ℕ)
        → update maps (sub32 f (maxffsframe s1)) none k
          ≡ (if maxffsframe s + k == f then none else maps k)
    slot_dropped maps k =
        let (m, e, lt) = ch.range in
        let top = co.top in
        let slot : sub32 f (maxffsframe s) ≡ m = omega arith in
        elim (Bool-cases (k == m)) [
          | inl h ↦
              let n : (maxffsframe s + k == f) ≡ true = ground (arith, e) in
              rw (ch.regions, slot, h, n) refl
          | inr h ↦
              let n : (maxffsframe s + k == f) ≡ false = ground (arith, e) in
              rw (ch.regions, slot, h, n) refl
        ]

    pub out-Left : (copied : Bool) → Left s s1 (out copied) pt old i f none
    unfolding out
    out-Left copied =
        let self : (i == i) ≡ true = ground arith in
        record {
          entries = (out_entries copied).2;
          regions = ch.regions;
          regions1 = ch.regions;
          words1 = ch.words;
          swaplist = refl;
          ffslist = refl;
          ffs_other = λ j ne. rw ne refl;
          ffs_here = rw self refl;
          swap = λ k lt. slot_dropped s1.swap2ffsmap k;
        }
