-- ===== src/KernelService/Release.antt =====
-- What `free_vpage` does to the mappings when the page is resident in a frame of FFS.
use os_virtual_mem.Prelude.{
  ℕ, ◌<◌, ◌≡◌, ◌≢◌, refl, true, false, none, some, Option, arith, ◌==◌, ap, sym, ◌∙◌, inl, inr,
  Bool-cases,
}
use os_virtual_mem.FreeList.{FreeList}
use os_virtual_mem.Vm.{
  PtRef, Vm, zero_entry, entry_at, maxpdptframe, maxffsframe, same_ref, set_entry_ne, with_entry,
  update,
}
use os_virtual_mem.PageFault.Coherent.{Coherent, same_ref-eq}
use os_virtual_mem.PageFault.TakePage.{Region, page_free}
use os_virtual_mem.PageFault.Refill.{FfsPool}
use os_virtual_mem.PageFault.Always.{IsPaging}
use os_virtual_mem.KernelService.GivePage.{PageGiven}

-- the state with FFS frame number `j` given back and the entry of its page cleared
abbrev pub vacated : Vm → PtRef → ℕ → (ffs swap : FreeList) → (ℕ → Option PtRef) → Vm
vacated s pt j ffs swap copies =
    with_entry
      (record s {
        ffslist = ffs;
        ptmap = update s.ptmap j none;
        swaplist = swap;
        swap2ffsmap = copies;
        ffs2swapmap = update s.ffs2swapmap j none;
      })
      pt zero_entry

-- The swap frames that are left: those of all pages but one.
pub record CopiesLeft (s : Vm) (pt : PtRef) (offset : ℕ) (swap : FreeList)
    (copies : ℕ → Option PtRef) : Type 0 where
  pub old :
      (k : ℕ) (r : PtRef)
      → k < 2048
      → copies k ≡ some r
      → (s.swap2ffsmap k ≡ some r) × (same_ref r pt ≡ false)
  pub kept :
      (k : ℕ) (r : PtRef)
      → k < 2048
      → s.swap2ffsmap k ≡ some r
      → same_ref r pt ≡ false
      → copies k ≡ some r
  pub pool : (k : ℕ) → k < 2048 → page_free (maxffsframe s) swap k ≡ true → copies k ≡ none
  pub region : Region (maxffsframe s) offset swap

module _ (s : Vm) (offset pool : ℕ) (pt : PtRef) (ok_s : IsPaging s offset pool) (j : ℕ)
    (small : j < 2048) (at : s.ptmap j ≡ some pt) where
  -- the page of another frame is another page
  pub other_page :
      (i : ℕ) (r : PtRef) → i < 2048 → s.ptmap i ≡ some r → i ≢ j → same_ref r pt ≡ false
  other_page i r lt e ne = elim (Bool-cases (same_ref r pt)) [
    | inr h ↦ h
    | inl h ↦
        let co = ok_s.mappings in
        let b = ap (λ x. x.base) (same_ref-eq s r pt h) in
        absurd
          (ne (omega (arith, (co.resident i r lt e).base, (co.resident j pt small at).base, b)))
  ]

  -- and the frame of another page is another frame
  pub other_frame :
      (i : ℕ) (r : PtRef) → s.ptmap i ≡ some r → same_ref r pt ≡ false → (i == j) ≡ false
  other_frame i r e ne = elim (Bool-cases (i == j)) [
    | inr h ↦ h
    | inl h ↦ let n : i ≡ j = ground arith in let q : r ≡ pt = cc (ap s.ptmap n) in ground arith
  ]

  module _ (ffs swap : FreeList) (copies : ℕ → Option PtRef)
      (given : PageGiven (maxpdptframe s) pool j s.ffslist ffs)
      (left : CopiesLeft s pt offset swap copies) where
    s' : Vm
    s' = vacated s pt j ffs swap copies

    same_entry : (r : PtRef) → same_ref r pt ≡ false → entry_at s' r ≡ entry_at s r
    unfolding s'
    same_entry r h = set_entry_ne s.entries pt zero_entry r h

    -- a frame that still holds a page
    still : (i : ℕ) (r : PtRef) → s'.ptmap i ≡ some r → (s.ptmap i ≡ some r) × ((i == j) ≡ false)
    unfolding s'
    still i r e = ground arith

    pub vacated-Coherent : Coherent (vacated s pt j ffs swap copies) offset
    unfolding s'
    vacated-Coherent =
        let co = ok_s.mappings in
        record {
          layout = co.layout;
          top = co.top;
          resident = λ i r lt e.
              let (was, ne) = still i r e in
              let q = same_entry r (other_page i r lt was (ground arith)) in
              let res = co.resident i r lt was in
              record { pres = rw q res.pres; isswapped = rw q res.isswapped; base = rw q res.base };
          owned = λ i r lt e own.
              let (was, ne) = still i r e in
              let apart = other_page i r lt was (ground arith) in
              let q = same_entry r apart in
              let (k, d) = co.owned i r lt was (rw q at own) in
              (
                k,
                record {
                  small = d.small;
                  mapped = rw ne d.mapped;
                  back = left.kept k r d.small d.back apart;
                  same = λ h. d.same (rw q at h);
                },
              );
          unowned = λ i r lt e own.
              let (was, ne) = still i r e in
              let q = same_entry r (other_page i r lt was (ground arith)) in
              rw ne (co.unowned i r lt was (rw q at own));
          shadow = λ k r lt e.
              let (was, apart) = left.old k r lt e in
              let sh = co.shadow k r lt was in
              let q = same_entry r apart in
              let ne = other_frame sh.2 r sh.4 apart in
              (rw q sh.0, rw q sh.1, sh.2, sh.3, rw ne sh.4, rw ne sh.5);
          pool = left.pool;
          swaplist = left.region.0;
          paged = left.region.1;
        }

    pub vacated-FfsPool : FfsPool (vacated s pt j ffs swap copies) pool
    vacated-FfsPool =
        let fp = ok_s.frames in
        record {
          region = given.region;
          vacant = λ i lt free. elim (Bool-cases (i == j)) [
            | inl h ↦ (rw h refl, rw h refl)
            | inr h ↦
                let was = sym (given.others i (ground arith)) ∙ free in
                let v = fp.vacant i lt was in (rw h v.0, rw h v.1)
          ];
          mapped = λ i lt used. elim (Bool-cases (i == j)) [
            | inl h ↦ let n : i ≡ j = ground arith in cc (given.free, used, n)
            | inr h ↦
                let (r, was) = fp.mapped i lt (sym (given.others i (ground arith)) ∙ used) in
                (r, rw h was)
          ];
        }
