-- ===== src/PageFault/Refill.antt =====
-- A page fault while a frame of FFS is free.
use os_virtual_mem.Prelude.{
  ℕ, ◌+◌, ◌*◌, ◌/◌, ◌%◌, ◌^◌, ◌<◌, ◌≡◌, ◌≢◌, refl, true, false, none, some, arith, ◌==◌, ap, sym,
  Bool-cases, inl, inr, ◌∙◌,
}
use os_virtual_mem.Memory.{sub32}
use os_virtual_mem.FreeList.{FreeList}
use os_virtual_mem.Vm.{
  Entry, PtRef, Vm, ok, entry_at, maxpdptframe, maxffsframe, same_ref, no_frame, getffsframe,
  with_entry, update,
}
use os_virtual_mem.Vm.Copy.{copy_page}
use os_virtual_mem.PageFault.{refill, service_fault}
use os_virtual_mem.PageFault.Coherent.{InSwap, Coherent, apart_of_flag}
use os_virtual_mem.PageFault.TakePage.{Region, PageTaken, page_free}
use os_virtual_mem.PageFault.Served.{IsNew, install_vacant}

-- The frames of FFS: the free ones are whole pages to which nothing is mapped, and a page is mapped to
-- each of the others.
pub record FfsPool (s : Vm) (offset : ℕ) : Type 0 where
  pub region : Region (maxpdptframe s) offset s.ffslist
  pub vacant :
      (k : ℕ)
      → k < 2048
      → page_free (maxpdptframe s) s.ffslist k ≡ true
      → (s.ptmap k ≡ none) × (s.ffs2swapmap k ≡ none)
  pub mapped :
      (k : ℕ)
      → k < 2048
      → page_free (maxpdptframe s) s.ffslist k ≡ false
      → (r : PtRef) × (s.ptmap k ≡ some r)

-- the entry of a page that has come into frame `f`
abbrev pub arrived : Entry → ℕ → Entry
arrived e f = record e {
  base = f % 2 ^ 20;
  pres = true;
  isvmalloc = false;
  isswapped = false;
  dirty = false;
}

-- a new page in FFS frame number `k`
abbrev pub given : Vm → PtRef → ℕ → FreeList → Vm
given s pt k l =
    with_entry (record s { ffslist = l; ptmap = update s.ptmap k (some pt) }) pt
      (arrived (entry_at s pt) (maxpdptframe s + k))

-- a page from swap frame number `m` in FFS frame number `k`
abbrev pub fetched : Vm → PtRef → ℕ → ℕ → FreeList → Vm
fetched s pt k m l =
    with_entry
      (record s {
        ffslist = l;
        ptmap = update s.ptmap k (some pt);
        words = copy_page (maxffsframe s + m) (maxpdptframe s + k) false s.words;
        ffs2swapmap = update s.ffs2swapmap k (some (maxffsframe s + m));
        swap2ffsmap = update s.swap2ffsmap m (some pt);
      })
      pt (arrived (entry_at s pt) (maxpdptframe s + k))

module _ (s : Vm) (offset pool : ℕ) (pt : PtRef) (co : Coherent s offset) (fp : FfsPool s pool)
    (k : ℕ) (l : FreeList) (got : PageTaken (maxpdptframe s) pool k s.ffslist l) where
  getffs : getffsframe s ≡ ok (maxpdptframe s + k) (record s { ffslist = l })
  unfolding getffsframe
  getffs =
      let page : (maxpdptframe s + k) * 4096 / 4096 ≡ maxpdptframe s + k = omega arith in
      rw got.run (ap (λ (z : ℕ). ok z (record s { ffslist = l })) page)

  real : (maxpdptframe s + k == no_frame) ≡ false
  real = let t = co.top in let b = co.layout in let h = got.small in ground arith

  number : sub32 (maxpdptframe s + k) (maxpdptframe s) ≡ k
  number = let t = co.top in let b = co.layout in let h = got.small in omega arith

  pub run_new : (rnd : ℕ) → IsNew s pt → service_fault rnd pt s ≡ ok tt (given s pt k l)
  unfolding service_fault refill
  run_new rnd n =
      let none_yet = (fp.vacant k got.small got.free).0 in
      rw (n.pres, n.isvmalloc, n.isswapped, getffs, real, n.isswapped, number, n.isvmalloc)
        (install_vacant (record s { ffslist = l }) k (maxpdptframe s + k) pt (rw none_yet refl))

  pub run_back : (rnd m : ℕ) → InSwap s m pt → service_fault rnd pt s ≡ ok tt (fetched s pt k m l)
  unfolding service_fault refill
  run_back rnd m w =
      let vac = fp.vacant k got.small got.free in
      let none_yet = vac.0 in
      let b = w.base in
      let t = co.top in
      let ms = w.small in
      let slot : sub32 (maxffsframe s + m) (maxffsframe s) ≡ m = omega arith in
      rw
        (
          w.pres, w.isvmalloc, w.isswapped, getffs, real, w.isswapped, number, b, slot, vac.1,
          w.alone,
        )
        (install_vacant
          (record s {
            ffslist = l;
            words = copy_page (maxffsframe s + m) (maxpdptframe s + k) false s.words;
            ffs2swapmap = update s.ffs2swapmap k (some (maxffsframe s + m));
            swap2ffsmap = update s.swap2ffsmap m (some pt);
          })
          k (maxpdptframe s + k) pt (rw none_yet refl))

  pub word : (maxpdptframe s + k) % 2 ^ 20 ≡ maxpdptframe s + k
  word = let t = co.top in let b = co.layout in let h = got.small in omega arith

  -- a page that is resident is not the faulting one
  pub resident_apart :
      (pt_out : (entry_at s pt).pres ≡ false) (r : PtRef)
      → (entry_at s r).pres ≡ true
      → same_ref r pt ≡ false
  resident_apart out r h = (apart_of_flag s (λ e. e.pres) r pt h out).0

  pub pool_after :
      (s' : Vm)
      → s'.ffslist ≡ l
      → s'.regions ≡ s.regions
      → s'.ptmap k ≡ some pt
      → ((j : ℕ) → j ≢ k → s'.ptmap j ≡ s.ptmap j)
      → ((j : ℕ) → j ≢ k → s'.ffs2swapmap j ≡ s.ffs2swapmap j)
      → FfsPool s' pool
  pool_after s' list regions here pm fm = record {
    region = rw (list, regions) got.region;
    vacant = λ j lt free.
        let f : page_free (maxpdptframe s) l j ≡ true = rw (list, regions) at free in
        let ne : j ≢ k = λ (h : j ≡ k). cc (got.taken, f, h) in
        let v = fp.vacant j lt (sym (got.others j ne) ∙ f) in (pm j ne ∙ v.0, fm j ne ∙ v.1);
    mapped = λ j lt used.
        let f : page_free (maxpdptframe s) l j ≡ false = rw (list, regions) at used in
        elim (Bool-cases (j == k)) [
          | inl h ↦ let n : j ≡ k = ground arith in (pt, rw n here)
          | inr h ↦
              let ne : j ≢ k = ground arith in
              let (r, was) = fp.mapped j lt (sym (got.others j ne) ∙ f) in (r, pm j ne ∙ was)
        ];
  }
