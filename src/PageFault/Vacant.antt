-- ===== src/PageFault/Vacant.antt =====
-- A page fault while a frame of FFS is free, from the start of the handler's work to its end.
use os_virtual_mem.Prelude.{
  ℕ, ◌+◌, ◌<◌, ◌≡◌, ◌≢◌, refl, true, false, none, some, arith, ◌==◌, if◌then◌else◌, inl, inr, ap,
  ◌⊎◌, ◌∙◌,
}
use os_virtual_mem.FreeList.{FreeList}
use os_virtual_mem.Vm.{
  PtRef, Vm, ok, entry_at, maxpdptframe, maxffsframe, same_ref, set_entry, set_entry_ne,
  getffsframe, no_frame,
}
use os_virtual_mem.PageFault.{service_fault}
use os_virtual_mem.PageFault.Coherent.{InSwap, Coherent}
use os_virtual_mem.PageFault.TakePage.{PageTaken, page_free, take_page_lem}
use os_virtual_mem.PageFault.Served.{IsNew}
use os_virtual_mem.PageFault.Refill.{
  FfsPool, arrived, given, fetched, word, run_new, run_back, pool_after,
}
use os_virtual_mem.PageFault.Arrive.{given-Coherent, fetched-Coherent, pt_now, brought, spared}

-- The page of `pt` is in FFS frame number `k`, which was free, with the words that it had in swap, and
-- all else is as it was.
pub record Arrived (s s' : Vm) (pt : PtRef) (k : ℕ) : Type 0 where
  pub free : page_free (maxpdptframe s) s.ffslist k ≡ true
  pub small : k < 2048
  pub pt_entry :
      ((entry_at s' pt).pres ≡ true)
      × ((entry_at s' pt).isswapped ≡ false)
      × ((entry_at s' pt).isvmalloc ≡ false)
      × ((entry_at s' pt).base ≡ maxpdptframe s + k)
  pub pt_words :
      (m : ℕ)
      → InSwap s m pt
      → (j : ℕ) → j < 1024
      → s'.words (maxpdptframe s + k) j ≡ s.words (maxffsframe s + m) j
  pub words : (g j : ℕ) → j < 1024 → g ≢ maxpdptframe s + k → s'.words g j ≡ s.words g j
  pub others : (q : PtRef) → same_ref q pt ≡ false → entry_at s' q ≡ entry_at s q
  pub ptmap : (i : ℕ) → s'.ptmap i ≡ (if i == k then some pt else s.ptmap i)
  pub still_swapped :
      (q : PtRef) (m : ℕ)
      → InSwap s m q
      → same_ref q pt ≡ false
      → (entry_at s q).base ≢ (entry_at s pt).base
      → InSwap s' m q
  pub regions : s'.regions ≡ s.regions

module _ (s : Vm) (offset pool : ℕ) (pt : PtRef) (co : Coherent s offset) (fp : FfsPool s pool)
    (k : ℕ) (l : FreeList) (got : PageTaken (maxpdptframe s) pool k s.ffslist l) where
  pt_fields :
      (s' : Vm)
      → s'.entries ≡ set_entry s.entries pt (arrived (entry_at s pt) (maxpdptframe s + k))
      → ((entry_at s' pt).pres ≡ true)
        × ((entry_at s' pt).isswapped ≡ false)
        × ((entry_at s' pt).isvmalloc ≡ false)
        × ((entry_at s' pt).base ≡ maxpdptframe s + k)
  pt_fields s' en =
      let now = pt_now s offset pool pt co fp k l got in
      (
        rw en (ap (λ e. e.pres) now),
        rw en (ap (λ e. e.isswapped) now),
        rw en (ap (λ e. e.isvmalloc) now),
        rw en (ap (λ e. e.base) now ∙ word s offset pool pt co fp k l got),
      )

  -- another page in swap stays there
  still :
      (s' : Vm) (q : PtRef) (m : ℕ)
      → InSwap s m q
      → same_ref q pt ≡ false
      → s'.entries ≡ set_entry s.entries pt (arrived (entry_at s pt) (maxpdptframe s + k))
      → s'.swap2ffsmap m ≡ none
      → s'.swaplist ≡ s.swaplist
      → s'.regions ≡ s.regions
      → InSwap s' m q
  still s' q m w ne en alone list regions =
      let e' = arrived (entry_at s pt) (maxpdptframe s + k) in
      let same : entry_at s' q ≡ entry_at s q = rw en (set_entry_ne s.entries pt e' q ne) in
      record {
        small = w.small;
        isswapped = rw same w.isswapped;
        isvmalloc = rw same w.isvmalloc;
        pres = rw same w.pres;
        already_swapped = rw same w.already_swapped;
        base = rw (same, regions) w.base;
        alone = alone;
        taken = rw (list, regions) w.taken;
      }

  given-Arrived : IsNew s pt → Arrived s (given s pt k l) pt k
  given-Arrived n = record {
    free = got.free;
    small = got.small;
    pt_entry = pt_fields (given s pt k l) refl;
    pt_words = λ m w. cc (n.isswapped, w.isswapped);
    words = λ g j lt ne. refl;
    others = set_entry_ne s.entries pt (arrived (entry_at s pt) (maxpdptframe s + k));
    ptmap = λ i. refl;
    still_swapped = λ q m w ne _. still (given s pt k l) q m w ne refl w.alone refl refl;
    regions = refl;
  }

  fetched-Arrived : (m : ℕ) → InSwap s m pt → Arrived s (fetched s pt k m l) pt k
  fetched-Arrived m w = record {
    free = got.free;
    small = got.small;
    pt_entry = pt_fields (fetched s pt k m l) refl;
    pt_words = λ n v j lt.
        let same : n ≡ m = omega (arith, v.base, w.base) in
        rw same (brought s offset pool pt co fp k l got m w j lt);
    words = λ g j lt ne. spared s offset pool pt co fp k l got m w g j lt ne;
    others = set_entry_ne s.entries pt (arrived (entry_at s pt) (maxpdptframe s + k));
    ptmap = λ i. refl;
    still_swapped = λ q n v ne base.
        let off : (n == m) ≡ false = ground (arith, v.base, w.base) in
        still (fetched s pt k m l) q n v ne refl (rw off v.alone) refl refl;
    regions = refl;
  }

  -- the fault is served, and the invariants hold again
  arrive :
      (rnd : ℕ)
      → IsNew s pt ⊎ ((m : ℕ) × InSwap s m pt)
      → (s' : Vm) × (service_fault rnd pt s ≡ ok tt s')
        × Coherent s' offset
        × FfsPool s' pool
        × Arrived s s' pt k
  arrive rnd (inl n) = (
    given s pt k l,
    run_new s offset pool pt co fp k l got rnd n,
    given-Coherent s offset pool pt co fp k l got n,
    pool_after s offset pool pt co fp k l got (given s pt k l) refl refl
        (let h : (k == k) ≡ true = ground arith in rw h refl)
        (λ j ne. let h : (j == k) ≡ false = ground arith in rw h refl) (λ j ne. refl),
    given-Arrived n,
  )
  arrive rnd (inr (m, w)) = (
    fetched s pt k m l,
    run_back s offset pool pt co fp k l got rnd m w,
    fetched-Coherent s offset pool pt co fp k l got m w,
    pool_after s offset pool pt co fp k l got (fetched s pt k m l) refl refl
        (let h : (k == k) ≡ true = ground arith in rw h refl)
        (λ j ne. let h : (j == k) ≡ false = ground arith in rw h refl)
        (λ j ne. let h : (j == k) ≡ false = ground arith in rw h refl),
    fetched-Arrived m w,
  )

-- A fault on a page that is new or in swap, while the mappings and the pool of free FFS frames are
-- coherent: unless no frame is free, the handler returns, the page is in a frame that was free, with
-- the words that it had in swap, all other pages keep their entries and words, and the mappings and
-- the pool are coherent again.
pub service_fault-refill :
    (s : Vm) (offset pool rnd : ℕ) (pt : PtRef)
    → Coherent s offset
    → FfsPool s pool
    → IsNew s pt ⊎ ((m : ℕ) × InSwap s m pt)
    → ((getffsframe s ≡ ok no_frame s) × ((k : ℕ) → page_free (maxpdptframe s) s.ffslist k ≡ false))
      ⊎ ((k : ℕ) × (s' : Vm) × (service_fault rnd pt s ≡ ok tt s')
          × Coherent s' offset
          × FfsPool s' pool
          × Arrived s s' pt k)
unfolding getffsframe
service_fault-refill s offset pool rnd pt co fp faulting =
    elim (take_page_lem (maxpdptframe s) pool s.ffslist fp.region) [
      | inl (none_left, used) ↦ inl (rw none_left refl, used)
      | inr (k, l, got) ↦
          let (s', run, co', fp', arr) = arrive s offset pool pt co fp k l got rnd faulting in
          inr (k, s', run, co', fp', arr)
    ]
