-- ===== src/PageFault/Choose.antt =====
-- `choose_swapframe`: the frame that it picks can take the page that leaves FFS.
use os_virtual_mem.Prelude.{
  ℕ, ◌+◌, ◌<◌, ◌≡◌, ◌≢◌, refl, Bool, true, false, none, some, arith, ◌==◌, ap, sym, ◌∙◌,
}
use os_virtual_mem.Memory.{add32, sub32, max_swap_size}
use os_virtual_mem.FreeList.{FreeList}
use os_virtual_mem.Vm.{
  Entry, PtRef, Vm, ok, entry_at, maxpdptframe, maxffsframe, no_frame, getswapframe, same_ref,
  set_entry, set_entry_self, set_entry_ne, with_entry, update,
}
use os_virtual_mem.PageFault.{swap_get_evict_candidate, choose_swapframe}
use os_virtual_mem.PageFault.Coherent.{InSwap, Coherent, apart_of_flag}
use os_virtual_mem.PageFault.TakePage.{PageTaken}
use os_virtual_mem.PageFault.Ready.{Ready}
use os_virtual_mem.PageFault.Leave.{own-Ready, fresh-Ready, taken-Ready, exchanged-Ready}
use os_virtual_mem.PageFault.Swapframe.{swap_candidate_lem, set_entry-keeps}

-- What the choice of a swap frame comes to.
pub record Chosen (s : Vm) (pt old : PtRef) (i : ℕ) (s1 : Vm) (f : ℕ) (inplace : Bool)
    : Type 0 where
  pub range : (k : ℕ) × (f ≡ maxffsframe s + k) × (k < 2048)
  pub words : s1.words ≡ s.words
  pub ptmap : s1.ptmap ≡ s.ptmap
  pub regions : s1.regions ≡ s.regions
  pub old_same : entry_at s1 old ≡ entry_at s old
  pub pt_same : inplace ≡ false → entry_at s1 pt ≡ entry_at s pt
  pub pt_base : (entry_at s1 pt).base ≡ (entry_at s pt).base
  pub pt_swapped : (entry_at s1 pt).isswapped ≡ (entry_at s pt).isswapped
  pub others :
      (q : PtRef)
      → ((entry_at s1 q).pres ≡ (entry_at s q).pres)
        × ((entry_at s1 q).isswapped ≡ (entry_at s q).isswapped)
        × ((entry_at s1 q).base ≡ (entry_at s q).base)
  pub swapped_in_place :
      inplace ≡ true → ((entry_at s pt).isswapped ≡ true) × (f ≡ (entry_at s pt).base)
  pub clean :
      (entry_at s old).dirty ≡ false
      → (entry_at s old).already_swapped ≡ true
      → (inplace ≡ false) × ((j : ℕ) → j < 1024 → s.words f j ≡ s.words (maxpdptframe s + i) j)
  pub spares :
      (q : PtRef) (k : ℕ)
      → InSwap s k q
      → (inplace ≡ true → (entry_at s q).base ≢ (entry_at s pt).base)
      → (entry_at s q).base ≢ f
  pub swap_entry :
      (q : PtRef) (k : ℕ) → InSwap s k q → same_ref q pt ≡ false → entry_at s1 q ≡ entry_at s q

module _ (s : Vm) (offset i : ℕ) (pt old : PtRef) (co : Coherent s offset) (small : i < 2048)
    (at : s.ptmap i ≡ some old) where
  -- the old page has a swap frame of its own
  pub choose-own :
      (entry_at s old).already_swapped ≡ true
      → (f : ℕ) × (choose_swapframe pt old i s ≡ ok (f, false) s)
        × Chosen s pt old i s f false
        × Ready s s offset i f
  unfolding choose_swapframe
  choose-own h =
      let (k, c) = co.owned i old small at h in
      (
        maxffsframe s + k,
        rw (h, c.mapped),
        record {
          range = (k, refl, c.small);
          words = refl;
          ptmap = refl;
          regions = refl;
          old_same = refl;
          pt_same = λ _. refl;
          pt_base = refl;
          pt_swapped = refl;
          others = λ q. (refl, refl, refl);
          swapped_in_place = λ e. cc;
          clean = λ d _. (refl, c.same d);
          spares = λ q m w _ e.
              let n : m ≡ k = omega (arith, w.base, e) in cc (c.back, ap s.swap2ffsmap n, w.alone);
          swap_entry = λ q m w ne. refl;
        },
        own-Ready s offset i old co small at k c,
      )

  -- a frame of the free pool
  pub choose-fresh :
      (entry_at s old).already_swapped ≡ false
      → (k : ℕ) (l : FreeList) → getswapframe s ≡ ok (maxffsframe s + k) (record s { swaplist = l })
      → PageTaken (maxffsframe s) offset k s.swaplist l
      → (choose_swapframe pt old i s ≡ ok (maxffsframe s + k, false) (record s { swaplist = l }))
        × Chosen s pt old i (record s { swaplist = l }) (maxffsframe s + k) false
        × Ready s (record s { swaplist = l }) offset i (maxffsframe s + k)
  unfolding choose_swapframe
  choose-fresh h k l got pg =
      let lt = pg.small in
      let none_yet = co.unowned i old small at h in
      let top = co.top in
      let real : (maxffsframe s + k == no_frame) ≡ false = ground arith in
      (
        rw (h, none_yet, got, real),
        record {
          range = (k, refl, lt);
          words = refl;
          ptmap = refl;
          regions = refl;
          old_same = refl;
          pt_same = λ _. refl;
          pt_base = refl;
          pt_swapped = refl;
          others = λ q. (refl, refl, refl);
          swapped_in_place = λ e. cc;
          clean = λ _ e. cc;
          spares =
              λ q m w _ e. let n : m ≡ k = omega (arith, w.base, e) in cc (pg.free, w.taken, n);
          swap_entry = λ q m w ne. refl;
        },
        fresh-Ready s offset i old co small at h k l pg,
      )

  -- the frame of a page that is resident, whose copy it was
  pub choose-taken :
      (entry_at s old).already_swapped ≡ false
      → (entry_at s pt).pres ≡ false
      → getswapframe s ≡ ok no_frame s
      → (k : ℕ) → swap_get_evict_candidate s ≡ some k
      → (s1 : Vm) × (choose_swapframe pt old i s ≡ ok (maxffsframe s + k, false) s1)
        × Chosen s pt old i s1 (maxffsframe s + k) false
        × Ready s s1 offset i (maxffsframe s + k)
  unfolding choose_swapframe
  choose-taken h out got k cand =
      let none_yet = co.unowned i old small at h in
      let (tmp, held, here, lt) =
        swap_candidate_lem max_swap_size 0 s k (unfold swap_get_evict_candidate in cand) in
      let sh = co.shadow k tmp lt held in
      let e' : Entry = record (entry_at s tmp) { already_swapped = false; dirty = true } in
      let s1 : Vm = record s {
        entries = set_entry s.entries tmp e';
        ffs2swapmap = update s.ffs2swapmap (sub32 (entry_at s tmp).base (maxpdptframe s)) none;
      } in
      let top = co.top in
      let sum : add32 k (maxffsframe s) ≡ maxffsframe s + k = omega arith in
      let apart = apart_of_flag s (λ e. e.already_swapped) tmp old sh.1 h in
      let apart_pt = apart_of_flag s (λ e. e.pres) tmp pt here out in
      (
        s1,
        rw (h, none_yet, got, cand, held) (ap (λ (z : ℕ). ok (z, false) s1) sum),
        record {
          range = (k, refl, lt);
          words = refl;
          ptmap = refl;
          regions = refl;
          old_same = set_entry_ne s.entries tmp e' old apart.1;
          pt_same = λ _. set_entry_ne s.entries tmp e' pt apart_pt.1;
          pt_base = ap (λ e. e.base) (set_entry_ne s.entries tmp e' pt apart_pt.1);
          pt_swapped = ap (λ e. e.isswapped) (set_entry_ne s.entries tmp e' pt apart_pt.1);
          others = λ q. (
            set_entry-keeps (λ e. e.pres) s.entries tmp e' q refl,
            set_entry-keeps (λ e. e.isswapped) s.entries tmp e' q refl,
            set_entry-keeps (λ e. e.base) s.entries tmp e' q refl,
          );
          swapped_in_place = λ e. cc;
          clean = λ _ e. cc;
          spares = λ q m w _ e.
              let n : m ≡ k = omega (arith, w.base, e) in cc (held, ap s.swap2ffsmap n, w.alone);
          swap_entry = λ q m w ne.
              set_entry_ne s.entries tmp e' q (apart_of_flag s (λ e. e.pres) tmp q here w.pres).1;
        },
        taken-Ready s offset i old co small at h k tmp lt held,
      )

  -- the frame of the faulting page itself
  pub choose-exchanged :
      (entry_at s old).already_swapped ≡ false
      → (m : ℕ) → InSwap s m pt
      → getswapframe s ≡ ok no_frame s
      → swap_get_evict_candidate s ≡ none
      → (s1 : Vm) × (choose_swapframe pt old i s ≡ ok (maxffsframe s + m, true) s1)
        × Chosen s pt old i s1 (maxffsframe s + m) true
        × (entry_at s1 pt ≡ record (entry_at s pt) { already_swapped = false; dirty = true })
        × Ready s s1 offset i (maxffsframe s + m)
  unfolding choose_swapframe
  choose-exchanged h m w got cand =
      let none_yet = co.unowned i old small at h in
      let e' : Entry = record (entry_at s pt) { already_swapped = false; dirty = true } in
      let s1 : Vm = with_entry s pt e' in
      let top = co.top in
      let lt = w.small in
      let sum : add32 (sub32 (entry_at s pt).base (maxffsframe s)) (maxffsframe s)
          ≡ maxffsframe s + m =
        omega (arith, w.base) in
      let res = co.resident i old small at in
      let apart = apart_of_flag s (λ e. e.pres) old pt res.pres w.pres in
      (
        s1,
        rw (h, none_yet, got, cand, w.isswapped)
            (ap (λ (z : ℕ). ok (z, true) (with_entry s pt (record e' { isswapped = true }))) sum),
        record {
          range = (m, refl, w.small);
          words = refl;
          ptmap = refl;
          regions = refl;
          old_same = set_entry_ne s.entries pt e' old apart.0;
          pt_same = λ e. cc;
          pt_base = ap (λ e. e.base) (set_entry_self s.entries pt e');
          pt_swapped = ap (λ e. e.isswapped) (set_entry_self s.entries pt e');
          others = λ q. (
            set_entry-keeps (λ e. e.pres) s.entries pt e' q refl,
            set_entry-keeps (λ e. e.isswapped) s.entries pt e' q refl,
            set_entry-keeps (λ e. e.base) s.entries pt e' q refl,
          );
          swapped_in_place = λ _. (w.isswapped, sym w.base);
          clean = λ _ e. cc;
          spares = λ q k v ne e. ne refl (e ∙ sym w.base);
          swap_entry = λ q k v ne. set_entry_ne s.entries pt e' q ne;
        },
        set_entry_self s.entries pt e',
        exchanged-Ready s offset i old co small at h pt m w,
      )
