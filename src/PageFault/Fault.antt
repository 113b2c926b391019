-- ===== src/PageFault/Fault.antt =====
-- A page fault while no FFS frame is free, from the start of the handler's work to its end.
use os_virtual_mem.Prelude.{
  ℕ, ◌+◌, ◌%◌, ◌^◌, ◌<◌, ◌≡◌, refl, Bool, true, false, ◌&&◌, ◌||◌, none, some, Option, ◌≤◌, ◌≢◌,
  arith, Bool-cases, Option-cases, inl, inr, ap, ◌⊎◌, ◌∙◌,
}
use os_virtual_mem.Memory.{add32}
use os_virtual_mem.Vm.{
  Entry, PtRef, Vm, ok, halted, entry_at, maxpdptframe, maxffsframe, same_ref, no_frame,
  getffsframe, getswapframe, set_entry_self, set_entry_ne, with_entry, update, ◌>>◌,
}
use os_virtual_mem.PageFault.{
  choose_swapframe, reclaim_swapframe, move_pages, evict, service_fault, swap_get_evict_candidate,
}
use os_virtual_mem.PageFault.Coherent.{Resident, InSwap, Coherent, apart_of_flag}
use os_virtual_mem.PageFault.Choose.{
  Chosen, choose-own, choose-fresh, choose-taken, choose-exchanged,
}
use os_virtual_mem.PageFault.Outgoing.{Moved}
use os_virtual_mem.PageFault.Evict.{move_pages-new, move_pages-back, move_pages-exchange}
use os_virtual_mem.PageFault.Refill.{FfsPool}
use os_virtual_mem.PageFault.Ready.{copy_frame, Ready, Left, getswapframe-PageTaken}
use os_virtual_mem.PageFault.Stays.{Brings, installed-Coherent, installed-FfsPool}
use os_virtual_mem.PageFault.SwappedOut.{out-InSwap, still-InSwap}
use os_virtual_mem.PageFault.Served.{IsNew, Served, install_lem}

-- The mappings and the pool of free frames are coherent.
abbrev pub Keeps : Vm → (offset pool : ℕ) → Type 0
Keeps s offset pool = Coherent s offset × FfsPool s pool

module _ (s : Vm) (offset pool rnd : ℕ) (pt old : PtRef) (co : Coherent s offset)
    (fp : FfsPool s pool) (at : s.ptmap (rnd % 2048) ≡ some old)
    (full : getffsframe s ≡ ok no_frame s) (pt_out : (entry_at s pt).pres ≡ false) where
  i : ℕ
  i = rnd % 2048

  res : Resident s (rnd % 2048) old
  res = co.resident (rnd % 2048) old (omega arith) at

  apart : (same_ref old pt ≡ false) × (same_ref pt old ≡ false)
  apart = apart_of_flag s (λ e. e.pres) old pt res.pres pt_out

  -- the last steps, once the pages have moved
  finish :
      (s1 s2 : Vm) (f : ℕ) (inplace : Bool)
      → ((entry_at s pt).isvmalloc || (entry_at s pt).isswapped) ≡ true
      → ((entry_at s pt).isvmalloc && (entry_at s pt).isswapped) ≡ false
      → choose_swapframe pt old (rnd % 2048) s ≡ ok (f, inplace) s1
      → Chosen s pt old (rnd % 2048) s1 f inplace
      → move_pages pt old (rnd % 2048) (maxpdptframe s + rnd % 2048) f inplace s1 ≡ ok tt s2
      → Moved s s2 pt old (maxpdptframe s + rnd % 2048) f
      → (copy : Option ℕ) → Ready s s1 offset (rnd % 2048) f
      → Left s s1 s2 pt old (rnd % 2048) f copy
      → Brings s s2 pt (rnd % 2048) f copy
      → (s' : Vm) × (service_fault rnd pt s ≡ ok tt s')
        × Served s s' pt old (rnd % 2048) f
        × Keeps s' offset pool
        × ((entry_at s' pt).already_swapped ≡ (entry_at s2 pt).already_swapped)
        × (s'.ffs2swapmap (rnd % 2048) ≡ copy_frame s copy)
  unfolding service_fault evict
  finish s1 s2 f inplace some_flag not_both chosen ch moved mv copy rd lf br =
      let small : rnd % 2048 < 2048 = omega arith in
      let in_swap : maxffsframe s ≤ f = omega (arith, ch.range.1) in
      let lay = co.layout in
      let top = co.top in
      let sum : add32 (maxpdptframe s) (rnd % 2048) ≡ maxpdptframe s + rnd % 2048 = omega arith in
      let there : s2.ptmap (rnd % 2048) ≡ some old = ap (λ m. m (rnd % 2048)) mv.ptmap ∙ at in
      let e' : Entry = record (entry_at s2 pt) {
        base = (maxpdptframe s + rnd % 2048) % 2 ^ 20;
        pres = true;
        isvmalloc = false;
        isswapped = false;
        dirty = false;
      } in
      let s3 : Vm = record s2 { ptmap = update s2.ptmap (rnd % 2048) (some pt) } in
      let s' : Vm = with_entry s3 pt e' in
      let word : (maxpdptframe s + rnd % 2048) % 2 ^ 20 ≡ maxpdptframe s + rnd % 2048 =
        omega arith in
      let self = set_entry_self s2.entries pt e' in
      let old_ne = set_entry_ne s2.entries pt e' old apart.0 in
      let o = mv.old_entry in
      let (k, f_at, k_lt) = ch.range in
      (
        s',
        rw (pt_out, some_flag, not_both, full, at, sum, chosen, moved)
            (install_lem s2 (rnd % 2048) (maxpdptframe s + rnd % 2048) pt old there o.0),
        record {
          pt_entry = (
            ap (λ e. e.pres) self,
            ap (λ e. e.isswapped) self,
            ap (λ e. e.isvmalloc) self,
            ap (λ e. e.base) self ∙ word,
          );
          pt_words = mv.brought;
          old_entry = (
            ap (λ e. e.pres) old_ne ∙ o.0,
            ap (λ e. e.isswapped) old_ne ∙ o.1,
            ap (λ e. e.already_swapped) old_ne ∙ o.2,
            ap (λ e. e.base) old_ne ∙ o.3,
          );
          old_words = mv.kept;
          swapped_out = λ not_new. (
            k,
            f_at,
            out-InSwap s s1 s2 offset (rnd % 2048) f k pt old f_at k_lt s' copy rd lf br refl refl
                refl
                (
                  ap (λ e. e.pres) old_ne ∙ o.0,
                  ap (λ e. e.isswapped) old_ne ∙ o.1,
                  ap (λ e. e.already_swapped) old_ne ∙ o.2,
                  ap (λ e. e.base) old_ne ∙ o.3,
                  ap (λ e. e.isvmalloc) old_ne ∙ o.4 ∙ not_new,
                ),
          );
          still_swapped = λ q m w ne base.
              let q_old = (apart_of_flag s (λ e. e.pres) old q res.pres w.pres).1 in
              still-InSwap s s1 s2 s' offset (rnd % 2048) f m pt old q copy rd lf br refl refl refl
                w base (ch.spares q m w (λ _. base))
                (set_entry_ne s2.entries pt e' q ne ∙ lf.entries q q_old ∙ ch.swap_entry q m w ne);
          others = λ q a b.
              let ne = set_entry_ne s2.entries pt e' q b in
              let v = mv.others q a in
              (
                ap (λ e. e.pres) ne ∙ v.0,
                ap (λ e. e.isswapped) ne ∙ v.1,
                ap (λ e. e.base) ne ∙ v.2,
              );
          resident_words =
              λ i' small ne j lt. mv.spared (maxpdptframe s + i') j lt (omega arith) (omega arith);
          swapped_words = λ q m w ne j lt.
              let ws = w.small in
              mv.spared (entry_at s q).base j lt (omega (arith, w.base))
                (ch.spares q m w (λ _. ne));
          clean = ap (λ e. e.dirty) self;
          regions = lf.regions;
          ptmap = λ i'. rw mv.ptmap;
        },
        (
          installed-Coherent s offset (rnd % 2048) pt old co small at pt_out s1 s2 f copy in_swap rd
              lf mv br,
          installed-FfsPool s offset (rnd % 2048) pt old co small at pt_out s1 s2 f copy in_swap rd
              lf mv br pool fp,
        ),
        ap (λ e. e.already_swapped) self,
        lf.ffs_here,
      )

  flags :
      IsNew s pt ⊎ ((m : ℕ) × InSwap s m pt)
      → (((entry_at s pt).isvmalloc || (entry_at s pt).isswapped) ≡ true)
        × (((entry_at s pt).isvmalloc && (entry_at s pt).isswapped) ≡ false)
  flags (inl n) = rw (n.isvmalloc, n.isswapped) (refl, refl)
  flags (inr (m, w)) = rw (w.isvmalloc, w.isswapped) (refl, refl)

  -- a swap frame has been chosen, and the pages need not change places
  choose-Served :
      (s1 : Vm) (f : ℕ)
      → IsNew s pt ⊎ ((m : ℕ) × InSwap s m pt)
      → choose_swapframe pt old (rnd % 2048) s ≡ ok (f, false) s1
      → Chosen s pt old (rnd % 2048) s1 f false
      → Ready s s1 offset (rnd % 2048) f
      → (s' : Vm) × (service_fault rnd pt s ≡ ok tt s')
        × Served s s' pt old (rnd % 2048) f
        × Keeps s' offset pool
  choose-Served s1 f (inl n) chosen ch rd =
      let (s2, moved, mv, lf, same) =
        move_pages-new s offset (rnd % 2048) pt old co (omega arith) at apart.1 s1 f ch
          n.isswapped in
      let clear = ap (λ e. e.already_swapped) (same ∙ ch.pt_same refl) ∙ n.already_swapped in
      let (a, b) = flags (inl n) in
      let (s', run, served, keeps, _, _) =
        finish s1 s2 f false a b chosen ch moved mv none rd lf clear in
      (s', run, served, keeps)
  choose-Served s1 f (inr (m, w)) chosen ch rd =
      let (s2, moved, mv, lf, same) =
        move_pages-back s offset (rnd % 2048) pt old co (omega arith) at apart.1 s1 f m ch w in
      let owns = ap (λ e. e.already_swapped) (same ∙ ch.pt_same refl) ∙ w.already_swapped in
      let off : maxffsframe s + m ≢ f = λ e. ch.spares pt m w (λ h. cc) (w.base ∙ e) in
      let (a, b) = flags (inr (m, w)) in
      let (s', run, served, keeps, _, _) =
        finish s1 s2 f false a b chosen ch moved mv (some m) rd lf (owns, w, off) in
      (s', run, served, keeps)

  -- there is no swap frame for the page that would have to leave
  pub record Exhausted : Type 0 where
    pub isnew : IsNew s pt
    pub no_copy : (entry_at s old).already_swapped ≡ false
    pub no_frame_left : getswapframe s ≡ ok no_frame s
    pub no_candidate : swap_get_evict_candidate s ≡ none

  abbrev pub Outcome : Type 0
  Outcome =
      ((service_fault rnd pt s ≡ halted) × Exhausted)
      ⊎ ((s' : Vm) × (f : ℕ) × (service_fault rnd pt s ≡ ok tt s')
          × Served s s' pt old (rnd % 2048) f
          × Keeps s' offset pool)

  -- the pages change places
  exchange :
      (m : ℕ)
      → InSwap s m pt
      → (entry_at s old).already_swapped ≡ false
      → getswapframe s ≡ ok no_frame s
      → swap_get_evict_candidate s ≡ none
      → (s' : Vm) × (service_fault rnd pt s ≡ ok tt s')
        × Served s s' pt old (rnd % 2048) (maxffsframe s + m)
        × Keeps s' offset pool
        × ((entry_at s' pt).already_swapped ≡ false)
        × (s'.ffs2swapmap (rnd % 2048) ≡ none)
  exchange m w h got cand =
      let (s1, chosen, ch, now, rd) =
        choose-exchanged s offset (rnd % 2048) pt old co (omega arith) at h m w got cand in
      let (s2, moved, mv, lf, same) =
        move_pages-exchange s offset (rnd % 2048) pt old co (omega arith) at apart.1 s1
          (maxffsframe s + m) m ch w in
      let (a, b) = flags (inr (m, w)) in
      let clear = ap (λ e. e.already_swapped) (same ∙ now) in
      let (s', run, served, keeps, sw, none_here) =
        finish s1 s2 (maxffsframe s + m) true a b chosen ch moved mv none rd lf clear in
      (s', run, served, keeps, sw ∙ clear, none_here)

  crowded :
      IsNew s pt ⊎ ((m : ℕ) × InSwap s m pt)
      → (entry_at s old).already_swapped ≡ false
      → getswapframe s ≡ ok no_frame s
      → swap_get_evict_candidate s ≡ none
      → Outcome
  unfolding service_fault evict choose_swapframe reclaim_swapframe
  crowded (inl n) h got cand =
      let none_yet = co.unowned (rnd % 2048) old (omega arith) at h in
      inl (
        rw (pt_out, n.isvmalloc, n.isswapped, full, at, h, none_yet, got, cand, ◌>>◌, n.isswapped),
        record { isnew = n; no_copy = h; no_frame_left = got; no_candidate = cand },
      )
  crowded (inr (m, w)) h got cand =
      let (s', run, served, keeps, _, _) = exchange m w h got cand in
      inr (s', maxffsframe s + m, run, served, keeps)

  -- A fault on a page that is new or in swap, while no FFS frame is free and the mappings and the pool
  -- of free FFS frames are coherent: the handler halts only if the page is new, the page to evict has
  -- no swap frame, swap is exhausted and no resident page has a copy there. Else it returns, and the
  -- faulting page is in the evicted page's frame, with its own words if it was in swap; the evicted
  -- page is in a swap frame, with its own words if it was dirty or had a swap frame; the words and
  -- mappings of all other pages are kept; and the mappings and the pool of free FFS frames are
  -- coherent again.
  pub service_fault-evict : IsNew s pt ⊎ ((m : ℕ) × InSwap s m pt) → Outcome
  service_fault-evict faulting = elim (Bool-cases (entry_at s old).already_swapped) [
    | inl h ↦
        let (f, chosen, ch, rd) = choose-own s offset (rnd % 2048) pt old co (omega arith) at h in
        let (s', run, served, keeps) = choose-Served s f faulting chosen ch rd in
        inr (s', f, run, served, keeps)
    | inr h ↦ elim (getswapframe-PageTaken s offset co) [
      | inr (k, l, got, taken) ↦
          let (chosen, ch, rd) =
            choose-fresh s offset (rnd % 2048) pt old co (omega arith) at h k l got taken in
          let (s', run, served, keeps) =
            choose-Served (record s { swaplist = l }) (maxffsframe s + k) faulting chosen ch rd in
          inr (s', maxffsframe s + k, run, served, keeps)
      | inl got ↦ elim (Option-cases (swap_get_evict_candidate s)) [
        | inr (k, cand) ↦
            let (s1, chosen, ch, rd) =
              choose-taken s offset (rnd % 2048) pt old co (omega arith) at h pt_out got k cand in
            let (s', run, served, keeps) =
              choose-Served s1 (maxffsframe s + k) faulting chosen ch rd in
            inr (s', maxffsframe s + k, run, served, keeps)
        | inl cand ↦ crowded faulting h got cand
      ]
    ]
  ]

  -- A fault on a page in swap where, besides, swap is exhausted, no resident page has a copy there and
  -- the page to evict has none: the two pages change places. The page that comes in is in the frame of
  -- the other, with its words, but counts as clean and as without a swap frame, in its entry as in
  -- `ffs2swapmap`; the swap frame that it had is that of the other page.
  pub service_fault-exchange :
      (m : ℕ)
      → InSwap s m pt
      → (entry_at s old).already_swapped ≡ false
      → getswapframe s ≡ ok no_frame s
      → swap_get_evict_candidate s ≡ none
      → (s' : Vm) × (service_fault rnd pt s ≡ ok tt s')
        × ((entry_at s' pt).pres ≡ true)
        × ((entry_at s' pt).dirty ≡ false)
        × ((entry_at s' pt).already_swapped ≡ false)
        × (s'.ffs2swapmap (rnd % 2048) ≡ none)
        × ((entry_at s' pt).base ≡ maxpdptframe s + rnd % 2048)
        × ((entry_at s' old).base ≡ maxffsframe s + m)
        × ((j : ℕ)
            → j < 1024
            → s'.words (maxpdptframe s + rnd % 2048) j ≡ s.words (entry_at s pt).base j)
  service_fault-exchange m w h got cand =
      let (s', run, served, _, sw, none_here) = exchange m w h got cand in
      (
        s',
        run,
        served.pt_entry.0,
        served.clean,
        sw,
        none_here,
        served.pt_entry.3,
        served.old_entry.3,
        served.pt_words w.isswapped,
      )
