-- ===== src/KernelService/FreeResident.antt =====
-- `free_vpage` of a page in a frame of FFS: the frame is free, and its copy in swap if it has one.
use os_virtual_mem.Prelude.{
  ℕ, ◌+◌, ◌*◌, ◌<◌, ◌≡◌, ◌≢◌, refl, Bool, true, false, none, some, Option, arith, ◌==◌, leb, ap,
  sym, ◌∙◌, inl, inr, Bool-cases,
}
use os_virtual_mem.Memory.{sub32}
use os_virtual_mem.FreeList.{FreeList}
use os_virtual_mem.Vm.{
  PtRef, Vm, ok, zero_entry, entry_at, maxpdptframe, maxffsframe, set_entry_self, set_entry_ne,
  update, frame_addr,
}
use os_virtual_mem.KernelService.{free_ffs_page, free_present}
use os_virtual_mem.PageFault.Coherent.{HasCopy, apart_of_flag}
use os_virtual_mem.PageFault.TakePage.{page_free}
use os_virtual_mem.PageFault.Always.{IsPaging}
use os_virtual_mem.KernelService.GivePage.{PageGiven, give_page_lem}
use os_virtual_mem.KernelService.Release.{
  vacated, CopiesLeft, other_page, other_frame, vacated-Coherent, vacated-FfsPool,
}
use os_virtual_mem.KernelService.Released.{
  Placed, freeswap_run, freeffs_run, SwapLeft, SwapLeft-given, InSwap-stays, Frees, release,
}

module _ (s : Vm) (offset pool : ℕ) (pt : PtRef) (ok_s : IsPaging s offset pool)
    (placed : Placed s.regions) where
  module _ (j : ℕ) (small : j < 2048) (at : s.ptmap j ≡ some pt)
      (old : (entry_at s pt).isvmalloc ≡ false) where
    ffs_used : page_free (maxpdptframe s) s.ffslist j ≡ false
    ffs_used = elim (Bool-cases (page_free (maxpdptframe s) s.ffslist j)) [
      | inl h ↦ cc ((ok_s.frames.vacant j small h).0, at)
      | inr h ↦ h
    ]

    real_base : (entry_at s pt).base ≡ maxpdptframe s + j
    real_base = (ok_s.mappings.resident j pt small at).base

    in_ffs : leb s.regions.minvstack (frame_addr (maxpdptframe s + j)) ≡ false
    in_ffs =
        let t = ok_s.mappings.top in
        let b = ok_s.mappings.layout in
        let v = placed.minvstack in
        let m = placed.maxswap in
        let addr : frame_addr (maxpdptframe s + j) ≡ (maxpdptframe s + j) * 4096 = omega arith in
        ground arith

    slot : sub32 (maxpdptframe s + j) (maxpdptframe s) ≡ j
    slot = let t = ok_s.mappings.top in let b = ok_s.mappings.layout in omega arith

    copy_used : (k : ℕ) → HasCopy s j k pt → page_free (maxffsframe s) s.swaplist k ≡ false
    copy_used k c = elim (Bool-cases (page_free (maxffsframe s) s.swaplist k)) [
      | inl h ↦ cc (ok_s.mappings.pool k c.small h, c.back)
      | inr h ↦ h
    ]

    module _ (ffs : FreeList) (given : PageGiven (maxpdptframe s) pool j s.ffslist ffs) where
      run_alone :
          (nofail : Bool)
          → (entry_at s pt).already_swapped ≡ false
          → release nofail pt s ≡ ok tt (vacated s pt j ffs s.swaplist s.swap2ffsmap)
      unfolding free_present free_ffs_page
      run_alone nofail alone =
          let co = ok_s.mappings in
          rw
            (
              (co.resident j pt small at).pres,
              old,
              real_base,
              in_ffs,
              freeffs_run s placed co.top pool j ffs small co.layout given,
              slot,
              alone,
            )
            refl

      left_alone :
          (entry_at s pt).already_swapped ≡ false → CopiesLeft s pt offset s.swaplist s.swap2ffsmap
      left_alone alone =
          let co = ok_s.mappings in
          record {
            old = λ k r lt e.
                (e, (apart_of_flag s (λ e. e.already_swapped) r pt (co.shadow k r lt e).1 alone).0);
            kept = λ k r lt e ne. e;
            pool = co.pool;
            region = (co.swaplist, co.paged);
          }

      module _ (k : ℕ) (c : HasCopy s j k pt) (swap : FreeList)
          (swap_given : PageGiven (maxffsframe s) offset k s.swaplist swap) where
        run_copied :
            (nofail : Bool)
            → (entry_at s pt).already_swapped ≡ true
            → release nofail pt s ≡ ok tt (vacated s pt j ffs swap (update s.swap2ffsmap k none))
        unfolding free_present free_ffs_page
        run_copied nofail copied =
            let co = ok_s.mappings in
            let s1 : Vm = record s { ffslist = ffs; ptmap = update s.ptmap j none } in
            let small' = c.small in
            let top = co.top in
            let swap_slot : sub32 (maxffsframe s + k) (maxffsframe s) ≡ k = omega arith in
            rw
              (
                (co.resident j pt small at).pres,
                old,
                real_base,
                in_ffs,
                freeffs_run s placed co.top pool j ffs small co.layout given,
                slot,
                copied,
                c.mapped,
                freeswap_run s1 placed co.top offset k swap c.small swap_given,
                swap_slot,
              )
              refl

        left_copied : CopiesLeft s pt offset swap (update s.swap2ffsmap k none)
        left_copied =
            let co = ok_s.mappings in
            record {
              old = λ m r lt e. elim (Bool-cases (m == k)) [
                | inl h ↦ cc (rw h at e)
                | inr h ↦
                    let was : s.swap2ffsmap m ≡ some r = rw h at e in
                    let sh = co.shadow m r lt was in
                    (
                      was,
                      other_page s offset pool pt ok_s j small at sh.2 r sh.3 sh.4 (λ n.
                          let same : maxffsframe s + m ≡ maxffsframe s + k =
                            cc (sh.5, c.mapped, ap s.ffs2swapmap n) in
                          ground arith),
                    )
              ];
              kept = λ m r lt e ne. elim (Bool-cases (m == k)) [
                | inl h ↦
                    let n : m ≡ k = ground arith in
                    let q : r ≡ pt = cc (ap s.swap2ffsmap n, e, c.back) in ground arith
                | inr h ↦ rw h e
              ];
              pool = λ m lt free. elim (Bool-cases (m == k)) [
                | inl h ↦ rw h refl
                | inr h ↦ rw h (co.pool m lt (sym (swap_given.others m (ground arith)) ∙ free))
              ];
              region = swap_given.region;
            }

    -- the frame of the page is the only one
    only_frame : (i : ℕ) → i < 2048 → s.ptmap i ≡ some pt → i ≡ j
    only_frame i lt e =
        let co = ok_s.mappings in
        omega (arith, (co.resident i pt lt e).base, (co.resident j pt small at).base)

    released :
        (nofail : Bool) (ffs swap : FreeList) (copies : ℕ → Option PtRef) (k0 : ℕ)
        → PageGiven (maxpdptframe s) pool j s.ffslist ffs
        → CopiesLeft s pt offset swap copies
        → SwapLeft s k0 swap copies
        → ((k : ℕ) → k < 2048 → s.swap2ffsmap k ≡ none → k ≢ k0)
        → release nofail pt s ≡ ok tt (vacated s pt j ffs swap copies)
        → ((m : ℕ)
            → m < 2048
            → s.swap2ffsmap m ≡ some pt
            → (copies m ≡ none) × (page_free (maxffsframe s) swap m ≡ true))
        → Frees s offset pool pt (release nofail pt s)
    released nofail ffs swap copies k0 given left stays off run copy = (
      vacated s pt j ffs swap copies,
      run,
      record {
        mappings = vacated-Coherent s offset pool pt ok_s j small at ffs swap copies given left;
        frames = vacated-FfsPool s offset pool pt ok_s j small at ffs swap copies given left;
      },
      record {
        entry = set_entry_self s.entries pt zero_entry;
        others = λ q h. set_entry_ne s.entries pt zero_entry q h;
        frame = λ i lt e.
            let n = only_frame i lt e in
            (ground arith, ap (page_free (maxpdptframe s) ffs) n ∙ given.free);
        copy = copy;
        swapped = λ m w. cc ((ok_s.mappings.resident j pt small at).pres, w.pres);
        copy_kept = λ k r lt e ne. left.kept k r lt e ne;
        kept = λ i r e ne.
            let apart = other_frame s offset pool pt ok_s j small at i r e ne in rw apart e;
        shrinks =
            λ i r e. elim (Bool-cases (i == j)) [ inl h ↦ cc (rw h at e) | inr h ↦ rw h at e ];
        swap_kept = λ k r w ne _.
            InSwap-stays s (vacated s pt j ffs swap copies) k0 k r w (off k w.small w.alone)
              (set_entry_ne s.entries pt zero_entry r ne) refl
              record { stays = stays.stays; more = stays.more };
        swap_grows = λ k lt. stays.more k;
        words = refl;
        regions = refl;
        procs = refl;
        n_free_vpages = refl;
      },
    )

    pub free_resident : (nofail : Bool) → Frees s offset pool pt (release nofail pt s)
    free_resident nofail =
        let co = ok_s.mappings in
        let (ffs, given) =
          give_page_lem (maxpdptframe s) pool s.ffslist j ok_s.frames.region small ffs_used in
        elim (Bool-cases (entry_at s pt).already_swapped) [
          | inl copied ↦
              let (k, c) = co.owned j pt small at copied in
              let (swap, back) =
                give_page_lem (maxffsframe s) offset s.swaplist k (co.swaplist, co.paged) c.small
                  (copy_used k c) in
              released nofail ffs swap (update s.swap2ffsmap k none) k given
                (left_copied ffs given k c swap back) (SwapLeft-given s offset k swap back)
                (λ m lt e n. cc (c.back, e, n)) (run_copied ffs given k c swap back nofail copied)
                λ m lt e.
                  let sh = co.shadow m pt lt e in
                  let n = only_frame sh.2 sh.3 sh.4 in
                  let same : maxffsframe s + m ≡ maxffsframe s + k =
                    cc (sh.5, c.mapped, ap s.ffs2swapmap n) in
                  let q : m ≡ k = omega arith in
                  (ground arith, ap (page_free (maxffsframe s) swap) q ∙ back.free)
          | inr alone ↦
              released nofail ffs s.swaplist s.swap2ffsmap 2048 given (left_alone ffs given alone)
                (record { stays = λ k ne e used. (e, used); more = λ k free. free })
                (λ m lt e n. absurd (omega arith)) (run_alone ffs given nofail alone)
                λ m lt e. cc ((co.shadow m pt lt e).1, alone)
        ]
