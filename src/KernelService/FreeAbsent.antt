-- ===== src/KernelService/FreeAbsent.antt =====
-- `free_vpage` of a page in swap, and of one without a frame.
use os_virtual_mem.Prelude.{
  ℕ, ◌+◌, ◌<◌, ◌≡◌, ◌≢◌, refl, Bool, true, false, none, some, arith, ◌==◌, ap, sym, ◌∙◌, inl, inr,
  Bool-cases,
}
use os_virtual_mem.Memory.{sub32}
use os_virtual_mem.FreeList.{FreeList}
use os_virtual_mem.Vm.{
  PtRef, Vm, ok, zero_entry, entry_at, maxffsframe, set_entry, set_entry_self, set_entry_ne,
  with_entry, update,
}
use os_virtual_mem.KernelService.{free_swapped}
use os_virtual_mem.PageFault.Coherent.{InSwap, Coherent, swap_free, apart_of_flag}
use os_virtual_mem.PageFault.TakePage.{page_free}
use os_virtual_mem.PageFault.Refill.{FfsPool}
use os_virtual_mem.PageFault.Always.{IsPaging}
use os_virtual_mem.KernelService.GivePage.{PageGiven, give_page_lem}
use os_virtual_mem.KernelService.Released.{
  Placed, freeswap_run, Released, SwapLeft, SwapLeft-given, InSwap-stays, Frees, release,
}

module _ (s : Vm) (offset pool : ℕ) (pt : PtRef) (ok_s : IsPaging s offset pool)
    (placed : Placed s.regions) where
  -- clearing an entry that is not present
  cleared-Coherent : (entry_at s pt).pres ≡ false → Coherent (with_entry s pt zero_entry) offset
  cleared-Coherent out =
      let co = ok_s.mappings in
      let q : (r : PtRef)
          → (entry_at s r).pres ≡ true
          → set_entry s.entries pt zero_entry r ≡ entry_at s r =
        λ r h.
          set_entry_ne s.entries pt zero_entry r (apart_of_flag s (λ e. e.pres) r pt h out).0 in
      record {
        layout = co.layout;
        top = co.top;
        resident = λ i r lt e.
            let res = co.resident i r lt e in
            let z = q r res.pres in
            record { pres = rw z res.pres; isswapped = rw z res.isswapped; base = rw z res.base };
        owned = λ i r lt e own.
            let z = q r (co.resident i r lt e).pres in
            let (k, d) = co.owned i r lt e (rw z at own) in
            (
              k,
              record {
                small = d.small;
                mapped = d.mapped;
                back = d.back;
                same = λ h. d.same (rw z at h);
              },
            );
        unowned = λ i r lt e own. co.unowned i r lt e (rw (q r (co.resident i r lt e).pres) at own);
        shadow = λ k r lt e.
            let sh = co.shadow k r lt e in
            let z = q r sh.0 in (rw z sh.0, rw z sh.1, sh.2, sh.3, sh.4, sh.5);
        pool = co.pool;
        swaplist = co.swaplist;
        paged = co.paged;
      }

  -- a page in swap
  module _ (m : ℕ) (w : InSwap s m pt) (swap : FreeList)
      (back : PageGiven (maxffsframe s) offset m s.swaplist swap) where
    dropped : Vm
    dropped =
        with_entry (record s { swaplist = swap; swap2ffsmap = update s.swap2ffsmap m none }) pt
          zero_entry

    dropped-Coherent : Coherent dropped offset
    unfolding dropped
    dropped-Coherent =
        let co = cleared-Coherent w.pres in
        record {
          layout = co.layout;
          top = co.top;
          resident = λ i r lt e.
              let res = co.resident i r lt e in
              record { pres = res.pres; isswapped = res.isswapped; base = res.base };
          owned = λ i r lt e own.
              let (k, d) = co.owned i r lt e own in
              let apart : (k == m) ≡ false = elim (Bool-cases (k == m)) [
                | inl h ↦ let n : k ≡ m = ground arith in cc (d.back, w.alone, n)
                | inr h ↦ h
              ] in
              (
                k,
                record {
                  small = d.small;
                  mapped = d.mapped;
                  back = rw apart d.back;
                  same = d.same;
                },
              );
          unowned = co.unowned;
          shadow = λ k r lt e. elim (Bool-cases (k == m)) [
            | inl h ↦ cc (rw h at e)
            | inr h ↦ co.shadow k r lt (rw h at e)
          ];
          pool = λ k lt free. elim (Bool-cases (k == m)) [
            | inl h ↦ rw h refl
            | inr h ↦ rw h (co.pool k lt (sym (back.others k (ground arith)) ∙ free))
          ];
          swaplist = back.region.0;
          paged = back.region.1;
        }

    run_swapped : (nofail : Bool) → release nofail pt s ≡ ok tt dropped
    unfolding free_swapped dropped
    run_swapped nofail =
        let small = w.small in
        let top = ok_s.mappings.top in
        let b = w.base in
        let slot : sub32 (maxffsframe s + m) (maxffsframe s) ≡ m = omega arith in
        rw
          (
            w.pres,
            w.isswapped,
            w.already_swapped,
            b,
            slot,
            w.alone,
            freeswap_run s placed ok_s.mappings.top offset m swap w.small back,
          )
          refl

  -- a page that is not present has no frame and no copy of one
  absent :
      (s' : Vm)
      → (entry_at s pt).pres ≡ false
      → s'.entries ≡ set_entry s.entries pt zero_entry
      → s'.words ≡ s.words
      → s'.regions ≡ s.regions
      → s'.procs ≡ s.procs
      → s'.n_free_vpages ≡ s.n_free_vpages
      → s'.ptmap ≡ s.ptmap
      → (k0 : ℕ) → SwapLeft s k0 s'.swaplist s'.swap2ffsmap
      → ((k : ℕ) → InSwap s k pt → swap_free s' (maxffsframe s + k) ≡ true)
      → ((k : ℕ) → k < 2048 → ¬ InSwap s k pt → k ≢ k0)
      → ((k : ℕ) (r : PtRef) → s.swap2ffsmap k ≡ some r → s'.swap2ffsmap k ≡ some r)
      → Released s s' pt
  absent s' out cleared words regions procs pages pm k0 stays swapped off copies = record {
    entry = rw cleared (set_entry_self s.entries pt zero_entry);
    others = λ q h. rw cleared (set_entry_ne s.entries pt zero_entry q h);
    frame = λ j lt e. cc ((ok_s.mappings.resident j pt lt e).pres, out);
    copy = λ k lt e. cc ((ok_s.mappings.shadow k pt lt e).0, out);
    swapped = swapped;
    copy_kept = λ k r lt e ne. copies k r e;
    kept = λ j r e ne. rw pm e;
    shrinks = λ j r e. rw pm at e;
    swap_kept = λ k r w ne not_mine.
        InSwap-stays s s' k0 k r w (off k w.small not_mine)
          (rw cleared (set_entry_ne s.entries pt zero_entry r ne)) regions stays;
    swap_grows = λ k lt free. stays.more k free;
    words = words;
    regions = regions;
    procs = procs;
    n_free_vpages = pages;
  }

  frames_kept :
      (s' : Vm)
      → s'.ffslist ≡ s.ffslist
      → s'.regions ≡ s.regions
      → s'.ptmap ≡ s.ptmap
      → s'.ffs2swapmap ≡ s.ffs2swapmap
      → FfsPool s' pool
  frames_kept s' list regions pm fm = record {
    region = rw (list, regions) ok_s.frames.region;
    vacant = λ k lt free. rw (pm, fm) (ok_s.frames.vacant k lt (rw (list, regions) at free));
    mapped = λ k lt used. rw pm (ok_s.frames.mapped k lt (rw (list, regions) at used));
  }

  pub free-InSwap :
      (nofail : Bool) (m : ℕ) → InSwap s m pt → Frees s offset pool pt (release nofail pt s)
  unfolding dropped
  free-InSwap nofail m w =
      let co = ok_s.mappings in
      let (swap, back) =
        give_page_lem (maxffsframe s) offset s.swaplist m (co.swaplist, co.paged) w.small w.taken in
      (
        dropped m w swap back,
        run_swapped m w swap back nofail,
        record {
          mappings = dropped-Coherent m w swap back;
          frames = frames_kept (dropped m w swap back) refl refl refl refl;
        },
        absent (dropped m w swap back) w.pres refl refl refl refl refl refl m
            (SwapLeft-given s offset m swap back)
            (λ k w'.
              let n : k ≡ m = omega (arith, w.base, w'.base) in
              ap (page_free (maxffsframe s) swap) n ∙ back.free)
            (λ k lt not_mine n. not_mine (rw n w))
            λ k r e. elim (Bool-cases (k == m)) [
              | inl h ↦ let n : k ≡ m = ground arith in cc (w.alone, e, ap s.swap2ffsmap n)
              | inr h ↦ rw h e
            ],
      )

  pub free_absent :
      (entry_at s pt).pres ≡ false
      → (entry_at s pt).isswapped ≡ false
      → Frees s offset pool pt (release true pt s)
  free_absent out not_swapped = (
    with_entry s pt zero_entry,
    rw (out, not_swapped),
    record {
      mappings = cleared-Coherent out;
      frames = frames_kept (with_entry s pt zero_entry) refl refl refl refl;
    },
    absent (with_entry s pt zero_entry) out refl refl refl refl refl refl 2048
        (record { stays = λ k ne e used. (e, used); more = λ k free. free })
        (λ k w. cc (w.isswapped, not_swapped)) (λ k lt _ n. absurd (omega arith)) λ k r e. e,
  )
