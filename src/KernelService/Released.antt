-- ===== src/KernelService/Released.antt =====
-- What `free_vpage` leaves when it has freed a page, and the frames that it gives back.
use os_virtual_mem.Prelude.{
  ℕ, ◌+◌, ◌-◌, ◌*◌, ◌^◌, ◌<◌, ◌≡◌, ◌≢◌, Bool, true, false, none, some, Option, arith, ◌==◌, ap, ◌∙◌,
  inl, inr, Bool-cases, if◌then◌else◌,
}
use os_virtual_mem.Memory.{page_size, ceil_div}
use os_virtual_mem.FreeList.{FreeList, Freed, freed}
use os_virtual_mem.Vm.{
  PtRef, Regions, Vm, Out, ok, and_then, zero_entry, entry_at, maxpdptframe, maxffsframe, same_ref,
  assert, with_entry, update, frame_addr, after_free, freeffsframe, freeswapframe,
}
use os_virtual_mem.KernelService.{free_present, free_swapped}
use os_virtual_mem.PageFault.Coherent.{InSwap, swap_free}
use os_virtual_mem.PageFault.TakePage.{page_free}
use os_virtual_mem.PageFault.Always.{IsPaging}
use os_virtual_mem.KernelService.GivePage.{PageGiven}

-- The regions lie behind each other, as the initialisers place them: FFS and swap with 2048 frames each,
-- and the frames of stacks behind them.
pub record Placed (r : Regions) : Type 0 where
  pub minffs : r.minffs ≡ ceil_div r.maxpdpt page_size * 4096
  pub maxffs : r.maxffs ≡ (ceil_div r.maxpdpt page_size + 2048) * 4096 - 1
  pub minswap : r.minswap ≡ ceil_div r.maxffs page_size * 4096
  pub maxswap : r.maxswap ≡ (ceil_div r.maxffs page_size + 2048) * 4096 - 1
  pub minvstack : r.maxswap < r.minvstack

after_freed :
    (m : Freed FreeList) (l : FreeList) (k : FreeList → Vm) (s : Vm)
    → m ≡ freed l
    → after_free m k s ≡ ok true (k l)
after_freed m l k s e = rw e

module _ (t : Vm) (placed : Placed t.regions) (top : maxffsframe t + 2048 < 2 ^ 20) (off k : ℕ)
    (l : FreeList) (small : k < 2048) where
  pub freeswap_run :
      PageGiven (maxffsframe t) off k t.swaplist l
      → freeswapframe (maxffsframe t + k) t ≡ ok true (record t { swaplist = l })
  unfolding freeswapframe
  freeswap_run given =
      let addr : frame_addr (maxffsframe t + k) ≡ (maxffsframe t + k) * 4096 = omega arith in
      after_freed _ l (λ l. record t { swaplist = l }) t
        (cc (placed.minswap, placed.maxswap, addr, given.run))

  pub freeffs_run :
      maxffsframe t ≡ maxpdptframe t + 2048
      → PageGiven (maxpdptframe t) off k t.ffslist l
      → freeffsframe (maxpdptframe t + k) t ≡ ok true (record t { ffslist = l })
  unfolding freeffsframe
  freeffs_run layout given =
      let addr : frame_addr (maxpdptframe t + k) ≡ (maxpdptframe t + k) * 4096 = omega arith in
      after_freed _ l (λ l. record t { ffslist = l }) t
        (cc (placed.minffs, placed.maxffs, addr, given.run))

-- What is left when the page of an entry is freed: the entry is zero, all others are as they were, and
-- each frame that the page held is free.
pub record Released (s s' : Vm) (pt : PtRef) : Type 0 where
  pub entry : entry_at s' pt ≡ zero_entry
  pub others : (q : PtRef) → same_ref q pt ≡ false → entry_at s' q ≡ entry_at s q
  pub frame :
      (j : ℕ)
      → j < 2048
      → s.ptmap j ≡ some pt
      → (s'.ptmap j ≡ none) × (page_free (maxpdptframe s) s'.ffslist j ≡ true)
  pub copy :
      (k : ℕ)
      → k < 2048
      → s.swap2ffsmap k ≡ some pt
      → (s'.swap2ffsmap k ≡ none) × (swap_free s' (maxffsframe s + k) ≡ true)
  pub swapped : (k : ℕ) → InSwap s k pt → swap_free s' (maxffsframe s + k) ≡ true
  pub copy_kept :
      (k : ℕ) (r : PtRef)
      → k < 2048
      → s.swap2ffsmap k ≡ some r
      → same_ref r pt ≡ false
      → s'.swap2ffsmap k ≡ some r
  pub kept : (j : ℕ) (r : PtRef) → s.ptmap j ≡ some r → same_ref r pt ≡ false → s'.ptmap j ≡ some r
  pub shrinks : (j : ℕ) (r : PtRef) → s'.ptmap j ≡ some r → s.ptmap j ≡ some r
  pub swap_kept :
      (k : ℕ) (r : PtRef) → InSwap s k r → same_ref r pt ≡ false → ¬ InSwap s k pt → InSwap s' k r
  pub swap_grows :
      (k : ℕ)
      → k < 2048
      → swap_free s (maxffsframe s + k) ≡ true
      → swap_free s' (maxffsframe s + k) ≡ true
  pub words : s'.words ≡ s.words
  pub regions : s'.regions ≡ s.regions
  pub procs : s'.procs ≡ s.procs
  pub n_free_vpages : s'.n_free_vpages ≡ s.n_free_vpages

-- What is left of the swap frames besides that of one page.
pub record SwapLeft (s : Vm) (k0 : ℕ) (swap : FreeList) (copies : ℕ → Option PtRef) : Type 0 where
  pub stays :
      (k : ℕ)
      → k ≢ k0
      → s.swap2ffsmap k ≡ none
      → page_free (maxffsframe s) s.swaplist k ≡ false
      → (copies k ≡ none) × (page_free (maxffsframe s) swap k ≡ false)
  pub more :
      (k : ℕ)
      → page_free (maxffsframe s) s.swaplist k ≡ true
      → page_free (maxffsframe s) swap k ≡ true

pub SwapLeft-given :
    (s : Vm) (offset k0 : ℕ) (swap : FreeList)
    → PageGiven (maxffsframe s) offset k0 s.swaplist swap
    → SwapLeft s k0 swap (update s.swap2ffsmap k0 none)
SwapLeft-given s offset k0 swap back = record {
  stays = λ k ne empty taken.
      let off : (k == k0) ≡ false = ground arith in (rw off empty, back.others k ne ∙ taken);
  more = λ k free. elim (Bool-cases (k == k0)) [
    | inl h ↦ let n : k ≡ k0 = ground arith in ap (page_free (maxffsframe s) swap) n ∙ back.free
    | inr h ↦ back.others k (ground arith) ∙ free
  ];
}

-- another page in swap stays there
pub InSwap-stays :
    (s s' : Vm) (k0 k : ℕ) (r : PtRef)
    → InSwap s k r
    → k ≢ k0
    → entry_at s' r ≡ entry_at s r
    → s'.regions ≡ s.regions
    → SwapLeft s k0 s'.swaplist s'.swap2ffsmap
    → InSwap s' k r
InSwap-stays s s' k0 k r w ne e regions left =
    let (alone, taken) = left.stays k ne w.alone w.taken in
    record {
      small = w.small;
      isswapped = rw e w.isswapped;
      isvmalloc = rw e w.isvmalloc;
      pres = rw e w.pres;
      already_swapped = rw e w.already_swapped;
      base = rw (e, regions) w.base;
      alone = alone;
      taken = rw regions taken;
    }

abbrev pub Frees : (s : Vm) (offset pool : ℕ) (pt : PtRef) → Out (Unit {0}) → Type 0
Frees s offset pool pt r = (s' : Vm) × (r ≡ ok tt s') × IsPaging s' offset pool × Released s s' pt

-- `free_vpage` behind its look at the directory
abbrev pub release : (nofail : Bool) (pt : PtRef) → Vm → Out (Unit {0})
release nofail pt s =
    and_then
      ((if (entry_at s pt).pres
          then free_present (entry_at s pt)
          else if (entry_at s pt).isswapped
          then free_swapped (entry_at s pt)
          else assert nofail)
        s)
      λ _ s1. ok tt (with_entry s1 pt zero_entry)
