-- ===== src/Tests/Faults.antt =====
-- Page faults at concrete inputs.
use os_virtual_mem.Prelude.{
  leb, ltb, ap, false, ◌∙◌, ℕ, ◌+◌, ◌-◌, ◌%◌, ◌<◌, ◌≡◌, refl, true, false, ◌&&◌, none, some, [],
  ◌∷◌, arith, if◌then◌else◌, ◌==◌, ◌⊎◌, inl,
}
use os_virtual_mem.Memory.{ceil_div}
use os_virtual_mem.FreeList.{block, getfreemem, take_first}
use os_virtual_mem.Vm.{
  Vm, Entry, ok, halted, zero_entry, PtRef, pt_ref, entry_at, maxffsframe, maxpdptframe, no_frame,
  getffsframe, getswapframe,
}
use os_virtual_mem.PageFault.Coherent.{Coherent, InSwap}
use os_virtual_mem.PageFault.{swap_candidate, swap_get_evict_candidate, service_fault}
use os_virtual_mem.PageFault.TakePage.{Region, page_free}
use os_virtual_mem.PageFault.Served.{IsNew}
use os_virtual_mem.PageFault.Always.{IsPaging, IsExhausted, service_fault-IsPaging}
use os_virtual_mem.PageFault.Refill.{FfsPool}
use os_virtual_mem.PageFault.Vacant.{Arrived, service_fault-refill}
use os_virtual_mem.PageFault.Fault.{Outcome, service_fault-evict, service_fault-exchange}
use os_virtual_mem.Tests.Machine.{bare_vm, no_blocks}

-- FFS frame number i holds the page of entry (2000 + i, 0), and `e` is the entry (1030, 1)
abbrev pub busy : Entry → PtRef → Entry
busy e r =
    if leb 2000 r.frame && ltb r.frame 4048
    then record zero_entry { pres = true; dirty = true; base = r.frame - 720 }
    else if r.frame == 1030 && r.index == 1
    then e
    else zero_entry

pub busy_resident :
    (e : Entry) (i : ℕ)
    → i < 2048
    → busy e (pt_ref (2000 + i) 0)
      ≡ record zero_entry { pres = true; dirty = true; base = 2000 + i - 720 }
busy_resident e i lt =
    let low : leb 2000 (2000 + i) ≡ true = ground arith in
    let high : ltb (2000 + i) 4048 ≡ true = ground arith in rw (low, high) refl

-- all of FFS is in use, and swap is free; the page of entry (1030, 1) is new
abbrev pub full_ffs : Vm
full_ffs = record bare_vm {
  entries = busy (record zero_entry { isvmalloc = true });
  swaplist = record { mlength = 8388608; blocks = block 13631488 8388608 ∷ [] };
  ptmap = λ i. some (pt_ref (2000 + i) 0);
}

-- all of FFS is in use, and swap is exhausted; the page of entry (1030, 1) is in swap frame number 3
abbrev full_swap : Vm
full_swap = record bare_vm {
  entries = busy (record zero_entry { isswapped = true; already_swapped = true; base = 3331 });
  ptmap = λ i. some (pt_ref (2000 + i) 0);
}

-- no page has a copy in swap
pub busy-Coherent :
    (s : Vm)
    → ((i : ℕ)
        → i < 2048
        → entry_at s (pt_ref (2000 + i) 0)
          ≡ record zero_entry { pres = true; dirty = true; base = 2000 + i - 720 })
    → s.regions ≡ bare_vm.regions
    → s.ptmap ≡ (λ i. some (pt_ref (2000 + i) 0))
    → s.ffs2swapmap ≡ (λ i. none)
    → s.swap2ffsmap ≡ (λ i. none)
    → Region (maxffsframe s) 0 s.swaplist
    → Coherent s 0
unfolding ceil_div
busy-Coherent s en rg pm fm sm list =
    let who : (i : ℕ) (r : PtRef) → s.ptmap i ≡ some r → pt_ref (2000 + i) 0 ≡ r =
      λ i r h. cc (ap (λ m. m i) pm, h) in
    let what : (i : ℕ) (r : PtRef)
        → i < 2048
        → s.ptmap i ≡ some r
        → entry_at s r ≡ record zero_entry { pres = true; dirty = true; base = 2000 + i - 720 } =
      λ i r lt h. rw (← who i r h) (en i lt) in
    record {
      layout = rw rg refl;
      top = rw rg (omega arith);
      resident = λ i r lt h.
          let base : 2000 + i - 720 ≡ 1280 + i = omega arith in
          record {
            pres = ap (λ x. x.pres) (what i r lt h);
            isswapped = ap (λ x. x.isswapped) (what i r lt h);
            base = rw rg (ap (λ x. x.base) (what i r lt h) ∙ base);
          };
      owned = λ i r lt h own. cc (ap (λ x. x.already_swapped) (what i r lt h), own);
      unowned = λ i r lt h own. ap (λ m. m i) fm;
      shadow = λ k r lt h. cc (ap (λ m. m k) sm, h);
      pool = λ k lt h. ap (λ m. m k) sm;
      swaplist = list.0;
      paged = list.1;
    }

pub full_ffs-Coherent : Coherent full_ffs 0
unfolding ceil_div
full_ffs-Coherent =
    busy-Coherent full_ffs (busy_resident (record zero_entry { isvmalloc = true })) refl refl refl
      refl
      (
        record {
          chain = omega arith;
          counts = refl;
          low = omega arith;
          high = omega arith;
          word = omega arith;
        },
        (refl, refl, tt),
      )

full_swap-Coherent : Coherent full_swap 0
unfolding ceil_div
full_swap-Coherent =
    busy-Coherent full_swap
      (busy_resident (record zero_entry { isswapped = true; already_swapped = true; base = 3331 }))
      refl refl refl refl
      (
        record {
          chain = tt;
          counts = refl;
          low = omega arith;
          high = omega arith;
          word = omega arith;
        },
        tt,
      )

-- nothing of FFS is free
pub busy-FfsPool :
    (s : Vm)
    → s.regions ≡ bare_vm.regions
    → s.ffslist ≡ no_blocks
    → s.ptmap ≡ (λ i. some (pt_ref (2000 + i) 0))
    → FfsPool s 0
unfolding ceil_div
busy-FfsPool s rg empty pm = record {
  region =
      rw (rg, empty)
        (
          record {
            chain = tt;
            counts = refl;
            low = omega arith;
            high = omega arith;
            word = omega arith;
          },
          tt,
        );
  vacant = λ k lt free. cc (rw empty at free);
  mapped = λ k lt used. (pt_ref (2000 + k) 0, ap (λ m. m k) pm);
}

pub full_ffs-FfsPool : FfsPool full_ffs 0
full_ffs-FfsPool = busy-FfsPool full_ffs refl refl refl

full_swap-FfsPool : FfsPool full_swap 0
full_swap-FfsPool = busy-FfsPool full_swap refl refl refl

pub nothing_free : getffsframe full_ffs ≡ ok no_frame full_ffs
unfolding getffsframe getfreemem take_first
nothing_free = refl

pub is_new : IsNew full_ffs (pt_ref 1030 1)
is_new = record { isvmalloc = refl; isswapped = refl; pres = refl; already_swapped = refl }

service_fault-evict_example :
    Outcome full_ffs 0 0 7
      (pt_ref 1030 1)
      (pt_ref 2007 0)
      full_ffs-Coherent
      full_ffs-FfsPool
      refl
      nothing_free
      refl
service_fault-evict_example =
    service_fault-evict full_ffs 0 0 7 (pt_ref 1030 1) (pt_ref 2007 0) full_ffs-Coherent
      full_ffs-FfsPool refl nothing_free refl (inl is_new)

service_fault-IsPaging_example :
    ((service_fault 7 (pt_ref 1030 1) full_ffs ≡ halted) × IsExhausted full_ffs 7 (pt_ref 1030 1))
    ⊎ ((s' : Vm) × (service_fault 7 (pt_ref 1030 1) full_ffs ≡ ok tt s')
        × IsPaging s' 0 0
        × ((entry_at s' (pt_ref 1030 1)).pres ≡ true))
service_fault-IsPaging_example =
    service_fault-IsPaging full_ffs 0 0 7 (pt_ref 1030 1)
      (record { mappings = full_ffs-Coherent; frames = full_ffs-FfsPool }) (inl is_new)

in_swap : InSwap full_swap 3 (pt_ref 1030 1)
unfolding ceil_div
in_swap = record {
  small = omega arith;
  isswapped = refl;
  isvmalloc = refl;
  pres = refl;
  already_swapped = refl;
  base = refl;
  alone = refl;
  taken = refl;
}

no_ffs_left : getffsframe full_swap ≡ ok no_frame full_swap
unfolding getffsframe getfreemem take_first
no_ffs_left = refl

no_swap_left : getswapframe full_swap ≡ ok no_frame full_swap
unfolding getswapframe getfreemem take_first
no_swap_left = refl

no_copies : swap_get_evict_candidate full_swap ≡ none
unfolding swap_get_evict_candidate swap_candidate
no_copies = refl

service_fault-exchange_example :
    (s' : Vm) × (service_fault 7 (pt_ref 1030 1) full_swap ≡ ok tt s')
    × ((entry_at s' (pt_ref 1030 1)).pres ≡ true)
    × ((entry_at s' (pt_ref 1030 1)).dirty ≡ false)
    × ((entry_at s' (pt_ref 1030 1)).already_swapped ≡ false)
    × (s'.ffs2swapmap (7 % 2048) ≡ none)
    × ((entry_at s' (pt_ref 1030 1)).base ≡ maxpdptframe full_swap + 7 % 2048)
    × ((entry_at s' (pt_ref 2007 0)).base ≡ maxffsframe full_swap + 3)
    × ((j : ℕ)
        → j < 1024
        → s'.words (maxpdptframe full_swap + 7 % 2048) j
          ≡ full_swap.words (entry_at full_swap (pt_ref 1030 1)).base j)
service_fault-exchange_example =
    service_fault-exchange full_swap 0 0 7 (pt_ref 1030 1) (pt_ref 2007 0) full_swap-Coherent
      full_swap-FfsPool refl no_ffs_left refl 3 in_swap refl no_swap_left no_copies

-- all of FFS is free; the page of entry (1030, 1) is new
abbrev pub free_frame : Vm
free_frame = record bare_vm {
  entries = λ r.
      if r.frame == 1030 && r.index == 1
      then record zero_entry { isvmalloc = true }
      else zero_entry;
  ffslist = record { mlength = 8388608; blocks = block 5242880 8388608 ∷ [] };
}

free_frame-Coherent : Coherent free_frame 0
unfolding ceil_div
free_frame-Coherent = record {
  layout = refl;
  top = omega arith;
  resident = λ i r lt e. cc;
  owned = λ i r lt e own. cc;
  unowned = λ i r lt e own. refl;
  shadow = λ k r lt e. cc;
  pool = λ k lt e. refl;
  swaplist = record {
    chain = tt;
    counts = refl;
    low = omega arith;
    high = omega arith;
    word = omega arith;
  };
  paged = tt;
}

free_frame-FfsPool : FfsPool free_frame 0
unfolding ceil_div
free_frame-FfsPool = record {
  region = (
    record {
      chain = omega arith;
      counts = refl;
      low = omega arith;
      high = omega arith;
      word = omega arith;
    },
    (refl, refl, tt),
  );
  vacant = λ k lt free. (refl, refl);
  mapped = λ k lt used. absurd (ground (arith, used));
}

service_fault-refill_example :
    ((getffsframe free_frame ≡ ok no_frame free_frame)
      × ((k : ℕ) → page_free (maxpdptframe free_frame) free_frame.ffslist k ≡ false))
    ⊎ ((k : ℕ) × (s' : Vm) × (service_fault 0 (pt_ref 1030 1) free_frame ≡ ok tt s')
        × Coherent s' 0
        × FfsPool s' 0
        × Arrived free_frame s' (pt_ref 1030 1) k)
service_fault-refill_example =
    service_fault-refill free_frame 0 0 0 (pt_ref 1030 1) free_frame-Coherent free_frame-FfsPool
      (inl (record { isvmalloc = refl; isswapped = refl; pres = refl; already_swapped = refl }))
