-- ===== src/Tests/Freeing.antt =====
-- Giving pages back, at concrete inputs.
use os_virtual_mem.Prelude.{
  ℕ, ◌+◌, ◌-◌, ◌<◌, ◌≡◌, refl, inl, true, false, ◌&&◌, some, [], ◌∷◌, arith, if◌then◌else◌, ◌==◌,
}
use os_virtual_mem.Memory.{ceil_div}
use os_virtual_mem.FreeList.{block, getfreemem, take_first}
use os_virtual_mem.Vm.{
  Vm, Out, ok, halted, stray, zero_entry, getffsframe, getswapframe, set_entry, pt_ref, entry_at,
}
use os_virtual_mem.KernelService.{kernel_service_free}
use os_virtual_mem.KernelService.Released.{Placed}
use os_virtual_mem.KernelService.FreePage.{resident}
use os_virtual_mem.KernelService.FreePages.{Freeable}
use os_virtual_mem.KernelService.FreeService.{ServiceFreed, kernel_service_free-IsPaging}
use os_virtual_mem.PageFault.Always.{IsPaging}
use os_virtual_mem.Tests.Machine.{bare_vm}
use os_virtual_mem.Tests.Faults.{
  busy, busy_resident, busy-Coherent, busy-FfsPool, full_ffs, full_ffs-Coherent, full_ffs-FfsPool,
  nothing_free, is_new,
}
use os_virtual_mem.PageFault.{service_fault}
use os_virtual_mem.PageFault.RoundTrip.{over, evicted_and_fetched}

-- all of FFS is in use; the page at 5 * 2^22 is in FFS frame number 7
abbrev heap_page : Vm
heap_page = record bare_vm {
  n_free_vpages = 100;
  entries = λ r.
      if r.frame == 1024 && r.index == 5
      then record zero_entry { pres = true; base = 2007 }
      else busy zero_entry r;
  swaplist = record { mlength = 8388608; blocks = block 13631488 8388608 ∷ [] };
  ptmap = λ i. some (pt_ref (2000 + i) 0);
}

heap_page_resident :
    (i : ℕ)
    → i < 2048
    → entry_at heap_page (pt_ref (2000 + i) 0)
      ≡ record zero_entry { pres = true; dirty = true; base = 2000 + i - 720 }
heap_page_resident i lt =
    let off : (2000 + i == 1024) ≡ false = ground arith in rw off (busy_resident zero_entry i lt)

heap_page-IsPaging : IsPaging heap_page 0 0
unfolding ceil_div
heap_page-IsPaging = record {
  mappings = busy-Coherent heap_page heap_page_resident refl refl refl refl (
    record {
      chain = omega arith;
      counts = refl;
      low = omega arith;
      high = omega arith;
      word = omega arith;
    },
    (refl, refl, tt),
  );
  frames = busy-FfsPool heap_page refl refl refl;
}

heap_page-Placed : Placed heap_page.regions
unfolding ceil_div
heap_page-Placed = record {
  minffs = refl;
  maxffs = refl;
  minswap = refl;
  maxswap = refl;
  minvstack = omega arith;
}

only_page : (x : ℕ) → 5120 < x + 1 → x < 5121 → 5120 ≡ x
only_page x lo up = omega arith

heap_page-Freeable : Freeable heap_page 1024 5120 1
heap_page-Freeable = record {
  table = λ x lo up. rw (← only_page x (omega arith) up) refl;
  clear = λ x lo up. rw (← only_page x (omega arith) up) (λ e. absurd (omega arith));
  holds = λ x lo up. rw (← only_page x (omega arith) up) (resident 7 (omega arith) refl refl);
  apart = λ x y lo lt up. absurd (omega arith);
  own = λ x y k lo lt up. absurd (omega arith);
}

kernel_service_free-IsPaging_example :
    (s' : Vm) × (kernel_service_free 20971520 4096 2 heap_page ≡ ok tt s')
    × IsPaging s' 0 0
    × ServiceFreed heap_page s' 1024 5120 1 2
unfolding ceil_div
kernel_service_free-IsPaging_example =
    kernel_service_free-IsPaging heap_page 0 0 20971520 4096 2 heap_page-IsPaging heap_page-Placed
      (omega arith) heap_page-Freeable (omega arith)

-- the state after a fault on the page of entry (1030, 1) has evicted that of FFS frame number 7
abbrev state_of : Out (Unit {0}) → Vm
state_of (ok _ s) = s
state_of halted = full_ffs
state_of stray = full_ffs

after_evict : Vm
after_evict = state_of (service_fault 7 (pt_ref 1030 1) full_ffs)

after_evict_run : service_fault 7 (pt_ref 1030 1) full_ffs ≡ ok tt after_evict
unfolding after_evict service_fault ceil_div getffsframe getfreemem take_first getswapframe
    set_entry
after_evict_run = refl

evicted_and_fetched_example :
    (s3 : Vm) × (service_fault 9 (pt_ref 2007 0) after_evict ≡ ok tt s3)
    × IsPaging s3 0 0
    × ((entry_at s3 (pt_ref 2007 0)).pres ≡ true)
    × ((j : ℕ)
        → j < 1024
        → s3.words (entry_at s3 (pt_ref 2007 0)).base j
          ≡ full_ffs.words (entry_at full_ffs (pt_ref 2007 0)).base j)
evicted_and_fetched_example =
    evicted_and_fetched full_ffs after_evict after_evict 0 0 7 9 (pt_ref 1030 1) (pt_ref 2007 0)
      (record { mappings = full_ffs-Coherent; frames = full_ffs-FfsPool }) nothing_free refl refl
      (inl refl) (inl is_new) after_evict_run over
