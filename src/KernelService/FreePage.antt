-- ===== src/KernelService/FreePage.antt =====
-- `free_vpage` gives back what a page holds: its frame of FFS, its frame of swap, or nothing.
use os_virtual_mem.Prelude.{ℕ, ◌*◌, ◌%◌, ◌<◌, ◌≡◌, true, false, some}
use os_virtual_mem.Memory.{page_size, u32_mod}
use os_virtual_mem.Vm.{PtRef, pt_ref, pd_offset, pt_offset, Vm, ok, entry_at}
use os_virtual_mem.KernelService.{free_vpage}
use os_virtual_mem.PageFault.Coherent.{InSwap}
use os_virtual_mem.PageFault.Always.{IsPaging}
use os_virtual_mem.KernelService.Released.{Placed, Released, Frees, release}
use os_virtual_mem.KernelService.FreeResident.{free_resident}
use os_virtual_mem.KernelService.FreeAbsent.{free-InSwap, free_absent}

-- the entry that `free_vpage` frees page `i` by
abbrev pub page_entry : Vm → (dir i : ℕ) → PtRef
page_entry s dir i =
    let addr = i * page_size % u32_mod in
    pt_ref (s.entries (pt_ref dir (pd_offset addr))).base (pt_offset addr)

-- A page as the memory half keeps it: in a frame of FFS, in a frame of swap, or without a frame.
pub data Holds (s : Vm) (pt : PtRef) : Type 0 where
  resident :
      (j : ℕ) → j < 2048 → s.ptmap j ≡ some pt → (entry_at s pt).isvmalloc ≡ false → Holds s pt
  swapped : (k : ℕ) → InSwap s k pt → Holds s pt
  untouched : (entry_at s pt).pres ≡ false → (entry_at s pt).isswapped ≡ false → Holds s pt

release-Frees :
    (s : Vm) (offset pool : ℕ) (pt : PtRef)
    → IsPaging s offset pool
    → Placed s.regions
    → Holds s pt
    → Frees s offset pool pt (release true pt s)
release-Frees s offset pool pt ok_s placed (resident j small at old) =
    free_resident s offset pool pt ok_s placed j small at old true
release-Frees s offset pool pt ok_s placed (swapped k w) =
    free-InSwap s offset pool pt ok_s placed true k w
release-Frees s offset pool pt ok_s placed (untouched out not_swapped) =
    free_absent s offset pool pt ok_s placed out not_swapped

-- With the mappings and the pool coherent, the regions as the initialisers place them, and a table for
-- the page, which holds what it should, `free_vpage` returns, and the page is released.
pub free_vpage-IsPaging :
    (s : Vm) (offset pool dir i : ℕ)
    → IsPaging s offset pool
    → Placed s.regions
    → (s.entries (pt_ref dir (pd_offset (i * page_size % u32_mod)))).pres ≡ true
    → Holds s (page_entry s dir i)
    → (s' : Vm) × (free_vpage dir i true s ≡ ok tt s')
      × IsPaging s' offset pool
      × Released s s' (page_entry s dir i)
unfolding free_vpage
free_vpage-IsPaging s offset pool dir i ok_s placed table held =
    rw table (release-Frees s offset pool (page_entry s dir i) ok_s placed held)
