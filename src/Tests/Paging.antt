-- ===== src/Tests/Paging.antt =====
-- Page tables and `vmalloc` at concrete inputs.
use os_virtual_mem.Prelude.{
  false, ℕ, ◌+◌, ◌-◌, ◌*◌, ◌%◌, ◌≤◌, ◌<◌, ◌≡◌, refl, true, false, ◌&&◌, none, [], ◌∷◌, arith,
  if◌then◌else◌, ◌==◌,
}
use os_virtual_mem.Memory.{page_size, ceil_div, roundmb}
use os_virtual_mem.FreeList.{block, getfreemem, take_first}
use os_virtual_mem.Vm.{Vm, ok, halted, zero_entry, PtRef, pt_ref, entry_at, same_ref}
use os_virtual_mem.PageTable.{create_directory_entry}
use os_virtual_mem.PageTable.Stale.{create_directory_entry-stale}
use os_virtual_mem.KernelService.{start_page, end_page, vmalloc, malloc_entry}
use os_virtual_mem.KernelService.Pages.{end_page-start_page}
use os_virtual_mem.KernelService.Unserved.{vmalloc-unserved}
use os_virtual_mem.PageFault.{service_fault}
use os_virtual_mem.KernelService.Malloc.{vmalloc-mapped}
use os_virtual_mem.Tests.Machine.{bare_vm, no_blocks}

end_page-start_page_example :
    end_page 29360128 8193 - start_page 29360128
    ≡ (if 8193 % 4096 == 1 then ceil_div 8193 page_size - 1 else ceil_div 8193 page_size)
end_page-start_page_example = end_page-start_page 29360128 8193 refl (omega arith) (omega arith)

-- the directory of every process is frame 1024; its entry 7 points to frame 1030, which is all zero
abbrev with_table : Vm
with_table = record bare_vm {
  entries = λ r.
      if r.frame == 1024 && r.index == 7
      then record zero_entry { pres = true; writable = true; base = 1030 }
      else zero_entry;
}

vmalloc-mapped_example :
    (s' : Vm) × (vmalloc true 10000 with_table ≡ ok ((7 * 1024 + 257) * 4096) s')
    × ((i : ℕ)
        → 257 ≤ i
        → i < 257 + ceil_div 10000 page_size
        → entry_at s' (pt_ref 1030 i) ≡ malloc_entry false 0)
    × ((r : PtRef)
        → ((i : ℕ)
            → 257 ≤ i
            → i < 257 + ceil_div 10000 page_size
            → same_ref r (pt_ref 1030 i) ≡ false)
        → entry_at s' r ≡ entry_at with_table r)
    × ((s'.procs 2).vmax ≡ 7425 + ceil_div 10000 page_size)
    × ((s'.procs 2).vfree + ceil_div 10000 page_size ≡ 64)
    × (s'.n_free_vpages + ceil_div 10000 page_size ≡ 4096)
vmalloc-mapped_example =
    vmalloc-mapped with_table 10000 7 257 1030 (omega arith) (unfold ceil_div in omega arith)
      (unfold ceil_div in omega arith) (omega arith) (omega arith) refl (omega arith)
      (unfold ceil_div in omega arith) refl refl (omega arith)

vmalloc-unserved_example :
    (s' : Vm) × (vmalloc true 10000 with_table ≡ ok ((7 * 1024 + 257) * 4096) s')
    × (vmalloc false 10000 with_table ≡ ok ((7 * 1024 + 257) * 4096) with_table)
    × ((i : ℕ)
        → 257 ≤ i
        → i < 257 + ceil_div 10000 page_size
        → (entry_at s' (pt_ref 1030 i) ≡ malloc_entry false 0)
          × (service_fault 5 (pt_ref 1030 i) with_table ≡ halted))
vmalloc-unserved_example =
    vmalloc-unserved with_table 10000 7 257 1030 5 (omega arith) (unfold ceil_div in omega arith)
      (unfold ceil_div in omega arith) (omega arith) (omega arith) refl (omega arith)
      (unfold ceil_div in omega arith) refl refl (omega arith) (λ i le lt. refl)

-- the directory region holds one free page, frame 1040
abbrev one_page : Vm
one_page = record bare_vm { pdptlist = record { mlength = 4096; blocks = block 4259840 4096 ∷ [] } }

create_directory_entry-stale_example :
    (s' : Vm) × (create_directory_entry (pt_ref 1024 7) none 4294967295 0 0 one_page ≡ ok tt s')
    × ((entry_at s' (pt_ref 1024 7)).pres ≡ true)
    × ((entry_at s' (pt_ref 1024 7)).base ≡ 1040)
    × ((j : ℕ) → 2 ≤ j → j < 1024 → entry_at s' (pt_ref 1040 j) ≡ entry_at one_page (pt_ref 1040 j))
    × ((j : ℕ) → j < 1024 → entry_at s' (pt_ref 0 j) ≡ zero_entry)
create_directory_entry-stale_example =
    create_directory_entry-stale one_page (pt_ref 1024 7) 1040 no_blocks 4294967295 refl
      (unfold getfreemem take_first roundmb in refl) (omega arith) (omega arith) (omega arith)
      (omega arith)
