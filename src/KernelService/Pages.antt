-- ===== src/KernelService/Pages.antt =====
-- How many pages a request takes, and how many a release gives back.
use os_virtual_mem.Prelude.{ℕ, ◌+◌, ◌-◌, ◌%◌, ◌^◌, ◌<◌, ◌≡◌, arith, ◌==◌, if◌then◌else◌}
use os_virtual_mem.Memory.{page_size, ceil_div, add32, sub32}
use os_virtual_mem.KernelService.{start_page, end_page}

-- For a page-aligned pointer away from the end of the address space, the pages that
-- `kernel_service_free` gives back are those that `vmalloc` charged for `nbytes`, except that the last
-- one is left out where a single byte of it is used.
pub end_page-start_page :
    (ptr nbytes : ℕ)
    → ptr % 4096 ≡ 0
    → 0 < nbytes
    → ptr + nbytes < 2 ^ 32 - 4096
    → end_page ptr nbytes - start_page ptr
      ≡ (if nbytes % 4096 == 1 then ceil_div nbytes page_size - 1 else ceil_div nbytes page_size)
unfolding ceil_div
end_page-start_page ptr nbytes aligned some_bytes fits =
    let last : sub32 (add32 ptr nbytes) 1 ≡ ptr + nbytes - 1 = omega arith in rw last (ground arith)
