-- ===== src/KernelService/Unserved.antt =====
-- `vmalloc` where its service process could not be created.
use os_virtual_mem.Prelude.{
  ℕ, ◌+◌, ◌*◌, ◌^◌, ◌%◌, ◌<◌, ◌≤◌, ◌≡◌, ◌≢◌, refl, true, false, arith, ◌==◌, ltb,
}
use os_virtual_mem.Memory.{page_size, ceil_div, u32_mod}
use os_virtual_mem.Vm.{PtRef, pt_ref, pdbr_base, Vm, ok, halted, zero_entry, entry_at}
use os_virtual_mem.KernelService.{vmalloc, malloc_entry}
use os_virtual_mem.KernelService.Malloc.{vmalloc-mapped}
use os_virtual_mem.PageFault.{service_fault}

-- a fault on a page that no service has handed out
fault-zero :
    (s : Vm) (rnd : ℕ) (pt : PtRef) → entry_at s pt ≡ zero_entry → service_fault rnd pt s ≡ halted
unfolding service_fault
fault-zero s rnd pt e = rw e refl

-- A request within the limits of the process and the system, whose pages lie in one table that exists
-- and have zero entries: with the service, `vmalloc` gives an address at which every page waits for its
-- first access; without it, `vmalloc` gives the same address and no error, changes nothing, and an access
-- to any of the pages halts the kernel.
pub vmalloc-unserved :
    (s : Vm) (nbytes pd j table rnd : ℕ)
    → 0 < nbytes
    → ceil_div nbytes page_size ≤ (s.procs s.currpid).vfree
    → ceil_div nbytes page_size ≤ s.n_free_vpages
    → (s.procs s.currpid).vfree < 2 ^ 32
    → s.n_free_vpages < 2 ^ 32
    → (s.procs s.currpid).vmax ≡ pd * 1024 + j
    → pd < 1024
    → j + ceil_div nbytes page_size < 1024
    → (s.entries (pt_ref (pdbr_base (s.procs s.currpid).pdbr) pd)).pres ≡ true
    → (s.entries (pt_ref (pdbr_base (s.procs s.currpid).pdbr) pd)).base ≡ table
    → pdbr_base (s.procs s.currpid).pdbr ≢ table
    → ((i : ℕ)
        → j ≤ i
        → i < j + ceil_div nbytes page_size
        → entry_at s (pt_ref table i) ≡ zero_entry)
    → (s' : Vm) × (vmalloc true nbytes s ≡ ok ((pd * 1024 + j) * 4096) s')
      × (vmalloc false nbytes s ≡ ok ((pd * 1024 + j) * 4096) s)
      × ((i : ℕ)
          → j ≤ i
          → i < j + ceil_div nbytes page_size
          → (entry_at s' (pt_ref table i) ≡ malloc_entry false 0)
            × (service_fault rnd (pt_ref table i) s ≡ halted))
unfolding vmalloc
vmalloc-unserved s nbytes pd j table rnd some_bytes own all own_fits all_fits next small fits pres
      base apart zero_entries =
    let (s', served, mapped, _, _, _, _) =
      vmalloc-mapped s nbytes pd j table some_bytes own all own_fits all_fits next small fits pres
        base apart in
    let nz : (nbytes == 0) ≡ false = ground arith in
    let enough : ltb (s.procs s.currpid).vfree (ceil_div nbytes page_size) ≡ false = ground arith in
    let left : ltb s.n_free_vpages (ceil_div nbytes page_size) ≡ false = ground arith in
    let word : (pd * 1024 + j) * 2 ^ 12 % u32_mod ≡ (pd * 1024 + j) * 4096 = omega arith in
    (
      s',
      served,
      rw (nz, enough, left, next, word) refl,
      λ i le lt. (mapped i le lt, fault-zero s rnd (pt_ref table i) (zero_entries i le lt)),
    )
