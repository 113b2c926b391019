-- ===== src/KernelService.antt =====
-- xinu/system/kernel_services.c, vmalloc.c, vfree.c, and `freevmem` of paging.c: handing out virtual
-- pages and taking them back. Interrupts are off in the services, so each runs as one step.
pub mod Pages
pub mod Malloc
pub mod Unserved
pub mod GivePage
pub mod Release
pub mod Released
pub mod FreeResident
pub mod FreeAbsent
pub mod FreePage
pub mod FreePages
pub mod FreeService
use os_virtual_mem.Prelude.{
  ℕ, zero, suc, ◌+◌, ◌-◌, ◌*◌, ◌/◌, ◌%◌, ◌^◌, ◌≤◌, Bool, true, false, Option, none, some, ◌==◌, ltb,
  leb, ◌&&◌, ◌||◌, not, is_some, if◌then◌else◌,
}
use os_virtual_mem.Memory.{
  u32_mod, sys_err, page_size, add32, sub32, ceil_div, n_page_entries, max_heap_size,
}
use os_virtual_mem.Vm.{
  Entry, zero_entry, PtRef, pt_ref, Proc, pdbr_base, pd_offset, pt_offset, Regions, Vm, Out, ok,
  halted, stray, M, and_then, pure, ◌>>=◌, ◌>>◌, get, put, assert, deref, update, entry_at,
  with_entry, getvstackframe, freevstackframe, freeffsframe, freeswapframe, frame_addr,
  maxpdptframe, maxffsframe,
}
use os_virtual_mem.PageTable.{create_directory_entry, entries_below}

abbrev pub minus_one : ℕ
minus_one = u32_mod - 1

-- the entry that `kernel_service_malloc` writes: a heap page waits for its first access, a stack page
-- has its frame at once
abbrev pub malloc_entry : Bool → ℕ → Entry
malloc_entry is_stack base = record zero_entry {
  pres = is_stack;
  writable = true;
  pcd = true;
  isvmalloc = not is_stack;
  base = base % 2 ^ 20;
}

-- one round of the loop of `kernel_service_malloc`
unfoldable pub malloc_page : (is_stack : Bool) (dir vaddr : ℕ) → M (Unit {0})
malloc_page is_stack dir vaddr = do
  s ← get
  (if (s.entries (pt_ref dir (pd_offset vaddr))).pres
      then pure tt
      else create_directory_entry (pt_ref dir (pd_offset vaddr)) none minus_one 0 0)
  s1 ← get
  let pt = pt_ref (s1.entries (pt_ref dir (pd_offset vaddr))).base (pt_offset vaddr)
  base ← (if is_stack then getvstackframe else pure 0)
  s2 ← get
  put (with_entry s2 pt (malloc_entry is_stack base))

-- the loop, `rounds` pages from `vaddr` on
unfoldable pub malloc_pages : (rounds : ℕ) (is_stack : Bool) (dir vaddr : ℕ) → M (Unit {0})
malloc_pages zero is_stack dir vaddr = pure tt
malloc_pages (suc k) is_stack dir vaddr = do
  malloc_page is_stack dir vaddr
  malloc_pages k is_stack dir (add32 vaddr page_size)

abbrev pub set_proc : Vm → ℕ → Proc → Vm
set_proc s pid p = record s { procs = update s.procs pid p }

-- what `kernel_service_malloc` books when the pages are in place
abbrev pub book_malloc : (npages : ℕ) (is_stack : Bool) (pid : ℕ) → Vm → Vm
book_malloc npages is_stack pid s =
    let p = s.procs pid in
    let vmax = add32 p.vmax npages in
    if is_stack
    then set_proc s pid (record p { vmax = vmax })
    else record (set_proc s pid (record p { vmax = vmax; vfree = sub32 p.vfree npages })) {
      n_free_vpages = sub32 s.n_free_vpages npages;
    }

unfoldable pub kernel_service_malloc : (nbytes : ℕ) (is_stack : Bool) (pid : ℕ) → M (Unit {0})
kernel_service_malloc nbytes is_stack pid = do
  s ← get
  let npages = ceil_div nbytes page_size
  assert (not (nbytes == 0 || (not is_stack && ltb (s.procs pid).vfree npages)))
  malloc_pages npages is_stack (pdbr_base (s.procs pid).pdbr)
      ((s.procs pid).vmax * 2 ^ 12 % u32_mod)
  s' ← get
  put (book_malloc npages is_stack pid s')

-- a free whose status the code drops
abbrev pub drop_status : M Bool → M (Unit {0})
drop_status m = m >>= λ _. pure tt

-- `free_vpage` of a page in an FFS frame: the frame, its mappings, and its copy in swap
unfoldable pub free_ffs_page : (frame : ℕ) (already_swapped : Bool) → M (Unit {0})
free_ffs_page frame already_swapped = do
  drop_status (freeffsframe frame)
  s ← get
  let i = sub32 frame (maxpdptframe s)
  put (record s { ptmap = update s.ptmap i none })
  s1 ← get
  let free_copy : M (Unit {0}) = do
    assert (is_some (s1.ffs2swapmap i))
    copy ← deref (s1.ffs2swapmap i)
    drop_status (freeswapframe copy)
    s2 ← get
    put (record s2 { swap2ffsmap = update s2.swap2ffsmap (sub32 copy (maxffsframe s2)) none })
  (if already_swapped then free_copy else pure tt)
  s3 ← get
  put (record s3 { ffs2swapmap = update s3.ffs2swapmap i none })

-- `free_vpage` of a page that is present
unfoldable pub free_present : Entry → M (Unit {0})
free_present e = do
  assert (not e.isvmalloc)
  s ← get
  if leb s.regions.minvstack (frame_addr e.base)
      then drop_status (freevstackframe e.base)
      else free_ffs_page e.base e.already_swapped

-- `free_vpage` of a page in swap
unfoldable pub free_swapped : Entry → M (Unit {0})
free_swapped e = do
  s ← get
  let i = sub32 e.base (maxffsframe s)
  assert e.already_swapped
  assert (not (is_some (s.swap2ffsmap i)))
  drop_status (freeswapframe e.base)
  s1 ← get
  put (record s1 { swap2ffsmap = update s1.swap2ffsmap i none })

unfoldable pub free_vpage : (dir i : ℕ) (nofail : Bool) → M (Unit {0})
free_vpage dir i nofail = do
  s ← get
  let curraddr = i * page_size % u32_mod
  let d = s.entries (pt_ref dir (pd_offset curraddr))
  assert d.pres
  let pt = pt_ref d.base (pt_offset curraddr)
  let e = entry_at s pt
  (if e.pres then free_present e else (if e.isswapped then free_swapped e else assert nofail))
  s1 ← get
  put (with_entry s1 pt zero_entry)

-- the loop of `kernel_service_free`, `rounds` pages from page `i` on
unfoldable pub free_pages : (rounds dir i : ℕ) → M (Unit {0})
free_pages zero dir i = pure tt
free_pages (suc k) dir i = do free_vpage dir i true; free_pages k dir (i + 1)

abbrev pub start_page : ℕ → ℕ
start_page ptr = ptr / page_size

abbrev pub end_page : (ptr nbytes : ℕ) → ℕ
end_page ptr nbytes = ceil_div (sub32 (add32 ptr nbytes) 1) page_size

-- The assertion on `n_free_vpages` stands at the end: an unsigned number is at least 0.
unfoldable pub kernel_service_free : (ptr nbytes pid : ℕ) → M (Unit {0})
kernel_service_free ptr nbytes pid = do
  s ← get
  assert (not (nbytes == 0))
  let npages = end_page ptr nbytes - start_page ptr
  free_pages npages (pdbr_base (s.procs pid).pdbr) (start_page ptr)
  s1 ← get
  let p = s1.procs pid
  put (record (set_proc s1 pid (record p { vfree = add32 p.vfree npages })) {
    n_free_vpages = add32 s1.n_free_vpages npages;
  })
  s2 ← get
  assert (leb s2.n_free_vpages max_heap_size)

-- `vmalloc` hands the work to a process of higher priority, which runs to its end at once;
-- `spawned` says whether `create` had a slot and a stack for it. Its result is not tested.
unfoldable pub vmalloc : (spawned : Bool) (nbytes : ℕ) → M ℕ
vmalloc spawned nbytes = do
  s ← get
  let p = s.procs s.currpid
  let npages = ceil_div nbytes page_size
  let service : M (Unit {0}) =
      if spawned then kernel_service_malloc nbytes false s.currpid else pure tt
  if nbytes == 0 || ltb p.vfree npages || ltb s.n_free_vpages npages
      then pure sys_err
      else (service >> pure (p.vmax * 2 ^ 12 % u32_mod))

unfoldable pub getvstk : (spawned : Bool) (nbytes pid : ℕ) → M ℕ
getvstk spawned nbytes pid = do
  s ← get
  let vaddr = (s.procs pid).vmax * 2 ^ 12 % u32_mod
  let service : M (Unit {0}) = if spawned then kernel_service_malloc nbytes true pid else pure tt
  if nbytes == 0 then pure sys_err else (service >> pure (sub32 (add32 vaddr nbytes) 4))

unfoldable pub vfree : (spawned : Bool) (ptr nbytes : ℕ) → M (Unit {0})
vfree spawned ptr nbytes = do
  s ← get
  if spawned then kernel_service_free ptr nbytes s.currpid else pure tt

-- the inner loop of `freevmem`: the entries of the table of directory entry `i`, from the `j`th on
unfoldable pub free_table : (rounds j dir i table : ℕ) → M (Unit {0})
free_table zero j dir i table = pure tt
free_table (suc k) j dir i table = do
  s ← get
  let e = s.entries (pt_ref table j)
  let free_entry : M (Unit {0}) = do
    free_vpage dir (i * n_page_entries + j) false
    s1 ← get
    assert (not (s1.entries (pt_ref table j)).pres)
  (if e.pres || e.isswapped then free_entry else pure tt)
  free_table k (j + 1) dir i table

-- the outer loop of `freevmem`, over the directory from entry `i` on
unfoldable pub free_tables : (rounds i dir : ℕ) → M (Unit {0})
free_tables zero i dir = pure tt
free_tables (suc k) i dir = do
  s ← get
  let d = s.entries (pt_ref dir i)
  (if d.pres then free_table n_page_entries 0 dir i d.base else pure tt)
  free_tables k (i + 1) dir

unfoldable pub freevmem : ℕ → M (Unit {0})
freevmem pid = do
  s ← get
  let p = s.procs pid
  let nstart = entries_below s.regions.minffs
  let release : M (Unit {0}) = do
    free_tables (n_page_entries - nstart) nstart (pdbr_base p.pdbr)
    s1 ← get
    put (record s1 {
      n_free_vpages = add32 s1.n_free_vpages (sub32 (s1.procs pid).hsize (s1.procs pid).vfree);
    })
    s2 ← get
    assert (leb s2.n_free_vpages max_heap_size)
  if p.pruser then release else pure tt
