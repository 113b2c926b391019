-- ===== src/PageTable.antt =====
-- Directories and tables: `create_directory`, `create_directory_entry`, `create_pagetable_entries`,
-- `destroy_directory` and `init_paging` of xinu/system/paging.c.
pub mod Laws
pub mod Stale
use os_virtual_mem.Prelude.{
  ℕ, zero, suc, ◌+◌, ◌-◌, ◌*◌, ◌/◌, ◌%◌, ◌^◌, Bool, true, false, Option, none, some, ◌==◌, ltb, not,
  if◌then◌else◌,
}
use os_virtual_mem.Memory.{
  u32_mod, page_size, add32, ceil_div, n_page_entries, max_heap_size, max_swap_size, max_fss_size,
  max_stack_size, max_pt_size,
}
use os_virtual_mem.FreeList.{FreeList, init_list}
use os_virtual_mem.Vm.{
  Entry, zero_entry, PtRef, pt_ref, Proc, pdbr_base, Regions, Vm, Out, ok, halted, stray, M,
  and_then, pure, ◌>>=◌, ◌>>◌, get, put, assert, entry_at, with_entry, zero_frame, getpdptframe,
  freepdptframe,
}

-- `pt[j]` at table frame `f`: entries past the table lie in the frames behind it
abbrev pub slot : ℕ → ℕ → PtRef
slot f j = pt_ref (f + j / n_page_entries) (j % n_page_entries)

-- an entry that maps a page flat onto frame `f`
abbrev pub flat_entry : ℕ → Entry
flat_entry f = record zero_entry { pres = true; writable = true; pcd = true; base = f % 2 ^ 20 }

-- the loop of `create_pagetable_entries`, `rounds` entries from the `i`th on
unfoldable pub fill_entries : (rounds i ptbase phybaseaddr ventrystart : ℕ) → Vm → Vm
fill_entries zero i ptbase phybaseaddr ventrystart s = s
fill_entries (suc k) i ptbase phybaseaddr ventrystart s =
    fill_entries k (i + 1) ptbase phybaseaddr ventrystart
      (with_entry s (slot ptbase (ventrystart + i)) (flat_entry (add32 phybaseaddr i)))

unfoldable pub create_pagetable_entries : (ptbase phybaseaddr ventrystart nventries : ℕ) → M ℕ
create_pagetable_entries ptbase phybaseaddr ventrystart nventries = do
  base ← (if ptbase == 0 then getpdptframe else pure ptbase)
  s ← get
  put (fill_entries nventries 0 base phybaseaddr ventrystart s)
  pure base

-- the flags that `create_directory_entry` sets; `pd_base` stays
abbrev pub directory_flags : Entry → Entry
directory_flags e = record e {
  pres = true;
  writable = true;
  user = false;
  pwt = false;
  pcd = true;
  acc = false;
  dirty = false;
  mbz = false;
  global = false;
  isvmalloc = false;
  isswapped = false;
  already_swapped = false;
}

-- `nullproc_share_index`, `none` for -1, counts only once the null process has its directory
abbrev pub share_entry : Vm → Option ℕ → Option Entry
share_entry s none = none
share_entry s (some i) = elim s.n_static_pages [
  | none ↦ none
  | some n ↦ some (s.entries (pt_ref (pdbr_base (s.procs 0).pdbr) i))
]

-- The words that it sets to 0 are those of the frame in `pd_base` before that is assigned.
unfoldable pub create_directory_entry :
    (pd : PtRef) → Option ℕ → (phybaseaddr ventrystart nventries : ℕ) → M (Unit {0})
create_directory_entry pd share phybaseaddr ventrystart nventries = do
  s ← get
  put (with_entry s pd (directory_flags (entry_at s pd)))
  s1 ← get
  put (zero_frame (entry_at s1 pd).base s1)
  s2 ← get
  base ← elim (share_entry s2 share) [
    | some e ↦ pure e.base
    | none ↦ create_pagetable_entries 0 phybaseaddr ventrystart nventries
  ]
  s3 ← get
  put (with_entry s3 pd (record (entry_at s3 pd) { base = base % 2 ^ 20 }))

-- the loop of `create_directory` over the flat-mapped part, `rounds` entries from the `i`th on
unfoldable pub create_entries : (rounds i dirframe : ℕ) → M (Unit {0})
unfolding create_directory_entry
create_entries zero i dirframe = pure tt
create_entries (suc k) i dirframe = do
  create_directory_entry (slot dirframe i) (some i) (i * n_page_entries) 0 n_page_entries
  create_entries k (i + 1) dirframe

-- `pdbr_t` with only `pdbr_pcd` set, as a word
abbrev pub pdbr_word : ℕ → ℕ
pdbr_word dirframeno = dirframeno % 2 ^ 20 * 2 ^ 12 + 2 ^ 4

-- how many directory entries the memory below `addr` takes
abbrev pub entries_below : ℕ → ℕ
entries_below addr = ceil_div (ceil_div addr page_size) n_page_entries

unfoldable pub create_directory : M ℕ
create_directory = do
  dirframeno ← getpdptframe
  s ← get
  put (zero_frame dirframeno s)
  create_entries (entries_below s.regions.minpdpt) 0 dirframeno
  s' ← get
  elim s'.n_static_pages [
    | none ↦ put (record s' { n_static_pages = some (entries_below s.regions.minpdpt) })
    | some n ↦ put s'
  ]
  pure (pdbr_word dirframeno)

-- no entry of the table is present, from the `i`th on
unfoldable pub all_absent : (rounds i table : ℕ) → Vm → Bool
all_absent zero i table s = true
all_absent (suc k) i table s =
    let rest = all_absent k (i + 1) table s in
    if (s.entries (pt_ref table i)).pres then false else rest

-- the loop of `destroy_directory` over the entries behind the shared ones
unfoldable pub destroy_tables : (rounds i dirno : ℕ) → M (Unit {0})
destroy_tables zero i dirno s = ok tt s
destroy_tables (suc k) i dirno s =
    let d = s.entries (pt_ref dirno i) in
    let free_table : Out (Unit {0}) =
      (do
        assert (all_absent n_page_entries 0 d.base s)
        freed ← freepdptframe d.base
        assert freed
        destroy_tables k (i + 1) dirno)
        s in
    let skip = destroy_tables k (i + 1) dirno s in if d.pres then free_table else skip

unfoldable pub destroy_directory : ℕ → M (Unit {0})
destroy_directory pid = do
  s ← get
  let dirno = pdbr_base (s.procs pid).pdbr
  let nstart = entries_below s.regions.minffs
  let destroy : M (Unit {0}) = do
    destroy_tables (n_page_entries - nstart) nstart dirno
    done ← freepdptframe dirno
    assert done
  if (s.procs pid).pruser then destroy else pure tt

-- `init_paging`: the four regions, one behind the other, from the end of the kernel heap on.
-- Setting the interrupt vector is left out.
unfoldable pub init_paging : (maxheap : ℕ) → M (Unit {0})
init_paging maxheap s = elim (init_list s.pdptlist (add32 maxheap 1) (page_size * max_pt_size)) [
  | none ↦ halted
  | some (pdpt, minpdpt, maxpdpt) ↦
      elim (init_list s.ffslist (add32 maxpdpt 1) (page_size * max_fss_size)) [
        | none ↦ halted
        | some (ffs, minffs, maxffs) ↦
            elim (init_list s.swaplist (add32 maxffs 1) (page_size * max_swap_size)) [
              | none ↦ halted
              | some (swap, minswap, maxswap) ↦
                  elim (init_list s.vstacklist (add32 maxswap 1) (page_size * max_stack_size)) [
                    | none ↦ halted
                    | some (vstack, minvstack, maxvstack) ↦ ok tt (record s {
                      pdptlist = pdpt;
                      ffslist = ffs;
                      swaplist = swap;
                      vstacklist = vstack;
                      regions = record {
                        minpdpt = minpdpt;
                        maxpdpt = maxpdpt;
                        minffs = minffs;
                        maxffs = maxffs;
                        minswap = minswap;
                        maxswap = maxswap;
                        minvstack = minvstack;
                        maxvstack = maxvstack;
                      };
                      n_static_pages = none;
                      n_free_vpages = max_heap_size;
                      ptmap = λ i. if ltb i max_fss_size then none else s.ptmap i;
                      ffs2swapmap = λ i. if ltb i max_fss_size then none else s.ffs2swapmap i;
                      swap2ffsmap = λ i. if ltb i max_swap_size then none else s.swap2ffsmap i;
                    })
                  ]
            ]
      ]
]
