-- ===== src/PageFault.antt =====
-- xinu/system/pagefault_handler.c. The handler is one function there; here each of its parts is one,
-- in the order of the source. `rnd` is the value that `rand()` returns.
pub mod Move
pub mod Coherent
pub mod Ready
pub mod Leave
pub mod Stays
pub mod SwappedOut
pub mod TakePage
pub mod Swapframe
pub mod Choose
pub mod Outgoing
pub mod Evict
pub mod Served
pub mod Refill
pub mod Arrive
pub mod Vacant
pub mod Always
pub mod RoundTrip
pub mod Fault
use os_virtual_mem.Prelude.{
  ℕ, zero, suc, ◌+◌, ◌-◌, ◌*◌, ◌/◌, ◌%◌, ◌^◌, Bool, true, false, Option, none, some, ◌==◌, ltb, leb,
  ◌&&◌, ◌||◌, not, is_some, if◌then◌else◌,
}
use os_virtual_mem.Memory.{u32_mod, sys_err, page_size, add32, sub32, max_fss_size, max_swap_size}
use os_virtual_mem.Vm.{
  Entry, PtRef, pt_ref, pdbr_base, pd_offset, pt_offset, Vm, Out, ok, halted, stray, M, and_then,
  pure, ◌>>=◌, ◌>>◌, get, put, assert, deref, update, entry_at, with_entry, getffsframe,
  getswapframe, no_frame, maxpdptframe, maxffsframe,
}
use os_virtual_mem.Vm.Copy.{copy_page}

abbrev pub copy_frames : (src dst : ℕ) → Bool → M (Unit {0})
copy_frames src dst bothways s = ok tt (record s { words = copy_page src dst bothways s.words })

-- `swap_get_evict_candidate`: the first swap frame, from the `i`th on, whose page is in FFS too
unfoldable pub swap_candidate : (rounds i : ℕ) → Vm → Option ℕ
swap_candidate zero i s = none
swap_candidate (suc k) i s =
    let rest = swap_candidate k (i + 1) s in
    elim (s.swap2ffsmap i) [ none ↦ rest | some r ↦ if (entry_at s r).pres then some i else rest ]

unfoldable pub swap_get_evict_candidate : Vm → Option ℕ
unfolding swap_candidate
swap_get_evict_candidate s = swap_candidate max_swap_size 0 s

-- Swap is full: a swap frame to take over, and whether the pages are exchanged in place.
unfoldable pub reclaim_swapframe : PtRef → M (ℕ × Bool)
unfolding swap_get_evict_candidate
reclaim_swapframe pt = do
  s ← get
  let taken : ℕ → M (ℕ × Bool) = λ (i : ℕ). do
    tmp ← deref (s.swap2ffsmap i)
    let e = entry_at s tmp
    let s1 = with_entry s tmp (record e { already_swapped = false; dirty = true })
    put (record s1 { ffs2swapmap = update s1.ffs2swapmap (sub32 e.base (maxpdptframe s1)) none })
    pure (add32 i (maxffsframe s1), false)
  let exchanged : M (ℕ × Bool) = do
    let e = entry_at s pt
    assert e.isswapped
    put (with_entry s pt (record e { already_swapped = false; dirty = true }))
    pure (add32 (sub32 e.base (maxffsframe s)) (maxffsframe s), true)
  elim (swap_get_evict_candidate s) [ some i ↦ taken i | none ↦ exchanged ]

-- The swap frame for the page that leaves FFS frame `i`: its own, a free one, or a reclaimed one.
unfoldable pub choose_swapframe : (pt old : PtRef) (i : ℕ) → M (ℕ × Bool)
unfolding reclaim_swapframe
choose_swapframe pt old i = do
  s ← get
  let own : M (ℕ × Bool) = do
    assert (is_some (s.ffs2swapmap i))
    f ← deref (s.ffs2swapmap i)
    pure (f, false)
  let fresh : M (ℕ × Bool) = do
    assert (not (is_some (s.ffs2swapmap i)))
    f ← getswapframe
    if f == no_frame then reclaim_swapframe pt else pure (f, false)
  if (entry_at s old).already_swapped then own else fresh

-- The old page moves out to `swapframe`.
unfoldable pub move_out :
    (pt old : PtRef) (i evict_frame swapframe : ℕ) (inplace : Bool) → M (Unit {0})
move_out pt old i evict_frame swapframe inplace = do
  s ← get
  put (record s {
    ffs2swapmap = update s.ffs2swapmap i none;
    swap2ffsmap = update s.swap2ffsmap (sub32 swapframe (maxffsframe s)) none;
  })
  s1 ← get
  put (
      with_entry s1 old (record (entry_at s1 old) {
        base = swapframe % 2 ^ 20;
        pres = false;
        isswapped = true;
        already_swapped = true;
      }))
  s2 ← get
  (if (entry_at s2 old).dirty || (entry_at s2 pt).isswapped
      then copy_frames evict_frame swapframe inplace
      else pure tt)
  s3 ← get
  put (with_entry s3 old (record (entry_at s3 old) { dirty = false }))

-- The faulting page comes in from swap, if it was there and has not been exchanged.
unfoldable pub bring_in : PtRef → (i evict_frame : ℕ) → (inplace : Bool) → M (Unit {0})
bring_in pt i evict_frame inplace = do
  s ← get
  let p = entry_at s pt
  let bring_back : M (Unit {0}) = do
    assert p.already_swapped
    put (record s {
      ffs2swapmap = update s.ffs2swapmap i (some p.base);
      swap2ffsmap = update s.swap2ffsmap (sub32 p.base (maxffsframe s)) (some pt);
    })
    copy_frames p.base evict_frame false
  if p.isswapped && not inplace then bring_back else pure tt

unfoldable pub move_pages :
    (pt old : PtRef) (i evict_frame swapframe : ℕ) (inplace : Bool) → M (Unit {0})
move_pages pt old i evict_frame swapframe inplace = do
  move_out pt old i evict_frame swapframe inplace
  bring_in pt i evict_frame inplace

-- No FFS frame is free: a random one is emptied. The index of the frame, and the frame.
unfoldable pub evict : (rnd : ℕ) → PtRef → M (ℕ × ℕ)
unfolding choose_swapframe move_out bring_in move_pages
evict rnd pt = do
  s ← get
  let i = rnd % max_fss_size
  let evict_frame = add32 (maxpdptframe s) i
  old ← deref (s.ptmap i)
  (swapframe, inplace) ← choose_swapframe pt old i
  move_pages pt old i evict_frame swapframe inplace
  pure (i, evict_frame)

-- An FFS frame is free: a page that was in swap is copied into it.
unfoldable pub refill : (phys_frame : ℕ) → PtRef → M (ℕ × ℕ)
refill phys_frame pt = do
  s ← get
  let i = sub32 phys_frame (maxpdptframe s)
  let p = entry_at s pt
  let j = sub32 p.base (maxffsframe s)
  let back : M (Unit {0}) = do
    assert (not (is_some (s.ffs2swapmap i)))
    assert (not (is_some (s.swap2ffsmap j)))
    copy_frames p.base phys_frame false
    s1 ← get
    put (record s1 {
      ffs2swapmap = update s1.ffs2swapmap i (some p.base);
      swap2ffsmap = update s1.swap2ffsmap j (some pt);
    })
  (if p.isswapped then back else assert p.isvmalloc)
  pure (i, phys_frame)

-- no other page may still claim the frame
abbrev pub frame_vacant : Vm → ℕ → Bool
frame_vacant s i = elim (s.ptmap i) [ none ↦ true | some r ↦ not (entry_at s r).pres ]

-- The faulting page gets the frame.
unfoldable pub install : PtRef → ℕ × ℕ → M (Unit {0})
install pt (i, phys_frame) = do
  s ← get
  assert (frame_vacant s i)
  put (record s { ptmap = update s.ptmap i (some pt) })
  s1 ← get
  put (
      with_entry s1 pt (record (entry_at s1 pt) {
        base = phys_frame % 2 ^ 20;
        pres = true;
        isvmalloc = false;
        isswapped = false;
        dirty = false;
      }))

-- The fault on the page of entry `pt`.
unfoldable pub service_fault : (rnd : ℕ) → PtRef → M (Unit {0})
unfolding evict refill install
service_fault rnd pt = do
  s ← get
  let e = entry_at s pt
  assert (not e.pres)
  assert (e.isvmalloc || e.isswapped)
  assert (not (e.isvmalloc && e.isswapped))
  phys_frame ← getffsframe
  place ← (if phys_frame == no_frame then evict rnd pt else refill phys_frame pt)
  install pt place

-- `error_code`, CR3 and CR2 are what the processor reports.
unfoldable pub pagefault_handler : (rnd error_code cr3 cr2 : ℕ) → M (Unit {0})
unfolding service_fault
pagefault_handler rnd error_code cr3 cr2 = do
  s ← get
  let pdbr = (s.procs s.currpid).pdbr
  let d = s.entries (pt_ref (pdbr_base pdbr) (pd_offset cr2))
  let missing : M (Unit {0}) = do
    assert (cr3 == pdbr)
    assert (ltb s.regions.maxvstack cr2)
    assert d.pres
    service_fault rnd (pt_ref d.base (pt_offset cr2))
  if error_code % 2 == 0 then missing else pure tt
