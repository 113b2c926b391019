-- ===== src/PageFault/Move.antt =====
-- `move_out` and `bring_in`: the states that they leave.
use os_virtual_mem.Prelude.{
  ℕ, ◌%◌, ◌^◌, ◌≡◌, Bool, true, false, ◌&&◌, ◌||◌, not, none, some, if◌then◌else◌,
}
use os_virtual_mem.Memory.{sub32}
use os_virtual_mem.Vm.{
  PtRef, Vm, ok, update, entry_at, same_ref, maxffsframe, set_entry, set_entry_self, set_entry_ne,
  set_entry_twice,
}
use os_virtual_mem.Vm.Copy.{copy_page}
use os_virtual_mem.PageFault.{move_out, bring_in}

-- The mappings of the emptied frame and of its swap frame are dropped, the old page is out, and its
-- words are copied if `copied` says so.
abbrev pub moved_out : Vm → (old : PtRef) → (i evict swapframe : ℕ) → (copied inplace : Bool) → Vm
moved_out s old i evict swapframe copied inplace = record s {
  entries = set_entry s.entries old (record (entry_at s old) {
    base = swapframe % 2 ^ 20;
    pres = false;
    isswapped = true;
    already_swapped = true;
    dirty = false;
  });
  words = if copied then copy_page evict swapframe inplace s.words else s.words;
  ffs2swapmap = update s.ffs2swapmap i none;
  swap2ffsmap = update s.swap2ffsmap (sub32 swapframe (maxffsframe s)) none;
}

-- The faulting page's words are in the emptied frame too.
abbrev pub brought_back : Vm → (pt : PtRef) → (i evict base : ℕ) → Vm
brought_back t pt i evict base = record t {
  ffs2swapmap = update t.ffs2swapmap i (some base);
  swap2ffsmap = update t.swap2ffsmap (sub32 base (maxffsframe t)) (some pt);
  words = copy_page base evict false t.words;
}

module _ (s : Vm) (pt old : PtRef) (i evict swapframe : ℕ) (inplace : Bool) where
  pub move_out_lem :
      (copied : Bool)
      → same_ref pt old ≡ false
      → ((entry_at s old).dirty || (entry_at s pt).isswapped) ≡ copied
      → move_out pt old i evict swapframe inplace s
        ≡ ok tt (moved_out s old i evict swapframe copied inplace)
  unfolding move_out
  move_out_lem true apart c =
      rw (set_entry_self, set_entry_ne _ _ _ _ apart, c, set_entry_self, set_entry_twice)
  move_out_lem false apart c =
      rw (set_entry_self, set_entry_ne _ _ _ _ apart, c, set_entry_self, set_entry_twice)

module _ (s : Vm) (pt : PtRef) (i evict : ℕ) where
  pub bring_in-skip :
      (inplace : Bool)
      → ((entry_at s pt).isswapped && not inplace) ≡ false
      → bring_in pt i evict inplace s ≡ ok tt s
  unfolding bring_in
  bring_in-skip inplace h = rw h

  pub bring_in-back :
      (entry_at s pt).isswapped ≡ true
      → (entry_at s pt).already_swapped ≡ true
      → bring_in pt i evict false s ≡ ok tt (brought_back s pt i evict (entry_at s pt).base)
  unfolding bring_in
  bring_in-back h k = rw (h, k)
