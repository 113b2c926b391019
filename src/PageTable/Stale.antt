-- ===== src/PageTable/Stale.antt =====
-- `create_directory_entry` for a new table: which frame it zeroes.
use os_virtual_mem.Prelude.{
  ℕ, ◌-◌, ◌*◌, ◌/◌, ◌%◌, ◌^◌, ◌<◌, ◌≤◌, ◌≡◌, ◌≢◌, refl, true, false, none, arith, ◌==◌, ltb, ◌&&◌,
  ap, ◌∙◌,
}
use os_virtual_mem.Memory.{page_size, sys_err}
use os_virtual_mem.FreeList.{FreeList, getfreemem}
use os_virtual_mem.Vm.{
  Entry, zero_entry, PtRef, pt_ref, Vm, ok, entry_at, with_entry, same_ref, set_entry,
  set_entry_self, set_entry_ne, getpdptframe, zero_frame,
}
use os_virtual_mem.PageTable.{
  directory_flags, create_directory_entry, create_pagetable_entries, fill_entries,
}

-- A new table for an entry of a fresh directory, whose base is still 0, where the allocator has a
-- frame: the entry comes to point to that frame, but frame 0 is what is set to zero. The new table's
-- entries, less the two words where a free block had its header, are what the frame held before.
pub create_directory_entry-stale :
    (s : Vm) (pd : PtRef) (f : ℕ) (l : FreeList) (phys : ℕ)
    → (entry_at s pd).base ≡ 0
    → getfreemem s.pdptlist page_size ≡ (f * page_size, l)
    → f < 2 ^ 20 - 1
    → f ≢ 0
    → pd.frame ≢ f
    → pd.frame ≢ 0
    → (s' : Vm) × (create_directory_entry pd none phys 0 0 s ≡ ok tt s')
      × ((entry_at s' pd).pres ≡ true)
      × ((entry_at s' pd).base ≡ f)
      × ((j : ℕ) → 2 ≤ j → j < 1024 → entry_at s' (pt_ref f j) ≡ entry_at s (pt_ref f j))
      × ((j : ℕ) → j < 1024 → entry_at s' (pt_ref 0 j) ≡ zero_entry)
unfolding create_directory_entry create_pagetable_entries getpdptframe fill_entries set_entry
create_directory_entry-stale s pd f l phys fresh got small real apart up =
    let d = directory_flags (entry_at s pd) in
    let flagged = set_entry_self s.entries pd d in
    let base0 : (set_entry s.entries pd d pd).base ≡ 0 = ap (λ e. e.base) flagged ∙ fresh in
    let found : (f * page_size == sys_err) ≡ false = ground arith in
    let frame : f * page_size / page_size ≡ f = omega arith in
    let s1 : Vm = zero_frame 0 (with_entry s pd d) in
    let e' : Entry = record (entry_at s1 pd) { base = f % 2 ^ 20 } in
    let s' : Vm = with_entry (record s1 { pdptlist = l }) pd e' in
    let kept : (r : PtRef) → same_ref r pd ≡ false → entry_at s' r ≡ entry_at s1 r =
      λ r ne. set_entry_ne s1.entries pd e' r ne in
    let self = set_entry_self s1.entries pd e' in
    let word : f % 2 ^ 20 ≡ f = omega arith in
    let pd_up : (pd.frame == 0 && ltb pd.index 1024) ≡ false = ground arith in
    (
      s',
      rw (base0, got, found, frame) refl,
      ap (λ e. e.pres) self ∙ rw (pd_up, flagged) refl,
      ap (λ e. e.base) self ∙ word,
      λ j lo hi.
          let ne : same_ref (pt_ref f j) pd ≡ false = ground arith in
          let not_0 : (f == 0) ≡ false = ground arith in
          kept (pt_ref f j) ne ∙ rw not_0 (set_entry_ne s.entries pd d (pt_ref f j) ne),
      λ j hi.
          let ne : same_ref (pt_ref 0 j) pd ≡ false = ground arith in
          let here : ltb j 1024 ≡ true = ground arith in kept (pt_ref 0 j) ne ∙ rw here refl,
    )
