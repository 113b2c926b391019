-- ===== src/PageTable/Laws.antt =====
-- The entries that a directory or a table is filled with.
use os_virtual_mem.Prelude.{
  ℕ, zero, suc, ◌+◌, ◌<◌, ◌≤◌, ◌≡◌, ◌≢◌, refl, false, arith, ◌==◌, inl, inr, Bool-cases, ◌∙◌,
}
use os_virtual_mem.Memory.{add32}
use os_virtual_mem.Vm.{PtRef, Vm, ok, entry_at, with_entry, same_ref, set_entry_self, set_entry_ne}
use os_virtual_mem.PageTable.{slot, flat_entry, fill_entries, create_pagetable_entries}

-- two entries of one table and the tables behind it
slot-apart : (f i j : ℕ) → i ≢ j → same_ref (slot f i) (slot f j) ≡ false
slot-apart f i j ne = ground arith

module _ (f phys start : ℕ) where
  -- the loop from round `i` on: what it has not reached yet stays
  pub fill_entries-before :
      (rounds i : ℕ) (s : Vm) (j : ℕ)
      → j < start + i
      → entry_at (fill_entries rounds i f phys start s) (slot f j) ≡ entry_at s (slot f j)
  unfolding fill_entries
  fill_entries-before zero i s j lt = refl
  fill_entries-before (suc k) i s j lt =
      fill_entries-before k (i + 1) (with_entry s (slot f (start + i)) (flat_entry (add32 phys i)))
        j (omega arith)
      ∙ set_entry_ne s.entries (slot f (start + i)) (flat_entry (add32 phys i)) (slot f j)
          (slot-apart f j (start + i) (omega arith))

  fill_entries-written :
      (rounds i : ℕ) (s : Vm) (j : ℕ)
      → i ≤ j
      → j < i + rounds
      → entry_at (fill_entries rounds i f phys start s) (slot f (start + j))
        ≡ flat_entry (add32 phys j)
  unfolding fill_entries
  fill_entries-written zero i s j le lt = ground arith
  fill_entries-written (suc k) i s j le lt = elim (Bool-cases (j == i)) [
    | inl e ↦
        let same : j ≡ i = ground arith in
        rw same (
          fill_entries-before k (i + 1)
            (with_entry s (slot f (start + i)) (flat_entry (add32 phys i))) (start + i)
            (omega arith)
          ∙ set_entry_self s.entries (slot f (start + i)) (flat_entry (add32 phys i)))
    | inr e ↦
        let ne : i ≢ j = ground arith in
        fill_entries-written k (i + 1)
          (with_entry s (slot f (start + i)) (flat_entry (add32 phys i))) j (omega arith)
          (omega arith)
  ]

  fill_entries-outside :
      (rounds i : ℕ) (s : Vm) (r : PtRef)
      → ((j : ℕ) → i ≤ j → j < i + rounds → same_ref r (slot f (start + j)) ≡ false)
      → entry_at (fill_entries rounds i f phys start s) r ≡ entry_at s r
  unfolding fill_entries
  fill_entries-outside zero i s r out = refl
  fill_entries-outside (suc k) i s r out =
      fill_entries-outside k (i + 1) (with_entry s (slot f (start + i)) (flat_entry (add32 phys i)))
        r (λ j le lt. out j (omega arith) (omega arith))
      ∙ set_entry_ne s.entries (slot f (start + i)) (flat_entry (add32 phys i)) r
          (out i (omega arith) (omega arith))

-- `create_pagetable_entries` on a table that exists maps its entries `start` to `start + n - 1` flat
-- onto the frames from `phys` on, present and writable, and leaves every other entry as it was.
create_pagetable_entries_lem :
    (f phys start n : ℕ) (s : Vm)
    → f ≢ 0
    → (s' : Vm) × (create_pagetable_entries f phys start n s ≡ ok f s')
      × ((j : ℕ) → j < n → entry_at s' (slot f (start + j)) ≡ flat_entry (add32 phys j))
      × ((r : PtRef)
          → ((j : ℕ) → j < n → same_ref r (slot f (start + j)) ≡ false)
          → entry_at s' r ≡ entry_at s r)
unfolding create_pagetable_entries
create_pagetable_entries_lem f phys start n s real =
    let there : (f == 0) ≡ false = ground arith in
    (
      fill_entries n 0 f phys start s,
      rw there refl,
      λ j lt. fill_entries-written f phys start n 0 s j (omega arith) (omega arith),
      λ r out. fill_entries-outside f phys start n 0 s r (λ j le lt. out j (omega arith)),
    )
