-- ===== src/Semaphore/Create.antt =====
-- What `semcreate` does, and a `wait` that does not block.
use os_virtual_mem.Prelude.{
  ℕ, zero, suc, ◌+◌, ◌<◌, ◌≡◌, refl, arith, ◌==◌, leb, Bool-cases, inl, inr, true, false,
  if◌then◌else◌, ◌⊎◌, some, none,
}
use os_virtual_mem.Prelude.Int.{pos, ◌+ℤ◌, ◌-ℤ◌}
use os_virtual_mem.Queue.{n_sem, update}
use os_virtual_mem.Sys.{Sem, Sys, done}
use os_virtual_mem.Semaphore.{
  is_negative, unusable, set_sem, newsem, semcreate, wait, signal, release_one,
}

-- `newsem` finds nothing, or an entry that is not in use, which it marks.
abbrev NewSem : (rounds : ℕ) → Sys → Type 0
NewSem k s =
    ((m : ℕ) × (m < n_sem) × (newsem k s ≡ done none (record s { nextsem = m })))
    ⊎ ((i m : ℕ) × (i < n_sem)
        × (m < n_sem)
        × ((s.semtab i).used ≡ false)
        × (newsem k s
            ≡ done (some i)
                (set_sem i (record (s.semtab i) { used = true }) (record s { nextsem = m }))))

newsem_lem : (k : ℕ) (s : Sys) → s.nextsem < n_sem → NewSem k s
unfolding newsem
newsem_lem zero s h = inl (s.nextsem, h, refl)
newsem_lem (suc k) s h =
    let next : ℕ = if leb n_sem (s.nextsem + 1) then 0 else s.nextsem + 1 in
    let small : next < n_sem = ground arith in
    elim (Bool-cases (s.semtab s.nextsem).used) [
      | inl taken ↦ elim (newsem_lem k (record s { nextsem = next }) small) [
        | inl (m, lt, run) ↦ inl (m, lt, rw taken run)
        | inr (i, m, lt, lt', unused, run) ↦ inr (i, m, lt, lt', unused, rw taken run)
      ]
      | inr unused ↦ inr (s.nextsem, next, h, small, unused, rw unused refl)
    ]

-- `semcreate` of a count that is not negative: it finds every entry in use, or it takes an unused
-- entry for the count; nothing else changes but the place of the next search.
pub semcreate_lem :
    (s : Sys) (c : ℕ)
    → s.nextsem < n_sem
    → ((m : ℕ) × (m < n_sem) × (semcreate (pos c) s ≡ done none (record s { nextsem = m })))
      ⊎ ((i m : ℕ) × (f : ℕ → Sem) × (i < n_sem)
          × (m < n_sem)
          × ((s.semtab i).used ≡ false)
          × (semcreate (pos c) s ≡ done (some i) (record s { semtab = f; nextsem = m }))
          × ((f i).used ≡ true)
          × ((f i).scount ≡ pos c)
          × ((j : ℕ) → (j == i) ≡ false → f j ≡ s.semtab j))
unfolding semcreate
semcreate_lem s c h =
    let natural : is_negative (pos c) ≡ false = ground arith in
    elim (newsem_lem n_sem s h) [
      | inl (m, lt, run) ↦ inl (m, lt, rw (natural, run) refl)
      | inr (i, m, lt, lt', unused, run) ↦
          let self : (i == i) ≡ true = ground arith in
          let e1 : Sem = record (s.semtab i) { used = true } in
          let f : ℕ → Sem =
            update (update s.semtab i e1) i (record (update s.semtab i e1 i) { scount = pos c }) in
          inr (
            i,
            m,
            f,
            lt,
            lt',
            unused,
            rw (natural, run) refl,
            rw self refl,
            rw self refl,
            λ j ne. rw ne refl,
          )
    ]

-- A `wait` on a positive count only takes one off, and a `signal` on a count that is not negative only
-- adds one.
module _ (s : Sys) (sem c : ℕ) (usable : unusable s sem ≡ false) where
  pub wait_free :
      (s.semtab sem).scount ≡ pos (suc c)
      → wait sem s ≡ done true (set_sem sem (record (s.semtab sem) { scount = pos c }) s)
  unfolding wait
  wait_free count =
      let less : pos (suc c) -ℤ pos 1 ≡ pos c = unfold ◌-ℤ◌ in ground arith in
      let natural : is_negative (pos c) ≡ false = ground arith in
      rw (usable, count, less, natural) refl

  pub signal_free :
      (s.semtab sem).scount ≡ pos c
      → signal sem s ≡ done true (set_sem sem (record (s.semtab sem) { scount = pos (suc c) }) s)
  unfolding signal release_one
  signal_free count =
      let more : pos c +ℤ pos 1 ≡ pos (suc c) = unfold ◌+ℤ◌ in ground arith in
      let natural : is_negative (pos c) ≡ false = ground arith in
      rw (usable, count, more, natural) refl
