-- ===== src/Semaphore/Laws.antt =====
-- `wait` and `signal` where no process blocks, and what they do to the count.
use os_virtual_mem.Prelude.{ℕ, ◌≡◌, refl, true, false, arith, ◌==◌, Bool-cases, inl, inr, ap}
use mathlib.Core.Path.{fun_ext}
use os_virtual_mem.Prelude.Int.{ℤ, pos, ◌+ℤ◌, ◌-ℤ◌}
use os_virtual_mem.Queue.{update}
use os_virtual_mem.Sys.{Sem, Sys, done}
use os_virtual_mem.Semaphore.{unusable, set_sem, is_negative, wait, signal, release_one}

sub-add : (c : ℤ) → c -ℤ pos 1 +ℤ pos 1 ≡ c
unfolding ◌+ℤ◌ ◌-ℤ◌
sub-add c = ground arith

-- A `wait` that does not make the count negative returns at once, and a `signal` after it brings the
-- whole state back.
signal-wait :
    (s : Sys) (sem : ℕ)
    → unusable s sem ≡ false
    → is_negative ((s.semtab sem).scount -ℤ pos 1) ≡ false
    → (s1 : Sys) × (wait sem s ≡ done true s1)
      × ((s1.semtab sem).scount ≡ (s.semtab sem).scount -ℤ pos 1)
      × (signal sem s1 ≡ done true s)
unfolding wait signal release_one
signal-wait s sem usable stays =
    let e = s.semtab sem in
    let s1 = set_sem sem (record e { scount = e.scount -ℤ pos 1 }) s in
    let self : (sem == sem) ≡ true = ground arith in
    let usable1 : unusable s1 sem ≡ false = rw self usable in
    let back : update s1.semtab sem e ≡ s.semtab = fun_ext λ j. elim (Bool-cases (j == sem)) [
      | inl h ↦ let same : j ≡ sem = ground arith in rw (h, same) refl
      | inr h ↦ rw h refl
    ] in
    (
      s1,
      rw (usable, stays) refl,
      rw self refl,
      rw (usable1, self, stays, sub-add)
          (ap (λ (f : ℕ → Sem). done true (record s { semtab = f })) back),
    )
