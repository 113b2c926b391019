-- ===== src/Clock/Laws.antt =====
-- The clock's count of milliseconds and seconds.
use os_virtual_mem.Prelude.{
  ℕ, zero, suc, ◌+◌, ◌-◌, ◌*◌, ◌<◌, ◌≤◌, ◌≡◌, refl, arith, ◌∙◌, ap, false, ◌==◌, ◌%◌,
}
use os_virtual_mem.Memory.{add32, sub32, u32_mod}
use os_virtual_mem.Clock.{count_ms}

-- `n` clock interrupts
unfoldable pub ticks : ℕ → ℕ × ℕ → ℕ × ℕ
unfolding count_ms
ticks zero c = c
ticks (suc n) c = ticks n (count_ms c)

-- fewer interrupts than milliseconds are left
ticks-within : (n c t : ℕ) → n < c → c ≤ 1000 → ticks n (c, t) ≡ (c - n, t)
unfolding ticks count_ms
ticks-within zero c t lt le = let all : c - 0 ≡ c = omega arith in rw all refl
ticks-within (suc n) c t lt le =
    let more : (sub32 c 1 == 0) ≡ false = ground arith in
    let one : sub32 c 1 ≡ c - 1 = omega arith in
    let step : count_ms (c, t) ≡ (c - 1, t) = unfold count_ms in rw (more, one) in
    let left : c - 1 - n ≡ c - suc n = omega arith in
    rw step (ticks-within n (c - 1) t (omega arith) (omega arith) ∙ ap (λ (z : ℕ). (z, t)) left)

ticks-suc : (n : ℕ) (c : ℕ × ℕ) → ticks (suc n) c ≡ ticks n (count_ms c)
unfolding ticks
ticks-suc n c = refl

ticks-add : (m n : ℕ) (c : ℕ × ℕ) → ticks (m + n) c ≡ ticks n (ticks m c)
unfolding ticks
ticks-add zero n c = let h : 0 + n ≡ n = omega arith in rw h refl
ticks-add (suc m) n c =
    let h : suc m + n ≡ suc (m + n) = omega arith in rw h (ticks-add m n (count_ms c))

-- After `seconds * 1000 + n` interrupts from the start of a second, with `n` below 1000, the time has
-- gone up by `seconds`, modulo `2 ^ 32`, and `1000 - n` milliseconds are left.
pub ticks_lem :
    (seconds n t : ℕ)
    → n < 1000
    → ticks (seconds * 1000 + n) (1000, t % u32_mod) ≡ (1000 - n, (t + seconds) % u32_mod)
ticks_lem zero n t lt =
    let h : 0 * 1000 + n ≡ n = omega arith in
    let u : t + 0 ≡ t = omega arith in
    rw (h, u) (ticks-within n 1000 (t % u32_mod) lt (omega arith))
ticks_lem (suc k) n t lt =
    let split : suc k * 1000 + n ≡ 999 + suc (k * 1000 + n) = omega arith in
    let last : count_ms (1, t % u32_mod) ≡ (1000, (t + 1) % u32_mod) =
      unfold count_ms in
      ap (λ (z : ℕ). (1000, z))
        (let h : add32 (t % u32_mod) 1 ≡ (t + 1) % u32_mod = omega arith in h) in
    rw
      (
        split,
        ticks-add,
        ticks-within 999 1000 (t % u32_mod) (omega arith) (omega arith),
        ticks-suc,
        last,
      )
      (ticks_lem k n (t + 1) lt
        ∙ ap (λ (z : ℕ). (1000 - n, z % u32_mod))
            (let h : t + 1 + k ≡ t + suc k = omega arith in h))
