-- ===== src/Queue/WakeTimes.antt =====
-- When the processes of a queue of delays wake.
use os_virtual_mem.Prelude.{
  ℕ, suc, length, ◌≡◌, ◌≢◌, refl, true, false, List, [], ◌∷◌, ◌++◌, arith, ◌==◌, sym, ap,
}
use os_virtual_mem.Prelude.Int.{ℤ, ◌+ℤ◌, ◌-ℤ◌, eq_of_parts, +ℤ_parts, -ℤ_parts}
use os_virtual_mem.Queue.{update}
use os_virtual_mem.Queue.Links.{Absent}

pub add-sub : (b k c : ℤ) → b +ℤ k +ℤ (c -ℤ k) ≡ b +ℤ c
add-sub b k c =
    eq_of_parts (b +ℤ k +ℤ (c -ℤ k)) (b +ℤ c)
      (omega (arith, +ℤ_parts (b +ℤ k) (c -ℤ k), +ℤ_parts b k, -ℤ_parts c k, +ℤ_parts b c))

-- when each process wakes, after time `base`
abbrev pub wake_times : (ℕ → ℤ) → ℤ → List ℕ → List ℤ
wake_times keys base [] = []
wake_times keys base (x ∷ xs) = (base +ℤ keys x) ∷ wake_times keys (base +ℤ keys x) xs

-- the time at which the last of them wakes
abbrev pub last_time : (ℕ → ℤ) → ℤ → List ℕ → ℤ
last_time keys base [] = base
last_time keys base (x ∷ xs) = last_time keys (base +ℤ keys x) xs

-- one time for each process, in the order of the queue
pub length-wake_times :
    (keys : ℕ → ℤ) (base : ℤ) (xs : List ℕ) → length (wake_times keys base xs) ≡ length xs
length-wake_times keys base [] = refl
length-wake_times keys base (x ∷ xs) = ap suc (length-wake_times keys (base +ℤ keys x) xs)

pub wake_times-append :
    (keys : ℕ → ℤ) (base : ℤ) (xs ys : List ℕ)
    → wake_times keys base (xs ++ ys)
      ≡ wake_times keys base xs ++ wake_times keys (last_time keys base xs) ys
wake_times-append keys base [] ys = refl
wake_times-append keys base (x ∷ xs) ys =
    ap (◌∷◌ (base +ℤ keys x)) (wake_times-append keys (base +ℤ keys x) xs ys)

pub wake_times-same :
    (keys keys' : ℕ → ℤ) (pid z : ℕ) (base : ℤ) (xs : List ℕ)
    → ((y : ℕ) → y ≢ pid → y ≢ z → keys' y ≡ keys y)
    → Absent pid xs
    → Absent z xs
    → wake_times keys' base xs ≡ wake_times keys base xs
wake_times-same keys keys' pid z base [] same a b = refl
wake_times-same keys keys' pid z base (x ∷ xs) same a b =
    rw (same x (λ h. a.0 (sym h)) (λ h. b.0 (sym h))) (
      ap (◌∷◌ (base +ℤ keys x)) (wake_times-same keys keys' pid z (base +ℤ keys x) xs same a.1 b.1))

pub update_self : (f : ℕ → ℤ) (i : ℕ) (v : ℤ) → update f i v i ≡ v
update_self f i v = let same : (i == i) ≡ true = ground arith in rw same refl

pub update_ne : (f : ℕ → ℤ) (i : ℕ) (v : ℤ) (j : ℕ) → j ≢ i → update f i v j ≡ f j
update_ne f i v j ne = let other : (j == i) ≡ false = ground arith in rw other refl
