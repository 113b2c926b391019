-- ===== src/FreeList/Get.antt =====
-- `_getfreemem`: the bytes that it hands out, and the chain that it leaves.
use os_virtual_mem.Prelude.{
  ℕ, ◌%◌, ◌⊎◌, ◌+◌, ◌-◌, ◌≤◌, ◌<◌, ◌≡◌, refl, true, false, ◌||◌, Option, none, some, List, [], ◌∷◌,
  arith, ltb, ◌==◌, Bool-cases, Option-cases, inl, inr,
}
use mathlib.Core.Path.{subst}
use mathlib.Core.Option.{some-injective}
use native.Mathlib.Nat.{le_refl}
use os_virtual_mem.Memory.{u32_mod, add32_fit, sub32_fit, sys_err, roundmb, roundmb_bounds}
use os_virtual_mem.FreeList.{Block, block, FreeList, take_first, getfreemem}
use os_virtual_mem.FreeList.Chain.{Chain, in_range, has, total, has-below, Chain-lower}

-- What taking `n` bytes at `a` out of `bs` has to do.
pub record Taken (lo hi n a : ℕ) (bs bs' : List Block) : Type 0 where
  pub chain : Chain lo hi bs'
  pub above : lo ≤ a
  pub below : a + n ≤ hi
  pub same : (x : ℕ) → has x bs ≡ (in_range x a n || has x bs')
  pub gone : (x : ℕ) → in_range x a n ≡ true → has x bs' ≡ false
  pub sum : total bs ≡ n + total bs'

module _ (hi n : ℕ) (small : hi < u32_mod) (pos : 0 < n) where
  Taken-whole :
      (lo : ℕ) (b : Block) (bs : List Block)
      → Chain lo hi (b ∷ bs)
      → b.mlength ≡ n
      → Taken lo hi n b.addr (b ∷ bs) bs
  Taken-whole lo b bs c e = record {
    chain = Chain-lower (b.addr + b.mlength + 1) lo hi bs (omega arith) c.3;
    above = omega arith;
    below = omega arith;
    same = λ x. ground arith;
    gone = λ x h. has-below x (b.addr + b.mlength + 1) hi bs c.3 (ground arith);
    sum = omega arith;
  }

  Taken-split :
      (lo : ℕ) (b : Block) (bs : List Block)
      → Chain lo hi (b ∷ bs)
      → n < b.mlength
      → Taken lo hi n b.addr (b ∷ bs) (block (b.addr + n) (b.mlength - n) ∷ bs)
  Taken-split lo b bs c h = record {
    chain = (omega arith, omega arith, omega arith, tail);
    above = omega arith;
    below = omega arith;
    same = λ x. ground arith;
    gone = λ x m.
        has-below x (b.addr + n) hi (block (b.addr + n) (b.mlength - n) ∷ bs)
          (le_refl (b.addr + n), omega arith, omega arith, tail) (ground arith);
    sum = omega arith;
  }
    where
      tail : Chain (b.addr + n + (b.mlength - n) + 1) hi bs
      tail =
          Chain-lower (b.addr + b.mlength + 1) (b.addr + n + (b.mlength - n) + 1) hi bs
            (omega arith) c.3

  Taken-later :
      (lo a : ℕ) (b : Block) (bs bs' : List Block)
      → Chain lo hi (b ∷ bs)
      → Taken (b.addr + b.mlength + 1) hi n a bs bs'
      → Taken lo hi n a (b ∷ bs) (b ∷ bs')
  Taken-later lo a b bs bs' c t = record {
    chain = (c.0, c.1, c.2, t.chain);
    above = omega arith;
    below = t.below;
    same = λ x. ground (arith, t.same x);
    gone = λ x h. ground (arith, t.gone x);
    sum = omega arith;
  }

  Taken-eq :
      (lo a x : ℕ) (bs bs' ys : List Block)
      → ◌≡◌ {A = Option (ℕ × List Block)} (some (x, ys)) (some (a, bs'))
      → Taken lo hi n x bs ys
      → Taken lo hi n a bs bs'
  Taken-eq lo a x bs bs' ys e t =
      subst (λ p. Taken lo hi n p.0 bs p.1) (some-injective (x, ys) (a, bs') e) t

  -- A block that first fit finds leaves the chain invariant, and exactly its bytes are gone.
  pub take_first-Taken :
      (lo : ℕ) (bs : List Block) {a : ℕ} {bs' : List Block}
      → Chain lo hi bs
      → take_first n bs ≡ some (a, bs')
      → Taken lo hi n a bs bs'
  unfolding take_first
  take_first-Taken lo [] c e = cc
  take_first-Taken lo (b ∷ bs) {a} {bs'} c e = elim (Bool-cases (b.mlength == n)) [
    | inl exact ↦
        Taken-eq lo a b.addr (b ∷ bs) bs' bs (rw exact at e) (Taken-whole lo b bs c (ground arith))
    | inr other ↦ elim (Bool-cases (ltb n b.mlength)) [
      | inl big ↦
          Taken-eq lo a b.addr (b ∷ bs) bs' (block (b.addr + n) (b.mlength - n) ∷ bs)
            (rw
              (
                other,
                big,
                add32_fit b.addr n (ground arith),
                sub32_fit b.mlength n (ground arith) (ground arith),
              )
              at e)
            (Taken-split lo b bs c (ground arith))
      | inr tight ↦ elim (Option-cases (take_first n bs)) [
        | inl miss ↦ cc (rw (other, tight, miss) at e)
        | inr (p, found) ↦
            Taken-eq lo a p.0 (b ∷ bs) bs' (b ∷ p.1) (rw (other, tight, found) at e) (
              Taken-later lo p.0 b bs p.1 c
                (take_first-Taken (b.addr + b.mlength + 1) bs c.3 found))
      ]
    ]
  ]

-- no block holds `n` bytes
abbrev pub AllBelow : ℕ → List Block → Type 0
AllBelow n [] = Unit
AllBelow n (b ∷ bs) = (b.mlength < n) × AllBelow n bs

-- First fit fails only where every block is too small.
pub take_first-none : (n : ℕ) (bs : List Block) → take_first n bs ≡ none → AllBelow n bs
unfolding take_first
take_first-none n [] e = tt
take_first-none n (b ∷ bs) e = elim (Bool-cases (b.mlength == n)) [
  | inl exact ↦ cc (rw exact at e)
  | inr other ↦ elim (Bool-cases (ltb n b.mlength)) [
    | inl big ↦ cc (rw (other, big) at e)
    | inr tight ↦ elim (Option-cases (take_first n bs)) [
      | inl miss ↦ (ground arith, take_first-none n bs miss)
      | inr (p, found) ↦ cc (rw (other, tight, found) at e)
    ]
  ]
]

-- The header's byte count agrees with the chain up to a fixed offset `k`, modulo `2 ^ 32`.
abbrev pub Counts : ℕ → FreeList → Type 0
Counts k l = (l.mlength + k) % u32_mod ≡ total l.blocks % u32_mod

-- The outcome of `_getfreemem`: a refusal that changes nothing, where every block is too small, or
-- a block whose bytes are taken out.
abbrev pub GetResult : (lo hi k nbytes : ℕ) → FreeList → ℕ × FreeList → Type 0
GetResult lo hi k nbytes l r =
    ((r.0 ≡ sys_err) × (r.1 ≡ l) × AllBelow (roundmb nbytes) l.blocks)
    ⊎ (Taken lo hi (roundmb nbytes) r.0 l.blocks r.1.blocks
        × (r.0 < sys_err)
        × Counts k r.1
        × (r.1.mlength < u32_mod))

-- On a chain with a right count, `_getfreemem` of a size below the wrap refuses and changes nothing,
-- and every block is too small then, or it takes exactly the rounded size out of the free bytes and
-- leaves a chain with a right count.
pub getfreemem_lem :
    (lo hi k nbytes : ℕ) (l : FreeList)
    → hi < u32_mod
    → 0 < nbytes
    → nbytes + 7 < u32_mod
    → Chain lo hi l.blocks
    → Counts k l
    → GetResult lo hi k nbytes l (getfreemem l nbytes)
unfolding getfreemem
getfreemem_lem lo hi k nbytes l small pos fits c cnt =
    let b = roundmb_bounds nbytes fits in
    let nz : (nbytes == 0) ≡ false = ground arith in
    elim (Option-cases (take_first (roundmb nbytes) l.blocks)) [
      | inl miss ↦ rw (nz, miss) (inl (refl, refl, take_first-none (roundmb nbytes) l.blocks miss))
      | inr (p, found) ↦
          let t = take_first-Taken hi (roundmb nbytes) small (omega arith) lo l.blocks c found in
          rw (nz, found) (inr (t, omega (arith, t.sum, b.0), omega (arith, t.sum), omega arith))
    ]
