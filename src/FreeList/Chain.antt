-- ===== src/FreeList/Chain.antt =====
-- The chain invariant of a free list, and the set of free bytes that a chain stands for.
use os_virtual_mem.Prelude.{
  ℕ, ◌+◌, ◌≤◌, ◌<◌, ◌≡◌, refl, Bool, false, ◌&&◌, ◌||◌, List, [], ◌∷◌, arith, ltb, leb,
}
use os_virtual_mem.FreeList.{Block}

-- Sorted by address, with a gap before each block and no block empty, inside `lo ≤ … ≤ hi`.
abbrev pub Chain : ℕ → ℕ → List Block → Type 0
Chain lo hi [] = Unit
Chain lo hi (b ∷ bs) =
    (lo ≤ b.addr)
    × (0 < b.mlength)
    × (b.addr + b.mlength ≤ hi)
    × Chain (b.addr + b.mlength + 1) hi bs

-- byte `x` is one of the `n` bytes from `a` on
abbrev pub in_range : ℕ → ℕ → ℕ → Bool
in_range x a n = leb a x && ltb x (a + n)

-- byte `x` is free
abbrev pub has : ℕ → List Block → Bool
has x [] = false
has x (b ∷ bs) = in_range x b.addr b.mlength || has x bs

-- how many bytes are free
abbrev pub total : List Block → ℕ
total [] = 0
total (b ∷ bs) = b.mlength + total bs

-- Nothing below the lower bound of a chain is free.
pub has-below : (x lo hi : ℕ) (bs : List Block) → Chain lo hi bs → x < lo → has x bs ≡ false
has-below x lo hi [] c h = refl
has-below x lo hi (b ∷ bs) c h = ground (arith, has-below x (b.addr + b.mlength + 1) hi bs)

-- A chain may start anywhere below.
pub Chain-lower : (lo lo' hi : ℕ) (bs : List Block) → lo' ≤ lo → Chain lo hi bs → Chain lo' hi bs
Chain-lower lo lo' hi [] h c = tt
Chain-lower lo lo' hi (b ∷ bs) h c = (omega arith, c.1, c.2, c.3)
