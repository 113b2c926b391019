-- ===== src/FreeList/Free.antt =====
-- `_freemem`: what it accepts, what it refuses, and the chain that it leaves.
use os_virtual_mem.Prelude.{
  ℕ, ◌+◌, ◌≤◌, ◌<◌, ◌≡◌, refl, Bool, true, false, ◌&&◌, ◌||◌, Option, none, some, List, [], ◌∷◌,
  arith, ltb, ◌==◌, Bool-cases, inl, inr,
}
use os_virtual_mem.Memory.{u32_mod, add32, add32_fit}
use os_virtual_mem.FreeList.{
  Block, block, Freed, freed, sys_error, join_next, link_block, free_walk, push_block, hits_next,
}
use os_virtual_mem.FreeList.Chain.{Chain, in_range, has, total, Chain-lower}

-- some block of the chain has a byte among the `n` from `a` on
abbrev pub overlaps : ℕ → ℕ → List Block → Bool
overlaps a n [] = false
overlaps a n (b ∷ bs) = (ltb a (b.addr + b.mlength) && ltb b.addr (a + n)) || overlaps a n bs

-- What giving `n` bytes at `a` back to `bs` has to do.
pub record Given (lo hi n a : ℕ) (bs bs' : List Block) : Type 0 where
  pub chain : Chain lo hi bs'
  pub same : (x : ℕ) → has x bs' ≡ (in_range x a n || has x bs)
  pub sum : total bs' ≡ n + total bs

abbrev pub Gives : (lo hi n a : ℕ) → List Block → Freed (List Block) → Type 0
Gives lo hi n a bs r = (bs' : List Block) × (r ≡ freed bs') × Given lo hi n a bs bs'

overlaps-above :
    (a n lo hi : ℕ) (bs : List Block) → Chain lo hi bs → a + n ≤ lo → overlaps a n bs ≡ false
overlaps-above a n lo hi [] c h = refl
overlaps-above a n lo hi (b ∷ bs) c h =
    ground (arith, overlaps-above a n (b.addr + b.mlength + 1) hi bs c.3)

-- `prev` in front of the chain behind it
abbrev pub with_prev : Option Block → List Block → List Block
with_prev none bs = bs
with_prev (some p) bs = p ∷ bs

abbrev pub PrevBelow : Option Block → ℕ → Type 0
PrevBelow none a = Unit
PrevBelow (some p) a = p.addr < a

-- the walk stops here: the next block does not begin below `a`
abbrev pub StopsAt : ℕ → List Block → Type 0
StopsAt a [] = Unit
StopsAt a (nx ∷ _) = a ≤ nx.addr

module _ (hi : ℕ) (small : hi < u32_mod) where
  -- a block in front of a chain that may begin where the block ends
  join_next-Gives :
      (lo : ℕ) (b : Block) (next : List Block)
      → 0 < lo
      → lo ≤ b.addr
      → 0 < b.mlength
      → b.addr + b.mlength ≤ hi
      → Chain (b.addr + b.mlength) hi next
      → Gives lo hi b.mlength b.addr next (join_next b next)
  unfolding join_next
  join_next-Gives lo b [] pos low len end c =
      let z : (add32 b.addr b.mlength == 0) ≡ false = ground arith in
      (b ∷ [], rw z, record { chain = (low, len, end, tt); same = λ x. refl; sum = refl })
  join_next-Gives lo b (nx ∷ rest) pos low len end c =
      elim (Bool-cases (add32 b.addr b.mlength == nx.addr)) [
        | inl touch ↦ (
          block b.addr (b.mlength + nx.mlength) ∷ rest,
          rw (touch, add32_fit b.mlength nx.mlength (ground arith)),
          record {
            chain = (
              low,
              ground arith,
              ground arith,
              Chain-lower (nx.addr + nx.mlength + 1) (b.addr + (b.mlength + nx.mlength) + 1) hi rest
                  (ground arith) c.3,
            );
            same = λ x. ground arith;
            sum = omega arith;
          },
        )
        | inr gap ↦ (
          b ∷ nx ∷ rest,
          rw gap,
          record {
            chain = (low, len, end, (ground arith, c.1, c.2, c.3));
            same = λ x. refl;
            sum = refl;
          },
        )
      ]

  module _ (a n : ℕ) (pos : 0 < n) (end : a + n ≤ hi) where
    hits_next-false :
        (lo : ℕ) (next : List Block)
        → Chain lo hi next
        → StopsAt a next
        → overlaps a n next ≡ false
        → hits_next a n next ≡ false
    hits_next-false lo [] c st o = refl
    hits_next-false lo (nx ∷ rest) c st o = ground (arith, add32_fit a n)

    Chain-after :
        (lo : ℕ) (next : List Block)
        → Chain lo hi next
        → StopsAt a next
        → overlaps a n next ≡ false
        → Chain (a + n) hi next
    Chain-after lo [] c st o = tt
    Chain-after lo (nx ∷ rest) c st o = (ground arith, c.1, c.2, c.3)

    link-none :
        (lo : ℕ) (next : List Block)
        → 0 < lo
        → lo ≤ a
        → Chain lo hi next
        → StopsAt a next
        → overlaps a n next ≡ false
        → Gives lo hi n a next (link_block none a n next)
    unfolding link_block
    link-none lo next low at c st o =
        let z : (0 == a) ≡ false = ground arith in
        rw (hits_next-false lo next c st o, z)
          (join_next-Gives lo (block a n) next low at pos end (Chain-after lo next c st o))

    link-some :
        (lo : ℕ) (p : Block) (next : List Block)
        → 0 < lo
        → p.addr < a
        → Chain lo hi (p ∷ next)
        → StopsAt a next
        → overlaps a n (p ∷ next) ≡ false
        → Gives lo hi n a (p ∷ next) (link_block (some p) a n next)
    unfolding link_block
    link-some lo p next low at c st o =
        let top = add32_fit p.addr p.mlength (ground arith) in
        let free : ltb a (p.addr + p.mlength) ≡ false = ground arith in
        let hit = hits_next-false (p.addr + p.mlength + 1) next c.3 st (ground arith) in
        let after = Chain-after (p.addr + p.mlength + 1) next c.3 st (ground arith) in
        rw (top, free, hit)
          (elim (Bool-cases (p.addr + p.mlength == a)) [
            | inl touch ↦
                let (bs', e, g) =
                  join_next-Gives lo (block p.addr (p.mlength + n)) next low c.0 (omega arith)
                    (ground arith)
                    (Chain-lower (a + n) (p.addr + (p.mlength + n)) hi next (ground arith) after) in
                (
                  bs',
                  rw (touch, add32_fit p.mlength n (ground arith)) e,
                  record {
                    chain = g.chain;
                    same = λ x. ground (arith, g.same x);
                    sum = omega (arith, g.sum);
                  },
                )
            | inr gap ↦
                let (bs', e, g) =
                  join_next-Gives (p.addr + p.mlength + 1) (block a n) next (omega arith)
                    (ground arith) pos end after in
                (
                  p ∷ bs',
                  rw (gap, e),
                  record {
                    chain = (c.0, c.1, c.2, g.chain);
                    same = λ x. ground (arith, g.same x);
                    sum = omega (arith, g.sum);
                  },
                )
          ])

    -- One step of the walk past `p`, in front of what the rest of the walk gives.
    Gives-push :
        (lo : ℕ) (p : Block) (bs : List Block) (r : Freed (List Block))
        → Chain lo hi (p ∷ bs)
        → Gives (p.addr + p.mlength + 1) hi n a bs r
        → Gives lo hi n a (p ∷ bs) (push_block p r)
    Gives-push lo p bs r c (bs', e, g) = (
      p ∷ bs',
      rw e,
      record {
        chain = (c.0, c.1, c.2, g.chain);
        same = λ x. ground (arith, g.same x);
        sum = omega (arith, g.sum);
      },
    )

    -- Where no free block meets the range, the walk links it in.
    pub walk-Gives :
        (lo : ℕ) (prev : Option Block) (bs : List Block)
        → 0 < lo
        → lo ≤ a
        → PrevBelow prev a
        → Chain lo hi (with_prev prev bs)
        → overlaps a n (with_prev prev bs) ≡ false
        → Gives lo hi n a (with_prev prev bs) (free_walk prev a n bs)
    unfolding free_walk
    walk-Gives lo none [] low at before c o = link-none lo [] low at c tt o
    walk-Gives lo (some p) [] low at before c o = link-some lo p [] low before c tt o
    walk-Gives lo none (nx ∷ rest) low at before c o = elim (Bool-cases (ltb nx.addr a)) [
      | inl go ↦ rw go (walk-Gives lo (some nx) rest low at (ground arith) c o)
      | inr stop ↦ rw stop (link-none lo (nx ∷ rest) low at c (ground arith) o)
    ]
    walk-Gives lo (some p) (nx ∷ rest) low at before c o = elim (Bool-cases (ltb nx.addr a)) [
      | inl go ↦ rw go (
          Gives-push lo p (nx ∷ rest) (free_walk (some nx) a n rest) c (
            walk-Gives (p.addr + p.mlength + 1) (some nx) rest (omega arith) (ground arith)
              (ground arith) c.3 (ground arith)))
      | inr stop ↦ rw stop (link-some lo p (nx ∷ rest) low before c (ground arith) o)
    ]

    pub hits_next-true :
        (lo : ℕ) (next : List Block)
        → Chain lo hi next
        → StopsAt a next
        → overlaps a n next ≡ true
        → hits_next a n next ≡ true
    hits_next-true lo [] c st o = o
    hits_next-true lo (nx ∷ rest) c st o = elim (Bool-cases (ltb nx.addr (a + n))) [
      | inl hit ↦ rw (add32_fit a n (omega arith)) hit
      | inr miss ↦
          let above = overlaps-above a n (nx.addr + nx.mlength + 1) hi rest c.3 (ground arith) in
          ground arith
    ]

    -- Where some free block meets the range, the walk refuses it.
    pub walk-sys_error :
        (lo : ℕ) (prev : Option Block) (bs : List Block)
        → PrevBelow prev a
        → Chain lo hi (with_prev prev bs)
        → overlaps a n (with_prev prev bs) ≡ true
        → free_walk prev a n bs ≡ sys_error
    unfolding free_walk link_block
    walk-sys_error lo none [] before c o = cc
    walk-sys_error lo (some p) [] before c o =
        let top = add32_fit p.addr p.mlength (ground arith) in ground arith
    walk-sys_error lo none (nx ∷ rest) before c o = elim (Bool-cases (ltb nx.addr a)) [
      | inl go ↦ rw go (walk-sys_error lo (some nx) rest (ground arith) c o)
      | inr stop ↦ rw (stop, hits_next-true lo (nx ∷ rest) c (ground arith) o)
    ]
    walk-sys_error lo (some p) (nx ∷ rest) before c o = elim (Bool-cases (ltb nx.addr a)) [
      | inl go ↦ rw (
        go,
        walk-sys_error (p.addr + p.mlength + 1) (some nx) rest (ground arith) c.3 (ground arith),
      )
      | inr stop ↦ rw stop (elim (Bool-cases (ltb a (p.addr + p.mlength))) [
        | inl inside ↦ rw (add32_fit p.addr p.mlength (ground arith), inside)
        | inr past ↦ rw (
          add32_fit p.addr p.mlength (ground arith),
          past,
          hits_next-true (p.addr + p.mlength + 1) (nx ∷ rest) c.3 (ground arith) (ground arith),
        )
      ])
    ]
