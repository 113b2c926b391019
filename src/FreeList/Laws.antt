-- ===== src/FreeList/Laws.antt =====
-- `__init`, `_getfreemem` and `_freemem` on a valid free list.
use os_virtual_mem.Prelude.{
  ℕ, ◌+◌, ◌-◌, ◌%◌, ◌≤◌, ◌<◌, ◌≡◌, refl, true, false, none, some, List, [], ◌∷◌, arith, ltb, leb,
  ◌==◌, ◌⊎◌, Bool-cases, inl, inr, sym, ap, ◌∙◌, ◌≢◌,
}
use native.Mathlib.Nat.{le_refl}
use os_virtual_mem.Memory.{u32_mod, add32, sys_err, hole_start, roundmb, truncmb, roundmb_bounds}
use os_virtual_mem.FreeList.{
  Block, block, FreeList, Freed, freed, sys_error, init_list, getfreemem, free_mem,
}
use os_virtual_mem.FreeList.Chain.{Chain, in_range, has, total}
use os_virtual_mem.FreeList.Get.{Taken, Counts, GetResult, getfreemem_lem}
use os_virtual_mem.FreeList.Free.{overlaps, Given, walk-Gives, walk-sys_error}
use os_virtual_mem.FreeList.Canonical.{Chain-unique}

-- A list over the bytes from `lo` up to `hi`, `k` bytes off its header's count.
pub record IsValid (lo hi k : ℕ) (l : FreeList) : Type 0 where
  pub chain : Chain lo hi l.blocks
  pub counts : Counts k l
  pub low : 0 < lo
  pub high : hi < u32_mod
  pub word : l.mlength < u32_mod

-- What `_freemem` does with `nbytes` at `a`.
abbrev pub FreeResult : (lo hi k a nbytes : ℕ) → FreeList → Freed FreeList → Type 0
FreeResult lo hi k a nbytes l r =
    ((overlaps a (roundmb nbytes) l.blocks ≡ true) × (r ≡ sys_error))
    ⊎ ((overlaps a (roundmb nbytes) l.blocks ≡ false)
        × ((l' : FreeList) × (r ≡ freed l')
            × IsValid lo hi k l'
            × Given lo hi (roundmb nbytes) a l.blocks l'.blocks))

-- On a valid list, `_freemem` of a range inside the region refuses it if some byte of it is free
-- already, and otherwise makes exactly its bytes free; it never takes an unguarded step.
pub free_mem_lem :
    (lo hi k a nbytes maxstruct : ℕ) (l : FreeList)
    → IsValid lo hi k l
    → 0 < nbytes
    → nbytes + 7 < u32_mod
    → lo ≤ a
    → a ≤ maxstruct
    → a + roundmb nbytes ≤ hi
    → FreeResult lo hi k a nbytes l (free_mem l a nbytes lo maxstruct)
unfolding free_mem
free_mem_lem lo hi k a nbytes maxstruct l v pos fits low up end =
    let b = roundmb_bounds nbytes fits in
    let nz : (nbytes == 0) ≡ false = ground arith in
    let nl : ltb a lo ≡ false = ground arith in
    let nu : ltb maxstruct a ≡ false = ground arith in
    elim (Bool-cases (overlaps a (roundmb nbytes) l.blocks)) [
      | inl hit ↦
          rw
            (
              nz,
              nl,
              nu,
              walk-sys_error hi v.high a (roundmb nbytes) (omega arith) end lo none l.blocks tt
                  v.chain hit,
            )
            (inl (hit, refl))
      | inr free ↦
          let (bs', e, g) =
            walk-Gives hi v.high a (roundmb nbytes) (omega arith) end lo none l.blocks v.low low tt
              v.chain free in
          rw (nz, nl, nu, e)
            (inr (
              free,
              (
                record { mlength = add32 l.mlength (roundmb nbytes); blocks = bs' },
                refl,
                record {
                  chain = g.chain;
                  counts = omega (arith, v.counts, g.sum);
                  low = v.low;
                  high = v.high;
                  word = omega arith;
                },
                g,
              ),
            ))
    ]

-- a byte of the range that is free makes the range overlap
pub overlaps_of_has :
    (a n x : ℕ) (bs : List Block) → in_range x a n ≡ true → has x bs ≡ true → overlaps a n bs ≡ true
overlaps_of_has a n x [] r h = h
overlaps_of_has a n x (b ∷ bs) r h = ground (arith, overlaps_of_has a n x bs r)

pub has_of_overlaps :
    (a n lo hi : ℕ) (bs : List Block)
    → Chain lo hi bs
    → 0 < n
    → ((x : ℕ) → in_range x a n ≡ true → has x bs ≡ false)
    → overlaps a n bs ≡ false
has_of_overlaps a n lo hi [] c pos h = refl
has_of_overlaps a n lo hi (b ∷ bs) c pos h =
    let ih =
      has_of_overlaps a n (b.addr + b.mlength + 1) hi bs c.3 pos (λ x m. ground (arith, h x)) in
    ground (arith, h a, h b.addr)

-- On a valid list, what `_freemem` has accepted inside the region it refuses a second time.
free_mem_twice :
    (lo hi k a nbytes maxstruct : ℕ) (l l' : FreeList)
    → IsValid lo hi k l
    → 0 < nbytes
    → nbytes + 7 < u32_mod
    → lo ≤ a
    → a ≤ maxstruct
    → a + roundmb nbytes ≤ hi
    → free_mem l a nbytes lo maxstruct ≡ freed l'
    → free_mem l' a nbytes lo maxstruct ≡ sys_error
free_mem_twice lo hi k a nbytes maxstruct l l' v pos fits low up end e =
    go (free_mem_lem lo hi k a nbytes maxstruct l v pos fits low up end)
  where
    again :
        (m : FreeList)
        → overlaps a (roundmb nbytes) m.blocks ≡ true
        → FreeResult lo hi k a nbytes m (free_mem m a nbytes lo maxstruct)
        → free_mem m a nbytes lo maxstruct ≡ sys_error
    again m hit (inl r) = r.1
    again m hit (inr r) = cc (r.0)

    go :
        FreeResult lo hi k a nbytes l (free_mem l a nbytes lo maxstruct)
        → free_mem l' a nbytes lo maxstruct ≡ sys_error
    go (inl r) = cc (r.1)
    go (inr (free, (m, r, v', g))) =
        let b = roundmb_bounds nbytes fits in
        let mine : in_range a a (roundmb nbytes) ≡ true = ground arith in
        let here : has a m.blocks ≡ true = ground (arith, g.same a) in
        let hit = overlaps_of_has a (roundmb nbytes) a m.blocks mine here in
        let same : m ≡ l' = cc in
        rw same at (again m hit (free_mem_lem lo hi k a nbytes maxstruct m v' pos fits low up end))

Σ_pair : {x y : ℕ} {u w : List Block} → x ≡ y → u ≡ w → ◌≡◌ {A = ℕ × List Block} (x, u) (y, w)
Σ_pair p q = λ i. (p i, q i)

-- Two valid lists of one region with the same free bytes and the same offset are the same list.
pub IsValid-unique :
    (lo hi k : ℕ) (l m : FreeList)
    → IsValid lo hi k l
    → IsValid lo hi k m
    → ((x : ℕ) → has x m.blocks ≡ has x l.blocks)
    → m ≡ l
IsValid-unique lo hi k l m v w same =
    let blocks = Chain-unique hi lo m.blocks l.blocks w.chain v.chain same in
    let sums : total m.blocks ≡ total l.blocks = ap total blocks in
    let head : m.mlength ≡ l.mlength = omega (arith, v.counts, w.counts, v.word, w.word) in
    ap (λ (q : ℕ × List Block). record { mlength = q.0; blocks = q.1 }) (Σ_pair head blocks)

-- Giving back a range that was taken out of a list restores the list, block for block.
pub free_mem-Taken :
    (lo hi k a nbytes : ℕ) (l l' : FreeList)
    → IsValid lo hi k l
    → IsValid lo hi k l'
    → 0 < nbytes
    → nbytes + 7 < u32_mod
    → Taken lo hi (roundmb nbytes) a l.blocks l'.blocks
    → free_mem l' a nbytes lo (hi - 1) ≡ freed l
free_mem-Taken lo hi k a nbytes l l' v w pos fits t = back (
    free_mem_lem lo hi k a nbytes (hi - 1) l' w pos fits t.above (omega (arith, t.below, b.0))
      t.below)
  where
    b : (nbytes ≤ roundmb nbytes) × (roundmb nbytes < nbytes + 8) × (roundmb nbytes % 8 ≡ 0)
    b = roundmb_bounds nbytes fits

    back :
        FreeResult lo hi k a nbytes l' (free_mem l' a nbytes lo (hi - 1))
        → free_mem l' a nbytes lo (hi - 1) ≡ freed l
    back (inl (hit, _)) =
        cc (has_of_overlaps a (roundmb nbytes) lo hi l'.blocks t.chain (omega (arith, b.0)) t.gone)
    back (inr (free, (m, e, v', g))) =
        e ∙ ap freed (IsValid-unique lo hi k l m v v' (λ x. g.same x ∙ sym (t.same x)))

-- Giving back what `_getfreemem` handed out of a valid list restores the list, block for block.
pub free_mem-getfreemem :
    (lo hi k nbytes : ℕ) (l : FreeList)
    → IsValid lo hi k l
    → 0 < nbytes
    → nbytes + 7 < u32_mod
    → (getfreemem l nbytes).0 ≢ sys_err
    → free_mem (getfreemem l nbytes).1 (getfreemem l nbytes).0 nbytes lo (hi - 1) ≡ freed l
free_mem-getfreemem lo hi k nbytes l v pos fits got =
    go (getfreemem_lem lo hi k nbytes l v.high pos fits v.chain v.counts)
  where
    r : ℕ × FreeList
    r = getfreemem l nbytes

    go : GetResult lo hi k nbytes l r → free_mem r.1 r.0 nbytes lo (hi - 1) ≡ freed l
    go (inl (no_block, _, _)) = absurd (got no_block)
    go (inr (t, _, cnt, word)) =
        free_mem-Taken lo hi k r.0 nbytes l r.1 v
          (record { chain = t.chain; counts = cnt; low = v.low; high = v.high; word = word }) pos
          fits t

-- `__init` of a region above the hole leaves a valid list with every byte of the region free, and
-- the bounds that it stores enclose exactly that region.
init_list_lem :
    (l : FreeList) (start len : ℕ)
    → l.mlength < u32_mod
    → hole_start < start
    → start + 7 < u32_mod
    → len % 8 ≡ 0
    → 0 < len
    → roundmb start + len < u32_mod
    → (r : FreeList × ℕ × ℕ) × (init_list l start len ≡ some r)
      × IsValid (roundmb start) (roundmb start + len) (u32_mod - l.mlength + len) r.0
      × (r.1 ≡ roundmb start)
      × (r.2 ≡ roundmb start + len - 1)
      × ((x : ℕ) → has x r.0.blocks ≡ in_range x (roundmb start) len)
unfolding init_list
init_list_lem l start len word high fits al pos end =
    let b = roundmb_bounds start fits in
    let no_hole : leb (roundmb start) hole_start ≡ false = ground arith in
    let t : truncmb len ≡ len = unfold truncmb in omega arith in
    (
      (
        record l { blocks = block (roundmb start) len ∷ [] },
        roundmb start,
        roundmb start + len - 1,
      ),
      rw (no_hole, t)
          (ap
            (λ (e : ℕ).
              some (record l { blocks = block (roundmb start) len ∷ [] }, roundmb start, e))
            (omega arith)),
      record {
        chain = (le_refl (roundmb start), pos, le_refl (roundmb start + len), tt);
        counts = omega arith;
        low = omega arith;
        high = end;
        word = word;
      },
      refl,
      refl,
      λ x. ground arith,
    )
