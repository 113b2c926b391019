-- ===== src/FreeList/Order.antt =====
-- `_freemem` of two ranges: their order does not matter.
use os_virtual_mem.Prelude.{
  ℕ, ◌+◌, ◌≤◌, ◌<◌, ◌≡◌, true, false, arith, inl, inr, ap, ◌∙◌, Bool-cases,
}
use os_virtual_mem.Memory.{u32_mod, roundmb, roundmb_bounds}
use os_virtual_mem.FreeList.{FreeList, freed, free_mem}
use os_virtual_mem.FreeList.Chain.{has, in_range}
use os_virtual_mem.FreeList.Free.{overlaps, Given}
use os_virtual_mem.FreeList.Laws.{
  IsValid, free_mem_lem, overlaps_of_has, has_of_overlaps, IsValid-unique,
}

-- A range that can be given back to the region.
pub record Returnable (lo hi a nbytes maxstruct : ℕ) : Type 0 where
  pub some_bytes : 0 < nbytes
  pub fits : nbytes + 7 < u32_mod
  pub above : lo ≤ a
  pub known : a ≤ maxstruct
  pub below : a + roundmb nbytes ≤ hi

module _ (lo hi k maxstruct : ℕ) where
  -- a range without a free byte is accepted
  accepted :
      (l : FreeList) (a nbytes : ℕ)
      → IsValid lo hi k l
      → Returnable lo hi a nbytes maxstruct
      → overlaps a (roundmb nbytes) l.blocks ≡ false
      → (l' : FreeList) × (free_mem l a nbytes lo maxstruct ≡ freed l')
        × IsValid lo hi k l'
        × Given lo hi (roundmb nbytes) a l.blocks l'.blocks
  accepted l a nbytes v r free =
      elim (free_mem_lem lo hi k a nbytes maxstruct l v r.some_bytes r.fits r.above r.known
        r.below) [ inl (hit, _) ↦ cc (hit, free) | inr (_, given) ↦ given ]

  -- and still is once a range apart from it has been given back
  still_free :
      (l l1 : FreeList) (a n b nbytes : ℕ)
      → IsValid lo hi k l1
      → Given lo hi n a l.blocks l1.blocks
      → Returnable lo hi b nbytes maxstruct
      → ((x : ℕ) → in_range x b (roundmb nbytes) ≡ true → in_range x a n ≡ false)
      → overlaps b (roundmb nbytes) l.blocks ≡ false
      → overlaps b (roundmb nbytes) l1.blocks ≡ false
  still_free l l1 a n b nbytes v g r apart free =
      let bounds = roundmb_bounds nbytes r.fits in
      let pos = r.some_bytes in
      has_of_overlaps b (roundmb nbytes) lo hi l1.blocks v.chain (omega (arith, bounds.0))
        (λ x inside. elim (Bool-cases (has x l.blocks)) [
          | inl h ↦ cc (overlaps_of_has b (roundmb nbytes) x l.blocks inside h, free)
          | inr h ↦ ground (arith, g.same x, apart x inside, h)
        ])

  -- On a valid list, `_freemem` of two ranges inside the region that do not meet, of which no byte is
  -- free, accepts both in either order, and the list is the same in the end, block for block.
  pub free_mem-free_mem :
      (l : FreeList) (a m b n : ℕ)
      → IsValid lo hi k l
      → Returnable lo hi a m maxstruct
      → Returnable lo hi b n maxstruct
      → a + roundmb m ≤ b
      → overlaps a (roundmb m) l.blocks ≡ false
      → overlaps b (roundmb n) l.blocks ≡ false
      → (l1 : FreeList) × (l2 : FreeList) × (l' : FreeList) × (free_mem l a m lo maxstruct
          ≡ freed l1)
        × (free_mem l1 b n lo maxstruct ≡ freed l')
        × (free_mem l b n lo maxstruct ≡ freed l2)
        × (free_mem l2 a m lo maxstruct ≡ freed l')
        × IsValid lo hi k l'
  free_mem-free_mem l a m b n v ra rb apart fa fb =
      let (l1, run1, v1, g1) = accepted l a m v ra fa in
      let (l2, run2, v2, g2) = accepted l b n v rb fb in
      let fb' = still_free l l1 a (roundmb m) b n v1 g1 rb (λ x inside. ground arith) fb in
      let fa' = still_free l l2 b (roundmb n) a m v2 g2 ra (λ x inside. ground arith) fa in
      let (l12, run12, v12, g12) = accepted l1 b n v1 rb fb' in
      let (l21, run21, v21, g21) = accepted l2 a m v2 ra fa' in
      let same : l21 ≡ l12 =
        IsValid-unique lo hi k l12 l21 v12 v21
          (λ x. ground (arith, g12.same x, g21.same x, g1.same x, g2.same x)) in
      (l1, l2, l12, run1, run12, run2, run21 ∙ ap freed same, v12)
