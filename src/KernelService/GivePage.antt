-- ===== src/KernelService/GivePage.antt =====
-- Giving one page back to a region of 2048 whole pages.
use os_virtual_mem.Prelude.{
  ℕ, ◌+◌, ◌-◌, ◌*◌, ◌%◌, ◌<◌, ◌≡◌, ◌≢◌, refl, true, false, none, some, Option, List, [], ◌∷◌, arith,
  ltb, ◌==◌, ◌||◌, ◌&&◌, is_some, inl, inr, Bool-cases, ◌∙◌, ◌≤◌,
}
use os_virtual_mem.Memory.{page_size, add32, roundmb}
use os_virtual_mem.FreeList.{
  FreeList, Block, block, Freed, freed, sys_error, wild, join_next, join_prev, link_block,
  free_walk, free_mem, top_of, hits_next, push_block, push_prev,
}
use os_virtual_mem.FreeList.Chain.{has, in_range}
use os_virtual_mem.FreeList.Free.{overlaps}
use os_virtual_mem.FreeList.Laws.{FreeResult, free_mem_lem}
use os_virtual_mem.PageFault.Coherent.{Paged}
use os_virtual_mem.PageFault.TakePage.{page_free, Region}

abbrev PagedFreed : Freed (List Block) → Type 0
PagedFreed (freed bs) = Paged bs
PagedFreed sys_error = Unit
PagedFreed wild = Unit

abbrev PagedPrev : Option Block → Type 0
PagedPrev none = Unit
PagedPrev (some b) = (b.addr % 4096 ≡ 0) × (b.mlength % 4096 ≡ 0)

push_block-Paged :
    (b : Block) (r : Freed (List Block))
    → PagedPrev (some b)
    → PagedFreed r
    → PagedFreed (push_block b r)
push_block-Paged b (freed bs) p q = (p.0, p.1, q)
push_block-Paged b sys_error p q = tt
push_block-Paged b wild p q = tt

join_next-Paged :
    (b : Block) (next : List Block)
    → PagedPrev (some b)
    → Paged next
    → PagedFreed (join_next b next)
unfolding join_next
join_next-Paged b [] p q = ground arith
join_next-Paged b (nx ∷ rest) p q = ground arith

module _ (a n : ℕ) (page : a % 4096 ≡ 0) (whole : n % 4096 ≡ 0) where
  join_prev-Paged :
      (prev : Option Block) (next : List Block)
      → PagedPrev prev
      → Paged next
      → PagedFreed (join_prev prev a n next)
  unfolding join_prev
  join_prev-Paged none next p q = ground (arith, join_next-Paged (block a n) next (page, whole) q)
  join_prev-Paged (some b) next p q =
      let apart =
        push_block-Paged b (join_next (block a n) next) p
          (join_next-Paged (block a n) next (page, whole) q) in
      ground (arith, join_next-Paged (block b.addr (add32 b.mlength n)) next)

  link_block-Paged :
      (prev : Option Block) (next : List Block)
      → PagedPrev prev
      → Paged next
      → PagedFreed (link_block prev a n next)
  unfolding link_block
  link_block-Paged prev next p q =
      let joined = join_prev-Paged prev next p q in
      elim (Bool-cases ((is_some prev && ltb a (top_of prev)) || hits_next a n next)) [
        | inl h ↦ rw h tt
        | inr h ↦ rw h joined
      ]

  free_walk-Paged :
      (prev : Option Block) (bs : List Block)
      → PagedPrev prev
      → Paged bs
      → PagedFreed (free_walk prev a n bs)
  unfolding free_walk
  free_walk-Paged prev [] p q = link_block-Paged prev [] p q
  free_walk-Paged prev (nx ∷ rest) p q =
      let ih = free_walk-Paged (some nx) rest (q.0, q.1) q.2 in
      elim (Bool-cases (ltb nx.addr a)) [
        | inl h ↦ rw h (keep prev p (free_walk (some nx) a n rest) ih)
        | inr h ↦ rw h (link_block-Paged prev (nx ∷ rest) p q)
      ]
    where
      keep :
          (prev : Option Block)
          → PagedPrev prev
          → (r : Freed (List Block)) → PagedFreed r
          → PagedFreed (push_prev prev r)
      keep none p r q = q
      keep (some b) p r q = push_block-Paged b r p q

-- a page whose first byte is not free has no free byte
overlaps-page :
    (a : ℕ) (bs : List Block)
    → a % 4096 ≡ 0
    → Paged bs
    → has a bs ≡ false
    → overlaps a 4096 bs ≡ false
overlaps-page a [] page p h = refl
overlaps-page a (b ∷ bs) page p h = let ih = overlaps-page a bs page p.2 in ground arith

-- A page that `_freemem` takes back into a region: number `k`, with `l'` left.
pub record PageGiven (base offset k : ℕ) (l l' : FreeList) : Type 0 where
  pub run :
      free_mem l ((base + k) * 4096) page_size (base * 4096) ((base + 2048) * 4096 - 1) ≡ freed l'
  pub region : Region base offset l'
  pub free : page_free base l' k ≡ true
  pub others : (j : ℕ) → j ≢ k → page_free base l' j ≡ page_free base l j

free_mem-Paged :
    (l l' : FreeList) (a lo hi : ℕ)
    → a % 4096 ≡ 0
    → Paged l.blocks
    → free_mem l a page_size lo hi ≡ freed l'
    → Paged l'.blocks
unfolding free_mem
free_mem-Paged l l' a lo hi page p e =
    let n : roundmb page_size ≡ 4096 = unfold roundmb in refl in
    let zero_size : (page_size == 0) ≡ false = refl in
    elim (Bool-cases (ltb a lo)) [
      | inl low ↦ cc (rw low at e)
      | inr above ↦ elim (Bool-cases (ltb hi a)) [
        | inl high ↦ cc (rw (above, high) at e)
        | inr below ↦
            go (free_walk none a 4096 l.blocks)
              (free_walk-Paged a 4096 page refl none l.blocks tt p) (rw (above, below, n) at e)
      ]
    ]
  where
    go :
        (r : Freed (List Block))
        → PagedFreed r
        → elim r [
          | freed bs ↦ freed (record { mlength = add32 l.mlength 4096; blocks = bs })
          | sys_error ↦ sys_error
          | wild ↦ wild
        ]
          ≡ freed l'
        → Paged l'.blocks
    go (freed bs) q e = let same : bs ≡ l'.blocks = cc in rw (← same) q
    go sys_error q e = cc
    go wild q e = cc

pub give_page_lem :
    (base offset : ℕ) (l : FreeList) (k : ℕ)
    → Region base offset l
    → k < 2048
    → page_free base l k ≡ false
    → (l' : FreeList) × PageGiven base offset k l l'
give_page_lem base offset l k (v, p) small used = go (
    free_mem_lem (base * 4096) ((base + 2048) * 4096) offset ((base + k) * 4096) page_size
      ((base + 2048) * 4096 - 1) l v (omega arith) (omega arith) (omega arith) (omega arith) end)
  where
    n : roundmb page_size ≡ 4096
    n = unfold roundmb in refl

    end : (base + k) * 4096 + roundmb page_size ≤ (base + 2048) * 4096
    end = rw n (omega arith)

    none_free : overlaps ((base + k) * 4096) 4096 l.blocks ≡ false
    none_free = overlaps-page ((base + k) * 4096) l.blocks (omega arith) p used

    go :
        FreeResult
          (base * 4096)
          ((base + 2048) * 4096)
          offset
          ((base + k) * 4096)
          page_size
          l
          (free_mem l ((base + k) * 4096) page_size (base * 4096) ((base + 2048) * 4096 - 1))
        → (l' : FreeList) × PageGiven base offset k l l'
    go (inl (hit, _)) = cc (rw n at hit, none_free)
    go (inr (apart, (l', run, v', g))) =
        let m : roundmb page_size ≡ 4096 = n in
        (
          l',
          record {
            run = run;
            region = (
              v',
              free_mem-Paged l l' ((base + k) * 4096) (base * 4096) ((base + 2048) * 4096 - 1)
                  (omega arith) p run,
            );
            free = ground (arith, g.same ((base + k) * 4096));
            others = λ j ne.
                let out : in_range ((base + j) * 4096) ((base + k) * 4096) 4096 ≡ false =
                  ground arith in
                g.same ((base + j) * 4096) ∙ rw (n, out) refl;
          },
        )
