-- ===== src/FreeList.antt =====
-- `__init`, `_getfreemem` and `_freemem` of xinu/system/paging.c. A list of free blocks stands for
-- the chain of `struct memblk` headers from `list->mnext` on: address and length of each block.
pub mod Chain
pub mod Get
pub mod Free
pub mod Canonical
pub mod Laws
pub mod Order
use os_virtual_mem.Prelude.{
  ℕ, Bool, false, ◌&&◌, ◌||◌, Option, none, some, List, [], ◌∷◌, ltb, leb, ◌==◌, if◌then◌else◌,
  is_some,
}
use os_virtual_mem.Memory.{sys_err, add32, sub32, roundmb, truncmb, hole_start}

-- A free block: the address of its header, and the `mlength` that the header holds.
pub record Block : Type 0 where
  pub addr : ℕ
  pub mlength : ℕ

abbrev pub block : ℕ → ℕ → Block
block a n = record { addr = a; mlength = n }

-- The list head, `struct memblk list`: its own `mlength`, and the chain behind its `mnext`.
pub record FreeList : Type 0 where
  pub mlength : ℕ
  pub blocks : List Block

-- What `__init` leaves: the list, `*minstructP` and `*maxstructP`; `none` where it halts because the
-- region begins in low memory. It does not assign the head's own `mlength`.
unfoldable pub init_list : FreeList → ℕ → ℕ → Option (FreeList × ℕ × ℕ)
unfolding roundmb truncmb
init_list l start listlength =
    let minstruct = roundmb start in
    let len = truncmb listlength in
    if leb minstruct hole_start
    then none
    else some
        (record l { blocks = block minstruct len ∷ [] }, minstruct, sub32 (add32 minstruct len) 1)

-- The search of `_getfreemem`: first fit. The address found, and the chain that is left.
unfoldable pub take_first : ℕ → List Block → Option (ℕ × List Block)
take_first n [] = none
take_first n (b ∷ bs) =
    let rest : Option (ℕ × List Block) = elim (take_first n bs) [
      | none ↦ none
      | some (a, bs') ↦ some (a, b ∷ bs')
    ] in
    if b.mlength == n
    then some (b.addr, bs)
    else if ltb n b.mlength
    then some (b.addr, block (add32 b.addr n) (sub32 b.mlength n) ∷ bs)
    else rest

-- `_getfreemem`: the address or `SYSERR`, and the list.
unfoldable pub getfreemem : FreeList → ℕ → ℕ × FreeList
unfolding roundmb
getfreemem l nbytes =
    if nbytes == 0 then (sys_err, l) else elim (take_first (roundmb nbytes) l.blocks) [
      | none ↦ (sys_err, l)
      | some (a, bs) ↦ (a, record { mlength = sub32 l.mlength (roundmb nbytes); blocks = bs })
    ]

-- What `_freemem` does: `OK` with the new list, `SYSERR`, or (`wild`) an access through `NULL` or a
-- merge into the list head, which the code does not guard against.
pub data Freed (A : Type 0) : Type 0 where
  freed : A → Freed A
  sys_error : Freed A
  wild : Freed A

-- The end of the previous block, `NULL` where that is the list head.
abbrev pub top_of : Option Block → ℕ
top_of none = 0
top_of (some p) = add32 p.addr p.mlength

-- "Coalesce with next block if adjacent": `next` is `NULL`, 0, at the end of the chain.
unfoldable pub join_next : Block → List Block → Freed (List Block)
join_next b [] = if add32 b.addr b.mlength == 0 then wild else freed (b ∷ [])
join_next b (nx ∷ rest) =
    if add32 b.addr b.mlength == nx.addr
    then freed (block b.addr (add32 b.mlength nx.mlength) ∷ rest)
    else freed (b ∷ nx ∷ rest)

abbrev pub push_block : Block → Freed (List Block) → Freed (List Block)
push_block b (freed bs) = freed (b ∷ bs)
push_block b sys_error = sys_error
push_block b wild = wild

-- "Either coalesce with previous block or add to free list", then the next block. The result is
-- the chain from `prev` on.
unfoldable pub join_prev : Option Block → ℕ → ℕ → List Block → Freed (List Block)
unfolding join_next
join_prev none a n next = if 0 == a then wild else join_next (block a n) next
join_prev (some p) a n next =
    if top_of (some p) == a
    then join_next (block p.addr (add32 p.mlength n)) next
    else push_block p (join_next (block a n) next)

-- `(next != NULL) && (uint32) block+nbytes > (uint32) next`
abbrev pub hits_next : ℕ → ℕ → List Block → Bool
hits_next a n [] = false
hits_next a n (nx ∷ _) = ltb nx.addr (add32 a n)

-- "Ensure new block does not overlap previous or next blocks", then link.
unfoldable pub link_block : Option Block → ℕ → ℕ → List Block → Freed (List Block)
unfolding join_prev
link_block prev a n next =
    if (is_some prev && ltb a (top_of prev)) || hits_next a n next
    then sys_error
    else join_prev prev a n next

abbrev pub push_prev : Option Block → Freed (List Block) → Freed (List Block)
push_prev none r = r
push_prev (some p) r = push_block p r

-- The walk of `_freemem`, from `prev` and the chain behind it: the chain from `prev` on.
unfoldable pub free_walk : Option Block → ℕ → ℕ → List Block → Freed (List Block)
unfolding link_block
free_walk prev a n [] = link_block prev a n []
free_walk prev a n (nx ∷ rest) =
    let further = push_prev prev (free_walk (some nx) a n rest) in
    if ltb nx.addr a then further else link_block prev a n (nx ∷ rest)

-- `_freemem`
unfoldable pub free_mem : FreeList → ℕ → ℕ → ℕ → ℕ → Freed FreeList
unfolding free_walk roundmb
free_mem l blkaddr nbytes minstruct maxstruct =
    if nbytes == 0 || ltb blkaddr minstruct || ltb maxstruct blkaddr
    then sys_error
    else elim (free_walk none blkaddr (roundmb nbytes) l.blocks) [
      | freed bs ↦ freed (record { mlength = add32 l.mlength (roundmb nbytes); blocks = bs })
      | sys_error ↦ sys_error
      | wild ↦ wild
    ]
