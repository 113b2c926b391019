-- ===== src/Heap.antt =====
-- xinu/system/getmem.c, freemem.c, getstk.c and meminit.c: the kernel heap, `memlist` between
-- `minheap` and `maxheap`. Heap requests come from the low end of the first block that fits, stacks
-- from the high end of the last.
pub mod Stack
pub mod Laws
use os_virtual_mem.Prelude.{
  ℕ, ◌+◌, Option, none, some, List, [], ◌∷◌, ltb, leb, ◌==◌, if◌then◌else◌,
}
use os_virtual_mem.Memory.{sys_err, add32, sub32, roundmb, truncmb, hole_start, hole_end}
use os_virtual_mem.FreeList.{Block, block, FreeList, Freed, getfreemem, free_mem}

-- `NULLSTK`, the stack size of the null process
abbrev pub null_stk : ℕ
null_stk = 8192

-- The body of `getmem` is that of `_getfreemem`, on `memlist`.
unfoldable pub getmem : FreeList → ℕ → ℕ × FreeList
getmem memlist nbytes = getfreemem memlist nbytes

-- The body of `freemem` is that of `_freemem`, on `memlist` and its bounds.
unfoldable pub freemem : FreeList → (blkaddr nbytes minheap maxheap : ℕ) → Freed FreeList
freemem memlist blkaddr nbytes minheap maxheap = free_mem memlist blkaddr nbytes minheap maxheap

-- `freestk(p, len)`
unfoldable pub freestk : FreeList → (p len minheap maxheap : ℕ) → Freed FreeList
freestk memlist p len minheap maxheap =
    freemem memlist (add32 (sub32 p (roundmb len)) 4) (roundmb len) minheap maxheap

-- The scan of `getstk`: the last block of at least `n` bytes, `fits` being the last one so far.
unfoldable pub scan_fits : ℕ → Option Block → List Block → Option Block
scan_fits n fits [] = fits
scan_fits n fits (b ∷ bs) = scan_fits n (if leb n b.mlength then some b else fits) bs

-- Unlinking the block at `a`, or cutting the top `n` bytes off it.
unfoldable pub cut_top : ℕ → ℕ → List Block → List Block
cut_top a n [] = []
cut_top a n (b ∷ bs) =
    if b.addr == a
    then (if n == b.mlength then bs else block b.addr (sub32 b.mlength n) ∷ bs)
    else b ∷ cut_top a n bs

-- `getstk`: the address of the highest word, or `SYSERR`.
unfoldable pub getstk : FreeList → ℕ → ℕ × FreeList
unfolding scan_fits cut_top
getstk memlist nbytes =
    if nbytes == 0
    then (sys_err, memlist)
    else elim (scan_fits (roundmb nbytes) none memlist.blocks) [
      | none ↦ (sys_err, memlist)
      | some b ↦
          let n = roundmb nbytes in
          let fits = if n == b.mlength then b.addr else add32 b.addr (sub32 b.mlength n) in
          (
            sub32 (add32 fits n) 4,
            record { mlength = sub32 memlist.mlength n; blocks = cut_top b.addr n memlist.blocks },
          )
    ]

-- `meminit`: `end` is where the kernel image ends. The blocks on both sides of the hole, or one.
unfoldable pub meminit : FreeList → (end maxheap : ℕ) → FreeList
unfolding roundmb truncmb
meminit memlist end maxheap =
    if ltb hole_start (add32 maxheap 1)
    then record memlist {
      blocks =
          block (roundmb end) (truncmb (sub32 (sub32 hole_start end) 4))
          ∷ block hole_end (truncmb (sub32 (sub32 maxheap hole_end) null_stk))
          ∷ [];
    }
    else record memlist {
      blocks = block (roundmb end) (truncmb (sub32 (sub32 maxheap end) null_stk)) ∷ [];
    }
