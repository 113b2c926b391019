-- ===== src/Heap/Laws.antt =====
-- The kernel heap: how it starts, and that heap and stack blocks given back restore it.
use os_virtual_mem.Prelude.{
  ℕ, ◌+◌, ◌-◌, ◌≤◌, ◌<◌, ◌≡◌, true, false, List, ◌∷◌, arith, ltb, ◌==◌, inl, inr, ◌≢◌,
}
use os_virtual_mem.Memory.{
  u32_mod, sys_err, add32, sub32, roundmb, truncmb, roundmb_bounds, roundmb_of_aligned, hole_start,
  hole_end,
}
use os_virtual_mem.FreeList.{Block, FreeList, freed, getfreemem, take_first}
use native.Mathlib.Nat.{le_refl}
use os_virtual_mem.FreeList.Chain.{Chain, has}
use os_virtual_mem.FreeList.Laws.{IsValid, free_mem-Taken, free_mem-getfreemem}
use os_virtual_mem.Heap.{getmem, freemem, freestk, getstk, meminit, null_stk}
use os_virtual_mem.Heap.Stack.{StackResult, getstk_lem}

-- `freemem` of what `getmem` returned from a valid heap restores the kernel heap, block for block.
pub freemem-getmem :
    (lo hi k nbytes : ℕ) (l : FreeList)
    → IsValid lo hi k l
    → 0 < nbytes
    → nbytes + 7 < u32_mod
    → (getmem l nbytes).0 ≢ sys_err
    → freemem (getmem l nbytes).1 (getmem l nbytes).0 nbytes lo (hi - 1) ≡ freed l
unfolding getmem freemem
freemem-getmem lo hi k nbytes l v pos fits got = free_mem-getfreemem lo hi k nbytes l v pos fits got

-- `freestk` of what `getstk` returned from a valid heap restores the kernel heap, block for block.
freestk-getstk :
    (lo hi k nbytes : ℕ) (l : FreeList)
    → IsValid lo hi k l
    → 0 < nbytes
    → nbytes + 14 < u32_mod
    → (getstk l nbytes).0 ≢ sys_err
    → freestk (getstk l nbytes).1 (getstk l nbytes).0 nbytes lo (hi - 1) ≡ freed l
unfolding freestk freemem
freestk-getstk lo hi k nbytes l v pos fits got =
    go (getstk_lem lo hi k nbytes l v pos (omega arith))
  where
    r : ℕ × FreeList
    r = getstk l nbytes

    n : ℕ
    n = roundmb nbytes

    go : StackResult lo hi k n l r → freestk r.1 r.0 nbytes lo (hi - 1) ≡ freed l
    go (inl (refused, _, _)) = absurd (got refused)
    go (inr (b, last, top, t, w)) =
        let m = roundmb_bounds nbytes (omega arith) in
        let nn : roundmb n ≡ n = roundmb_of_aligned n (omega arith) m.2 in
        let at : add32 (sub32 r.0 n) 4 ≡ r.0 + 4 - n =
          omega (arith, t.above, t.below, v.low, v.high) in
        rw at
          (free_mem-Taken lo hi k (r.0 + 4 - n) n l r.1 v w (omega arith) (omega arith) (rw nn t))

-- A request within 7 bytes of `2 ^ 32` rounds up to 0: `getmem` then returns the first block and
-- leaves it free.
pub getmem_wraps :
    (lo hi nbytes m : ℕ) (b : Block) (bs : List Block)
    → Chain lo hi (b ∷ bs)
    → hi < u32_mod
    → m < u32_mod
    → u32_mod ≤ nbytes + 7
    → nbytes < u32_mod
    → getmem (record { mlength = m; blocks = b ∷ bs }) nbytes
      ≡ (b.addr, record { mlength = m; blocks = b ∷ bs })
unfolding getmem getfreemem take_first
getmem_wraps lo hi nbytes m b bs c high word big small =
    let z : roundmb nbytes ≡ 0 = unfold roundmb in omega arith in
    let nz : (nbytes == 0) ≡ false = ground arith in
    let n0 : (b.mlength == 0) ≡ false = ground arith in
    let n1 : ltb 0 b.mlength ≡ true = ground arith in
    let a : add32 b.addr 0 ≡ b.addr = omega arith in
    let s : sub32 b.mlength 0 ≡ b.mlength = omega arith in
    let t : sub32 m 0 ≡ m = omega arith in rw (nz, z, n0, n1, a, s, z, t)

-- With the kernel image below the hole and the heap's end above it, `meminit` leaves two blocks that
-- keep clear of the hole, of the kernel image and of the null process's stack.
meminit_lem :
    (end maxheap : ℕ) (l : FreeList)
    → end + 12 ≤ hole_start
    → hole_end + null_stk + 8 ≤ maxheap
    → maxheap + 1 < u32_mod
    → Chain (roundmb end) (maxheap - null_stk) (meminit l end maxheap).blocks
      × ((x : ℕ) → hole_start ≤ x → x < hole_end → has x (meminit l end maxheap).blocks ≡ false)
unfolding meminit
meminit_lem end maxheap l low high word =
    let t : ltb hole_start (add32 maxheap 1) ≡ true = ground arith in
    rw t (
      (
        le_refl (roundmb end),
        unfold truncmb in omega arith,
        unfold truncmb roundmb in omega arith,
        (
          unfold truncmb roundmb in omega arith,
          unfold truncmb in omega arith,
          unfold truncmb in omega arith,
          tt,
        ),
      ),
      λ x h k. unfold truncmb roundmb in ground arith,
    )
