-- ===== src/Tests/Memory.antt =====
-- The free lists of xinu/system/paging.c, getmem.c and getstk.c at concrete inputs.
use os_virtual_mem.Prelude.{ℕ, ◌-◌, ◌≡◌, ◌≢◌, refl, List, [], ◌∷◌, arith}
use os_virtual_mem.Memory.{sys_err, roundmb}
use os_virtual_mem.FreeList.{Block, block, FreeList, freed, getfreemem, take_first, free_mem}
use os_virtual_mem.FreeList.Get.{GetResult, getfreemem_lem}
use os_virtual_mem.FreeList.Order.{Returnable, free_mem-free_mem}
use os_virtual_mem.FreeList.Laws.{IsValid, FreeResult, free_mem_lem, free_mem-getfreemem}
use os_virtual_mem.Heap.{getmem, getstk}
use os_virtual_mem.Heap.Stack.{StackResult, getstk_lem}
use os_virtual_mem.Heap.Laws.{getmem_wraps}

-- two free pieces of the region from 1 MiB on, 64 KiB long
abbrev region_lo : ℕ
region_lo = 1048576

abbrev region_hi : ℕ
region_hi = 1114112

abbrev two_blocks : List Block
two_blocks = block 1048576 4096 ∷ block 1060864 8192 ∷ []

abbrev two_pieces : FreeList
two_pieces = record { mlength = 12288; blocks = two_blocks }

two_pieces-IsValid : IsValid region_lo region_hi 0 two_pieces
two_pieces-IsValid = record {
  chain = omega arith;
  counts = refl;
  low = omega arith;
  high = omega arith;
  word = omega arith;
}

free_mem_lem_example :
    FreeResult region_lo region_hi 0 1052672 8192 two_pieces
      (free_mem two_pieces 1052672 8192 region_lo 1114111)
free_mem_lem_example =
    free_mem_lem region_lo region_hi 0 1052672 8192 1114111 two_pieces two_pieces-IsValid
      (omega arith) (omega arith) (omega arith) (omega arith) (unfold roundmb in omega arith)

getfreemem_lem_example :
    GetResult region_lo region_hi 0 8192 two_pieces (getfreemem two_pieces 8192)
getfreemem_lem_example =
    getfreemem_lem region_lo region_hi 0 8192 two_pieces (omega arith) (omega arith) (omega arith)
      two_pieces-IsValid.chain refl

abbrev grown : FreeList
grown = record { mlength = 20480; blocks = block 1048576 20480 ∷ [] }

joined : free_mem two_pieces 1052672 8192 region_lo 1114111 ≡ freed grown
unfolding free_mem
joined = refl

second_block : (getfreemem two_pieces 8192).0 ≢ sys_err
unfolding getfreemem take_first roundmb
second_block = omega arith

free_mem-getfreemem_example :
    free_mem
      (getfreemem two_pieces 8192).1
      (getfreemem two_pieces 8192).0
      8192
      region_lo
      (region_hi - 1)
    ≡ freed two_pieces
free_mem-getfreemem_example =
    free_mem-getfreemem region_lo region_hi 0 8192 two_pieces two_pieces-IsValid (omega arith)
      (omega arith) second_block

getstk_lem_example :
    StackResult region_lo region_hi 0 (roundmb 1000) two_pieces (getstk two_pieces 1000)
getstk_lem_example =
    getstk_lem region_lo region_hi 0 1000 two_pieces two_pieces-IsValid (omega arith) (omega arith)

-- 4096 bytes and 100 bytes that are not free
first_gap : Returnable region_lo region_hi 1052672 4096 1114111
first_gap = record {
  some_bytes = omega arith;
  fits = omega arith;
  above = omega arith;
  known = omega arith;
  below = unfold roundmb in omega arith;
}

second_gap : Returnable region_lo region_hi 1069056 100 1114111
second_gap = record {
  some_bytes = omega arith;
  fits = omega arith;
  above = omega arith;
  known = omega arith;
  below = unfold roundmb in omega arith;
}

free_mem-free_mem_example :
    (l1 : FreeList) × (l2 : FreeList) × (l' : FreeList) × (free_mem two_pieces 1052672 4096
        region_lo 1114111
      ≡ freed l1)
    × (free_mem l1 1069056 100 region_lo 1114111 ≡ freed l')
    × (free_mem two_pieces 1069056 100 region_lo 1114111 ≡ freed l2)
    × (free_mem l2 1052672 4096 region_lo 1114111 ≡ freed l')
    × IsValid region_lo region_hi 0 l'
unfolding roundmb
free_mem-free_mem_example =
    free_mem-free_mem region_lo region_hi 0 1114111 two_pieces 1052672 4096 1069056 100
      two_pieces-IsValid first_gap second_gap (omega arith) refl refl

getmem_wraps_example : getmem two_pieces 4294967290 ≡ (1048576, two_pieces)
getmem_wraps_example =
    getmem_wraps region_lo region_hi 4294967290 12288 (block 1048576 4096) (block 1060864 8192 ∷ [])
      two_pieces-IsValid.chain (omega arith) (omega arith) (omega arith) (omega arith)
