-- ===== src/Vm/Copy.antt =====
-- `copy_page` of xinu/system/pagefault_handler.c: its loops, and what they leave in memory.
use os_virtual_mem.Prelude.{
  ℕ, zero, suc, ◌+◌, ◌<◌, ◌≡◌, ◌≢◌, Bool, true, false, ◌&&◌, arith, ltb, leb, ◌==◌, if◌then◌else◌,
}
use os_virtual_mem.Memory.{n_page_entries}

abbrev pub Words : Type 0
Words = ℕ → ℕ → ℕ

abbrev pub set_word : Words → ℕ → ℕ → ℕ → Words
set_word w f i v g j = if g == f && j == i then v else w g j

-- `touint32[i] = fromuint32[i]`, `rounds` times from `i` on
unfoldable pub copy_loop : (rounds i src dst : ℕ) → Words → Words
copy_loop zero i src dst w = w
copy_loop (suc k) i src dst w = copy_loop k (i + 1) src dst (set_word w dst i (w src i))

-- the exchange of two words, `rounds` times from `i` on
unfoldable pub swap_loop : (rounds i src dst : ℕ) → Words → Words
swap_loop zero i src dst w = w
swap_loop (suc k) i src dst w =
    swap_loop k (i + 1) src dst (set_word (set_word w src i (w dst i)) dst i (w src i))

unfoldable pub copy_page : (src dst : ℕ) → Bool → Words → Words
copy_page src dst bothways w =
    if bothways then swap_loop n_page_entries 0 src dst w else copy_loop n_page_entries 0 src dst w

copy_loop_lem :
    (k i src dst : ℕ) (w : Words) (g j : ℕ)
    → src ≢ dst
    → copy_loop k i src dst w g j
      ≡ (if g == dst && leb i j && ltb j (i + k) then w src j else w g j)
unfolding copy_loop
copy_loop_lem zero i src dst w g j ne = ground arith
copy_loop_lem (suc k) i src dst w g j ne =
    ground (arith, copy_loop_lem k (i + 1) src dst (set_word w dst i (w src i)) g j ne)

swap_loop_lem :
    (k i src dst : ℕ) (w : Words) (g j : ℕ)
    → src ≢ dst
    → swap_loop k i src dst w g j ≡ (
        if leb i j && ltb j (i + k)
        then (if g == dst then w src j else if g == src then w dst j else w g j)
        else w g j)
unfolding swap_loop
swap_loop_lem zero i src dst w g j ne = ground arith
swap_loop_lem (suc k) i src dst w g j ne = ground (
  arith,
  swap_loop_lem k (i + 1) src dst (set_word (set_word w src i (w dst i)) dst i (w src i)) g j ne,
)

-- Copying one way between different frames makes the target frame equal to the source frame, and
-- changes no other frame.
pub copy_page_one_way :
    (src dst : ℕ) (w : Words) (g j : ℕ)
    → src ≢ dst
    → j < n_page_entries
    → copy_page src dst false w g j ≡ (if g == dst then w src j else w g j)
unfolding copy_page
copy_page_one_way src dst w g j ne h =
    ground (arith, copy_loop_lem n_page_entries 0 src dst w g j ne)

-- Copying both ways between different frames exchanges them, and changes no other frame.
pub copy_page_both_ways :
    (src dst : ℕ) (w : Words) (g j : ℕ)
    → src ≢ dst
    → j < n_page_entries
    → copy_page src dst true w g j
      ≡ (if g == dst then w src j else if g == src then w dst j else w g j)
unfolding copy_page
copy_page_both_ways src dst w g j ne h =
    ground (arith, swap_loop_lem n_page_entries 0 src dst w g j ne)
