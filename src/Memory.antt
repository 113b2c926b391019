-- ===== src/Memory.antt =====
-- xinu/include/memory.h and xinu/include/paging.h: constants, the rounding macros, and the
-- wrap-around of `uint32`.
use os_virtual_mem.Prelude.{
  ℕ, ◌+◌, ◌-◌, ◌*◌, ◌/◌, ◌%◌, ◌^◌, ◌≤◌, ◌<◌, ◌≡◌, arith, ◌==◌, if◌then◌else◌,
}

-- the number of values of a `uint32`
abbrev pub u32_mod : ℕ
u32_mod = 2 ^ 32

-- `SYSERR`, -1, read as a `uint32`
abbrev pub sys_err : ℕ
sys_err = u32_mod - 1

abbrev pub page_size : ℕ
page_size = 4096

abbrev pub n_page_entries : ℕ
n_page_entries = 1024

abbrev pub max_heap_size : ℕ
max_heap_size = 4096

abbrev pub max_swap_size : ℕ
max_swap_size = 2048

abbrev pub max_fss_size : ℕ
max_fss_size = 2048

abbrev pub max_stack_size : ℕ
max_stack_size = 2048

abbrev pub max_pt_size : ℕ
max_pt_size = 256

abbrev pub hole_start : ℕ
hole_start = 640 * 1024

abbrev pub hole_end : ℕ
hole_end = 1024 * 1024

-- `a + b` and `a - b` of two `uint32`
abbrev pub add32 : ℕ → ℕ → ℕ
add32 a b = (a + b) % u32_mod

abbrev pub sub32 : ℕ → ℕ → ℕ
sub32 a b = (a + u32_mod - b) % u32_mod

-- `(7 + x) & ~7` and `x & ~7`
unfoldable pub roundmb : ℕ → ℕ
roundmb x = add32 7 x / 8 * 8

unfoldable pub truncmb : ℕ → ℕ
truncmb x = x / 8 * 8

-- `(a % b == 0) ? a / b : (a + b) / b`
unfoldable pub ceil_div : ℕ → ℕ → ℕ
ceil_div a b = if a % b == 0 then a / b else add32 a b / b

-- Below the wrap, `roundmb` gives the next multiple of 8.
pub roundmb_bounds :
    (x : ℕ) → x + 7 < u32_mod → (x ≤ roundmb x) × (roundmb x < x + 8) × (roundmb x % 8 ≡ 0)
unfolding roundmb
roundmb_bounds x h = omega arith

pub roundmb_of_aligned : (x : ℕ) → x + 7 < u32_mod → x % 8 ≡ 0 → roundmb x ≡ x
unfolding roundmb
roundmb_of_aligned x h e = omega arith

-- Below the wrap, `ceil_div` by the page size counts the pages that hold `a` bytes.
pub ceil_div_bounds :
    (a : ℕ)
    → a + page_size < u32_mod
    → (a ≤ ceil_div a page_size * page_size) × (ceil_div a page_size * page_size < a + page_size)
unfolding ceil_div
ceil_div_bounds a h = ground arith

-- Sums and differences that stay inside a `uint32`.
pub add32_fit : (a b : ℕ) → a + b < u32_mod → add32 a b ≡ a + b
add32_fit a b h = omega arith

pub sub32_fit : (a b : ℕ) → b ≤ a → a < u32_mod → sub32 a b ≡ a - b
sub32_fit a b h k = omega arith
