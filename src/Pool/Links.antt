-- ===== src/Pool/Links.antt =====
-- The buffers of a new pool, and the loop that links them.
use os_virtual_mem.Prelude.{
  ℕ, zero, suc, ◌+◌, ◌*◌, ◌^◌, ◌<◌, ◌≡◌, refl, sym, ap, ◌∙◌, List, [], ◌∷◌, arith, ◌==◌, true,
  false, length,
}
use mathlib.Core.Path.{subst}
use os_virtual_mem.Memory.{add32}
use os_virtual_mem.Queue.{update}
use os_virtual_mem.Pool.{link_buffers}
use os_virtual_mem.Pool.Buffers.{BufferChain, NotIn, Distinct}

-- the buffers of a block, the one at `buf` and `rounds` more, each `size` bytes after the one before
abbrev pub buffers_from : (rounds buf size : ℕ) → List ℕ
buffers_from zero buf size = buf ∷ []
buffers_from (suc k) buf size = buf ∷ buffers_from k (buf + size) size

pub length-buffers_from : (k buf size : ℕ) → length (buffers_from k buf size) ≡ suc k
length-buffers_from zero buf size = refl
length-buffers_from (suc k) buf size = ap suc (length-buffers_from k (buf + size) size)

NotIn-buffers_from : (a k buf size : ℕ) → a < buf → NotIn a (buffers_from k buf size)
NotIn-buffers_from a zero buf size h = (ground arith, tt)
NotIn-buffers_from a (suc k) buf size h =
    (ground arith, NotIn-buffers_from a k (buf + size) size (omega arith))

pub Distinct-buffers_from : (k buf size : ℕ) → 0 < size → Distinct (buffers_from k buf size)
Distinct-buffers_from zero buf size h = (tt, tt)
Distinct-buffers_from (suc k) buf size h = (
  NotIn-buffers_from buf k (buf + size) size (omega arith),
  Distinct-buffers_from k (buf + size) size h,
)

-- a write below a block of buffers does not show in what the loop leaves there
link_buffers-below :
    (k buf size a : ℕ) (w : ℕ → ℕ)
    → a < buf
    → buf + size * k < 2 ^ 32
    → link_buffers k buf size w a ≡ w a
unfolding link_buffers
link_buffers-below zero buf size a w h fits =
    let ne : (a == buf) ≡ false = ground arith in rw ne refl
link_buffers-below (suc k) buf size a w h fits =
    let ne : (a == buf) ≡ false = ground arith in
    let step : size * suc k ≡ size * k + size = grind arith in
    let up : add32 buf size ≡ buf + size = omega arith in
    rw up (
      link_buffers-below k (buf + size) size a (update w buf (buf + size)) (omega arith)
        (omega arith)
      ∙ rw ne refl)

link_buffers-suc :
    (k buf size : ℕ) (w : ℕ → ℕ)
    → buf + size < 2 ^ 32
    → link_buffers (suc k) buf size w ≡ link_buffers k (buf + size) size (update w buf (buf + size))
unfolding link_buffers
link_buffers-suc k buf size w fits =
    let up : add32 buf size ≡ buf + size = omega arith in rw up refl

link_buffers_one :
    (buf size : ℕ) (w : ℕ → ℕ)
    → 0 < buf
    → buf + 4 < 2 ^ 32
    → BufferChain (link_buffers 0 buf size w) buf (buf ∷ [])
unfolding link_buffers
link_buffers_one buf size w low high =
    let self : (buf == buf) ≡ true = ground arith in (refl, low, high, rw self refl)

-- What the loop of `mkbufpool` leaves is one list of all the buffers.
pub link_buffers-BufferChain :
    (k buf size : ℕ) (w : ℕ → ℕ)
    → 0 < buf
    → 4 < size
    → buf + size * suc k < 2 ^ 32
    → BufferChain (link_buffers k buf size w) buf (buffers_from k buf size)
link_buffers-BufferChain zero buf size w low big fits =
    link_buffers_one buf size w low (omega (arith, fits))
link_buffers-BufferChain (suc k) buf size w low big fits =
    let step : size * suc (suc k) ≡ size * suc k + size = grind arith in
    let step1 : size * suc k ≡ size * k + size = grind arith in
    let w1 : ℕ → ℕ = update w buf (buf + size) in
    let self : (buf == buf) ≡ true = ground arith in
    let kept : link_buffers k (buf + size) size w1 buf ≡ w1 buf =
      link_buffers-below k (buf + size) size buf w1 (omega arith) (omega arith) in
    let first : link_buffers k (buf + size) size w1 buf ≡ buf + size = kept ∙ rw self refl in
    subst (λ v. BufferChain v buf (buffers_from (suc k) buf size))
      (sym (link_buffers-suc k buf size w (omega arith)))
      (
        refl,
        low,
        omega arith,
        rw first (link_buffers-BufferChain k (buf + size) size w1 (omega arith) big (omega arith)),
      )
