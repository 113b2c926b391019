-- ===== src/Dotted.antt =====
-- xinu/net/dot2ip.c: an IP address from its dotted decimal text. A result `none` is `SYSERR`.
pub mod Value
use os_virtual_mem.Prelude.{
  ℕ, zero, suc, ◌+◌, ◌-◌, ◌*◌, ◌%◌, ◌^◌, Option, none, some, ◌==◌, ltb, leb, ◌||◌, if◌then◌else◌,
}
use os_virtual_mem.Names.{Chars}

-- How a segment ends: the character after it, its value, and the offset after that character.
pub record Segment : Type 0 where
  pub ch : ℕ
  pub val : ℕ
  pub next : ℕ

-- The inner loop, with `rounds` rounds left, `nch` characters read and offset `i`. The fourth character
-- ends the segment or is an error, so four rounds are never too few.
unfoldable pub read_segment : (rounds nch i val : ℕ) → Chars → Option Segment
read_segment zero nch i val dotted = none
read_segment (suc k) nch i val dotted =
    let ch = dotted i in
    let rest = read_segment k (nch + 1) (i + 1) (10 * val + (ch - b'0')) dotted in
    if ch == 0 || ch == b'.'
    then (if nch == 0 then none else some (record { ch = ch; val = val; next = i + 1 }))
    else if leb 3 nch || ltb ch b'0' || ltb b'9' ch
    then none
    else rest

-- The outer loop, with `rounds` segments left. The shifted address has 8 zero bits at its end, to which
-- a value of at most 255 is added.
unfoldable pub read_segments : (rounds i ipaddr : ℕ) → Chars → Option ℕ
read_segments zero i ipaddr dotted = none
read_segments (suc k) i ipaddr dotted = elim (read_segment 4 0 i 0 dotted) [
  | none ↦ none
  | some seg ↦
      let ip = ipaddr * 256 % 2 ^ 32 + seg.val in
      if ltb 255 seg.val
      then none
      else if seg.ch == 0
      then some ip
      else read_segments k seg.next ip dotted
]

unfoldable pub dot2ip : Chars → Option ℕ
dot2ip dotted = read_segments 4 0 0 dotted
