-- ===== src/Names/Map.antt =====
-- The namespace as a list of mappings, and `namrepl` on it.
use os_virtual_mem.Prelude.{
  ℕ, suc, ◌+◌, ◌-◌, ◌<◌, ◌≤◌, ◌≡◌, refl, sym, ap, ◌∙◌, List, [], ◌∷◌, ◌++◌, arith, Bool-cases, inl,
  inr, true, false, if◌then◌else◌, some, none, Option, ltb, length, ◌%◌, lt→ltb,
}
use mathlib.Core.Path.{subst}
use os_virtual_mem.Prelude.Int.{ℤ, pos, negsuc, ◌+ℤ◌, ◌-ℤ◌, pos_part, ltb_ℤ}
use os_virtual_mem.Names.{
  Chars, NmEntry, Namespace, max_prefix, max_replace, max_name, namlen, copy_chars, replace_prefix,
  repl_from, namrepl, as_char,
}
use os_virtual_mem.Names.Text.{
  Holds, is_prefix, after, scan_name_lem, scan_name-none, match_prefix_lem, copy_chars-inside,
  copy_chars-outside, Holds-moved, Holds-append, Holds-after,
}

-- A prefix, what stands for it, and the device.
pub record Mapping : Type 0 where
  pub prefix : List ℕ
  pub replace : List ℕ
  pub device : ℕ

pub record IsEntry (e : NmEntry) (m : Mapping) : Type 0 where
  pub prefix : Holds e.nprefix 0 m.prefix
  pub prefix_fits : length m.prefix < max_prefix
  pub replace : Holds e.nreplace 0 m.replace
  pub replace_fits : length m.replace < max_replace
  pub device : e.ndevice ≡ m.device

-- The entries of the table from `i` on are `ms`.
abbrev pub IsTable : (ℕ → NmEntry) → ℕ → List Mapping → Type 0
IsTable tab i [] = Unit
IsTable tab i (m ∷ ms) = IsEntry (tab i) m × IsTable tab (i + 1) ms

-- The first mapping whose prefix the name has: the device, and the name with the prefix replaced.
abbrev pub rewrite : List Mapping → List ℕ → Option (ℕ × List ℕ)
rewrite [] name = none
rewrite (m ∷ ms) name =
    if is_prefix m.prefix name
    then some (m.device, m.replace ++ after m.prefix name)
    else rewrite ms name

pub namlen-Holds :
    (name : Chars) (maxlen : ℕ) (cs : List ℕ)
    → Holds name 0 cs
    → length cs < maxlen
    → namlen name maxlen ≡ some (length cs + 1)
unfolding namlen
namlen-Holds name maxlen cs h lt =
    scan_name_lem maxlen 0 name cs h lt ∙ ap (λ (n : ℕ). some n) (omega arith)

pub namlen-none :
    (name : Chars) (maxlen : ℕ) (cs : List ℕ)
    → Holds name 0 cs
    → maxlen ≤ length cs
    → namlen name maxlen ≡ none
unfolding namlen
namlen-none name maxlen cs h le = scan_name-none maxlen 0 name cs h le

as_char_small : (n : ℕ) → n < 128 → as_char (pos n) ≡ pos n
as_char_small n h =
    let m : n % 256 ≡ n = omega arith in let t : ltb n 128 ≡ true = lt→ltb n 128 h in rw (m, t) refl

as_char_negative : (n : ℕ) → 128 ≤ n → n < 256 → as_char (pos n) ≡ negsuc (255 - n)
as_char_negative n h k =
    let m : n % 256 ≡ n = omega arith in let t : ltb n 128 ≡ false = ground arith in rw (m, t) refl

pos-sub : (a b : ℕ) → pos (a + b) -ℤ pos b ≡ pos a
unfolding ◌-ℤ◌
pos-sub a b = ground arith

no_overflow :
    (r : ℕ) (z : ℤ) → r + pos_part z ≤ max_name → ltb_ℤ (pos max_name) (pos r +ℤ z) ≡ false
unfolding ◌+ℤ◌
no_overflow r (pos n) h = ground arith
no_overflow r (negsuc n) h = ground arith

negative-sub : (n b : ℕ) → pos_part (negsuc n -ℤ pos b) ≡ 0
unfolding ◌-ℤ◌
negative-sub n b = ground arith

-- `namrepl` with a matching entry, on a name of fewer than 127 characters
replace_prefix_lem :
    (e : NmEntry) (m : Mapping) (name newname : Chars) (cs : List ℕ)
    → IsEntry e m
    → Holds name 0 cs
    → length cs < 127
    → is_prefix m.prefix cs ≡ true
    → (new : Chars) × (replace_prefix e (length m.prefix) name newname ≡ (some m.device, new))
      × Holds new 0 (m.replace ++ after m.prefix cs)
unfolding replace_prefix
replace_prefix_lem e m name newname cs entry h short p =
    let (tail, sizes) = Holds-after name 0 m.prefix cs h p in
    let fits : length m.replace < 96 = entry.replace_fits in
    let plen : ℕ = length m.prefix in
    let rlen : ℕ = length m.replace in
    let left : ℕ = length (after m.prefix cs) + 1 in
    let n1 = namlen-Holds name max_name cs h (omega arith) in
    let n2 = namlen-Holds e.nreplace max_name m.replace entry.replace (omega arith) in
    let small = as_char_small (length cs + 1) (omega arith) in
    let split : length cs + 1 ≡ left + plen = omega (arith, sizes) in
    let rep = pos-sub rlen 1 in
    let remain : pos (length cs + 1) -ℤ pos plen ≡ pos left = rw split (pos-sub left plen) in
    let room = no_overflow rlen (pos left) (omega (arith, sizes)) in
    let first = copy_chars rlen 0 0 e.nreplace newname in
    let new = copy_chars left plen rlen name first in
    let z : 0 + rlen ≡ rlen = omega arith in
    let z' : 0 + plen ≡ plen = omega arith in
    (
      new,
      rw (n1, n2, small, rep, remain, room, entry.device) refl,
      Holds-append e.nreplace new 0 0 m.replace (after m.prefix cs) entry.replace
          (λ t lt.
            copy_chars-outside left plen rlen name first (0 + t) (λ le. omega arith)
            ∙ copy_chars-inside rlen 0 0 e.nreplace newname t lt)
          (rw z (
            Holds-moved name new plen rlen (after m.prefix cs) (rw z' at tail)
              (λ t lt. copy_chars-inside left plen rlen name first t lt))),
    )

-- the same on a name of 127 to 255 characters: its length, in a `char`, is not positive
replace_prefix-long :
    (e : NmEntry) (m : Mapping) (name newname : Chars) (cs : List ℕ)
    → IsEntry e m
    → Holds name 0 cs
    → 127 ≤ length cs
    → length cs < 255
    → replace_prefix e (length m.prefix) name newname
      ≡ (some m.device, copy_chars (length m.replace) 0 0 e.nreplace newname)
unfolding replace_prefix
replace_prefix-long e m name newname cs entry h long short =
    let fits : length m.replace < 96 = entry.replace_fits in
    let plen : ℕ = length m.prefix in
    let rlen : ℕ = length m.replace in
    let n1 = namlen-Holds name max_name cs h (omega arith) in
    let n2 = namlen-Holds e.nreplace max_name m.replace entry.replace (omega arith) in
    let neg = as_char_negative (length cs + 1) (omega arith) (omega arith) in
    let rep = pos-sub rlen 1 in
    let none_left = negative-sub (255 - (length cs + 1)) plen in
    let room =
      no_overflow rlen (negsuc (255 - (length cs + 1)) -ℤ pos plen) (omega (arith, none_left)) in
    rw (n1, n2, neg, rep, room, entry.device, none_left) (unfold copy_chars in refl)

-- what a step of the loop over the table comes to
repl_step :
    (k i : ℕ) (ns : Namespace) (m : Mapping) (name newname : Chars) (cs : List ℕ)
    → IsEntry (ns.nametab i) m
    → Holds name 0 cs
    → repl_from (suc k) i ns name newname ≡ (
        if is_prefix m.prefix cs
        then replace_prefix (ns.nametab i) (length m.prefix) name newname
        else repl_from k (i + 1) ns name newname)
unfolding repl_from
repl_step k i ns m name newname cs entry h =
    let found =
      match_prefix_lem max_prefix 0 (ns.nametab i).nprefix name m.prefix cs entry.prefix h
        entry.prefix_fits in
    let z : 0 + length m.prefix ≡ length m.prefix = omega arith in
    elim (Bool-cases (is_prefix m.prefix cs)) [
      | inl hit ↦ rw (repl_from, found, hit, z) refl
      | inr miss ↦ rw (repl_from, found, miss) refl
    ]

-- What `namrepl` promises for a table of mappings and a name.
abbrev pub Rewritten : Option (ℕ × List ℕ) → (newname : Chars) → Option ℕ × Chars → Type 0
Rewritten none newname r = r ≡ (none, newname)
Rewritten (some (device, text)) newname r =
    (new : Chars) × (r ≡ (some device, new)) × Holds new 0 text

repl_from_lem :
    (ms : List Mapping) (i : ℕ) (ns : Namespace) (name newname : Chars) (cs : List ℕ)
    → IsTable ns.nametab i ms
    → Holds name 0 cs
    → length cs < 127
    → Rewritten (rewrite ms cs) newname (repl_from (length ms) i ns name newname)
repl_from_lem [] i ns name newname cs tab h short = unfold repl_from in refl
repl_from_lem (m ∷ ms) i ns name newname cs tab h short =
    let step = repl_step (length ms) i ns m name newname cs tab.0 h in
    elim (Bool-cases (is_prefix m.prefix cs)) [
      | inl hit ↦
          rw (step, hit) (replace_prefix_lem (ns.nametab i) m name newname cs tab.0 h short hit)
      | inr miss ↦ rw (step, miss) (repl_from_lem ms (i + 1) ns name newname cs tab.1 h short)
    ]

-- `namrepl` of a name of fewer than 127 characters: the device of the first mapping whose prefix the
-- name has, and in the new buffer the name with that prefix replaced; or `SYSERR`, and the new buffer
-- as it was, if there is no such mapping.
pub namrepl_lem :
    (ns : Namespace) (ms : List Mapping) (name newname : Chars) (cs : List ℕ)
    → IsTable ns.nametab 0 ms
    → ns.nnames ≡ length ms
    → Holds name 0 cs
    → length cs < 127
    → Rewritten (rewrite ms cs) newname (namrepl ns name newname)
unfolding namrepl
namrepl_lem ns ms name newname cs tab count h short =
    subst (λ k. Rewritten (rewrite ms cs) newname (repl_from k 0 ns name newname)) (sym count)
      (repl_from_lem ms 0 ns name newname cs tab h short)

-- `namrepl` of a name of 127 to 254 characters that has the first prefix: it succeeds, but the
-- new buffer has the characters of the replacement, without an end, and keeps what it had from there on.
pub namrepl-long :
    (ns : Namespace) (m : Mapping) (ms : List Mapping) (name newname : Chars) (cs : List ℕ)
    → IsTable ns.nametab 0 (m ∷ ms)
    → ns.nnames ≡ length (m ∷ ms)
    → Holds name 0 cs
    → 127 ≤ length cs
    → length cs < 255
    → is_prefix m.prefix cs ≡ true
    → (new : Chars) × (namrepl ns name newname ≡ (some m.device, new))
      × ((t : ℕ) → t < length m.replace → new t ≡ (ns.nametab 0).nreplace t)
      × ((t : ℕ) → length m.replace ≤ t → new t ≡ newname t)
unfolding namrepl
namrepl-long ns m ms name newname cs tab count h long short p =
    let new = copy_chars (length m.replace) 0 0 (ns.nametab 0).nreplace newname in
    let run : repl_from (suc (length ms)) 0 ns name newname ≡ (some m.device, new) =
      rw (repl_step (length ms) 0 ns m name newname cs tab.0 h, p)
        (replace_prefix-long (ns.nametab 0) m name newname cs tab.0 h long short) in
    (
      new,
      subst (λ k. repl_from k 0 ns name newname ≡ (some m.device, new)) (sym count) run,
      λ t lt.
          let z : 0 + t ≡ t = omega arith in
          rw z at (copy_chars-inside (length m.replace) 0 0 (ns.nametab 0).nreplace newname t lt),
      λ t le.
          copy_chars-outside (length m.replace) 0 0 (ns.nametab 0).nreplace newname t
            (λ z. omega arith),
    )
