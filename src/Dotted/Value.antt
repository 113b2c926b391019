-- ===== src/Dotted/Value.antt =====
-- Which address `dot2ip` reads from a text of up to four decimal numbers.
use os_virtual_mem.Prelude.{
  ℕ, zero, suc, ◌+◌, ◌-◌, ◌*◌, ◌/◌, ◌%◌, ◌^◌, ◌<◌, ◌≡◌, refl, ◌∙◌, List, [], ◌∷◌, ◌++◌, arith, ◌==◌,
  ltb, leb, ◌||◌, Bool-cases, inl, inr, true, false, if◌then◌else◌, Option, some, length,
}
use os_virtual_mem.Names.{Chars}
use os_virtual_mem.Names.Text.{Holds}
use os_virtual_mem.Dotted.{Segment, read_segment, read_segments, dot2ip}

-- the decimal digits of an octet
abbrev pub digits : ℕ → List ℕ
digits n =
    if ltb n 10
    then (48 + n) ∷ []
    else if ltb n 100
    then (48 + n / 10) ∷ (48 + n % 10) ∷ []
    else (48 + n / 100) ∷ (48 + n / 10 % 10) ∷ (48 + n % 10) ∷ []

-- one octet, and then others after dots
abbrev pub dotted : ℕ → List ℕ → List ℕ
dotted n [] = digits n
dotted n (m ∷ ms) = digits n ++ b'.' ∷ dotted m ms

abbrev pub value : ℕ → List ℕ → ℕ
value ip [] = ip
value ip (n ∷ ns) = value (ip * 256 + n) ns

abbrev pub Octets : List ℕ → Type 0
Octets [] = Unit
Octets (n ∷ ns) = (n < 256) × Octets ns

-- a character that belongs to a number, and one that ends it
digit_step :
    (k nch i val c : ℕ) (name : Chars)
    → name i ≡ 48 + c
    → c < 10
    → nch < 3
    → read_segment (suc k) nch i val name ≡ read_segment k (nch + 1) (i + 1) (10 * val + c) name
unfolding read_segment
digit_step k nch i val c name e d n =
    let z : (48 + c == 0) ≡ false = ground arith in
    let dot : (48 + c == b'.') ≡ false = ground arith in
    let a : leb 3 nch ≡ false = ground arith in
    let low : ltb (48 + c) b'0' ≡ false = ground arith in
    let high : ltb b'9' (48 + c) ≡ false = ground arith in
    let same : 48 + c - b'0' ≡ c = omega arith in rw (e, z, dot, a, low, high, same) refl

end_step :
    (k nch i val : ℕ) (name : Chars)
    → ((name i == 0) || (name i == b'.')) ≡ true
    → 0 < nch
    → read_segment (suc k) nch i val name ≡ some (record { ch = name i; val = val; next = i + 1 })
unfolding read_segment
end_step k nch i val name e n = let z : (nch == 0) ≡ false = ground arith in rw (e, z) refl

-- the digits stand from offset `i` on, before whatever follows
abbrev Spells : Chars → ℕ → List ℕ → Type 0
Spells name i [] = Unit
Spells name i (c ∷ cs) = (name i ≡ c) × Spells name (i + 1) cs

-- the segment with value `v` that ends at offset `j`
abbrev seg_at : Chars → ℕ → ℕ → Option Segment
seg_at name j v = some (record { ch = name j; val = v; next = j + 1 })

abbrev Ends : Chars → ℕ → Type 0
Ends name j = ((name j == 0) || (name j == b'.')) ≡ true

seg_same : (name : Chars) (j j' v v' : ℕ) → j ≡ j' → v ≡ v' → seg_at name j v ≡ seg_at name j' v'
seg_same name j j' v v' e d = rw (e, d) refl

segment_lem :
    (n i : ℕ) (name : Chars)
    → n < 256
    → Spells name i (digits n)
    → Ends name (i + length (digits n))
    → read_segment 4 0 i 0 name ≡ seg_at name (i + length (digits n)) n
segment_lem n i name lt sp e = elim (Bool-cases (ltb n 10)) [
  | inl one ↦
      let s = rw one at sp in
      let f : Ends name (i + 1) = rw one at e in
      rw one (
        digit_step 3 0 i 0 n name s.0 (ground arith) (omega arith)
        ∙ end_step 2 1 (i + 1) (10 * 0 + n) name f (omega arith)
        ∙ seg_same name (i + 1) (i + 1) (10 * 0 + n) n refl (omega arith))
  | inr more ↦ elim (Bool-cases (ltb n 100)) [
    | inl two ↦
        let small : n < 100 = ground arith in
        let s = rw (more, two) at sp in
        let at2 : i + 2 ≡ i + 1 + 1 = omega arith in
        let f : Ends name (i + 1 + 1) = rw at2 at (rw (more, two) at e) in
        rw (more, two)
          (digit_step 3 0 i 0 (n / 10) name s.0 (omega arith) (omega arith)
            ∙ digit_step 2 1 (i + 1) (10 * 0 + n / 10) (n % 10) name s.1.0 (omega arith)
                (omega arith)
            ∙ end_step 1 2 (i + 1 + 1) (10 * (10 * 0 + n / 10) + n % 10) name f (omega arith)
            ∙ seg_same name (i + 1 + 1) (i + 2) (10 * (10 * 0 + n / 10) + n % 10) n (omega arith)
                (omega arith))
    | inr three ↦
        let s = rw (more, three) at sp in
        let at3 : i + 3 ≡ i + 1 + 1 + 1 = omega arith in
        let f : Ends name (i + 1 + 1 + 1) = rw at3 at (rw (more, three) at e) in
        let v : ℕ = 10 * (10 * (10 * 0 + n / 100) + n / 10 % 10) + n % 10 in
        rw (more, three)
          (digit_step 3 0 i 0 (n / 100) name s.0 (omega arith) (omega arith)
            ∙ digit_step 2 1 (i + 1) (10 * 0 + n / 100) (n / 10 % 10) name s.1.0 (omega arith)
                (omega arith)
            ∙ digit_step 1 2 (i + 1 + 1) (10 * (10 * 0 + n / 100) + n / 10 % 10) (n % 10) name
                s.1.1.0 (omega arith) (omega arith)
            ∙ end_step 0 3 (i + 1 + 1 + 1) v name f (omega arith)
            ∙ seg_same name (i + 1 + 1 + 1) (i + 3) v n (omega arith) (omega arith))
  ]
]

-- a text of two parts
Holds-split :
    (name : Chars) (i : ℕ) (ds ts : List ℕ)
    → Holds name i (ds ++ ts)
    → Spells name i ds × Holds name (i + length ds) ts
Holds-split name i [] ts h = let z : i + 0 ≡ i = omega arith in (tt, rw z h)
Holds-split name i (d ∷ ds) ts h =
    let r = Holds-split name (i + 1) ds ts h.2 in
    let f : i + suc (length ds) ≡ i + 1 + length ds = omega arith in ((h.0, r.0), rw f r.1)

Holds-end :
    (name : Chars) (i : ℕ) (ds : List ℕ)
    → Holds name i ds
    → Spells name i ds × (name (i + length ds) ≡ 0)
Holds-end name i [] h = let z : i + 0 ≡ i = omega arith in (tt, rw z h)
Holds-end name i (d ∷ ds) h =
    let r = Holds-end name (i + 1) ds h.2 in
    let f : i + suc (length ds) ≡ i + 1 + length ds = omega arith in ((h.0, r.0), rw f r.1)

-- no number is too large on the way
abbrev Fits : ℕ → List ℕ → Type 0
Fits ip [] = Unit
Fits ip (n ∷ ns) = (ip * 256 < 2 ^ 32) × Fits (ip * 256 + n) ns

read_segments_lem :
    (k i ip n : ℕ) (ns : List ℕ) (name : Chars)
    → Holds name i (dotted n ns)
    → Octets (n ∷ ns)
    → Fits ip (n ∷ ns)
    → length ns < k
    → read_segments k i ip name ≡ some (value ip (n ∷ ns))
unfolding read_segments
read_segments_lem zero i ip n ns name h o f lt = absurd (omega arith)
read_segments_lem (suc k) i ip n [] name h o f lt =
    let j : ℕ = i + length (digits n) in
    let (sp, end) = Holds-end name i (digits n) h in
    let run = segment_lem n i name o.0 sp (rw end refl) in
    let small : ltb 255 n ≡ false = ground (arith, o.0) in
    let whole : ip * 256 % 2 ^ 32 ≡ ip * 256 = omega (arith, f.0) in
    rw (read_segments, run, small, end, whole) refl
read_segments_lem (suc k) i ip n (m ∷ ms) name h o f lt =
    let j : ℕ = i + length (digits n) in
    let (sp, after_dot) = Holds-split name i (digits n) (b'.' ∷ dotted m ms) h in
    let dot = after_dot.0 in
    let run = segment_lem n i name o.0 sp (rw dot refl) in
    let small : ltb 255 n ≡ false = ground (arith, o.0) in
    let whole : ip * 256 % 2 ^ 32 ≡ ip * 256 = omega (arith, f.0) in
    rw (read_segments, run, small, dot, whole)
      (read_segments_lem k (j + 1) (ip * 256 + n) m ms name after_dot.2 o.1 f.1 (omega arith))

Fits-start : (n : ℕ) (ns : List ℕ) → Octets (n ∷ ns) → length ns < 4 → Fits 0 (n ∷ ns)
Fits-start n [] o lt = omega arith
Fits-start n (a ∷ []) o lt = omega arith
Fits-start n (a ∷ b ∷ []) o lt = omega arith
Fits-start n (a ∷ b ∷ c ∷ []) o lt = omega arith
Fits-start n (a ∷ b ∷ c ∷ d ∷ ds) o lt = absurd (omega arith)

-- `dot2ip` of one to four octets in decimal, with dots between them: the number that has them as its
-- digits to base 256. Four are not required.
pub dot2ip-dotted :
    (n : ℕ) (ns : List ℕ) (name : Chars)
    → Holds name 0 (dotted n ns)
    → Octets (n ∷ ns)
    → length ns < 4
    → dot2ip name ≡ some (value 0 (n ∷ ns))
unfolding dot2ip
dot2ip-dotted n ns name h o lt = read_segments_lem 4 0 0 n ns name h o (Fits-start n ns o lt) lt
