-- ===== src/Names/Text.antt =====
-- Texts in buffers: their lengths, prefixes and copies.
use os_virtual_mem.Prelude.{
  ℕ, zero, suc, ◌+◌, ◌<◌, ◌≤◌, ◌≡◌, refl, ap, ◌∙◌, List, [], ◌∷◌, ◌++◌, arith, ◌==◌, Bool-cases,
  inl, inr, true, false, if◌then◌else◌, Bool, some, none, length,
}
use os_virtual_mem.Names.{Chars, scan_name, copy_chars, match_prefix}

-- From offset `i` on the buffer has the text `cs` and then its end.
abbrev pub Holds : Chars → ℕ → List ℕ → Type 0
Holds buf i [] = buf i ≡ 0
Holds buf i (c ∷ cs) = (buf i ≡ c) × ((c == 0) ≡ false) × Holds buf (i + 1) cs

abbrev pub is_prefix : List ℕ → List ℕ → Bool
is_prefix [] cs = true
is_prefix (p ∷ ps) [] = false
is_prefix (p ∷ ps) (c ∷ cs) = if p == c then is_prefix ps cs else false

-- what follows the prefix
abbrev pub after : List ℕ → List ℕ → List ℕ
after [] cs = cs
after (p ∷ ps) [] = []
after (p ∷ ps) (c ∷ cs) = after ps cs

pub scan_name_lem :
    (k i : ℕ) (name : Chars) (cs : List ℕ)
    → Holds name i cs
    → length cs < k
    → scan_name k i name ≡ some (i + length cs + 1)
unfolding scan_name
scan_name_lem zero i name cs h lt = absurd (omega arith)
scan_name_lem (suc k) i name [] h lt =
    let end : (name i == 0) ≡ true = ground (arith, h) in
    rw end (ap (λ (n : ℕ). some n) (omega arith))
scan_name_lem (suc k) i name (c ∷ cs) h lt =
    let more : (name i == 0) ≡ false = rw h.0 h.1 in
    rw more
      (scan_name_lem k (i + 1) name cs h.2 (omega arith) ∙ ap (λ (n : ℕ). some n) (omega arith))

pub scan_name-none :
    (k i : ℕ) (name : Chars) (cs : List ℕ)
    → Holds name i cs
    → k ≤ length cs
    → scan_name k i name ≡ none
unfolding scan_name
scan_name-none zero i name cs h le = refl
scan_name-none (suc k) i name [] h le = absurd (omega arith)
scan_name-none (suc k) i name (c ∷ cs) h le =
    let more : (name i == 0) ≡ false = rw h.0 h.1 in
    rw more (scan_name-none k (i + 1) name cs h.2 (omega arith))

pub match_prefix_lem :
    (k i : ℕ) (prefix name : Chars) (ps cs : List ℕ)
    → Holds prefix i ps
    → Holds name i cs
    → length ps < k
    → match_prefix k i prefix name ≡ (if is_prefix ps cs then some (i + length ps) else none)
unfolding match_prefix
match_prefix_lem zero i prefix name ps cs h g lt = absurd (omega arith)
match_prefix_lem (suc k) i prefix name [] cs h g lt =
    let end : (prefix i == 0) ≡ true = ground (arith, h) in
    rw end (ap (λ (n : ℕ). some n) (omega arith))
match_prefix_lem (suc k) i prefix name (p ∷ ps) [] h g lt =
    let more : (prefix i == 0) ≡ false = rw h.0 h.1 in
    let other : (prefix i == name i) ≡ false = rw g more in rw (more, other) refl
match_prefix_lem (suc k) i prefix name (p ∷ ps) (c ∷ cs) h g lt =
    let more : (prefix i == 0) ≡ false = rw h.0 h.1 in
    elim (Bool-cases (p == c)) [
      | inl same ↦
          let test : (prefix i == name i) ≡ true = rw (h.0, g.0) same in
          rw (more, test, same)
            (match_prefix_lem k (i + 1) prefix name ps cs h.2 g.2 (omega arith)
              ∙ ap (λ (n : ℕ). if is_prefix ps cs then some n else none) (omega arith))
      | inr other ↦
          let test : (prefix i == name i) ≡ false = rw (h.0, g.0) other in
          rw (more, test, other) refl
    ]

-- a copy, inside what it writes and outside
pub copy_chars-outside :
    (n i j : ℕ) (src dst : Chars) (x : ℕ) → (j ≤ x → j + n ≤ x) → copy_chars n i j src dst x ≡ dst x
unfolding copy_chars
copy_chars-outside zero i j src dst x out = refl
copy_chars-outside (suc k) i j src dst x out =
    let ne : (x == j) ≡ false = ground (arith, out) in
    copy_chars-outside k (i + 1) (j + 1) src (λ y. if y == j then src i else dst y) x
      (λ le. omega (arith, out (omega arith)))
    ∙ rw ne refl

pub copy_chars-inside :
    (n i j : ℕ) (src dst : Chars) (t : ℕ) → t < n → copy_chars n i j src dst (j + t) ≡ src (i + t)
unfolding copy_chars
copy_chars-inside zero i j src dst t lt = absurd (omega arith)
copy_chars-inside (suc k) i j src dst zero lt =
    let here : (j + 0 == j) ≡ true = ground arith in
    let z : i + 0 ≡ i = omega arith in
    copy_chars-outside k (i + 1) (j + 1) src (λ y. if y == j then src i else dst y) (j + 0)
      (λ le. omega arith)
    ∙ rw (here, z) refl
copy_chars-inside (suc k) i j src dst (suc t) lt =
    let d : j + suc t ≡ j + 1 + t = omega arith in
    let e : i + suc t ≡ i + 1 + t = omega arith in
    rw (d, e)
      (copy_chars-inside k (i + 1) (j + 1) src (λ y. if y == j then src i else dst y) t
        (omega arith))

-- a buffer that agrees with another on a text and its end
pub Holds-moved :
    (src buf : Chars) (i j : ℕ) (cs : List ℕ)
    → Holds src i cs
    → ((t : ℕ) → t < length cs + 1 → buf (j + t) ≡ src (i + t))
    → Holds buf j cs
Holds-moved src buf i j [] h same =
    let a : j + 0 ≡ j = omega arith in
    let b : i + 0 ≡ i = omega arith in let s = same 0 (omega arith) in rw (a, b) at s ∙ h
Holds-moved src buf i j (c ∷ cs) h same =
    let a : j + 0 ≡ j = omega arith in
    let b : i + 0 ≡ i = omega arith in
    let s = same 0 (omega arith) in
    (
      rw (a, b) at s ∙ h.0,
      h.1,
      Holds-moved src buf (i + 1) (j + 1) cs h.2 (λ t lt.
          let d : j + 1 + t ≡ j + suc t = omega arith in
          let e : i + 1 + t ≡ i + suc t = omega arith in rw (d, e) (same (suc t) (omega arith))),
    )

-- a text in front of another
pub Holds-append :
    (src buf : Chars) (i j : ℕ) (rs ts : List ℕ)
    → Holds src i rs
    → ((t : ℕ) → t < length rs → buf (j + t) ≡ src (i + t))
    → Holds buf (j + length rs) ts
    → Holds buf j (rs ++ ts)
Holds-append src buf i j [] ts h same rest = let a : j + 0 ≡ j = omega arith in rw a at rest
Holds-append src buf i j (r ∷ rs) ts h same rest =
    let a : j + 0 ≡ j = omega arith in
    let b : i + 0 ≡ i = omega arith in
    let s = same 0 (omega arith) in
    let f : j + suc (length rs) ≡ j + 1 + length rs = omega arith in
    (
      rw (a, b) at s ∙ h.0,
      h.1,
      Holds-append src buf (i + 1) (j + 1) rs ts h.2
          (λ t lt.
            let d : j + 1 + t ≡ j + suc t = omega arith in
            let e : i + 1 + t ≡ i + suc t = omega arith in rw (d, e) (same (suc t) (omega arith)))
          (rw f at rest),
    )

-- what follows a prefix stands behind it
pub Holds-after :
    (name : Chars) (i : ℕ) (ps cs : List ℕ)
    → Holds name i cs
    → is_prefix ps cs ≡ true
    → Holds name (i + length ps) (after ps cs) × (length (after ps cs) + length ps ≡ length cs)
Holds-after name i [] cs h p = let a : i + 0 ≡ i = omega arith in (rw a h, omega arith)
Holds-after name i (p ∷ ps) [] h q = cc
Holds-after name i (p ∷ ps) (c ∷ cs) h q = elim (Bool-cases (p == c)) [
  | inl same ↦
      let (r, n) = Holds-after name (i + 1) ps cs h.2 (rw same at q) in
      let f : i + suc (length ps) ≡ i + 1 + length ps = omega arith in (rw f r, omega (arith, n))
  | inr other ↦ cc (rw other at q)
]
