-- ===== src/Shell/Find.antt =====
-- The search of the shell in the table of commands.
use os_virtual_mem.Prelude.{
  ℕ, suc, ◌+◌, ◌≡◌, refl, true, false, Option, none, some, List, [], ◌∷◌, ◌++◌, ◌==◌, arith, length,
  Bool-cases, inl, inr, ◌⊎◌, ap, ◌∙◌,
}
use os_virtual_mem.Names.{Chars}
use os_virtual_mem.Lexan.Text.{TextAt}
use os_virtual_mem.Shell.{same_name, find_command}

-- none of the names is the text at index 0
abbrev pub NoName : Chars → List (List ℕ) → Type 0
NoName tokbuf [] = Unit
NoName tokbuf (name ∷ names) = (¬ TextAt tokbuf 0 name) × NoName tokbuf names

-- What the search for a command comes to: it is the first whose name the text at index 0 is.
pub data Found (tokbuf : Chars) (names : List (List ℕ)) (j : ℕ) (r : Option ℕ) : Type 0 where
  missing : r ≡ none → NoName tokbuf names → Found tokbuf names j r
  found :
      (front back : List (List ℕ)) (name : List ℕ)
      → names ≡ front ++ name ∷ back
      → r ≡ some (j + length front)
      → TextAt tokbuf 0 name
      → NoName tokbuf front
      → Found tokbuf names j r

same_name-TextAt :
    (src : List ℕ) (tokbuf : Chars) (cmp : ℕ)
    → ((same_name src tokbuf cmp ≡ true) × TextAt tokbuf cmp src)
      ⊎ ((same_name src tokbuf cmp ≡ false) × (¬ TextAt tokbuf cmp src))
unfolding same_name
same_name-TextAt [] tokbuf cmp = elim (Bool-cases (tokbuf cmp == 0)) [
  | inl e ↦ inl (e, ground arith)
  | inr e ↦ inr (e, λ h. ground arith)
]
same_name-TextAt (c ∷ cs) tokbuf cmp = elim (Bool-cases (tokbuf cmp == c)) [
  | inr e ↦ inr (rw e refl, λ h. let z = h.0 in ground arith)
  | inl e ↦ elim (same_name-TextAt cs tokbuf (cmp + 1)) [
    | inl (t, at) ↦ inl (rw e t, (ground arith, at))
    | inr (t, off) ↦ inr (rw e t, λ h. off h.1)
  ]
]

-- The search in the table of commands finds the first whose name is the text at the start of `tokbuf`,
-- and misses only if there is none.
pub find_command-Found :
    (names : List (List ℕ)) (j : ℕ) (tokbuf : Chars)
    → Found tokbuf names j (find_command names j tokbuf)
unfolding find_command
find_command-Found [] j tokbuf = missing refl tt
find_command-Found (name ∷ names) j tokbuf = elim (same_name-TextAt name tokbuf 0) [
  | inl (t, at) ↦
      let z : j ≡ j + 0 = omega arith in
      found [] names name refl (rw t (ap (λ (i : ℕ). some i) z)) at tt
  | inr (t, off) ↦ rw t (later (find_command-Found names (j + 1) tokbuf) off)
]
  where
    later :
        {r : Option ℕ}
        → Found tokbuf names (j + 1) r
        → ¬ TextAt tokbuf 0 name
        → Found tokbuf (name ∷ names) j r
    later (missing e no_name) off = missing e (off, no_name)
    later (found front back n e at_j at no_name) off =
        let z : j + 1 + length front ≡ j + suc (length front) = omega arith in
        found (name ∷ front) back n (ap (λ (xs : List (List ℕ)). name ∷ xs) e)
          (at_j ∙ ap (λ (i : ℕ). some i) z) at (off, no_name)
