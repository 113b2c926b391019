-- ===== src/Shell/Words.antt =====
-- Command lines as words, redirections and "&", and where the arrays of `lexan` hold them.
use os_virtual_mem.Prelude.{
  ℕ, suc, ◌+◌, ◌<◌, ◌≤◌, ◌≡◌, Bool, none, some, Option, List, [], ◌∷◌, ◌++◌, ◌==◌, arith, length,
  Bool-cases, inl, inr, ◌∙◌,
}
use os_virtual_mem.Lexan.{Lexed, tok_other}
use os_virtual_mem.Lexan.Text.{Token, amper, less, greater, chars, kind, HoldsTokens}
use os_virtual_mem.Shell.{Command}

-- A token with the blanks before it.
abbrev pub Spaced : Type 0
Spaced = List ℕ × Token

abbrev pub IsWord : Spaced → Type 0
IsWord w = kind w.1 ≡ tok_other

abbrev pub AllWords : List Spaced → Type 0
AllWords [] = Unit
AllWords (w ∷ ws) = IsWord w × AllWords ws

-- what tokens take in the buffer
abbrev pub size : List Spaced → ℕ
size [] = 0
size ((_, t) ∷ ts) = length (chars t) + 1 + size ts

-- The redirections of a command: none, one, or one of each kind in either order, with the blanks before
-- the signs.
pub data Redirects : Type 0 where
  no_files : Redirects
  from_file to_file : List ℕ → Spaced → Redirects
  from_to to_from : List ℕ → Spaced → List ℕ → Spaced → Redirects

abbrev pub redirect_tokens : Redirects → List Spaced → List Spaced
redirect_tokens no_files rest = rest
redirect_tokens (from_file b w) rest = (b, less) ∷ w ∷ rest
redirect_tokens (to_file b w) rest = (b, greater) ∷ w ∷ rest
redirect_tokens (from_to b w b' w') rest = (b, less) ∷ w ∷ (b', greater) ∷ w' ∷ rest
redirect_tokens (to_from b w b' w') rest = (b, greater) ∷ w ∷ (b', less) ∷ w' ∷ rest

abbrev pub FilesAreWords : Redirects → Type 0
FilesAreWords no_files = Unit
FilesAreWords (from_file b w) = IsWord w
FilesAreWords (to_file b w) = IsWord w
FilesAreWords (from_to b w b' w') = IsWord w × IsWord w'
FilesAreWords (to_from b w b' w') = IsWord w × IsWord w'

abbrev pub amper_tokens : Option (List ℕ) → List Spaced
amper_tokens none = []
amper_tokens (some b) = (b, amper) ∷ []

-- the places of the names of the files, behind words that take `a` characters
abbrev pub in_place : ℕ → Redirects → Option ℕ
in_place a no_files = none
in_place a (from_file b w) = some (a + 2)
in_place a (to_file b w) = none
in_place a (from_to b w b' w') = some (a + 2)
in_place a (to_from b w b' w') = some (a + 2 + length (chars w.1) + 1 + 2)

abbrev pub out_place : ℕ → Redirects → Option ℕ
out_place a no_files = none
out_place a (from_file b w) = none
out_place a (to_file b w) = some (a + 2)
out_place a (from_to b w b' w') = some (a + 2 + length (chars w.1) + 1 + 2)
out_place a (to_from b w b' w') = some (a + 2)

-- behind the first tokens, the arrays hold the others
pub HoldsTokens-drop :
    (ws ts : List Spaced) (i a : ℕ) (l : Lexed)
    → HoldsTokens i a (ws ++ ts) l
    → HoldsTokens (i + length ws) (a + size ws) ts l
HoldsTokens-drop [] ts i a l h =
    let p : i ≡ i + 0 = omega arith in let q : a ≡ a + 0 = omega arith in rw (← p, ← q) h
HoldsTokens-drop ((b, t) ∷ ws) ts i a l h =
    let p : suc i + length ws ≡ i + suc (length ws) = omega arith in
    let q : a + length (chars t) + 1 + size ws ≡ a + (length (chars t) + 1 + size ws) =
      omega arith in
    rw (← p, ← q) (HoldsTokens-drop ws ts (suc i) (a + length (chars t) + 1) l h.3)

pub words_other :
    (ws ts : List Spaced) (i a : ℕ) (l : Lexed)
    → HoldsTokens i a (ws ++ ts) l
    → AllWords ws
    → (j : ℕ) → i ≤ j
    → j < i + length ws
    → l.toktyp j ≡ tok_other
words_other [] ts i a l h w j le lt = absurd (omega arith)
words_other ((b, t) ∷ ws) ts i a l h w j le lt = elim (Bool-cases (j == i)) [
  | inl e ↦ let n : j ≡ i = ground arith in rw n (h.0 ∙ w.0)
  | inr e ↦
      words_other ws ts (suc i) (a + length (chars t) + 1) l h.3 w.1 j (ground arith) (omega arith)
]

-- the command behind the sign for the background
abbrev pub start : (m tl : ℕ) → Bool → Command
start m tl bg = record { nargs = m; tlen = tl; inname = none; outname = none; backgnd = bg }

abbrev pub whole : (n a : ℕ) → Redirects → Bool → Command
whole n a rs bg = record {
  nargs = n;
  tlen = a;
  inname = in_place a rs;
  outname = out_place a rs;
  backgnd = bg;
}

abbrev pub TlenOk : (tl a : ℕ) → Redirects → Type 0
TlenOk tl a no_files = tl ≡ a
TlenOk tl a _ = Unit

abbrev pub count : Redirects → ℕ
count no_files = 0
count (from_file _ _) = 2
count (to_file _ _) = 2
count (from_to _ _ _ _) = 4
count (to_from _ _ _ _) = 4
