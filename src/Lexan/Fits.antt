-- ===== src/Lexan/Fits.antt =====
-- `lexan` writes inside its arrays, whatever the line holds.
use os_virtual_mem.Prelude.{
  ℕ, zero, suc, ◌+◌, ◌<◌, ◌≤◌, ◌≡◌, refl, none, some, Option, List, leb, arith, length, Bool-cases,
  inl, inr, ◌⊎◌, ◌∙◌,
}
use os_virtual_mem.Lexan.{
  Lexed, is_end, peek, skip_blanks, scan_token, Round, again, returned, lex_round, lex_from,
  shell_maxtok, lexan,
}
use os_virtual_mem.Lexan.Copies.{RoundFits, scan_token-RoundFits, skip_blanks-length}

-- The limits of a call on `line`: those of the buffer and of the two arrays.
pub record Fits (line : List ℕ) (l : Lexed) (r : Option ℕ) (l' : Lexed) : Type 0 where
  pub tbindex : l'.tbindex ≤ length line + shell_maxtok
  pub tokbuf : (x : ℕ) → length line + shell_maxtok ≤ x → l'.tokbuf x ≡ l.tokbuf x
  pub arrays : (i : ℕ) → shell_maxtok ≤ i → (l'.tok i ≡ l.tok i) × (l'.toktyp i ≡ l.toktyp i)
  pub count : (n : ℕ) → r ≡ some n → (n ≡ l'.ntok) × (n ≤ shell_maxtok)

-- the loop after a round
abbrev after_round : ℕ → Round → Option ℕ × Lexed
after_round k (returned r l) = (r, l)
after_round k (again p l) = lex_from k p l

round-Fits :
    (k : ℕ) (line : List ℕ) (n : ℕ) (l : Lexed) (r : Round)
    → RoundFits n l r
    → n ≤ length line + l.ntok
    → l.ntok < shell_maxtok
    → ((p' : List ℕ) (l' : Lexed)
        → l'.tbindex + length p' ≤ length line + l'.ntok
        → l'.ntok ≤ shell_maxtok
        → Fits line l' (lex_from k p' l').0 (lex_from k p' l').1)
    → Fits line l (after_round k r).0 (after_round k r).1
round-Fits k line n l (returned r l') (kept, place, count, result) le few ih = record {
  tbindex = omega arith;
  tokbuf = λ x out. kept.outside x (omega arith);
  arrays = λ i out. kept.arrays i (λ e. absurd (omega arith));
  count = λ m e. let h = result m e in (omega arith, omega arith);
}
round-Fits k line n l (again p' l') (kept, place, count) le few ih =
    let rest = ih p' l' (omega arith) (omega arith) in
    record {
      tbindex = rest.tbindex;
      tokbuf = λ x out. rest.tokbuf x out ∙ kept.outside x (omega arith);
      arrays = λ i out.
          let a = rest.arrays i out in
          let b = kept.arrays i (λ e. absurd (omega arith)) in (a.0 ∙ b.0, a.1 ∙ b.1);
      count = rest.count;
    }

lex_round-cases :
    (p : List ℕ) (l : Lexed)
    → (lex_round p l ≡ returned (some l.ntok) l)
      ⊎ (lex_round p l ≡ returned none l)
      ⊎ ((l.ntok < shell_maxtok) × (lex_round p l ≡ scan_token (skip_blanks p) l))
unfolding lex_round
lex_round-cases p l = elim (Bool-cases (is_end (peek p))) [
  | inl e ↦ inl (rw e refl)
  | inr e ↦ elim (Bool-cases (leb shell_maxtok l.ntok)) [
    | inl full ↦ inr (inl (rw (e, full) refl))
    | inr room ↦ inr (inr (ground arith, rw (e, room) refl))
  ]
]

lex_from-Fits :
    (rounds : ℕ) (line p : List ℕ) (l : Lexed)
    → l.tbindex + length p ≤ length line + l.ntok
    → l.ntok ≤ shell_maxtok
    → Fits line l (lex_from rounds p l).0 (lex_from rounds p l).1
unfolding lex_from
lex_from-Fits zero line p l room few = record {
  tbindex = omega arith;
  tokbuf = λ x _. refl;
  arrays = λ i _. (refl, refl);
  count = λ n e. cc;
}
lex_from-Fits (suc k) line p l room few =
    let stays : (r : Option ℕ) → ((n : ℕ) → r ≡ some n → n ≡ l.ntok) → Fits line l r l = λ r result.
      record {
        tbindex = omega arith;
        tokbuf = λ x _. refl;
        arrays = λ i _. (refl, refl);
        count = λ n e. let h = result n e in (h, omega arith);
      } in
    elim (lex_round-cases p l) [
      | inl e ↦ rw (e, lex_from) (stays (some l.ntok) (λ n h. cc))
      | inr (inl e) ↦ rw (e, lex_from) (stays none (λ n h. cc))
      | inr (inr (few', e)) ↦
          rw (e, lex_from)
            (round-Fits k line (l.tbindex + length (skip_blanks p)) l (scan_token (skip_blanks p) l)
              (scan_token-RoundFits (skip_blanks p) l) (omega (arith, skip_blanks-length p)) few'
              (λ p' l' a b. lex_from-Fits k line p' l' a b))
    ]

-- more rounds after a round change nothing, where they change nothing after the next
after_round-more :
    (k more n : ℕ) (l : Lexed) (r : Round)
    → RoundFits n l r
    → ((p' : List ℕ) (l' : Lexed)
        → l'.ntok ≡ l.ntok + 1
        → lex_from (k + more) p' l' ≡ lex_from k p' l')
    → after_round (k + more) r ≡ after_round k r
after_round-more k more n l (returned r l') fits ih = refl
after_round-more k more n l (again p' l') (kept, place, count) ih = ih p' l' (omega arith)

-- each round counts a token, so the rounds are enough
lex_from-more :
    (rounds more : ℕ) (p : List ℕ) (l : Lexed)
    → l.ntok ≤ shell_maxtok
    → shell_maxtok < l.ntok + rounds
    → lex_from (rounds + more) p l ≡ lex_from rounds p l
unfolding lex_from
lex_from-more zero more p l few enough = absurd (omega arith)
lex_from-more (suc k) more p l few enough =
    let sum : suc k + more ≡ suc (k + more) = omega arith in
    elim (lex_round-cases p l) [
      | inl e ↦ rw (sum, e, lex_from) refl
      | inr (inl e) ↦ rw (sum, e, lex_from) refl
      | inr (inr (few', e)) ↦
          rw (sum, e, lex_from)
            (after_round-more k more (l.tbindex + length (skip_blanks p)) l
              (scan_token (skip_blanks p) l) (scan_token-RoundFits (skip_blanks p) l)
              (λ p' l' n. lex_from-more k more p' l' (omega arith) (omega arith)))
    ]

-- On any line, `lexan` ends within its 33 rounds: with more of them its result is the same. It writes to
-- `tokbuf` only below the length of the line plus 32, also where it refuses the line, and to the other
-- arrays only below 32; a number that it returns is that of the tokens, and at most 32.
pub lexan-Fits :
    (line : List ℕ) (l : Lexed)
    → ((more : ℕ)
        → lex_from (shell_maxtok + 1 + more) line (record l { tbindex = 0; ntok = 0 })
          ≡ lexan line l)
      × Fits line l (lexan line l).0 (lexan line l).1
unfolding lexan
lexan-Fits line l =
    let start : Lexed = record l { tbindex = 0; ntok = 0 } in
    let f = lex_from-Fits (shell_maxtok + 1) line line start (omega arith) (omega arith) in
    (
      λ more. lex_from-more (shell_maxtok + 1) more line start (omega arith) (omega arith),
      record { tbindex = f.tbindex; tokbuf = f.tokbuf; arrays = f.arrays; count = f.count },
    )
