-- ===== src/Lexan/Copies.antt =====
-- What one token copies to the buffer of `lexan`, and where.
use os_virtual_mem.Prelude.{
  ℕ, ◌+◌, ◌<◌, ◌≤◌, ◌≡◌, ◌≢◌, refl, ◌||◌, none, some, List, [], ◌∷◌, ◌==◌, arith, length,
  Bool-cases, inl, inr, ap, ◌∙◌,
}
use os_virtual_mem.Lexan.{
  Lexed, is_end, is_quote, is_angle, stops_word, put_char, start_token, end_token, peek,
  skip_blanks, copy_quoted, copy_word, scan_token, Round, again, returned, token_type,
}

-- A loop that copies characters: what is left of the line and the place in the buffer, and nothing is
-- written where the line would not have reached.
record Copies (p p' : List ℕ) (l l' : Lexed) : Type 0 where
  bound : l'.tbindex + length p' ≤ l.tbindex + length p
  outside : (x : ℕ) → l.tbindex + length p ≤ x → l'.tokbuf x ≡ l.tokbuf x
  tok : l'.tok ≡ l.tok
  toktyp : l'.toktyp ≡ l.toktyp
  ntok : l'.ntok ≡ l.ntok

Copies-one :
    (c : ℕ) (cs p' : List ℕ) (l l' : Lexed)
    → Copies cs p' (put_char c l) l'
    → Copies (c ∷ cs) p' l l'
Copies-one c cs p' l l' h = record {
  bound = omega (arith, h.bound);
  outside = λ x le. h.outside x (omega arith) ∙ ground arith;
  tok = h.tok;
  toktyp = h.toktyp;
  ntok = h.ntok;
}

Copies-none : (p p' : List ℕ) (l : Lexed) → length p' ≤ length p → Copies p p' l l
Copies-none p p' l le = record {
  bound = omega arith;
  outside = λ x _. refl;
  tok = refl;
  toktyp = refl;
  ntok = refl;
}

copy_word-Copies : (p : List ℕ) (l : Lexed) → Copies p (copy_word p l).0 l (copy_word p l).1
unfolding copy_word
copy_word-Copies [] l = Copies-none [] [] l (omega arith)
copy_word-Copies (c ∷ cs) l = elim (Bool-cases (stops_word c)) [
  | inl h ↦ rw h (Copies-none (c ∷ cs) (c ∷ cs) l (omega arith))
  | inr h ↦ rw h (
      Copies-one c cs (copy_word cs (put_char c l)).0 l (copy_word cs (put_char c l)).1
        (copy_word-Copies cs (put_char c l)))
]

copy_quoted-Copies :
    (q : ℕ) (p : List ℕ) (l : Lexed) → Copies p (copy_quoted q p l).0 l (copy_quoted q p l).1
unfolding copy_quoted
copy_quoted-Copies q [] l = Copies-none [] [] l (omega arith)
copy_quoted-Copies q (c ∷ cs) l = elim (Bool-cases (c == q)) [
  | inl h ↦ rw h (Copies-none (c ∷ cs) cs l (omega arith))
  | inr h ↦ elim (Bool-cases (is_end c)) [
    | inl e ↦ rw (h, e) (Copies-none (c ∷ cs) cs l (omega arith))
    | inr e ↦
        rw (h, e)
          (Copies-one c cs (copy_quoted q cs (put_char c l)).0 l (copy_quoted q cs (put_char c l)).1
            (copy_quoted-Copies q cs (put_char c l)))
  ]
]

-- What a round may do to the arrays.
pub record Kept (n : ℕ) (l l' : Lexed) : Type 0 where
  pub outside : (x : ℕ) → n < x → l'.tokbuf x ≡ l.tokbuf x
  pub arrays : (i : ℕ) → i ≢ l.ntok → (l'.tok i ≡ l.tok i) × (l'.toktyp i ≡ l.toktyp i)

abbrev pub RoundFits : (n : ℕ) → Lexed → Round → Type 0
RoundFits n l (returned r l') =
    Kept n l l' × (l'.tbindex ≤ n) × (l'.ntok ≡ l.ntok) × ((m : ℕ) → r ≡ some m → m ≡ l.ntok)
RoundFits n l (again p' l') =
    Kept n l l' × (l'.tbindex + length p' ≤ n + 1) × (l'.ntok ≡ l.ntok + 1)

pub skip_blanks-length : (p : List ℕ) → length (skip_blanks p) ≤ length p
unfolding skip_blanks
skip_blanks-length [] = omega arith
skip_blanks-length (c ∷ cs) = ground (arith, skip_blanks-length cs)

-- a token that has been copied, as the round leaves it
copied-Kept :
    (typ : ℕ) (p p' : List ℕ) (l l' : Lexed)
    → Copies p p' (start_token typ l) l'
    → Kept (l.tbindex + length p) l l' × Kept (l.tbindex + length p) l (end_token l')
copied-Kept typ p p' l l' h =
    let b = h.bound in
    let arrays : (i : ℕ) → i ≢ l.ntok → (l'.tok i ≡ l.tok i) × (l'.toktyp i ≡ l.toktyp i) =
      λ i ne. (ground (arith, h.tok), ground (arith, h.toktyp)) in
    (
      record { outside = λ x lt. h.outside x (omega arith); arrays = arrays },
      record { outside = λ x lt. ground (arith, h.outside x); arrays = arrays },
    )

Copies-skip : (c : ℕ) (cs p' : List ℕ) (l l' : Lexed) → Copies cs p' l l' → Copies (c ∷ cs) p' l l'
Copies-skip c cs p' l l' h = record {
  bound = omega (arith, h.bound);
  outside = λ x le. h.outside x (omega arith);
  tok = h.tok;
  toktyp = h.toktyp;
  ntok = h.ntok;
}

-- the end of a round that has copied a token
again-RoundFits :
    (typ : ℕ) (p p' : List ℕ) (l l' : Lexed)
    → Copies p p' (start_token typ l) l'
    → RoundFits (l.tbindex + length p) l (again p' (end_token l'))
again-RoundFits typ p p' l l' h =
    ((copied-Kept typ p p' l l' h).1, omega (arith, h.bound), ap (λ (n : ℕ). n + 1) h.ntok)

stop-RoundFits :
    (typ : ℕ) (p p' : List ℕ) (l l' : Lexed)
    → Copies p p' (start_token typ l) l'
    → RoundFits (l.tbindex + length p) l (returned none l')
stop-RoundFits typ p p' l l' h =
    ((copied-Kept typ p p' l l' h).0, omega (arith, h.bound), h.ntok, λ m e. cc)

same-RoundFits : (n : ℕ) (l : Lexed) → l.tbindex ≤ n → RoundFits n l (returned (some l.ntok) l)
same-RoundFits n l le =
    (record { outside = λ x _. refl; arrays = λ i _. (refl, refl) }, le, refl, λ m e. cc)

pub scan_token-RoundFits :
    (p : List ℕ) (l : Lexed) → RoundFits (l.tbindex + length p) l (scan_token p l)
unfolding scan_token
scan_token-RoundFits [] l = same-RoundFits (l.tbindex + 0) l (omega arith)
scan_token-RoundFits (c ∷ cs) l =
    let typ = token_type c in
    let l1 = start_token typ l in
    let n = l.tbindex + length (c ∷ cs) in
    elim (Bool-cases (is_end c)) [
      | inl e ↦ rw e (same-RoundFits n l (omega arith))
      | inr e ↦ elim (Bool-cases (c == 38 || is_angle c)) [
        | inl s ↦
            rw (e, s)
              (again-RoundFits typ (c ∷ cs) cs l (put_char c l1) (
                Copies-one c cs cs l1 (put_char c l1)
                  (Copies-none cs cs (put_char c l1) (omega arith))))
        | inr s ↦ elim (Bool-cases (is_quote c)) [
          | inl q ↦
              let r = copy_quoted c cs l1 in
              let h = Copies-skip c cs r.0 l1 r.1 (copy_quoted-Copies c cs l1) in
              elim (Bool-cases r.2) [
                | inl closed ↦ rw (e, s, q, closed) (again-RoundFits typ (c ∷ cs) r.0 l r.1 h)
                | inr open_end ↦ rw (e, s, q, open_end) (stop-RoundFits typ (c ∷ cs) r.0 l r.1 h)
              ]
          | inr q ↦
              let r = copy_word cs (put_char c l1) in
              let h = Copies-one c cs r.0 l1 r.1 (copy_word-Copies cs (put_char c l1)) in
              elim (Bool-cases (is_quote (peek r.0) || is_angle (peek r.0))) [
                | inl bad ↦ rw (e, s, q, bad) (stop-RoundFits typ (c ∷ cs) r.0 l r.1 h)
                | inr good ↦ rw (e, s, q, good) (again-RoundFits typ (c ∷ cs) r.0 l r.1 h)
              ]
        ]
      ]
    ]
