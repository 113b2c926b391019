-- ===== src/Lexan/Reads.antt =====
-- `lexan` reads the tokens of a line that is written from them.
use os_virtual_mem.Prelude.{
  ℕ, zero, suc, ◌+◌, ◌<◌, ◌≤◌, ◌≡◌, refl, true, false, ◌||◌, not, none, some, List, [], ◌∷◌, ◌++◌,
  ◌==◌, leb, arith, length, inl, inr, ◌⊎◌, ap, sym, ◌∙◌,
}
use mathlib.Core.Path.{subst}
use os_virtual_mem.Lexan.{
  Lexed, is_end, is_blank, is_quote, is_angle, stops_word, put_char, start_token, peek, skip_blanks,
  copy_quoted, copy_word, scan_token, again, returned, lex_round, lex_from, shell_maxtok, lexan,
  tok_other, token_type,
}
use os_virtual_mem.Lexan.Text.{
  Token, amper, less, greater, word, quoted, chars, write_token, write_line, AllChars, Writable,
  LineOk, HoldsTokens, put_chars, with_token, with_tokens, with_token-one, with_tokens-WithTokens,
}

skip_blanks-append :
    (blanks rest : List ℕ)
    → AllChars is_blank blanks
    → is_blank (peek rest) ≡ false
    → skip_blanks (blanks ++ rest) ≡ rest
unfolding skip_blanks
skip_blanks-append [] [] a h = refl
skip_blanks-append [] (c ∷ cs) a h = rw h refl
skip_blanks-append (b ∷ bs) rest a h = rw a.0 (skip_blanks-append bs rest a.1 h)

copy_word-append :
    (cs rest : List ℕ) (l : Lexed)
    → AllChars (λ d. not (stops_word d)) cs
    → stops_word (peek rest) ≡ true
    → copy_word (cs ++ rest) l ≡ (rest, put_chars cs l)
unfolding copy_word put_chars
copy_word-append [] [] l a h = refl
copy_word-append [] (c ∷ cs) l a h = rw h refl
copy_word-append (d ∷ ds) rest l a h =
    let plain : stops_word d ≡ false = ground (arith, a.0) in
    rw plain (copy_word-append ds rest (put_char d l) a.1 h)

copy_quoted-append :
    (q : ℕ) (cs rest : List ℕ) (l : Lexed)
    → AllChars (λ d. not (d == q || is_end d)) cs
    → copy_quoted q (cs ++ q ∷ rest) l ≡ (rest, put_chars cs l, true)
unfolding copy_quoted put_chars
copy_quoted-append q [] rest l a = let self : (q == q) ≡ true = ground arith in rw self refl
copy_quoted-append q (d ∷ ds) rest l a =
    let other : (d == q) ≡ false = ground (arith, a.0) in
    let inside : is_end d ≡ false = ground (arith, a.0) in
    rw (other, inside) (copy_quoted-append q ds rest (put_char d l) a.1)

-- the round that reads a token
scan_token-write :
    (t : Token) (rest : List ℕ) (l : Lexed)
    → Writable t rest
    → scan_token (write_token t rest) l ≡ again rest (with_token t l)
unfolding scan_token with_token put_chars
scan_token-write amper rest l w = refl
scan_token-write less rest l w = refl
scan_token-write greater rest l w = refl
scan_token-write (word c cs) rest l w =
    let mid : is_end c ≡ false = ground (arith, w.0) in
    let no_symbol : (c == 38 || is_angle c) ≡ false = ground (arith, w.0) in
    let no_quote : is_quote c ≡ false = ground (arith, w.0) in
    let typ : token_type c ≡ tok_other = ground (arith, w.0) in
    rw
      (
        mid,
        no_symbol,
        no_quote,
        typ,
        copy_word-append cs rest (put_char c (start_token tok_other l)) w.1 w.2,
        w.3,
      )
      refl
scan_token-write (quoted q cs) rest l w =
    let mid : is_end q ≡ false = ground (arith, w.0) in
    let no_symbol : (q == 38 || is_angle q) ≡ false = ground (arith, w.0) in
    let typ : token_type q ≡ tok_other = ground (arith, w.0) in
    rw (mid, no_symbol, w.0, typ, copy_quoted-append q cs rest (start_token tok_other l) w.1) refl

-- a token does not begin with a blank or at the end
first_char :
    (t : Token) (rest : List ℕ)
    → Writable t rest
    → (is_blank (peek (write_token t rest)) ≡ false) × (is_end (peek (write_token t rest)) ≡ false)
first_char amper rest w = (refl, refl)
first_char less rest w = (refl, refl)
first_char greater rest w = (refl, refl)
first_char (word c cs) rest w = (ground (arith, w.0), ground (arith, w.0))
first_char (quoted q cs) rest w = (ground (arith, w.0), ground (arith, w.0))

-- nor does a line that begins with blanks in front of it
not_end :
    (blanks rest : List ℕ)
    → AllChars is_blank blanks
    → is_end (peek rest) ≡ false
    → is_end (peek (blanks ++ rest)) ≡ false
not_end [] rest a h = h
not_end (b ∷ bs) rest a h = ground (arith, a.0)

lex_round-write :
    (blanks : List ℕ) (t : Token) (rest : List ℕ) (l : Lexed)
    → AllChars is_blank blanks
    → Writable t rest
    → l.ntok < shell_maxtok
    → lex_round (blanks ++ write_token t rest) l ≡ again rest (with_token t l)
unfolding lex_round
lex_round-write blanks t rest l a w room =
    let first = first_char t rest w in
    let mid = not_end blanks (write_token t rest) a first.1 in
    let below : leb shell_maxtok l.ntok ≡ false = ground arith in
    rw (mid, below, skip_blanks-append blanks (write_token t rest) a first.0)
      (scan_token-write t rest l w)

-- the round that meets the end: without blanks, or with room for one more token
abbrev pub Ends : (n : ℕ) (blanks rest : List ℕ) → Type 0
Ends n blanks rest =
    AllChars is_blank blanks × (is_end (peek rest) ≡ true) × ((blanks ≡ []) ⊎ (n < shell_maxtok))

lex_round-end :
    (blanks rest : List ℕ) (l : Lexed)
    → Ends l.ntok blanks rest
    → lex_round (blanks ++ rest) l ≡ returned (some l.ntok) l
unfolding lex_round scan_token
lex_round-end [] [] l e = refl
lex_round-end [] (c ∷ cs) l e = rw e.1 refl
lex_round-end (b ∷ bs) rest l (a, e, inl h) = cc
lex_round-end (b ∷ bs) rest l (a, e, inr room) =
    let blank = a.0 in
    let mid : is_end b ≡ false = ground arith in
    let below : leb shell_maxtok l.ntok ≡ false = ground arith in
    let no_blank : is_blank (peek rest) ≡ false = ground arith in
    rw (mid, below, skip_blanks-append (b ∷ bs) rest a no_blank) (stop rest e)
  where
    stop :
        (rest : List ℕ) → is_end (peek rest) ≡ true → scan_token rest l ≡ returned (some l.ntok) l
    stop [] e = refl
    stop (c ∷ cs) e = rw e refl

-- the rounds for all the tokens
lex_from-write :
    (rounds : ℕ) (ts : List (List ℕ × Token)) (blanks rest : List ℕ) (l : Lexed)
    → LineOk ts (blanks ++ rest)
    → length ts < rounds
    → l.ntok + length ts ≤ shell_maxtok
    → Ends (l.ntok + length ts) blanks rest
    → lex_from rounds (write_line ts (blanks ++ rest)) l
      ≡ (some (with_tokens ts l).ntok, with_tokens ts l)
unfolding lex_from with_tokens
lex_from-write zero ts blanks rest l ok_ts enough room e = absurd (omega arith)
lex_from-write (suc k) [] blanks rest l ok_ts enough room e =
    let n : l.ntok + 0 ≡ l.ntok = omega arith in
    rw (lex_round-end blanks rest l (rw n at e), lex_from) refl
lex_from-write (suc k) ((b, t) ∷ ts) blanks rest l (a, w, ok_ts) enough room e =
    let n : (with_token t l).ntok ≡ l.ntok + 1 = (with_token-one t l (with_token t l) refl).0 in
    let more : length ts < k = omega (arith, enough) in
    let fits : (with_token t l).ntok + length ts ≤ shell_maxtok = omega (arith, n, room) in
    let sum : l.ntok + suc (length ts) ≡ (with_token t l).ntok + length ts = omega arith in
    let e' : Ends ((with_token t l).ntok + length ts) blanks rest =
      subst (λ (z : ℕ). Ends z blanks rest) sum e in
    rw (lex_round-write b t (write_line ts (blanks ++ rest)) l a w (omega arith), lex_from)
      (lex_from-write k ts blanks rest (with_token t l) ok_ts more fits e')

pub HoldsTokens-ntok :
    (i a : ℕ) (ts : List (List ℕ × Token)) (l : Lexed)
    → HoldsTokens i a ts l
    → l.ntok ≡ i + length ts
HoldsTokens-ntok i a [] l h = omega (arith, h.0)
HoldsTokens-ntok i a ((_, t) ∷ ts) l h =
    omega (arith, HoldsTokens-ntok (suc i) (a + length (chars t) + 1) ts l h.3)

-- A line that is written from at most 32 tokens that can stand so, each with blanks before it: with
-- blanks behind the last only if there are fewer than 32, `lexan` returns their number, and the arrays
-- hold the kind, the place and the characters of each, one behind the other.
pub lexan-write :
    (ts : List (List ℕ × Token)) (blanks rest : List ℕ) (l : Lexed)
    → LineOk ts (blanks ++ rest)
    → length ts ≤ shell_maxtok
    → Ends (length ts) blanks rest
    → (l' : Lexed) × (lexan (write_line ts (blanks ++ rest)) l ≡ (some (length ts), l'))
      × HoldsTokens 0 0 ts l'
unfolding lexan
lexan-write ts blanks rest l ok_ts room e =
    let start : Lexed = record l { tbindex = 0; ntok = 0 } in
    let zero_more : 0 + length ts ≡ length ts = omega arith in
    let held = (with_tokens-WithTokens ts start).holds in
    let count = HoldsTokens-ntok 0 0 ts (with_tokens ts start) held in
    (
      with_tokens ts start,
      lex_from-write (shell_maxtok + 1) ts blanks rest start ok_ts (omega arith) (omega arith)
            (subst (λ (z : ℕ). Ends z blanks rest) (sym zero_more) e)
          ∙ ap (λ (z : ℕ). (some z, with_tokens ts start)) (count ∙ zero_more),
      held,
    )

lex_round-full :
    (b : ℕ) (cs : List ℕ) (l : Lexed)
    → is_blank b ≡ true
    → l.ntok ≡ shell_maxtok
    → lex_round (b ∷ cs) l ≡ returned none l
unfolding lex_round
lex_round-full b cs l blank full =
    let mid : is_end b ≡ false = ground arith in
    let above : leb shell_maxtok l.ntok ≡ true = ground arith in rw (mid, above) refl

lex_from-full :
    (rounds : ℕ) (ts : List (List ℕ × Token)) (b : ℕ) (rest : List ℕ) (l : Lexed)
    → LineOk ts (b ∷ rest)
    → length ts < rounds
    → l.ntok + length ts ≡ shell_maxtok
    → is_blank b ≡ true
    → (lex_from rounds (write_line ts (b ∷ rest)) l).0 ≡ none
unfolding lex_from
lex_from-full zero ts b rest l ok_ts enough full blank = absurd (omega arith)
lex_from-full (suc k) [] b rest l ok_ts enough full blank =
    rw (lex_round-full b rest l blank (omega arith), lex_from) refl
lex_from-full (suc k) ((bs, t) ∷ ts) b rest l (a, w, ok_ts) enough full blank =
    let n : (with_token t l).ntok ≡ l.ntok + 1 = (with_token-one t l (with_token t l) refl).0 in
    let more : length ts < k = omega (arith, enough) in
    let full' : (with_token t l).ntok + length ts ≡ shell_maxtok = omega (arith, n, full) in
    rw (lex_round-write bs t (write_line ts (b ∷ rest)) l a w (omega arith), lex_from)
      (lex_from-full k ts b rest (with_token t l) ok_ts more full' blank)

-- A line that is written from exactly 32 tokens is refused if a blank follows the last of them.
pub lexan-full :
    (ts : List (List ℕ × Token)) (b : ℕ) (rest : List ℕ) (l : Lexed)
    → LineOk ts (b ∷ rest)
    → length ts ≡ shell_maxtok
    → is_blank b ≡ true
    → (lexan (write_line ts (b ∷ rest)) l).0 ≡ none
unfolding lexan
lexan-full ts b rest l ok_ts full blank =
    lex_from-full (shell_maxtok + 1) ts b rest (record l { tbindex = 0; ntok = 0 }) ok_ts
      (omega arith) (omega arith) blank
