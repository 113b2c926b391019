-- ===== src/Lexan/Text.antt =====
-- What a command line says: tokens with blanks between them, and how the arrays hold them.
use os_virtual_mem.Prelude.{
  ℕ, suc, ◌+◌, ◌<◌, ◌≡◌, refl, Bool, true, false, ◌||◌, not, List, [], ◌∷◌, ◌++◌, ◌==◌, arith,
  length, ap, ◌∙◌,
}
use os_virtual_mem.Names.{Chars}
use os_virtual_mem.Lexan.{
  Lexed, is_end, is_blank, is_quote, is_angle, stops_word, put_char, start_token, end_token,
  tok_amper, tok_less, tok_greater, tok_other, peek,
}

pub data Token : Type 0 where
  amper less greater : Token
  word : ℕ → List ℕ → Token
  quoted : (quote : ℕ) → List ℕ → Token

-- what the buffer holds of a token
abbrev pub chars : Token → List ℕ
chars amper = 38 ∷ []
chars less = 60 ∷ []
chars greater = 62 ∷ []
chars (word c cs) = c ∷ cs
chars (quoted q cs) = cs

abbrev pub kind : Token → ℕ
kind amper = tok_amper
kind less = tok_less
kind greater = tok_greater
kind (word c cs) = tok_other
kind (quoted q cs) = tok_other

-- how a token is written, in front of what follows
abbrev pub write_token : Token → List ℕ → List ℕ
write_token amper rest = 38 ∷ rest
write_token less rest = 60 ∷ rest
write_token greater rest = 62 ∷ rest
write_token (word c cs) rest = c ∷ (cs ++ rest)
write_token (quoted q cs) rest = q ∷ (cs ++ q ∷ rest)

-- the tokens, each behind its blanks
abbrev pub write_line : List (List ℕ × Token) → List ℕ → List ℕ
write_line [] rest = rest
write_line ((blanks, t) ∷ ts) rest = blanks ++ write_token t (write_line ts rest)

abbrev pub AllChars : (ℕ → Bool) → List ℕ → Type 0
AllChars f [] = Unit
AllChars f (c ∷ cs) = (f c ≡ true) × AllChars f cs

-- A token that can be written, in front of `rest`: a word has only characters of words, and ends at a
-- blank, at "&" or at the end of the line; a quoted string does not hold its quote.
abbrev pub Writable : Token → List ℕ → Type 0
Writable amper rest = Unit
Writable less rest = Unit
Writable greater rest = Unit
Writable (word c cs) rest =
    (stops_word c ≡ false)
    × AllChars (λ d. not (stops_word d)) cs
    × (stops_word (peek rest) ≡ true)
    × ((is_quote (peek rest) || is_angle (peek rest)) ≡ false)
Writable (quoted q cs) rest = (is_quote q ≡ true) × AllChars (λ d. not (d == q || is_end d)) cs

abbrev pub LineOk : List (List ℕ × Token) → List ℕ → Type 0
LineOk [] rest = Unit
LineOk ((blanks, t) ∷ ts) rest =
    AllChars is_blank blanks × Writable t (write_line ts rest) × LineOk ts rest

-- the characters from index `a` on, and a NULLCH
abbrev pub TextAt : Chars → ℕ → List ℕ → Type 0
TextAt buf a [] = buf a ≡ 0
TextAt buf a (c ∷ cs) = (buf a ≡ c) × TextAt buf (a + 1) cs

-- The arrays hold the tokens, the first of them as number `i` at index `a`, and nothing else.
abbrev pub HoldsTokens : (i a : ℕ) → List (List ℕ × Token) → Lexed → Type 0
HoldsTokens i a [] l = (l.ntok ≡ i) × (l.tbindex ≡ a)
HoldsTokens i a ((_, t) ∷ ts) l =
    (l.toktyp i ≡ kind t)
    × (l.tok i ≡ a)
    × TextAt l.tokbuf a (chars t)
    × HoldsTokens (suc i) (a + length (chars t) + 1) ts l

-- the characters of a token put into the buffer
unfoldable pub put_chars : List ℕ → Lexed → Lexed
put_chars [] l = l
put_chars (c ∷ cs) l = put_chars cs (put_char c l)

-- the state with one more token
unfoldable pub with_token : Token → Lexed → Lexed
unfolding put_chars
with_token t l = end_token (put_chars (chars t) (start_token (kind t) l))

unfoldable pub with_tokens : List (List ℕ × Token) → Lexed → Lexed
with_tokens [] l = l
with_tokens ((_, t) ∷ ts) l = with_tokens ts (with_token t l)

-- What the characters of a token change.
record PutChars (cs : List ℕ) (l l' : Lexed) : Type 0 where
  tbindex : l'.tbindex ≡ l.tbindex + length cs
  below : (x : ℕ) → x < l.tbindex → l'.tokbuf x ≡ l.tokbuf x
  tok : l'.tok ≡ l.tok
  toktyp : l'.toktyp ≡ l.toktyp
  ntok : l'.ntok ≡ l.ntok
  text :
      (buf : Chars)
      → ((x : ℕ) → x < l'.tbindex → buf x ≡ l'.tokbuf x)
      → buf l'.tbindex ≡ 0
      → TextAt buf l.tbindex cs

put_chars-PutChars : (cs : List ℕ) (l : Lexed) → PutChars cs l (put_chars cs l)
unfolding put_chars
put_chars-PutChars [] l = record {
  tbindex = omega arith;
  below = λ x lt. refl;
  tok = refl;
  toktyp = refl;
  ntok = refl;
  text = λ buf same h. h;
}
put_chars-PutChars (c ∷ cs) l =
    let ih = put_chars-PutChars cs (put_char c l) in
    record {
      tbindex = omega (arith, ih.tbindex);
      below = λ x lt. ih.below x (omega arith) ∙ ground arith;
      tok = ih.tok;
      toktyp = ih.toktyp;
      ntok = ih.ntok;
      text = λ buf same h. (
        same l.tbindex (omega (arith, ih.tbindex))
            ∙ ih.below l.tbindex (omega arith)
            ∙ ground arith,
        ih.text buf same h,
      );
    }

-- the text below `a + length cs + 1` decides
TextAt-same :
    (buf buf' : Chars) (a : ℕ) (cs : List ℕ)
    → ((x : ℕ) → x < a + length cs + 1 → buf' x ≡ buf x)
    → TextAt buf a cs
    → TextAt buf' a cs
TextAt-same buf buf' a [] same t = same a (omega arith) ∙ t
TextAt-same buf buf' a (c ∷ cs) same t =
    (same a (omega arith) ∙ t.0, TextAt-same buf buf' (a + 1) cs (λ x lt. same x (omega arith)) t.1)

HoldsTokens-same :
    (i i' a a' : ℕ) (ts : List (List ℕ × Token)) (l : Lexed)
    → i ≡ i'
    → a ≡ a'
    → HoldsTokens i a ts l
    → HoldsTokens i' a' ts l
HoldsTokens-same i i' a a' ts l p q h = rw (← p, ← q) h

pub record WithTokens (ts : List (List ℕ × Token)) (l l' : Lexed) : Type 0 where
  below : (x : ℕ) → x < l.tbindex → l'.tokbuf x ≡ l.tokbuf x
  tok : (i : ℕ) → i < l.ntok → l'.tok i ≡ l.tok i
  toktyp : (i : ℕ) → i < l.ntok → l'.toktyp i ≡ l.toktyp i
  pub holds : HoldsTokens l.ntok l.tbindex ts l'

pub with_token-one :
    (t : Token) (l : Lexed) (l' : Lexed)
    → with_token t l ≡ l'
    → (l'.ntok ≡ l.ntok + 1)
      × (l'.tbindex ≡ l.tbindex + length (chars t) + 1)
      × ((x : ℕ) → x < l.tbindex → l'.tokbuf x ≡ l.tokbuf x)
      × ((i : ℕ) → i < l.ntok → (l'.tok i ≡ l.tok i) × (l'.toktyp i ≡ l.toktyp i))
      × (l'.tok l.ntok ≡ l.tbindex)
      × (l'.toktyp l.ntok ≡ kind t)
      × TextAt l'.tokbuf l.tbindex (chars t)
unfolding with_token
with_token-one t l l' e =
    let l1 = start_token (kind t) l in
    let p = put_chars-PutChars (chars t) l1 in
    rw (← e) (
      ap (λ (n : ℕ). n + 1) p.ntok,
      omega (arith, p.tbindex),
      λ x lt. ground (arith, p.tbindex, p.below x lt),
      λ i lt. (
        ap (λ (f : ℕ → ℕ). f i) p.tok ∙ ground arith,
        ap (λ (f : ℕ → ℕ). f i) p.toktyp ∙ ground arith,
      ),
      ap (λ (f : ℕ → ℕ). f l.ntok) p.tok ∙ ground arith,
      ap (λ (f : ℕ → ℕ). f l.ntok) p.toktyp ∙ ground arith,
      p.text (end_token (put_chars (chars t) l1)).tokbuf (λ x lt. ground arith) (ground arith),
    )

pub with_tokens-WithTokens :
    (ts : List (List ℕ × Token)) (l : Lexed) → WithTokens ts l (with_tokens ts l)
unfolding with_tokens
with_tokens-WithTokens [] l = record {
  below = λ x lt. refl;
  tok = λ i lt. refl;
  toktyp = λ i lt. refl;
  holds = (refl, refl);
}
with_tokens-WithTokens ((b, t) ∷ ts) l =
    let one = with_token-one t l (with_token t l) refl in
    let ih = with_tokens-WithTokens ts (with_token t l) in
    record {
      below = λ x lt. ih.below x (omega (arith, one.1)) ∙ one.2 x lt;
      tok = λ i lt. ih.tok i (omega (arith, one.0)) ∙ (one.3 i lt).0;
      toktyp = λ i lt. ih.toktyp i (omega (arith, one.0)) ∙ (one.3 i lt).1;
      holds = (
        ih.toktyp l.ntok (omega (arith, one.0)) ∙ one.5,
        ih.tok l.ntok (omega (arith, one.0)) ∙ one.4,
        TextAt-same (with_token t l).tokbuf (with_tokens ts (with_token t l)).tokbuf l.tbindex
            (chars t) (λ x lt. ih.below x (omega (arith, one.1))) one.6,
        HoldsTokens-same (with_token t l).ntok (suc l.ntok) (with_token t l).tbindex
            (l.tbindex + length (chars t) + 1) ts (with_tokens ts (with_token t l))
            (omega (arith, one.0)) one.1 ih.holds,
      );
    }
