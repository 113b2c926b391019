-- ===== src/Lexan.antt =====
-- xinu/shell/lexan.c: the lexical analyser of the shell. The line is the list of its characters up to its
-- NULLCH, and a pointer into it is the list of those that are left; 0 is read at its end. `tokbuf`,
-- `tok` and `toktyp` are functions from indices, and `tbindex` is what `*tlen` is assigned.
pub mod Text
pub mod Copies
pub mod Fits
pub mod Reads
use os_virtual_mem.Prelude.{
  ℕ, zero, suc, ◌+◌, Bool, true, false, ◌||◌, ◌&&◌, not, Option, none, some, List, [], ◌∷◌, ◌==◌,
  leb, if◌then◌else◌,
}
use os_virtual_mem.Names.{Chars}

-- `SHELL_MAXTOK`
abbrev pub shell_maxtok : ℕ
shell_maxtok = 32

-- `SH_TOK_AMPER` to `SH_TOK_OTHER`
abbrev pub tok_amper : ℕ
tok_amper = 0

abbrev pub tok_less : ℕ
tok_less = 1

abbrev pub tok_greater : ℕ
tok_greater = 2

abbrev pub tok_other : ℕ
tok_other = 3

-- The arrays that `lexan` fills, and its variables `tbindex` and `ntok`.
pub record Lexed : Type 0 where
  pub tokbuf : Chars
  pub tbindex : ℕ
  pub tok : ℕ → ℕ
  pub toktyp : ℕ → ℕ
  pub ntok : ℕ

-- `*p`
abbrev pub peek : List ℕ → ℕ
peek [] = 0
peek (c ∷ _) = c

-- `NULLCH` or `SH_NEWLINE`
abbrev pub is_end : ℕ → Bool
is_end c = c == 0 || c == 10

-- `SH_BLANK` or `SH_TAB`
abbrev pub is_blank : ℕ → Bool
is_blank c = c == 32 || c == 9

-- `SH_SQUOTE` or `SH_DQUOTE`
abbrev pub is_quote : ℕ → Bool
is_quote c = c == 39 || c == 34

-- `SH_LESS` or `SH_GREATER`
abbrev pub is_angle : ℕ → Bool
is_angle c = c == 60 || c == 62

-- what ends a token that is not quoted
abbrev pub stops_word : ℕ → Bool
stops_word c = is_end c || is_angle c || is_blank c || c == 38 || is_quote c

abbrev pub set_at : (ℕ → ℕ) → ℕ → ℕ → ℕ → ℕ
set_at f i v j = if j == i then v else f j

-- `tokbuf[tbindex++] = ch`
abbrev pub put_char : ℕ → Lexed → Lexed
put_char c l = record l { tokbuf = set_at l.tokbuf l.tbindex c; tbindex = l.tbindex + 1 }

-- `tok[ntok] = tbindex` and `toktyp[ntok] = …`
abbrev pub start_token : ℕ → Lexed → Lexed
start_token typ l = record l {
  tok = set_at l.tok l.ntok l.tbindex;
  toktyp = set_at l.toktyp l.ntok typ;
}

-- `tokbuf[tbindex++] = NULLCH` and `ntok++`
abbrev pub end_token : Lexed → Lexed
end_token l = record (put_char 0 l) { ntok = l.ntok + 1 }

-- The type of the token that the character begins, in the order of the cases of the `switch`.
abbrev pub token_type : ℕ → ℕ
token_type c =
    if c == 38
    then tok_amper
    else if c == 60
    then tok_less
    else if c == 62
    then tok_greater
    else tok_other

-- `while ( (*p == SH_BLANK) || (*p == SH_TAB) ) p++`
unfoldable pub skip_blanks : List ℕ → List ℕ
skip_blanks [] = []
skip_blanks (c ∷ cs) = let rest = skip_blanks cs in if is_blank c then rest else c ∷ cs

-- The loop over a quoted string: what is left of the line, what has been copied, and whether it ended
-- at the quote.
unfoldable pub copy_quoted : (quote : ℕ) → List ℕ → Lexed → List ℕ × Lexed × Bool
copy_quoted quote [] l = ([], l, false)
copy_quoted quote (c ∷ cs) l =
    let rest = copy_quoted quote cs (put_char c l) in
    if c == quote then (cs, l, true) else if is_end c then (cs, l, false) else rest

-- The loop over a token that is not quoted.
unfoldable pub copy_word : List ℕ → Lexed → List ℕ × Lexed
copy_word [] l = ([], l)
copy_word (c ∷ cs) l =
    let rest = copy_word cs (put_char c l) in if stops_word c then (c ∷ cs, l) else rest

-- What one round of the main loop comes to: the number of tokens or `SYSERR`, or another round.
pub data Round : Type 0 where
  returned : Option ℕ → Lexed → Round
  again : List ℕ → Lexed → Round

abbrev pub after_quoted : List ℕ × Lexed × Bool → Round
after_quoted (p, l, closed) = if closed then again p (end_token l) else returned none l

-- "Report error if other token is appended"
abbrev pub after_word : List ℕ × Lexed → Round
after_word (p, l) =
    if is_quote (peek p) || is_angle (peek p) then returned none l else again p (end_token l)

-- the round from the first character of the token on
unfoldable pub scan_token : List ℕ → Lexed → Round
unfolding copy_quoted copy_word
scan_token [] l = returned (some l.ntok) l
scan_token (c ∷ cs) l =
    let l1 = start_token (token_type c) l in
    if is_end c
    then returned (some l.ntok) l
    else if c == 38 || is_angle c
    then again cs (end_token (put_char c l1))
    else if is_quote c
    then after_quoted (copy_quoted c cs l1)
    else after_word (copy_word cs (put_char c l1))

-- one round of the main loop
unfoldable pub lex_round : List ℕ → Lexed → Round
unfolding skip_blanks scan_token
lex_round p l =
    if is_end (peek p)
    then returned (some l.ntok) l
    else if leb shell_maxtok l.ntok
    then returned none l
    else scan_token (skip_blanks p) l

-- The main loop, with `rounds` rounds left.
unfoldable pub lex_from : (rounds : ℕ) → List ℕ → Lexed → Option ℕ × Lexed
lex_from zero p l = (none, l)
lex_from (suc k) p l = elim (lex_round p l) [
  | returned r l' ↦ (r, l')
  | again p' l' ↦ lex_from k p' l'
]

-- `lexan`: each round but the last counts a token, and with `SHELL_MAXTOK` of them it returns.
unfoldable pub lexan : List ℕ → Lexed → Option ℕ × Lexed
unfolding lex_from
lexan line l = lex_from (shell_maxtok + 1) line (record l { tbindex = 0; ntok = 0 })
