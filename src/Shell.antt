-- ===== src/Shell.antt =====
-- xinu/shell/shell.c: how the shell reads a command from the tokens of a line, and finds it in the table
-- of commands. A pointer into `tokbuf` is the index there, and `NULL` is `none`.
pub mod Words
pub mod Redirect
pub mod Parse
pub mod Find
use os_virtual_mem.Prelude.{
  ℕ, zero, suc, ◌+◌, ◌-◌, Bool, true, false, ◌&&◌, ◌||◌, not, Option, none, some, List, [], ◌∷◌,
  ◌==◌, ltb, leb, is_some, if◌then◌else◌,
}
use os_virtual_mem.Names.{Chars}
use os_virtual_mem.Lexan.{Lexed, tok_amper, tok_less, tok_greater, tok_other}

-- The variables that describe a command: `ntok`, `tlen`, `inname`, `outname` and `backgnd`.
pub record Command : Type 0 where
  pub nargs : ℕ
  pub tlen : ℕ
  pub inname : Option ℕ
  pub outname : Option ℕ
  pub backgnd : Bool

-- "If last token is '&', set background"
unfoldable pub background : (ntok : ℕ) → Lexed → Command
background ntok l =
    if l.toktyp (ntok - 1) == tok_amper
    then record {
      nargs = ntok - 1;
      tlen = l.tbindex - 2;
      inname = none;
      outname = none;
      backgnd = true;
    }
    else record { nargs = ntok; tlen = l.tbindex; inname = none; outname = none; backgnd = false }

abbrev pub is_redirect : ℕ → Bool
is_redirect typ = typ == tok_less || typ == tok_greater

-- One redirection at the end. The code has this twice; the first time it does not test `inname` and
-- `outname`, which are `NULL` there.
unfoldable pub redirection : Lexed → Command → Option Command
redirection l c =
    let kept = record c { nargs = c.nargs - 2; tlen = l.tok (c.nargs - 2) } in
    if leb 3 c.nargs && is_redirect (l.toktyp (c.nargs - 2))
    then (if not (l.toktyp (c.nargs - 1) == tok_other)
        then none
        else if l.toktyp (c.nargs - 2) == tok_less
        then (if is_some c.inname
            then none
            else some (record kept { inname = some (l.tok (c.nargs - 1)) }))
        else if is_some c.outname
        then none
        else some (record kept { outname = some (l.tok (c.nargs - 1)) }))
    else some c

-- "Verify remaining tokens are type 'other'": the first `n` are.
unfoldable pub all_other : Lexed → (n : ℕ) → Bool
all_other l zero = true
all_other l (suc k) = let rest = all_other l k in rest && l.toktyp k == tok_other

pub data Parsed : Type 0 where
  empty_line : Parsed
  syntax_error : Parsed
  command : Command → Parsed

unfoldable pub check_words : Lexed → Command → Parsed
unfolding all_other
check_words l c = if c.nargs == 0 || not (all_other l c.nargs) then syntax_error else command c

abbrev pub parse_from : Lexed → Option Command → Parsed
parse_from l none = syntax_error
parse_from l (some c) = elim (redirection l c) [ none ↦ syntax_error | some c' ↦ check_words l c' ]

-- From the result of `lexan` to the command.
unfoldable pub parse_tokens : Option ℕ × Lexed → Parsed
unfolding background redirection check_words
parse_tokens (none, l) = syntax_error
parse_tokens (some ntok, l) =
    if ntok == 0 then empty_line else parse_from l (redirection l (background ntok l))

-- The comparison of a command's name with the text at `cmp`.
unfoldable pub same_name : (src : List ℕ) → Chars → (cmp : ℕ) → Bool
same_name [] tokbuf cmp = tokbuf cmp == 0
same_name (c ∷ cs) tokbuf cmp =
    let rest = same_name cs tokbuf (cmp + 1) in if tokbuf cmp == c then rest else false

-- "Lookup first token in the command table", from command `j` on: `none` if there is none.
unfoldable pub find_command : (names : List (List ℕ)) (j : ℕ) → Chars → Option ℕ
unfolding same_name
find_command [] j tokbuf = none
find_command (name ∷ names) j tokbuf =
    let rest = find_command names (j + 1) tokbuf in if same_name name tokbuf 0 then some j else rest
