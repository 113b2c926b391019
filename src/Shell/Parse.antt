-- ===== src/Shell/Parse.antt =====
-- The shell understands words, then redirections, then "&".
use os_virtual_mem.Prelude.{
  ℕ, suc, ◌+◌, ◌-◌, ◌<◌, ◌≤◌, ◌≡◌, refl, true, false, none, some, Option, List, [], ◌∷◌, ◌++◌, ◌==◌,
  is_some, arith, length, ap, sym, ◌∙◌,
}
use os_virtual_mem.Lexan.{shell_maxtok, lexan, Lexed, tok_amper, tok_other}
use os_virtual_mem.Lexan.Text.{amper, HoldsTokens, LineOk, write_line}
use os_virtual_mem.Lexan.Reads.{Ends, HoldsTokens-ntok, lexan-write}
use os_virtual_mem.Shell.{background, command, parse_tokens}
use os_virtual_mem.Shell.Redirect.{parse_redirects}
use os_virtual_mem.Shell.Words.{
  Spaced, AllWords, size, Redirects, no_files, from_file, to_file, from_to, to_from,
  redirect_tokens, FilesAreWords, amper_tokens, HoldsTokens-drop, words_other, start, whole, TlenOk,
  count,
}

module _ (l : Lexed) where
  module _ (n a : ℕ) (words : (j : ℕ) → j < n → l.toktyp j ≡ tok_other) where
    -- the end of the line, without "&" and with it
    end_none :
        (rs : Redirects)
        → 0 < n
        → FilesAreWords rs
        → HoldsTokens n a (redirect_tokens rs []) l
        → (l.ntok ≡ n + count rs)
          × (l.toktyp (n + count rs - 1) ≡ tok_other)
          × TlenOk l.tbindex a rs
    end_none no_files pos f h =
        let m : n + 0 - 1 < n = omega arith in (omega (arith, h.0), words (n + 0 - 1) m, h.1)
    end_none (from_file b w) pos f h =
        let m : n + 2 - 1 ≡ suc n = omega arith in (omega (arith, h.3.3.0), rw m (h.3.0 ∙ f), tt)
    end_none (to_file b w) pos f h =
        let m : n + 2 - 1 ≡ suc n = omega arith in (omega (arith, h.3.3.0), rw m (h.3.0 ∙ f), tt)
    end_none (from_to b w b' w') pos f h =
        let m : n + 4 - 1 ≡ suc (suc (suc n)) = omega arith in
        (omega (arith, h.3.3.3.3.0), rw m (h.3.3.3.0 ∙ f.1), tt)
    end_none (to_from b w b' w') pos f h =
        let m : n + 4 - 1 ≡ suc (suc (suc n)) = omega arith in
        (omega (arith, h.3.3.3.3.0), rw m (h.3.3.3.0 ∙ f.1), tt)

    end_amper :
        (b0 : List ℕ) (rs : Redirects)
        → HoldsTokens n a (redirect_tokens rs ((b0, amper) ∷ [])) l
        → (l.ntok ≡ n + count rs + 1)
          × (l.toktyp (n + count rs) ≡ tok_amper)
          × TlenOk (l.tbindex - 2) a rs
    end_amper b0 no_files h =
        let m : n + 0 ≡ n = omega arith in (omega (arith, h.3.0), rw m h.0, omega (arith, h.3.1))
    end_amper b0 (from_file b w) h =
        let m : n + 2 ≡ suc (suc n) = omega arith in (omega (arith, h.3.3.3.0), rw m h.3.3.0, tt)
    end_amper b0 (to_file b w) h =
        let m : n + 2 ≡ suc (suc n) = omega arith in (omega (arith, h.3.3.3.0), rw m h.3.3.0, tt)
    end_amper b0 (from_to b w b' w') h =
        let m : n + 4 ≡ suc (suc (suc (suc n))) = omega arith in
        (omega (arith, h.3.3.3.3.3.0), rw m h.3.3.3.3.0, tt)
    end_amper b0 (to_from b w b' w') h =
        let m : n + 4 ≡ suc (suc (suc (suc n))) = omega arith in
        (omega (arith, h.3.3.3.3.3.0), rw m h.3.3.3.3.0, tt)

  start_at : (a n : ℕ) (ts : List Spaced) → HoldsTokens (0 + n) (0 + a) ts l → HoldsTokens n a ts l
  start_at a n ts h =
      let p : 0 + n ≡ n = omega arith in let q : 0 + a ≡ a = omega arith in rw (← p, ← q) h

  background-none :
      (m k : ℕ) → m ≡ k → l.toktyp (k - 1) ≡ tok_other → background m l ≡ start k l.tbindex false
  unfolding background
  background-none m k e word = rw (e, word) refl

  background-amper :
      (m k : ℕ) → m ≡ k + 1 → l.toktyp k ≡ tok_amper → background m l ≡ start k (l.tbindex - 2) true
  unfolding background
  background-amper m k e sign = let n : k + 1 - 1 ≡ k = omega arith in rw (e, n, sign) refl

  -- Where the arrays hold one or more words, the tokens of redirections to files, and perhaps "&", the
  -- shell takes the words as arguments, which are the text before `tlen`, takes each file from the
  -- redirection with its sign, and runs the command in the background exactly if "&" is there.
  pub parse_tokens-words :
      (ws : List Spaced) (rs : Redirects) (bg : Option (List ℕ))
      → AllWords ws
      → 0 < length ws
      → FilesAreWords rs
      → HoldsTokens 0 0 (ws ++ redirect_tokens rs (amper_tokens bg)) l
      → parse_tokens (some l.ntok, l) ≡ command (whole (length ws) (size ws) rs (is_some bg))
  unfolding parse_tokens background
  parse_tokens-words ws rs none all pos f h =
      let n = length ws in
      let words : (j : ℕ) → j < n → l.toktyp j ≡ tok_other =
        λ j lt. words_other ws (redirect_tokens rs []) 0 0 l h all j (omega arith) (omega arith) in
      let g =
        start_at (size ws) n (redirect_tokens rs [])
          (HoldsTokens-drop ws (redirect_tokens rs []) 0 0 l h) in
      let (count_eq, last, t) = end_none n (size ws) words rs pos f g in
      let some_token : (l.ntok == 0) ≡ false = ground arith in
      rw (some_token, background-none l.ntok (n + count rs) count_eq last)
        (parse_redirects l n (size ws) words pos [] l.tbindex false rs f g t)
  parse_tokens-words ws rs (some b) all pos f h =
      let n = length ws in
      let ts = redirect_tokens rs ((b, amper) ∷ []) in
      let words : (j : ℕ) → j < n → l.toktyp j ≡ tok_other =
        λ j lt. words_other ws ts 0 0 l h all j (omega arith) (omega arith) in
      let g = start_at (size ws) n ts (HoldsTokens-drop ws ts 0 0 l h) in
      let (count_eq, sign, t) = end_amper n (size ws) words b rs g in
      let some_token : (l.ntok == 0) ≡ false = ground arith in
      rw (some_token, background-amper l.ntok (n + count rs) count_eq sign)
        (parse_redirects l n (size ws) words pos ((b, amper) ∷ []) (l.tbindex - 2) true rs f g t)

-- A command line of one or more words, redirections and perhaps "&", of at most 32 tokens that can stand
-- so, with blanks behind the last only if there are fewer: `lexan` and the shell between them find the
-- words as arguments, which are the text before `tlen`, the place of the name of each file, and whether
-- "&" is there.
pub parse-lexan :
    (ws : List Spaced) (rs : Redirects) (bg : Option (List ℕ)) (blanks rest : List ℕ) (l : Lexed)
    → AllWords ws
    → 0 < length ws
    → FilesAreWords rs
    → LineOk (ws ++ redirect_tokens rs (amper_tokens bg)) (blanks ++ rest)
    → length (ws ++ redirect_tokens rs (amper_tokens bg)) ≤ shell_maxtok
    → Ends (length (ws ++ redirect_tokens rs (amper_tokens bg))) blanks rest
    → (l' : Lexed) × (lexan
          (write_line (ws ++ redirect_tokens rs (amper_tokens bg)) (blanks ++ rest))
          l
        ≡ (some l'.ntok, l'))
      × (parse_tokens (some l'.ntok, l') ≡ command (whole (length ws) (size ws) rs (is_some bg)))
      × HoldsTokens 0 0 (ws ++ redirect_tokens rs (amper_tokens bg)) l'
parse-lexan ws rs bg blanks rest l all pos f ok_ts room e =
    let ts = ws ++ redirect_tokens rs (amper_tokens bg) in
    let (l', run, held) = lexan-write ts blanks rest l ok_ts room e in
    let n : l'.ntok ≡ length ts = omega (arith, HoldsTokens-ntok 0 0 ts l' held) in
    (
      l',
      run ∙ ap (λ (z : ℕ). (some z, l')) (sym n),
      parse_tokens-words l' ws rs bg all pos f held,
      held,
    )
