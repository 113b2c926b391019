-- ===== src/Shell/Redirect.antt =====
-- The redirections at the end of a command are taken off one by one, and words are left.
use os_virtual_mem.Prelude.{
  ℕ, zero, suc, ◌+◌, ◌-◌, ◌<◌, ◌≤◌, ◌≡◌, refl, Bool, true, false, none, some, List, ◌==◌, leb,
  arith, length, Bool-cases, inl, inr, ◌∙◌,
}
use os_virtual_mem.Lexan.{Lexed, tok_less, tok_greater, tok_other}
use os_virtual_mem.Lexan.Text.{chars, HoldsTokens}
use os_virtual_mem.Shell.{Command, redirection, all_other, command, check_words, parse_from}
use os_virtual_mem.Shell.Words.{
  Spaced, Redirects, no_files, from_file, to_file, from_to, to_from, redirect_tokens, FilesAreWords,
  start, whole, TlenOk, count,
}

module _ (l : Lexed) where
  redirection-in :
      (c : Command) (k : ℕ)
      → c.nargs ≡ k + 2
      → 0 < k
      → l.toktyp k ≡ tok_less
      → l.toktyp (k + 1) ≡ tok_other
      → c.inname ≡ none
      → redirection l c
        ≡ some (record c { nargs = k; tlen = l.tok k; inname = some (l.tok (k + 1)) })
  unfolding redirection
  redirection-in c k n pos sign word free =
      let m2 : k + 2 - 2 ≡ k = omega arith in
      let m1 : k + 2 - 1 ≡ k + 1 = omega arith in
      let three : leb 3 (k + 2) ≡ true = ground arith in
      rw (n, m2, m1, three, sign, word, free) refl

  redirection-out :
      (c : Command) (k : ℕ)
      → c.nargs ≡ k + 2
      → 0 < k
      → l.toktyp k ≡ tok_greater
      → l.toktyp (k + 1) ≡ tok_other
      → c.outname ≡ none
      → redirection l c
        ≡ some (record c { nargs = k; tlen = l.tok k; outname = some (l.tok (k + 1)) })
  unfolding redirection
  redirection-out c k n pos sign word free =
      let m2 : k + 2 - 2 ≡ k = omega arith in
      let m1 : k + 2 - 1 ≡ k + 1 = omega arith in
      let three : leb 3 (k + 2) ≡ true = ground arith in
      rw (n, m2, m1, three, sign, word, free) refl

  module _ (n : ℕ) (words : (j : ℕ) → j < n → l.toktyp j ≡ tok_other) where
    redirection-words : (c : Command) → c.nargs ≡ n → redirection l c ≡ some c
    unfolding redirection
    redirection-words c e = elim (Bool-cases (leb 3 n)) [
      | inl three ↦
          let lt : n - 2 < n = ground arith in
          let word = words (n - 2) lt in rw (e, three, word) refl
      | inr few ↦ rw (e, few) refl
    ]

    all_other-words : (k : ℕ) → k ≤ n → all_other l k ≡ true
    unfolding all_other
    all_other-words zero le = refl
    all_other-words (suc k) le = rw (all_other-words k (omega arith), words k (omega arith)) refl

    check_words-words : (c : Command) → c.nargs ≡ n → 0 < n → check_words l c ≡ command c
    unfolding check_words
    check_words-words c e pos =
        let some_word : (n == 0) ≡ false = ground arith in
        rw (e, some_word, all_other-words n (omega arith)) refl

  module _ (n a : ℕ) (words : (j : ℕ) → j < n → l.toktyp j ≡ tok_other) (pos : 0 < n)
      (rest : List Spaced) (tl : ℕ) (bg : Bool) where
    -- the last redirection has been taken off
    finish : (c : Command) → c.nargs ≡ n → parse_from l (some c) ≡ command c
    finish c e = rw (redirection-words n words c e, parse_from) (check_words-words n words c e pos)

    pub parse_redirects :
        (rs : Redirects)
        → FilesAreWords rs
        → HoldsTokens n a (redirect_tokens rs rest) l
        → TlenOk tl a rs
        → parse_from l (redirection l (start (n + count rs) tl bg)) ≡ command (whole n a rs bg)
    parse_redirects no_files f h t =
        let m : n + 0 ≡ n = omega arith in
        rw (m, redirection-words n words (start n tl bg) refl, t) (finish (start n a bg) refl)
    parse_redirects (from_file b w) f h t =
        let s : suc n ≡ n + 1 = omega arith in
        let p : a + 1 + 1 ≡ a + 2 = omega arith in
        let place : l.tok (n + 1) ≡ a + 2 = rw (← s) (h.3.1 ∙ p) in
        let one = redirection-in (start (n + 2) tl bg) n refl pos h.0 (rw (← s) (h.3.0 ∙ f)) refl in
        rw (one, h.1, place) (finish (whole n a (from_file b w) bg) refl)
    parse_redirects (to_file b w) f h t =
        let s : suc n ≡ n + 1 = omega arith in
        let p : a + 1 + 1 ≡ a + 2 = omega arith in
        let place : l.tok (n + 1) ≡ a + 2 = rw (← s) (h.3.1 ∙ p) in
        let one =
          redirection-out (start (n + 2) tl bg) n refl pos h.0 (rw (← s) (h.3.0 ∙ f)) refl in
        rw (one, h.1, place) (finish (whole n a (to_file b w) bg) refl)
    parse_redirects (from_to b w b' w') f h t =
        let s1 : suc n ≡ n + 1 = omega arith in
        let s2 : suc (suc n) ≡ n + 2 = omega arith in
        let s3 : suc (suc (suc n)) ≡ n + 2 + 1 = omega arith in
        let p1 : a + 1 + 1 ≡ a + 2 = omega arith in
        let k = length (chars w.1) in
        let p2 : a + 1 + 1 + k + 1 + 1 + 1 ≡ a + 2 + k + 1 + 2 = omega arith in
        let near : l.tok (n + 1) ≡ a + 2 = rw (← s1) (h.3.1 ∙ p1) in
        let far : l.tok (n + 2 + 1) ≡ a + 2 + k + 1 + 2 = rw (← s3) (h.3.3.3.1 ∙ p2) in
        let c1 : Command = record (start (n + 4) tl bg) {
          nargs = n + 2;
          tlen = l.tok (n + 2);
          outname = some (l.tok (n + 2 + 1));
        } in
        let last =
          redirection-out (start (n + 4) tl bg) (n + 2) (omega arith) (omega arith)
            (rw (← s2) h.3.3.0) (rw (← s3) (h.3.3.3.0 ∙ f.1)) refl in
        let first = redirection-in c1 n refl pos h.0 (rw (← s1) (h.3.0 ∙ f.0)) refl in
        rw (last, first, h.1, near, far, parse_from)
          (check_words-words n words (whole n a (from_to b w b' w') bg) refl pos)
    parse_redirects (to_from b w b' w') f h t =
        let s1 : suc n ≡ n + 1 = omega arith in
        let s2 : suc (suc n) ≡ n + 2 = omega arith in
        let s3 : suc (suc (suc n)) ≡ n + 2 + 1 = omega arith in
        let p1 : a + 1 + 1 ≡ a + 2 = omega arith in
        let k = length (chars w.1) in
        let p2 : a + 1 + 1 + k + 1 + 1 + 1 ≡ a + 2 + k + 1 + 2 = omega arith in
        let near : l.tok (n + 1) ≡ a + 2 = rw (← s1) (h.3.1 ∙ p1) in
        let far : l.tok (n + 2 + 1) ≡ a + 2 + k + 1 + 2 = rw (← s3) (h.3.3.3.1 ∙ p2) in
        let c1 : Command = record (start (n + 4) tl bg) {
          nargs = n + 2;
          tlen = l.tok (n + 2);
          inname = some (l.tok (n + 2 + 1));
        } in
        let last =
          redirection-in (start (n + 4) tl bg) (n + 2) (omega arith) (omega arith)
            (rw (← s2) h.3.3.0) (rw (← s3) (h.3.3.3.0 ∙ f.1)) refl in
        let first = redirection-out c1 n refl pos h.0 (rw (← s1) (h.3.0 ∙ f.0)) refl in
        rw (last, first, h.1, near, far, parse_from)
          (check_words-words n words (whole n a (to_from b w b' w') bg) refl pos)
