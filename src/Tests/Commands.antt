-- ===== src/Tests/Commands.antt =====
-- Command lines and waiting processes at concrete inputs.
use os_virtual_mem.Prelude.{
  ℕ, zero, suc, ◌+◌, ◌≡◌, ◌||◌, if◌then◌else◌, refl, true, false, none, some, List, [], ◌∷◌, ◌++◌,
  ◌==◌, arith, inr,
}
use os_virtual_mem.Prelude.Int.{pos, negsuc, ◌-ℤ◌}
use os_virtual_mem.Queue.{Queues}
use os_virtual_mem.Sys.{PrState, Sys, done, run_then, pure, defer_stop}
use os_virtual_mem.Semaphore.{signaln, wait}
use os_virtual_mem.Semaphore.Blocks.{Blocked, wait-Blocked}
use os_virtual_mem.Semaphore.Blocking.{Waiting}
use os_virtual_mem.Semaphore.Wakes.{Wakes, deferring, signaln-Wakes}
use os_virtual_mem.Tests.Machine.{ready_two, machine}
use os_virtual_mem.Lexan.{Lexed, lexan, lex_from, peek, stops_word, is_quote, is_angle}
use os_virtual_mem.Lexan.Text.{word, quoted, write_line, HoldsTokens, LineOk}
use os_virtual_mem.Lexan.Reads.{lexan-write, lexan-full}
use os_virtual_mem.Lexan.Fits.{Fits, lexan-Fits}
use os_virtual_mem.Shell.{find_command, parse_tokens, command}
use os_virtual_mem.Shell.Parse.{parse-lexan}
use os_virtual_mem.Shell.Words.{Spaced, Redirects, from_to, redirect_tokens, amper_tokens, whole}
use os_virtual_mem.Shell.Find.{Found, find_command-Found}

abbrev no_tokens : Lexed
no_tokens = record { tokbuf = λ x. 0; tbindex = 0; tok = λ i. 0; toktyp = λ i. 0; ntok = 0 }

-- "cat 'a b'"
abbrev cat_words : List Spaced
cat_words = ([], word 99 (97 ∷ 116 ∷ [])) ∷ (32 ∷ [], quoted 39 (97 ∷ 32 ∷ 98 ∷ [])) ∷ []

-- " <in >out &", without the "&"
abbrev cat_files : Redirects
cat_files = from_to (32 ∷ []) ([], word 105 (110 ∷ [])) (32 ∷ []) ([], word 111 (117 ∷ 116 ∷ []))

abbrev cat_line : List Spaced
cat_line = cat_words ++ redirect_tokens cat_files (amper_tokens (some (32 ∷ [])))

cat_line-LineOk : LineOk cat_line (32 ∷ 10 ∷ [])
cat_line-LineOk = (
  tt,
  (refl, (refl, (refl, tt)), refl, refl),
  ((refl, tt), (refl, (refl, (refl, (refl, tt)))), file_names),
)
  where
    file_names : LineOk (redirect_tokens cat_files (amper_tokens (some (32 ∷ [])))) (32 ∷ 10 ∷ [])
    file_names = (
      (refl, tt),
      tt,
      (
        tt,
        (refl, (refl, tt), refl, refl),
        ((refl, tt), tt, (tt, (refl, (refl, (refl, tt)), refl, refl), ((refl, tt), tt, tt))),
      ),
    )

lexan-write_example :
    (l : Lexed) × (lexan (write_line cat_line (32 ∷ 10 ∷ [])) no_tokens ≡ (some 7, l))
    × HoldsTokens 0 0 cat_line l
lexan-write_example =
    lexan-write cat_line (32 ∷ []) (10 ∷ []) no_tokens cat_line-LineOk (omega arith)
      ((refl, tt), refl, inr (omega arith))

parse-lexan_example :
    (l : Lexed) × (lexan (write_line cat_line (32 ∷ 10 ∷ [])) no_tokens ≡ (some l.ntok, l))
    × (parse_tokens (some l.ntok, l) ≡ command (whole 2 8 cat_files true))
    × HoldsTokens 0 0 cat_line l
parse-lexan_example =
    parse-lexan cat_words cat_files (some (32 ∷ [])) (32 ∷ []) (10 ∷ []) no_tokens
      (refl, (refl, tt)) (omega arith) (refl, refl) cat_line-LineOk (omega arith)
      ((refl, tt), refl, inr (omega arith))

-- "a 'b"
lexan-Fits_example :
    ((more : ℕ)
      → lex_from (33 + more) (97 ∷ 32 ∷ 39 ∷ 98 ∷ []) no_tokens
        ≡ lexan (97 ∷ 32 ∷ 39 ∷ 98 ∷ []) no_tokens)
    × Fits
        (97 ∷ 32 ∷ 39 ∷ 98 ∷ [])
        no_tokens
        (lexan (97 ∷ 32 ∷ 39 ∷ 98 ∷ []) no_tokens).0
        (lexan (97 ∷ 32 ∷ 39 ∷ 98 ∷ []) no_tokens).1
lexan-Fits_example = lexan-Fits (97 ∷ 32 ∷ 39 ∷ 98 ∷ []) no_tokens

-- "echo" in a table of "cat", "echo" and "ps"
abbrev echo_text : ℕ → ℕ
echo_text x =
    if x == 0 then 101 else if x == 1 then 99 else if x == 2 then 104 else if x == 3 then 111 else 0

abbrev commands : List (List ℕ)
commands = (99 ∷ 97 ∷ 116 ∷ []) ∷ (101 ∷ 99 ∷ 104 ∷ 111 ∷ []) ∷ (112 ∷ 115 ∷ []) ∷ []

find_command-Found_example : Found echo_text commands 0 (find_command commands 0 echo_text)
find_command-Found_example = find_command-Found commands 0 echo_text

-- 32 times "a"
abbrev letters : ℕ → List Spaced
letters zero = []
letters (suc k) = (32 ∷ [], word 97 []) ∷ letters k

letters-LineOk : (k : ℕ) → LineOk (letters k) (32 ∷ 10 ∷ [])
letters-LineOk zero = tt
letters-LineOk (suc k) = ((refl, tt), (refl, tt, next k, plain k), letters-LineOk k)
  where
    next : (k : ℕ) → stops_word (peek (write_line (letters k) (32 ∷ 10 ∷ []))) ≡ true
    next zero = refl
    next (suc k) = refl

    plain :
        (k : ℕ)
        → (is_quote (peek (write_line (letters k) (32 ∷ 10 ∷ [])))
            || is_angle (peek (write_line (letters k) (32 ∷ 10 ∷ []))))
          ≡ false
    plain zero = refl
    plain (suc k) = refl

lexan-full_example : (lexan (write_line (letters 32) (32 ∷ 10 ∷ [])) no_tokens).0 ≡ none
lexan-full_example = lexan-full (letters 32) 32 (10 ∷ []) no_tokens (letters-LineOk 32) refl refl

-- 3 and 5 are ready; 7, 8 and 6 wait, in this order, on semaphore 4
abbrev wait_queues : Queues
wait_queues = record ready_two {
  qnext = λ i.
      if i == 104
      then some 7
      else if i == 7
      then some 8
      else if i == 8
      then some 6
      else if i == 6
      then some 105
      else ready_two.qnext i;
  qprev = λ i.
      if i == 7
      then some 104
      else if i == 8
      then some 7
      else if i == 6
      then some 8
      else if i == 105
      then some 6
      else ready_two.qprev i;
}

abbrev wait_machine : Sys
wait_machine = record machine {
  queues = wait_queues;
  proctab = λ pid. record (machine.proctab pid) {
    prstate =
        if pid == 7 || pid == 8 || pid == 6 then PrState.wait else (machine.proctab pid).prstate;
  };
  semtab = λ i. record (machine.semtab i) { scount = negsuc 2 };
}

wait_machine-Waiting : Waiting wait_machine 4 (7 ∷ 8 ∷ 6 ∷ []) (3 ∷ 5 ∷ [])
wait_machine-Waiting = record {
  usable = refl;
  queue = record {
    links = (refl, refl, (refl, refl, (refl, refl, (refl, refl))));
    procs = omega arith;
    distinct = omega arith;
    head = omega arith;
  };
  room = omega arith;
  ready = record {
    links = (refl, refl, (refl, refl, (refl, refl)));
    procs = omega arith;
    distinct = omega arith;
    head = omega arith;
  };
  ready_room = omega arith;
  apart = omega arith;
  disjoint = omega arith;
  alive = (refl, (refl, (refl, tt)));
  bottom = λ x. ground arith;
  count = refl;
}

signaln-Wakes_example :
    (s' : Sys) × (signaln 4 (pos 2) wait_machine ≡ run_then (defer_stop s') (λ _. pure true))
    × Wakes (deferring wait_machine) s' 4 (7 ∷ 8 ∷ []) (6 ∷ []) (3 ∷ 5 ∷ [])
signaln-Wakes_example =
    signaln-Wakes (7 ∷ 8 ∷ []) (6 ∷ []) (3 ∷ 5 ∷ []) 4 wait_machine wait_machine-Waiting

wait-Blocked_example :
    (s' : Sys) × (wait 4 wait_machine ≡ done true s')
    × Blocked wait_machine s' 4 3 (7 ∷ 8 ∷ 6 ∷ []) (5 ∷ [])
unfolding ◌-ℤ◌
wait-Blocked_example =
    wait-Blocked wait_machine 4 3 (7 ∷ 8 ∷ 6 ∷ []) (5 ∷ []) wait_machine-Waiting refl (omega arith)
      refl (omega arith) (omega arith) refl
