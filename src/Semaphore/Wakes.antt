-- ===== src/Semaphore/Wakes.antt =====
-- `signaln` wakes the processes that have waited longest.
use mathlib.Core.Path.{subst}
use mathlib.Core.List.Perm
use mathlib.Core.List.{Perm, perm_middle}
use os_virtual_mem.Prelude.{
  ℕ, ◌+◌, ◌<◌, ◌≡◌, refl, true, false, List, [], ◌∷◌, ◌++◌, arith, ◌==◌, leb, length, ap, ◌∙◌,
  if◌then◌else◌,
}
use os_virtual_mem.Prelude.Int.{pos}
use os_virtual_mem.Queue.{n_sem}
use os_virtual_mem.Queue.Links.{Absent, Absent-front}
use os_virtual_mem.Queue.Insert.{before, after, before-after}
use os_virtual_mem.Sys.{PrState, Sys, done, run_then, pure, defer_start, defer_stop}
use os_virtual_mem.Semaphore.{is_negative, release_times, signaln}
use os_virtual_mem.Semaphore.Blocking.{AllAlive-same, Waiting, readied, release_one-Woken}

abbrev pub AllReady : Sys → List ℕ → Type 0
AllReady s [] = Unit
AllReady s (x ∷ xs) = ((s.proctab x).prstate ≡ PrState.ready) × AllReady s xs

-- The first processes of the queue have been woken: they are ready, and on the ready list with those
-- that were there; the others wait as before, and the entries of all other processes are as they were.
pub record Wakes (s s' : Sys) (sem : ℕ) (front back rs : List ℕ) : Type 0 where
  pub ready : List ℕ
  pub waiting : Waiting s' sem back ready
  pub same : Perm ready (front ++ rs)
  pub state : AllReady s' front
  pub others : (x : ℕ) → Absent x front → s'.proctab x ≡ s.proctab x
  pub ndefers : s'.ndefers ≡ s.ndefers

readied-perm : (s : Sys) (w : ℕ) (rs : List ℕ) → Perm (readied s w rs) (w ∷ rs)
readied-perm s w rs =
    let xs = before s.queues.qkey (s.proctab w).prprio rs in
    let ys = after s.queues.qkey (s.proctab w).prprio rs in
    subst (λ (l : List ℕ). Perm (xs ++ w ∷ ys) (w ∷ l))
      (before-after s.queues.qkey (s.proctab w).prprio rs) (perm_middle xs ys)

release_times-Wakes :
    (front back rs : List ℕ) (sem : ℕ) (s : Sys)
    → Waiting s sem (front ++ back) rs
    → 0 < s.ndefers
    → (s' : Sys) × (release_times (length front) sem s ≡ done tt s') × Wakes s s' sem front back rs
unfolding release_times
release_times-Wakes [] back rs sem s v deferred = (
  s,
  refl,
  record {
    ready = rs;
    waiting = v;
    same = Perm.refl rs;
    state = tt;
    others = λ x a. refl;
    ndefers = refl;
  },
)
release_times-Wakes (w ∷ front) back rs sem s v deferred =
    let (s1, run1, one) = release_one-Woken s sem w (front ++ back) rs v deferred in
    let (s2, run2, rest) =
      release_times-Wakes front back (readied s w rs) sem s1 one.waiting
        (omega (arith, one.ndefers)) in
    let off = Absent-front w front back v.queue.distinct.0 in
    (
      s2,
      rw (run1, run2) refl,
      record {
        ready = rest.ready;
        waiting = rest.waiting;
        same =
            Perm.trans rest.same
              (Perm.trans (Perm.append_left front (readied-perm s w rs)) (perm_middle front rs));
        state = (ap (λ e. e.prstate) (rest.others w off) ∙ one.state, rest.state);
        others = λ x a. rest.others x a.1 ∙ one.others x a.0;
        ndefers = rest.ndefers ∙ one.ndefers;
      },
    )

-- the state after `resched_cntl(DEFER_START)`
abbrev pub deferring : Sys → Sys
deferring s = record s {
  ndefers = s.ndefers + 1;
  attempt = if s.ndefers == 0 then false else s.attempt;
}

deferring-Waiting :
    {s : Sys} {sem : ℕ} {ws rs : List ℕ} → Waiting s sem ws rs → Waiting (deferring s) sem ws rs
deferring-Waiting {s} {sem} {ws} {rs} v = record {
  usable = v.usable;
  queue = v.queue;
  room = v.room;
  ready = v.ready;
  ready_room = v.ready_room;
  apart = v.apart;
  disjoint = v.disjoint;
  alive = AllAlive-same s (deferring s) ws (λ x h. h) v.alive;
  bottom = v.bottom;
  count = v.count;
}

-- With every priority above the key at the end of the ready list, `signaln` of the length of `front`,
-- on a semaphore where `front` wait, in order, before `back`: the call comes to the end of the
-- deferral, with exactly `front` woken; `back` still wait, in order, and the count is below 0 by their
-- number.
pub signaln-Wakes :
    (front back rs : List ℕ) (sem : ℕ) (s : Sys)
    → Waiting s sem (front ++ back) rs
    → (s' : Sys) × (signaln sem (pos (length front)) s ≡ run_then (defer_stop s') (λ _. pure true))
      × Wakes (deferring s) s' sem front back rs
unfolding signaln defer_start
signaln-Wakes front back rs sem s v =
    let (s', run, w) =
      release_times-Wakes front back rs sem (deferring s) (deferring-Waiting v) (omega arith) in
    let h = v.usable in
    let good : leb n_sem sem ≡ false = ground arith in
    let used : (s.semtab sem).used ≡ true = ground arith in
    let counted : is_negative (pos (length front)) ≡ false = ground arith in
    (s', rw (good, used, counted, run) refl, w)
