-- ===== src/Semaphore/Blocking.antt =====
-- A semaphore whose count is negative: its queue, and what `signal` does to it.
use os_virtual_mem.Prelude.{
  ℕ, suc, ◌+◌, ◌<◌, ◌≡◌, ◌≢◌, refl, true, false, some, List, [], ◌∷◌, ◌++◌, arith, ◌==◌, leb, ltb,
  length, ap, sym, ◌∙◌,
}
use os_virtual_mem.Prelude.Int.{ℤ, pos, negsuc, neg_part, ◌+ℤ◌, leb_ℤ}
use mathlib.Core.Path.{subst}
use os_virtual_mem.Queue
use os_virtual_mem.Queue.{Queues, n_proc, n_qent, update}
use os_virtual_mem.Queue.Links.{Absent, IsQueue}
use os_virtual_mem.Queue.Frame.{Disjoint, Disjoint-sym, Apart}
use os_virtual_mem.Queue.Ops.{Absent-insert, dequeue-cons}
use os_virtual_mem.Queue.Insert.{before, after, before-after, insert_lem}
use os_virtual_mem.Sys.{PrState, Sys, done, is_free, make_ready, resched, set_state}
use os_virtual_mem.Semaphore.{unusable, is_negative, release_one}

-- no process of the list has ended
abbrev pub AllAlive : Sys → List ℕ → Type 0
AllAlive s [] = Unit
AllAlive s (x ∷ xs) = (is_free (s.proctab x).prstate ≡ false) × AllAlive s xs

-- The processes `ws` wait on a semaphore, in order, and `rs` are ready; none is on both lists, and every
-- priority is above the key at the end of the ready list. A count below 0 is the number of those who wait.
pub record Waiting (s : Sys) (sem : ℕ) (ws rs : List ℕ) : Type 0 where
  pub usable : unusable s sem ≡ false
  pub queue : IsQueue s.queues (s.semtab sem).squeue ws
  pub room : (s.semtab sem).squeue + 1 < n_qent
  pub ready : IsQueue s.queues s.readylist rs
  pub ready_room : s.readylist + 1 < n_qent
  pub apart : Apart s.readylist (s.semtab sem).squeue
  pub disjoint : Disjoint ws rs
  pub alive : AllAlive s ws
  pub bottom : (x : ℕ) → leb_ℤ (s.proctab x).prprio (s.queues.qkey (s.readylist + 1)) ≡ false
  pub count : neg_part (s.semtab sem).scount ≡ length ws

negative_of :
    (c : ℤ) (n : ℕ) → neg_part c ≡ suc n → (is_negative c ≡ true) × (neg_part (c +ℤ pos 1) ≡ n)
unfolding ◌+ℤ◌
negative_of (pos m) n e = absurd (omega arith)
negative_of (negsuc m) n e = ground arith

pub AllAlive-same :
    (s s' : Sys) (xs : List ℕ)
    → ((x : ℕ) → is_free (s.proctab x).prstate ≡ false → is_free (s'.proctab x).prstate ≡ false)
    → AllAlive s xs
    → AllAlive s' xs
AllAlive-same s s' [] keep a = tt
AllAlive-same s s' (x ∷ xs) keep a = (keep x a.0, AllAlive-same s s' xs keep a.1)

-- the ready list once a process has been put on it
abbrev pub readied : Sys → ℕ → List ℕ → List ℕ
readied s w rs =
    before s.queues.qkey (s.proctab w).prprio rs ++ w ∷ after s.queues.qkey (s.proctab w).prprio rs

-- What giving a semaphore free does to the process that has waited longest.
pub record Woken (s s' : Sys) (sem w : ℕ) (ws rs : List ℕ) : Type 0 where
  pub waiting : Waiting s' sem ws (readied s w rs)
  pub state : (s'.proctab w).prstate ≡ PrState.ready
  pub others : (x : ℕ) → x ≢ w → s'.proctab x ≡ s.proctab x
  pub scount : (s'.semtab sem).scount ≡ (s.semtab sem).scount +ℤ pos 1
  pub ndefers : s'.ndefers ≡ s.ndefers
  pub attempt : s'.attempt ≡ true

Disjoint-insert :
    (xs ys zs : List ℕ) (w : ℕ) → Disjoint xs (ys ++ zs) → Absent w xs → Disjoint xs (ys ++ w ∷ zs)
Disjoint-insert [] ys zs w d a = tt
Disjoint-insert (x ∷ xs) ys zs w d a =
    (Absent-insert x ys zs w d.0 (λ h. a.0 (sym h)), Disjoint-insert xs ys zs w d.1 a.1)

module _ (s : Sys) (sem w : ℕ) (ws rs : List ℕ) (v : Waiting s sem (w ∷ ws) rs)
    (deferred : 0 < s.ndefers) where
  -- the state after the process has been taken off the queue of the semaphore
  woken : Queues → Sys
  woken t' = record (set_state w PrState.ready s) {
    semtab =
        update s.semtab sem (record (s.semtab sem) { scount = (s.semtab sem).scount +ℤ pos 1 });
    queues = t';
    attempt = true;
  }

  -- the run, from what the two queue operations give
  wake_run :
      (t t' : Queues)
      → Queue.dequeue (s.semtab sem).squeue s.queues ≡ some (some w, t)
      → Queue.insert false w s.readylist (s.proctab w).prprio t ≡ some (true, t')
      → release_one sem s ≡ done tt (woken t')
  unfolding release_one make_ready resched woken
  wake_run t t' out placed =
      let neg = (negative_of (s.semtab sem).scount (length ws) v.count).0 in
      let small : leb n_proc w ≡ false = let h = v.queue.procs.0 in ground arith in
      let alive = v.alive.0 in
      let later : ltb 0 s.ndefers ≡ true = ground arith in
      let ww : (w == w) ≡ true = ground arith in
      rw (neg, out, small, alive, ww, small, placed, later) refl

  woken-Waiting :
      (t' : Queues)
      → IsQueue t' (s.semtab sem).squeue ws
      → IsQueue t' s.readylist (readied s w rs)
      → t'.qkey (s.readylist + 1) ≡ s.queues.qkey (s.readylist + 1)
      → Waiting (woken t') sem ws (readied s w rs)
  unfolding woken
  woken-Waiting t' vq vr key =
      let cnt = (negative_of (s.semtab sem).scount (length ws) v.count).1 in
      let self : (sem == sem) ≡ true = ground arith in
      let split = before-after s.queues.qkey (s.proctab w).prprio rs in
      record {
        usable = rw self v.usable;
        queue = rw self vq;
        room = rw self v.room;
        ready = vr;
        ready_room = v.ready_room;
        apart = rw self v.apart;
        disjoint =
            Disjoint-insert ws (before s.queues.qkey (s.proctab w).prprio rs)
              (after s.queues.qkey (s.proctab w).prprio rs) w
              (subst (λ l. Disjoint ws l) (sym split) v.disjoint.1) v.queue.distinct.0;
        alive = AllAlive-same s (woken t') ws (λ x h. ground arith) v.alive.1;
        bottom = λ x. rw key (ground (arith, v.bottom x));
        count = rw self cnt;
      }

  -- With rescheduling deferred, the process that has waited longest is made ready, in its place on the
  -- ready list, and the others wait as before.
  pub release_one-Woken : (s' : Sys) × (release_one sem s ≡ done tt s') × Woken s s' sem w ws rs
  unfolding woken
  release_one-Woken =
      let (t, out, vq, keys, spares) = dequeue-cons w ws v.queue v.room in
      let apart' : Apart (s.semtab sem).squeue s.readylist =
        (λ h. v.apart.0 (sym h), λ h. v.apart.2 (sym h), λ h. v.apart.1 (sym h)) in
      let vr = spares s.readylist rs v.ready apart' v.disjoint in
      let low : leb_ℤ (s.proctab w).prprio (t.qkey (s.readylist + 1)) ≡ false =
        rw keys (v.bottom w) in
      let (t', placed, vr', key, other_keys, _, spares') =
        insert_lem w rs (s.proctab w).prprio vr v.ready_room low v.queue.procs.0 v.disjoint.0 in
      let vq' =
        spares' (s.semtab sem).squeue ws vq v.apart
          (v.queue.distinct.0, Disjoint-sym ws rs v.disjoint.1) in
      let tail : t'.qkey (s.readylist + 1) ≡ s.queues.qkey (s.readylist + 1) =
        other_keys (s.readylist + 1) (omega (arith, v.ready.head, v.queue.procs.0))
        ∙ ap (λ (f : ℕ → ℤ). f (s.readylist + 1)) keys in
      let ww : (w == w) ≡ true = ground arith in
      let self : (sem == sem) ≡ true = ground arith in
      (
        woken t',
        wake_run t t' out placed,
        record {
          waiting = woken-Waiting t' vq' (rw keys at vr') tail;
          state = rw ww refl;
          others = λ x ne. let off : (x == w) ≡ false = ground arith in rw off refl;
          scount = rw self refl;
          ndefers = refl;
          attempt = refl;
        },
      )
