-- ===== src/Sys/Resched.antt =====
-- `resched`: which process has the processor next.
use os_virtual_mem.Prelude.{
  ℕ, ◌+◌, ◌<◌, ◌≡◌, refl, true, false, some, List, ◌∷◌, ◌++◌, arith, ◌==◌, leb,
}
use os_virtual_mem.Prelude.Int.{leb_ℤ, ltb_ℤ}
use os_virtual_mem.Queue
use os_virtual_mem.Queue.{Queues, n_proc, n_qent, update}
use os_virtual_mem.Queue.Links.{Absent, IsQueue}
use os_virtual_mem.Queue.Ops.{dequeue-cons}
use os_virtual_mem.Queue.Insert.{before, after, insert_lem}
use os_virtual_mem.Sys.{
  PrState, Sys, done, currpid, quantum, resched, switch_from, requeue_current, set_state,
}

-- A current process with a higher priority than the first ready one keeps the processor, and nothing
-- changes.
pub resched-keep :
    (s : Sys) (x : ℕ) (xs : List ℕ)
    → IsQueue s.queues s.readylist (x ∷ xs)
    → s.ndefers ≡ 0
    → (s.proctab (currpid s)).prstate ≡ PrState.curr
    → ltb_ℤ (s.queues.qkey x) (s.proctab (currpid s)).prprio ≡ true
    → resched s ≡ done tt s
unfolding resched
resched-keep s x xs v now run wins = let first = v.links.0 in rw (now, run, first, wins) refl

-- the run, from what the two queue operations give
switch_run :
    (s : Sys) (x : ℕ) (t t' : Queues)
    → s.queues.qnext s.readylist ≡ some x
    → s.ndefers ≡ 0
    → (s.proctab (currpid s)).prstate ≡ PrState.curr
    → currpid s < n_proc
    → (currpid s == x) ≡ false
    → ltb_ℤ (s.queues.qkey x) (s.proctab (currpid s)).prprio ≡ false
    → Queue.insert false (currpid s) s.readylist (s.proctab (currpid s)).prprio s.queues
      ≡ some (true, t)
    → Queue.dequeue s.readylist t ≡ some (some x, t')
    → resched s
      ≡ done tt (record (set_state x PrState.curr (set_state (currpid s) PrState.ready s)) {
        vm = record s.vm { currpid = x };
        queues = t';
        preempt = quantum;
      })
unfolding resched switch_from requeue_current
switch_run s x t t' first now run small ne gives placed out =
    let in_table : leb n_proc (currpid s) ≡ false = ground arith in
    let self : (currpid s == currpid s) ≡ true = ground arith in
    rw (now, run, first, gives, self, in_table, placed, out, ne, self) refl

-- With rescheduling not deferred, a current process whose priority is not above that of the first
-- ready one gives way: it goes on the ready list behind its equals at the front, and the process that
-- was first there becomes current with a full time slice.
pub resched-switch :
    (s : Sys) (x : ℕ) (xs : List ℕ)
    → IsQueue s.queues s.readylist (x ∷ xs)
    → s.readylist + 1 < n_qent
    → s.ndefers ≡ 0
    → (s.proctab (currpid s)).prstate ≡ PrState.curr
    → currpid s < n_proc
    → Absent (currpid s) (x ∷ xs)
    → leb_ℤ (s.proctab (currpid s)).prprio (s.queues.qkey (s.readylist + 1)) ≡ false
    → ltb_ℤ (s.queues.qkey x) (s.proctab (currpid s)).prprio ≡ false
    → leb_ℤ (s.proctab (currpid s)).prprio (s.queues.qkey x) ≡ true
    → (s' : Sys) × (resched s ≡ done tt s')
      × (currpid s' ≡ x)
      × IsQueue s'.queues s.readylist (
          before s.queues.qkey (s.proctab (currpid s)).prprio xs
          ++ currpid s ∷ after s.queues.qkey (s.proctab (currpid s)).prprio xs)
      × ((s'.proctab x).prstate ≡ PrState.curr)
      × ((s'.proctab (currpid s)).prstate ≡ PrState.ready)
      × (s'.preempt ≡ quantum)
unfolding before after
resched-switch s x xs v room now run small off bottom gives le =
    let p = (s.proctab (currpid s)).prprio in
    let rest = before s.queues.qkey p xs ++ currpid s ∷ after s.queues.qkey p xs in
    let (t, placed, q, _, _, _, _) = insert_lem (currpid s) (x ∷ xs) p v room bottom small off in
    let q' : IsQueue t s.readylist (x ∷ rest) = rw le at q in
    let (t', out, r, _, _) = dequeue-cons x rest q' room in
    let ne : (currpid s == x) ≡ false = let h = off.0 in ground arith in
    (
      record (set_state x PrState.curr (set_state (currpid s) PrState.ready s)) {
        vm = record s.vm { currpid = x };
        queues = t';
        preempt = quantum;
      },
      switch_run s x t t' v.links.0 now run small ne gives placed out,
      refl,
      r,
      ground arith,
      ground arith,
      refl,
    )
