-- ===== src/Semaphore/Blocks.antt =====
-- `wait` on a semaphore that is not free: the caller goes to the end of the queue.
use os_virtual_mem.Prelude.{
  ℕ, zero, suc, ◌+◌, ◌<◌, ◌≡◌, ◌≢◌, refl, true, false, some, List, [], ◌∷◌, ◌++◌, arith, ◌==◌, leb,
  length, ap, sym, ◌∙◌,
}
use os_virtual_mem.Prelude.Int.{ℤ, pos, negsuc, neg_part, ◌-ℤ◌}
use os_virtual_mem.Queue
use os_virtual_mem.Queue.{Queues, n_proc, n_sem, update}
use os_virtual_mem.Queue.Links.{Absent, IsQueue}
use os_virtual_mem.Queue.Frame.{Disjoint, Disjoint-sym, Apart}
use os_virtual_mem.Queue.Ops.{dequeue-cons, enqueue_lem}
use os_virtual_mem.Sys.{
  PrState, Sys, done, currpid, quantum, is_free, resched, switch_from, set_proc, set_state,
}
use os_virtual_mem.Semaphore.{set_sem, is_negative, wait}
use os_virtual_mem.Semaphore.Blocking.{AllAlive, AllAlive-same, Waiting}

-- the count after a `wait` that blocks
taken :
    (c : ℤ) (n : ℕ)
    → neg_part c ≡ n
    → is_negative (c -ℤ pos 1) ≡ true
    → neg_part (c -ℤ pos 1) ≡ suc n
unfolding ◌-ℤ◌
taken (pos zero) n e h = ground arith
taken (pos (suc m)) n e h = absurd (ground arith)
taken (negsuc m) n e h = ground arith

length-snoc : (xs : List ℕ) (x : ℕ) → length (xs ++ x ∷ []) ≡ suc (length xs)
length-snoc [] x = refl
length-snoc (y ∷ ys) x = ap suc (length-snoc ys x)

AllAlive-snoc :
    (s : Sys) (xs : List ℕ) (x : ℕ)
    → AllAlive s xs
    → is_free (s.proctab x).prstate ≡ false
    → AllAlive s (xs ++ x ∷ [])
AllAlive-snoc s [] x a h = (h, tt)
AllAlive-snoc s (y ∷ ys) x a h = (a.0, AllAlive-snoc s ys x a.1 h)

Disjoint-snoc : (xs ys : List ℕ) (x : ℕ) → Disjoint xs ys → Absent x ys → Disjoint (xs ++ x ∷ []) ys
Disjoint-snoc [] ys x d a = (a, tt)
Disjoint-snoc (y ∷ xs) ys x d a = (d.0, Disjoint-snoc xs ys x d.1 a)

-- The state after a `wait` that blocks.
pub record Blocked (s s' : Sys) (sem n : ℕ) (ws rs : List ℕ) : Type 0 where
  pub waiting : Waiting s' sem (ws ++ currpid s ∷ []) rs
  pub state : (s'.proctab (currpid s)).prstate ≡ PrState.wait
  pub prsem : (s'.proctab (currpid s)).prsem ≡ some sem
  pub current : currpid s' ≡ n
  pub running : (s'.proctab n).prstate ≡ PrState.curr
  pub others : (x : ℕ) → x ≢ currpid s → x ≢ n → s'.proctab x ≡ s.proctab x
  pub preempt : s'.preempt ≡ quantum

module _ (s : Sys) (sem n : ℕ) (ws rs : List ℕ) (v : Waiting s sem ws (n ∷ rs))
    (now : s.ndefers ≡ 0) (small : currpid s < n_proc)
    (run : (s.proctab (currpid s)).prstate ≡ PrState.curr) (off : Absent (currpid s) ws)
    (unready : Absent (currpid s) (n ∷ rs))
    (blocks : is_negative ((s.semtab sem).scount -ℤ pos 1) ≡ true) where
  waits : Sys
  waits =
      set_proc (currpid s)
        (record (s.proctab (currpid s)) { prstate = PrState.wait; prsem = some sem })
        (set_sem sem (record (s.semtab sem) { scount = (s.semtab sem).scount -ℤ pos 1 }) s)

  blocked : Queues → Sys
  unfolding waits
  blocked t' = record (set_state n PrState.curr waits) {
    vm = record s.vm { currpid = n };
    queues = t';
    preempt = quantum;
  }

  block_run :
      (t t' : Queues)
      → Queue.enqueue false (currpid s) (s.semtab sem).squeue s.queues ≡ some (some (currpid s), t)
      → Queue.dequeue s.readylist t ≡ some (some n, t')
      → wait sem s ≡ done true (blocked t')
  unfolding wait resched switch_from blocked waits
  block_run t t' put_on out =
      let h = v.usable in
      let good : leb n_sem sem ≡ false = ground arith in
      let used : (s.semtab sem).used ≡ true = ground arith in
      let in_table : leb n_proc (currpid s) ≡ false = ground arith in
      let self : (currpid s == currpid s) ≡ true = ground arith in
      let ne : (currpid s == n) ≡ false = let z = unready.0 in ground arith in
      rw (good, used, blocks, self, in_table, put_on, now, self, out, ne, self) refl

  blocked-Waiting :
      (t' : Queues)
      → IsQueue t' (s.semtab sem).squeue (ws ++ currpid s ∷ [])
      → IsQueue t' s.readylist rs
      → t'.qkey (s.readylist + 1) ≡ s.queues.qkey (s.readylist + 1)
      → Disjoint (ws ++ currpid s ∷ []) rs
      → Waiting (blocked t') sem (ws ++ currpid s ∷ []) rs
  unfolding blocked waits
  blocked-Waiting t' vq vr key d =
      let pid = currpid s in
      let self : (pid == pid) ≡ true = ground arith in
      let sems : (sem == sem) ≡ true = ground arith in
      let ne : (pid == n) ≡ false = let z = unready.0 in ground arith in
      let alive = AllAlive-same s (blocked t') ws (λ x h. ground arith) v.alive in
      record {
        usable = rw sems v.usable;
        queue = rw sems vq;
        room = rw sems v.room;
        ready = vr;
        ready_room = v.ready_room;
        apart = rw sems v.apart;
        disjoint = d;
        alive = AllAlive-snoc (blocked t') ws pid alive (rw (ne, self) refl);
        bottom = λ x. rw key (ground (arith, v.bottom x, v.bottom n, v.bottom pid));
        count =
            rw sems
              (taken (s.semtab sem).scount (length ws) v.count blocks ∙ sym (length-snoc ws pid));
      }

  -- `wait` of the current process on a semaphore whose count is not above 0, with rescheduling not
  -- deferred and a process ready: the call returns with the caller last on the queue of the semaphore, in
  -- its waiting state, and the first ready process on the processor with a full time slice; the count is
  -- below 0 by the number of those who wait, and all other processes keep their entries.
  pub wait-Blocked : (s' : Sys) × (wait sem s ≡ done true s') × Blocked s s' sem n ws rs
  unfolding blocked waits
  wait-Blocked =
      let pid = currpid s in
      let (t, put_on, vq, keys, spares) = enqueue_lem pid ws v.queue v.room small off in
      let apart' : Apart (s.semtab sem).squeue s.readylist =
        (λ h. v.apart.0 (sym h), λ h. v.apart.2 (sym h), λ h. v.apart.1 (sym h)) in
      let vr = spares s.readylist (n ∷ rs) v.ready apart' (unready, v.disjoint) in
      let (t', out, vr', keys', spares') = dequeue-cons n rs vr v.ready_room in
      let d = Disjoint-snoc ws (n ∷ rs) pid v.disjoint unready in
      let vq' =
        spares' (s.semtab sem).squeue (ws ++ pid ∷ []) vq v.apart
          (Disjoint-sym (ws ++ pid ∷ []) (n ∷ rs) d) in
      let self : (pid == pid) ≡ true = ground arith in
      let nn : (n == n) ≡ true = ground arith in
      let ne : (pid == n) ≡ false = let z = unready.0 in ground arith in
      (
        blocked t',
        block_run t t' put_on out,
        record {
          waiting =
              blocked-Waiting t' vq' vr' (ap (λ (f : ℕ → ℤ). f (s.readylist + 1)) (keys' ∙ keys))
                (Disjoint-sym rs (ws ++ pid ∷ []) (Disjoint-sym (ws ++ pid ∷ []) (n ∷ rs) d).1);
          state = rw (ne, self) refl;
          prsem = rw (ne, self) refl;
          current = refl;
          running = rw nn refl;
          others = λ x a b.
              let a' : (x == pid) ≡ false = ground arith in
              let b' : (x == n) ≡ false = ground arith in rw (b', a') refl;
          preempt = refl;
        },
      )
