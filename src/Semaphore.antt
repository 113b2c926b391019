-- ===== src/Semaphore.antt =====
-- xinu/system/wait.c, signal.c, signaln.c, semcreate.c, semdelete.c, semreset.c, semcount.c. A result
-- `false` or `none` is `SYSERR`; a semaphore id is an `int32` read as unsigned.
pub mod Create
pub mod Laws
pub mod Blocking
pub mod Wakes
pub mod Blocks
use os_virtual_mem.Prelude.{
  ℕ, zero, suc, ◌+◌, ◌*◌, Bool, true, false, Option, none, some, ◌==◌, ltb, leb, ◌&&◌, ◌||◌, not,
  if◌then◌else◌,
}
use os_virtual_mem.Prelude.Int.{ℤ, pos, negsuc, ◌+ℤ◌, ◌-ℤ◌, ltb_ℤ, pos_part, neg_part}
use os_virtual_mem.Queue
use os_virtual_mem.Queue.{n_sem, n_proc, update, enqueue, getfirst}
use os_virtual_mem.Sys.{
  PrState, ProcEnt, Sem, Sys, Run, done, stray, K, run_then, pure, ◌>>=◌, ◌>>◌, get, put, queue_op,
  set_proc, isbadpid, currpid, dequeue_from, resched, defer_start, defer_stop, make_ready,
}

abbrev pub isbadsem : ℕ → Bool
isbadsem sem = leb n_sem sem

-- the id is bad, or its entry is not in use
abbrev pub unusable : Sys → ℕ → Bool
unusable s sem = isbadsem sem || not (s.semtab sem).used

abbrev pub set_sem : ℕ → Sem → Sys → Sys
set_sem sem e s = record s { semtab = update s.semtab sem e }

abbrev pub is_negative : ℤ → Bool
is_negative c = ltb_ℤ c (pos 0)

-- `wait`, up to the point where the caller goes on or gives way.
unfoldable pub wait : ℕ → K Bool
wait sem = do
  s ← get
  let e = s.semtab sem
  let count = e.scount -ℤ pos 1
  let pid = currpid s
  let block : K (Unit {0}) = do
    s1 ← get
    put (set_proc pid (record (s1.proctab pid) { prstate = PrState.wait; prsem = some sem }) s1)
    s2 ← get
    _ ← queue_op (enqueue (isbadpid s2 pid) pid e.squeue)
    resched
  let go : K Bool = do
    put (set_sem sem (record e { scount = count }) s)
    (if is_negative count then block else pure tt)
    pure true
  if unusable s sem then pure false else go

-- `(semptr->scount++) < 0`, and then the first waiting process is made ready
unfoldable pub release_one : ℕ → K (Unit {0})
release_one sem = do
  s ← get
  let e = s.semtab sem
  let wake : K (Unit {0}) = do pid ← dequeue_from e.squeue; _ ← make_ready pid; pure tt
  put (set_sem sem (record e { scount = e.scount +ℤ pos 1 }) s)
  if is_negative e.scount then wake else pure tt

unfoldable pub signal : ℕ → K Bool
unfolding release_one
signal sem = do s ← get; if unusable s sem then pure false else (release_one sem >> pure true)

unfoldable pub release_times : (rounds : ℕ) → ℕ → K (Unit {0})
release_times zero sem = pure tt
release_times (suc k) sem = do release_one sem; release_times k sem

unfoldable pub signaln : ℕ → ℤ → K Bool
signaln sem count = do
  s ← get
  let go : K Bool = do defer_start; release_times (pos_part count) sem; _ ← defer_stop; pure true
  if isbadsem sem || is_negative count || not (s.semtab sem).used then pure false else go

-- The search of `newsem`: `rounds` entries from `nextsem` on, going round the table.
unfoldable pub newsem : (rounds : ℕ) → K (Option ℕ)
newsem zero s = done none s
newsem (suc k) s =
    let sem = s.nextsem in
    let next = if leb n_sem (sem + 1) then 0 else sem + 1 in
    let rest = newsem k (record s { nextsem = next }) in
    if not (s.semtab sem).used
    then done (some sem)
        (set_sem sem (record (s.semtab sem) { used = true }) (record s { nextsem = next }))
    else rest

unfoldable pub semcreate : ℤ → K (Option ℕ)
semcreate count = do
  sem ← (if is_negative count then pure none else newsem n_sem)
  s ← get
  elim sem [
    | none ↦ pure none
    | some i ↦ (put (set_sem i (record (s.semtab i) { scount = count }) s) >> pure (some i))
  ]

-- The loop of `semdelete`: `scount` goes up to 1 past the first count that is not negative.
unfoldable pub drain : (rounds : ℕ) → ℕ → K (Unit {0})
drain zero sem = λ _. stray
drain (suc k) sem = do
  s ← get
  let e = s.semtab sem
  put (set_sem sem (record e { scount = e.scount +ℤ pos 1 }) s)
  let again : K (Unit {0}) = do pid ← queue_op (getfirst e.squeue); _ ← make_ready pid; drain k sem
  if is_negative e.scount then again else pure tt

-- A count of -n takes n + 1 rounds.
unfoldable pub semdelete : ℕ → K Bool
semdelete sem = do
  s ← get
  let e = s.semtab sem
  let go : K Bool = do
    put (set_sem sem (record e { used = false }) s)
    defer_start
    drain (suc (neg_part e.scount)) sem
    _ ← defer_stop
    pure true
  if unusable s sem then pure false else go

-- The loop of `semreset`: every process on the queue is made ready.
unfoldable pub ready_all : (fuel : ℕ) → ℕ → K (Unit {0})
ready_all zero q = λ _. stray
ready_all (suc k) q = do
  pid ← queue_op (getfirst q)
  let again : K (Unit {0}) = do _ ← make_ready pid; ready_all k q
  elim pid [ none ↦ pure tt | some x ↦ again ]

unfoldable pub semreset : ℕ → ℤ → K Bool
semreset sem count = do
  s ← get
  let go : K Bool = do
    defer_start
    ready_all (n_proc + 1) (s.semtab sem).squeue
    s1 ← get
    put (set_sem sem (record (s1.semtab sem) { scount = count }) s1)
    _ ← defer_stop
    pure true
  if is_negative count || unusable s sem then pure false else go

-- `none` is `SYSERR`
unfoldable pub semcount : ℕ → Sys → Option ℤ
semcount sem s = if unusable s sem then none else some (s.semtab sem).scount
