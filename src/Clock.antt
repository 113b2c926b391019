-- ===== src/Clock.antt =====
-- xinu/system/sleep.c, unsleep.c, wakeup.c, yield.c and clkhandler.c: the queue of sleeping processes,
-- each keyed by its delay after the one before it.
pub mod Laws
pub mod Unsleep
use os_virtual_mem.Prelude.{
  ℕ, zero, suc, ◌+◌, ◌-◌, ◌*◌, ◌^◌, ◌%◌, Bool, true, false, Option, none, some, ◌==◌, ltb, leb,
  ◌&&◌, ◌||◌, not, if◌then◌else◌,
}
use os_virtual_mem.Prelude.Int.{ℤ, pos, negsuc, ◌+ℤ◌, ◌-ℤ◌, ltb_ℤ, leb_ℤ, pos_part}
use os_virtual_mem.Memory.{u32_mod, add32, sub32}
use os_virtual_mem.Queue
use os_virtual_mem.Queue.{
  Queues, n_proc, update, set_key, isempty, insertd, getitem, bind_opt, walk_fuel,
}
use os_virtual_mem.Sys.{
  PrState, ProcEnt, Sys, Run, done, stray, K, run_then, pure, ◌>>=◌, ◌>>◌, get, put, queue_op,
  set_state, isbadpid, currpid, quantum, dequeue_from, firstkey, known, resched, defer_start,
  defer_stop, make_ready,
}

abbrev pub yield : K Bool
yield = resched >> pure true

-- the largest delay in seconds that `sleep` takes
abbrev pub max_seconds : ℕ
max_seconds = 2147483

-- `sleepms`: `false` is `SYSERR`.
unfoldable pub sleepms : ℤ → K Bool
sleepms delay = do
  s ← get
  let pid = currpid s
  let fall_asleep : K Bool = do s1 ← get; put (set_state pid PrState.sleep s1); resched; pure true
  let go : K Bool = do
    placed ← queue_op (insertd (isbadpid s pid) pid s.sleepq delay)
    if placed then fall_asleep else pure false
  if ltb_ℤ delay (pos 0) then pure false else (if leb_ℤ delay (pos 0) then yield else go)

-- `sleep` does not pass on the status of `sleepms`.
unfoldable pub sleep : ℤ → K Bool
unfolding sleepms
sleep delay =
    if ltb_ℤ delay (pos 0) || ltb_ℤ (pos max_seconds) delay
    then pure false
    else (sleepms (pos (1000 * pos_part delay)) >> pure true)

abbrev pub asleep : PrState → Bool
asleep PrState.sleep = true
asleep PrState.rectim = true
asleep _ = false

-- The next item takes over the delay, and the item is unlinked.
unfoldable pub leave_sleepq : ℕ → Queues → Option (Bool × Queues)
leave_sleepq pid t =
    let t1 : Queues = elim (t.qnext pid) [
      | none ↦ t
      | some next ↦ if ltb next n_proc then set_key next (t.qkey next +ℤ t.qkey pid) t else t
    ] in
    bind_opt (getitem pid t1) λ t2. some (true, t2)

unfoldable pub unsleep : ℕ → K Bool
unfolding leave_sleepq
unsleep pid = do
  s ← get
  if isbadpid s pid || not (asleep (s.proctab pid).prstate)
      then pure false
      else queue_op (leave_sleepq pid)

-- the test of the loop of `wakeup`
unfoldable pub due : K Bool
due = do
  s ← get
  let late : K Bool = do k ← firstkey s.sleepq; pure (leb_ℤ k (pos 0))
  if isempty s.queues s.sleepq then pure false else late

unfoldable pub wake_all : (fuel : ℕ) → K (Unit {0})
unfolding due
wake_all zero = λ _. stray
wake_all (suc fuel) = do
  more ← due
  s ← get
  let again : K (Unit {0}) = do pid ← dequeue_from s.sleepq; _ ← make_ready pid; wake_all fuel
  if more then again else pure tt

unfoldable pub wakeup : K (Unit {0})
unfolding wake_all
wakeup = do defer_start; wake_all (n_proc + 1); _ ← defer_stop; pure tt

-- The first sleeper's delay goes down by one.
unfoldable pub tick_sleepq : K (Unit {0})
unfolding wakeup
tick_sleepq = do
  s ← get
  let tick : K (Unit {0}) = do
    x ← known (s.queues.qnext s.sleepq)
    let k = s.queues.qkey x -ℤ pos 1
    put (record s { queues = set_key x k s.queues })
    if leb_ℤ k (pos 0) then wakeup else pure tt
  if isempty s.queues s.sleepq then pure tt else tick

-- `clkhandler`: `count1000` is its static counter of milliseconds, `clktime` the seconds.
unfoldable pub count_ms : ℕ × ℕ → ℕ × ℕ
count_ms (count1000, clktime) =
    if sub32 count1000 1 == 0 then (1000, add32 clktime 1) else (sub32 count1000 1, clktime)

unfoldable pub clkhandler : ℕ × ℕ → K (ℕ × ℕ)
unfolding count_ms tick_sleepq
clkhandler clock = do
  tick_sleepq
  s ← get
  put (record s { preempt = s.preempt -ℤ pos 1 })
  s1 ← get
  let expire : K (Unit {0}) = put (record s1 { preempt = quantum }) >> resched
  (if leb_ℤ s1.preempt (pos 0) then expire else pure tt)
  pure (count_ms clock)
