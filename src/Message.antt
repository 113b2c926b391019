-- ===== src/Message.antt =====
-- xinu/system/send.c, receive.c, recvclr.c and recvtime.c: one-word messages between processes. A
-- receiver that blocks is two steps: up to the context switch, and when it runs again.
pub mod Laws
use os_virtual_mem.Prelude.{
  ℕ, zero, suc, ◌+◌, ◌-◌, Bool, true, false, Option, none, some, ◌==◌, ltb, leb, ◌&&◌, ◌||◌, not,
  if◌then◌else◌,
}
use os_virtual_mem.Prelude.Int.{ℤ, pos, ltb_ℤ}
use os_virtual_mem.Memory.{u32_mod, sys_err}
use os_virtual_mem.Queue
use os_virtual_mem.Queue.{insertd}
use os_virtual_mem.Sys.{
  PrState, ProcEnt, Sys, Run, done, K, run_then, pure, ◌>>=◌, ◌>>◌, get, put, queue_op, set_proc,
  set_state, isbadpid, currpid, resched, make_ready,
}
use os_virtual_mem.Clock.{unsleep}

-- `OK` and `TIMEOUT`, as a `umsg32`
abbrev pub ok_msg : ℕ
ok_msg = 1

abbrev pub timeout_msg : ℕ
timeout_msg = u32_mod - 3

-- the receiver is made ready, if it waits for a message
unfoldable pub wake_receiver : PrState → ℕ → K (Unit {0})
wake_receiver PrState.recv pid = make_ready (some pid) >>= λ _. pure tt
wake_receiver PrState.rectim pid = unsleep pid >>= λ _. make_ready (some pid) >>= λ _. pure tt
wake_receiver _ pid = pure tt

unfoldable pub send : (pid msg : ℕ) → K Bool
send pid msg = do
  s ← get
  let p = s.proctab pid
  let deliver : K Bool = do
    put (set_proc pid (record p { prmsg = msg; prhasmsg = true }) s)
    wake_receiver p.prstate pid
    pure true
  if isbadpid s pid || p.prhasmsg then pure false else deliver

-- `receive`, up to the context switch; `true` where it goes straight on
unfoldable pub receive_begin : K Bool
receive_begin = do
  s ← get
  let block : K Bool = do put (set_state (currpid s) PrState.recv s); resched; pure false
  if (s.proctab (currpid s)).prhasmsg then pure true else block

-- the rest of `receive`, when the receiver `pid` is current again
unfoldable pub receive_end : ℕ → K ℕ
receive_end pid s =
    done (s.proctab pid).prmsg (set_proc pid (record (s.proctab pid) { prhasmsg = false }) s)

unfoldable pub recvclr : K ℕ
recvclr s =
    let pid = currpid s in
    let p = s.proctab pid in
    if p.prhasmsg
    then done p.prmsg (set_proc pid (record p { prhasmsg = false }) s)
    else done ok_msg s

-- `recvtime`, up to the context switch: `none` is `SYSERR`, `some true` where it goes straight on
unfoldable pub recvtime_begin : ℤ → K (Option Bool)
recvtime_begin maxwait = do
  s ← get
  let pid = currpid s
  let fall_asleep : K (Option Bool) = do
    s1 ← get
    put (set_state pid PrState.rectim s1)
    resched
    pure (some false)
  let block : K (Option Bool) = do
    placed ← queue_op (insertd (isbadpid s pid) pid s.sleepq maxwait)
    if placed then fall_asleep else pure none
  if ltb_ℤ maxwait (pos 0)
      then pure none
      else (if (s.proctab pid).prhasmsg then pure (some true) else block)

-- the rest of `recvtime`, when the receiver is current again
unfoldable pub recvtime_end : ℕ → K ℕ
recvtime_end pid s =
    let p = s.proctab pid in
    if p.prhasmsg
    then done p.prmsg (set_proc pid (record p { prhasmsg = false }) s)
    else done timeout_msg s
