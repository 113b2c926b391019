-- ===== src/Process.antt =====
-- xinu/system/suspend.c, resume.c, chprio.c, getprio.c, kill.c, and the bookkeeping of create.c and
-- vcreate.c. A result `none` or `false` is `SYSERR`.
pub mod Laws
use os_virtual_mem.Prelude.{
  ℕ, zero, suc, ◌+◌, ◌-◌, ◌%◌, ◌^◌, ◌/◌, Bool, true, false, Option, none, some, ◌==◌, ltb, leb,
  ◌&&◌, ◌||◌, not, if◌then◌else◌,
}
use os_virtual_mem.Prelude.Int.{ℤ, pos, ◌+ℤ◌, ltb_ℤ}
use os_virtual_mem.Memory.{sys_err, page_size, add32, roundmb, ceil_div, max_heap_size}
use os_virtual_mem.FreeList.{Freed, freed, sys_error, wild, FreeList}
use os_virtual_mem.Heap.{getstk, freestk}
use os_virtual_mem.Vm
use os_virtual_mem.Vm.{Vm, Proc}
use os_virtual_mem.PageTable.{create_directory, destroy_directory}
use os_virtual_mem.KernelService.{freevmem, getvstk}
use os_virtual_mem.Queue
use os_virtual_mem.Queue.{Queues, n_proc, update, getitem, bind_opt}
use os_virtual_mem.Semaphore.{set_sem}
use os_virtual_mem.Clock.{unsleep}
use os_virtual_mem.Message.{send}
use os_virtual_mem.Sys.{
  PrState, ProcEnt, Sem, Sys, Run, done, halted, stray, K, run_then, pure, ◌>>=◌, ◌>>◌, get, put,
  paging, queue_op, known, set_proc, set_state, isbadpid, is_free, currpid, resched, make_ready,
}

abbrev pub remove_item : ℕ → K Bool
remove_item pid = queue_op λ t. bind_opt (getitem pid t) λ t'. some (true, t')

-- `suspend`: the priority that the process has then. Where the current process suspends itself, the
-- source reads it only when the process runs again.
unfoldable pub suspend : ℕ → K (Option ℤ)
suspend pid = do
  s ← get
  let p = s.proctab pid
  let park : K (Unit {0}) = do s1 ← get; put (set_state pid PrState.susp s1)
  elim (if isbadpid s pid || pid == 0 then PrState.free else p.prstate) [
    | PrState.ready ↦ (remove_item pid >> park >> pure (some p.prprio))
    | PrState.curr ↦ (park >> resched >> pure (some p.prprio))
    | _ ↦ pure none
  ]

abbrev pub is_susp : PrState → Bool
is_susp PrState.susp = true
is_susp _ = false

unfoldable pub resume : ℕ → K (Option ℤ)
resume pid = do
  s ← get
  let p = s.proctab pid
  if isbadpid s pid || not (is_susp p.prstate)
      then pure none
      else (make_ready (some pid) >> pure (some p.prprio))

-- the old priority; a queue that the process is on is left as it is
unfoldable pub chprio : ℕ → ℤ → K (Option ℤ)
chprio pid newprio = do
  s ← get
  let p = s.proctab pid
  if isbadpid s pid
      then pure none
      else (put (set_proc pid (record p { prprio = newprio }) s) >> pure (some p.prprio))

unfoldable pub getprio : ℕ → Sys → Option ℤ
getprio pid s = if isbadpid s pid then none else some (s.proctab pid).prprio

-- The search of `newpid`: `rounds` slots from `nextpid` on, going round the table.
unfoldable pub newpid : (rounds : ℕ) → K (Option ℕ)
newpid zero s = done none s
newpid (suc k) s =
    let pid = s.nextpid % n_proc in
    let s' = record s { nextpid = pid + 1 } in
    let rest = newpid k s' in if is_free (s.proctab pid).prstate then done (some pid) s' else rest

abbrev pub min_stk : ℕ
min_stk = 400

-- the size that `create` and `vcreate` give a stack
abbrev pub stack_size : ℕ → ℕ
stack_size ssize = roundmb (if ltb ssize min_stk then min_stk else ssize)

-- the table entry that both write: suspended, with no message
abbrev pub new_entry : ProcEnt → (priority : ℤ) → (ssize parent : ℕ) → ProcEnt
new_entry p priority ssize parent = record p {
  prstate = PrState.susp;
  prprio = priority;
  prstklen = ssize;
  prsem = none;
  prparent = parent;
  prhasmsg = false;
}

abbrev pub set_stkbase : ℕ → ℕ → Sys → Sys
set_stkbase pid saddr s = set_proc pid (record (s.proctab pid) { prstkbase = saddr }) s

abbrev pub set_paging_proc : ℕ → Proc → Sys → Sys
set_paging_proc pid p s = record s { vm = record s.vm { procs = update s.vm.procs pid p } }

-- `create`, less the words that it writes on the new stack
unfoldable pub create : (ssize : ℕ) → (priority : ℤ) → K (Option ℕ)
unfolding newpid
create ssize priority = do
  found ← (if ltb_ℤ priority (pos 1) then pure none else newpid n_proc)
  s ← get
  elim found [
    | none ↦ pure none
    | some pid ↦
        let entry = new_entry (s.proctab pid) priority (stack_size ssize) (currpid s) in
        let paged = record (s.vm.procs pid) {
          pdbr = (s.vm.procs 0).pdbr;
          hsize = 0;
          vfree = 0;
          pruser = false;
        } in
        let s1 = set_paging_proc pid paged (set_proc pid entry s) in
        let (saddr, memlist) = getstk s.memlist (stack_size ssize) in
        (put (set_stkbase pid saddr (record s1 { memlist = memlist; prcount = s.prcount + 1 }))
          >> pure (some pid))
  ]

-- `vcreate`, less the words that it writes on the new stack: a process with a directory, a heap of
-- `hsize` pages and a stack in virtual memory. `spawned` is as for `getvstk`.
unfoldable pub vcreate : (spawned : Bool) → (ssize hsize : ℕ) → (priority : ℤ) → K (Option ℕ)
unfolding newpid
vcreate spawned ssize hsize priority = do
  found ← (if ltb_ℤ priority (pos 1) then pure none else newpid n_proc)
  s ← get
  let refused = ltb max_heap_size hsize
  elim found [
    | none ↦ pure none
    | some pid ↦ if refused then pure none else do
      put
          (record (set_proc pid (new_entry (s.proctab pid) priority (stack_size ssize) (currpid s))
            (set_paging_proc pid (record (s.vm.procs pid) { pruser = true }) s)) {
              prcount = s.prcount + 1;
            })
      dir ← paging create_directory
      s1 ← get
      put (
          set_paging_proc pid
            (record (s1.vm.procs pid) {
              pdbr = dir;
              hsize = hsize;
              vmax = ceil_div (add32 s1.vm.regions.maxvstack 1) page_size;
              vfree = hsize;
            })
            s1)
      saddr ← paging (getvstk spawned (stack_size ssize) pid)
      s2 ← get
      put (set_stkbase pid saddr s2)
      pure (some pid)
  ]

-- `freestk(prptr->prstkbase, prptr->prstklen)`, its status dropped
abbrev pub give_stack : ℕ → Sys → Run (Unit {0})
give_stack pid s =
    elim (freestk s.memlist (s.proctab pid).prstkbase (s.proctab pid).prstklen s.minheap
      s.maxheap) [
        | freed l ↦ done tt (record s { memlist = l })
        | sys_error ↦ done tt s
        | wild ↦ stray
      ]

-- `kill`, less closing the descriptors, up to the message to the parent, whose wake-up may switch
-- to another process: the state that the process was in.
unfoldable pub kill_begin : ℕ → K (Option PrState)
kill_begin pid = do
  s ← get
  let p = s.proctab pid
  let user = (s.vm.procs pid).pruser
  let last : K (Unit {0}) = λ _. halted
  let go : K (Option PrState) = do
    put (record s { prcount = s.prcount - 1 })
    (if leb (s.prcount - 1) 1 then last else pure tt)
    give_stack pid
    s1 ← get
    put (set_state pid PrState.free s1)
    paging (freevmem pid)
    _ ← (if user then send p.prparent pid else pure true)
    pure (some p.prstate)
  if isbadpid s pid || pid == 0 then pure none else go

-- The rest of `kill`, for a process that was in state `st`: `resched` comes back only while
-- rescheduling is deferred, and the case of a sleeping process follows it.
unfoldable pub kill_end : ℕ → PrState → K (Unit {0})
kill_end pid st = do
  s ← get
  let destroy : K (Unit {0}) = paging (destroy_directory pid)
  let wake : K (Unit {0}) = unsleep pid >>= λ _. destroy
  let take_off : K (Unit {0}) = remove_item pid >>= λ _. destroy
  let end_wait : K (Unit {0}) = do
    sem ← known (s.proctab pid).prsem
    put (set_sem sem (record (s.semtab sem) { scount = (s.semtab sem).scount +ℤ pos 1 }) s)
    take_off
  elim st [
    | PrState.curr ↦ (resched >> (if ltb 0 s.ndefers then wake else pure tt))
    | PrState.sleep ↦ wake
    | PrState.rectim ↦ wake
    | PrState.wait ↦ end_wait
    | PrState.ready ↦ take_off
    | _ ↦ destroy
  ]
