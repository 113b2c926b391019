-- ===== src/Sys.antt =====
-- The process side of the kernel: xinu/include/process.h, semaphore.h and resched.h, and
-- xinu/system/ready.c and resched.c. Kernel functions run with interrupts off, so each is one step up
-- to its call of `ctxsw`; what a function does after that belongs to the process it resumes.
pub mod Resched
use os_virtual_mem.Prelude.{
  ℕ, zero, suc, ◌+◌, ◌-◌, Bool, true, false, Option, none, some, ◌==◌, ltb, leb, ◌&&◌, ◌||◌, not,
  if◌then◌else◌,
}
use os_virtual_mem.Prelude.Int.{ℤ, pos, ltb_ℤ}
use os_virtual_mem.FreeList.{FreeList}
use os_virtual_mem.Vm
use os_virtual_mem.Vm.{Vm, Out}
use os_virtual_mem.PageTable.{destroy_directory}
use os_virtual_mem.Queue
use os_virtual_mem.Queue.{Queues, n_proc, update}

-- `PR_FREE` to `PR_RECTIM`
pub data PrState : Type 0 where
  free curr ready recv sleep susp wait rectim : PrState

abbrev pub is_free : PrState → Bool
is_free PrState.free = true
is_free _ = false

abbrev pub is_curr : PrState → Bool
is_curr PrState.curr = true
is_curr _ = false

-- The fields of `struct procent` that the process side uses. Those that paging uses are in `Vm`.
pub record ProcEnt : Type 0 where
  pub prstate : PrState
  pub prprio : ℤ
  pub prstkbase : ℕ
  pub prstklen : ℕ
  pub prsem : Option ℕ
  pub prparent : ℕ
  pub prmsg : ℕ
  pub prhasmsg : Bool

-- `struct sentry`; `used` is `S_USED`
pub record Sem : Type 0 where
  pub used : Bool
  pub scount : ℤ
  pub squeue : ℕ

-- `struct bpentry`; an address of 0 is `NULL`
pub record Pool : Type 0 where
  pub bpnext : ℕ
  pub bpsem : ℕ
  pub bpsize : ℕ

-- `PT_FREE`, `PT_LIMBO` and `PT_ALLOC`
pub data PtState : Type 0 where
  free limbo alloc : PtState

-- `struct ptentry`; an address of 0 is `NULL`
pub record Port : Type 0 where
  pub ptssem : ℕ
  pub ptrsem : ℕ
  pub ptstate : PtState
  pub ptmaxcnt : ℕ
  pub ptseq : ℕ
  pub pthead : ℕ
  pub pttail : ℕ

-- The kernel's globals; `currpid` stands in `vm`. `words` are the words of the memory that `getmem`
-- has handed out, by address.
pub record Sys : Type 0 where
  pub vm : Vm
  pub queues : Queues
  pub proctab : ℕ → ProcEnt
  pub semtab : ℕ → Sem
  pub memlist : FreeList
  pub minheap : ℕ
  pub maxheap : ℕ
  pub readylist : ℕ
  pub sleepq : ℕ
  pub ndefers : ℕ
  pub attempt : Bool
  pub preempt : ℤ
  pub prcount : ℕ
  pub nextpid : ℕ
  pub nextsem : ℕ
  pub words : ℕ → ℕ
  pub nbpools : ℕ
  pub buftab : ℕ → Pool
  pub ptfree : ℕ
  pub porttab : ℕ → Port
  pub ptnextid : ℕ

-- What a kernel function comes to: a value and a state, a halt, or a stray access.
pub data Run (A : Type 0) : Type 0 where
  done : A → Sys → Run A
  halted : Run A
  stray : Run A

abbrev pub K : Type 0 → Type 0
K A = Sys → Run A

abbrev pub run_then : {A B : Type 0} → Run A → (A → K B) → Run B
run_then (done a s) k = k a s
run_then halted k = halted
run_then stray k = stray

abbrev pub pure : {A : Type 0} → A → K A
pure a s = done a s

infixl 5 ◌>>=◌ ◌>>◌
abbrev pub ◌>>=◌ : {A B : Type 0} → K A → (A → K B) → K B
◌>>=◌ m k s = run_then (m s) k

abbrev pub ◌>>◌ : {A B : Type 0} → K A → K B → K B
m >> n = m >>= λ _. n

abbrev pub get : K Sys
get s = done s s

abbrev pub put : Sys → K (Unit {0})
put t s = done tt t

-- a step of the paging component
abbrev pub in_vm : {A : Type 0} → Out A → Sys → Run A
in_vm (Vm.ok a v) s = done a (record s { vm = v })
in_vm Vm.halted s = halted
in_vm Vm.stray s = stray

abbrev pub paging : {A : Type 0} → Vm.M A → K A
paging m s = in_vm (m s.vm) s

-- a step on the queue table
abbrev pub in_queues : {A : Type 0} → Option (A × Queues) → Sys → Run A
in_queues none s = stray
in_queues (some (a, t)) s = done a (record s { queues = t })

abbrev pub queue_op : {A : Type 0} → (Queues → Option (A × Queues)) → K A
queue_op f s = in_queues (f s.queues) s

abbrev pub known : {A : Type 0} → Option A → K A
known none s = stray
known (some a) s = done a s

abbrev pub set_proc : ℕ → ProcEnt → Sys → Sys
set_proc pid p s = record s { proctab = update s.proctab pid p }

abbrev pub set_state : ℕ → PrState → Sys → Sys
set_state pid st s = set_proc pid (record (s.proctab pid) { prstate = st }) s

abbrev pub set_word : ℕ → ℕ → Sys → Sys
set_word a v s = record s { words = update s.words a v }

abbrev pub isbadpid : Sys → ℕ → Bool
isbadpid s pid = leb n_proc pid || is_free (s.proctab pid).prstate

abbrev pub currpid : Sys → ℕ
currpid s = s.vm.currpid

abbrev pub quantum : ℤ
quantum = pos 2

-- `queue_op` of `insert` and `dequeue`, with the process table's say
abbrev pub insert_at : (pid q : ℕ) → ℤ → K Bool
insert_at pid q key s = queue_op (Queue.insert (isbadpid s pid) pid q key) s

abbrev pub dequeue_from : ℕ → K (Option ℕ)
dequeue_from q = queue_op (Queue.dequeue q)

-- `firstkey(q)`
abbrev pub firstkey : ℕ → K ℤ
firstkey q s = run_then (known (s.queues.qnext q) s) λ x s'. done (s'.queues.qkey x) s'

-- The second half of `resched`: the first ready process becomes current, and the directory of an
-- old process that has ended is destroyed.
unfoldable pub switch_from : (oldpid : ℕ) → K (Unit {0})
switch_from oldpid = do
  s ← get
  next ← dequeue_from s.readylist
  new ← known next
  s1 ← get
  put (record (set_state new PrState.curr (record s1 { vm = record s1.vm { currpid = new } })) {
    preempt = quantum;
  })
  s2 ← get
  if is_free (s2.proctab oldpid).prstate then paging (destroy_directory oldpid) else pure tt

-- A current process that must give way goes back on the ready list.
unfoldable pub requeue_current : (oldpid : ℕ) → K (Unit {0})
requeue_current oldpid = do
  s ← get
  put (set_state oldpid PrState.ready s)
  _ ← insert_at oldpid s.readylist (s.proctab oldpid).prprio
  pure tt

unfoldable pub resched : K (Unit {0})
unfolding switch_from requeue_current
resched = do
  s ← get
  let oldpid = currpid s
  let old = s.proctab oldpid
  let compete : K (Unit {0}) = do
    first ← firstkey s.readylist
    if ltb_ℤ first old.prprio then pure tt else (requeue_current oldpid >> switch_from oldpid)
  let go : K (Unit {0}) = if is_curr old.prstate then compete else switch_from oldpid
  if ltb 0 s.ndefers then put (record s { attempt = true }) else go

-- `resched_cntl(DEFER_START)`
unfoldable pub defer_start : K (Unit {0})
defer_start s =
    done tt
      (record s { ndefers = s.ndefers + 1; attempt = if s.ndefers == 0 then false else s.attempt })

-- `resched_cntl(DEFER_STOP)`: `false` is `SYSERR`.
unfoldable pub defer_stop : K Bool
defer_stop = do
  s ← get
  let stop : K Bool = do
    put (record s { ndefers = s.ndefers - 1 })
    (if s.ndefers - 1 == 0 && s.attempt then resched else pure tt)
    pure true
  if s.ndefers == 0 then pure false else stop

-- `ready`: `false` is `SYSERR`. The id may be the -1 of an empty queue, `none`.
unfoldable pub make_ready : Option ℕ → K Bool
make_ready none = pure false
make_ready (some pid) = do
  s ← get
  let go : K Bool = do
    put (set_state pid PrState.ready s)
    _ ← insert_at pid s.readylist (s.proctab pid).prprio
    resched
    pure true
  if isbadpid s pid then pure false else go
