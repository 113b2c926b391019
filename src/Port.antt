-- ===== src/Port.antt =====
-- xinu/system/ptinit.c, ptcreate.c, ptsend.c, ptrecv.c, ptcount.c, ptclear.c, ptdelete.c and ptreset.c:
-- message ports. A node is two words of kernel memory: its message, then the address of the next node.
-- Ids and counts are `int32`s read as unsigned; a result `none` or `false` is `SYSERR`.
pub mod Nodes
pub mod Fifo
pub mod Init
use os_virtual_mem.Prelude.{
  ℕ, zero, suc, ◌+◌, ◌-◌, ◌*◌, ◌%◌, ◌^◌, Bool, true, false, Option, none, some, ◌==◌, ltb, leb,
  ◌||◌, not, if◌then◌else◌,
}
use os_virtual_mem.Prelude.Int.{ℤ, pos, negsuc, ◌+ℤ◌, ◌-ℤ◌}
use os_virtual_mem.Memory.{sys_err, add32}
use os_virtual_mem.Heap.{getmem}
use os_virtual_mem.Queue.{update}
use os_virtual_mem.Semaphore.{is_negative, wait, signal, semcreate, semcount, semdelete, semreset}
use os_virtual_mem.Sys.{
  Sys, Port, PtState, Run, done, halted, stray, K, run_then, pure, ◌>>=◌, ◌>>◌, get, put, set_word,
}

-- `NPORTS`
abbrev pub n_ports : ℕ
n_ports = 30

abbrev pub is_alloc : PtState → Bool
is_alloc PtState.alloc = true
is_alloc _ = false

abbrev pub is_unused : PtState → Bool
is_unused PtState.free = true
is_unused _ = false

abbrev pub set_port : ℕ → Port → Sys → Sys
set_port id p s = record s { porttab = update s.porttab id p }

-- where the `ptnext` of the node at `n` stands
abbrev pub next_at : ℕ → ℕ
next_at n = add32 n 4

-- The loop of `ptinit` that links the nodes, with `rounds` links left to write, and the last `NULL`.
unfoldable pub link_nodes : (rounds : ℕ) → (node : ℕ) → (ℕ → ℕ) → ℕ → ℕ
link_nodes zero node words = update words (next_at node) 0
link_nodes (suc k) node words =
    link_nodes k (add32 node 8) (update words (next_at node) (add32 node 8))

-- `--maxmsgs > 0` holds in so many rounds of that loop
abbrev pub link_rounds : ℕ → ℕ
link_rounds maxmsgs = if ltb maxmsgs (2 ^ 31) then maxmsgs - 1 else 0

-- `ptinit`, which panics when there is no memory for `maxmsgs` nodes.
unfoldable pub ptinit : ℕ → K Bool
unfolding link_nodes
ptinit maxmsgs = do
  s ← get
  let (nodes, memlist) = getmem s.memlist (maxmsgs * 8 % 2 ^ 32)
  let ready = record s {
    memlist = memlist;
    ptfree = nodes;
    porttab = λ i.
        if ltb i n_ports
        then record (s.porttab i) { ptstate = PtState.free; ptseq = 0 }
        else s.porttab i;
    ptnextid = 0;
    words = link_nodes (link_rounds maxmsgs) nodes s.words;
  }
  if nodes == sys_err then (λ _. halted) else (put ready >> pure true)

-- The search of `ptcreate`: `rounds` entries from `ptnextid` on, going round the table.
unfoldable pub find_port : (rounds : ℕ) → K (Option ℕ)
find_port zero s = done none s
find_port (suc k) s =
    let id = s.ptnextid in
    let s1 = record s { ptnextid = if leb n_ports (id + 1) then 0 else id + 1 } in
    let rest = find_port k s1 in
    if is_unused (s.porttab id).ptstate then done (some id) s1 else rest

-- `semcreate`, its result as the word that is stored
abbrev pub new_sem : ℤ → K ℕ
new_sem count = semcreate count >>= λ found. pure (elim found [ none ↦ sys_err | some sem ↦ sem ])

-- What `ptcreate` does with the free entry that it has found.
unfoldable pub open_port : (id count : ℕ) → K (Unit {0})
open_port id count = do
  s ← get
  put (set_port id (record (s.porttab id) { ptstate = PtState.alloc }) s)
  ssem ← new_sem (pos count)
  rsem ← new_sem (pos 0)
  s1 ← get
  put (
      set_port id
        (record (s1.porttab id) {
          ptssem = ssem;
          ptrsem = rsem;
          pthead = 0;
          pttail = 0;
          ptseq = ((s1.porttab id).ptseq + 1) % 2 ^ 32;
          ptmaxcnt = count % 2 ^ 16;
        })
        s1)

unfoldable pub ptcreate : ℕ → K (Option ℕ)
unfolding find_port open_port
ptcreate count = do
  found ← (if leb (2 ^ 31) count then pure none else find_port n_ports)
  elim found [ none ↦ pure none | some id ↦ (open_port id count >> pure (some id)) ]

-- the id is bad, or its entry is not allocated
abbrev pub unusable : Sys → ℕ → Bool
unusable s id = leb n_ports id || not (is_alloc (s.porttab id).ptstate)

-- after a wait: the port is gone, or it is another port, since `seq` was read
abbrev pub stale : Sys → (id seq : ℕ) → Bool
stale s id seq = not (is_alloc (s.porttab id).ptstate) || not ((s.porttab id).ptseq == seq)

-- `ptsend` and `ptrecv` up to the return of `wait`, which may switch to another process: the sequence
-- number that was read before it.
unfoldable pub wait_port : (Port → ℕ) → ℕ → K (Option ℕ)
wait_port sem id = do
  s ← get
  let go : K (Option ℕ) = do
    waited ← wait (sem (s.porttab id))
    if waited then pure (some (s.porttab id).ptseq) else pure none
  if unusable s id then pure none else go

unfoldable pub ptsend_begin : ℕ → K (Option ℕ)
unfolding wait_port
ptsend_begin id = wait_port (λ p. p.ptssem) id

-- A node off the free list, with the message, at the end of the port's list.
unfoldable pub append_message : (id msg : ℕ) → Sys → Sys
append_message id msg s =
    let node = s.ptfree in
    let port = s.porttab id in
    let s1 =
      set_word node msg
        (set_word (next_at node) 0 (record s { ptfree = s.words (next_at node) })) in
    if port.pttail == 0
    then set_port id (record port { pthead = node; pttail = node }) s1
    else set_port id (record port { pttail = node }) (set_word (next_at port.pttail) node s1)

-- The rest of `ptsend`. Without a free node the kernel panics.
unfoldable pub ptsend_end : (id seq msg : ℕ) → K Bool
unfolding append_message
ptsend_end id seq msg = do
  s ← get
  let go : K Bool = do put (append_message id msg s); _ ← signal (s.porttab id).ptrsem; pure true
  if stale s id seq then pure false else (if s.ptfree == 0 then (λ _. halted) else go)

unfoldable pub ptrecv_begin : ℕ → K (Option ℕ)
unfolding wait_port
ptrecv_begin id = wait_port (λ p. p.ptrsem) id

-- The first node of the port's list goes to the free list.
unfoldable pub remove_message : (id : ℕ) → Sys → Sys
remove_message id s =
    let port = s.porttab id in
    let node = port.pthead in
    let rest =
      if node == port.pttail
      then record port { pthead = 0; pttail = 0 }
      else record port { pthead = s.words (next_at node) } in
    set_word (next_at node) s.ptfree (set_port id rest (record s { ptfree = node }))

-- The rest of `ptrecv`: the message.
unfoldable pub ptrecv_end : (id seq : ℕ) → K (Option ℕ)
unfolding remove_message
ptrecv_end id seq = do
  s ← get
  let go : K (Option ℕ) = do
    put (remove_message id s)
    _ ← signal (s.porttab id).ptssem
    pure (some (s.words (s.porttab id).pthead))
  if stale s id seq then pure none else go

-- the value that `semcount` returns; `SYSERR` is -1
abbrev pub count_of : ℕ → Sys → ℤ
count_of sem s = elim (semcount sem s) [ none ↦ negsuc 0 | some c ↦ c ]

unfoldable pub ptcount : ℕ → Sys → Option ℤ
ptcount id s =
    let count = count_of (s.porttab id).ptrsem s in
    let blocked = count_of (s.porttab id).ptssem s in
    if unusable s id
    then none
    else if is_negative count || not (is_negative blocked)
    then some count
    else some (count -ℤ blocked)

-- The walk of `_ptclear`: `dispose` is called with each message, on a list of fewer nodes than `fuel`.
unfoldable pub dispose_all : (fuel : ℕ) → (ℕ → K (Unit {0})) → (walk : ℕ) → K (Unit {0})
dispose_all zero dispose walk = λ _. stray
dispose_all (suc k) dispose walk = do
  s ← get
  let rest : K (Unit {0}) = do
    dispose (s.words walk)
    s1 ← get
    dispose_all k dispose (s1.words (next_at walk))
  if walk == 0 then pure tt else rest

-- the port's list in front of the free list
unfoldable pub free_messages : ℕ → Sys → Sys
free_messages id s =
    let port = s.porttab id in
    record (set_word (next_at port.pttail) s.ptfree s) { ptfree = port.pthead }

-- `_ptclear`: `keep` is that the new state is `PT_ALLOC`; otherwise it is `PT_FREE`.
unfoldable pub clear_port : (fuel id : ℕ) → (keep : Bool) → (ℕ → K (Unit {0})) → K (Unit {0})
unfolding dispose_all free_messages
clear_port fuel id keep dispose = do
  s ← get
  put (
      set_port id
        (record (s.porttab id) {
          ptstate = PtState.limbo;
          ptseq = ((s.porttab id).ptseq + 1) % 2 ^ 32;
        })
        s)
  let walk = (s.porttab id).pthead
  let listed : K (Unit {0}) = do dispose_all fuel dispose walk; s1 ← get; put (free_messages id s1)
  (if walk == 0 then pure tt else listed)
  s2 ← get
  let port = s2.porttab id
  let reset : K (Unit {0}) = do
    put (set_port id (record port { pthead = 0; pttail = 0 }) s2)
    _ ← semreset port.ptssem (pos port.ptmaxcnt)
    s3 ← get
    _ ← semreset (s3.porttab id).ptrsem (pos 0)
    pure tt
  let delete : K (Unit {0}) = do
    _ ← semdelete port.ptssem
    s3 ← get
    _ ← semdelete (s3.porttab id).ptrsem
    pure tt
  (if keep then reset else delete)
  s4 ← get
  put (
      set_port id
        (record (s4.porttab id) { ptstate = if keep then PtState.alloc else PtState.free }) s4)

unfoldable pub ptdelete : (fuel id : ℕ) → (ℕ → K (Unit {0})) → K Bool
unfolding clear_port
ptdelete fuel id dispose = do
  s ← get
  let go : K Bool = do
    clear_port fuel id false dispose
    s1 ← get
    put (record s1 { ptnextid = id })
    pure true
  if unusable s id then pure false else go

unfoldable pub ptreset : (fuel id : ℕ) → (ℕ → K (Unit {0})) → K Bool
unfolding clear_port
ptreset fuel id dispose = do
  s ← get
  if unusable s id then pure false else (clear_port fuel id true dispose >> pure true)
