-- ===== src/Pool.antt =====
-- xinu/system/bufinit.c, mkbufpool.c, getbuf.c and freebuf.c: buffer pools. A free buffer holds the
-- address of the next in its first word; a buffer in use holds its pool's id there. Ids and sizes are
-- `int32`s read as unsigned, so that a negative one is above every limit.
pub mod Links
pub mod Create
pub mod Buffers
use os_virtual_mem.Prelude.{
  ℕ, zero, suc, ◌+◌, ◌-◌, ◌*◌, ◌/◌, ◌%◌, ◌^◌, Bool, true, false, Option, none, some, ◌==◌, ltb, leb,
  ◌||◌, if◌then◌else◌,
}
use os_virtual_mem.Prelude.Int.{pos}
use os_virtual_mem.Memory.{sys_err, add32, sub32}
use os_virtual_mem.FreeList.{Freed, freed, sys_error, wild}
use os_virtual_mem.Heap.{getmem, freemem}
use os_virtual_mem.Queue.{update}
use os_virtual_mem.Semaphore.{wait, signal, semcreate}
use os_virtual_mem.Sys.{
  Sys, Pool, Run, done, stray, K, run_then, pure, ◌>>=◌, ◌>>◌, get, put, set_word,
}

-- `NBPOOLS`, `BP_MINB`, `BP_MAXB` and `BP_MAXN`
abbrev pub n_pools : ℕ
n_pools = 20

abbrev pub min_buffer : ℕ
min_buffer = 8

abbrev pub max_buffer : ℕ
max_buffer = 8192

abbrev pub max_buffers : ℕ
max_buffers = 2048

unfoldable pub bufinit : K Bool
bufinit = do s ← get; put (record s { nbpools = 0 }); pure true

-- `(bufsiz + 3) & ~3`
abbrev pub round_size : ℕ → ℕ
round_size bufsiz = (bufsiz + 3) / 4 * 4

abbrev pub bad_request : (bufsiz numbufs nbpools : ℕ) → Bool
bad_request bufsiz numbufs nbpools =
    ltb bufsiz min_buffer
    || ltb max_buffer bufsiz
    || ltb numbufs 1
    || ltb max_buffers numbufs
    || leb n_pools nbpools

-- The loop that links the buffers, with `rounds` links left to write, and the last one's `NULL`.
unfoldable pub link_buffers : (rounds : ℕ) → (buf size : ℕ) → (ℕ → ℕ) → ℕ → ℕ
link_buffers zero buf size words = update words buf 0
link_buffers (suc k) buf size words =
    link_buffers k (add32 buf size) size (update words buf (add32 buf size))

abbrev pub set_pool : ℕ → Pool → Sys → Sys
set_pool id p s = record s { buftab = update s.buftab id p }

-- the block back to the heap
unfoldable pub give_block : (buf nbytes : ℕ) → K (Unit {0})
give_block buf nbytes s = elim (freemem s.memlist buf nbytes s.minheap s.maxheap) [
  | freed l ↦ done tt (record s { memlist = l })
  | sys_error ↦ done tt s
  | wild ↦ stray
]

-- `mkbufpool` from the call of `getmem` on, with the size rounded: `none` is `SYSERR`.
unfoldable pub make_pool : (size numbufs : ℕ) → K (Option ℕ)
unfolding give_block link_buffers
make_pool size numbufs = do
  s ← get
  let poolid = s.nbpools
  let (buf, memlist) = getmem s.memlist (numbufs * (size + 4))
  let build : K (Option ℕ) = do
    put (record (set_pool poolid (record (s.buftab poolid) { bpnext = buf; bpsize = size }) s) {
      memlist = memlist;
      nbpools = poolid + 1;
    })
    sem ← semcreate (pos numbufs)
    s1 ← get
    elim sem [
      | none ↦ do
        put (set_pool poolid (record (s1.buftab poolid) { bpsem = sys_err }) s1)
        give_block buf (numbufs * (size + 4))
        s2 ← get
        put (record s2 { nbpools = s2.nbpools - 1 })
        pure none
      | some sem ↦ do
        put (record (set_pool poolid (record (s1.buftab poolid) { bpsem = sem }) s1) {
          words = link_buffers (numbufs - 1) buf (size + 4) s1.words;
        })
        pure (some poolid)
    ]
  if buf == sys_err then pure none else build

unfoldable pub mkbufpool : (bufsiz numbufs : ℕ) → K (Option ℕ)
unfolding make_pool
mkbufpool bufsiz numbufs = do
  s ← get
  if bad_request bufsiz numbufs s.nbpools then pure none else make_pool (round_size bufsiz) numbufs

-- `getbuf` up to the return of `wait`, which may switch to another process: `false` is `SYSERR`.
unfoldable pub getbuf_begin : ℕ → K Bool
getbuf_begin poolid = do
  s ← get
  let go : K Bool = do _ ← wait (s.buftab poolid).bpsem; pure true
  if leb s.nbpools poolid then pure false else go

-- The rest of `getbuf`: the first buffer is unlinked and marked, and its second word's address is
-- the result.
unfoldable pub getbuf_end : ℕ → K ℕ
getbuf_end poolid = do
  s ← get
  let bufptr = (s.buftab poolid).bpnext
  put (
      set_word bufptr poolid
        (set_pool poolid (record (s.buftab poolid) { bpnext = s.words bufptr }) s))
  pure (add32 bufptr 4)

-- `freebuf`: `false` is `SYSERR`.
unfoldable pub freebuf : ℕ → K Bool
freebuf bufaddr = do
  s ← get
  let buf = sub32 bufaddr 4
  let poolid = s.words buf
  let go : K Bool = do
    put (
        set_pool poolid (record (s.buftab poolid) { bpnext = buf })
          (set_word buf (s.buftab poolid).bpnext s))
    _ ← signal (s.buftab poolid).bpsem
    pure true
  if leb s.nbpools poolid then pure false else go
