-- ===== src/Tests/Ipc.antt =====
-- Buffer pools, ports, the namespace and dotted addresses at concrete inputs.
use os_virtual_mem.Prelude.{
  ℕ, zero, suc, ◌+◌, ◌-◌, ◌*◌, ◌≤◌, ◌<◌, ◌≡◌, refl, true, false, some, List, [], ◌∷◌, arith, ◌==◌,
  ltb, ◌⊎◌, if◌then◌else◌,
}
use os_virtual_mem.FreeList.{block}
use os_virtual_mem.FreeList.Get.{AllBelow, Taken}
use os_virtual_mem.FreeList.Laws.{IsValid}
use os_virtual_mem.Semaphore.{signal}
use os_virtual_mem.Sys.{Sys, PtState, done, halted, pure, ◌>>=◌}
use os_virtual_mem.Pool.{getbuf_begin, getbuf_end, freebuf}
use os_virtual_mem.Pool.Buffers.{IsPool, getbuf_lem, freebuf_lem}
use os_virtual_mem.Port.{n_ports, ptinit, ptsend_end, ptrecv_end}
use os_virtual_mem.Port.Nodes.{NodeChain, Distinct, messages, nodes_from}
use os_virtual_mem.Port.Fifo.{IsPort, ptsend_end-append, ptrecv_end-first}
use os_virtual_mem.Port.Init.{ptinit_lem}
use os_virtual_mem.Names.{
  Chars, Namespace, mount, namrepl, max_prefix, max_replace, n_devs, n_names,
}
use os_virtual_mem.Names.Text.{Holds}
use os_virtual_mem.Names.Map.{Mapping, IsTable, rewrite, Rewritten, namrepl_lem, namrepl-long}
use os_virtual_mem.Names.Mount.{mount_lem}
use os_virtual_mem.Dotted.{dot2ip}
use os_virtual_mem.Dotted.Value.{dot2ip-dotted}
use os_virtual_mem.Tests.Machine.{machine}

-- a heap of one block of 4096 bytes
abbrev with_heap : Sys
with_heap = record machine {
  memlist = record { mlength = 4096; blocks = block 4096 4096 ∷ [] };
  minheap = 4096;
  maxheap = 8191;
}

with_heap-IsValid : IsValid 4096 8192 0 with_heap.memlist
with_heap-IsValid = record {
  chain = omega arith;
  counts = refl;
  low = omega arith;
  high = omega arith;
  word = omega arith;
}

-- pool 0 has the buffers at 4096 and 4108, which semaphore 4 counts
abbrev with_pool : Sys
with_pool = record machine {
  words = λ a. if a == 4096 then 4108 else 0;
  nbpools = 1;
  buftab = λ i. record { bpnext = 4096; bpsem = 4; bpsize = 8 };
}

with_pool-IsPool : IsPool with_pool 0 (4096 ∷ 4108 ∷ [])
with_pool-IsPool = record {
  used = omega arith;
  list = (refl, omega arith, omega arith, (refl, omega arith, omega arith, refl));
  distinct = ((refl, tt), (tt, tt));
  usable = refl;
  count = refl;
}

getbuf_lem_example :
    (s1 s2 : Sys) × (getbuf_begin 0 with_pool ≡ done true s1)
    × (getbuf_end 0 s1 ≡ done 4100 s2)
    × IsPool s2 0 (4108 ∷ [])
    × (s2.words 4096 ≡ 0)
    × ((a : ℕ) → (a == 4096) ≡ false → s2.words a ≡ with_pool.words a)
getbuf_lem_example = getbuf_lem with_pool 0 4096 (4108 ∷ []) with_pool-IsPool

-- the buffer at 4120 is in use, and holds its pool's id
freebuf_lem_example :
    (s' : Sys) × (freebuf 4124 with_pool ≡ done true s')
    × IsPool s' 0 (4120 ∷ 4096 ∷ 4108 ∷ [])
    × ((a : ℕ) → (a == 4120) ≡ false → s'.words a ≡ with_pool.words a)
freebuf_lem_example =
    freebuf_lem with_pool 0 4120 (4096 ∷ 4108 ∷ []) with_pool-IsPool refl (omega arith)
      (omega arith) (refl, (refl, tt))

-- port 3 holds the message 77 in the node at 800, and the node at 808 is free
abbrev with_port : Sys
with_port = record machine {
  words = λ a. if a == 800 then 77 else 0;
  ptfree = 808;
  porttab = λ i. record {
    ptssem = 4;
    ptrsem = 4;
    ptstate = PtState.alloc;
    ptmaxcnt = 2;
    ptseq = 1;
    pthead = 800;
    pttail = 800;
  };
}

with_port-IsPort : IsPort with_port 3 (800 ∷ []) (808 ∷ [])
with_port-IsPort = record {
  list = (refl, (omega arith, omega arith, omega arith), refl);
  tail = refl;
  free = (refl, (omega arith, omega arith, omega arith), refl);
  distinct = ((tt, tt), (tt, tt));
  apart = ((refl, tt), tt);
}

ptsend_end-append_example :
    ((◌≡◌ {A = List ℕ} (808 ∷ []) []) × (ptsend_end 3 1 99 with_port ≡ halted))
    ⊎ ((f : ℕ) × (fs' : List ℕ) × (s' : Sys) × ((808 ∷ []) ≡ f ∷ fs')
        × (ptsend_end 3 1 99 with_port ≡ (signal 4 >>= λ _. pure true) s')
        × IsPort s' 3 (800 ∷ f ∷ []) fs'
        × (messages s'.words (800 ∷ f ∷ []) ≡ 77 ∷ 99 ∷ []))
ptsend_end-append_example =
    ptsend_end-append with_port 3 1 99 (800 ∷ []) (808 ∷ []) with_port-IsPort refl

ptrecv_end-first_example :
    (m : ℕ) × (s' : Sys) × (ptrecv_end 3 1 with_port ≡ (signal 4 >>= λ _. pure (some m)) s')
    × IsPort s' 3 [] (800 ∷ 808 ∷ [])
    × (77 ∷ [] ≡ m ∷ messages s'.words [])
ptrecv_end-first_example = ptrecv_end-first with_port 3 1 800 [] (808 ∷ []) with_port-IsPort refl

ptinit_lem_example :
    ((ptinit 100 with_heap ≡ halted) × AllBelow 800 with_heap.memlist.blocks)
    ⊎ ((node : ℕ) × (s' : Sys) × (ptinit 100 with_heap ≡ done true s')
        × Taken 4096 8192 (100 * 8) node with_heap.memlist.blocks s'.memlist.blocks
        × NodeChain s'.words s'.ptfree (nodes_from (100 - 1) node)
        × Distinct (nodes_from (100 - 1) node)
        × ((id : ℕ) → id < n_ports → (s'.porttab id).ptstate ≡ PtState.free))
ptinit_lem_example =
    ptinit_lem with_heap 4096 8192 0 100 with_heap-IsValid (refl, tt) (omega arith) (omega arith)

-- the text "a" stands for the empty prefix, on device 17
abbrev no_prefix : Mapping
no_prefix = record { prefix = []; replace = b'a' ∷ []; device = 17 }

abbrev text_a : Chars
text_a i = if i == 0 then b'a' else 0

abbrev one_name : Namespace
one_name = record {
  nametab = λ i. record { nprefix = λ j. 0; nreplace = text_a; ndevice = 17 };
  nnames = 1;
}

one_name-IsTable : IsTable one_name.nametab 0 (no_prefix ∷ [])
one_name-IsTable = (
  record {
    prefix = refl;
    prefix_fits = omega arith;
    replace = (refl, refl, refl);
    replace_fits = omega arith;
    device = refl;
  },
  tt,
)

namrepl_lem_example :
    Rewritten (rewrite (no_prefix ∷ []) (b'a' ∷ [])) (λ j. 0) (namrepl one_name text_a (λ j. 0))
namrepl_lem_example =
    namrepl_lem one_name (no_prefix ∷ []) text_a (λ j. 0) (b'a' ∷ []) one_name-IsTable refl
      (refl, refl, refl) (omega arith)

-- a name of 130 characters
abbrev long_name : Chars
long_name i = if ltb i 130 then b'b' else 0

abbrev bs : ℕ → List ℕ
bs zero = []
bs (suc n) = b'b' ∷ bs n

long_name-Holds : (n i : ℕ) → i + n ≡ 130 → Holds long_name i (bs n)
long_name-Holds zero i e = let end : ltb i 130 ≡ false = ground arith in rw end refl
long_name-Holds (suc n) i e =
    let more : ltb i 130 ≡ true = ground arith in
    (rw more refl, refl, long_name-Holds n (i + 1) (omega arith))

namrepl-long_example :
    (new : Chars) × (namrepl one_name long_name (λ j. 99) ≡ (some 17, new))
    × ((t : ℕ) → t < 1 → new t ≡ text_a t)
    × ((t : ℕ) → 1 ≤ t → new t ≡ 99)
namrepl-long_example =
    namrepl-long one_name no_prefix [] long_name (λ j. 99) (bs 130) one_name-IsTable refl
      (long_name-Holds 130 0 refl) (omega arith) (omega arith) refl

mount_lem_example :
    ((max_prefix ≤ 0 ⊎ (max_replace ≤ 1 ⊎ (n_devs ≤ 17 ⊎ (n_names ≤ 1))))
      × (mount (λ j. 0) text_a 17 one_name ≡ (false, one_name)))
    ⊎ ((0 < max_prefix)
        × (1 < max_replace)
        × (17 < n_devs)
        × (1 < n_names)
        × (ns' : Namespace) × (mount (λ j. 0) text_a 17 one_name ≡ (true, ns'))
        × IsTable ns'.nametab 0 (no_prefix ∷ no_prefix ∷ [])
        × (ns'.nnames ≡ 1 + 1))
mount_lem_example =
    mount_lem one_name (no_prefix ∷ []) no_prefix (λ j. 0) text_a one_name-IsTable refl refl
      (refl, refl, refl)

-- the text "10.7"
abbrev two_octets : Chars
two_octets i =
    if i == 0
    then b'1'
    else if i == 1
    then b'0'
    else if i == 2
    then b'.'
    else if i == 3
    then b'7'
    else 0

dot2ip-dotted_example : dot2ip two_octets ≡ some 2567
dot2ip-dotted_example =
    dot2ip-dotted 10 (7 ∷ []) two_octets
      (refl, refl, (refl, refl, (refl, refl, (refl, refl, refl)))) (omega arith) (omega arith)
