-- ===== src/Tests/Machine.antt =====
-- A kernel state for the examples: processes 3 and 5 are ready, 2 is current, 9 is free.
use os_virtual_mem.Prelude.{refl, false, none, some, [], ◌∷◌, arith, if◌then◌else◌, ◌==◌}
use os_virtual_mem.Prelude.Int.{pos}
use os_virtual_mem.FreeList.{FreeList}
use os_virtual_mem.Vm.{Vm, zero_entry}
use os_virtual_mem.Queue.{Queues, min_key, max_key}
use os_virtual_mem.Queue.Links.{IsQueue}
use os_virtual_mem.Sys.{PrState, PtState, Sys}

abbrev pub ready_two : Queues
ready_two = record {
  qkey = λ i.
      if i == 3 then pos 30 else if i == 5 then pos 10 else if i == 101 then min_key else max_key;
  qnext = λ i.
      if i == 100 then some 3 else if i == 3 then some 5 else if i == 5 then some 101 else none;
  qprev = λ i.
      if i == 3 then some 100 else if i == 5 then some 3 else if i == 101 then some 5 else none;
  nextqid = 102;
}

pub ready_two-IsQueue : IsQueue ready_two 100 (3 ∷ 5 ∷ [])
ready_two-IsQueue = record {
  links = (refl, refl, (refl, refl, (refl, refl)));
  procs = omega arith;
  distinct = omega arith;
  head = omega arith;
}

abbrev pub no_blocks : FreeList
no_blocks = record { mlength = 0; blocks = [] }

abbrev pub bare_vm : Vm
bare_vm = record {
  entries = λ r. zero_entry;
  words = λ f i. 0;
  pdptlist = no_blocks;
  ffslist = no_blocks;
  swaplist = no_blocks;
  vstacklist = no_blocks;
  regions = record {
    minpdpt = 4194304;
    maxpdpt = 5242879;
    minffs = 5242880;
    maxffs = 13631487;
    minswap = 13631488;
    maxswap = 22020095;
    minvstack = 22020096;
    maxvstack = 30408703;
  };
  n_static_pages = none;
  n_free_vpages = 4096;
  ptmap = λ i. none;
  swap2ffsmap = λ i. none;
  ffs2swapmap = λ i. none;
  procs = λ pid. record { pdbr = 4194304; hsize = 64; vfree = 64; vmax = 7425; pruser = false };
  currpid = 2;
}

abbrev pub machine : Sys
machine = record {
  vm = bare_vm;
  queues = ready_two;
  proctab = λ pid. record {
    prstate =
        if pid == 2
        then PrState.curr
        else if pid == 3
        then PrState.ready
        else if pid == 5
        then PrState.ready
        else PrState.free;
    prprio = if pid == 3 then pos 30 else if pid == 5 then pos 10 else pos 20;
    prstkbase = 0;
    prstklen = 0;
    prsem = none;
    prparent = 0;
    prmsg = 0;
    prhasmsg = false;
  };
  semtab = λ i. record { used = i == 4; scount = pos 2; squeue = 104 };
  memlist = no_blocks;
  minheap = 0;
  maxheap = 0;
  readylist = 100;
  sleepq = 102;
  ndefers = 0;
  attempt = false;
  preempt = pos 1;
  prcount = 3;
  nextpid = 0;
  nextsem = 0;
  words = λ a. 0;
  nbpools = 0;
  buftab = λ i. record { bpnext = 0; bpsem = 0; bpsize = 0 };
  ptfree = 0;
  porttab = λ i. record {
    ptssem = 0;
    ptrsem = 0;
    ptstate = PtState.free;
    ptmaxcnt = 0;
    ptseq = 0;
    pthead = 0;
    pttail = 0;
  };
  ptnextid = 0;
}
