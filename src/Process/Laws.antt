-- ===== src/Process/Laws.antt =====
-- The search for a process slot, and what becomes of a process that is killed while it sleeps.
use os_virtual_mem.Prelude.{
  ℕ, zero, suc, ◌+◌, ◌-◌, ◌%◌, ◌<◌, ◌≡◌, refl, true, false, none, some, arith, ◌==◌, ◌⊎◌, inl, inr,
  Bool-cases, leb, List, ◌∷◌, ◌++◌, ◌≢◌,
}
use os_virtual_mem.Queue.{n_proc}
use os_virtual_mem.PageTable.{destroy_directory}
use os_virtual_mem.FreeList.{FreeList, freed}
use os_virtual_mem.Heap.{freestk}
use os_virtual_mem.KernelService.{freevmem}
use os_virtual_mem.Queue.Links.{IsQueue}
use os_virtual_mem.Clock.{asleep, unsleep}
use os_virtual_mem.Clock.Unsleep.{AllProc-middle, asleep-is_free}
use os_virtual_mem.Sys.{PrState, Sys, done, isbadpid, is_free, set_state}
use os_virtual_mem.Process.{newpid, give_stack, kill_begin, kill_end}

-- What the search of `rounds` slots comes to.
abbrev pub Found : ℕ → Sys → Type 0
Found rounds s =
    ((pid : ℕ) × (s' : Sys) × (newpid rounds s ≡ done (some pid) s')
      × (pid < n_proc)
      × ((s.proctab pid).prstate ≡ PrState.free)
      × (s'.proctab ≡ s.proctab))
    ⊎ ((s' : Sys) × (newpid rounds s ≡ done none s')
        × (s'.proctab ≡ s.proctab)
        × ((j : ℕ) → j < rounds → is_free (s.proctab ((s.nextpid + j) % n_proc)).prstate ≡ false))

free_of : (st : PrState) → is_free st ≡ true → st ≡ PrState.free
free_of PrState.free h = refl
free_of PrState.curr h = cc
free_of PrState.ready h = cc
free_of PrState.recv h = cc
free_of PrState.sleep h = cc
free_of PrState.susp h = cc
free_of PrState.wait h = cc
free_of PrState.rectim h = cc

newpid_rounds : (rounds : ℕ) (s : Sys) → Found rounds s
unfolding newpid
newpid_rounds zero s = inr (s, refl, refl, λ j lt. ground arith)
newpid_rounds (suc k) s = elim (Bool-cases (is_free (s.proctab (s.nextpid % n_proc)).prstate)) [
  | inl h ↦ inl (
    s.nextpid % n_proc,
    record s { nextpid = s.nextpid % n_proc + 1 },
    rw h refl,
    omega arith,
    free_of (s.proctab (s.nextpid % n_proc)).prstate h,
    refl,
  )
  | inr h ↦ elim (newpid_rounds k (record s { nextpid = s.nextpid % n_proc + 1 })) [
    | inl (pid, s', run, small, isfree, same) ↦ inl (pid, s', rw (h, run) refl, small, isfree, same)
    | inr (s', run, same, taken) ↦ inr (
      s',
      rw (h, run) refl,
      same,
      λ j lt. elim (Bool-cases (j == 0)) [
        | inl z ↦
            let first : j ≡ 0 = ground arith in
            let at : (s.nextpid + j) % n_proc ≡ s.nextpid % n_proc = omega arith in rw at h
        | inr z ↦
            let nz : 0 < j = ground arith in
            let i : j - 1 < k = omega arith in
            let at : (s.nextpid + j) % n_proc ≡ (s.nextpid % n_proc + 1 + (j - 1)) % n_proc =
              omega arith in
            rw at (taken (j - 1) i)
      ],
    )
  ]
]

-- `newpid` finds a free slot if there is one: it gives a process id whose slot is free, or fails where
-- every slot is taken. The process table is unchanged.
pub newpid_lem :
    (s : Sys)
    → ((pid : ℕ) × (s' : Sys) × (newpid n_proc s ≡ done (some pid) s')
        × (pid < n_proc)
        × ((s.proctab pid).prstate ≡ PrState.free)
        × (s'.proctab ≡ s.proctab))
      ⊎ ((s' : Sys) × (newpid n_proc s ≡ done none s')
          × (s'.proctab ≡ s.proctab)
          × ((pid : ℕ) → pid < n_proc → is_free (s.proctab pid).prstate ≡ false))
newpid_lem s = elim (newpid_rounds n_proc s) [
  | inl found ↦ inl found
  | inr (s', run, same, taken) ↦ inr (
    s',
    run,
    same,
    λ pid lt.
        let j : (pid + n_proc - s.nextpid % n_proc) % n_proc < n_proc = omega arith in
        let at : (s.nextpid + (pid + n_proc - s.nextpid % n_proc) % n_proc) % n_proc ≡ pid =
          omega arith in
        rw at at (taken ((pid + n_proc - s.nextpid % n_proc) % n_proc) j),
  )
]

asleep-cases : (st : PrState) → asleep st ≡ true → (st ≡ PrState.sleep) ⊎ (st ≡ PrState.rectim)
asleep-cases PrState.sleep h = inl refl
asleep-cases PrState.rectim h = inr refl
asleep-cases PrState.free h = cc
asleep-cases PrState.curr h = cc
asleep-cases PrState.ready h = cc
asleep-cases PrState.recv h = cc
asleep-cases PrState.susp h = cc
asleep-cases PrState.wait h = cc

module _ (s : Sys) (pid : ℕ) (l : FreeList) where
  -- what is left of a killed process
  killed : Sys
  killed = set_state pid PrState.free (record s { prcount = s.prcount - 1; memlist = l })

  stack_run :
      (s0 : Sys)
      → freestk s0.memlist
          (s0.proctab pid).prstkbase
          (s0.proctab pid).prstklen
          s0.minheap
          s0.maxheap
        ≡ freed l
      → give_stack pid s0 ≡ done tt (record s0 { memlist = l })
  stack_run s0 e = rw (give_stack, e) refl

  begin_run :
      isbadpid s pid ≡ false
      → pid ≢ 0
      → 2 < s.prcount
      → (s.vm.procs pid).pruser ≡ false
      → freestk s.memlist (s.proctab pid).prstkbase (s.proctab pid).prstklen s.minheap s.maxheap
        ≡ freed l
      → kill_begin pid s ≡ done (some (s.proctab pid).prstate) killed
  unfolding kill_begin killed freevmem
  begin_run good nz many kernel stack =
      let z : (pid == 0) ≡ false = ground arith in
      let more : leb (s.prcount - 1) 1 ≡ false = ground arith in
      rw (good, z, more, stack_run (record s { prcount = s.prcount - 1 }) stack, kernel) refl

  end_run :
      (s.vm.procs pid).pruser ≡ false
      → (kill_end pid PrState.sleep killed ≡ done tt killed)
        × (kill_end pid PrState.rectim killed ≡ done tt killed)
  unfolding kill_end unsleep killed destroy_directory
  end_run kernel =
      let self : (pid == pid) ≡ true = ground arith in
      let bad : isbadpid killed pid ≡ true = rw self (ground arith) in
      (rw (bad, kernel) refl, rw (bad, kernel) refl)

  -- `kill` of a process of the kernel, other than process 0, that sleeps, while at least three processes
  -- live and its stack can be given back: the call runs to its end and the slot of the process is free,
  -- but the process is still on the queue of sleeping processes, which is as it was.
  pub kill-asleep :
      (ys zs : List ℕ)
      → IsQueue s.queues s.sleepq (ys ++ pid ∷ zs)
      → asleep (s.proctab pid).prstate ≡ true
      → pid ≢ 0
      → 2 < s.prcount
      → (s.vm.procs pid).pruser ≡ false
      → freestk s.memlist (s.proctab pid).prstkbase (s.proctab pid).prstklen s.minheap s.maxheap
        ≡ freed l
      → (s1 : Sys) × (s2 : Sys) × (kill_begin pid s ≡ done (some (s.proctab pid).prstate) s1)
        × (kill_end pid (s.proctab pid).prstate s1 ≡ done tt s2)
        × ((s2.proctab pid).prstate ≡ PrState.free)
        × IsQueue s2.queues s2.sleepq (ys ++ pid ∷ zs)
        × (s2.queues ≡ s.queues)
  unfolding killed
  kill-asleep ys zs v sleeps nz many kernel stack =
      let small : leb n_proc pid ≡ false =
        let h = AllProc-middle ys pid zs v.procs in ground arith in
      let alive = asleep-is_free (s.proctab pid).prstate sleeps in
      let good : isbadpid s pid ≡ false = rw (small, alive) refl in
      let self : (pid == pid) ≡ true = ground arith in
      let (at_sleep, at_rectim) = end_run kernel in
      let last : kill_end pid (s.proctab pid).prstate killed ≡ done tt killed =
        elim (asleep-cases (s.proctab pid).prstate sleeps) [
          | inl h ↦ rw h at_sleep
          | inr h ↦ rw h at_rectim
        ] in
      (killed, killed, begin_run good nz many kernel stack, last, rw self refl, v, refl)
