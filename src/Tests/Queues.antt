-- ===== src/Tests/Queues.antt =====
-- Queues and processes at concrete inputs.
use os_virtual_mem.Prelude.{
  List, ℕ, ◌≡◌, ◌≢◌, refl, true, false, some, [], ◌∷◌, ◌++◌, arith, ◌==◌, ◌||◌, if◌then◌else◌,
  length,
}
use os_virtual_mem.Prelude.Int.{ℤ, pos}
use os_virtual_mem.Memory.{roundmb}
use os_virtual_mem.FreeList.{FreeList, block, free_mem}
use os_virtual_mem.Heap.{freestk, freemem}
use os_virtual_mem.Queue
use os_virtual_mem.Queue.{
  Queues, n_proc, n_qent, n_sem, getitem, enqueue, dequeue, newqueue, min_key, max_key,
}
use os_virtual_mem.Queue.Links.{IsQueue}
use os_virtual_mem.Queue.Frame.{Spares}
use os_virtual_mem.Queue.Ops.{getitem_lem}
use os_virtual_mem.Queue.Insert.{before, after, insert_lem, Descending}
use os_virtual_mem.Queue.WakeTimes.{wake_times}
use os_virtual_mem.Clock.{unsleep}
use os_virtual_mem.Clock.Unsleep.{unsleep_lem}
use os_virtual_mem.Sys.{PrState, Sys, done, currpid, quantum, resched}
use os_virtual_mem.Sys.Resched.{resched-switch}
use os_virtual_mem.Message.{send, receive_end}
use os_virtual_mem.Message.Laws.{send-receive_end}
use os_virtual_mem.Process.{kill_begin, kill_end}
use os_virtual_mem.Process.Laws.{kill-asleep}
use os_virtual_mem.Tests.Machine.{ready_two, ready_two-IsQueue, machine}

insert_lem_example :
    (t' : Queues) × (Queue.insert false 7 100 (pos 20) ready_two ≡ some (true, t'))
    × IsQueue t' 100 (
        before ready_two.qkey (pos 20) (3 ∷ 5 ∷ [])
        ++ 7 ∷ after ready_two.qkey (pos 20) (3 ∷ 5 ∷ []))
    × (t'.qkey 7 ≡ pos 20)
    × ((x : ℕ) → x ≢ 7 → t'.qkey x ≡ ready_two.qkey x)
    × (Descending ready_two.qkey (3 ∷ 5 ∷ [])
        → Descending t'.qkey (
            before ready_two.qkey (pos 20) (3 ∷ 5 ∷ [])
            ++ 7 ∷ after ready_two.qkey (pos 20) (3 ∷ 5 ∷ [])))
    × Spares ready_two t' 100 (7 ∷ 3 ∷ 5 ∷ [])
insert_lem_example =
    insert_lem 7 (3 ∷ 5 ∷ []) (pos 20) ready_two-IsQueue (omega arith) refl (omega arith)
      (omega arith)

getitem_lem_example :
    (t' : Queues) × (getitem 5 ready_two ≡ some t')
    × IsQueue t' 100 (3 ∷ [])
    × (t'.qkey ≡ ready_two.qkey)
    × (t'.nextqid ≡ ready_two.nextqid)
    × Spares ready_two t' 100 (3 ∷ 5 ∷ [])
getitem_lem_example = getitem_lem 5 (3 ∷ []) [] ready_two-IsQueue

resched-switch_example :
    (s' : Sys) × (resched machine ≡ done tt s')
    × (currpid s' ≡ 3)
    × IsQueue s'.queues 100
        (before ready_two.qkey (pos 20) (5 ∷ []) ++ 2 ∷ after ready_two.qkey (pos 20) (5 ∷ []))
    × ((s'.proctab 3).prstate ≡ PrState.curr)
    × ((s'.proctab 2).prstate ≡ PrState.ready)
    × (s'.preempt ≡ quantum)
resched-switch_example =
    resched-switch machine 3 (5 ∷ []) ready_two-IsQueue (omega arith) refl refl (omega arith)
      (omega arith) refl refl refl

send-receive_end_example :
    (s1 : Sys) × (s2 : Sys) × (send 5 77 machine ≡ done true s1)
    × (send 5 78 s1 ≡ done false s1)
    × (receive_end 5 s1 ≡ done 77 s2)
    × ((s2.proctab 5).prhasmsg ≡ false)
    × ((q : ℕ) → (q == 5) ≡ false → s2.proctab q ≡ machine.proctab q)
send-receive_end_example = send-receive_end machine 5 77 78 refl refl refl

-- 3 and 5 sleep; the stack of each is 1000 bytes from 1 MiB on, and nothing of the heap is free
abbrev asleep_two : Sys
asleep_two = record machine {
  proctab = λ pid. record (machine.proctab pid) {
    prstate = if pid == 3 || pid == 5 then PrState.sleep else (machine.proctab pid).prstate;
    prstkbase = 1049572;
    prstklen = 1000;
  };
  minheap = 1048576;
  maxheap = 1114111;
  readylist = 104;
  sleepq = 100;
}

abbrev one_stack : FreeList
one_stack = record { mlength = 1000; blocks = block 1048576 1000 ∷ [] }

kill-asleep_example :
    (s1 : Sys) × (s2 : Sys) × (kill_begin 3 asleep_two ≡ done (some PrState.sleep) s1)
    × (kill_end 3 PrState.sleep s1 ≡ done tt s2)
    × ((s2.proctab 3).prstate ≡ PrState.free)
    × IsQueue s2.queues s2.sleepq (3 ∷ 5 ∷ [])
    × (s2.queues ≡ asleep_two.queues)
unfolding freestk freemem roundmb free_mem
kill-asleep_example =
    kill-asleep asleep_two 3 one_stack [] (5 ∷ []) ready_two-IsQueue refl (omega arith)
      (omega arith) refl refl

unsleep_lem_example :
    (t' : Queues) × (us : List ℤ) × (c : ℤ) × (vs : List ℤ) × (unsleep 3 asleep_two
      ≡ done true (record asleep_two { queues = t' }))
    × IsQueue t' 100 (5 ∷ [])
    × (wake_times ready_two.qkey (pos 0) (3 ∷ 5 ∷ []) ≡ us ++ c ∷ vs)
    × (wake_times t'.qkey (pos 0) (5 ∷ []) ≡ us ++ vs)
    × (◌≡◌ {A = ℕ} (length us) 0)
unsleep_lem_example = unsleep_lem asleep_two 100 3 [] (5 ∷ []) ready_two-IsQueue refl
