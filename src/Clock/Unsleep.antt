-- ===== src/Clock/Unsleep.antt =====
-- `unsleep`: a process that leaves the queue of sleeping processes does not delay the others.
use os_virtual_mem.Prelude.{
  ℕ, ◌+◌, ◌<◌, ◌≡◌, refl, true, false, some, List, [], ◌∷◌, ◌++◌, arith, sym, ap, ltb, leb, length,
}
use os_virtual_mem.Prelude.Int.{ℤ, pos, ◌+ℤ◌, eq_of_parts, +ℤ_parts}
use os_virtual_mem.Queue.{Queues, n_proc, update}
use os_virtual_mem.Queue.Links.{Absent, Distinct, AllProc, IsQueue, Links-next, Absent-back}
use os_virtual_mem.Queue.Ops.{getitem_lem}
use os_virtual_mem.Queue.Insert.{IsQueue-set_key}
use os_virtual_mem.Queue.WakeTimes.{
  wake_times, last_time, length-wake_times, wake_times-append, wake_times-same, update_self,
  update_ne,
}
use os_virtual_mem.Sys.{PrState, Sys, done, is_free}
use os_virtual_mem.Clock.{asleep, leave_sleepq, unsleep}

Distinct-middle :
    (xs : List ℕ) (x : ℕ) (ys : List ℕ) → Distinct (xs ++ x ∷ ys) → Absent x xs × Absent x ys
Distinct-middle [] x ys d = (tt, d.0)
Distinct-middle (w ∷ xs) x ys d =
    let r = Distinct-middle xs x ys d.1 in
    (((λ h. (Absent-back w xs (x ∷ ys) d.0).0 (sym h)), r.0), r.1)

sum_swap : (b k c : ℤ) → b +ℤ (c +ℤ k) ≡ b +ℤ k +ℤ c
sum_swap b k c =
    eq_of_parts (b +ℤ (c +ℤ k)) (b +ℤ k +ℤ c)
      (omega (arith, +ℤ_parts b (c +ℤ k), +ℤ_parts c k, +ℤ_parts (b +ℤ k) c, +ℤ_parts b k))

pub AllProc-middle : (xs : List ℕ) (x : ℕ) (ys : List ℕ) → AllProc (xs ++ x ∷ ys) → x < n_proc
AllProc-middle [] x ys a = a.0
AllProc-middle (w ∷ xs) x ys a = AllProc-middle xs x ys a.1

-- a longer delay of `z` puts it and what follows off
wake_times-shift :
    (keys : ℕ → ℤ) (z : ℕ) (k base : ℤ) (ys zs : List ℕ)
    → Absent z ys
    → Absent z zs
    → wake_times (update keys z (keys z +ℤ k)) base (ys ++ z ∷ zs)
      ≡ wake_times keys base ys ++ wake_times keys (last_time keys base ys +ℤ k) (z ∷ zs)
wake_times-shift keys z k base [] zs a b =
    rw (update_self keys z (keys z +ℤ k), sum_swap base k (keys z))
      (ap (◌∷◌ (base +ℤ k +ℤ keys z)) (
        wake_times-same keys (update keys z (keys z +ℤ k)) z z (base +ℤ k +ℤ keys z) zs
          (λ y ne _. update_ne keys z (keys z +ℤ k) y ne) b b))
wake_times-shift keys z k base (w ∷ ys) zs a b =
    rw (update_ne keys z (keys z +ℤ k) w (λ h. a.0 (sym h)))
      (ap (◌∷◌ (base +ℤ keys w)) (wake_times-shift keys z k (base +ℤ keys w) ys zs a.1 b))

module _ {t : Queues} {q : ℕ} where
  -- A process is taken out of the sleep queue, wherever it stands, and every process before it and behind
  -- it wakes when it did before.
  leave_sleepq_lem :
      (pid : ℕ) (ys zs : List ℕ)
      → IsQueue t q (ys ++ pid ∷ zs)
      → (t' : Queues) × (us : List ℤ) × (c : ℤ) × (vs : List ℤ) × (leave_sleepq pid t
          ≡ some (true, t'))
        × IsQueue t' q (ys ++ zs)
        × (wake_times t.qkey (pos 0) (ys ++ pid ∷ zs) ≡ us ++ c ∷ vs)
        × (wake_times t'.qkey (pos 0) (ys ++ zs) ≡ us ++ vs)
        × (length us ≡ length ys)
  unfolding leave_sleepq
  leave_sleepq_lem pid ys [] v =
      let next = Links-next t q ys pid [] (q + 1) v.links in
      let (t', out, w, keys, _, _) = getitem_lem pid ys [] v in
      let base = last_time t.qkey (pos 0) ys in
      let not_proc : ltb (q + 1) n_proc ≡ false = let h = v.head in ground arith in
      (
        t',
        wake_times t.qkey (pos 0) ys,
        base +ℤ t.qkey pid,
        [],
        rw (next, not_proc, out) refl,
        w,
        wake_times-append t.qkey (pos 0) ys (pid ∷ []),
        rw keys (wake_times-append t.qkey (pos 0) ys []),
        length-wake_times t.qkey (pos 0) ys,
      )
  leave_sleepq_lem pid ys (z ∷ zs) v =
      let next = Links-next t q ys pid (z ∷ zs) (q + 1) v.links in
      let c = t.qkey z +ℤ t.qkey pid in
      let (t', out, w, keys, _, _) = getitem_lem pid ys (z ∷ zs) (IsQueue-set_key z c v) in
      let base = last_time t.qkey (pos 0) ys in
      let is_proc : ltb z n_proc ≡ true = let h = AllProc-middle ys z zs w.procs in ground arith in
      let d = Distinct-middle ys z zs w.distinct in
      (
        t',
        wake_times t.qkey (pos 0) ys,
        base +ℤ t.qkey pid,
        wake_times t.qkey (base +ℤ t.qkey pid) (z ∷ zs),
        rw (next, is_proc, out) refl,
        w,
        wake_times-append t.qkey (pos 0) ys (pid ∷ z ∷ zs),
        rw keys (wake_times-shift t.qkey z (t.qkey pid) (pos 0) ys zs d.0 d.1),
        length-wake_times t.qkey (pos 0) ys,
      )

pub asleep-is_free : (st : PrState) → asleep st ≡ true → is_free st ≡ false
asleep-is_free PrState.sleep h = refl
asleep-is_free PrState.rectim h = refl
asleep-is_free PrState.free h = cc
asleep-is_free PrState.curr h = cc
asleep-is_free PrState.ready h = cc
asleep-is_free PrState.recv h = cc
asleep-is_free PrState.susp h = cc
asleep-is_free PrState.wait h = cc

-- `unsleep` of a process that sleeps, wherever it stands on the queue of delays: the call succeeds and
-- changes only the queue table, the process is off the queue, and every process before it and behind it
-- wakes when it did before.
pub unsleep_lem :
    (s : Sys) (q pid : ℕ) (ys zs : List ℕ)
    → IsQueue s.queues q (ys ++ pid ∷ zs)
    → asleep (s.proctab pid).prstate ≡ true
    → (t' : Queues) × (us : List ℤ) × (c : ℤ) × (vs : List ℤ) × (unsleep pid s
        ≡ done true (record s { queues = t' }))
      × IsQueue t' q (ys ++ zs)
      × (wake_times s.queues.qkey (pos 0) (ys ++ pid ∷ zs) ≡ us ++ c ∷ vs)
      × (wake_times t'.qkey (pos 0) (ys ++ zs) ≡ us ++ vs)
      × (length us ≡ length ys)
unfolding unsleep
unsleep_lem s q pid ys zs v sleeps =
    let (t', us, c, vs, run, w, before, behind, place) = leave_sleepq_lem pid ys zs v in
    let small : leb n_proc pid ≡ false = let h = AllProc-middle ys pid zs v.procs in ground arith in
    let alive = asleep-is_free (s.proctab pid).prstate sleeps in
    (t', us, c, vs, rw (small, alive, sleeps, run) refl, w, before, behind, place)
