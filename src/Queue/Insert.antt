-- ===== src/Queue/Insert.antt =====
-- `insert`: the place of a process on a queue that is ordered by key, and that the walk ends.
use os_virtual_mem.Prelude.{
  length, ℕ, zero, suc, ◌+◌, ◌<◌, ◌≤◌, ◌≡◌, ◌≢◌, refl, true, false, some, List, [], ◌∷◌, ◌++◌,
  arith, ◌==◌, sym, ap, if◌then◌else◌, Bool-cases, inl, inr,
}
use os_virtual_mem.Prelude.Int.{ℤ, leb_ℤ, ◌≤ℤ◌}
use mathlib.Core.List.{append-nil}
use mathlib.Core.Path.{subst}
use os_virtual_mem.Queue.{
  Queues, n_proc, n_qent, isbadqid, link_between, insert_place, insert, walk_fuel, set_key,
}
use os_virtual_mem.Queue.Frame.{Spares, Disjoint, link-Spares, Disjoint-front, Disjoint-back}
use os_virtual_mem.Queue.Links.{
  Links, Absent, Distinct, AllProc, IsQueue, last_of, first_of, Links-first, Links-prev, Links-last,
}
use os_virtual_mem.Queue.Ops.{AllProc-front, AllProc-back, IsQueue-insert}

-- the first occurrence of `v` dropped
drop_val : ℕ → List ℕ → List ℕ
drop_val v [] = []
drop_val v (x ∷ xs) = if x == v then xs else x ∷ drop_val v xs

length-drop_val : (v : ℕ) (xs : List ℕ) → length xs ≤ suc (length (drop_val v xs))
unfolding drop_val
length-drop_val v [] = omega arith
length-drop_val v (x ∷ xs) = ground (arith, length-drop_val v xs)

Absent-drop_val : (z v : ℕ) (xs : List ℕ) → Absent z xs → Absent z (drop_val v xs)
unfolding drop_val
Absent-drop_val z v [] a = tt
Absent-drop_val z v (x ∷ xs) a = elim (Bool-cases (x == v)) [
  | inl e ↦ rw e a.1
  | inr e ↦ rw e (a.0, Absent-drop_val z v xs a.1)
]

Distinct-drop_val : (v : ℕ) (xs : List ℕ) → Distinct xs → Distinct (drop_val v xs)
unfolding drop_val
Distinct-drop_val v [] d = tt
Distinct-drop_val v (x ∷ xs) d = elim (Bool-cases (x == v)) [
  | inl e ↦ rw e d.1
  | inr e ↦ rw e (Absent-drop_val x v xs d.0, Distinct-drop_val v xs d.1)
]

abbrev Below : ℕ → List ℕ → Type 0
Below k [] = Unit
Below k (x ∷ xs) = (x < k) × Below k xs

Below-Absent : (k : ℕ) (xs : List ℕ) → Below (suc k) xs → Absent k xs → Below k xs
Below-Absent k [] b a = tt
Below-Absent k (x ∷ xs) b a =
    (let h = b.0 in let n = a.0 in ground arith, Below-Absent k xs b.1 a.1)

Below-drop_val : (k : ℕ) (xs : List ℕ) → Below (suc k) xs → Distinct xs → Below k (drop_val k xs)
unfolding drop_val
Below-drop_val k [] b d = tt
Below-drop_val k (x ∷ xs) b d = elim (Bool-cases (x == k)) [
  | inl e ↦ let same : x ≡ k = ground arith in rw e (Below-Absent k xs b.1 (rw same at d.0))
  | inr e ↦ let h = b.0 in rw e (ground arith, Below-drop_val k xs b.1 d.1)
]

-- distinct numbers below `k` are at most `k`
length-le : (k : ℕ) (xs : List ℕ) → Below k xs → Distinct xs → length xs ≤ k
length-le zero [] b d = omega arith
length-le zero (x ∷ xs) b d = absurd (let h = b.0 in omega arith)
length-le (suc k) xs b d =
    let ih = length-le k (drop_val k xs) (Below-drop_val k xs b d) (Distinct-drop_val k xs d) in
    omega (arith, length-drop_val k xs)

Below-AllProc : (xs : List ℕ) → AllProc xs → Below n_proc xs
Below-AllProc [] a = tt
Below-AllProc (x ∷ xs) a = (a.0, Below-AllProc xs a.1)

-- A queue holds at most as many items as there are processes.
pub length-IsQueue : {t : Queues} {q : ℕ} {xs : List ℕ} → IsQueue t q xs → length xs ≤ n_proc
length-IsQueue {xs = xs} v = length-le n_proc xs (Below-AllProc xs v.procs) v.distinct

-- the items before and from the place of `key`, by descending keys
module _ (keys : ℕ → ℤ) (key : ℤ) where
  unfoldable pub before : List ℕ → List ℕ
  before [] = []
  before (x ∷ xs) = if leb_ℤ key (keys x) then x ∷ before xs else []

  unfoldable pub after : List ℕ → List ℕ
  after [] = []
  after (x ∷ xs) = if leb_ℤ key (keys x) then after xs else x ∷ xs

  pub before-after : (xs : List ℕ) → before xs ++ after xs ≡ xs
  unfolding before after
  before-after [] = refl
  before-after (x ∷ xs) = elim (Bool-cases (leb_ℤ key (keys x))) [
    | inl e ↦ rw e (ap (◌∷◌ x) (before-after xs))
    | inr e ↦ rw e
  ]

-- the walk stops at the first item from which the key is lower
insert_place_lem :
    (t : Queues) (key : ℤ) (p : ℕ) (xs : List ℕ) (e fuel : ℕ)
    → Links t p xs e
    → leb_ℤ key (t.qkey e) ≡ false
    → length xs < fuel
    → insert_place fuel key (first_of xs e) t ≡ some (first_of (after t.qkey key xs) e)
unfolding insert_place after
insert_place_lem t key p xs e zero l low h = absurd (omega arith)
insert_place_lem t key p [] e (suc fuel) l low h = rw low
insert_place_lem t key p (x ∷ xs) e (suc fuel) l low h = elim (Bool-cases (leb_ℤ key (t.qkey x))) [
  | inl on ↦
      rw (on, Links-first t x xs e l.2) (insert_place_lem t key x xs e fuel l.2 low (omega arith))
  | inr off ↦ rw off
]

prev-of-first :
    (t : Queues) (p : ℕ) (xs ys : List ℕ) (e : ℕ)
    → Links t p (xs ++ ys) e
    → t.qprev (first_of ys e) ≡ some (last_of p xs)
prev-of-first t p xs [] e l = Links-last t p xs e (rw append-nil at l)
prev-of-first t p xs (y ∷ ys) e l = Links-prev t p xs y ys e l

module _ {t : Queues} {q : ℕ} where
  pub IsQueue-set_key :
      {xs : List ℕ} (x : ℕ) (v : ℤ) → IsQueue t q xs → IsQueue (set_key x v t) q xs
  IsQueue-set_key {xs} x v w = record {
    links = links xs q w.links;
    procs = w.procs;
    distinct = w.distinct;
    head = w.head;
  }
    where
      links : (ys : List ℕ) (p : ℕ) → Links t p ys (q + 1) → Links (set_key x v t) p ys (q + 1)
      links = elim [ [] ↦ λ p l. l | y ∷ (ys → ih) ↦ λ p l. (l.0, l.1, ih y l.2) ]

-- ordered by descending key
abbrev pub HeadLe : (ℕ → ℤ) → ℤ → List ℕ → Type 0
HeadLe keys k [] = Unit
HeadLe keys k (y ∷ _) = keys y ≤ℤ k

abbrev pub Descending : (ℕ → ℤ) → List ℕ → Type 0
Descending keys [] = Unit
Descending keys (x ∷ xs) = HeadLe keys (keys x) xs × Descending keys xs

Descending-same :
    (keys keys' : ℕ → ℤ) (pid : ℕ) (xs : List ℕ)
    → ((x : ℕ) → x ≢ pid → keys' x ≡ keys x)
    → Absent pid xs
    → Descending keys xs
    → Descending keys' xs
Descending-same keys keys' pid [] same a d = tt
Descending-same keys keys' pid (x ∷ []) same a d = (tt, tt)
Descending-same keys keys' pid (x ∷ y ∷ xs) same a d = (
  rw (same x (λ h. a.0 (sym h)), same y (λ h. a.1.0 (sym h))) d.0,
  Descending-same keys keys' pid (y ∷ xs) same a.1 d.1,
)

-- Placing a process by its key keeps the order.
Descending-insert :
    (keys keys' : ℕ → ℤ) (pid : ℕ) (key : ℤ) (xs : List ℕ)
    → ((x : ℕ) → x ≢ pid → keys' x ≡ keys x)
    → keys' pid ≡ key
    → Absent pid xs
    → Descending keys xs
    → Descending keys' (before keys key xs ++ pid ∷ after keys key xs)
unfolding before after
Descending-insert keys keys' pid key [] same at a d = (tt, tt)
Descending-insert keys keys' pid key (x ∷ xs) same at a d = elim (Bool-cases (leb_ℤ key (keys x))) [
  | inr e ↦
      rw (e, at)
        (
          rw (same x (λ h. a.0 (sym h))) (ground arith),
          Descending-same keys keys' pid (x ∷ xs) same a d,
        )
  | inl e ↦
      rw e (head xs a.1 d.0 (ground arith), Descending-insert keys keys' pid key xs same at a.1 d.1)
]
  where
    head :
        (ys : List ℕ)
        → Absent pid ys
        → HeadLe keys (keys x) ys
        → key ≤ℤ keys x
        → HeadLe keys' (keys' x) (before keys key ys ++ pid ∷ after keys key ys)
    head [] b h k = rw (at, same x (λ h. a.0 (sym h))) k
    head (y ∷ ys) b h k = elim (Bool-cases (leb_ℤ key (keys y))) [
      | inl e ↦ rw (e, same x (λ h. a.0 (sym h)), same y (λ h. b.0 (sym h))) h
      | inr e ↦ rw (e, at, same x (λ h. a.0 (sym h))) k
    ]

module _ {t : Queues} {q : ℕ} where
  -- `insert` of a live process that is not on the queue, with a key above that of the tail, ends and
  -- puts the process behind the items at the front whose keys are not lower than its own. It changes no
  -- other key, keeps a queue in descending order so, and spares every other queue of the table.
  pub insert_lem :
      (pid : ℕ) (xs : List ℕ) (key : ℤ)
      → IsQueue t q xs
      → q + 1 < n_qent
      → leb_ℤ key (t.qkey (q + 1)) ≡ false
      → pid < n_proc
      → Absent pid xs
      → (t' : Queues) × (insert false pid q key t ≡ some (true, t'))
        × IsQueue t' q (before t.qkey key xs ++ pid ∷ after t.qkey key xs)
        × (t'.qkey pid ≡ key)
        × ((x : ℕ) → x ≢ pid → t'.qkey x ≡ t.qkey x)
        × (Descending t.qkey xs
            → Descending t'.qkey (before t.qkey key xs ++ pid ∷ after t.qkey key xs))
        × Spares t t' q (pid ∷ xs)
  unfolding insert
  insert_lem pid xs key v room low h a =
      let good : isbadqid q ≡ false = let k = v.head in ground arith in
      let n = length-IsQueue v in
      let f = before t.qkey key xs in
      let b = after t.qkey key xs in
      let split = before-after t.qkey key xs in
      let place = insert_place_lem t key q xs (q + 1) walk_fuel v.links low (omega arith) in
      let v' : IsQueue t q (f ++ b) = rw split v in
      let w = IsQueue-insert pid f b v' h (rw split a) in
      (
        set_key pid key (link_between pid (last_of q f) (first_of b (q + 1)) t),
        rw (
          good,
          Links-first t q xs (q + 1) v.links,
          place,
          prev-of-first t q f b (q + 1) v'.links,
        ),
        IsQueue-set_key pid key w,
        ground arith,
        λ x ne. ground arith,
        λ d.
            Descending-insert t.qkey
              (set_key pid key (link_between pid (last_of q f) (first_of b (q + 1)) t)).qkey pid key
              xs (λ x ne. ground arith) (ground arith) a d,
        λ r zs u apart d.
            let d' : Disjoint (f ++ b) zs = subst (λ ws. Disjoint ws zs) (sym split) d.1 in
            IsQueue-set_key pid key (
              link-Spares u apart pid f b v.head (AllProc-front f b v'.procs)
                (AllProc-back f b v'.procs) h d.0 (Disjoint-front f b zs d')
                (Disjoint-back f b zs d')),
      )
