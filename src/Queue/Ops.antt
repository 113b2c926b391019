-- ===== src/Queue/Ops.antt =====
-- `enqueue`, `dequeue`, `getitem`, `getlast` and `newqueue` on well-formed queues: they are the
-- operations of a list.
use os_virtual_mem.Prelude.{
  ℕ, ◌+◌, ◌<◌, ◌≤◌, ◌≡◌, ◌≢◌, refl, true, false, none, some, List, [], ◌∷◌, ◌++◌, arith, leb, sym,
  ◌⊎◌, inl, inr, Bool-cases,
}
use mathlib.Core.List.{append-nil}
use os_virtual_mem.Queue.{
  Queues, n_proc, n_qent, isbadqid, isempty, link_between, getitem, getfirst, enqueue, dequeue,
  newqueue, set_next, set_prev,
}
use os_virtual_mem.Queue.Frame.{Spares, link-Spares, unlink-Spares, Disjoint-front, Disjoint-back}
use os_virtual_mem.Queue.Links.{
  Links, Absent, Distinct, AllProc, IsQueue, last_of, first_of, Links-last, Links-insert,
  Links-remove, Links-prev, Links-next, unlink, Absent-big,
}

AllProc-insert : (xs ys : List ℕ) (x : ℕ) → AllProc (xs ++ ys) → x < n_proc → AllProc (xs ++ x ∷ ys)
AllProc-insert [] ys x a h = (h, a)
AllProc-insert (z ∷ xs) ys x a h = (a.0, AllProc-insert xs ys x a.1 h)

AllProc-remove : (xs ys : List ℕ) (x : ℕ) → AllProc (xs ++ x ∷ ys) → AllProc (xs ++ ys)
AllProc-remove [] ys x a = a.1
AllProc-remove (z ∷ xs) ys x a = (a.0, AllProc-remove xs ys x a.1)

pub AllProc-front : (xs ys : List ℕ) → AllProc (xs ++ ys) → AllProc xs
AllProc-front [] ys a = tt
AllProc-front (z ∷ xs) ys a = (a.0, AllProc-front xs ys a.1)

pub AllProc-back : (xs ys : List ℕ) → AllProc (xs ++ ys) → AllProc ys
AllProc-back [] ys a = a
AllProc-back (z ∷ xs) ys a = AllProc-back xs ys a.1

pub Absent-insert :
    (z : ℕ) (xs ys : List ℕ) (x : ℕ) → Absent z (xs ++ ys) → z ≢ x → Absent z (xs ++ x ∷ ys)
Absent-insert z [] ys x a h = (h, a)
Absent-insert z (w ∷ xs) ys x a h = (a.0, Absent-insert z xs ys x a.1 h)

Absent-remove : (z : ℕ) (xs ys : List ℕ) (x : ℕ) → Absent z (xs ++ x ∷ ys) → Absent z (xs ++ ys)
Absent-remove z [] ys x a = a.1
Absent-remove z (w ∷ xs) ys x a = (a.0, Absent-remove z xs ys x a.1)

Distinct-insert :
    (xs ys : List ℕ) (x : ℕ) → Distinct (xs ++ ys) → Absent x (xs ++ ys) → Distinct (xs ++ x ∷ ys)
Distinct-insert [] ys x d a = (a, d)
Distinct-insert (z ∷ xs) ys x d a =
    (Absent-insert z xs ys x d.0 (λ h. a.0 (sym h)), Distinct-insert xs ys x d.1 a.1)

Distinct-remove : (xs ys : List ℕ) (x : ℕ) → Distinct (xs ++ x ∷ ys) → Distinct (xs ++ ys)
Distinct-remove [] ys x d = d.1
Distinct-remove (z ∷ xs) ys x d = (Absent-remove z xs ys x d.0, Distinct-remove xs ys x d.1)

module _ {t : Queues} {q : ℕ} where
  -- head and tail of a queue stand apart from its items
  ends_apart : {xs : List ℕ} → IsQueue t q xs → Distinct (q ∷ xs) × Absent (q + 1) (q ∷ xs)
  ends_apart {xs} v = (
    (Absent-big q xs v.head v.procs, v.distinct),
    (omega arith, Absent-big (q + 1) xs (omega (arith, v.head)) v.procs),
  )

  -- Linking a process in between the items of a queue inserts it there.
  pub IsQueue-insert :
      (pid : ℕ) (xs ys : List ℕ)
      → IsQueue t q (xs ++ ys)
      → pid < n_proc
      → Absent pid (xs ++ ys)
      → IsQueue (link_between pid (last_of q xs) (first_of ys (q + 1)) t) q (xs ++ pid ∷ ys)
  IsQueue-insert pid xs ys v h a = record {
    links =
        Links-insert t pid q xs ys (q + 1) v.links (ends_apart v).0 (omega (arith, v.head), a)
          (ends_apart v).1 (omega (arith, v.head));
    procs = AllProc-insert xs ys pid v.procs h;
    distinct = Distinct-insert xs ys pid v.distinct a;
    head = v.head;
  }

  -- `getitem` takes a process of a queue out, wherever it stands, keeps the order of the others, and
  -- spares every other queue of the table.
  pub getitem_lem :
      (pid : ℕ) (xs ys : List ℕ)
      → IsQueue t q (xs ++ pid ∷ ys)
      → (t' : Queues) × (getitem pid t ≡ some t')
        × IsQueue t' q (xs ++ ys)
        × (t'.qkey ≡ t.qkey)
        × (t'.nextqid ≡ t.nextqid)
        × Spares t t' q (xs ++ pid ∷ ys)
  unfolding getitem
  getitem_lem pid xs ys v =
      let n = Links-next t q xs pid ys (q + 1) v.links in
      let p = Links-prev t q xs pid ys (q + 1) v.links in
      (
        unlink (last_of q xs) (first_of ys (q + 1)) t,
        rw (n, p),
        record {
          links = Links-remove t q xs pid ys (q + 1) v.links (ends_apart v).0 (ends_apart v).1;
          procs = AllProc-remove xs ys pid v.procs;
          distinct = Distinct-remove xs ys pid v.distinct;
          head = v.head;
        },
        refl,
        refl,
        λ r zs w apart d.
            unlink-Spares w apart xs ys v.head (AllProc-front xs (pid ∷ ys) v.procs)
              (AllProc-back xs (pid ∷ ys) v.procs).1 (Disjoint-front xs (pid ∷ ys) zs d)
              (Disjoint-back xs (pid ∷ ys) zs d).1,
      )

  isempty-nil : IsQueue t q [] → isempty t q ≡ true
  isempty-nil v = let e = v.links.0 in let h = v.head in ground arith

  isempty-cons : (x : ℕ) (xs : List ℕ) → IsQueue t q (x ∷ xs) → isempty t q ≡ false
  isempty-cons x xs v = let e = v.links.0 in let h = v.procs.0 in ground arith

  -- `enqueue` of a live process that is not on the queue appends it.
  pub enqueue_lem :
      (pid : ℕ) (xs : List ℕ)
      → IsQueue t q xs
      → q + 1 < n_qent
      → pid < n_proc
      → Absent pid xs
      → (t' : Queues) × (enqueue false pid q t ≡ some (some pid, t'))
        × IsQueue t' q (xs ++ pid ∷ [])
        × (t'.qkey ≡ t.qkey)
        × Spares t t' q (pid ∷ xs)
  unfolding enqueue
  enqueue_lem pid xs v room h a =
      let good : isbadqid q ≡ false = let k = v.head in ground arith in
      let l = Links-last t q xs (q + 1) v.links in
      let v' : IsQueue t q (xs ++ []) = rw append-nil v in
      let a' : Absent pid (xs ++ []) = rw append-nil a in
      (
        link_between pid (last_of q xs) (q + 1) t,
        rw (good, l),
        IsQueue-insert pid xs [] v' h a',
        refl,
        λ r zs w apart d. link-Spares w apart pid xs [] v.head v.procs tt h d.0 d.1 tt,
      )

Links-clear :
    (t : Queues) (x p : ℕ) (xs : List ℕ) (e : ℕ)
    → Links t p xs e
    → Absent x (p ∷ xs)
    → x ≢ e
    → Links (set_next x none (set_prev x none t)) p xs e
Links-clear t x p [] e l a h = (ground arith, ground arith)
Links-clear t x p (y ∷ xs) e l a h = (ground arith, ground arith, Links-clear t x y xs e l.2 a.1 h)

module _ {t : Queues} {q : ℕ} where
  -- `dequeue` of an empty queue returns `EMPTY` and changes nothing.
  pub dequeue-nil : IsQueue t q [] → q + 1 < n_qent → dequeue q t ≡ some (none, t)
  unfolding dequeue
  dequeue-nil v room = let e = isempty-nil v in rw e (ground arith)

  -- `dequeue` of a queue that holds items takes the first one off.
  pub dequeue-cons :
      (x : ℕ) (xs : List ℕ)
      → IsQueue t q (x ∷ xs)
      → q + 1 < n_qent
      → (t' : Queues) × (dequeue q t ≡ some (some x, t'))
        × IsQueue t' q xs
        × (t'.qkey ≡ t.qkey)
        × Spares t t' q (x ∷ xs)
  unfolding dequeue getfirst
  dequeue-cons x xs v room =
      let good : isbadqid q ≡ false = let k = v.head in ground arith in
      let full = isempty-cons x xs v in
      let first = v.links.0 in
      let (t', e, v', key, _, spares) = getitem_lem x [] xs v in
      let h = v.procs.0 in
      let k = v.head in
      (
        set_next x none (set_prev x none t'),
        rw (good, full, first, e),
        record {
          links = Links-clear t' x q xs (q + 1) v'.links (omega arith, v.distinct.0) (omega arith);
          procs = v'.procs;
          distinct = v'.distinct;
          head = v'.head;
        },
        key,
        λ r zs w apart d.
            let w' = spares r zs w apart d in
            record {
              links =
                  Links-clear t' x r zs (r + 1) w'.links (omega (arith, w'.head), d.0)
                    (omega (arith, w'.head));
              procs = w'.procs;
              distinct = w'.distinct;
              head = w'.head;
            },
      )

-- With the next id behind the process ids, `newqueue` makes an empty queue until the table is used up,
-- and then changes nothing.
pub newqueue_lem :
    (t : Queues)
    → n_proc ≤ t.nextqid
    → ((newqueue t).0 ≡ none) × ((newqueue t).1 ≡ t) × (n_qent ≤ t.nextqid)
      ⊎ ((newqueue t).0 ≡ some t.nextqid)
        × IsQueue (newqueue t).1 t.nextqid []
        × ((newqueue t).1.nextqid ≡ t.nextqid + 2)
unfolding newqueue
newqueue_lem t h = elim (Bool-cases (leb n_qent t.nextqid)) [
  | inl used ↦ rw used (inl (refl, refl, ground arith))
  | inr room ↦ rw room (
      inr (
        refl,
        record { links = (ground arith, ground arith); procs = tt; distinct = tt; head = h },
        refl,
      ))
]
