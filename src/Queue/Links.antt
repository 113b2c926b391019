-- ===== src/Queue/Links.antt =====
-- A queue as a list: the doubly linked path from its head to its tail, and how writes change it.
use os_virtual_mem.Prelude.{ℕ, ◌+◌, ◌<◌, ◌≤◌, ◌≡◌, ◌≢◌, some, List, [], ◌∷◌, ◌++◌, arith, sym}
use os_virtual_mem.Queue.{Queues, n_proc, link_between, set_next, set_prev}

-- from `p` the links lead through `xs` to `e`, and back
abbrev pub Links : Queues → ℕ → List ℕ → ℕ → Type 0
Links t p [] e = (t.qnext p ≡ some e) × (t.qprev e ≡ some p)
Links t p (x ∷ xs) e = (t.qnext p ≡ some x) × (t.qprev x ≡ some p) × Links t x xs e

abbrev pub Absent : ℕ → List ℕ → Type 0
Absent x [] = Unit
Absent x (y ∷ ys) = (x ≢ y) × Absent x ys

abbrev pub Distinct : List ℕ → Type 0
Distinct [] = Unit
Distinct (x ∷ xs) = Absent x xs × Distinct xs

abbrev pub AllProc : List ℕ → Type 0
AllProc [] = Unit
AllProc (x ∷ xs) = (x < n_proc) × AllProc xs

abbrev pub last_of : ℕ → List ℕ → ℕ
last_of p [] = p
last_of p (x ∷ xs) = last_of x xs

abbrev pub first_of : List ℕ → ℕ → ℕ
first_of [] e = e
first_of (x ∷ _) e = x

-- Queue `q` holds the processes `xs`, in order.
pub record IsQueue (t : Queues) (q : ℕ) (xs : List ℕ) : Type 0 where
  pub links : Links t q xs (q + 1)
  pub procs : AllProc xs
  pub distinct : Distinct xs
  pub head : n_proc ≤ q

pub Absent-front : (x : ℕ) (xs ys : List ℕ) → Absent x (xs ++ ys) → Absent x xs
Absent-front x [] ys a = tt
Absent-front x (y ∷ xs) ys a = (a.0, Absent-front x xs ys a.1)

pub Absent-back : (x : ℕ) (xs ys : List ℕ) → Absent x (xs ++ ys) → Absent x ys
Absent-back x [] ys a = a
Absent-back x (y ∷ xs) ys a = Absent-back x xs ys a.1

pub Absent-append : (x : ℕ) (xs ys : List ℕ) → Absent x xs → Absent x ys → Absent x (xs ++ ys)
Absent-append x [] ys a b = b
Absent-append x (y ∷ xs) ys a b = (a.0, Absent-append x xs ys a.1 b)

-- a number that no process has
pub Absent-big : (x : ℕ) (xs : List ℕ) → n_proc ≤ x → AllProc xs → Absent x xs
Absent-big x [] h a = tt
Absent-big x (y ∷ xs) h a = (omega arith, Absent-big x xs h a.1)

pub ne-last_of : (x p : ℕ) (xs : List ℕ) → x ≢ p → Absent x xs → x ≢ last_of p xs
ne-last_of x p [] h a = h
ne-last_of x p (y ∷ xs) h a = ne-last_of x y xs a.0 a.1

pub ne-first_of : (x e : ℕ) (xs : List ℕ) → x ≢ e → Absent x xs → x ≢ first_of xs e
ne-first_of x e [] h a = h
ne-first_of x e (y ∷ xs) h a = a.0

-- what the links say at both ends
pub Links-last :
    (t : Queues) (p : ℕ) (xs : List ℕ) (e : ℕ) → Links t p xs e → t.qprev e ≡ some (last_of p xs)
Links-last t p [] e l = l.1
Links-last t p (x ∷ xs) e l = Links-last t x xs e l.2

pub Links-first :
    (t : Queues) (p : ℕ) (xs : List ℕ) (e : ℕ) → Links t p xs e → t.qnext p ≡ some (first_of xs e)
Links-first t p [] e l = l.0
Links-first t p (x ∷ xs) e l = l.0

-- Writing the links of `pid`, `a` forward and `b` back spares a path that avoids them.
pub Links-frame :
    (t : Queues) (pid a b p : ℕ) (xs : List ℕ) (e : ℕ)
    → Links t p xs e
    → Absent pid (p ∷ xs)
    → Absent a (p ∷ xs)
    → Absent b xs
    → pid ≢ e
    → b ≢ e
    → Links (link_between pid a b t) p xs e
Links-frame t pid a b p [] e l np na nb pe be = (ground arith, ground arith)
Links-frame t pid a b p (x ∷ xs) e l np na nb pe be =
    (ground arith, ground arith, Links-frame t pid a b x xs e l.2 np.1 na.1 nb.1 pe be)

-- Linking `pid` in between `xs` and `ys`.
pub Links-insert :
    (t : Queues) (pid p : ℕ) (xs ys : List ℕ) (e : ℕ)
    → Links t p (xs ++ ys) e
    → Distinct (p ∷ (xs ++ ys))
    → Absent pid (p ∷ (xs ++ ys))
    → Absent e (p ∷ (xs ++ ys))
    → pid ≢ e
    → Links (link_between pid (last_of p xs) (first_of ys e) t) p (xs ++ pid ∷ ys) e
Links-insert t pid p [] [] e l d np ne pe =
    (ground arith, ground arith, (ground arith, ground arith))
Links-insert t pid p [] (y ∷ ys) e l d np ne pe = (
  ground arith,
  ground arith,
  (
    ground arith,
    ground arith,
    Links-frame t pid p y y ys e l.2 np.1 d.0 d.1.0 pe (λ h. ne.1.0 (sym h)),
  ),
)
Links-insert t pid p (x ∷ xs) ys e l d np ne pe =
    let u = ne-last_of p x xs d.0.0 (Absent-front p xs ys d.0.1) in
    let v = ne-first_of x e ys (λ h. ne.1.0 (sym h)) (Absent-back x xs ys d.1.0) in
    (ground arith, ground arith, Links-insert t pid x xs ys e l.2 d.1 np.1 ne.1 pe)

-- The neighbours of an item, and the path once it is unlinked.
pub Links-prev :
    (t : Queues) (p : ℕ) (xs : List ℕ) (x : ℕ) (ys : List ℕ) (e : ℕ)
    → Links t p (xs ++ x ∷ ys) e
    → t.qprev x ≡ some (last_of p xs)
Links-prev t p [] x ys e l = l.1
Links-prev t p (y ∷ xs) x ys e l = Links-prev t y xs x ys e l.2

pub Links-next :
    (t : Queues) (p : ℕ) (xs : List ℕ) (x : ℕ) (ys : List ℕ) (e : ℕ)
    → Links t p (xs ++ x ∷ ys) e
    → t.qnext x ≡ some (first_of ys e)
Links-next t p [] x ys e l = Links-first t x ys e l.2
Links-next t p (y ∷ xs) x ys e l = Links-next t y xs x ys e l.2

abbrev pub unlink : (prev next : ℕ) → Queues → Queues
unlink prev next t = set_prev next (some prev) (set_next prev (some next) t)

pub Links-unlink_frame :
    (t : Queues) (a b p : ℕ) (xs : List ℕ) (e : ℕ)
    → Links t p xs e
    → Absent a (p ∷ xs)
    → Absent b xs
    → b ≢ e
    → Links (unlink a b t) p xs e
Links-unlink_frame t a b p [] e l na nb be = (ground arith, ground arith)
Links-unlink_frame t a b p (x ∷ xs) e l na nb be =
    (ground arith, ground arith, Links-unlink_frame t a b x xs e l.2 na.1 nb.1 be)

pub Links-remove :
    (t : Queues) (p : ℕ) (xs : List ℕ) (x : ℕ) (ys : List ℕ) (e : ℕ)
    → Links t p (xs ++ x ∷ ys) e
    → Distinct (p ∷ (xs ++ x ∷ ys))
    → Absent e (p ∷ (xs ++ x ∷ ys))
    → Links (unlink (last_of p xs) (first_of ys e) t) p (xs ++ ys) e
Links-remove t p [] x [] e l d ne = (ground arith, ground arith)
Links-remove t p [] x (y ∷ ys) e l d ne = (
  ground arith,
  ground arith,
  Links-unlink_frame t p y y ys e l.2.2 d.0.1 d.1.1.0 (λ h. ne.1.1.0 (sym h)),
)
Links-remove t p (z ∷ xs) x ys e l d ne =
    let u = ne-last_of p z xs d.0.0 (Absent-front p xs (x ∷ ys) d.0.1) in
    let v = ne-first_of z e ys (λ h. ne.1.0 (sym h)) (Absent-back z xs (x ∷ ys) d.1.0).1 in
    (ground arith, ground arith, Links-remove t z xs x ys e l.2 d.1 ne.1)
