-- ===== src/Queue/Frame.antt =====
-- An operation on one queue of the table spares the others.
use os_virtual_mem.Prelude.{ℕ, ◌+◌, ◌≤◌, ◌<◌, ◌≢◌, List, [], ◌∷◌, ◌++◌, arith, sym}
use os_virtual_mem.Queue.{Queues, n_proc, link_between}
use os_virtual_mem.Queue.Links.{
  Absent, AllProc, IsQueue, last_of, first_of, Links-frame, unlink, Links-unlink_frame, Absent-big,
}

-- no process is on both lists
abbrev pub Disjoint : List ℕ → List ℕ → Type 0
Disjoint [] ys = Unit
Disjoint (x ∷ xs) ys = Absent x ys × Disjoint xs ys

-- two queues that share no entry
abbrev pub Apart : ℕ → ℕ → Type 0
Apart q r = (q ≢ r) × (q ≢ r + 1) × (q + 1 ≢ r)

-- What a step on queue `q`, which touches the processes `xs`, does to the others: nothing.
abbrev pub Spares : Queues → Queues → ℕ → List ℕ → Type 0
Spares t t' q xs =
    (r : ℕ) (ys : List ℕ) → IsQueue t r ys → Apart q r → Disjoint xs ys → IsQueue t' r ys

pub Disjoint-back : (xs zs ys : List ℕ) → Disjoint (xs ++ zs) ys → Disjoint zs ys
Disjoint-back [] zs ys d = d
Disjoint-back (x ∷ xs) zs ys d = Disjoint-back xs zs ys d.1

pub Disjoint-front : (xs zs ys : List ℕ) → Disjoint (xs ++ zs) ys → Disjoint xs ys
Disjoint-front [] zs ys d = tt
Disjoint-front (x ∷ xs) zs ys d = (d.0, Disjoint-front xs zs ys d.1)

Disjoint-uncons : (xs ys : List ℕ) (y : ℕ) → Disjoint xs (y ∷ ys) → Absent y xs × Disjoint xs ys
Disjoint-uncons [] ys y d = (tt, tt)
Disjoint-uncons (x ∷ xs) ys y d =
    let rest = Disjoint-uncons xs ys y d.1 in ((λ h. d.0.0 (sym h), rest.0), (d.0.1, rest.1))

pub Disjoint-sym : (xs ys : List ℕ) → Disjoint xs ys → Disjoint ys xs
Disjoint-sym xs [] d = tt
Disjoint-sym xs (y ∷ ys) d = let u = Disjoint-uncons xs ys y d in (u.0, Disjoint-sym xs ys u.1)

-- the entries at both ends of a place on queue `q`
last_of-Absent : (p : ℕ) (xs ys : List ℕ) → Absent p ys → Disjoint xs ys → Absent (last_of p xs) ys
last_of-Absent p [] ys a d = a
last_of-Absent p (x ∷ xs) ys a d = last_of-Absent x xs ys d.0 d.1

first_of-Absent :
    (e : ℕ) (xs ys : List ℕ) → Absent e ys → Disjoint xs ys → Absent (first_of xs e) ys
first_of-Absent e [] ys a d = a
first_of-Absent e (x ∷ xs) ys a d = d.0

last_of-ne : (x p : ℕ) (xs : List ℕ) → p ≢ x → AllProc xs → n_proc ≤ x → last_of p xs ≢ x
last_of-ne x p [] h a big = h
last_of-ne x p (y ∷ xs) h a big = last_of-ne x y xs (omega (arith, a.0)) a.1 big

first_of-ne : (x e : ℕ) (xs : List ℕ) → e ≢ x → AllProc xs → n_proc ≤ x → first_of xs e ≢ x
first_of-ne x e [] h a big = h
first_of-ne x e (y ∷ xs) h a big = omega (arith, a.0)

module _ {t : Queues} {q r : ℕ} {ys : List ℕ} (v : IsQueue t r ys) (apart : Apart q r) where
  -- linking a process in between
  pub link-Spares :
      (pid : ℕ) (xs zs : List ℕ)
      → n_proc ≤ q
      → AllProc xs
      → AllProc zs
      → pid < n_proc
      → Absent pid ys
      → Disjoint xs ys
      → Disjoint zs ys
      → IsQueue (link_between pid (last_of q xs) (first_of zs (q + 1)) t) r ys
  link-Spares pid xs zs head px pz small off dx dz =
      let h = v.head in
      let end = Absent-big (q + 1) ys (omega arith) v.procs in
      let start = Absent-big q ys head v.procs in
      record {
        links =
            Links-frame t pid (last_of q xs) (first_of zs (q + 1)) r ys (r + 1) v.links
              (omega arith, off) (last_of-ne r q xs apart.0 px h, last_of-Absent q xs ys start dx)
              (first_of-Absent (q + 1) zs ys end dz) (omega arith)
              (first_of-ne (r + 1) (q + 1) zs (omega (arith, apart.0)) pz (omega arith));
        procs = v.procs;
        distinct = v.distinct;
        head = v.head;
      }

  -- taking one out
  pub unlink-Spares :
      (xs zs : List ℕ)
      → n_proc ≤ q
      → AllProc xs
      → AllProc zs
      → Disjoint xs ys
      → Disjoint zs ys
      → IsQueue (unlink (last_of q xs) (first_of zs (q + 1)) t) r ys
  unlink-Spares xs zs head px pz dx dz =
      let h = v.head in
      let end = Absent-big (q + 1) ys (omega arith) v.procs in
      let start = Absent-big q ys head v.procs in
      record {
        links =
            Links-unlink_frame t (last_of q xs) (first_of zs (q + 1)) r ys (r + 1) v.links
              (last_of-ne r q xs apart.0 px h, last_of-Absent q xs ys start dx)
              (first_of-Absent (q + 1) zs ys end dz)
              (first_of-ne (r + 1) (q + 1) zs (omega (arith, apart.0)) pz (omega arith));
        procs = v.procs;
        distinct = v.distinct;
        head = v.head;
      }
