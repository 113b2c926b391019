-- ===== src/Port/Fifo.antt =====
-- A port's messages are a queue: what the ends of `ptsend`, `ptrecv` and `_ptclear` do to the lists.
use os_virtual_mem.Prelude.{
  ℕ, ◌≡◌, refl, sym, ap, ◌∙◌, List, [], ◌∷◌, ◌++◌, arith, ◌==◌, inl, inr, true, false,
  if◌then◌else◌, ◌⊎◌, some,
}
use mathlib.Core.Path.{subst}
use os_virtual_mem.Queue.{update}
use os_virtual_mem.Semaphore.{signal}
use os_virtual_mem.Sys.{Sys, Port, set_word, ◌>>=◌, pure, halted}
use os_virtual_mem.Port.{
  next_at, stale, set_port, append_message, remove_message, free_messages, ptsend_end, ptrecv_end,
}
use os_virtual_mem.Port.Nodes.{
  IsNode, NodeChain, NotIn, word_ne_link, Distinct, Apart, last_of, messages, last_of-IsNode,
  NotIn-last_of, NodeChain-link, NodeChain-word, messages-link, messages-word, messages-append,
  NodeChain-append,
}

-- Port `id` holds the nodes `ns`, and `fs` are free.
pub record IsPort (s : Sys) (id : ℕ) (ns fs : List ℕ) : Type 0 where
  pub list : NodeChain s.words (s.porttab id).pthead ns
  pub tail : (s.porttab id).pttail ≡ last_of 0 ns
  pub free : NodeChain s.words s.ptfree fs
  pub distinct : Distinct ns × Distinct fs
  pub apart : Apart ns fs

Apart-nil : (ns : List ℕ) → Apart ns []
Apart-nil [] = tt
Apart-nil (n ∷ ns) = (tt, Apart-nil ns)

Apart-tail : (f : ℕ) (ns fs : List ℕ) → Apart ns (f ∷ fs) → Apart ns fs × NotIn f ns
Apart-tail f [] fs a = (tt, tt)
Apart-tail f (n ∷ ns) fs a =
    let r = Apart-tail f ns fs a.1 in ((a.0.1, r.0), (ground (arith, a.0.0), r.1))

Apart-snoc : (f : ℕ) (ns fs : List ℕ) → Apart ns fs → NotIn f fs → Apart (ns ++ f ∷ []) fs
Apart-snoc f [] fs a n = (n, tt)
Apart-snoc f (m ∷ ns) fs a n = (a.0, Apart-snoc f ns fs a.1 n)

Apart-one : (f : ℕ) (ns : List ℕ) → NotIn f ns → Apart ns (f ∷ [])
Apart-one f [] n = tt
Apart-one f (m ∷ ns) n = ((ground (arith, n.0), tt), Apart-one f ns n.1)

NotIn-snoc : (m f : ℕ) (ns : List ℕ) → NotIn m ns → (m == f) ≡ false → NotIn m (ns ++ f ∷ [])
NotIn-snoc m f [] n h = (h, tt)
NotIn-snoc m f (k ∷ ns) n h = (n.0, NotIn-snoc m f ns n.1 h)

Distinct-snoc : (f : ℕ) (ns : List ℕ) → Distinct ns → NotIn f ns → Distinct (ns ++ f ∷ [])
Distinct-snoc f [] d n = (tt, tt)
Distinct-snoc f (m ∷ ns) d n =
    (NotIn-snoc m f ns d.0 (ground (arith, n.0)), Distinct-snoc f ns d.1 n.1)

Apart-cons : (n : ℕ) (ns fs : List ℕ) → Apart ns fs → NotIn n ns → Apart ns (n ∷ fs)
Apart-cons n [] fs a h = tt
Apart-cons n (m ∷ ns) fs a h = ((ground (arith, h.0), a.0), Apart-cons n ns fs a.1 h.1)

last_of-snoc : (d f : ℕ) (ns : List ℕ) → last_of d (ns ++ f ∷ []) ≡ f
last_of-snoc d f [] = refl
last_of-snoc d f (n ∷ ns) = last_of-snoc n f ns

NotIn-last : (f d : ℕ) (ns fs : List ℕ) → NotIn d fs → Apart ns fs → NotIn (last_of d ns) fs
NotIn-last f d [] fs n a = n
NotIn-last f d (m ∷ ns) fs n a = NotIn-last f m ns fs a.0 a.1

-- what both kinds of `append_message` come to
abbrev Appended : (s s' : Sys) (id msg f : ℕ) (ns fs : List ℕ) → Type 0
Appended s s' id msg f ns fs =
    IsPort s' id (ns ++ f ∷ []) fs
    × (messages s'.words (ns ++ f ∷ []) ≡ messages s.words ns ++ msg ∷ [])

-- the words after the message and a null link are in the node, and after the last node leads to it
abbrev stored : Sys → (msg f : ℕ) → ℕ → ℕ
stored s msg f = update (update s.words (next_at f) 0) f msg

module _ (s : Sys) (id msg f : ℕ) (ns fs : List ℕ) (h : IsPort s id ns (f ∷ fs)) where
  node : IsNode f
  node = h.free.1

  apart : Apart ns fs × NotIn f ns
  apart = Apart-tail f ns fs h.apart

  old : NodeChain (stored s msg f) (s.porttab id).pthead ns
  old =
      let p = (s.porttab id).pthead in
      NodeChain-word (update s.words (next_at f) 0) p f msg ns node
        (NodeChain-link s.words p f 0 ns node (apart.1) h.list)

  spare : NodeChain (stored s msg f) (s.words (next_at f)) fs
  spare =
      NodeChain-word (update s.words (next_at f) 0) (s.words (next_at f)) f msg fs node
        (NodeChain-link s.words (s.words (next_at f)) f 0 fs node h.distinct.1.0 h.free.2)

  one : NodeChain (stored s msg f) f (f ∷ [])
  one =
      let off : (next_at f == f) ≡ false = word_ne_link f f node node in
      let l0 : (next_at f == next_at f) ≡ true = ground arith in (refl, node, rw (off, l0) refl)

  old_messages : messages (stored s msg f) ns ≡ messages s.words ns
  old_messages =
      messages-word (update s.words (next_at f) 0) f msg ns apart.1
      ∙ messages-link s.words (s.porttab id).pthead f 0 ns node h.list

  new_message : messages (stored s msg f) (f ∷ []) ≡ msg ∷ []
  new_message = let w0 : (f == f) ≡ true = ground arith in rw w0 refl

join : {A : Type 0} {xs xs' ys ys' : List A} → xs ≡ xs' → ys ≡ ys' → xs ++ ys ≡ xs' ++ ys'
join e d = rw (e, d) refl

append_message-nil :
    (s : Sys) (id msg f : ℕ) (fs : List ℕ)
    → IsPort s id [] (f ∷ fs)
    → Appended s (append_message id msg s) id msg f [] fs
append_message-nil s id msg f fs h =
    let self : (id == id) ≡ true = ground arith in
    let t0 : ((s.porttab id).pttail == 0) ≡ true = ground (arith, h.tail) in
    let first = h.free.0 in
    let run : append_message id msg s
        ≡ set_port id (record (s.porttab id) { pthead = f; pttail = f })
            (record s { ptfree = s.words (next_at f); words = stored s msg f }) =
      unfold append_message in rw (t0, first) refl in
    subst (λ t. Appended s t id msg f [] fs) (sym run)
      (
        record {
          list = rw self (one s id msg f [] fs h);
          tail = rw self refl;
          free = spare s id msg f [] fs h;
          distinct = ((tt, tt), h.distinct.1.1);
          apart = (h.distinct.1.0, tt);
        },
        new_message s id msg f [] fs h,
      )

append_message-cons :
    (s : Sys) (id msg f n : ℕ) (ns fs : List ℕ)
    → IsPort s id (n ∷ ns) (f ∷ fs)
    → Appended s (append_message id msg s) id msg f (n ∷ ns) fs
append_message-cons s id msg f n ns fs h =
    let self : (id == id) ≡ true = ground arith in
    let first = h.free.0 in
    let a = apart s id msg f (n ∷ ns) fs h in
    let p = (s.porttab id).pthead in
    let tn = last_of-IsNode s.words p n (n ∷ ns) h.list.1 h.list in
    let nz : (last_of n ns == 0) ≡ false = ground (arith, tn) in
    let w1 = stored s msg f in
    let w2 = update w1 (next_at (last_of n ns)) f in
    let before = old s id msg f (n ∷ ns) fs h in
    let only = one s id msg f (n ∷ ns) fs h in
    let run : append_message id msg s
        ≡ set_port id (record (s.porttab id) { pttail = f })
            (record s { ptfree = s.words (next_at f); words = w2 }) =
      unfold append_message in rw (h.tail, nz, first) refl in
    subst (λ t. Appended s t id msg f (n ∷ ns) fs) (sym run)
      (
        record {
          list = rw self (
              NodeChain-append w1 p f n ns (f ∷ []) before only h.distinct.0
                (Apart-one f (n ∷ ns) a.1));
          tail = rw self (sym (last_of-snoc n f ns));
          free =
              NodeChain-link w1 (s.words (next_at f)) (last_of n ns) f fs tn
                (NotIn-last f n ns fs a.0.0 a.0.1) (spare s id msg f (n ∷ ns) fs h);
          distinct = (Distinct-snoc f (n ∷ ns) h.distinct.0 a.1, h.distinct.1.1);
          apart = Apart-snoc f (n ∷ ns) fs a.0 h.distinct.1.0;
        },
        messages-append w2 (n ∷ ns) (f ∷ [])
            ∙ join (messages-link w1 p (last_of n ns) f (n ∷ ns) tn before)
                (messages-link w1 f (last_of n ns) f (f ∷ []) tn only)
            ∙ join (old_messages s id msg f (n ∷ ns) fs h) (new_message s id msg f (n ∷ ns) fs h),
      )

append_message-Appended :
    (s : Sys) (id msg f : ℕ) (ns fs : List ℕ)
    → IsPort s id ns (f ∷ fs)
    → Appended s (append_message id msg s) id msg f ns fs
append_message-Appended s id msg f [] fs h = append_message-nil s id msg f fs h
append_message-Appended s id msg f (n ∷ ns) fs h = append_message-cons s id msg f n ns fs h

-- `ptsend` after its wait, on a port that is still the same: with no free node the kernel halts;
-- otherwise the call comes to its signal to the receivers with the message last in the port's list,
-- in a node that was free.
pub ptsend_end-append :
    (s : Sys) (id seq msg : ℕ) (ns fs : List ℕ)
    → IsPort s id ns fs
    → stale s id seq ≡ false
    → ((fs ≡ []) × (ptsend_end id seq msg s ≡ halted))
      ⊎ ((f : ℕ) × (fs' : List ℕ) × (s' : Sys) × (fs ≡ f ∷ fs')
          × (ptsend_end id seq msg s ≡ (signal (s.porttab id).ptrsem >>= λ _. pure true) s')
          × IsPort s' id (ns ++ f ∷ []) fs'
          × (messages s'.words (ns ++ f ∷ []) ≡ messages s.words ns ++ msg ∷ []))
unfolding ptsend_end
ptsend_end-append s id seq msg ns [] h fresh =
    let none_left : (s.ptfree == 0) ≡ true = ground (arith, h.free) in
    inl (refl, rw (fresh, none_left) refl)
ptsend_end-append s id seq msg ns (f ∷ fs) h fresh =
    let some_left : (s.ptfree == 0) ≡ false = ground (arith, h.free.0, h.free.1) in
    let (port, text) = append_message-Appended s id msg f ns fs h in
    inr (f, fs, append_message id msg s, refl, rw (fresh, some_left) refl, port, text)

-- The first node of the list goes to the free list, and the others keep their messages.
abbrev Removed : (s s' : Sys) (id n : ℕ) (ns fs : List ℕ) → Type 0
Removed s s' id n ns fs = IsPort s' id ns (n ∷ fs) × (messages s.words ns ≡ messages s'.words ns)

unlinked-Removed :
    (s : Sys) (id n : ℕ) (ns fs : List ℕ) (rest : Port)
    → IsPort s id (n ∷ ns) fs
    → NodeChain s.words rest.pthead ns
    → rest.pttail ≡ last_of 0 ns
    → Removed s
        (set_word (next_at n) s.ptfree (set_port id rest (record s { ptfree = n })))
        id
        n
        ns
        fs
unlinked-Removed s id n ns fs rest h first tail =
    let self : (id == id) ≡ true = ground arith in
    let l0 : (next_at n == next_at n) ≡ true = ground arith in
    let node = h.list.1 in
    (
      record {
        list = rw self (NodeChain-link s.words rest.pthead n s.ptfree ns node h.distinct.0.0 first);
        tail = rw self tail;
        free = (
          refl,
          node,
          rw l0 (NodeChain-link s.words s.ptfree n s.ptfree fs node h.apart.0 h.free),
        );
        distinct = (h.distinct.0.1, (h.apart.0, h.distinct.1));
        apart = Apart-cons n ns fs h.apart.1 h.distinct.0.0;
      },
      sym (messages-link s.words rest.pthead n s.ptfree ns node first),
    )

-- what the two tests come to
remove_message-rest :
    (s : Sys) (id n : ℕ) (rest : Port)
    → (s.porttab id).pthead ≡ n
    → (if n == (s.porttab id).pttail
        then record (s.porttab id) { pthead = 0; pttail = 0 }
        else record (s.porttab id) { pthead = s.words (next_at n) })
      ≡ rest
    → remove_message id s
      ≡ set_word (next_at n) s.ptfree (set_port id rest (record s { ptfree = n }))
unfolding remove_message
remove_message-rest s id n rest e d = rw (← d, ← e) refl

remove_message-Removed :
    (s : Sys) (id n : ℕ) (ns fs : List ℕ)
    → IsPort s id (n ∷ ns) fs
    → Removed s (remove_message id s) id n ns fs
remove_message-Removed s id n [] fs h =
    let lone : (n == (s.porttab id).pttail) ≡ true = ground (arith, h.tail) in
    let rest = record (s.porttab id) { pthead = 0; pttail = 0 } in
    subst (λ t. Removed s t id n [] fs)
      (sym (remove_message-rest s id n rest h.list.0 (rw lone refl)))
      (unlinked-Removed s id n [] fs rest h refl refl)
remove_message-Removed s id n (k ∷ ks) fs h =
    let apart = NotIn-last_of n k ks h.distinct.0.0.0 h.distinct.0.0.1 in
    let more : (n == (s.porttab id).pttail) ≡ false = rw h.tail apart in
    let rest = record (s.porttab id) { pthead = s.words (next_at n) } in
    subst (λ t. Removed s t id n (k ∷ ks) fs)
      (sym (remove_message-rest s id n rest h.list.0 (rw more refl)))
      (unlinked-Removed s id n (k ∷ ks) fs rest h h.list.2 h.tail)

-- `ptrecv` after its wait, on a port that is still the same and holds a message: the call comes to its
-- signal to the senders, to return the first message, with the others left in their order and the node
-- free.
pub ptrecv_end-first :
    (s : Sys) (id seq n : ℕ) (ns fs : List ℕ)
    → IsPort s id (n ∷ ns) fs
    → stale s id seq ≡ false
    → (m : ℕ) × (s' : Sys) × (ptrecv_end id seq s
        ≡ (signal (s.porttab id).ptssem >>= λ _. pure (some m)) s')
      × IsPort s' id ns (n ∷ fs)
      × (messages s.words (n ∷ ns) ≡ m ∷ messages s'.words ns)
unfolding ptrecv_end
ptrecv_end-first s id seq n ns fs h fresh =
    let (port, text) = remove_message-Removed s id n ns fs h in
    (s.words n, remove_message id s, rw (fresh, h.list.0) refl, port, ap (λ l. s.words n ∷ l) text)

-- What `_ptclear` does with a port's list: all its nodes are free again, in front of the others.
pub free_messages-append :
    (s : Sys) (id n : ℕ) (ns fs : List ℕ)
    → IsPort s id (n ∷ ns) fs
    → NodeChain (free_messages id s).words (free_messages id s).ptfree ((n ∷ ns) ++ fs)
unfolding free_messages
free_messages-append s id n ns fs h =
    let all =
      NodeChain-append s.words (s.porttab id).pthead s.ptfree n ns fs h.list h.free h.distinct.0
        h.apart in
    subst
      (λ t. NodeChain (update s.words (next_at t) s.ptfree) (s.porttab id).pthead ((n ∷ ns) ++ fs))
      (sym h.tail) all
