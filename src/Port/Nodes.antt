-- ===== src/Port/Nodes.antt =====
-- Lists of message nodes in the words of kernel memory.
use os_virtual_mem.Prelude.{
  ℕ, zero, suc, ◌+◌, ◌*◌, ◌%◌, ◌^◌, ◌<◌, ◌≤◌, ◌≡◌, ◌≢◌, refl, sym, ap, ◌∙◌, List, [], ◌∷◌, ◌++◌,
  arith, ◌==◌, true, false,
}
use mathlib.Core.Path.{subst}
use os_virtual_mem.Memory.{add32}
use os_virtual_mem.Queue.{update}
use os_virtual_mem.Port.{next_at, link_nodes}

abbrev pub IsNode : ℕ → Type 0
IsNode n = (0 < n) × (n % 8 ≡ 0) × (n < 2 ^ 32)

-- `p` is the first of the nodes `ns`, each of which leads to the next, and the last to `NULL`.
abbrev pub NodeChain : (ℕ → ℕ) → ℕ → List ℕ → Type 0
NodeChain w p [] = p ≡ 0
NodeChain w p (n ∷ ns) = (p ≡ n) × IsNode n × NodeChain w (w (next_at n)) ns

abbrev pub NotIn : ℕ → List ℕ → Type 0
NotIn n [] = Unit
NotIn n (m ∷ ms) = ((n == m) ≡ false) × NotIn n ms

abbrev pub Distinct : List ℕ → Type 0
Distinct [] = Unit
Distinct (n ∷ ns) = NotIn n ns × Distinct ns

-- no node is in both lists
abbrev pub Apart : List ℕ → List ℕ → Type 0
Apart [] fs = Unit
Apart (n ∷ ns) fs = NotIn n fs × Apart ns fs

-- the last node, or `d`
abbrev pub last_of : ℕ → List ℕ → ℕ
last_of d [] = d
last_of d (n ∷ ns) = last_of n ns

abbrev pub messages : (ℕ → ℕ) → List ℕ → List ℕ
messages w [] = []
messages w (n ∷ ns) = w n ∷ messages w ns

pub link_ne_link :
    (n m : ℕ) → IsNode n → IsNode m → (n == m) ≡ false → (next_at m == next_at n) ≡ false
link_ne_link n m a b h = let ne : n ≢ m = ground arith in ground arith

pub word_ne_link : (n m : ℕ) → IsNode n → IsNode m → (next_at m == n) ≡ false
word_ne_link n m a b = ground arith

pub last_of-IsNode :
    (w : ℕ → ℕ) (p d : ℕ) (ns : List ℕ) → IsNode d → NodeChain w p ns → IsNode (last_of d ns)
last_of-IsNode w p d [] h c = h
last_of-IsNode w p d (n ∷ ns) h c = last_of-IsNode w (w (next_at n)) n ns c.1 c.2

pub NotIn-last_of :
    (n d : ℕ) (ns : List ℕ) → (n == d) ≡ false → NotIn n ns → (n == last_of d ns) ≡ false
NotIn-last_of n d [] h a = h
NotIn-last_of n d (m ∷ ms) h a = NotIn-last_of n m ms a.0 a.1

-- a write to the link of another node, and to a node's message
pub NodeChain-link :
    (w : ℕ → ℕ) (p n v : ℕ) (ns : List ℕ)
    → IsNode n
    → NotIn n ns
    → NodeChain w p ns
    → NodeChain (update w (next_at n) v) p ns
NodeChain-link w p n v [] h a c = c
NodeChain-link w p n v (m ∷ ms) h a c =
    (c.0, c.1, rw (link_ne_link n m h c.1 a.0) (NodeChain-link w (w (next_at m)) n v ms h a.1 c.2))

pub NodeChain-word :
    (w : ℕ → ℕ) (p n v : ℕ) (ns : List ℕ)
    → IsNode n
    → NodeChain w p ns
    → NodeChain (update w n v) p ns
NodeChain-word w p n v [] h c = c
NodeChain-word w p n v (m ∷ ms) h c =
    (c.0, c.1, rw (word_ne_link n m h c.1) (NodeChain-word w (w (next_at m)) n v ms h c.2))

pub messages-link :
    (w : ℕ → ℕ) (p n v : ℕ) (ns : List ℕ)
    → IsNode n
    → NodeChain w p ns
    → messages (update w (next_at n) v) ns ≡ messages w ns
messages-link w p n v [] h c = refl
messages-link w p n v (m ∷ ms) h c =
    let here : (m == next_at n) ≡ false = ground (arith, c.1, h) in
    rw here (ap (λ l. w m ∷ l) (messages-link w (w (next_at m)) n v ms h c.2))

pub messages-word :
    (w : ℕ → ℕ) (n v : ℕ) (ns : List ℕ) → NotIn n ns → messages (update w n v) ns ≡ messages w ns
messages-word w n v [] a = refl
messages-word w n v (m ∷ ms) a =
    let here : (m == n) ≡ false = ground (arith, a.0) in
    rw here (ap (λ l. w m ∷ l) (messages-word w n v ms a.1))

pub messages-append :
    (w : ℕ → ℕ) (ns ms : List ℕ) → messages w (ns ++ ms) ≡ messages w ns ++ messages w ms
messages-append w [] ms = refl
messages-append w (n ∷ ns) ms = ap (λ l. w n ∷ l) (messages-append w ns ms)

-- Two lists become one when the last link of the first leads to the second.
pub NodeChain-append :
    (w : ℕ → ℕ) (p q m : ℕ) (ns fs : List ℕ)
    → NodeChain w p (m ∷ ns)
    → NodeChain w q fs
    → Distinct (m ∷ ns)
    → Apart (m ∷ ns) fs
    → NodeChain (update w (next_at (last_of m ns)) q) p ((m ∷ ns) ++ fs)
NodeChain-append w p q m [] fs c f d a =
    let self : (next_at m == next_at m) ≡ true = ground arith in
    (c.0, c.1, rw self (NodeChain-link w q m q fs c.1 a.0 f))
NodeChain-append w p q m (k ∷ ks) fs c f d a =
    let t = last_of-IsNode w (w (next_at m)) k (k ∷ ks) c.2.1 c.2 in
    let ne = NotIn-last_of m k ks d.0.0 d.0.1 in
    let ne' : (last_of k ks == m) ≡ false = ground arith in
    (
      c.0,
      c.1,
      rw (link_ne_link (last_of k ks) m t c.1 ne')
          (NodeChain-append w (w (next_at m)) q k ks fs c.2 f d.1 a.1),
    )

-- the nodes of a block, each 8 bytes after the one before
abbrev pub nodes_from : (rounds node : ℕ) → List ℕ
nodes_from zero node = node ∷ []
nodes_from (suc k) node = node ∷ nodes_from k (node + 8)

NotIn-nodes_from : (n k node : ℕ) → n < node → NotIn n (nodes_from k node)
NotIn-nodes_from n zero node h = (ground arith, tt)
NotIn-nodes_from n (suc k) node h = (ground arith, NotIn-nodes_from n k (node + 8) (omega arith))

pub Distinct-nodes_from : (k node : ℕ) → Distinct (nodes_from k node)
Distinct-nodes_from zero node = (tt, tt)
Distinct-nodes_from (suc k) node =
    (NotIn-nodes_from node k (node + 8) (omega arith), Distinct-nodes_from k (node + 8))

-- a write below a block of nodes does not show in what the loop leaves there
link_nodes-below :
    (k node a : ℕ) (w : ℕ → ℕ) → a < node → node + 8 * k + 8 ≤ 2 ^ 32 → link_nodes k node w a ≡ w a
unfolding link_nodes
link_nodes-below zero node a w h fits =
    let ne : (a == next_at node) ≡ false = ground arith in rw ne refl
link_nodes-below (suc k) node a w h fits =
    let ne : (a == next_at node) ≡ false = ground arith in
    let up : add32 node 8 ≡ node + 8 = omega arith in
    rw up (
      link_nodes-below k (node + 8) a (update w (next_at node) (node + 8)) (omega arith)
        (omega arith)
      ∙ rw ne refl)

link_nodes-suc :
    (k node : ℕ) (w : ℕ → ℕ)
    → node + 8 * suc k + 8 ≤ 2 ^ 32
    → link_nodes (suc k) node w ≡ link_nodes k (node + 8) (update w (next_at node) (node + 8))
unfolding link_nodes
link_nodes-suc k node w fits = let up : add32 node 8 ≡ node + 8 = omega arith in rw up refl

link_nodes_one :
    (node : ℕ) (w : ℕ → ℕ) → IsNode node → NodeChain (link_nodes 0 node w) node (node ∷ [])
unfolding link_nodes
link_nodes_one node w h =
    let self : (next_at node == next_at node) ≡ true = ground arith in (refl, h, rw self refl)

-- What the loop of `ptinit` leaves is one list of all the nodes.
pub link_nodes-NodeChain :
    (k node : ℕ) (w : ℕ → ℕ)
    → IsNode node
    → node + 8 * k + 8 ≤ 2 ^ 32
    → NodeChain (link_nodes k node w) node (nodes_from k node)
link_nodes-NodeChain zero node w h fits = link_nodes_one node w h
link_nodes-NodeChain (suc k) node w h fits =
    let w1 : ℕ → ℕ = update w (next_at node) (node + 8) in
    let self : (next_at node == next_at node) ≡ true = ground arith in
    let kept : link_nodes k (node + 8) w1 (next_at node) ≡ w1 (next_at node) =
      link_nodes-below k (node + 8) (next_at node) w1 (omega arith) (omega arith) in
    let first : link_nodes k (node + 8) w1 (next_at node) ≡ node + 8 = kept ∙ rw self refl in
    subst (λ v. NodeChain v node (nodes_from (suc k) node)) (sym (link_nodes-suc k node w fits))
      (refl, h, rw first (link_nodes-NodeChain k (node + 8) w1 (omega arith) (omega arith)))
