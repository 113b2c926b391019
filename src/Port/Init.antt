-- ===== src/Port/Init.antt =====
-- How the ports start: `ptinit`.
use os_virtual_mem.Prelude.{
  ℕ, ◌-◌, ◌*◌, ◌%◌, ◌^◌, ◌<◌, ◌≡◌, refl, List, [], ◌∷◌, arith, ◌==◌, ltb, some, Bool-cases,
  Option-cases, inl, inr, true, false, if◌then◌else◌, ◌⊎◌,
}
use mathlib.Core.Path.{subst}
use os_virtual_mem.Memory.{sys_err, roundmb, roundmb_of_aligned}
use os_virtual_mem.FreeList.{Block, FreeList, take_first, getfreemem}
use os_virtual_mem.FreeList.Get.{AllBelow, Taken, GetResult, getfreemem_lem}
use os_virtual_mem.FreeList.Laws.{IsValid}
use os_virtual_mem.Heap.{getmem}
use os_virtual_mem.Sys.{Sys, PtState, done, halted}
use os_virtual_mem.Port.{n_ports, ptinit, link_nodes, link_rounds}
use os_virtual_mem.Port.Nodes.{
  NodeChain, Distinct, nodes_from, link_nodes-NodeChain, Distinct-nodes_from,
}

-- every block starts at a multiple of 8
abbrev pub IsAligned : List Block → Type 0
IsAligned [] = Unit
IsAligned (b ∷ bs) = (b.addr % 8 ≡ 0) × IsAligned bs

take_first-IsAligned :
    (n : ℕ) (bs : List Block) {a : ℕ} {bs' : List Block}
    → IsAligned bs
    → take_first n bs ≡ some (a, bs')
    → a % 8 ≡ 0
unfolding take_first
take_first-IsAligned n [] p e = cc
take_first-IsAligned n (b ∷ bs) {a} {bs'} p e = elim (Bool-cases (b.mlength == n)) [
  | inl exact ↦ let h : b.addr ≡ a = cc (rw exact at e) in rw (← h) p.0
  | inr other ↦ elim (Bool-cases (ltb n b.mlength)) [
    | inl big ↦ let h : b.addr ≡ a = cc (rw (other, big) at e) in rw (← h) p.0
    | inr tight ↦ elim (Option-cases (take_first n bs)) [
      | inl miss ↦ cc (rw (other, tight, miss) at e)
      | inr (q, found) ↦
          let h : q.0 ≡ a = cc (rw (other, tight, found) at e) in
          rw (← h) (take_first-IsAligned n bs p.1 found)
    ]
  ]
]

-- what `getmem` returns from an aligned heap
getmem-IsAligned :
    (l : FreeList) (nbytes : ℕ)
    → IsAligned l.blocks
    → 0 < nbytes
    → (getmem l nbytes).0 ≡ sys_err ⊎ ((getmem l nbytes).0 % 8 ≡ 0)
unfolding getmem getfreemem
getmem-IsAligned l nbytes al pos =
    let nz : (nbytes == 0) ≡ false = ground arith in
    elim (Option-cases (take_first (roundmb nbytes) l.blocks)) [
      | inl miss ↦ rw (nz, miss) (inl refl)
      | inr (p, found) ↦
          rw (nz, found) (inr (take_first-IsAligned (roundmb nbytes) l.blocks al found))
    ]

-- `ptinit` of at least one message on a valid and aligned heap: it halts, and every block is too small
-- then, or it takes one block of 8
-- bytes for each message, the free list is all its nodes, and every port is free.
pub ptinit_lem :
    (s : Sys) (lo hi k maxmsgs : ℕ)
    → IsValid lo hi k s.memlist
    → IsAligned s.memlist.blocks
    → 0 < maxmsgs
    → maxmsgs < 2 ^ 28
    → ((ptinit maxmsgs s ≡ halted) × AllBelow (maxmsgs * 8) s.memlist.blocks)
      ⊎ ((node : ℕ) × (s' : Sys) × (ptinit maxmsgs s ≡ done true s')
          × Taken lo hi (maxmsgs * 8) node s.memlist.blocks s'.memlist.blocks
          × NodeChain s'.words s'.ptfree (nodes_from (maxmsgs - 1) node)
          × Distinct (nodes_from (maxmsgs - 1) node)
          × ((id : ℕ) → id < n_ports → (s'.porttab id).ptstate ≡ PtState.free))
unfolding ptinit getmem
ptinit_lem s lo hi k maxmsgs v al pos fits =
    let n : ℕ = maxmsgs * 8 in
    let whole : n % 2 ^ 32 ≡ n = omega arith in
    let rounded : roundmb n ≡ n = roundmb_of_aligned n (omega arith) (omega arith) in
    let links : link_rounds maxmsgs ≡ maxmsgs - 1 = ground arith in
    let r : ℕ × FreeList = getfreemem s.memlist n in
    let result : GetResult lo hi k n s.memlist r =
      getfreemem_lem lo hi k n s.memlist v.high (omega arith) (omega arith) v.chain v.counts in
    elim (Bool-cases (r.0 == sys_err)) [
      | inl refused ↦
          let none_fits : AllBelow n s.memlist.blocks = elim result [
            | inl (_, _, below) ↦ rw rounded at below
            | inr (_, low, _, _) ↦ absurd (ground (arith, refused))
          ] in
          inl (rw (whole, refused) refl, none_fits)
      | inr given ↦
          let s' : Sys = record s {
            memlist = r.1;
            words = link_nodes (maxmsgs - 1) r.0 s.words;
            ptfree = r.0;
            porttab = λ i.
                if ltb i n_ports
                then record (s.porttab i) { ptstate = PtState.free; ptseq = 0 }
                else s.porttab i;
            ptnextid = 0;
          } in
          let t : Taken lo hi n r.0 s.memlist.blocks r.1.blocks = elim result [
            | inl (bad, _, _) ↦ absurd (ground (arith, bad))
            | inr (t, _, _, _) ↦
                subst (λ m. Taken lo hi m r.0 s.memlist.blocks r.1.blocks) rounded t
          ] in
          let aligned : r.0 % 8 ≡ 0 = elim (getmem-IsAligned s.memlist n al (omega arith)) [
            | inl bad ↦ absurd (ground (arith, bad))
            | inr a ↦ a
          ] in
          let low = v.low in
          let high = v.high in
          let above = t.above in
          let below = t.below in
          inr (
            r.0,
            s',
            rw (whole, given, links) refl,
            t,
            link_nodes-NodeChain (maxmsgs - 1) r.0 s.words (omega arith) (omega arith),
            Distinct-nodes_from (maxmsgs - 1) r.0,
            λ id lt. let inside : ltb id n_ports ≡ true = ground arith in rw inside refl,
          )
    ]
