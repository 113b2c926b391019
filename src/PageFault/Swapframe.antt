-- ===== src/PageFault/Swapframe.antt =====
-- Where a swap frame can come from: the free pool, or a resident page that has a copy.
use os_virtual_mem.Prelude.{
  ℕ, zero, suc, ◌+◌, ◌-◌, ◌*◌, ◌/◌, ◌<◌, ◌≡◌, refl, true, some, arith, Bool-cases, Option-cases,
  inl, inr, ap, ◌⊎◌,
}
use os_virtual_mem.Memory.{page_size, sub32, roundmb}
use os_virtual_mem.FreeList.{FreeList, take_first, getfreemem}
use os_virtual_mem.FreeList.Chain.{has}
use os_virtual_mem.FreeList.Get.{take_first-Taken}
use os_virtual_mem.Vm.{
  Entry, PtRef, Vm, ok, entry_at, maxffsframe, same_ref, no_frame, getswapframe, set_entry,
  set_entry_self, set_entry_ne,
}
use os_virtual_mem.PageFault.{swap_candidate}
use os_virtual_mem.PageFault.Coherent.{swap_free, Coherent, take_first-Paged}

-- the candidate is a swap frame whose page is present
pub swap_candidate_lem :
    (rounds i : ℕ) (s : Vm) (k : ℕ)
    → swap_candidate rounds i s ≡ some k
    → (r : PtRef) × (s.swap2ffsmap k ≡ some r) × ((entry_at s r).pres ≡ true) × (k < i + rounds)
unfolding swap_candidate
swap_candidate_lem zero i s k e = cc
swap_candidate_lem (suc n) i s k e = elim (Option-cases (s.swap2ffsmap i)) [
  | inl empty ↦
      let (r, a, b, c) = swap_candidate_lem n (i + 1) s k (rw (empty, swap_candidate) at e) in
      (r, a, b, omega (arith, c))
  | inr (r, held) ↦ elim (Bool-cases (entry_at s r).pres) [
    | inl here ↦
        let same : i ≡ k = cc (rw (held, here, swap_candidate) at e) in
        (r, rw (← same) held, here, omega (arith, same))
    | inr out ↦
        let (q, a, b, c) = swap_candidate_lem n (i + 1) s k (rw (held, out, swap_candidate) at e) in
        (q, a, b, omega (arith, c))
  ]
]

-- a write to an entry keeps what the new entry has in common with the old one
pub set_entry-keeps :
    {A : Type 0} (g : Entry → A) (f : PtRef → Entry) (r : PtRef) (e : Entry) (q : PtRef)
    → g e ≡ g (f r)
    → g (set_entry f r e q) ≡ g (f q)
set_entry-keeps g f r e q h = elim (Bool-cases (same_ref q r)) [
  | inl same ↦ let eq : q ≡ r = ground arith in rw (eq, set_entry_self) h
  | inr apart ↦ rw (set_entry_ne f r e q apart) refl
]

-- Under coherent mappings `getswapframe` fails and changes nothing, or gives a frame of the swap region
-- that was free.
pub getswapframe_lem :
    (s : Vm) (offset : ℕ)
    → Coherent s offset
    → (getswapframe s ≡ ok no_frame s)
      ⊎ ((k : ℕ) × (l : FreeList) × (getswapframe s
            ≡ ok (maxffsframe s + k) (record s { swaplist = l }))
          × (k < 2048)
          × (swap_free s (maxffsframe s + k) ≡ true))
unfolding getswapframe getfreemem
getswapframe_lem s offset co =
    let n : roundmb page_size ≡ 4096 = unfold roundmb in refl in
    elim (Option-cases (take_first 4096 s.swaplist.blocks)) [
      | inl miss ↦ rw (n, miss) (inl refl)
      | inr (p, found) ↦
          let v = co.swaplist in
          let t =
            take_first-Taken ((maxffsframe s + 2048) * 4096) 4096 v.high (omega arith)
              (maxffsframe s * 4096) s.swaplist.blocks v.chain found in
          let a = take_first-Paged s.swaplist.blocks co.paged found in
          let lo = t.above in
          let up = t.below in
          let at : p.0 / 4096 ≡ maxffsframe s + (p.0 / 4096 - maxffsframe s) = omega arith in
          let byte : (maxffsframe s + (p.0 / 4096 - maxffsframe s)) * 4096 ≡ p.0 = omega arith in
          let free : has p.0 s.swaplist.blocks ≡ true = ground (arith, t.same p.0) in
          rw (n, found)
            (inr (
              p.0 / 4096 - maxffsframe s,
              record { mlength = sub32 s.swaplist.mlength 4096; blocks = p.1 },
              ap
                  (λ (z : ℕ). ok z (record s {
                    swaplist = record { mlength = sub32 s.swaplist.mlength 4096; blocks = p.1 };
                  }))
                  at,
              omega arith,
              rw byte free,
            ))
    ]
