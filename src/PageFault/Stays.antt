-- ===== src/PageFault/Stays.antt =====
-- The mappings are coherent again once the faulting page has the frame of the page that left.
use os_virtual_mem.Prelude.{
  ℕ, ◌+◌, ◌%◌, ◌^◌, ◌<◌, ◌≤◌, ◌≡◌, ◌≢◌, refl, true, false, none, some, Option, arith, ◌==◌, ap, sym,
  ◌∙◌, inl, inr, ◌⊎◌, Bool-cases,
}
use os_virtual_mem.Vm.{
  PtRef, Vm, entry_at, maxpdptframe, maxffsframe, same_ref, set_entry, set_entry_self, set_entry_ne,
  with_entry, update,
}
use os_virtual_mem.PageFault.Coherent.{
  Resident, HasCopy, swap_free, InSwap, Coherent, apart_of_flag, same_ref-eq,
}
use os_virtual_mem.PageFault.Refill.{FfsPool, arrived}
use os_virtual_mem.PageFault.Outgoing.{Moved}
use os_virtual_mem.PageFault.Ready.{Ready, Left, is_copy, copy_frame}

-- `install` after an eviction from FFS frame number `i`
abbrev pub installed : Vm → PtRef → ℕ → ℕ → Vm
installed s2 pt i evict =
    with_entry (record s2 { ptmap = update s2.ptmap i (some pt) }) pt
      (arrived (entry_at s2 pt) evict)

-- What the faulting page brings with it.
abbrev pub Brings : (s s2 : Vm) (pt : PtRef) (i f : ℕ) → Option ℕ → Type 0
Brings s s2 pt i f none = (entry_at s2 pt).already_swapped ≡ false
Brings s s2 pt i f (some m) =
    ((entry_at s2 pt).already_swapped ≡ true) × InSwap s m pt × (maxffsframe s + m ≢ f)

-- with a copy or without
abbrev Cases : (s s2 : Vm) (pt : PtRef) (f : ℕ) → Option ℕ → Type 0
Cases s s2 pt f copy =
    ((copy_frame s copy ≡ none)
      × ((k : ℕ) → is_copy copy k ≡ false)
      × ((entry_at s2 pt).already_swapped ≡ false))
    ⊎ ((m : ℕ) × (copy_frame s copy ≡ some (maxffsframe s + m))
        × ((k : ℕ) → is_copy copy k ≡ (k == m))
        × ((entry_at s2 pt).already_swapped ≡ true)
        × InSwap s m pt
        × (maxffsframe s + m ≢ f))

copy_or_none :
    (s s2 : Vm) (pt : PtRef) (i f : ℕ) (copy : Option ℕ)
    → Brings s s2 pt i f copy
    → Cases s s2 pt f copy
copy_or_none s s2 pt i f none br = inl (refl, λ k. refl, br)
copy_or_none s s2 pt i f (some m) br = inr (m, refl, λ k. refl, br.0, br.1, br.2)

module _ (s : Vm) (offset i : ℕ) (pt old : PtRef) (co : Coherent s offset) (small : i < 2048)
    (at : s.ptmap i ≡ some old) (pt_out : (entry_at s pt).pres ≡ false) (s1 s2 : Vm) (f : ℕ)
    (copy : Option ℕ) (in_swap : maxffsframe s ≤ f) (rd : Ready s s1 offset i f)
    (lf : Left s s1 s2 pt old i f copy) (mv : Moved s s2 pt old (maxpdptframe s + i) f)
    (br : Brings s s2 pt i f copy) where
  -- the entries of the pages that stay in their frames
  stays :
      (j : ℕ) (r : PtRef)
      → j < 2048
      → j ≢ i
      → s.ptmap j ≡ some r
      → set_entry s2.entries pt (arrived (entry_at s2 pt) (maxpdptframe s + i)) r ≡ entry_at s1 r
  stays j r lt ne e =
      let res = co.resident j r lt e in
      let not_pt = (apart_of_flag s (λ x. x.pres) r pt res.pres pt_out).0 in
      let not_old : same_ref r old ≡ false = elim (Bool-cases (same_ref r old)) [
        | inl h ↦
            let b = ap (λ x. x.base) (same_ref-eq s r old h) in
            absurd (ne (omega (arith, b, res.base, (co.resident i old small at).base)))
        | inr h ↦ h
      ] in
      set_entry_ne s2.entries pt (arrived (entry_at s2 pt) (maxpdptframe s + i)) r not_pt
      ∙ lf.entries r not_old

  now :
      set_entry s2.entries pt (arrived (entry_at s2 pt) (maxpdptframe s + i)) pt
      ≡ arrived (entry_at s2 pt) (maxpdptframe s + i)
  now = set_entry_self s2.entries pt (arrived (entry_at s2 pt) (maxpdptframe s + i))

  who :
      (j : ℕ) (r : PtRef)
      → update s2.ptmap i (some pt) j ≡ some r
      → ((j ≡ i) × (pt ≡ r)) ⊎ ((j ≢ i) × ((j == i) ≡ false) × (s.ptmap j ≡ some r))
  who j r e = elim (Bool-cases (j == i)) [
    | inl h ↦ inl (ground arith, cc (rw h at e))
    | inr h ↦ inr (ground arith, h, cc (rw h at e, ap (λ m. m j) mv.ptmap))
  ]

  fin-Resident :
      (j : ℕ) (r : PtRef)
      → j < 2048
      → update s2.ptmap i (some pt) j ≡ some r
      → Resident (installed s2 pt i (maxpdptframe s + i)) j r
  fin-Resident j r lt e =
      let top = co.top in
      let lay = co.layout in
      let word : (maxpdptframe s + i) % 2 ^ 20 ≡ maxpdptframe s + i = omega arith in
      elim (who j r e) [
        | inl (here, same) ↦
            rw (← same, here)
              (record {
                pres = ap (λ x. x.pres) now;
                isswapped = ap (λ x. x.isswapped) now;
                base = rw lf.regions (ap (λ x. x.base) now ∙ word);
              })
        | inr (ne, _, was) ↦
            let q = stays j r lt ne was in
            let res = rd.resident j r lt was in
            record {
              pres = rw q res.pres;
              isswapped = rw q res.isswapped;
              base = rw (lf.regions, q) (rw lf.regions1 at res.base);
            }
      ]

  -- a swap frame that is the copy of another page
  copy_stays :
      (j k : ℕ) (r : PtRef)
      → j < 2048
      → j ≢ i
      → (j == i) ≡ false
      → s.ptmap j ≡ some r
      → HasCopy s1 j k r
      → maxffsframe s + k ≢ f
      → is_copy copy k ≡ false
      → HasCopy (installed s2 pt i (maxpdptframe s + i)) j k r
  copy_stays j k r lt ne nb e c off not_m =
      let lay = co.layout in
      let q = stays j r lt ne e in
      let nf : (maxffsframe s + k == f) ≡ false = ground (arith, off) in
      let mapped : s1.ffs2swapmap j ≡ some (maxffsframe s + k) = rw lf.regions1 at c.mapped in
      record {
        small = c.small;
        mapped = rw lf.regions (lf.ffs_other j nb ∙ mapped);
        back = lf.swap k c.small ∙ rw (not_m, nf) c.back;
        same = λ clean x x_lt.
            let before = rw (lf.regions1, lf.words1) at c.same (rw q at clean) x x_lt in
            rw lf.regions (
              mv.spared (maxffsframe s + k) x x_lt (omega arith) off
              ∙ before
              ∙ sym (mv.spared (maxpdptframe s + j) x x_lt (omega arith) (omega arith)));
      }

  -- the copy of another page is not that of the faulting one
  not_copy : (k : ℕ) (r : PtRef) → s1.swap2ffsmap k ≡ some r → is_copy copy k ≡ false
  not_copy k r e =
      let before : s.swap2ffsmap k ≡ some r = ap (λ m. m k) (sym rd.copies) ∙ e in
      elim (copy_or_none s s2 pt i f copy br) [
        | inl (_, never, _) ↦ never k
        | inr (m, _, yes_m, _, w, _) ↦ elim (Bool-cases (k == m)) [
          | inl h ↦ let n : k ≡ m = ground arith in cc (before, w.alone, ap s.swap2ffsmap n)
          | inr h ↦ yes_m k ∙ h
        ]
      ]

  owned_other :
      (j : ℕ) (r : PtRef)
      → j < 2048
      → j ≢ i
      → (j == i) ≡ false
      → s.ptmap j ≡ some r
      → (set_entry s2.entries pt (arrived (entry_at s2 pt) (maxpdptframe s + i)) r).already_swapped
        ≡ true
      → (k : ℕ) × HasCopy (installed s2 pt i (maxpdptframe s + i)) j k r
  owned_other j r lt ne nb e own =
      let (k, c, off) = rd.owned j r lt ne e (rw (stays j r lt ne e) at own) in
      (k, copy_stays j k r lt ne nb e c off (not_copy k r c.back))

  unowned_other :
      (j : ℕ) (r : PtRef)
      → j < 2048
      → j ≢ i
      → (j == i) ≡ false
      → s.ptmap j ≡ some r
      → (set_entry s2.entries pt (arrived (entry_at s2 pt) (maxpdptframe s + i)) r).already_swapped
        ≡ false
      → s2.ffs2swapmap j ≡ none
  unowned_other j r lt ne nb e own =
      lf.ffs_other j nb ∙ rd.unowned j r lt ne e (rw (stays j r lt ne e) at own)

  -- the frame of which swap frame number `k` is the copy
  Shadows : ℕ → PtRef → Type 0
  Shadows k r =
      ((set_entry s2.entries pt (arrived (entry_at s2 pt) (maxpdptframe s + i)) r).pres ≡ true)
      × ((set_entry s2.entries pt (arrived (entry_at s2 pt) (maxpdptframe s + i)) r).already_swapped
          ≡ true)
      × (j : ℕ) × (j < 2048)
      × (update s2.ptmap i (some pt) j ≡ some r)
      × (s2.ffs2swapmap j ≡ some (maxffsframe s2 + k))

  shadow_other :
      (k : ℕ) (r : PtRef)
      → k < 2048
      → is_copy copy k ≡ false
      → s2.swap2ffsmap k ≡ some r
      → Shadows k r
  unfolding Shadows
  shadow_other k r lt never e = elim (Bool-cases (maxffsframe s + k == f)) [
    | inl h ↦ cc (rw (never, h) at (lf.swap k lt), e)
    | inr h ↦
        let off : maxffsframe s + k ≢ f = ground arith in
        let before : s1.swap2ffsmap k ≡ some r = sym (rw (never, h) at (lf.swap k lt)) ∙ e in
        let (p, a, j, j_lt, ne, was, mapped) = rd.shadow k r lt off before in
        let nb : (j == i) ≡ false = ground (arith, ne) in
        let q = stays j r j_lt ne was in
        (
          rw q p,
          rw q a,
          j,
          j_lt,
          rw nb (ap (λ m. m j) mv.ptmap ∙ was),
          rw lf.regions (lf.ffs_other j nb ∙ mapped),
        )
  ]

  pool_other :
      (k : ℕ)
      → k < 2048
      → swap_free s1 (maxffsframe s + k) ≡ true
      → is_copy copy k ≡ false
      → s2.swap2ffsmap k ≡ none
  pool_other k lt free never =
      let (off, empty, _) = rd.pool k lt free in
      let nf : (maxffsframe s + k == f) ≡ false = ground (arith, off) in
      lf.swap k lt ∙ rw (never, nf) empty

  pub installed-Coherent : Coherent (installed s2 pt i (maxpdptframe s + i)) offset
  unfolding Shadows
  installed-Coherent = elim (copy_or_none s s2 pt i f copy br) [
    | inl (here_none, never, clear) ↦ record {
      layout = rw lf.regions co.layout;
      top = rw lf.regions co.top;
      resident = fin-Resident;
      owned = λ j r lt e own. elim (who j r e) [
        | inl (here, same) ↦ cc (ap (λ x. x.already_swapped) now, clear, rw (← same) at own)
        | inr (ne, nb, was) ↦ owned_other j r lt ne nb was own
      ];
      unowned = λ j r lt e own. elim (who j r e) [
        | inl (here, same) ↦ rw here (lf.ffs_here ∙ here_none)
        | inr (ne, nb, was) ↦ unowned_other j r lt ne nb was own
      ];
      shadow = λ k r lt e. shadow_other k r lt (never k) e;
      pool = λ k lt free. pool_other k lt (rw (lf.regions, lf.swaplist) at free) (never k);
      swaplist = rw (lf.regions, lf.swaplist) rd.swaplist.0;
      paged = rw lf.swaplist rd.swaplist.1;
    }
    | inr (m, here_copy, yes_m, own_pt, w, off) ↦ record {
      layout = rw lf.regions co.layout;
      top = rw lf.regions co.top;
      resident = fin-Resident;
      owned = λ j r lt e own. elim (who j r e) [
        | inl (here, same) ↦
            let lay = co.layout in
            let itself : (m == m) ≡ true = ground arith in
            rw (← same, here)
              (
                m,
                record {
                  small = w.small;
                  mapped = rw lf.regions (lf.ffs_here ∙ here_copy);
                  back = lf.swap m w.small ∙ rw (yes_m m, itself) refl;
                  same = λ clean x x_lt.
                      let came = rw w.base at (mv.brought w.isswapped x x_lt) in
                      rw lf.regions
                        (mv.spared (maxffsframe s + m) x x_lt (omega arith) off ∙ sym came);
                },
              )
        | inr (ne, nb, was) ↦ owned_other j r lt ne nb was own
      ];
      unowned = λ j r lt e own. elim (who j r e) [
        | inl (here, same) ↦ cc (ap (λ x. x.already_swapped) now, own_pt, rw (← same) at own)
        | inr (ne, nb, was) ↦ unowned_other j r lt ne nb was own
      ];
      shadow = λ k r lt e. elim (Bool-cases (k == m)) [
        | inl h ↦
            let n : k ≡ m = ground arith in
            let itself : (i == i) ≡ true = ground arith in
            let same : pt ≡ r = cc (rw (yes_m k, h) at (lf.swap k lt), e) in
            rw (← same) (
              ap (λ x. x.pres) now,
              ap (λ x. x.already_swapped) now ∙ own_pt,
              i,
              small,
              rw itself refl,
              rw (lf.regions, n) (lf.ffs_here ∙ here_copy),
            )
        | inr h ↦ shadow_other k r lt (yes_m k ∙ h) e
      ];
      pool = λ k lt free.
          let free1 : swap_free s1 (maxffsframe s + k) ≡ true =
            rw (lf.regions, lf.swaplist) at free in
          let other : (k == m) ≡ false = elim (Bool-cases (k == m)) [
            | inl h ↦
                let n : k ≡ m = ground arith in
                cc (
                  (rd.pool k lt free1).2,
                  ap (λ (z : ℕ). swap_free s (maxffsframe s + z)) n,
                  w.taken,
                )
            | inr h ↦ h
          ] in
          pool_other k lt free1 (yes_m k ∙ other);
      swaplist = rw (lf.regions, lf.swaplist) rd.swaplist.0;
      paged = rw lf.swaplist rd.swaplist.1;
    }
  ]

  -- the pool of free frames is as it was
  pub installed-FfsPool :
      (pool : ℕ) → FfsPool s pool → FfsPool (installed s2 pt i (maxpdptframe s + i)) pool
  installed-FfsPool pool fp = record {
    region = rw (lf.regions, lf.ffslist, rd.ffslist) fp.region;
    vacant = λ j lt free.
        let v = fp.vacant j lt (rw (lf.regions, lf.ffslist, rd.ffslist) at free) in
        let nb : (j == i) ≡ false = elim (Bool-cases (j == i)) [
          | inl h ↦ let n : j ≡ i = ground arith in cc (ap s.ptmap n, v.0, at)
          | inr h ↦ h
        ] in
        (rw nb (ap (λ m. m j) mv.ptmap ∙ v.0), lf.ffs_other j nb ∙ rd.forgets j v.1);
    mapped = λ j lt used. elim (Bool-cases (j == i)) [
      | inl h ↦ (pt, rw h refl)
      | inr h ↦
          let (r, was) = fp.mapped j lt (rw (lf.regions, lf.ffslist, rd.ffslist) at used) in
          (r, rw h (ap (λ m. m j) mv.ptmap ∙ was))
    ];
  }
