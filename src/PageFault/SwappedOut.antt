-- ===== src/PageFault/SwappedOut.antt =====
-- The page that leaves FFS is in swap, and comes back with its words.
use os_virtual_mem.Prelude.{
  ℕ, ◌+◌, ◌<◌, ◌≡◌, ◌≢◌, refl, true, false, none, some, Option, arith, ◌==◌, ap, sym, ◌∙◌,
  Bool-cases, inl, inr,
}
use os_virtual_mem.Memory.{page_size, ceil_div}
use os_virtual_mem.Vm.{Regions, PtRef, Vm, entry_at, maxffsframe}
use os_virtual_mem.PageFault.Coherent.{swap_free, InSwap}
use os_virtual_mem.PageFault.Ready.{Ready, Left, is_copy}
use os_virtual_mem.PageFault.Stays.{Brings}

module _ (s s1 s2 : Vm) (offset i f k : ℕ) (pt old : PtRef) (at_k : f ≡ maxffsframe s + k)
    (small : k < 2048) where
  -- the swap frame of the faulting page is not that of the page that leaves
  other_copy : (copy : Option ℕ) → Brings s s2 pt i f copy → is_copy copy k ≡ false
  other_copy none br = refl
  other_copy (some m) br = elim (Bool-cases (k == m)) [
    | inr h ↦ h
    | inl h ↦ let n : k ≡ m = ground arith in absurd (br.2 (omega arith))
  ]

  pub out-InSwap :
      (s' : Vm) (copy : Option ℕ)
      → Ready s s1 offset i f
      → Left s s1 s2 pt old i f copy
      → Brings s s2 pt i f copy
      → s'.swaplist ≡ s2.swaplist
      → s'.swap2ffsmap ≡ s2.swap2ffsmap
      → s'.regions ≡ s2.regions
      → ((entry_at s' old).pres ≡ false)
        × ((entry_at s' old).isswapped ≡ true)
        × ((entry_at s' old).already_swapped ≡ true)
        × ((entry_at s' old).base ≡ f)
        × ((entry_at s' old).isvmalloc ≡ false)
      → InSwap s' k old
  out-InSwap s' copy rd lf br list maps regions o =
      let top : maxffsframe s' ≡ maxffsframe s =
        ap (λ (g : Regions). ceil_div g.maxffs page_size) (regions ∙ lf.regions) in
      let mine : (maxffsframe s + k == f) ≡ true = ground (arith, at_k) in
      record {
        small = small;
        isswapped = o.1;
        isvmalloc = o.4;
        pres = o.0;
        already_swapped = o.2;
        base = omega (arith, o.3, at_k, top);
        alone = rw maps (lf.swap k small ∙ rw (other_copy copy br, mine) refl);
        taken = elim (Bool-cases (swap_free s' (maxffsframe s' + k))) [
          | inr h ↦ h
          | inl h ↦
              let free : swap_free s1 (maxffsframe s + k) ≡ true = cc (h, top, list, lf.swaplist) in
              absurd ((rd.pool k small free).0 (sym at_k))
        ];
      }

-- a page that stays in swap
pub still-InSwap :
    (s s1 s2 s' : Vm) (offset i f m : ℕ) (pt old q : PtRef) (copy : Option ℕ)
    → Ready s s1 offset i f
    → Left s s1 s2 pt old i f copy
    → Brings s s2 pt i f copy
    → s'.swaplist ≡ s2.swaplist
    → s'.swap2ffsmap ≡ s2.swap2ffsmap
    → s'.regions ≡ s2.regions
    → InSwap s m q
    → (entry_at s q).base ≢ (entry_at s pt).base
    → (entry_at s q).base ≢ f
    → entry_at s' q ≡ entry_at s q
    → InSwap s' m q
still-InSwap s s1 s2 s' offset i f m pt old q copy rd lf br list maps regions w apart spared same =
    let top : maxffsframe s' ≡ maxffsframe s =
      ap (λ (g : Regions). ceil_div g.maxffs page_size) (regions ∙ lf.regions) in
    let off : (maxffsframe s + m == f) ≡ false = ground (arith, w.base) in
    record {
      small = w.small;
      isswapped = rw same w.isswapped;
      isvmalloc = rw same w.isvmalloc;
      pres = rw same w.pres;
      already_swapped = rw same w.already_swapped;
      base = rw same (omega (arith, w.base, top));
      alone =
          rw maps
            (lf.swap m w.small ∙ rw (not_copy copy br, off) (ap (λ g. g m) rd.copies ∙ w.alone));
      taken = elim (Bool-cases (swap_free s' (maxffsframe s' + m))) [
        | inr h ↦ h
        | inl h ↦
            let free : swap_free s1 (maxffsframe s + m) ≡ true = cc (h, top, list, lf.swaplist) in
            cc (w.taken, (rd.pool m w.small free).2)
      ];
    }
  where
    not_copy : (copy : Option ℕ) → Brings s s2 pt i f copy → is_copy copy m ≡ false
    not_copy none br = refl
    not_copy (some k) br = elim (Bool-cases (m == k)) [
      | inr h ↦ h
      | inl h ↦ let n : m ≡ k = ground arith in absurd (apart (omega (arith, w.base, br.1.base)))
    ]
