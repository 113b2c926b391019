-- ===== src/PageFault/TakePage.antt =====
-- Taking one page out of a region of 2048 whole pages.
use os_virtual_mem.Prelude.{
  ℕ, ◌+◌, ◌-◌, ◌*◌, ◌/◌, ◌%◌, ◌^◌, ◌<◌, ◌≡◌, ◌≢◌, refl, Bool, true, false, some, List, [], ◌∷◌,
  arith, ◌==◌, ltb, Bool-cases, Option-cases, inl, inr, ap, ◌⊎◌, sym, ◌∙◌,
}
use os_virtual_mem.Memory.{page_size, sys_err, sub32, roundmb}
use os_virtual_mem.FreeList.{FreeList, Block, take_first, getfreemem}
use os_virtual_mem.FreeList.Chain.{Chain, has, in_range}
use os_virtual_mem.FreeList.Get.{AllBelow, take_first-none, take_first-Taken}
use os_virtual_mem.FreeList.Laws.{IsValid}
use os_virtual_mem.PageFault.Coherent.{Paged, take_first-Paged}

-- what first fit leaves of whole pages is whole pages
Paged-take_first :
    (bs : List Block) {a : ℕ} {bs' : List Block}
    → Paged bs
    → take_first 4096 bs ≡ some (a, bs')
    → Paged bs'
unfolding take_first
Paged-take_first [] p e = cc
Paged-take_first (b ∷ bs) {a} {bs'} p e = elim (Bool-cases (b.mlength == 4096)) [
  | inl exact ↦ let h : bs ≡ bs' = cc (rw exact at e) in rw (← h) p.2
  | inr other ↦ elim (Bool-cases (ltb 4096 b.mlength)) [
    | inl big ↦
        let h : record { addr = (b.addr + 4096) % 2 ^ 32; mlength = sub32 b.mlength 4096 } ∷ bs
            ≡ bs' =
          cc (rw (other, big) at e) in
        rw (← h) (omega (arith, p.0), omega (arith, p.1), p.2)
    | inr tight ↦ elim (Option-cases (take_first 4096 bs)) [
      | inl miss ↦ cc (rw (other, tight, miss) at e)
      | inr (q, found) ↦
          let h : b ∷ q.1 ≡ bs' = cc (rw (other, tight, found) at e) in
          rw (← h) (p.0, p.1, Paged-take_first bs p.2 found)
    ]
  ]
]

-- page number `k` of the region from frame `base` on is free
abbrev pub page_free : ℕ → FreeList → ℕ → Bool
page_free base l k = has ((base + k) * 4096) l.blocks

abbrev pub Region : (base offset : ℕ) → FreeList → Type 0
Region base offset l = IsValid (base * 4096) ((base + 2048) * 4096) offset l × Paged l.blocks

-- A page that `_getfreemem` takes out of a region: number `k`, with `l'` left.
pub record PageTaken (base offset k : ℕ) (l l' : FreeList) : Type 0 where
  pub run : getfreemem l page_size ≡ ((base + k) * 4096, l')
  pub small : k < 2048
  pub free : page_free base l k ≡ true
  pub region : Region base offset l'
  pub taken : page_free base l' k ≡ false
  pub others : (j : ℕ) → j ≢ k → page_free base l' j ≡ page_free base l j

-- whole pages that are too small for a page are none
none_below :
    (x lo hi : ℕ) (bs : List Block)
    → Chain lo hi bs
    → Paged bs
    → AllBelow 4096 bs
    → has x bs ≡ false
none_below x lo hi [] c p a = refl
none_below x lo hi (b ∷ bs) c p a = absurd (omega (arith, c.1, p.1, a.0))

pub take_page_lem :
    (base offset : ℕ) (l : FreeList)
    → Region base offset l
    → ((getfreemem l page_size ≡ (sys_err, l)) × ((k : ℕ) → page_free base l k ≡ false))
      ⊎ ((k : ℕ) × (l' : FreeList) × PageTaken base offset k l l')
unfolding getfreemem
take_page_lem base offset l (v, p) =
    let n : roundmb page_size ≡ 4096 = unfold roundmb in refl in
    elim (Option-cases (take_first 4096 l.blocks)) [
      | inl miss ↦ inl (
        rw (n, miss) refl,
        λ k.
            none_below ((base + k) * 4096) (base * 4096) ((base + 2048) * 4096) l.blocks v.chain p
              (take_first-none 4096 l.blocks miss),
      )
      | inr (q, found) ↦
          let t =
            take_first-Taken ((base + 2048) * 4096) 4096 v.high (omega arith) (base * 4096) l.blocks
              v.chain found in
          let a = take_first-Paged l.blocks p found in
          let lo = t.above in
          let up = t.below in
          let byte : (base + (q.0 / 4096 - base)) * 4096 ≡ q.0 = omega arith in
          inr (
            q.0 / 4096 - base,
            record { mlength = sub32 l.mlength 4096; blocks = q.1 },
            record {
              run =
                  rw (n, found)
                    (ap (λ (z : ℕ). (z, record { mlength = sub32 l.mlength 4096; blocks = q.1 }))
                      (sym byte));
              small = omega arith;
              free = rw byte (ground (arith, t.same q.0));
              region = (
                record {
                  chain = t.chain;
                  counts = omega (arith, v.counts, t.sum);
                  low = v.low;
                  high = v.high;
                  word = omega arith;
                },
                Paged-take_first l.blocks p found,
              );
              taken = rw byte (t.gone q.0 (ground arith));
              others = λ j ne.
                  let out : in_range ((base + j) * 4096) q.0 4096 ≡ false = ground arith in
                  sym (t.same ((base + j) * 4096) ∙ rw out refl);
            },
          )
    ]
