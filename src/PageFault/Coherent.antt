-- ===== src/PageFault/Coherent.antt =====
-- The invariant of the FFS and swap mappings: which frame holds the words of which page.
use os_virtual_mem.Prelude.{
  ℕ, ◌+◌, ◌*◌, ◌%◌, ◌^◌, ◌<◌, ◌≡◌, Bool, true, false, none, some, List, [], ◌∷◌, arith, ◌==◌, ltb,
  Bool-cases, Option-cases, inl, inr, ap,
}
use os_virtual_mem.FreeList.{Block, take_first}
use os_virtual_mem.FreeList.Chain.{has}
use os_virtual_mem.FreeList.Laws.{IsValid}
use os_virtual_mem.Vm.{Entry, PtRef, Vm, entry_at, maxpdptframe, maxffsframe, same_ref}

-- whole pages only
abbrev pub Paged : List Block → Type 0
Paged [] = Unit
Paged (b ∷ bs) = (b.addr % 4096 ≡ 0) × (b.mlength % 4096 ≡ 0) × Paged bs

-- swap frame `f` is not handed out
abbrev pub swap_free : Vm → ℕ → Bool
swap_free s f = has (f * 4096) s.swaplist.blocks

-- The page of entry `r` is resident in FFS frame number `i`.
pub record Resident (s : Vm) (i : ℕ) (r : PtRef) : Type 0 where
  pub pres : (entry_at s r).pres ≡ true
  pub isswapped : (entry_at s r).isswapped ≡ false
  pub base : (entry_at s r).base ≡ maxpdptframe s + i

-- The resident page also has swap frame number `k`, with the same words unless it has been written.
pub record HasCopy (s : Vm) (i k : ℕ) (r : PtRef) : Type 0 where
  pub small : k < 2048
  pub mapped : s.ffs2swapmap i ≡ some (maxffsframe s + k)
  pub back : s.swap2ffsmap k ≡ some r
  pub same :
      (entry_at s r).dirty ≡ false
      → (j : ℕ) → j < 1024
      → s.words (maxffsframe s + k) j ≡ s.words (maxpdptframe s + i) j

-- The page of entry `r` is in swap frame number `k` only.
pub record InSwap (s : Vm) (k : ℕ) (r : PtRef) : Type 0 where
  pub small : k < 2048
  pub isswapped : (entry_at s r).isswapped ≡ true
  pub isvmalloc : (entry_at s r).isvmalloc ≡ false
  pub pres : (entry_at s r).pres ≡ false
  pub already_swapped : (entry_at s r).already_swapped ≡ true
  pub base : (entry_at s r).base ≡ maxffsframe s + k
  pub alone : s.swap2ffsmap k ≡ none
  pub taken : swap_free s (maxffsframe s + k) ≡ false

pub record Coherent (s : Vm) (offset : ℕ) : Type 0 where
  pub layout : maxffsframe s ≡ maxpdptframe s + 2048
  pub top : maxffsframe s + 2048 < 2 ^ 20
  pub resident : (i : ℕ) (r : PtRef) → i < 2048 → s.ptmap i ≡ some r → Resident s i r
  pub owned :
      (i : ℕ) (r : PtRef)
      → i < 2048
      → s.ptmap i ≡ some r
      → (entry_at s r).already_swapped ≡ true
      → (k : ℕ) × HasCopy s i k r
  pub unowned :
      (i : ℕ) (r : PtRef)
      → i < 2048
      → s.ptmap i ≡ some r
      → (entry_at s r).already_swapped ≡ false
      → s.ffs2swapmap i ≡ none
  pub shadow :
      (k : ℕ) (r : PtRef)
      → k < 2048
      → s.swap2ffsmap k ≡ some r
      → ((entry_at s r).pres ≡ true)
        × ((entry_at s r).already_swapped ≡ true)
        × (j : ℕ) × (j < 2048)
        × (s.ptmap j ≡ some r)
        × (s.ffs2swapmap j ≡ some (maxffsframe s + k))
  pub pool : (k : ℕ) → k < 2048 → swap_free s (maxffsframe s + k) ≡ true → s.swap2ffsmap k ≡ none
  pub swaplist : IsValid (maxffsframe s * 4096) ((maxffsframe s + 2048) * 4096) offset s.swaplist
  pub paged : Paged s.swaplist.blocks

-- a block that first fit takes from whole pages begins at a page, and was free
pub take_first-Paged :
    (bs : List Block) {a : ℕ} {bs' : List Block}
    → Paged bs
    → take_first 4096 bs ≡ some (a, bs')
    → a % 4096 ≡ 0
unfolding take_first
take_first-Paged [] p e = cc
take_first-Paged (b ∷ bs) {a} {bs'} p e = elim (Bool-cases (b.mlength == 4096)) [
  | inl exact ↦ let h : b.addr ≡ a = cc (rw exact at e) in rw (← h) p.0
  | inr other ↦ elim (Bool-cases (ltb 4096 b.mlength)) [
    | inl big ↦ let h : b.addr ≡ a = cc (rw (other, big) at e) in rw (← h) p.0
    | inr tight ↦ elim (Option-cases (take_first 4096 bs)) [
      | inl miss ↦ cc (rw (other, tight, miss) at e)
      | inr (q, found) ↦
          let h : q.0 ≡ a = cc (rw (other, tight, found) at e) in
          rw (← h) (take_first-Paged bs p.2 found)
    ]
  ]
]

pub same_ref-eq : (s : Vm) (r q : PtRef) → same_ref r q ≡ true → entry_at s r ≡ entry_at s q
same_ref-eq s r q h = let e : r ≡ q = ground arith in ap (entry_at s) e

-- entries that differ in a flag are not the same entry
pub apart_of_flag :
    (s : Vm) (f : Entry → Bool) (r q : PtRef)
    → f (entry_at s r) ≡ true
    → f (entry_at s q) ≡ false
    → (same_ref r q ≡ false) × (same_ref q r ≡ false)
apart_of_flag s f r q h k = (go r q h k, ground (arith, go r q h k))
  where
    go : (r q : PtRef) → f (entry_at s r) ≡ true → f (entry_at s q) ≡ false → same_ref r q ≡ false
    go r q h k = elim (Bool-cases (same_ref r q)) [
      | inl e ↦ cc (ap f (same_ref-eq s r q e))
      | inr e ↦ e
    ]
