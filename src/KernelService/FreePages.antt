-- ===== src/KernelService/FreePages.antt =====
-- The loop of `kernel_service_free`.
use os_virtual_mem.Prelude.{
  ℕ, zero, suc, ◌+◌, ◌*◌, ◌%◌, ◌≤◌, ◌<◌, ◌≡◌, ◌≢◌, refl, true, false, some, arith, ◌==◌, ap, sym,
  ◌∙◌, inl, inr, Bool-cases,
}
use mathlib.Core.Path.{subst}
use os_virtual_mem.Memory.{page_size, u32_mod, ceil_div}
use os_virtual_mem.Vm.{
  Entry, PtRef, pt_ref, pd_offset, pt_offset, Regions, Vm, ok, zero_entry, entry_at, maxpdptframe,
  maxffsframe, same_ref,
}
use os_virtual_mem.KernelService.{free_pages}
use os_virtual_mem.PageFault.Coherent.{InSwap, swap_free}
use os_virtual_mem.PageFault.TakePage.{page_free}
use os_virtual_mem.PageFault.Always.{IsPaging}
use os_virtual_mem.KernelService.Released.{Placed, Released}
use os_virtual_mem.KernelService.FreePage.{
  Holds, resident, swapped, untouched, page_entry, free_vpage-IsPaging,
}

abbrev dir_entry : (dir x : ℕ) → PtRef
dir_entry dir x = pt_ref dir (pd_offset (x * page_size % u32_mod))

-- The `n` pages from page `i` on can be freed: their tables are there and are not the directory, each
-- page holds what it should, and no two of them have an entry or a swap frame in common.
pub record Freeable (s : Vm) (dir i n : ℕ) : Type 0 where
  pub table : (x : ℕ) → i ≤ x → x < i + n → (entry_at s (dir_entry dir x)).pres ≡ true
  pub clear : (x : ℕ) → i ≤ x → x < i + n → (page_entry s dir x).frame ≢ dir
  pub holds : (x : ℕ) → i ≤ x → x < i + n → Holds s (page_entry s dir x)
  pub apart :
      (x y : ℕ)
      → i ≤ x
      → x < y
      → y < i + n
      → same_ref (page_entry s dir y) (page_entry s dir x) ≡ false
  pub own :
      (x y k : ℕ)
      → i ≤ x
      → x < y
      → y < i + n
      → InSwap s k (page_entry s dir y)
      → ¬ InSwap s k (page_entry s dir x)

-- What is left when these pages have been freed.
pub record AllReleased (s s' : Vm) (dir i n : ℕ) : Type 0 where
  pub entry : (x : ℕ) → i ≤ x → x < i + n → entry_at s' (page_entry s dir x) ≡ zero_entry
  pub others :
      (q : PtRef)
      → ((x : ℕ) → i ≤ x → x < i + n → same_ref q (page_entry s dir x) ≡ false)
      → entry_at s' q ≡ entry_at s q
  pub frame :
      (x j : ℕ)
      → i ≤ x
      → x < i + n
      → j < 2048
      → s.ptmap j ≡ some (page_entry s dir x)
      → page_free (maxpdptframe s) s'.ffslist j ≡ true
  pub swap_frame :
      (x k : ℕ)
      → i ≤ x
      → x < i + n
      → InSwap s k (page_entry s dir x)
      → swap_free s' (maxffsframe s + k) ≡ true
  pub swap_copy :
      (x k : ℕ)
      → i ≤ x
      → x < i + n
      → k < 2048
      → s.swap2ffsmap k ≡ some (page_entry s dir x)
      → swap_free s' (maxffsframe s + k) ≡ true
  pub shrinks : (j : ℕ) (r : PtRef) → s'.ptmap j ≡ some r → s.ptmap j ≡ some r
  pub swap_grows :
      (k : ℕ)
      → k < 2048
      → swap_free s (maxffsframe s + k) ≡ true
      → swap_free s' (maxffsframe s + k) ≡ true
  pub words : s'.words ≡ s.words
  pub regions : s'.regions ≡ s.regions
  pub procs : s'.procs ≡ s.procs
  pub n_free_vpages : s'.n_free_vpages ≡ s.n_free_vpages

module _ (s s1 : Vm) (dir i n : ℕ) (f : Freeable s dir i (suc n))
    (r : Released s s1 (page_entry s dir i)) where
  dir_kept : (x : ℕ) → entry_at s1 (dir_entry dir x) ≡ entry_at s (dir_entry dir x)
  dir_kept x =
      let ne = f.clear i (omega arith) (omega arith) in r.others (dir_entry dir x) (ground arith)

  same_page : (x : ℕ) → page_entry s1 dir x ≡ page_entry s dir x
  same_page x = ap (λ (e : Entry). pt_ref e.base (pt_offset (x * page_size % u32_mod))) (dir_kept x)

  Holds-kept :
      (q : PtRef)
      → same_ref q (page_entry s dir i) ≡ false
      → ((k : ℕ) → InSwap s k q → ¬ InSwap s k (page_entry s dir i))
      → Holds s q
      → Holds s1 q
  Holds-kept q ne own (resident j lt e old) =
      resident j lt (r.kept j q e ne) (rw (r.others q ne) old)
  Holds-kept q ne own (swapped k w) = swapped k (r.swap_kept k q w ne (own k w))
  Holds-kept q ne own (untouched out not_swapped) =
      untouched (rw (r.others q ne) out) (rw (r.others q ne) not_swapped)

  -- a page in swap after the step was there before
  InSwap-before :
      {offset pool : ℕ} (q : PtRef) (k : ℕ)
      → IsPaging s offset pool
      → same_ref q (page_entry s dir i) ≡ false
      → Holds s q
      → InSwap s1 k q
      → InSwap s k q
  InSwap-before q k ok_s ne (resident j lt e old) w =
      cc ((ok_s.mappings.resident j q lt e).pres, w.pres, ap (λ e. e.pres) (r.others q ne))
  InSwap-before q k ok_s ne (swapped m v) w =
      let b = ap (λ (e : Entry). e.base) (r.others q ne) in
      let g = ap (λ (r : Regions). ceil_div r.maxffs page_size) r.regions in
      let n : m ≡ k = omega (arith, v.base, w.base, b, g) in rw (← n) v
  InSwap-before q k ok_s ne (untouched out not_swapped) w =
      cc (not_swapped, w.isswapped, ap (λ e. e.isswapped) (r.others q ne))

  Freeable-step : {offset pool : ℕ} → IsPaging s offset pool → Freeable s1 dir (suc i) n
  Freeable-step ok_s = record {
    table = λ x lo up. rw (dir_kept x) (f.table x (omega arith) (omega arith));
    clear = λ x lo up. rw (dir_kept x) (f.clear x (omega arith) (omega arith));
    holds = λ x lo up. rw (dir_kept x) (
        Holds-kept (page_entry s dir x) (f.apart i x (omega arith) (omega arith) (omega arith))
          (λ k. f.own i x k (omega arith) (omega arith) (omega arith))
          (f.holds x (omega arith) (omega arith)));
    apart = λ x y lo lt up.
        rw (dir_kept x, dir_kept y) (f.apart x y (omega arith) (omega arith) (omega arith));
    own = λ x y k lo lt up wy wx.
        let before =
          λ (z : ℕ) (u : suc i ≤ z) (v : z < suc i + n) (w : InSwap s1 k (page_entry s1 dir z)).
            InSwap-before (page_entry s dir z) k ok_s
              (f.apart i z (omega arith) (omega arith) (omega arith))
              (f.holds z (omega arith) (omega arith)) (rw (dir_kept z) at w) in
        f.own x y k (omega arith) (omega arith) (omega arith) (before y (omega arith) up wy)
          (before x lo (omega arith) wx);
  }

  base1 : maxpdptframe s1 ≡ maxpdptframe s
  base1 = ap (λ (g : Regions). ceil_div g.maxpdpt page_size) r.regions

  top1 : maxffsframe s1 ≡ maxffsframe s
  top1 = ap (λ (g : Regions). ceil_div g.maxffs page_size) r.regions

  base2 : (s2 : Vm) → AllReleased s1 s2 dir (suc i) n → maxpdptframe s2 ≡ maxpdptframe s
  base2 s2 a = ap (λ (g : Regions). ceil_div g.maxpdpt page_size) (a.regions ∙ r.regions)

  grows :
      (s2 : Vm)
      → AllReleased s1 s2 dir (suc i) n
      → (k : ℕ) → k < 2048
      → swap_free s1 (maxffsframe s + k) ≡ true
      → swap_free s2 (maxffsframe s + k) ≡ true
  grows s2 a k lt free =
      ap (λ (z : ℕ). swap_free s2 (z + k)) (sym top1)
      ∙ a.swap_grows k lt (ap (λ (z : ℕ). swap_free s1 (z + k)) top1 ∙ free)

  not_later :
      (x : ℕ)
      → suc i ≤ x
      → x < suc i + n
      → same_ref (page_entry s dir i) (page_entry s1 dir x) ≡ false
  not_later x lo up =
      rw (dir_kept x) (ground (arith, f.apart i x (omega arith) (omega arith) (omega arith)))

  AllReleased-step :
      {offset pool : ℕ} (s2 : Vm)
      → IsPaging s offset pool
      → IsPaging s2 offset pool
      → AllReleased s1 s2 dir (suc i) n
      → AllReleased s s2 dir i (suc n)
  AllReleased-step s2 ok_s ok_s2 a = record {
    entry = λ x lo up. elim (Bool-cases (x == i)) [
      | inl h ↦
          let n : x ≡ i = ground arith in rw n (a.others (page_entry s dir i) not_later ∙ r.entry)
      | inr h ↦ rw (dir_kept x) at (a.entry x (ground arith) (omega arith))
    ];
    others = λ q h.
        a.others q (λ x lo up. rw (dir_kept x) (h x (omega arith) (omega arith)))
        ∙ r.others q (h i (omega arith) (omega arith));
    frame = λ x j lo up lt e. elim (Bool-cases (x == i)) [
      | inl h ↦
          let n : x ≡ i = ground arith in
          let gone = (r.frame j lt (e ∙ ap (λ (z : ℕ). some (page_entry s dir z)) n)).0 in
          elim (Bool-cases (page_free (maxpdptframe s2) s2.ffslist j)) [
            | inl free ↦ ap (λ (z : ℕ). page_free z s2.ffslist j) (sym (base2 s2 a)) ∙ free
            | inr used ↦
                let (q, held) = ok_s2.frames.mapped j lt used in cc (a.shrinks j q held, gone)
          ]
      | inr h ↦
          ap (λ (z : ℕ). page_free z s2.ffslist j) (sym base1)
          ∙ a.frame x j (ground arith) (omega arith) lt (
              rw (dir_kept x) (
                r.kept j (page_entry s dir x) e
                  (f.apart i x (omega arith) (ground arith) (omega arith))))
    ];
    swap_frame = λ x k lo up w. elim (Bool-cases (x == i)) [
      | inl h ↦ let n : x ≡ i = ground arith in grows s2 a k w.small (r.swapped k (rw n at w))
      | inr h ↦
          ap (λ (z : ℕ). swap_free s2 (z + k)) (sym top1)
          ∙ a.swap_frame x k (ground arith) (omega arith) (
              rw (dir_kept x) (
                r.swap_kept k (page_entry s dir x) w
                  (f.apart i x (omega arith) (ground arith) (omega arith))
                  (f.own i x k (omega arith) (ground arith) (omega arith) w)))
    ];
    swap_copy = λ x k lo up lt e. elim (Bool-cases (x == i)) [
      | inl h ↦
          let n : x ≡ i = ground arith in
          grows s2 a k lt (r.copy k lt (e ∙ ap (λ (z : ℕ). some (page_entry s dir z)) n)).1
      | inr h ↦
          ap (λ (z : ℕ). swap_free s2 (z + k)) (sym top1)
          ∙ a.swap_copy x k (ground arith) (omega arith) lt (
              rw (dir_kept x) (
                r.copy_kept k (page_entry s dir x) lt e
                  (f.apart i x (omega arith) (ground arith) (omega arith))))
    ];
    shrinks = λ j q e. r.shrinks j q (a.shrinks j q e);
    swap_grows = λ k lt free. grows s2 a k lt (r.swap_grows k lt free);
    words = a.words ∙ r.words;
    regions = a.regions ∙ r.regions;
    procs = a.procs ∙ r.procs;
    n_free_vpages = a.n_free_vpages ∙ r.n_free_vpages;
  }

-- The loop frees all its pages: it does not halt, the mappings and the pool are coherent again, and no
-- frame of those pages is lost.
pub free_pages-IsPaging :
    (n : ℕ) (s : Vm) (offset pool dir i : ℕ)
    → IsPaging s offset pool
    → Placed s.regions
    → Freeable s dir i n
    → (s' : Vm) × (free_pages n dir i s ≡ ok tt s')
      × IsPaging s' offset pool
      × AllReleased s s' dir i n
unfolding free_pages
free_pages-IsPaging zero s offset pool dir i ok_s placed f = (
  s,
  refl,
  ok_s,
  record {
    entry = λ x lo up. absurd (omega arith);
    others = λ q h. refl;
    frame = λ x j lo up. absurd (omega arith);
    swap_frame = λ x k lo up. absurd (omega arith);
    swap_copy = λ x k lo up. absurd (omega arith);
    shrinks = λ j r e. e;
    swap_grows = λ k lt free. free;
    words = refl;
    regions = refl;
    procs = refl;
    n_free_vpages = refl;
  },
)
free_pages-IsPaging (suc n) s offset pool dir i ok_s placed f =
    let (s1, run, ok_s1, r) =
      free_vpage-IsPaging s offset pool dir i ok_s placed (f.table i (omega arith) (omega arith))
        (f.holds i (omega arith) (omega arith)) in
    let (s2, run2, ok_s2, a) =
      free_pages-IsPaging n s1 offset pool dir (suc i) ok_s1 (subst Placed (sym r.regions) placed)
        (Freeable-step s s1 dir i n f r ok_s) in
    let next : i + 1 ≡ suc i = omega arith in
    (s2, rw (run, next) run2, ok_s2, AllReleased-step s s1 dir i n f r s2 ok_s ok_s2 a)
