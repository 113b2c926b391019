-- ===== src/PageFault/Arrive.antt =====
-- The mappings stay coherent when a page comes into a free frame of FFS.
use os_virtual_mem.Prelude.{
  ℕ, ◌+◌, ◌<◌, ◌≡◌, ◌≢◌, refl, true, false, some, arith, ◌==◌, if◌then◌else◌, Bool-cases, inl, inr,
  ap, ◌⊎◌, sym, ◌∙◌,
}
use os_virtual_mem.FreeList.{FreeList}
use os_virtual_mem.Vm.{
  Entry, PtRef, Vm, entry_at, maxpdptframe, maxffsframe, set_entry, set_entry_self, set_entry_ne,
  update,
}
use os_virtual_mem.Vm.Copy.{copy_page, copy_page_one_way}
use os_virtual_mem.PageFault.Coherent.{Resident, HasCopy, InSwap, Coherent, swap_free}
use os_virtual_mem.PageFault.TakePage.{PageTaken}
use os_virtual_mem.PageFault.Served.{IsNew}
use os_virtual_mem.PageFault.Refill.{FfsPool, arrived, given, fetched, word, resident_apart}

test_eq : (a b : ℕ) → (a == b) ≡ true → a ≡ b
test_eq a b h = ground arith

test_ne : (a b : ℕ) → (a == b) ≡ false → a ≢ b
test_ne a b h = ground arith

module _ (s : Vm) (offset pool : ℕ) (pt : PtRef) (co : Coherent s offset) (fp : FfsPool s pool)
    (k : ℕ) (l : FreeList) (got : PageTaken (maxpdptframe s) pool k s.ffslist l) where
  -- what the entries are once the page has arrived
  e' : Entry
  e' = arrived (entry_at s pt) (maxpdptframe s + k)

  pub pt_now :
      set_entry s.entries pt (arrived (entry_at s pt) (maxpdptframe s + k)) pt
      ≡ arrived (entry_at s pt) (maxpdptframe s + k)
  pt_now = set_entry_self s.entries pt (arrived (entry_at s pt) (maxpdptframe s + k))

  at_base :
      (set_entry s.entries pt (arrived (entry_at s pt) (maxpdptframe s + k)) pt).base
      ≡ maxpdptframe s + k
  at_base = ap (λ e. e.base) pt_now ∙ word s offset pool pt co fp k l got

  kept :
      (out : (entry_at s pt).pres ≡ false) (r : PtRef)
      → (entry_at s r).pres ≡ true
      → set_entry s.entries pt (arrived (entry_at s pt) (maxpdptframe s + k)) r ≡ entry_at s r
  kept out r h =
      set_entry_ne s.entries pt (arrived (entry_at s pt) (maxpdptframe s + k)) r
        (resident_apart s offset pool pt co fp k l got out r h)

  -- who is in frame `j` now
  who :
      (j : ℕ) (r : PtRef)
      → update s.ptmap k (some pt) j ≡ some r
      → ((j ≡ k) × (pt ≡ r)) ⊎ ((j ≢ k) × (s.ptmap j ≡ some r))
  who j r e = elim (Bool-cases (j == k)) [
    | inl h ↦ inl (test_eq j k h, cc (rw h at e))
    | inr h ↦ inr (test_ne j k h, rw h at e)
  ]

  page_stays :
      (out : (entry_at s pt).pres ≡ false) (sw : Vm)
      → sw.entries ≡ set_entry s.entries pt (arrived (entry_at s pt) (maxpdptframe s + k))
      → sw.regions ≡ s.regions
      → (j : ℕ) (r : PtRef) → j < 2048
      → update s.ptmap k (some pt) j ≡ some r
      → Resident sw j r
  page_stays out sw en rg j r lt e = elim (who j r e) [
    | inl (at, same) ↦
        rw (← same, at)
          (record {
            pres = rw en (ap (λ x. x.pres) pt_now);
            isswapped = rw en (ap (λ x. x.isswapped) pt_now);
            base = rw (en, rg) at_base;
          })
    | inr (ne, was) ↦
        let res = co.resident j r lt was in
        let same = kept out r res.pres in
        record {
          pres = rw (en, same) res.pres;
          isswapped = rw (en, same) res.isswapped;
          base = rw (en, rg, same) res.base;
        }
  ]

  -- the frame was empty
  occupied : (j : ℕ) (r : PtRef) → s.ptmap j ≡ some r → (j == k) ≡ false
  occupied j r e = elim (Bool-cases (j == k)) [
    | inl h ↦ cc (ap s.ptmap (test_eq j k h), e, (fp.vacant k got.small got.free).0)
    | inr h ↦ h
  ]

  -- a new page
  pub given-Coherent : IsNew s pt → Coherent (given s pt k l) offset
  given-Coherent n = record {
    layout = co.layout;
    top = co.top;
    resident = page_stays n.pres (given s pt k l) refl refl;
    owned = λ j r lt e own. elim (who j r e) [
      | inl (at, same) ↦
          cc (ap (λ x. x.already_swapped) pt_now, n.already_swapped, rw (← same) at own)
      | inr (ne, was) ↦
          let eq = kept n.pres r (co.resident j r lt was).pres in
          let (m, c) = co.owned j r lt was (rw eq at own) in
          (
            m,
            record {
              small = c.small;
              mapped = c.mapped;
              back = c.back;
              same = λ d. c.same (rw eq at d);
            },
          )
    ];
    unowned = λ j r lt e own. elim (who j r e) [
      | inl (at, same) ↦ rw at (fp.vacant k got.small got.free).1
      | inr (ne, was) ↦
          let eq = kept n.pres r (co.resident j r lt was).pres in
          co.unowned j r lt was (rw eq at own)
    ];
    shadow = λ m r lt e.
        let sh = co.shadow m r lt e in
        let eq = kept n.pres r sh.0 in
        let jk : (sh.2 == k) ≡ false = occupied sh.2 r sh.4 in
        (rw eq sh.0, rw eq sh.1, sh.2, sh.3, rw jk sh.4, sh.5);
    pool = co.pool;
    swaplist = co.swaplist;
    paged = co.paged;
  }

  module _ (m : ℕ) (w : InSwap s m pt) where
    apart_frames :
        (maxffsframe s + m ≢ maxpdptframe s + k)
        × ((j : ℕ) → j < 2048 → j ≢ k → maxpdptframe s + j ≢ maxpdptframe s + k)
    apart_frames = let b = co.layout in let h = got.small in (omega arith, λ j lt ne. omega arith)

    copied :
        (g j : ℕ)
        → j < 1024
        → copy_page (maxffsframe s + m) (maxpdptframe s + k) false s.words g j
          ≡ (if g == maxpdptframe s + k then s.words (maxffsframe s + m) j else s.words g j)
    copied g j lt =
        copy_page_one_way (maxffsframe s + m) (maxpdptframe s + k) s.words g j apart_frames.0 lt

    -- a frame other than the new one keeps its words
    pub spared :
        (g j : ℕ)
        → j < 1024
        → g ≢ maxpdptframe s + k
        → copy_page (maxffsframe s + m) (maxpdptframe s + k) false s.words g j ≡ s.words g j
    spared g j lt ne =
        let other : (g == maxpdptframe s + k) ≡ false = ground arith in
        copied g j lt ∙ rw other refl

    pub brought :
        (j : ℕ)
        → j < 1024
        → copy_page (maxffsframe s + m) (maxpdptframe s + k) false s.words (maxpdptframe s + k) j
          ≡ s.words (maxffsframe s + m) j
    brought j lt =
        let here : (maxpdptframe s + k == maxpdptframe s + k) ≡ true = ground arith in
        copied (maxpdptframe s + k) j lt ∙ rw here refl

    own_copy : (j : ℕ) (r : PtRef) → j ≡ k → pt ≡ r → HasCopy (fetched s pt k m l) j m r
    own_copy j r at same =
        let kk : (k == k) ≡ true = ground arith in
        let mm : (m == m) ≡ true = ground arith in
        rw (← same, at)
          (record {
            small = w.small;
            mapped = rw kk refl;
            back = rw mm refl;
            same = λ d i lt. spared (maxffsframe s + m) i lt apart_frames.0 ∙ sym (brought i lt);
          })

    other_copy :
        (j n : ℕ) (r : PtRef)
        → j < 2048
        → j ≢ k
        → s.ptmap j ≡ some r
        → HasCopy s j n r
        → HasCopy (fetched s pt k m l) j n r
    other_copy j n r lt ne was c =
        let eq = kept w.pres r (co.resident j r lt was).pres in
        let jk : (j == k) ≡ false = ground arith in
        let nm : n ≢ m = λ (h : n ≡ m). cc (c.back, ap s.swap2ffsmap h, w.alone) in
        let nm' : (n == m) ≡ false = ground arith in
        let b = co.layout in
        let small = got.small in
        record {
          small = c.small;
          mapped = rw jk c.mapped;
          back = rw nm' c.back;
          same = λ d i li.
              spared (maxffsframe s + n) i li (omega arith)
              ∙ c.same (rw eq at d) i li
              ∙ sym (spared (maxpdptframe s + j) i li (apart_frames.1 j lt ne));
        }

    -- a page that comes back from swap
    pub fetched-Coherent : Coherent (fetched s pt k m l) offset
    fetched-Coherent = record {
      layout = co.layout;
      top = co.top;
      resident = page_stays w.pres (fetched s pt k m l) refl refl;
      owned = λ j r lt e own. elim (who j r e) [
        | inl (at, same) ↦ (m, own_copy j r at same)
        | inr (ne, was) ↦
            let eq = kept w.pres r (co.resident j r lt was).pres in
            let (n, c) = co.owned j r lt was (rw eq at own) in (n, other_copy j n r lt ne was c)
      ];
      unowned = λ j r lt e own. elim (who j r e) [
        | inl (at, same) ↦
            cc (ap (λ x. x.already_swapped) pt_now, w.already_swapped, rw (← same) at own)
        | inr (ne, was) ↦
            let eq = kept w.pres r (co.resident j r lt was).pres in
            let jk : (j == k) ≡ false = ground arith in rw jk (co.unowned j r lt was (rw eq at own))
      ];
      shadow = λ n r lt e. elim (Bool-cases (n == m)) [
        | inl h ↦
            let same : pt ≡ r = cc (rw h at e) in
            let kk : (k == k) ≡ true = ground arith in
            rw (← same) (
              ap (λ x. x.pres) pt_now,
              ap (λ x. x.already_swapped) pt_now ∙ w.already_swapped,
              k,
              got.small,
              rw kk refl,
              rw kk (ap (λ z. some (maxffsframe s + z)) (sym (test_eq n m h))),
            )
        | inr h ↦
            let sh = co.shadow n r lt (rw h at e) in
            let eq = kept w.pres r sh.0 in
            let jk : (sh.2 == k) ≡ false = occupied sh.2 r sh.4 in
            (rw eq sh.0, rw eq sh.1, sh.2, sh.3, rw jk sh.4, rw jk sh.5)
      ];
      pool = λ n lt free.
          let nm : n ≢ m =
            λ (h : n ≡ m). cc (free, ap (λ z. swap_free s (maxffsframe s + z)) h, w.taken) in
          let nm' : (n == m) ≡ false = ground arith in rw nm' (co.pool n lt free);
      swaplist = co.swaplist;
      paged = co.paged;
    }
