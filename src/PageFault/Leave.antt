-- ===== src/PageFault/Leave.antt =====
-- Each way to choose a swap frame leaves the other mappings coherent.
use os_virtual_mem.Prelude.{
  ℕ, ◌+◌, ◌<◌, ◌≡◌, ◌≢◌, refl, true, false, none, some, arith, ◌==◌, ap, sym, ◌∙◌, inl, inr,
  Bool-cases,
}
use os_virtual_mem.Memory.{sub32}
use os_virtual_mem.FreeList.{FreeList}
use os_virtual_mem.Vm.{
  PtRef, Vm, entry_at, maxpdptframe, maxffsframe, same_ref, set_entry, set_entry_self, set_entry_ne,
  with_entry, update,
}
use os_virtual_mem.PageFault.Coherent.{
  HasCopy, swap_free, InSwap, Coherent, apart_of_flag, same_ref-eq,
}
use os_virtual_mem.PageFault.TakePage.{PageTaken}
use os_virtual_mem.PageFault.Swapframe.{set_entry-keeps}
use os_virtual_mem.PageFault.Ready.{Ready}

module _ (s : Vm) (offset i : ℕ) (old : PtRef) (co : Coherent s offset) (small : i < 2048)
    (at : s.ptmap i ≡ some old) where
  -- a page is in one frame only
  one_frame :
      (j : ℕ) (r : PtRef)
      → j < 2048
      → s.ptmap j ≡ some r
      → (k : ℕ) → k < 2048
      → s.ptmap k ≡ some r
      → j ≡ k
  one_frame j r lt e k lt' e' =
      omega (arith, (co.resident j r lt e).base, (co.resident k r lt' e').base)

  -- the old page has a copy
  pub own-Ready : (k : ℕ) → HasCopy s i k old → Ready s s offset i (maxffsframe s + k)
  own-Ready k c = record {
    resident = co.resident;
    owned = λ j r lt ne e own.
        let (m, d) = co.owned j r lt e own in
        (
          m,
          d,
          λ h.
              let n : m ≡ k = omega arith in
              let same : r ≡ old = cc (d.back, c.back, ap s.swap2ffsmap n) in
              ne (one_frame j r lt e i small (rw same at)),
        );
    unowned = λ j r lt ne e own. co.unowned j r lt e own;
    shadow = λ m r lt ne e.
        let sh = co.shadow m r lt e in
        (sh.0, sh.1, sh.2, sh.3, λ h. ne (cc (c.mapped, sh.5, ap s.ffs2swapmap h)), sh.4, sh.5);
    pool = λ m lt free.
        let empty = co.pool m lt free in
        (λ h. let n : m ≡ k = omega arith in cc (c.back, empty, ap s.swap2ffsmap n), empty, free);
    copies = refl;
    forgets = λ j h. h;
    swaplist = (co.swaplist, co.paged);
    ffslist = refl;
  }

  module _ (not_own : (entry_at s old).already_swapped ≡ false) where
    -- the frame of a page with a copy is another one
    elsewhere :
        (j : ℕ) (r : PtRef) → s.ptmap j ≡ some r → (entry_at s r).already_swapped ≡ true → j ≢ i
    elsewhere j r e own h = cc (ap s.ptmap h, e, at, own, not_own)

    pub fresh-Ready :
        (k : ℕ) (l : FreeList)
        → PageTaken (maxffsframe s) offset k s.swaplist l
        → Ready s (record s { swaplist = l }) offset i (maxffsframe s + k)
    fresh-Ready k l got =
        let empty = co.pool k got.small got.free in
        record {
          resident = λ j r lt e.
              let res = co.resident j r lt e in
              record { pres = res.pres; isswapped = res.isswapped; base = res.base };
          owned = λ j r lt ne e own.
              let (m, d) = co.owned j r lt e own in
              (
                m,
                record { small = d.small; mapped = d.mapped; back = d.back; same = d.same },
                λ h. let n : m ≡ k = omega arith in cc (d.back, empty, ap s.swap2ffsmap n),
              );
          unowned = λ j r lt ne e own. co.unowned j r lt e own;
          shadow = λ m r lt ne e.
              let sh = co.shadow m r lt e in
              (sh.0, sh.1, sh.2, sh.3, elsewhere sh.2 r sh.4 sh.1, sh.4, sh.5);
          pool = λ m lt free.
              let ne : m ≢ k = λ (h : m ≡ k). cc (got.taken, free, h) in
              let was = sym (got.others m ne) ∙ free in
              (λ h. ne (omega arith), co.pool m lt was, was);
          copies = refl;
          forgets = λ j h. h;
          swaplist = got.region;
          ffslist = refl;
        }

    pub exchanged-Ready :
        (pt : PtRef) (m : ℕ)
        → InSwap s m pt
        → Ready s
            (with_entry s pt (record (entry_at s pt) { already_swapped = false; dirty = true }))
            offset
            i
            (maxffsframe s + m)
    exchanged-Ready pt m w =
        let e' = record (entry_at s pt) { already_swapped = false; dirty = true } in
        let same : (r : PtRef)
            → (entry_at s r).pres ≡ true
            → set_entry s.entries pt e' r ≡ entry_at s r =
          λ r h. set_entry_ne s.entries pt e' r (apart_of_flag s (λ e. e.pres) r pt h w.pres).0 in
        record {
          resident = λ j r lt e.
              let res = co.resident j r lt e in
              let q = same r res.pres in
              record { pres = rw q res.pres; isswapped = rw q res.isswapped; base = rw q res.base };
          owned = λ j r lt ne e own.
              let q = same r (co.resident j r lt e).pres in
              let (k, d) = co.owned j r lt e (rw q at own) in
              (
                k,
                record {
                  small = d.small;
                  mapped = d.mapped;
                  back = d.back;
                  same = λ h. d.same (rw q at h);
                },
                λ h. let n : k ≡ m = omega arith in cc (d.back, w.alone, ap s.swap2ffsmap n),
              );
          unowned = λ j r lt ne e own.
              co.unowned j r lt e (rw (same r (co.resident j r lt e).pres) at own);
          shadow = λ k r lt ne e.
              let sh = co.shadow k r lt e in
              let q = same r sh.0 in
              (rw q sh.0, rw q sh.1, sh.2, sh.3, elsewhere sh.2 r sh.4 sh.1, sh.4, sh.5);
          pool = λ k lt free. (
            λ h.
                let n : k ≡ m = omega arith in
                cc (free, ap (λ (z : ℕ). swap_free s (maxffsframe s + z)) n, w.taken),
            co.pool k lt free,
            free,
          );
          copies = refl;
          forgets = λ j h. h;
          swaplist = (co.swaplist, co.paged);
          ffslist = refl;
        }

    pub taken-Ready :
        (k : ℕ) (tmp : PtRef)
        → k < 2048
        → s.swap2ffsmap k ≡ some tmp
        → Ready s
            (record s {
              entries =
                  set_entry s.entries tmp
                    (record (entry_at s tmp) { already_swapped = false; dirty = true });
              ffs2swapmap =
                  update s.ffs2swapmap (sub32 (entry_at s tmp).base (maxpdptframe s)) none;
            })
            offset
            i
            (maxffsframe s + k)
    taken-Ready k tmp lt0 held =
        let e' = record (entry_at s tmp) { already_swapped = false; dirty = true } in
        let sh0 = co.shadow k tmp lt0 held in
        let j0 : ℕ = sh0.2 in
        let res0 = co.resident j0 tmp sh0.3 sh0.4 in
        let top = co.top in
        let lay = co.layout in
        let slot : sub32 (entry_at s tmp).base (maxpdptframe s) ≡ j0 =
          omega (arith, res0.base, sh0.3) in
        let s1 : Vm = record s {
          entries = set_entry s.entries tmp e';
          ffs2swapmap = update s.ffs2swapmap (sub32 (entry_at s tmp).base (maxpdptframe s)) none;
        } in
        let tmp_now = set_entry_self s.entries tmp e' in
        -- the frame of an entry that is that of `tmp`, and of one that is not
        let there : (j : ℕ) (r : PtRef)
            → j < 2048
            → s.ptmap j ≡ some r
            → same_ref r tmp ≡ true
            → j ≡ j0 =
          λ j r lt e h.
            let b = ap (λ x. x.base) (same_ref-eq s r tmp h) in
            omega (arith, (co.resident j r lt e).base, res0.base, b) in
        let not_there : (j : ℕ) (r : PtRef)
            → s.ptmap j ≡ some r
            → same_ref r tmp ≡ false
            → (j == j0) ≡ false =
          λ j r e h. elim (Bool-cases (j == j0)) [
            | inl y ↦
                let x : j ≡ j0 = ground arith in
                let z : r ≡ tmp = cc (ap s.ptmap x, e, sh0.4) in ground arith
            | inr y ↦ y
          ] in
        let keeps_pres = λ (q : PtRef). set_entry-keeps (λ e. e.pres) s.entries tmp e' q refl in
        let keeps_swapped =
          λ (q : PtRef). set_entry-keeps (λ e. e.isswapped) s.entries tmp e' q refl in
        let keeps_base = λ (q : PtRef). set_entry-keeps (λ e. e.base) s.entries tmp e' q refl in
        record {
          resident = λ j r lt e.
              let res = co.resident j r lt e in
              record {
                pres = keeps_pres r ∙ res.pres;
                isswapped = keeps_swapped r ∙ res.isswapped;
                base = keeps_base r ∙ res.base;
              };
          owned = λ j r lt ne e own. elim (Bool-cases (same_ref r tmp)) [
            | inl h ↦ cc (
              own,
              ap (λ x. x.already_swapped) (same_ref-eq s1 r tmp h),
              ap (λ x. x.already_swapped) tmp_now,
            )
            | inr h ↦
                let q = set_entry_ne s.entries tmp e' r h in
                let (m, d) = co.owned j r lt e (rw q at own) in
                let off = not_there j r e h in
                (
                  m,
                  record {
                    small = d.small;
                    mapped = rw (slot, off) d.mapped;
                    back = d.back;
                    same = λ clean. d.same (rw q at clean);
                  },
                  λ x.
                      let n : m ≡ k = omega arith in
                      let z : r ≡ tmp = cc (d.back, held, ap s.swap2ffsmap n) in ground arith,
                )
          ];
          unowned = λ j r lt ne e own. elim (Bool-cases (same_ref r tmp)) [
            | inl h ↦
                let y : (j == j0) ≡ true = ground (arith, there j r lt e h) in rw (slot, y) refl
            | inr h ↦
                let q = set_entry_ne s.entries tmp e' r h in
                let off = not_there j r e h in rw (slot, off) (co.unowned j r lt e (rw q at own))
          ];
          shadow = λ m r lt ne e.
              let sh = co.shadow m r lt e in
              elim (Bool-cases (same_ref r tmp)) [
                | inl h ↦
                    let y = there sh.2 r sh.3 sh.4 h in
                    absurd (ne (cc (sh.5, sh0.5, ap s.ffs2swapmap y)))
                | inr h ↦
                    let q = set_entry_ne s.entries tmp e' r h in
                    let off = not_there sh.2 r sh.4 h in
                    (
                      rw q sh.0,
                      rw q sh.1,
                      sh.2,
                      sh.3,
                      elsewhere sh.2 r sh.4 sh.1,
                      sh.4,
                      rw (slot, off) sh.5,
                    )
              ];
          pool = λ m lt free.
              let empty = co.pool m lt free in
              (
                λ h. let n : m ≡ k = omega arith in cc (held, empty, ap s.swap2ffsmap n),
                empty,
                free,
              );
          copies = refl;
          forgets = λ j h. elim (Bool-cases (j == j0)) [
            | inl y ↦ rw (slot, y) refl
            | inr y ↦ rw (slot, y) h
          ];
          swaplist = (co.swaplist, co.paged);
          ffslist = refl;
        }
