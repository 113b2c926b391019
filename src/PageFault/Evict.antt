-- ===== src/PageFault/Evict.antt =====
-- A fault with no free FFS frame: the words of every page survive the move.
use os_virtual_mem.Prelude.{
  Bool-cases, none, ◌==◌, ℕ, ◌+◌, ◌^◌, ◌≤◌, ◌<◌, ◌≡◌, ◌≢◌, refl, Bool, true, false, ◌&&◌, ◌||◌,
  some, arith, if◌then◌else◌, inl, inr, ap, ◌⊎◌, not, ◌∙◌,
}
use os_virtual_mem.Vm.{PtRef, Vm, ok, entry_at, maxpdptframe, maxffsframe, same_ref}
use os_virtual_mem.Vm.Copy.{copy_page, copy_page_one_way, copy_page_both_ways}
use os_virtual_mem.PageFault.{move_pages}
use os_virtual_mem.PageFault.Coherent.{InSwap, Coherent}
use os_virtual_mem.PageFault.Move.{brought_back, move_out_lem, bring_in-skip, bring_in-back}
use os_virtual_mem.PageFault.Ready.{Left}
use os_virtual_mem.PageFault.Choose.{Chosen}
use os_virtual_mem.Memory.{sub32}
use os_virtual_mem.PageFault.Outgoing.{
  Moved, frames, out_entries, dirty_same, others_same, pt_same, out-Left, slot_dropped, out,
}

module _ (s : Vm) (offset i : ℕ) (pt old : PtRef) (co : Coherent s offset) (small : i < 2048)
    (at : s.ptmap i ≡ some old) (apart : same_ref pt old ≡ false) where
  new_kept :
      (s1 : Vm) (f : ℕ)
      → Chosen s pt old i s1 f false
      → (d : Bool) → (entry_at s old).dirty ≡ d
      → ((entry_at s old).dirty ≡ true) ⊎ ((entry_at s old).already_swapped ≡ true)
      → (j : ℕ) → j < 1024
      → (if d then copy_page (maxpdptframe s + i) f false s1.words else s1.words) f j
        ≡ s.words (maxpdptframe s + i) j
  new_kept s1 f ch true e h j lt =
      let ne = (frames s offset i pt old co small at apart s1 f false ch).1 in
      rw ch.words (ground (arith, copy_page_one_way (maxpdptframe s + i) f s.words f j ne lt))
  new_kept s1 f ch false e (inl h) j lt = cc
  new_kept s1 f ch false e (inr h) j lt = rw ch.words ((ch.clean e h).1 j lt)

  new_spared :
      (s1 : Vm) (f : ℕ)
      → Chosen s pt old i s1 f false
      → (d : Bool) (g j : ℕ) → j < 1024
      → g ≢ f
      → (if d then copy_page (maxpdptframe s + i) f false s1.words else s1.words) g j ≡ s.words g j
  new_spared s1 f ch true g j lt gf =
      let ne = (frames s offset i pt old co small at apart s1 f false ch).1 in
      rw ch.words (ground (arith, copy_page_one_way (maxpdptframe s + i) f s.words g j ne lt))
  new_spared s1 f ch false g j lt gf = rw ch.words refl

  -- The faulting page is new: only the old page's words move.
  pub move_pages-new :
      (s1 : Vm) (f : ℕ)
      → Chosen s pt old i s1 f false
      → (entry_at s pt).isswapped ≡ false
      → (s' : Vm) × (move_pages pt old i (maxpdptframe s + i) f false s1 ≡ ok tt s')
        × Moved s s' pt old (maxpdptframe s + i) f
        × Left s s1 s' pt old i f none
        × (entry_at s' pt ≡ entry_at s1 pt)
  unfolding move_pages out
  move_pages-new s1 f ch fresh = go (entry_at s old).dirty refl
    where
      fr : (f < 2 ^ 20) × (maxpdptframe s + i ≢ f) × (maxffsframe s ≤ f)
      fr = frames s offset i pt old co small at apart s1 f false ch

      go :
          (d : Bool)
          → (entry_at s old).dirty ≡ d
          → (s' : Vm) × (move_pages pt old i (maxpdptframe s + i) f false s1 ≡ ok tt s')
            × Moved s s' pt old (maxpdptframe s + i) f
            × Left s s1 s' pt old i f none
            × (entry_at s' pt ≡ entry_at s1 pt)
      go d e =
          let entries = out_entries s offset i pt old co small at apart s1 f false ch d in
          let copied : ((entry_at s1 old).dirty || (entry_at s1 pt).isswapped) ≡ d =
            dirty_same s offset i pt old co small at apart s1 f false ch
            ∙ rw (e, fresh) (ground arith) in
          let skip : ((entry_at (out s offset i pt old co small at apart s1 f false ch d)
                  pt).isswapped
                && not false)
              ≡ false =
            rw ((pt_same s offset i pt old co small at apart s1 f false ch d).1, fresh) refl in
          (
            out s offset i pt old co small at apart s1 f false ch d,
            rw
                (
                  move_out_lem s1 pt old i (maxpdptframe s + i) f false d apart copied,
                  bring_in-skip (out s offset i pt old co small at apart s1 f false ch d) pt i
                      (maxpdptframe s + i) false skip,
                )
                refl,
            record {
              kept = λ h j lt. new_kept s1 f ch d e h j lt;
              brought = λ h. cc;
              spared = λ g j lt a b. new_spared s1 f ch d g j lt b;
              old_entry = entries.0;
              pt_entry = pt_same s offset i pt old co small at apart s1 f false ch d;
              others = others_same s offset i pt old co small at apart s1 f false ch d;
              ptmap = ch.ptmap;
            },
            out-Left s offset i pt old co small at apart s1 f false ch d,
            entries.1,
          )

  -- the mappings when the faulting page comes back from swap frame number `m`
  back-Left :
      (s1 : Vm) (f m : ℕ) (ch : Chosen s pt old i s1 f false)
      → InSwap s m pt
      → Left s s1
          (brought_back
            (out s offset i pt old co small at apart s1 f false ch true)
            pt
            i
            (maxpdptframe s + i)
            (entry_at s pt).base)
          pt
          old
          i
          f
          (some m)
  unfolding out
  back-Left s1 f m ch w =
      let self : (i == i) ≡ true = ground arith in
      let top = co.top in
      let ms = w.small in
      let slot : sub32 (entry_at s pt).base (maxffsframe s) ≡ m = omega (arith, w.base) in
      let here : (entry_at s pt).base ≡ maxffsframe s + m = w.base in
      let r = ch.regions in
      record {
        entries = (out_entries s offset i pt old co small at apart s1 f false ch true).2;
        regions = r;
        regions1 = r;
        words1 = ch.words;
        swaplist = refl;
        ffslist = refl;
        ffs_other = λ j ne. rw ne refl;
        ffs_here = rw (self, here) refl;
        swap = λ k lt. elim (Bool-cases (k == m)) [
          | inl h ↦ rw (r, slot, h) refl
          | inr h ↦
              rw (r, slot, h)
                (rw r at
                  (slot_dropped s offset i pt old co small at apart s1 f false ch s1.swap2ffsmap k))
        ];
      }

  -- The faulting page comes back from its swap frame, and the old page goes to another one.
  pub move_pages-back :
      (s1 : Vm) (f m : ℕ)
      → Chosen s pt old i s1 f false
      → InSwap s m pt
      → (s' : Vm) × (move_pages pt old i (maxpdptframe s + i) f false s1 ≡ ok tt s')
        × Moved s s' pt old (maxpdptframe s + i) f
        × Left s s1 s' pt old i f (some m)
        × (entry_at s' pt ≡ entry_at s1 pt)
  unfolding move_pages out
  move_pages-back s1 f m ch w =
      let fr = frames s offset i pt old co small at apart s1 f false ch in
      let entries = out_entries s offset i pt old co small at apart s1 f false ch true in
      let t = out s offset i pt old co small at apart s1 f false ch true in
      let copied : ((entry_at s1 old).dirty || (entry_at s1 pt).isswapped) ≡ true =
        dirty_same s offset i pt old co small at apart s1 f false ch
        ∙ rw w.isswapped (ground arith) in
      let pt_now : entry_at t pt ≡ entry_at s pt = entries.1 ∙ ch.pt_same refl in
      let b = (entry_at s pt).base in
      let b_f : b ≢ f = ch.spares pt m w (λ h. cc) in
      let lay = co.layout in
      let b_e : b ≢ maxpdptframe s + i = omega (arith, w.base) in
      let w1 = copy_page (maxpdptframe s + i) f false s.words in
      let back =
        bring_in-back t pt i (maxpdptframe s + i) (ap (λ x. x.isswapped) pt_now ∙ w.isswapped)
          (ap (λ x. x.already_swapped) pt_now ∙ w.already_swapped) in
      (
        brought_back t pt i (maxpdptframe s + i) b,
        rw (move_out_lem s1 pt old i (maxpdptframe s + i) f false true apart copied, back, pt_now),
        record {
          kept = λ h j lt. rw ch.words (
              ground (
                arith,
                copy_page_one_way b (maxpdptframe s + i) w1 f j b_e lt,
                copy_page_one_way (maxpdptframe s + i) f s.words f j fr.1 lt,
              ));
          brought = λ h j lt. rw ch.words (
              ground (
                arith,
                copy_page_one_way b (maxpdptframe s + i) w1 (maxpdptframe s + i) j b_e lt,
                copy_page_one_way (maxpdptframe s + i) f s.words b j fr.1 lt,
              ));
          spared = λ g j lt ge gf. rw ch.words (
              ground (
                arith,
                copy_page_one_way b (maxpdptframe s + i) w1 g j b_e lt,
                copy_page_one_way (maxpdptframe s + i) f s.words g j fr.1 lt,
              ));
          old_entry = entries.0;
          pt_entry = pt_same s offset i pt old co small at apart s1 f false ch true;
          others = others_same s offset i pt old co small at apart s1 f false ch true;
          ptmap = ch.ptmap;
        },
        back-Left s1 f m ch w,
        entries.1,
      )

  -- The two pages change places.
  pub move_pages-exchange :
      (s1 : Vm) (f m : ℕ)
      → Chosen s pt old i s1 f true
      → InSwap s m pt
      → (s' : Vm) × (move_pages pt old i (maxpdptframe s + i) f true s1 ≡ ok tt s')
        × Moved s s' pt old (maxpdptframe s + i) f
        × Left s s1 s' pt old i f none
        × (entry_at s' pt ≡ entry_at s1 pt)
  unfolding move_pages out
  move_pages-exchange s1 f m ch w =
      let fr = frames s offset i pt old co small at apart s1 f true ch in
      let entries = out_entries s offset i pt old co small at apart s1 f true ch true in
      let t = out s offset i pt old co small at apart s1 f true ch true in
      let copied : ((entry_at s1 old).dirty || (entry_at s1 pt).isswapped) ≡ true =
        dirty_same s offset i pt old co small at apart s1 f true ch
        ∙ rw w.isswapped (ground arith) in
      let same = (ch.swapped_in_place refl).1 in
      let skip : ((entry_at t pt).isswapped && not true) ≡ false =
        rw ((pt_same s offset i pt old co small at apart s1 f true ch true).1, w.isswapped) refl in
      (
        t,
        rw (
          move_out_lem s1 pt old i (maxpdptframe s + i) f true true apart copied,
          bring_in-skip t pt i (maxpdptframe s + i) true skip,
        ),
        record {
          kept = λ h j lt.
              rw ch.words
                (ground (arith, copy_page_both_ways (maxpdptframe s + i) f s.words f j fr.1 lt));
          brought = λ h j lt.
              rw (ch.words, ← same)
                (ground (
                  arith,
                  copy_page_both_ways (maxpdptframe s + i) f s.words (maxpdptframe s + i) j fr.1 lt,
                ));
          spared = λ g j lt ge gf.
              rw ch.words
                (ground (arith, copy_page_both_ways (maxpdptframe s + i) f s.words g j fr.1 lt));
          old_entry = entries.0;
          pt_entry = pt_same s offset i pt old co small at apart s1 f true ch true;
          others = others_same s offset i pt old co small at apart s1 f true ch true;
          ptmap = ch.ptmap;
        },
        out-Left s offset i pt old co small at apart s1 f true ch true,
        entries.1,
      )
