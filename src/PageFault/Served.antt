-- ===== src/PageFault/Served.antt =====
-- What a served page fault comes to, and the last step of the handler.
use os_virtual_mem.Prelude.{
  ℕ, ◌+◌, ◌%◌, ◌^◌, ◌<◌, ◌≡◌, ◌≢◌, Bool, true, false, some, ◌==◌, if◌then◌else◌, ap, ◌⊎◌,
}
use os_virtual_mem.Vm.{
  PtRef, Vm, ok, entry_at, maxpdptframe, maxffsframe, same_ref, with_entry, update, and_then, ◌>>=◌,
  ◌>>◌, get, put, assert,
}
use os_virtual_mem.PageFault.{install, frame_vacant}
use os_virtual_mem.PageFault.Coherent.{InSwap}

-- handed out by `vmalloc` and not touched yet
pub record IsNew (s : Vm) (pt : PtRef) : Type 0 where
  pub isvmalloc : (entry_at s pt).isvmalloc ≡ true
  pub isswapped : (entry_at s pt).isswapped ≡ false
  pub pres : (entry_at s pt).pres ≡ false
  pub already_swapped : (entry_at s pt).already_swapped ≡ false

-- The fault is served: the page of `pt` is in FFS frame number `i`, that of `old` in swap frame `f`,
-- and the words of all pages are what they were.
pub record Served (s s' : Vm) (pt old : PtRef) (i f : ℕ) : Type 0 where
  pub pt_entry :
      ((entry_at s' pt).pres ≡ true)
      × ((entry_at s' pt).isswapped ≡ false)
      × ((entry_at s' pt).isvmalloc ≡ false)
      × ((entry_at s' pt).base ≡ maxpdptframe s + i)
  pub pt_words :
      (entry_at s pt).isswapped ≡ true
      → (j : ℕ) → j < 1024
      → s'.words (maxpdptframe s + i) j ≡ s.words (entry_at s pt).base j
  pub old_entry :
      ((entry_at s' old).pres ≡ false)
      × ((entry_at s' old).isswapped ≡ true)
      × ((entry_at s' old).already_swapped ≡ true)
      × ((entry_at s' old).base ≡ f)
  pub old_words :
      ((entry_at s old).dirty ≡ true) ⊎ ((entry_at s old).already_swapped ≡ true)
      → (j : ℕ) → j < 1024
      → s'.words f j ≡ s.words (maxpdptframe s + i) j
  pub swapped_out :
      (entry_at s old).isvmalloc ≡ false → (k : ℕ) × (f ≡ maxffsframe s + k) × InSwap s' k old
  pub still_swapped :
      (q : PtRef) (m : ℕ)
      → InSwap s m q
      → same_ref q pt ≡ false
      → (entry_at s q).base ≢ (entry_at s pt).base
      → InSwap s' m q
  pub others :
      (q : PtRef)
      → same_ref q old ≡ false
      → same_ref q pt ≡ false
      → ((entry_at s' q).pres ≡ (entry_at s q).pres)
        × ((entry_at s' q).isswapped ≡ (entry_at s q).isswapped)
        × ((entry_at s' q).base ≡ (entry_at s q).base)
  pub resident_words :
      (i' : ℕ)
      → i' < 2048
      → i' ≢ i
      → (j : ℕ) → j < 1024
      → s'.words (maxpdptframe s + i') j ≡ s.words (maxpdptframe s + i') j
  pub swapped_words :
      (q : PtRef) (k : ℕ)
      → InSwap s k q
      → (entry_at s q).base ≢ (entry_at s pt).base
      → (j : ℕ) → j < 1024
      → s'.words (entry_at s q).base j ≡ s.words (entry_at s q).base j
  pub clean : (entry_at s' pt).dirty ≡ false
  pub regions : s'.regions ≡ s.regions
  pub ptmap : (i' : ℕ) → s'.ptmap i' ≡ (if i' == i then some pt else s.ptmap i')

pub install_vacant :
    (s : Vm) (i frame : ℕ) (pt : PtRef)
    → frame_vacant s i ≡ true
    → install pt (i, frame) s
      ≡ ok tt (
          with_entry
            (record s { ptmap = update s.ptmap i (some pt) })
            pt
            (record (entry_at s pt) {
              base = frame % 2 ^ 20;
              pres = true;
              isvmalloc = false;
              isswapped = false;
              dirty = false;
            }))
unfolding install
install_vacant s i frame pt vacant =
    ap
      (λ (b : Bool). and_then (assert b s) (λ (_ : Unit {0}). do
        put (record s { ptmap = update s.ptmap i (some pt) })
        s1 ← get
        put (
            with_entry s1 pt (record (entry_at s1 pt) {
              base = frame % 2 ^ 20;
              pres = true;
              isvmalloc = false;
              isswapped = false;
              dirty = false;
            }))))
      vacant

pub install_lem :
    (s : Vm) (i frame : ℕ) (pt old : PtRef)
    → s.ptmap i ≡ some old
    → (entry_at s old).pres ≡ false
    → install pt (i, frame) s
      ≡ ok tt (
          with_entry
            (record s { ptmap = update s.ptmap i (some pt) })
            pt
            (record (entry_at s pt) {
              base = frame % 2 ^ 20;
              pres = true;
              isvmalloc = false;
              isswapped = false;
              dirty = false;
            }))
install_lem s i frame pt old at out = install_vacant s i frame pt (rw (at, frame_vacant, out))
