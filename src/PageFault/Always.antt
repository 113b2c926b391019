-- ===== src/PageFault/Always.antt =====
-- Any page fault, with a free frame or without: the handler keeps its invariant.
use os_virtual_mem.Prelude.{ℕ, ◌%◌, ◌≡◌, true, ◌⊎◌, inl, inr, none, some, arith, false}
use os_virtual_mem.Vm.{PtRef, Vm, ok, halted, entry_at, getffsframe, getswapframe, no_frame}
use os_virtual_mem.PageFault.{service_fault, swap_get_evict_candidate}
use os_virtual_mem.PageFault.Coherent.{InSwap, Coherent}
use os_virtual_mem.PageFault.Served.{IsNew}
use os_virtual_mem.PageFault.Refill.{FfsPool}
use os_virtual_mem.PageFault.Vacant.{service_fault-refill}
use os_virtual_mem.PageFault.Fault.{service_fault-evict}

-- The mappings are coherent, and so is the pool of free FFS frames.
pub record IsPaging (s : Vm) (offset pool : ℕ) : Type 0 where
  pub mappings : Coherent s offset
  pub frames : FfsPool s pool

-- A new page comes in while all of FFS and of swap is in use, the page that would have to leave has no
-- swap frame, and no page can give up its own.
pub record IsExhausted (s : Vm) (rnd : ℕ) (pt : PtRef) : Type 0 where
  pub isnew : IsNew s pt
  pub no_ffs_left : getffsframe s ≡ ok no_frame s
  pub no_copy :
      (old : PtRef) → s.ptmap (rnd % 2048) ≡ some old → (entry_at s old).already_swapped ≡ false
  pub no_swap_left : getswapframe s ≡ ok no_frame s
  pub no_candidate : swap_get_evict_candidate s ≡ none

not_in :
    (s : Vm) (pt : PtRef) → IsNew s pt ⊎ ((m : ℕ) × InSwap s m pt) → (entry_at s pt).pres ≡ false
not_in s pt (inl n) = n.pres
not_in s pt (inr (m, w)) = w.pres

-- A fault on a page that is new or in swap, from any state that satisfies the invariant: the handler
-- halts only where FFS and swap are exhausted and the page is new; otherwise it returns, the page is
-- present, and the invariant holds again.
pub service_fault-IsPaging :
    (s : Vm) (offset pool rnd : ℕ) (pt : PtRef)
    → IsPaging s offset pool
    → IsNew s pt ⊎ ((m : ℕ) × InSwap s m pt)
    → ((service_fault rnd pt s ≡ halted) × IsExhausted s rnd pt)
      ⊎ ((s' : Vm) × (service_fault rnd pt s ≡ ok tt s')
          × IsPaging s' offset pool
          × ((entry_at s' pt).pres ≡ true))
service_fault-IsPaging s offset pool rnd pt ok_s faulting =
    elim (service_fault-refill s offset pool rnd pt ok_s.mappings ok_s.frames faulting) [
      | inr (k, s', run, co, fp, arr) ↦
          inr (s', run, record { mappings = co; frames = fp }, arr.pt_entry.0)
      | inl (full, used) ↦
          let (old, at) = ok_s.frames.mapped (rnd % 2048) (omega arith) (used (rnd % 2048)) in
          elim (service_fault-evict s offset pool rnd pt old ok_s.mappings ok_s.frames at full
            (not_in s pt faulting) faulting) [
              | inl (stop, why) ↦ inl (
                stop,
                record {
                  isnew = why.isnew;
                  no_ffs_left = full;
                  no_copy = λ q e. cc (why.no_copy, at, e);
                  no_swap_left = why.no_frame_left;
                  no_candidate = why.no_candidate;
                },
              )
              | inr (s', f, run, served, keeps) ↦
                  inr (s', run, record { mappings = keeps.0; frames = keeps.1 }, served.pt_entry.0)
            ]
    ]
