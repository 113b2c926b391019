-- ===== src/PageFault/RoundTrip.antt =====
-- What a page in swap holds: any number of faults on other pages leave it, and a fault brings it back.
use os_virtual_mem.Prelude.{
  ℕ, ◌+◌, ◌%◌, ◌<◌, ◌≡◌, ◌≢◌, refl, true, false, some, arith, ◌⊎◌, inl, inr, ap, sym, ◌∙◌,
}
use mathlib.Core.Path.{subst}
use os_virtual_mem.Memory.{page_size, ceil_div}
use os_virtual_mem.Vm.{
  Regions, PtRef, Vm, ok, entry_at, same_ref, maxffsframe, getffsframe, no_frame,
}
use os_virtual_mem.PageFault.{service_fault}
use os_virtual_mem.PageFault.Coherent.{InSwap}
use os_virtual_mem.PageFault.Served.{IsNew, Served}
use os_virtual_mem.PageFault.Vacant.{service_fault-refill}
use os_virtual_mem.PageFault.Fault.{service_fault-evict}
use os_virtual_mem.PageFault.Always.{IsPaging}

abbrev pub Faulting : Vm → PtRef → Type 0
Faulting s pt = IsNew s pt ⊎ ((m : ℕ) × InSwap s m pt)

-- What a fault on `pt` leaves of a page `q` in swap frame number `m`.
record Spares (s s' : Vm) (q : PtRef) (m : ℕ) : Type 0 where
  swapped : InSwap s' m q
  words : (j : ℕ) → j < 1024 → s'.words (maxffsframe s + m) j ≡ s.words (maxffsframe s + m) j
  regions : s'.regions ≡ s.regions

-- A page in swap that has come back: it is in a frame, with the words that it had.
pub record Fetched (s s' : Vm) (q : PtRef) (m : ℕ) : Type 0 where
  pub pres : (entry_at s' q).pres ≡ true
  pub words : (j : ℕ) → j < 1024 → s'.words (entry_at s' q).base j ≡ s.words (maxffsframe s + m) j

module _ (s : Vm) (offset pool rnd : ℕ) (pt : PtRef) (ok_s : IsPaging s offset pool)
    (faulting : Faulting s pt) where
  absent : Faulting s pt → (entry_at s pt).pres ≡ false
  absent (inl n) = n.pres
  absent (inr (m, w)) = w.pres

  -- a fault on another page
  fault-Spares :
      (s' : Vm) (q : PtRef) (m : ℕ)
      → service_fault rnd pt s ≡ ok tt s'
      → InSwap s m q
      → same_ref q pt ≡ false
      → (entry_at s q).base ≢ (entry_at s pt).base
      → IsPaging s' offset pool × Spares s s' q m
  fault-Spares s' q m ran w ne base =
      let lay = ok_s.mappings.layout in
      let ms = w.small in
      elim (service_fault-refill s offset pool rnd pt ok_s.mappings ok_s.frames faulting) [
        | inr (k, t, run, co, fp, arr) ↦
            let same : t ≡ s' = cc in
            let ks = arr.small in
            subst (λ z. IsPaging z offset pool × Spares s z q m) same
              (
                record { mappings = co; frames = fp },
                record {
                  swapped = arr.still_swapped q m w ne base;
                  words = λ j lt. arr.words (maxffsframe s + m) j lt (omega arith);
                  regions = arr.regions;
                },
              )
        | inl (full, used) ↦
            let (old, at) = ok_s.frames.mapped (rnd % 2048) (omega arith) (used (rnd % 2048)) in
            elim (service_fault-evict s offset pool rnd pt old ok_s.mappings ok_s.frames at full
              (absent faulting) faulting) [
                | inl (stop, why) ↦ cc (stop, ran)
                | inr (t, f, run, served, keeps) ↦
                    let same : t ≡ s' = cc in
                    subst (λ z. IsPaging z offset pool × Spares s z q m) same
                      (
                        record { mappings = keeps.0; frames = keeps.1 },
                        record {
                          swapped = served.still_swapped q m w ne base;
                          words = λ j lt. rw w.base at (served.swapped_words q m w base j lt);
                          regions = served.regions;
                        },
                      )
              ]
      ]

  -- a fault on the page itself
  fault-Fetched :
      (m : ℕ)
      → InSwap s m pt
      → (s' : Vm) × (service_fault rnd pt s ≡ ok tt s')
        × IsPaging s' offset pool
        × Fetched s s' pt m
  fault-Fetched m w =
      elim (service_fault-refill s offset pool rnd pt ok_s.mappings ok_s.frames faulting) [
        | inr (k, t, run, co, fp, arr) ↦ (
          t,
          run,
          record { mappings = co; frames = fp },
          record {
            pres = arr.pt_entry.0;
            words = λ j lt. ap (λ (z : ℕ). t.words z j) arr.pt_entry.3 ∙ arr.pt_words m w j lt;
          },
        )
        | inl (full, used) ↦
            let (old, at) = ok_s.frames.mapped (rnd % 2048) (omega arith) (used (rnd % 2048)) in
            elim (service_fault-evict s offset pool rnd pt old ok_s.mappings ok_s.frames at full
              (absent faulting) faulting) [
                | inl (stop, why) ↦ cc (why.isnew.isswapped, w.isswapped)
                | inr (t, f, run, served, keeps) ↦ (
                  t,
                  run,
                  record { mappings = keeps.0; frames = keeps.1 },
                  record {
                    pres = served.pt_entry.0;
                    words = λ j lt.
                        ap (λ (z : ℕ). t.words z j) served.pt_entry.3
                        ∙ (rw w.base at (served.pt_words w.isswapped j lt));
                  },
                )
              ]
      ]

-- Faults, one after the other, on pages other than `q` that do not have its swap frame.
pub data OtherFaults (q : PtRef) : Vm → Vm → Type 0 where
  over : {s : Vm} → OtherFaults q s s
  fault :
      {s s1 s2 : Vm} (rnd : ℕ) (pt : PtRef)
      → Faulting s pt
      → same_ref q pt ≡ false
      → (entry_at s q).base ≢ (entry_at s pt).base
      → service_fault rnd pt s ≡ ok tt s1
      → OtherFaults q s1 s2
      → OtherFaults q s s2

top_of_regions : (s s' : Vm) → s.regions ≡ s'.regions → maxffsframe s ≡ maxffsframe s'
top_of_regions s s' e = ap (λ (g : Regions). ceil_div g.maxffs page_size) e

-- they leave the page where it is
others-Spares :
    (offset pool : ℕ) (q : PtRef) (m : ℕ) (s s' : Vm)
    → IsPaging s offset pool
    → InSwap s m q
    → OtherFaults q s s'
    → IsPaging s' offset pool × Spares s s' q m
others-Spares offset pool q m s s' ok_s w over =
    (ok_s, record { swapped = w; words = λ j lt. refl; regions = refl })
others-Spares offset pool q m s s' ok_s w (fault {s1 = s1} rnd pt faulting ne base ran more) =
    let (ok_1, a) = fault-Spares s offset pool rnd pt ok_s faulting s1 q m ran w ne base in
    let (ok_2, b) = others-Spares offset pool q m s1 s' ok_1 a.swapped more in
    let top : maxffsframe s1 ≡ maxffsframe s = top_of_regions s1 s a.regions in
    (
      ok_2,
      record {
        swapped = b.swapped;
        words = λ j lt.
            (subst (λ z. s'.words (z + m) j ≡ s1.words (z + m) j) top (b.words j lt))
            ∙ a.words j lt;
        regions = b.regions ∙ a.regions;
      },
    )

-- the second half, from a state in which the page is in swap
back_again :
    (s t s2 : Vm) (offset pool f k rnd : ℕ) (q : PtRef)
    → IsPaging t offset pool
    → InSwap t k q
    → f ≡ maxffsframe s + k
    → t.regions ≡ s.regions
    → ((j : ℕ) → j < 1024 → t.words f j ≡ s.words (entry_at s q).base j)
    → OtherFaults q t s2
    → (s3 : Vm) × (service_fault rnd q s2 ≡ ok tt s3)
      × IsPaging s3 offset pool
      × ((entry_at s3 q).pres ≡ true)
      × ((j : ℕ) → j < 1024 → s3.words (entry_at s3 q).base j ≡ s.words (entry_at s q).base j)
back_again s t s2 offset pool f k rnd q ok_t w at_k regions kept others =
    let (ok_2, sp) = others-Spares offset pool q k t s2 ok_t w others in
    let (s3, run, ok_3, back) =
      fault-Fetched s2 offset pool rnd q ok_2 (inr (k, sp.swapped)) k sp.swapped in
    (s3, run, ok_3, back.pres, λ j lt. back.words j lt ∙ home sp j lt)
  where
    home :
        Spares t s2 q k
        → (j : ℕ) → j < 1024
        → s2.words (maxffsframe s2 + k) j ≡ s.words (entry_at s q).base j
    home sp j lt =
        let there = top_of_regions t s regions in
        let later = top_of_regions s2 t sp.regions in
        let slot : maxffsframe s2 + k ≡ maxffsframe t + k = ap (λ (z : ℕ). z + k) later in
        let slot_t : maxffsframe t + k ≡ f = omega arith in
        ap (λ (z : ℕ). s2.words z j) slot
        ∙ sp.words j lt
        ∙ ap (λ (z : ℕ). t.words z j) slot_t
        ∙ kept j lt

-- what the first fault leaves
evicted :
    (s s1 : Vm) (offset pool rnd : ℕ) (pt q : PtRef)
    → IsPaging s offset pool
    → getffsframe s ≡ ok no_frame s
    → s.ptmap (rnd % 2048) ≡ some q
    → Faulting s pt
    → service_fault rnd pt s ≡ ok tt s1
    → (f : ℕ) × Served s s1 pt q (rnd % 2048) f × IsPaging s1 offset pool
evicted s s1 offset pool rnd pt q ok_s full at faulting ran =
    elim (service_fault-evict s offset pool rnd pt q ok_s.mappings ok_s.frames at full
      (absent s offset pool rnd pt ok_s faulting faulting) faulting) [
        | inl (stop, why) ↦ cc (stop, ran)
        | inr (t, f, run, served, keeps) ↦
            let same : t ≡ s1 = cc in
            subst (λ z. (f : ℕ) × Served s z pt q (rnd % 2048) f × IsPaging z offset pool) same
              (f, served, record { mappings = keeps.0; frames = keeps.1 })
      ]

-- the words of the page where the first fault has put them
evicted_words :
    (s s1 : Vm) (offset pool rnd f : ℕ) (pt q : PtRef)
    → IsPaging s offset pool
    → s.ptmap (rnd % 2048) ≡ some q
    → ((entry_at s q).dirty ≡ true) ⊎ ((entry_at s q).already_swapped ≡ true)
    → Served s s1 pt q (rnd % 2048) f
    → (j : ℕ) → j < 1024
    → s1.words f j ≡ s.words (entry_at s q).base j
evicted_words s s1 offset pool rnd f pt q ok_s at kept served j lt =
    let res = ok_s.mappings.resident (rnd % 2048) q (omega arith) at in
    served.old_words kept j lt ∙ ap (λ (z : ℕ). s.words z j) (sym res.base)

-- With the mappings and the pool coherent and no FFS frame free, a fault evicts the page `q`, which has
-- been written or has a copy in swap; then faults on other pages follow, none of which has the swap
-- frame of `q`. A fault on `q` then returns, with `q` in a frame that holds the words it held before
-- it was evicted, and the mappings and the pool are coherent.
pub evicted_and_fetched :
    (s s1 s2 : Vm) (offset pool rnd rnd' : ℕ) (pt q : PtRef)
    → IsPaging s offset pool
    → getffsframe s ≡ ok no_frame s
    → s.ptmap (rnd % 2048) ≡ some q
    → (entry_at s q).isvmalloc ≡ false
    → ((entry_at s q).dirty ≡ true) ⊎ ((entry_at s q).already_swapped ≡ true)
    → Faulting s pt
    → service_fault rnd pt s ≡ ok tt s1
    → OtherFaults q s1 s2
    → (s3 : Vm) × (service_fault rnd' q s2 ≡ ok tt s3)
      × IsPaging s3 offset pool
      × ((entry_at s3 q).pres ≡ true)
      × ((j : ℕ) → j < 1024 → s3.words (entry_at s3 q).base j ≡ s.words (entry_at s q).base j)
evicted_and_fetched s s1 s2 offset pool rnd rnd' pt q ok_s full at not_new kept faulting ran
      others =
    let (f, served, ok_1) = evicted s s1 offset pool rnd pt q ok_s full at faulting ran in
    let (k, at_k, w) = served.swapped_out not_new in
    back_again s s1 s2 offset pool f k rnd' q ok_1 w at_k served.regions
      (evicted_words s s1 offset pool rnd f pt q ok_s at kept served) others
