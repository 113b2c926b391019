-- ===== src/KernelService/Malloc.antt =====
-- `kernel_service_malloc` where the table of the pages exists: what is mapped then, and what is booked.
use os_virtual_mem.Prelude.{
  ℕ, zero, suc, ◌+◌, ◌*◌, ◌%◌, ◌^◌, ◌<◌, ◌≤◌, ◌≡◌, ◌≢◌, refl, true, false, arith, ◌==◌, ltb, inl,
  inr, Bool-cases, ap, ◌∙◌,
}
use os_virtual_mem.Memory.{u32_mod, page_size, ceil_div, add32}
use os_virtual_mem.Vm.{
  Vm, ok, PtRef, pt_ref, pdbr_base, pd_offset, pt_offset, entry_at, with_entry, same_ref,
  set_entry_self, set_entry_ne,
}
use os_virtual_mem.KernelService.{
  malloc_entry, malloc_page, malloc_pages, book_malloc, kernel_service_malloc, vmalloc,
}

module _ (dir pd table : ℕ) (apart : dir ≢ table) where
  -- the directory entry of virtual pages `pd * 1024` to `pd * 1024 + 1023` points to `table`
  Mapped : Vm → Type 0
  Mapped s = ((s.entries (pt_ref dir pd)).pres ≡ true) × ((s.entries (pt_ref dir pd)).base ≡ table)

  page_addr : ℕ → ℕ
  page_addr j = (pd * 1024 + j) * 4096

  mapped_page : ℕ → Vm → Vm
  mapped_page j s = with_entry s (pt_ref table j) (malloc_entry false 0)

  malloc_page-Mapped :
      (j : ℕ) (s : Vm)
      → j < 1024
      → pd < 1024
      → Mapped s
      → malloc_page false dir (page_addr j) s ≡ ok tt (mapped_page j s)
  unfolding malloc_page Mapped page_addr mapped_page
  malloc_page-Mapped j s lt small m =
      let d : pd_offset ((pd * 1024 + j) * 4096) ≡ pd = omega arith in
      let o : pt_offset ((pd * 1024 + j) * 4096) ≡ j = omega arith in rw (d, o, m.0, m.1) refl

  Mapped-page : (j : ℕ) (s : Vm) → Mapped s → Mapped (mapped_page j s)
  unfolding Mapped mapped_page
  Mapped-page j s m =
      let ne : same_ref (pt_ref dir pd) (pt_ref table j) ≡ false = ground arith in
      let e = set_entry_ne s.entries (pt_ref table j) (malloc_entry false 0) (pt_ref dir pd) ne in
      (ap (λ x. x.pres) e ∙ m.0, ap (λ x. x.base) e ∙ m.1)

  -- the state with `n` pages from page `j` on mapped
  mapped_pages : (n j : ℕ) → Vm → Vm
  mapped_pages zero j s = s
  mapped_pages (suc n) j s = mapped_pages n (j + 1) (mapped_page j s)

  malloc_pages-Mapped :
      (n j : ℕ) (s : Vm)
      → j + n ≤ 1024
      → pd < 1024
      → Mapped s
      → malloc_pages n false dir (page_addr j % u32_mod) s ≡ ok tt (mapped_pages n j s)
  unfolding malloc_pages mapped_pages
  malloc_pages-Mapped zero j s fits small m = refl
  malloc_pages-Mapped (suc n) j s fits small m =
      let here : page_addr j % u32_mod ≡ page_addr j = unfold page_addr in omega arith in
      let next : add32 (page_addr j) page_size ≡ page_addr (j + 1) % u32_mod =
        unfold page_addr in omega arith in
      let lt : j < 1024 = omega arith in
      rw (here, malloc_page-Mapped j s lt small m, next)
        (malloc_pages-Mapped n (j + 1) (mapped_page j s) (omega arith) small (Mapped-page j s m))

  mapped_pages-other :
      (n i : ℕ) (s : Vm) (r : PtRef)
      → ((j : ℕ) → i ≤ j → j < i + n → same_ref r (pt_ref table j) ≡ false)
      → entry_at (mapped_pages n i s) r ≡ entry_at s r
  unfolding mapped_pages mapped_page
  mapped_pages-other zero i s r out = refl
  mapped_pages-other (suc k) i s r out =
      mapped_pages-other k (i + 1) (mapped_page i s) r
        (λ j le lt. out j (omega arith) (omega arith))
      ∙ set_entry_ne s.entries (pt_ref table i) (malloc_entry false 0) r
          (out i (omega arith) (omega arith))

  mapped_pages-written :
      (n i : ℕ) (s : Vm) (j : ℕ)
      → i ≤ j
      → j < i + n
      → entry_at (mapped_pages n i s) (pt_ref table j) ≡ malloc_entry false 0
  unfolding mapped_pages mapped_page
  mapped_pages-written zero i s j le lt = ground arith
  mapped_pages-written (suc k) i s j le lt = elim (Bool-cases (j == i)) [
    | inl e ↦
        let same : j ≡ i = ground arith in
        rw same (
          mapped_pages-other k (i + 1) (mapped_page i s) (pt_ref table i)
            (λ x le' lt'. ground arith)
          ∙ set_entry_self s.entries (pt_ref table i) (malloc_entry false 0))
    | inr e ↦
        let ne : i ≢ j = ground arith in
        mapped_pages-written k (i + 1) (mapped_page i s) j (omega arith) (omega arith)
  ]

  mapped_pages-rest :
      (n i : ℕ) (s : Vm)
      → ((mapped_pages n i s).procs ≡ s.procs)
        × ((mapped_pages n i s).n_free_vpages ≡ s.n_free_vpages)
  unfolding mapped_pages mapped_page
  mapped_pages-rest zero i s = (refl, refl)
  mapped_pages-rest (suc k) i s = mapped_pages-rest k (i + 1) (mapped_page i s)

-- `vmalloc`, within one table that exists, maps the next pages of the caller: its address is that of
-- the first, each page waits for its first access, every other entry is as it was, and the pages are
-- charged to the process and to the system.
pub vmalloc-mapped :
    (s : Vm) (nbytes pd j table : ℕ)
    → 0 < nbytes
    → ceil_div nbytes page_size ≤ (s.procs s.currpid).vfree
    → ceil_div nbytes page_size ≤ s.n_free_vpages
    → (s.procs s.currpid).vfree < 2 ^ 32
    → s.n_free_vpages < 2 ^ 32
    → (s.procs s.currpid).vmax ≡ pd * 1024 + j
    → pd < 1024
    → j + ceil_div nbytes page_size < 1024
    → (s.entries (pt_ref (pdbr_base (s.procs s.currpid).pdbr) pd)).pres ≡ true
    → (s.entries (pt_ref (pdbr_base (s.procs s.currpid).pdbr) pd)).base ≡ table
    → pdbr_base (s.procs s.currpid).pdbr ≢ table
    → (s' : Vm) × (vmalloc true nbytes s ≡ ok ((pd * 1024 + j) * 4096) s')
      × ((i : ℕ)
          → j ≤ i
          → i < j + ceil_div nbytes page_size
          → entry_at s' (pt_ref table i) ≡ malloc_entry false 0)
      × ((r : PtRef)
          → ((i : ℕ)
              → j ≤ i
              → i < j + ceil_div nbytes page_size
              → same_ref r (pt_ref table i) ≡ false)
          → entry_at s' r ≡ entry_at s r)
      × ((s'.procs s.currpid).vmax ≡ (s.procs s.currpid).vmax + ceil_div nbytes page_size)
      × ((s'.procs s.currpid).vfree + ceil_div nbytes page_size ≡ (s.procs s.currpid).vfree)
      × (s'.n_free_vpages + ceil_div nbytes page_size ≡ s.n_free_vpages)
unfolding vmalloc kernel_service_malloc Mapped
vmalloc-mapped s nbytes pd j table some_bytes own all own_fits all_fits next small fits pres base
      apart =
    let n = ceil_div nbytes page_size in
    let dir = pdbr_base (s.procs s.currpid).pdbr in
    let m = mapped_pages dir pd table apart n j s in
    let rest = mapped_pages-rest dir pd table apart n j s in
    let run = malloc_pages-Mapped dir pd table apart n j s (omega arith) small (pres, base) in
    let run' : malloc_pages n false dir ((pd * 1024 + j) * 4096 % u32_mod) s ≡ ok tt m =
      unfold page_addr in run in
    let nz : (nbytes == 0) ≡ false = ground arith in
    let enough : ltb (s.procs s.currpid).vfree n ≡ false = ground arith in
    let left : ltb s.n_free_vpages n ≡ false = ground arith in
    let word : (pd * 1024 + j) * 2 ^ 12 % u32_mod ≡ (pd * 1024 + j) * 4096 = omega arith in
    let self : (s.currpid == s.currpid) ≡ true = ground arith in
    (
      book_malloc n false s.currpid m,
      rw (nz, enough, left, next, enough, run', word),
      mapped_pages-written dir pd table apart n j s,
      mapped_pages-other dir pd table apart n j s,
      rw (self, rest.0) (omega arith),
      rw (self, rest.0) (omega arith),
      rw rest.1 (omega arith),
    )
