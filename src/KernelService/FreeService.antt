-- ===== src/KernelService/FreeService.antt =====
-- The whole of `kernel_service_free`.
use os_virtual_mem.Prelude.{ℕ, ◌-◌, ◌≤◌, ◌<◌, ◌≡◌, ◌≢◌, refl, true, false, arith, ◌==◌, leb, ap}
use os_virtual_mem.Memory.{add32, max_heap_size}
use os_virtual_mem.Vm.{pdbr_base, Proc, Vm, ok, update}
use os_virtual_mem.KernelService.{start_page, end_page, kernel_service_free}
use os_virtual_mem.PageFault.Always.{IsPaging}
use os_virtual_mem.KernelService.Released.{Placed}
use os_virtual_mem.KernelService.FreePages.{Freeable, AllReleased, free_pages-IsPaging}

-- What the whole service leaves: the pages are freed, and booked on the process and the system.
pub record ServiceFreed (s s' : Vm) (dir first n pid : ℕ) : Type 0 where
  pub pages :
      AllReleased s (record s' { procs = s.procs; n_free_vpages = s.n_free_vpages }) dir first n
  pub vfree : (s'.procs pid).vfree ≡ add32 (s.procs pid).vfree n
  pub other_procs : (p : ℕ) → p ≢ pid → s'.procs p ≡ s.procs p
  pub n_free_vpages : s'.n_free_vpages ≡ add32 s.n_free_vpages n

IsPaging-booked :
    (s : Vm) (offset pool : ℕ) (procs : ℕ → Proc) (pages : ℕ)
    → IsPaging s offset pool
    → IsPaging (record s { procs = procs; n_free_vpages = pages }) offset pool
IsPaging-booked s offset pool procs pages ok_s =
    let co = ok_s.mappings in
    let fp = ok_s.frames in
    record {
      mappings = record {
        layout = co.layout;
        top = co.top;
        resident = λ i r lt e.
            let res = co.resident i r lt e in
            record { pres = res.pres; isswapped = res.isswapped; base = res.base };
        owned = λ i r lt e own.
            let (k, d) = co.owned i r lt e own in
            (k, record { small = d.small; mapped = d.mapped; back = d.back; same = d.same });
        unowned = co.unowned;
        shadow = co.shadow;
        pool = co.pool;
        swaplist = co.swaplist;
        paged = co.paged;
      };
      frames = record { region = fp.region; vacant = fp.vacant; mapped = fp.mapped };
    }

-- With the mappings and the pool coherent, the regions as the initialisers place them, at least one
-- byte, pages that can be freed, and a count of free pages that stays within the heap limit,
-- `kernel_service_free` returns, the mappings and the pool are coherent again, the entries of the
-- pages are zero and their frames of FFS and swap free, also the swap frames of copies of resident
-- pages, all other entries and words are as they were, and the pages are given back to the process and
-- the system, and to no other process.
pub kernel_service_free-IsPaging :
    (s : Vm) (offset pool ptr nbytes pid : ℕ)
    → IsPaging s offset pool
    → Placed s.regions
    → 0 < nbytes
    → Freeable s
        (pdbr_base (s.procs pid).pdbr)
        (start_page ptr)
        (end_page ptr nbytes - start_page ptr)
    → add32 s.n_free_vpages (end_page ptr nbytes - start_page ptr) ≤ max_heap_size
    → (s' : Vm) × (kernel_service_free ptr nbytes pid s ≡ ok tt s')
      × IsPaging s' offset pool
      × ServiceFreed s s'
          (pdbr_base (s.procs pid).pdbr)
          (start_page ptr)
          (end_page ptr nbytes - start_page ptr)
          pid
unfolding kernel_service_free
kernel_service_free-IsPaging s offset pool ptr nbytes pid ok_s placed pos f fits =
    let n = end_page ptr nbytes - start_page ptr in
    let (s1, run, ok_s1, a) =
      free_pages-IsPaging n s offset pool (pdbr_base (s.procs pid).pdbr) (start_page ptr) ok_s
        placed f in
    let nz : (nbytes == 0) ≡ false = ground arith in
    let small : leb (add32 s.n_free_vpages n) max_heap_size ≡ true = ground arith in
    let booked : ℕ → Proc =
      update s1.procs pid (record (s1.procs pid) { vfree = add32 (s1.procs pid).vfree n }) in
    (
      record s1 { procs = booked; n_free_vpages = add32 s1.n_free_vpages n },
      rw (nz, run, a.n_free_vpages, small) refl,
      IsPaging-booked s1 offset pool booked (add32 s1.n_free_vpages n) ok_s1,
      record {
        pages = record {
          entry = a.entry;
          others = a.others;
          frame = a.frame;
          swap_frame = a.swap_frame;
          swap_copy = a.swap_copy;
          shrinks = a.shrinks;
          swap_grows = a.swap_grows;
          words = a.words;
          regions = a.regions;
          procs = refl;
          n_free_vpages = refl;
        };
        vfree = let e = ap (λ (g : ℕ → Proc). g pid) a.procs in ground arith;
        other_procs = λ p ne. let e = ap (λ (g : ℕ → Proc). g p) a.procs in ground arith;
        n_free_vpages = ap (λ (z : ℕ). add32 z n) a.n_free_vpages;
      },
    )
