-- ===== src/Pool/Create.antt =====
-- What `mkbufpool` makes.
use os_virtual_mem.Prelude.{ℕ, suc, ◌+◌, ◌*◌, ◌≡◌, ◌==◌, false, ◌⊎◌, some, none, Option}
use os_virtual_mem.Memory.{roundmb}
use os_virtual_mem.FreeList.{FreeList}
use os_virtual_mem.FreeList.Get.{Taken}
use os_virtual_mem.Sys.{Sys, Run, done}
use os_virtual_mem.Pool.{set_pool}
use os_virtual_mem.Pool.Buffers.{IsPool}
use os_virtual_mem.Pool.Links.{buffers_from}

-- The pool of `n + 1` buffers of `size` bytes, made from a block of the heap that was free.
pub record Made (s s' : Sys) (lo hi id buf size n : ℕ) : Type 0 where
  pub pool : IsPool s' id (buffers_from n buf (size + 4))
  pub bpsize : (s'.buftab id).bpsize ≡ size
  pub block : Taken lo hi (roundmb (suc n * (size + 4))) buf s.memlist.blocks s'.memlist.blocks
  pub others : (j : ℕ) → (j == id) ≡ false → s'.buftab j ≡ s.buftab j
  pub sems :
      ((s.semtab (s'.buftab id).bpsem).used ≡ false)
      × ((j : ℕ) → (j == (s'.buftab id).bpsem) ≡ false → s'.semtab j ≡ s.semtab j)

-- nothing of the heap or of the other pools has changed
pub record Refused (s s' : Sys) : Type 0 where
  pub memlist : s'.memlist ≡ s.memlist
  pub nbpools : s'.nbpools ≡ s.nbpools
  pub words : s'.words ≡ s.words
  pub semtab : s'.semtab ≡ s.semtab
  pub others : (j : ℕ) → (j == s.nbpools) ≡ false → s'.buftab j ≡ s.buftab j

abbrev Outcome : (s : Sys) (lo hi size n : ℕ) → Run (Option ℕ) → Type 0
Outcome s lo hi size n r =
    ((s' : Sys) × (r ≡ done none s') × Refused s s')
    ⊎ ((buf : ℕ) × (s' : Sys) × (r ≡ done (some s.nbpools) s')
        × Made s s' lo hi s.nbpools buf size n)

-- the state in which `mkbufpool` asks for a semaphore, with `block` from the heap
abbrev begun : Sys → (size : ℕ) → (block : ℕ × FreeList) → Sys
begun s size block =
    record (set_pool s.nbpools (record (s.buftab s.nbpools) { bpnext = block.0; bpsize = size })
      s) { memlist = block.1; nbpools = s.nbpools + 1 }
