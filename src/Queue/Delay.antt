-- ===== src/Queue/Delay.antt =====
-- `insertd`: the queue of sleeping processes, each keyed by its delay after the one before it.
use os_virtual_mem.Prelude.{ℕ, List, [], ◌∷◌, if◌then◌else◌}
use os_virtual_mem.Prelude.Int.{ℤ, ◌-ℤ◌, leb_ℤ}
use os_virtual_mem.Queue.Links.{Links}

-- the processes that wake before the delay `key` has passed, or with it, the others, and what is left
-- of the delay between them
early : (ℕ → ℤ) → ℤ → List ℕ → List ℕ
early keys key [] = []
early keys key (x ∷ xs) = if leb_ℤ (keys x) key then x ∷ early keys (key -ℤ keys x) xs else []

late : (ℕ → ℤ) → ℤ → List ℕ → List ℕ
late keys key [] = []
late keys key (x ∷ xs) = if leb_ℤ (keys x) key then late keys (key -ℤ keys x) xs else x ∷ xs

left : (ℕ → ℤ) → ℤ → List ℕ → ℤ
left keys key [] = key
left keys key (x ∷ xs) = if leb_ℤ (keys x) key then left keys (key -ℤ keys x) xs else key
