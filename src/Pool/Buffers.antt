-- ===== src/Pool/Buffers.antt =====
-- The free buffers of a pool, and what `getbuf` and `freebuf` do to them.
use os_virtual_mem.Prelude.{
  ℕ, suc, ◌+◌, ◌^◌, ◌<◌, ◌≡◌, refl, List, [], ◌∷◌, arith, ◌==◌, leb, true, false, length,
}
use os_virtual_mem.Prelude.Int.{pos}
use os_virtual_mem.Memory.{add32, sub32}
use os_virtual_mem.Queue.{update}
use os_virtual_mem.Sys.{Sys, done, set_word}
use os_virtual_mem.Semaphore.{set_sem, unusable, signal}
use os_virtual_mem.Semaphore.Create.{wait_free, signal_free}
use os_virtual_mem.Pool.{set_pool, getbuf_begin, getbuf_end, freebuf}

-- `p` is the first of the buffers `bs`, the first word of each is the address of the next, and that
-- of the last is `NULL`.
abbrev pub BufferChain : (ℕ → ℕ) → ℕ → List ℕ → Type 0
BufferChain w p [] = p ≡ 0
BufferChain w p (b ∷ bs) = (p ≡ b) × (0 < b) × (b + 4 < 2 ^ 32) × BufferChain w (w b) bs

abbrev pub NotIn : ℕ → List ℕ → Type 0
NotIn b [] = Unit
NotIn b (c ∷ cs) = ((c == b) ≡ false) × NotIn b cs

abbrev pub Distinct : List ℕ → Type 0
Distinct [] = Unit
Distinct (b ∷ bs) = NotIn b bs × Distinct bs

-- a write to another address
pub BufferChain-write :
    (w : ℕ → ℕ) (p a v : ℕ) (bs : List ℕ)
    → NotIn a bs
    → BufferChain w p bs
    → BufferChain (update w a v) p bs
BufferChain-write w p a v [] n c = c
BufferChain-write w p a v (b ∷ bs) n c =
    (c.0, c.1, c.2, rw n.0 (BufferChain-write w (w b) a v bs n.1 c.3))

-- Pool `id` is in use, its free buffers are `bs`, and its semaphore counts them.
pub record IsPool (s : Sys) (id : ℕ) (bs : List ℕ) : Type 0 where
  pub used : id < s.nbpools
  pub list : BufferChain s.words (s.buftab id).bpnext bs
  pub distinct : Distinct bs
  pub usable : unusable s (s.buftab id).bpsem ≡ false
  pub count : (s.semtab (s.buftab id).bpsem).scount ≡ pos (length bs)

-- `getbuf` on a pool with a free buffer: the wait does not block, the caller gets the first free
-- buffer, past the word that now holds the pool's id, the others stay free in their order, and no
-- other word changes.
pub getbuf_lem :
    (s : Sys) (id b : ℕ) (bs : List ℕ)
    → IsPool s id (b ∷ bs)
    → (s1 s2 : Sys) × (getbuf_begin id s ≡ done true s1)
      × (getbuf_end id s1 ≡ done (b + 4) s2)
      × IsPool s2 id bs
      × (s2.words b ≡ id)
      × ((a : ℕ) → (a == b) ≡ false → s2.words a ≡ s.words a)
unfolding getbuf_begin getbuf_end
getbuf_lem s id b bs h =
    let known : leb s.nbpools id ≡ false = ground (arith, h.used) in
    let sem = (s.buftab id).bpsem in
    let run = wait_free s sem (length bs) h.usable h.count in
    let s1 = set_sem sem (record (s.semtab sem) { scount = pos (length bs) }) s in
    let s2 = set_word b id (set_pool id (record (s.buftab id) { bpnext = s.words b }) s1) in
    let self : (id == id) ≡ true = ground arith in
    let sem_self : (sem == sem) ≡ true = ground arith in
    let b_self : (b == b) ≡ true = ground arith in
    let past : add32 b 4 ≡ b + 4 = omega (arith, h.list.2) in
    (
      s1,
      s2,
      rw (known, run) refl,
      rw (h.list.0, past) refl,
      record {
        used = h.used;
        list = rw self (BufferChain-write s.words (s.words b) b id bs h.distinct.0 h.list.3);
        distinct = h.distinct.1;
        usable = rw (self, sem_self) h.usable;
        count = rw (self, sem_self) refl;
      },
      rw b_self refl,
      λ a ne. rw ne refl,
    )

-- With no process waiting for a buffer, `freebuf` of a buffer that holds its pool's id and is not
-- free: the buffer is the pool's first free one, with the others behind it, and no other word changes.
pub freebuf_lem :
    (s : Sys) (id b : ℕ) (bs : List ℕ)
    → IsPool s id bs
    → s.words b ≡ id
    → 0 < b
    → b + 4 < 2 ^ 32
    → NotIn b bs
    → (s' : Sys) × (freebuf (b + 4) s ≡ done true s')
      × IsPool s' id (b ∷ bs)
      × ((a : ℕ) → (a == b) ≡ false → s'.words a ≡ s.words a)
unfolding freebuf
freebuf_lem s id b bs h mark low high apart =
    let known : leb s.nbpools id ≡ false = ground (arith, h.used) in
    let sem = (s.buftab id).bpsem in
    let back : sub32 (b + 4) 4 ≡ b = omega arith in
    let self : (id == id) ≡ true = ground arith in
    let sem_self : (sem == sem) ≡ true = ground arith in
    let b_self : (b == b) ≡ true = ground arith in
    let t = set_pool id (record (s.buftab id) { bpnext = b }) (set_word b (s.buftab id).bpnext s) in
    let run : signal sem t
        ≡ done true (set_sem sem (record (s.semtab sem) { scount = pos (suc (length bs)) }) t) =
      signal_free t sem (length bs) h.usable h.count in
    (
      set_sem sem (record (s.semtab sem) { scount = pos (suc (length bs)) }) t,
      rw (back, mark, known, run) refl,
      record {
        used = h.used;
        list =
            rw (self, b_self)
              (
                refl,
                low,
                high,
                BufferChain-write s.words (s.buftab id).bpnext b (s.buftab id).bpnext bs apart
                    h.list,
              );
        distinct = (apart, h.distinct);
        usable = rw (self, sem_self) h.usable;
        count = rw (self, sem_self) refl;
      },
      λ a ne. rw ne refl,
    )
