-- ===== src/Heap/Stack.antt =====
-- `getstk`: the last block that fits, and the bytes cut off its high end.
use os_virtual_mem.Prelude.{
  ℕ, ◌+◌, ◌-◌, ◌%◌, ◌≤◌, ◌<◌, ◌≡◌, refl, true, false, Option, none, some, List, [], ◌∷◌, arith, leb,
  ◌==◌, ◌⊎◌, Bool-cases, inl, inr, if◌then◌else◌,
}
use os_virtual_mem.Memory.{u32_mod, sys_err, sub32_fit, add32, sub32, roundmb, roundmb_bounds}
use os_virtual_mem.FreeList.{Block, FreeList}
use os_virtual_mem.FreeList.Chain.{Chain, has-below, Chain-lower}
use os_virtual_mem.FreeList.Get.{Taken, AllBelow}
use os_virtual_mem.FreeList.Laws.{IsValid}
use os_virtual_mem.Heap.{scan_fits, cut_top, getstk}

-- `b` is the last block of the chain with at least `n` bytes
abbrev pub LastFit : ℕ → Block → List Block → Type 0
LastFit n b [] = ⊥
LastFit n b (c ∷ bs) =
    ((c.addr ≡ b.addr) × (c.mlength ≡ b.mlength) × (n ≤ b.mlength) × AllBelow n bs) ⊎ LastFit n b bs

-- the scan is left with the last block that fits, or with what it had
scan_fits_lem :
    (n : ℕ) (fits : Option Block) (bs : List Block)
    → ((scan_fits n fits bs ≡ fits) × AllBelow n bs)
      ⊎ ((b : Block) × (scan_fits n fits bs ≡ some b) × LastFit n b bs)
unfolding scan_fits
scan_fits_lem n fits [] = inl (refl, tt)
scan_fits_lem n fits (b ∷ bs) = elim (Bool-cases (leb n b.mlength)) [
  | inl fit ↦ rw fit (elim (scan_fits_lem n (some b) bs) [
    | inl (e, small) ↦ inr (b, e, inl (refl, refl, ground arith, small))
    | inr (c, e, last) ↦ inr (c, e, inr last)
  ])
  | inr tight ↦ rw tight (elim (scan_fits_lem n fits bs) [
    | inl (e, small) ↦ inl (e, (ground arith, small))
    | inr (c, e, last) ↦ inr (c, e, inr last)
  ])
]

module _ (hi n : ℕ) (small : hi < u32_mod) (pos : 0 < n) where
  LastFit-bounds :
      (lo : ℕ) (b : Block) (bs : List Block)
      → Chain lo hi bs
      → LastFit n b bs
      → (lo ≤ b.addr) × (n ≤ b.mlength) × (b.addr + b.mlength ≤ hi)
  LastFit-bounds lo b [] c f = absurd f
  LastFit-bounds lo b (d ∷ bs) c (inl f) = (omega arith, f.2, omega arith)
  LastFit-bounds lo b (d ∷ bs) c (inr f) =
      let r = LastFit-bounds (d.addr + d.mlength + 1) b bs c.3 f in (omega arith, r.1, r.2)

  cut_top-Taken :
      (lo : ℕ) (b : Block) (bs : List Block)
      → Chain lo hi bs
      → LastFit n b bs
      → Taken lo hi n (b.addr + (b.mlength - n)) bs (cut_top b.addr n bs)
  unfolding cut_top
  cut_top-Taken lo b [] c f = absurd f
  cut_top-Taken lo b (d ∷ bs) c (inl f) =
      let at : (d.addr == b.addr) ≡ true = ground arith in
      rw at (elim (Bool-cases (n == d.mlength)) [
        | inl whole ↦ rw whole (record {
          chain = Chain-lower (d.addr + d.mlength + 1) lo hi bs (omega arith) c.3;
          above = omega arith;
          below = ground arith;
          same = λ x. ground arith;
          gone = λ x m. has-below x (d.addr + d.mlength + 1) hi bs c.3 (ground arith);
          sum = ground arith;
        })
        | inr part ↦
            rw (part, sub32_fit d.mlength n (omega arith) (omega arith))
              (record {
                chain = (
                  c.0,
                  ground arith,
                  omega arith,
                  Chain-lower (d.addr + d.mlength + 1) (d.addr + (d.mlength - n) + 1) hi bs
                      (omega arith) c.3,
                );
                above = omega arith;
                below = omega arith;
                same = λ x. ground arith;
                gone = λ x m. ground (arith, has-below x (d.addr + d.mlength + 1) hi bs c.3);
                sum = omega arith;
              })
      ])
  cut_top-Taken lo b (d ∷ bs) c (inr f) =
      let r = LastFit-bounds (d.addr + d.mlength + 1) b bs c.3 f in
      let off : (d.addr == b.addr) ≡ false = ground (arith, r.0) in
      let t = cut_top-Taken (d.addr + d.mlength + 1) b bs c.3 f in
      rw off (record {
        chain = (c.0, c.1, c.2, t.chain);
        above = omega (arith, t.above);
        below = t.below;
        same = λ x. ground (arith, t.same x);
        gone = λ x m. ground (arith, t.gone x, t.above);
        sum = omega (arith, t.sum);
      })

-- The outcome of `getstk`: a refusal that changes nothing, or the `n` bytes that end with the
-- returned word, taken off the high end of the last block that fits.
abbrev pub StackResult : (lo hi k n : ℕ) → FreeList → ℕ × FreeList → Type 0
StackResult lo hi k n l r =
    ((r.0 ≡ sys_err) × (r.1 ≡ l) × AllBelow n l.blocks)
    ⊎ ((b : Block) × LastFit n b l.blocks
        × (r.0 + 4 ≡ b.addr + b.mlength)
        × Taken lo hi n (r.0 + 4 - n) l.blocks r.1.blocks
        × IsValid lo hi k r.1)

-- On a valid heap, `getstk` of a size below the wrap refuses and changes nothing where every block
-- is too small, or gives the top of the last block that fits and leaves the heap valid.
pub getstk_lem :
    (lo hi k nbytes : ℕ) (l : FreeList)
    → IsValid lo hi k l
    → 0 < nbytes
    → nbytes + 7 < u32_mod
    → StackResult lo hi k (roundmb nbytes) l (getstk l nbytes)
unfolding getstk
getstk_lem lo hi k nbytes l v pos fits =
    let w = roundmb_bounds nbytes fits in
    let nz : (nbytes == 0) ≡ false = ground arith in
    elim (scan_fits_lem (roundmb nbytes) none l.blocks) [
      | inl (miss, small) ↦ rw (nz, miss) (inl (refl, refl, small))
      | inr (b, found, last) ↦
          let d = done w b last in rw (nz, found) (inr (b, last, d.0, d.1, d.2))
    ]
  where
    n : ℕ
    n = roundmb nbytes

    done :
        (nbytes ≤ n) × (n < nbytes + 8) × (n % 8 ≡ 0)
        → (b : Block) → LastFit n b l.blocks
        → let fit = if n == b.mlength then b.addr else add32 b.addr (sub32 b.mlength n) in
          let l' : FreeList = record {
            mlength = sub32 l.mlength n;
            blocks = cut_top b.addr n l.blocks;
          } in
          (sub32 (add32 fit n) 4 + 4 ≡ b.addr + b.mlength)
          × Taken lo hi n (sub32 (add32 fit n) 4 + 4 - n) l.blocks l'.blocks
          × IsValid lo hi k l'
    done w b last =
        let r = LastFit-bounds hi n v.high (omega arith) lo b l.blocks v.chain last in
        let t = cut_top-Taken hi n v.high (omega arith) lo b l.blocks v.chain last in
        let at : (if n == b.mlength then b.addr else add32 b.addr (sub32 b.mlength n))
            ≡ b.addr + (b.mlength - n) =
          ground (arith, v.high, r.0, r.1, r.2) in
        let top : sub32 (add32 (b.addr + (b.mlength - n)) n) 4 + 4 ≡ b.addr + b.mlength =
          omega (arith, v.high, r.1, r.2) in
        let start : sub32 (add32 (b.addr + (b.mlength - n)) n) 4 + 4 - n
            ≡ b.addr + (b.mlength - n) =
          omega (arith, top, r.1) in
        rw at (
          top,
          rw start t,
          record {
            chain = t.chain;
            counts = omega (arith, v.counts, t.sum, t.below, v.high);
            low = v.low;
            high = v.high;
            word = omega arith;
          },
        )
