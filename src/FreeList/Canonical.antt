-- ===== src/FreeList/Canonical.antt =====
-- A chain is determined by its free bytes, since neighbours are always coalesced.
use os_virtual_mem.Prelude.{
  ℕ, ◌+◌, ◌≤◌, ◌<◌, ◌≡◌, refl, true, false, List, [], ◌∷◌, arith, ltb, Bool-cases, inl, inr,
}
use mathlib.Core.Path.{ap₂, sym, ◌∙◌}
use native.Mathlib.Nat.{le_refl}
use os_virtual_mem.FreeList.{Block}
use os_virtual_mem.FreeList.Chain.{Chain, has, has-below}

module _ (hi : ℕ) where
  has-first :
      (lo : ℕ) (b : Block) (bs : List Block) → Chain lo hi (b ∷ bs) → has b.addr (b ∷ bs) ≡ true
  has-first lo b bs c = ground arith

  not_has-end :
      (lo : ℕ) (b : Block) (bs : List Block)
      → Chain lo hi (b ∷ bs)
      → has (b.addr + b.mlength) (b ∷ bs) ≡ false
  not_has-end lo b bs c =
      ground (arith, has-below (b.addr + b.mlength) (b.addr + b.mlength + 1) hi bs c.3)

  addr-le :
      (lo : ℕ) (b b' : Block) (bs bs' : List Block)
      → Chain lo hi (b ∷ bs)
      → Chain lo hi (b' ∷ bs')
      → ((x : ℕ) → has x (b ∷ bs) ≡ has x (b' ∷ bs'))
      → b'.addr ≤ b.addr
  addr-le lo b b' bs bs' c c' e = elim (Bool-cases (ltb b.addr b'.addr)) [
    | inl less ↦
        let l : b.addr < b'.addr = ground arith in
        let out = has-below b.addr b'.addr hi (b' ∷ bs') (le_refl b'.addr, c'.1, c'.2, c'.3) l in
        cc (e b.addr, has-first lo b bs c, out)
    | inr more ↦ ground arith
  ]

  end-le :
      (lo : ℕ) (b b' : Block) (bs bs' : List Block)
      → Chain lo hi (b ∷ bs)
      → b'.addr ≡ b.addr
      → ((x : ℕ) → has x (b ∷ bs) ≡ has x (b' ∷ bs'))
      → b'.mlength ≤ b.mlength
  end-le lo b b' bs bs' c at e =
      let out = not_has-end lo b bs c in ground (arith, e (b.addr + b.mlength))

  -- Two chains with the same free bytes are the same chain.
  pub Chain-unique :
      (lo : ℕ) (bs bs' : List Block)
      → Chain lo hi bs
      → Chain lo hi bs'
      → ((x : ℕ) → has x bs ≡ has x bs')
      → bs ≡ bs'
  Chain-unique lo [] [] c c' e = refl
  Chain-unique lo [] (b' ∷ bs') c c' e = cc (e b'.addr, has-first lo b' bs' c')
  Chain-unique lo (b ∷ bs) [] c c' e = cc (e b.addr, has-first lo b bs c)
  Chain-unique lo (b ∷ bs) (b' ∷ bs') c c' e =
      let le = addr-le lo b b' bs bs' c c' e in
      let ge = addr-le lo b' b bs' bs c' c (λ x. sym (e x)) in
      let at : b'.addr ≡ b.addr = omega arith in
      let len_le = end-le lo b b' bs bs' c at e in
      let len_ge = end-le lo b' b bs' bs c' (sym at) (λ x. sym (e x)) in
      let len : b'.mlength ≡ b.mlength = omega arith in
      ap₂ ◌∷◌ (ground arith) (
        Chain-unique (b.addr + b.mlength + 1) bs bs' c.3 (rw (at, len) at c'.3) (λ x.
          elim (Bool-cases (ltb x (b.addr + b.mlength + 1))) [
            | inl low ↦
                let l : x < b.addr + b.mlength + 1 = ground arith in
                let l' : x < b'.addr + b'.mlength + 1 = omega arith in
                has-below x (b.addr + b.mlength + 1) hi bs c.3 l
                ∙ sym (has-below x (b'.addr + b'.mlength + 1) hi bs' c'.3 l')
            | inr high ↦ ground (arith, e x)
          ]))
