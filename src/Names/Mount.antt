-- ===== src/Names/Mount.antt =====
-- `mount` adds a mapping to the namespace.
use os_virtual_mem.Prelude.{
  ℕ, suc, ◌+◌, ◌<◌, ◌≤◌, ◌≡◌, refl, ap, List, [], ◌∷◌, ◌++◌, arith, ◌==◌, Bool-cases, inl, inr,
  true, false, if◌then◌else◌, ◌⊎◌, leb, ltb, length, ltb→lt,
}
use os_virtual_mem.Names.{
  Chars, NmEntry, Namespace, max_prefix, max_replace, n_names, n_devs, copy_chars, mount,
}
use os_virtual_mem.Names.Text.{Holds, copy_chars-inside, Holds-moved}
use os_virtual_mem.Names.Map.{Mapping, IsEntry, IsTable, namlen-Holds, namlen-none}

-- a text and its end, copied to the start of a buffer
Holds-copied :
    (src dst : Chars) (cs : List ℕ)
    → Holds src 0 cs
    → Holds (copy_chars (length cs + 1) 0 0 src dst) 0 cs
Holds-copied src dst cs h =
    Holds-moved src (copy_chars (length cs + 1) 0 0 src dst) 0 0 cs h
      (λ t lt. copy_chars-inside (length cs + 1) 0 0 src dst t lt)

IsTable-same :
    (tab tab' : ℕ → NmEntry) (i n : ℕ) (ms : List Mapping)
    → i + length ms ≤ n
    → ((j : ℕ) → j < n → tab' j ≡ tab j)
    → IsTable tab i ms
    → IsTable tab' i ms
IsTable-same tab tab' i n [] le same t = tt
IsTable-same tab tab' i n (m ∷ ms) le same t =
    (rw (same i (omega arith)) t.0, IsTable-same tab tab' (i + 1) n ms (omega arith) same t.1)

IsTable-append :
    (tab : ℕ → NmEntry) (i : ℕ) (ms : List Mapping) (m : Mapping)
    → IsTable tab i ms
    → IsEntry (tab (i + length ms)) m
    → IsTable tab i (ms ++ m ∷ [])
IsTable-append tab i [] m t e = let z : i + 0 ≡ i = omega arith in (rw z at e, tt)
IsTable-append tab i (k ∷ ks) m t e =
    let f : i + suc (length ks) ≡ i + 1 + length ks = omega arith in
    (t.0, IsTable-append tab (i + 1) ks m t.1 (rw f at e))

-- `mount`: a prefix or a replacement that is too long, a bad device and a full table give `SYSERR`
-- and change nothing; otherwise none of these holds, and the mapping is the last of the table, and
-- the others are as they were.
pub mount_lem :
    (ns : Namespace) (ms : List Mapping) (m : Mapping) (prefix replace : Chars)
    → IsTable ns.nametab 0 ms
    → ns.nnames ≡ length ms
    → Holds prefix 0 m.prefix
    → Holds replace 0 m.replace
    → ((max_prefix ≤ length m.prefix
          ⊎ (max_replace ≤ length m.replace ⊎ (n_devs ≤ m.device ⊎ (n_names ≤ length ms))))
        × (mount prefix replace m.device ns ≡ (false, ns)))
      ⊎ ((length m.prefix < max_prefix)
          × (length m.replace < max_replace)
          × (m.device < n_devs)
          × (length ms < n_names)
          × (ns' : Namespace) × (mount prefix replace m.device ns ≡ (true, ns'))
          × IsTable ns'.nametab 0 (ms ++ m ∷ [])
          × (ns'.nnames ≡ length ms + 1))
unfolding mount
mount_lem ns ms m prefix replace tab count hp hr =
    elim (Bool-cases (ltb (length m.prefix) max_prefix)) [
      | inr long ↦
          let none_p = namlen-none prefix max_prefix m.prefix hp (ground arith) in
          inl (inl (ground arith), rw (mount, none_p) refl)
      | inl pre ↦
          let some_p = namlen-Holds prefix max_prefix m.prefix hp (ground arith) in
          elim (Bool-cases (ltb (length m.replace) max_replace)) [
            | inr long ↦
                let none_r = namlen-none replace max_replace m.replace hr (ground arith) in
                inl (inr (inl (ground arith)), rw (mount, some_p, none_r) refl)
            | inl rep ↦
                let some_r = namlen-Holds replace max_replace m.replace hr (ground arith) in
                elim (Bool-cases (leb n_devs m.device)) [
                  | inl bad ↦
                      inl (inr (inr (inl (ground arith))), rw (mount, some_p, some_r, bad) refl)
                  | inr dev ↦ elim (Bool-cases (leb n_names ns.nnames)) [
                    | inl full ↦ inl (
                      inr (inr (inr (ground (arith, count)))),
                      rw (mount, some_p, some_r, dev, full) refl,
                    )
                    | inr room ↦
                        let slot = ns.nametab ns.nnames in
                        let entry : NmEntry = record {
                          nprefix = copy_chars (length m.prefix + 1) 0 0 prefix slot.nprefix;
                          nreplace = copy_chars (length m.replace + 1) 0 0 replace slot.nreplace;
                          ndevice = m.device;
                        } in
                        let tab' : ℕ → NmEntry =
                          λ i. if i == ns.nnames then entry else ns.nametab i in
                        let last : (0 + length ms == ns.nnames) ≡ true = ground (arith, count) in
                        let good : IsEntry entry m = record {
                          prefix = Holds-copied prefix slot.nprefix m.prefix hp;
                          prefix_fits = ltb→lt (length m.prefix) max_prefix pre;
                          replace = Holds-copied replace slot.nreplace m.replace hr;
                          replace_fits = ltb→lt (length m.replace) max_replace rep;
                          device = refl;
                        } in
                        inr (
                          ground arith,
                          ground arith,
                          ground arith,
                          ground (arith, count),
                          record { nametab = tab'; nnames = ns.nnames + 1 },
                          rw (mount, some_p, some_r, dev, room) refl,
                          IsTable-append tab' 0 ms m
                              (IsTable-same ns.nametab tab' 0 (length ms) ms (omega arith)
                                (λ j lt.
                                  let ne : (j == ns.nnames) ≡ false = ground (arith, count) in
                                  rw ne refl)
                                tab)
                              (rw last good),
                          ap (λ (n : ℕ). n + 1) count,
                        )
                  ]
                ]
          ]
    ]
