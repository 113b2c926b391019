-- ===== src/Names.antt =====
-- xinu/device/nam/mount.c and nammap.c: the namespace, a table of name prefixes, each with what stands
-- for it and a device. A buffer or a pointer to text is a function from offsets to characters, and 0
-- ends the text. A result `none` is `SYSERR`.
pub mod Text
pub mod Map
pub mod Mount
use os_virtual_mem.Prelude.{
  ℕ, zero, suc, ◌+◌, ◌-◌, ◌*◌, ◌%◌, ◌^◌, Bool, true, false, Option, none, some, ◌==◌, ltb, leb,
  ◌||◌, not, if◌then◌else◌,
}
use os_virtual_mem.Prelude.Int.{ℤ, pos, negsuc, sub_ℕ, ◌+ℤ◌, ◌-ℤ◌, pos_part, ltb_ℤ}

abbrev pub Chars : Type 0
Chars = ℕ → ℕ

-- `NM_PRELEN`, `NM_REPLLEN`, `NM_MAXLEN`, `NNAMES` and `NDEVS`
abbrev pub max_prefix : ℕ
max_prefix = 64

abbrev pub max_replace : ℕ
max_replace = 96

abbrev pub max_name : ℕ
max_name = 256

abbrev pub n_names : ℕ
n_names = 40

abbrev pub n_devs : ℕ
n_devs = 24

-- `struct nmentry`
pub record NmEntry : Type 0 where
  pub nprefix : Chars
  pub nreplace : Chars
  pub ndevice : ℕ

pub record Namespace : Type 0 where
  pub nametab : ℕ → NmEntry
  pub nnames : ℕ

-- The loop of `namlen` from offset `i` on, with `rounds` rounds left.
unfoldable pub scan_name : (rounds i : ℕ) → Chars → Option ℕ
scan_name zero i name = none
scan_name (suc k) i name =
    let rest = scan_name k (i + 1) name in if name i == 0 then some (i + 1) else rest

unfoldable pub namlen : Chars → ℕ → Option ℕ
unfolding scan_name
namlen name maxlen = scan_name maxlen 0 name

-- A loop that copies `n` characters, from offset `i` of `src` to offset `j` of `dst`.
unfoldable pub copy_chars : (n i j : ℕ) → Chars → Chars → Chars
copy_chars zero i j src dst = dst
copy_chars (suc k) i j src dst =
    copy_chars k (i + 1) (j + 1) src (λ x. if x == j then src i else dst x)

unfoldable pub mount : Chars → Chars → (device : ℕ) → Namespace → Bool × Namespace
mount prefix replace device ns =
    let slot = ns.nametab ns.nnames in
    let entry : ℕ → ℕ → NmEntry = λ psiz rsiz. record {
      nprefix = copy_chars psiz 0 0 prefix slot.nprefix;
      nreplace = copy_chars rsiz 0 0 replace slot.nreplace;
      ndevice = device;
    } in
    elim (namlen prefix max_prefix) [
      | none ↦ (false, ns)
      | some psiz ↦ elim (namlen replace max_replace) [
        | none ↦ (false, ns)
        | some rsiz ↦ if leb n_devs device || leb n_names ns.nnames then (false, ns) else (
          true,
          record {
            nametab = λ i. if i == ns.nnames then entry psiz rsiz else ns.nametab i;
            nnames = ns.nnames + 1;
          },
        )
      ]
    ]

-- The loop of `namrepl` over a prefix, from offset `i` on: the length of the prefix, if all of it
-- matches. `rounds` is above the length of every prefix in the table.
unfoldable pub match_prefix : (rounds i : ℕ) → (prefix name : Chars) → Option ℕ
match_prefix zero i prefix name = none
match_prefix (suc k) i prefix name =
    let rest = match_prefix k (i + 1) prefix name in
    if prefix i == 0 then some i else if prefix i == name i then rest else none

-- a length, or -1 for `SYSERR`
abbrev pub as_int : Option ℕ → ℤ
as_int none = negsuc 0
as_int (some n) = pos n

-- the value of an `int32` that is kept in a `char`
abbrev pub as_char : ℤ → ℤ
as_char (pos n) = if ltb (n % 256) 128 then pos (n % 256) else negsuc (255 - n % 256)
as_char (negsuc n) = if ltb (n % 256) 128 then negsuc (n % 256) else pos (255 - n % 256)

-- What `namrepl` does with an entry whose prefix of length `plen` matches.
unfoldable pub replace_prefix : NmEntry → (plen : ℕ) → (name newname : Chars) → Option ℕ × Chars
replace_prefix entry plen name newname =
    let olen = as_char (as_int (namlen name max_name)) in
    let rlen = as_int (namlen entry.nreplace max_name) -ℤ pos 1 in
    let remain = olen -ℤ pos plen in
    if ltb_ℤ (pos max_name) (rlen +ℤ remain) then (none, newname) else (
      some entry.ndevice,
      copy_chars (pos_part remain) plen (pos_part rlen) name
          (copy_chars (pos_part rlen) 0 0 entry.nreplace newname),
    )

-- The loop of `namrepl` over the table, with `rounds` entries left, from entry `i` on.
unfoldable pub repl_from : (rounds i : ℕ) → Namespace → (name newname : Chars) → Option ℕ × Chars
repl_from zero i ns name newname = (none, newname)
repl_from (suc k) i ns name newname =
    let rest = repl_from k (i + 1) ns name newname in
    elim (match_prefix max_prefix 0 (ns.nametab i).nprefix name) [
      | none ↦ rest
      | some plen ↦ replace_prefix (ns.nametab i) plen name newname
    ]

unfoldable pub namrepl : Namespace → (name newname : Chars) → Option ℕ × Chars
namrepl ns name newname = repl_from ns.nnames 0 ns name newname

-- The loop of `namcpy` from offset `i` on: whether the end of the text was met.
unfoldable pub copy_name : (rounds i : ℕ) → (newname oldname : Chars) → Bool × Chars
copy_name zero i newname oldname = (false, newname)
copy_name (suc k) i newname oldname =
    let next : Chars = λ x. if x == i then oldname i else newname x in
    let rest = copy_name k (i + 1) next oldname in if oldname i == 0 then (true, next) else rest

unfoldable pub namcpy : (newname oldname : Chars) → (buflen : ℕ) → Bool × Chars
unfolding copy_name
namcpy newname oldname buflen = copy_name buflen 0 newname oldname

-- The loop of `nammap`, with `rounds` substitutions left.
unfoldable pub map_from :
    (rounds : ℕ) → Namespace → (namdev : ℕ) → (tmpname newname : Chars) → Option ℕ × Chars
map_from zero ns namdev tmpname newname = (none, newname)
map_from (suc k) ns namdev tmpname newname =
    let (newdev, new) = namrepl ns tmpname newname in
    let again = map_from k ns namdev (namcpy tmpname new max_name).1 new in
    elim newdev [ none ↦ (none, new) | some dev ↦ if dev == namdev then again else (some dev, new) ]

-- `nammap`; `tmpname` is what its buffer holds before.
unfoldable pub nammap : Namespace → (name newname tmpname : Chars) → (namdev : ℕ) → Option ℕ × Chars
nammap ns name newname tmpname namdev =
    let copied = namcpy tmpname name max_name in
    if copied.0 then map_from ns.nnames ns namdev copied.1 newname else (none, newname)
