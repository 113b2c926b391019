-- ===== src/Vm.antt =====
-- The state of the virtual memory: xinu/include/paging.h, the globals of xinu/system/paging.c, and
-- the frame allocators of that file. Frames are 4 KiB pages, named by their number.
pub mod Copy
use os_virtual_mem.Prelude.{
  ℕ, zero, suc, ◌+◌, ◌*◌, ◌/◌, ◌%◌, ◌^◌, Bool, true, false, ◌&&◌, Option, none, some, ltb, leb,
  ◌==◌, if◌then◌else◌, not, ◌≡◌, arith, Bool-cases, inl, inr,
}
use mathlib.Core.Path.{fun_ext}
use os_virtual_mem.Memory.{u32_mod, sys_err, page_size, sub32, ceil_div, n_page_entries}
use os_virtual_mem.FreeList.{FreeList, Freed, freed, sys_error, wild, getfreemem, free_mem}

-- `pt_t`. A directory entry, `pd_t`, is the same 32-bit word: `pd_mbz` is the bit of `dirty`,
-- `pd_fmb` that of `mbz`, and `pd_avail` the three bits before `base`.
pub record Entry : Type 0 where
  pub pres : Bool
  pub writable : Bool
  pub user : Bool
  pub pwt : Bool
  pub pcd : Bool
  pub acc : Bool
  pub dirty : Bool
  pub mbz : Bool
  pub global : Bool
  pub isvmalloc : Bool
  pub isswapped : Bool
  pub already_swapped : Bool
  pub base : ℕ

-- the entry that a zero word holds
abbrev pub zero_entry : Entry
zero_entry = record {
  pres = false;
  writable = false;
  user = false;
  pwt = false;
  pcd = false;
  acc = false;
  dirty = false;
  mbz = false;
  global = false;
  isvmalloc = false;
  isswapped = false;
  already_swapped = false;
  base = 0;
}

-- `pt_t *` and `pd_t *`: the frame of the table, and the index of the entry in it.
pub record PtRef : Type 0 where
  pub frame : ℕ
  pub index : ℕ

abbrev pub pt_ref : ℕ → ℕ → PtRef
pt_ref f i = record { frame = f; index = i }

abbrev pub same_ref : PtRef → PtRef → Bool
same_ref r q = r.frame == q.frame && r.index == q.index

-- The fields of `struct procent` that paging reads: `pdbr` is the word that `write_pdbr` loads into
-- CR3, `hsize` and `vfree` count heap pages, `vmax` is the next virtual page to hand out.
pub record Proc : Type 0 where
  pub pdbr : ℕ
  pub hsize : ℕ
  pub vfree : ℕ
  pub vmax : ℕ
  pub pruser : Bool

-- `pdbr_base`
abbrev pub pdbr_base : ℕ → ℕ
pdbr_base w = w / 2 ^ 12

-- `virt_addr_t`
abbrev pub pd_offset : ℕ → ℕ
pd_offset v = v / 2 ^ 22

abbrev pub pt_offset : ℕ → ℕ
pt_offset v = v / 2 ^ 12 % 1024

-- `minpdpt` to `maxvstack`
pub record Regions : Type 0 where
  pub minpdpt : ℕ
  pub maxpdpt : ℕ
  pub minffs : ℕ
  pub maxffs : ℕ
  pub minswap : ℕ
  pub maxswap : ℕ
  pub minvstack : ℕ
  pub maxvstack : ℕ

-- Physical memory is read in two ways: a frame that is a directory or a table holds entries, any
-- other frame holds words. A missing value (`none`) is the source's -1 or `NULL`.
pub record Vm : Type 0 where
  pub entries : PtRef → Entry
  pub words : ℕ → ℕ → ℕ
  pub pdptlist : FreeList
  pub ffslist : FreeList
  pub swaplist : FreeList
  pub vstacklist : FreeList
  pub regions : Regions
  pub n_static_pages : Option ℕ
  pub n_free_vpages : ℕ
  pub ptmap : ℕ → Option PtRef
  pub swap2ffsmap : ℕ → Option PtRef
  pub ffs2swapmap : ℕ → Option ℕ
  pub procs : ℕ → Proc
  pub currpid : ℕ

-- What kernel code comes to: a value and the new state, a failed `ASSERT`, which halts the machine,
-- or an access that no check guards, such as one through `NULL`.
pub data Out (A : Type 0) : Type 0 where
  ok : A → Vm → Out A
  halted : Out A
  stray : Out A

abbrev pub M : Type 0 → Type 0
M A = Vm → Out A

abbrev pub and_then : {A B : Type 0} → Out A → (A → M B) → Out B
and_then (ok a s) k = k a s
and_then halted k = halted
and_then stray k = stray

abbrev pub pure : {A : Type 0} → A → M A
pure a s = ok a s

infixl 5 ◌>>=◌ ◌>>◌
abbrev pub ◌>>=◌ : {A B : Type 0} → M A → (A → M B) → M B
◌>>=◌ m k s = and_then (m s) k

abbrev pub ◌>>◌ : {A B : Type 0} → M A → M B → M B
m >> n = m >>= λ _. n

abbrev pub get : M Vm
get s = ok s s

abbrev pub put : Vm → M (Unit {0})
put t s = ok tt t

-- `ASSERT(cond, …)`
abbrev pub assert : Bool → M (Unit {0})
assert true s = ok tt s
assert false s = halted

-- `*p` of a pointer that may be `NULL`
abbrev pub deref : {A : Type 0} → Option A → M A
deref none s = stray
deref (some a) s = ok a s

-- an array with one element replaced
abbrev pub update : {A : Type 0} → (ℕ → A) → ℕ → A → ℕ → A
update f i v j = if j == i then v else f j

abbrev pub entry_at : Vm → PtRef → Entry
entry_at s r = s.entries r

-- a table entry overwritten
unfoldable pub set_entry : (PtRef → Entry) → PtRef → Entry → PtRef → Entry
set_entry f r e q = if same_ref q r then e else f q

abbrev pub with_entry : Vm → PtRef → Entry → Vm
with_entry s r e = record s { entries = set_entry s.entries r e }

pub set_entry_self : (f : PtRef → Entry) (r : PtRef) (e : Entry) → set_entry f r e r ≡ e
unfolding set_entry
set_entry_self f r e = ground arith

pub set_entry_ne :
    (f : PtRef → Entry) (r : PtRef) (e : Entry) (q : PtRef)
    → same_ref q r ≡ false
    → set_entry f r e q ≡ f q
unfolding set_entry
set_entry_ne f r e q h = rw h

-- the second of two writes to one entry counts
pub set_entry_twice :
    (f : PtRef → Entry) (r : PtRef) (e e' : Entry)
    → set_entry (set_entry f r e) r e' ≡ set_entry f r e'
unfolding set_entry
set_entry_twice f r e e' =
    fun_ext λ q. elim (Bool-cases (same_ref q r)) [ inl h ↦ rw h | inr h ↦ rw h ]

-- the 1024 words of a frame set to 0
abbrev pub zero_frame : ℕ → Vm → Vm
zero_frame f s = record s {
  entries = λ r. if r.frame == f && ltb r.index n_page_entries then zero_entry else s.entries r;
  words = λ g i. if g == f && ltb i n_page_entries then 0 else s.words g i;
}

-- `(uint32) SYSERR >> PAGE_OFFSET_BITS`, what the allocators return where no frame is left
abbrev pub no_frame : ℕ
no_frame = sys_err / page_size

unfoldable pub getpdptframe : M ℕ
getpdptframe s =
    let (a, l) = getfreemem s.pdptlist page_size in
    if a == sys_err then halted else ok (a / page_size) (record s { pdptlist = l })

unfoldable pub getffsframe : M ℕ
getffsframe s =
    let (a, l) = getfreemem s.ffslist page_size in ok (a / page_size) (record s { ffslist = l })

unfoldable pub getswapframe : M ℕ
getswapframe s =
    let (a, l) = getfreemem s.swaplist page_size in ok (a / page_size) (record s { swaplist = l })

unfoldable pub getvstackframe : M ℕ
getvstackframe s =
    let (a, l) = getfreemem s.vstacklist page_size in
    if a == sys_err then halted else ok (a / page_size) (record s { vstacklist = l })

-- `frame << PAGE_OFFSET_BITS`
abbrev pub frame_addr : ℕ → ℕ
frame_addr f = f * page_size % u32_mod

-- the status of `_freemem`, and the state with the new list
abbrev pub after_free : Freed FreeList → (FreeList → Vm) → Vm → Out Bool
after_free (freed l) k s = ok true (k l)
after_free sys_error k s = ok false s
after_free wild k s = stray

unfoldable pub freepdptframe : ℕ → M Bool
freepdptframe f s =
    after_free (free_mem s.pdptlist (frame_addr f) page_size s.regions.minpdpt s.regions.maxpdpt)
      (λ l. record s { pdptlist = l }) s

unfoldable pub freeffsframe : ℕ → M Bool
freeffsframe f s =
    after_free (free_mem s.ffslist (frame_addr f) page_size s.regions.minffs s.regions.maxffs)
      (λ l. record s { ffslist = l }) s

unfoldable pub freeswapframe : ℕ → M Bool
freeswapframe f s =
    after_free (free_mem s.swaplist (frame_addr f) page_size s.regions.minswap s.regions.maxswap)
      (λ l. record s { swaplist = l }) s

unfoldable pub freevstackframe : ℕ → M Bool
freevstackframe f s =
    after_free
      (free_mem s.vstacklist (frame_addr f) page_size s.regions.minvstack s.regions.maxvstack)
      (λ l. record s { vstacklist = l }) s

-- the first frame behind the PD/PT region, and behind the FFS region
abbrev pub maxpdptframe : Vm → ℕ
maxpdptframe s = ceil_div s.regions.maxpdpt page_size

abbrev pub maxffsframe : Vm → ℕ
maxffsframe s = ceil_div s.regions.maxffs page_size
