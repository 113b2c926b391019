-- ===== src/Queue.antt =====
-- xinu/include/queue.h, xinu/system/queue.c, getitem.c, insert.c, insertd.c and newqueue.c: the lists
-- of processes, doubly linked by indices through one table.
pub mod Links
pub mod Frame
pub mod Ops
pub mod Insert
pub mod WakeTimes
pub mod Delay
use os_virtual_mem.Prelude.{
  ℕ, zero, suc, ◌+◌, ◌-◌, ◌^◌, ◌*◌, Bool, true, false, Option, none, some, ◌==◌, ltb, leb, ◌&&◌,
  ◌||◌, not, if◌then◌else◌,
}
use os_virtual_mem.Prelude.Int.{ℤ, pos, negsuc, ◌-ℤ◌, ◌+ℤ◌, leb_ℤ}

abbrev pub n_proc : ℕ
n_proc = 100

abbrev pub n_sem : ℕ
n_sem = 100

abbrev pub n_qent : ℕ
n_qent = n_proc + 4 + n_sem + n_sem

abbrev pub max_key : ℤ
max_key = pos (2 ^ 31 - 1)

abbrev pub min_key : ℤ
min_key = negsuc (2 ^ 31 - 1)

-- `queuetab`, field by field, and the static `nextqid` of `newqueue`. An index is a number, or
-- `none` for `EMPTY`. An `int16` or `int32` id is read as unsigned, so a negative one is large.
pub record Queues : Type 0 where
  pub qkey : ℕ → ℤ
  pub qnext : ℕ → Option ℕ
  pub qprev : ℕ → Option ℕ
  pub nextqid : ℕ

abbrev pub update {ℓ} : {A : Type ℓ} → (ℕ → A) → ℕ → A → ℕ → A
update f i v j = if j == i then v else f j

abbrev pub set_next : ℕ → Option ℕ → Queues → Queues
set_next i v t = record t { qnext = update t.qnext i v }

abbrev pub set_prev : ℕ → Option ℕ → Queues → Queues
set_prev i v t = record t { qprev = update t.qprev i v }

abbrev pub set_key : ℕ → ℤ → Queues → Queues
set_key i v t = record t { qkey = update t.qkey i v }

abbrev pub queuehead : ℕ → ℕ
queuehead q = q

abbrev pub queuetail : ℕ → ℕ
queuetail q = q + 1

abbrev pub isbadqid : ℕ → Bool
isbadqid q = ltb q n_proc || leb (n_qent - 1) q

-- `firstid(q) >= NPROC`
abbrev pub isempty : Queues → ℕ → Bool
isempty t q = elim (t.qnext (queuehead q)) [ none ↦ false | some i ↦ leb n_proc i ]

-- In what follows `none` as the whole result is an access through `EMPTY`, or a walk that does not
-- end; a status of `none` is `SYSERR` (or `EMPTY`, where the source returns that).
abbrev pub bind_opt {ℓ κ} : {A : Type ℓ} {B : Type κ} → Option A → (A → Option B) → Option B
bind_opt none k = none
bind_opt (some a) k = k a

-- unlinks an item
unfoldable pub getitem : ℕ → Queues → Option Queues
getitem pid t = bind_opt (t.qnext pid) λ next.
    bind_opt (t.qprev pid) λ prev. some (set_prev next (some prev) (set_next prev (some next) t))

-- `getfirst`: the item and the table; `EMPTY` where the queue is empty.
unfoldable pub getfirst : ℕ → Queues → Option (Option ℕ × Queues)
unfolding getitem
getfirst q t =
    if isempty t q
    then some (none, t)
    else bind_opt (t.qnext (queuehead q)) λ x. bind_opt (getitem x t) λ t'. some (some x, t')

unfoldable pub getlast : ℕ → Queues → Option (Option ℕ × Queues)
unfolding getitem
getlast q t =
    if isempty t q
    then some (none, t)
    else bind_opt (t.qprev (queuetail q)) λ x. bind_opt (getitem x t) λ t'. some (some x, t')

-- Links `pid` in between two neighbours.
abbrev pub link_between : (pid prev next : ℕ) → Queues → Queues
link_between pid prev next t =
    set_prev next (some pid)
      (set_next prev (some pid) (set_prev pid (some prev) (set_next pid (some next) t)))

-- `badpid` is `isbadpid(pid)`, which looks at the process table.
unfoldable pub enqueue : (badpid : Bool) (pid q : ℕ) → Queues → Option (Option ℕ × Queues)
enqueue badpid pid q t =
    if isbadqid q || badpid
    then some (none, t)
    else bind_opt (t.qprev (queuetail q))
        λ prev. some (some pid, link_between pid prev (queuetail q) t)

unfoldable pub dequeue : ℕ → Queues → Option (Option ℕ × Queues)
unfolding getfirst
dequeue q t =
    if isbadqid q
    then some (none, t)
    else if isempty t q
    then some (none, t)
    else bind_opt (getfirst q t) λ r. elim r.0 [
      | none ↦ some r
      | some x ↦ some (some x, set_next x none (set_prev x none r.1))
    ]

-- The walk of `insert`: the first item, from `curr` on, with a key below `key`.
unfoldable pub insert_place : (fuel : ℕ) → ℤ → ℕ → Queues → Option ℕ
insert_place zero key curr t = none
insert_place (suc fuel) key curr t =
    let further = bind_opt (t.qnext curr) λ next. insert_place fuel key next t in
    if leb_ℤ key (t.qkey curr) then further else some curr

-- A walk through the table visits at most every entry.
abbrev pub walk_fuel : ℕ
walk_fuel = n_qent + 1

unfoldable pub insert : (badpid : Bool) (pid q : ℕ) → ℤ → Queues → Option (Bool × Queues)
unfolding insert_place
insert badpid pid q key t =
    if isbadqid q || badpid
    then some (false, t)
    else bind_opt (t.qnext (queuehead q)) λ first.
      bind_opt (insert_place walk_fuel key first t) λ curr.
        bind_opt (t.qprev curr) λ prev. some (true, set_key pid key (link_between pid prev curr t))

-- The walk of `insertd`, from `prev` and `next`: the neighbours, and what is left of the delay.
unfoldable pub insertd_place : (fuel tail : ℕ) → ℤ → ℕ → ℕ → Queues → Option (ℕ × ℕ × ℤ)
insertd_place zero tail key prev next t = none
insertd_place (suc fuel) tail key prev next t =
    let further =
      bind_opt (t.qnext next) λ next'. insertd_place fuel tail (key -ℤ t.qkey next) next next' t in
    if not (next == tail) && leb_ℤ (t.qkey next) key then further else some (prev, next, key)

unfoldable pub insertd : (badpid : Bool) (pid q : ℕ) → ℤ → Queues → Option (Bool × Queues)
unfolding insertd_place
insertd badpid pid q key t =
    if isbadqid q || badpid
    then some (false, t)
    else bind_opt (t.qnext (queuehead q)) λ first.
      bind_opt (insertd_place walk_fuel (queuetail q) key (queuehead q) first t)
        λ (prev, next, rest).
          let t1 = set_key pid rest (link_between pid prev next t) in
          some (true, if next == queuetail q then t1 else set_key next (t1.qkey next -ℤ rest) t1)

-- `newqueue`: the id, or `SYSERR` when the table is used up.
unfoldable pub newqueue : Queues → Option ℕ × Queues
newqueue t =
    let q = t.nextqid in
    if leb n_qent q then (none, t) else (
      some q,
      record (set_key (queuetail q) min_key (
          set_prev (queuetail q) (some (queuehead q)) (
            set_next (queuetail q) none (
              set_key (queuehead q) max_key
                (set_prev (queuehead q) none (set_next (queuehead q) (some (queuetail q)) t)))))) {
                  nextqid = q + 2;
                },
    )
