-- ===== src/Message/Laws.antt =====
-- What a message goes through between `send` and the receiver.
use os_virtual_mem.Prelude.{ℕ, ◌≡◌, refl, Bool, true, false, arith, ◌==◌}
use os_virtual_mem.Sys.{PrState, Sys, done, isbadpid, set_proc}
use os_virtual_mem.Message.{send, wake_receiver, receive_end}

-- not waiting for a message
abbrev pub is_busy : PrState → Bool
is_busy PrState.recv = false
is_busy PrState.rectim = false
is_busy _ = true

wake_lem :
    (st : PrState) (pid : ℕ) (s : Sys) → is_busy st ≡ true → wake_receiver st pid s ≡ done tt s
unfolding wake_receiver
wake_lem PrState.free pid s h = refl
wake_lem PrState.curr pid s h = refl
wake_lem PrState.ready pid s h = refl
wake_lem PrState.recv pid s h = cc
wake_lem PrState.sleep pid s h = refl
wake_lem PrState.susp pid s h = refl
wake_lem PrState.wait pid s h = refl
wake_lem PrState.rectim pid s h = cc

-- `send` to a live process that holds no message and does not wait for one leaves the message in its
-- slot: a second `send` is then refused and changes nothing, and the end of `receive` gets the message
-- and empties the slot. Other processes' entries are as before.
pub send-receive_end :
    (s : Sys) (pid msg msg' : ℕ)
    → isbadpid s pid ≡ false
    → (s.proctab pid).prhasmsg ≡ false
    → is_busy (s.proctab pid).prstate ≡ true
    → (s1 : Sys) × (s2 : Sys) × (send pid msg s ≡ done true s1)
      × (send pid msg' s1 ≡ done false s1)
      × (receive_end pid s1 ≡ done msg s2)
      × ((s2.proctab pid).prhasmsg ≡ false)
      × ((q : ℕ) → (q == pid) ≡ false → s2.proctab q ≡ s.proctab q)
unfolding send receive_end
send-receive_end s pid msg msg' good empty busy =
    let s1 = set_proc pid (record (s.proctab pid) { prmsg = msg; prhasmsg = true }) s in
    let self : (pid == pid) ≡ true = ground arith in
    let p1 = s1.proctab pid in
    (
      s1,
      set_proc pid (record p1 { prhasmsg = false }) s1,
      rw (good, empty, wake_lem (s.proctab pid).prstate pid s1 busy),
      rw (self, good) (ground arith),
      rw self refl,
      rw self refl,
      λ q ne. rw ne,
    )
