-- ===== src/Channel.antt =====
-- src/channel/: `Sender` and `Receiver` over unbounded, bounded and oneshot channels.
--
-- The two ends of a channel are one state, so that what one does the other sees. A future that stays
-- pending answers `pending`.
pub mod Queue
pub mod Sends
pub mod Delivery
pub mod Fifo
pub mod Stages
pub mod Single
pub mod Making
use atoman_rs.Prelude.{
  ℕ, ◌≡◌, Bool, true, false, not, Option, none, some, List, [], ◌∷◌, if◌then◌else◌,
}
use atoman_rs.Prelude.Result.{Result, success, failure}
use atoman_rs.Errors.{DynError, Error, channel_closed, channel_full}
use atoman_rs.Channel.Queue.{
  Mpsc, Oneshot, SendReply, sent, full, closed, waits, RecvReply, item, empty, disconnected,
}

-- What goes through a channel is a `Result<T>`.
abbrev pub Message : Type 0 → Type 0
Message T = Result DynError T

pub data Poll (A : Type 0) : Type 0 where
  ready : A → Poll A
  pending : Poll A

module _ {T : Type 0} (B : Mpsc (Message T)) (S : Oneshot (Message T)) where
  -- A oneshot channel: whether its sender is still in the mutex, whether another task holds that
  -- mutex, whether the receiver is still in its `Option`, whether a pending future of `recv` has it, and
  -- the channel between them.
  pub record Once : Type 0 where
    pub tx : Bool
    pub locked : Bool
    pub rx : Bool
    pub waiting : Bool
    pub slot : Oneshot.O S

  pub data Channel : Type 0 where
    unbounded : Mpsc.C B → Channel
    bounded : Mpsc.C B → Channel
    oneshot : Once → Channel

  abbrev pub Sent : Type 0
  Sent = Result Error (Unit {0})

  unfoldable pub on_sent : SendReply → Poll Sent
  on_sent sent = ready (success tt)
  on_sent full = ready (failure channel_full)
  on_sent closed = ready (failure channel_closed)
  on_sent waits = pending

  unfoldable pub send_once : Message T → Once → Poll Sent × Once
  send_once m o =
      if o.locked
      then (ready (failure channel_closed), o)
      else if o.tx
      then (let r = Oneshot.send S m o.slot in
          (
            if r.0 then ready (success tt) else ready (failure channel_closed),
            record o { tx = false; slot = r.1 },
          ))
      else (ready (failure channel_closed), o)

  -- An unbounded sender has no `full`.
  unfoldable pub send_raw_sync : Message T → Channel → Poll Sent × Channel
  unfolding on_sent send_once
  send_raw_sync m (unbounded c) = let r = Mpsc.try_send B m c in (on_sent r.0, unbounded r.1)
  send_raw_sync m (bounded c) = let r = Mpsc.try_send B m c in (on_sent r.0, bounded r.1)
  send_raw_sync m (oneshot o) = let r = send_once m o in (r.0, oneshot r.1)

  unfoldable pub send_raw_async : Message T → Channel → Poll Sent × Channel
  unfolding on_sent send_raw_sync
  send_raw_async m (unbounded c) = let r = Mpsc.try_send B m c in (on_sent r.0, unbounded r.1)
  send_raw_async m (bounded c) = let r = Mpsc.send B m c in (on_sent r.0, bounded r.1)
  send_raw_async m (oneshot o) = send_raw_sync m (oneshot o)

  unfoldable pub send : T → Channel → Poll Sent × Channel
  unfolding send_raw_sync
  send v = send_raw_sync (success v)

  unfoldable pub send_async : T → Channel → Poll Sent × Channel
  unfolding send_raw_async
  send_async v = send_raw_async (success v)

  unfoldable pub send_err : DynError → Channel → Poll Sent × Channel
  unfolding send_raw_sync
  send_err e = send_raw_sync (failure e)

  unfoldable pub send_err_async : DynError → Channel → Poll Sent × Channel
  unfolding send_raw_async
  send_err_async e = send_raw_async (failure e)

  abbrev pub Received : Type 0
  Received = Result DynError (Option T)

  unfoldable pub deliver : Message T → Received
  deliver (success v) = success (some v)
  deliver (failure e) = failure e

  -- `recv` and `poll`: an empty channel keeps the future pending.
  unfoldable pub on_recv : RecvReply (Message T) → Poll Received
  unfolding deliver
  on_recv (item m) = ready (deliver m)
  on_recv empty = pending
  on_recv disconnected = ready (success none)

  -- `try_recv`: an empty and a disconnected channel look alike.
  unfoldable pub on_try_recv : RecvReply (Message T) → Received
  unfolding deliver
  on_try_recv (item m) = deliver m
  on_try_recv empty = success none
  on_try_recv disconnected = success none

  -- The receiver is taken out of its `Option` before it is awaited: the future has it from then on, and drops
  -- it when it is ready.
  unfoldable pub await_once : RecvReply (Message T) × Oneshot.O S → Once → Poll Received × Once
  unfolding on_recv
  await_once (empty, slot) o = (pending, record o { rx = false; waiting = true; slot = slot })
  await_once (item m, slot) o =
      (on_recv (item m), record o { rx = false; waiting = false; slot = Oneshot.drop_rx S slot })
  await_once (disconnected, slot) o = (
    on_recv disconnected,
    record o { rx = false; waiting = false; slot = Oneshot.drop_rx S slot },
  )

  -- The first poll of a future of `recv`.
  unfoldable pub recv_begin_once : Once → Poll Received × Once
  unfolding await_once
  recv_begin_once o =
      if o.rx then await_once (Oneshot.recv S o.slot) o else (ready (success none), o)

  -- A later poll of one that was pending.
  unfoldable pub recv_wake_once : Once → Poll Received × Once
  unfolding await_once
  recv_wake_once o = if o.waiting then await_once (Oneshot.recv S o.slot) o else (pending, o)

  -- One that is pending is dropped, with the receiver in it.
  unfoldable pub recv_drop_once : Once → Once
  recv_drop_once o =
      if o.waiting then record o { waiting = false; slot = Oneshot.drop_rx S o.slot } else o

  -- The first poll, after which the future is dropped.
  unfoldable pub drop_polled : Poll Received × Once → Poll Received × Once
  unfolding recv_drop_once
  drop_polled (pending, o) = (pending, recv_drop_once o)
  drop_polled (ready v, o) = (ready v, o)

  unfoldable pub recv_once : Once → Poll Received × Once
  unfolding recv_begin_once drop_polled
  recv_once o = drop_polled (recv_begin_once o)

  -- A future of `recv` that is kept: its first poll, a later one, and its drop while it is pending. At a
  -- queue a pending future has nothing.
  unfoldable pub recv_begin : Channel → Poll Received × Channel
  unfolding on_recv recv_begin_once
  recv_begin (unbounded c) = let r = Mpsc.recv B c in (on_recv r.0, unbounded r.1)
  recv_begin (bounded c) = let r = Mpsc.recv B c in (on_recv r.0, bounded r.1)
  recv_begin (oneshot o) = let r = recv_begin_once o in (r.0, oneshot r.1)

  unfoldable pub recv_wake : Channel → Poll Received × Channel
  unfolding on_recv recv_wake_once
  recv_wake (unbounded c) = let r = Mpsc.recv B c in (on_recv r.0, unbounded r.1)
  recv_wake (bounded c) = let r = Mpsc.recv B c in (on_recv r.0, bounded r.1)
  recv_wake (oneshot o) = let r = recv_wake_once o in (r.0, oneshot r.1)

  unfoldable pub recv_drop : Channel → Channel
  unfolding recv_drop_once
  recv_drop (unbounded c) = unbounded c
  recv_drop (bounded c) = bounded c
  recv_drop (oneshot o) = oneshot (recv_drop_once o)

  -- One poll of the future that `recv` makes, which is then dropped.
  unfoldable pub recv : Channel → Poll Received × Channel
  unfolding on_recv recv_once
  recv (unbounded c) = let r = Mpsc.recv B c in (on_recv r.0, unbounded r.1)
  recv (bounded c) = let r = Mpsc.recv B c in (on_recv r.0, bounded r.1)
  recv (oneshot o) = let r = recv_once o in (r.0, oneshot r.1)

  unfoldable pub try_recv_once : Once → Received × Once
  unfolding on_try_recv
  try_recv_once o =
      let r = Oneshot.recv S o.slot in
      if o.rx
      then elim r.0 [
        | empty ↦ (success none, record o { rx = true; slot = r.1 })
        | other ↦ (on_try_recv other, record o { rx = false; slot = Oneshot.drop_rx S r.1 })
      ]
      else (success none, o)

  unfoldable pub try_recv : Channel → Received × Channel
  unfolding on_try_recv try_recv_once
  try_recv (unbounded c) = let r = Mpsc.recv B c in (on_try_recv r.0, unbounded r.1)
  try_recv (bounded c) = let r = Mpsc.recv B c in (on_try_recv r.0, bounded r.1)
  try_recv (oneshot o) = let r = try_recv_once o in (r.0, oneshot r.1)

  unfoldable pub poll_once : Once → Poll Received × Once
  unfolding on_recv
  poll_once o =
      let r = Oneshot.recv S o.slot in
      if o.rx
      then elim r.0 [
        | empty ↦ (pending, record o { slot = r.1 })
        | other ↦ (on_recv other, record o { rx = false; slot = Oneshot.drop_rx S r.1 })
      ]
      else (ready (success none), o)

  -- `Future::poll` of the receiver itself.
  unfoldable pub poll : Channel → Poll Received × Channel
  unfolding on_recv poll_once
  poll (unbounded c) = let r = Mpsc.recv B c in (on_recv r.0, unbounded r.1)
  poll (bounded c) = let r = Mpsc.recv B c in (on_recv r.0, bounded r.1)
  poll (oneshot o) = let r = poll_once o in (r.0, oneshot r.1)

  unfoldable pub is_closed_sender : Channel → Bool
  is_closed_sender (unbounded c) = Mpsc.is_closed_tx B c
  is_closed_sender (bounded c) = Mpsc.is_closed_tx B c
  is_closed_sender (oneshot o) =
      if o.locked then true else if o.tx then Oneshot.is_closed_tx S o.slot else true

  unfoldable pub is_closed_receiver : Channel → Bool
  is_closed_receiver (unbounded c) = Mpsc.is_closed_rx B c
  is_closed_receiver (bounded c) = Mpsc.is_closed_rx B c
  is_closed_receiver (oneshot o) = not o.rx
