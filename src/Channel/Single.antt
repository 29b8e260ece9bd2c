-- ===== src/Channel/Single.antt =====
-- Calls of the two ends of a oneshot channel in any order (src/channel/sender.rs,
-- src/channel/receiver.rs).
use atoman_rs.Prelude.{◌≡◌, refl, ap, ◌∙◌, true, false, List, [], ◌∷◌, ◌++◌}
use mathlib.Core.List.{append-nil, append_assoc}
use atoman_rs.Prelude.Result.{success, failure}
use atoman_rs.Errors.{channel_closed}
use atoman_rs.Channel.Queue.{Mpsc, Oneshot, unsent}
use atoman_rs.Channel.{
  Message, ready, pending, Channel, Once, oneshot, Received, on_recv, send_once, send_raw_sync,
  send_raw_async, send, send_async, send_err, send_err_async, recv, try_recv, poll, recv_once,
  poll_once, recv_begin, recv_wake, recv_drop,
}
use atoman_rs.Channel.Fifo.{
  Act, sends, sends_async, sends_err, sends_err_async, receives, tries, polls, accepted, got,
  Traffic, act,
}
use atoman_rs.Channel.Stages.{
  Carried, Stage, fresh, Stage-Carried, Stage-send_once, Stage-recv_begin_once,
  Stage-recv_wake_once, Stage-recv_drop_once, Stage-recv_once, Stage-poll_once, Stage-try_recv_once,
  recv_once-unsent,
}

-- A call at either end, where a future of `recv` is dropped after one poll; or one that is kept begins, is polled
-- again, or is dropped.
pub data Event (T : Type 0) : Type 0 where
  calls : Act T → Event T
  begins wakes gives_up : Event T

module _ {T : Type 0} (B : Mpsc (Message T)) (S : Oneshot (Message T)) where
  unfoldable pub event : Event T → Channel B S → Traffic B S × Channel B S
  event (calls a) ch = act B S a ch
  event begins ch = let r = recv_begin B S ch in (record { ins = []; outs = got B S r.0 }, r.1)
  event wakes ch = let r = recv_wake B S ch in (record { ins = []; outs = got B S r.0 }, r.1)
  event gives_up ch = (record { ins = []; outs = [] }, recv_drop B S ch)

  unfoldable pub events : List (Event T) → Channel B S → Traffic B S × Channel B S
  unfolding event
  events [] ch = (record { ins = []; outs = [] }, ch)
  events (e ∷ es) ch =
      let r = event e ch in
      let rs = events es r.1 in
      (record { ins = r.0.ins ++ rs.0.ins; outs = r.0.outs ++ rs.0.outs }, rs.1)

  -- A call at either end.
  abbrev Next : List (Message T) → List (Received B S) → Traffic B S × Channel B S → Type 0
  Next ins outs r =
      (o' : Once B S) × (r.1 ≡ oneshot o') × Stage B S o' (ins ++ r.0.ins) (outs ++ r.0.outs)

  sends-Stage :
      (m : Message T) (o : Once B S) {ins : List (Message T)} {outs : List (Received B S)}
      → Stage B S o ins outs
      → let r = send_once B S m o in Stage B S r.1 (ins ++ accepted B S m r.0) (outs ++ [])
  sends-Stage m o {outs = outs} st = rw (append-nil outs) (Stage-send_once B S m o st)

  act-Stage :
      (a : Act T) (o : Once B S) {ins : List (Message T)} {outs : List (Received B S)}
      → Stage B S o ins outs
      → Next ins outs (act B S a (oneshot o))
  unfolding act send send_async send_err send_err_async send_raw_sync send_raw_async recv try_recv
      poll
  act-Stage (sends v) o st = (_, refl, sends-Stage (success v) o st)
  act-Stage (sends_async v) o st = (_, refl, sends-Stage (success v) o st)
  act-Stage (sends_err e) o st = (_, refl, sends-Stage (failure e) o st)
  act-Stage (sends_err_async e) o st = (_, refl, sends-Stage (failure e) o st)
  act-Stage receives o {ins} st = (_, refl, rw (append-nil ins) (Stage-recv_once B S o st))
  act-Stage tries o {ins} st = (_, refl, rw (append-nil ins) (Stage-try_recv_once B S o st))
  act-Stage polls o {ins} st = (_, refl, rw (append-nil ins) (Stage-poll_once B S o st))

  event-Stage :
      (e : Event T) (o : Once B S) {ins : List (Message T)} {outs : List (Received B S)}
      → Stage B S o ins outs
      → Next ins outs (event e (oneshot o))
  unfolding event recv_begin recv_wake recv_drop
  event-Stage (calls a) o st = act-Stage a o st
  event-Stage begins o {ins} st = (_, refl, rw (append-nil ins) (Stage-recv_begin_once B S o st))
  event-Stage wakes o {ins} st = (_, refl, rw (append-nil ins) (Stage-recv_wake_once B S o st))
  event-Stage gives_up o {ins} {outs} st =
      (_, refl, rw (append-nil ins, append-nil outs) (Stage-recv_drop_once B S o st))

  events-Stage :
      (es : List (Event T)) (o : Once B S) {ins : List (Message T)} {outs : List (Received B S)}
      → Stage B S o ins outs
      → Next ins outs (events es (oneshot o))
  unfolding events
  events-Stage [] o {ins} {outs} st = (o, refl, rw (append-nil ins, append-nil outs) st)
  events-Stage (e ∷ es) o {ins} {outs} st =
      let t = (event e (oneshot o)).0 in
      let (o₁, there, one) = event-Stage e o st in
      let (o₂, end, two) = events-Stage es o₁ one in
      let more = (events es (oneshot o₁)).0 in
      rw there
        (o₂, end, rw (← append_assoc ins t.ins more.ins, ← append_assoc outs t.outs more.outs) two)

  -- Whatever calls come at the two ends of a new oneshot channel, in whatever order, with futures of `recv`
  -- that wait while other calls come or are dropped, while no other task takes or frees its mutex: either no
  -- send is answered with Ok and nothing is received, or one send is, and what is received is nothing or its
  -- message once.
  pub one_message :
      (es : List (Event T)) (o : Once B S)
      → o.tx ≡ true
      → o.rx ≡ true
      → o.waiting ≡ false
      → Oneshot.view S o.slot ≡ unsent
      → let r = events es (oneshot o) in Carried B S r.0.ins r.0.outs
  one_message es o tx rx w v = Stage-Carried B S (events-Stage es o (fresh tx rx w v)).2

  -- On a new oneshot channel whose mutex is free, a future of `recv` that is polled once before
  -- anything is sent and is then dropped takes the receiver with it: a later send fails with
  -- `ChannelClosed`. After a poll of the receiver itself in its place the send is answered with Ok.
  pub recv_loses_receiver :
      (m : Message T) (o : Once B S)
      → o.tx ≡ true
      → o.rx ≡ true
      → o.locked ≡ false
      → Oneshot.view S o.slot ≡ unsent
      → ((recv_once B S o).0 ≡ pending)
        × ((send_once B S m (recv_once B S o).1).0 ≡ ready (failure channel_closed))
        × ((poll_once B S o).0 ≡ pending)
        × ((send_once B S m (poll_once B S o).1).0 ≡ ready (success tt))
  unfolding send_once poll_once on_recv
  recv_loses_receiver m o tx rx free v =
      let dropped = Oneshot.drop_rx S (Oneshot.recv S o.slot).1 in
      let polled = (Oneshot.recv S o.slot).1 in
      let still : Oneshot.view S polled ≡ unsent = Oneshot.recv_view S o.slot ∙ rw v refl in
      let waits : poll_once B S o ≡ (pending, record o { slot = polled }) =
        rw (rx, Oneshot.recv_reply S o.slot, v)
          (ap (λ b. (pending, record o { rx = b; slot = polled })) rx) in
      let gone = recv_once-unsent B S o rx v in
      (
        ap (λ r. r.0) gone,
        ap (λ r. (send_once B S m r.1).0) gone
            ∙ rw (tx, free, Oneshot.send_reply S m dropped, Oneshot.drop_rx_view S polled) refl,
        rw (rx, Oneshot.recv_reply S o.slot, v) refl,
        ap (λ r. (send_once B S m r.1).0) waits
            ∙ rw (tx, free, Oneshot.send_reply S m polled, still) refl,
      )
