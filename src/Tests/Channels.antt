-- ===== src/Tests/Channels.antt =====
-- Channels at concrete inputs (src/channel/), over a queue and a slot that do what is documented.
use atoman_rs.Prelude.{
  ℕ, ◌≡◌, ◌<◌, ◌≤◌, refl, true, false, Option, none, some, List, [], ◌∷◌, ltb, leb, ◌&&◌, lt→ltb,
  if◌then◌else◌,
}
use native.Mathlib.Omega.{arith}
use atoman_rs.Prelude.Result.{success, failure}
use atoman_rs.Errors.{boxed, channel_closed}
use atoman_rs.Channel.Queue
use atoman_rs.Channel.Queue.{
  Mpsc, Oneshot, Slot, unsent, holds, rx_gone, try_send_spec, send_spec, recv_spec,
  oneshot_send_spec, oneshot_recv_spec,
}
use atoman_rs.Channel.{
  Message, Channel, Once, send, send_once, poll, recv_begin, recv_wake, on_recv, recv_begin_once,
  recv_wake_once, await_once, oneshot, send_raw_sync, recv, pending, ready, recv_once, poll_once,
}
use atoman_rs.Channel.Stages.{Carried}
use atoman_rs.Channel.Single.{
  Event, calls, begins, wakes, event, events, one_message, recv_loses_receiver,
}
use atoman_rs.Channel.Delivery.{queued}
use atoman_rs.Channel.Fifo.{
  Act, sends, sends_async, sends_err, receives, tries, polls, Acted, traffic, act, traffic-Acted,
}
use atoman_rs.Channel.Making.{
  Makers, fresh, channel, oneshot_channel, closed, Carries, channel-Carries, closed_blocks_send,
}
use atoman_rs.Tests.Queues.{queue_of}

abbrev queue : Mpsc (Message ℕ)
queue = queue_of (Message ℕ)

abbrev once : Oneshot (Message ℕ)
once = record {
  O = Slot (Message ℕ);
  view = λ s. s;
  send = oneshot_send_spec;
  recv = oneshot_recv_spec;
  drop_rx = λ s. rx_gone;
  is_closed_tx = λ s. false;
  send_reply = λ m s. refl;
  send_view = λ m s. refl;
  recv_reply = λ s. refl;
  recv_view = λ s. refl;
  drop_rx_view = λ s. refl;
}

abbrev three : Queue.Queue (Message ℕ)
three = record { items = success 1 ∷ []; capacity = some 3; open_rx = true; open_tx = true }

abbrev traffic_calls : List (Act ℕ)
traffic_calls =
    sends 2 ∷ tries ∷ sends_err (boxed "lost") ∷ sends_async 3 ∷ sends 4 ∷ receives ∷ polls ∷ []

traffic-Acted_example :
    Acted queue once true three (traffic queue once traffic_calls (queued queue once true three))
traffic-Acted_example = traffic-Acted queue once traffic_calls true three

abbrev single : Once queue once
single = record { tx = true; locked = false; rx = true; waiting = false; slot = unsent }

-- A future waits while the message is sent, and then has it.
abbrev once_calls : List (Event ℕ)
once_calls = begins ∷ calls polls ∷ calls (sends 2) ∷ wakes ∷ calls (sends 4) ∷ []

awaited_comes : (events queue once once_calls (oneshot single)).0.outs ≡ success (some 2) ∷ []
unfolding events event act recv_begin recv_wake send send_raw_sync send_once poll poll_once on_recv
    recv_begin_once recv_wake_once await_once
awaited_comes = refl

one_message_example :
    let r = events queue once once_calls (oneshot single) in Carried queue once r.0.ins r.0.outs
one_message_example = one_message queue once once_calls single refl refl refl refl

recv_loses_receiver_example :
    ((recv_once queue once single).0 ≡ pending)
    × ((send_once queue once (success 1) (recv_once queue once single).1).0
        ≡ ready (failure channel_closed))
    × ((poll_once queue once single).0 ≡ pending)
    × ((send_once queue once (success 1) (poll_once queue once single).1).0 ≡ ready (success tt))
recv_loses_receiver_example = recv_loses_receiver queue once (success 1) single refl refl refl refl

abbrev permits : ℕ
permits = 2305843009213693951

make_bounded : ℕ → Option (Queue.Queue (Message ℕ))
make_bounded n = if ltb 0 n && leb n permits then some (fresh queue once (some n)) else none

within : (a b : ℕ) → a ≤ b → leb a b ≡ true
within a b h = ground arith

make_bounded-some :
    (n : ℕ)
    → 0 < n
    → n ≤ permits
    → (c : Queue.Queue (Message ℕ)) × (make_bounded n ≡ some c) × (c ≡ fresh queue once (some n))
unfolding make_bounded
make_bounded-some n positive allowed =
    (fresh queue once (some n), rw (lt→ltb 0 n positive, within n permits allowed) refl, refl)

make_bounded-zero : make_bounded 0 ≡ none
unfolding make_bounded
make_bounded-zero = refl

abbrev makers : Makers queue once
makers = record {
  max_permits = permits;
  make_unbounded = fresh queue once none;
  make_bounded = make_bounded;
  make_oneshot = unsent;
  unbounded_lem = refl;
  bounded_lem = make_bounded-some;
  zero_lem = make_bounded-zero;
  oneshot_lem = refl;
}

channel-Carries_example :
    (chan : Channel queue once) × (channel queue once makers (some 2) ≡ some chan)
    × Carries queue once makers (success 2 ∷ failure (boxed "lost") ∷ []) chan
channel-Carries_example =
    channel-Carries queue once makers (some 2) (success 2 ∷ failure (boxed "lost") ∷ [])
      (omega arith, omega arith, omega arith)

closed_blocks_send_example :
    let chan = oneshot_channel queue once makers in
    let waiting = closed queue once chan in
    ((send_raw_sync queue once (success 1) chan).0 ≡ ready (success tt))
    × (waiting.0 ≡ pending)
    × ((send_raw_sync queue once (success 1) waiting.1).0 ≡ ready (failure channel_closed))
    × ((recv queue once waiting.1).0 ≡ pending)
closed_blocks_send_example = closed_blocks_send queue once makers (success 1) refl
