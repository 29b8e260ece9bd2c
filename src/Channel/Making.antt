-- ===== src/Channel/Making.antt =====
-- How channels are made (src/channel/mod.rs), and the wait of a `Sender` for the receiver's end
-- (src/channel/sender.rs).
use atoman_rs.Prelude.{
  ℕ, ◌≡◌, ◌≤◌, ◌<◌, ◌∙◌, refl, ap, subst, arith, Bool, true, false, Option, none, some, List, [],
  ◌++◌, length, if◌then◌else◌,
}
use atoman_rs.Prelude.Result.{success, failure}
use atoman_rs.Errors.{channel_closed}
use atoman_rs.Channel.Queue.{Mpsc, Oneshot, Queue, unsent, recv_spec}
use atoman_rs.Channel.{
  Message, Poll, ready, pending, Once, Channel, unbounded, bounded, oneshot, on_sent, send_once,
  send_raw_sync, on_recv, recv,
}
use atoman_rs.Channel.Stages.{recv_once-unsent}
use atoman_rs.Channel.Delivery.{
  Fits, queued, all_sent, delivered, send_all, recv_times, recv_one, sent_comes_out,
}

module _ {T : Type 0} (B : Mpsc (Message T)) (S : Oneshot (Message T)) where
  abbrev pub fresh : Option ℕ → Queue (Message T)
  fresh capacity = record { items = []; capacity = capacity; open_rx = true; open_tx = true }

  -- The constructors of tokio. `mpsc::channel` panics (`none`) at 0 and above the number of permits that a
  -- semaphore may have.
  pub record Makers : Type 0 where
    pub max_permits : ℕ
    pub make_unbounded : Mpsc.C B
    pub make_bounded : ℕ → Option (Mpsc.C B)
    pub make_oneshot : Oneshot.O S
    pub unbounded_lem : Mpsc.view B make_unbounded ≡ fresh none
    pub bounded_lem :
        (n : ℕ)
        → 0 < n
        → n ≤ max_permits
        → (c : Mpsc.C B) × (make_bounded n ≡ some c) × (Mpsc.view B c ≡ fresh (some n))
    pub zero_lem : make_bounded 0 ≡ none
    pub oneshot_lem : Oneshot.view S make_oneshot ≡ unsent

  -- Sender::from and Receiver::from of both ends of a oneshot channel.
  abbrev pub once_of : Oneshot.O S → Once B S
  once_of o = record { tx = true; locked = false; rx = true; waiting = false; slot = o }

  -- One poll of the future of `closed`, for a oneshot channel. While the future waits it holds the mutex.
  unfoldable pub closed_once : Once B S → Poll (Unit {0}) × Once B S
  closed_once o =
      if o.locked
      then (pending, o)
      else if o.tx
      then (if Oneshot.is_closed_tx S o.slot
          then (ready tt, o)
          else (pending, record o { locked = true }))
      else (ready tt, o)

  unfoldable pub closed : Channel B S → Poll (Unit {0}) × Channel B S
  unfolding closed_once
  closed (unbounded c) = (if Mpsc.is_closed_tx B c then ready tt else pending, unbounded c)
  closed (bounded c) = (if Mpsc.is_closed_tx B c then ready tt else pending, bounded c)
  closed (oneshot o) = let r = closed_once o in (r.0, oneshot r.1)

  module _ (K : Makers) where
    unfoldable pub unbounded_channel : Channel B S
    unbounded_channel = unbounded (Makers.make_unbounded K)

    unfoldable pub bounded_channel : ℕ → Option (Channel B S)
    bounded_channel capacity = elim (Makers.make_bounded K capacity) [
      | some c ↦ some (bounded c)
      | none ↦ none
    ]

    unfoldable pub oneshot_channel : Channel B S
    oneshot_channel = oneshot (once_of (Makers.make_oneshot K))

    unfoldable pub channel : Option ℕ → Option (Channel B S)
    unfolding bounded_channel unbounded_channel
    channel (some capacity) = bounded_channel capacity
    channel none = some unbounded_channel

    -- The capacity is allowed, and so many messages fit.
    abbrev pub HasRoom : Option ℕ → ℕ → Type 0
    HasRoom none k = Unit
    HasRoom (some n) k = (0 < n) × (n ≤ Makers.max_permits K) × (k ≤ n)

    -- The messages go into the channel and come out of it, and then a receiver waits.
    abbrev pub Carries : List (Message T) → Channel B S → Type 0
    Carries ms chan =
        ((send_all B S ms chan).0 ≡ all_sent B S ms)
        × (later : Channel B S) × (recv_times B S (length ms) (send_all B S ms chan).1
            ≡ (delivered B S ms, later))
        × ((recv B S later).0 ≡ pending)

    -- What is known of a run from a queue.
    abbrev Run : Bool → List (Message T) → Mpsc.C B → Queue (Message T) → Type 0
    Run b ms c q =
        q.open_rx ≡ true
        → Fits B S q (length ms)
        → ((send_all B S ms (queued B S b c)).0 ≡ all_sent B S ms)
          × (c' : Mpsc.C B) × (recv_times B S (length (q.items ++ ms))
                (send_all B S ms (queued B S b c)).1
              ≡ (delivered B S (q.items ++ ms), queued B S b c'))
          × (Mpsc.view B c' ≡ record q { items = [] })

    Carries-queued :
        (b : Bool) (capacity : Option ℕ) (ms : List (Message T)) (c : Mpsc.C B)
        → Mpsc.view B c ≡ fresh capacity
        → Fits B S (fresh capacity) (length ms)
        → Carries ms (queued B S b c)
    unfolding on_recv
    Carries-queued b capacity ms c new fits =
        let (all, c', out, left) = subst (Run b ms c) new (sent_comes_out B S b ms c) refl fits in
        (
          all,
          queued B S b c',
          out,
          (recv_one B S b c').0 ∙ ap (λ q. on_recv B S (recv_spec q).0) left,
        )

    bounded_channel-some :
        (n : ℕ) (c : Mpsc.C B)
        → Makers.make_bounded K n ≡ some c
        → bounded_channel n ≡ some (bounded c)
    unfolding bounded_channel
    bounded_channel-some n c made = rw (bounded_channel, made) refl

    -- A channel of an allowed capacity, or without one, is made without a panic; messages that fit in it are
    -- all sent and come out in order, once each, and then a receiver waits.
    pub channel-Carries :
        (capacity : Option ℕ) (ms : List (Message T))
        → HasRoom capacity (length ms)
        → (chan : Channel B S) × (channel capacity ≡ some chan) × Carries ms chan
    unfolding channel unbounded_channel bounded_channel
    channel-Carries none ms room = (
      unbounded (Makers.make_unbounded K),
      refl,
      Carries-queued false none ms (Makers.make_unbounded K) (Makers.unbounded_lem K) tt,
    )
    channel-Carries (some n) ms (positive, allowed, fits) =
        let (c, made, new) = Makers.bounded_lem K n positive allowed in
        (
          bounded c,
          bounded_channel-some n c made,
          Carries-queued true (some n) ms c new (omega (arith, fits)),
        )

    -- On a new oneshot channel whose receiver is there, a message can be sent; but not once a clone of the sender
    -- waits in `closed`: the send answers that the channel is closed, and the receiver waits on.
    pub closed_blocks_send :
        (m : Message T)
        → Oneshot.is_closed_tx S (Makers.make_oneshot K) ≡ false
        → let waiting = closed oneshot_channel in
          ((send_raw_sync B S m oneshot_channel).0 ≡ ready (success tt))
          × (waiting.0 ≡ pending)
          × ((send_raw_sync B S m waiting.1).0 ≡ ready (failure channel_closed))
          × ((recv B S waiting.1).0 ≡ pending)
    unfolding closed oneshot_channel send_raw_sync send_once closed_once recv on_sent
    closed_blocks_send m here =
        let slot = Makers.make_oneshot K in
        (
          rw (Oneshot.send_reply S m slot, Makers.oneshot_lem K) refl,
          rw here refl,
          rw here refl,
          rw here (
              ap (λ r. r.0)
                (recv_once-unsent B S (record (once_of slot) { locked = true }) refl
                  (Makers.oneshot_lem K))),
        )
