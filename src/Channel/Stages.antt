-- ===== src/Channel/Stages.antt =====
-- How far a oneshot channel is, and what each call at its ends (src/channel/sender.rs,
-- src/channel/receiver.rs) makes of it.
use atoman_rs.Prelude.{
  ◌≡◌, refl, ap, ◌∙◌, Bool, true, false, none, if◌then◌else◌, List, [], ◌∷◌, ◌++◌, Bool-cases, ◌⊎◌,
  inl, inr,
}
use mathlib.Core.List.{append-nil}
use atoman_rs.Prelude.Result.{success}
use atoman_rs.Channel.Queue.{Mpsc, Oneshot, Slot, unsent, holds, rx_gone, oneshot_recv_spec}
use atoman_rs.Channel.{
  Message, ready, pending, Once, Received, deliver, on_recv, on_try_recv, send_once, recv_once,
  try_recv_once, poll_once, Poll, await_once, recv_begin_once, recv_wake_once, recv_drop_once,
  drop_polled,
}
use atoman_rs.Channel.Fifo.{accepted, got, got-deliver}

if-then :
    {A : Type 0} (P : A → Type 0) (c : Bool) (x y : A) → c ≡ true → P x → P (if c then x else y)
if-then P true x y h p = p
if-then P false x y h p = cc

module _ {T : Type 0} (B : Mpsc (Message T)) (S : Oneshot (Message T)) where
  -- At most one message went in, and nothing else came out.
  abbrev pub Carried : List (Message T) → List (Received B S) → Type 0
  Carried ins outs =
      ((ins ≡ []) × (outs ≡ []))
      ⊎ (m : Message T) × (ins ≡ m ∷ []) × ((outs ≡ []) ⊎ (outs ≡ deliver B S m ∷ []))

  -- How far a oneshot channel is, and what went in and came out until then. `rx` and `waiting` say who has the
  -- receiver: the `Receiver`, a future, or none.
  pub data Stage (o : Once B S) : List (Message T) → List (Received B S) → Type 0 where
    fresh :
        o.tx ≡ true
        → o.rx ≡ true
        → o.waiting ≡ false
        → Oneshot.view S o.slot ≡ unsent
        → Stage o [] []
    awaits :
        o.tx ≡ true
        → o.rx ≡ false
        → o.waiting ≡ true
        → Oneshot.view S o.slot ≡ unsent
        → Stage o [] []
    lost :
        o.tx ≡ true
        → o.rx ≡ false
        → o.waiting ≡ false
        → Oneshot.view S o.slot ≡ rx_gone
        → Stage o [] []
    carries :
        {m : Message T}
        → o.tx ≡ false
        → o.rx ≡ true
        → o.waiting ≡ false
        → Oneshot.view S o.slot ≡ holds m
        → Stage o (m ∷ []) []
    awaited :
        {m : Message T}
        → o.tx ≡ false
        → o.rx ≡ false
        → o.waiting ≡ true
        → Oneshot.view S o.slot ≡ holds m
        → Stage o (m ∷ []) []
    over :
        {ins : List (Message T)} {outs : List (Received B S)}
        → o.tx ≡ false
        → o.rx ≡ false
        → o.waiting ≡ false
        → Carried ins outs
        → Stage o ins outs

  pub Stage-Carried :
      {o : Once B S} {ins : List (Message T)} {outs : List (Received B S)}
      → Stage o ins outs
      → Carried ins outs
  Stage-Carried (fresh tx rx w v) = inl (refl, refl)
  Stage-Carried (awaits tx rx w v) = inl (refl, refl)
  Stage-Carried (lost tx rx w v) = inl (refl, refl)
  Stage-Carried (carries {m = m} tx rx w v) = inr (m, refl, inl refl)
  Stage-Carried (awaited {m = m} tx rx w v) = inr (m, refl, inl refl)
  Stage-Carried (over tx rx w c) = c

  pub Stage-send_once :
      (m : Message T) (o : Once B S) {ins : List (Message T)} {outs : List (Received B S)}
      → Stage o ins outs
      → let r = send_once B S m o in Stage r.1 (ins ++ accepted B S m r.0) outs
  unfolding send_once
  Stage-send_once m o (fresh tx rx w v) = elim (Bool-cases o.locked) [
    | inl taken ↦ rw taken (fresh tx rx w v)
    | inr free ↦
        rw (free, tx, Oneshot.send_reply S m o.slot, v)
          (carries refl rx w (Oneshot.send_view S m o.slot ∙ rw v refl))
  ]
  Stage-send_once m o (awaits tx rx w v) = elim (Bool-cases o.locked) [
    | inl taken ↦ rw taken (awaits tx rx w v)
    | inr free ↦
        rw (free, tx, Oneshot.send_reply S m o.slot, v)
          (awaited refl rx w (Oneshot.send_view S m o.slot ∙ rw v refl))
  ]
  Stage-send_once m o (awaited tx rx w v) = elim (Bool-cases o.locked) [
    | inl taken ↦ rw taken (awaited tx rx w v)
    | inr free ↦ rw (free, tx) (awaited refl rx w v)
  ]
  Stage-send_once m o (lost tx rx w v) = elim (Bool-cases o.locked) [
    | inl taken ↦ rw taken (lost tx rx w v)
    | inr free ↦ rw (free, tx, Oneshot.send_reply S m o.slot, v) (over refl rx w (inl (refl, refl)))
  ]
  Stage-send_once m o (carries tx rx w v) = elim (Bool-cases o.locked) [
    | inl taken ↦ rw taken (carries tx rx w v)
    | inr free ↦ rw (free, tx) (carries refl rx w v)
  ]
  Stage-send_once m o {ins} (over tx rx w c) = elim (Bool-cases o.locked) [
    | inl taken ↦ rw (taken, append-nil ins) (over tx rx w c)
    | inr free ↦ rw (free, tx, append-nil ins) (over refl rx w c)
  ]

  -- The value that waits leaves, and the channel is over.
  taken_out :
      (o : Once B S) (m : Message T)
      → o.tx ≡ false
      → o.rx ≡ false
      → o.waiting ≡ false
      → Stage o (m ∷ []) (got B S (ready (deliver B S m)))
  taken_out o m tx rx w = rw (got-deliver B S m) (over tx rx w (inr (m, refl, inr refl)))

  -- The reply of the oneshot receiver.
  reply :
      (o : Once B S) (s : Slot (Message T))
      → Oneshot.view S o.slot ≡ s
      → Oneshot.recv S o.slot ≡ ((oneshot_recv_spec s).0, (Oneshot.recv S o.slot).1)
  reply o s v = ap (λ a. (a, (Oneshot.recv S o.slot).1)) (Oneshot.recv_reply S o.slot ∙ rw v refl)

  -- A poll of a future that has the receiver, the channel being fresh or carrying.
  await-unsent :
      (o : Once B S)
      → o.tx ≡ true
      → Oneshot.view S o.slot ≡ unsent
      → let r = await_once B S (Oneshot.recv S o.slot) o in Stage r.1 [] (got B S r.0)
  unfolding await_once
  await-unsent o tx v =
      rw (reply o unsent v) (awaits tx refl refl (Oneshot.recv_view S o.slot ∙ rw v refl))

  await-holds :
      (o : Once B S) (m : Message T)
      → o.tx ≡ false
      → Oneshot.view S o.slot ≡ holds m
      → let r = await_once B S (Oneshot.recv S o.slot) o in Stage r.1 (m ∷ []) (got B S r.0)
  unfolding await_once on_recv
  await-holds o m tx v = rw (reply o (holds m) v) (taken_out _ m tx refl refl)

  pub Stage-recv_begin_once :
      (o : Once B S) {ins : List (Message T)} {outs : List (Received B S)}
      → Stage o ins outs
      → let r = recv_begin_once B S o in Stage r.1 ins (outs ++ got B S r.0)
  unfolding recv_begin_once
  Stage-recv_begin_once o (fresh tx rx w v) =
      if-then (λ r. Stage r.1 [] (got B S r.0)) o.rx (await_once B S (Oneshot.recv S o.slot) o)
        (ready (success none), o) rx (await-unsent o tx v)
  Stage-recv_begin_once o (awaits tx rx w v) = rw rx (awaits tx refl w v)
  Stage-recv_begin_once o (lost tx rx w v) = rw rx (lost tx refl w v)
  Stage-recv_begin_once o (carries {m = m} tx rx w v) =
      if-then (λ r. Stage r.1 (m ∷ []) (got B S r.0)) o.rx
        (await_once B S (Oneshot.recv S o.slot) o) (ready (success none), o) rx
        (await-holds o m tx v)
  Stage-recv_begin_once o (awaited tx rx w v) = rw rx (awaited tx refl w v)
  Stage-recv_begin_once o {outs = outs} (over tx rx w c) =
      rw (rx, append-nil outs) (over tx refl w c)

  pub Stage-recv_wake_once :
      (o : Once B S) {ins : List (Message T)} {outs : List (Received B S)}
      → Stage o ins outs
      → let r = recv_wake_once B S o in Stage r.1 ins (outs ++ got B S r.0)
  unfolding recv_wake_once
  Stage-recv_wake_once o (fresh tx rx w v) = rw w (fresh tx rx refl v)
  Stage-recv_wake_once o (awaits tx rx w v) =
      if-then (λ r. Stage r.1 [] (got B S r.0)) o.waiting (await_once B S (Oneshot.recv S o.slot) o)
        (pending, o) w (await-unsent o tx v)
  Stage-recv_wake_once o (lost tx rx w v) = rw w (lost tx rx refl v)
  Stage-recv_wake_once o (carries tx rx w v) = rw w (carries tx rx refl v)
  Stage-recv_wake_once o (awaited {m = m} tx rx w v) =
      if-then (λ r. Stage r.1 (m ∷ []) (got B S r.0)) o.waiting
        (await_once B S (Oneshot.recv S o.slot) o) (pending, o) w (await-holds o m tx v)
  Stage-recv_wake_once o {outs = outs} (over tx rx w c) =
      rw (w, append-nil outs) (over tx rx refl c)

  pub Stage-recv_drop_once :
      (o : Once B S) {ins : List (Message T)} {outs : List (Received B S)}
      → Stage o ins outs
      → Stage (recv_drop_once B S o) ins outs
  unfolding recv_drop_once
  Stage-recv_drop_once o (fresh tx rx w v) = rw w (fresh tx rx refl v)
  Stage-recv_drop_once o (awaits tx rx w v) = rw w (lost tx rx refl (Oneshot.drop_rx_view S _))
  Stage-recv_drop_once o (lost tx rx w v) = rw w (lost tx rx refl v)
  Stage-recv_drop_once o (carries tx rx w v) = rw w (carries tx rx refl v)
  Stage-recv_drop_once o (awaited {m = m} tx rx w v) =
      rw w (over tx rx refl (inr (m, refl, inl refl)))
  Stage-recv_drop_once o (over tx rx w c) = rw w (over tx rx refl c)

  pub Stage-recv_once :
      (o : Once B S) {ins : List (Message T)} {outs : List (Received B S)}
      → Stage o ins outs
      → let r = recv_once B S o in Stage r.1 ins (outs ++ got B S r.0)
  unfolding recv_once drop_polled
  Stage-recv_once o {ins} {outs} st = at (recv_begin_once B S o) (Stage-recv_begin_once o st)
    where
      at :
          (r : Poll (Received B S) × Once B S)
          → Stage r.1 ins (outs ++ got B S r.0)
          → let s = drop_polled B S r in Stage s.1 ins (outs ++ got B S s.0)
      at (pending, o') st = Stage-recv_drop_once o' st
      at (ready v, o') st = st

  pub Stage-poll_once :
      (o : Once B S) {ins : List (Message T)} {outs : List (Received B S)}
      → Stage o ins outs
      → let r = poll_once B S o in Stage r.1 ins (outs ++ got B S r.0)
  unfolding poll_once on_recv
  Stage-poll_once o (fresh tx rx w v) =
      rw (rx, Oneshot.recv_reply S o.slot, v)
        (fresh tx rx w (Oneshot.recv_view S o.slot ∙ rw v refl))
  Stage-poll_once o (awaits tx rx w v) = rw rx (awaits tx refl w v)
  Stage-poll_once o (awaited tx rx w v) = rw rx (awaited tx refl w v)
  Stage-poll_once o (lost tx rx w v) = rw rx (lost tx refl w v)
  Stage-poll_once o (carries {m = m} tx rx w v) =
      rw (rx, Oneshot.recv_reply S o.slot, v) (taken_out _ m tx refl w)
  Stage-poll_once o {outs = outs} (over tx rx w c) = rw (rx, append-nil outs) (over tx refl w c)

  pub Stage-try_recv_once :
      (o : Once B S) {ins : List (Message T)} {outs : List (Received B S)}
      → Stage o ins outs
      → let r = try_recv_once B S o in Stage r.1 ins (outs ++ got B S (ready r.0))
  unfolding try_recv_once on_try_recv
  Stage-try_recv_once o (fresh tx rx w v) =
      rw (rx, Oneshot.recv_reply S o.slot, v)
        (fresh tx refl w (Oneshot.recv_view S o.slot ∙ rw v refl))
  Stage-try_recv_once o (awaits tx rx w v) = rw rx (awaits tx refl w v)
  Stage-try_recv_once o (awaited tx rx w v) = rw rx (awaited tx refl w v)
  Stage-try_recv_once o (lost tx rx w v) = rw rx (lost tx refl w v)
  Stage-try_recv_once o (carries {m = m} tx rx w v) =
      rw (rx, Oneshot.recv_reply S o.slot, v) (taken_out _ m tx refl w)
  Stage-try_recv_once o {outs = outs} (over tx rx w c) = rw (rx, append-nil outs) (over tx refl w c)

  -- The receiver is gone after one poll, if nothing has been sent.
  pub recv_once-unsent :
      (o : Once B S)
      → o.rx ≡ true
      → Oneshot.view S o.slot ≡ unsent
      → recv_once B S o ≡ (
        pending,
        record o {
          rx = false;
          waiting = false;
          slot = Oneshot.drop_rx S (Oneshot.recv S o.slot).1;
        },
      )
  unfolding recv_once recv_begin_once drop_polled recv_drop_once await_once
  recv_once-unsent o rx v =
      let polled = (Oneshot.recv S o.slot).1 in
      ap (drop_polled B S) (
        if-then (λ r. r ≡ (pending, record o { rx = false; waiting = true; slot = polled })) o.rx
          (await_once B S (Oneshot.recv S o.slot) o) (ready (success none), o) rx
          (ap (λ a. await_once B S a o) (reply o unsent v)))
