-- ===== src/Channel/Fifo.antt =====
-- Calls of the two ends of a channel in any order (src/channel/sender.rs, src/channel/receiver.rs).
use atoman_rs.Prelude.{
  ℕ, ◌≤◌, ◌≡◌, refl, ap, sym, ◌∙◌, subst, Bool, true, false, ◌&&◌, Option, none, some, List, [],
  ◌∷◌, ◌++◌, map, length, ltb→lt, arith, length-append, Bool-cases, inl, inr,
}
use mathlib.Core.List.{append_assoc, append-nil, map-append}
use atoman_rs.Prelude.Result.{success, failure}
use atoman_rs.Errors.{DynError}
use atoman_rs.Channel.Queue.{
  Mpsc, Oneshot, SendReply, sent, full, closed, waits, RecvReply, item, empty, disconnected,
  has_room, push, try_send_spec, send_spec, recv_spec,
}
use atoman_rs.Channel.{
  Message, Poll, ready, pending, Sent, Received, on_sent, deliver, on_recv, on_try_recv,
  send_raw_sync, send_raw_async, send, send_async, send_err, send_err_async, recv, try_recv, poll,
}
use atoman_rs.Channel.Delivery.{Chan, Q, queued}

-- A call at either end.
pub data Act (T : Type 0) : Type 0 where
  sends sends_async : T → Act T
  sends_err sends_err_async : DynError → Act T
  receives tries polls : Act T

module _ {T : Type 0} (B : Mpsc (Message T)) (S : Oneshot (Message T)) where
  -- The message that a call has put into the channel.
  abbrev pub accepted : Message T → Poll (Sent B S) → List (Message T)
  accepted m (ready (success u)) = m ∷ []
  accepted m (ready (failure e)) = []
  accepted m pending = []

  -- What a call has got out of the channel.
  abbrev pub got : Poll (Received B S) → List (Received B S)
  got (ready (success (some v))) = success (some v) ∷ []
  got (ready (success none)) = []
  got (ready (failure e)) = failure e ∷ []
  got pending = []

  -- What went into the channel, and what came out of it.
  pub record Traffic : Type 0 where
    pub ins : List (Message T)
    pub outs : List (Received B S)

  abbrev on_send : Message T → Poll (Sent B S) × Chan B S → Traffic × Chan B S
  on_send m r = (record { ins = accepted m r.0; outs = [] }, r.1)

  abbrev on_out : Poll (Received B S) × Chan B S → Traffic × Chan B S
  on_out r = (record { ins = []; outs = got r.0 }, r.1)

  unfoldable pub act : Act T → Chan B S → Traffic × Chan B S
  act (sends v) ch = on_send (success v) (send B S v ch)
  act (sends_async v) ch = on_send (success v) (send_async B S v ch)
  act (sends_err e) ch = on_send (failure e) (send_err B S e ch)
  act (sends_err_async e) ch = on_send (failure e) (send_err_async B S e ch)
  act receives ch = on_out (recv B S ch)
  act tries ch = let r = try_recv B S ch in on_out (ready r.0, r.1)
  act polls ch = on_out (poll B S ch)

  unfoldable pub traffic : List (Act T) → Chan B S → Traffic × Chan B S
  unfolding act
  traffic [] ch = (record { ins = []; outs = [] }, ch)
  traffic (a ∷ as') ch =
      let r = act a ch in
      let rs = traffic as' r.1 in
      (record { ins = r.0.ins ++ rs.0.ins; outs = r.0.outs ++ rs.0.outs }, rs.1)

  -- A bounded channel holds no more than it may.
  abbrev pub Within : Q B S → Type 0
  Within q = elim q.capacity [ none ↦ Unit {0} | some n ↦ length q.items ≤ n ]

  -- From `q` to `q'` what came out and what is left is what was there and what went in.
  pub record Moved (q q' : Q B S) (t : Traffic) : Type 0 where
    pub flow : map (deliver B S) (q.items ++ t.ins) ≡ t.outs ++ map (deliver B S) q'.items
    pub within : Within q → Within q'

  abbrev out_of : Message T → List (Message T)
  out_of m = m ∷ []

  pub got-deliver : (m : Message T) → got (ready (deliver B S m)) ≡ deliver B S m ∷ []
  unfolding deliver
  got-deliver (success v) = refl
  got-deliver (failure e) = refl

  Within-push : (q : Q B S) (m : Message T) → has_room q ≡ true → Within (push m q)
  Within-push q m room = at q.capacity room
    where
      at :
          (o : Option ℕ)
          → has_room (record q { capacity = o }) ≡ true
          → Within (push m (record q { capacity = o }))
      at none room = tt
      at (some n) room =
          omega (arith, ltb→lt (length q.items) n room, length-append {0} q.items (m ∷ []))

  stays : (q : Q B S) → Moved q q (record { ins = []; outs = [] })
  stays q = record { flow = ap (map (deliver B S)) (append-nil q.items); within = λ w. w }

  enters :
      (q : Q B S) (m : Message T)
      → has_room q ≡ true
      → Moved q (push m q) (record { ins = m ∷ []; outs = [] })
  enters q m room = record { flow = refl; within = λ w. Within-push q m room }

  abbrev OnSent : Q B S → Message T → SendReply × Q B S → Type 0
  OnSent q m r = Moved q r.1 (record { ins = accepted m (on_sent B S r.0); outs = [] })

  abbrev OnRecv : Q B S → RecvReply (Message T) × Q B S → Type 0
  OnRecv q r = Moved q r.1 (record { ins = []; outs = got (on_recv B S r.0) })

  try_send-Moved : (q : Q B S) (m : Message T) → OnSent q m (try_send_spec m q)
  unfolding on_sent
  try_send-Moved q m = elim (Bool-cases q.open_rx) [
    | inl here ↦ elim (Bool-cases (has_room q)) [
      | inl room ↦
          let e : (sent, push m q) ≡ try_send_spec m q = rw (here, room) in
          subst (OnSent q m) e (enters q m room)
      | inr no_room ↦
          let e : (full, q) ≡ try_send_spec m q = rw (here, no_room) in
          subst (OnSent q m) e (stays q)
    ]
    | inr gone ↦ let e : (closed, q) ≡ try_send_spec m q = rw gone in subst (OnSent q m) e (stays q)
  ]

  send-Moved : (q : Q B S) (m : Message T) → OnSent q m (send_spec m q)
  unfolding on_sent
  send-Moved q m = elim (Bool-cases q.open_rx) [
    | inl here ↦ elim (Bool-cases (has_room q)) [
      | inl room ↦
          let e : (sent, push m q) ≡ send_spec m q = rw (here, room) in
          subst (OnSent q m) e (enters q m room)
      | inr no_room ↦
          let e : (waits, q) ≡ send_spec m q = rw (here, no_room) in subst (OnSent q m) e (stays q)
    ]
    | inr gone ↦ let e : (closed, q) ≡ send_spec m q = rw gone in subst (OnSent q m) e (stays q)
  ]

  -- The first message leaves.
  leaves :
      (q : Q B S) (m : Message T) (ms : List (Message T))
      → q.items ≡ m ∷ ms
      → Moved q (record q { items = ms }) (record { ins = []; outs = got (ready (deliver B S m)) })
  leaves q m ms h = record {
    flow = rw h (ap (map (deliver B S)) (append-nil (m ∷ ms)) ∙ rw (got-deliver m));
    within = λ w. fewer q.capacity w;
  }
    where
      fewer :
          (o : Option ℕ)
          → Within (record q { capacity = o })
          → Within (record q { capacity = o; items = ms })
      fewer none w = tt
      fewer (some n) w = omega (arith, ap length h)

  recv-Moved : (q : Q B S) → OnRecv q (recv_spec q)
  unfolding on_recv
  recv-Moved q = at q.items refl
    where
      at : (l : List (Message T)) → q.items ≡ l → OnRecv q (recv_spec q)
      at (m ∷ ms) h =
          let e : (item m, record q { items = ms }) ≡ recv_spec q = rw h in
          subst (OnRecv q) e (leaves q m ms h)
      at [] h = elim (Bool-cases (q.open_tx && q.open_rx)) [
        | inl both ↦ let e : (empty, q) ≡ recv_spec q = rw (h, both) in subst (OnRecv q) e (stays q)
        | inr one ↦
            let e : (disconnected, q) ≡ recv_spec q = rw (h, one) in subst (OnRecv q) e (stays q)
      ]

  try_send-kept :
      (m : Message T) (c : Mpsc.C B)
      → let r = Mpsc.try_send B m c in OnSent (Mpsc.view B c) m (r.0, Mpsc.view B r.1)
  try_send-kept m c =
      let e : try_send_spec m (Mpsc.view B c)
          ≡ ((Mpsc.try_send B m c).0, Mpsc.view B (Mpsc.try_send B m c).1) =
        rw (Mpsc.try_send_reply B m c, Mpsc.try_send_view B m c) in
      subst (OnSent (Mpsc.view B c) m) e (try_send-Moved (Mpsc.view B c) m)

  send-kept :
      (m : Message T) (c : Mpsc.C B)
      → let r = Mpsc.send B m c in OnSent (Mpsc.view B c) m (r.0, Mpsc.view B r.1)
  send-kept m c =
      let e : send_spec m (Mpsc.view B c) ≡ ((Mpsc.send B m c).0, Mpsc.view B (Mpsc.send B m c).1) =
        rw (Mpsc.send_reply B m c, Mpsc.send_view B m c) in
      subst (OnSent (Mpsc.view B c) m) e (send-Moved (Mpsc.view B c) m)

  recv-kept :
      (c : Mpsc.C B) → let r = Mpsc.recv B c in OnRecv (Mpsc.view B c) (r.0, Mpsc.view B r.1)
  recv-kept c =
      let e : recv_spec (Mpsc.view B c) ≡ ((Mpsc.recv B c).0, Mpsc.view B (Mpsc.recv B c).1) =
        rw (Mpsc.recv_reply B c, Mpsc.recv_view B c) in
      subst (OnRecv (Mpsc.view B c)) e (recv-Moved (Mpsc.view B c))

  got-on_try_recv :
      (r : RecvReply (Message T)) → got (on_recv B S r) ≡ got (ready (on_try_recv B S r))
  unfolding on_recv on_try_recv
  got-on_try_recv (item m) = refl
  got-on_try_recv empty = refl
  got-on_try_recv disconnected = refl

  try_recv-kept :
      (c : Mpsc.C B)
      → let r = Mpsc.recv B c in
        Moved
          (Mpsc.view B c)
          (Mpsc.view B r.1)
          (record { ins = []; outs = got (ready (on_try_recv B S r.0)) })
  try_recv-kept c =
      subst
        (λ o. Moved (Mpsc.view B c) (Mpsc.view B (Mpsc.recv B c).1) (record { ins = []; outs = o }))
        (got-on_try_recv (Mpsc.recv B c).0) (recv-kept c)

  -- What a call on a queued channel does.
  abbrev pub Acted : Bool → Mpsc.C B → Traffic × Chan B S → Type 0
  Acted b c r =
      (c' : Mpsc.C B) × (r.1 ≡ queued B S b c') × Moved (Mpsc.view B c) (Mpsc.view B c') r.0

  act-Acted : (a : Act T) (b : Bool) (c : Mpsc.C B) → Acted b c (act a (queued B S b c))
  unfolding act send send_async send_err send_err_async send_raw_sync send_raw_async recv try_recv
      poll
  act-Acted (sends v) true c = (_, refl, try_send-kept (success v) c)
  act-Acted (sends v) false c = (_, refl, try_send-kept (success v) c)
  act-Acted (sends_async v) true c = (_, refl, send-kept (success v) c)
  act-Acted (sends_async v) false c = (_, refl, try_send-kept (success v) c)
  act-Acted (sends_err e) true c = (_, refl, try_send-kept (failure e) c)
  act-Acted (sends_err e) false c = (_, refl, try_send-kept (failure e) c)
  act-Acted (sends_err_async e) true c = (_, refl, send-kept (failure e) c)
  act-Acted (sends_err_async e) false c = (_, refl, try_send-kept (failure e) c)
  act-Acted receives true c = (_, refl, recv-kept c)
  act-Acted receives false c = (_, refl, recv-kept c)
  act-Acted tries true c = (_, refl, try_recv-kept c)
  act-Acted tries false c = (_, refl, try_recv-kept c)
  act-Acted polls true c = (_, refl, recv-kept c)
  act-Acted polls false c = (_, refl, recv-kept c)

  Moved-trans :
      (q q' q'' : Q B S) (t t' : Traffic)
      → Moved q q' t
      → Moved q' q'' t'
      → Moved q q'' (record { ins = t.ins ++ t'.ins; outs = t.outs ++ t'.outs })
  Moved-trans q q' q'' t t' one two =
      let d = map (deliver B S) in
      record {
        flow =
            ap d (sym (append_assoc q.items t.ins t'.ins))
            ∙ map-append (deliver B S) (q.items ++ t.ins) t'.ins
            ∙ ap (λ l. l ++ d t'.ins) one.flow
            ∙ append_assoc t.outs (d q'.items) (d t'.ins)
            ∙ ap (λ l. t.outs ++ l) (sym (map-append (deliver B S) q'.items t'.ins) ∙ two.flow)
            ∙ sym (append_assoc t.outs t'.outs (d q''.items));
        within = λ w. two.within (one.within w);
      }

  -- Whatever calls of both ends come, and in whatever order: what the receiver has got and what is
  -- still under way are what was under way at the start and what the senders were told was sent, in
  -- that order, each once; and a bounded channel that did not exceed its capacity does not.
  pub traffic-Acted :
      (acts : List (Act T)) (b : Bool) (c : Mpsc.C B) → Acted b c (traffic acts (queued B S b c))
  unfolding traffic
  traffic-Acted [] b c = (c, refl, stays (Mpsc.view B c))
  traffic-Acted (a ∷ as') b c =
      let (c₁, there, one) = act-Acted a b c in
      let (c₂, end, two) = traffic-Acted as' b c₁ in
      rw there (
        c₂,
        end,
        Moved-trans (Mpsc.view B c) (Mpsc.view B c₁) (Mpsc.view B c₂) (act a (queued B S b c)).0
            (traffic as' (queued B S b c₁)).0 one two,
      )
