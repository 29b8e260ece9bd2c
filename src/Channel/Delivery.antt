-- ===== src/Channel/Delivery.antt =====
-- What goes through a channel of src/channel/ comes out, in order; capacity; oneshot channels.
use atoman_rs.Prelude.{
  ℕ, zero, suc, ◌+◌, ◌≤◌, ◌≡◌, refl, ap, sym, ◌∙◌, subst, Bool, true, false, Option, none, some,
  List, [], ◌∷◌, ◌++◌, length, lt→ltb, arith, length-append,
}
use mathlib.Core.List.{append_assoc, append-nil}
use atoman_rs.Prelude.Result.{success}
use atoman_rs.Channel.Sends.{recv_spec-items}
use atoman_rs.Channel.Queue
use atoman_rs.Channel.Queue.{
  Mpsc, Oneshot, SendReply, sent, full, closed, waits, RecvReply, item, empty, disconnected,
  has_room, push, try_send_spec, send_spec, recv_spec, Slot, unsent, holds, tx_gone, rx_gone,
}
use atoman_rs.Channel.{
  Message, Poll, ready, Channel, unbounded, bounded, Sent, Received, on_sent, deliver, on_recv,
  send_raw_sync, recv,
}

module _ {T : Type 0} (B : Mpsc (Message T)) (S : Oneshot (Message T)) where
  abbrev pub Chan : Type 0
  Chan = Channel B S

  abbrev pub Q : Type 0
  Q = Queue.Queue (Message T)

  pub send_all : List (Message T) → Chan → List (Poll (Sent B S)) × Chan
  send_all [] ch = ([], ch)
  send_all (m ∷ ms) ch =
      let r = send_raw_sync B S m ch in let rs = send_all ms r.1 in (r.0 ∷ rs.0, rs.1)

  pub recv_times : ℕ → Chan → List (Poll (Received B S)) × Chan
  recv_times zero ch = ([], ch)
  recv_times (suc n) ch = let r = recv B S ch in let rs = recv_times n r.1 in (r.0 ∷ rs.0, rs.1)

  abbrev pub Fits : Q → ℕ → Type 0
  Fits q k = elim q.capacity [ none ↦ Unit {0} | some n ↦ length q.items + k ≤ n ]

  -- The two kinds of channel with a queue.
  abbrev pub queued : Bool → Mpsc.C B → Chan
  queued true c = bounded c
  queued false c = unbounded c

  abbrev pub all_sent : List (Message T) → List (Poll (Sent B S))
  all_sent [] = []
  all_sent (m ∷ ms) = ready (success tt) ∷ all_sent ms

  abbrev pub delivered : List (Message T) → List (Poll (Received B S))
  delivered [] = []
  delivered (m ∷ ms) = ready (deliver B S m) ∷ delivered ms

  send_one :
      (b : Bool) (m : Message T) (c : Mpsc.C B)
      → (send_raw_sync B S m (queued b c)).0 ≡ on_sent B S (try_send_spec m (Mpsc.view B c)).0
        × ((send_raw_sync B S m (queued b c)).1 ≡ queued b (Mpsc.try_send B m c).1)
  unfolding send_raw_sync
  send_one true m c = (ap (on_sent B S) (Mpsc.try_send_reply B m c), refl)
  send_one false m c = (ap (on_sent B S) (Mpsc.try_send_reply B m c), refl)

  pub recv_one :
      (b : Bool) (c : Mpsc.C B)
      → (recv B S (queued b c)).0 ≡ on_recv B S (recv_spec (Mpsc.view B c)).0
        × ((recv B S (queued b c)).1 ≡ queued b (Mpsc.recv B c).1)
  unfolding recv
  recv_one true c = (ap (on_recv B S) (Mpsc.recv_reply B c), refl)
  recv_one false c = (ap (on_recv B S) (Mpsc.recv_reply B c), refl)

  -- Room for one more message than zero.
  Fits-room : (q : Q) (k : ℕ) → Fits q (suc k) → has_room q ≡ true
  Fits-room q k h = at q.capacity h
    where
      at :
          (o : Option ℕ)
          → Fits (record q { capacity = o }) (suc k)
          → has_room (record q { capacity = o }) ≡ true
      at none h = refl
      at (some n) h = lt→ltb (length q.items) n (omega arith)

  Fits-push : (q : Q) (m : Message T) (k : ℕ) → Fits q (suc k) → Fits (push m q) k
  Fits-push q m k h = at q.capacity h
    where
      at :
          (o : Option ℕ)
          → Fits (record q { capacity = o }) (suc k)
          → Fits (push m (record q { capacity = o })) k
      at none h = tt
      at (some n) h = omega (arith, length-append {0} q.items (m ∷ []))

  on_sent-here :
      (q : Q) (m : Message T)
      → q.open_rx ≡ true
      → has_room q ≡ true
      → on_sent B S (try_send_spec m q).0 ≡ ready (success tt)
  unfolding on_sent
  on_sent-here q m here room = rw (here, room)

  -- Sending messages that fit puts them behind those under way.
  pub send_all-Fits :
      (b : Bool) (ms : List (Message T)) (c : Mpsc.C B)
      → (Mpsc.view B c).open_rx ≡ true
      → Fits (Mpsc.view B c) (length ms)
      → (c' : Mpsc.C B) × (send_all ms (queued b c) ≡ (all_sent ms, queued b c'))
        × (Mpsc.view B c' ≡ record (Mpsc.view B c) { items = (Mpsc.view B c).items ++ ms })
  unfolding send_all
  send_all-Fits b [] c here fits = (
    c,
    refl,
    ap (λ l. record (Mpsc.view B c) { items = l }) (sym (append-nil (Mpsc.view B c).items)),
  )
  send_all-Fits b (m ∷ ms) c here fits =
      let q = Mpsc.view B c in
      let room = Fits-room q (length ms) fits in
      let c₁ = (Mpsc.try_send B m c).1 in
      let e : Mpsc.view B c₁ ≡ push m q = Mpsc.try_send_view B m c ∙ rw (here, room) in
      let first = send_one b m c in
      let reply : (send_raw_sync B S m (queued b c)).0 ≡ ready (success tt) =
        first.0 ∙ on_sent-here q m here room in
      let (c', all, end) =
        send_all-Fits b ms c₁ (ap (λ (q : Q). q.open_rx) e ∙ here)
          (subst (λ q. Fits q (length ms)) (sym e) (Fits-push q m (length ms) fits)) in
      (
        c',
        rw (reply, first.1, all),
        end ∙ rw e (ap (λ l. record q { items = l }) (append_assoc q.items (m ∷ []) ms)),
      )

  -- As many calls of `recv` as there are messages deliver them in their order.
  pub recv_times_delivers :
      (b : Bool) (ms later : List (Message T)) (c : Mpsc.C B)
      → (Mpsc.view B c).items ≡ ms ++ later
      → (c' : Mpsc.C B) × (recv_times (length ms) (queued b c) ≡ (delivered ms, queued b c'))
        × (Mpsc.view B c' ≡ record (Mpsc.view B c) { items = later })
  unfolding recv_times
  recv_times_delivers b [] later c h = (c, refl, ap (λ l. record (Mpsc.view B c) { items = l }) h)
  recv_times_delivers b (m ∷ ms) later c h =
      let q = Mpsc.view B c in
      let c₁ = (Mpsc.recv B c).1 in
      let here = recv_spec-items q h in
      let e : Mpsc.view B c₁ ≡ record q { items = ms ++ later } =
        Mpsc.recv_view B c ∙ ap (λ r. r.1) here in
      let first = recv_one b c in
      let reply : (recv B S (queued b c)).0 ≡ ready (deliver B S m) =
        first.0 ∙ unfold on_recv in ap (λ r. on_recv B S r.0) here in
      let (c', all, end) = recv_times_delivers b ms later c₁ (ap (λ (q : Q). q.items) e) in
      (c', rw (reply, first.1, all), end ∙ ap (λ (q : Q). record q { items = later }) e)

  -- What is sent on a queued channel, behind the messages under way and where it fits, is answered
  -- with `Ok`, and then comes out of as many calls of `recv` as there are messages, in the order in
  -- which it was sent, and leaves the channel empty.
  pub sent_comes_out :
      (b : Bool) (ms : List (Message T)) (c : Mpsc.C B)
      → (Mpsc.view B c).open_rx ≡ true
      → Fits (Mpsc.view B c) (length ms)
      → let old = (Mpsc.view B c).items in
        let after = send_all ms (queued b c) in
        (after.0 ≡ all_sent ms)
        × (c' : Mpsc.C B) × (recv_times (length (old ++ ms)) after.1
            ≡ (delivered (old ++ ms), queued b c'))
        × (Mpsc.view B c' ≡ record (Mpsc.view B c) { items = [] })
  sent_comes_out b ms c here fits =
      let (c₁, all, end) = send_all-Fits b ms c here fits in
      let old = (Mpsc.view B c).items in
      let (c₂, out, left) =
        recv_times_delivers b (old ++ ms) [] c₁
          (ap (λ (q : Q). q.items) end ∙ sym (append-nil (old ++ ms))) in
      (
        ap (λ r. r.0) all,
        c₂,
        ap (λ (r : List (Poll (Sent B S)) × Chan). recv_times (length (old ++ ms)) r.1) all ∙ out,
        left ∙ ap (λ (q : Q). record q { items = [] }) end,
      )
