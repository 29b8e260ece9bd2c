-- ===== src/Channel/Sends.antt =====
-- What one send or receive does to a channel of tokio, in terms of what it answers (src/channel/, and the
-- channel of src/logger/mod.rs).
use atoman_rs.Prelude.{
  ℕ, ◌≤◌, ◌≡◌, refl, ap, sym, ◌∙◌, subst, Bool, true, false, ◌&&◌, none, some, List, [], ◌∷◌, ◌++◌,
  length, length-append, ltb, ltb→lt, arith, if◌then◌else◌,
}
use mathlib.Core.List.{append-nil}
use atoman_rs.Channel.Queue.{
  Mpsc, Queue, SendReply, sent, full, closed, waits, RecvReply, item, empty, disconnected,
  try_send_spec, send_spec, recv_spec, has_room, push,
}

module _ {M : Type 0} where
  -- What a send has put into the channel.
  abbrev pub put_in : M → SendReply → List M
  put_in m sent = m ∷ []
  put_in m full = []
  put_in m closed = []
  put_in m waits = []

  -- The channel before and after a send.
  pub record Sending (m : M) (q : Queue M) (r : SendReply) (q' : Queue M) : Type 0 where
    pub items : q'.items ≡ q.items ++ put_in m r
    pub same : q'.capacity ≡ q.capacity
    pub fits : (size : ℕ) → q.capacity ≡ some size → length q.items ≤ size → length q'.items ≤ size

  pub unsent-Sending : (m : M) (q : Queue M) (r : SendReply) → put_in m r ≡ [] → Sending m q r q
  unsent-Sending m q r e = record {
    items = sym (append-nil q.items) ∙ ap (λ l. q.items ++ l) (sym e);
    same = refl;
    fits = λ size c l. l;
  }

  sent-Sending : (m : M) (q : Queue M) → has_room q ≡ true → Sending m q sent (push m q)
  sent-Sending m q room = record {
    items = refl;
    same = refl;
    fits = λ size c l.
        let free : ltb (length q.items) size ≡ true =
          subst
            (λ o. elim o as (λ o. Bool) [ none ↦ true | some n ↦ ltb (length q.items) n ] ≡ true) c
            room in
        let less = ltb→lt (length q.items) size free in
        omega (arith, length-append q.items (m ∷ []));
  }

  try_send-Sending : (m : M) (q : Queue M) → Sending m q (try_send_spec m q).0 (try_send_spec m q).1
  try_send-Sending m q = at q.open_rx (has_room q) refl
    where
      at :
          (b c : Bool)
          → has_room q ≡ c
          → let r : SendReply × Queue M =
              if b then (if c then (sent, push m q) else (full, q)) else (closed, q) in
            Sending m q r.0 r.1
      at true true room = sent-Sending m q room
      at true false room = unsent-Sending m q full refl
      at false c room = unsent-Sending m q closed refl

  pub send-Sending : (m : M) (q : Queue M) → Sending m q (send_spec m q).0 (send_spec m q).1
  send-Sending m q = at q.open_rx (has_room q) refl
    where
      at :
          (b c : Bool)
          → has_room q ≡ c
          → let r : SendReply × Queue M =
              if b then (if c then (sent, push m q) else (waits, q)) else (closed, q) in
            Sending m q r.0 r.1
      at true true room = sent-Sending m q room
      at true false room = unsent-Sending m q waits refl
      at false c room = unsent-Sending m q closed refl

  -- What comes out of a channel was the first in it.
  abbrev pub First : Queue M → RecvReply M → Queue M → Type 0
  First q (item m) q' = (q.items ≡ m ∷ q'.items) × (q'.capacity ≡ q.capacity)
  First q empty q' = Unit
  First q disconnected q' = Unit

  recv_spec-First : (q : Queue M) → First q (recv_spec q).0 (recv_spec q).1
  recv_spec-First q = at q.items refl
    where
      nothing :
          (b : Bool)
          → let r : RecvReply M × Queue M = if b then (empty, q) else (disconnected, q) in
            First q r.0 r.1
      nothing true = tt
      nothing false = tt

      at :
          (l : List M)
          → q.items ≡ l
          → let r : RecvReply M × Queue M = elim l as (λ l. RecvReply M × Queue M) [
            | m ∷ ms ↦ (item m, record q { items = ms })
            | [] ↦ if q.open_tx && q.open_rx then (empty, q) else (disconnected, q)
          ] in
            First q r.0 r.1
      at [] e = nothing (q.open_tx && q.open_rx)
      at (m ∷ ms) e = (e, refl)

  pub recv_spec-items :
      (q : Queue M) {m : M} {ms : List M}
      → q.items ≡ m ∷ ms
      → recv_spec q ≡ (item m, record q { items = ms })
  recv_spec-items q h = rw h

  module _ (B : Mpsc M) where
    pub try_send-calls :
        (m : M) (c : Mpsc.C B) {reply : SendReply} {c' : Mpsc.C B}
        → Mpsc.try_send B m c ≡ (reply, c')
        → Sending m (Mpsc.view B c) reply (Mpsc.view B c')
    try_send-calls m c {reply} {c'} e =
        let reply_same = sym (Mpsc.try_send_reply B m c) ∙ ap (λ r. r.0) e in
        let view_same = sym (Mpsc.try_send_view B m c) ∙ ap (λ r. Mpsc.view B r.1) e in
        subst (λ r. Sending m (Mpsc.view B c) r (Mpsc.view B c')) reply_same
          (subst (λ q. Sending m (Mpsc.view B c) (try_send_spec m (Mpsc.view B c)).0 q) view_same
            (try_send-Sending m (Mpsc.view B c)))

    pub recv-First :
        (c : Mpsc.C B) {m : M} {c' : Mpsc.C B}
        → Mpsc.recv B c ≡ (item m, c')
        → First (Mpsc.view B c) (item m) (Mpsc.view B c')
    recv-First c {m} {c'} e =
        let reply_same = sym (Mpsc.recv_reply B c) ∙ ap (λ r. r.0) e in
        let view_same = sym (Mpsc.recv_view B c) ∙ ap (λ r. Mpsc.view B r.1) e in
        subst (λ r. First (Mpsc.view B c) r (Mpsc.view B c')) reply_same
          (subst (λ q. First (Mpsc.view B c) (recv_spec (Mpsc.view B c)).0 q) view_same
            (recv_spec-First (Mpsc.view B c)))
