-- ===== src/Channel/Queue.antt =====
-- The tokio channels that src/channel/ wraps, as interfaces: what their documentation says a call
-- answers and does, in terms of the messages under way.
use Prim.Native.Nat.{ℕ}
use atoman_rs.Prelude.{
  ◌≡◌, Bool, true, false, Option, none, some, List, [], ◌∷◌, ◌++◌, ◌&&◌, length, ltb, if◌then◌else◌,
}

-- `capacity` is none for an unbounded channel; `open_rx` says that the receiver is there and not
-- closed, `open_tx` that some sender is.
pub record Queue (M : Type 0) : Type 0 where
  pub items : List M
  pub capacity : Option ℕ
  pub open_rx : Bool
  pub open_tx : Bool

pub data SendReply : Type 0 where
  sent full closed waits : SendReply

pub data RecvReply (M : Type 0) : Type 0 where
  item : M → RecvReply M
  empty : RecvReply M
  disconnected : RecvReply M

module _ {M : Type 0} where
  abbrev pub has_room : Queue M → Bool
  has_room q = elim q.capacity [ none ↦ true | some n ↦ ltb (length q.items) n ]

  abbrev pub push : M → Queue M → Queue M
  push m q = record q { items = q.items ++ m ∷ [] }

  -- `try_send`, and the `send` of an unbounded sender, which always has room.
  abbrev pub try_send_spec : M → Queue M → SendReply × Queue M
  try_send_spec m q =
      if q.open_rx then (if has_room q then (sent, push m q) else (full, q)) else (closed, q)

  -- The asynchronous `send` waits for room.
  abbrev pub send_spec : M → Queue M → SendReply × Queue M
  send_spec m q =
      if q.open_rx then (if has_room q then (sent, push m q) else (waits, q)) else (closed, q)

  -- `empty` stands for a pending future in `recv` and in `poll_recv`.
  abbrev pub recv_spec : Queue M → RecvReply M × Queue M
  recv_spec q = elim q.items [
    | m ∷ ms ↦ (item m, record q { items = ms })
    | [] ↦ if q.open_tx && q.open_rx then (empty, q) else (disconnected, q)
  ]

-- A channel whose calls do what the documentation says. `recv` is also `try_recv` and `poll_recv`.
pub record Mpsc (M : Type 0) : Type 1 where
  pub C : Type 0
  pub view : C → Queue M
  pub try_send : M → C → SendReply × C
  pub send : M → C → SendReply × C
  pub recv : C → RecvReply M × C
  pub is_closed_tx : C → Bool
  pub is_closed_rx : C → Bool
  pub try_send_reply : (m : M) (c : C) → (try_send m c).0 ≡ (try_send_spec m (view c)).0
  pub try_send_view : (m : M) (c : C) → view (try_send m c).1 ≡ (try_send_spec m (view c)).1
  pub send_reply : (m : M) (c : C) → (send m c).0 ≡ (send_spec m (view c)).0
  pub send_view : (m : M) (c : C) → view (send m c).1 ≡ (send_spec m (view c)).1
  pub recv_reply : (c : C) → (recv c).0 ≡ (recv_spec (view c)).0
  pub recv_view : (c : C) → view (recv c).1 ≡ (recv_spec (view c)).1

-- A oneshot channel: nothing sent yet, a value that waits, the sender dropped, or the receiver gone.
pub data Slot (M : Type 0) : Type 0 where
  unsent : Slot M
  holds : M → Slot M
  tx_gone : Slot M
  rx_gone : Slot M

module _ {M : Type 0} where
  -- `send` consumes the sender; `true` is `Ok`.
  abbrev pub oneshot_send_spec : M → Slot M → Bool × Slot M
  oneshot_send_spec m unsent = (true, holds m)
  oneshot_send_spec m (holds m') = (false, holds m')
  oneshot_send_spec m tx_gone = (false, tx_gone)
  oneshot_send_spec m rx_gone = (false, rx_gone)

  abbrev pub oneshot_recv_spec : Slot M → RecvReply M × Slot M
  oneshot_recv_spec unsent = (empty, unsent)
  oneshot_recv_spec (holds m) = (item m, rx_gone)
  oneshot_recv_spec tx_gone = (disconnected, tx_gone)
  oneshot_recv_spec rx_gone = (disconnected, rx_gone)

pub record Oneshot (M : Type 0) : Type 1 where
  pub O : Type 0
  pub view : O → Slot M
  pub send : M → O → Bool × O
  pub recv : O → RecvReply M × O
  pub drop_rx : O → O
  pub is_closed_tx : O → Bool
  pub send_reply : (m : M) (o : O) → (send m o).0 ≡ (oneshot_send_spec m (view o)).0
  pub send_view : (m : M) (o : O) → view (send m o).1 ≡ (oneshot_send_spec m (view o)).1
  pub recv_reply : (o : O) → (recv o).0 ≡ (oneshot_recv_spec (view o)).0
  pub recv_view : (o : O) → view (recv o).1 ≡ (oneshot_recv_spec (view o)).1
  pub drop_rx_view : (o : O) → view (drop_rx o) ≡ rx_gone
