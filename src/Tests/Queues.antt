-- ===== src/Tests/Queues.antt =====
-- A channel of tokio that does what is documented, as a list with its capacity (src/channel/).
use atoman_rs.Prelude.{refl, false}
use atoman_rs.Channel.Queue
use atoman_rs.Channel.Queue.{Mpsc, try_send_spec, send_spec, recv_spec}

abbrev pub queue_of : (T : Type 0) → Mpsc T
queue_of T = record {
  C = Queue.Queue T;
  view = λ q. q;
  try_send = try_send_spec;
  send = send_spec;
  recv = recv_spec;
  is_closed_tx = λ q. false;
  is_closed_rx = λ q. false;
  try_send_reply = λ m q. refl;
  try_send_view = λ m q. refl;
  send_reply = λ m q. refl;
  send_view = λ m q. refl;
  recv_reply = λ q. refl;
  recv_view = λ q. refl;
}
