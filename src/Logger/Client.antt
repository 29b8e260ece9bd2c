-- ===== src/Logger/Client.antt =====
-- What the program's tasks do with the logger of src/logger/mod.rs: `on_event` of the layer and `flush`.
--
-- The channel to the worker is tokio's, as Channel/Queue has it.
use atoman_rs.Prelude.{Bool, true, false, Option, List, []}
use atoman_rs.Channel.Queue.{Mpsc, SendReply, sent, full, closed, waits}
use atoman_rs.Logger.{Level}
use atoman_rs.Logger.Disk.{Clock, Disk}
use atoman_rs.Logger.Layer.{Field, Span, span_context, record_message}
use atoman_rs.Logger.Worker.{RawLogEvent}

module _ (K : Clock) (S : Disk) where
  open K use {Time}

  -- A command as it stands in the channel.
  pub data Queued : Type 0 where
    event : RawLogEvent K S → Queued
    flush_mark : Queued

  unfoldable pub make_event : Level → Time → Option (List Span) → List Field → RawLogEvent K S
  unfolding span_context record_message
  make_event level timestamp scope fields = record {
    level = level;
    timestamp = timestamp;
    spans = span_context scope;
    message = record_message fields [];
  }

  -- What the future of `flush` does once it is polled: it is over, it waits for room in the channel, or the
  -- command is sent and it waits for the worker's signal.
  pub data Flushing : Type 0 where
    returned waits_room waits_signal : Flushing

  unfoldable pub on_flush_sent : SendReply → Flushing
  on_flush_sent sent = waits_signal
  on_flush_sent full = waits_room
  on_flush_sent closed = returned
  on_flush_sent waits = waits_room

  module _ (B : Mpsc Queued) where
    -- The answer is dropped: an event that finds no room is lost.
    unfoldable pub on_event :
        Level → Time → Option (List Span) → List Field → Mpsc.C B → SendReply × Mpsc.C B
    unfolding make_event
    on_event level timestamp scope fields c =
        Mpsc.try_send B (event (make_event level timestamp scope fields)) c

    -- `tx` says whether the logger's state has a sender.
    unfoldable pub flush : Bool → Mpsc.C B → Flushing × Mpsc.C B
    unfolding on_flush_sent
    flush false c = (returned, c)
    flush true c = let r = Mpsc.send B flush_mark c in (on_flush_sent r.0, r.1)
