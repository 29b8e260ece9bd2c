-- ===== src/Logger/Session.antt =====
-- The tasks of a program that log, and the worker of src/logger/mod.rs, over the channel between them.
--
-- A step is one access of the channel: an event of any task, the sending of a flush, or a command that the
-- worker takes and deals with. What the worker is told of the time and of an empty channel is left open.
pub mod Order
pub mod Drained
use atoman_rs.Prelude.{
  ℕ, ◌≤◌, ◌≡◌, refl, ap, sym, ◌∙◌, subst, Bool, true, false, ◌&&◌, Option, none, some, List, [],
  ◌∷◌, ◌++◌, map, length, length-append, ltb→lt, Text, arith, if◌then◌else◌, Bool-cases, inl, inr,
  ltb,
}
use mathlib.Core.List.{append_assoc, append-nil, map-append}
use atoman_rs.Channel.Queue.{
  Mpsc, Queue, SendReply, sent, full, closed, waits, RecvReply, item, empty, disconnected,
  try_send_spec, send_spec, recv_spec, has_room, push,
}
use atoman_rs.Channel.Sends.{put_in}
use atoman_rs.Logger.{Level}
use atoman_rs.Logger.Disk.{Clock, Disk}
use atoman_rs.Logger.Layer.{Field, Span}
use atoman_rs.Logger.Worker.{LogCmd, log, flush_now, World, step, worker}
use atoman_rs.Logger.Client.{
  Queued, event, flush_mark, Flushing, returned, waits_room, waits_signal, on_flush_sent,
  make_event, on_event, flush,
}

module _ (K : Clock) (S : Disk) where
  open K use {Time}

  -- A command that the worker has taken, with what it is told meanwhile.
  abbrev pub taken_as : Queued K S → Time → Bool → LogCmd K S
  taken_as (event e) now drained = log e now drained
  taken_as flush_mark now drained = flush_now

  -- Without that.
  abbrev pub as_queued : LogCmd K S → Queued K S
  as_queued (log e now drained) = event e
  as_queued flush_now = flush_mark

  abbrev pub put_mark : Flushing K S → List (Queued K S)
  put_mark returned = []
  put_mark waits_room = []
  put_mark waits_signal = flush_mark ∷ []

  module _ (B : Mpsc (Queued K S)) where
    -- `taken` and `accepted` are only recorded: the commands that the worker has dealt with, and those that
    -- went into the channel.
    pub record Session : Type 0 where
      pub chan : Mpsc.C B
      pub world : World K S
      pub taken : List (LogCmd K S)
      pub accepted : List (Queued K S)

    pub data Step (pid : Text) (s : Session) : Session → Type 0 where
      emits :
          (level : Level) (t : Time) (scope : Option (List Span)) (fields : List Field)
          {reply : SendReply} {c : Mpsc.C B}
          → on_event K S B level t scope fields s.chan ≡ (reply, c)
          → Step pid s (record s {
            chan = c;
            accepted = s.accepted ++ put_in (event (make_event K S level t scope fields)) reply;
          })
      asks :
          {f : Flushing K S} {c : Mpsc.C B}
          → flush K S B s.world.state.tx s.chan ≡ (f, c)
          → Step pid s (record s { chan = c; accepted = s.accepted ++ put_mark f })
      works :
          (now : Time) (drained : Bool) {m : Queued K S} {c : Mpsc.C B}
          → Mpsc.recv B s.chan ≡ (item m, c)
          → Step pid s (record {
            chan = c;
            world = step K S pid (taken_as m now drained) s.world;
            taken = s.taken ++ taken_as m now drained ∷ [];
            accepted = s.accepted;
          })

    -- From a channel with nothing in it and the worker at its start.
    abbrev pub start : Mpsc.C B → World K S → Session
    start c w = record { chan = c; world = w; taken = []; accepted = [] }

    pub data Reach (pid : Text) (s : Session) : Session → Type 0 where
      here : Reach pid s s
      next : {t u : Session} → Reach pid s t → Step pid t u → Reach pid s u

    abbrev pub items_of : Session → List (Queued K S)
    items_of s = (Mpsc.view B s.chan).items
