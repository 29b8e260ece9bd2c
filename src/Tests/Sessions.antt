-- ===== src/Tests/Sessions.antt =====
-- Runs of a program's tasks and the logger's worker at concrete inputs (src/logger/mod.rs).
use atoman_rs.Prelude.{
  ◌+◌, ◌≡◌, ◌<◌, refl, true, false, none, some, List, [], ◌∷◌, ◌++◌, Text, arith,
}
use atoman_rs.Channel.Queue
use atoman_rs.Channel.Queue.{Mpsc, try_send_spec, send_spec, recv_spec}
use atoman_rs.Logger.{warn}
use atoman_rs.Logger.Stages.{sent}
use atoman_rs.Logger.Client.{Queued, event, flush_mark, make_event, on_event, flush, on_flush_sent}
use atoman_rs.Logger.Worker.{put_event, RawLogEvent, log, flush_now, step}
use atoman_rs.Logger.Session.{Session, emits, asks, works, Reach, here, next, start}
use atoman_rs.Logger.Session.Order.{IsInOrder, session-IsInOrder}
use atoman_rs.Logger.Session.Drained.{Emptied, marks, worker_answers_all}
use atoman_rs.Logger.Console.{shown, console_line, console_line-put_event}
use atoman_rs.Logger.Durable.{Kept, EventsAreLate, answered_flush}
use atoman_rs.Tests.Loggers.{clock, disk, world, reliable, bounded, ready}
use atoman_rs.Tests.Queues.{queue_of}

abbrev queue : Mpsc (Queued clock disk)
queue = queue_of (Queued clock disk)

abbrev room : List (Queued clock disk) → Queue.Queue (Queued clock disk)
room items = record { items = items; capacity = some 5; open_rx = true; open_tx = true }

abbrev first_raw : RawLogEvent clock disk
first_raw = make_event clock disk warn 50 none ((b'k' ∷ [], b'1' ∷ []) ∷ [])

abbrev second_raw : RawLogEvent clock disk
second_raw = make_event clock disk warn 60 none []

abbrev pid : Text
pid = b'1' ∷ []

-- An event, a flush, another event; then the worker takes two commands.
abbrev five : Session clock disk queue
five = record {
  chan = room (event second_raw ∷ []);
  world = step clock disk pid flush_now (step clock disk pid (log first_raw 50 false) world);
  taken = log first_raw 50 false ∷ flush_now ∷ [];
  accepted = event first_raw ∷ flush_mark ∷ event second_raw ∷ [];
}

reached : Reach clock disk queue pid (start clock disk queue (room []) world) five
unfolding on_event flush on_flush_sent
reached =
    next
      (next
        (next (next (next here (emits warn 50 none ((b'k' ∷ [], b'1' ∷ []) ∷ []) refl)) (asks refl))
          (emits warn 60 none [] refl))
        (works 50 false refl))
      (works 60 true refl)

answered : 1 ≡ five.world.answered
unfolding step make_event
answered = refl

session-IsInOrder_example : IsInOrder clock disk queue pid 5 world five
session-IsInOrder_example =
    session-IsInOrder clock disk queue pid 5 world (room []) refl refl reached

late : EventsAreLate clock disk (event first_raw ∷ [])
unfolding make_event
late = (omega arith, tt)

late_second : EventsAreLate clock disk (event second_raw ∷ [])
unfolding make_event
late_second = (omega arith, tt)

has_answered : 0 + 0 < five.world.answered
has_answered = omega (arith, answered)

answered_flush_example :
    Kept clock disk five.world
      (sent clock disk world)
      (event first_raw ∷ [])
      (event second_raw ∷ [])
answered_flush_example =
    answered_flush clock disk reliable pid (refl, tt) world ready bounded refl queue 5 (room [])
      (event first_raw ∷ []) (event second_raw ∷ []) refl refl reached refl late late_second
      has_answered

worker_answers_all_example :
    (u : Session clock disk queue) × Emptied clock disk queue pid five u
    × (u.world.answered ≡ 0 + marks clock disk five.accepted)
worker_answers_all_example =
    worker_answers_all clock disk queue pid 70 true 5 world (room []) refl refl reached

console_line-put_event_example :
    (put_event clock disk first_raw world).buffer
    ≡ world.buffer ++ shown (console_line clock disk (λ t. true) world.datetime first_raw)
console_line-put_event_example = console_line-put_event clock disk (λ t. true) first_raw world
