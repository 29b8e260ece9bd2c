-- ===== src/Tests/Supervisors.antt =====
-- A run of a `MultiTrace` with one source at concrete inputs (src/trace/mod.rs).
use atoman_rs.Prelude.{Text, ℕ, ◌≡◌, Bool, refl, true, false, none, some, List, [], ◌∷◌}
use atoman_rs.Channel.Queue
use atoman_rs.Channel.Queue.{Mpsc, try_send_spec, send_spec, recv_spec}
use atoman_rs.Trace.{
  Lines, LogRecord, FilterEngine, new, matches, contains, on_line, flush_buffer, trim_end,
}
use atoman_rs.Trace.Watch.{SourceConfig, choose_file}
use atoman_rs.Trace.Supervisor.{
  Task, looks, reads, ends, MultiTrace, start, update_filters, send_records, recv_and_print,
  spawned, has_reader, acts, prints, Runs, here, next, Reach, begin, steps,
}
use atoman_rs.Trace.Supervisor.Filtered.{IsTraced, OnlyPassing, update_filters-OnlyPassing}
use atoman_rs.File.Window.{starts_with}
use atoman_rs.Tests.Traces.{literals, lines, engine}
use atoman_rs.Tests.Queues.{queue_of}

abbrev queue : Mpsc LogRecord
queue = queue_of LogRecord

abbrev fresh : Queue.Queue LogRecord
fresh = record { items = []; capacity = none; open_rx = true; open_tx = true }

abbrev left : List (ℕ × Text)
left = (73, 97 ∷ 61 ∷ 50 ∷ []) ∷ []

-- The file has the lines "Ia=1" and "Ia=2".
abbrev stocked : Lines
stocked = record lines { open_file = λ p. some ((73, 97 ∷ 61 ∷ 49 ∷ 10 ∷ []) ∷ left) }

abbrev source : SourceConfig literals stocked
source = record { name = 115 ∷ []; entry_start_pattern = 73 ∷ [] }

abbrev no_filters : FilterEngine literals
no_filters = new literals [] []

abbrev task : List (ℕ × Text) → Text → Bool → Task literals stocked
task unread buf reading = record {
  config = source;
  watch = record { current_file = some 0; reader = some unread; multiline_buf = buf };
  reading = reading;
}

-- One line is read.
abbrev before : MultiTrace literals stocked queue
before = record {
  chan = fresh;
  filters = no_filters;
  handles = task left (73 ∷ 97 ∷ 61 ∷ 49 ∷ []) true ∷ [];
  sent = [];
  printed = [];
}

abbrev first_record : LogRecord
first_record = record { source = 115 ∷ []; content = 73 ∷ 97 ∷ 61 ∷ 49 ∷ [] }

-- With the filters of `engine`, the second line is read, the end is met, and the owner prints.
abbrev after : MultiTrace literals stocked queue
after = record {
  chan = fresh;
  filters = engine;
  handles = task [] [] false ∷ [];
  sent = first_record ∷ [];
  printed = first_record ∷ [];
}

reached :
    Reach literals stocked queue false
      (start literals stocked queue (source ∷ []) no_filters fresh)
      before
unfolding start spawned choose_file has_reader on_line flush_buffer trim_end starts_with
    send_records
reached =
    steps (steps begin (acts [] [] refl (looks (some 0) refl refl)))
      (acts [] [] refl (reads refl refl refl refl refl))

ran : Runs literals stocked queue false (update_filters literals stocked queue engine before) after
unfolding update_filters recv_and_print on_line flush_buffer trim_end starts_with matches new
    contains send_records
ran =
    next
      (next (next here (acts [] [] refl (reads refl refl refl refl refl)))
        (acts [] [] refl (ends refl refl refl refl refl)))
      prints

update_filters-OnlyPassing_example :
    IsTraced literals stocked queue false (source ∷ []) after
    × OnlyPassing literals stocked queue false
        (source ∷ [])
        (update_filters literals stocked queue engine before)
        after
    × (after.filters ≡ engine)
update_filters-OnlyPassing_example =
    update_filters-OnlyPassing literals stocked queue false (source ∷ []) no_filters engine fresh
      refl refl refl reached ran
