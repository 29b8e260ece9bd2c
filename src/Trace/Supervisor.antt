-- ===== src/Trace/Supervisor.antt =====
-- `MultiTrace` (src/trace/mod.rs): the tasks that watch sources, the channel on which they send, and the calls
-- of its owner.
--
-- A task's step is one access of what it shares with others: it looks for the latest file, or reads one line
-- and deals with it, or meets the end of the lines and flushes its buffer. Other tasks and the owner may
-- come between two of its steps; the sleep between two turns is one such moment.
pub mod Flow
pub mod Filtered
pub mod Turns
use atoman_rs.Prelude.{
  ℕ, ◌≡◌, Bool, true, false, Option, none, some, List, [], ◌∷◌, ◌++◌, map, Text, is_empty,
}
use atoman_rs.Channel.Queue.{Mpsc, RecvReply, item, empty, disconnected}
use atoman_rs.Trace.{Regexes, Lines, LogRecord, FilterEngine, on_line, flush_buffer, trim_end}
use atoman_rs.Trace.Watch.{SourceConfig, Watch, choose_file}

module _ (X : Regexes) (F : Lines) where
  open X use {Regex}
  open F use {R, FilePath, read_line}

  -- A task of `watch_source`, and whether it is in the loop over lines.
  pub record Task : Type 0 where
    pub config : SourceConfig X F
    pub watch : Watch X F
    pub reading : Bool

  unfoldable pub spawned : SourceConfig X F → Task
  spawned config = record {
    config = config;
    watch = record { current_file = none; reader = none; multiline_buf = [] };
    reading = false;
  }

  -- Whether there is a reader whose lines are processed.
  unfoldable pub has_reader : Watch X F → Bool
  has_reader w = elim w.reader [ none ↦ false | some r ↦ true ]

  -- A step of a task with the filters of that moment, the records that it sends, and the task afterwards.
  pub data Act (only_new : Bool) (filters : FilterEngine X) (task : Task)
      : List LogRecord → Task → Type 0 where
    looks :
        (latest : Option FilePath) {w : Watch X F}
        → task.reading ≡ false
        → choose_file X F only_new latest task.watch ≡ w
        → Act only_new filters task [] (record task { watch = w; reading = has_reader w })
    reads :
        {r r' : R} {line buf : Text} {sent : List LogRecord}
        → task.reading ≡ true
        → task.watch.reader ≡ some r
        → read_line r ≡ (line, r')
        → is_empty line ≡ false
        → on_line X task.config.entry_start_pattern filters task.config.name
            task.watch.multiline_buf
            (trim_end line)
          ≡ (sent, buf)
        → Act only_new filters task sent
            (record task { watch = record task.watch { reader = some r'; multiline_buf = buf } })
    ends :
        {r r' : R} {line : Text} {sent : List LogRecord}
        → task.reading ≡ true
        → task.watch.reader ≡ some r
        → read_line r ≡ (line, r')
        → is_empty line ≡ true
        → flush_buffer X filters task.config.name task.watch.multiline_buf ≡ sent
        → Act only_new filters task sent (record task {
          watch = record task.watch { reader = some r'; multiline_buf = [] };
          reading = false;
        })

  module _ (B : Mpsc LogRecord) where
    -- `sent` and `printed` are only recorded: what the tasks have put into the channel, and what its owner has
    -- taken out to print.
    pub record MultiTrace : Type 0 where
      pub chan : Mpsc.C B
      pub filters : FilterEngine X
      pub handles : List Task
      pub sent : List LogRecord
      pub printed : List LogRecord

    -- The channel is a new one.
    unfoldable pub start : List (SourceConfig X F) → FilterEngine X → Mpsc.C B → MultiTrace
    unfolding spawned
    start sources filters chan = record {
      chan = chan;
      filters = filters;
      handles = map spawned sources;
      sent = [];
      printed = [];
    }

    unfoldable pub update_filters : FilterEngine X → MultiTrace → MultiTrace
    update_filters new_filters m = record m { filters = new_filters }

    -- `let _ = tx.send(…)` for each record.
    unfoldable pub send_records : List LogRecord → Mpsc.C B → Mpsc.C B
    send_records [] c = c
    send_records (r ∷ rs) c = send_records rs (Mpsc.try_send B r c).1

    unfoldable pub on_received : RecvReply LogRecord → List LogRecord
    on_received (item record_) = record_ ∷ []
    on_received empty = []
    on_received disconnected = []

    unfoldable pub recv_and_print : MultiTrace → MultiTrace
    unfolding on_received
    recv_and_print m =
        let r = Mpsc.recv B m.chan in
        record m { chan = r.1; printed = m.printed ++ on_received r.0 }

    -- A step of some task, or a call of `recv_and_print`.
    pub data Step (only_new : Bool) (m : MultiTrace) : MultiTrace → Type 0 where
      acts :
          (front back : List Task) {task task' : Task} {sent : List LogRecord}
          → m.handles ≡ front ++ task ∷ back
          → Act only_new m.filters task sent task'
          → Step only_new m (record m {
            chan = send_records sent m.chan;
            handles = front ++ task' ∷ back;
            sent = m.sent ++ sent;
          })
      prints : Step only_new m (recv_and_print m)

    -- Steps while nobody replaces the filters, and with that.
    pub data Runs (only_new : Bool) (m : MultiTrace) : MultiTrace → Type 0 where
      here : Runs only_new m m
      next : {n k : MultiTrace} → Runs only_new m n → Step only_new n k → Runs only_new m k

    pub data Reach (only_new : Bool) (m : MultiTrace) : MultiTrace → Type 0 where
      begin : Reach only_new m m
      steps : {n k : MultiTrace} → Reach only_new m n → Step only_new n k → Reach only_new m k
      updates :
          (filters : FilterEngine X) {n : MultiTrace}
          → Reach only_new m n
          → Reach only_new m (update_filters filters n)
