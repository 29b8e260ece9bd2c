-- ===== src/Logger/Worker.antt =====
-- The worker of src/logger/mod.rs, which takes events from the logger's channel to the log files.
--
-- A command comes with what its environment answers: the time that `gen_path` reads, and whether the
-- channel is empty when the worker asks. The reference to `LOGGER_STATE` is its content.
use atoman_rs.Prelude.{
  ℕ, ◌+◌, ◌*◌, Bool, false, not, ◌||◌, Option, none, some, List, [], ◌∷◌, ◌++◌, length, ltb, Text,
  is_empty, ◌==◌, if◌then◌else◌,
}
use atoman_rs.Logger.{Level, error, warn, info, debug, trace, LoggerState}
use atoman_rs.State.Update.{through_guard}
use atoman_rs.Logger.Disk.{Clock, Disk}

abbrev pub space : Text
space = b' ' ∷ []

-- `{:<5}` of a level.
abbrev pub padded : Level → Text
padded error = b'E' ∷ b'R' ∷ b'R' ∷ b'O' ∷ b'R' ∷ []
padded warn = b'W' ∷ b'A' ∷ b'R' ∷ b'N' ∷ b' ' ∷ []
padded info = b'I' ∷ b'N' ∷ b'F' ∷ b'O' ∷ b' ' ∷ []
padded debug = b'D' ∷ b'E' ∷ b'B' ∷ b'U' ∷ b'G' ∷ []
padded trace = b'T' ∷ b'R' ∷ b'A' ∷ b'C' ∷ b'E' ∷ []

abbrev pub spans_of : Option Text → Text
spans_of none = []
spans_of (some s) = s

module _ (K : Clock) (S : Disk) where
  open K use {Time, seconds, day, to_second, to_microsecond}
  open S use {D, FilePath, parent, join, open_append, write_all, flush}

  pub record RawLogEvent : Type 0 where
    pub level : Level
    pub timestamp : Time
    pub spans : Option Text
    pub message : Text

  -- `now` is the time of `gen_path`, `drained` the answer of `rx.is_empty()`.
  pub data LogCmd : Type 0 where
    log : RawLogEvent → (now : Time) → (drained : Bool) → LogCmd
    flush_now : LogCmd

  -- The worker's variables, `LOGGER_STATE`, the files, and the number of answered flushes. A writer
  -- is the path of its file.
  pub record World : Type 0 where
    pub file : Option FilePath
    pub buffer : Text
    pub date : Option ℕ
    pub datetime : Text
    pub timestamp_sec : ℕ
    pub state : LoggerState FilePath
    pub disk : D
    pub answered : ℕ

  -- The process id `pid` is a text.
  unfoldable pub gen_path : Text → FilePath → Time → FilePath
  gen_path pid dir now =
      join dir (to_microsecond now ++ (b'_' ∷ pid) ++ b'.' ∷ b'l' ∷ b'o' ∷ b'g' ∷ [])

  unfoldable pub cache_datetime : Time → World → World
  cache_datetime t w =
      if not (seconds t == w.timestamp_sec)
      then record w { datetime = to_second t; timestamp_sec = seconds t }
      else w

  unfoldable pub open_file : FilePath → World → World
  open_file p w =
      let (opened, d) = open_append p w.disk in
      elim w.file [
        | none ↦ record w { file = if opened then some p else none; disk = d }
        | some f ↦ w
      ]

  -- What is in the buffer goes to the file, then the buffer is cleared. An error is dropped.
  unfoldable pub write_buffer : FilePath → World → World
  write_buffer f w =
      let (done, d) = write_all f w.buffer w.disk in
      record w { buffer = []; disk = if done then (flush f d).1 else d }

  -- The old writer, taken out at the end of a day.
  unfoldable pub close_writer : Option FilePath → World → World
  close_writer none w = w
  close_writer (some f) w =
      let d = if not (is_empty w.buffer) then (write_all f w.buffer w.disk).1 else w.disk in
      record w { file = none; buffer = []; disk = (flush f d).1 }

  unfoldable pub close_old : World → World
  unfolding close_writer
  close_old w = close_writer w.file w

  unfoldable pub open_new : Text → FilePath → Time → Time → World → World
  unfolding gen_path through_guard
  open_new pid dir today now w =
      let new_path = gen_path pid dir now in
      let (opened, d) = open_append new_path w.disk in
      record w {
        file = if opened then some new_path else w.file;
        date = if opened then some (day today) else w.date;
        disk = d;
        state =
            through_guard (λ (s : LoggerState FilePath). record s { path = some new_path }) w.state;
      }

  abbrev pub is_today : Time → World → Bool
  is_today t w = elim w.date [ none ↦ false | some d ↦ d == day t ]

  unfoldable pub roll : Text → Option FilePath → Time → Time → World → World
  unfolding open_new
  roll pid none t now w = w
  roll pid (some parent_dir) t now w = open_new pid parent_dir t now w

  unfoldable pub change_day : Text → FilePath → Time → Time → World → World
  unfolding close_old roll
  change_day pid current_path t now w =
      if not (is_today t w) then roll pid (parent current_path) t now (close_old w) else w

  unfoldable pub put_event : RawLogEvent → World → World
  put_event e w =
      let b₁ : Text = ((w.buffer ++ w.datetime) ++ space) ++ padded e.level ++ space in
      let b₂ : Text = elim e.spans [ none ↦ b₁ | some s ↦ b₁ ++ s ] in
      record w { buffer = (b₂ ++ e.message) ++ b'\n' ∷ [] }

  unfoldable pub append_writer : Option FilePath → RawLogEvent → Bool → World → World
  unfolding put_event write_buffer
  append_writer none e drained w = w
  append_writer (some f) e drained w =
      let w' = put_event e w in
      if drained || ltb (48 * 1024) (length w'.buffer) then write_buffer f w' else w'

  unfoldable pub append_event : RawLogEvent → Bool → World → World
  unfolding append_writer
  append_event e drained w = append_writer w.file e drained w

  -- With the path of the log file, if there is one.
  unfoldable pub to_path : Text → RawLogEvent → Time → Bool → Option FilePath → World → World
  unfolding open_file change_day append_event
  to_path pid e now drained none w = w
  to_path pid e now drained (some current_path) w =
      append_event e drained
        (change_day pid current_path e.timestamp now (open_file current_path w))

  unfoldable pub on_log : Text → RawLogEvent → Time → Bool → World → World
  unfolding cache_datetime to_path
  on_log pid e now drained w =
      let w₁ = cache_datetime e.timestamp w in to_path pid e now drained w₁.state.path w₁

  unfoldable pub flush_writer : Option FilePath → World → World
  unfolding write_buffer
  flush_writer none w = w
  flush_writer (some f) w =
      if not (is_empty w.buffer) then write_buffer f w else record w { disk = (flush f w.disk).1 }

  unfoldable pub on_flush : World → World
  unfolding flush_writer
  on_flush w = let w' = flush_writer w.file w in record w' { answered = w'.answered + 1 }

  unfoldable pub step : Text → LogCmd → World → World
  unfolding on_log on_flush
  step pid (log e now drained) w = on_log pid e now drained w
  step pid flush_now w = on_flush w

  -- The loop, until the channel is closed.
  unfoldable pub worker : Text → List LogCmd → World → World
  unfolding step
  worker pid [] w = w
  worker pid (c ∷ cs) w = worker pid cs (step pid c w)
