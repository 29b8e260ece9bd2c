-- ===== src/Logger/Bounds.antt =====
-- What the worker of src/logger/mod.rs keeps in its buffer.
use atoman_rs.Prelude.{◌*◌, ◌≤◌, ◌≡◌, arith, Bool, Option, none, some, List, [], ◌∷◌, length, Text}
use atoman_rs.Logger.Disk.{Clock, Disk}
use atoman_rs.Logger.Worker.{
  RawLogEvent, LogCmd, log, flush_now, World, cache_datetime, open_file, write_buffer, close_old,
  open_new, change_day, append_event, to_path, on_log, on_flush, step, worker,
}

module _ (K : Clock) (S : Disk) where
  -- Without a file the buffer is empty, and with one it holds at most 48 KiB.
  pub record IsBounded (w : World K S) : Type 0 where
    pub closed : w.file ≡ none → w.buffer ≡ []
    pub small : length w.buffer ≤ 48 * 1024

  cache_datetime-IsBounded :
      (t : Clock.Time K) (w : World K S) → IsBounded w → IsBounded (cache_datetime K S t w)
  unfolding cache_datetime
  cache_datetime-IsBounded t w b = ground arith

  open_file-IsBounded :
      (p : Disk.FilePath S) (w : World K S) → IsBounded w → IsBounded (open_file K S p w)
  unfolding open_file
  open_file-IsBounded p w b = ground arith

  change_day-IsBounded :
      (pid : Text) (p : Disk.FilePath S) (t now : Clock.Time K) (w : World K S)
      → IsBounded w
      → IsBounded (change_day K S pid p t now w)
  unfolding change_day close_old open_new
  change_day-IsBounded pid p t now w b = ground arith

  append_event-IsBounded :
      (e : RawLogEvent K S) (drained : Bool) (w : World K S)
      → IsBounded w
      → IsBounded (append_event K S e drained w)
  unfolding append_event write_buffer
  append_event-IsBounded e drained w b = ground arith

  to_path-IsBounded :
      (pid : Text) (e : RawLogEvent K S) (now : Clock.Time K) (drained : Bool)
      (o : Option (Disk.FilePath S)) (w : World K S)
      → IsBounded w
      → IsBounded (to_path K S pid e now drained o w)
  unfolding to_path
  to_path-IsBounded pid e now drained none w b = b
  to_path-IsBounded pid e now drained (some p) w b =
      append_event-IsBounded e drained _
        (change_day-IsBounded pid p e.timestamp now _ (open_file-IsBounded p w b))

  step-IsBounded :
      (pid : Text) (c : LogCmd K S) (w : World K S) → IsBounded w → IsBounded (step K S pid c w)
  unfolding step on_log on_flush write_buffer
  step-IsBounded pid (log e now drained) w b =
      let w₁ = cache_datetime K S e.timestamp w in
      to_path-IsBounded pid e now drained w₁.state.path w₁
        (cache_datetime-IsBounded e.timestamp w b)
  step-IsBounded pid flush_now w b = ground arith

  -- Whatever fails, and whatever commands come: a worker without a file has an empty buffer, and one
  -- with a file has at most 48 KiB in it, if that was so at the start.
  pub worker-IsBounded :
      (pid : Text) (cs : List (LogCmd K S)) (w : World K S)
      → IsBounded w
      → IsBounded (worker K S pid cs w)
  unfolding worker
  worker-IsBounded pid [] w b = b
  worker-IsBounded pid (c ∷ cs) w b =
      worker-IsBounded pid cs (step K S pid c w) (step-IsBounded pid c w b)
