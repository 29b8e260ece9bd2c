-- ===== src/Logger/Answers.antt =====
-- That the worker of src/logger/mod.rs answers every flush.
use atoman_rs.Prelude.{
  ℕ, suc, ◌+◌, ◌*◌, ◌≡◌, ◌∙◌, refl, ap, Bool, true, false, not, ◌||◌, Option, none, some, List, [],
  ◌∷◌, length, ltb, Text, is_empty, ◌==◌, if◌then◌else◌, arith,
}
use atoman_rs.Logger.Disk.{Clock, Disk}
use atoman_rs.Logger.Worker.{
  RawLogEvent, LogCmd, log, flush_now, World, cache_datetime, open_file, write_buffer, close_writer,
  close_old, open_new, is_today, roll, change_day, put_event, append_writer, append_event, to_path,
  on_log, flush_writer, on_flush, step, worker,
}

module _ (K : Clock) (S : Disk) where
  open K use {Time}
  open S use {FilePath}

  -- How many of the commands are flushes.
  abbrev pub flushes : List (LogCmd K S) → ℕ
  flushes [] = 0
  flushes (log e now drained ∷ cs) = flushes cs
  flushes (flush_now ∷ cs) = suc (flushes cs)

  if-answered :
      (b : Bool) (w w' : World K S) {n : ℕ}
      → w.answered ≡ n
      → w'.answered ≡ n
      → (if b then w else w').answered ≡ n
  if-answered true w w' h k = h
  if-answered false w w' h k = k

  open_file-answered : (p : FilePath) (w : World K S) → (open_file K S p w).answered ≡ w.answered
  unfolding open_file
  open_file-answered p w = at w.file
    where
      at :
          (o : Option FilePath)
          → (elim o as (λ o. World K S) [
            | none ↦ record w {
              file = if (Disk.open_append S p w.disk).0 then some p else none;
              disk = (Disk.open_append S p w.disk).1;
            }
            | some f ↦ w
          ]).answered
            ≡ w.answered
      at none = refl
      at (some f) = refl

  close_writer-answered :
      (o : Option FilePath) (w : World K S) → (close_writer K S o w).answered ≡ w.answered
  unfolding close_writer
  close_writer-answered none w = refl
  close_writer-answered (some f) w = refl

  roll-answered :
      (pid : Text) (o : Option FilePath) (t now : Time) (w : World K S)
      → (roll K S pid o t now w).answered ≡ w.answered
  unfolding roll open_new
  roll-answered pid none t now w = refl
  roll-answered pid (some d) t now w = refl

  change_day-answered :
      (pid : Text) (p : FilePath) (t now : Time) (w : World K S)
      → (change_day K S pid p t now w).answered ≡ w.answered
  unfolding change_day close_old
  change_day-answered pid p t now w =
      if-answered (not (is_today K S t w)) (roll K S pid (Disk.parent S p) t now (close_old K S w))
        w
        (roll-answered pid (Disk.parent S p) t now (close_old K S w)
          ∙ close_writer-answered w.file w)
        refl

  append_writer-answered :
      (o : Option FilePath) (e : RawLogEvent K S) (drained : Bool) (w : World K S)
      → (append_writer K S o e drained w).answered ≡ w.answered
  unfolding append_writer write_buffer put_event
  append_writer-answered none e drained w = refl
  append_writer-answered (some f) e drained w =
      if-answered (drained || ltb (48 * 1024) (length (put_event K S e w).buffer))
        (write_buffer K S f (put_event K S e w)) (put_event K S e w) refl refl

  to_path-answered :
      (pid : Text) (e : RawLogEvent K S) (now : Time) (drained : Bool) (o : Option FilePath)
      (w : World K S)
      → (to_path K S pid e now drained o w).answered ≡ w.answered
  unfolding to_path append_event
  to_path-answered pid e now drained none w = refl
  to_path-answered pid e now drained (some p) w =
      let w₁ = open_file K S p w in
      let w₂ = change_day K S pid p e.timestamp now w₁ in
      append_writer-answered w₂.file e drained w₂
      ∙ change_day-answered pid p e.timestamp now w₁
      ∙ open_file-answered p w

  flush_writer-answered :
      (o : Option FilePath) (w : World K S) → (flush_writer K S o w).answered ≡ w.answered
  unfolding flush_writer write_buffer
  flush_writer-answered none w = refl
  flush_writer-answered (some f) w =
      if-answered (not (is_empty w.buffer)) (write_buffer K S f w)
        (record w { disk = (Disk.flush S f w.disk).1 }) refl refl

  on_log-answered :
      (pid : Text) (e : RawLogEvent K S) (now : Time) (drained : Bool) (w : World K S)
      → (on_log K S pid e now drained w).answered ≡ w.answered
  unfolding on_log cache_datetime
  on_log-answered pid e now drained w =
      let w₁ = cache_datetime K S e.timestamp w in
      to_path-answered pid e now drained w₁.state.path w₁
      ∙ if-answered (not (Clock.seconds K e.timestamp == w.timestamp_sec))
          (record w {
            datetime = Clock.to_second K e.timestamp;
            timestamp_sec = Clock.seconds K e.timestamp;
          })
          w refl refl

  -- Whatever fails, the worker answers as many flushes as there are among the commands.
  pub worker-answered :
      (pid : Text) (cs : List (LogCmd K S)) (w : World K S)
      → (worker K S pid cs w).answered ≡ w.answered + flushes cs
  unfolding worker step on_flush
  worker-answered pid [] w = omega arith
  worker-answered pid (log e now drained ∷ cs) w =
      worker-answered pid cs (on_log K S pid e now drained w)
      ∙ ap (λ n. n + flushes cs) (on_log-answered pid e now drained w)
  worker-answered pid (flush_now ∷ cs) w =
      worker-answered pid cs (on_flush K S w)
      ∙ ap (λ n. n + 1 + flushes cs) (flush_writer-answered w.file w)
      ∙ omega arith
