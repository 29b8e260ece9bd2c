-- ===== src/Logger/Growth.antt =====
-- What the worker of src/logger/mod.rs adds to the log files, on a disk that does not fail, and that no writer
-- holds bytes between two commands.
use atoman_rs.Prelude.{
  ◌*◌, ◌≡◌, refl, ap, sym, ◌∙◌, subst, Every, Bool, true, false, not, ◌||◌, Option, none, some,
  List, [], ◌∷◌, ◌++◌, length, ltb, Text, is_empty, ◌==◌, if◌then◌else◌,
}
use mathlib.Core.List.{append_assoc, append-nil}
use atoman_rs.Logger.Disk.{Clock, Disk, IsReliable}
use atoman_rs.Logger.Worker.{
  RawLogEvent, LogCmd, log, flush_now, World, gen_path, cache_datetime, open_file, write_buffer,
  close_writer, close_old, open_new, is_today, roll, change_day, put_event, append_writer,
  append_event, to_path, on_log, flush_writer, on_flush, step, worker,
}

module _ (K : Clock) (S : Disk) (R : IsReliable S) where
  open K use {Time}
  open S use {D, FilePath, written, holders, written-open_append, written-flush, written-write_all}

  -- The pieces that writers were given are those of before and some more; if none held bytes before, none does.
  pub record Grows (d d' : D) : Type 0 where
    pub more : List (FilePath × Text)
    pub grown : written d' ≡ written d ++ more
    pub settled : holders d ≡ [] → holders d' ≡ []

  Grows-same : {d d' : D} → written d' ≡ written d → (holders d ≡ [] → holders d' ≡ []) → Grows d d'
  Grows-same {d} e settled = record {
    more = [];
    grown = e ∙ sym (append-nil (written d));
    settled = settled;
  }

  Grows-stay : {d : D} → Grows d d
  Grows-stay = Grows-same refl (λ h. h)

  Grows-open : (p : FilePath) (d : D) → Grows d (Disk.open_append S p d).1
  Grows-open p d = Grows-same (written-open_append p d) (Disk.holders-open_append S p d)

  none_other : (p : FilePath) (d : D) → holders d ≡ [] → Every (λ q. q ≡ p) (holders d)
  none_other p d e = subst (Every (λ q. q ≡ p)) (sym e) tt

  Grows-flush : (p : FilePath) (d : D) → Grows d (Disk.flush S p d).1
  Grows-flush p d =
      Grows-same (written-flush p d)
        (λ h. Disk.holders-flush S p d (R.flushes p d) (none_other p d h))

  Grows-trans : {d d' d'' : D} → Grows d d' → Grows d' d'' → Grows d d''
  Grows-trans {d} g h = record {
    more = g.more ++ h.more;
    settled = λ none_held. h.settled (g.settled none_held);
    grown = h.grown ∙ ap (λ l. l ++ h.more) g.grown ∙ append_assoc (written d) g.more h.more;
  }

  -- A write with the flush that follows it.
  Grows-write :
      (f : FilePath) (t : Text) (d : D) → Grows d (Disk.flush S f (Disk.write_all S f t d).1).1
  Grows-write f t d =
      let d' = (Disk.write_all S f t d).1 in
      record {
        more = (f, t) ∷ [];
        grown = written-flush f d' ∙ written-write_all f t d (R.writes f t d);
        settled =
            λ h. Disk.holders-flush S f d' (R.flushes f d') (Disk.holders-write_all S f t d h);
      }

  Grows-world :
      (b : Bool) {d : D} (w₁ w₂ : World K S)
      → Grows d w₁.disk
      → Grows d w₂.disk
      → Grows d (if b then w₁ else w₂).disk
  Grows-world true w₁ w₂ g h = g
  Grows-world false w₁ w₂ g h = h

  write_buffer-Grows : (f : FilePath) (w : World K S) → Grows w.disk (write_buffer K S f w).disk
  unfolding write_buffer
  write_buffer-Grows f w =
      let r = Disk.write_all S f w.buffer w.disk in
      subst (λ b. Grows w.disk (if b then (Disk.flush S f r.1).1 else r.1))
        (sym (R.writes f w.buffer w.disk)) (Grows-write f w.buffer w.disk)

  open_file-Grows : (p : FilePath) (w : World K S) → Grows w.disk (open_file K S p w).disk
  unfolding open_file
  open_file-Grows p w = at w.file
    where
      at :
          (o : Option FilePath)
          → Grows w.disk
              (elim o as (λ o. World K S) [
                | none ↦ record w {
                  file = if (Disk.open_append S p w.disk).0 then some p else none;
                  disk = (Disk.open_append S p w.disk).1;
                }
                | some f ↦ w
              ]).disk
      at none = Grows-open p w.disk
      at (some f) = Grows-stay

  close_writer-Grows :
      (o : Option FilePath) (w : World K S) → Grows w.disk (close_writer K S o w).disk
  unfolding close_writer
  close_writer-Grows none w = Grows-stay
  close_writer-Grows (some f) w = at (not (is_empty w.buffer))
    where
      at :
          (b : Bool)
          → Grows w.disk
              (Disk.flush S f (if b then (Disk.write_all S f w.buffer w.disk).1 else w.disk)).1
      at true = Grows-write f w.buffer w.disk
      at false = Grows-flush f w.disk

  roll-Grows :
      (pid : Text) (o : Option FilePath) (t now : Time) (w : World K S)
      → Grows w.disk (roll K S pid o t now w).disk
  unfolding roll open_new
  roll-Grows pid none t now w = Grows-stay
  roll-Grows pid (some d) t now w = Grows-open (gen_path K S pid d now) w.disk

  change_day-Grows :
      (pid : Text) (p : FilePath) (t now : Time) (w : World K S)
      → Grows w.disk (change_day K S pid p t now w).disk
  unfolding change_day close_old
  change_day-Grows pid p t now w =
      Grows-world (not (is_today K S t w)) (roll K S pid (Disk.parent S p) t now (close_old K S w))
        w
        (Grows-trans (close_writer-Grows w.file w)
          (roll-Grows pid (Disk.parent S p) t now (close_old K S w)))
        Grows-stay

  append_writer-Grows :
      (o : Option FilePath) (e : RawLogEvent K S) (drained : Bool) (w : World K S)
      → Grows w.disk (append_writer K S o e drained w).disk
  unfolding append_writer put_event
  append_writer-Grows none e drained w = Grows-stay
  append_writer-Grows (some f) e drained w =
      let w' = put_event K S e w in
      Grows-world (drained || ltb (48 * 1024) (length w'.buffer)) (write_buffer K S f w') w'
        (write_buffer-Grows f w') Grows-stay

  to_path-Grows :
      (pid : Text) (e : RawLogEvent K S) (now : Time) (drained : Bool) (o : Option FilePath)
      (w : World K S)
      → Grows w.disk (to_path K S pid e now drained o w).disk
  unfolding to_path append_event
  to_path-Grows pid e now drained none w = Grows-stay
  to_path-Grows pid e now drained (some p) w =
      let w₁ = open_file K S p w in
      let w₂ = change_day K S pid p e.timestamp now w₁ in
      Grows-trans (open_file-Grows p w) (
        Grows-trans (change_day-Grows pid p e.timestamp now w₁)
          (append_writer-Grows w₂.file e drained w₂))

  pub flush_writer-Grows :
      (o : Option FilePath) (w : World K S) → Grows w.disk (flush_writer K S o w).disk
  unfolding flush_writer
  flush_writer-Grows none w = Grows-stay
  flush_writer-Grows (some f) w =
      Grows-world (not (is_empty w.buffer)) (write_buffer K S f w)
        (record w { disk = (Disk.flush S f w.disk).1 }) (write_buffer-Grows f w)
        (Grows-flush f w.disk)

  on_log-Grows :
      (pid : Text) (e : RawLogEvent K S) (now : Time) (drained : Bool) (w : World K S)
      → Grows w.disk (on_log K S pid e now drained w).disk
  unfolding on_log cache_datetime
  on_log-Grows pid e now drained w =
      let w₁ = cache_datetime K S e.timestamp w in
      Grows-trans
        (Grows-world (not (Clock.seconds K e.timestamp == w.timestamp_sec))
          (record w {
            datetime = Clock.to_second K e.timestamp;
            timestamp_sec = Clock.seconds K e.timestamp;
          })
          w Grows-stay Grows-stay)
        (to_path-Grows pid e now drained w₁.state.path w₁)

  -- Whatever commands come, the pieces that files were given stay, in their order, before the new ones.
  pub worker-Grows :
      (pid : Text) (cs : List (LogCmd K S)) (w : World K S)
      → Grows w.disk (worker K S pid cs w).disk
  unfolding worker step on_flush
  worker-Grows pid [] w = Grows-stay
  worker-Grows pid (log e now drained ∷ cs) w =
      Grows-trans (on_log-Grows pid e now drained w)
        (worker-Grows pid cs (on_log K S pid e now drained w))
  worker-Grows pid (flush_now ∷ cs) w =
      Grows-trans (flush_writer-Grows w.file w) (worker-Grows pid cs (on_flush K S w))
