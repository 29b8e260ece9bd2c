-- ===== src/Logger/Delivery.antt =====
-- What the worker of src/logger/mod.rs puts into the log files, on a disk that does not fail.
use atoman_rs.Prelude.{
  ◌+◌, ◌<◌, ◌≡◌, refl, ap, sym, ◌∙◌, subst, arith, Bool, Option, none, some, List, [], ◌∷◌, ◌++◌,
  Text, is_empty, ◌==◌, Bool-cases, inl, inr, ==_iff,
}
use mathlib.Core.List.{append_assoc, append-nil}
use atoman_rs.Logger.Disk.{Clock, Disk, IsReliable, IsName}
use atoman_rs.Logger.Bounds.{IsBounded, worker-IsBounded}
use atoman_rs.Logger.Growth.{worker-Grows, flush_writer-Grows}
use atoman_rs.Logger.Worker.{
  RawLogEvent, LogCmd, log, flush_now, World, cache_datetime, open_file, write_buffer, change_day,
  append_writer, append_event, to_path, on_log, flush_writer, on_flush, step, worker,
}
use atoman_rs.Logger.Stages.{
  flat, is_empty-nil, sent, line_at, line, HasPath, HasFile, open_file-Keeps, open_file-file,
  change_day-Keeps, append_writer-sent, open_file-state, write_buffer-Keeps, Keeps-trans, Appended,
  change_day-open,
}

module _ (K : Clock) (S : Disk) (R : IsReliable S) (pid : Text) (names : IsName pid) where
  open K use {Time, seconds, to_second, to_second_lem}
  open S use {
    D, FilePath, parent, written, stored, holders, stored-written, written-open_append,
    written-flush, written-write_all,
  }

  -- What the worker knows between two commands.
  pub record IsReady (w : World K S) : Type 0 where
    pub path : HasPath K S R w.state
    pub cached : (t : Time) → 0 < seconds t → seconds t ≡ w.timestamp_sec → w.datetime ≡ to_second t

  cache_datetime-now :
      (t : Time) (w : World K S)
      → IsReady w
      → 0 < seconds t
      → let w' = cache_datetime K S t w in
        (sent K S w' ≡ sent K S w)
        × (w'.datetime ≡ to_second t)
        × (w'.timestamp_sec ≡ seconds t)
        × (w'.state ≡ w.state)
  unfolding cache_datetime
  cache_datetime-now t w ready late = elim (Bool-cases (seconds t == w.timestamp_sec)) [
    | inl same ↦
        let e = (==_iff (seconds t) w.timestamp_sec).0 same in
        rw same (refl, ready.cached t late e, sym e, refl)
    | inr new ↦ rw new (refl, refl, refl, refl)
  ]

  append_event-sent :
      (e : RawLogEvent K S) (drained : Bool) (w : World K S)
      → HasFile K S R w
      → Appended K S R e w (append_event K S e drained w)
  unfolding append_event
  append_event-sent e drained w (f, there) =
      subst (λ o. Appended K S R e w (append_writer K S o e drained w)) (sym there)
        (append_writer-sent K S R f e drained w)

  -- From the stages on, with the path of the log file.
  to_path-sent :
      (e : RawLogEvent K S) (now : Time) (drained : Bool) (p : FilePath) (w : World K S)
      → w.state.path ≡ some p
      → (d : FilePath) × (parent p ≡ some d)
      → let w' = to_path K S pid e now drained (some p) w in
        (sent K S w' ≡ sent K S w ++ line_at K S w.datetime e)
        × (w'.datetime ≡ w.datetime)
        × (w'.timestamp_sec ≡ w.timestamp_sec)
        × HasPath K S R w'.state
  unfolding to_path
  to_path-sent e now drained p w path up =
      let t = e.timestamp in
      let w₂ = open_file K S p w in
      let w₃ = change_day K S pid p t now w₂ in
      let k =
        Keeps-trans K S R (open_file-Keeps K S R p w) (change_day-Keeps K S R pid p t now w₂) in
      let (file, log_path) =
        change_day-open K S R pid names p t now w₂ (open_file-file K S R p w)
          (ap (λ s. s.path) (open_file-state K S R p w) ∙ path) up in
      let (all, text, second, same) = append_event-sent e drained w₃ file in
      (
        all
            ∙ ap (λ s. s ++ line_at K S w₃.datetime e) k.all
            ∙ ap (λ x. sent K S w ++ line_at K S x e) k.text,
        text ∙ k.text,
        second ∙ k.second,
        subst (HasPath K S R) (sym same) log_path,
      )

  on_log-sent :
      (e : RawLogEvent K S) (now : Time) (drained : Bool) (w : World K S)
      → IsReady w
      → 0 < seconds e.timestamp
      → let w' = on_log K S pid e now drained w in
        (sent K S w' ≡ sent K S w ++ line K S e) × IsReady w'
  unfolding on_log
  on_log-sent e now drained w ready late =
      let t = e.timestamp in
      let w₁ = cache_datetime K S t w in
      let (same, text, second, state) = cache_datetime-now t w ready late in
      let (p, there, up) = ready.path in
      let path₁ : w₁.state.path ≡ some p = ap (λ s. s.path) state ∙ there in
      let (all, text', second', log_path) = to_path-sent e now drained p w₁ path₁ up in
      subst
        (λ o.
          let w' = to_path K S pid e now drained o w₁ in
          (sent K S w' ≡ sent K S w ++ line K S e) × IsReady w')
        (sym path₁)
        (
          all
              ∙ ap (λ s. s ++ line_at K S w₁.datetime e) same
              ∙ ap (λ x. sent K S w ++ line_at K S x e) text,
          record {
            path = log_path;
            cached = λ u late_u e_u.
                text' ∙ text ∙ to_second_lem t u (sym second ∙ sym second' ∙ sym e_u);
          },
        )

  flush_writer-sent :
      (o : Option FilePath) (w : World K S)
      → let w' = flush_writer K S o w in
        (sent K S w' ≡ sent K S w)
        × (w'.datetime ≡ w.datetime)
        × (w'.timestamp_sec ≡ w.timestamp_sec)
        × (w'.state ≡ w.state)
  unfolding flush_writer
  flush_writer-sent none w = (refl, refl, refl, refl)
  flush_writer-sent (some f) w = elim (Bool-cases (is_empty w.buffer)) [
    | inl empty ↦ rw empty (ap (λ l. flat l ++ w.buffer) (written-flush f w.disk), refl, refl, refl)
    | inr filled ↦ let k = write_buffer-Keeps K S R f w in rw filled (k.all, k.text, k.second, refl)
  ]

  -- The lines of the events among commands, each event after the first second of 1970.
  abbrev pub lines : List (LogCmd K S) → Text
  lines [] = []
  lines (log e now drained ∷ cs) = line K S e ++ lines cs
  lines (flush_now ∷ cs) = lines cs

  abbrev pub AreLate : List (LogCmd K S) → Type 0
  AreLate [] = Unit
  AreLate (log e now drained ∷ cs) = (0 < seconds e.timestamp) × AreLate cs
  AreLate (flush_now ∷ cs) = AreLate cs

  pub worker-sent :
      (cs : List (LogCmd K S)) (w : World K S)
      → IsReady w
      → AreLate cs
      → let w' = worker K S pid cs w in (sent K S w' ≡ sent K S w ++ lines cs) × IsReady w'
  unfolding worker step on_flush
  worker-sent [] w ready late = (sym (append-nil (sent K S w)), ready)
  worker-sent (log e now drained ∷ cs) w ready late =
      let (one, ready₁) = on_log-sent e now drained w ready late.0 in
      let (all, ready') = worker-sent cs (on_log K S pid e now drained w) ready₁ late.1 in
      (
        all ∙ ap (λ s. s ++ lines cs) one ∙ append_assoc (sent K S w) (line K S e) (lines cs),
        ready',
      )
  worker-sent (flush_now ∷ cs) w ready late =
      let (one, text, second, state) = flush_writer-sent w.file w in
      let ready₁ : IsReady (on_flush K S w) = record {
        path = subst (HasPath K S R) (sym state) ready.path;
        cached = λ t late_t e_t. text ∙ ready.cached t late_t (e_t ∙ second);
      } in
      let (all, ready') = worker-sent cs (on_flush K S w) ready₁ late in
      (all ∙ ap (λ s. s ++ lines cs) one, ready')

  pub worker-append :
      (cs ds : List (LogCmd K S)) (w : World K S)
      → worker K S pid (cs ++ ds) w ≡ worker K S pid ds (worker K S pid cs w)
  unfolding worker
  worker-append [] ds w = refl
  worker-append (c ∷ cs) ds w = worker-append cs ds (step K S pid c w)

  flush_writer-answered :
      (o : Option FilePath) (w : World K S) → (flush_writer K S o w).answered ≡ w.answered
  unfolding flush_writer write_buffer
  flush_writer-answered none w = refl
  flush_writer-answered (some f) w = ground arith

  on_flush-buffer : (w : World K S) → IsBounded K S w → (on_flush K S w).buffer ≡ []
  unfolding on_flush
  on_flush-buffer w b = at w.file b.closed
    where
      at : (o : Option FilePath) → (o ≡ none → w.buffer ≡ []) → (flush_writer K S o w).buffer ≡ []
      at none closed = closed refl
      at (some f) closed = elim (Bool-cases (is_empty w.buffer)) [
        | inl empty ↦ rw empty (is_empty-nil w.buffer empty)
        | inr filled ↦ rw filled refl
      ]

  -- On a disk that does not fail, where no writer holds bytes, from a worker whose log file has a directory and
  -- whose text of the second is right, with nothing in the buffer where there is no file, for events that are
  -- later than the first second of 1970: once a flush is answered, all that was sent before and then the line of each event is in the files, whole, once and in
  -- order, over all changes of files, no writer holds bytes, and the buffer is empty.
  pub flush_writes_all :
      (cs : List (LogCmd K S)) (w : World K S)
      → IsReady w
      → IsBounded K S w
      → holders w.disk ≡ []
      → AreLate cs
      → let w' = worker K S pid (cs ++ flush_now ∷ []) w in
        (flat (stored w'.disk) ≡ sent K S w ++ lines cs)
        × (holders w'.disk ≡ [])
        × (w'.buffer ≡ [])
        × (w'.answered ≡ (worker K S pid cs w).answered + 1)
  unfolding worker step on_flush
  flush_writes_all cs w ready bounded none_held late =
      let w₁ = worker K S pid cs w in
      let empty = on_flush-buffer w₁ (worker-IsBounded K S pid cs w bounded) in
      let all = (flush_writer-sent w₁.file w₁).0 ∙ (worker-sent cs w ready late).0 in
      let settled =
        (flush_writer-Grows K S R w₁.file w₁).settled
          ((worker-Grows K S R pid cs w).settled none_held) in
      rw (worker-append cs (flush_now ∷ []) w) (
        ap flat (stored-written (on_flush K S w₁).disk settled)
            ∙ sym (append-nil _)
            ∙ ap (λ b. flat (written (on_flush K S w₁).disk) ++ b) (sym empty)
            ∙ all,
        settled,
        empty,
        ap (λ n. n + 1) (flush_writer-answered w₁.file w₁),
      )
