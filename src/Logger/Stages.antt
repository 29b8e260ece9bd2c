-- ===== src/Logger/Stages.antt =====
-- The stages of an event in the worker of src/logger/mod.rs, on a disk that does not fail.
use atoman_rs.Prelude.{
  ◌*◌, ◌≡◌, refl, ap, sym, ◌∙◌, arith, Bool, true, false, not, ◌||◌, Option, none, some, List, [],
  ◌∷◌, ◌++◌, length, ltb, Text, is_empty, if◌then◌else◌, Bool-cases, Option-cases, inl, inr,
  Every-append,
}
use mathlib.Core.List.{append_assoc, append-nil}
use atoman_rs.Logger.{LoggerState}
use atoman_rs.State.Update.{through_guard}
use atoman_rs.Logger.Disk.{Clock, Disk, IsReliable, IsName}
use atoman_rs.Logger.Worker.{
  RawLogEvent, World, gen_path, open_file, write_buffer, close_writer, close_old, open_new,
  change_day, is_today, put_event, append_writer, roll, padded, space, spans_of,
}

abbrev pub flat : {P : Type 0} → List (P × Text) → Text
flat [] = []
flat ((p, t) ∷ ts) = t ++ flat ts

pub is_empty-nil : (t : Text) → is_empty t ≡ true → t ≡ []
is_empty-nil [] h = refl
is_empty-nil (c ∷ t) h = cc

pub flat-append : {P : Type 0} (xs ys : List (P × Text)) → flat (xs ++ ys) ≡ flat xs ++ flat ys
flat-append [] ys = refl
flat-append ((p, t) ∷ xs) ys =
    ap (λ l. t ++ l) (flat-append xs ys) ∙ sym (append_assoc t (flat xs) (flat ys))

module _ (K : Clock) (S : Disk) where
  open K use {Time, seconds, to_second, to_second_lem}
  open S use {D, FilePath, parent, written, written-open_append, written-flush, written-write_all}

  -- All that the files were given, in its order, and then the buffer.
  abbrev pub sent : World K S → Text
  sent w = flat (written w.disk) ++ w.buffer

  -- The line of an event, given its date and time.
  abbrev pub line_at : Text → RawLogEvent K S → Text
  line_at datetime e =
      datetime
      ++ (space ++ (padded e.level ++ (space ++ (spans_of e.spans ++ (e.message ++ b'\n' ∷ [])))))

  abbrev pub line : RawLogEvent K S → Text
  line e = line_at (to_second e.timestamp) e

  pub put_event-buffer :
      (e : RawLogEvent K S) (w : World K S)
      → (put_event K S e w).buffer ≡ w.buffer ++ line_at w.datetime e
  unfolding put_event
  put_event-buffer e w = at e.spans
    where
      at :
          (s : Option Text)
          → (put_event K S (record e { spans = s }) w).buffer
            ≡ w.buffer ++ line_at w.datetime (record e { spans = s })
      at none = simp append_assoc
      at (some s) = simp append_assoc

  -- What the stages of an event keep.
  pub record Keeps (w w' : World K S) : Type 0 where
    pub all : sent w' ≡ sent w
    pub text : w'.datetime ≡ w.datetime
    pub second : w'.timestamp_sec ≡ w.timestamp_sec

  module _ (R : IsReliable S) where
    written-write :
        (f : FilePath) (t : Text) (d : D)
        → written (Disk.write_all S f t d).1 ≡ written d ++ (f, t) ∷ []
    written-write f t d = written-write_all f t d (R.writes f t d)

    -- What was given to a file that is then flushed.
    flat-written :
        (f : FilePath) (t : Text) (d : D)
        → flat (written (Disk.flush S f (Disk.write_all S f t d).1).1) ≡ flat (written d) ++ t
    flat-written f t d =
        ap flat (written-flush f (Disk.write_all S f t d).1 ∙ written-write f t d)
        ∙ flat-append (written d) ((f, t) ∷ [])
        ∙ ap (λ l. flat (written d) ++ l) (append-nil t)

    pub write_buffer-Keeps : (f : FilePath) (w : World K S) → Keeps w (write_buffer K S f w)
    unfolding write_buffer
    write_buffer-Keeps f w =
        let done = R.writes f w.buffer w.disk in
        record {
          all = rw done (append-nil _ ∙ flat-written f w.buffer w.disk);
          text = refl;
          second = refl;
        }

    pub open_file-Keeps : (p : FilePath) (w : World K S) → Keeps w (open_file K S p w)
    unfolding open_file
    open_file-Keeps p w = record {
      all = ground (arith, written-open_append p w.disk);
      text = ground arith;
      second = ground arith;
    }

    pub open_file-file :
        (p : FilePath) (w : World K S) → (f : FilePath) × ((open_file K S p w).file ≡ some f)
    unfolding open_file
    open_file-file p w = elim (Option-cases w.file) [
      | inl closed ↦ (p, ground (arith, closed, R.opens p w.disk))
      | inr (f, there) ↦ (f, ground (arith, there))
    ]

    close_writer-sent : (f : FilePath) (w : World K S) → sent (close_writer K S (some f) w) ≡ sent w
    unfolding close_writer
    close_writer-sent f w = elim (Bool-cases (is_empty w.buffer)) [
      | inl empty ↦ rw empty (
          append-nil _
          ∙ ap flat (written-flush f w.disk)
          ∙ sym (append-nil (flat (written w.disk)))
          ∙ ap (λ b. flat (written w.disk) ++ b) (sym (is_empty-nil w.buffer empty)))
      | inr filled ↦ rw filled (append-nil _ ∙ flat-written f w.buffer w.disk)
    ]

    close_writer-Keeps : (o : Option FilePath) (w : World K S) → Keeps w (close_writer K S o w)
    unfolding close_writer
    close_writer-Keeps none w = record { all = refl; text = refl; second = refl }
    close_writer-Keeps (some f) w = record {
      all = close_writer-sent f w;
      text = refl;
      second = refl;
    }

    open_new-Keeps :
        (pid : Text) (dir : FilePath) (t now : Time) (w : World K S)
        → Keeps w (open_new K S pid dir t now w)
    unfolding open_new
    open_new-Keeps pid dir t now w = record {
      all = ap (λ l. flat l ++ w.buffer) (written-open_append (gen_path K S pid dir now) w.disk);
      text = refl;
      second = refl;
    }

    pub Keeps-trans : {w w' w'' : World K S} → Keeps w w' → Keeps w' w'' → Keeps w w''
    Keeps-trans a b = record {
      all = b.all ∙ a.all;
      text = b.text ∙ a.text;
      second = b.second ∙ a.second;
    }

    pub change_day-Keeps :
        (pid : Text) (p : FilePath) (t now : Time) (w : World K S)
        → Keeps w (change_day K S pid p t now w)
    unfolding change_day roll close_old
    change_day-Keeps pid p t now w = at (is_today K S t w) (parent p)
      where
        at :
            (b : Bool) (o : Option FilePath)
            → Keeps w (if not b then roll K S pid o t now (close_old K S w) else w)
        at true o = record { all = refl; text = refl; second = refl }
        at false none = close_writer-Keeps w.file w
        at false (some dir) =
            Keeps-trans (close_writer-Keeps w.file w)
              (open_new-Keeps pid dir t now (close_writer K S w.file w))

    -- What an event with a writer does to a world.
    abbrev pub Appended : RawLogEvent K S → World K S → World K S → Type 0
    Appended e w w' =
        (sent w' ≡ sent w ++ line_at w.datetime e)
        × (w'.datetime ≡ w.datetime)
        × (w'.timestamp_sec ≡ w.timestamp_sec)
        × (w'.state ≡ w.state)

    pub append_writer-sent :
        (f : FilePath) (e : RawLogEvent K S) (drained : Bool) (w : World K S)
        → Appended e w (append_writer K S (some f) e drained w)
    unfolding append_writer
    append_writer-sent f e drained w =
        at (drained || ltb (48 * 1024) (length (put_event K S e w).buffer))
      where
        added : sent (put_event K S e w) ≡ sent w ++ line_at w.datetime e
        added =
            ap (λ b. flat (written w.disk) ++ b) (put_event-buffer e w)
            ∙ sym (append_assoc (flat (written w.disk)) w.buffer (line_at w.datetime e))

        at :
            (b : Bool)
            → Appended e w (if b then write_buffer K S f (put_event K S e w) else put_event K S e w)
        at false = (added, refl, refl, refl)
        at true = ((write_buffer-Keeps f (put_event K S e w)).all ∙ added, refl, refl, refl)

    -- There is a writer, and the path of the log file has a directory.
    abbrev pub HasFile : World K S → Type 0
    HasFile w = (f : FilePath) × (w.file ≡ some f)

    abbrev pub HasPath : LoggerState FilePath → Type 0
    HasPath s = (p : FilePath) × (s.path ≡ some p) × ((d : FilePath) × (parent p ≡ some d))

    pub open_file-state : (p : FilePath) (w : World K S) → (open_file K S p w).state ≡ w.state
    unfolding open_file
    open_file-state p w = ground arith

    module _ (pid : Text) (names : IsName pid) where
      gen_path-parent : (dir : FilePath) (now : Time) → parent (gen_path K S pid dir now) ≡ some dir
      unfolding gen_path
      gen_path-parent dir now = Disk.parent-join S dir _ (
          Every-append _ (Clock.to_microsecond K now ++ b'_' ∷ pid) _
            (Every-append _ (Clock.to_microsecond K now) (b'_' ∷ pid)
              (Clock.to_microsecond-IsName K now) (refl, names))
            (refl, (refl, (refl, (refl, tt)))))

      open_new-open :
          (dir : FilePath) (t now : Time) (w : World K S)
          → let w' = open_new K S pid dir t now w in HasFile w' × HasPath w'.state
      unfolding open_new through_guard
      open_new-open dir t now w =
          let p = gen_path K S pid dir now in
          ((p, rw (R.opens p w.disk) refl), (p, refl, (dir, gen_path-parent dir now)))

      pub change_day-open :
          (p : FilePath) (t now : Time) (w : World K S)
          → HasFile w
          → w.state.path ≡ some p
          → (d : FilePath) × (parent p ≡ some d)
          → let w' = change_day K S pid p t now w in HasFile w' × HasPath w'.state
      unfolding change_day roll
      change_day-open p t now w file path (dir, up) = at (is_today K S t w) (parent p) up
        where
          at :
              (b : Bool) (o : Option FilePath)
              → o ≡ some dir
              → let w' = if not b then roll K S pid o t now (close_old K S w) else w in
                HasFile w' × HasPath w'.state
          at true o e = (file, (p, path, (dir, up)))
          at false none e = cc
          at false (some d) e = open_new-open d t now (close_old K S w)
