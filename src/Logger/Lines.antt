-- ===== src/Logger/Lines.antt =====
-- `Logger::trace_file` and `Logger::trace` (src/logger/mod.rs): the lines of a log file that contain all
-- of some texts. What is around them is a world `W`: `flush` is `Logger::flush`, and `open_lines` opens a file
-- and gives its lines, as they are then.
use atoman_rs.Prelude.{
  ◌≡◌, ◌↔◌, refl, ap, sym, ◌∙◌, Bool, true, ◌&&◌, Option, none, some, List, [], ◌∷◌, ◌++◌, map,
  Every, Text, if◌then◌else◌, arith, Bool-cases, inl, inr,
}
use mathlib.Core.List.{append_assoc, append-nil}
use atoman_rs.Prelude.Result.{Result, success, failure, ◌>>=◌}
use atoman_rs.Trace.{contains}
use atoman_rs.Trace.Filters.{Occurs, contains-Occurs}

unfoldable pub all_contained : List Text → Text → Bool
unfolding contains
all_contained [] line = true
all_contained (f ∷ fs) line = contains line f && all_contained fs line

module _ {E : Type 0} where
  -- The loop over the lines that the reader gives, up to an error.
  unfoldable pub matched_lines : List Text → List (Result E Text) → Text → Result E Text
  unfolding all_contained
  matched_lines filters [] matched = success matched
  matched_lines filters (failure e ∷ ls) matched = failure e
  matched_lines filters (success line ∷ ls) matched =
      matched_lines filters ls
        (if all_contained filters line then (matched ++ line) ++ b'\n' ∷ [] else matched)

  module _ {W P : Type 0} (flush : W → W)
      (open_lines : P → W → Result E (List (Result E Text))) where
    -- All that was sent to the worker is written first.
    unfoldable pub trace_file : P → List Text → W → Result E Text × W
    unfolding matched_lines
    trace_file file_path filters w =
        let flushed = flush w in
        (open_lines file_path flushed >>= λ ls. matched_lines filters ls [], flushed)

    unfoldable pub trace_current : E → List Text → W → Option P → Result E Text × W
    unfolding trace_file
    trace_current missing filters w none = (failure missing, w)
    trace_current missing filters w (some file_path) = trace_file file_path filters w

    -- `path` is that of `LOGGER_STATE`, `missing` the error without one.
    unfoldable pub trace : E → (W → Option P) → List Text → W → Result E Text × W
    unfolding trace_current
    trace missing path filters w = trace_current missing filters w (path w)

-- A text is what some lines give: those in which every filter occurs, each with a line feed, in order.
pub data Picked (filters : List Text) : List Text → Text → Type 0 where
  done : Picked filters [] []
  take_line :
      {l : Text} {ls : List Text} {t : Text}
      → Every (λ f. Occurs f l) filters
      → Picked filters ls t
      → Picked filters (l ∷ ls) (l ++ b'\n' ∷ t)
  pass_line :
      {l : Text} {ls : List Text} {t : Text}
      → ¬ Every (λ f. Occurs f l) filters
      → Picked filters ls t
      → Picked filters (l ∷ ls) t

all_contained-Every :
    (filters : List Text) (line : Text)
    → (all_contained filters line ≡ true) ↔ Every (λ f. Occurs f line) filters
unfolding all_contained
all_contained-Every [] line = (λ e. tt, λ e. refl)
all_contained-Every (f ∷ fs) line =
    let here = contains-Occurs line f in
    let rest = all_contained-Every fs line in
    (λ e. (here.0 (ground arith), rest.0 (ground arith)), λ h. rw (here.1 h.0) (rest.1 h.1))

module _ {E : Type 0} (filters : List Text) where
  matched_lines-Picked :
      (ls : List Text) (matched : Text)
      → (t : Text) × (matched_lines {E = E} filters (map success ls) matched
          ≡ success (matched ++ t))
        × Picked filters ls t
  unfolding matched_lines
  matched_lines-Picked [] matched = ([], ap success (sym (append-nil matched)), done)
  matched_lines-Picked (l ∷ ls) matched = elim (Bool-cases (all_contained filters l)) [
    | inl all ↦
        let (t, run, picked) = matched_lines-Picked ls ((matched ++ l) ++ b'\n' ∷ []) in
        (
          l ++ b'\n' ∷ t,
          rw (all, matched_lines) (run ∙ ap success (simp append_assoc)),
          take_line ((all_contained-Every filters l).0 all) picked,
        )
    | inr some_missing ↦
        let (t, run, picked) = matched_lines-Picked ls matched in
        (
          t,
          rw (some_missing, matched_lines) run,
          pass_line (λ h. let both = sym ((all_contained-Every filters l).1 h) ∙ some_missing in cc)
              picked,
        )
  ]

  matched_lines-failure :
      (ls : List Text) (later : List (Result E Text)) (e : E) (matched : Text)
      → matched_lines filters (map success ls ++ failure e ∷ later) matched ≡ failure e
  unfolding matched_lines
  matched_lines-failure [] later e matched = refl
  matched_lines-failure (l ∷ ls) later e matched =
      matched_lines-failure ls later e
        (if all_contained filters l then (matched ++ l) ++ b'\n' ∷ [] else matched)

  traced :
      {W P : Type 0} (flush : W → W) (open_lines : P → W → Result E (List (Result E Text)))
      (missing : E) (path : W → Option P) (w : W) (p : P) (opened : Result E (List (Result E Text)))
      → path w ≡ some p
      → open_lines p (flush w) ≡ opened
      → trace flush open_lines missing path filters w
        ≡ (opened >>= λ ls. matched_lines filters ls [], flush w)
  unfolding trace trace_current trace_file
  traced flush open_lines missing path w p opened is lines =
      ap (trace_current flush open_lines missing filters w) is
      ∙ ap (λ r. (r >>= λ ls. matched_lines filters ls [], flush w)) lines

  -- Tracing flushes the logger and then reads the file as it is after that: if it is opened and no line fails, the
  -- answer is the lines in which every filter occurs; a line that fails is the error of the whole, whatever came
  -- before, as is the error of the opening. With no log file the error says so, and nothing is flushed.
  pub trace-Picked :
      {W P : Type 0} (flush : W → W) (whole broken closed : P → W → Result E (List (Result E Text)))
      (missing : E) (path absent : W → Option P) (w : W) (p : P) (ls : List Text)
      (later : List (Result E Text)) (e : E)
      → path w ≡ some p
      → absent w ≡ none
      → whole p (flush w) ≡ success (map success ls)
      → broken p (flush w) ≡ success (map success ls ++ failure e ∷ later)
      → closed p (flush w) ≡ failure e
      → ((t : Text) × (trace flush whole missing path filters w ≡ (success t, flush w))
          × Picked filters ls t)
        × (trace flush broken missing path filters w ≡ (failure e, flush w))
        × (trace flush closed missing path filters w ≡ (failure e, flush w))
        × (trace flush whole missing absent filters w ≡ (failure missing, w))
  unfolding trace trace_current
  trace-Picked flush whole broken closed missing path absent w p ls later e is gone good bad
        no_file =
      let (t, run, picked) = matched_lines-Picked ls [] in
      (
        (t, traced flush whole missing path w p _ is good ∙ ap (λ r. (r, flush w)) run, picked),
        traced flush broken missing path w p _ is bad
            ∙ ap (λ r. (r, flush w)) (matched_lines-failure ls later e []),
        traced flush closed missing path w p _ is no_file,
        ap (trace_current flush whole missing filters w) gone,
      )
