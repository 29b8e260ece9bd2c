-- ===== src/Tests/Printings.antt =====
-- The printing of a record at concrete inputs (src/trace/mod.rs).
use atoman_rs.Prelude.{
  ℕ, ◌≡◌, refl, ap, subst, some_cancel, Bool, true, false, Option, none, some, List, [], ◌∷◌, ◌++◌,
  map, Text, text_eq, text_eq_iff, ◌==◌, if◌then◌else◌,
}
use mathlib.Core.List.{append-nil}
use atoman_rs.Trace.{LogRecord}
use atoman_rs.Trace.Printing.{
  plain, Captures, or_empty, inked, texts_of, Patterns, level_style, group_str, replace_tags,
  print_structured, print_first, print_nested, print_lines, pretty_print,
}
use atoman_rs.Trace.Printing.Kept.{Kept, pretty_print-Kept}

-- "1  INFO [m] x".
abbrev structured : Text
structured = b'1' ∷ 32 ∷ 32 ∷ b'I' ∷ b'N' ∷ b'F' ∷ b'O' ∷ 32 ∷ b'[' ∷ b'm' ∷ b']' ∷ 32 ∷ b'x' ∷ []

abbrev groups : Captures
groups = record {
  time = some (b'1' ∷ []);
  level = some (b'I' ∷ b'N' ∷ b'F' ∷ b'O' ∷ []);
  target = some (b'[' ∷ b'm' ∷ b']' ∷ []);
  msg = some (b'x' ∷ []);
}

abbrev is_blank : ℕ → Bool
is_blank c = c == 32

captured : Text → Option Captures
captured t = if text_eq t structured then some groups else none

captured-groups :
    (t : Text) (caps : Captures)
    → captured t ≡ some caps
    → inked is_blank t
      ≡ inked is_blank (or_empty caps.time)
        ++ (inked is_blank (or_empty caps.level)
            ++ (inked is_blank (or_empty caps.target) ++ inked is_blank (or_empty caps.msg)))
unfolding captured
captured-groups t caps is = at (text_eq t structured) refl is
  where
    Parts : Captures → Type 0
    Parts caps =
        inked is_blank t
        ≡ inked is_blank (or_empty caps.time)
          ++ (inked is_blank (or_empty caps.level)
              ++ (inked is_blank (or_empty caps.target) ++ inked is_blank (or_empty caps.msg)))

    at :
        (b : Bool)
        → text_eq t structured ≡ b
        → (if b then some groups else none) ≡ some caps
        → Parts caps
    at true same is =
        subst Parts (some_cancel is) (ap (inked is_blank) ((text_eq_iff t structured).0 same))
    at false same is = cc

-- A tag is a text that starts with a bracket.
tagged : Text → List (Bool × Text)
tagged [] = []
tagged (c ∷ cs) = (c == b'[', c ∷ cs) ∷ []

tagged-texts : (t : Text) → texts_of (tagged t) ≡ t
unfolding tagged
tagged-texts [] = refl
tagged-texts (c ∷ cs) = append-nil (c ∷ cs)

abbrev patterns : Patterns
patterns = record {
  is_space = is_blank;
  captures = captured;
  tags = tagged;
  is_space_lem = refl;
  tags_lem = tagged-texts;
  captures_lem = captured-groups;
}

-- A structured line and one below it, of the source "s".
abbrev sample : LogRecord
sample = record { source = b's' ∷ []; content = structured ++ 13 ∷ 10 ∷ b'a' ∷ 10 ∷ [] }

-- The double space is read as one.
pretty_print-sample :
    map plain (pretty_print patterns sample)
    ≡ (b's' ∷ 32 ∷ b'1' ∷ 32 ∷ b'I' ∷ b'N' ∷ b'F' ∷ b'O' ∷ 32 ∷ b'[' ∷ b'm' ∷ b']' ∷ 32 ∷ b'x' ∷ [])
      ∷ (32 ∷ 32 ∷ 9474 ∷ 32 ∷ b'a' ∷ [])
      ∷ []
unfolding pretty_print print_lines print_first print_structured print_nested group_str replace_tags
    level_style captured tagged
pretty_print-sample = refl

pretty_print-Kept_example :
    Kept patterns
      (b's' ∷ [])
      (structured ∷ (b'a' ∷ []) ∷ [])
      (map plain (pretty_print patterns sample))
pretty_print-Kept_example = pretty_print-Kept patterns sample
