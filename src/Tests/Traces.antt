-- ===== src/Tests/Traces.antt =====
-- Filters and a watched file at concrete inputs (src/trace/mod.rs).
use atoman_rs.Prelude.{
  Text, ℕ, ◌≡◌, ◌↔◌, refl, true, false, none, some, List, [], ◌∷◌, map, Every, ◌==◌, is_empty,
  if◌then◌else◌,
}
use native.Mathlib.Omega.{arith}
use atoman_rs.Trace.{Regexes, Lines, FilterEngine, new, matches, trim_end, contains}
use atoman_rs.Trace.Filters.{HasPair, Matches, matches-new}
use atoman_rs.Trace.Watch.{SourceConfig, Watch, turn, choose_file}
use atoman_rs.Trace.Entries.{passed, texts, turn_sends}
use atoman_rs.File.Window.{starts_with}
use atoman_rs.Prelude.{leb}
use atoman_rs.Prelude.Result.{Result, success, failure}
use atoman_rs.Trace.Latest.{DirItem, IsLatest, find_latest_file, find_latest_file-IsLatest}

-- A "regular expression" that is a text to be contained; an empty one does not compile.
abbrev pub literals : Regexes
literals = record {
  Regex = Text;
  compile = λ p. if is_empty p then none else some p;
  is_match = λ p text. starts_with p text;
}

abbrev pub engine : FilterEngine literals
engine = new literals ((73 ∷ []) ∷ [] ∷ []) ((97 ∷ [], 49 ∷ []) ∷ [])

-- "I a=1" passes, "I a=2" does not.
matches-new-literals :
    (matches literals engine (73 ∷ 32 ∷ 97 ∷ 61 ∷ 49 ∷ []) ≡ true)
    × (matches literals engine (73 ∷ 32 ∷ 97 ∷ 61 ∷ 50 ∷ []) ≡ false)
unfolding new matches contains starts_with
matches-new-literals = (refl, refl)

matches-new_example : (matches literals engine (73 ∷ 32 ∷ 97 ∷ 61 ∷ 49 ∷ []) ≡ true) ↔ (
    Every (HasPair (73 ∷ 32 ∷ 97 ∷ 61 ∷ 49 ∷ [])) ((97 ∷ [], 49 ∷ []) ∷ [])
    × Every (Matches literals (73 ∷ 32 ∷ 97 ∷ 61 ∷ 49 ∷ [])) ((73 ∷ []) ∷ [] ∷ []))
matches-new_example =
    matches-new literals (73 ∷ 32 ∷ 97 ∷ 61 ∷ 49 ∷ []) ((73 ∷ []) ∷ [] ∷ [])
      ((97 ∷ [], 49 ∷ []) ∷ [])

-- A file whose lines are known.
abbrev pub next_line : List (ℕ × Text) → Text × List (ℕ × Text)
next_line [] = ([], [])
next_line ((c, cs) ∷ ls) = (c ∷ cs, ls)

abbrev pub line_texts : List (ℕ × Text) → List Text
line_texts [] = []
line_texts ((c, cs) ∷ ls) = (c ∷ cs) ∷ line_texts ls

pub line_end : (r : List (ℕ × Text)) → line_texts r ≡ [] → (next_line r).0 ≡ []
line_end [] e = refl
line_end ((c, cs) ∷ ls) e = cc

pub line_next :
    (r : List (ℕ × Text)) (c : ℕ) (cs : Text) (ls : List Text)
    → line_texts r ≡ (c ∷ cs) ∷ ls
    → ((next_line r).0 ≡ c ∷ cs) × (line_texts (next_line r).1 ≡ ls)
line_next [] c cs ls e = cc
line_next ((a, as') ∷ r) c cs ls e = (cc, cc)

pub line_filled : (r : List (ℕ × Text)) (ls : List Text) → line_texts r ≡ [] ∷ ls → ⊥
line_filled [] ls e = cc
line_filled ((c, cs) ∷ r) ls e = cc

abbrev pub lines : Lines
lines = record {
  R = List (ℕ × Text);
  FilePath = ℕ;
  same_path = λ a b. a == b;
  open_file = λ p. some [];
  seek_end = λ r. [];
  read_line = next_line;
  pending = line_texts;
  read_line_end = line_end;
  read_line_next = line_next;
  pending_filled = line_filled;
}

abbrev pub config : SourceConfig literals lines
config = record { name = 115 ∷ []; entry_start_pattern = 73 ∷ [] }

-- "x", "Ia=1", "more" and "Ia=2", each with its line end.
abbrev pub watch : Watch literals lines
watch = record {
  current_file = some 0;
  reader = some (
      (120, 10 ∷ [])
      ∷ (73, 97 ∷ 61 ∷ 49 ∷ 13 ∷ 10 ∷ [])
      ∷ (109, 10 ∷ [])
      ∷ (73, 97 ∷ 61 ∷ 50 ∷ [])
      ∷ []);
  multiline_buf = [];
}

pub turn_sends-lines :
    turn literals lines 5 config true (λ n. engine) engine (some 0) watch
    ≡ some (
      record { source = 115 ∷ []; content = 73 ∷ 97 ∷ 61 ∷ 49 ∷ 10 ∷ 109 ∷ [] } ∷ [],
      record watch { reader = some [] },
    )
unfolding turn new matches contains starts_with
turn_sends-lines = refl

turn_sends_example :
    (r' : List (ℕ × Text)) × (turn literals lines 5 config true (λ n. engine) engine (some 0) watch
      ≡ some (
        passed literals engine (115 ∷ []) (
            texts (starts_with (73 ∷ [])) (
              map trim_end (
                (120 ∷ 10 ∷ [])
                ∷ (73 ∷ 97 ∷ 61 ∷ 49 ∷ 13 ∷ 10 ∷ [])
                ∷ (109 ∷ 10 ∷ [])
                ∷ (73 ∷ 97 ∷ 61 ∷ 50 ∷ [])
                ∷ []))),
        record (choose_file literals lines true (some 0) watch) {
          reader = some r';
          multiline_buf = [];
        },
      ))
unfolding choose_file
turn_sends_example =
    turn_sends literals lines config engine 5 true (some 0) watch refl refl (omega arith)

-- Paths are numbers; the entry 9 stands after an error.
abbrev items : List (Result ℕ (DirItem ℕ))
items =
    success (record { path = 4; is_file = true })
    ∷ success (record { path = 8; is_file = false })
    ∷ success (record { path = 6; is_file = true })
    ∷ failure 0
    ∷ success (record { path = 9; is_file = true })
    ∷ []

find_latest_file-some : find_latest_file leb (success items) ≡ some 6
unfolding find_latest_file
find_latest_file-some = refl

find_latest_file-IsLatest_example : IsLatest leb items (find_latest_file leb (success items))
find_latest_file-IsLatest_example =
    find_latest_file-IsLatest leb items (λ a b e. ground arith) (λ a b c e f. ground arith)
      (λ a. ground arith)
