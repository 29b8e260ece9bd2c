-- ===== src/Trace.antt =====
-- src/trace/mod.rs: `FilterEngine`, and the task of `MultiTrace` that watches one source.
--
-- A text is the list of its characters. The `regex` crate and the file system are interfaces.
pub mod Filters
pub mod Watch
pub mod Latest
pub mod Supervisor
pub mod Entries
pub mod Printing
use atoman_rs.Prelude.{
  Text, is_empty, ℕ, zero, suc, ◌≡◌, Bool, true, false, not, ◌&&◌, ◌||◌, Option, none, some, List,
  [], ◌∷◌, ◌++◌, map, ◌==◌, if◌then◌else◌,
}
use atoman_rs.File.Window.{starts_with}

pub record Regexes : Type 1 where
  pub Regex : Type 0
  pub compile : Text → Option Regex
  pub is_match : Regex → Text → Bool

-- `str::contains`.
unfoldable pub contains : Text → Text → Bool
contains [] p = starts_with p []
contains (c ∷ cs) p = starts_with p (c ∷ cs) || contains cs p

-- `=`, `"`, `:` and a space.
abbrev pub plain : Text → Text → Text
plain k v = k ++ 61 ∷ v

abbrev pub quoted : Text → Text → Text
quoted k v = 34 ∷ k ++ 34 ∷ 58 ∷ 34 ∷ v ++ 34 ∷ []

abbrev pub spaced : Text → Text → Text
spaced k v = 34 ∷ k ++ 34 ∷ 58 ∷ 32 ∷ v

unfoldable pub kv_match : Text → List (Text × Text) → Bool
kv_match text [] = true
kv_match text ((k, v) ∷ kvs) =
    let rest = kv_match text kvs in
    if not (contains text (plain k v))
      && (not (contains text (quoted k v)) && not (contains text (spaced k v)))
    then false
    else rest

-- Lines end in `\r` (13) and `\n` (10).
unfoldable pub trim_end : Text → Text
trim_end [] = []
trim_end (c ∷ cs) =
    let rest = trim_end cs in if is_empty rest && (c == 13 || c == 10) then [] else c ∷ rest

pub record LogRecord : Type 0 where
  pub source : Text
  pub content : Text

module _ (X : Regexes) where
  open X use {Regex, compile, is_match}

  pub record FilterEngine : Type 0 where
    pub regexes : List Regex
    pub kv_filters : List (Text × Text)

  unfoldable pub compile_all : List Text → List Regex
  compile_all [] = []
  compile_all (p ∷ ps) =
      let rest = compile_all ps in elim (compile p) [ none ↦ rest | some re ↦ re ∷ rest ]

  unfoldable pub new : List Text → List (Text × Text) → FilterEngine
  unfolding compile_all
  new raw_patterns kv_pairs = record { regexes = compile_all raw_patterns; kv_filters = kv_pairs }

  unfoldable pub regex_match : Text → List Regex → Bool
  regex_match text [] = true
  regex_match text (re ∷ res) =
      let rest = regex_match text res in if not (is_match re text) then false else rest

  abbrev none_given : FilterEngine → Bool
  none_given e = elim e.regexes [
    | [] ↦ elim e.kv_filters [ [] ↦ true | _ ∷ _ ↦ false ]
    | _ ∷ _ ↦ false
  ]

  unfoldable pub matches : FilterEngine → Text → Bool
  unfolding kv_match regex_match
  matches e text =
      if none_given e
      then true
      else if kv_match text e.kv_filters
      then regex_match text e.regexes
      else false

  -- What is sent; the buffer is empty afterwards.
  unfoldable pub flush_buffer : FilterEngine → Text → Text → List LogRecord
  unfolding matches
  flush_buffer filters source_name buffer =
      if is_empty buffer
      then []
      else if matches filters buffer
      then record { source = source_name; content = buffer } ∷ []
      else []

  -- A line of the file: what is sent, and the buffer afterwards.
  unfoldable pub on_line : Regex → FilterEngine → Text → Text → Text → List LogRecord × Text
  unfolding flush_buffer
  on_line entry_start filters source_name buffer line_str =
      if is_match entry_start line_str
      then (flush_buffer filters source_name buffer, line_str)
      else if not (is_empty buffer)
      then ([], buffer ++ 10 ∷ line_str)
      else ([], buffer ++ line_str)

-- A buffered reader of a file. `pending` are the lines with their ends that it gives up to the end
-- of the file or to an error, of which none is empty.
pub record Lines : Type 1 where
  pub R : Type 0
  pub FilePath : Type 0
  pub same_path : FilePath → FilePath → Bool
  pub open_file : FilePath → Option R
  pub seek_end : R → R
  pub read_line : R → Text × R
  pub pending : R → List Text
  pub read_line_end : (r : R) → pending r ≡ [] → (read_line r).0 ≡ []
  pub read_line_next :
      (r : R) (c : ℕ) (cs : Text) (ls : List Text)
      → pending r ≡ (c ∷ cs) ∷ ls
      → ((read_line r).0 ≡ c ∷ cs) × (pending (read_line r).1 ≡ ls)
  pub pending_filled : (r : R) (ls : List Text) → pending r ≡ [] ∷ ls → ⊥
