-- ===== src/File/Finding.antt =====
-- The searches of `Dir` (src/file/dir.rs): by a regular expression, by likeness, and in the directories below.
--
-- The entries of the directory are `entries`; the regular expression and `fuzzy_cmp::search_filter`, for one
-- pattern and one coefficient, are parameters. `deep_search` runs on fuel, one unit for a level of directories;
-- `IsShallow` says how many there are. It takes its own entries, as `Dir::open` has read them.
pub mod Below
pub mod Among
pub mod Whole
use atoman_rs.Prelude.{
  ℕ, zero, suc, ◌≡◌, refl, Bool, true, false, not, ◌&&◌, ◌||◌, Option, none, some, List, [], ◌∷◌,
  ◌++◌, map, Every, Text, if◌then◌else◌,
}
use atoman_rs.Prelude.Result.{Result, success, failure, ◌>>=◌}
use atoman_rs.File.Entries.{FileKind, is_file, is_dir, is_symlink, Entry, Entries}
use atoman_rs.File.Dir.{keep, read_all}

-- The file system as `Dir::open` sees it, and the entries' names.
pub record Dirs : Type 1 where
  pub E : Type 0
  pub P : Type 0
  pub metadata : P → Result E (Unit {0})
  pub read_dir : P → Result E (Entries E P)
  pub file_name : P → Text

-- Neither a symbolic link nor, if only files count, something else than a file.
abbrev pub is_candidate : Bool → FileKind → Bool
is_candidate files_only k = not (is_symlink k) && (not files_only || is_file k)

module _ (F : Dirs) where
  open F use {E, P}

  unfoldable pub open_dir : P → Result E (List (Entry P))
  unfolding read_all
  open_dir path = Dirs.metadata F path >>= λ u. read_all (Dirs.read_dir F path)

  unfoldable pub search_regex : (Text → Bool) → Bool → List (Entry P) → List P
  unfolding is_symlink is_file
  search_regex is_match files_only entries =
      map (λ e. e.path)
        (keep (λ e. is_match (Dirs.file_name F e.path))
          (keep (λ e. not files_only || is_file e.kind)
            (keep (λ e. not (is_symlink e.kind)) entries)))

  module _ (search_filter : List (Entry P) → List (Entry P)) (files_only : Bool) where
    unfoldable pub search : List (Entry P) → List P
    search entries =
        map (λ e. e.path)
          (search_filter (
            keep (λ e. not files_only || is_file e.kind)
              (keep (λ e. not (is_symlink e.kind)) entries)))

    -- The loop over the directories; `more` is the search in one of them, `none` where its fuel is out.
    unfoldable pub search_below :
        (List (Entry P) → Option (Result E (List P)))
        → List P
        → List (Entry P)
        → Option (Result E (List P))
    unfolding open_dir
    search_below more results [] = some (success results)
    search_below more results (d ∷ ds) = elim (open_dir d.path) [
      | failure e ↦ some (failure e)
      | success subdir ↦ elim (more subdir) [
        | none ↦ none
        | some (failure e) ↦ search_below more results ds
        | some (success subresults) ↦ search_below more (results ++ subresults) ds
      ]
    ]

    unfoldable pub deep_search : ℕ → List (Entry P) → Option (Result E (List P))
    unfolding search search_below
    deep_search zero entries = none
    deep_search (suc fuel) entries =
        search_below (deep_search fuel) (search entries) (keep (λ e. is_dir e.kind) entries)
