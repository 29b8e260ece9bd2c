-- ===== src/Tests/Directories.antt =====
-- Entries, readings of directories and searches at concrete inputs (src/file/).
use atoman_rs.Prelude.{ℕ, ◌≡◌, refl, true, false, ◌==◌, none, some, List, [], ◌∷◌, if◌then◌else◌}
use atoman_rs.Prelude.Result.{Result, success, failure}
use atoman_rs.File.Metadata.{Metadata, Stats, CachedEntry, metadata}
use atoman_rs.File.Entries.{file, dir, symlink, is_file, is_dir, is_symlink, Entry, Entries}
use atoman_rs.File.Dir.{
  map_ok, keep, read_all, read_all_dirs, read_all_files, read_map, readings_agree,
}
use atoman_rs.Prelude.{Every}
use atoman_rs.File.Finding.{Dirs, open_dir, deep_search}
use atoman_rs.File.Finding.Below.{Among, first, later, IsShallow}
use atoman_rs.File.Finding.Whole.{Whole, deep_search-IsWhole}

-- A file system whose only file grows.
abbrev growing : Stats
growing = record {
  W = ℕ;
  E = ℕ;
  FilePath = ℕ;
  D = ℕ;
  extension = λ p. none;
  file_name = λ p. none;
  exists = λ p w. true;
  stat = λ p w. success (record {
    says_file = true;
    says_dir = false;
    mode = 493;
    created = success 1;
    modified = success w;
    len = w;
  });
  entry_path = λ d. d;
  entry_type = λ d w. success (false, true);
  entry_stat = λ d w. failure 0;
  to_lowercase = λ t. t;
}

abbrev grown : Metadata
grown = record {
  extension = none;
  file_type = file;
  executable = some true;
  created = 1;
  modified = 20;
  size = 20;
}

abbrev fresh : CachedEntry growing
fresh = record { path = 3; kind = file; inner = none; metadata = none }

metadata_once : metadata growing fresh 20 ≡ (success grown, record fresh { metadata = some grown })
unfolding metadata
metadata_once = refl

abbrev listing : Entries ℕ ℕ
listing =
    success (record { path = 1; kind = dir })
    ∷ success (record { path = 2; kind = file })
    ∷ success (record { path = 3; kind = symlink })
    ∷ success (record { path = 4; kind = file })
    ∷ []

readings_agree_example :
    (read_all_files (success listing)
      ≡ map_ok (keep (λ e. is_file e.kind)) (read_all (success listing)))
    × (read_all_dirs (success listing)
        ≡ map_ok (keep (λ e. is_dir e.kind)) (read_all (success listing)))
    × ((read_map (success listing)).1 ≡ map_ok (λ es. tt) (read_all (success listing)))
    × ((es : List (Entry ℕ))
        → read_all (success listing) ≡ success es
        → ((read_map (success listing)).0.on_file ≡ keep (λ e. is_file e.kind) es)
          × ((read_map (success listing)).0.on_dir ≡ keep (λ e. is_dir e.kind) es))
readings_agree_example = readings_agree (success listing)

-- A directory with the directory 1, a link and the file 3; in 1 stand the file 4 and the directory 5, which
-- cannot be opened.
abbrev below_one : Result ℕ (Entries ℕ ℕ)
below_one =
    success
      (success (record { path = 4; kind = file }) ∷ success (record { path = 5; kind = dir }) ∷ [])

abbrev tree : Dirs
tree = record {
  E = ℕ;
  P = ℕ;
  metadata = λ p. success tt;
  read_dir = λ p. if p == 1 then below_one else failure 13;
  file_name = λ p. p ∷ [];
}

abbrev top : List (Entry ℕ)
top =
    record { path = 1; kind = dir }
    ∷ record { path = 2; kind = symlink }
    ∷ record { path = 3; kind = file }
    ∷ []

abbrev all_entries : List (Entry ℕ) → List (Entry ℕ)
all_entries es = es

deep_search-some : deep_search tree all_entries true 3 top ≡ some (success (3 ∷ []))
unfolding deep_search open_dir is_dir is_symlink is_file
deep_search-some = refl

all_among : (es : List (Entry ℕ)) → Every (λ e. Among e es) es
all_among [] = tt
all_among (e ∷ es) = (first, up es (all_among es))
  where
    up : (zs : List (Entry ℕ)) → Every (λ z. Among z es) zs → Every (λ z. Among z (e ∷ es)) zs
    up [] h = tt
    up (z ∷ zs) h = (later h.0, up zs h.1)

top-IsShallow : IsShallow tree true 3 top
unfolding open_dir is_dir
top-IsShallow = ((tt, tt), tt)

deep_search-IsWhole_example :
    Whole tree true all_entries top (deep_search tree all_entries true 3 top)
deep_search-IsWhole_example =
    deep_search-IsWhole tree true all_entries all_among 3 top top-IsShallow
