-- ===== src/File/Metadata.antt =====
-- `Metadata` and `Entry` (src/file/metadata.rs, src/file/entry.rs).
--
-- What the file system says of a file is a record with the answers of the standard library's `Metadata`, an
-- interface gives it; the platform is a Unix.
use atoman_rs.Prelude.{
  ℕ, ◌%◌, ◌/◌, ◌≡◌, ◌∙◌, refl, ap, sym, some_cancel, Bool, true, false, not, Option, none, some, [],
  Text, ◌&&◌, ◌==◌, if◌then◌else◌,
}
use atoman_rs.Prelude.Result.{Result, success, failure, ◌>>=◌, success_cancel}
use atoman_rs.File.Entries.{FileKind, file, dir, symlink}

-- The answers of `std::fs::Metadata`; a file is not a directory.
pub record Stat (E : Type 0) : Type 0 where
  pub says_file : Bool
  pub says_dir : Bool
  pub mode : ℕ
  pub created : Result E ℕ
  pub modified : Result E ℕ
  pub len : ℕ

pub record Metadata : Type 0 where
  pub extension : Option Text
  pub file_type : FileKind
  pub executable : Option Bool
  pub created : ℕ
  pub modified : ℕ
  pub size : ℕ

-- Whether `mode & 0o111` is not zero.
abbrev pub any_executes : ℕ → Bool
any_executes mode = not (((mode % 2) == 0) && (((mode / 8) % 2) == 0) && (((mode / 64) % 2) == 0))

unfoldable pub file_type : {E : Type 0} → Stat E → FileKind
file_type meta = if meta.says_file then file else if meta.says_dir then dir else symlink

unfoldable pub new : {E : Type 0} → Option Text → Stat E → Result E Metadata
unfolding file_type
new ext meta = do
  born ← meta.created
  changed ← meta.modified
  success (record {
    extension = ext;
    file_type = file_type meta;
    executable = some (any_executes meta.mode);
    created = born;
    modified = changed;
    size = meta.len;
  })

-- The calls of the file system; `D` is the type of tokio's `DirEntry`.
pub record Stats : Type 1 where
  pub W : Type 0
  pub E : Type 0
  pub FilePath : Type 0
  pub D : Type 0
  pub extension : FilePath → Option Text
  pub file_name : FilePath → Option Text
  pub exists : FilePath → W → Bool
  pub stat : FilePath → W → Result E (Stat E)
  pub entry_path : D → FilePath
  pub entry_type : D → W → Result E (Bool × Bool)
  pub entry_stat : D → W → Result E (Stat E)
  pub to_lowercase : Text → Text

module _ (S : Stats) where
  open S use {W, E, FilePath, D}

  -- The whole `Entry` of entry.rs: that of File/Entries has the first two fields, all that the readers use.
  pub record CachedEntry : Type 0 where
    pub path : FilePath
    pub kind : FileKind
    pub inner : Option D
    pub metadata : Option Metadata

  unfoldable pub kind_of : Bool → Bool → FileKind
  kind_of says_dir says_file = if says_dir then dir else if says_file then file else symlink

  unfoldable pub from_path : FilePath → W → Result E CachedEntry
  unfolding kind_of
  from_path p w = do
    meta ← Stats.stat S p w
    success (record {
      path = p;
      kind = kind_of meta.says_dir meta.says_file;
      inner = none;
      metadata = none;
    })

  unfoldable pub from_entry : D → W → Result E CachedEntry
  unfolding kind_of
  from_entry value w = do
    ft ← Stats.entry_type S value w
    success (record {
      path = Stats.entry_path S value;
      kind = kind_of ft.0 ft.1;
      inner = some value;
      metadata = none;
    })

  -- What the file system says, for an entry that has none in it.
  unfoldable pub std_meta : CachedEntry → W → Result E (Stat E)
  std_meta this w = elim this.inner [
    | some i ↦ Stats.entry_stat S i w
    | none ↦ Stats.stat S this.path w
  ]

  unfoldable pub read_metadata : CachedEntry → W → Result E Metadata
  unfolding std_meta new
  read_metadata this w = std_meta this w >>= λ s. new (Stats.extension S this.path) s

  -- The answer, and the entry with the metadata in it.
  unfoldable pub metadata : CachedEntry → W → Result E Metadata × CachedEntry
  unfolding read_metadata
  metadata this w = elim this.metadata [
    | some meta ↦ (success meta, this)
    | none ↦ elim (read_metadata this w) [
      | success meta ↦ (success meta, record this { metadata = some meta })
      | failure e ↦ (failure e, this)
    ]
  ]

  abbrev pub file_name : CachedEntry → Text
  file_name this = elim (Stats.file_name S this.path) [ some s ↦ s | none ↦ [] ]

  abbrev pub extension : CachedEntry → Option Text
  extension this = elim (Stats.extension S this.path) [
    | some s ↦ some (Stats.to_lowercase S s)
    | none ↦ none
  ]

  abbrev pub exists : CachedEntry → W → Bool
  exists this w = Stats.exists S this.path w

  after_read : CachedEntry → Option Metadata → Result E Metadata → Result E Metadata × CachedEntry
  after_read this o r = elim o [
    | some meta ↦ (success meta, this)
    | none ↦ elim r [
      | success meta ↦ (success meta, record this { metadata = some meta })
      | failure e ↦ (failure e, this)
    ]
  ]

  after_read-metadata :
      (this this' : CachedEntry) (o : Option Metadata) (r : Result E Metadata) {m : Metadata}
      → this.metadata ≡ o
      → after_read this o r ≡ (success m, this')
      → this'.metadata ≡ some m
  unfolding after_read
  after_read-metadata this this' (some x) r {m} there e =
      let same : x ≡ m = success_cancel (ap (λ r. r.0) e) in
      ap (λ c. c.metadata) (sym (ap (λ r. r.1) e)) ∙ there ∙ ap some same
  after_read-metadata this this' none (success x) {m} there e =
      let same : x ≡ m = success_cancel (ap (λ r. r.0) e) in
      ap (λ c. c.metadata) (sym (ap (λ r. r.1) e)) ∙ ap some same
  after_read-metadata this this' none (failure f) there e = let bad = ap (λ r. r.0) e in cc

  after_read-some :
      (this : CachedEntry) (o : Option Metadata) (r : Result E Metadata) {m : Metadata}
      → o ≡ some m
      → after_read this o r ≡ (success m, this)
  unfolding after_read
  after_read-some this (some x) r e = ap (λ m. (success m, this)) (some_cancel e)
  after_read-some this none r e = cc

  -- Once `metadata` has given an answer, it gives the same one at every later time, whatever has become of
  -- the file, and does not change the entry.
  pub metadata-metadata :
      (this this' : CachedEntry) (w later : W) {m : Metadata}
      → metadata this w ≡ (success m, this')
      → metadata this' later ≡ (success m, this')
  unfolding metadata after_read
  metadata-metadata this this' w later e =
      after_read-some this' this'.metadata (read_metadata this' later)
        (after_read-metadata this this' this.metadata (read_metadata this w) refl e)

  -- The kinds that an entry of a path and its metadata have are the same, and that of the directory's.
  file_type-kind_of :
      (s : Stat E)
      → s.says_file && s.says_dir ≡ false
      → file_type s ≡ kind_of s.says_dir s.says_file
  unfolding file_type kind_of
  file_type-kind_of s apart = at s.says_dir s.says_file apart
    where
      at :
          (d f : Bool)
          → f && d ≡ false
          → (if f then file else if d then dir else symlink)
            ≡ (if d then dir else if f then file else symlink)
      at true true e = cc
      at true false e = refl
      at false f e = refl
