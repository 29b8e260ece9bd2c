-- ===== src/Config.antt =====
-- src/config/mod.rs: a configuration that is read from a file and written to it.
--
-- Both formats are taken to be compiled in. The serde crates, the file system and the clocks are interfaces;
-- a time is a number. The `State` that holds the times is its content.
pub mod Files
pub mod Saving
pub mod Reading
pub mod Checking
pub mod Global
use atoman_rs.Prelude.{
  ℕ, ◌-◌, ◌≡◌, Bool, true, false, not, ◌&&◌, Option, none, some, List, [], ◌∷◌, ◌++◌, ltb, leb,
  Text, text_eq, map, if◌then◌else◌,
}
use atoman_rs.Prelude.Result.{Result, success, failure, ◌>>=◌}
use atoman_rs.Errors.{DynError, Error, config_ext, parse_config}
use atoman_rs.State.Update.{through_guard}
use atoman_rs.Config.Files.{Fs, Formats}

pub record Modify : Type 0 where
  pub modified : Option ℕ
  pub checked : Option ℕ

-- The time of the wall clock and that of the monotonic one.
pub record Now : Type 0 where
  pub utc : ℕ
  pub instant : ℕ

abbrev pub now_modify : Now → Modify
now_modify now = record { modified = some now.utc; checked = some now.instant }

-- An error of the library or another one, in a box.
pub data Failure (E : Type 0) : Type 0 where
  of_library : Error → Failure E
  other : E → Failure E

abbrev pub toml_name : Text
toml_name = b'T' ∷ b'O' ∷ b'M' ∷ b'L' ∷ []

abbrev pub json_name : Text
json_name = b'J' ∷ b'S' ∷ b'O' ∷ b'N' ∷ []

module _ {T : Type 0} (F : Fs) (M : Formats T (Fs.E F)) where
  open F use {W, FilePath, E, extension, parent, with_extension}

  pub record Config : Type 0 where
    pub path : FilePath
    pub content : T
    pub modify : Modify

  -- The extension in capitals; a path without one is taken for TOML.
  abbrev pub ext_of : FilePath → Text
  ext_of p = Formats.to_uppercase M (elim (extension p) [ none ↦ toml_name | some e ↦ e ])

  unfoldable pub read_format : Text → Text → Result (Failure E) T
  read_format ext contents =
      let from : Result DynError T → Result (Failure E) T =
        λ r. elim r [ success d ↦ success d | failure e ↦ failure (of_library (parse_config e)) ] in
      if text_eq ext toml_name
      then from (Formats.toml_from M contents)
      else if text_eq ext json_name
      then from (Formats.json_from M contents)
      else failure (of_library (config_ext ext))

  unfoldable pub parse : FilePath → Text → Now → Result (Failure E) Config
  unfolding read_format
  parse path contents now = do
    d ← read_format (ext_of path) contents
    success (record { path = path; content = d; modify = now_modify now })

  abbrev pub boxed : {A : Type 0} → Result E A → Result (Failure E) A
  boxed (success a) = success a
  boxed (failure e) = failure (other e)

  unfoldable pub read : FilePath → Now → W → Result (Failure E) Config
  unfolding parse
  read path now w = do contents ← boxed (Fs.read_to_string F path w); parse path contents now

  unfoldable pub write_format : Text → T → Result (Failure E) Text
  write_format ext d =
      if text_eq ext toml_name
      then boxed (Formats.toml_to M d)
      else if text_eq ext json_name
      then boxed (Formats.json_to M d)
      else failure (of_library (config_ext ext))

  abbrev pub tmp_path : FilePath → FilePath
  tmp_path p =
      let ext : Text = elim (extension p) [ none ↦ [] | some e ↦ e ] in
      with_extension p (ext ++ b'.' ∷ b't' ∷ b'm' ∷ b'p' ∷ [])

  unfoldable pub make_parent : FilePath → W → Result E (Unit {0}) × W
  make_parent p w = elim (parent p) [ none ↦ (success tt, w) | some d ↦ Fs.create_dir_all F d w ]

  -- What follows the rename, the write of the temporary file, and the directory, given their answers.
  unfoldable pub after_rename : FilePath → Result E (Unit {0}) × W → Result E (Unit {0}) × W
  after_rename p (success u, w) = (success tt, w)
  after_rename p (failure e, w) = (failure e, Fs.remove_file F (tmp_path p) w)

  unfoldable pub after_write : FilePath → Result E (Unit {0}) × W → Result E (Unit {0}) × W
  unfolding after_rename
  after_write p (success u, w) =
      after_rename p (Fs.rename F (tmp_path p) p (Fs.sync F (tmp_path p) w))
  after_write p (failure e, w) = (failure e, w)

  unfoldable pub after_parent : FilePath → Text → Result E (Unit {0}) × W → Result E (Unit {0}) × W
  unfolding after_write
  after_parent p contents (success u, w) = after_write p (Fs.write F (tmp_path p) contents w)
  after_parent p contents (failure e, w) = (failure e, w)

  -- The steps on files, once the text is there.
  unfoldable pub save_text : FilePath → Text → W → Result E (Unit {0}) × W
  unfolding make_parent after_parent
  save_text p contents w = after_parent p contents (make_parent p w)

  -- The end of `write`, given the answer of the steps on files.
  unfoldable pub after_save :
      Now → Config → Result E (Unit {0}) × W → Result (Failure E) (Unit {0}) × Config × W
  unfolding through_guard
  after_save now this (success u, w) =
      (success tt, record this { modify = through_guard (λ m. now_modify now) this.modify }, w)
  after_save now this (failure e, w) = (failure (other e), this, w)

  unfoldable pub write_text :
      Now → Config → W → Result (Failure E) Text → Result (Failure E) (Unit {0}) × Config × W
  unfolding save_text after_save
  write_text now this w (success contents) = after_save now this (save_text this.path contents w)
  write_text now this w (failure e) = (failure e, this, w)

  -- The configuration afterwards, and the files.
  unfoldable pub write : FilePath → Now → Config → W → Result (Failure E) (Unit {0}) × Config × W
  unfolding write_format write_text
  write p now this w =
      write_text now (record this { path = p }) w (write_format (ext_of p) this.content)

  unfoldable pub save : Now → Config → W → Result (Failure E) (Unit {0}) × Config × W
  unfolding write
  save now this = write this.path now this

  -- `default` is the default of the data, `no_path` the empty path.
  unfoldable pub new : T → FilePath → FilePath → Now → W → Result (Failure E) Config × W
  unfolding read write
  new default no_path file_path now w =
      let this : Config = record {
        path = no_path;
        content = default;
        modify = record { modified = none; checked = none };
      } in
      let (done, this', w') = write file_path now this w in
      if Fs.exists F file_path w
      then (read file_path now w, w)
      else elim done [ failure e ↦ (failure e, w') | success _ ↦ (success this', w') ]

  -- Whether the last check is less than `millis` ago.
  abbrev pub is_recent : ℕ → ℕ → Modify → Bool
  is_recent millis instant m = elim m.checked [ none ↦ false | some t ↦ ltb (instant - t) millis ]

  abbrev pub is_old : ℕ → Modify → Bool
  is_old modified m = elim m.modified [ none ↦ false | some last ↦ leb modified last ]

  -- `seen` are the times before the lock is taken, `m` those that the guard holds; then what they are.
  unfoldable pub check : ℕ → Now → Modify → FilePath → W → Modify → Result (Failure E) Bool × Modify
  unfolding through_guard
  check millis now seen path w m =
      if is_recent millis now.instant seen
      then (success false, m)
      else if is_recent millis now.instant m
      then (success false, m)
      else elim (Fs.modified F path w) [
        | failure e ↦ (failure (other e), m)
        | success time ↦ if is_old time m then (success false, m) else (
          success true,
          through_guard (λ (k : Modify). record k { checked = some now.instant }) m,
        )
      ]

  unfoldable pub update : Now → Config → W → Result (Failure E) Bool × Config
  unfolding read
  update now this w = elim (read this.path now w) [
    | failure e ↦ (failure e, this)
    | success cfg ↦ (success true, cfg)
  ]
