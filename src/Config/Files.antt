-- ===== src/Config/Files.antt =====
-- What src/config/mod.rs uses of the file system and of the serde crates, as interfaces.
use atoman_rs.Prelude.{ℕ, ◌≡◌, ◌≢◌, Bool, Option, some, Text}
use atoman_rs.Prelude.Result.{Result, success, failure}
use atoman_rs.Errors.{DynError}

-- `contents` are the texts of the files. The laws: a read that succeeds gives the contents; making
-- directories and forcing a file to the disk change no contents; a write changes one file, and if it
-- succeeds it has the text; a rename that succeeds takes the contents over and leaves the other files, and one
-- that fails changes nothing; a removal leaves the other files.
pub record Fs : Type 1 where
  pub W : Type 0
  pub FilePath : Type 0
  pub E : Type 0
  pub extension : FilePath → Option Text
  pub parent : FilePath → Option FilePath
  pub with_extension : FilePath → Text → FilePath
  pub exists : FilePath → W → Bool
  pub read_to_string : FilePath → W → Result E Text
  pub create_dir_all : FilePath → W → Result E (Unit {0}) × W
  pub write : FilePath → Text → W → Result E (Unit {0}) × W
  pub sync : FilePath → W → W
  pub rename : FilePath → FilePath → W → Result E (Unit {0}) × W
  pub remove_file : FilePath → W → W
  pub modified : FilePath → W → Result E ℕ
  pub contents : W → FilePath → Option Text
  pub read_lem :
      (p : FilePath) (w : W) (t : Text) → read_to_string p w ≡ success t → contents w p ≡ some t
  pub create_dir_all_lem :
      (d p : FilePath) (w : W) → contents (create_dir_all d w).1 p ≡ contents w p
  pub write_lem :
      (p : FilePath) (t : Text) (w : W)
      → (write p t w).0 ≡ success tt
      → contents (write p t w).1 p ≡ some t
  pub write_others :
      (p q : FilePath) (t : Text) (w : W) → q ≢ p → contents (write p t w).1 q ≡ contents w q
  pub sync_lem : (p q : FilePath) (w : W) → contents (sync p w) q ≡ contents w q
  pub rename_lem :
      (p q : FilePath) (w : W)
      → (rename p q w).0 ≡ success tt
      → contents (rename p q w).1 q ≡ contents w p
  pub rename_others :
      (p q r : FilePath) (w : W) → r ≢ p → r ≢ q → contents (rename p q w).1 r ≡ contents w r
  pub rename_failed :
      (p q r : FilePath) (w : W) {e : E}
      → (rename p q w).0 ≡ failure e
      → contents (rename p q w).1 r ≡ contents w r
  pub remove_others : (p q : FilePath) (w : W) → q ≢ p → contents (remove_file p w) q ≡ contents w q

-- The two formats for data of type `T`, and the capitals of a text, as `str::to_uppercase` makes them.
pub record Formats (T E : Type 0) : Type 0 where
  pub toml_from : Text → Result DynError T
  pub json_from : Text → Result DynError T
  pub toml_to : T → Result E Text
  pub json_to : T → Result E Text
  pub to_uppercase : Text → Text

-- What is printed is read back.
pub record AreInverse {T E : Type 0} (M : Formats T E) : Type 0 where
  pub toml : (d : T) (t : Text) → M.toml_to d ≡ success t → M.toml_from t ≡ success d
  pub json : (d : T) (t : Text) → M.json_to d ≡ success t → M.json_from t ≡ success d
