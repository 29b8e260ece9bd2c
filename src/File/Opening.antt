-- ===== src/File/Opening.antt =====
-- How a `File` (src/file/file.rs) is opened and removed, and what `Dir` (src/file/dir.rs) makes and removes.
pub mod Opened
use atoman_rs.Prelude.{
  ℕ, ◌≡◌, ◌∙◌, refl, ap, sym, Bool, true, false, not, Option, none, some, List, Text, if◌then◌else◌,
}
use atoman_rs.Prelude.Result.{Result, success, failure, ◌>>=◌, success_cancel}
use atoman_rs.File.Metadata.{Stat, Metadata, new}
use atoman_rs.File.Writing.{and_then}

pub data OpenMode : Type 0 where
  read : OpenMode
  write : OpenMode
  read_write : OpenMode

-- `OpenOptions` of tokio; all that a new one has is false.
pub record OpenOptions : Type 0 where
  pub read : Bool
  pub write : Bool
  pub create : Bool
  pub truncate : Bool

abbrev pub new_options : OpenOptions
new_options = record { read = false; write = false; create = false; truncate = false }

unfoldable pub set_mode : OpenMode → OpenOptions → OpenOptions
set_mode read options = record options { read = true }
set_mode write options = record options { create = true; write = true }
set_mode read_write options = record options { create = true; read = true; write = true }

-- What stands at a path, links followed.
pub data Node : Type 0 where
  folder : Node
  bytes : List ℕ → Node

-- The calls of the file system. `O` is an open file, `node` what stands at a path. The laws are documented:
-- opening without `truncate` leaves what there is, without `create` it makes nothing, and what is opened is
-- there, is no directory if it is opened for writing, and has the access asked for; `create_dir_all` makes
-- the directory, unless the path is empty, and leaves what there is; a file that is removed is gone.
pub record FileSystem : Type 1 where
  pub W : Type 0
  pub E : Type 0
  pub FilePath : Type 0
  pub O : Type 0
  pub parent : FilePath → Option FilePath
  pub is_empty_path : FilePath → Bool
  pub extension : FilePath → Option Text
  pub node : FilePath → W → Option Node
  pub can_read : O → Bool
  pub can_write : O → Bool
  pub open_with : OpenOptions → FilePath → W → Result E O × W
  pub file_stat : O → W → Result E (Stat E)
  pub path_stat : FilePath → W → Result E (Stat E)
  pub create_dir_all : FilePath → W → Result E (Unit {0}) × W
  pub remove_file : FilePath → W → Result E (Unit {0}) × W
  pub remove_dir_all : FilePath → W → Result E (Unit {0}) × W
  pub open_keeps :
      (o : OpenOptions) (p q : FilePath) (w : W) (n : Node)
      → o.truncate ≡ false
      → node q w ≡ some n
      → node q (open_with o p w).1 ≡ some n
  pub open_makes_none :
      (o : OpenOptions) (p q : FilePath) (w : W)
      → o.create ≡ false
      → o.truncate ≡ false
      → node q (open_with o p w).1 ≡ node q w
  pub open_lem :
      (o : OpenOptions) (p : FilePath) (w w' : W) (f : O)
      → open_with o p w ≡ (success f, w')
      → ((n : Node) × (node p w' ≡ some n) × (o.write ≡ true → (b : List ℕ) × (n ≡ bytes b)))
        × (can_read f ≡ o.read)
        × (can_write f ≡ o.write)
  pub create_keeps :
      (p q : FilePath) (w : W) (n : Node)
      → node q w ≡ some n
      → node q (create_dir_all p w).1 ≡ some n
  pub create_lem :
      (p : FilePath) (w w' : W)
      → is_empty_path p ≡ false
      → create_dir_all p w ≡ (success tt, w')
      → node p w' ≡ some folder
  pub remove_lem : (p : FilePath) (w w' : W) → remove_file p w ≡ (success tt, w') → node p w' ≡ none

unfoldable pub is_read : OpenMode → Bool
is_read read = true
is_read write = false
is_read read_write = false

module _ (S : FileSystem) where
  open S use {W, E, FilePath, O}

  pub record File : Type 0 where
    pub path : FilePath
    pub metadata : Option Metadata
    pub file : O

  -- Dir::create_all, create_all_parents and remove.
  unfoldable pub create_all : FilePath → W → Result E (Unit {0}) × W
  create_all p w = FileSystem.create_dir_all S p w

  unfoldable pub create_all_parents : FilePath → W → Result E (Unit {0}) × W
  create_all_parents p w = elim (FileSystem.parent S p) [
    | some dir ↦ FileSystem.create_dir_all S dir w
    | none ↦ (success tt, w)
  ]

  unfoldable pub remove_dir : FilePath → W → Result E (Unit {0}) × W
  remove_dir p w = FileSystem.remove_dir_all S p w

  -- Dir::changed; `eq` compares times. The metadata are those of the directory.
  unfoldable pub changed : (ℕ → ℕ → Bool) → FilePath → Option Metadata → W → Bool
  changed eq p metadata w = elim metadata [
    | none ↦ true
    | some meta ↦ elim (FileSystem.path_stat S p w) [
      | failure e ↦ true
      | success m ↦ elim m.modified [
        | failure e ↦ true
        | success modified_system ↦ not (eq modified_system meta.modified)
      ]
    ]
  ]

  unfoldable pub refresh : File → W → Result E (Unit {0}) × File
  refresh this w =
      elim (FileSystem.file_stat S this.file w >>= λ s. new (FileSystem.extension S this.path) s) [
        | success meta ↦ (success tt, record this { metadata = some meta })
        | failure e ↦ (failure e, this)
      ]

  -- The parent's directory is made, if the mode can write.
  unfoldable pub make_parent : OpenMode → FilePath → W → Result E (Unit {0}) × W
  unfolding create_all_parents is_read
  make_parent mode p w = if not (is_read mode) then create_all_parents p w else (success tt, w)

  unfoldable pub with_metadata : FilePath → O → W → Result E File × W
  unfolding refresh
  with_metadata p raw_file w =
      let done = refresh (record { file = raw_file; metadata = none; path = p }) w in
      (elim done.0 [ success u ↦ success done.1 | failure e ↦ failure e ], w)

  unfoldable pub open_raw : OpenMode → FilePath → W → Result E File × W
  unfolding with_metadata set_mode
  open_raw mode p w =
      and_then (FileSystem.open_with S (set_mode mode new_options) p w) (with_metadata p)

  unfoldable pub open_file : FilePath → OpenMode → W → Result E File × W
  unfolding make_parent open_raw
  open_file p mode w = and_then (make_parent mode p w) (λ u w. open_raw mode p w)

  unfoldable pub open_read : FilePath → W → Result E File × W
  unfolding open_file
  open_read p w = open_file p read w

  unfoldable pub open_write : FilePath → W → Result E File × W
  unfolding open_file
  open_write p w = open_file p write w

  unfoldable pub open_read_write : FilePath → W → Result E File × W
  unfolding open_file
  open_read_write p w = open_file p read_write w

  unfoldable pub remove : FilePath → W → Result E (Unit {0}) × W
  remove p w = FileSystem.remove_file S p w

  -- The file is closed first.
  unfoldable pub remove_self : File → W → Result E (Unit {0}) × W
  unfolding remove
  remove_self this w = remove this.path w
