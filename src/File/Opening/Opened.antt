-- ===== src/File/Opening/Opened.antt =====
-- What opening a `File` (src/file/file.rs) in each mode leaves in the file system.
use atoman_rs.Prelude.{
  ◌≡◌, ◌∙◌, refl, ap, sym, subst, Bool, true, false, not, Option, none, some, List, ℕ,
}
use atoman_rs.Prelude.Result.{Result, success, failure, ◌>>=◌}
use atoman_rs.File.Metadata.{Metadata, new}
use atoman_rs.File.Writing.{and_then-by}
use atoman_rs.File.Opening.{
  OpenMode, read, write, read_write, OpenOptions, new_options, set_mode, Node, folder, bytes,
  FileSystem, is_read, File, create_all_parents, refresh, make_parent, with_metadata, open_raw,
  open_file,
}

abbrev pub reads : OpenMode → Bool
reads read = true
reads write = false
reads read_write = true

set_mode-read : (mode : OpenMode) → (set_mode mode new_options).read ≡ reads mode
unfolding set_mode
set_mode-read read = refl
set_mode-read write = refl
set_mode-read read_write = refl

set_mode-write : (mode : OpenMode) → (set_mode mode new_options).write ≡ not (is_read mode)
unfolding set_mode is_read
set_mode-write read = refl
set_mode-write write = refl
set_mode-write read_write = refl

set_mode-create :
    (mode : OpenMode) → is_read mode ≡ true → (set_mode mode new_options).create ≡ false
unfolding set_mode is_read
set_mode-create read reading = refl
set_mode-create write reading = cc
set_mode-create read_write reading = cc

set_mode-truncate : (mode : OpenMode) → (set_mode mode new_options).truncate ≡ false
unfolding set_mode
set_mode-truncate read = refl
set_mode-truncate write = refl
set_mode-truncate read_write = refl

module _ (S : FileSystem) where
  open S use {W, E, FilePath, O, node}

  -- What there was is there as it was.
  abbrev pub Keeps : W → W → Type 0
  Keeps w w' = (q : FilePath) (n : Node) → node q w ≡ some n → node q w' ≡ some n

  -- Something stands at the path, and no directory, if the mode can write.
  abbrev pub Stands : OpenMode → FilePath → W → Type 0
  Stands mode p w =
      (n : Node) × (node p w ≡ some n) × (is_read mode ≡ false → (b : List ℕ) × (n ≡ bytes b))

  -- For writing, the parent is a directory, unless its path is empty.
  abbrev pub HasParent : OpenMode → FilePath → W → Type 0
  HasParent mode p w =
      is_read mode ≡ false
      → (dir : FilePath) → FileSystem.parent S p ≡ some dir
      → FileSystem.is_empty_path S dir ≡ false
      → node dir w ≡ some folder

  -- The file of a success: what stands at the path, the access of the mode, and metadata of the present.
  pub record IsOpen (mode : OpenMode) (p : FilePath) (w : W) (f : File S) : Type 0 where
    pub path : f.path ≡ p
    pub there : Stands mode p w
    pub readable : FileSystem.can_read S f.file ≡ reads mode
    pub writable : FileSystem.can_write S f.file ≡ not (is_read mode)
    pub meta : Metadata
    pub has_meta : f.metadata ≡ some meta
    pub fresh :
        (FileSystem.file_stat S f.file w >>= λ s. new (FileSystem.extension S p) s) ≡ success meta
    pub parent : HasParent mode p w

  abbrev pub Outcome : OpenMode → FilePath → Result E (File S) × W → Type 0
  Outcome mode p (success f, w) = IsOpen mode p w f
  Outcome mode p (failure e, w) = Unit

  -- A call is over: nothing is lost or cut, reading makes nothing, and the file is open if there is no error.
  pub record Opened (mode : OpenMode) (p : FilePath) (w : W) (r : Result E (File S) × W)
      : Type 0 where
    pub keeps : Keeps w r.1
    pub reads_only : is_read mode ≡ true → (q : FilePath) → node q r.1 ≡ node q w
    pub outcome : Outcome mode p r

  abbrev Made : OpenMode → FilePath → W → Result E (Unit {0}) × W → Type 0
  Made mode p w r =
      Keeps w r.1 × (is_read mode ≡ true → r.1 ≡ w) × (r.0 ≡ success tt → HasParent mode p r.1)

  create_all_parents-Made :
      (mode : OpenMode) (p : FilePath) (w : W)
      → is_read mode ≡ false
      → Made mode p w (create_all_parents S p w)
  unfolding create_all_parents
  create_all_parents-Made mode p w writes = at (FileSystem.parent S p) refl
    where
      at :
          (o : Option FilePath)
          → FileSystem.parent S p ≡ o
          → Made mode p w
              (elim o [ some dir ↦ FileSystem.create_dir_all S dir w | none ↦ (success tt, w) ])
      at none absent = (λ q n there. there, λ reading. refl, λ done writing dir is filled. cc)
      at (some d) is_d =
          let r = FileSystem.create_dir_all S d w in
          (
            λ q n there. FileSystem.create_keeps S d q w n there,
            λ reading. cc,
            λ done writing dir is filled.
                let same : d ≡ dir = cc in
                ap (λ x. node x r.1) (sym same)
                ∙ FileSystem.create_lem S d w r.1 (ap (FileSystem.is_empty_path S) same ∙ filled)
                    (ap (λ a. (a, r.1)) done),
          )

  make_parent-Made :
      (mode : OpenMode) (p : FilePath) (w : W) → Made mode p w (make_parent S mode p w)
  unfolding make_parent is_read
  make_parent-Made read p w =
      (λ q n there. there, λ reading. refl, λ done writing dir is filled. cc)
  make_parent-Made write p w = create_all_parents-Made write p w refl
  make_parent-Made read_write p w = create_all_parents-Made read_write p w refl

  with_metadata-Outcome :
      (mode : OpenMode) (p : FilePath) (w : W) (f : O)
      → Stands mode p w
      → FileSystem.can_read S f ≡ reads mode
      → FileSystem.can_write S f ≡ not (is_read mode)
      → HasParent mode p w
      → Outcome mode p (with_metadata S p f w)
  unfolding with_metadata refresh
  with_metadata-Outcome mode p w f there can_read can_write parent =
      at (FileSystem.file_stat S f w >>= λ s. new (FileSystem.extension S p) s) refl
    where
      after : Result E Metadata → Result E (Unit {0}) × File S
      after r = elim r [
        | success meta ↦ (success tt, record { file = f; metadata = some meta; path = p })
        | failure e ↦ (failure e, record { file = f; metadata = none; path = p })
      ]

      at :
          (r : Result E Metadata)
          → (FileSystem.file_stat S f w >>= λ s. new (FileSystem.extension S p) s) ≡ r
          → Outcome mode p
              (elim (after r).0 [ success u ↦ success (after r).1 | failure e ↦ failure e ], w)
      at (failure e) is = tt
      at (success meta) is = record {
        path = refl;
        there = there;
        readable = can_read;
        writable = can_write;
        meta = meta;
        has_meta = refl;
        fresh = is;
        parent = parent;
      }

  -- The raw file is opened after the parent's directory is made.
  open_raw-Opened :
      (mode : OpenMode) (p : FilePath) (w : W)
      → HasParent mode p w
      → Opened mode p w (open_raw S mode p w)
  unfolding open_raw with_metadata
  open_raw-Opened mode p w parent =
      let options = set_mode mode new_options in
      and_then-by (Opened mode p w) (with_metadata S p) (FileSystem.open_with S options p w)
        (λ f w' is.
          let kept = keeps w' (ap (λ r. r.1) is) in
          let ((n, there, is_file), can_read, can_write) =
            FileSystem.open_lem S options p w w' f is in
          record {
            keeps = kept;
            reads_only = makes_none w' (ap (λ r. r.1) is);
            outcome =
                with_metadata-Outcome mode p w' f
                  (n, there, λ writing. is_file (set_mode-write mode ∙ ap not writing))
                  (can_read ∙ set_mode-read mode) (can_write ∙ set_mode-write mode)
                  (λ writing dir of filled. kept dir folder (parent writing dir of filled));
          })
        (λ e w' is. record {
          keeps = keeps w' (ap (λ r. r.1) is);
          reads_only = makes_none w' (ap (λ r. r.1) is);
          outcome = tt;
        })
    where
      options : OpenOptions
      options = set_mode mode new_options

      keeps : (w' : W) → (FileSystem.open_with S options p w).1 ≡ w' → Keeps w w'
      keeps w' is q n there =
          ap (λ x. node q x) (sym is)
          ∙ FileSystem.open_keeps S options p q w n (set_mode-truncate mode) there

      makes_none :
          (w' : W)
          → (FileSystem.open_with S options p w).1 ≡ w'
          → is_read mode ≡ true
          → (q : FilePath) → node q w' ≡ node q w
      makes_none w' is reading q =
          ap (λ x. node q x) (sym is)
          ∙ FileSystem.open_makes_none S options p q w (set_mode-create mode reading)
              (set_mode-truncate mode)

  -- Whether it succeeds or not, opening a file cuts and loses nothing that is in the file system, and for
  -- reading also makes nothing. If it succeeds, something stands at the path, open for what the mode says, with
  -- the metadata of the present; for writing it is no directory, and the parent, if the path has one and it is
  -- not the empty path, is a directory.
  pub open_file-Opened :
      (mode : OpenMode) (p : FilePath) (w : W) → Opened mode p w (open_file S p mode w)
  unfolding open_file
  open_file-Opened mode p w =
      and_then-by (Opened mode p w) (λ u w. open_raw S mode p w) (make_parent S mode p w)
        (λ u w' is.
          let (kept, same, parent) = made w' is in
          let o = open_raw-Opened mode p w' (parent refl) in
          record {
            keeps = λ q n there. o.keeps q n (kept q n there);
            reads_only = λ reading q. o.reads_only reading q ∙ ap (λ x. node q x) (same reading);
            outcome = o.outcome;
          })
        (λ e w' is.
          let (kept, same, parent) = made w' is in
          record {
            keeps = kept;
            reads_only = λ reading q. ap (λ x. node q x) (same reading);
            outcome = tt;
          })
    where
      made :
          {r : Result E (Unit {0})} (w' : W)
          → make_parent S mode p w ≡ (r, w')
          → Made mode p w (r, w')
      made w' is = subst (Made mode p w) is (make_parent-Made mode p w)
