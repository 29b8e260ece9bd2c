-- ===== src/Logger/Rotation.antt =====
-- `Logger::init` and the removal of old log files (src/logger/mod.rs).
--
-- What the file system answers comes as arguments. The spawn of the worker and the registration of the
-- layer are left out.
use atoman_rs.Prelude.{
  ℕ, ◌-◌, ◌≡◌, ◌∙◌, refl, ap, arith, Bool, true, false, Option, none, some, List, [], ◌∷◌, ◌++◌,
  length, ltb, lt→ltb, ◌<◌, leb, take, drop, Every, Text, if◌then◌else◌, map, Bool-cases, ◌⊎◌, inl,
  inr, take-append-drop, length-drop,
}
use Prim.Native.Nat.{min}
use mathlib.Core.List.{Perm}
use atoman_rs.Prelude.Result.{Result, success, failure, ◌>>=◌}
use atoman_rs.Prelude.Sorting.{sort, length-sort, sort-perm, sort-IsSorted, split-IsSorted}
use atoman_rs.Logger.{LoggerState}
use atoman_rs.Logger.Disk.{Clock, Disk}
use atoman_rs.Logger.Worker.{gen_path}

-- An entry of the directory: whether its extension is `log`, and when it was created, if that is known.
pub record LogFile (P : Type 0) : Type 0 where
  pub path : P
  pub is_log : Bool
  pub created : Option ℕ

-- The order of `Option<SystemTime>`.
abbrev pub time_le : Option ℕ → Option ℕ → Bool
time_le none t = true
time_le (some a) none = false
time_le (some a) (some b) = leb a b

abbrev pub older : {P : Type 0} → LogFile P → LogFile P → Bool
older a b = time_le a.created b.created

module _ {E P : Type 0} where
  -- The loop over the directory: the log files, or the first error.
  unfoldable pub log_files : List (Result E (LogFile P)) → Result E (List (LogFile P))
  log_files [] = success []
  log_files (failure e ∷ es) = failure e
  log_files (success f ∷ es) = do rest ← log_files es; success (if f.is_log then f ∷ rest else rest)

-- The log files among entries.
pub data LogFiles {P : Type 0} : List (LogFile P) → List (LogFile P) → Type 0 where
  no_entries : LogFiles [] []
  takes :
      {f : LogFile P} {fs files : List (LogFile P)}
      → f.is_log ≡ true
      → LogFiles fs files
      → LogFiles (f ∷ fs) (f ∷ files)
  passes :
      {f : LogFile P} {fs files : List (LogFile P)}
      → f.is_log ≡ false
      → LogFiles fs files
      → LogFiles (f ∷ fs) files

-- If no entry is an error, the loop gives the log files.
log_files-LogFiles :
    {E P : Type 0} (fs : List (LogFile P))
    → (files : List (LogFile P)) × (log_files {E = E} (map success fs) ≡ success files)
      × LogFiles fs files
unfolding log_files
log_files-LogFiles [] = ([], refl, no_entries)
log_files-LogFiles {E = E} {P = P} (f ∷ fs) =
    at (log_files-LogFiles {E = E} fs) (Bool-cases f.is_log)
  where
    at :
        (files : List (LogFile P)) × (log_files {E = E} (map success fs) ≡ success files)
          × LogFiles fs files
        → (f.is_log ≡ true) ⊎ (f.is_log ≡ false)
        → (files : List (LogFile P)) × (log_files {E = E} (map success (f ∷ fs)) ≡ success files)
          × LogFiles (f ∷ fs) files
    at (files, run, logs) (inl log) = (f ∷ files, rw (run, log) refl, takes log logs)
    at (files, run, logs) (inr other) = (files, rw (run, other) refl, passes other logs)

module _ {P : Type 0} where
  -- The files to remove.
  unfoldable pub old_files : ℕ → List (LogFile P) → List (LogFile P)
  unfolding sort
  old_files max_files files =
      let sorted = sort older files in
      if ltb max_files (length sorted) then take (length sorted - max_files) sorted else []

  total : (a b : LogFile P) → older a b ≡ false → older b a ≡ true
  total a b h = at a.created b.created h
    where
      at : (s t : Option ℕ) → time_le s t ≡ false → time_le t s ≡ true
      at none t h = cc
      at (some a) none h = refl
      at (some a) (some b) h = ground arith

  trans : (a b c : LogFile P) → older a b ≡ true → older b c ≡ true → older a c ≡ true
  trans a b c h k = at a.created b.created c.created h k
    where
      at : (s t u : Option ℕ) → time_le s t ≡ true → time_le t u ≡ true → time_le s u ≡ true
      at none t u h k = refl
      at (some a) none u h k = cc
      at (some a) (some b) none h k = cc
      at (some a) (some b) (some c) h k = ground arith

  self : (a : LogFile P) → older a a ≡ true
  self a = at a.created
    where
      at : (s : Option ℕ) → time_le s s ≡ true
      at none = refl
      at (some a) = ground arith

  old-take :
      (max_files : ℕ) (files : List (LogFile P))
      → old_files max_files files ≡ take (length (sort older files) - max_files) (sort older files)
  unfolding old_files
  old-take max_files files = elim (Bool-cases (ltb max_files (length (sort older files)))) [
    | inl many ↦ rw many refl
    | inr few ↦
        let e : 0 ≡ length (sort older files) - max_files = ground arith in
        rw few (ap (λ n. take n (sort older files)) e)
  ]

  -- The files are split into the old ones and others, of which there are `max_files`, or as many as there
  -- were if those are fewer; no old one is younger than one of the others.
  old_files_lem :
      (max_files : ℕ) (files : List (LogFile P))
      → let old = old_files max_files files in
        (kept : List (LogFile P)) × Perm (old ++ kept) files
        × (length kept ≡ min max_files (length files))
        × Every (λ o. Every (λ k. older o k ≡ true) kept) old
  unfolding old_files
  old_files_lem max_files files =
      let sorted = sort older files in
      let n = length sorted - max_files in
      let long = length-sort older files in
      (
        drop n sorted,
        rw (old-take max_files files, take-append-drop n sorted) (sort-perm older files),
        omega (arith, length-drop n sorted),
        rw (old-take max_files files)
            (split-IsSorted older n sorted (sort-IsSorted older total trans self files)),
      )

module _ (K : Clock) (S : Disk) (E : Type 0) where
  open K use {Time}
  open S use {FilePath}

  -- What `init` meets: `logs_dir`, if its path is not empty, the answer of `create_dir_all`, the entries of the
  -- directory, and the time that `gen_path` reads.
  pub record Found : Type 0 where
    pub logs_dir : Option FilePath
    pub made : Result E (Unit {0})
    pub listing : Result E (List (Result E (LogFile FilePath)))
    pub now : Time

  -- Nothing is removed if `max_files` is 0.
  unfoldable pub remove_old :
      ℕ → Result E (List (Result E (LogFile FilePath))) → Result E (List (LogFile FilePath))
  unfolding log_files old_files
  remove_old max_files listing =
      let old = (do es ← listing; files ← log_files es; success (old_files max_files files)) in
      if ltb 0 max_files then old else success []

  abbrev started : Option FilePath → LoggerState FilePath
  started p = record { level = none; path = p; tx = true }

  unfoldable pub init_in :
      Text → ℕ → Found → Option FilePath → Result E (List FilePath × LoggerState FilePath)
  unfolding gen_path remove_old
  init_in pid max_files env none = success ([], started none)
  init_in pid max_files env (some dir) = do
    made ← env.made
    old ← remove_old max_files env.listing
    success (map (λ f. f.path) old, started (some (gen_path K S pid dir env.now)))

  -- The files to remove, errors of which are dropped, and what `LOGGER_STATE` is set to.
  unfoldable pub init : Text → ℕ → Found → Result E (List FilePath × LoggerState FilePath)
  unfolding init_in
  init pid max_files env = init_in pid max_files env env.logs_dir

  -- If the directory is made and read without an error, of the listing or of an entry, and at least one file is to
  -- stay, `init` succeeds with a new path in that directory; the entries with the extension of log files, and
  -- no others, are split into those whose paths it removes and others, of which there are `max_files`, or as many
  -- as there were if those are fewer; no file that is removed is younger than one that stays.
  pub init_rotates :
      (pid : Text) (max_files : ℕ) (env : Found) {dir : FilePath} {fs : List (LogFile FilePath)}
      → env.logs_dir ≡ some dir
      → env.made ≡ success tt
      → env.listing ≡ success (map success fs)
      → 0 < max_files
      → (files : List (LogFile FilePath)) × LogFiles fs files
        × (old : List (LogFile FilePath)) × (init pid max_files env
            ≡ success (
              map (λ f. f.path) old,
              record { level = none; path = some (gen_path K S pid dir env.now); tx = true },
            ))
        × (kept : List (LogFile FilePath)) × Perm (old ++ kept) files
        × (length kept ≡ min max_files (length files))
        × Every (λ o. Every (λ k. older o k ≡ true) kept) old
  unfolding init
  init_rotates pid max_files env {fs} dir made listing many =
      let (files, found, logs) = log_files-LogFiles {E = E} fs in
      let split = old_files_lem max_files files in
      let removed : remove_old max_files env.listing ≡ success (old_files max_files files) =
        unfold remove_old in simp (listing, found, lt→ltb 0 max_files many) in
      (
        files,
        logs,
        old_files max_files files,
        ap (init_in pid max_files env) dir ∙ unfold init_in in simp (made, removed),
        split.0,
        split.1,
        split.2,
        split.3,
      )
