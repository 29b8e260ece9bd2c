-- ===== src/Logger/Disk.antt =====
-- What src/logger/mod.rs uses of clocks and of files, as interfaces.
use atoman_rs.Prelude.{
  ℕ, ◌≡◌, Bool, true, false, Option, some, List, Every, ◌==◌, [], ◌∷◌, ◌++◌, Text,
}

-- A name of a file in a directory.
abbrev pub IsName : Text → Type 0
IsName = Every (λ c. (c == b'/') ≡ false)

-- `DateTime<Utc>`: its second since 1970, its day, and its texts to the second and to the microsecond.
-- The text to the second is known from the second.
pub record Clock : Type 1 where
  pub Time : Type 0
  pub seconds : Time → ℕ
  pub day : Time → ℕ
  pub to_second : Time → Text
  pub to_microsecond : Time → Text
  pub to_microsecond-IsName : (t : Time) → IsName (to_microsecond t)
  pub to_second_lem : (t u : Time) → seconds t ≡ seconds u → to_second t ≡ to_second u

-- Files behind `BufWriter`s. `written` lists the pieces that writers were given, with their files, in
-- their order, `stored` those that are in the files, and `holders` the files whose writers hold back some
-- bytes. The laws say that opening to append and flushing give the writers no piece and that a write that
-- succeeds gives its piece; that a write may make the file's own writer hold bytes, and a flush that succeeds
-- leaves it none; and that without held bytes all that was given is in the files.
pub record Disk : Type 1 where
  pub D : Type 0
  pub FilePath : Type 0
  pub parent : FilePath → Option FilePath
  pub join : FilePath → Text → FilePath
  pub open_append : FilePath → D → Bool × D
  pub write_all : FilePath → Text → D → Bool × D
  pub flush : FilePath → D → Bool × D
  pub written : D → List (FilePath × Text)
  pub stored : D → List (FilePath × Text)
  pub holders : D → List FilePath
  pub parent-join : (d : FilePath) (t : Text) → IsName t → parent (join d t) ≡ some d
  pub written-open_append : (p : FilePath) (d : D) → written (open_append p d).1 ≡ written d
  pub written-flush : (p : FilePath) (d : D) → written (flush p d).1 ≡ written d
  pub written-write_all :
      (p : FilePath) (t : Text) (d : D)
      → (write_all p t d).0 ≡ true
      → written (write_all p t d).1 ≡ written d ++ (p, t) ∷ []
  pub holders-open_append :
      (p : FilePath) (d : D) → holders d ≡ [] → holders (open_append p d).1 ≡ []
  pub holders-write_all :
      (p : FilePath) (t : Text) (d : D)
      → holders d ≡ []
      → Every (λ q. q ≡ p) (holders (write_all p t d).1)
  pub holders-flush :
      (p : FilePath) (d : D)
      → (flush p d).0 ≡ true
      → Every (λ q. q ≡ p) (holders d)
      → holders (flush p d).1 ≡ []
  pub stored-written : (d : D) → holders d ≡ [] → stored d ≡ written d

-- A disk that never fails.
pub record IsReliable (S : Disk) : Type 0 where
  pub opens : (p : Disk.FilePath S) (d : Disk.D S) → (Disk.open_append S p d).0 ≡ true
  pub writes : (p : Disk.FilePath S) (t : Text) (d : Disk.D S) → (Disk.write_all S p t d).0 ≡ true
  pub flushes : (p : Disk.FilePath S) (d : Disk.D S) → (Disk.flush S p d).0 ≡ true
