-- ===== src/File/Stream.antt =====
-- The buffered reader of tokio that `File` of src/file/file.rs works on, as an interface.
use atoman_rs.Prelude.{
  ℕ, zero, suc, ◌+◌, ◌≤◌, ◌<◌, ◌≡◌, List, [], ◌∷◌, ◌++◌, length, ◌==◌, if◌then◌else◌,
}
use atoman_rs.Prelude.Result.{Result, success}

-- `negsuc n` is -(n + 1).
pub data ℤ : Type 0 where
  pos : ℕ → ℤ
  negsuc : ℕ → ℤ

abbrev pub neg : ℕ → ℤ
neg zero = pos 0
neg (suc n) = negsuc n

-- `SeekFrom` of file.rs; the conversions from and to tokio's own type keep the constructor.
pub data SeekFrom : Type 0 where
  start : ℕ → SeekFrom
  end_of : ℤ → SeekFrom
  current : ℤ → SeekFrom

-- The bytes up to the first `b`, itself included.
abbrev pub through : ℕ → List ℕ → List ℕ
through b [] = []
through b (x ∷ xs) = if x == b then x ∷ [] else x ∷ through b xs

-- `past` and `rest` are the file's bytes before and after the cursor. The laws are what the
-- documentation of `AsyncReadExt::read`, `AsyncBufReadExt::read_until` and `AsyncSeekExt::seek`
-- says of calls that succeed, while nobody else writes the file.
pub record Stream : Type 1 where
  pub R : Type 0
  pub E : Type 0
  pub past : R → List ℕ
  pub rest : R → List ℕ
  pub read : ℕ → R → Result E (List ℕ) × R
  pub read_until : ℕ → R → Result E (List ℕ) × R
  pub seek : SeekFrom → R → Result E ℕ × R
  pub read_lem :
      (n : ℕ) (r r' : R) (c : List ℕ)
      → 0 < n
      → read n r ≡ (success c, r')
      → (past r' ≡ past r ++ c) × (rest r ≡ c ++ rest r') × (length c ≤ n) × (c ≡ [] → rest r ≡ [])
  pub read_until_lem :
      (b : ℕ) (r r' : R) (c : List ℕ)
      → read_until b r ≡ (success c, r')
      → (c ≡ through b (rest r)) × (rest r ≡ c ++ rest r')
  pub seek_back_lem :
      (k p : ℕ) (r r' : R)
      → k ≤ length (past r)
      → seek (current (neg k)) r ≡ (success p, r')
      → (past r' ++ rest r' ≡ past r ++ rest r) × (length (past r') + k ≡ length (past r))
