-- ===== src/File/Entries.antt =====
-- `FileKind`, `Entries` and the readings of a directory (src/file/kind.rs, src/file/entries.rs,
-- src/file/dir.rs).
--
-- A directory's reader is the list of what it still gives: an entry or an error at each call, and
-- nothing at its end.
use atoman_rs.Prelude.{
  Every, ap, Bool-cases, inl, inr, ◌≡◌, refl, Bool, true, false, Option, none, some, List, [], ◌∷◌,
  ◌++◌, map, if◌then◌else◌,
}
use atoman_rs.Prelude.Result.{Result, success, failure}

pub data FileKind : Type 0 where
  file : FileKind
  dir : FileKind
  symlink : FileKind

unfoldable pub is_file : FileKind → Bool
is_file file = true
is_file dir = false
is_file symlink = false

unfoldable pub is_dir : FileKind → Bool
is_dir file = false
is_dir dir = true
is_dir symlink = false

unfoldable pub is_symlink : FileKind → Bool
is_symlink file = false
is_symlink dir = false
is_symlink symlink = true

pub record Entry (P : Type 0) : Type 0 where
  pub path : P
  pub kind : FileKind

-- What `fs::ReadDir` gives, with the kind that `DirEntry::file_type` finds, or an error of either.
abbrev pub Entries : Type 0 → Type 0 → Type 0
Entries E P = List (Result E (Entry P))

module _ {E P : Type 0} where
  unfoldable pub next_entry : Entries E P → Result E (Option (Entry P)) × Entries E P
  next_entry [] = (success none, [])
  next_entry (success e ∷ es) = (success (some e), es)
  next_entry (failure e ∷ es) = (failure e, es)

  -- `next_file`, `next_dir` and `next_symlink`: the loop that skips other kinds.
  unfoldable pub next_of :
      (FileKind → Bool) → Entries E P → Result E (Option (Entry P)) × Entries E P
  next_of keep [] = (success none, [])
  next_of keep (failure e ∷ es) = (failure e, es)
  next_of keep (success e ∷ es) =
      let rest = next_of keep es in if keep e.kind then (success (some e), es) else rest

  unfoldable pub next_file : Entries E P → Result E (Option (Entry P)) × Entries E P
  unfolding next_of is_file
  next_file = next_of is_file

  unfoldable pub next_dir : Entries E P → Result E (Option (Entry P)) × Entries E P
  unfolding next_of is_dir
  next_dir = next_of is_dir

  unfoldable pub next_symlink : Entries E P → Result E (Option (Entry P)) × Entries E P
  unfolding next_of is_symlink
  next_symlink = next_of is_symlink

  -- What stands at the front and is passed over.
  abbrev Skips : (FileKind → Bool) → Entries E P → Entries E P → Type 0
  Skips keep es tail =
      (skipped : List (Entry P)) × (es ≡ map success skipped ++ tail)
      × Every (λ e. keep e.kind ≡ false) skipped

  abbrev pub Next :
      (FileKind → Bool) → Entries E P → Result E (Option (Entry P)) × Entries E P → Type 0
  Next keep es (success (some e), rest) = (keep e.kind ≡ true) × Skips keep es (success e ∷ rest)
  Next keep es (success none, rest) = (rest ≡ []) × Skips keep es []
  Next keep es (failure f, rest) = Skips keep es (failure f ∷ rest)

  skip_one :
      (keep : FileKind → Bool) (e : Entry P) (es tail : Entries E P)
      → keep e.kind ≡ false
      → Skips keep es tail
      → Skips keep (success e ∷ es) tail
  skip_one keep e es tail fails (skipped, same, none_fits) =
      (e ∷ skipped, ap (λ l. success e ∷ l) same, (fails, none_fits))

  Next-skip :
      (keep : FileKind → Bool) (e : Entry P) (es : Entries E P)
      → keep e.kind ≡ false
      → (r : Result E (Option (Entry P)) × Entries E P) → Next keep es r
      → Next keep (success e ∷ es) r
  Next-skip keep e es fails (success (some f), rest) (fits, skips) =
      (fits, skip_one keep e es (success f ∷ rest) fails skips)
  Next-skip keep e es fails (success none, rest) (gone, skips) =
      (gone, skip_one keep e es [] fails skips)
  Next-skip keep e es fails (failure f, rest) skips =
      skip_one keep e es (failure f ∷ rest) fails skips

  next_of-Next : (keep : FileKind → Bool) (es : Entries E P) → Next keep es (next_of keep es)
  unfolding next_of
  next_of-Next keep [] = (refl, ([], refl, tt))
  next_of-Next keep (failure f ∷ es) = ([], refl, tt)
  next_of-Next keep (success e ∷ es) = elim (Bool-cases (keep e.kind)) [
    | inl fits ↦ rw fits (fits, ([], refl, tt))
    | inr fails ↦ rw fails (Next-skip keep e es fails (next_of keep es) (next_of-Next keep es))
  ]

  -- `next_file`, `next_dir` and `next_symlink` give the first entry of their kind, or the error that
  -- comes before it, or nothing if there is neither, and pass over the entries before that.
  pub first_of_kind :
      (es : Entries E P)
      → Next is_file es (next_file es)
        × Next is_dir es (next_dir es)
        × Next is_symlink es (next_symlink es)
  unfolding next_file next_dir next_symlink
  first_of_kind es = (next_of-Next is_file es, next_of-Next is_dir es, next_of-Next is_symlink es)
