-- ===== src/Trace/Latest.antt =====
-- `MultiTrace::find_latest_file` (src/trace/mod.rs): the last file of a directory in the order of paths.
--
-- The reader of the directory is the list of what it gives, an entry or an error at each call.
use atoman_rs.Prelude.{
  ◌≡◌, ◌∙◌, ◌⊎◌, refl, sym, ap, subst, Bool, true, false, Option, none, some, List, [], ◌∷◌, Every,
  if◌then◌else◌, Bool-cases, inl, inr, length, arith,
}
use atoman_rs.Prelude.Result.{Result, success, failure}
use atoman_rs.Prelude.Sorting.{
  last, sort, last-sort, last-none, sort-Every, Every-last, length-sort,
}

pub record DirItem (P : Type 0) : Type 0 where
  pub path : P
  pub is_file : Bool

module _ {E P : Type 0} where
  -- The files up to the first error.
  unfoldable pub listed_files : List (Result E (DirItem P)) → List P
  listed_files [] = []
  listed_files (failure e ∷ es) = []
  listed_files (success e ∷ es) =
      let rest = listed_files es in if e.is_file then e.path ∷ rest else rest

  unfoldable pub find_latest_file :
      (P → P → Bool) → Result E (List (Result E (DirItem P))) → Option P
  unfolding listed_files sort
  find_latest_file le (failure e) = none
  find_latest_file le (success es) = last (sort le (listed_files es))

-- The path stands among the entries before the first error, as a file.
pub data Listed {E P : Type 0} (p : P) : List (Result E (DirItem P)) → Type 0 where
  here :
      {e : DirItem P} {es : List (Result E (DirItem P))}
      → e.is_file ≡ true
      → e.path ≡ p
      → Listed p (success e ∷ es)
  later :
      {e : DirItem P} {es : List (Result E (DirItem P))} → Listed p es → Listed p (success e ∷ es)

module _ {E P : Type 0} where
  Listed-Every :
      (e : DirItem P) (es : List (Result E (DirItem P))) (ps : List P)
      → Every (λ p. Listed p es) ps
      → Every (λ p. Listed p (success e ∷ es)) ps
  Listed-Every e es [] h = tt
  Listed-Every e es (p ∷ ps) h = (later h.0, Listed-Every e es ps h.1)

  listed_files-Listed :
      (es : List (Result E (DirItem P))) → Every (λ p. Listed p es) (listed_files es)
  unfolding listed_files
  listed_files-Listed [] = tt
  listed_files-Listed (failure e ∷ es) = tt
  listed_files-Listed (success e ∷ es) =
      let rest = Listed-Every e es (listed_files es) (listed_files-Listed es) in
      at e.is_file refl rest
    where
      at :
          (b : Bool)
          → e.is_file ≡ b
          → Every (λ p. Listed p (success e ∷ es)) (listed_files es)
          → Every
              (λ p. Listed p (success e ∷ es))
              (if b then e.path ∷ listed_files es else listed_files es)
      at true is_one rest = (here is_one refl, rest)
      at false is_none rest = rest

  listed_files-Listed-nil :
      (es : List (Result E (DirItem P))) {p : P} → Listed p es → ¬ (listed_files es ≡ [])
  unfolding listed_files
  listed_files-Listed-nil [] there none_there = elim there [ ]
  listed_files-Listed-nil (failure e ∷ es) there none_there = elim there [ ]
  listed_files-Listed-nil (success e ∷ es) (here is_one same) none_there = ground (arith, is_one)
  listed_files-Listed-nil (success e ∷ es) (later there) none_there =
      listed_files-Listed-nil es there (shorter (Bool-cases e.is_file))
    where
      shorter : (e.is_file ≡ true) ⊎ (e.is_file ≡ false) → listed_files es ≡ []
      shorter (inl yes_file) = ground (arith, yes_file)
      shorter (inr no_file) = ground (arith, no_file)

  -- What holds of all files that the loop collects holds of every one that is listed.
  Every-Listed :
      (Q : P → Type 0) (es : List (Result E (DirItem P)))
      → Every Q (listed_files es)
      → (p : P) → Listed p es
      → Q p
  unfolding listed_files
  Every-Listed Q [] all p there = elim there [ ]
  Every-Listed Q (failure e ∷ es) all p there = elim there [ ]
  Every-Listed Q (success e ∷ es) all p (here is_one same) =
      subst Q same
        (subst (λ b. Every Q (if b then e.path ∷ listed_files es else listed_files es)) is_one
          all).0
  Every-Listed Q (success e ∷ es) all p (later there) =
      Every-Listed Q es (rest e.is_file all) p there
    where
      rest :
          (b : Bool)
          → Every Q (if b then e.path ∷ listed_files es else listed_files es)
          → Every Q (listed_files es)
      rest true all = all.1
      rest false all = all

-- What the choice of a file means: a file that is listed and above every other one in the order, or none
-- as there is none.
abbrev pub IsLatest :
    {E P : Type 0} → (P → P → Bool) → List (Result E (DirItem P)) → Option P → Type 0
IsLatest {P = P} le es none = (p : P) → ¬ Listed p es
IsLatest {P = P} le es (some m) = Listed m es × ((p : P) → Listed p es → le p m ≡ true)

module _ {E P : Type 0} (le : P → P → Bool) where
  sort-IsLatest :
      (es : List (Result E (DirItem P)))
      → ((a b : P) → le a b ≡ false → le b a ≡ true)
      → ((a b c : P) → le a b ≡ true → le b c ≡ true → le a c ≡ true)
      → ((a : P) → le a a ≡ true)
      → (o : Option P) → last (sort le (listed_files es)) ≡ o
      → IsLatest le es o
  sort-IsLatest es total trans self none e = λ p there.
      let empty : sort le (listed_files es) ≡ [] = last-none (sort le (listed_files es)) e in
      let size = length-sort le (listed_files es) in
      let zero_long : length (listed_files es) ≡ 0 = sym size ∙ ap length empty in
      listed_files-Listed-nil es there (length-zero (listed_files es) zero_long)
    where
      length-zero : (ps : List P) → length ps ≡ 0 → ps ≡ []
      length-zero [] e = refl
      length-zero (p ∷ ps) e = absurd (omega arith)
  sort-IsLatest es total trans self (some m) e = (
    Every-last (λ p. Listed p es) (sort le (listed_files es))
        (sort-Every le (λ p. Listed p es) (listed_files es) (listed_files-Listed es)) e,
    Every-Listed (λ p. le p m ≡ true) es (last-sort le total trans self (listed_files es) e),
  )

  -- Where the order of paths is total: if the directory can be read, what is found is a file that is listed
  -- before the first error, above all the files listed there; nothing is found exactly if there is none.
  pub find_latest_file-IsLatest :
      (es : List (Result E (DirItem P)))
      → ((a b : P) → le a b ≡ false → le b a ≡ true)
      → ((a b c : P) → le a b ≡ true → le b c ≡ true → le a c ≡ true)
      → ((a : P) → le a a ≡ true)
      → IsLatest le es (find_latest_file le (success es))
  unfolding find_latest_file
  find_latest_file-IsLatest es total trans self =
      sort-IsLatest es total trans self (last (sort le (listed_files es))) refl
