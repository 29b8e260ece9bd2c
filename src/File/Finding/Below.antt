-- ===== src/File/Finding/Below.antt =====
-- That what the searches of src/file/dir.rs in the directories below give is there.
use atoman_rs.Prelude.{
  ℕ, zero, suc, ◌≡◌, refl, Bool, true, false, not, ◌&&◌, ◌||◌, Option, none, some, List, [], ◌∷◌,
  ◌++◌, map, Every, Every-append, Every-imp, if◌then◌else◌,
}
use atoman_rs.Prelude.Result.{Result, success, failure}
use atoman_rs.File.Entries.{is_file, is_dir, is_symlink, Entry}
use atoman_rs.File.Dir.{keep}
use atoman_rs.File.Finding.{Dirs, is_candidate, open_dir, search, search_below, deep_search}

pub data Among {A : Type 0} (x : A) : List A → Type 0 where
  first : {xs : List A} → Among x (x ∷ xs)
  later : {y : A} {xs : List A} → Among x xs → Among x (y ∷ xs)

module _ {A : Type 0} where
  later-Every :
      (y : A) (xs zs : List A) → Every (λ z. Among z xs) zs → Every (λ z. Among z (y ∷ xs)) zs
  later-Every y xs [] h = tt
  later-Every y xs (z ∷ zs) h = (later h.0, later-Every y xs zs h.1)

  -- What is kept is among the elements and passes.
  pub keep-Among : (p : A → Bool) (xs : List A) → Every (λ z. Among z xs × (p z ≡ true)) (keep p xs)
  keep-Among p [] = tt
  keep-Among p (x ∷ xs) = at (p x) refl (up (keep p xs) (keep-Among p xs))
    where
      up :
          (zs : List A)
          → Every (λ z. Among z xs × (p z ≡ true)) zs
          → Every (λ z. Among z (x ∷ xs) × (p z ≡ true)) zs
      up [] h = tt
      up (z ∷ zs) ((m, q), h) = ((later m, q), up zs h)

      at :
          (b : Bool)
          → p x ≡ b
          → Every (λ z. Among z (x ∷ xs) × (p z ≡ true)) (keep p xs)
          → Every (λ z. Among z (x ∷ xs) × (p z ≡ true)) (if b then x ∷ keep p xs else keep p xs)
      at true e h = ((first, e), h)
      at false e h = h

  -- A property of the elements of a list holds of what is among them.
  pub Among-Every : (P : A → Type 0) (xs : List A) {x : A} → Among x xs → Every P xs → P x
  Among-Every P [] m h = elim m [ ]
  Among-Every P (x ∷ xs) first h = h.0
  Among-Every P (x ∷ xs) (later m) h = Among-Every P xs m h.1

Every-map :
    {A B : Type 0} (f : A → B) (P : B → Type 0) (xs : List A)
    → Every (λ x. P (f x)) xs
    → Every P (map f xs)
Every-map f P [] h = tt
Every-map f P (x ∷ xs) h = (h.0, Every-map f P xs h.1)

module _ (F : Dirs) (files_only : Bool) where
  open F use {E, P}

  -- The path is that of a candidate in the directory, or in one below it that can be opened.
  pub data Found : List (Entry P) → P → Type 0 where
    in_dir :
        {es : List (Entry P)} {e : Entry P}
        → Among e es
        → is_candidate files_only e.kind ≡ true
        → Found es e.path
    below :
        {es subdir : List (Entry P)} {d : Entry P} {q : P}
        → Among d es
        → is_dir d.kind ≡ true
        → open_dir F d.path ≡ success subdir
        → Found subdir q
        → Found es q

  -- There are fewer than so many levels of directories.
  abbrev pub IsShallow : ℕ → List (Entry P) → Type 0
  IsShallow zero es = ⊥
  IsShallow (suc n) es =
      Every
        (λ d. elim (open_dir F d.path) [ failure e ↦ Unit | success subdir ↦ IsShallow n subdir ])
        (keep (λ e. is_dir e.kind) es)

  -- A deep search ends: all that it gives is found, and if it gives an error, a directory that stands in this
  -- one cannot be opened, for that reason.
  abbrev pub Searched : List (Entry P) → Option (Result E (List P)) → Type 0
  Searched es none = ⊥
  Searched es (some (success ps)) = Every (Found es) ps
  Searched es (some (failure e)) =
      (d : Entry P) × Among d es × (is_dir d.kind ≡ true) × (open_dir F d.path ≡ failure e)

  both : {a b : Bool} → a ≡ true → b ≡ true → a && b ≡ true
  both h k = rw (h, k) refl

  candidate-Found :
      (es : List (Entry P)) (e : Entry P)
      → Among e
          (keep (λ e. not files_only || is_file e.kind) (keep (λ e. not (is_symlink e.kind)) es))
      → Found es e.path
  candidate-Found es e m =
      let link : Entry P → Bool = λ e. not (is_symlink e.kind) in
      let only : Entry P → Bool = λ e. not files_only || is_file e.kind in
      let (among, is_only) =
        Among-Every (λ z. Among z (keep link es) × (only z ≡ true)) (keep only (keep link es)) m
          (keep-Among only (keep link es)) in
      let (here, is_link) =
        Among-Every (λ z. Among z es × (link z ≡ true)) (keep link es) among (keep-Among link es) in
      in_dir here (both is_link is_only)

  search-Found :
      (search_filter : List (Entry P) → List (Entry P)) (es : List (Entry P))
      → ((es : List (Entry P)) → Every (λ e. Among e es) (search_filter es))
      → Every (Found es) (search F search_filter files_only es)
  unfolding search
  search-Found search_filter es keeps =
      let kept =
        keep (λ (e : Entry P). not files_only || is_file e.kind)
          (keep (λ (e : Entry P). not (is_symlink e.kind)) es) in
      Every-map (λ e. e.path) (Found es) (search_filter kept)
        (Every-imp (λ e. Among e kept) (λ e. Found es e.path) (search_filter kept)
          (candidate-Found es) (keeps kept))

  module _ (more : List (Entry P) → Option (Result E (List P))) (n : ℕ)
      (good : (sub : List (Entry P)) → IsShallow n sub → Searched sub (more sub))
      (search_filter : List (Entry P) → List (Entry P)) (es : List (Entry P)) where
    search_below-Searched :
        (results : List P) (ds : List (Entry P))
        → Every (Found es) results
        → Every (λ d. Among d es × (is_dir d.kind ≡ true)) ds
        → Every
            (λ d. elim (open_dir F d.path) [
              | failure e ↦ Unit
              | success subdir ↦ IsShallow n subdir
            ])
            ds
        → Searched es (search_below F search_filter files_only more results ds)
    unfolding search_below
    search_below-Searched results [] found inside shallow = found
    search_below-Searched results (d ∷ ds) found inside shallow =
        opened (λ results found. search_below-Searched results ds found inside.1 shallow.1)
          (open_dir F d.path) refl shallow.0
      where
        next :
            ((results : List P)
              → Every (Found es) results
              → Searched es (search_below F search_filter files_only more results ds))
            → (subdir : List (Entry P)) → open_dir F d.path ≡ success subdir
            → (s : Option (Result E (List P))) → Searched subdir s
            → Searched es (elim s [
              | none ↦ none
              | some (failure e) ↦ search_below F search_filter files_only more results ds
              | some (success subresults) ↦
                  search_below F search_filter files_only more (results ++ subresults) ds
            ])
        next rest subdir there none h = h
        next rest subdir there (some (failure e)) h = rest results found
        next rest subdir there (some (success ps)) h = rest (results ++ ps) (
            Every-append (Found es) results ps found (
              Every-imp (Found subdir) (Found es) ps (λ q f. below inside.0.0 inside.0.1 there f)
                h))

        opened :
            ((results : List P)
              → Every (Found es) results
              → Searched es (search_below F search_filter files_only more results ds))
            → (r : Result E (List (Entry P))) → open_dir F d.path ≡ r
            → elim r as (λ r. Type 0) [ failure e ↦ Unit | success subdir ↦ IsShallow n subdir ]
            → Searched es (elim r [
              | failure e ↦ some (failure e)
              | success subdir ↦ elim (more subdir) [
                | none ↦ none
                | some (failure e) ↦ search_below F search_filter files_only more results ds
                | some (success subresults) ↦
                    search_below F search_filter files_only more (results ++ subresults) ds
              ]
            ])
        opened rest (failure e) there sh = (d, inside.0.0, inside.0.1, there)
        opened rest (success subdir) there sh =
            next rest subdir there (more subdir) (good subdir sh)

  pub deep_search-Searched :
      (search_filter : List (Entry P) → List (Entry P))
      → ((es : List (Entry P)) → Every (λ e. Among e es) (search_filter es))
      → (fuel : ℕ) (es : List (Entry P)) → IsShallow fuel es
      → Searched es (deep_search F search_filter files_only fuel es)
  unfolding deep_search
  deep_search-Searched search_filter keeps zero es shallow = absurd shallow
  deep_search-Searched search_filter keeps (suc fuel) es shallow =
      search_below-Searched (deep_search F search_filter files_only fuel) fuel
        (deep_search-Searched search_filter keeps fuel) search_filter es
        (search F search_filter files_only es) (keep (λ e. is_dir e.kind) es)
        (search-Found search_filter es keeps) (keep-Among (λ e. is_dir e.kind) es) shallow
