-- ===== src/File/Dir.antt =====
-- The readings of a directory (src/file/dir.rs) and how they agree.
use atoman_rs.Prelude.{subst, ◌≡◌, refl, ap, ◌∙◌, Bool, true, List, [], ◌∷◌, if◌then◌else◌}
use atoman_rs.Prelude.Result.{Result, success, failure, ◌>>=◌}
use atoman_rs.File.Entries.{
  FileKind, file, dir, symlink, is_file, is_dir, is_symlink, Entry, Entries,
}

-- A result with its value changed.
abbrev pub map_ok : {E A B : Type 0} → (A → B) → Result E A → Result E B
map_ok f (success a) = success (f a)
map_ok f (failure e) = failure e

-- The elements that pass.
abbrev pub keep : {A : Type 0} → (A → Bool) → List A → List A
keep p [] = []
keep p (x ∷ xs) = let rest = keep p xs in if p x then x ∷ rest else rest

-- The calls of the two handlers, each in its order.
pub record Handled (P : Type 0) : Type 0 where
  pub on_file : List (Entry P)
  pub on_dir : List (Entry P)

unfoldable pub handle : {P : Type 0} → Entry P → Handled P → Handled P
unfolding is_symlink is_dir
handle e later =
    if is_symlink e.kind
    then later
    else if is_dir e.kind
    then record later { on_dir = e ∷ later.on_dir }
    else record later { on_file = e ∷ later.on_file }

handle-parts :
    {P : Type 0} (p : P) (k : FileKind) (h : Handled P)
    → let e : Entry P = record { path = p; kind = k } in
      ((handle e h).on_file ≡ (if is_file k then e ∷ h.on_file else h.on_file))
      × ((handle e h).on_dir ≡ (if is_dir k then e ∷ h.on_dir else h.on_dir))
unfolding handle is_file is_dir is_symlink
handle-parts p file h = (refl, refl)
handle-parts p dir h = (refl, refl)
handle-parts p symlink h = (refl, refl)

module _ {P : Type 0} where
  abbrev Split : Handled P → List (Entry P) → Type 0
  Split h es =
      (h.on_file ≡ keep (λ e. is_file e.kind) es) × (h.on_dir ≡ keep (λ e. is_dir e.kind) es)

  handle-Split :
      (e : Entry P) (h : Handled P) (es : List (Entry P)) → Split h es → Split (handle e h) (e ∷ es)
  handle-Split e h es (files, dirs) =
      let (a, b) = handle-parts e.path e.kind h in
      (
        a ∙ ap (λ l. if is_file e.kind then e ∷ l else l) files,
        b ∙ ap (λ l. if is_dir e.kind then e ∷ l else l) dirs,
      )

module _ {E P : Type 0} where
  -- The loop of the readings: the entries that pass, or the first error.
  unfoldable pub collect : (FileKind → Bool) → Entries E P → Result E (List (Entry P))
  collect p [] = success []
  collect p (failure e ∷ es) = failure e
  collect p (success e ∷ es) =
      map_ok (λ found. if p e.kind then e ∷ found else found) (collect p es)

  unfoldable pub read_all : Result E (Entries E P) → Result E (List (Entry P))
  unfolding collect
  read_all opened = opened >>= collect (λ k. true)

  unfoldable pub read_all_dirs : Result E (Entries E P) → Result E (List (Entry P))
  unfolding collect is_dir
  read_all_dirs opened = opened >>= collect is_dir

  unfoldable pub read_all_files : Result E (Entries E P) → Result E (List (Entry P))
  unfolding collect is_file
  read_all_files opened = opened >>= collect is_file

  unfoldable pub map_entries : Entries E P → Handled P × Result E (Unit {0})
  unfolding handle
  map_entries [] = (record { on_file = []; on_dir = [] }, success tt)
  map_entries (failure e ∷ es) = (record { on_file = []; on_dir = [] }, failure e)
  map_entries (success e ∷ es) = let (later, end) = map_entries es in (handle e later, end)

  unfoldable pub read_map : Result E (Entries E P) → Handled P × Result E (Unit {0})
  unfolding map_entries
  read_map (failure e) = (record { on_file = []; on_dir = [] }, failure e)
  read_map (success es) = map_entries es

  collect-keep :
      (p : FileKind → Bool) (es : Entries E P)
      → collect p es ≡ map_ok (keep (λ e. p e.kind)) (collect (λ k. true) es)
  unfolding collect
  collect-keep p [] = refl
  collect-keep p (failure e ∷ es) = refl
  collect-keep p (success e ∷ es) =
      ap (map_ok (λ found. if p e.kind then e ∷ found else found)) (collect-keep p es)
      ∙ fuse (collect (λ k. true) es)
    where
      fuse :
          (r : Result E (List (Entry P)))
          → map_ok
              (λ found. if p e.kind then e ∷ found else found)
              (map_ok (keep (λ e. p e.kind)) r)
            ≡ map_ok (keep (λ e. p e.kind)) (map_ok (λ found. e ∷ found) r)
      fuse (success a) = refl
      fuse (failure f) = refl

  map_entries-end :
      (es : Entries E P) → (map_entries es).1 ≡ map_ok (λ l. tt) (collect (λ k. true) es)
  unfolding map_entries collect
  map_entries-end [] = refl
  map_entries-end (failure e ∷ es) = refl
  map_entries-end (success e ∷ es) = map_entries-end es ∙ same (collect (λ k. true) es)
    where
      same :
          (r : Result E (List (Entry P)))
          → map_ok (λ l. tt {0}) r
            ≡ map_ok (λ (l : List (Entry P)). tt {0}) (map_ok (λ found. e ∷ found) r)
      same (success a) = refl
      same (failure f) = refl

  map_entries-Split :
      (es : Entries E P) (all : List (Entry P))
      → collect (λ k. true) es ≡ success all
      → Split (map_entries es).0 all
  unfolding map_entries collect
  map_entries-Split [] all h = let q : all ≡ [] = cc in rw q (refl, refl)
  map_entries-Split (failure e ∷ es) all h = cc
  map_entries-Split (success e ∷ es) all h =
      from (map_entries-Split es) (collect (λ k. true) es) refl h
    where
      from :
          ((found : List (Entry P))
            → collect (λ k. true) es ≡ success found
            → Split (map_entries es).0 found)
          → (r : Result E (List (Entry P))) → collect (λ k. true) es ≡ r
          → map_ok (λ found. e ∷ found) r ≡ success all
          → Split (handle e (map_entries es).0) all
      from rest (failure f) q h = cc
      from rest (success found) q h =
          let same : e ∷ found ≡ all = cc in
          subst (Split (handle e (map_entries es).0)) same
            (handle-Split e (map_entries es).0 found (rest found q))

  -- Without an error a reading by kinds gives the entries of that kind among those that `read_all`
  -- gives, and `read_map` gives its handlers the files and the directories, each in their order;
  -- every reading ends with the error that `read_all` ends with.
  pub readings_agree :
      (opened : Result E (Entries E P))
      → (read_all_files opened ≡ map_ok (keep (λ e. is_file e.kind)) (read_all opened))
        × (read_all_dirs opened ≡ map_ok (keep (λ e. is_dir e.kind)) (read_all opened))
        × ((read_map opened).1 ≡ map_ok (λ es. tt) (read_all opened))
        × ((es : List (Entry P))
            → read_all opened ≡ success es
            → ((read_map opened).0.on_file ≡ keep (λ e. is_file e.kind) es)
              × ((read_map opened).0.on_dir ≡ keep (λ e. is_dir e.kind) es))
  unfolding read_all read_all_files read_all_dirs read_map
  readings_agree (failure e) = (refl, refl, refl, λ es h. cc)
  readings_agree (success es) =
      (collect-keep is_file es, collect-keep is_dir es, map_entries-end es, map_entries-Split es)
