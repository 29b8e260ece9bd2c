-- ===== src/File/Finding/Whole.antt =====
-- What a search in the directories below gives, all of it (src/file/dir.rs).
use atoman_rs.Prelude.{
  ℕ, zero, suc, ◌≡◌, ◌∙◌, refl, ap, sym, subst, Bool, true, not, ◌||◌, Option, none, some, List, [],
  ◌∷◌, ◌++◌, map, Every,
}
use atoman_rs.Prelude.Result.{Result, success, failure}
use atoman_rs.File.Entries.{is_file, is_dir, is_symlink, Entry}
use atoman_rs.File.Dir.{keep}
use atoman_rs.File.Finding.{Dirs, is_candidate, open_dir, search, search_below, deep_search}
use atoman_rs.File.Finding.Below.{
  Among, first, later, Among-Every, keep-Among, Found, IsShallow, Searched, deep_search-Searched,
}
use atoman_rs.File.Finding.Among.{Among-left, Among-right, Among-keep, keep-keep, Among-map}

module _ (F : Dirs) (files_only : Bool)
    (search_filter : List (Entry (Dirs.P F)) → List (Entry (Dirs.P F))) where
  open F use {E, P}

  -- Every directory that stands directly here can be opened.
  abbrev pub Opens : List (Entry P) → Type 0
  Opens es =
      (d : Entry P)
      → Among d es
      → is_dir d.kind ≡ true
      → (subdir : List (Entry P)) × (open_dir F d.path ≡ success subdir)

  -- The path is that of an entry that the likeness search picks from the candidates of the directory, or of
  -- one below it, all of whose directories can be opened.
  pub data Gives : List (Entry P) → P → Type 0 where
    here :
        {es : List (Entry P)} {e : Entry P}
        → Among e (search_filter (keep (λ e. is_candidate files_only e.kind) es))
        → Gives es e.path
    inside :
        {es subdir : List (Entry P)} {d : Entry P} {q : P}
        → Among d es
        → is_dir d.kind ≡ true
        → open_dir F d.path ≡ success subdir
        → Opens subdir
        → Gives subdir q
        → Gives es q

  -- A result has all that there is.
  abbrev pub HasAll : List (Entry P) → Option (Result E (List P)) → Type 0
  HasAll es r = (ps : List P) × (r ≡ some (success ps)) × ((q : P) → Gives es q → Among q ps)

  -- What a deep search may answer.
  abbrev pub Whole : List (Entry P) → Option (Result E (List P)) → Type 0
  Whole es none = ⊥
  Whole es (some (success ps)) =
      Every (Found F files_only es) ps × ((q : P) → Gives es q → Among q ps)
  Whole es (some (failure e)) =
      (d : Entry P) × Among d es × (is_dir d.kind ≡ true) × (open_dir F d.path ≡ failure e)

  search_lem :
      (es : List (Entry P))
      → search F search_filter files_only es
        ≡ map (λ e. e.path) (search_filter (keep (λ e. is_candidate files_only e.kind) es))
  unfolding search
  search_lem es =
      ap (λ c. map (λ (e : Entry P). e.path) (search_filter c))
        (keep-keep (λ (e : Entry P). not files_only || is_file e.kind)
          (λ (e : Entry P). not (is_symlink e.kind)) es)

  -- A search that gives no error has opened the directories.
  search_below-opens :
      (more : List (Entry P) → Option (Result E (List P))) (results : List P) (ds : List (Entry P))
      (ps : List P)
      → search_below F search_filter files_only more results ds ≡ some (success ps)
      → Every (λ d. (sub : List (Entry P)) × (open_dir F d.path ≡ success sub)) ds
  unfolding search_below
  search_below-opens more results [] ps run = tt
  search_below-opens more results (d ∷ ds) ps run =
      at (λ results. search_below-opens more results ds ps) (open_dir F d.path) refl run
    where
      rest :
          ((results : List P)
            → search_below F search_filter files_only more results ds ≡ some (success ps)
            → Every (λ d. (sub : List (Entry P)) × (open_dir F d.path ≡ success sub)) ds)
          → (s : Option (Result E (List P)))
          → elim s [
            | none ↦ none
            | some (failure e) ↦ search_below F search_filter files_only more results ds
            | some (success subresults) ↦
                search_below F search_filter files_only more (results ++ subresults) ds
          ]
            ≡ some (success ps)
          → Every (λ d. (sub : List (Entry P)) × (open_dir F d.path ≡ success sub)) ds
      rest up none run = cc
      rest up (some (failure e)) run = up results run
      rest up (some (success qs)) run = up (results ++ qs) run

      at :
          ((results : List P)
            → search_below F search_filter files_only more results ds ≡ some (success ps)
            → Every (λ d. (sub : List (Entry P)) × (open_dir F d.path ≡ success sub)) ds)
          → (r : Result E (List (Entry P))) → open_dir F d.path ≡ r
          → elim r [
            | failure e ↦ some (failure e)
            | success subdir ↦ elim (more subdir) [
              | none ↦ none
              | some (failure e) ↦ search_below F search_filter files_only more results ds
              | some (success subresults) ↦
                  search_below F search_filter files_only more (results ++ subresults) ds
            ]
          ]
            ≡ some (success ps)
          → Every (λ d. (sub : List (Entry P)) × (open_dir F d.path ≡ success sub)) (d ∷ ds)
      at up (failure e) is run = cc
      at up (success sub) is run = ((sub, is), rest up (more sub) run)

  module _ (more : List (Entry P) → Option (Result E (List P))) (n : ℕ)
      (good : (sub : List (Entry P))
        → IsShallow F files_only n sub
        → Searched F files_only sub (more sub))
      (all : (sub : List (Entry P))
        → IsShallow F files_only n sub
        → Opens sub
        → HasAll sub (more sub)) where
    failed_below :
        (results : List P) (d : Entry P) (ds sub : List (Entry P)) (e : E)
        → open_dir F d.path ≡ success sub
        → more sub ≡ some (failure e)
        → search_below F search_filter files_only more results (d ∷ ds)
          ≡ search_below F search_filter files_only more results ds
    unfolding search_below
    failed_below results d ds sub e is found = rw (search_below, is, found) refl

    given_below :
        (results : List P) (d : Entry P) (ds sub : List (Entry P)) (qs : List P)
        → open_dir F d.path ≡ success sub
        → more sub ≡ some (success qs)
        → search_below F search_filter files_only more results (d ∷ ds)
          ≡ search_below F search_filter files_only more (results ++ qs) ds
    unfolding search_below
    given_below results d ds sub qs is found = rw (search_below, is, found) refl

    abbrev CanOpen : Entry P → Type 0
    CanOpen d =
        (sub : List (Entry P)) × (open_dir F d.path ≡ success sub) × IsShallow F files_only n sub

    -- All that there is below the directories.
    abbrev Below : List P → List (Entry P) → Type 0
    Below ps ds =
        (d : Entry P) (sub : List (Entry P)) (q : P)
        → Among d ds
        → open_dir F d.path ≡ success sub
        → Opens sub
        → Gives sub q
        → Among q ps

    abbrev Total : List P → List (Entry P) → Option (Result E (List P)) → Type 0
    Total results ds r =
        (ps : List P) × (r ≡ some (success ps))
        × ((q : P) → Among q results → Among q ps)
        × Below ps ds

    Below-cons :
        (ps : List P) (d : Entry P) (ds sub : List (Entry P))
        → open_dir F d.path ≡ success sub
        → ((q : P) → Opens sub → Gives sub q → Among q ps)
        → Below ps ds
        → Below ps (d ∷ ds)
    Below-cons ps d ds sub is this rest d' sub' q first is' opens gives =
        let same : sub' ≡ sub = cc in
        this q (subst Opens same opens) (subst (λ s. Gives s q) same gives)
    Below-cons ps d ds sub is this rest d' sub' q (later m) is' opens gives =
        rest d' sub' q m is' opens gives

    search_below-Total :
        (results : List P) (ds : List (Entry P))
        → Every CanOpen ds
        → Total results ds (search_below F search_filter files_only more results ds)
    unfolding search_below
    search_below-Total results [] opens = (results, refl, λ q m. m, λ d sub q m is ok g. elim m [ ])
    search_below-Total results (d ∷ ds) ((sub, is, shallow), opens) =
        next (λ results. search_below-Total results ds opens) (more sub) refl (good sub shallow)
      where
        next :
            ((results : List P)
              → Total results ds (search_below F search_filter files_only more results ds))
            → (s : Option (Result E (List P))) → more sub ≡ s
            → Searched F files_only sub s
            → Total results (d ∷ ds) (search_below F search_filter files_only more results (d ∷ ds))
        next rest none run h = absurd h
        next rest (some (failure e)) run h =
            let (ps, done, kept, below) = rest results in
            (
              ps,
              failed_below results d ds sub e is run ∙ done,
              kept,
              Below-cons ps d ds sub is
                  (λ q ok g.
                    let (qs, found, has) = all sub shallow ok in let bad = sym run ∙ found in cc)
                  below,
            )
        next rest (some (success qs)) run h =
            let (ps, done, kept, below) = rest (results ++ qs) in
            (
              ps,
              given_below results d ds sub qs is run ∙ done,
              λ q m. kept q (Among-left q results qs m),
              Below-cons ps d ds sub is
                  (λ q ok g.
                    let (qs', found, has) = all sub shallow ok in
                    let same : qs' ≡ qs = cc in
                    kept q (Among-right q results qs (subst (λ z. Among q z) same (has q g))))
                  below,
            )

  open_below :
      (n : ℕ) (ds : List (Entry P))
      → Every
          (λ d. elim (open_dir F d.path) [
            | failure e ↦ Unit
            | success subdir ↦ IsShallow F files_only n subdir
          ])
          ds
      → ((d : Entry P) → Among d ds → (sub : List (Entry P)) × (open_dir F d.path ≡ success sub))
      → Every
          (λ d.
            (sub : List (Entry P)) × (open_dir F d.path ≡ success sub)
            × IsShallow F files_only n sub)
          ds
  open_below n [] shallow opens = tt
  open_below n (d ∷ ds) shallow opens =
      let (sub, is) = opens d first in
      (
        (
          sub,
          is,
          subst
              (λ r. elim r as (λ r. Type 0) [
                | failure e ↦ Unit
                | success subdir ↦ IsShallow F files_only n subdir
              ])
              is shallow.0,
        ),
        open_below n ds shallow.1 (λ d m. opens d (later m)),
      )

  module _ (keeps : (es : List (Entry P)) → Every (λ e. Among e es) (search_filter es)) where
    deep_search-HasAll :
        (fuel : ℕ) (es : List (Entry P))
        → IsShallow F files_only fuel es
        → Opens es
        → HasAll es (deep_search F search_filter files_only fuel es)
    unfolding deep_search
    deep_search-HasAll zero es shallow opens = absurd shallow
    deep_search-HasAll (suc fuel) es shallow opens =
        let dirs = keep (λ (e : Entry P). is_dir e.kind) es in
        let (ps, done, kept, below) =
          search_below-Total (deep_search F search_filter files_only fuel) fuel
            (deep_search-Searched F files_only search_filter keeps fuel) (deep_search-HasAll fuel)
            (search F search_filter files_only es) dirs
            (open_below fuel dirs shallow (λ d m. let (a, is) = kept_dir d m in opens d a is)) in
        (ps, done, λ q g. given ps kept below q g)
      where
        kept_dir :
            (d : Entry P)
            → Among d (keep (λ (e : Entry P). is_dir e.kind) es)
            → Among d es × (is_dir d.kind ≡ true)
        kept_dir d m =
            Among-Every (λ z. Among z es × (is_dir z.kind ≡ true))
              (keep (λ (e : Entry P). is_dir e.kind) es) m
              (keep-Among (λ (e : Entry P). is_dir e.kind) es)

        given :
            (ps : List P)
            → ((q : P) → Among q (search F search_filter files_only es) → Among q ps)
            → ((d : Entry P) (sub : List (Entry P)) (q : P)
                → Among d (keep (λ (e : Entry P). is_dir e.kind) es)
                → open_dir F d.path ≡ success sub
                → Opens sub
                → Gives sub q
                → Among q ps)
            → (q : P) → Gives es q
            → Among q ps
        given ps kept below q (here {e = e} m) = kept e.path (
            rw (search_lem es) (
              Among-map (λ (e : Entry P). e.path) e
                (search_filter (keep (λ (e : Entry P). is_candidate files_only e.kind) es)) m))
        given ps kept below q (inside {subdir = sub} {d = d} m dir is ok g) =
            below d sub q (Among-keep (λ (e : Entry P). is_dir e.kind) d es m dir) is ok g

    -- If the likeness search gives only what it is given, a deep search with more fuel than there are levels of
    -- directories ends. If it gives an error, a directory that stands directly here cannot be opened, for that
    -- reason; otherwise all that it gives are paths of candidates here or below, and it gives every path that the
    -- likeness search picks here, or in a directory below in which, as in all between, every directory
    -- can be opened.
    pub deep_search-IsWhole :
        (fuel : ℕ) (es : List (Entry P))
        → IsShallow F files_only fuel es
        → Whole es (deep_search F search_filter files_only fuel es)
    unfolding deep_search
    deep_search-IsWhole zero es shallow = absurd shallow
    deep_search-IsWhole (suc fuel) es shallow =
        at (deep_search F search_filter files_only (suc fuel) es) refl
          (deep_search-Searched F files_only search_filter keeps (suc fuel) es shallow)
      where
        opens :
            (ps : List P)
            → deep_search F search_filter files_only (suc fuel) es ≡ some (success ps)
            → Opens es
        opens ps run d m dir =
            Among-Every (λ d. (sub : List (Entry P)) × (open_dir F d.path ≡ success sub))
              (keep (λ e. is_dir e.kind) es)
              (Among-keep (λ (e : Entry P). is_dir e.kind) d es m dir)
              (search_below-opens (deep_search F search_filter files_only fuel)
                (search F search_filter files_only es) (keep (λ e. is_dir e.kind) es) ps run)

        at :
            (r : Option (Result E (List P)))
            → deep_search F search_filter files_only (suc fuel) es ≡ r
            → Searched F files_only es r
            → Whole es r
        at none run h = h
        at (some (failure e)) run h = h
        at (some (success ps)) run h =
            let (qs, found, has) = deep_search-HasAll (suc fuel) es shallow (opens ps run) in
            let same : qs ≡ ps = cc in (h, λ q g. subst (λ z. Among q z) same (has q g))
