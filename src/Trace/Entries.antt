-- ===== src/Trace/Entries.antt =====
-- The records that a turn of `MultiTrace::watch_source` sends (src/trace/mod.rs): the lines of the
-- file, in groups that begin where a line matches the start pattern.
use atoman_rs.Prelude.{
  Text, is_empty, ℕ, zero, suc, ◌<◌, ◌≡◌, refl, ap, sym, ◌∙◌, Bool, true, false, not, ◌&&◌, Option,
  none, some, List, [], ◌∷◌, ◌++◌, map, length, if◌then◌else◌, arith, Bool-cases, inl, inr,
}
use mathlib.Core.List.{append_assoc, append-nil}
use atoman_rs.Trace.{
  Regexes, Lines, LogRecord, FilterEngine, on_line, flush_buffer, trim_end, matches,
}
use atoman_rs.Trace.Watch.{SourceConfig, Watch, read_all, after_lines, drain, turn, choose_file}

-- Lines that follow others.
abbrev pub following : List Text → Text
following [] = []
following (l ∷ ls) = 10 ∷ l ++ following ls

-- Lines joined, without empty ones at the front.
pub joined : List Text → Text
joined [] = []
joined (l ∷ ls) = let later = joined ls in if is_empty l then later else l ++ following ls

-- The lines before the first start, and the groups from each start up to the next one.
pub groups : (Text → Bool) → List Text → List Text × List (List Text)
groups starts [] = ([], [])
groups starts (l ∷ ls) =
    let (g, gs) = groups starts ls in if starts l then ([], (l ∷ g) ∷ gs) else (l ∷ g, gs)

pub texts : (Text → Bool) → List Text → List Text
unfolding groups joined
texts starts ls = let (g, gs) = groups starts ls in joined g ∷ map joined gs

module _ (X : Regexes) where
  -- The records of texts that are not empty and pass the filters.
  pub passed : FilterEngine X → Text → List Text → List LogRecord
  passed filters name [] = []
  passed filters name (t ∷ ts) =
      let rest = passed filters name ts in
      if is_empty t
      then rest
      else if matches X filters t
      then record { source = name; content = t } ∷ rest
      else rest

  -- What comes of a buffer and the group that goes on.
  abbrev extended : Text → List Text → Text
  extended [] g = joined g
  extended (c ∷ cs) g = (c ∷ cs) ++ following g

  abbrev texts_from : (Text → Bool) → Text → List Text → List Text
  texts_from starts buf ls = let (g, gs) = groups starts ls in extended buf g ∷ map joined gs

  passed-flush :
      (filters : FilterEngine X) (name t : Text) (ts : List Text)
      → passed filters name (t ∷ ts) ≡ flush_buffer X filters name t ++ passed filters name ts
  unfolding passed flush_buffer
  passed-flush filters name t ts = elim (Bool-cases (is_empty t)) [
    | inl none_left ↦ rw none_left refl
    | inr filled ↦ elim (Bool-cases (matches X filters t)) [
      | inl fits ↦ rw (filled, fits) refl
      | inr fails ↦ rw (filled, fails) refl
    ]
  ]

  extended-nil : (buf : Text) → extended buf [] ≡ buf
  unfolding joined
  extended-nil [] = refl
  extended-nil (c ∷ cs) = append-nil (c ∷ cs)

  extended-line : (l : Text) (g : List Text) → extended l g ≡ joined (l ∷ g)
  unfolding joined
  extended-line [] g = refl
  extended-line (c ∷ cs) g = refl

  extended-more :
      (c : ℕ) (cs l : Text) (g : List Text)
      → extended ((c ∷ cs) ++ 10 ∷ l) g ≡ extended (c ∷ cs) (l ∷ g)
  extended-more c cs l g = append_assoc (c ∷ cs) (10 ∷ l) (following g)

  -- What a line sends, and what comes of the buffer that it leaves.
  abbrev LineRight : Regexes.Regex X → FilterEngine X → Text → Text → Text → List Text → Type 0
  LineRight re filters name buf l ls =
      let r = on_line X re filters name buf l in
      r.0 ++ passed filters name (texts_from (Regexes.is_match X re) r.1 ls)
      ≡ passed filters name (texts_from (Regexes.is_match X re) buf (l ∷ ls))

  module _ (re : Regexes.Regex X) (filters : FilterEngine X) (name l : Text) (ls : List Text) where
    on_line-goes_on :
        (buf : Text) → Regexes.is_match X re l ≡ false → LineRight re filters name buf l ls
    unfolding on_line groups
    on_line-goes_on [] goes_on = rw goes_on (
        ap (λ t. passed filters name (t ∷ map joined (groups (Regexes.is_match X re) ls).1))
          (extended-line l (groups (Regexes.is_match X re) ls).0))
    on_line-goes_on (c ∷ cs) goes_on = rw goes_on (
        ap (λ t. passed filters name (t ∷ map joined (groups (Regexes.is_match X re) ls).1))
          (extended-more c cs l (groups (Regexes.is_match X re) ls).0))

    on_line-starts :
        (buf : Text) → Regexes.is_match X re l ≡ true → LineRight re filters name buf l ls
    unfolding on_line groups
    on_line-starts buf start =
        let (g, gs) = groups (Regexes.is_match X re) ls in
        rw start (
          ap (λ t. flush_buffer X filters name buf ++ passed filters name (t ∷ map joined gs))
            (extended-line l g)
          ∙ sym (passed-flush filters name buf (joined (l ∷ g) ∷ map joined gs))
          ∙ ap (λ t. passed filters name (t ∷ joined (l ∷ g) ∷ map joined gs))
              (sym (extended-nil buf)))

    on_line-LineRight : (buf : Text) → LineRight re filters name buf l ls
    on_line-LineRight buf = elim (Bool-cases (Regexes.is_match X re l)) [
      | inl start ↦ on_line-starts buf start
      | inr goes_on ↦ on_line-goes_on buf goes_on
    ]

  passed-end :
      (filters : FilterEngine X) (name : Text) (starts : Text → Bool) (buf : Text)
      → flush_buffer X filters name buf ≡ passed filters name (texts_from starts buf [])
  unfolding groups passed
  passed-end filters name starts buf =
      sym (append-nil (flush_buffer X filters name buf))
      ∙ sym (passed-flush filters name buf [])
      ∙ ap (λ t. passed filters name (t ∷ [])) (sym (extended-nil buf))

  module _ (F : Lines) (config : SourceConfig X F) (filters : FilterEngine X) where
    open F use {R, pending, read_line, read_line_end, read_line_next, pending_filled}

    abbrev starts : Text → Bool
    starts = Regexes.is_match X config.entry_start_pattern

    abbrev ReadsAll : ℕ → Text → R → List Text → Type 0
    ReadsAll fuel buf r ls =
        (sent : List LogRecord) × (buf' : Text) × (r' : R) × (read_all X F fuel config
            (λ n. filters) buf r
          ≡ some (sent, buf', r'))
        × (sent ++ flush_buffer X filters config.name buf'
            ≡ passed filters config.name (texts_from starts buf (map trim_end ls)))

    read_all-ReadsAll :
        (fuel : ℕ) (buf : Text) (r : R) (ls : List Text)
        → pending r ≡ ls
        → length ls < fuel
        → ReadsAll fuel buf r ls
    unfolding read_all
    read_all-ReadsAll zero buf r ls e enough = absurd (omega arith)
    read_all-ReadsAll (suc fuel) buf r [] e enough = (
      [],
      buf,
      (read_line r).1,
      rw (read_line_end r e) refl,
      passed-end filters config.name starts buf,
    )
    read_all-ReadsAll (suc fuel) buf r ([] ∷ ls) e enough = absurd (pending_filled r ls e)
    read_all-ReadsAll (suc fuel) buf r ((c ∷ cs) ∷ ls) e enough =
        let q = read_line_next r c cs ls e in
        let l = trim_end (c ∷ cs) in
        let one = on_line X config.entry_start_pattern filters config.name buf l in
        let (sent, buf', r', run, right) =
          read_all-ReadsAll fuel one.1 (read_line r).1 ls q.1 (omega arith) in
        (
          one.0 ++ sent,
          buf',
          r',
          rw (q.0, run) refl,
          append_assoc one.0 sent (flush_buffer X filters config.name buf')
              ∙ ap (λ t. one.0 ++ t) right
              ∙ on_line-LineRight config.entry_start_pattern filters config.name l (map trim_end ls)
                  buf,
        )

    choose_file-buffer :
        (only_new : Bool) (latest : Option (Lines.FilePath F)) (w : Watch X F)
        → w.multiline_buf ≡ []
        → (choose_file X F only_new latest w).multiline_buf ≡ []
    unfolding choose_file
    choose_file-buffer only_new none w h = h
    choose_file-buffer only_new (some latest) w h =
        opened (elim w.current_file [ none ↦ true | some old ↦ not (Lines.same_path F old latest) ])
          (Lines.open_file F latest)
      where
        opened :
            (b : Bool) (o : Option R)
            → (if b
                then elim o [
                  | none ↦ w
                  | some r ↦ record {
                    current_file = some latest;
                    reader = some (
                        if only_new && (elim w.current_file [ none ↦ true | some x ↦ false ])
                        then Lines.seek_end F r
                        else r);
                    multiline_buf = [];
                  }
                ]
                else w).multiline_buf
              ≡ []
        opened true none = h
        opened true (some r) = refl
        opened false o = h

    drain-reader :
        (fuel : ℕ) (w : Watch X F) {r : R}
        → w.reader ≡ some r
        → w.multiline_buf ≡ []
        → drain X F fuel config (λ n. filters) filters w
          ≡ after_lines X F config filters w (read_all X F fuel config (λ n. filters) [] r)
    unfolding drain
    drain-reader fuel w {r} there clean =
        ap
          (λ o. elim o [
            | none ↦ some ([], w)
            | some r₁ ↦
                after_lines X F config filters w
                  (read_all X F fuel config (λ n. filters) w.multiline_buf r₁)
          ])
          there
        ∙ ap (λ b. after_lines X F config filters w (read_all X F fuel config (λ n. filters) b r))
            clean

    drain_sends :
        (fuel : ℕ) (w : Watch X F) {r : R}
        → w.multiline_buf ≡ []
        → w.reader ≡ some r
        → length (pending r) < fuel
        → (r' : R) × (drain X F fuel config (λ n. filters) filters w
            ≡ some (
              passed filters config.name (texts starts (map trim_end (pending r))),
              record w { reader = some r'; multiline_buf = [] },
            ))
    unfolding after_lines texts
    drain_sends fuel w {r} clean there enough =
        let (sent, buf', r', run, right) = read_all-ReadsAll fuel [] r (pending r) refl enough in
        (
          r',
          drain-reader fuel w there clean
              ∙ ap (after_lines X F config filters w) run
              ∙ ap (λ t. some (t, record w { reader = some r'; multiline_buf = [] })) right,
        )

    -- With filters that stay as they are, more fuel than there are lines and an empty buffer, a turn
    -- that has a reader ends, sends the records of the texts that are not empty and pass the
    -- filters, in their order, and leaves an empty buffer. The texts are the lines, without their
    -- ends, up to the first that matches the start pattern, then from each that matches up to the
    -- next one, joined by line feeds and without empty lines at the front.
    pub turn_sends :
        (fuel : ℕ) (only_new : Bool) (latest : Option (Lines.FilePath F)) (w : Watch X F) {r : R}
        → w.multiline_buf ≡ []
        → (choose_file X F only_new latest w).reader ≡ some r
        → length (pending r) < fuel
        → (r' : R) × (turn X F fuel config only_new (λ n. filters) filters latest w
            ≡ some (
              passed filters config.name (texts starts (map trim_end (pending r))),
              record (choose_file X F only_new latest w) { reader = some r'; multiline_buf = [] },
            ))
    unfolding turn
    turn_sends fuel only_new latest w clean there enough =
        drain_sends fuel (choose_file X F only_new latest w)
          (choose_file-buffer only_new latest w clean) there enough
