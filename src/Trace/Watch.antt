-- ===== src/Trace/Watch.antt =====
-- `MultiTrace::watch_source` (src/trace/mod.rs): one turn of its loop, without the sleep.
--
-- `filters n` are the filters when the turn has read `n` lines: `update_filters` may replace them at
-- any time. The inner loop runs on fuel, one unit for a call of `read_line`; more fuel than there are
-- lines to read is enough.
use atoman_rs.Prelude.{
  Text, is_empty, ℕ, zero, suc, Bool, true, false, not, ◌&&◌, Option, none, some, List, [], ◌++◌,
  if◌then◌else◌,
}
use atoman_rs.Trace.{Regexes, Lines, LogRecord, FilterEngine, on_line, flush_buffer, trim_end}

module _ (X : Regexes) (F : Lines) where
  open X use {Regex}
  open F use {R, FilePath, same_path, open_file, seek_end, read_line}

  -- Without the directory, which `latest` stands for, and the color, which nothing reads.
  pub record SourceConfig : Type 0 where
    pub name : Text
    pub entry_start_pattern : Regex

  pub record Watch : Type 0 where
    pub current_file : Option FilePath
    pub reader : Option R
    pub multiline_buf : Text

  abbrev pub Filters : Type 0
  Filters = ℕ → FilterEngine X

  -- What was sent, the buffer and the reader; `none` when the fuel is out.
  abbrev pub Pass : Type 0
  Pass = Option (List LogRecord × Text × R)

  abbrev pub with_sent : List LogRecord → Pass → Pass
  with_sent sent none = none
  with_sent sent (some (more, buf, r)) = some (sent ++ more, buf, r)

  unfoldable pub read_all : ℕ → SourceConfig → Filters → Text → R → Pass
  unfolding on_line trim_end
  read_all zero config filters buf r = none
  read_all (suc fuel) config filters buf r =
      let (line, r') = read_line r in
      let (sent, buf') =
        on_line X config.entry_start_pattern (filters 0) config.name buf (trim_end line) in
      let rest = read_all fuel config (λ n. filters (suc n)) buf' r' in
      if is_empty line then some ([], buf, r') else with_sent sent rest

  unfoldable pub choose_file : Bool → Option FilePath → Watch → Watch
  choose_file only_new none w = w
  choose_file only_new (some latest) w =
      let is_new_file : Bool = elim w.current_file [
        | none ↦ true
        | some old ↦ not (same_path old latest)
      ] in
      let first : Bool = elim w.current_file [ none ↦ true | some _ ↦ false ] in
      if is_new_file
      then elim (open_file latest) [
        | none ↦ w
        | some r ↦ record {
          current_file = some latest;
          reader = some (if only_new && first then seek_end r else r);
          multiline_buf = [];
        }
      ]
      else w

  -- What is left in the buffer is flushed after the inner loop; `last` are the filters then.
  unfoldable pub after_lines :
      SourceConfig → FilterEngine X → Watch → Pass → Option (List LogRecord × Watch)
  unfolding flush_buffer
  after_lines config last w none = none
  after_lines config last w (some (sent, buf, r')) = some (
    sent ++ flush_buffer X last config.name buf,
    record w { reader = some r'; multiline_buf = [] },
  )

  -- The lines that the reader has.
  unfoldable pub drain :
      ℕ → SourceConfig → Filters → FilterEngine X → Watch → Option (List LogRecord × Watch)
  unfolding read_all after_lines
  drain fuel config filters last w = elim w.reader [
    | none ↦ some ([], w)
    | some r ↦ after_lines config last w (read_all fuel config filters w.multiline_buf r)
  ]

  -- One turn of the loop; `latest` is what `find_latest_file` gives.
  unfoldable pub turn :
      ℕ
      → SourceConfig
      → Bool
      → Filters
      → FilterEngine X
      → Option FilePath
      → Watch
      → Option (List LogRecord × Watch)
  unfolding choose_file drain
  turn fuel config only_new filters last latest w =
      drain fuel config filters last (choose_file only_new latest w)
