-- ===== src/Trace/Supervisor/Turns.antt =====
-- A turn of `MultiTrace::watch_source` (src/trace/mod.rs), as Trace/Watch has it, made of the steps of
-- Trace/Supervisor.
use atoman_rs.Prelude.{
  ℕ, zero, suc, ◌≡◌, refl, ap, sym, subst, Bool, true, false, Option, none, some, some_cancel, List,
  [], ◌++◌, Text, is_empty, if◌then◌else◌,
}
use mathlib.Core.List.{append_assoc, append-nil}
use atoman_rs.Trace.{Regexes, Lines, LogRecord, FilterEngine, on_line, trim_end}
use atoman_rs.Trace.Watch.{
  SourceConfig, Watch, Filters, Pass, with_sent, read_all, choose_file, after_lines, drain, turn,
}
use atoman_rs.Trace.Supervisor.{Task, Act, looks, reads, ends, has_reader}

module _ (X : Regexes) (F : Lines) (only_new : Bool) where
  open F use {R, FilePath, read_line}

  -- Steps of one task, each with some filters, and all that they send.
  data Acts (task : Task X F) : List LogRecord → Task X F → Type 0 where
    stays : Acts task [] task
    then_act :
        {sent more : List LogRecord} {t t' : Task X F}
        → Acts task sent t
        → (filters : FilterEngine X) → Act X F only_new filters t more t'
        → Acts task (sent ++ more) t'

  Acts-append :
      {task t t' : Task X F} {sent more : List LogRecord}
      → Acts task sent t
      → Acts t more t'
      → Acts task (sent ++ more) t'
  Acts-append {task} {t' = t'} {sent = sent} a stays =
      subst (λ l. Acts task l t') (sym (append-nil sent)) a
  Acts-append {task} {t' = t'} {sent = sent} a (then_act {sent = s} {more = m} b filters act) =
      subst (λ l. Acts task l t') (append_assoc sent s m) (then_act (Acts-append a b) filters act)

  one :
      {task t : Task X F} {sent : List LogRecord} (filters : FilterEngine X)
      → Act X F only_new filters task sent t
      → Acts task sent t
  one filters act = then_act stays filters act

  -- A task in the loop over lines.
  abbrev reading_task : SourceConfig X F → Watch X F → Text → R → Task X F
  reading_task config w buf r = record {
    config = config;
    watch = record w { reader = some r; multiline_buf = buf };
    reading = true;
  }

  -- The loop over lines, up to the line that ends it.
  record Reading (config : SourceConfig X F) (w : Watch X F) (buf : Text) (r : R)
      (sent : List LogRecord) (buf' : Text) (r' : R) : Type 0 where
    at_end : R
    line : Text
    acts : Acts (reading_task config w buf r) sent (reading_task config w buf' at_end)
    read : read_line at_end ≡ (line, r')
    over : is_empty line ≡ true

  abbrev ReadTo : SourceConfig X F → Watch X F → Text → R → List LogRecord × Text × R → Type 0
  ReadTo config w buf r (sent, buf', r') = Reading config w buf r sent buf' r'

  read_all-Reading :
      (fuel : ℕ) (config : SourceConfig X F) (w : Watch X F) (filters : Filters X F) (buf : Text)
      (r : R) {sent : List LogRecord} {buf' : Text} {r' : R}
      → read_all X F fuel config filters buf r ≡ some (sent, buf', r')
      → Reading config w buf r sent buf' r'
  unfolding read_all
  read_all-Reading zero config w filters buf r e = cc
  read_all-Reading (suc fuel) config w filters buf r {sent} {buf'} {r'} e =
      at (is_empty line) refl rest
        (λ more b' x is. read_all-Reading fuel config w later dealt.1 next is) e
    where
      line : Text
      line = (read_line r).0

      next : R
      next = (read_line r).1

      later : Filters X F
      later n = filters (suc n)

      dealt : List LogRecord × Text
      dealt = on_line X config.entry_start_pattern (filters 0) config.name buf (trim_end line)

      rest : Pass X F
      rest = read_all X F fuel config later dealt.1 next

      at :
          (b : Bool)
          → is_empty line ≡ b
          → (p : Pass X F)
          → ((more : List LogRecord) (b' : Text) (x : R)
              → p ≡ some (more, b', x)
              → Reading config w dealt.1 next more b' x)
          → (if b then some ([], buf, next) else with_sent X F dealt.0 p) ≡ some (sent, buf', r')
          → Reading config w buf r sent buf' r'
      at true over p ih e =
          subst (ReadTo config w buf r) (some_cancel e)
            (record { at_end = r; line = line; acts = stays; read = refl; over = over })
      at false filled none ih e = cc
      at false filled (some (more, b', x)) ih e =
          let k = ih more b' x refl in
          subst (ReadTo config w buf r) (some_cancel e) (record {
            at_end = k.at_end;
            line = k.line;
            acts = Acts-append (one (filters 0) (reads refl refl refl filled refl)) k.acts;
            read = k.read;
            over = k.over;
          })

  -- If the fuel is enough for a turn of a task, what it sends and leaves is what some steps of the task send and
  -- leave.
  turn-Acts :
      (fuel : ℕ) (config : SourceConfig X F) (filters : Filters X F) (last : FilterEngine X)
      (latest : Option FilePath) (w : Watch X F) {sent : List LogRecord} {w' : Watch X F}
      → turn X F fuel config only_new filters last latest w ≡ some (sent, w')
      → Acts
          (record { config = config; watch = w; reading = false })
          sent
          (record { config = config; watch = w'; reading = false })
  unfolding turn drain after_lines has_reader
  turn-Acts fuel config filters last latest w {sent} {w'} e = at chosen.reader refl e
    where
      chosen : Watch X F
      chosen = choose_file X F only_new latest w

      idle : Watch X F → Task X F
      idle w = record { config = config; watch = w; reading = false }

      looked :
          (b : Bool)
          → has_reader X F chosen ≡ b
          → Acts (idle w) [] (record (idle chosen) { reading = b })
      looked b is =
          subst (λ b. Acts (idle w) [] (record (idle chosen) { reading = b })) is
            (one last (looks latest refl refl))

      finish :
          (r : R) (p : Pass X F)
          → chosen.reader ≡ some r
          → read_all X F fuel config filters chosen.multiline_buf r ≡ p
          → after_lines X F config last chosen p ≡ some (sent, w')
          → Acts (idle w) sent (idle w')
      finish r none there is e = cc
      finish r (some (more, buf, r')) there is e =
          let k = read_all-Reading fuel config chosen filters chosen.multiline_buf r is in
          let begun =
            subst
              (λ o.
                Acts (idle w) [] (record {
                  config = config;
                  watch = record chosen { reader = o };
                  reading = true;
                }))
              there
              (looked true
                (ap (λ o. elim o as (λ o. Bool) [ none ↦ false | some x ↦ true ]) there)) in
          subst (λ (q : List LogRecord × Watch X F). Acts (idle w) q.0 (idle q.1)) (some_cancel e)
            (Acts-append begun (then_act k.acts last (ends refl refl k.read k.over refl)))

      drained : Option R → Option (List LogRecord × Watch X F)
      drained none = some ([], chosen)
      drained (some r) =
          after_lines X F config last chosen
            (read_all X F fuel config filters chosen.multiline_buf r)

      at :
          (o : Option R)
          → chosen.reader ≡ o
          → drained o ≡ some (sent, w')
          → Acts (idle w) sent (idle w')
      at none no_reader e =
          subst (λ (q : List LogRecord × Watch X F). Acts (idle w) q.0 (idle q.1)) (some_cancel e)
            (looked false
              (ap (λ o. elim o as (λ o. Bool) [ none ↦ false | some x ↦ true ]) no_reader))
      at (some r) there e = finish r _ there refl e
