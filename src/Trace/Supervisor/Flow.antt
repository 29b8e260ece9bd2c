-- ===== src/Trace/Supervisor/Flow.antt =====
-- What comes through the channel of `MultiTrace` (src/trace/mod.rs), whatever the order of the tasks' steps.
use atoman_rs.Prelude.{
  ℕ, ◌≡◌, refl, ap, sym, ◌∙◌, subst, Bool, true, false, not, ◌&&◌, Option, none, some, List, [],
  ◌∷◌, ◌++◌, Text, is_empty, Every, length, ltb, if◌then◌else◌,
}
use mathlib.Core.List.{append_assoc, append-nil}
use atoman_rs.Channel.Queue.{
  Mpsc, Queue, SendReply, sent, full, closed, RecvReply, item, empty, disconnected, try_send_spec,
  recv_spec, has_room, push,
}
use atoman_rs.Trace.{
  Regexes, Lines, LogRecord, FilterEngine, on_line, flush_buffer, trim_end, matches,
}
use atoman_rs.Trace.Watch.{SourceConfig}
use atoman_rs.Trace.Supervisor.{
  Task, Act, looks, reads, ends, MultiTrace, send_records, on_received,
}

module _ (X : Regexes) where
  -- A record that the filters let pass.
  abbrev pub Passes : FilterEngine X → LogRecord → Type 0
  Passes filters r = (is_empty r.content ≡ false) × (matches X filters r.content ≡ true)

  abbrev pub IsSent : FilterEngine X → Text → LogRecord → Type 0
  IsSent filters name r = (r.source ≡ name) × Passes filters r

  flush_buffer-IsSent :
      (filters : FilterEngine X) (name buf : Text)
      → Every (IsSent filters name) (flush_buffer X filters name buf)
  unfolding flush_buffer
  flush_buffer-IsSent filters name buf = at (is_empty buf) refl (matches X filters buf) refl
    where
      at :
          (b : Bool)
          → is_empty buf ≡ b
          → (c : Bool) → matches X filters buf ≡ c
          → Every
              (IsSent filters name)
              (if b then [] else if c then record { source = name; content = buf } ∷ [] else [])
      at true h c k = tt
      at false h true k = ((refl, (h, k)), tt)
      at false h false k = tt

  on_line-IsSent :
      (re : Regexes.Regex X) (filters : FilterEngine X) (name buf line : Text)
      → Every (IsSent filters name) (on_line X re filters name buf line).0
  unfolding on_line
  on_line-IsSent re filters name buf line = at (Regexes.is_match X re line) (not (is_empty buf))
    where
      at :
          (b c : Bool)
          → let r : List LogRecord × Text =
              if b
              then (flush_buffer X filters name buf, line)
              else if c
              then ([], buf ++ 10 ∷ line)
              else ([], buf ++ line) in
            Every (IsSent filters name) r.0
      at true c = flush_buffer-IsSent filters name buf
      at false true = tt
      at false false = tt

  module _ (F : Lines) where
    pub Act-IsSent :
        {only_new : Bool} {filters : FilterEngine X} {task task' : Task X F} {rs : List LogRecord}
        → Act X F only_new filters task rs task'
        → Every (IsSent filters task.config.name) rs × (task'.config ≡ task.config)
    Act-IsSent (looks latest idle chosen) = (tt, refl)
    Act-IsSent {filters = filters} {task = task}
          (reads {line = line} busy there read filled dealt) =
        (
          subst (λ r. Every (IsSent filters task.config.name) r.0) dealt
              (on_line-IsSent task.config.entry_start_pattern filters task.config.name
                task.watch.multiline_buf (trim_end line)),
          refl,
        )
    Act-IsSent {filters = filters} {task = task} (ends busy there read over flushed) = (
      subst (λ r. Every (IsSent filters task.config.name) r) flushed
          (flush_buffer-IsSent filters task.config.name task.watch.multiline_buf),
      refl,
    )

    -- The record has the name of one of the sources, and some text.
    pub record IsFrom (sources : List (SourceConfig X F)) (r : LogRecord) : Type 0 where
      pub front : List (SourceConfig X F)
      pub back : List (SourceConfig X F)
      pub config : SourceConfig X F
      pub stands : sources ≡ front ++ config ∷ back
      pub named : r.source ≡ config.name
      pub filled : is_empty r.content ≡ false

    module _ (B : Mpsc LogRecord) where
      abbrev pub waiting : MultiTrace X F B → List LogRecord
      waiting m = (Mpsc.view B m.chan).items

      -- A channel whose sends all go in.
      abbrev pub IsUnlimited : Mpsc.C B → Type 0
      IsUnlimited c = ((Mpsc.view B c).capacity ≡ none) × ((Mpsc.view B c).open_rx ≡ true)

      try_send_spec-push :
          (r : LogRecord) (q : Queue LogRecord)
          → q.capacity ≡ none
          → q.open_rx ≡ true
          → (try_send_spec r q).1 ≡ push r q
      try_send_spec-push r q unlimited open_ =
          at q.open_rx (has_room q) open_ (room q.capacity unlimited)
        where
          room :
              (o : Option ℕ)
              → o ≡ none
              → elim o as (λ o. Bool) [ none ↦ true | some n ↦ ltb (length q.items) n ] ≡ true
          room none e = refl
          room (some n) e = cc

          at :
              (b c : Bool)
              → b ≡ true
              → c ≡ true
              → let r' : SendReply × Queue LogRecord =
                  if b then (if c then (sent, push r q) else (full, q)) else (closed, q) in
                r'.1 ≡ push r q
          at true true h k = refl
          at true false h k = cc
          at false c h k = cc

      pub send_records-waiting :
          (rs : List LogRecord) (c : Mpsc.C B)
          → IsUnlimited c
          → ((Mpsc.view B (send_records X F B rs c)).items ≡ (Mpsc.view B c).items ++ rs)
            × IsUnlimited (send_records X F B rs c)
      unfolding send_records
      send_records-waiting [] c free = (sym (append-nil _), free)
      send_records-waiting (r ∷ rs) c free =
          let c' = (Mpsc.try_send B r c).1 in
          let pushed : Mpsc.view B c' ≡ push r (Mpsc.view B c) =
            Mpsc.try_send_view B r c ∙ try_send_spec-push r (Mpsc.view B c) free.0 free.1 in
          let rest =
            send_records-waiting rs c'
              (ap (λ q. q.capacity) pushed ∙ free.0, ap (λ q. q.open_rx) pushed ∙ free.1) in
          (
            rest.0
                ∙ ap (λ q. q.items ++ rs) pushed
                ∙ append_assoc (Mpsc.view B c).items (r ∷ []) rs,
            rest.1,
          )

      -- What a receive gives and leaves.
      abbrev pub Received : Queue LogRecord → RecvReply LogRecord × Queue LogRecord → Type 0
      Received q (reply, q') =
          (q.items ≡ on_received X F B reply ++ q'.items)
          × (q'.capacity ≡ q.capacity)
          × (q'.open_rx ≡ q.open_rx)

      pub recv_spec-Received : (q : Queue LogRecord) → Received q (recv_spec q)
      unfolding on_received
      recv_spec-Received q = at q.items refl
        where
          nothing :
              (b : Bool)
              → let r : RecvReply LogRecord × Queue LogRecord =
                  if b then (empty, q) else (disconnected, q) in
                Received q r
          nothing true = (refl, refl, refl)
          nothing false = (refl, refl, refl)

          at :
              (l : List LogRecord)
              → q.items ≡ l
              → let r : RecvReply LogRecord × Queue LogRecord =
                  elim l as (λ l. RecvReply LogRecord × Queue LogRecord) [
                    | m ∷ ms ↦ (item m, record q { items = ms })
                    | [] ↦ if q.open_tx && q.open_rx then (empty, q) else (disconnected, q)
                  ] in
                Received q r
          at [] e = nothing (q.open_tx && q.open_rx)
          at (m ∷ ms) e = (e, refl, refl)
