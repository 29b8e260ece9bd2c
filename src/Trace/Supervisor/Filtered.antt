-- ===== src/Trace/Supervisor/Filtered.antt =====
-- What the owner of a `MultiTrace` (src/trace/mod.rs) gets, and what a change of its filters does.
use atoman_rs.Prelude.{
  ◌≡◌, refl, ap, sym, ◌∙◌, subst, Bool, true, none, List, [], ◌∷◌, ◌++◌, map, Every, Every-append,
  Every-imp,
}
use mathlib.Core.List.{append_assoc, append-nil, map-append}
use atoman_rs.Channel.Queue.{Mpsc, recv_spec}
use atoman_rs.Trace.{Regexes, Lines, LogRecord, FilterEngine}
use atoman_rs.Trace.Watch.{SourceConfig}
use atoman_rs.Trace.Supervisor.{
  Task, spawned, MultiTrace, start, update_filters, on_received, recv_and_print, Step, acts, prints,
  Runs, here, next, Reach, begin, steps, updates,
}
use atoman_rs.Trace.Supervisor.Flow.{
  Passes, IsSent, Act-IsSent, IsFrom, waiting, IsUnlimited, send_records-waiting, Received,
  recv_spec-Received,
}

module _ (X : Regexes) (F : Lines) (B : Mpsc LogRecord) (only_new : Bool)
    (sources : List (SourceConfig X F)) where
  -- What was sent is what was printed and what waits, in order; the tasks are those of the sources; what was sent
  -- is from them.
  pub record IsTraced (m : MultiTrace X F B) : Type 0 where
    pub flow : m.sent ≡ m.printed ++ waiting X F B m
    pub free : IsUnlimited X F B m.chan
    pub configs : map (λ t. t.config) m.handles ≡ sources
    pub from : Every (IsFrom X F sources) m.sent

  -- Between two moments only such records were sent that the filters let pass.
  pub record OnlyPassing (m n : MultiTrace X F B) : Type 0 where
    pub same : n.filters ≡ m.filters
    pub more : List LogRecord
    pub added : n.sent ≡ m.sent ++ more
    pub pass : Every (Passes X m.filters) more

  spawned-configs : (cs : List (SourceConfig X F)) → map (λ t. t.config) (map (spawned X F) cs) ≡ cs
  unfolding spawned
  spawned-configs [] = refl
  spawned-configs (c ∷ cs) = ap (λ l. c ∷ l) (spawned-configs cs)

  start-IsTraced :
      (filters : FilterEngine X) (c : Mpsc.C B)
      → (Mpsc.view B c).items ≡ []
      → IsUnlimited X F B c
      → IsTraced (start X F B sources filters c)
  unfolding start
  start-IsTraced filters c none_there free = record {
    flow = sym none_there;
    free = free;
    configs = spawned-configs sources;
    from = tt;
  }

  received :
      (m : MultiTrace X F B)
      → let q' = Mpsc.view B (recv_and_print X F B m).chan in
        (waiting X F B m ≡ on_received X F B (Mpsc.recv B m.chan).0 ++ q'.items)
        × (q'.capacity ≡ (Mpsc.view B m.chan).capacity)
        × (q'.open_rx ≡ (Mpsc.view B m.chan).open_rx)
  unfolding recv_and_print
  received m =
      let q = Mpsc.view B m.chan in
      subst (λ r. Received X F B q (r, Mpsc.view B (Mpsc.recv B m.chan).1))
        (sym (Mpsc.recv_reply B m.chan))
        (subst (λ q'. Received X F B q ((recv_spec q).0, q')) (sym (Mpsc.recv_view B m.chan))
          (recv_spec-Received X F B q))

  Step-IsTraced :
      {m n : MultiTrace X F B} → Step X F B only_new m n → IsTraced m → IsTraced n × OnlyPassing m n
  unfolding recv_and_print
  Step-IsTraced {m} (acts front back {task} {task'} {sent = rs} split act) inv =
      let (sent, same) = Act-IsSent X F act in
      let (put, free) = send_records-waiting X F B rs m.chan inv.free in
      let config_of : Task X F → SourceConfig X F = λ t. t.config in
      let stands : sources ≡ map config_of front ++ task.config ∷ map config_of back =
        sym inv.configs ∙ ap (map config_of) split ∙ map-append config_of front (task ∷ back) in
      (
        record {
          flow =
              ap (λ l. l ++ rs) inv.flow
              ∙ append_assoc m.printed (waiting X F B m) rs
              ∙ ap (λ l. m.printed ++ l) (sym put);
          free = free;
          configs =
              map-append config_of front (task' ∷ back)
              ∙ ap (λ c. map config_of front ++ c ∷ map config_of back) same
              ∙ sym stands;
          from = Every-append (IsFrom X F sources) m.sent rs inv.from (
              Every-imp (IsSent X m.filters task.config.name) (IsFrom X F sources) rs
                (λ r s. record {
                  front = map config_of front;
                  back = map config_of back;
                  config = task.config;
                  stands = stands;
                  named = s.0;
                  filled = s.1.0;
                })
                sent);
        },
        record {
          same = refl;
          more = rs;
          added = refl;
          pass =
              Every-imp (IsSent X m.filters task.config.name) (Passes X m.filters) rs (λ r s. s.1)
                sent;
        },
      )
  Step-IsTraced {m} prints inv =
      let (taken, capacity, open_) = received m in
      (
        record {
          flow =
              inv.flow
              ∙ ap (λ l. m.printed ++ l) taken
              ∙ sym (
                  append_assoc m.printed (on_received X F B (Mpsc.recv B m.chan).0)
                    (waiting X F B (recv_and_print X F B m)));
          free = (capacity ∙ inv.free.0, open_ ∙ inv.free.1);
          configs = inv.configs;
          from = inv.from;
        },
        record { same = refl; more = []; added = sym (append-nil m.sent); pass = tt },
      )

  OnlyPassing-trans :
      {m n k : MultiTrace X F B} → OnlyPassing m n → OnlyPassing n k → OnlyPassing m k
  OnlyPassing-trans {m} a b = record {
    same = b.same ∙ a.same;
    more = a.more ++ b.more;
    added = b.added ∙ ap (λ l. l ++ b.more) a.added ∙ append_assoc m.sent a.more b.more;
    pass =
        Every-append (Passes X m.filters) a.more b.more a.pass
          (subst (λ f. Every (Passes X f) b.more) a.same b.pass);
  }

  Runs-IsTraced :
      {m n : MultiTrace X F B} → Runs X F B only_new m n → IsTraced m → IsTraced n × OnlyPassing m n
  Runs-IsTraced {m} here inv =
      (inv, record { same = refl; more = []; added = sym (append-nil m.sent); pass = tt })
  Runs-IsTraced (next r st) inv =
      let (inv', a) = Runs-IsTraced r inv in
      let (inv'', b) = Step-IsTraced st inv' in (inv'', OnlyPassing-trans a b)

  Reach-IsTraced : {m n : MultiTrace X F B} → Reach X F B only_new m n → IsTraced m → IsTraced n
  unfolding update_filters
  Reach-IsTraced begin inv = inv
  Reach-IsTraced (steps r st) inv = (Step-IsTraced st (Reach-IsTraced r inv)).0
  Reach-IsTraced (updates filters r) inv =
      let i = Reach-IsTraced r inv in
      record { flow = i.flow; free = i.free; configs = i.configs; from = i.from }

  -- From a start on a new unlimited channel, whatever steps the tasks make in whatever order and however often
  -- the filters are replaced: what was sent is what was printed and what waits, in order and once each; every
  -- record has the name of one of the sources and some text; and after an update of the filters, until the
  -- next one, only such records are added that the new filters let pass.
  pub update_filters-OnlyPassing :
      (filters new_filters : FilterEngine X) (c : Mpsc.C B) {m n : MultiTrace X F B}
      → (Mpsc.view B c).items ≡ []
      → (Mpsc.view B c).capacity ≡ none
      → (Mpsc.view B c).open_rx ≡ true
      → Reach X F B only_new (start X F B sources filters c) m
      → Runs X F B only_new (update_filters X F B new_filters m) n
      → IsTraced n × OnlyPassing (update_filters X F B new_filters m) n × (n.filters ≡ new_filters)
  unfolding update_filters
  update_filters-OnlyPassing filters new_filters c none_there unlimited open_ reach runs =
      let inv =
        Reach-IsTraced (updates new_filters reach)
          (start-IsTraced filters c none_there (unlimited, open_)) in
      let (inv', only) = Runs-IsTraced runs inv in (inv', only, only.same)
