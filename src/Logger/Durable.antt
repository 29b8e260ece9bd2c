-- ===== src/Logger/Durable.antt =====
-- What an answered `flush` of src/logger/mod.rs means to the tasks of a program, on a disk that does not fail.
use atoman_rs.Prelude.{
  ℕ, ◌+◌, ◌<◌, ◌≡◌, refl, ap, sym, ◌∙◌, subst, arith, some, List, [], ◌∷◌, ◌++◌, map, Text,
}
use mathlib.Core.List.{append_assoc}
use atoman_rs.Channel.Queue.{Mpsc}
use atoman_rs.Logger.Disk.{Clock, Disk, IsReliable, IsName}
use atoman_rs.Logger.Bounds.{IsBounded}
use atoman_rs.Logger.Answers.{flushes, worker-answered}
use atoman_rs.Logger.Worker.{LogCmd, log, flush_now, World, worker}
use atoman_rs.Logger.Stages.{flat, flat-append, sent, line}
use atoman_rs.Logger.Delivery.{
  IsReady, AreLate, lines, flush_writes_all, worker-append, worker-sent,
}
use atoman_rs.Logger.Growth.{worker-Grows}
use atoman_rs.Logger.Client.{Queued, event, flush_mark}
use atoman_rs.Logger.Session.{Session, Reach, start, as_queued, items_of}
use atoman_rs.Logger.Session.Order.{session-IsInOrder}
use atoman_rs.Logger.Session.Drained.{marks}

append-cancel : (xs ys zs : Text) → xs ++ ys ≡ xs ++ zs → ys ≡ zs
append-cancel [] ys zs e = e
append-cancel (x ∷ xs) ys zs e = append-cancel xs ys zs (cc)

module _ (K : Clock) (S : Disk) where
  -- The lines of the events among accepted commands.
  abbrev pub event_lines : List (Queued K S) → Text
  event_lines [] = []
  event_lines (event e ∷ ms) = line K S e ++ event_lines ms
  event_lines (flush_mark ∷ ms) = event_lines ms

  -- Each event is later than the first second of 1970.
  abbrev pub EventsAreLate : List (Queued K S) → Type 0
  EventsAreLate [] = Unit
  EventsAreLate (event e ∷ ms) = (0 < Clock.seconds K e.timestamp) × EventsAreLate ms
  EventsAreLate (flush_mark ∷ ms) = EventsAreLate ms

  -- Where a flush stands among what the worker has taken.
  record Split (taken : List (LogCmd K S)) (rest before after : List (Queued K S)) : Type 0 where
    first : List (LogCmd K S)
    others : List (LogCmd K S)
    whole : taken ≡ first ++ flush_now ∷ others
    same : map (as_queued K S) first ≡ before
    behind : map (as_queued K S) others ++ rest ≡ after

  taken-Split :
      (taken : List (LogCmd K S)) (rest before after : List (Queued K S))
      → map (as_queued K S) taken ++ rest ≡ before ++ flush_mark ∷ after
      → marks K S before < flushes K S taken
      → Split taken rest before after
  taken-Split [] rest before after e less = absurd (omega arith)
  taken-Split (flush_now ∷ cs) rest [] after e less = record {
    first = [];
    others = cs;
    whole = refl;
    same = refl;
    behind = (cc);
  }
  taken-Split (log x now b ∷ cs) rest [] after e less = cc
  taken-Split (flush_now ∷ cs) rest (flush_mark ∷ ms) after e less =
      let s = taken-Split cs rest ms after (cc) (omega arith) in
      record {
        first = flush_now ∷ s.first;
        others = s.others;
        whole = ap (λ l. flush_now ∷ l) s.whole;
        same = ap (λ l. flush_mark ∷ l) s.same;
        behind = s.behind;
      }
  taken-Split (flush_now ∷ cs) rest (event x ∷ ms) after e less = cc
  taken-Split (log x now b ∷ cs) rest (flush_mark ∷ ms) after e less = cc
  taken-Split (log x now b ∷ cs) rest (event y ∷ ms) after e less =
      let s = taken-Split cs rest ms after (cc) less in
      let this : ◌≡◌ {A = Queued K S} (event x) (event y) = cc in
      record {
        first = log x now b ∷ s.first;
        others = s.others;
        whole = ap (λ l. log x now b ∷ l) s.whole;
        same = ap (λ l. event x ∷ l) s.same ∙ ap (λ m. m ∷ ms) this;
        behind = s.behind;
      }

  lines-event_lines :
      (R : IsReliable S) (pid : Text) (names : IsName pid) (cs : List (LogCmd K S))
      → lines K S R pid names cs ≡ event_lines (map (as_queued K S) cs)
  lines-event_lines R pid names [] = refl
  lines-event_lines R pid names (log e now b ∷ cs) =
      ap (λ t. line K S e ++ t) (lines-event_lines R pid names cs)
  lines-event_lines R pid names (flush_now ∷ cs) = lines-event_lines R pid names cs

  AreLate-EventsAreLate :
      (R : IsReliable S) (pid : Text) (names : IsName pid) (cs : List (LogCmd K S))
      → EventsAreLate (map (as_queued K S) cs)
      → AreLate K S R pid names cs
  AreLate-EventsAreLate R pid names [] l = tt
  AreLate-EventsAreLate R pid names (log e now b ∷ cs) l =
      (l.0, AreLate-EventsAreLate R pid names cs l.1)
  AreLate-EventsAreLate R pid names (flush_now ∷ cs) l = AreLate-EventsAreLate R pid names cs l

  EventsAreLate-parts :
      (ms ns : List (Queued K S)) → EventsAreLate (ms ++ ns) → EventsAreLate ms × EventsAreLate ns
  EventsAreLate-parts [] ns l = (tt, l)
  EventsAreLate-parts (event e ∷ ms) ns l =
      let (a, b) = EventsAreLate-parts ms ns l.1 in ((l.0, a), b)
  EventsAreLate-parts (flush_mark ∷ ms) ns l = EventsAreLate-parts ms ns l

  event_lines-append :
      (ms ns : List (Queued K S)) → event_lines (ms ++ ns) ≡ event_lines ms ++ event_lines ns
  event_lines-append [] ns = refl
  event_lines-append (event e ∷ ms) ns =
      ap (λ t. line K S e ++ t) (event_lines-append ms ns)
      ∙ sym (append_assoc (line K S e) (event_lines ms) (event_lines ns))
  event_lines-append (flush_mark ∷ ms) ns = event_lines-append ms ns

  -- The files have some text, then the lines of the events before a flush, then the first part of the lines of
  -- those behind it.
  abbrev pub Kept : World K S → Text → List (Queued K S) → List (Queued K S) → Type 0
  Kept u old before after =
      (later : Text) × (flat (Disk.stored S u.disk) ≡ old ++ (event_lines before ++ later))
      × (rest : Text) × (event_lines after ≡ later ++ rest)

  module _ (R : IsReliable S) (pid : Text) (names : IsName pid) (w : World K S)
      (ready : IsReady K S R pid names w) (bounded : IsBounded K S w)
      (none_held : Disk.holders S w.disk ≡ []) where
    open S use {written}

    -- At the moment of the flush, and then.
    taken-written :
        (taken : List (LogCmd K S)) (rest before after : List (Queued K S))
        → Split taken rest before after
        → EventsAreLate before
        → EventsAreLate after
        → Kept (worker K S pid taken w) (sent K S w) before after
    taken-written taken rest before after s late late_after =
        let done = s.first ++ flush_now ∷ [] in
        let late' =
          AreLate-EventsAreLate R pid names s.first (subst EventsAreLate (sym s.same) late) in
        let late_others =
          AreLate-EventsAreLate R pid names s.others
            (EventsAreLate-parts (map (as_queued K S) s.others) rest
              (subst EventsAreLate (sym s.behind) late_after)).0 in
        let (at_flush, held₁, empty, count) =
          flush_writes_all K S R pid names s.first w ready bounded none_held late' in
        let w₁ = worker K S pid done w in
        let w₂ = worker K S pid s.others w₁ in
        let g = worker-Grows K S R pid s.others w₁ in
        let run : worker K S pid taken w ≡ w₂ =
          ap (λ l. worker K S pid l w)
            (s.whole ∙ sym (append_assoc s.first (flush_now ∷ []) s.others))
          ∙ worker-append K S R pid names done s.others w in
        let (first_sent, ready') = worker-sent K S R pid names s.first w ready late' in
        let (others_sent, ready'') =
          worker-sent K S R pid names (flush_now ∷ s.others) (worker K S pid s.first w) ready'
            late_others in
        let same_end : worker K S pid (flush_now ∷ s.others) (worker K S pid s.first w) ≡ w₂ =
          sym (worker-append K S R pid names s.first (flush_now ∷ s.others) w)
          ∙ ap (λ l. worker K S pid l w) (sym (append_assoc s.first (flush_now ∷ []) s.others))
          ∙ worker-append K S R pid names done s.others w in
        let before_lines = lines-event_lines R pid names s.first ∙ ap event_lines s.same in
        let old = sent K S w ++ lines K S R pid names s.first in
        let given : flat (written w₁.disk) ≡ old =
          ap flat (sym (Disk.stored-written S w₁.disk held₁)) ∙ at_flush in
        let grown : flat (written w₂.disk) ≡ old ++ flat g.more =
          ap flat g.grown
          ∙ flat-append (written w₁.disk) g.more
          ∙ ap (λ t. t ++ flat g.more) given in
        let added : flat g.more ++ w₂.buffer ≡ lines K S R pid names s.others =
          append-cancel old (flat g.more ++ w₂.buffer) (lines K S R pid names s.others) (
            sym (append_assoc old (flat g.more) w₂.buffer)
            ∙ ap (λ t. t ++ w₂.buffer) (sym grown)
            ∙ sym (ap (sent K S) same_end)
            ∙ others_sent
            ∙ ap (λ t. t ++ lines K S R pid names s.others) first_sent) in
        (
          flat g.more,
          ap (λ w. flat (Disk.stored S w.disk)) run
              ∙ ap flat (Disk.stored-written S w₂.disk (g.settled held₁))
              ∙ grown
              ∙ ap (λ t. (sent K S w ++ t) ++ flat g.more) before_lines
              ∙ append_assoc (sent K S w) (event_lines before) (flat g.more),
          w₂.buffer ++ event_lines rest,
          sym (ap event_lines s.behind)
              ∙ event_lines-append (map (as_queued K S) s.others) rest
              ∙ ap (λ t. t ++ event_lines rest)
                  (sym (lines-event_lines R pid names s.others) ∙ sym added)
              ∙ append_assoc (flat g.more) w₂.buffer (event_lines rest),
        )

    -- On a disk that does not fail, from a worker at its start as `flush_writes_all` has it and a channel of some
    -- size with nothing in it, where all events are later than the first second of 1970, after any steps of the program's tasks and the worker: once a flush is answered, the
    -- files have, as their stored contents, all that was sent before, then the line of every event that was
    -- accepted before that flush, whole, once and in order, and then only the first part of the lines of the
    -- events that were accepted after it, in order.
    pub answered_flush :
        (B : Mpsc (Queued K S)) (size : ℕ) (c : Mpsc.C B) {t : Session K S B}
        (before after : List (Queued K S))
        → (Mpsc.view B c).items ≡ []
        → (Mpsc.view B c).capacity ≡ some size
        → Reach K S B pid (start K S B c w) t
        → t.accepted ≡ before ++ flush_mark ∷ after
        → EventsAreLate before
        → EventsAreLate after
        → w.answered + marks K S before < t.world.answered
        → Kept t.world (sent K S w) before after
    answered_flush B size c {t} before after none_there room reach put late late_after answered =
        let inv = session-IsInOrder K S B pid size w c none_there room reach in
        let count = worker-answered K S pid t.taken w in
        let same : t.world.answered ≡ w.answered + flushes K S t.taken =
          ap (λ w. w.answered) inv.run ∙ count in
        let rest = items_of K S B t in
        let s = taken-Split t.taken rest before after (sym inv.flow ∙ put) (omega arith) in
        subst (λ u. Kept u (sent K S w) before after) (sym inv.run)
          (taken-written t.taken rest before after s late late_after)
