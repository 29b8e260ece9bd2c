-- ===== src/Logger/Session/Drained.antt =====
-- The worker of src/logger/mod.rs with what waits for it in the channel.
use atoman_rs.Prelude.{
  ℕ, ◌+◌, suc, ◌≡◌, refl, ap, sym, ◌∙◌, Bool, some, List, [], ◌∷◌, ◌++◌, map, Text,
}
use mathlib.Core.List.{append-nil}
use atoman_rs.Channel.Queue.{Mpsc, item}
use atoman_rs.Channel.Sends.{recv_spec-items}
use atoman_rs.Logger.Disk.{Clock, Disk}
use atoman_rs.Logger.Worker.{LogCmd, log, flush_now, World, step}
use atoman_rs.Logger.Answers.{flushes, worker-answered}
use atoman_rs.Logger.Client.{Queued, event, flush_mark}
use atoman_rs.Logger.Session.{
  taken_as, as_queued, Session, works, Reach, here, next, start, items_of,
}
use atoman_rs.Logger.Session.Order.{session-IsInOrder}

module _ (K : Clock) (S : Disk) where
  open K use {Time}

  abbrev pub marks : List (Queued K S) → ℕ
  marks [] = 0
  marks (event e ∷ ms) = marks ms
  marks (flush_mark ∷ ms) = suc (marks ms)

  marks-as_queued : (cs : List (LogCmd K S)) → marks (map (as_queued K S) cs) ≡ flushes K S cs
  marks-as_queued [] = refl
  marks-as_queued (log e now drained ∷ cs) = marks-as_queued cs
  marks-as_queued (flush_now ∷ cs) = ap (λ n. suc n) (marks-as_queued cs)

  module _ (B : Mpsc (Queued K S)) (pid : Text) where
    Reach-trans :
        {s t u : Session K S B} → Reach K S B pid s t → Reach K S B pid t u → Reach K S B pid s u
    Reach-trans a here = a
    Reach-trans a (next b st) = next (Reach-trans a b) st

    -- The first message of a channel that has some.
    recv-item :
        (c : Mpsc.C B) (m : Queued K S) (ms : List (Queued K S))
        → (Mpsc.view B c).items ≡ m ∷ ms
        → (Mpsc.recv B c ≡ (item m, (Mpsc.recv B c).1))
          × ((Mpsc.view B (Mpsc.recv B c).1).items ≡ ms)
    recv-item c m ms e =
        let here = recv_spec-items (Mpsc.view B c) e in
        (
          ap (λ r. (r, (Mpsc.recv B c).1)) (Mpsc.recv_reply B c ∙ ap (λ r. r.0) here),
          ap (λ q. q.items) (Mpsc.recv_view B c ∙ ap (λ r. r.1) here),
        )

    -- The worker has dealt with all that waited.
    pub record Emptied (s u : Session K S B) : Type 0 where
      pub reach : Reach K S B pid s u
      pub same : u.accepted ≡ s.accepted
      pub none_waits : items_of K S B u ≡ []

    works-Emptied :
        (now : Time) (drained : Bool) (l : List (Queued K S)) (s : Session K S B)
        → items_of K S B s ≡ l
        → (u : Session K S B) × Emptied s u
    works-Emptied now drained [] s e = (s, record { reach = here; same = refl; none_waits = e })
    works-Emptied now drained (m ∷ ms) s e =
        let (taken, left) = recv-item s.chan m ms e in
        let c = (Mpsc.recv B s.chan).1 in
        let d = taken_as K S m now drained in
        let s' : Session K S B = record {
          chan = c;
          world = step K S pid d s.world;
          taken = s.taken ++ d ∷ [];
          accepted = s.accepted;
        } in
        let (u, k) = works-Emptied now drained ms s' left in
        (
          u,
          record {
            reach = Reach-trans (next here (works now drained taken)) k.reach;
            same = k.same;
            none_waits = k.none_waits;
          },
        )

    -- From a channel of some size with nothing in it, whatever steps were made and whatever fails: the worker can
    -- go on, at any time, until nothing waits, and then it has answered every flush that was accepted.
    pub worker_answers_all :
        (now : Time) (drained : Bool) (size : ℕ) (w : World K S) (c : Mpsc.C B) {t : Session K S B}
        → (Mpsc.view B c).items ≡ []
        → (Mpsc.view B c).capacity ≡ some size
        → Reach K S B pid (start K S B c w) t
        → (u : Session K S B) × Emptied t u × (u.world.answered ≡ w.answered + marks t.accepted)
    worker_answers_all now drained size w c {t} none_there room reach =
        let (u, k) = works-Emptied now drained (items_of K S B t) t refl in
        let inv =
          session-IsInOrder K S B pid size w c none_there room (Reach-trans reach k.reach) in
        let all : t.accepted ≡ map (as_queued K S) u.taken =
          sym k.same
          ∙ inv.flow
          ∙ ap (λ l. map (as_queued K S) u.taken ++ l) k.none_waits
          ∙ append-nil (map (as_queued K S) u.taken) in
        (
          u,
          k,
          ap (λ w. w.answered) inv.run
              ∙ worker-answered K S pid u.taken w
              ∙ ap (λ n. w.answered + n) (sym (marks-as_queued u.taken) ∙ sym (ap marks all)),
        )
