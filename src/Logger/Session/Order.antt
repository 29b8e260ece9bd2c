-- ===== src/Logger/Session/Order.antt =====
-- The order in which the worker of src/logger/mod.rs takes what a program's tasks log.
use atoman_rs.Prelude.{
  ℕ, ◌≤◌, ◌≡◌, refl, ap, sym, ◌∙◌, subst, Bool, true, false, some, List, [], ◌∷◌, ◌++◌, map, length,
  Text, arith,
}
use mathlib.Core.List.{append_assoc, map-append}
use atoman_rs.Channel.Queue.{Mpsc, SendReply, sent, full, closed, waits, send_spec}
use atoman_rs.Channel.Sends.{
  put_in, Sending, unsent-Sending, send-Sending, try_send-calls, recv-First,
}
use atoman_rs.Logger.Session.{
  taken_as, as_queued, put_mark, Session, Step, emits, asks, works, start, Reach, here, next,
  items_of,
}
use atoman_rs.Logger.Disk.{Clock, Disk}
use atoman_rs.Logger.Worker.{LogCmd, World, step, worker}
use atoman_rs.Logger.Client.{
  Queued, event, flush_mark, Flushing, on_flush_sent, make_event, on_event, flush,
}

module _ (K : Clock) (S : Disk) where
  open K use {Time}

  module _ (B : Mpsc (Queued K S)) where
    -- What was accepted is what was taken and what waits, in order; the worker is where its commands lead; no
    -- more waits than the channel holds.
    pub record IsInOrder (pid : Text) (size : ℕ) (w : World K S) (s : Session K S B) : Type 0 where
      pub flow : s.accepted ≡ map (as_queued K S) s.taken ++ items_of K S B s
      pub run : s.world ≡ worker K S pid s.taken w
      pub room : (Mpsc.view B s.chan).capacity ≡ some size
      pub bound : length (items_of K S B s) ≤ size

    -- What `flush` does to the channel, as a send whose answer fits.
    flush-Sending :
        (tx : Bool) (c : Mpsc.C B) {f : Flushing K S} {c' : Mpsc.C B}
        → flush K S B tx c ≡ (f, c')
        → (r : SendReply) × (put_mark K S f ≡ put_in flush_mark r)
          × Sending flush_mark (Mpsc.view B c) r (Mpsc.view B c')
    unfolding flush on_flush_sent
    flush-Sending false c {f} {c'} e = (
      closed,
      ap (λ r. put_mark K S r.0) (sym e),
      subst (λ x. Sending flush_mark (Mpsc.view B c) closed (Mpsc.view B x)) (ap (λ r. r.1) e)
          (unsent-Sending flush_mark (Mpsc.view B c) closed refl),
    )
    flush-Sending true c {f} {c'} e =
        let r = Mpsc.send B flush_mark c in
        let spec = send_spec flush_mark (Mpsc.view B c) in
        (
          r.0,
          ap (λ r. put_mark K S r.0) (sym e) ∙ marks r.0,
          subst (λ x. Sending flush_mark (Mpsc.view B c) r.0 (Mpsc.view B x)) (ap (λ r. r.1) e)
              (subst (λ x. Sending flush_mark (Mpsc.view B c) x (Mpsc.view B r.1))
                (sym (Mpsc.send_reply B flush_mark c))
                (subst (λ q. Sending flush_mark (Mpsc.view B c) spec.0 q)
                  (sym (Mpsc.send_view B flush_mark c)) (send-Sending flush_mark (Mpsc.view B c)))),
        )
      where
        marks : (r : SendReply) → put_mark K S (on_flush_sent K S r) ≡ put_in flush_mark r
        marks sent = refl
        marks full = refl
        marks closed = refl
        marks waits = refl

    module _ (pid : Text) (size : ℕ) (w : World K S) where
      -- A send keeps the order.
      put-IsInOrder :
          (s : Session K S B) (c : Mpsc.C B) (m : Queued K S) (r : SendReply)
          (added : List (Queued K S))
          → added ≡ put_in m r
          → Sending m (Mpsc.view B s.chan) r (Mpsc.view B c)
          → IsInOrder pid size w s
          → IsInOrder pid size w (record s { chan = c; accepted = s.accepted ++ added })
      put-IsInOrder s c m r added e sending inv = record {
        flow =
            ap (λ l. l ++ added) inv.flow
            ∙ append_assoc (map (as_queued K S) s.taken) (items_of K S B s) added
            ∙ ap (λ l. map (as_queued K S) s.taken ++ (items_of K S B s ++ l)) e
            ∙ ap (λ l. map (as_queued K S) s.taken ++ l) (sym sending.items);
        run = inv.run;
        room = sending.same ∙ inv.room;
        bound = sending.fits size inv.room inv.bound;
      }

      as_queued-taken_as :
          (m : Queued K S) (now : Time) (b : Bool) → as_queued K S (taken_as K S m now b) ≡ m
      as_queued-taken_as (event e) now b = refl
      as_queued-taken_as flush_mark now b = refl

      worker-last :
          (cs : List (LogCmd K S)) (c : LogCmd K S) (w : World K S)
          → worker K S pid (cs ++ c ∷ []) w ≡ step K S pid c (worker K S pid cs w)
      unfolding worker
      worker-last [] c w = refl
      worker-last (d ∷ cs) c w = worker-last cs c (step K S pid d w)

      Step-IsInOrder :
          {s t : Session K S B}
          → Step K S B pid s t
          → IsInOrder pid size w s
          → IsInOrder pid size w t
      unfolding on_event
      Step-IsInOrder {s} (emits level t scope fields {reply} {c} e) inv =
          let m = event (make_event K S level t scope fields) in
          put-IsInOrder s c m reply (put_in m reply) refl (try_send-calls B m s.chan e) inv
      Step-IsInOrder {s} (asks {f} {c} e) inv =
          let (r, marks, sending) = flush-Sending s.world.state.tx s.chan e in
          put-IsInOrder s c flush_mark r (put_mark K S f) marks sending inv
      Step-IsInOrder {s} (works now drained {m} {c} e) inv =
          let (front, same) = recv-First B s.chan e in
          let d = taken_as K S m now drained in
          record {
            flow =
                inv.flow
                ∙ ap (λ l. map (as_queued K S) s.taken ++ l) front
                ∙ ap (λ x. map (as_queued K S) s.taken ++ x ∷ (Mpsc.view B c).items)
                    (sym (as_queued-taken_as m now drained))
                ∙ sym (
                    append_assoc (map (as_queued K S) s.taken) (as_queued K S d ∷ [])
                      (Mpsc.view B c).items)
                ∙ ap (λ l. l ++ (Mpsc.view B c).items)
                    (sym (map-append (as_queued K S) s.taken (d ∷ [])));
            run = ap (step K S pid d) inv.run ∙ sym (worker-last s.taken d w);
            room = same ∙ inv.room;
            bound = shorter front inv.bound;
          }
        where
          shorter :
              {m : Queued K S} {xs ys : List (Queued K S)}
              → xs ≡ m ∷ ys
              → length xs ≤ size
              → length ys ≤ size
          shorter e l = omega (arith, ap length e)

      start-IsInOrder :
          (c : Mpsc.C B)
          → (Mpsc.view B c).items ≡ []
          → (Mpsc.view B c).capacity ≡ some size
          → IsInOrder pid size w (start K S B c w)
      unfolding worker
      start-IsInOrder c none_there room = record {
        flow = sym none_there;
        run = refl;
        room = room;
        bound = omega (arith, ap length none_there);
      }

      pub Reach-IsInOrder :
          {s t : Session K S B}
          → IsInOrder pid size w s
          → Reach K S B pid s t
          → IsInOrder pid size w t
      Reach-IsInOrder inv here = inv
      Reach-IsInOrder inv (next r st) = Step-IsInOrder st (Reach-IsInOrder inv r)

      -- From a channel of some size with nothing in it, whatever steps are made: the commands that were accepted
      -- are those that the worker has taken and then those that wait, in order and once each; the worker is
      -- where the taken ones lead; and no more wait than the channel holds.
      pub session-IsInOrder :
          (c : Mpsc.C B) {t : Session K S B}
          → (Mpsc.view B c).items ≡ []
          → (Mpsc.view B c).capacity ≡ some size
          → Reach K S B pid (start K S B c w) t
          → IsInOrder pid size w t
      session-IsInOrder c none_there room r = Reach-IsInOrder (start-IsInOrder c none_there room) r
