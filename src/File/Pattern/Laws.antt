-- ===== src/File/Pattern/Laws.antt =====
-- What `File::read_until_pattern` (src/file/file.rs) finds, however the reader cuts its chunks.
use atoman_rs.Prelude.{
  ℕ, ◌+◌, ◌-◌, ◌≤◌, ◌<◌, ◌≡◌, ◌≢◌, refl, ap, sym, ◌∙◌, subst, Bool, true, false, Option, none, some,
  List, [], ◌∷◌, ◌++◌, length, take, drop, arith, ◌⊎◌, inr, length-append, length-drop, length-take,
  take-append-drop, append_cancel, dec_lt,
}
use mathlib.Core.List.{append_assoc, append-nil}
use atoman_rs.Prelude.Result.{Result, success, failure}
use atoman_rs.File.Stream.{Stream, current, neg}
use atoman_rs.File.Window.{
  starts_with, find_window, IsNowhere, starts_with-split, starts_with-append, starts_with-length,
  drop-append, drop-drop, find_window-some, find_window-none,
}
use atoman_rs.File.Pattern.{value, error, panic, out_of_fuel, Answer, give_back, at_end}

-- An occurrence in the old bytes and a new chunk starts near enough to the chunk to be searched for.
pub nowhere-append :
    (stop old new : List ℕ) (s : ℕ)
    → 0 < length stop
    → IsNowhere stop old
    → s ≤ length (old ++ new) - (length new + length stop - 1)
    → (p : ℕ) → p < s
    → starts_with stop (drop p (old ++ new)) ≡ false
nowhere-append stop old new s pos h le p lt =
    let l = length-append old new in
    let short : length stop ≤ length (drop p old) = omega (arith, length-drop p old) in
    rw (drop-append p old new (omega arith), starts_with-append stop (drop p old) new short) (h p)

module _ (S : Stream) where
  open S use {R, E, past, rest, read, seek, read_lem, seek_back_lem}

  -- `out` and the pattern stand ahead of `r`, the pattern nowhere before the end of `out`, and `r'`
  -- is behind both.
  pub record Found (stop : List ℕ) (r : R) (out : List ℕ) (r' : R) : Type 0 where
    pub ahead : rest r ≡ out ++ stop ++ rest r'
    pub behind : past r' ≡ past r ++ out ++ stop
    pub first : (p : ℕ) → p < length out → starts_with stop (drop p (rest r)) ≡ false

  -- What a call from `r` may give; a panic and a lack of fuel are excluded.
  abbrev pub Correct : List ℕ → Bool → R → Answer S → Type 0
  Correct stop capt r (value (some out) r') =
      Found stop r out r'
      ⊎ ((capt ≡ true)
          × IsNowhere stop (rest r)
          × (out ≡ rest r)
          × (rest r' ≡ [])
          × (past r' ≡ past r ++ out)
          × (out ≢ []))
  Correct stop capt r (value none r') =
      IsNowhere stop (rest r)
      × (past r' ≡ past r)
      × (rest r' ≡ rest r)
      × (capt ≡ true → rest r ≡ [])
  Correct stop capt r (error e r') = Unit
  Correct stop capt r panic = ⊥
  Correct stop capt r out_of_fuel = ⊥

  -- The loop's invariant: what was read stands in the buffer, and the pattern nowhere in it.
  pub record Inv (stop : List ℕ) (r₀ : R) (buffer : List ℕ) (r : R) : Type 0 where
    pub behind : past r ≡ past r₀ ++ buffer
    pub ahead : rest r₀ ≡ buffer ++ rest r

  module _ (stop : List ℕ) (r₀ : R) where
    -- A reader over the same bytes is placed by the number of bytes behind it.
    pub placed :
        (buffer : List ℕ) (r r' : R) (xs ys : List ℕ)
        → Inv stop r₀ buffer r
        → past r' ++ rest r' ≡ past r ++ rest r
        → rest r₀ ≡ xs ++ ys
        → length (past r') ≡ length (past r₀) + length xs
        → (past r' ≡ past r₀ ++ xs) × (rest r' ≡ ys)
    placed buffer r r' xs ys inv same split far =
        append_cancel (past r') (rest r') (past r₀ ++ xs) ys
          (same
            ∙ ap (λ l. l ++ rest r) inv.behind
            ∙ append_assoc (past r₀) buffer (rest r)
            ∙ ap (λ l. past r₀ ++ l) (sym inv.ahead ∙ split)
            ∙ sym (append_assoc (past r₀) xs ys))
          (far ∙ sym (length-append (past r₀) xs))

    -- Seeking back over the last `k` bytes behind `r`.
    pub give_back-Correct :
        (capt : Bool) (out : Option (List ℕ)) (k : ℕ) (r : R)
        → k ≤ length (past r)
        → ((r' : R)
            → past r' ++ rest r' ≡ past r ++ rest r
            → length (past r') + k ≡ length (past r)
            → Correct stop capt r₀ (value out r'))
        → Correct stop capt r₀ (give_back S k out r)
    unfolding give_back
    give_back-Correct capt out k r le good = go (seek (current (neg k)) r) refl
      where
        go :
            (x : Result E ℕ × R)
            → seek (current (neg k)) r ≡ x
            → Correct stop capt r₀
                (elim x.0 [ failure e ↦ error e x.1 | success _ ↦ value out x.1 ])
        go (failure e, r') q = tt
        go (success p, r') q = let l = seek_back_lem k p r r' le q in good r' l.0 l.1

    pub at_end-Correct :
        (capt : Bool) (buffer : List ℕ) (r : R)
        → Inv stop r₀ buffer r
        → IsNowhere stop buffer
        → rest r ≡ []
        → Correct stop capt r₀ (at_end S capt buffer r)
    unfolding at_end
    at_end-Correct true [] r inv absent fin =
        let none_left = inv.ahead ∙ fin in
        (
          (λ p. rw none_left (absent p)),
          inv.behind ∙ append-nil (past r₀),
          sym inv.ahead,
          λ e. none_left,
        )
    at_end-Correct false [] r inv absent fin =
        let none_left = inv.ahead ∙ fin in
        (
          (λ p. rw none_left (absent p)),
          inv.behind ∙ append-nil (past r₀),
          sym inv.ahead,
          λ e. none_left,
        )
    at_end-Correct true (b ∷ bs) r inv absent fin =
        let all = inv.ahead ∙ ap (λ l. b ∷ bs ++ l) fin ∙ append-nil (b ∷ bs) in
        inr (refl, (λ p. rw all (absent p)), sym all, fin, inv.behind, λ e. cc)
    at_end-Correct false (b ∷ bs) r inv absent fin =
        let all = inv.ahead ∙ ap (λ l. b ∷ bs ++ l) fin ∙ append-nil (b ∷ bs) in
        let long = ap length inv.behind ∙ length-append (past r₀) (b ∷ bs) in
        give_back-Correct false none (length (b ∷ bs)) r (omega arith) λ r' same far.
          let q = placed (b ∷ bs) r r' [] (rest r₀) inv same refl (omega arith) in
          ((λ p. rw all (absent p)), q.0 ∙ append-nil (past r₀), q.1, λ e. cc)

    pub Inv-chunk :
        (buffer chunk : List ℕ) (r r' : R)
        → Inv stop r₀ buffer r
        → past r' ≡ past r ++ chunk
        → rest r ≡ chunk ++ rest r'
        → Inv stop r₀ (buffer ++ chunk) r'
    Inv-chunk buffer chunk r r' inv behind ahead = record {
      behind = behind ∙ ap (λ l. l ++ chunk) inv.behind ∙ append_assoc (past r₀) buffer chunk;
      ahead = inv.ahead ∙ ap (λ l. buffer ++ l) ahead ∙ sym (append_assoc buffer chunk (rest r'));
    }

    -- What the loop knows when the pattern first stands at place `a` of the buffer.
    pub record Hit (buffer : List ℕ) (a : ℕ) : Type 0 where
      pub here : starts_with stop (drop a buffer) ≡ true
      pub earlier : (p : ℕ) → p < a → starts_with stop (drop p buffer) ≡ false

    pub Hit-fits :
        (buffer : List ℕ) (a : ℕ) → 0 < length stop → Hit buffer a → a + length stop ≤ length buffer
    Hit-fits buffer a pos hit =
        omega (arith, starts_with-length stop (drop a buffer) hit.here, length-drop a buffer)

    pub Hit-Found :
        (buffer : List ℕ) (a : ℕ) (r r' : R)
        → 0 < length stop
        → Inv stop r₀ buffer r
        → Hit buffer a
        → past r' ++ rest r' ≡ past r ++ rest r
        → length (past r') + (length buffer - (a + length stop)) ≡ length (past r)
        → Found stop r₀ (take a buffer) r'
    Hit-Found buffer a r r' pos inv hit same far =
        let tail = drop (length stop) (drop a buffer) in
        let fits = Hit-fits buffer a pos hit in
        let cut : buffer ≡ take a buffer ++ (stop ++ tail) =
          sym (take-append-drop a buffer)
          ∙ ap (λ l. take a buffer ++ l) (starts_with-split stop (drop a buffer) hit.here) in
        let split : rest r₀ ≡ (take a buffer ++ stop) ++ (tail ++ rest r) =
          inv.ahead ∙ ap (λ l. l ++ rest r) cut ∙ simp append_assoc in
        let q = placed buffer r r' (take a buffer ++ stop) (tail ++ rest r) inv same split (
          omega (
            arith,
            ap length inv.behind,
            length-append (past r₀) buffer,
            length-append (take a buffer) stop,
            length-take a buffer,
          )) in
        record {
          ahead = split ∙ ap (λ l. (take a buffer ++ stop) ++ l) (sym q.1);
          behind = q.0 ∙ sym (append_assoc (past r₀) (take a buffer) stop);
          first = λ p lt.
              let small : p < a = omega (arith, length-take a buffer) in
              rw
                (
                  inv.ahead,
                  drop-append p buffer (rest r) (omega arith),
                  starts_with-append stop (drop p buffer) (rest r)
                      (omega (arith, length-drop p buffer)),
                )
                (hit.earlier p small);
        }

    -- The part of the buffer that is searched decides for the whole buffer.
    pub searched-IsNowhere :
        (buffer : List ℕ) (s : ℕ)
        → 0 < length stop
        → ((p : ℕ) → p < s → starts_with stop (drop p buffer) ≡ false)
        → find_window stop (drop s buffer) ≡ none
        → IsNowhere stop buffer
    searched-IsNowhere buffer s pos before gone p = elim (dec_lt p s) [
      | yes lt ↦ before p lt
      | no ge ↦
          let e : s + (p - s) ≡ p = omega arith in
          subst (λ q. starts_with stop (drop q buffer) ≡ false) e
            (ap (starts_with stop) (sym (drop-drop (p - s) s buffer))
              ∙ find_window-none stop (drop s buffer) pos gone (p - s))
    ]

    pub searched-Hit :
        (buffer : List ℕ) (s : ℕ) {i : ℕ}
        → ((p : ℕ) → p < s → starts_with stop (drop p buffer) ≡ false)
        → find_window stop (drop s buffer) ≡ some i
        → Hit buffer (s + i)
    searched-Hit buffer s {i} before there =
        let f = find_window-some stop (drop s buffer) there in
        record {
          here = ap (starts_with stop) (sym (drop-drop i s buffer)) ∙ f.0;
          earlier = λ p lt. elim (dec_lt p s) [
            | yes small ↦ before p small
            | no ge ↦
                let e : s + (p - s) ≡ p = omega arith in
                subst (λ q. starts_with stop (drop q buffer) ≡ false) e
                  (ap (starts_with stop) (sym (drop-drop (p - s) s buffer))
                    ∙ f.1 (p - s) (omega arith))
          ];
        }
