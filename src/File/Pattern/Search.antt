-- ===== src/File/Pattern/Search.antt =====
-- The whole of `File::read_until_pattern` (src/file/file.rs): its loop, with enough fuel.
use atoman_rs.Prelude.{
  is_empty, ℕ, zero, suc, ◌+◌, ◌-◌, ◌<◌, ◌≡◌, refl, ap, sym, ◌∙◌, subst, Bool, false, some, List,
  [], ◌∷◌, ◌++◌, length, drop, take, ltb, if◌then◌else◌, arith, inl, inr, Option-cases, Bool-cases,
  length-append,
}
use mathlib.Core.List.{append-nil}
use atoman_rs.Prelude.Result.{Result, success, failure}
use atoman_rs.File.Stream.{Stream}
use atoman_rs.File.Window.{IsNowhere, find_window, starts_with, drop-nil}
use atoman_rs.File.Pattern.{
  Answer, value, give_back, on_chunk, on_read, pattern_loop, read_until_pattern,
}
use atoman_rs.File.Pattern.Laws.{
  nowhere-append, Correct, Inv, give_back-Correct, at_end-Correct, Inv-chunk, Hit, Hit-Found,
  searched-IsNowhere, searched-Hit,
}

IsNowhere-nil : (stop : List ℕ) → 0 < length stop → IsNowhere stop []
IsNowhere-nil [] pos p = absurd (omega arith)
IsNowhere-nil (s ∷ ss) pos p = unfold starts_with in rw (drop-nil p)

is_empty-false : (xs : List ℕ) → 0 < length xs → is_empty xs ≡ false
is_empty-false [] pos = absurd (omega arith)
is_empty-false (x ∷ xs) pos = refl

module _ (S : Stream) (stop : List ℕ) (r₀ : Stream.R S) (pos : 0 < length stop) where
  open S use {R, E, past, rest, read, read_lem}

  Hit-Correct :
      (capt : Bool) (buffer : List ℕ) (a : ℕ) (r : R)
      → Inv S stop r₀ buffer r
      → Hit S stop r₀ buffer a
      → Correct S stop capt r₀ (
          if ltb 0 (length buffer - (a + length stop))
          then give_back S (length buffer - (a + length stop)) (some (take a buffer)) r
          else value (some (take a buffer)) r)
  Hit-Correct capt buffer a r inv hit =
      let over = length buffer - (a + length stop) in
      let long : length (past r) ≡ length (past r₀) + length buffer =
        ap length inv.behind ∙ length-append (past r₀) buffer in
      elim (Bool-cases (ltb 0 over)) [
        | inl more ↦ rw more (
            give_back-Correct S stop r₀ capt (some (take a buffer)) over r (omega arith)
              (λ r' same far. inl (Hit-Found S stop r₀ buffer a r r' pos inv hit same far)))
        | inr exact ↦
            rw exact
              (inl (Hit-Found S stop r₀ buffer a r r pos inv hit refl (ground (arith, exact))))
      ]

  on_chunk-Correct :
      (capt : Bool) (more : List ℕ → R → Answer S) (old chunk : List ℕ) (r : R)
      → Inv S stop r₀ (old ++ chunk) r
      → IsNowhere stop old
      → (IsNowhere stop (old ++ chunk) → Correct S stop capt r₀ (more (old ++ chunk) r))
      → Correct S stop capt r₀ (on_chunk S more stop (old ++ chunk) (length chunk) r)
  unfolding on_chunk
  on_chunk-Correct capt more old chunk r inv absent next =
      let buffer = old ++ chunk in
      let s = length buffer - (length chunk + length stop - 1) in
      let before = nowhere-append stop old chunk s pos absent (omega arith) in
      rw (is_empty-false stop pos) (elim (Option-cases (find_window stop (drop s buffer))) [
        | inl gone ↦ rw gone (next (searched-IsNowhere S stop r₀ buffer s pos before gone))
        | inr (i, there) ↦
            rw there
              (Hit-Correct capt buffer (s + i) r inv (searched-Hit S stop r₀ buffer s before there))
      ])

  on_read-Correct :
      (capt : Bool) (fuel : ℕ) (buffer : List ℕ) (r : R)
      → Inv S stop r₀ buffer r
      → IsNowhere stop buffer
      → ((chunk : List ℕ) (r' : R)
          → Inv S stop r₀ (buffer ++ chunk) r'
          → length (rest r') < length (rest r)
          → IsNowhere stop (buffer ++ chunk)
          → Correct S stop capt r₀ (pattern_loop S fuel stop capt (buffer ++ chunk) r'))
      → (x : Result E (List ℕ) × R) → read 1024 r ≡ x
      → Correct S stop capt r₀ (on_read S (pattern_loop S fuel stop capt) stop capt buffer x)
  unfolding on_read
  on_read-Correct capt fuel buffer r inv absent next (failure e, r') q = tt
  on_read-Correct capt fuel buffer r inv absent next (success [], r') q =
      let l = read_lem 1024 r r' [] (omega arith) q in
      let none_left = sym l.1 ∙ l.3 refl in
      at_end-Correct S stop r₀ capt buffer r'
        (subst (λ b. Inv S stop r₀ b r') (append-nil buffer)
          (Inv-chunk S stop r₀ buffer [] r r' inv l.0 l.1))
        absent none_left
  on_read-Correct capt fuel buffer r inv absent next (success (b ∷ bs), r') q =
      let l = read_lem 1024 r r' (b ∷ bs) (omega arith) q in
      let inv' = Inv-chunk S stop r₀ buffer (b ∷ bs) r r' inv l.0 l.1 in
      let fewer : length (rest r') < length (rest r) =
        omega (arith, ap length l.1, length-append (b ∷ bs) (rest r')) in
      on_chunk-Correct capt (pattern_loop S fuel stop capt) buffer (b ∷ bs) r' inv' absent
        (λ gone. next (b ∷ bs) r' inv' fewer gone)

  pattern_loop-Correct :
      (fuel : ℕ) (capt : Bool) (buffer : List ℕ) (r : R)
      → length (rest r) < fuel
      → Inv S stop r₀ buffer r
      → IsNowhere stop buffer
      → Correct S stop capt r₀ (pattern_loop S fuel stop capt buffer r)
  unfolding pattern_loop
  pattern_loop-Correct zero capt buffer r enough inv absent = absurd (omega arith)
  pattern_loop-Correct (suc fuel) capt buffer r enough inv absent =
      on_read-Correct capt fuel buffer r inv absent
        (λ chunk r' inv' fewer gone.
          pattern_loop-Correct fuel capt (buffer ++ chunk) r' (omega arith) inv' gone)
        (read 1024 r) refl

  -- With a pattern that is not empty and more fuel than bytes ahead, however the reader cuts its
  -- chunks, a call ends without a panic, and unless the reader fails: it returns the bytes before
  -- the first occurrence of the pattern and leaves the cursor behind that; or, if there is none, it
  -- returns all bytes ahead if they are to be captured at the end of the file and there are any,
  -- and else nothing, with the cursor where it was.
  pub read_until_pattern-Correct :
      (fuel : ℕ) (capt : Bool)
      → length (rest r₀) < fuel
      → Correct S stop capt r₀ (read_until_pattern S fuel stop capt r₀)
  unfolding read_until_pattern
  read_until_pattern-Correct fuel capt enough =
      pattern_loop-Correct fuel capt [] r₀ enough
        (record { behind = sym (append-nil (past r₀)); ahead = refl }) (IsNowhere-nil stop pos)
