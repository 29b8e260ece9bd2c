-- ===== src/File/Writing.antt =====
-- The calls of `File` (src/file/file.rs) that move the cursor, read some bytes, and write.
use atoman_rs.Prelude.{
  ℕ, zero, suc, ◌+◌, ◌≡◌, refl, ap, sym, subst, ◌∙◌, drop, Text, Option, none, some, List, [], ◌∷◌,
  ◌++◌, length, if◌then◌else◌, ◌==◌, arith,
}
use atoman_rs.Prelude.Result.{Result, success, failure, success_cancel}
use atoman_rs.File.Stream.{ℤ, pos, SeekFrom, start, end_of, current}

-- The first `n` bytes, with zeros where there are none.
abbrev pub resized : ℕ → List ℕ → List ℕ
resized zero bytes = []
resized (suc n) [] = 0 ∷ resized n []
resized (suc n) (b ∷ bs) = b ∷ resized n bs

-- A `BufReader` around a tokio file. `contents` are the file's bytes and `place` the operating system's cursor,
-- where writes go. The laws: a seek to a place in the file leaves the bytes; `set_len` cuts them or fills them up
-- with zeros and leaves the cursor; a write at the end adds its bytes, all of them for `write_all`; a flush
-- leaves everything; what is read to the end after a seek are the bytes from there. They speak of calls
-- that succeed, while nobody else writes the file.
pub record Handle : Type 1 where
  pub H : Type 0
  pub E : Type 0
  pub contents : H → List ℕ
  pub place : H → ℕ
  pub seek : SeekFrom → H → Result E ℕ × H
  pub read : ℕ → H → Result E (List ℕ) × H
  pub read_exact : ℕ → H → Result E (Option (List ℕ)) × H
  pub read_to_end : H → Result E (List ℕ) × H
  pub write : List ℕ → H → Result E ℕ × H
  pub write_all : List ℕ → H → Result E (Unit {0}) × H
  pub set_len : ℕ → H → Result E (Unit {0}) × H
  pub flush : H → Result E (Unit {0}) × H
  pub sync_all : H → Result E (Unit {0}) × H
  pub seek_lem :
      (n p : ℕ) (h h' : H)
      → seek (start n) h ≡ (success p, h')
      → (place h' ≡ n) × (contents h' ≡ contents h)
  pub set_len_lem :
      (n : ℕ) (h h' : H)
      → set_len n h ≡ (success tt, h')
      → (contents h' ≡ resized n (contents h)) × (place h' ≡ place h)
  pub write_all_lem :
      (d : List ℕ) (h h' : H)
      → write_all d h ≡ (success tt, h')
      → place h ≡ length (contents h)
      → (contents h' ≡ contents h ++ d) × (place h' ≡ place h + length d)
  pub flush_lem :
      (h h' : H) → flush h ≡ (success tt, h') → (contents h' ≡ contents h) × (place h' ≡ place h)
  pub read_to_end_lem :
      (n p : ℕ) (h h' h'' : H) (d : List ℕ)
      → seek (start n) h ≡ (success p, h')
      → read_to_end h' ≡ (success d, h'')
      → d ≡ drop n (contents h')

-- The next step, if there was no error.
abbrev pub and_then :
    {H E A B : Type 0} → Result E A × H → (A → H → Result E B × H) → Result E B × H
and_then (success a, h) f = f a h
and_then (failure e, h) f = (failure e, h)

-- What holds of both outcomes of the first step holds of both.
pub and_then-by :
    {H E A B : Type 0} (P : Result E B × H → Type 0) (f : A → H → Result E B × H)
    (r : Result E A × H)
    → ((a : A) (h : H) → r ≡ (success a, h) → P (f a h))
    → ((e : E) (h : H) → r ≡ (failure e, h) → P (failure e, h))
    → P (and_then r f)
and_then-by P f (success a, h) on_success on_failure = on_success a h refl
and_then-by P f (failure e, h) on_success on_failure = on_failure e h refl

module _ (F : Handle) where
  open F use {H, E, contents, place}

  abbrev pub seek_start : ℕ → H → Result E ℕ × H
  seek_start n h = Handle.seek F (start n) h

  abbrev pub seek_end : ℤ → H → Result E ℕ × H
  seek_end n h = Handle.seek F (end_of n) h

  abbrev pub seek_current : ℤ → H → Result E ℕ × H
  seek_current n h = Handle.seek F (current n) h

  -- `stream_position` seeks by nothing.
  abbrev pub position : H → Result E ℕ × H
  position h = Handle.seek F (current (pos 0)) h

  abbrev pub some_bytes : List ℕ → Option (List ℕ)
  some_bytes [] = none
  some_bytes (b ∷ bs) = some (b ∷ bs)

  abbrev pub read : H → Result E (Option (List ℕ)) × H
  read h = and_then (Handle.read F 8096 h) (λ bytes h. (success (some_bytes bytes), h))

  -- The interface's `read_exact` has `none` for the error `UnexpectedEof`.
  abbrev pub read_exact : ℕ → H → Result E (Option (List ℕ)) × H
  read_exact n h = if n == 0 then (success (some []), h) else Handle.read_exact F n h

  abbrev pub read_to_end : H → Result E (List ℕ) × H
  read_to_end h = Handle.read_to_end F h

  -- `lossy` is `String::from_utf8_lossy`.
  unfoldable pub read_to_string : (List ℕ → Text) → H → Result E Text × H
  read_to_string lossy h = and_then (read_to_end h) (λ bytes h. (success (lossy bytes), h))

  abbrev pub write : List ℕ → H → Result E ℕ × H
  write d h = Handle.write F d h

  abbrev pub write_all : List ℕ → H → Result E (Unit {0}) × H
  write_all d h = Handle.write_all F d h

  unfoldable pub cut : ℕ → H → Result E (Unit {0}) × H
  cut new_size h = Handle.set_len F new_size h

  abbrev pub flush : H → Result E (Unit {0}) × H
  flush h = Handle.flush F h

  abbrev pub sync_all : H → Result E (Unit {0}) × H
  sync_all h = Handle.sync_all F h

  -- The bytes are written, then flushed.
  unfoldable pub write_flush : List ℕ → H → Result E (Unit {0}) × H
  write_flush d h = and_then (write_all d h) (λ u h. flush h)

  unfoldable pub clear_write : List ℕ → H → Result E (Unit {0}) × H
  unfolding write_flush
  clear_write d h = and_then (Handle.set_len F 0 h) (λ u h. write_flush d h)

  unfoldable pub rewrite_all : List ℕ → H → Result E (Unit {0}) × H
  unfolding clear_write
  rewrite_all d h = and_then (seek_start 0 h) (λ p h. clear_write d h)

  -- A call is over: with an error, or with the bytes as the file's only ones and the cursor behind them.
  abbrev pub Rewritten : List ℕ → Result E (Unit {0}) × H → Type 0
  Rewritten d (success u, h) = (contents h ≡ d) × (place h ≡ length d)
  Rewritten d (failure e, h) = Unit

  flush-Rewritten :
      (d : List ℕ) (h : H) → contents h ≡ d → place h ≡ length d → Rewritten d (Handle.flush F h)
  flush-Rewritten d h c p = at (Handle.flush F h) refl
    where
      at : (r : Result E (Unit {0}) × H) → Handle.flush F h ≡ r → Rewritten d r
      at (failure e, h') there = tt
      at (success u, h') there = let l = Handle.flush_lem F h h' there in (l.0 ∙ c, l.1 ∙ p)

  write_flush-Rewritten :
      (d : List ℕ) (h : H) → contents h ≡ [] → place h ≡ 0 → Rewritten d (write_flush d h)
  unfolding write_flush
  write_flush-Rewritten d h c p =
      and_then-by (Rewritten d) (λ u h. Handle.flush F h) (Handle.write_all F d h)
        (λ u h' there.
          let l = Handle.write_all_lem F d h h' there (p ∙ sym (ap length c)) in
          flush-Rewritten d h' (l.0 ∙ ap (λ x. x ++ d) c)
            (l.1 ∙ ap (λ n. n + length d) p ∙ omega arith))
        (λ e h' there. tt)

  clear_write-Rewritten : (d : List ℕ) (h : H) → place h ≡ 0 → Rewritten d (clear_write d h)
  unfolding clear_write
  clear_write-Rewritten d h p =
      and_then-by (Rewritten d) (λ u h. write_flush d h) (Handle.set_len F 0 h)
        (λ u h' there.
          let l = Handle.set_len_lem F 0 h h' there in write_flush-Rewritten d h' l.0 (l.1 ∙ p))
        (λ e h' there. tt)

  -- Wherever the cursor stands and whatever is in the file: after `rewrite_all` without an error the file
  -- holds the bytes and no others, and the cursor stands behind them.
  pub rewrite_all-Rewritten : (d : List ℕ) (h : H) → Rewritten d (rewrite_all d h)
  unfolding rewrite_all
  rewrite_all-Rewritten d h =
      and_then-by (Rewritten d) (λ p h. clear_write d h) (seek_start 0 h)
        (λ n h' there. clear_write-Rewritten d h' (Handle.seek_lem F 0 n h h' there).0)
        (λ e h' there. tt)

  rewritten : (d : List ℕ) (h : H) {h' : H} → rewrite_all d h ≡ (success tt, h') → contents h' ≡ d
  rewritten d h is = (subst (Rewritten d) is (rewrite_all-Rewritten d h)).0

  -- If all four calls succeed: the bytes that were written with `rewrite_all`, wherever the cursor stood and
  -- whatever was in the file, are read from the start, after `cut` the first ones of the new size, filled up with
  -- zeros; the text is what they say.
  pub read_to_string-cut :
      (lossy : List ℕ → Text) (d : List ℕ) (n p : ℕ) (h h' h'' h''' : H) {h_end : H} {text : Text}
      → rewrite_all d h ≡ (success tt, h')
      → cut n h' ≡ (success tt, h'')
      → seek_start 0 h'' ≡ (success p, h''')
      → read_to_string lossy h''' ≡ (success text, h_end)
      → text ≡ lossy (resized n d)
  unfolding read_to_string cut
  read_to_string-cut lossy d n p h h' h'' h''' {h_end} {text} rewrites cuts seeks =
      and_then-by (λ r. r ≡ (success text, h_end) → text ≡ lossy (resized n d))
        (λ bytes h. (success (lossy bytes), h)) (read_to_end h''')
        (λ bytes x reads is.
          success_cancel (ap (λ r. r.0) (sym is))
          ∙ ap lossy (
              Handle.read_to_end_lem F 0 p h'' h''' x bytes seeks reads
              ∙ (Handle.seek_lem F 0 p h'' h''' seeks).1
              ∙ (Handle.set_len_lem F n h' h'' cuts).0
              ∙ ap (resized n) (rewritten d h rewrites)))
        (λ e x reads is. cc)
