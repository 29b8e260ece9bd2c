-- ===== src/File/Lines.antt =====
-- `File::read`, `read_exact`, `read_until`, `read_line`, `read_lines` and the cursor's methods
-- (src/file/file.rs).
--
-- The loop of `read_lines` runs on fuel, one unit for a line; a line takes at least a byte, so more fuel
-- than there are bytes ahead is enough.
use atoman_rs.Prelude.{
  ℕ, zero, suc, ◌+◌, ◌<◌, ◌≡◌, ◌∙◌, refl, sym, ap, Bool, true, false, Option, none, some, List, [],
  ◌∷◌, ◌++◌, length, ◌==◌, if◌then◌else◌, Bool-cases, inl, inr, arith, length-append,
}
use atoman_rs.Prelude.Result.{Result, success, failure}
use atoman_rs.File.Stream.{Stream, through}
use atoman_rs.File.Pattern.{Exit, value, error, panic, out_of_fuel}

-- The bytes without a stop byte at their end.
unfoldable pub pop_stop : ℕ → List ℕ → List ℕ
pop_stop b [] = []
pop_stop b (x ∷ []) = if x == b then [] else x ∷ []
pop_stop b (x ∷ (y ∷ ys)) = x ∷ pop_stop b (y ∷ ys)

module _ (S : Stream) where
  open S use {R, E, rest}

  unfoldable pub on_until : ℕ → Result E (List ℕ) × R → Result E (Option (List ℕ)) × R
  unfolding pop_stop
  on_until stop_byte (failure e, r) = (failure e, r)
  on_until stop_byte (success [], r) = (success none, r)
  on_until stop_byte (success (b ∷ bs), r) = (success (some (pop_stop stop_byte (b ∷ bs))), r)

  unfoldable pub read_until : ℕ → R → Result E (Option (List ℕ)) × R
  unfolding on_until
  read_until stop_byte r = on_until stop_byte (Stream.read_until S stop_byte r)

  unfoldable pub read_line : R → Result E (Option (List ℕ)) × R
  unfolding read_until
  read_line r = read_until b'\n' r

  -- `more` is the next round of the loop.
  unfoldable pub on_line :
      (R → Exit R E (List (List ℕ))) → Result E (Option (List ℕ)) × R → Exit R E (List (List ℕ))
  on_line more (failure e, r) = error e r
  on_line more (success none, r) = value [] r
  on_line more (success (some line), r) = elim (more r) [
    | value lines r' ↦ value (line ∷ lines) r'
    | error e r' ↦ error e r'
    | panic ↦ panic
    | out_of_fuel ↦ out_of_fuel
  ]

  unfoldable pub read_lines : ℕ → R → Exit R E (List (List ℕ))
  unfolding read_line on_line
  read_lines zero r = out_of_fuel
  read_lines (suc fuel) r = on_line (read_lines fuel) (read_line r)

-- The lines of a text, without their line feeds; after the last one no empty line follows.
abbrev pub line_start : ℕ → List (List ℕ) → List (List ℕ)
line_start x [] = (x ∷ []) ∷ []
line_start x (l ∷ ls) = (x ∷ l) ∷ ls

unfoldable pub split_lines : List ℕ → List (List ℕ)
split_lines [] = []
split_lines (x ∷ xs) =
    let later = split_lines xs in if x == b'\n' then [] ∷ later else line_start x later

pop_stop-through :
    (x y : ℕ) (ys : List ℕ)
    → pop_stop b'\n' (x ∷ through b'\n' (y ∷ ys)) ≡ x ∷ pop_stop b'\n' (through b'\n' (y ∷ ys))
unfolding pop_stop
pop_stop-through x y ys = at (y == b'\n')
  where
    at :
        (b : Bool)
        → let t = if b then y ∷ [] else y ∷ through b'\n' ys in
          pop_stop b'\n' (x ∷ t) ≡ x ∷ pop_stop b'\n' t
    at true = refl
    at false = refl

-- The first line is what `read_until` gives; the others those of what is left.
split_lines-through :
    (x : ℕ) (xs after : List ℕ)
    → x ∷ xs ≡ through b'\n' (x ∷ xs) ++ after
    → split_lines (x ∷ xs) ≡ pop_stop b'\n' (through b'\n' (x ∷ xs)) ∷ split_lines after
unfolding split_lines pop_stop
split_lines-through x [] after e = elim (Bool-cases (x == b'\n')) [
  | inl feed ↦ let same : [] ≡ after = ground (arith, feed) in ground (arith, feed, same)
  | inr other ↦ let same : [] ≡ after = ground (arith, other) in ground (arith, other, same)
]
split_lines-through x (y ∷ ys) after e = elim (Bool-cases (x == b'\n')) [
  | inl feed ↦ let same : y ∷ ys ≡ after = ground (arith, feed) in ground (arith, feed, same)
  | inr other ↦
      let rest : y ∷ ys ≡ through b'\n' (y ∷ ys) ++ after = ground (arith, other) in
      let later = split_lines-through y ys after rest in
      rw other
        (ap (line_start x) later ∙ ap (λ l. l ∷ split_lines after) (sym (pop_stop-through x y ys)))
]

module _ (S : Stream) where
  open S use {R, E, rest}

  -- A reading of lines is over: all those ahead were given and nothing is left, or the reader gave an error.
  abbrev pub AllLines : List ℕ → Exit R E (List (List ℕ)) → Type 0
  AllLines ahead (value ls r) = (ls ≡ split_lines ahead) × (rest r ≡ [])
  AllLines ahead (error e r) = Unit
  AllLines ahead panic = ⊥
  AllLines ahead out_of_fuel = ⊥

  -- What one call of the reader means for the lines.
  abbrev Until : R → Result E (List ℕ) × R → Type 0
  Until r (failure e, r') = Unit
  Until r (success c, r') = (c ≡ through b'\n' (rest r)) × (rest r ≡ c ++ rest r')

  asked-Until :
      (r : R) (got : Result E (List ℕ) × R) → Stream.read_until S b'\n' r ≡ got → Until r got
  asked-Until r (failure e, r') there = tt
  asked-Until r (success c, r') there = Stream.read_until_lem S b'\n' r r' c there

  through-nil : (b : ℕ) (xs : List ℕ) → [] ≡ through b xs → xs ≡ []
  through-nil b [] e = refl
  through-nil b (x ∷ xs) e = at (x == b) e
    where
      at : (t : Bool) → [] ≡ (if t then x ∷ [] else x ∷ through b xs) → x ∷ xs ≡ []
      at true e = cc
      at false e = cc

  split_lines-Until :
      (b : ℕ) (bs ahead after : List ℕ)
      → b ∷ bs ≡ through b'\n' ahead
      → ahead ≡ (b ∷ bs) ++ after
      → split_lines ahead ≡ pop_stop b'\n' (b ∷ bs) ∷ split_lines after
  split_lines-Until b bs ahead after c e =
      let first : b ∷ bs ≡ through b'\n' (b ∷ (bs ++ after)) = c ∙ ap (through b'\n') e in
      ap split_lines e
      ∙ split_lines-through b (bs ++ after) after (ap (λ t. t ++ after) first)
      ∙ ap (λ t. pop_stop b'\n' t ∷ split_lines after) (sym first)

  with_line :
      (line ahead after : List ℕ) (ended : Exit R E (List (List ℕ)))
      → split_lines ahead ≡ line ∷ split_lines after
      → AllLines after ended
      → AllLines ahead (elim ended as (λ x. Exit R E (List (List ℕ))) [
        | value lines r' ↦ value (line ∷ lines) r'
        | error e r' ↦ error e r'
        | panic ↦ panic
        | out_of_fuel ↦ out_of_fuel
      ])
  with_line line ahead after (value ls r) e (same, gone) = (ap (λ ls. line ∷ ls) same ∙ sym e, gone)
  with_line line ahead after (error f r) e h = tt
  with_line line ahead after panic e h = h
  with_line line ahead after out_of_fuel e h = h

  on_line-AllLines :
      (more : R → Exit R E (List (List ℕ))) (r : R) (got : Result E (List ℕ) × R)
      → Until r got
      → ((r' : R) → length (rest r') < length (rest r) → AllLines (rest r') (more r'))
      → AllLines (rest r) (on_line S more (on_until S b'\n' got))
  unfolding on_line on_until split_lines
  on_line-AllLines more r (failure e, r') u later = tt
  on_line-AllLines more r (success [], r') (c, e) later =
      let none_ahead = through-nil b'\n' (rest r) c in
      (ap split_lines (sym none_ahead), sym e ∙ none_ahead)
  on_line-AllLines more r (success (b ∷ bs), r') (c, e) later =
      let shorter : length (rest r') < length (rest r) =
        let size : length (rest r) ≡ suc (length bs) + length (rest r') =
          ap length e ∙ length-append (b ∷ bs) (rest r') in
        omega arith in
      with_line (pop_stop b'\n' (b ∷ bs)) (rest r) (rest r') (more r')
        (split_lines-Until b bs (rest r) (rest r') c e) (later r' shorter)

  -- With more fuel than there are bytes ahead, `read_lines` ends: it gives the lines of what is ahead,
  -- without their line feeds, and leaves nothing; or it gives an error of the reader.
  pub read_lines-AllLines :
      (fuel : ℕ) (r : R) → length (rest r) < fuel → AllLines (rest r) (read_lines S fuel r)
  unfolding read_lines read_line read_until
  read_lines-AllLines zero r l = absurd (omega arith)
  read_lines-AllLines (suc fuel) r l =
      on_line-AllLines (read_lines S fuel) r (Stream.read_until S b'\n' r)
        (asked-Until r (Stream.read_until S b'\n' r) refl)
        (λ r' less. read_lines-AllLines fuel r' (omega arith))
