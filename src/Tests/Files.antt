-- ===== src/Tests/Files.antt =====
-- Reading and writing at concrete files (src/file/file.rs).
use atoman_rs.Prelude.{
  ℕ, zero, suc, ◌+◌, ◌-◌, ◌≤◌, ◌<◌, ◌≡◌, ◌∙◌, refl, ap, sym, Bool, true, false, ◌==◌, none, some,
  List, [], ◌∷◌, ◌++◌, length, take, drop, Option, ltb, if◌then◌else◌, lt→ltb, take-append-drop,
  length-take, length-append, subst,
}
use native.Mathlib.Omega.{arith}
use atoman_rs.Prelude.Result.{Result, success, failure, success_cancel}
use atoman_rs.File.Stream.{Stream, SeekFrom, start, end_of, current, pos, negsuc, neg, through}
use atoman_rs.File.Lines.{AllLines, read_lines, read_lines-AllLines}
use atoman_rs.File.Window.{find_window, starts_with}
use atoman_rs.File.Writing.{Handle, resized, cut, read_to_string, read_to_string-cut, rewrite_all}
use atoman_rs.File.Pattern.{read_until_pattern, value}
use atoman_rs.File.Pattern.Laws.{Correct}
use atoman_rs.File.Pattern.Search.{read_until_pattern-Correct}

-- A file in memory that gives at most two bytes at a time.
record Memory : Type 0 where
  before : List ℕ
  after : List ℕ

unfoldable two : ℕ → ℕ
two zero = 0
two (suc zero) = 1
two (suc (suc n)) = 2

two-bounds : (n : ℕ) → 0 < n → (0 < two n) × (two n ≤ n)
unfolding two
two-bounds zero l = absurd (omega arith)
two-bounds (suc zero) l = (omega arith, omega arith)
two-bounds (suc (suc n)) l = (omega arith, omega arith)

unfoldable get_bytes : ℕ → Memory → Result ℕ (List ℕ) × Memory
unfolding two
get_bytes n r = (
  success (take (two n) r.after),
  record { before = r.before ++ take (two n) r.after; after = drop (two n) r.after },
)

unfoldable back_from : ℕ → ℕ → Option ℕ
back_from n p = if ltb n p then some (p - suc n) else none

unfoldable place : SeekFrom → Memory → Option ℕ
unfolding back_from
place (start n) r = some n
place (current (pos n)) r = some (length r.before + n)
place (current (negsuc n)) r = back_from n (length r.before)
place (end_of (pos n)) r = some (length (r.before ++ r.after) + n)
place (end_of (negsuc n)) r = back_from n (length (r.before ++ r.after))

unfoldable moved : Memory → Option ℕ → Result ℕ ℕ × Memory
moved r none = (failure 22, r)
moved r (some n) = (
  success n,
  record { before = take n (r.before ++ r.after); after = drop n (r.before ++ r.after) },
)

unfoldable move : SeekFrom → Memory → Result ℕ ℕ × Memory
unfolding place moved
move s r = moved r (place s r)

place-neg :
    (k : ℕ) (r : Memory)
    → k ≤ length r.before
    → place (current (neg k)) r ≡ some (length r.before - k)
unfolding place back_from
place-neg zero r le = ap some (omega arith)
place-neg (suc k) r le = rw (lt→ltb k (length r.before) (omega arith))

abbrev Got : ℕ → Memory → Result ℕ (List ℕ) × Memory → Type 0
Got n r (success c, r') =
    (r'.before ≡ r.before ++ c)
    × (r.after ≡ c ++ r'.after)
    × (length c ≤ n)
    × (c ≡ [] → r.after ≡ [])
Got n r (failure e, r') = Unit

take-nil : (n : ℕ) (l : List ℕ) → 0 < n → take n l ≡ [] → l ≡ []
take-nil zero l l0 h = absurd (omega arith)
take-nil (suc n) [] l0 h = refl
take-nil (suc n) (x ∷ l) l0 h = cc

get_bytes-Got : (n : ℕ) (r : Memory) → 0 < n → Got n r (get_bytes n r)
unfolding get_bytes
get_bytes-Got n r l =
    let b = two-bounds n l in
    (
      refl,
      sym (take-append-drop (two n) r.after),
      omega (arith, length-take (two n) r.after),
      take-nil (two n) r.after b.0,
    )

abbrev Moved : ℕ → Memory → Result ℕ ℕ × Memory → Type 0
Moved k r (success p, r') =
    (r'.before ++ r'.after ≡ r.before ++ r.after) × (length r'.before + k ≡ length r.before)
Moved k r (failure e, r') = Unit

move-Moved : (k : ℕ) (r : Memory) → k ≤ length r.before → Moved k r (move (current (neg k)) r)
unfolding move moved
move-Moved k r le = rw (place-neg k r le) (
  take-append-drop (length r.before - k) (r.before ++ r.after),
  omega (
    arith,
    length-take (length r.before - k) (r.before ++ r.after),
    length-append r.before r.after,
  ),
)

unfoldable get_until : ℕ → Memory → Result ℕ (List ℕ) × Memory
get_until b r =
    let c = through b r.after in
    (success c, record { before = r.before ++ c; after = drop (length c) r.after })

through-drop : (b : ℕ) (xs : List ℕ) → xs ≡ through b xs ++ drop (length (through b xs)) xs
through-drop b [] = refl
through-drop b (x ∷ xs) = at (x == b) (through-drop b xs)
  where
    at :
        (t : Bool)
        → xs ≡ through b xs ++ drop (length (through b xs)) xs
        → let c = if t then x ∷ [] else x ∷ through b xs in x ∷ xs ≡ c ++ drop (length c) (x ∷ xs)
    at true e = refl
    at false e = ap (λ l. x ∷ l) e

abbrev GotUntil : ℕ → Memory → Result ℕ (List ℕ) × Memory → Type 0
GotUntil b r (success c, r') = (c ≡ through b r.after) × (r.after ≡ c ++ r'.after)
GotUntil b r (failure e, r') = Unit

get_until-GotUntil : (b : ℕ) (r : Memory) → GotUntil b r (get_until b r)
unfolding get_until
get_until-GotUntil b r = (refl, through-drop b r.after)

abbrev memory : Stream
memory = record {
  R = Memory;
  E = ℕ;
  past = λ r. r.before;
  rest = λ r. r.after;
  read = get_bytes;
  read_until = get_until;
  seek = move;
  read_lem = λ n r r' c l q. subst (Got n r) q (get_bytes-Got n r l);
  read_until_lem = λ b r r' c q. subst (GotUntil b r) q (get_until-GotUntil b r);
  seek_back_lem = λ k p r r' le q. subst (Moved k r) q (move-Moved k r le);
}

-- "ab--cd", of which the first byte is read.
abbrev text : Memory
text = record { before = 97 ∷ []; after = 98 ∷ 45 ∷ 45 ∷ 99 ∷ 100 ∷ [] }

read_until_pattern-value :
    read_until_pattern memory 6 (45 ∷ 45 ∷ []) false text
    ≡ value (some (98 ∷ [])) (record { before = 97 ∷ 98 ∷ 45 ∷ 45 ∷ []; after = 99 ∷ 100 ∷ [] })
unfolding read_until_pattern find_window starts_with get_bytes move
read_until_pattern-value = refl

read_until_pattern-Correct_example :
    Correct memory (45 ∷ 45 ∷ []) false text (read_until_pattern memory 6 (45 ∷ 45 ∷ []) false text)
read_until_pattern-Correct_example =
    read_until_pattern-Correct memory (45 ∷ 45 ∷ []) text (omega arith) 6 false (omega arith)

-- "ab", a line feed and "c".
abbrev two_lines : Memory
two_lines = record { before = []; after = 97 ∷ 98 ∷ 10 ∷ 99 ∷ [] }

read_lines-value :
    read_lines memory 5 two_lines
    ≡ value
        ((97 ∷ 98 ∷ []) ∷ (99 ∷ []) ∷ [])
        (record { before = 97 ∷ 98 ∷ 10 ∷ 99 ∷ []; after = [] })
unfolding read_lines get_until
read_lines-value = refl

read_lines-AllLines_example :
    AllLines memory (97 ∷ 98 ∷ 10 ∷ 99 ∷ []) (read_lines memory 5 two_lines)
read_lines-AllLines_example = read_lines-AllLines memory 5 two_lines (omega arith)

-- A file in memory that writes go to the end of, and its cursor.
abbrev bytes : Handle
bytes = record {
  H = List ℕ × ℕ;
  E = ℕ;
  contents = λ h. h.0;
  place = λ h. h.1;
  seek = λ s h. elim s [
    | start n ↦ (success n, (h.0, n))
    | end_of n ↦ (failure 22, h)
    | current n ↦ (failure 22, h)
  ];
  read = λ n h. (success [], h);
  read_exact = λ n h. (success none, h);
  read_to_end = λ h. (success (drop h.1 h.0), h);
  write = λ d h. (success (length d), (h.0 ++ d, h.1 + length d));
  write_all = λ d h. (success tt, (h.0 ++ d, h.1 + length d));
  set_len = λ n h. (success tt, (resized n h.0, h.1));
  flush = λ h. (success tt, h);
  sync_all = λ h. (success tt, h);
  seek_lem = λ n p h h' e.
      let same = ap (λ r. r.1) e in (sym (ap (λ h. h.1) same), sym (ap (λ h. h.0) same));
  set_len_lem = λ n h h' e.
      let same = ap (λ r. r.1) e in (sym (ap (λ h. h.0) same), sym (ap (λ h. h.1) same));
  write_all_lem = λ d h h' e l.
      let same = ap (λ r. r.1) e in (sym (ap (λ h. h.0) same), sym (ap (λ h. h.1) same));
  flush_lem =
      λ h h' e. let same = ap (λ r. r.1) e in (sym (ap (λ h. h.0) same), sym (ap (λ h. h.1) same));
  read_to_end_lem = λ n p h h' h'' d sought read.
      let at : n ≡ h'.1 = ap (λ r. r.1.1) sought in
      success_cancel (ap (λ r. r.0) (sym read)) ∙ ap (λ k. drop k h'.0) (sym at);
}

rewrite_all-value :
    rewrite_all bytes (8 ∷ 9 ∷ []) (1 ∷ 2 ∷ 3 ∷ [], 2) ≡ (success tt, (8 ∷ 9 ∷ [], 2))
unfolding rewrite_all
rewrite_all-value = refl

cut-value : cut bytes 3 (8 ∷ 9 ∷ [], 2) ≡ (success tt, (8 ∷ 9 ∷ 0 ∷ [], 2))
unfolding cut
cut-value = refl

read_to_string-value :
    read_to_string bytes (λ b. b) (8 ∷ 9 ∷ 0 ∷ [], 0)
    ≡ (success (8 ∷ 9 ∷ 0 ∷ []), (8 ∷ 9 ∷ 0 ∷ [], 0))
unfolding read_to_string
read_to_string-value = refl

-- Only the first two bytes, and one zero.
read_to_string-cut_example : 8 ∷ 9 ∷ 0 ∷ [] ≡ resized 3 (8 ∷ 9 ∷ [])
read_to_string-cut_example =
    read_to_string-cut bytes (λ b. b) (8 ∷ 9 ∷ []) 3 0 (1 ∷ 2 ∷ 3 ∷ [], 2) (8 ∷ 9 ∷ [], 2)
      (8 ∷ 9 ∷ 0 ∷ [], 2) (8 ∷ 9 ∷ 0 ∷ [], 0) rewrite_all-value cut-value refl read_to_string-value
