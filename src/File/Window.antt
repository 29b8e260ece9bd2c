-- ===== src/File/Window.antt =====
-- `windows(len).position(…)` of src/file/file.rs: the first place where a pattern stands in a slice.
use atoman_rs.Prelude.{
  ℕ, zero, suc, ◌+◌, ◌≤◌, ◌<◌, ◌≡◌, refl, ap, sym, ◌∙◌, Bool, true, false, ◌&&◌, Option, none, some,
  List, [], ◌∷◌, ◌++◌, length, drop, ◌==◌, if◌then◌else◌, arith, ==_iff, Bool-cases, inl, inr,
  Option-cases,
}

unfoldable pub starts_with : List ℕ → List ℕ → Bool
starts_with [] xs = true
starts_with (s ∷ ss) [] = false
starts_with (s ∷ ss) (x ∷ xs) = (s == x) && starts_with ss xs

unfoldable pub find_window : List ℕ → List ℕ → Option ℕ
find_window stop [] = none
find_window stop (x ∷ xs) =
    let later = find_window stop xs in
    if starts_with stop (x ∷ xs) then some 0 else elim later [ none ↦ none | some i ↦ some (suc i) ]

-- The pattern stands at place `p`.
abbrev pub IsAt : List ℕ → List ℕ → ℕ → Type 0
IsAt stop xs p = starts_with stop (drop p xs) ≡ true

-- The pattern stands nowhere.
abbrev pub IsNowhere : List ℕ → List ℕ → Type 0
IsNowhere stop xs = (p : ℕ) → starts_with stop (drop p xs) ≡ false

pub starts_with-split :
    (stop xs : List ℕ) → starts_with stop xs ≡ true → xs ≡ stop ++ drop (length stop) xs
unfolding starts_with
starts_with-split [] xs h = refl
starts_with-split (s ∷ ss) [] h = cc
starts_with-split (s ∷ ss) (x ∷ xs) h = ground (arith, starts_with-split ss xs, ==_iff s x)

pub starts_with-append :
    (stop xs ys : List ℕ)
    → length stop ≤ length xs
    → starts_with stop (xs ++ ys) ≡ starts_with stop xs
unfolding starts_with
starts_with-append [] xs ys h = refl
starts_with-append (s ∷ ss) [] ys h = absurd (omega arith)
starts_with-append (s ∷ ss) (x ∷ xs) ys h = rw (starts_with-append ss xs ys (omega arith))

pub starts_with-length : (stop xs : List ℕ) → starts_with stop xs ≡ true → length stop ≤ length xs
unfolding starts_with
starts_with-length [] xs h = omega arith
starts_with-length (s ∷ ss) [] h = cc
starts_with-length (s ∷ ss) (x ∷ xs) h = ground (arith, starts_with-length ss xs)

pub drop-append : (p : ℕ) (xs ys : List ℕ) → p ≤ length xs → drop p (xs ++ ys) ≡ drop p xs ++ ys
drop-append zero xs ys h = refl
drop-append (suc p) [] ys h = absurd (omega arith)
drop-append (suc p) (x ∷ xs) ys h = drop-append p xs ys (omega arith)

pub drop-nil : (n : ℕ) → drop {A = ℕ} n [] ≡ []
drop-nil zero = refl
drop-nil (suc n) = refl

pub drop-drop : (a b : ℕ) (xs : List ℕ) → drop a (drop b xs) ≡ drop (b + a) xs
drop-drop a zero xs = let e : a ≡ 0 + a = omega arith in ap (λ n. drop n xs) e
drop-drop a (suc b) [] = drop-nil a ∙ sym (drop-nil (suc b + a))
drop-drop a (suc b) (x ∷ xs) =
    let e : suc (b + a) ≡ suc b + a = omega arith in drop-drop a b xs ∙ ap (λ n. drop n (x ∷ xs)) e

-- A place found is the first one.
pub find_window-some :
    (stop xs : List ℕ) {i : ℕ}
    → find_window stop xs ≡ some i
    → IsAt stop xs i × ((p : ℕ) → p < i → starts_with stop (drop p xs) ≡ false)
unfolding find_window
find_window-some stop [] h = cc
find_window-some stop (x ∷ xs) {i} h = elim (Bool-cases (starts_with stop (x ∷ xs))) [
  | inl here ↦ let e : 0 ≡ i = ground arith in (rw (← e) here, λ p l. absurd (omega arith))
  | inr away ↦ elim (Option-cases (find_window stop xs)) [
    | inl gone ↦ ground (arith, gone)
    | inr (j, there) ↦
        let e : suc j ≡ i = ground (arith, there) in
        let r = find_window-some stop xs there in
        (rw (← e) r.0, λ p l. earlier j p r.1 away (omega arith))
  ]
]
  where
    earlier :
        (j p : ℕ)
        → ((q : ℕ) → q < j → starts_with stop (drop q xs) ≡ false)
        → starts_with stop (x ∷ xs) ≡ false
        → p < suc j
        → starts_with stop (drop p (x ∷ xs)) ≡ false
    earlier j zero r away l = away
    earlier j (suc p) r away l = r p (omega arith)

pub find_window-none :
    (stop xs : List ℕ) → 0 < length stop → find_window stop xs ≡ none → IsNowhere stop xs
unfolding find_window starts_with
find_window-none [] xs pos h p = absurd (omega arith)
find_window-none (s ∷ ss) [] pos h zero = refl
find_window-none (s ∷ ss) [] pos h (suc p) = refl
find_window-none (s ∷ ss) (x ∷ xs) pos h zero = ground arith
find_window-none (s ∷ ss) (x ∷ xs) pos h (suc p) = find_window-none (s ∷ ss) xs pos (ground arith) p
