-- ===== src/Prelude/Sorting.antt =====
-- A stable sort by a Boolean order, as the standard library's sorts give it.
use Prim.Native.Nat.{ℕ, zero, suc}
use mathlib.Core.Path.{◌≡◌, refl, ap, subst, ◌∙◌}
use mathlib.Core.Logic.{inl, inr}
use mathlib.Core.Bool.{Bool, true, false}
use mathlib.Core.List.{List, [], ◌∷◌, Perm}
use mathlib.Core.List.Perm
use mathlib.Core.Option.{Option, none, some}
use native.Mathlib.Omega.{arith}
use atoman_rs.Prelude.Tests.{if◌then◌else◌, Bool-cases}
use atoman_rs.Prelude.Lists.{length, Every, take, drop}

abbrev pub last : {A : Type 0} → List A → Option A
last [] = none
last (x ∷ []) = some x
last (x ∷ (y ∷ ys)) = last (y ∷ ys)

module _ {A : Type 0} (le : A → A → Bool) where
  pub insert : A → List A → List A
  insert x [] = x ∷ []
  insert x (y ∷ ys) = if le x y then x ∷ (y ∷ ys) else y ∷ insert x ys

  unfoldable pub sort : List A → List A
  unfolding insert
  sort [] = []
  sort (x ∷ xs) = insert x (sort xs)

  abbrev pub IsSorted : List A → Type 0
  IsSorted [] = Unit
  IsSorted (x ∷ xs) = Every (λ y. le x y ≡ true) xs × IsSorted xs

  insert-Every : (P : A → Type 0) (x : A) (xs : List A) → P x → Every P xs → Every P (insert x xs)
  unfolding insert
  insert-Every P x [] h hs = (h, tt)
  insert-Every P x (y ∷ ys) h hs = elim (Bool-cases (le x y)) [
    | inl small ↦ rw small (h, hs)
    | inr large ↦ rw large (hs.0, insert-Every P x ys h hs.1)
  ]

  Every-insert : (P : A → Type 0) (x : A) (xs : List A) → Every P (insert x xs) → P x × Every P xs
  unfolding insert
  Every-insert P x [] h = h
  Every-insert P x (y ∷ ys) h = elim (Bool-cases (le x y)) [
    | inl small ↦ rw small at h
    | inr large ↦
        let h' : P y × Every P (insert x ys) = rw large at h in
        let r = Every-insert P x ys h'.1 in (r.0, (h'.0, r.1))
  ]

  -- What holds of the sorted elements holds of the elements.
  pub Every-sort : (P : A → Type 0) (xs : List A) → Every P (sort xs) → Every P xs
  unfolding sort
  Every-sort P [] h = tt
  Every-sort P (x ∷ xs) h = let r = Every-insert P x (sort xs) h in (r.0, Every-sort P xs r.1)

  pub sort-Every : (P : A → Type 0) (xs : List A) → Every P xs → Every P (sort xs)
  unfolding sort
  sort-Every P [] h = tt
  sort-Every P (x ∷ xs) h = insert-Every P x (sort xs) h.0 (sort-Every P xs h.1)

  insert-perm : (x : A) (xs : List A) → Perm (insert x xs) (x ∷ xs)
  unfolding insert
  insert-perm x [] = Perm.refl (x ∷ [])
  insert-perm x (y ∷ ys) = elim (Bool-cases (le x y)) [
    | inl small ↦ rw small (Perm.refl (x ∷ (y ∷ ys)))
    | inr large ↦ rw large (Perm.trans (Perm.cons y (insert-perm x ys)) (Perm.swap x y ys))
  ]

  pub sort-perm : (xs : List A) → Perm (sort xs) xs
  unfolding sort
  sort-perm [] = Perm.refl []
  sort-perm (x ∷ xs) = Perm.trans (insert-perm x (sort xs)) (Perm.cons x (sort-perm xs))

  length-insert : (x : A) (xs : List A) → length (insert x xs) ≡ suc (length xs)
  unfolding insert
  length-insert x [] = refl
  length-insert x (y ∷ ys) = ground (arith, length-insert x ys)

  pub length-sort : (xs : List A) → length (sort xs) ≡ length xs
  unfolding sort
  length-sort [] = refl
  length-sort (x ∷ xs) = length-insert x (sort xs) ∙ ap suc (length-sort xs)

  -- Of a sorted list, no element of the front is larger than one of the rest.
  pub split-IsSorted :
      (n : ℕ) (xs : List A)
      → IsSorted xs
      → Every (λ x. Every (λ y. le x y ≡ true) (drop n xs)) (take n xs)
  split-IsSorted zero xs s = tt
  split-IsSorted (suc n) [] s = tt
  split-IsSorted (suc n) (x ∷ xs) (first, s) = (drop-Every _ n xs first, split-IsSorted n xs s)
    where
      drop-Every : (P : A → Type 0) (n : ℕ) (xs : List A) → Every P xs → Every P (drop n xs)
      drop-Every P zero xs h = h
      drop-Every P (suc n) [] h = tt
      drop-Every P (suc n) (x ∷ xs) h = drop-Every P n xs h.1

  module _ (total : (a b : A) → le a b ≡ false → le b a ≡ true)
      (trans : (a b c : A) → le a b ≡ true → le b c ≡ true → le a c ≡ true)
      (self : (a : A) → le a a ≡ true) where
    all_above :
        (a b : A) (xs : List A)
        → le a b ≡ true
        → Every (λ y. le b y ≡ true) xs
        → Every (λ y. le a y ≡ true) xs
    all_above a b [] h hs = tt
    all_above a b (x ∷ xs) h hs = (trans a b x h hs.0, all_above a b xs h hs.1)

    insert-IsSorted : (x : A) (xs : List A) → IsSorted xs → IsSorted (insert x xs)
    unfolding insert
    insert-IsSorted x [] s = (tt, tt)
    insert-IsSorted x (y ∷ ys) (first, s) = elim (Bool-cases (le x y)) [
      | inl small ↦ rw small ((small, all_above x y ys small first), (first, s))
      | inr large ↦
          rw large
            (insert-Every (λ z. le y z ≡ true) x ys (total x y large) first, insert-IsSorted x ys s)
    ]

    pub sort-IsSorted : (xs : List A) → IsSorted (sort xs)
    unfolding sort
    sort-IsSorted [] = tt
    sort-IsSorted (x ∷ xs) = insert-IsSorted x (sort xs) (sort-IsSorted xs)

    last-IsSorted :
        (xs : List A) {m : A} → IsSorted xs → last xs ≡ some m → Every (λ x. le x m ≡ true) xs
    last-IsSorted [] s e = tt
    last-IsSorted (x ∷ []) {m} s e = let same : x ≡ m = cc in (rw (← same) (self x), tt)
    last-IsSorted (x ∷ (y ∷ ys)) {m} (first, s) e =
        let later = last-IsSorted (y ∷ ys) s e in (trans x y m first.0 later.0, later)

    -- The last of the sorted elements is above all.
    pub last-sort : (xs : List A) {m : A} → last (sort xs) ≡ some m → Every (λ x. le x m ≡ true) xs
    last-sort xs {m} e =
        Every-sort (λ x. le x m ≡ true) xs (last-IsSorted (sort xs) (sort-IsSorted xs) e)

pub Every-last :
    {A : Type 0} (P : A → Type 0) (xs : List A) {m : A} → Every P xs → last xs ≡ some m → P m
Every-last P [] h e = cc
Every-last P (x ∷ []) {m} h e = let same : x ≡ m = cc in subst P same h.0
Every-last P (x ∷ (y ∷ ys)) h e = Every-last P (y ∷ ys) h.1 e

pub last-none : {A : Type 0} (xs : List A) → last xs ≡ none → xs ≡ []
last-none [] e = refl
last-none (x ∷ []) e = cc
last-none (x ∷ (y ∷ ys)) e = let rest = last-none (y ∷ ys) e in cc
