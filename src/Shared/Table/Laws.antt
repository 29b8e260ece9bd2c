-- ===== src/Shared/Table/Laws.antt =====
-- Laws of one shard's table: lookups, sizes and how often a key occurs.
use mathlib.Core.Option.{or_else}
use atoman_rs.Prelude.{
  ℕ, ◌+◌, ◌-◌, ◌≤◌, ◌≡◌, refl, true, false, Option, none, some, [], ◌∷◌, ◌++◌, if◌then◌else◌, arith,
  length,
}
use atoman_rs.Shared.Key.{Key, same_left, same_right}
use atoman_rs.Shared.Table.{Table, lookup, lookup_key, contains_key, insert, replace, remove, count}

abbrev pub found {ℓ} : {A : Type ℓ} → Option A → ℕ
found none = 0
found (some _) = 1

module _ {ℓ κ} {K : Type ℓ} {A : Type κ} ⦃key : Key K⦄ where
  pub contains_key-lookup :
      (k : K) (t : Table K A)
      → contains_key k t ≡ elim (lookup k t) [ none ↦ false | some _ ↦ true ]
  unfolding contains_key lookup
  contains_key-lookup k [] = refl
  contains_key-lookup k (e ∷ t) = ground (arith, contains_key-lookup k t)

  pub lookup-absent : (k : K) (t : Table K A) → count k t ≡ 0 → lookup k t ≡ none
  unfolding lookup count
  lookup-absent k [] h = refl
  lookup-absent k (e ∷ t) h = ground (arith, lookup-absent k t)

  pub lookup-append :
      (k : K) (t u : Table K A) → lookup k (t ++ u) ≡ or_else (lookup k t) (lookup k u)
  unfolding lookup or_else
  lookup-append k [] u = refl
  lookup-append k (e ∷ t) u = ground (arith, lookup-append k t u)

  pub count-append : (k : K) (t u : Table K A) → count k (t ++ u) ≡ count k t + count k u
  unfolding count
  count-append k [] u = omega arith
  count-append k (e ∷ t) u = ground (arith, count-append k t u)

  module _ (k q : K) where
    pub lookup_same : (t : Table K A) → key.same q k ≡ true → lookup q t ≡ lookup k t
    unfolding lookup
    lookup_same [] s = refl
    lookup_same (e ∷ t) s = ground (arith, lookup_same t, same_left q k e.0)

    pub lookup-insert :
        (a : A) (t : Table K A)
        → lookup q (insert k a t) ≡ (if key.same q k then some a else lookup q t)
    unfolding lookup insert
    lookup-insert a [] = refl
    lookup-insert a (e ∷ t) =
        ground (arith, lookup-insert a t, same_left q k e.0, same_right k e.0 q)

    pub lookup-replace :
        (a : A) (t : Table K A)
        → lookup q (replace k a t) ≡ (if key.same q k then some a else lookup q t)
    unfolding lookup replace
    lookup-replace a [] = refl
    lookup-replace a (e ∷ t) =
        ground (arith, lookup-replace a t, same_left q k e.0, same_right k e.0 q)

    pub lookup-remove :
        (t : Table K A)
        → count q t ≤ 1
        → lookup q (remove k t) ≡ (if key.same q k then none else lookup q t)
    unfolding lookup remove count
    lookup-remove [] h = ground arith
    lookup-remove (e ∷ t) h =
        ground (arith, lookup-remove t, lookup-absent q t, same_left q k e.0, same_right k e.0 q)

    -- A write at `k` makes no second entry for any key.
    pub count-insert :
        (a : A) (t : Table K A)
        → count q (insert k a t) ≡ count q t + (if key.same q k then 1 - count q t else 0)
    unfolding count insert
    count-insert a [] = ground arith
    count-insert a (e ∷ t) = ground (arith, count-insert a t, same_left q k e.0, same_right k e.0 q)

    pub count-replace :
        (a : A) (t : Table K A)
        → count q (replace k a t) ≡ count q t + (if key.same q k then 1 - count q t else 0)
    unfolding count replace
    count-replace a [] = ground arith
    count-replace a (e ∷ t) =
        ground (arith, count-replace a t, same_left q k e.0, same_right k e.0 q)

    pub count-remove-le : (t : Table K A) → count q (remove k t) ≤ count q t
    unfolding count remove
    count-remove-le [] = omega arith
    count-remove-le (e ∷ t) = ground (arith, count-remove-le t)

  -- `replace` stores the new key in place of an equal one.
  pub lookup_key-replace : (k : K) (a : A) (t : Table K A) → lookup_key k (replace k a t) ≡ some k
  unfolding lookup_key replace
  lookup_key-replace k a [] = ground (arith, key.same_refl k)
  lookup_key-replace k a (e ∷ t) = ground (arith, key.same_refl k, lookup_key-replace k a t)

  -- `insert` keeps the key that is there.
  pub lookup_key-insert :
      (k : K) (a : A) (t : Table K A)
      → lookup_key k (insert k a t) ≡ elim (lookup_key k t) [ none ↦ some k | some j ↦ some j ]
  unfolding lookup_key insert
  lookup_key-insert k a [] = ground (arith, key.same_refl k)
  lookup_key-insert k a (e ∷ t) = ground (arith, key.same_refl k, lookup_key-insert k a t)

  pub length-insert :
      (k : K) (a : A) (t : Table K A) → length (insert k a t) + found (lookup k t) ≡ length t + 1
  unfolding insert lookup
  length-insert k a [] = refl
  length-insert k a (e ∷ t) = ground (arith, length-insert k a t)

  pub length-replace :
      (k : K) (a : A) (t : Table K A) → length (replace k a t) + found (lookup k t) ≡ length t + 1
  unfolding replace lookup
  length-replace k a [] = refl
  length-replace k a (e ∷ t) = ground (arith, length-replace k a t)

  pub length-remove : (k : K) (t : Table K A) → length (remove k t) + found (lookup k t) ≡ length t
  unfolding remove lookup
  length-remove k [] = refl
  length-remove k (e ∷ t) = ground (arith, length-remove k t)
