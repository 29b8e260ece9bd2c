-- ===== src/Shared/Table.antt =====
-- One shard's hash map or hash set, as the list of its entries in the order in which it iterates.
--
-- These are the standard library's `HashMap` and `HashSet` as src/shared/map.rs and
-- src/shared/set.rs use them: `insert` keeps the key that is there, `replace` puts the new one.
pub mod Laws
pub mod Places
use atoman_rs.Prelude.{
  ℕ, zero, suc, ◌+◌, Bool, true, false, Option, none, some, List, [], ◌∷◌, if◌then◌else◌,
}
use atoman_rs.Shared.Key.{Key}

abbrev pub Table {ℓ κ} : Type ℓ → Type κ → Type (ℓ ⊔ κ)
Table K A = List (K × A)

module _ {ℓ κ} {K : Type ℓ} {A : Type κ} ⦃key : Key K⦄ where
  unfoldable pub lookup : K → Table K A → Option A
  lookup k [] = none
  lookup k (e ∷ t) = if key.same k e.0 then some e.1 else lookup k t

  unfoldable pub contains_key : K → Table K A → Bool
  contains_key k [] = false
  contains_key k (e ∷ t) = if key.same k e.0 then true else contains_key k t

  -- The key of the entry that a lookup finds.
  unfoldable pub lookup_key : K → Table K A → Option K
  lookup_key k [] = none
  lookup_key k (e ∷ t) = if key.same k e.0 then some e.0 else lookup_key k t

  unfoldable pub insert : K → A → Table K A → Table K A
  insert k a [] = (k, a) ∷ []
  insert k a (e ∷ t) = if key.same k e.0 then (e.0, a) ∷ t else e ∷ insert k a t

  unfoldable pub replace : K → A → Table K A → Table K A
  replace k a [] = (k, a) ∷ []
  replace k a (e ∷ t) = if key.same k e.0 then (k, a) ∷ t else e ∷ replace k a t

  unfoldable pub remove : K → Table K A → Table K A
  remove k [] = []
  remove k (e ∷ t) = if key.same k e.0 then t else e ∷ remove k t

  -- How many entries have a key equal to `k`.
  unfoldable pub count : K → Table K A → ℕ
  count k [] = 0
  count k (e ∷ t) = (if key.same k e.0 then 1 else 0) + count k t

  -- A hash map filled from a list of entries.
  unfoldable pub insert_all : List (K × A) → Table K A → Table K A
  insert_all [] t = t
  insert_all (e ∷ es) t = insert_all es (insert e.0 e.1 t)
