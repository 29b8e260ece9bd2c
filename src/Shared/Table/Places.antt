-- ===== src/Shared/Table/Places.antt =====
-- Entries of one shard's table by their place, and a table filled from a list of entries.
use mathlib.Core.Option.{or_else}
use atoman_rs.Prelude.{
  ℕ, zero, suc, ◌+◌, ◌≤◌, ◌≡◌, refl, true, none, some, [], ◌∷◌, length, get_elem?, arith,
  Bool-cases, inl, inr,
}
use atoman_rs.Shared.Key.{Key}
use atoman_rs.Shared.Table.{Table, lookup, insert, count, insert_all}
use atoman_rs.Shared.Table.Laws.{lookup-absent, lookup-insert, count-insert, length-insert}

module _ {ℓ κ} {K : Type ℓ} {A : Type κ} ⦃key : Key K⦄ where
  -- An entry that a lookup finds has a place.
  pub lookup-place :
      (k : K) (t : Table K A) {a : A}
      → lookup k t ≡ some a
      → (p : ℕ) × (k' : K) × (get_elem? t p ≡ some (k', a)) × (key.same k k' ≡ true)
  unfolding lookup
  lookup-place k [] h = cc
  lookup-place k ((j, b) ∷ t) {a} h = elim (Bool-cases (key.same k j)) [
    | inl same ↦ (0, j, ground arith, same)
    | inr other ↦ let (p, k', there, s) = lookup-place k t (ground arith) in (suc p, k', there, s)
  ]

  count-place :
      (t : Table K A) (p : ℕ) {k : K} {a : A} → get_elem? t p ≡ some (k, a) → 1 ≤ count k t
  unfolding count
  count-place [] p h = cc
  count-place ((j, b) ∷ t) zero {k} h = ground (arith, key.same_refl k)
  count-place ((j, b) ∷ t) (suc p) h = omega (arith, count-place t p h)

  -- An entry with a place is what its key looks up, if the key occurs once.
  pub place-lookup :
      (t : Table K A) (p : ℕ) {k : K} {a : A}
      → get_elem? t p ≡ some (k, a)
      → count k t ≤ 1
      → lookup k t ≡ some a
  unfolding lookup count
  place-lookup [] p h once = cc
  place-lookup ((j, b) ∷ t) zero {k} h once = ground (arith, key.same_refl k)
  place-lookup ((j, b) ∷ t) (suc p) {k} h once =
      ground (arith, count-place t p h, place-lookup t p h)

  pub lookup-insert_all :
      (q : K) (es t : Table K A)
      → count q es ≤ 1
      → lookup q (insert_all es t) ≡ or_else (lookup q es) (lookup q t)
  unfolding insert_all lookup count or_else
  lookup-insert_all q [] t h = refl
  lookup-insert_all q (e ∷ es) t h = ground (
    arith,
    lookup-insert_all q es (insert e.0 e.1 t),
    lookup-insert e.0 q e.1 t,
    lookup-absent q es,
  )

  pub length-insert_all :
      (es t : Table K A)
      → ((q : K) → count q es + count q t ≤ 1)
      → length (insert_all es t) ≡ length es + length t
  unfolding insert_all count
  length-insert_all [] t h = omega arith
  length-insert_all (e ∷ es) t h =
      let absent : lookup e.0 t ≡ none =
        lookup-absent e.0 t (ground (arith, h e.0, key.same_refl e.0)) in
      ground (
        arith,
        length-insert_all es (insert e.0 e.1 t)
            (λ q. ground (arith, h q, count-insert e.0 q e.1 t)),
        length-insert e.0 e.1 t,
        absent,
      )
