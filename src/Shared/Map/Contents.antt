-- ===== src/Shared/Map/Contents.antt =====
-- The traversals of `SharedMap` (src/shared/map.rs) against the items that its keys stand for.
use mathlib.Core.Option.{or_else}
use atoman_rs.Prelude.{
  ℕ, zero, suc, ◌≡◌, refl, ap, sym, ◌∙◌, Bool, true, false, Option, none, some, List, [], ◌∷◌, map,
  length, get_elem?, arith, ◌↔◌, length-map, Bool-cases, inl, inr, some_cancel, subst,
}
use atoman_rs.Shared.Key.{Key}
use atoman_rs.Shared.Item.{SharedItem}
use atoman_rs.Shared.Table
use atoman_rs.Shared.Table.{lookup}
use atoman_rs.Shared.Table.Places.{lookup-place, place-lookup, lookup-insert_all, length-insert_all}
use atoman_rs.Shared.Shards.{Inner, collect}
use atoman_rs.Shared.Shards.Laws.{entries}
use atoman_rs.Shared.Shards.Traversal.{
  length-collect, first, find_from-first, collect-Seen, collect-entries, entries-view, Seen,
}
use atoman_rs.Shared.Map.{SharedMap, get_all, count, is_empty, find, to_hash, quiet}
use atoman_rs.Shared.Map.Refinement.{IsValid, item_of, item_at, size, size_at}

get_elem?-map {ℓ κ} :
    {A : Type ℓ} {B : Type κ} (f : A → B) (xs : List A) (p : ℕ) {a : A}
    → get_elem? xs p ≡ some a
    → get_elem? (map f xs) p ≡ some (f a)
get_elem?-map f [] p h = cc
get_elem?-map f (x ∷ xs) zero h = ground arith
get_elem?-map f (x ∷ xs) (suc p) h = get_elem?-map f xs p h

get_elem?-unmap {ℓ κ} :
    {A : Type ℓ} {B : Type κ} (f : A → B) (xs : List A) (p : ℕ) {b : B}
    → get_elem? (map f xs) p ≡ some b
    → (a : A) × (get_elem? xs p ≡ some a) × (f a ≡ b)
get_elem?-unmap f [] p h = cc
get_elem?-unmap f (x ∷ xs) zero h = (x, refl, some_cancel h)
get_elem?-unmap f (x ∷ xs) (suc p) h = get_elem?-unmap f xs p h

module _ {ℓ} {K : Type ℓ} where
  first-place :
      (f : K → SharedItem → Bool) (es : List (K × SharedItem)) {e : K × SharedItem}
      → first f es ≡ some e
      → (p : ℕ) × (get_elem? es p ≡ some e) × (f e.0 e.1 ≡ true)
  first-place f [] h = cc
  first-place f (d ∷ es) {e} h = elim (Bool-cases (f d.0 d.1)) [
    | inl same ↦ (0, ground arith, ground arith)
    | inr other ↦ let (p, there, passed) = first-place f es (ground arith) in (suc p, there, passed)
  ]

  first-none :
      (f : K → SharedItem → Bool) (es : List (K × SharedItem)) (p : ℕ) {e : K × SharedItem}
      → first f es ≡ none
      → get_elem? es p ≡ some e
      → f e.0 e.1 ≡ false
  first-none f [] p h there = cc
  first-none f (d ∷ es) zero h there = ground arith
  first-none f (d ∷ es) (suc p) h there = first-none f es p (ground arith) there

  -- Whatever other threads do meanwhile, `get_all` returns as many items as `count` counts at the
  -- same accesses, and each one stood in a shard at one of them.
  pub get_all-Seen :
      (world : ℕ → Inner K)
      → (length (get_all (some world)) ≡ count (some world))
        × ((p : ℕ) (a : SharedItem)
            → get_elem? (get_all (some world)) p ≡ some a
            → (k : K) × (t : ℕ) × Seen world (k, a) t)
  unfolding get_all count
  get_all-Seen world = (
    length-map (collect world 64 0) (λ e. e.1) ∙ length-collect world 64 0,
    λ p a h.
        let (e, there, same) =
          get_elem?-unmap (λ (e : K × SharedItem). e.1) (collect world 64 0) p h in
        let (t, seen) = collect-Seen world 64 0 p there in
        (e.0, t, subst (λ b. Seen world (e.0, b) t) same seen),
  )

module _ {ℓ} {K : Type ℓ} ⦃key : Key K⦄ where
  -- In a quiet map `count` is the number of entries, and `is_empty` says that there is none.
  pub count-size :
      (m : SharedMap K)
      → IsValid m
      → (count (quiet m) ≡ size m) × ((is_empty (quiet m) ≡ true) ↔ (size m ≡ 0))
  unfolding is_empty
  count-size m p = let e = counted m.inner p in (e, ground (arith, e))
    where
      counted :
          (o : Option (Inner K))
          → IsValid (record { inner = o })
          → count (quiet (record { inner = o })) ≡ size_at o
      counted none q = unfold count in refl
      counted (some inner) q =
          unfold count in
          sym (length-collect (λ _. inner) 64 0) ∙ ap length (collect-entries inner (q inner refl))

  -- In a quiet map `to_hash` has an entry for each key that stands for an item, with that item,
  -- and no other.
  pub to_hash-item_of :
      (m : SharedMap K)
      → IsValid m
      → ((q : K) → lookup q (to_hash (quiet m)) ≡ item_of m q)
        × (length (to_hash (quiet m)) ≡ size m)
  to_hash-item_of m p = at m.inner p
    where
      at :
          (o : Option (Inner K))
          → IsValid (record { inner = o })
          → ((q : K) → lookup q (to_hash (quiet (record { inner = o }))) ≡ item_at o q)
            × (length (to_hash (quiet (record { inner = o }))) ≡ size_at o)
      at none q = unfold to_hash lookup in (λ k. refl, refl)
      at (some inner) q =
          let placed = q inner refl in
          let e = collect-entries inner placed in
          unfold to_hash in
          (
            λ k.
                ap (λ es. lookup k (Table.insert_all es [])) e
                ∙ lookup-insert_all k (entries inner) [] (entries-view inner placed k).1
                ∙ unfold lookup or_else in ground (arith, (entries-view inner placed k).0),
            ap (λ es. length (Table.insert_all es [])) e
                ∙ length-insert_all (entries inner) []
                    (λ k. unfold Table.count in omega (arith, (entries-view inner placed k).1))
                ∙ omega arith,
          )

  -- In a quiet map, with a predicate that does not change its mind, an entry that `find` returns
  -- is the item of its key and passes; and if `find` returns none, then every key that stands for
  -- an item is equal to one that fails the predicate with that item.
  pub find-item_of :
      (f : K → SharedItem → Bool) (m : SharedMap K)
      → IsValid m
      → ((k : K) (a : SharedItem)
          → find (λ _. f) (quiet m) ≡ some (k, a)
          → (item_of m k ≡ some a) × (f k a ≡ true))
        × (find (λ _. f) (quiet m) ≡ none
            → (k : K) (a : SharedItem) → item_of m k ≡ some a
            → (k' : K) × (key.same k k' ≡ true) × (f k' a ≡ false))
  find-item_of f m p = at m.inner p
    where
      at :
          (o : Option (Inner K))
          → IsValid (record { inner = o })
          → ((k : K) (a : SharedItem)
              → find (λ _. f) (quiet (record { inner = o })) ≡ some (k, a)
              → (item_at o k ≡ some a) × (f k a ≡ true))
            × (find (λ _. f) (quiet (record { inner = o })) ≡ none
                → (k : K) (a : SharedItem) → item_at o k ≡ some a
                → (k' : K) × (key.same k k' ≡ true) × (f k' a ≡ false))
      at none q = unfold find in (λ k a h. cc, λ h k a there. cc)
      at (some inner) q =
          let placed = q inner refl in
          let e : find (λ _. f) (some (λ _. inner)) ≡ first f (entries inner) =
            unfold find in
            (find_from-first inner f 64 0 0 ∙ ap (first f) (collect-entries inner placed)) in
          (
            λ k a h.
                let (place, there, passed) = first-place f (entries inner) (sym e ∙ h) in
                let v = entries-view inner placed k in
                (sym v.0 ∙ place-lookup (entries inner) place there v.1, passed),
            λ h k a there.
                let v = entries-view inner placed k in
                let (place, k', stands, same) = lookup-place k (entries inner) (v.0 ∙ there) in
                (k', same, first-none f (entries inner) place (sym e ∙ h) stands),
          )
