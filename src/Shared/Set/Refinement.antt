-- ===== src/Shared/Set/Refinement.antt =====
-- Each operation of `SharedSet` (src/shared/set.rs) against a function from elements to items.
use atoman_rs.Prelude.{
  ℕ, ◌≤◌, ◌≡◌, refl, true, false, Option, none, some, [], ◌++◌, ◌∷◌, length, arith, ap, ◌∙◌,
}
use atoman_rs.Shared.Key.{Key}
use atoman_rs.Shared.Item
use atoman_rs.Shared.Item.{SharedItem, Cells, fresh}
use atoman_rs.Shared.Table
use atoman_rs.Shared.Table.{Table, lookup, lookup_key}
use atoman_rs.Shared.Table.Laws.{
  contains_key-lookup, lookup-insert, lookup-replace, lookup-remove, lookup_key-replace,
  count-insert, count-replace, count-remove-le, length-insert, length-replace, length-remove,
}
use atoman_rs.Shared.Shards.{Inner, Shard, shard_at, get_shard}
use atoman_rs.Shared.Shards.Laws.{written-own}
use atoman_rs.Shared.Map
use atoman_rs.Shared.Map.{SharedMap}
use atoman_rs.Shared.Map.Refinement.{
  IsValid, item_of, item_at, Writes, inner₀, shard₀, once₀, store-Writes, stays, opened,
}
use atoman_rs.Shared.Set.{SharedSet, store, insert, try_insert, remove, contains, get}

module _ {ℓ} {T : Type ℓ} ⦃key : Key T⦄ where
  -- The map with the same shards, by which validity and the items of elements are read.
  abbrev pub as_map : SharedSet T → SharedMap T
  as_map s = record { inner = s.inner }

  -- The stored element that is equal to a value.
  abbrev pub element_of : SharedSet T → T → Option T
  element_of s v = elim s.inner [
    | none ↦ none
    | some inner ↦ lookup_key v (shard_at inner (get_shard inner v))
  ]

  module _ (seed : ℕ) (s : SharedSet T) (p : IsValid (as_map s)) (v : T) (cells : Cells T) where
    abbrev inner₁ : Inner T
    inner₁ = inner₀ seed (as_map s) p v

    abbrev shard₁ : Shard T
    shard₁ = shard₀ seed (as_map s) p v

    once₁ : (q : T) → Table.count q shard₁ ≤ 1
    once₁ = once₀ seed (as_map s) p v

    -- `insert` puts a new cell with the value for the element and returns the item that was there;
    -- the stored element is the new value, every other element keeps its item, and the set grows
    -- by one only for a new element.
    pub element-insert :
        let r = insert seed v s cells in
        Writes (as_map s) v (some (length cells)) r.0 (as_map r.1)
        × (r.2 ≡ cells ++ fresh v ∷ [])
        × (element_of r.1 v ≡ some v)
    unfolding insert Item.new Map.get_or_init
    element-insert = (
      store-Writes seed (as_map s) p v (some (length cells)) (Table.replace v (length cells) shard₁)
          (λ q. lookup-replace v q (length cells) shard₁)
          (λ q. ground (arith, count-replace v q (length cells) shard₁, once₁ q))
          (λ q e. ground (arith, count-replace v q (length cells) shard₁))
          (ground (arith, length-replace v (length cells) shard₁)),
      refl,
      ap (lookup_key v) (
            written-own inner₁ (opened seed (as_map s) p).placed v
              (Table.replace v (length cells) shard₁))
          ∙ lookup_key-replace v (length cells) shard₁,
    )

    insert-store :
        Writes
          (as_map s)
          v
          (some (length cells))
          (lookup v shard₁)
          (as_map (store inner₁ (get_shard inner₁ v) (Table.insert v (length cells) shard₁)))
    insert-store =
        store-Writes seed (as_map s) p v (some (length cells))
          (Table.insert v (length cells) shard₁) (λ q. lookup-insert v q (length cells) shard₁)
          (λ q. ground (arith, count-insert v q (length cells) shard₁, once₁ q))
          (λ q e. ground (arith, count-insert v q (length cells) shard₁))
          (ground (arith, length-insert v (length cells) shard₁))

    -- `try_insert` of a value with no equal element puts a new cell with it and returns none; for a
    -- value with one it returns that element's item, and cells, items and size stay as they are.
    pub element-try_insert :
        let r = try_insert seed v s cells in
        (item_of (as_map s) v ≡ none
          → Writes (as_map s) v (some (length cells)) r.0 (as_map r.1)
            × (r.2 ≡ cells ++ fresh v ∷ []))
        × ((a : SharedItem)
            → item_of (as_map s) v ≡ some a
            → Writes (as_map s) v (some a) r.0 (as_map r.1) × (r.2 ≡ cells))
    unfolding try_insert Map.get_or_init Item.new
    element-try_insert = (
      λ absent.
          let e : lookup v shard₁ ≡ none = (opened seed (as_map s) p).same_view v ∙ absent in
          rw (e, try_insert) (rw e at insert-store, refl),
      λ a there.
          let e : lookup v shard₁ ≡ some a = (opened seed (as_map s) p).same_view v ∙ there in
          rw (e, try_insert) (stays seed (as_map s) p v a there, refl),
    )

  -- `remove` returns the item of the element and clears it; the set has one element less if there
  -- was one, and every other element keeps its item.
  pub element-remove :
      (s : SharedSet T) (v : T)
      → IsValid (as_map s)
      → Writes (as_map s) v none (remove v s).0 (as_map (remove v s).1)
  unfolding remove
  element-remove s v p = at s.inner p
    where
      at :
          (o : Option (Inner T))
          → IsValid (record { inner = o })
          → Writes
              (record { inner = o })
              v
              none
              (remove v (record { inner = o })).0
              (as_map (remove v (record { inner = o })).1)
      at none q = record {
        returns = refl;
        reads = λ k. ground arith;
        sized = refl;
        valid = λ inner e. cc;
      }
      at (some inner) q =
          let m : SharedMap T = record { inner = some inner } in
          let shard = shard_at inner (get_shard inner v) in
          unfold Map.get_or_init in
          store-Writes 0 m q v none (Table.remove v shard)
            (λ k. lookup-remove v k shard (once₀ 0 m q v k))
            (λ k. omega (arith, count-remove-le v k shard, once₀ 0 m q v k))
            (λ k e. count-remove-le v k shard) (omega (arith, length-remove v shard))

  -- `get` returns the item of the element, and `contains` says whether there is one.
  pub element-get :
      (s : SharedSet T) (v : T)
      → (get v s ≡ item_of (as_map s) v)
        × (contains v s ≡ elim (item_of (as_map s) v) [ none ↦ false | some _ ↦ true ])
  unfolding get contains
  element-get s v = at s.inner
    where
      at :
          (o : Option (Inner T))
          → (get v (record { inner = o }) ≡ item_at o v)
            × (contains v (record { inner = o })
                ≡ elim (item_at o v) [ none ↦ false | some _ ↦ true ])
      at none = (refl, refl)
      at (some inner) = (refl, contains_key-lookup v (shard_at inner (get_shard inner v)))
