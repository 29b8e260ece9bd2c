-- ===== src/Shared/Map/Refinement.antt =====
-- Each operation of `SharedMap` (src/shared/map.rs) against a function from keys to items.
use mathlib.Core.List.{flatten}
use atoman_rs.Prelude.{
  ℕ, ◌≤◌, subst, some_cancel, ◌+◌, ◌≡◌, refl, true, false, Option, none, some, [], ◌++◌, ◌∷◌,
  length, if◌then◌else◌, arith, ap, sym, ◌∙◌,
}
use atoman_rs.Shared.Key.{Key}
use atoman_rs.Shared.Item
use atoman_rs.Shared.Item.{SharedItem, Cells, fresh}
use atoman_rs.Shared.Table
use atoman_rs.Shared.Table.{Table, lookup}
use atoman_rs.Shared.Table.Laws.{
  found, contains_key-lookup, lookup-insert, lookup-remove, count-insert, count-remove-le,
  length-insert, length-remove,
}
use atoman_rs.Shared.Shards.{Inner, Shard, new_inner, shard_at, get_shard}
use atoman_rs.Shared.Shards.Laws.{
  entries, view, update, IsPlaced, write_shard-IsPlaced, write_shard-view, write_shard-length,
  new_inner-IsPlaced, new_inner-view, view_same,
}
use atoman_rs.Shared.Map.{
  SharedMap, store, new, get_or_init, insert, try_insert, remove, contains_key, get,
}

module _ {ℓ} {K : Type ℓ} ⦃key : Key K⦄ where
  abbrev pub IsValid : SharedMap K → Type ℓ
  IsValid m = (inner : Inner K) → m.inner ≡ some inner → IsPlaced inner

  abbrev pub item_at : Option (Inner K) → K → Option SharedItem
  item_at none k = none
  item_at (some inner) k = view inner k

  -- The abstract map: the item that a key stands for.
  abbrev pub item_of : SharedMap K → K → Option SharedItem
  item_of m = item_at m.inner

  abbrev pub size_at : Option (Inner K) → ℕ
  size_at none = 0
  size_at (some inner) = length (entries inner)

  abbrev pub size : SharedMap K → ℕ
  size m = size_at m.inner

  -- A write at `k` that returned `old` and left `v` there, in the abstract map and in the size.
  pub record Writes (m : SharedMap K) (k : K) (v old : Option SharedItem) (m' : SharedMap K)
      : Type ℓ where
    pub returns : old ≡ item_of m k
    pub reads : (q : K) → item_of m' q ≡ update (item_of m) k v q
    pub sized : size m' + found old ≡ size m + found v
    pub valid : IsValid m'

  pub new-IsValid : IsValid (new {K = K})
  unfolding new
  new-IsValid inner e = cc

  -- What an access initialises: a valid inner part with the same items.
  pub record Opened (seed : ℕ) (m : SharedMap K) : Type ℓ where
    pub placed : IsPlaced (get_or_init seed m).0
    pub kept : (get_or_init seed m).1.inner ≡ some (get_or_init seed m).0
    pub same_view : (q : K) → view (get_or_init seed m).0 q ≡ item_of m q
    pub same_size : length (entries (get_or_init seed m).0) ≡ size m

  opened_at :
      (seed : ℕ) (o : Option (Inner K))
      → IsValid (record { inner = o })
      → Opened seed (record { inner = o })
  unfolding get_or_init new_inner flatten
  opened_at seed none p = record {
    placed = new_inner-IsPlaced seed;
    kept = refl;
    same_view = new_inner-view seed;
    same_size = refl;
  }
  opened_at seed (some inner) p = record {
    placed = p inner refl;
    kept = refl;
    same_view = λ q. refl;
    same_size = refl;
  }

  pub opened : (seed : ℕ) (m : SharedMap K) → IsValid m → Opened seed m
  opened seed m p = opened_at seed m.inner p

  -- All three writes put some `shard` for that of `k`.
  module _ (seed : ℕ) (m : SharedMap K) (p : IsValid m) (k : K) where
    abbrev pub inner₀ : Inner K
    inner₀ = (get_or_init seed m).0

    abbrev pub shard₀ : Shard K
    shard₀ = shard_at inner₀ (get_shard inner₀ k)

    pub store-Writes :
        (v : Option SharedItem) (shard : Shard K)
        → ((q : K) → lookup q shard ≡ (if key.same q k then v else lookup q shard₀))
        → ((q : K) → Table.count q shard ≤ 1)
        → ((q : K) → key.same q k ≡ false → Table.count q shard ≤ Table.count q shard₀)
        → length shard + found (lookup k shard₀) ≡ length shard₀ + found v
        → Writes m k v (lookup k shard₀) (store inner₀ (get_shard inner₀ k) shard)
    store-Writes v shard reads few other sized =
        let o = opened seed m p in
        record {
          returns = o.same_view k;
          reads = λ q.
              write_shard-view inner₀ o.placed k shard v reads q
              ∙ ap (λ x. if key.same q k then v else x) (o.same_view q);
          sized = ground (arith, write_shard-length inner₀ o.placed k shard, o.same_size);
          valid = λ inner e.
              subst IsPlaced (some_cancel e)
                (write_shard-IsPlaced inner₀ o.placed k shard few other);
        }

    pub once₀ : (q : K) → Table.count q shard₀ ≤ 1
    once₀ q = (opened seed m p).placed.once q (get_shard inner₀ k)

    -- `remove` returns the item of the key and clears it; the map has one entry less if there
    -- was one, and every other key keeps its item.
    pub remove-Writes : Writes m k none (remove seed k m).0 (remove seed k m).1
    unfolding remove
    remove-Writes =
        store-Writes none (Table.remove k shard₀) (λ q. lookup-remove k q shard₀ (once₀ q))
          (λ q. ground (arith, count-remove-le k q shard₀, once₀ q))
          (λ q s. count-remove-le k q shard₀) (ground (arith, length-remove k shard₀))

    -- `get` returns the item of the key, and the map keeps the items of all keys.
    pub get-item_of :
        ((get seed k m).0 ≡ item_of m k)
        × ((q : K) → item_of (get seed k m).1 q ≡ item_of m q)
        × IsValid (get seed k m).1
    unfolding get
    get-item_of =
        let o = opened seed m p in
        (
          o.same_view k,
          λ q. ap (λ x. item_at x q) o.kept ∙ o.same_view q,
          λ inner e. subst IsPlaced (some_cancel (sym o.kept ∙ e)) o.placed,
        )

    -- An access that finds an item and writes nothing.
    pub stays :
        (a : SharedItem)
        → item_of m k ≡ some a
        → Writes m k (some a) (some a) (get_or_init seed m).1
    stays a there =
        let o = opened seed m p in
        record {
          returns = sym there;
          reads = λ q.
              ap (λ x. item_at x q) o.kept
              ∙ o.same_view q
              ∙ ground (arith, there, view_same inner₀ q k, o.same_view q, o.same_view k);
          sized = ap (λ x. size_at x + 1) o.kept ∙ ap (λ n. n + 1) o.same_size;
          valid = λ inner e. subst IsPlaced (some_cancel (sym o.kept ∙ e)) o.placed;
        }

    module _ {κ} {V : Type κ} (v : V) (cells : Cells V) where
      insert-store :
          Writes m k
            (some (length cells))
            (lookup k shard₀)
            (store inner₀ (get_shard inner₀ k) (Table.insert k (length cells) shard₀))
      insert-store =
          store-Writes (some (length cells)) (Table.insert k (length cells) shard₀)
            (λ q. lookup-insert k q (length cells) shard₀)
            (λ q. ground (arith, count-insert k q (length cells) shard₀, once₀ q))
            (λ q s. ground (arith, count-insert k q (length cells) shard₀))
            (ground (arith, length-insert k (length cells) shard₀))

      -- `insert` puts a new cell with the value under the key and returns the item that was
      -- there; every other key keeps its item, and the map grows by one only for a new key.
      pub insert-Writes :
          let r = insert seed k v m cells in
          Writes m k (some (length cells)) r.0 r.1 × (r.2 ≡ cells ++ fresh v ∷ [])
      unfolding insert Item.new
      insert-Writes = (insert-store, refl)

      -- `try_insert` does what `insert` does if the key has no item; otherwise it returns the item
      -- of the key and leaves the cells, the items of all keys and the size as they are.
      pub try_insert-Writes :
          let r = try_insert seed k v m cells in
          ((item_of m k ≡ none)
            → Writes m k (some (length cells)) r.0 r.1 × (r.2 ≡ cells ++ fresh v ∷ []))
          × ((a : SharedItem) → item_of m k ≡ some a → Writes m k (some a) r.0 r.1 × (r.2 ≡ cells))
      unfolding try_insert Item.new
      try_insert-Writes = (
        λ absent.
            let e : lookup k shard₀ ≡ none = (opened seed m p).same_view k ∙ absent in
            rw (e, try_insert) (rw e at insert-store, refl),
        λ a there.
            let e : lookup k shard₀ ≡ some a = (opened seed m p).same_view k ∙ there in
            rw (e, try_insert) (stays a there, refl),
      )

  -- `contains_key` says whether the key has an item.
  pub contains_key-item_of :
      (k : K) (m : SharedMap K)
      → contains_key k m ≡ elim (item_of m k) [ none ↦ false | some _ ↦ true ]
  unfolding contains_key
  contains_key-item_of k m = at m.inner
    where
      at :
          (o : Option (Inner K))
          → contains_key k (record { inner = o })
            ≡ elim (item_of (record { inner = o }) k) [ none ↦ false | some _ ↦ true ]
      at none = refl
      at (some inner) = contains_key-lookup k (shard_at inner (get_shard inner k))
