-- ===== src/Shared/Shards.antt =====
-- The array of shards that src/shared/map.rs and src/shared/set.rs both keep, and the traversals
-- that they share in form.
--
-- A shard is locked for one access at a time, so a traversal may see the shards at different moments:
-- `world t` is what the `t`-th access of a shard's lock finds.
pub mod Laws
pub mod Traversal
use atoman_rs.Prelude.{
  ℕ, zero, suc, ◌+◌, ◌-◌, ◌%◌, Bool, true, false, Option, none, some, List, [], ◌∷◌, ◌++◌, map,
  length, get_or, get_elem?, set as put, replicate, if◌then◌else◌,
}
use atoman_rs.Shared.Key.{Key}
use atoman_rs.Shared.Item.{SharedItem}
use atoman_rs.Shared.Table.{Table}

abbrev pub shards_count : ℕ
shards_count = 64

abbrev pub Shard {ℓ} : Type ℓ → Type ℓ
Shard K = Table K SharedItem

-- The hasher builder is the seed of its `RandomState`.
pub record Inner {ℓ} (K : Type ℓ) : Type ℓ where
  pub shards : List (Shard K)
  pub hasher_builder : ℕ

unfoldable pub new_inner {ℓ} : {K : Type ℓ} → ℕ → Inner K
new_inner seed = record { shards = replicate shards_count []; hasher_builder = seed }

-- What the `OnceCell` gives, filled now if it is empty.
unfoldable pub init_inner {ℓ} : {K : Type ℓ} → ℕ → Option (Inner K) → Inner K
unfolding new_inner
init_inner seed none = new_inner seed
init_inner seed (some inner) = inner

module _ {ℓ} {K : Type ℓ} where
  abbrev pub shard_at : Inner K → ℕ → Shard K
  shard_at inner i = get_or inner.shards i []

  abbrev pub write_shard : Inner K → ℕ → Shard K → Inner K
  write_shard inner i shard = record inner { shards = put inner.shards i shard }

  -- One key and item for every entry of the shards `i`, `i + 1`, … that the accesses find.
  unfoldable pub collect : (ℕ → Inner K) → ℕ → ℕ → List (K × SharedItem)
  collect world zero i = []
  collect world (suc n) i = shard_at (world i) i ++ collect world n (suc i)

  unfoldable pub total : (ℕ → Inner K) → ℕ → ℕ → ℕ
  total world zero i = 0
  total world (suc n) i = length (shard_at (world i) i) + total world n (suc i)

  -- The loop over the positions of one shard: `i` of them are behind, `n` ahead, `t` accesses done.
  -- The answer of the predicate may depend on the moment at which it is asked.
  unfoldable pub find_in :
      (ℕ → Inner K) → (ℕ → K → SharedItem → Bool) → ℕ → ℕ → ℕ → ℕ → Option (K × SharedItem) × ℕ
  find_in world f s zero i t = (none, t)
  find_in world f s (suc n) i t =
      let skipped = find_in world f s n (suc i) (suc t) in
      elim (get_elem? (shard_at (world t) s) i) [
        | none ↦ skipped
        | some e ↦ if f t e.0 e.1 then (some e, suc t) else skipped
      ]

  unfoldable pub find_from :
      (ℕ → Inner K) → (ℕ → K → SharedItem → Bool) → ℕ → ℕ → ℕ → Option (K × SharedItem)
  unfolding find_in
  find_from world f zero s t = none
  find_from world f (suc n) s t =
      let r = find_in world f s (length (shard_at (world t) s)) 0 (suc t) in
      let later = find_from world f n (suc s) r.1 in elim r.0 [ none ↦ later | some e ↦ some e ]

module _ {ℓ} {K : Type ℓ} ⦃key : Key K⦄ where
  -- The index of a key's shard. On a 64-bit target `as usize` keeps the hash.
  unfoldable pub get_shard : Inner K → K → ℕ
  get_shard inner k = key.hash inner.hasher_builder k % shards_count
