-- ===== src/Shared/Map.antt =====
-- src/shared/map.rs: `SharedMap`, a concurrent hash map over 64 shards, each behind its own lock.
--
-- An operation holds the lock of one shard from its first look to its last write, so it is one
-- function of the state. `inner` is what the `OnceCell` holds, and `seed` what `RandomState::new`
-- gives if the cell is filled now. A method returns its result, then the new map and cells.
pub mod Refinement
pub mod Contents
pub mod Values
use atoman_rs.Prelude.{
  ℕ, zero, suc, ◌+◌, Bool, true, false, Option, none, some, List, [], ◌∷◌, ◌++◌, map, length, ◌==◌,
  if◌then◌else◌, Run, ok, blocked, panicked, ◌>>=◌,
}
use atoman_rs.Shared.Key.{Key}
use atoman_rs.Shared.Item
use atoman_rs.Shared.Item.{SharedItem, Cells}
use atoman_rs.Shared.Table
use atoman_rs.Shared.Table.{Table, lookup}
use atoman_rs.Shared.Shards.{
  Shard, Inner, init_inner, shard_at, write_shard, collect, total, find_from, shards_count,
  get_shard,
}

pub record SharedMap {ℓ} (K : Type ℓ) : Type ℓ where
  pub inner : Option (Inner K)

unfoldable pub new {ℓ} : {K : Type ℓ} → SharedMap K
new = record { inner = none }

module _ {ℓ} {K : Type ℓ} where
  unfoldable pub get_or_init : ℕ → SharedMap K → Inner K × SharedMap K
  unfolding init_inner
  get_or_init seed m = let inner = init_inner seed m.inner in (inner, record { inner = some inner })

  -- What the map keeps after a write of one shard.
  abbrev pub store : Inner K → ℕ → Shard K → SharedMap K
  store inner i shard = record { inner = some (write_shard inner i shard) }

module _ {ℓ κ} {K : Type ℓ} {V : Type κ} ⦃key : Key K⦄ where
  unfoldable pub insert :
      ℕ → K → V → SharedMap K → Cells V → Option SharedItem × SharedMap K × Cells V
  unfolding get_or_init
  insert seed k v m cells =
      let (inner, _) = get_or_init seed m in
      let shard = shard_at inner (get_shard inner k) in
      let (item, cells') = Item.new v cells in
      (lookup k shard, store inner (get_shard inner k) (Table.insert k item shard), cells')

  unfoldable pub try_insert :
      ℕ → K → V → SharedMap K → Cells V → Option SharedItem × SharedMap K × Cells V
  unfolding get_or_init
  try_insert seed k v m cells =
      let (inner, m') = get_or_init seed m in
      let shard = shard_at inner (get_shard inner k) in
      elim (lookup k shard) [
        | some existing ↦ (some existing, m', cells)
        | none ↦
            let (item, cells') = Item.new v cells in
            (none, store inner (get_shard inner k) (Table.insert k item shard), cells')
      ]

module _ {ℓ} {K : Type ℓ} ⦃key : Key K⦄ where
  unfoldable pub remove : ℕ → K → SharedMap K → Option SharedItem × SharedMap K
  unfolding get_or_init
  remove seed k m =
      let (inner, _) = get_or_init seed m in
      let shard = shard_at inner (get_shard inner k) in
      (lookup k shard, store inner (get_shard inner k) (Table.remove k shard))

  unfoldable pub contains_key : K → SharedMap K → Bool
  contains_key k m = elim m.inner [
    | none ↦ false
    | some inner ↦ Table.contains_key k (shard_at inner (get_shard inner k))
  ]

  unfoldable pub get : ℕ → K → SharedMap K → Option SharedItem × SharedMap K
  unfolding get_or_init
  get seed k m =
      let (inner, m') = get_or_init seed m in (lookup k (shard_at inner (get_shard inner k)), m')

-- The traversals read the shards one after another: `world t` is the map's inner part at the `t`-th
-- access, and says whether it was there at the start. With no other thread at work it is constant.
module _ {ℓ} {K : Type ℓ} where
  unfoldable pub get_all : Option (ℕ → Inner K) → List SharedItem
  get_all none = []
  get_all (some world) = map (λ e. e.1) (collect world shards_count 0)

  unfoldable pub count : Option (ℕ → Inner K) → ℕ
  count none = 0
  count (some world) = total world shards_count 0

  unfoldable pub is_empty : Option (ℕ → Inner K) → Bool
  unfolding count
  is_empty world = count world == 0

  unfoldable pub find : (ℕ → K → SharedItem → Bool) → Option (ℕ → Inner K) → Option (K × SharedItem)
  find f none = none
  find f (some world) = find_from world f shards_count 0 0

  -- A quiet map: every access finds what the map holds now.
  abbrev pub quiet : SharedMap K → Option (ℕ → Inner K)
  quiet m = elim m.inner [ none ↦ none | some inner ↦ some (λ _. inner) ]

module _ {ℓ} {K : Type ℓ} ⦃key : Key K⦄ where
  unfoldable pub to_hash : Option (ℕ → Inner K) → Table K SharedItem
  to_hash none = []
  to_hash (some world) = Table.insert_all (collect world shards_count 0) []

module _ {ℓ κ} {K : Type ℓ} {V : Type κ} ⦃key : Key K⦄ where
  -- A guard of the item under a key, if there is one; the lock of the shard is free again then.
  unfoldable pub read : ℕ → K → SharedMap K → Cells V → Run (Option (ℕ × Cells V) × SharedMap K)
  unfolding get
  read seed k m cells =
      let (found, m') = get seed k m in
      elim found [ none ↦ ok (none, m') | some item ↦ do r ← Item.read item cells; ok (some r, m') ]

  unfoldable pub write : ℕ → K → SharedMap K → Cells V → Run (Option (ℕ × Cells V) × SharedMap K)
  unfolding get
  write seed k m cells =
      let (found, m') = get seed k m in
      elim found [
        | none ↦ ok (none, m')
        | some item ↦ do r ← Item.write item cells; ok (some r, m')
      ]
