-- ===== src/Shared/Set.antt =====
-- src/shared/set.rs: `SharedSet`, a concurrent hash set over 64 shards, each behind its own lock.
--
-- An element of a shard's set is a key, which is hashed and compared, with an item that starts as a
-- copy of it. As for `SharedMap`, an operation is one function of the state.
pub mod Refinement
use atoman_rs.Prelude.{
  ℕ, zero, suc, ◌+◌, Bool, true, false, Option, none, some, List, [], ◌∷◌, ◌++◌, map, length, ◌==◌,
  if◌then◌else◌, Run, ok, blocked, panicked, ◌>>=◌,
}
use atoman_rs.Shared.Key.{Key}
use atoman_rs.Shared.Item
use atoman_rs.Shared.Item.{SharedItem, Cells}
use atoman_rs.Shared.Table
use atoman_rs.Shared.Table.{Table, lookup}
use atoman_rs.Shared.Shards.{
  Shard, Inner, init_inner, shard_at, write_shard, collect, total, find_from, shards_count,
  get_shard,
}

-- `key`, then `item`.
abbrev pub SharedSetItem {ℓ} : Type ℓ → Type ℓ
SharedSetItem T = T × SharedItem

pub record SharedSet {ℓ} (T : Type ℓ) : Type ℓ where
  pub inner : Option (Inner T)

unfoldable pub new {ℓ} : {T : Type ℓ} → SharedSet T
new = record { inner = none }

module _ {ℓ} {T : Type ℓ} where
  unfoldable pub get_or_init : ℕ → SharedSet T → Inner T × SharedSet T
  unfolding init_inner
  get_or_init seed s = let inner = init_inner seed s.inner in (inner, record { inner = some inner })

  abbrev pub store : Inner T → ℕ → Shard T → SharedSet T
  store inner i shard = record { inner = some (write_shard inner i shard) }

module _ {ℓ} {T : Type ℓ} ⦃key : Key T⦄ where
  unfoldable pub insert : ℕ → T → SharedSet T → Cells T → Option SharedItem × SharedSet T × Cells T
  unfolding get_or_init
  insert seed v s cells =
      let (inner, _) = get_or_init seed s in
      let shard = shard_at inner (get_shard inner v) in
      let (item, cells') = Item.new v cells in
      (lookup v shard, store inner (get_shard inner v) (Table.replace v item shard), cells')

  unfoldable pub try_insert :
      ℕ → T → SharedSet T → Cells T → Option SharedItem × SharedSet T × Cells T
  unfolding get_or_init
  try_insert seed v s cells =
      let (inner, s') = get_or_init seed s in
      let shard = shard_at inner (get_shard inner v) in
      elim (lookup v shard) [
        | some existing ↦ (some existing, s', cells)
        | none ↦
            let (item, cells') = Item.new v cells in
            (none, store inner (get_shard inner v) (Table.insert v item shard), cells')
      ]

  unfoldable pub remove : T → SharedSet T → Option SharedItem × SharedSet T
  remove v s = elim s.inner [
    | none ↦ (none, s)
    | some inner ↦
        let shard = shard_at inner (get_shard inner v) in
        (lookup v shard, store inner (get_shard inner v) (Table.remove v shard))
  ]

  unfoldable pub contains : T → SharedSet T → Bool
  contains v s = elim s.inner [
    | none ↦ false
    | some inner ↦ Table.contains_key v (shard_at inner (get_shard inner v))
  ]

  unfoldable pub get : T → SharedSet T → Option SharedItem
  get v s = elim s.inner [
    | none ↦ none
    | some inner ↦ lookup v (shard_at inner (get_shard inner v))
  ]

  -- A guard of the item of an element, if there is one.
  unfoldable pub read : T → SharedSet T → Cells T → Run (Option (ℕ × Cells T))
  unfolding get
  read v s cells = elim (get v s) [
    | none ↦ ok none
    | some item ↦ do r ← Item.read item cells; ok (some r)
  ]

  unfoldable pub write : T → SharedSet T → Cells T → Run (Option (ℕ × Cells T))
  unfolding get
  write v s cells = elim (get v s) [
    | none ↦ ok none
    | some item ↦ do r ← Item.write item cells; ok (some r)
  ]

-- The traversals, over what each access of a shard finds.
module _ {ℓ} {T : Type ℓ} where
  unfoldable pub get_all : Option (ℕ → Inner T) → List SharedItem
  get_all none = []
  get_all (some world) = map (λ e. e.1) (collect world shards_count 0)

  unfoldable pub count : Option (ℕ → Inner T) → ℕ
  count none = 0
  count (some world) = total world shards_count 0

  unfoldable pub is_empty : Option (ℕ → Inner T) → Bool
  unfolding count
  is_empty world = count world == 0

  unfoldable pub find :
      (ℕ → T → SharedItem → Bool) → Option (ℕ → Inner T) → Option (SharedSetItem T)
  find f none = none
  find f (some world) = find_from world f shards_count 0 0
