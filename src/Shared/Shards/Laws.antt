-- ===== src/Shared/Shards/Laws.antt =====
-- Where entries stand in the shards of src/shared/map.rs and src/shared/set.rs, and writes to one.
use mathlib.Core.List.{flatten}
use atoman_rs.Prelude.{
  ℕ, zero, suc, ◌+◌, ◌≤◌, ◌<◌, ◌≡◌, ◌≢◌, refl, ap, true, false, Option, none, List, [], ◌∷◌, length,
  get_or, set as put, replicate, if◌then◌else◌, arith, ℕ_discrete, length-append, length-set, subst,
  ◌∙◌,
}
use atoman_rs.Shared.Key.{Key}
use atoman_rs.Shared.Item.{SharedItem}
use atoman_rs.Shared.Table.{lookup, count}
use atoman_rs.Shared.Table.Laws.{lookup_same}
use atoman_rs.Shared.Shards.{Shard, Inner, new_inner, shard_at, write_shard, get_shard}

module _ {ℓ} {A : Type ℓ} where
  get_or-replicate : (n i : ℕ) (a : A) → get_or (replicate n a) i a ≡ a
  get_or-replicate zero i a = refl
  get_or-replicate (suc n) zero a = refl
  get_or-replicate (suc n) (suc i) a = get_or-replicate n i a

  get_or-put_same : (xs : List A) (i : ℕ) (v d : A) → i < length xs → get_or (put xs i v) i d ≡ v
  get_or-put_same [] i v d h = absurd (omega arith)
  get_or-put_same (x ∷ xs) zero v d h = refl
  get_or-put_same (x ∷ xs) (suc i) v d h = get_or-put_same xs i v d (omega arith)

  get_or-put_other :
      (xs : List A) (i j : ℕ) (v d : A) → i ≢ j → get_or (put xs i v) j d ≡ get_or xs j d
  get_or-put_other [] i j v d h = refl
  get_or-put_other (x ∷ xs) zero zero v d h = absurd (h refl)
  get_or-put_other (x ∷ xs) zero (suc j) v d h = refl
  get_or-put_other (x ∷ xs) (suc i) zero v d h = refl
  get_or-put_other (x ∷ xs) (suc i) (suc j) v d h = get_or-put_other xs i j v d (λ e. h (ap suc e))

  -- The sizes of all the lists together, before and after one of them is written.
  length-flatten-put :
      (xs : List (List A)) (i : ℕ) (v : List A)
      → i < length xs
      → length (flatten (put xs i v)) + length (get_or xs i []) ≡ length (flatten xs) + length v
  unfolding flatten
  length-flatten-put [] i v h = absurd (omega arith)
  length-flatten-put (x ∷ xs) zero v h = simp length-append (omega arith)
  length-flatten-put (x ∷ xs) (suc i) v h =
      simp length-append (omega (arith, length-flatten-put xs i v (omega arith)))

module _ {ℓ} {K : Type ℓ} ⦃key : Key K⦄ where
  abbrev pub entries : Inner K → Shard K
  entries inner = flatten inner.shards

  -- What a key stands for: the item in its own shard.
  abbrev pub view : Inner K → K → Option SharedItem
  view inner k = lookup k (shard_at inner (get_shard inner k))

  pub get_shard-lt : (inner : Inner K) (k : K) → get_shard inner k < 64
  unfolding get_shard
  get_shard-lt inner k = omega arith

  pub get_shard_same :
      (inner : Inner K) (a b : K) → key.same a b ≡ true → get_shard inner a ≡ get_shard inner b
  unfolding get_shard
  get_shard_same inner a b e = rw (key.hash-same inner.hasher_builder a b e)

  -- Equal keys stand for the same item.
  pub view_same : (inner : Inner K) (q k : K) → key.same q k ≡ true → view inner q ≡ view inner k
  view_same inner q k e =
      rw (get_shard_same inner q k e) (lookup_same k q (shard_at inner (get_shard inner k)) e)

  -- There are 64 shards; a key has at most one entry, and only in its own shard.
  pub record IsPlaced (inner : Inner K) : Type ℓ where
    pub width : length inner.shards ≡ 64
    pub once : (q : K) (i : ℕ) → count q (shard_at inner i) ≤ 1
    pub home : (q : K) (i : ℕ) → get_shard inner q ≢ i → count q (shard_at inner i) ≡ 0

  pub new_inner-IsPlaced : (seed : ℕ) → IsPlaced (new_inner seed)
  unfolding new_inner count
  new_inner-IsPlaced seed = record {
    width = refl;
    once = λ q i. rw (get_or-replicate {A = Shard K} 64 i []) (omega arith);
    home = λ q i h. rw (get_or-replicate {A = Shard K} 64 i []);
  }

  pub new_inner-view : (seed : ℕ) (q : K) → view (new_inner seed) q ≡ none
  unfolding new_inner lookup
  new_inner-view seed q = rw (get_or-replicate {A = Shard K} 64 (get_shard (new_inner seed) q) [])

  abbrev pub update : (K → Option SharedItem) → K → Option SharedItem → K → Option SharedItem
  update f k v q = if key.same q k then v else f q

  module _ (inner : Inner K) (placed : IsPlaced inner) (k : K) (shard : Shard K) where
    abbrev written : Inner K
    written = write_shard inner (get_shard inner k) shard

    written-here : shard_at written (get_shard inner k) ≡ shard
    written-here =
        get_or-put_same inner.shards (get_shard inner k) shard []
          (rw placed.width (get_shard-lt inner k))

    written-other : (i : ℕ) → get_shard inner k ≢ i → shard_at written i ≡ shard_at inner i
    written-other i h = get_or-put_other inner.shards (get_shard inner k) i shard [] h

    get_shard-written : (q : K) → get_shard written q ≡ get_shard inner q
    unfolding get_shard
    get_shard-written q = refl

    -- The key of a written shard finds that shard again.
    pub written-own : shard_at written (get_shard written k) ≡ shard
    written-own = ap (shard_at written) (get_shard-written k) ∙ written-here

    -- A write of the shard of `k` that changes no other key's entries.
    pub write_shard-IsPlaced :
        ((q : K) → count q shard ≤ 1)
        → ((q : K)
            → key.same q k ≡ false
            → count q shard ≤ count q (shard_at inner (get_shard inner k)))
        → IsPlaced written
    write_shard-IsPlaced few other = record {
      width = length-set inner.shards (get_shard inner k) shard ∙ placed.width;
      once = λ q i. elim (ℕ_discrete (get_shard inner k) i) [
        | yes e ↦ subst (λ j. count q (shard_at written j) ≤ 1) e (rw written-here (few q))
        | no e ↦ rw (written-other i e) (placed.once q i)
      ];
      home = λ q i away. elim (ℕ_discrete (get_shard inner k) i) [
        | yes e ↦
            subst (λ j. count q (shard_at written j) ≡ 0) e
              (rw written-here (
                ground (
                  arith,
                  e,
                  get_shard-written q,
                  get_shard_same inner q k,
                  other q,
                  placed.home q (get_shard inner k),
                )))
        | no e ↦ rw (written-other i e) (placed.home q i (rw (get_shard-written q) at away))
      ];
    }

    pub write_shard-view :
        (v : Option SharedItem)
        → ((q : K)
            → lookup q shard
              ≡ (if key.same q k then v else lookup q (shard_at inner (get_shard inner k))))
        → (q : K) → view written q ≡ update (view inner) k v q
    write_shard-view v reads q = elim (ℕ_discrete (get_shard inner k) (get_shard inner q)) [
      | yes e ↦ rw (get_shard-written q) (
          subst
            (λ j.
              lookup q (shard_at written j)
              ≡ (if key.same q k then v else lookup q (shard_at inner j)))
            e (rw written-here (reads q)))
      | no e ↦
          rw (get_shard-written q, written-other (get_shard inner q) e)
            (ground (arith, get_shard_same inner q k))
    ]

    pub write_shard-length :
        length (entries written) + length (shard_at inner (get_shard inner k))
        ≡ length (entries inner) + length shard
    write_shard-length =
        length-flatten-put inner.shards (get_shard inner k) shard
          (rw placed.width (get_shard-lt inner k))
