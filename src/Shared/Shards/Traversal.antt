-- ===== src/Shared/Shards/Traversal.antt =====
-- Traversals of the shards (src/shared/map.rs, src/shared/set.rs): of shards that stay as they are,
-- and of shards that other threads change between two accesses.
use mathlib.Core.List.{flatten}
use mathlib.Core.Option.{or_else}
use atoman_rs.Prelude.{
  ℕ, zero, suc, ◌+◌, ◌≤◌, ◌≡◌, ◌≢◌, refl, ap, sym, ◌∙◌, Bool, true, Option, none, some, List, [],
  ◌∷◌, ◌++◌, length, get_or, get_elem?, get_elem?-append_cases, if◌then◌else◌, arith, length-append,
  inl, inr, Option-cases, Bool-cases,
}
use atoman_rs.Shared.Key.{Key}
use atoman_rs.Shared.Item.{SharedItem}
use atoman_rs.Shared.Table.{lookup, count}
use atoman_rs.Shared.Table.Laws.{lookup-absent, lookup-append, count-append}
use atoman_rs.Shared.Shards.{Shard, Inner, shard_at, collect, total, find_in, find_from, get_shard}
use atoman_rs.Shared.Shards.Laws.{entries, view, IsPlaced}

module _ {ℓ} {K : Type ℓ} where
  -- The number of entries collected is the number counted, whatever the accesses find.
  pub length-collect :
      (world : ℕ → Inner K) (n i : ℕ) → length (collect world n i) ≡ total world n i
  unfolding collect total
  length-collect world zero i = refl
  length-collect world (suc n) i =
      simp length-append (omega (arith, length-collect world n (suc i)))

  collect-flatten :
      (inner : Inner K) (xs : List (Shard K)) (n i : ℕ)
      → length xs ≡ n
      → ((j : ℕ) → get_or xs j [] ≡ shard_at inner (i + j))
      → collect (λ _. inner) n i ≡ flatten xs
  unfolding collect flatten
  collect-flatten inner [] zero i e h = refl
  collect-flatten inner [] (suc n) i e h = absurd (omega arith)
  collect-flatten inner (x ∷ xs) zero i e h = absurd (omega arith)
  collect-flatten inner (x ∷ xs) (suc n) i e h =
      let here : shard_at inner i ≡ x = sym (h 0 ∙ ap (shard_at inner) (omega arith)) in
      rw (
        here,
        collect-flatten inner xs n (suc i) (omega arith)
            (λ j. h (suc j) ∙ ap (shard_at inner) (omega arith)),
      )

  -- The first entry that passes.
  abbrev pub first : (K → SharedItem → Bool) → List (K × SharedItem) → Option (K × SharedItem)
  first f [] = none
  first f (e ∷ es) = if f e.0 e.1 then some e else first f es

  first-append :
      (f : K → SharedItem → Bool) (xs ys : List (K × SharedItem))
      → first f (xs ++ ys) ≡ or_else (first f xs) (first f ys)
  unfolding or_else
  first-append f [] ys = refl
  first-append f (e ∷ xs) ys = ground (arith, first-append f xs ys)

  abbrev drop_first : ℕ → List (K × SharedItem) → List (K × SharedItem)
  drop_first zero es = es
  drop_first (suc n) [] = []
  drop_first (suc n) (e ∷ es) = drop_first n es

  drop_first-here :
      (es : List (K × SharedItem)) (i n : ℕ)
      → length es ≡ i + suc n
      → (e : K × SharedItem) × (get_elem? es i ≡ some e)
        × (drop_first i es ≡ e ∷ drop_first (suc i) es)
  drop_first-here [] i n h = absurd (omega arith)
  drop_first-here (e ∷ []) zero n h = (e, refl, refl)
  drop_first-here (e ∷ d ∷ es) zero n h = (e, refl, refl)
  drop_first-here (e ∷ es) (suc i) n h = drop_first-here es i n (omega arith)

  drop_first-end : (es : List (K × SharedItem)) (i : ℕ) → length es ≡ i → drop_first i es ≡ []
  drop_first-end [] zero h = refl
  drop_first-end [] (suc i) h = refl
  drop_first-end (e ∷ es) zero h = absurd (omega arith)
  drop_first-end (e ∷ es) (suc i) h = drop_first-end es i (omega arith)

  module _ (inner : Inner K) (f : K → SharedItem → Bool) where
    find_in-first :
        (s n i t : ℕ)
        → length (shard_at inner s) ≡ i + n
        → (find_in (λ _. inner) (λ _. f) s n i t).0 ≡ first f (drop_first i (shard_at inner s))
    unfolding find_in
    find_in-first s zero i t h = rw (drop_first-end (shard_at inner s) i (omega arith))
    find_in-first s (suc n) i t h =
        let (e, here, split) = drop_first-here (shard_at inner s) i n h in
        rw split (ground (arith, here, find_in-first s n (suc i) (suc t) (omega arith)))

    pub find_from-first :
        (n s t : ℕ) → find_from (λ _. inner) (λ _. f) n s t ≡ first f (collect (λ _. inner) n s)
    unfolding find_from collect or_else
    find_from-first zero s t = refl
    find_from-first (suc n) s t =
        let r = find_in (λ _. inner) (λ _. f) s (length (shard_at inner s)) 0 (suc t) in
        ground (
          arith,
          find_in-first s (length (shard_at inner s)) 0 (suc t) (omega arith),
          find_from-first n (suc s) r.1,
          first-append f (shard_at inner s) (collect (λ _. inner) n (suc s)),
        )

  -- Where an entry was seen: at some access, in some place of some shard.
  pub record Seen (world : ℕ → Inner K) (e : K × SharedItem) (t : ℕ) : Type ℓ where
    pub shard : ℕ
    pub place : ℕ
    pub there : get_elem? (shard_at (world t) shard) place ≡ some e

  find_in-Seen :
      (world : ℕ → Inner K) (f : ℕ → K → SharedItem → Bool) (s n i t : ℕ) {e : K × SharedItem}
      → (find_in world f s n i t).0 ≡ some e
      → (t' : ℕ) × Seen world e t' × (f t' e.0 e.1 ≡ true)
  unfolding find_in
  find_in-Seen world f s zero i t h = cc
  find_in-Seen world f s (suc n) i t {e} h =
      elim (Option-cases (get_elem? (shard_at (world t) s) i)) [
        | inl gone ↦ find_in-Seen world f s n (suc i) (suc t) (ground (arith, gone))
        | inr (d, there) ↦ elim (Bool-cases (f t d.0 d.1)) [
          | inl passed ↦
              let same : d ≡ e = ground (arith, there, passed) in
              (
                t,
                record { shard = s; place = i; there = there ∙ ap (λ x. some x) same },
                ap (λ (x : K × SharedItem). f t x.0 x.1) (sym same) ∙ passed,
              )
          | inr failed ↦ find_in-Seen world f s n (suc i) (suc t) (ground (arith, there, failed))
        ]
      ]

  -- Whatever other threads do meanwhile, an entry that `find` returns was in the shards at the
  -- access that read it, and passed the predicate then.
  pub find_from-Seen :
      (world : ℕ → Inner K) (f : ℕ → K → SharedItem → Bool) (n s t : ℕ) {e : K × SharedItem}
      → find_from world f n s t ≡ some e
      → (t' : ℕ) × Seen world e t' × (f t' e.0 e.1 ≡ true)
  unfolding find_from
  find_from-Seen world f zero s t h = cc
  find_from-Seen world f (suc n) s t {e} h =
      let r = find_in world f s (length (shard_at (world t) s)) 0 (suc t) in
      elim (Option-cases r.0) [
        | inl gone ↦ find_from-Seen world f n (suc s) r.1 (ground (arith, gone))
        | inr (d, there) ↦
            find_in-Seen world f s (length (shard_at (world t) s)) 0 (suc t) (ground (arith, there))
      ]

  pub collect-Seen :
      (world : ℕ → Inner K) (n i p : ℕ) {e : K × SharedItem}
      → get_elem? (collect world n i) p ≡ some e
      → (t : ℕ) × Seen world e t
  unfolding collect
  collect-Seen world zero i p h = cc
  collect-Seen world (suc n) i p h =
      elim (get_elem?-append_cases (shard_at (world i) i) (collect world n (suc i)) p h) [
        | inl here ↦ (i, record { shard = i; place = p; there = here })
        | inr (q, there) ↦ collect-Seen world n (suc i) q there
      ]

module _ {ℓ} {K : Type ℓ} ⦃key : Key K⦄ where
  count-flatten_nowhere :
      (q : K) (xs : List (Shard K))
      → ((i : ℕ) → count q (get_or xs i []) ≡ 0)
      → count q (flatten xs) ≡ 0
  unfolding flatten count
  count-flatten_nowhere q [] h = refl
  count-flatten_nowhere q (x ∷ xs) h =
      omega (arith, count-append q x (flatten xs), h 0, count-flatten_nowhere q xs (λ i. h (suc i)))

  -- A key that occurs in one shard only is found in all shards together as in that one.
  flatten_only :
      (q : K) (xs : List (Shard K)) (j : ℕ)
      → ((i : ℕ) → i ≢ j → count q (get_or xs i []) ≡ 0)
      → (lookup q (flatten xs) ≡ lookup q (get_or xs j []))
        × (count q (flatten xs) ≡ count q (get_or xs j []))
  unfolding flatten lookup count or_else
  flatten_only q [] j h = (refl, refl)
  flatten_only q (x ∷ xs) zero h =
      let none_later = count-flatten_nowhere q xs (λ i. h (suc i) (omega arith)) in
      (
        ground (arith, lookup-append q x (flatten xs), lookup-absent q (flatten xs) none_later),
        omega (arith, count-append q x (flatten xs)),
      )
  flatten_only q (x ∷ xs) (suc j) h =
      let none_here : count q x ≡ 0 = h 0 (omega arith) in
      let rest = flatten_only q xs j (λ i n. h (suc i) (omega arith)) in
      (
        ground (arith, lookup-append q x (flatten xs), lookup-absent q x none_here, rest.0),
        omega (arith, count-append q x (flatten xs), rest.1),
      )

  module _ (inner : Inner K) (placed : IsPlaced inner) where
    pub collect-entries : collect (λ _. inner) 64 0 ≡ entries inner
    collect-entries =
        collect-flatten inner inner.shards 64 0 placed.width
          (λ j. ap (shard_at inner) (omega arith))

    -- All shards together hold what each key stands for, once.
    pub entries-view :
        (q : K) → (lookup q (entries inner) ≡ view inner q) × (count q (entries inner) ≤ 1)
    entries-view q =
        let r =
          flatten_only q inner.shards (get_shard inner q)
            (λ i n. placed.home q i (λ e. n (sym e))) in
        (r.0, rw r.1 (placed.once q (get_shard inner q)))
