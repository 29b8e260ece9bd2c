-- ===== src/Shared/Map/Values.antt =====
-- `SharedMap` as a map from keys to values (src/shared/map.rs, src/shared/item.rs): what stands in
-- the cells that the items point to.
use atoman_rs.Prelude.{
  ℕ, ◌<◌, ◌≡◌, refl, true, false, Option, none, some, [], ◌∷◌, ◌++◌, length, get_elem?, set as put,
  if◌then◌else◌, arith, length-append, get_elem?-append_end, get_elem?-append_old, get_elem?-some,
  get_elem?-set_same, ok, ◌>>=◌, ap, ◌∙◌,
}
use atoman_rs.Shared.Key.{Key}
use atoman_rs.Shared.Item
use atoman_rs.Shared.Item.{SharedItem, Cell, Cells, fresh}
use atoman_rs.Shared.Item.Laws.{write_excludes}
use atoman_rs.Shared.Map.{SharedMap, insert, remove, get, write}
use atoman_rs.Shared.Map.Refinement.{IsValid, item_of, insert-Writes, remove-Writes, get-item_of}

module _ {κ} {V : Type κ} where
  abbrev pub value_at : Cells V → Option SharedItem → Option V
  value_at cells none = none
  value_at cells (some a) = elim (get_elem? cells a) [ none ↦ none | some c ↦ some c.value ]

  value_at-append :
      (cells : Cells V) (v : V) (o : Option SharedItem)
      → ((a : SharedItem) → o ≡ some a → a < length cells)
      → value_at (cells ++ fresh v ∷ []) o ≡ value_at cells o
  value_at-append cells v none h = refl
  value_at-append cells v (some a) h =
      let (c, there) = get_elem?-some cells a (h a refl) in
      ground (arith, there, get_elem?-append_old cells (fresh v ∷ []) a there)

module _ {ℓ κ} {K : Type ℓ} {V : Type κ} ⦃key : Key K⦄ where
  -- The value that stands under a key.
  abbrev pub value_of : SharedMap K → Cells V → K → Option V
  value_of m cells k = value_at cells (item_of m k)

  -- The shards are well formed, and every item is the address of a cell.
  pub record IsSound (m : SharedMap K) (cells : Cells V) : Type (ℓ ⊔ κ) where
    pub valid : IsValid m
    pub allocated : (q : K) (a : SharedItem) → item_of m q ≡ some a → a < length cells

  module _ (seed : ℕ) (k : K) (v : V) (m : SharedMap K) (cells : Cells V)
      (p : IsSound m cells) where
    -- After `insert` every key equal to the inserted one stands for the new value, and every other
    -- key for the value that it had; the map stays sound.
    pub insert-value_of :
        let r = insert seed k v m cells in
        IsSound r.1 r.2
        × ((q : K) → value_of r.1 r.2 q ≡ (if key.same q k then some v else value_of m cells q))
    insert-value_of =
        let r = insert seed k v m cells in
        let (w, e) = insert-Writes seed m p.valid k v cells in
        (
          record {
            valid = w.valid;
            allocated = λ q a h.
                ground
                  (arith, w.reads q, e, length-append {κ} cells (fresh v ∷ []), p.allocated q a);
          },
          λ q.
              ap (value_at r.2) (w.reads q)
              ∙ ap (λ c. value_at c (if key.same q k then some (length cells) else item_of m q)) e
              ∙ ground (
                arith,
                get_elem?-append_end cells (fresh v),
                value_at-append cells v (item_of m q) (p.allocated q),
              ),
        )

    -- After `remove` no key equal to the removed one stands for a value, and every other key stands
    -- for the value that it had; the map stays sound.
    pub remove-value_of :
        let r = remove seed k m in
        IsSound r.1 cells
        × ((q : K) → value_of r.1 cells q ≡ (if key.same q k then none else value_of m cells q))
    remove-value_of =
        let w = remove-Writes seed m p.valid k in
        (
          record {
            valid = w.valid;
            allocated = λ q a h. ground (arith, w.reads q, p.allocated q a);
          },
          λ q. ap (value_at cells) (w.reads q) ∙ ground arith,
        )

    -- A value under `k` that no guard holds is updated in place through the guard that `write` gives:
    -- once the guard is dropped, the key stands for `f` of its value, and a `read` sees that.
    pub write-value_of :
        (f : V → V) (a : SharedItem) (c : Cell V)
        → item_of m k ≡ some a
        → get_elem? cells a ≡ some c
        → c.writer ≡ false
        → c.readers ≡ 0
        → let held = put cells a (record c { writer = true }) in
          let written : Cells V =
            put cells a (record { value = f c.value; readers = 0; writer = false }) in
          let m' = (get seed k m).1 in
          (write seed k m cells ≡ ok (some (a, held), m'))
          × ((Item.deref_mut f a held >>= λ cells'. Item.drop_write a cells') ≡ ok written)
          × (value_of m written k ≡ some (f c.value))
          × (value_of m' written k ≡ some (f c.value))
    unfolding write
    write-value_of f a c item there free unread =
        let x = write_excludes cells a there f free unread in
        let g = get-item_of seed m p.valid k in
        let e =
          get_elem?-set_same cells a (record { value = f c.value; readers = 0; writer = false })
            there in
        (
          ground (arith, g.0, x.0),
          x.3,
          ground (arith, item, e),
          ap (value_at _) (g.1 k ∙ item) ∙ ground (arith, e),
        )
