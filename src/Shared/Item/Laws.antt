-- ===== src/Shared/Item/Laws.antt =====
-- Guards of `SharedItem` (src/shared/item.rs, src/shared/guard.rs): exclusion, and what they see.
use atoman_rs.Prelude.{
  ℕ, ◌+◌, ◌≡◌, true, false, some, [], ◌∷◌, get_elem?, set as put, get_elem?-set_same, set-set,
  get_elem?-append_end, get_elem?-append_old, ok, blocked, ◌>>=◌, arith,
}
use atoman_rs.Shared.Item.{
  Cell, Cells, SharedItem, fresh, new, at, read, write, deref, deref_mut, drop_read, drop_write,
}

module _ {ℓ} {V : Type ℓ} (cells : Cells V) (a : SharedItem) {c : Cell V}
    (there : get_elem? cells a ≡ some c) where
  -- Writing an item that no guard holds: a read or a write of it through any copy of the pointer
  -- waits until the guard is dropped, and after the drop a read sees what was written.
  pub write_excludes :
      (f : V → V)
      → c.writer ≡ false
      → c.readers ≡ 0
      → let held = put cells a (record c { writer = true }) in
        let written = put cells a (record { value = f c.value; readers = 0; writer = false }) in
        (write a cells ≡ ok (a, held))
        × (read a held ≡ blocked)
        × (write a held ≡ blocked)
        × ((deref_mut f a held >>= λ cells'. drop_write a cells') ≡ ok written)
        × ((read a written >>= λ r. deref r.0 r.1) ≡ ok (f c.value))
  unfolding read write deref deref_mut drop_write at
  write_excludes f free unread =
      let c₁ = record c { writer = true } in
      let c₂ = record c₁ { value = f c.value } in
      let c₃ : Cell V = record { value = f c.value; readers = 0; writer = false } in
      let e₁ = get_elem?-set_same cells a c₁ there in
      let e₃ = get_elem?-set_same cells a c₃ there in
      (
        ground (arith, e₁),
        ground (arith, e₁),
        ground (arith, e₁),
        ground (
          arith,
          e₁,
          get_elem?-set_same cells a c₂ there,
          set-set cells a c₁ c₂,
          set-set cells a c₂ c₃,
        ),
        ground (
          arith,
          e₃,
          get_elem?-set_same cells a (record c₃ { readers = 1 }) there,
          set-set cells a c₃ (record c₃ { readers = 1 }),
        ),
      )

  -- Two read guards of one item may live together and see its value; while one lives a write waits,
  -- and once both are dropped the item is as before.
  pub reads_share :
      c.writer ≡ false
      → (n : ℕ) → c.readers ≡ n
      → let one = put cells a (record c { readers = n + 1 }) in
        let two = put cells a (record c { readers = n + 2 }) in
        (read a cells ≡ ok (a, one))
        × (read a one ≡ ok (a, two))
        × (deref a two ≡ ok c.value)
        × (write a one ≡ blocked)
        × (write a two ≡ blocked)
        × ((drop_read a two >>= drop_read a) ≡ ok (put cells a c))
  unfolding read write deref drop_read at
  reads_share free n unread =
      let c₁ = record c { readers = n + 1 } in
      let c₂ = record c { readers = n + 2 } in
      let e₁ = get_elem?-set_same cells a c₁ there in
      let e₂ = get_elem?-set_same cells a c₂ there in
      let s = set-set cells a c₁ in
      (
        ground arith,
        ground (arith, e₁, s c₂),
        ground (arith, e₂),
        ground (arith, e₁),
        ground (arith, e₂),
        ground (arith, e₁, e₂, s c, set-set cells a c₂ c₁),
      )

-- A new item gets an address of its own: it holds its value, no guard holds it, and what every
-- other item holds stays.
pub new_lem {ℓ} :
    {V : Type ℓ} (v : V) (cells : Cells V)
    → (get_elem? (new v cells).1 (new v cells).0 ≡ some (fresh v))
      × ((b : ℕ) (c : Cell V) → get_elem? cells b ≡ some c → get_elem? (new v cells).1 b ≡ some c)
unfolding new
new_lem v cells =
    (get_elem?-append_end cells (fresh v), λ b c e. get_elem?-append_old cells (fresh v ∷ []) b e)
