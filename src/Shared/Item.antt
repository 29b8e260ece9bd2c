-- ===== src/Shared/Item.antt =====
-- src/shared/item.rs and src/shared/guard.rs: a value behind a shared read-write lock.
--
-- A `SharedItem` is a shared pointer, so it is an address into a list of cells; a guard is the
-- address of the cell that it locks.
pub mod Laws
use atoman_rs.Prelude.{
  ℕ, zero, suc, ◌+◌, ◌-◌, ◌≡◌, Bool, true, false, ◌||◌, Option, none, some, List, [], ◌∷◌, ◌++◌,
  length, get_elem?, set as put, ltb, Run, ok, blocked, panicked, ◌>>=◌, if◌then◌else◌,
}

-- A value with the number of its read guards and whether a write guard lives.
pub record Cell {ℓ} (V : Type ℓ) : Type ℓ where
  pub value : V
  pub readers : ℕ
  pub writer : Bool

abbrev pub Cells {ℓ} : Type ℓ → Type ℓ
Cells V = List (Cell V)

abbrev pub SharedItem : Type 0
SharedItem = ℕ

module _ {ℓ} {V : Type ℓ} where
  abbrev pub fresh : V → Cell V
  fresh v = record { value = v; readers = 0; writer = false }

  unfoldable pub new : V → Cells V → SharedItem × Cells V
  new v cells = (length cells, cells ++ fresh v ∷ [])

  -- An address outside the list does not occur: it counts as a panic.
  unfoldable pub at : Cells V → ℕ → Run (Cell V)
  at cells a = elim (get_elem? cells a) [ none ↦ panicked | some c ↦ ok c ]

  unfoldable pub read : SharedItem → Cells V → Run (ℕ × Cells V)
  unfolding at
  read item cells = do
    c ← at cells item
    if c.writer then blocked else ok (item, put cells item (record c { readers = c.readers + 1 }))

  unfoldable pub write : SharedItem → Cells V → Run (ℕ × Cells V)
  unfolding at
  write item cells = do
    c ← at cells item
    if c.writer || ltb 0 c.readers
        then blocked
        else ok (item, put cells item (record c { writer = true }))

  -- `deref` of either guard.
  unfoldable pub deref : ℕ → Cells V → Run V
  unfolding at
  deref guard cells = do c ← at cells guard; ok c.value

  -- `deref_mut` of a write guard; `f` is what the caller writes there.
  unfoldable pub deref_mut : (V → V) → ℕ → Cells V → Run (Cells V)
  unfolding at
  deref_mut f guard cells = do
    c ← at cells guard
    ok (put cells guard (record c { value = f c.value }))

  -- A read guard, or a write guard, goes out of scope.
  unfoldable pub drop_read : ℕ → Cells V → Run (Cells V)
  unfolding at
  drop_read guard cells = do
    c ← at cells guard
    ok (put cells guard (record c { readers = c.readers - 1 }))

  unfoldable pub drop_write : ℕ → Cells V → Run (Cells V)
  unfolding at
  drop_write guard cells = do c ← at cells guard; ok (put cells guard (record c { writer = false }))
