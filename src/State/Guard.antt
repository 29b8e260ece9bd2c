-- ===== src/State/Guard.antt =====
-- src/state/guard.rs: `StateGuard`, the copy-on-write transaction on a state.
--
-- A method that reaches the `ArcSwap` takes the value that it holds and returns it anew.
use atoman_rs.Prelude.{
  ℕ, ◌+◌, ◌%◌, ◌^◌, Bool, true, false, ◌&&◌, ◌||◌, Option, none, some, ◌==◌, if◌then◌else◌,
}

-- `swap` is the address of the wrap whose value and mutex the guard holds.
pub record StateGuard {ℓ} (T : Type ℓ) : Type ℓ where
  pub swap : ℕ
  pub current_arc : T
  pub mutated_data : Option T
  pub counter : ℕ

module _ {ℓ} {T : Type ℓ} where
  unfoldable pub is_modified : StateGuard T → Bool
  is_modified g = elim g.mutated_data [ none ↦ false | some _ ↦ true ]

  unfoldable pub cancel : StateGuard T → StateGuard T
  cancel g = record g { mutated_data = none }

  -- The guard, and the value that the `ArcSwap` holds afterwards.
  unfoldable pub sync : StateGuard T → T → StateGuard T × T
  sync g published = elim g.mutated_data [
    | none ↦ (g, published)
    | some d ↦ (record g { current_arc = d }, d)
  ]

  -- The call counter is a `usize`, which wraps.
  unfoldable pub sync_n : ℕ → StateGuard T → T → StateGuard T × T
  unfolding is_modified sync
  sync_n n g published =
      let (g', published') =
        if is_modified g && (n == 0 || (g.counter % n) == 0)
        then sync g published
        else (g, published) in
      (record g' { counter = (g'.counter + 1) % 2 ^ 64 }, published')

  -- What the `ArcSwap` holds after the guard's `Drop`.
  unfoldable pub drop : StateGuard T → T → T
  unfolding sync
  drop g published = (sync g published).1

  unfoldable pub deref : StateGuard T → T
  deref g = elim g.mutated_data [ none ↦ g.current_arc | some d ↦ d ]

  -- `deref_mut` clones the current value at its first call; `f` is what the caller writes there.
  unfoldable pub deref_mut : (T → T) → StateGuard T → StateGuard T
  deref_mut f g = elim g.mutated_data [
    | none ↦ record g { mutated_data = some (f g.current_arc) }
    | some d ↦ record g { mutated_data = some (f d) }
  ]
