-- ===== src/State.antt =====
-- src/state/mod.rs: `State`, a lazily initialised value with lock-free reads.
--
-- A `StateWrap` is two shared pointers, so it is an address into a heap of wraps. Of a wrap the heap
-- keeps whether its mutex is held and what its `ArcSwap` holds. `wrap` is what the `OnceCell` holds.
pub mod Guard
pub mod Session
pub mod Calls
pub mod Threads
pub mod Update
use atoman_rs.Prelude.{
  ℕ, ◌≡◌, Bool, true, false, Option, none, some, List, [], ◌∷◌, ◌++◌, length, get_elem?, set as put,
  Run, ok, blocked, panicked, ◌>>=◌, if◌then◌else◌,
}
use atoman_rs.State.Guard.{StateGuard}

pub record StateWrap {ℓ} (T : Type ℓ) : Type ℓ where
  pub held : Bool
  pub value : T

abbrev pub Heap {ℓ} : Type ℓ → Type ℓ
Heap T = List (StateWrap T)

-- `init_fn` is what a call of the initialiser gives.
pub record State {ℓ} (T : Type ℓ) : Type ℓ where
  pub wrap : Option ℕ
  pub init_fn : Run T

module _ {ℓ} {T : Type ℓ} where
  -- An address that is not in the heap does not occur: it counts as a panic.
  pub at : Heap T → ℕ → Run (StateWrap T)
  at h a = elim (get_elem? h a) [ none ↦ panicked | some w ↦ ok w ]

  abbrev pub fresh : T → StateWrap T
  fresh v = record { held = false; value = v }

  unfoldable pub new : Run T → State T
  new init = record { wrap = none; init_fn = init }

  -- `From<T>`: the cell is full and the initialiser is `unreachable!`.
  pub from_value : T → Heap T → State T × Heap T
  from_value v h = (record { wrap = some (length h); init_fn = panicked }, h ++ fresh v ∷ [])

  pub get_or_init : State T → Heap T → Run (ℕ × State T × Heap T)
  get_or_init s h = elim s.wrap [
    | some a ↦ ok (a, s, h)
    | none ↦ do v ← s.init_fn; ok (length h, record s { wrap = some (length h) }, h ++ fresh v ∷ [])
  ]

  pub lock : State T → Heap T → Run (StateGuard T × State T × Heap T)
  unfolding at get_or_init
  lock s h = do
    (a, s', h') ← get_or_init s h
    w ← at h' a
    if w.held
        then blocked
        else ok (
          record { swap = a; current_arc = w.value; mutated_data = none; counter = 0 },
          s',
          put h' a (record w { held = true }),
        )

  -- `let _ = …lock().await` waits for the mutex and lets it go at once, before the store.
  pub set : State T → T → Heap T → Run (State T × Heap T)
  unfolding at get_or_init
  set s v h = do
    (a, s', h') ← get_or_init s h
    w ← at h' a
    if w.held then blocked else ok (s', put h' a (record w { value = v }))

  pub blocking_set : State T → T → Heap T → Run (State T × Heap T)
  unfolding at get_or_init
  blocking_set s v h = do
    (a, s', h') ← get_or_init s h
    w ← at h' a
    if w.held then blocked else ok (s', put h' a (record w { value = v }))

  pub get : State T → Heap T → Run (T × State T × Heap T)
  unfolding at get_or_init
  get s h = do (a, s', h') ← get_or_init s h; w ← at h' a; ok (w.value, s', h')

  -- The future that `lock()` makes is dropped before it is polled, so nothing waits.
  pub get_locked : State T → Heap T → Run (T × State T × Heap T)
  unfolding at get_or_init
  get_locked s h = do (a, s', h') ← get_or_init s h; w ← at h' a; ok (w.value, s', h')

  pub get_cloned : State T → Heap T → Run (T × State T × Heap T)
  unfolding get
  get_cloned s h = get s h

  -- The clone, the original and the heap.
  pub clone : State T → Heap T → Run (State T × State T × Heap T)
  unfolding get_or_init
  clone s h = do
    (a, s', h') ← get_or_init s h
    ok (record { wrap = some a; init_fn = s.init_fn }, s', h')

  -- A guard goes out of scope: its `Drop`, then that of the mutex guard in it.
  pub drop_guard : StateGuard T → Heap T → Run (Heap T)
  unfolding at Guard.drop
  drop_guard g h = do
    w ← at h g.swap
    ok (put h g.swap (record { held = false; value = Guard.drop g w.value }))
