-- ===== src/State/Threads.antt =====
-- Threads over one wrap of `State` (src/state/mod.rs, src/state/guard.rs): each access to the mutex
-- or to the `ArcSwap` is one step, and the scheduler picks any thread.
use mathlib.Core.Logic.{ite}
use atoman_rs.Prelude.{ℕ, ◌≡◌, refl, Bool, true, false, none, arith, ℕ_discrete}
use atoman_rs.State.{StateWrap, fresh}
use atoman_rs.State.Guard.{StateGuard, cancel, deref_mut, drop, sync, sync_n, is_modified}

-- Where a thread stands: `loading` is in `lock`, between the mutex and the load of the value; `leaving` is in the
-- drop of a guard, between the store and the release of the mutex; `storing` is between the lines of `set`
-- that wait for the mutex and store.
pub data Pc {ℓ} (T : Type ℓ) : Type ℓ where
  idle : Pc T
  loading : Pc T
  leaving : Pc T
  storing : T → Pc T
  holding : StateGuard T → Pc T

abbrev pub opened {ℓ} : {T : Type ℓ} → T → StateGuard T
opened v = record { swap = 0; current_arc = v; mutated_data = none; counter = 0 }

-- A step of one thread. `sets` says whether any thread calls `set` or `blocking_set`.
pub data Move {ℓ} {T : Type ℓ} (sets : Bool) (w : StateWrap T)
    : Pc T → StateWrap T → Pc T → Type ℓ where
  acquire : w.held ≡ false → Move sets w idle (record w { held = true }) loading
  load : Move sets w loading w (holding (opened w.value))
  write : (f : T → T) {g : StateGuard T} → Move sets w (holding g) w (holding (deref_mut f g))
  undo : {g : StateGuard T} → Move sets w (holding g) w (holding (cancel g))
  publish :
      {g : StateGuard T}
      → Move sets w
          (holding g)
          (record w { value = (sync g w.value).1 })
          (holding (sync g w.value).0)
  publish_n :
      (n : ℕ) {g : StateGuard T}
      → Move sets w
          (holding g)
          (record w { value = (sync_n n g w.value).1 })
          (holding (sync_n n g w.value).0)
  drop_store :
      {g : StateGuard T} → Move sets w (holding g) (record w { value = drop g w.value }) leaving
  release : Move sets w leaving (record w { held = false }) idle
  set_wait : (v : T) → sets ≡ true → w.held ≡ false → Move sets w idle w (storing v)
  set_store : {v : T} → sets ≡ true → Move sets w (storing v) (record w { value = v }) idle

pub record System {ℓ} (T : Type ℓ) : Type ℓ where
  pub wrap : StateWrap T
  pub pc : ℕ → Pc T

abbrev pub update {ℓ} : {A : Type ℓ} → (ℕ → A) → ℕ → A → ℕ → A
update f i a j = ite (ℕ_discrete i j) a (f j)

pub data Step {ℓ} {T : Type ℓ} (sets : Bool) (s : System T) : System T → Type ℓ where
  pick :
      (i : ℕ) {w : StateWrap T} {p : Pc T}
      → Move sets s.wrap (s.pc i) w p
      → Step sets s (record { wrap = w; pc = update s.pc i p })

abbrev pub init {ℓ} : {T : Type ℓ} → T → System T
init v = record { wrap = fresh v; pc = λ _. idle }

pub data Reach {ℓ} {T : Type ℓ} (sets : Bool) (s₀ : System T) : System T → Type ℓ where
  start : Reach sets s₀ s₀
  later : {s t : System T} → Reach sets s₀ s → Step sets s t → Reach sets s₀ t

module _ {ℓ} {T : Type ℓ} where
  -- In the mutex, with a guard or about to have one or to let it go.
  abbrev pub is_holding : Pc T → Bool
  is_holding (holding _) = true
  is_holding loading = true
  is_holding leaving = true
  is_holding _ = false

  -- The mutex is held exactly while one thread is in it.
  pub record Inv (w : StateWrap T) (pc : ℕ → Pc T) : Type ℓ where
    pub free : w.held ≡ false → (i : ℕ) → is_holding (pc i) ≡ false
    pub alone : (i j : ℕ) → is_holding (pc i) ≡ true → is_holding (pc j) ≡ true → i ≡ j

  module _ {sets : Bool} {w : StateWrap T} {pc : ℕ → Pc T} (inv : Inv w pc) (i : ℕ) where
    Move-free :
        {p p' : Pc T} {w' : StateWrap T}
        → Move sets w p w' p'
        → pc i ≡ p
        → w'.held ≡ false
        → (j : ℕ) → is_holding (update pc i p' j) ≡ false
    Move-free (acquire f) e h j = ground (arith, inv.free f j, inv.alone i j)
    Move-free release e h j = ground (arith, inv.alone i j)
    Move-free mv e h j = ground (arith, inv.free h j, inv.free h i)

    Move-alone :
        {p p' : Pc T} {w' : StateWrap T}
        → Move sets w p w' p'
        → pc i ≡ p
        → (j k : ℕ) → is_holding (update pc i p' j) ≡ true
        → is_holding (update pc i p' k) ≡ true
        → j ≡ k
    Move-alone (acquire f) e j k a b = ground (arith, inv.free f j, inv.free f k)
    Move-alone mv e j k a b = ground (arith, inv.alone i j, inv.alone i k, inv.alone j k)

  Step-Inv : {sets : Bool} {s t : System T} → Step sets s t → Inv s.wrap s.pc → Inv t.wrap t.pc
  Step-Inv (pick i mv) inv = record {
    free = Move-free inv i mv refl;
    alone = Move-alone inv i mv refl;
  }

  pub Reach-Inv : {sets : Bool} {v : T} {s : System T} → Reach sets (init v) s → Inv s.wrap s.pc
  Reach-Inv start = record { free = λ _ i. refl; alone = λ i j a b. cc }
  Reach-Inv (later r st) = Step-Inv st (Reach-Inv r)

  -- In every reachable state, with or without calls of `set`, at most one thread is in the mutex, from its lock
  -- until its release, so at most one holds a guard; none is while the mutex is free.
  pub mutual_exclusion :
      {sets : Bool} {v : T} {s : System T}
      → Reach sets (init v) s
      → ((i j : ℕ) → is_holding (s.pc i) ≡ true → is_holding (s.pc j) ≡ true → i ≡ j)
        × (s.wrap.held ≡ false → (i : ℕ) → is_holding (s.pc i) ≡ false)
  mutual_exclusion r = ((Reach-Inv r).alone, (Reach-Inv r).free)

  module _ {w : StateWrap T} {pc : ℕ → Pc T} (inv : Inv w pc) (i : ℕ)
      (fresh_at : (j : ℕ) (g : StateGuard T) → pc j ≡ holding g → g.current_arc ≡ w.value) where
    Move-fresh :
        {p p' : Pc T} {w' : StateWrap T}
        → Move false w p w' p'
        → pc i ≡ p
        → (j : ℕ) (g : StateGuard T) → update pc i p' j ≡ holding g
        → g.current_arc ≡ w'.value
    unfolding deref_mut cancel sync sync_n is_modified drop
    Move-fresh (acquire f) e j g q = ground (arith, fresh_at j g, inv.free f j)
    Move-fresh load e j g q = ground (arith, fresh_at j g, inv.alone i j)
    Move-fresh (set_wait v s f) e j g q = cc
    Move-fresh (set_store s) e j g q = cc
    Move-fresh (write f {g = g₀}) e j g q = ground (arith, fresh_at j g, fresh_at i g₀ e)
    Move-fresh (undo {g = g₀}) e j g q = ground (arith, fresh_at j g, fresh_at i g₀ e)
    Move-fresh (publish {g = g₀}) e j g q =
        ground (arith, fresh_at j g, fresh_at i g₀ e, inv.alone i j)
    Move-fresh (publish_n n {g = g₀}) e j g q =
        ground (arith, fresh_at j g, fresh_at i g₀ e, inv.alone i j)
    Move-fresh (drop_store {g = g₀}) e j g q =
        ground (arith, fresh_at j g, fresh_at i g₀ e, inv.alone i j)
    Move-fresh release e j g q = ground (arith, fresh_at j g, inv.alone i j)

  -- While no thread calls `set`, a guard's base is the published value in every reachable state,
  -- whatever the other threads do: no update by another guard can be lost under it.
  pub no_stale_guard :
      {v : T} {s : System T}
      → Reach false (init v) s
      → (i : ℕ) (g : StateGuard T) → s.pc i ≡ holding g
      → g.current_arc ≡ s.wrap.value
  no_stale_guard start i g e = cc
  no_stale_guard (later r (pick i mv)) j g e =
      Move-fresh (Reach-Inv r) i (no_stale_guard r) mv refl j g e

  -- A value that `set` stores while another thread holds a guard can be lost: for every start value, every value
  -- `x` and every `f`, a state is reachable where thread 0 is about to store `x` and thread 1 holds a guard; in the
  -- next step it stores `x` and returns, the guard still held; and from there, by steps that call no `set`, the
  -- wrap is as the drop of that guard leaves it, and the published value is `f` of the start value.
  pub set_lost :
      (v x : T) (f : T → T)
      → (r t s : System T) × (g : StateGuard T) × Reach true (init v) r
        × (r.pc 0 ≡ storing x)
        × (r.pc 1 ≡ holding g)
        × Step true r t
        × (t.pc 0 ≡ idle)
        × (t.pc 1 ≡ holding g)
        × (t.wrap.value ≡ x)
        × Reach false t s
        × (s.wrap ≡ record { held = false; value = drop g x })
        × (s.wrap.value ≡ f v)
  unfolding deref_mut drop sync ℕ_discrete
  set_lost v x f = (
    _,
    _,
    _,
    _,
    later
        (later (later (later start (pick 0 (set_wait x refl refl))) (pick 1 (acquire refl)))
          (pick 1 load))
        (pick 1 (write f)),
    refl,
    refl,
    pick 0 (set_store refl),
    refl,
    refl,
    refl,
    later (later start (pick 1 drop_store)) (pick 1 release),
    refl,
    refl,
  )
