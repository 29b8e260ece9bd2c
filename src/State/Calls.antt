-- ===== src/State/Calls.antt =====
-- Calls of `State` (src/state/mod.rs) one after another, and through clones.
use atoman_rs.Prelude.{
  ℕ, ◌≡◌, refl, true, false, none, some, ◌∷◌, [], ◌++◌, arith, get_elem?, length, set as put,
  get_elem?-set_same, get_elem?-append_end, get_elem?-append_old, Run, ok, blocked, panicked, ◌>>=◌,
  ◌<◌, inl, inr, Option-cases, length-append, get_elem?-some, set-set,
}
use atoman_rs.State.{
  State, StateWrap, Heap, at, fresh, new, from_value, get_or_init, lock, set, blocking_set, get,
  get_locked, clone, drop_guard,
}
use atoman_rs.State.Guard.{deref_mut, drop, sync}

-- The wrap of a state, once initialised, and what the heap holds there.
pub record Holds {ℓ} {T : Type ℓ} (s : State T) (h : Heap T) (a : ℕ) (w : StateWrap T)
    : Type ℓ where
  pub wrap : s.wrap ≡ some a
  pub there : get_elem? h a ≡ some w

module _ {ℓ} {T : Type ℓ} where
  -- A first access initialises the state; each later access gives the same wrap and changes
  -- nothing, whatever the initialiser would do.
  pub get_or_init_once :
      (s : State T) (h : Heap T) {a : ℕ} {s' : State T} {h' : Heap T} (init : Run T)
      → get_or_init s h ≡ ok (a, s', h')
      → get_or_init (record s' { init_fn = init }) h' ≡ ok (a, record s' { init_fn = init }, h')
  unfolding get_or_init
  get_or_init_once s h init e = ground arith

  get_or_init-Holds :
      (s : State T) (h : Heap T) {a : ℕ} {w : StateWrap T}
      → Holds s h a w
      → get_or_init s h ≡ ok (a, s, h)
  unfolding get_or_init
  get_or_init-Holds s h p = ground arith

  module _ (s t : State T) (h : Heap T) {a : ℕ} {w : StateWrap T} (p : Holds s h a w)
      (q : Holds t h a w) where
    -- While no guard lives, a `set` through one of two states that share a wrap is what a `get`
    -- through the other returns.
    pub get-set_shared :
        (v : T)
        → w.held ≡ false
        → (set s v h >>= λ r. get t r.1) ≡ ok (v, t, put h a (record w { value = v }))
    unfolding set get at get_or_init
    get-set_shared v free = ground (arith, get_elem?-set_same h a (record w { value = v }) p.there)

    -- A guard that is locked, written through `f` and dropped publishes `f` of the value that was
    -- there, to every state that shares the wrap, and leaves the mutex free.
    pub get-drop-write-lock :
        (f : T → T)
        → w.held ≡ false
        → (lock s h >>= λ r. drop_guard (deref_mut f r.0) r.2 >>= λ h'. get t h')
          ≡ ok (f w.value, t, put h a (record { held = false; value = f w.value }))
    unfolding lock drop_guard deref_mut drop sync get at get_or_init
    get-drop-write-lock f free = ground (
      arith,
      get_elem?-set_same h a (record w { held = true }) p.there,
      get_elem?-set_same h a (record { held = false; value = f w.value }) p.there,
      set-set h a (record w { held = true }) (record { held = false; value = f w.value }),
    )

    -- `lock` gives a guard that starts from the published value and takes the mutex. From then on, while the guard
    -- lives, whatever value is published, that of before at first and later what the guard has synced: `lock`
    -- and both ways to set through the other state wait, and both `get` and `get_locked` return the
    -- published value at once.
    pub lock_excludes :
        (v published : T)
        → w.held ≡ false
        → let h₁ = put h a (record { held = true; value = published }) in
          (lock s h
            ≡ ok (
              record { swap = a; current_arc = w.value; mutated_data = none; counter = 0 },
              s,
              put h a (record { held = true; value = w.value }),
            ))
          × (lock t h₁ ≡ blocked)
          × (set t v h₁ ≡ blocked)
          × (blocking_set t v h₁ ≡ blocked)
          × (get t h₁ ≡ ok (published, t, h₁))
          × (get_locked t h₁ ≡ ok (published, t, h₁))
    unfolding lock set blocking_set get get_locked at get_or_init
    lock_excludes v published free =
        let e = get_elem?-set_same h a (record { held = true; value = published }) p.there in
        (
          ground (arith, e),
          ground (arith, e),
          ground (arith, e),
          ground (arith, e),
          ground (arith, e),
          ground (arith, e),
        )

  -- The cell is full with an address of the heap, or the initialiser returns a value.
  pub record IsValid (s : State T) (h : Heap T) : Type ℓ where
    pub full : (a : ℕ) → s.wrap ≡ some a → a < length h
    pub empty : s.wrap ≡ none → (v : T) × (s.init_fn ≡ ok v)

  -- What an access finds: the wrap, and that the wraps of before are still there.
  pub record Access (s : State T) (h : Heap T) (a : ℕ) (s' : State T) (h' : Heap T) : Type ℓ where
    pub content : StateWrap T
    pub holds : Holds s' h' a content
    pub valid : IsValid s' h'
    pub kept : (b : ℕ) (u : StateWrap T) → get_elem? h b ≡ some u → get_elem? h' b ≡ some u

  -- On a valid state an access returns: it neither panics nor waits.
  pub get_or_init_total :
      (s : State T) (h : Heap T)
      → IsValid s h
      → (a : ℕ) × (s' : State T) × (h' : Heap T) × (get_or_init s h ≡ ok (a, s', h'))
        × Access s h a s' h'
  unfolding get_or_init
  get_or_init_total s h p = elim (Option-cases s.wrap) [
    | inl e ↦
        let (v, i) = p.empty e in
        (
          length h,
          record s { wrap = some (length h) },
          h ++ fresh v ∷ [],
          ground arith,
          record {
            content = fresh v;
            holds = record { wrap = refl; there = get_elem?-append_end h (fresh v) };
            valid = record {
              full = λ b q. ground (arith, length-append {ℓ} h (fresh v ∷ []));
              empty = λ q. cc;
            };
            kept = λ b u q. get_elem?-append_old h (fresh v ∷ []) b q;
          },
        )
    | inr (a, e) ↦
        let (w, there) = get_elem?-some h a (p.full a e) in
        (
          a,
          s,
          h,
          ground arith,
          record {
            content = w;
            holds = record { wrap = e; there = there };
            valid = p;
            kept = λ b u q. q;
          },
        )
  ]

  -- A clone of a valid state shares its wrap with the original.
  pub clone_total :
      (s : State T) (h : Heap T)
      → IsValid s h
      → (c : State T) × (s' : State T) × (h' : Heap T) × (a : ℕ) × (w : StateWrap T) × (clone s h
          ≡ ok (c, s', h'))
        × Holds c h' a w
        × Holds s' h' a w
  unfolding clone
  clone_total s h p =
      let (a, s', h', e, r) = get_or_init_total s h p in
      (
        record { wrap = some a; init_fn = s.init_fn },
        s',
        h',
        a,
        r.content,
        rw (e, ◌>>=◌),
        record { wrap = refl; there = r.holds.there },
        r.holds,
      )

  from_value-Holds :
      (v : T) (h : Heap T) → Holds (from_value v h).0 (from_value v h).1 (length h) (fresh v)
  unfolding from_value
  from_value-Holds v h = record { wrap = refl; there = get_elem?-append_end h (fresh v) }

  -- A state made from a value reads as that value and never runs its initialiser, which panics;
  -- a state with an initialiser reads as what that gives.
  pub get-from_value :
      (v : T) (h : Heap T)
      → ((from_value v h).0.init_fn ≡ panicked)
        × ((get (from_value v h).0 (from_value v h).1)
            ≡ ok (v, (from_value v h).0, (from_value v h).1))
        × (get (new (ok v)) h
            ≡ ok (v, record { wrap = some (length h); init_fn = ok v }, h ++ fresh v ∷ []))
  unfolding get from_value new at get_or_init
  get-from_value v h = (
    refl,
    ground (arith, get_elem?-append_end h (fresh v)),
    ground (arith, get_elem?-append_end h (fresh v)),
  )
