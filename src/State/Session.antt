-- ===== src/State/Session.antt =====
-- Sessions of a `StateGuard` (src/state/guard.rs) against two registers: what readers see and a draft.
use atoman_rs.Prelude.{
  ℕ, zero, suc, ◌+◌, ◌-◌, ◌*◌, ◌/◌, ◌≤◌, ◌≢◌, length, take, ◌%◌, ◌^◌, ◌≡◌, refl, Bool, true, false,
  ◌||◌, List, [], ◌∷◌, arith, ◌==◌, if◌then◌else◌, ◌<◌, subst, ap, sym, ◌∙◌,
}
use native.Mathlib.Nat.{div-mul-le_self}
use atoman_rs.State.Guard.{StateGuard, is_modified, cancel, sync, sync_n, drop, deref, deref_mut}

pub data Op {ℓ} (T : Type ℓ) : Type ℓ where
  write : (T → T) → Op T
  cancel_op : Op T
  sync_op : Op T
  sync_n_op : ℕ → Op T

-- What an owner of the guard sees as two plain registers and a count of calls.
pub record Draft {ℓ} (T : Type ℓ) : Type ℓ where
  pub published : T
  pub draft : T
  pub calls : ℕ

-- Of `k` calls of `sync_n n` after `c` earlier ones, how many there are up to the last that publishes.
abbrev pub published_calls : ℕ → ℕ → ℕ → ℕ
published_calls n c zero = 0
published_calls n c (suc k) = (c + k) / n * n + 1 - c

multiple-le : (n c x : ℕ) → 0 < n → c % n ≡ 0 → c ≤ x → c ≤ x / n * n
multiple-le n c x pos e h = grind arith

multiple-ne : (n c x : ℕ) → 0 < n → c % n ≢ 0 → x / n * n ≢ c
multiple-ne n c x pos e h = grind arith

-- One more call before the others: it counts if it publishes, or if a later one does.
abbrev earlier : ℕ → Bool → ℕ
earlier zero b = if b then 1 else 0
earlier (suc m) b = suc (suc m)

published_calls-suc :
    (n c k : ℕ)
    → 0 < n
    → published_calls n c (suc k) ≡ earlier (published_calls n (c + 1) k) (c % n == 0)
published_calls-suc n c zero pos =
    ground (arith, multiple-le n c (c + 0), multiple-ne n c (c + 0), div-mul-le_self (c + 0) n)
published_calls-suc n c (suc k) pos =
    let e : c + suc k ≡ c + 1 + k = omega arith in
    rw e (ground (arith, multiple-le n c (c + 1 + k), multiple-ne n c (c + 1 + k)))

module _ {ℓ} {T : Type ℓ} where
  pub apply : Op T → StateGuard T × T → StateGuard T × T
  unfolding deref_mut cancel sync sync_n
  apply (write f) (g, v) = (deref_mut f g, v)
  apply cancel_op (g, v) = (cancel g, v)
  apply sync_op (g, v) = sync g v
  apply (sync_n_op n) (g, v) = sync_n n g v

  unfoldable pub run : List (Op T) → StateGuard T × T → StateGuard T × T
  unfolding apply
  run [] p = p
  run (o ∷ os) p = run os (apply o p)

  abbrev pub step : Op T → Draft T → Draft T
  step (write f) d = record d { draft = f d.draft }
  step cancel_op d = record d { draft = d.published }
  step sync_op d = record d { published = d.draft }
  step (sync_n_op n) d = record {
    published = if n == 0 || (d.calls % n) == 0 then d.draft else d.published;
    draft = d.draft;
    calls = (d.calls + 1) % 2 ^ 64;
  }

  abbrev pub steps : List (Op T) → Draft T → Draft T
  steps [] d = d
  steps (o ∷ os) d = steps os (step o d)

  abbrev pub view : StateGuard T × T → Draft T
  view p = record { published = p.1; draft = deref p.0; calls = p.0.counter }

  apply-current :
      (o : Op T) (p : StateGuard T × T)
      → p.0.current_arc ≡ p.1
      → (apply o p).0.current_arc ≡ (apply o p).1
  unfolding apply deref_mut cancel sync sync_n is_modified
  apply-current (write f) p e = ground arith
  apply-current cancel_op p e = ground arith
  apply-current sync_op p e = ground arith
  apply-current (sync_n_op n) p e = ground arith

  apply-view :
      (o : Op T) (p : StateGuard T × T) → p.0.current_arc ≡ p.1 → view (apply o p) ≡ step o (view p)
  unfolding apply deref_mut cancel sync sync_n is_modified deref
  apply-view (write f) p e = ground arith
  apply-view cancel_op p e = ground arith
  apply-view sync_op p e = ground arith
  apply-view (sync_n_op n) p e = ground arith

  -- From a guard that starts with the published value, any session followed by the guard's drop
  -- leaves readers with the draft of the two-register session, and before the drop they see
  -- its published register and `deref` its draft.
  pub run-steps :
      (os : List (Op T)) (p : StateGuard T × T)
      → p.0.current_arc ≡ p.1
      → (view (run os p) ≡ steps os (view p))
        × (drop (run os p).0 (run os p).1 ≡ (steps os (view p)).draft)
  unfolding run
  run-steps [] p e = (refl, unfold drop sync deref in ground arith)
  run-steps (o ∷ os) p e =
      let q = apply o p in
      subst
        (λ d.
          (view (run os q) ≡ steps os d) × (drop (run os q).0 (run os q).1 ≡ (steps os d).draft))
        (apply-view o p e) (run-steps os q (apply-current o p e))

  -- Writes, each followed by `sync_n`.
  abbrev pub batch : ℕ → List (T → T) → List (Op T)
  batch n [] = []
  batch n (f ∷ fs) = write f ∷ sync_n_op n ∷ batch n fs

  abbrev pub apply_all : List (T → T) → T → T
  apply_all [] v = v
  apply_all (f ∷ fs) v = apply_all fs (f v)

  -- The start value with the first `m` functions applied, or `p` for none.
  abbrev pub published_after : ℕ → List (T → T) → T → T → T
  published_after zero fs p v = p
  published_after (suc m) fs p v = apply_all (take (suc m) fs) v

  published_after-earlier :
      (q : ℕ) (b : Bool) (f : T → T) (fs : List (T → T)) (p v : T)
      → published_after (earlier q b) (f ∷ fs) p v
        ≡ published_after q fs (if b then f v else p) (f v)
  published_after-earlier zero true f fs p v = refl
  published_after-earlier zero false f fs p v = refl
  published_after-earlier (suc m) b f fs p v = refl

  steps-batch :
      (n : ℕ) (fs : List (T → T)) (d : Draft T)
      → 0 < n
      → d.calls + length fs < 2 ^ 64
      → (steps (batch n fs) d).published
        ≡ published_after (published_calls n d.calls (length fs)) fs d.published d.draft
  steps-batch n [] d pos small = refl
  steps-batch n (f ∷ fs) d pos small =
      let e : (d.calls + 1) % 2 ^ 64 ≡ d.calls + 1 = omega arith in
      let z : (n == 0) ≡ false = ground arith in
      let d' = step (sync_n_op n) (step (write f) d) in
      steps-batch n fs d' pos (rw e (omega arith))
      ∙ rw (e, z)
          (sym (rw (published_calls-suc n d.calls (length fs) pos, published_after-earlier) refl))

  -- `sync_n n` after each of `k` writes, from a fresh guard: readers see the value after the last
  -- call whose number, counted from 0, is a multiple of `n`; the first call always publishes.
  pub sync_n_schedule :
      (n : ℕ) (fs : List (T → T)) (g : StateGuard T)
      → 0 < n
      → g.counter ≡ 0
      → length fs < 2 ^ 64
      → (run (batch n fs) (g, g.current_arc)).1
        ≡ published_after (published_calls n 0 (length fs)) fs g.current_arc (deref g)
  sync_n_schedule n fs g pos zero_calls small =
      ap (λ (d : Draft T). d.published) (run-steps (batch n fs) (g, g.current_arc) refl).0
      ∙ steps-batch n fs (view (g, g.current_arc)) pos (rw zero_calls (omega arith))
      ∙ rw zero_calls refl
