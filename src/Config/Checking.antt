-- ===== src/Config/Checking.antt =====
-- `Config::check` of src/config/mod.rs: whether the file is newer than the data, asked at most once in an
-- interval.
use atoman_rs.Prelude.{
  ℕ, ◌-◌, ◌≡◌, ◌<◌, ◌≤◌, ◌⊎◌, ◌↔◌, refl, ap, sym, subst, Bool, true, false, Option, none, some, ltb,
  leb, ltb→lt, lt→ltb, leb→le, if◌then◌else◌, Bool-cases, inl, inr, arith,
}
use atoman_rs.Prelude.Result.{Result, success, failure}
use atoman_rs.State.Update.{through_guard}
use atoman_rs.Config.Files.{Fs, Formats}
use atoman_rs.Config.{Modify, Now, Failure, other, is_recent, is_old, check}

module _ {T : Type 0} (F : Fs) (M : Formats T (Fs.E F)) where
  open F use {W, FilePath, E}

  -- The last check is less than `millis` before `instant`.
  abbrev pub IsRecent : ℕ → ℕ → Modify → Type 0
  IsRecent millis instant m = elim m.checked [ none ↦ ⊥ | some t ↦ instant - t < millis ]

  -- The file's time is not after the last known one.
  abbrev pub IsOld : ℕ → Modify → Type 0
  IsOld time m = elim m.modified [ none ↦ ⊥ | some last ↦ time ≤ last ]

  -- What `check` answers, and what the times are then.
  abbrev pub Checked :
      ℕ → Now → Modify → FilePath → W → Modify → Result (Failure E) Bool × Modify → Type 0
  Checked millis now seen path w m (success true, m') =
      (¬ IsRecent millis now.instant seen)
      × (¬ IsRecent millis now.instant m)
      × ((time : ℕ) × (Fs.modified F path w ≡ success time) × ¬ IsOld time m)
      × (m' ≡ record m { checked = some now.instant })
  Checked millis now seen path w m (success false, m') =
      (IsRecent millis now.instant seen
        ⊎ IsRecent millis now.instant m
        ⊎ ((time : ℕ) × (Fs.modified F path w ≡ success time) × IsOld time m))
      × (m' ≡ m)
  Checked millis now seen path w m (failure e, m') =
      ((f : E) × (Fs.modified F path w ≡ failure f) × (e ≡ other f)) × (m' ≡ m)

  pub is_recent-IsRecent :
      (millis instant : ℕ) (m : Modify)
      → (is_recent F M millis instant m ≡ true) ↔ IsRecent millis instant m
  is_recent-IsRecent millis instant m = at m.checked
    where
      at :
          (o : Option ℕ)
          → (elim o as (λ o. Bool) [ none ↦ false | some t ↦ ltb (instant - t) millis ] ≡ true)
            ↔ elim o as (λ o. Type 0) [ none ↦ ⊥ | some t ↦ instant - t < millis ]
      at none = (λ e. cc, λ e. absurd e)
      at (some t) = (λ e. ltb→lt (instant - t) millis e, λ l. lt→ltb (instant - t) millis l)

  pub is_old-IsOld : (time : ℕ) (m : Modify) → (is_old F M time m ≡ true) ↔ IsOld time m
  is_old-IsOld time m = at m.modified
    where
      at :
          (o : Option ℕ)
          → (elim o as (λ o. Bool) [ none ↦ false | some last ↦ leb time last ] ≡ true)
            ↔ elim o as (λ o. Type 0) [ none ↦ ⊥ | some last ↦ time ≤ last ]
      at none = (λ e. cc, λ e. absurd e)
      at (some t) = (λ e. leb→le time t e, λ l. ground arith)

  false_refutes : {b : Bool} {P : Type 0} → (b ≡ true) ↔ P → b ≡ false → ¬ P
  false_refutes same away p = let here = same.1 p in cc

  -- `check` answers true if no check is recent, neither as seen before the lock is taken nor under it, and the
  -- file's time is after the last known one, or none is known; the time of the check is then set. It answers
  -- false otherwise, without a change, and gives the error of the file's metadata.
  pub check-Checked :
      (millis : ℕ) (now : Now) (seen : Modify) (path : FilePath) (w : W) (m : Modify)
      → Checked millis now seen path w m (check F M millis now seen path w m)
  unfolding check through_guard
  check-Checked millis now seen path w m =
      elim (Bool-cases (is_recent F M millis now.instant seen)) [
        | inl h ↦ rw h (inl ((is_recent-IsRecent millis now.instant seen).0 h), refl)
        | inr h ↦ elim (Bool-cases (is_recent F M millis now.instant m)) [
          | inl k ↦ rw (h, k) (inr (inl ((is_recent-IsRecent millis now.instant m).0 k)), refl)
          | inr k ↦
              rw (h, k)
                (asked (Fs.modified F path w) refl
                  (false_refutes (is_recent-IsRecent millis now.instant seen) h)
                  (false_refutes (is_recent-IsRecent millis now.instant m) k))
        ]
      ]
    where
      asked :
          (r : Result E ℕ)
          → Fs.modified F path w ≡ r
          → ¬ IsRecent millis now.instant seen
          → ¬ IsRecent millis now.instant m
          → Checked millis now seen path w m (elim r as (λ r. Result (Failure E) Bool × Modify) [
            | failure e ↦ (failure (other e), m)
            | success time ↦ if is_old F M time m then (success false, m) else (
              success true,
              through_guard (λ (k : Modify). record k { checked = some now.instant }) m,
            )
          ])
      asked (failure e) there h k = ((e, there, refl), refl)
      asked (success time) there h k = elim (Bool-cases (is_old F M time m)) [
        | inl old ↦ rw old (inr (inr (time, there, (is_old-IsOld time m).0 old)), refl)
        | inr later ↦
            rw later (h, k, (time, there, false_refutes (is_old-IsOld time m) later), refl)
      ]

  -- After a `check` that answers true, every `check` within the interval answers false, whatever has become
  -- of the file, and leaves the times.
  pub check-check :
      (millis : ℕ) (now later : Now) (seen m m' : Modify) (path : FilePath) (w w' : W)
      → check F M millis now seen path w m ≡ (success true, m')
      → later.instant - now.instant < millis
      → check F M millis later m' path w' m' ≡ (success false, m')
  unfolding check
  check-check millis now later seen m m' path w w' e soon =
      let c =
        subst (λ r. Checked millis now seen path w m r) e
          (check-Checked millis now seen path w m) in
      let set : m'.checked ≡ some now.instant = ap (λ k. k.checked) c.3 in
      let recent : is_recent F M millis later.instant m' ≡ true =
        (is_recent-IsRecent millis later.instant m').1 (
          subst (λ o. elim o as (λ o. Type 0) [ none ↦ ⊥ | some t ↦ later.instant - t < millis ])
            (sym set) soon) in
      rw recent refl
