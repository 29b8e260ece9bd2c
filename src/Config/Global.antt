-- ===== src/Config/Global.antt =====
-- crates/config/src/lib.rs: what the macro `config` generates for a structure, a static state with a
-- configuration and functions on it; and what a later call of `check` or `update` sees of an earlier one.
--
-- A function that reaches the static state takes the configuration it holds and returns it anew. A clone of
-- the configuration shares the times with it, so what `check` sets is seen at once.
use atoman_rs.Prelude.{
  ℕ, ◌-◌, ◌≡◌, ◌<◌, ◌≤◌, refl, ap, sym, subst, Bool, true, false, Option, none, some, Text,
  Bool-cases, inl, inr, arith,
}
use atoman_rs.Prelude.Result.{Result, success, failure, ◌>>=◌, success_cancel}
use atoman_rs.State.Guard.{StateGuard, drop, deref_mut}
use atoman_rs.State.Threads.{opened}
use atoman_rs.Config.Files.{Fs, Formats}
use atoman_rs.Config.{
  Modify, Now, now_modify, Failure, Config, boxed, ext_of, read_format, new, parse, read, update,
  check, is_recent,
}
use atoman_rs.Config.Checking.{
  IsRecent, IsOld, Checked, check-Checked, is_recent-IsRecent, is_old-IsOld,
}

module _ {T : Type 0} (F : Fs) (M : Formats T (Fs.E F)) where
  open F use {W, FilePath, E}

  -- The static afterwards, and the files; `default` and `no_path` are as for `new`.
  unfoldable pub init :
      T
      → FilePath
      → FilePath
      → Now
      → Config F M
      → W
      → Result (Failure E) (Unit {0}) × Config F M × W
  unfolding new
  init default no_path file_path now held w =
      let (made, w') = new F M default no_path file_path now w in
      elim made [ failure e ↦ (failure e, held, w') | success conf ↦ (success tt, conf, w') ]

  abbrev pub path : Config F M → FilePath
  path held = held.path

  abbrev pub get : Config F M → Config F M
  get held = held

  abbrev pub get_actual : Config F M → Config F M
  get_actual held = held

  abbrev pub lock : Config F M → StateGuard (Config F M)
  lock held = opened held

  unfoldable pub read_held : Now → Config F M → W → Result (Failure E) (Config F M)
  unfolding read
  read_held now held w = read F M held.path now w

  -- `update` once `check` has answered, and the end of the guard.
  unfoldable pub after_check :
      Now → W → Result (Failure E) Bool → Config F M → Result (Failure E) Bool × Config F M
  unfolding update drop deref_mut
  after_check now w (failure e) cfg = (failure e, cfg)
  after_check now w (success false) cfg = (success false, cfg)
  after_check now w (success true) cfg =
      let (done, cfg') = update F M now cfg w in (done, drop (deref_mut (λ _. cfg') (lock cfg)) cfg)

  unfoldable pub update_held : Now → Config F M → W → Result (Failure E) Bool × Config F M
  unfolding check after_check
  update_held now held w =
      let (answer, m) = check F M 0 now held.modify held.path w held.modify in
      after_check now w answer (record held { modify = m })

  -- What the static `update` answers, and what the state holds then.
  abbrev pub Updated : Now → Config F M → W → Result (Failure E) Bool × Config F M → Type 0
  Updated now held w (success true, held') =
      ((time : ℕ) × (Fs.modified F held.path w ≡ success time) × ¬ IsOld F M time held.modify)
      × (read_held now held w ≡ success held')
  Updated now held w (success false, held') =
      ((time : ℕ) × (Fs.modified F held.path w ≡ success time) × IsOld F M time held.modify)
      × (held' ≡ held)
  Updated now held w (failure e, held') = (held'.path ≡ held.path) × (held'.content ≡ held.content)

  never-IsRecent : (instant : ℕ) (m : Modify) → ¬ IsRecent F M 0 instant m
  never-IsRecent instant m = at m.checked
    where
      at : (o : Option ℕ) → ¬ (elim o as (λ o. Type 0) [ none ↦ ⊥ | some t ↦ instant - t < 0 ])
      at none e = e
      at (some t) e = omega arith

  module _ (now : Now) (held : Config F M) (w : W) where
    after_check-Updated :
        (r : Result (Failure E) Bool × Modify)
        → Checked F M 0 now held.modify held.path w held.modify r
        → Updated now held w (after_check now w r.0 (record held { modify = r.1 }))
    unfolding after_check update read_held drop deref_mut
    after_check-Updated (failure e, m) c = (refl, refl)
    after_check-Updated (success false, m) (inl recent, c) =
        absurd (never-IsRecent now.instant held.modify recent)
    after_check-Updated (success false, m) (inr (inl recent), c) =
        absurd (never-IsRecent now.instant held.modify recent)
    after_check-Updated (success false, m) (inr (inr old), c) =
        (old, ap (λ m. record held { modify = m }) c)
    after_check-Updated (success true, m) (h, k, later, c) = at (read F M held.path now w) refl
      where
        at :
            (r : Result (Failure E) (Config F M))
            → read F M held.path now w ≡ r
            → Updated now held w (
                let (done, cfg') = elim r as (λ r. Result (Failure E) Bool × Config F M) [
                  | failure e ↦ (failure e, record held { modify = m })
                  | success cfg ↦ (success true, cfg)
                ] in
                (done, cfg'))
        at (failure e) there = (refl, refl)
        at (success cfg) there = (later, there)

  -- If the `update` of the static answers true, the file's time is after the last known one, or none is
  -- known, and the state holds what is read; if it answers false, the file's time is not after it and the state
  -- is as it was; if it gives an error, the path and the data are as they were.
  pub update_held-Updated :
      (now : Now) (held : Config F M) (w : W) → Updated now held w (update_held now held w)
  unfolding update_held
  update_held-Updated now held w =
      after_check-Updated now held w (check F M 0 now held.modify held.path w held.modify)
        (check-Checked F M 0 now held.modify held.path w held.modify)

  parse-modify :
      (p : FilePath) (text : Text) (now : Now) (c : Config F M)
      → parse F M p text now ≡ success c
      → (c.path ≡ p) × (c.modify ≡ now_modify now)
  unfolding parse
  parse-modify p text now c e = at (read_format F M (ext_of F M p) text) e
    where
      at :
          (r : Result (Failure E) T)
          → (r >>= λ d. success (record { path = p; content = d; modify = now_modify now }))
            ≡ success c
          → (c.path ≡ p) × (c.modify ≡ now_modify now)
      at (failure e) h = cc
      at (success d) h =
          let same = success_cancel h in
          (ap (λ c. c.path) (sym same), ap (λ c. c.modify) (sym same))

  -- With no newer file there is nothing to do.
  update_held-same :
      (now : Now) (held : Config F M) (w : W) {time : ℕ}
      → Fs.modified F held.path w ≡ success time
      → IsOld F M time held.modify
      → update_held now held w ≡ (success false, held)
  unfolding update_held check after_check
  update_held-same now held w {time} there old =
      rw (never held.modify, there, (is_old-IsOld F M time held.modify).1 old) refl
    where
      never : (m : Modify) → is_recent F M 0 now.instant m ≡ false
      never m = elim (Bool-cases (is_recent F M 0 now.instant m)) [
        | inl h ↦
            absurd (never-IsRecent now.instant m ((is_recent-IsRecent F M 0 now.instant m).0 h))
        | inr h ↦ h
      ]

  read-modify :
      (p : FilePath) (now : Now) (w : W) (c : Config F M)
      → read F M p now w ≡ success c
      → (c.path ≡ p) × (c.modify ≡ now_modify now)
  unfolding read
  read-modify p now w c e = at (boxed F M (Fs.read_to_string F p w)) e
    where
      at :
          (r : Result (Failure E) Text)
          → (r >>= λ t. parse F M p t now) ≡ success c
          → (c.path ≡ p) × (c.modify ≡ now_modify now)
      at (failure e) h = cc
      at (success t) h = parse-modify p t now c h

  -- After an `update` that answers true, an `update` of the unchanged file answers false and leaves the
  -- state, if the file's time was not after the clock's when it was read.
  pub update_held-update_held :
      (now later : Now) (held held' : Config F M) (w : W) {time : ℕ}
      → update_held now held w ≡ (success true, held')
      → Fs.modified F held.path w ≡ success time
      → time ≤ now.utc
      → update_held later held' w ≡ (success false, held')
  unfolding read_held
  update_held-update_held now later held held' w {time} e there past =
      let u = subst (λ r. Updated now held w r) e (update_held-Updated now held w) in
      let m = read-modify held.path now w held' u.1 in
      update_held-same later held' w (subst (λ p. Fs.modified F p w ≡ success time) (sym m.0) there)
        (subst (λ m. IsOld F M time m) (sym m.1) past)
