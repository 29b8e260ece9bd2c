-- ===== src/Logger.antt =====
-- src/logger/mod.rs: the logger's levels and its shared state.
--
-- A text is the list of its characters; the tracing, chrono and tokio crates are interfaces.
pub mod Layer
pub mod Disk
pub mod Worker
pub mod Bounds
pub mod Answers
pub mod Client
pub mod Growth
pub mod Session
pub mod Durable
pub mod Stages
pub mod Console
pub mod Delivery
pub mod Rotation
pub mod Lines
use atoman_rs.Prelude.{
  ℕ, zero, suc, ◌≤◌, ◌≡◌, ◌↔◌, refl, arith, Bool, true, false, Option, none, some, List, [], ◌∷◌,
  leb,
}
use atoman_rs.State.Update.{through_guard}

-- `tracing::Level`.
pub data Level : Type 0 where
  error warn info debug trace : Level

-- The numbers that `set_level` stores; the order of `Level` itself, the most severe first, is theirs.
abbrev pub rank : Level → ℕ
rank error = 1
rank warn = 2
rank info = 3
rank debug = 4
rank trace = 5

unfoldable pub level_of : ℕ → Level
level_of (suc zero) = error
level_of (suc (suc zero)) = warn
level_of (suc (suc (suc (suc zero)))) = debug
level_of (suc (suc (suc (suc (suc zero))))) = trace
level_of n = info

-- `LOGGER_STATE`, whose sender is known here only by whether it is there.
pub record LoggerState (FilePath : Type 0) : Type 0 where
  pub level : Option Level
  pub path : Option FilePath
  pub tx : Bool

-- The two statics.
pub record Statics (FilePath : Type 0) : Type 0 where
  pub current_level : ℕ
  pub state : LoggerState FilePath

module _ {FilePath : Type 0} where
  unfoldable pub path : Statics FilePath → Option FilePath
  path s = s.state.path

  unfoldable pub level : Statics FilePath → Level
  unfolding level_of
  level s = level_of s.current_level

  unfoldable pub set_level : Level → Statics FilePath → Statics FilePath
  unfolding through_guard
  set_level l s = record {
    current_level = rank l;
    state = through_guard (λ (st : LoggerState FilePath). record st { level = some l }) s.state;
  }

  -- `Layer::enabled`, for an event of this level.
  unfoldable pub enabled : Level → Statics FilePath → Bool
  unfolding level
  enabled l s = leb (rank l) (rank (level s))

  -- After `set_level` the active level is the one that was set, in both statics, and exactly the events of
  -- that level and of more severe ones are enabled; the path and the sender stay.
  pub set_level-level :
      (l l' : Level) (s : Statics FilePath)
      → (level (set_level l s) ≡ l)
        × ((set_level l s).state ≡ record s.state { level = some l })
        × ((enabled l' (set_level l s) ≡ true) ↔ (rank l' ≤ rank l))
  unfolding level set_level enabled
  set_level-level error l' s = (refl, refl, ground arith)
  set_level-level warn l' s = (refl, refl, ground arith)
  set_level-level info l' s = (refl, refl, ground arith)
  set_level-level debug l' s = (refl, refl, ground arith)
  set_level-level trace l' s = (refl, refl, ground arith)
