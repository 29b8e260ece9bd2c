-- ===== src/Prelude/Outcome.antt =====
-- The outcome of running code that may wait for a lock or panic.

-- `blocked` is a future that stays pending, such as the wait for a lock that is held.
pub data Run {ℓ} (A : Type ℓ) : Type ℓ where
  ok : A → Run A
  blocked : Run A
  panicked : Run A

infixl 5 ◌>>=◌
abbrev pub ◌>>=◌ {ℓ κ} : {A : Type ℓ} {B : Type κ} → Run A → (A → Run B) → Run B
ok a >>= f = f a
blocked >>= f = blocked
panicked >>= f = panicked
