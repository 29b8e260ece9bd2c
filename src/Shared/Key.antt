-- ===== src/Shared/Key.antt =====
-- What `SharedMap` and `SharedSet` ask of a key type: `Eq` and `Hash`, and a seeded hasher.
use atoman_rs.Prelude.{ℕ, Bool, true, ◌≡◌, arith}

-- Keys that are equal in this sense need not be the same value. `hash` is what the hasher of a
-- `RandomState` makes of a key; its first argument is the state's seed.
pub record Key {ℓ} (K : Type ℓ) : Type ℓ where
  pub same : K → K → Bool
  pub hash : ℕ → K → ℕ
  pub same_refl : (a : K) → same a a ≡ true
  pub same_symm : (a b : K) → same a b ≡ same b a
  pub same_trans : (a b c : K) → same a b ≡ true → same b c ≡ true → same a c ≡ true
  pub hash-same : (seed : ℕ) (a b : K) → same a b ≡ true → hash seed a ≡ hash seed b

module _ {ℓ} {K : Type ℓ} ⦃key : Key K⦄ where
  -- Equal keys compare alike with any third.
  pub same_left : (a b c : K) → key.same a b ≡ true → key.same a c ≡ key.same b c
  same_left a b c e = ground (arith, key.same_symm a b, key.same_trans a b c, key.same_trans b a c)

  pub same_right : (a b c : K) → key.same a b ≡ true → key.same c a ≡ key.same c b
  same_right a b c e = ground (arith, key.same_symm c a, key.same_symm c b, same_left a b c e)
