-- ===== src/File/Finding/Among.antt =====
-- What stands in the lists of entries that src/file/dir.rs filters and joins.
use atoman_rs.Prelude.{
  ◌≡◌, refl, ap, Bool, true, false, ◌&&◌, List, [], ◌∷◌, ◌++◌, map, if◌then◌else◌,
}
use atoman_rs.File.Dir.{keep}
use atoman_rs.File.Finding.Below.{Among, first, later}

module _ {A : Type 0} where
  pub Among-left : (x : A) (xs ys : List A) → Among x xs → Among x (xs ++ ys)
  Among-left x [] ys m = elim m [ ]
  Among-left x (y ∷ xs) ys first = first
  Among-left x (y ∷ xs) ys (later m) = later (Among-left x xs ys m)

  pub Among-right : (x : A) (xs ys : List A) → Among x ys → Among x (xs ++ ys)
  Among-right x [] ys m = m
  Among-right x (y ∷ xs) ys m = later (Among-right x xs ys m)

  pub Among-keep :
      (p : A → Bool) (x : A) (xs : List A) → Among x xs → p x ≡ true → Among x (keep p xs)
  Among-keep p x [] m h = elim m [ ]
  Among-keep p x (y ∷ xs) first h = rw h first
  Among-keep p x (y ∷ xs) (later m) h = at (Among-keep p x xs m h) (p y)
    where
      at : Among x (keep p xs) → (b : Bool) → Among x (if b then y ∷ keep p xs else keep p xs)
      at up true = later up
      at up false = up

  -- Two conditions after one another are their conjunction.
  pub keep-keep : (p q : A → Bool) (xs : List A) → keep p (keep q xs) ≡ keep (λ x. q x && p x) xs
  keep-keep p q [] = refl
  keep-keep p q (x ∷ xs) = at (keep-keep p q xs) (q x)
    where
      at :
          keep p (keep q xs) ≡ keep (λ x. q x && p x) xs
          → (b : Bool)
          → keep p (if b then x ∷ keep q xs else keep q xs)
            ≡ (if b && p x then x ∷ keep (λ x. q x && p x) xs else keep (λ x. q x && p x) xs)
      at same true = ap (λ zs. if p x then x ∷ zs else zs) same
      at same false = same

pub Among-map :
    {A B : Type 0} (f : A → B) (x : A) (xs : List A) → Among x xs → Among (f x) (map f xs)
Among-map f x [] m = elim m [ ]
Among-map f x (y ∷ xs) first = first
Among-map f x (y ∷ xs) (later m) = later (Among-map f x xs m)
