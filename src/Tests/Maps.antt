-- ===== src/Tests/Maps.antt =====
-- `SharedMap`, `SharedSet` and their items at concrete inputs (src/shared/).
use native.Mathlib.Omega.{arith}
use atoman_rs.Prelude.{ℕ, ◌+◌, ◌*◌, ◌≡◌, true, some, none, [], ◌∷◌, ◌++◌, ◌==◌, if◌then◌else◌}
use atoman_rs.Shared.Key.{Key}
use atoman_rs.Shared.Item.{Cells, fresh}
use atoman_rs.Shared.Map.{SharedMap, insert, get}
use atoman_rs.Shared.Map.Refinement.{IsValid, item_of, Writes, get-item_of}
use atoman_rs.Shared.Map.Values.{value_of, IsSound, insert-value_of}
use atoman_rs.Shared.Set
use atoman_rs.Shared.Set.{SharedSet}
use atoman_rs.Shared.Set.Refinement.{as_map, element_of, element-insert}

same_refl : (a : ℕ) → (a == a) ≡ true
same_refl a = ground arith

same_symm : (a b : ℕ) → (a == b) ≡ (b == a)
same_symm a b = ground arith

same_trans : (a b c : ℕ) → (a == b) ≡ true → (b == c) ≡ true → (a == c) ≡ true
same_trans a b c p q = ground arith

hash-same : (seed a b : ℕ) → (a == b) ≡ true → seed + a * 31 ≡ seed + b * 31
hash-same seed a b p = ground arith

instance abbrev number_key : Key ℕ
number_key = record {
  same = λ a b. a == b;
  hash = λ seed a. seed + a * 31;
  same_refl = same_refl;
  same_symm = same_symm;
  same_trans = same_trans;
  hash-same = hash-same;
}

abbrev empty : SharedMap ℕ
empty = record { inner = none }

empty-IsSound : IsSound {V = ℕ} empty []
empty-IsSound = record { valid = λ inner e. cc; allocated = λ q a e. cc }

insert-value_of_example :
    let r = insert {V = ℕ} 5 1 10 empty [] in
    IsSound r.1 r.2
    × ((q : ℕ) → value_of r.1 r.2 q ≡ (if q == 1 then some 10 else value_of {V = ℕ} empty [] q))
insert-value_of_example = insert-value_of 5 1 10 empty [] empty-IsSound

abbrev one : SharedMap ℕ
one = (insert {V = ℕ} 5 1 10 empty []).1

abbrev one_cells : Cells ℕ
one_cells = (insert {V = ℕ} 5 1 10 empty []).2

one-IsSound : IsSound one one_cells
one-IsSound = insert-value_of_example.0

get-item_of_example :
    ((get 5 1 one).0 ≡ item_of one 1)
    × ((q : ℕ) → item_of (get 5 1 one).1 q ≡ item_of one q)
    × IsValid (get 5 1 one).1
get-item_of_example = get-item_of 5 one one-IsSound.valid 1

abbrev no_elements : SharedSet ℕ
no_elements = record { inner = none }

element-insert_example :
    let r = Set.insert 5 4 no_elements [] in
    Writes empty 4 (some 0) r.0 (as_map r.1)
    × (r.2 ≡ [] ++ fresh 4 ∷ [])
    × (element_of r.1 4 ≡ some 4)
element-insert_example = element-insert 5 no_elements empty-IsSound.valid 4 []

abbrev four : SharedSet ℕ
four = (Set.insert 5 4 no_elements []).1

four-IsValid : IsValid (as_map four)
four-IsValid = element-insert_example.0.valid

abbrev cell : Cells ℕ
cell = fresh 3 ∷ []
