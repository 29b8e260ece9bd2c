-- ===== src/Trace/Filters.antt =====
-- What passes the filters of `FilterEngine` (src/trace/mod.rs).
use atoman_rs.Prelude.{
  Text, Every, ◌≡◌, ◌↔◌, ◌⊎◌, inl, inr, refl, ap, sym, ◌∙◌, Bool, true, false, not, ◌&&◌, Option,
  none, some, List, [], ◌∷◌, ◌++◌, length, drop, if◌then◌else◌, arith, Bool-cases,
}
use atoman_rs.File.Window.{starts_with, starts_with-split}
use atoman_rs.Trace.{
  Regexes, FilterEngine, contains, plain, quoted, spaced, kv_match, regex_match, matches,
  compile_all, new,
}

-- A text occurs in another one.
abbrev pub Occurs : Text → Text → Type 0
Occurs p text = (before after : Text) × (text ≡ before ++ p ++ after)

starts_with_self : (p after : Text) → starts_with p (p ++ after) ≡ true
unfolding starts_with
starts_with_self [] after = refl
starts_with_self (c ∷ cs) after = ground (arith, starts_with_self cs after)

part_of_contains : (text p : Text) → contains text p ≡ true → Occurs p text
unfolding contains
part_of_contains [] p h = ([], drop (length p) [], starts_with-split p [] h)
part_of_contains (c ∷ cs) p h = elim (Bool-cases (starts_with p (c ∷ cs))) [
  | inl here ↦ ([], drop (length p) (c ∷ cs), starts_with-split p (c ∷ cs) here)
  | inr away ↦
      let (before, after, e) = part_of_contains cs p (ground (arith, away)) in
      (c ∷ before, after, ap (λ l. c ∷ l) e)
]

contains_of_part : (before p after : Text) → contains (before ++ p ++ after) p ≡ true
unfolding contains starts_with
contains_of_part [] p after = front p after
  where
    front : (p after : Text) → contains (p ++ after) p ≡ true
    front [] [] = refl
    front [] (c ∷ cs) = refl
    front (c ∷ cs) after = rw (starts_with_self (c ∷ cs) after) refl
contains_of_part (c ∷ before) p after = ground (arith, contains_of_part before p after)

-- `str::contains` holds exactly for the parts of a text.
pub contains-Occurs : (text p : Text) → (contains text p ≡ true) ↔ Occurs p text
contains-Occurs text p = (part_of_contains text p, λ o. rw (o.2) (contains_of_part o.0 p o.1))

-- A pair occurs in one of the forms in which the filter looks for it.
abbrev pub HasPair : Text → Text × Text → Type 0
HasPair text (k, v) = Occurs (plain k v) text ⊎ Occurs (quoted k v) text ⊎ Occurs (spaced k v) text

one_of :
    (a b c r : Bool)
    → (if not a && (not b && not c) then false else r) ≡ true
    → (a ≡ true ⊎ b ≡ true ⊎ c ≡ true) × (r ≡ true)
one_of true b c r h = (inl refl, h)
one_of false true c r h = (inr (inl refl), h)
one_of false false true r h = (inr (inr refl), h)
one_of false false false r h = cc

from_one :
    (a b c : Bool) {r : Bool}
    → (a ≡ true ⊎ b ≡ true ⊎ c ≡ true)
    → r ≡ true
    → (if not a && (not b && not c) then false else r) ≡ true
from_one true b c one h = h
from_one false true c one h = h
from_one false false true one h = h
from_one false false false one h = ground (arith, one)

kv_match-Every :
    (text : Text) (kvs : List (Text × Text)) → (kv_match text kvs ≡ true) ↔ Every (HasPair text) kvs
unfolding kv_match
kv_match-Every text [] = (λ h. tt, λ h. refl)
kv_match-Every text ((k, v) ∷ kvs) =
    let (forth, back) = kv_match-Every text kvs in
    let a = contains text (plain k v) in
    let b = contains text (quoted k v) in
    let c = contains text (spaced k v) in
    let found : (p : Text) → (contains text p ≡ true) ↔ Occurs p text = contains-Occurs text in
    (
      λ h.
          let (one, rest) = one_of a b c (kv_match text kvs) h in
          (
            elim one [
              | inl x ↦ inl ((found (plain k v)).0 x)
              | inr (inl y) ↦ inr (inl ((found (quoted k v)).0 y))
              | inr (inr z) ↦ inr (inr ((found (spaced k v)).0 z))
            ],
            forth rest,
          ),
      λ h.
          from_one a b c
            (elim h.0 [
              | inl x ↦ inl ((found (plain k v)).1 x)
              | inr (inl y) ↦ inr (inl ((found (quoted k v)).1 y))
              | inr (inr z) ↦ inr (inr ((found (spaced k v)).1 z))
            ])
            (back h.1),
    )

module _ (X : Regexes) where
  open X use {Regex, compile, is_match}

  -- A pattern that compiles matches.
  abbrev pub Fits : Text → Option Regex → Type 0
  Fits text none = Unit
  Fits text (some re) = is_match re text ≡ true

  abbrev pub Matches : Text → Text → Type 0
  Matches text p = Fits text (compile p)

  abbrev with_regex : Option Regex → List Regex → List Regex
  with_regex none res = res
  with_regex (some re) res = re ∷ res

  compile_all-cons :
      (p : Text) (ps : List Text)
      → compile_all X (p ∷ ps) ≡ with_regex (compile p) (compile_all X ps)
  unfolding compile_all
  compile_all-cons p ps = at (compile p)
    where
      at :
          (o : Option Regex)
          → elim o [ none ↦ compile_all X ps | some re ↦ re ∷ compile_all X ps ]
            ≡ with_regex o (compile_all X ps)
      at none = refl
      at (some re) = refl

  regex_match-Every :
      (text : Text) (ps : List Text)
      → (regex_match X text (compile_all X ps) ≡ true) ↔ Every (Matches text) ps
  unfolding regex_match compile_all
  regex_match-Every text [] = (λ h. tt, λ h. refl)
  regex_match-Every text (p ∷ ps) =
      rw (compile_all-cons p ps) (with_compiled (compile p) (regex_match-Every text ps))
    where
      with_compiled :
          (o : Option Regex)
          → (regex_match X text (compile_all X ps) ≡ true) ↔ Every (Matches text) ps
          → (regex_match X text (with_regex o (compile_all X ps)) ≡ true)
            ↔ (Fits text o × Every (Matches text) ps)
      with_compiled none (forth, back) = (λ h. (tt, forth h), λ h. back h.1)
      with_compiled (some re) (forth, back) = (
        λ h. elim (Bool-cases (is_match re text)) [
          | inl fits ↦ (fits, forth (ground (arith, h, fits)))
          | inr fails ↦ ground (arith, h, fails)
        ],
        λ h. rw h.0 (back h.1),
      )

  matches-parts :
      (e : FilterEngine X) (text : Text)
      → matches X e text ≡ kv_match text e.kv_filters && regex_match X text e.regexes
  unfolding matches kv_match regex_match
  matches-parts e text = at e.regexes e.kv_filters
    where
      both : (a b : Bool) → (if a then b else false) ≡ (a && b)
      both true b = refl
      both false b = refl

      at :
          (res : List Regex) (kvs : List (Text × Text))
          → matches X (record { regexes = res; kv_filters = kvs }) text
            ≡ (kv_match text kvs && regex_match X text res)
      at [] [] = refl
      at [] (kv ∷ kvs) = both (kv_match text (kv ∷ kvs)) true
      at (re ∷ res) kvs = both (kv_match text kvs) (regex_match X text (re ∷ res))

  -- A text passes the filters made from patterns and pairs if and only if every pair occurs in it in
  -- one of the three forms and every pattern that compiles matches it.
  pub matches-new :
      (text : Text) (raw_patterns : List Text) (kv_pairs : List (Text × Text))
      → (matches X (new X raw_patterns kv_pairs) text ≡ true)
        ↔ (Every (HasPair text) kv_pairs × Every (Matches text) raw_patterns)
  unfolding new
  matches-new text raw_patterns kv_pairs =
      let kv = kv_match-Every text kv_pairs in
      let re = regex_match-Every text raw_patterns in
      let parts = matches-parts (new X raw_patterns kv_pairs) text in
      (
        λ h. let two = and_true (sym parts ∙ h) in (kv.0 two.0, re.0 two.1),
        λ h. parts ∙ rw (kv.1 h.0, re.1 h.1) refl,
      )
    where
      and_true : {a b : Bool} → (a && b) ≡ true → (a ≡ true) × (b ≡ true)
      and_true h = ground (arith, h)
