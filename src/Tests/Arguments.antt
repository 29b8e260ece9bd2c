-- ===== src/Tests/Arguments.antt =====
-- The arguments of the attribute `log` at a concrete input (crates/log/src/lib.rs).
use atoman_rs.Prelude.{◌≡◌, refl, List, [], ◌∷◌}
use atoman_rs.Prelude.Result.{success}
use atoman_rs.LogArgs.{Token, ident, punct, LogArg, kv, display, parse, parse-written}

-- "id = %user.id, age": the argument before the comma, and what follows.
abbrev argument : LogArg
argument = kv (105 ∷ []) (display (ident (117 ∷ []) ∷ punct b'.' ∷ ident (105 ∷ []) ∷ []))

abbrev following : List Token
following = punct b',' ∷ ident (97 ∷ []) ∷ []

parse-written_example :
    parse (
      ident (105 ∷ [])
      ∷ (punct b'='
          ∷ (punct b'%' ∷ (ident (117 ∷ []) ∷ (punct b'.' ∷ (ident (105 ∷ []) ∷ following))))))
    ≡ success (argument, following)
parse-written_example = parse-written argument following (refl, (refl, (refl, tt))) refl
