-- ===== src/Macros/Parts.antt =====
-- What can be asked of a function and of its attributes (crates/macros/src/lib.rs, crates/log/src/lib.rs): its
-- spans, its runtimes, and what the attributes ask for.
use atoman_rs.Prelude.{ℕ, Bool, ◌≡◌, List, [], ◌∷◌, ◌+◌, ◌<◌, ◌≤◌, map, Text, if◌then◌else◌}
use atoman_rs.Prelude.Result.{success, failure}
use atoman_rs.Macros.{
  Field, Runtime, multi_thread, current_thread, Block, user, block_on, entered, instrumented, Attr,
  main, test, log, plain_test, other, ItemFn, Expanded, field_formatted,
}

-- The user's statements in a block, its spans and its runtimes, the outer ones first.
abbrev pub statements : Block → Text
statements (user b) = b
statements (block_on r b) = statements b
statements (entered name fields b) = statements b
statements (instrumented name fields b) = statements b

abbrev pub spans : Block → List (Text × List Field)
spans (user b) = []
spans (block_on r b) = spans b
spans (entered name fields b) = (name, fields) ∷ spans b
spans (instrumented name fields b) = (name, fields) ∷ spans b

abbrev pub runtimes : Block → List Runtime
runtimes (user b) = []
runtimes (block_on r b) = r ∷ runtimes b
runtimes (entered name fields b) = runtimes b
runtimes (instrumented name fields b) = runtimes b

-- How many of the attributes ask for a runtime, a `test` again if what it emits is the macro, and which runtimes and spans the attributes put around some.
abbrev pub asks : Bool → List Attr → ℕ
asks shadowed [] = 0
asks shadowed (main ∷ as') = 1 + asks shadowed as'
asks shadowed (test ∷ as') = (if shadowed then 2 else 1) + asks shadowed as'
asks shadowed (log args ∷ as') = asks shadowed as'
asks shadowed (plain_test ∷ as') = asks shadowed as'
asks shadowed (other a ∷ as') = asks shadowed as'

abbrev pub asked : List Attr → List Runtime → List Runtime
asked [] rs = rs
asked (main ∷ as') rs = asked as' (multi_thread ∷ rs)
asked (test ∷ as') rs = asked as' (current_thread ∷ rs)
asked (log args ∷ as') rs = asked as' rs
asked (plain_test ∷ as') rs = asked as' rs
asked (other a ∷ as') rs = asked as' rs

abbrev pub logged : Text → List Attr → List (Text × List Field) → List (Text × List Field)
logged name [] ss = ss
logged name (main ∷ as') ss = logged name as' ss
logged name (test ∷ as') ss = logged name as' ss
logged name (log args ∷ as') ss = logged name as' ((name, map field_formatted args) ∷ ss)
logged name (plain_test ∷ as') ss = logged name as' ss
logged name (other a ∷ as') ss = logged name as' ss

-- The parameters, which a runtime takes away.
abbrev pub inputs_left : List Attr → List Text → List Text
inputs_left [] ps = ps
inputs_left (main ∷ as') ps = []
inputs_left (test ∷ as') ps = []
inputs_left (log args ∷ as') ps = inputs_left as' ps
inputs_left (plain_test ∷ as') ps = inputs_left as' ps
inputs_left (other a ∷ as') ps = inputs_left as' ps

-- The runtimes that the function may still be given.
abbrev pub allowed : ItemFn → ℕ
allowed f = if f.is_async then 1 else 0

-- The function that comes out.
pub record IsExpanded (shadowed : Bool) (as' : List Attr) (f g : ItemFn) : Type 0 where
  pub fits : asks shadowed as' ≤ allowed f
  pub left : allowed g + asks shadowed as' ≡ allowed f
  pub ident : g.ident ≡ f.ident
  pub output : g.output ≡ f.output
  pub statements : statements g.block ≡ statements f.block
  pub spans : spans g.block ≡ logged f.ident as' (spans f.block)
  pub runtimes : runtimes g.block ≡ asked as' (runtimes f.block)
  pub inputs : g.inputs ≡ inputs_left as' f.inputs

abbrev pub Outcome : Bool → List Attr → ItemFn → Expanded → Type 0
Outcome shadowed as' f (success g) = IsExpanded shadowed as' f g
Outcome shadowed as' f (failure e) = allowed f < asks shadowed as'
