-- ===== src/Macros/Expansion.antt =====
-- What a function is when all its attribute macros are expanded (crates/macros/src/lib.rs, crates/log/src/lib.rs).
use atoman_rs.Prelude.{
  ◌≡◌, ◌∙◌, refl, ap, Bool, true, false, List, [], ◌∷◌, ◌+◌, map, Text, if◌then◌else◌, arith,
}
use atoman_rs.Prelude.Result.{success, failure, ◌>>=◌}
use atoman_rs.LogArgs.{LogArg}
use atoman_rs.Macros.{
  Runtime, multi_thread, current_thread, block_on, entered, instrumented, Attr, main, test, log,
  plain_test, other, ItemFn, CompileError, main_must_be_async, test_must_be_async, Expanded,
  expand_main, expand_test, expand_emitted, field_formatted, log_body, expand_log, expand_attr,
  expand,
}
use atoman_rs.Macros.Parts.{
  statements, spans, runtimes, asks, asked, logged, inputs_left, allowed, Outcome,
}

none_left : (as' : List Attr) → inputs_left as' [] ≡ []
none_left [] = refl
none_left (main ∷ as') = refl
none_left (test ∷ as') = refl
none_left (log args ∷ as') = none_left as'
none_left (plain_test ∷ as') = none_left as'
none_left (other a ∷ as') = none_left as'

-- One attribute makes `f'` of `f`.
record IsStep (shadowed : Bool) (a : Attr) (as' : List Attr) (f f' : ItemFn) : Type 0 where
  count : asks shadowed (a ∷ as') + allowed f' ≡ asks shadowed as' + allowed f
  ident : f'.ident ≡ f.ident
  output : f'.output ≡ f.output
  statements : statements f'.block ≡ statements f.block
  spans : logged f'.ident as' (spans f'.block) ≡ logged f.ident (a ∷ as') (spans f.block)
  runtimes : asked as' (runtimes f'.block) ≡ asked (a ∷ as') (runtimes f.block)
  inputs : inputs_left as' f'.inputs ≡ inputs_left (a ∷ as') f.inputs

step-Outcome :
    (shadowed : Bool) (a : Attr) (as' : List Attr) (f f' : ItemFn) (r : Expanded)
    → IsStep shadowed a as' f f'
    → Outcome shadowed as' f' r
    → Outcome shadowed (a ∷ as') f r
step-Outcome shadowed a as' f f' (success g) st o = record {
  fits = omega (arith, st.count, o.fits);
  left = omega (arith, st.count, o.left);
  ident = o.ident ∙ st.ident;
  output = o.output ∙ st.output;
  statements = o.statements ∙ st.statements;
  spans = o.spans ∙ st.spans;
  runtimes = o.runtimes ∙ st.runtimes;
  inputs = o.inputs ∙ st.inputs;
}
step-Outcome shadowed a as' f f' (failure e) st o = omega (arith, st.count, o)

one_allowed : (f : ItemFn) → f.is_async ≡ true → allowed f ≡ 1
one_allowed f is = ap (λ b. if b then 1 else 0) is

none_allowed : (f : ItemFn) → f.is_async ≡ false → allowed f ≡ 0
none_allowed f is = ap (λ b. if b then 1 else 0) is

-- The function that a runtime is put in.
abbrev started : Runtime → ItemFn → List Attr → Text → ItemFn
started r f attrs vis = record {
  attrs = attrs;
  vis = vis;
  is_async = false;
  ident = f.ident;
  inputs = [];
  output = f.output;
  block = block_on r f.block;
}

runtime-Outcome :
    (shadowed : Bool) (a : Attr) (as' : List Attr) (f f' : ItemFn) (e : CompileError)
    → asks shadowed (a ∷ as') ≡ 1 + asks shadowed as'
    → (f.is_async ≡ true → IsStep shadowed a as' f f')
    → Outcome shadowed as' f' (expand shadowed as' f')
    → Outcome shadowed
        (a ∷ as')
        f
        ((if f.is_async then success f' else failure e) >>= expand shadowed as')
runtime-Outcome shadowed a as' f f' e one st o = at f.is_async refl
  where
    at :
        (b : Bool)
        → f.is_async ≡ b
        → Outcome shadowed
            (a ∷ as')
            f
            ((if b then success f' else failure e) >>= expand shadowed as')
    at true is = step-Outcome shadowed a as' f f' (expand shadowed as' f') (st is) o
    at false is = omega (arith, one, none_allowed f is)

log_body-parts :
    (args : List LogArg) (f : ItemFn)
    → let b = log_body args f in
      (statements b ≡ statements f.block)
      × (spans b ≡ (f.ident, map field_formatted args) ∷ spans f.block)
      × (runtimes b ≡ runtimes f.block)
unfolding log_body
log_body-parts args f = at f.is_async
  where
    at :
        (c : Bool)
        → let b =
            if c
            then instrumented f.ident (map field_formatted args) f.block
            else entered f.ident (map field_formatted args) f.block in
          (statements b ≡ statements f.block)
          × (spans b ≡ (f.ident, map field_formatted args) ∷ spans f.block)
          × (runtimes b ≡ runtimes f.block)
    at true = (refl, refl, refl)
    at false = (refl, refl, refl)

-- The `#[test]` that is emitted is kept, or it is the macro on a function that is not async.
test-Outcome :
    (shadowed : Bool) (as' : List Attr) (f : ItemFn)
    → Outcome false as'
        (started current_thread f (plain_test ∷ f.attrs) [])
        (expand false as' (started current_thread f (plain_test ∷ f.attrs) []))
    → Outcome shadowed (test ∷ as') f (expand_attr shadowed test f >>= expand shadowed as')
unfolding expand_attr expand_test expand_emitted
test-Outcome false as' f o = at f.is_async refl
  where
    at :
        (b : Bool)
        → f.is_async ≡ b
        → Outcome false (test ∷ as') f (
            ((if b
                then success (started current_thread f (plain_test ∷ f.attrs) [])
                else failure (test_must_be_async f.ident))
              >>= expand_emitted false f.attrs)
            >>= expand false as')
    at true is =
        step-Outcome false test as' f (started current_thread f (plain_test ∷ f.attrs) [])
          (expand false as' (started current_thread f (plain_test ∷ f.attrs) []))
          (record {
            count = omega (arith, one_allowed f is);
            ident = refl;
            output = refl;
            statements = refl;
            spans = refl;
            runtimes = refl;
            inputs = none_left as';
          })
          o
    at false is = omega (arith, none_allowed f is)
test-Outcome true as' f o = at f.is_async refl
  where
    at :
        (b : Bool)
        → f.is_async ≡ b
        → Outcome true (test ∷ as') f (
            ((if b
                then success (started current_thread f (test ∷ f.attrs) [])
                else failure (test_must_be_async f.ident))
              >>= expand_emitted true f.attrs)
            >>= expand true as')
    at true is = omega (arith, one_allowed f is)
    at false is = omega (arith, none_allowed f is)

-- Whatever attributes a function has, in whatever order: their expansion is an error exactly if more of them
-- ask for a runtime than the function allows, one if it is async and none otherwise; if the name `test` is the
-- macro's where the function stands, a `test` asks for two, as what it emits is the macro again. If it is none, the
-- function has its name and return type, the statements once, a span for every `log` with its fields, those
-- of later attributes around those of earlier ones, and the runtime; with a runtime it is not async and
-- has lost its parameters.
pub expand-Outcome :
    (shadowed : Bool) (as' : List Attr) (f : ItemFn)
    → Outcome shadowed as' f (expand shadowed as' f)
unfolding expand expand_attr expand_main expand_log
expand-Outcome shadowed [] f = record {
  fits = omega arith;
  left = omega arith;
  ident = refl;
  output = refl;
  statements = refl;
  spans = refl;
  runtimes = refl;
  inputs = refl;
}
expand-Outcome shadowed (main ∷ as') f =
    let f' = started multi_thread f f.attrs f.vis in
    runtime-Outcome shadowed main as' f f' (main_must_be_async f.ident) refl
      (λ is. record {
        count = omega (arith, one_allowed f is);
        ident = refl;
        output = refl;
        statements = refl;
        spans = refl;
        runtimes = refl;
        inputs = none_left as';
      })
      (expand-Outcome shadowed as' f')
expand-Outcome shadowed (test ∷ as') f =
    test-Outcome shadowed as' f
      (expand-Outcome false as' (started current_thread f (plain_test ∷ f.attrs) []))
expand-Outcome shadowed (log args ∷ as') f =
    let f' = expand_log args f in
    let (same, around, apart) = log_body-parts args f in
    step-Outcome shadowed (log args) as' f f' (expand shadowed as' f')
      (record {
        count = refl;
        ident = refl;
        output = refl;
        statements = same;
        spans = ap (logged f.ident as') around;
        runtimes = ap (asked as') apart;
        inputs = refl;
      })
      (expand-Outcome shadowed as' f')
expand-Outcome shadowed (plain_test ∷ as') f =
    let f' = record f { attrs = plain_test ∷ f.attrs } in
    step-Outcome shadowed plain_test as' f f' (expand shadowed as' f')
      (record {
        count = refl;
        ident = refl;
        output = refl;
        statements = refl;
        spans = refl;
        runtimes = refl;
        inputs = refl;
      })
      (expand-Outcome shadowed as' f')
expand-Outcome shadowed (other a ∷ as') f =
    let f' = record f { attrs = other a ∷ f.attrs } in
    step-Outcome shadowed (other a) as' f f' (expand shadowed as' f')
      (record {
        count = refl;
        ident = refl;
        output = refl;
        statements = refl;
        spans = refl;
        runtimes = refl;
        inputs = refl;
      })
      (expand-Outcome shadowed as' f')
