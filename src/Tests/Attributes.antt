-- ===== src/Tests/Attributes.antt =====
-- Attribute macros at concrete inputs (crates/macros/src/lib.rs, crates/log/src/lib.rs).
use atoman_rs.Prelude.{◌≡◌, refl, true, false, [], ◌∷◌}
use atoman_rs.Prelude.Result.{success, failure}
use atoman_rs.LogArgs.{ident, debug, simple}
use atoman_rs.Macros.{
  current_thread, user, block_on, instrumented, main, test, log, plain_test, ItemFn,
  main_must_be_async, test_must_be_async, expand_main, expand_test, expand_emitted, field_formatted,
  log_body, expand_log, expand_attr, expand,
}
use atoman_rs.Macros.Parts.{Outcome}
use atoman_rs.Macros.Expansion.{expand-Outcome}

-- `async fn f(x) { b }`.
abbrev written : ItemFn
written = record {
  attrs = [];
  vis = [];
  is_async = true;
  ident = b'f' ∷ [];
  inputs = (b'x' ∷ []) ∷ [];
  output = [];
  block = user (b'b' ∷ []);
}

-- The span is in the runtime.
log-test-expanded :
    expand false (log (simple (b'x' ∷ []) ∷ []) ∷ test ∷ []) written
    ≡ success (record {
      attrs = plain_test ∷ [];
      vis = [];
      is_async = false;
      ident = b'f' ∷ [];
      inputs = [];
      output = [];
      block = block_on current_thread (
          instrumented
            (b'f' ∷ [])
            ((b'x' ∷ [], debug (ident (b'x' ∷ []) ∷ [])) ∷ [])
            (user (b'b' ∷ [])));
    })
unfolding expand expand_attr expand_test expand_emitted expand_log log_body field_formatted
log-test-expanded = refl

test-main-expanded :
    expand false (test ∷ main ∷ []) written ≡ failure (main_must_be_async (b'f' ∷ []))
unfolding expand expand_attr expand_test expand_emitted expand_main
test-main-expanded = refl

-- An imported `test` macro finds its own `#[test]`.
test-shadowed : expand true (test ∷ []) written ≡ failure (test_must_be_async (b'f' ∷ []))
unfolding expand expand_attr expand_test expand_emitted
test-shadowed = refl

expand-Outcome_example :
    Outcome false
      (log (simple (b'x' ∷ []) ∷ []) ∷ test ∷ [])
      written
      (expand false (log (simple (b'x' ∷ []) ∷ []) ∷ test ∷ []) written)
expand-Outcome_example = expand-Outcome false (log (simple (b'x' ∷ []) ∷ []) ∷ test ∷ []) written
