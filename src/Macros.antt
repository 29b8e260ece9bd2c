-- ===== src/Macros.antt =====
-- The attribute macros `main` and `test` (crates/macros/src/lib.rs) and `log` (crates/log/src/lib.rs), on a
-- function as syn reads it.
--
-- The text of a name, type, expression or statement list is a `Text`. What quote puts around the function's
-- statements is a constructor of `Block`. The compiler gives an attribute macro the function without that
-- attribute and with those that follow; it expands them in that order. Whether the name `test`, where the function
-- stands, is that of the macro or of the standard library's attribute, is the parameter `shadowed`.
pub mod Parts
pub mod Expansion
use atoman_rs.Prelude.{
  Bool, true, false, Option, none, some, List, [], ◌∷◌, map, Text, if◌then◌else◌,
}
use atoman_rs.Prelude.Result.{Result, success, failure, ◌>>=◌}
use atoman_rs.LogArgs.{ident, FieldVal, debug, LogArg, simple, kv}

pub data Runtime : Type 0 where
  multi_thread : Runtime
  current_thread : Runtime

-- A field of `info_span!`: its name, and the expression, in parentheses, with `%`, `?` or nothing before it.
abbrev pub Field : Type 0
Field = Text × FieldVal

-- The statements that the user wrote; a runtime that runs an async block of some; some in an entered span,
-- up to the guard's drop; an async block of some that is instrumented with a span.
pub data Block : Type 0 where
  user : Text → Block
  block_on : Runtime → Block → Block
  entered : Text → List Field → Block → Block
  instrumented : Text → List Field → Block → Block

-- `test` is the macro, by whatever path; `plain_test` is the standard library's `#[test]`.
pub data Attr : Type 0 where
  main : Attr
  test : Attr
  log : List LogArg → Attr
  plain_test : Attr
  other : Text → Attr

pub record ItemFn : Type 0 where
  pub attrs : List Attr
  pub vis : Text
  pub is_async : Bool
  pub ident : Text
  pub inputs : List Text
  pub output : Text
  pub block : Block

pub data CompileError : Type 0 where
  main_must_be_async : Text → CompileError
  test_must_be_async : Text → CompileError

abbrev pub Expanded : Type 0
Expanded = Result CompileError ItemFn

-- The attributes, the visibility, the name and the return type stay.
unfoldable pub expand_main : ItemFn → Expanded
expand_main input =
    if input.is_async
    then success (record {
      attrs = input.attrs;
      vis = input.vis;
      is_async = false;
      ident = input.ident;
      inputs = [];
      output = input.output;
      block = block_on multi_thread input.block;
    })
    else failure (main_must_be_async input.ident)

-- What `#[test]` means.
abbrev pub test_attr : Bool → Attr
test_attr shadowed = if shadowed then test else plain_test

-- The visibility goes, and there is one more attribute, before the others.
unfoldable pub expand_test : Bool → ItemFn → Expanded
expand_test shadowed input =
    if input.is_async
    then success (record {
      attrs = test_attr shadowed ∷ input.attrs;
      vis = [];
      is_async = false;
      ident = input.ident;
      inputs = [];
      output = input.output;
      block = block_on current_thread input.block;
    })
    else failure (test_must_be_async input.ident)

unfoldable pub field_formatted : LogArg → Field
field_formatted (simple i) = (i, debug (ident i ∷ []))
field_formatted (kv key val) = (key, val)

unfoldable pub log_body : List LogArg → ItemFn → Block
unfolding field_formatted
log_body args input =
    if input.is_async
    then instrumented input.ident (map field_formatted args) input.block
    else entered input.ident (map field_formatted args) input.block

unfoldable pub expand_log : List LogArg → ItemFn → ItemFn
unfolding log_body
expand_log args input = record input { block = log_body args input }

-- The `#[test]` that `expand_test` has emitted is the first attribute of the function. If it is the macro, it
-- is expanded.
unfoldable pub expand_emitted : Bool → List Attr → ItemFn → Expanded
unfolding expand_test
expand_emitted shadowed kept f =
    if shadowed then expand_test shadowed (record f { attrs = kept }) else success f

-- One attribute; those that are no macros of the repository are kept.
unfoldable pub expand_attr : Bool → Attr → ItemFn → Expanded
unfolding expand_main expand_test expand_emitted expand_log
expand_attr shadowed main input = expand_main input
expand_attr shadowed test input = expand_test shadowed input >>= expand_emitted shadowed input.attrs
expand_attr shadowed (log args) input = success (expand_log args input)
expand_attr shadowed plain_test input = success (record input { attrs = plain_test ∷ input.attrs })
expand_attr shadowed (other a) input = success (record input { attrs = other a ∷ input.attrs })

-- All the attributes, from the first one. `input.attrs` are those that are kept.
unfoldable pub expand : Bool → List Attr → ItemFn → Expanded
unfolding expand_attr
expand shadowed [] input = success input
expand shadowed (a ∷ as') input = expand_attr shadowed a input >>= expand shadowed as'
