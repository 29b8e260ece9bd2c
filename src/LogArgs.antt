-- ===== src/LogArgs.antt =====
-- crates/log/src/lib.rs: the parser of one argument of the attribute `log`.
--
-- The stream of syn is the list of the token trees ahead. `ident` is what syn takes for an identifier, `punct` a
-- single punctuation character, `tree` any other token tree. The list of arguments between commas is read by syn.
use atoman_rs.Prelude.{
  ℕ, ◌≡◌, refl, ap, sym, ◌∙◌, subst, Bool, true, false, List, [], ◌∷◌, ◌++◌, Text, ◌==◌,
  if◌then◌else◌, Every, ==_iff,
}
use atoman_rs.Prelude.Result.{Result, success, failure, success_cancel}

pub data Token : Type 0 where
  ident : Text → Token
  punct : ℕ → Token
  tree : Text → Token

pub data FieldVal : Type 0 where
  expr : List Token → FieldVal
  display : List Token → FieldVal
  debug : List Token → FieldVal

pub data LogArg : Type 0 where
  simple : Text → LogArg
  kv : (key : Text) → (val : FieldVal) → LogArg

-- `peek` for a punctuation character.
abbrev pub is_punct : ℕ → Token → Bool
is_punct c (ident i) = false
is_punct c (punct d) = d == c
is_punct c (tree t) = false

-- The tokens up to a comma or the end, and what is left.
unfoldable pub parse_val_tokens : List Token → List Token × List Token
parse_val_tokens [] = ([], [])
parse_val_tokens (t ∷ ts) =
    let more = parse_val_tokens ts in if is_punct b',' t then ([], t ∷ ts) else (t ∷ more.0, more.1)

unfoldable pub parse_val : List Token → FieldVal × List Token
unfolding parse_val_tokens
parse_val [] = (expr [], [])
parse_val (t ∷ ts) =
    let after = parse_val_tokens ts in
    let whole = parse_val_tokens (t ∷ ts) in
    if is_punct b'%' t
    then (display after.0, after.1)
    else if is_punct b'?' t
    then (debug after.0, after.1)
    else (expr whole.0, whole.1)

-- Once the name is read, and the `=` if there is one.
unfoldable pub parse_after : Text → List Token → LogArg × List Token
unfolding parse_val
parse_after key [] = (simple key, [])
parse_after key (t ∷ ts) =
    let (val, rest) = parse_val ts in
    if is_punct b'=' t then (kv key val, rest) else (simple key, t ∷ ts)

-- The argument and what is left, or the error of syn, that there is no identifier.
unfoldable pub parse : List Token → Result (Unit {0}) (LogArg × List Token)
unfolding parse_after
parse [] = failure tt
parse (ident key ∷ ts) = success (parse_after key ts)
parse (punct c ∷ ts) = failure tt
parse (tree t ∷ ts) = failure tt

-- How an argument is written.
abbrev pub written_val : FieldVal → List Token
written_val (expr e) = e
written_val (display e) = punct b'%' ∷ e
written_val (debug e) = punct b'?' ∷ e

abbrev pub written : LogArg → List Token
written (simple i) = ident i ∷ []
written (kv key val) = ident key ∷ (punct b'=' ∷ written_val val)

-- No comma stands in it.
abbrev pub IsOpen : List Token → Type 0
IsOpen = Every (λ t. is_punct b',' t ≡ false)

-- It starts with neither mark.
abbrev pub IsPlain : List Token → Type 0
IsPlain [] = Unit
IsPlain (t ∷ ts) = (is_punct b'%' t ≡ false) × (is_punct b'?' t ≡ false)

-- What can be read back: no comma in a value, and no mark in front of one that has none.
abbrev pub IsWritable : LogArg → Type 0
IsWritable (simple i) = Unit
IsWritable (kv key (expr e)) = IsOpen e × IsPlain e
IsWritable (kv key (display e)) = IsOpen e
IsWritable (kv key (debug e)) = IsOpen e

-- What follows an argument: the end, or a comma.
abbrev pub IsNext : List Token → Type 0
IsNext [] = Unit
IsNext (t ∷ ts) = is_punct b',' t ≡ true

parse_val_tokens-append :
    (e after : List Token) → IsOpen e → IsNext after → parse_val_tokens (e ++ after) ≡ (e, after)
unfolding parse_val_tokens
parse_val_tokens-append [] [] o n = refl
parse_val_tokens-append [] (t ∷ ts) o n = rw n refl
parse_val_tokens-append (t ∷ e) after (o, os) n = rw (o, parse_val_tokens-append e after os n) refl

is_punct_lem : (c : ℕ) (t : Token) → is_punct c t ≡ true → t ≡ punct c
is_punct_lem c (ident i) h = cc
is_punct_lem c (punct d) h = ap punct ((==_iff d c).0 h)
is_punct_lem c (tree x) h = cc

parse_val-IsNext : (after : List Token) → IsNext after → parse_val after ≡ (expr [], after)
unfolding parse_val parse_val_tokens
parse_val-IsNext [] n = refl
parse_val-IsNext (t ∷ ts) n =
    subst (λ t. parse_val (t ∷ ts) ≡ (expr [], t ∷ ts)) (sym (is_punct_lem b',' t n)) refl

parse_after-IsNext :
    (key : Text) (after : List Token) → IsNext after → parse_after key after ≡ (simple key, after)
unfolding parse_after
parse_after-IsNext key [] n = refl
parse_after-IsNext key (t ∷ ts) n =
    subst (λ t. parse_after key (t ∷ ts) ≡ (simple key, t ∷ ts)) (sym (is_punct_lem b',' t n)) refl

parse_val-written :
    (key : Text) (val : FieldVal) (after : List Token)
    → IsWritable (kv key val)
    → IsNext after
    → parse_val (written_val val ++ after) ≡ (val, after)
unfolding parse_val
parse_val-written key (display e) after w n = rw (parse_val_tokens-append e after w n) refl
parse_val-written key (debug e) after w n = rw (parse_val_tokens-append e after w n) refl
parse_val-written key (expr []) after w n = parse_val-IsNext after n
parse_val-written key (expr (t ∷ e)) after (w, p) n =
    rw (p.0, p.1, w.0, parse_val_tokens-append e after w.1 n) refl

-- An argument that can be read back, in front of a comma or at the end, is read as it was written, and what
-- follows it is left.
pub parse-written :
    (a : LogArg) (after : List Token)
    → IsWritable a
    → IsNext after
    → parse (written a ++ after) ≡ success (a, after)
unfolding parse parse_after
parse-written (simple i) after w n = ap success (parse_after-IsNext i after n)
parse-written (kv key val) after w n =
    ap (λ r. success (kv key r.0, r.1)) (parse_val-written key val after w n)

parse_val_tokens-split : (ts : List Token) → ts ≡ (parse_val_tokens ts).0 ++ (parse_val_tokens ts).1
unfolding parse_val_tokens
parse_val_tokens-split [] = refl
parse_val_tokens-split (t ∷ ts) = at (is_punct b',' t) (parse_val_tokens-split ts)
  where
    at :
        (b : Bool)
        → ts ≡ (parse_val_tokens ts).0 ++ (parse_val_tokens ts).1
        → let r : List Token × List Token =
            if b then ([], t ∷ ts) else (t ∷ (parse_val_tokens ts).0, (parse_val_tokens ts).1) in
          t ∷ ts ≡ r.0 ++ r.1
    at true e = refl
    at false e = ap (λ l. t ∷ l) e

parse_val-split : (ts : List Token) → ts ≡ written_val (parse_val ts).0 ++ (parse_val ts).1
unfolding parse_val
parse_val-split [] = refl
parse_val-split (t ∷ ts) = at (is_punct b'%' t) refl (is_punct b'?' t) refl
  where
    at :
        (b : Bool)
        → is_punct b'%' t ≡ b
        → (c : Bool) → is_punct b'?' t ≡ c
        → let after = parse_val_tokens ts in
          let whole = parse_val_tokens (t ∷ ts) in
          let r : FieldVal × List Token =
            if b
            then (display after.0, after.1)
            else if c
            then (debug after.0, after.1)
            else (expr whole.0, whole.1) in
          t ∷ ts ≡ written_val r.0 ++ r.1
    at true h c k =
        ap (λ t. t ∷ ts) (is_punct_lem b'%' t h)
        ∙ ap (λ l. punct b'%' ∷ l) (parse_val_tokens-split ts)
    at false h true k =
        ap (λ t. t ∷ ts) (is_punct_lem b'?' t k)
        ∙ ap (λ l. punct b'?' ∷ l) (parse_val_tokens-split ts)
    at false h false k = parse_val_tokens-split (t ∷ ts)

parse_after-split :
    (key : Text) (ts : List Token)
    → ident key ∷ ts ≡ written (parse_after key ts).0 ++ (parse_after key ts).1
unfolding parse_after
parse_after-split key [] = refl
parse_after-split key (t ∷ ts) = at (is_punct b'=' t) refl
  where
    at :
        (b : Bool)
        → is_punct b'=' t ≡ b
        → let r : LogArg × List Token =
            if b then (kv key (parse_val ts).0, (parse_val ts).1) else (simple key, t ∷ ts) in
          ident key ∷ (t ∷ ts) ≡ written r.0 ++ r.1
    at true h =
        ap (λ t. ident key ∷ (t ∷ ts)) (is_punct_lem b'=' t h)
        ∙ ap (λ l. ident key ∷ (punct b'=' ∷ l)) (parse_val-split ts)
    at false h = refl

-- What is read is an argument as it is written, with what is left after it: no token is lost or added.
pub written-parse :
    (ts rest : List Token) (a : LogArg) → parse ts ≡ success (a, rest) → ts ≡ written a ++ rest
unfolding parse
written-parse [] rest a e = cc
written-parse (ident key ∷ ts) rest a e =
    let same = success_cancel e in parse_after-split key ts ∙ ap (λ r. written r.0 ++ r.1) same
written-parse (punct c ∷ ts) rest a e = cc
written-parse (tree t ∷ ts) rest a e = cc
