-- ===== src/Trace/Printing/Kept.antt =====
-- What can be read of a record that `MultiTrace::pretty_print` (src/trace/mod.rs) prints.
use atoman_rs.Prelude.{
  ℕ, ◌≡◌, ◌∙◌, refl, ap, sym, Bool, true, false, Option, none, some, List, [], ◌∷◌, ◌++◌, map, Text,
  if◌then◌else◌,
}
use mathlib.Core.List.{append_assoc}
use atoman_rs.Trace.{LogRecord}
use atoman_rs.Trace.Printing.{
  Style, bold, dimmed, blue, magenta, cyan, Piece, plain, dim, Captures, or_empty, inked, texts_of,
  Patterns, lines, level_style, group_str, replace_tags, print_structured, print_unstructured,
  print_first, print_nested, print_lines, pretty_print,
}

plain-append : (as' bs : List Piece) → plain (as' ++ bs) ≡ plain as' ++ plain bs
plain-append [] bs = refl
plain-append ((styles, t) ∷ as') bs =
    ap (λ x. t ++ x) (plain-append as' bs) ∙ sym (append_assoc t (plain as') (plain bs))

plain-dim : (ps : List Piece) → plain (map dim ps) ≡ plain ps
plain-dim [] = refl
plain-dim ((styles, t) ∷ ps) = ap (λ x. t ++ x) (plain-dim ps)

plain-replace_tags :
    (styles : List Style) (ts : List (Bool × Text)) → plain (replace_tags styles ts) ≡ texts_of ts
unfolding replace_tags
plain-replace_tags styles [] = refl
plain-replace_tags styles ((tag, t) ∷ ts) = ap (λ x. t ++ x) (plain-replace_tags styles ts)

inked-append :
    (is_space : ℕ → Bool) (s t : Text)
    → inked is_space (s ++ t) ≡ inked is_space s ++ inked is_space t
inked-append is_space [] t = refl
inked-append is_space (c ∷ cs) t = at (is_space c) (inked-append is_space cs t)
  where
    at :
        (b : Bool)
        → inked is_space (cs ++ t) ≡ inked is_space cs ++ inked is_space t
        → (if b then inked is_space (cs ++ t) else c ∷ inked is_space (cs ++ t))
          ≡ (if b then inked is_space cs else c ∷ inked is_space cs) ++ inked is_space t
    at true same = same
    at false same = ap (λ x. c ∷ x) same

module _ (P : Patterns) where
  open P use {is_space, captures, tags}

  abbrev ink : Text → Text
  ink = inked is_space

  -- What is read of the lines: the source and the first line, unchanged but for white space, and unchanged
  -- if it has no structure; then the other lines behind the guide.
  abbrev pub Kept : Text → List Text → List Text → Type 0
  Kept source [] out = out ≡ []
  Kept source (first_line ∷ ls) out =
      (head : Text) × (out ≡ head ∷ map (λ l. 32 ∷ 32 ∷ 9474 ∷ 32 ∷ l) ls)
      × (ink head ≡ ink (source ++ first_line))
      × (captures first_line ≡ none → head ≡ source ++ 32 ∷ first_line)

  ink-space : (t : Text) → ink (32 ∷ t) ≡ ink t
  ink-space t = rw (Patterns.is_space_lem P) refl

  ink-group_str :
      (style : Text → List Style) (o : Option Text) (ps : List Piece)
      → ink (plain (group_str style o ++ ps)) ≡ ink (or_empty o) ++ ink (plain ps)
  unfolding group_str
  ink-group_str style none ps = refl
  ink-group_str style (some m) ps =
      inked-append is_space m (32 ∷ plain ps) ∙ ap (λ x. ink m ++ x) (ink-space (plain ps))

  plain-tags : (styles : List Style) (t : Text) → plain (replace_tags styles (tags t)) ≡ t
  plain-tags styles t = plain-replace_tags styles (tags t) ∙ Patterns.tags_lem P t

  plain-print_nested : (l : Text) → plain (print_nested P l) ≡ 32 ∷ 32 ∷ 9474 ∷ 32 ∷ l
  unfolding print_nested
  plain-print_nested l =
      ap (λ x. 32 ∷ 32 ∷ 9474 ∷ 32 ∷ x)
        (plain-dim (replace_tags (cyan ∷ bold ∷ []) (tags l)) ∙ plain-tags (cyan ∷ bold ∷ []) l)

  plain-print_nested_all :
      (ls : List Text) → map plain (map (print_nested P) ls) ≡ map (λ l. 32 ∷ 32 ∷ 9474 ∷ 32 ∷ l) ls
  plain-print_nested_all [] = refl
  plain-print_nested_all (l ∷ ls) =
      ap (λ x. x ∷ map plain (map (print_nested P) ls)) (plain-print_nested l)
      ∙ ap (λ xs. (32 ∷ 32 ∷ 9474 ∷ 32 ∷ l) ∷ xs) (plain-print_nested_all ls)

  ink-print_structured :
      (source line : Text) (caps : Captures)
      → captures line ≡ some caps
      → ink (plain (print_structured P source caps)) ≡ ink (source ++ line)
  unfolding print_structured
  ink-print_structured source line caps is =
      let msg = replace_tags (magenta ∷ []) (tags (or_empty caps.msg)) in
      let target = group_str (λ t. blue ∷ []) caps.target ++ msg in
      let level = group_str level_style caps.level ++ target in
      inked-append is_space source (32 ∷ plain (group_str (λ t. dimmed ∷ []) caps.time ++ level))
      ∙ ap (λ x. ink source ++ x)
          (ink-space (plain (group_str (λ t. dimmed ∷ []) caps.time ++ level))
            ∙ ink-group_str (λ t. dimmed ∷ []) caps.time level
            ∙ ap (λ x. ink (or_empty caps.time) ++ x)
                (ink-group_str level_style caps.level target
                  ∙ ap (λ x. ink (or_empty caps.level) ++ x)
                      (ink-group_str (λ t. blue ∷ []) caps.target msg
                        ∙ ap (λ x. ink (or_empty caps.target) ++ ink x)
                            (plain-tags (magenta ∷ []) (or_empty caps.msg))))
            ∙ sym (Patterns.captures_lem P line caps is))
      ∙ sym (inked-append is_space source line)

  plain-print_unstructured :
      (source line : Text) → plain (print_unstructured P source line) ≡ source ++ 32 ∷ line
  unfolding print_unstructured
  plain-print_unstructured source line =
      ap (λ x. source ++ 32 ∷ x) (plain-tags (cyan ∷ bold ∷ []) line)

  -- The first line, printed, and the rest of what `Kept` says of it.
  abbrev First : Text → Text → Text → Type 0
  First source line head =
      (ink head ≡ ink (source ++ line)) × (captures line ≡ none → head ≡ source ++ 32 ∷ line)

  print_first-First : (source line : Text) → First source line (plain (print_first P source line))
  unfolding print_first
  print_first-First source line = at (captures line) refl
    where
      at :
          (o : Option Captures)
          → captures line ≡ o
          → First source line (
              plain (elim o [
                | some caps ↦ print_structured P source caps
                | none ↦ print_unstructured P source line
              ]))
      at (some caps) is = (ink-print_structured source line caps is, λ no_caps. cc)
      at none is =
          let same = plain-print_unstructured source line in
          (
            ap ink same
                ∙ inked-append is_space source (32 ∷ line)
                ∙ ap (λ x. ink source ++ x) (ink-space line)
                ∙ sym (inked-append is_space source line),
            λ no_caps. same,
          )

  print_lines-Kept :
      (source : Text) (ls : List Text) → Kept source ls (map plain (print_lines P source ls))
  unfolding print_lines
  print_lines-Kept source [] = refl
  print_lines-Kept source (first_line ∷ ls) =
      let head = plain (print_first P source first_line) in
      let first = print_first-First source first_line in
      (head, ap (λ l. head ∷ l) (plain-print_nested_all ls), first.0, first.1)

  -- What can be read of a printed record are its source and its lines: the first one behind the source,
  -- unchanged but for the white space between its parts, the others behind a guide.
  pub pretty_print-Kept :
      (r : LogRecord) → Kept r.source (lines r.content) (map plain (pretty_print P r))
  unfolding pretty_print
  pretty_print-Kept r = print_lines-Kept r.source (lines r.content)
