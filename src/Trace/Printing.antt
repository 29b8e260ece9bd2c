-- ===== src/Trace/Printing.antt =====
-- `MultiTrace::pretty_print` (src/trace/mod.rs).
--
-- What is printed is a list of lines, and a line a list of pieces of text with the styles of the `colored`
-- crate. The two regular expressions are an interface.
pub mod Kept
use atoman_rs.Prelude.{
  ℕ, ◌≡◌, ◌∙◌, refl, ap, sym, Bool, true, false, not, ◌&&◌, ◌||◌, ◌==◌, Option, none, some, List,
  [], ◌∷◌, ◌++◌, map, Text, text_eq, if◌then◌else◌,
}
use mathlib.Core.List.{append_assoc, append-nil, map-append}
use atoman_rs.Trace.{LogRecord}

pub data Style : Type 0 where
  bold dimmed normal red yellow green blue magenta cyan : Style

abbrev pub Piece : Type 0
Piece = List Style × Text

-- What is read.
abbrev pub plain : List Piece → Text
plain [] = []
plain ((styles, text) ∷ ps) = text ++ plain ps

abbrev pub piece : Text → Piece
piece text = ([], text)

abbrev pub dim : Piece → Piece
dim (styles, text) = (dimmed ∷ styles, text)

-- The groups of `log_re`; `msg` is always there.
pub record Captures : Type 0 where
  pub time : Option Text
  pub level : Option Text
  pub target : Option Text
  pub msg : Option Text

abbrev pub or_empty : Option Text → Text
or_empty none = []
or_empty (some t) = t

-- The characters that are no white space.
abbrev pub inked : (ℕ → Bool) → Text → Text
inked is_space [] = []
inked is_space (c ∷ cs) = let rest = inked is_space cs in if is_space c then rest else c ∷ rest

abbrev pub texts_of : List (Bool × Text) → Text
texts_of [] = []
texts_of ((tag, t) ∷ ts) = t ++ texts_of ts

-- `log_re` and `tag_re`. `tags` cuts a text where `tag_re` matches, and marks the matches. A line that `log_re`
-- matches is its groups, in order, with white space between them.
pub record Patterns : Type 0 where
  pub is_space : ℕ → Bool
  pub captures : Text → Option Captures
  pub tags : Text → List (Bool × Text)
  pub is_space_lem : is_space 32 ≡ true
  pub tags_lem : (t : Text) → texts_of (tags t) ≡ t
  pub captures_lem :
      (t : Text) (caps : Captures)
      → captures t ≡ some caps
      → inked is_space t
        ≡ inked is_space (or_empty caps.time)
          ++ (inked is_space (or_empty caps.level)
              ++ (inked is_space (or_empty caps.target) ++ inked is_space (or_empty caps.msg)))

abbrev pub cons_first : ℕ → List Text → List Text
cons_first c [] = (c ∷ []) ∷ []
cons_first c (l ∷ ls) = (c ∷ l) ∷ ls

abbrev pub at_line_feed : Text → Bool
at_line_feed [] = false
at_line_feed (c ∷ cs) = c == 10

-- `str::lines`.
abbrev pub lines : Text → List Text
lines [] = []
lines (c ∷ cs) =
    let rest = lines cs in
    if c == 10 then [] ∷ rest else if c == 13 && at_line_feed cs then rest else cons_first c rest

unfoldable pub level_style : Text → List Style
level_style l =
    if text_eq l (b'E' ∷ b'R' ∷ b'R' ∷ b'O' ∷ b'R' ∷ [])
      || (text_eq l (b'E' ∷ b'R' ∷ b'R' ∷ []) || text_eq l (b'F' ∷ b'A' ∷ b'T' ∷ b'A' ∷ b'L' ∷ []))
    then red ∷ bold ∷ []
    else if text_eq l (b'W' ∷ b'A' ∷ b'R' ∷ b'N' ∷ [])
        || text_eq l (b'W' ∷ b'A' ∷ b'R' ∷ b'N' ∷ b'I' ∷ b'N' ∷ b'G' ∷ [])
    then yellow ∷ bold ∷ []
    else if text_eq l (b'I' ∷ b'N' ∷ b'F' ∷ b'O' ∷ [])
    then green ∷ bold ∷ []
    else if text_eq l (b'D' ∷ b'E' ∷ b'B' ∷ b'U' ∷ b'G' ∷ [])
    then blue ∷ bold ∷ []
    else if text_eq l (b'T' ∷ b'R' ∷ b'A' ∷ b'C' ∷ b'E' ∷ [])
    then magenta ∷ dimmed ∷ []
    else normal ∷ []

-- A group with its styles and a space behind it, or nothing.
unfoldable pub group_str : (Text → List Style) → Option Text → List Piece
group_str style none = []
group_str style (some m) = (style m, m) ∷ piece (32 ∷ []) ∷ []

-- `tag_re.replace_all`.
unfoldable pub replace_tags : List Style → List (Bool × Text) → List Piece
replace_tags styles [] = []
replace_tags styles ((tag, t) ∷ ts) = (if tag then styles else [], t) ∷ replace_tags styles ts

module _ (P : Patterns) where
  open P use {is_space, captures, tags}

  unfoldable pub print_structured : Text → Captures → List Piece
  unfolding group_str level_style replace_tags
  print_structured source caps =
      (bold ∷ [], source)
      ∷ piece (32 ∷ [])
      ∷ (group_str (λ t. dimmed ∷ []) caps.time
          ++ (group_str level_style caps.level
              ++ (group_str (λ t. blue ∷ []) caps.target
                  ++ replace_tags (magenta ∷ []) (tags (or_empty caps.msg)))))

  unfoldable pub print_unstructured : Text → Text → List Piece
  unfolding replace_tags
  print_unstructured source first_line =
      (bold ∷ [], source) ∷ piece (32 ∷ []) ∷ replace_tags (cyan ∷ bold ∷ []) (tags first_line)

  unfoldable pub print_first : Text → Text → List Piece
  unfolding print_structured print_unstructured
  print_first source first_line = elim (captures first_line) [
    | some caps ↦ print_structured source caps
    | none ↦ print_unstructured source first_line
  ]

  -- The guide is the character 9474.
  unfoldable pub print_nested : Text → List Piece
  unfolding replace_tags
  print_nested line =
      piece (32 ∷ 32 ∷ [])
      ∷ (dimmed ∷ [], 9474 ∷ [])
      ∷ piece (32 ∷ [])
      ∷ map dim (replace_tags (cyan ∷ bold ∷ []) (tags line))

  unfoldable pub print_lines : Text → List Text → List (List Piece)
  unfolding print_first print_nested
  print_lines source [] = []
  print_lines source (first_line ∷ ls) = print_first source first_line ∷ map print_nested ls

  unfoldable pub pretty_print : LogRecord → List (List Piece)
  unfolding print_lines
  pretty_print rec_ = print_lines rec_.source (lines rec_.content)
