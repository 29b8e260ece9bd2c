-- ===== src/Logger/Layer.antt =====
-- The tracing layer of `Logger` (src/logger/mod.rs): the texts of spans and events.
--
-- A field is its name and what `Debug` renders its value as.
use atoman_rs.Prelude.{
  ◌≡◌, refl, ap, sym, ◌∙◌, Bool, true, false, not, Option, none, some, List, [], ◌∷◌, ◌++◌, map,
  Text, text_eq, intercalate, is_empty, if◌then◌else◌,
}
use mathlib.Core.List.{append_assoc, append-nil}

abbrev pub Field : Type 0
Field = Text × Text

abbrev pub assigned : Field → Text
assigned (name, value) = name ++ b'=' ∷ value

abbrev pub comma : Text
comma = b',' ∷ b' ' ∷ []

abbrev pub arrow : Text
arrow = b' ' ∷ b'-' ∷ b'>' ∷ b' ' ∷ []

-- `SpanFieldsVisitor`: the text, and whether the next field is the first.
unfoldable pub record_field : Field → Text × Bool → Text × Bool
record_field field (text, first) =
    let text' = if not first then text ++ comma else text in (text' ++ assigned field, false)

unfoldable pub record_fields : List Field → Text × Bool → Text × Bool
unfolding record_field
record_fields [] visitor = visitor
record_fields (f ∷ fs) visitor = record_fields fs (record_field f visitor)

-- The `CustomFields` that a new span gets.
unfoldable pub on_new_span : List Field → Option Text
unfolding record_fields
on_new_span attrs =
    let fields_str = (record_fields attrs ([], true)).0 in
    if not (is_empty fields_str) then some fields_str else none

-- A span of an event's scope: its name and its `CustomFields`.
abbrev pub Span : Type 0
Span = Text × Option Text

abbrev pub custom : Option Text → Text
custom none = []
custom (some fields) = b'{' ∷ fields ++ b'}' ∷ []

abbrev pub span_text : Span → Text
span_text (name, fields) = name ++ custom fields

unfoldable pub push_span : Span → Text × Bool → Text × Bool
push_span (name, fields) (span_buf, has_spans) =
    let opened = if not has_spans then span_buf ++ b'[' ∷ [] else span_buf ++ arrow in
    let named = opened ++ name in
    (elim fields [ none ↦ named | some f ↦ (named ++ b'{' ∷ f) ++ b'}' ∷ [] ], true)

unfoldable pub push_spans : List Span → Text × Bool → Text × Bool
unfolding push_span
push_spans [] buf = buf
push_spans (s ∷ ss) buf = push_spans ss (push_span s buf)

-- The context of an event; `none` where the event has no scope.
unfoldable pub span_context : Option (List Span) → Option Text
unfolding push_spans
span_context none = none
span_context (some scope) =
    let (span_buf, has_spans) = push_spans scope ([], false) in
    if has_spans then some (span_buf ++ b']' ∷ b' ' ∷ []) else none

abbrev message : Text
message = b'm' ∷ b'e' ∷ b's' ∷ b's' ∷ b'a' ∷ b'g' ∷ b'e' ∷ []

-- `EventVisitor`.
unfoldable pub record_message : List Field → Text → Text
record_message [] raw_msg = raw_msg
record_message ((name, value) ∷ fs) raw_msg =
    record_message fs
      (raw_msg ++ (if text_eq name message then value else b' ' ∷ name ++ b'=' ∷ value))

abbrev after_first : Text → List Text → Text
after_first sep [] = []
after_first sep (t ∷ ts) = sep ++ (t ++ after_first sep ts)

intercalate-cons :
    (sep t : Text) (ts : List Text) → intercalate sep (t ∷ ts) ≡ t ++ after_first sep ts
intercalate-cons sep t [] = sym (append-nil t)
intercalate-cons sep t (u ∷ us) = ap (λ l. t ++ (sep ++ l)) (intercalate-cons sep u us)

record_fields-later :
    (fs : List Field) (text : Text)
    → record_fields fs (text, false) ≡ (text ++ after_first comma (map assigned fs), false)
unfolding record_fields record_field
record_fields-later [] text = ap (λ t. (t, false)) (sym (append-nil text))
record_fields-later (f ∷ fs) text =
    record_fields-later fs ((text ++ comma) ++ assigned f)
    ∙ ap (λ t. (t, false)) (simp append_assoc)

push_spans-later :
    (ss : List Span) (text : Text)
    → push_spans ss (text, true) ≡ (text ++ after_first arrow (map span_text ss), true)
unfolding push_spans push_span
push_spans-later [] text = ap (λ t. (t, true)) (sym (append-nil text))
push_spans-later ((name, none) ∷ ss) text =
    push_spans-later ss ((text ++ arrow) ++ name)
    ∙ ap (λ t. (t, true)) (simp (append_assoc, append-nil))
push_spans-later ((name, some f) ∷ ss) text =
    push_spans-later ss (((text ++ arrow) ++ name ++ b'{' ∷ f) ++ b'}' ∷ [])
    ∙ ap (λ t. (t, true)) (simp append_assoc)

record_fields-text :
    (f : Field) (fs : List Field)
    → (record_fields (f ∷ fs) ([], true)).0 ≡ intercalate comma (map assigned (f ∷ fs))
unfolding record_fields record_field
record_fields-text f fs =
    ap (λ r. r.0) (record_fields-later fs (assigned f))
    ∙ sym (intercalate-cons comma (assigned f) (map assigned fs))

-- The text of fields is not empty.
assigned-filled : (f : Field) (later : Text) → is_empty (assigned f ++ later) ≡ false
assigned-filled ([], value) later = refl
assigned-filled (c ∷ cs, value) later = refl

push_spans-text :
    (s : Span) (ss : List Span)
    → push_spans (s ∷ ss) ([], false) ≡ (b'[' ∷ intercalate arrow (map span_text (s ∷ ss)), true)
unfolding push_spans push_span
push_spans-text (name, none) ss =
    push_spans-later ss (b'[' ∷ name)
    ∙ ap (λ t. (b'[' ∷ t, true))
        (ap (λ n. n ++ after_first arrow (map span_text ss)) (sym (append-nil name))
          ∙ sym (intercalate-cons arrow (name ++ []) (map span_text ss)))
push_spans-text (name, some f) ss =
    push_spans-later ss ((b'[' ∷ name ++ b'{' ∷ f) ++ b'}' ∷ [])
    ∙ ap (λ t. (b'[' ∷ t, true))
        (ap (λ n. n ++ after_first arrow (map span_text ss))
            (append_assoc name (b'{' ∷ f) (b'}' ∷ []))
          ∙ sym (intercalate-cons arrow (name ++ (b'{' ∷ f ++ b'}' ∷ [])) (map span_text ss)))

-- A span with no field keeps no text, another one its fields, each as name and value, with a comma and a space
-- between each two. An event with no scope or an empty one has no context, another one the spans from the
-- root on, each with its fields in braces if it has any, an arrow between each two, in brackets.
pub texts_of_spans :
    (f : Field) (fs : List Field) (s : Span) (ss : List Span)
    → (on_new_span [] ≡ none)
      × (on_new_span (f ∷ fs) ≡ some (intercalate comma (map assigned (f ∷ fs))))
      × (span_context none ≡ none)
      × (span_context (some []) ≡ none)
      × (span_context (some (s ∷ ss))
          ≡ some ((b'[' ∷ intercalate arrow (map span_text (s ∷ ss))) ++ b']' ∷ b' ' ∷ []))
unfolding on_new_span span_context push_spans
texts_of_spans f fs s ss =
    let text = record_fields-text f fs in
    let filled =
      ap is_empty (intercalate-cons comma (assigned f) (map assigned fs))
      ∙ assigned-filled f (after_first comma (map assigned fs)) in
    (refl, rw (text, filled) refl, refl, refl, rw (push_spans-text s ss) refl)
