-- ===== src/Logger/Console.antt =====
-- What the worker of src/logger/mod.rs prints of an event in debugging mode.
--
-- The output is a list of pieces: escape sequences of the terminal, and texts that are shown.
use atoman_rs.Prelude.{
  ◌≡◌, refl, ap, sym, ◌∙◌, Bool, Option, none, some, List, [], ◌∷◌, ◌++◌, Text, if◌then◌else◌,
}
use atoman_rs.Logger.{Level, error, warn, info, debug, trace}
use atoman_rs.Logger.Disk.{Clock, Disk}
use atoman_rs.Logger.Worker.{RawLogEvent, World, put_event, padded, space}
use atoman_rs.Logger.Stages.{line_at, put_event-buffer}

pub data Piece : Type 0 where
  escape : Text → Piece
  visible : Text → Piece

abbrev pub shown : List Piece → Text
shown [] = []
shown (escape t ∷ ps) = shown ps
shown (visible t ∷ ps) = t ++ shown ps

-- The escape character is 27.
abbrev pub time_clr : Text
time_clr = 27 ∷ b'[' ∷ b'3' ∷ b'8' ∷ b';' ∷ b'5' ∷ b';' ∷ b'2' ∷ b'4' ∷ b'8' ∷ b'm' ∷ []

abbrev pub meta_clr : Text
meta_clr = 27 ∷ b'[' ∷ b'3' ∷ b'4' ∷ b'm' ∷ []

abbrev pub reset : Text
reset = 27 ∷ b'[' ∷ b'0' ∷ b'm' ∷ []

unfoldable pub lvl_clr : Level → Text
lvl_clr info = 27 ∷ b'[' ∷ b'3' ∷ b'2' ∷ b'm' ∷ []
lvl_clr warn = 27 ∷ b'[' ∷ b'3' ∷ b'3' ∷ b'm' ∷ []
lvl_clr error = 27 ∷ b'[' ∷ b'3' ∷ b'1' ∷ b'm' ∷ []
lvl_clr debug = 27 ∷ b'[' ∷ b'3' ∷ b'5' ∷ b'm' ∷ []
lvl_clr trace = 27 ∷ b'[' ∷ b'9' ∷ b'0' ∷ b'm' ∷ []

-- The spans and the message; the line ends as `println` ends it.
unfoldable pub console_rest : Option Text → Text → List Piece
console_rest (some spans) msg_str =
    escape meta_clr ∷ visible spans ∷ escape reset ∷ visible msg_str ∷ visible (b'\n' ∷ []) ∷ []
console_rest none msg_str = visible msg_str ∷ visible (b'\n' ∷ []) ∷ []

module _ (K : Clock) (S : Disk) where
  -- `is_utf8` says whether `from_utf8` succeeds, which then keeps the bytes.
  unfoldable pub console_line : (Text → Bool) → Text → RawLogEvent K S → List Piece
  unfolding lvl_clr console_rest
  console_line is_utf8 datetime e =
      let msg_str = if is_utf8 e.message then e.message else [] in
      escape time_clr
      ∷ visible datetime
      ∷ escape reset
      ∷ visible space
      ∷ escape (lvl_clr e.level)
      ∷ visible (padded e.level)
      ∷ escape reset
      ∷ visible space
      ∷ console_rest e.spans msg_str

  shown-console_rest :
      (e : RawLogEvent K S) (datetime msg : Text)
      → datetime ++ (space ++ (padded e.level ++ (space ++ shown (console_rest e.spans msg))))
        ≡ line_at K S datetime (record e { message = msg })
  unfolding console_rest
  shown-console_rest e datetime msg = at e.spans
    where
      at :
          (s : Option Text)
          → datetime ++ (space ++ (padded e.level ++ (space ++ shown (console_rest s msg))))
            ≡ line_at K S datetime (record e { spans = s; message = msg })
      at none = refl
      at (some s) = refl

  -- What is shown on the console of an event whose message is valid text is what is added to the buffer of the
  -- file for it; of any other event it is that without the message.
  pub console_line-put_event :
      (is_utf8 : Text → Bool) (e : RawLogEvent K S) (w : World K S)
      → let kept = if is_utf8 e.message then e.message else [] in
        (put_event K S (record e { message = kept }) w).buffer
        ≡ w.buffer ++ shown (console_line is_utf8 w.datetime e)
  unfolding console_line
  console_line-put_event is_utf8 e w =
      let kept = if is_utf8 e.message then e.message else [] in
      put_event-buffer K S (record e { message = kept }) w
      ∙ ap (λ t. w.buffer ++ t) (sym (shown-console_rest e w.datetime kept))
