-- ===== src/Tests/Configs.antt =====
-- The configuration at concrete inputs (src/config/mod.rs, crates/config/src/lib.rs): a path is a letter and
-- its extension, the files are a function.
use atoman_rs.Prelude.{
  map, leb, ◌&&◌, ◌-◌, ℕ, ◌≡◌, ◌≢◌, refl, ◌∙◌, true, false, Option, none, some, [], ◌∷◌, Text,
  text_eq, text_eq_iff, if◌then◌else◌, Bool-cases, inl, inr,
}
use atoman_rs.Prelude.Result.{Result, success, failure}
use atoman_rs.Config.Files.{Fs, Formats, AreInverse}
use atoman_rs.Config.{Now, now_modify, Config, tmp_path, write, read, check}
use atoman_rs.Config.Saving.{Written, write-Written}
use atoman_rs.Config.Reading.{read-write}
use atoman_rs.Config.Checking.{Checked, check-Checked}
use atoman_rs.Config.Global.{Updated, update_held, update_held-Updated}

abbrev Store : Type 0
Store = Text → Option Text

abbrev put : Text → Option Text → Store → Store
put p t w q = if text_eq q p then t else w q

put-same : (p : Text) (t : Option Text) (w : Store) → put p t w p ≡ t
put-same p t w = rw ((text_eq_iff p p).1 refl) refl

put-other : (p q : Text) (t : Option Text) (w : Store) → q ≢ p → put p t w q ≡ w q
put-other p q t w n = elim (Bool-cases (text_eq q p)) [
  | inl e ↦ absurd (n ((text_eq_iff q p).0 e))
  | inr e ↦ rw e refl
]

-- The file at `p` goes to `q`.
abbrev moved : Text → Text → Store → Store
moved p q w = put q (w p) (put p none w)

moved-others : (p q r : Text) (w : Store) → r ≢ p → r ≢ q → moved p q w r ≡ w r
moved-others p q r w n m = put-other q r (w p) (put p none w) m ∙ put-other p r none w n

abbrev extension_of : Text → Option Text
extension_of [] = none
extension_of (c ∷ e) = some e

abbrev renamed : Text → Text → Text
renamed [] x = x
renamed (c ∷ e) x = c ∷ x

abbrev text_at : Text → Store → Result ℕ Text
text_at p w = elim (w p) [ none ↦ failure 2 | some t ↦ success t ]

text_at-contents : (p : Text) (w : Store) (t : Text) → text_at p w ≡ success t → w p ≡ some t
text_at-contents p w t e = at (w p) e
  where
    at :
        (o : Option Text)
        → elim o as (λ o. Result ℕ Text) [ none ↦ failure 2 | some t ↦ success t ] ≡ success t
        → o ≡ some t
    at none e = cc
    at (some u) e = cc

never_failed :
    (w w' : Store) (r : Text) {e : ℕ}
    → ◌≡◌ {A = Result ℕ (Unit {0})} (success tt) (failure e)
    → w r ≡ w' r
never_failed w w' r h = cc

abbrev files : Fs
files = record {
  W = Store;
  FilePath = Text;
  E = ℕ;
  extension = extension_of;
  parent = λ p. some [];
  with_extension = renamed;
  exists = λ p w. elim (w p) [ none ↦ false | some t ↦ true ];
  read_to_string = text_at;
  create_dir_all = λ d w. (success tt, w);
  write = λ p t w. (success tt, put p (some t) w);
  sync = λ p w. w;
  rename = λ p q w. (success tt, moved p q w);
  remove_file = λ p w. put p none w;
  modified = λ p w. success 50;
  contents = λ w p. w p;
  read_lem = text_at-contents;
  create_dir_all_lem = λ d p w. refl;
  write_lem = λ p t w e. put-same p (some t) w;
  write_others = λ p q t w n. put-other p q (some t) w n;
  sync_lem = λ p q w. refl;
  rename_lem = λ p q w e. put-same q (w p) (put p none w);
  rename_others = λ p q r w n m. moved-others p q r w n m;
  rename_failed = λ p q r w h. never_failed (moved p q w) w r h;
  remove_others = λ p q w n. put-other p q none w n;
}

abbrev formats : Formats Text ℕ
formats = record {
  toml_from = λ t. success t;
  json_from = λ t. success t;
  toml_to = λ d. success d;
  json_to = λ d. success d;
  to_uppercase = map (λ c. if leb b'a' c && leb c b'z' then c - 32 else c);
}

inverse : AreInverse formats
inverse = record { toml = λ d t e. cc; json = λ d t e. cc }

abbrev toml_path : Text
toml_path = b'c' ∷ b't' ∷ b'o' ∷ b'm' ∷ b'l' ∷ []

abbrev json_path : Text
json_path = b'c' ∷ b'j' ∷ b's' ∷ b'o' ∷ b'n' ∷ []

abbrev empty : Store
empty p = none

abbrev conf : Config files formats
conf = record {
  path = [];
  content = 7 ∷ 8 ∷ [];
  modify = record { modified = some 10; checked = none };
}

abbrev saved : Config files formats
saved = record conf { path = toml_path }

abbrev now : Now
now = record { utc = 60; instant = 1000 }

abbrev soon : Now
soon = record { utc = 61; instant = 1005 }

differ : {s t : Text} → text_eq s t ≡ false → s ≢ t
differ {s} {t} unequal e = let same = (text_eq_iff s t).1 e in cc

apart : toml_path ≢ tmp_path files formats toml_path
apart = differ refl

other_apart : json_path ≢ tmp_path files formats toml_path
other_apart = differ refl

other_path : json_path ≢ toml_path
other_path = differ refl

write_done : (write files formats toml_path now conf empty).0 ≡ success tt
unfolding write
write_done = refl

written : text_at toml_path (write files formats toml_path now conf empty).2 ≡ success (7 ∷ 8 ∷ [])
unfolding write
written = refl

abbrev disk : Store
disk = put toml_path (some (3 ∷ [])) empty

abbrev held' : Config files formats
held' = record { path = toml_path; content = 3 ∷ []; modify = now_modify now }

updated : update_held files formats now saved disk ≡ (success true, held')
unfolding update_held
updated = refl

checked :
    check files formats 500 now saved.modify toml_path disk saved.modify
    ≡ (success true, record { modified = some 10; checked = some 1000 })
unfolding check
checked = refl

write-Written_example :
    Written files formats toml_path now conf empty (write files formats toml_path now conf empty)
    × (Fs.contents files (write files formats toml_path now conf empty).2 json_path ≡ none)
write-Written_example =
    write-Written files formats toml_path json_path now conf empty apart other_apart other_path

read-write_example :
    read files formats toml_path soon (write files formats toml_path now conf empty).2
    ≡ success (record { path = toml_path; content = 7 ∷ 8 ∷ []; modify = now_modify soon })
read-write_example =
    read-write files formats toml_path now soon conf empty inverse apart write_done written

check-Checked_example :
    Checked files formats 500 now saved.modify toml_path disk saved.modify
      (check files formats 500 now saved.modify toml_path disk saved.modify)
check-Checked_example = check-Checked files formats 500 now saved.modify toml_path disk saved.modify

update_held-Updated_example :
    Updated files formats now saved disk (update_held files formats now saved disk)
update_held-Updated_example = update_held-Updated files formats now saved disk
