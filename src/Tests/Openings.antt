-- ===== src/Tests/Openings.antt =====
-- Opening files at concrete inputs (src/file/file.rs), over a directory (the path `false`) and one file in
-- it (the path `true`).
use atoman_rs.Prelude.{
  ℕ, ◌≡◌, refl, ap, sym, subst, ◌∙◌, Bool, true, false, Option, none, some, List, [], if◌then◌else◌,
}
use atoman_rs.Prelude.Result.{Result, success, failure}
use atoman_rs.File.Metadata.{Stat, new}
use atoman_rs.File.Opening.{
  read, write, OpenOptions, set_mode, Node, folder, bytes, FileSystem, is_read, create_all_parents,
  refresh, make_parent, with_metadata, open_raw, open_file,
}
use atoman_rs.File.Opening.Opened.{Opened, open_file-Opened}

abbrev Two : Type 0
Two = Option Node × Option Node

abbrev look : Bool → Two → Option Node
look false w = w.0
look true w = w.1

abbrev put : Bool → Option Node → Two → Two
put false n w = (n, w.1)
put true n w = (w.0, n)

abbrev made_if : OpenOptions → Bool → Two → Bool → Result ℕ OpenOptions × Two
made_if o p w true = (success o, put p (some (bytes [])) w)
made_if o p w false = (failure 2, w)

abbrev opened_folder : OpenOptions → Two → Bool → Result ℕ OpenOptions × Two
opened_folder o w true = (failure 21, w)
opened_folder o w false = (success o, w)

abbrev opened : OpenOptions → Bool → Two → Option Node → Result ℕ OpenOptions × Two
opened o p w (some folder) = opened_folder o w o.write
opened o p w (some (bytes b)) = (success o, w)
opened o p w none = made_if o p w o.create

abbrev made : Bool → Two → Option Node → Result ℕ (Unit {0}) × Two
made p w none = (success tt, put p (some folder) w)
made p w (some folder) = (success tt, w)
made p w (some (bytes b)) = (failure 17, w)

look-put : (p : Bool) (n : Option Node) (w : Two) → look p (put p n w) ≡ n
look-put false n w = refl
look-put true n w = refl

look-put_other :
    (p q : Bool) (n : Option Node) (k : Node) (w : Two)
    → look p w ≡ none
    → look q w ≡ some k
    → look q (put p n w) ≡ some k
look-put_other false false n k w gone there = cc
look-put_other false true n k w gone there = there
look-put_other true false n k w gone there = there
look-put_other true true n k w gone there = cc

opened-keeps :
    (o : OpenOptions) (p q : Bool) (w : Two) (k : Node) (m : Option Node)
    → look p w ≡ m
    → look q w ≡ some k
    → look q (opened o p w m).1 ≡ some k
opened-keeps o p q w k (some folder) is there = at o.write
  where
    at : (b : Bool) → look q (opened_folder o w b).1 ≡ some k
    at true = there
    at false = there
opened-keeps o p q w k (some (bytes b)) is there = there
opened-keeps o p q w k none is there = at o.create
  where
    at : (b : Bool) → look q (made_if o p w b).1 ≡ some k
    at true = look-put_other p q (some (bytes [])) k w is there
    at false = there

opened-makes_none :
    (o : OpenOptions) (p q : Bool) (w : Two) (m : Option Node)
    → o.create ≡ false
    → look q (opened o p w m).1 ≡ look q w
opened-makes_none o p q w (some folder) plain = at o.write
  where
    at : (b : Bool) → look q (opened_folder o w b).1 ≡ look q w
    at true = refl
    at false = refl
opened-makes_none o p q w (some (bytes b)) plain = refl
opened-makes_none o p q w none plain = ap (λ b. look q (made_if o p w b).1) plain

abbrev Open : OpenOptions → Bool → Result ℕ OpenOptions × Two → Type 0
Open o p (success f, w) =
    ((n : Node) × (look p w ≡ some n) × (o.write ≡ true → (b : List ℕ) × (n ≡ bytes b)))
    × (f.read ≡ o.read)
    × (f.write ≡ o.write)
Open o p (failure e, w) = Unit

opened-Open :
    (o : OpenOptions) (p : Bool) (w : Two) (m : Option Node)
    → look p w ≡ m
    → Open o p (opened o p w m)
opened-Open o p w (some folder) is = at o.write refl
  where
    at : (b : Bool) → o.write ≡ b → Open o p (opened_folder o w b)
    at true h = tt
    at false h = ((folder, is, λ writes. cc), refl, refl)
opened-Open o p w (some (bytes b)) is = ((bytes b, is, λ writes. (b, refl)), refl, refl)
opened-Open o p w none is = at o.create
  where
    at : (b : Bool) → Open o p (made_if o p w b)
    at true = ((bytes [], look-put p (some (bytes [])) w, λ writes. ([], refl)), refl, refl)
    at false = tt

made-keeps :
    (p q : Bool) (w : Two) (k : Node) (m : Option Node)
    → look p w ≡ m
    → look q w ≡ some k
    → look q (made p w m).1 ≡ some k
made-keeps p q w k none is there = look-put_other p q (some folder) k w is there
made-keeps p q w k (some folder) is there = there
made-keeps p q w k (some (bytes b)) is there = there

made-folder :
    (p : Bool) (w w' : Two) (m : Option Node)
    → look p w ≡ m
    → made p w m ≡ (success tt, w')
    → look p w' ≡ some folder
made-folder p w w' none is done = ap (λ r. look p r.1) (sym done) ∙ look-put p (some folder) w
made-folder p w w' (some folder) is done = ap (λ r. look p r.1) (sym done) ∙ is
made-folder p w w' (some (bytes b)) is done = let bad = ap (λ r. r.0) done in cc

abbrev stat : Stat ℕ
stat = record {
  says_file = true;
  says_dir = false;
  mode = 420;
  created = success 5;
  modified = success 6;
  len = 0;
}

abbrev two : FileSystem
two = record {
  W = Two;
  E = ℕ;
  FilePath = Bool;
  O = OpenOptions;
  parent = λ p. if p then some false else none;
  extension = λ p. none;
  is_empty_path = λ p. false;
  node = look;
  can_read = λ o. o.read;
  can_write = λ o. o.write;
  open_with = λ o p w. opened o p w (look p w);
  file_stat = λ f w. success stat;
  path_stat = λ p w. success stat;
  create_dir_all = λ p w. made p w (look p w);
  remove_file = λ p w. (success tt, put p none w);
  remove_dir_all = λ p w. (success tt, put p none w);
  open_keeps = λ o p q w n t there. opened-keeps o p q w n (look p w) refl there;
  open_makes_none = λ o p q w c t. opened-makes_none o p q w (look p w) c;
  open_lem = λ o p w w' f is. subst (Open o p) is (opened-Open o p w (look p w) refl);
  create_keeps = λ p q w n there. made-keeps p q w n (look p w) refl there;
  create_lem = λ p w w' filled done. made-folder p w w' (look p w) refl done;
  remove_lem = λ p w w' done. ap (λ r. look p r.1) (sym done) ∙ look-put p none w;
}

-- Nothing is there: the directory and an empty file are made, with the file's metadata.
open_file-made : (open_file two true write (none, none)).1 ≡ (some folder, some (bytes []))
unfolding open_file make_parent create_all_parents is_read open_raw with_metadata refresh set_mode
    new
open_file-made = refl

-- Nothing is there: reading makes nothing.
open_file-missing : open_file two true read (none, none) ≡ (failure 2, (none, none))
unfolding open_file make_parent create_all_parents is_read open_raw with_metadata refresh set_mode
    new
open_file-missing = refl

open_file-Opened_example :
    Opened two write true (none, none) (open_file two true write (none, none))
open_file-Opened_example = open_file-Opened two write true (none, none)
