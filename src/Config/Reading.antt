-- ===== src/Config/Reading.antt =====
-- What `Config::write` of src/config/mod.rs has written, `Config::read` and `Config::update` read back.
use atoman_rs.Prelude.{◌≡◌, ◌≢◌, refl, ap, sym, ◌∙◌, Text, text_eq, Bool-cases, inl, inr, arith}
use mathlib.Core.Option.{some_inj}
use atoman_rs.Prelude.Result.{Result, success, failure}
use atoman_rs.Config.Files.{Fs, Formats, AreInverse}
use atoman_rs.Config.{
  Now, now_modify, Failure, Config, ext_of, read_format, parse, boxed, read, write_format, tmp_path,
  write, toml_name, json_name,
}
use atoman_rs.Config.Saving.{Written, write-OthersStay}

module _ {T : Type 0} (F : Fs) (M : Formats T (Fs.E F)) where
  open F use {W, FilePath, E, contents}

  boxed_lem : {A : Type 0} (r : Result E A) {a : A} → boxed F M r ≡ success a → r ≡ success a
  boxed_lem (success b) e = cc
  boxed_lem (failure f) e = cc

  read_format-write_format :
      AreInverse M
      → (ext : Text) (d : T) (text : Text) → write_format F M ext d ≡ success text
      → read_format F M ext text ≡ success d
  unfolding read_format write_format
  read_format-write_format inverse ext d text e = elim (Bool-cases (text_eq ext toml_name)) [
    | inl here ↦
        let back =
          AreInverse.toml inverse d text (boxed_lem (Formats.toml_to M d) (ground arith)) in
        rw (here, back) refl
    | inr away ↦ elim (Bool-cases (text_eq ext json_name)) [
      | inl here ↦
          let back =
            AreInverse.json inverse d text (boxed_lem (Formats.json_to M d) (ground arith)) in
          rw (away, here, back) refl
      | inr none_of_both ↦ ground arith
    ]
  ]

  module _ (p : FilePath) (now later : Now) (this : Config F M) (w : W) (inverse : AreInverse M)
      {text : Text} where
    read-Written :
        (r : Result (Failure E) (Unit {0}) × Config F M × W)
        → Written F M p now this w r
        → r.0 ≡ success tt
        → Fs.read_to_string F p r.2 ≡ success text
        → read F M p later r.2
          ≡ success (record { path = p; content = this.content; modify = now_modify later })
    unfolding read parse
    read-Written (failure e, this', w') s done got = cc
    read-Written (success u, this', w') ((t, printed, there), s) done got =
        let same : text ≡ t = some_inj.0 (sym (Fs.read_lem F p w' text got) ∙ there) in
        let back =
          read_format-write_format inverse (ext_of F M p) this.content text
            (printed ∙ ap success (sym same)) in
        rw (got, back)

  -- Where the temporary path differs from `p` and the formats are inverse: if `write` to `p` succeeds and the
  -- operating system reads the file, `read` succeeds with the same data, for both formats.
  pub read-write :
      (p : FilePath) (now later : Now) (this : Config F M) (w : W) {text : Text}
      → AreInverse M
      → p ≢ tmp_path F M p
      → (write F M p now this w).0 ≡ success tt
      → Fs.read_to_string F p (write F M p now this w).2 ≡ success text
      → read F M p later (write F M p now this w).2
        ≡ success (record { path = p; content = this.content; modify = now_modify later })
  read-write p now later this w inverse apart =
      read-Written p now later this w inverse (write F M p now this w)
        (write-OthersStay F M p now this w apart).0
