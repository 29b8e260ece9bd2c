-- ===== src/Config/Saving.antt =====
-- What `Config::write` of src/config/mod.rs does to the files, and that `Config::read` reads it back.
use atoman_rs.Prelude.{◌≡◌, ◌≢◌, refl, ap, sym, ◌∙◌, Option, none, some, Text}
use atoman_rs.Prelude.Result.{Result, success, failure}
use atoman_rs.State.Update.{through_guard}
use atoman_rs.Config.Files.{Fs, Formats}
use atoman_rs.Config.{
  Now, now_modify, Failure, Config, ext_of, write_format, tmp_path, make_parent, after_rename,
  after_write, after_parent, save_text, after_save, write_text, write,
}

module _ {T : Type 0} (F : Fs) (M : Formats T (Fs.E F)) where
  open F use {W, FilePath, E, contents}

  -- Files that are neither the one at `p` nor its temporary one are as they were.
  abbrev OthersStay : FilePath → W → W → Type 0
  OthersStay p w w' = (q : FilePath) → q ≢ tmp_path F M p → q ≢ p → contents w' q ≡ contents w q

  -- The file at `p` has the text, or is as it was if there was an error.
  abbrev Saved : FilePath → Text → W → Result E (Unit {0}) × W → Type 0
  Saved p text w (success u, w') = (contents w' p ≡ some text) × OthersStay p w w'
  Saved p text w (failure e, w') = (contents w' p ≡ contents w p) × OthersStay p w w'

  module _ (p : FilePath) (text : Text) (apart : p ≢ tmp_path F M p) (w : W) where
    after_rename-Saved :
        (w₁ : W) (r : Result E (Unit {0}) × W)
        → Fs.rename F (tmp_path F M p) p w₁ ≡ r
        → contents w₁ (tmp_path F M p) ≡ some text
        → contents w₁ p ≡ contents w p
        → OthersStay p w w₁
        → Saved p text w (after_rename F M p r)
    unfolding after_rename
    after_rename-Saved w₁ (success u, w') e there old others =
        let t = tmp_path F M p in
        let done : (Fs.rename F t p w₁).0 ≡ success tt = ap (λ r. r.0) e in
        let end : (Fs.rename F t p w₁).1 ≡ w' = ap (λ r. r.1) e in
        (
          ap (λ w. contents w p) (sym end) ∙ Fs.rename_lem F t p w₁ done ∙ there,
          λ q n m.
              ap (λ w. contents w q) (sym end) ∙ Fs.rename_others F t p q w₁ n m ∙ others q n m,
        )
    after_rename-Saved w₁ (failure f, w') e there old others =
        let t = tmp_path F M p in
        let failed : (Fs.rename F t p w₁).0 ≡ failure f = ap (λ r. r.0) e in
        let end : (Fs.rename F t p w₁).1 ≡ w' = ap (λ r. r.1) e in
        let same : (q : FilePath) → q ≢ t → contents (Fs.remove_file F t w') q ≡ contents w₁ q =
          λ q n.
            Fs.remove_others F t q w' n
            ∙ ap (λ w. contents w q) (sym end)
            ∙ Fs.rename_failed F t p q w₁ failed in
        (same p apart ∙ old, λ q n m. same q n ∙ others q n m)

    after_write-Saved :
        (w₁ : W) (r : Result E (Unit {0}) × W)
        → Fs.write F (tmp_path F M p) text w₁ ≡ r
        → ((q : FilePath) → contents w₁ q ≡ contents w q)
        → Saved p text w (after_write F M p r)
    unfolding after_write
    after_write-Saved w₁ (success u, w₂) e same =
        let t = tmp_path F M p in
        let done : (Fs.write F t text w₁).0 ≡ success tt = ap (λ r. r.0) e in
        let end : (Fs.write F t text w₁).1 ≡ w₂ = ap (λ r. r.1) e in
        let stays : (q : FilePath) → q ≢ t → contents (Fs.sync F t w₂) q ≡ contents w q = λ q n.
          Fs.sync_lem F t q w₂
          ∙ ap (λ w. contents w q) (sym end)
          ∙ Fs.write_others F t q text w₁ n
          ∙ same q in
        after_rename-Saved (Fs.sync F t w₂) (Fs.rename F t p (Fs.sync F t w₂)) refl
          (Fs.sync_lem F t t w₂ ∙ ap (λ w. contents w t) (sym end) ∙ Fs.write_lem F t text w₁ done)
          (stays p apart) (λ q n m. stays q n)
    after_write-Saved w₁ (failure f, w₂) e same =
        let t = tmp_path F M p in
        let end : (Fs.write F t text w₁).1 ≡ w₂ = ap (λ r. r.1) e in
        let stays : (q : FilePath) → q ≢ t → contents w₂ q ≡ contents w q =
          λ q n. ap (λ w. contents w q) (sym end) ∙ Fs.write_others F t q text w₁ n ∙ same q in
        (stays p apart, λ q n m. stays q n)

    after_parent-Saved :
        (r : Result E (Unit {0}) × W)
        → ((q : FilePath) → contents r.1 q ≡ contents w q)
        → Saved p text w (after_parent F M p text r)
    unfolding after_parent
    after_parent-Saved (success u, w₁) same =
        after_write-Saved w₁ (Fs.write F (tmp_path F M p) text w₁) refl same
    after_parent-Saved (failure f, w₁) same = (same p, λ q n m. same q)

    make_parent-contents : (q : FilePath) → contents (make_parent F M p w).1 q ≡ contents w q
    unfolding make_parent
    make_parent-contents q = at (Fs.parent F p)
      where
        at :
            (o : Option FilePath)
            → contents
                (elim o as (λ o. Result E (Unit {0}) × W) [
                  | none ↦ (success tt, w)
                  | some d ↦ Fs.create_dir_all F d w
                ]).1
                q
              ≡ contents w q
        at none = refl
        at (some d) = Fs.create_dir_all_lem F d q w

    save_text-Saved : Saved p text w (save_text F M p text w)
    unfolding save_text
    save_text-Saved = after_parent-Saved (make_parent F M p w) make_parent-contents

  -- What `write` to `p` has done: on success the file at `p` has the text of the data and the configuration
  -- that path and the times of now; on an error the file is as it was.
  abbrev pub Written :
      FilePath → Now → Config F M → W → Result (Failure E) (Unit {0}) × Config F M × W → Type 0
  Written p now this w (success u, this', w') =
      ((text : Text) × (write_format F M (ext_of F M p) this.content ≡ success text)
        × (contents w' p ≡ some text))
      × (this' ≡ record { path = p; content = this.content; modify = now_modify now })
  Written p now this w (failure e, this', w') =
      (contents w' p ≡ contents w p) × (this' ≡ record this { path = p })

  module _ (p : FilePath) (now : Now) (this : Config F M) (w : W) (apart : p ≢ tmp_path F M p) where
    after_save-Written :
        (text : Text) (r : Result E (Unit {0}) × W)
        → write_format F M (ext_of F M p) this.content ≡ success text
        → Saved p text w r
        → let r' = after_save F M now (record this { path = p }) r in
          Written p now this w r' × OthersStay p w r'.2
    unfolding after_save through_guard
    after_save-Written text (success u, w') e s = (((text, e, s.0), refl), s.1)
    after_save-Written text (failure f, w') e s = ((s.0, refl), s.1)

    write_text-Written :
        (r : Result (Failure E) Text)
        → write_format F M (ext_of F M p) this.content ≡ r
        → let r' = write_text F M now (record this { path = p }) w r in
          Written p now this w r' × OthersStay p w r'.2
    unfolding write_text
    write_text-Written (success text) e =
        after_save-Written text (save_text F M p text w) e (save_text-Saved p text apart w)
    write_text-Written (failure f) e = ((refl, refl), λ q n m. refl)

    pub write-OthersStay :
        Written p now this w (write F M p now this w) × OthersStay p w (write F M p now this w).2
    unfolding write
    write-OthersStay = write_text-Written (write_format F M (ext_of F M p) this.content) refl

  -- Where the temporary path differs from `p`: if `write` to `p` succeeds, the file at `p` has the text
  -- of the data and the configuration the path and the present times; if it gives an error, the file at `p`
  -- is as it was and the configuration has only a new path. Any third file is as it was.
  pub write-Written :
      (p q : FilePath) (now : Now) (this : Config F M) (w : W)
      → p ≢ tmp_path F M p
      → q ≢ tmp_path F M p
      → q ≢ p
      → Written p now this w (write F M p now this w)
        × (contents (write F M p now this w).2 q ≡ contents w q)
  write-Written p q now this w apart no_tmp other_file =
      let r = write-OthersStay p now this w apart in (r.0, r.1 q no_tmp other_file)
