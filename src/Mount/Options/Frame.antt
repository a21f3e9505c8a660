-- ===== src/Mount/Options/Frame.antt =====
-- `rootflags=` changes the flags and the option text alone.
use ignited.Prelude.{String, ◌≡◌, refl, ◌∙◌, List, [], ◌∷◌}
use ignited.Prelude.Text.{split}
use ignited.Mount.Options.{
  FlagsCrate, OptEdit, insert, edit_of, Builder, apply_edit, add_opt, add_each, add_opts,
}

module _ {Uuid : Type 0} (f : FlagsCrate) where
  module _ {A : Type 0} (field : Builder Uuid f → A)
      (same : (e : OptEdit) (w : String) (b : Builder Uuid f)
        → field (apply_edit f e w b) ≡ field b) where
    field-add_each : (b : Builder Uuid f) (ws : List String) → field (add_each f b ws) ≡ field b
    unfolding add_each add_opt
    field-add_each b [] = refl
    field-add_each b (w ∷ ws) = field-add_each (add_opt f b w) ws ∙ same (edit_of w) w b

    field-add_opts : (b : Builder Uuid f) (opts : String) → field (add_opts f b opts) ≡ field b
    unfolding add_opts
    field-add_opts b opts = field-add_each b (split b',' opts)

  source-apply_edit :
      (e : OptEdit) (w : String) (b : Builder Uuid f) → (apply_edit f e w b).source ≡ b.source
  source-apply_edit (insert c) w b = refl
  source-apply_edit _ w b = refl

  fstype-apply_edit :
      (e : OptEdit) (w : String) (b : Builder Uuid f) → (apply_edit f e w b).fstype ≡ b.fstype
  fstype-apply_edit (insert c) w b = refl
  fstype-apply_edit _ w b = refl

  is_rw-apply_edit :
      (e : OptEdit) (w : String) (b : Builder Uuid f) → (apply_edit f e w b).is_rw ≡ b.is_rw
  is_rw-apply_edit (insert c) w b = refl
  is_rw-apply_edit _ w b = refl

  pub source-add_opts : (b : Builder Uuid f) (opts : String) → (add_opts f b opts).source ≡ b.source
  source-add_opts = field-add_opts (λ b. b.source) source-apply_edit

  pub fstype-add_opts : (b : Builder Uuid f) (opts : String) → (add_opts f b opts).fstype ≡ b.fstype
  fstype-add_opts = field-add_opts (λ b. b.fstype) fstype-apply_edit

  pub is_rw-add_opts : (b : Builder Uuid f) (opts : String) → (add_opts f b opts).is_rw ≡ b.is_rw
  is_rw-add_opts = field-add_opts (λ b. b.is_rw) is_rw-apply_edit
