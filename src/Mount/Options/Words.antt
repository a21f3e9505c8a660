-- ===== src/Mount/Options/Words.antt =====
-- `rootflags=`: the words that are no flags, and several `rootflags=` in a row.
use ignited.Prelude.{
  String, ◌≡◌, refl, ap, ◌∙◌, sym, Option, none, some, List, [], ◌∷◌, ◌++◌, arith,
}
use ignited.Prelude.Text.{◌⧺◌, join, split}
use ignited.Prelude.Text.Laws.{⧺_assoc}
use ignited.Prelude.Text.Split.{split-append}
use ignited.Mount.Options.{
  FlagsCrate, OptEdit, append, edit_of, push_option, Builder, apply_edit, add_opt, add_each,
  add_opts,
}

abbrev is_kept : OptEdit → List String → String → List String
is_kept append rest w = w ∷ rest
is_kept _ rest w = rest

-- The words that are no flags, in their order.
unfoldable pub other_words : List String → List String
other_words [] = []
other_words (w ∷ ws) = is_kept (edit_of w) (other_words ws) w

-- Texts joined by commas behind a text that may be there already.
abbrev pub joined : Option String → List String → Option String
joined none [] = none
joined none (w ∷ ws) = some (join "," (w ∷ ws))
joined (some t) ws = some (join "," (t ∷ ws))

joined-push_option :
    (o : Option String) (w : String) (ws : List String)
    → joined (push_option o w) ws ≡ joined o (w ∷ ws)
unfolding join
joined-push_option none w ws = refl
joined-push_option (some t) w [] = refl
joined-push_option (some t) w (v ∷ ws) = ap some (⧺_assoc t ("," ⧺ w) ("," ⧺ join "," (v ∷ ws)))

other_words_kept :
    (e : OptEdit) (xs ys : List String) (w : String) → is_kept e (xs ++ ys) w ≡ is_kept e xs w ++ ys
other_words_kept append xs ys w = refl
other_words_kept _ xs ys w = refl

pub other_words-append :
    (xs ys : List String) → other_words (xs ++ ys) ≡ other_words xs ++ other_words ys
unfolding other_words
other_words-append [] ys = refl
other_words-append (x ∷ xs) ys =
    ap (λ l. is_kept (edit_of x) l x) (other_words-append xs ys)
    ∙ other_words_kept (edit_of x) (other_words xs) (other_words ys) x

pub joined-nil : (o : Option String) → joined o [] ≡ o
unfolding join
joined-nil none = refl
joined-nil (some t) = refl

pub joined-joined :
    (o : Option String) (xs ys : List String) → joined (joined o xs) ys ≡ joined o (xs ++ ys)
joined-joined o [] ys = rw joined-nil
joined-joined o (x ∷ xs) ys =
    ap (λ p. joined p ys) (sym (joined-push_option o x xs))
    ∙ joined-joined (push_option o x) xs ys
    ∙ joined-push_option o x (xs ++ ys)

module _ {Uuid : Type 0} (f : FlagsCrate) where
  joined-apply_edit :
      (e : OptEdit) (w : String) (b : Builder Uuid f) (ws : List String)
      → joined (apply_edit f e w b).options ws ≡ joined b.options (is_kept e ws w)
  joined-apply_edit append w b ws = joined-push_option b.options w ws
  joined-apply_edit _ w b ws = refl

  options-add_each :
      (b : Builder Uuid f) (ws : List String)
      → (add_each f b ws).options ≡ joined b.options (other_words ws)
  unfolding add_each other_words add_opt join
  options-add_each b [] = ground arith
  options-add_each b (w ∷ ws) =
      options-add_each (add_opt f b w) ws ∙ joined-apply_edit (edit_of w) w b (other_words ws)

  -- The option text of the builder: the words of the value that are no flags, in their order,
  -- joined by commas behind the text that was there.
  pub options-add_opts :
      (b : Builder Uuid f) (opts : String)
      → (add_opts f b opts).options ≡ joined b.options (other_words (split b',' opts))
  unfolding add_opts
  options-add_opts b opts = options-add_each b (split b',' opts)

  add_each-append :
      (b : Builder Uuid f) (xs ys : List String)
      → add_each f b (xs ++ ys) ≡ add_each f (add_each f b xs) ys
  unfolding add_each
  add_each-append b [] ys = refl
  add_each-append b (x ∷ xs) ys = add_each-append (add_opt f b x) xs ys

  -- Two `rootflags=` in a row do what one with both values, joined by a comma, does.
  pub add_opts-add_opts :
      (b : Builder Uuid f) (first second : String)
      → add_opts f (add_opts f b first) second ≡ add_opts f b (first ⧺ "," ⧺ second)
  unfolding add_opts
  add_opts-add_opts b first second =
      rw (split-append "," first second)
        (sym (add_each-append b (split b',' first) (split b',' second)))
