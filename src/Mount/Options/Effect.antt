-- ===== src/Mount/Options/Effect.antt =====
-- `rootflags=`: the flags that a value sets and clears.
use ignited.Prelude.{
  String, Bool, true, false, ◌≡◌, refl, Option, none, some, List, [], ◌∷◌, arith, or_else,
  or_else-none, or_else_assoc, ◌++◌, sym, ap, ◌∙◌, unwrap_or, unwrap_or-or_else, if◌then◌else◌,
}
use ignited.Prelude.Text.{split}
use ignited.Mount.Options.Flags.{FlagsCrate, FlagsLaws, MsFlag, same}
use ignited.Mount.Options.{
  OptEdit, insert, remove, ignore, append, edit_of, Builder, apply_edit, add_opt, add_each,
  add_opts,
}

-- What an edit says of a flag, if anything.
abbrev pub says : MsFlag → OptEdit → Option Bool
says a (insert b) = if same b a then some true else none
says a (remove b) = if same b a then some false else none
says a _ = none

-- What the last word that names the flag says of it.
unfoldable pub last_word : MsFlag → List String → Option Bool
last_word a [] = none
last_word a (w ∷ ws) = or_else (last_word a ws) (says a (edit_of w))

pub last_word-append :
    (a : MsFlag) (xs ys : List String)
    → last_word a (xs ++ ys) ≡ or_else (last_word a ys) (last_word a xs)
unfolding last_word
last_word-append a [] ys = sym (or_else-none _)
last_word-append a (x ∷ xs) ys =
    ap (λ o. or_else o (says a (edit_of x))) (last_word-append a xs ys)
    ∙ or_else_assoc (last_word a ys) (last_word a xs) (says a (edit_of x))

module _ {Uuid : Type 0} (f : FlagsCrate) (laws : FlagsLaws f) where
  open laws use {contains-of, contains-insert, contains-remove}

  contains-apply_edit :
      (e : OptEdit) (w : String) (b : Builder Uuid f) (a : MsFlag)
      → f.contains (apply_edit f e w b).flags a ≡ unwrap_or (says a e) (f.contains b.flags a)
  contains-apply_edit (insert c) w b a =
      ground (arith, contains-insert b.flags (f.of c) a, contains-of a c)
  contains-apply_edit (remove c) w b a =
      ground (arith, contains-remove b.flags (f.of c) a, contains-of a c)
  contains-apply_edit ignore w b a = refl
  contains-apply_edit append w b a = refl

  contains-add_each :
      (b : Builder Uuid f) (ws : List String) (a : MsFlag)
      → f.contains (add_each f b ws).flags a ≡ unwrap_or (last_word a ws) (f.contains b.flags a)
  unfolding add_each last_word add_opt
  contains-add_each b [] a = refl
  contains-add_each b (w ∷ ws) a =
      rw (contains-add_each (add_opt f b w) ws a, contains-apply_edit (edit_of w) w b a)
        (unwrap_or-or_else (last_word a ws) (says a (edit_of w)) (f.contains b.flags a))

  -- After `rootflags=` a flag is as the last word that names it says, and as before if none does.
  pub contains-add_opts :
      (b : Builder Uuid f) (opts : String) (a : MsFlag)
      → f.contains (add_opts f b opts).flags a
        ≡ unwrap_or (last_word a (split b',' opts)) (f.contains b.flags a)
  unfolding add_opts
  contains-add_opts b opts a = contains-add_each b (split b',' opts) a
