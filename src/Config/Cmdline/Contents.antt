-- ===== src/Config/Cmdline/Contents.antt =====
-- The variables that collect: the words of `rootflags=`, and the module parameters.
use mathlib.Core.List.{foldl, append-nil}
use ignited.Prelude.{
  String, Bool, true, false, ◌≡◌, refl, ap, sym, ◌∙◌, Option, none, some, List, [], ◌∷◌, ◌++◌, ◌==◌,
  arith, unwrap_or, unwrap_or-or_else, if◌then◌else◌, concat_map, Option-cases, inl, inr,
}
use ignited.Prelude.Text.{split, split_once}
use ignited.Logging.Buffer.{KmsgBuf}
use ignited.Mount.Source.{UuidCrate}
use ignited.Mount.Options.{FlagsCrate, MsFlag, FlagsLaws}
use ignited.Mount.Options.Words.{
  joined, other_words, options-add_opts, other_words-append, joined-joined, joined-nil,
}
use ignited.Mount.Options.Effect.{last_word, contains-add_opts, last_word-append}
use ignited.Module.Params.{ModParams, normalize_module, get_params, entry_text}
use ignited.Module.Params.Laws.{get_params-insert}
use ignited.Config.Cmdline.{State, split_arg, dispatch, parse_arg}
use ignited.Config.Cmdline.Handlers.{parse_mod_param}
use ignited.Config.Cmdline.Arguments.{by, flags_by}
use ignited.Config.Cmdline.Keys.{Key, key_of, quiet, rootflags, mod_param}

abbrev words_in : Option String → List String
words_in none = []
words_in (some value) = split b',' value

-- The words of an argument `rootflags=…`; none of any other argument.
abbrev pub root_words : String → List String
root_words arg = words_in (by flags_by arg)

-- The parameter for one module that a value of a key `<module>.<param>` gives.
abbrev param_of : String → Option (String × String) → String → List String
param_of j none value = []
param_of j (some (m, param)) value =
    if normalize_module m == normalize_module j then entry_text param value ∷ [] else []

abbrev params_by : String → Key → String → Option String → List String
params_by j mod_param name (some value) = param_of j (split_once b'.' name) value
params_by j _ name v = []

-- The parameters for one module that an argument gives.
abbrev pub params_for : String → String → List String
params_for j arg = let (k, v) = split_arg arg in params_by j (key_of k) k v

append_if :
    (l : List String) (x : String) (b : Bool)
    → (if b then l ++ x ∷ [] else l) ≡ l ++ (if b then x ∷ [] else [])
append_if l x true = refl
append_if l x false = sym (append-nil l)

get_params-parse_mod_param :
    (b : KmsgBuf) (p : ModParams) (j name value : String)
    → get_params (parse_mod_param b p name (some value)).1 j
      ≡ get_params p j ++ param_of j (split_once b'.' name) value
unfolding parse_mod_param
get_params-parse_mod_param b p j name value = elim (Option-cases (split_once b'.' name)) [
  | inl no_dot ↦ rw (parse_mod_param, param_of, no_dot) (sym (append-nil _))
  | inr ((m, param), dot) ↦
      rw (parse_mod_param, param_of, dot)
        (get_params-insert p m param value j
          ∙ append_if (get_params p j) (entry_text param value)
              (normalize_module m == normalize_module j))
]

module _ (u : UuidCrate) (f : FlagsCrate) where
  options-dispatch :
      (k : Key) (name : String) (v : Option String) (s : State u f)
      → (dispatch u f k name v s).1.root_opts.options
        ≡ joined s.root_opts.options (other_words (words_in (flags_by k v)))
  unfolding dispatch other_words
  options-dispatch quiet name v s = sym (joined-nil _)
  options-dispatch rootflags name (some v) s = options-add_opts f s.root_opts v
  options-dispatch _ name v s = ground (arith, joined-nil s.root_opts.options)

  contains-dispatch :
      FlagsLaws f
      → (a : MsFlag) (k : Key) (name : String) (v : Option String) (s : State u f)
      → f.contains (dispatch u f k name v s).1.root_opts.flags a
        ≡ unwrap_or (last_word a (words_in (flags_by k v))) (f.contains s.root_opts.flags a)
  unfolding dispatch last_word
  contains-dispatch laws a quiet name v s = refl
  contains-dispatch laws a rootflags name (some v) s = contains-add_opts f laws s.root_opts v a
  contains-dispatch laws a _ name v s = ground arith

  params-dispatch :
      (j : String) (k : Key) (name : String) (v : Option String) (s : State u f)
      → get_params (dispatch u f k name v s).1.mod_params j
        ≡ get_params s.mod_params j ++ params_by j k name v
  unfolding dispatch
  params-dispatch j mod_param name none s = sym (append-nil _)
  params-dispatch j mod_param name (some value) s =
      get_params-parse_mod_param s.kmsg_buf s.mod_params j name value
  params-dispatch j _ name v s = sym (append-nil _)

  pub options-parse_arg :
      (s : State u f) (arg : String)
      → (parse_arg u f s arg).1.root_opts.options
        ≡ joined s.root_opts.options (other_words (root_words arg))
  unfolding parse_arg
  options-parse_arg s arg = let (k, v) = split_arg arg in options-dispatch (key_of k) k v s

  pub contains-parse_arg :
      FlagsLaws f
      → (a : MsFlag) (s : State u f) (arg : String)
      → f.contains (parse_arg u f s arg).1.root_opts.flags a
        ≡ unwrap_or (last_word a (root_words arg)) (f.contains s.root_opts.flags a)
  unfolding parse_arg
  contains-parse_arg laws a s arg =
      let (k, v) = split_arg arg in contains-dispatch laws a (key_of k) k v s

  pub params-parse_arg :
      (j : String) (s : State u f) (arg : String)
      → get_params (parse_arg u f s arg).1.mod_params j
        ≡ get_params s.mod_params j ++ params_for j arg
  unfolding parse_arg
  params-parse_arg j s arg = let (k, v) = split_arg arg in params-dispatch j (key_of k) k v s

-- Folding over the words of each argument is folding over all words.
pub foldl-joined :
    (o : Option String) (args : List String)
    → foldl (λ (o : Option String) arg. joined o (other_words (root_words arg))) o args
      ≡ joined o (other_words (concat_map root_words args))
foldl-joined o [] = unfold other_words in sym (joined-nil o)
foldl-joined o (arg ∷ args) =
    foldl-joined (joined o (other_words (root_words arg))) args
    ∙ joined-joined o (other_words (root_words arg)) (other_words (concat_map root_words args))
    ∙ ap (joined o) (sym (other_words-append (root_words arg) (concat_map root_words args)))

pub foldl-last_word :
    (a : MsFlag) (b : Bool) (args : List String)
    → foldl (λ (b : Bool) arg. unwrap_or (last_word a (root_words arg)) b) b args
      ≡ unwrap_or (last_word a (concat_map root_words args)) b
foldl-last_word a b [] = unfold last_word in refl
foldl-last_word a b (arg ∷ args) =
    foldl-last_word a (unwrap_or (last_word a (root_words arg)) b) args
    ∙ unwrap_or-or_else (last_word a (concat_map root_words args)) (last_word a (root_words arg)) b
    ∙ ap (λ o. unwrap_or o b)
        (sym (last_word-append a (root_words arg) (concat_map root_words args)))
