-- ===== src/Boot/CStrings.antt =====
-- The texts that `exec_target_init` of src/main.rs calls `execv` with, from the command line on.
use mathlib.Core.Path.{subst}
use ignited.Prelude.{
  ℕ, String, false, ◌≡◌, refl, sym, ap, inl, inr, Option, none, some, List, [], ◌∷◌, All,
  Bool-cases, find_map, or_else, unwrap_or,
}
use ignited.Prelude.Text.{has}
use ignited.Prelude.Text.Number.Digits.{has_null-show}
use ignited.Prelude.Outcome.{ok}
use ignited.Logging.{KConsole}
use ignited.Config.Cmdline.{CmdlineArgs, init_default_path, parse_inner}
use ignited.Config.Cmdline.Arguments.{by, init_by, valid_path}
use ignited.Config.Cmdline.Keys.{Key, init}
use ignited.Config.Cmdline.Results.{parse_inner_first}
use ignited.Config.Current.{Environment, parse_current}
use ignited.Config.Current.Root.{parse_current-HasRoot}
use ignited.Module.Aliases.{GlobCrate}
use ignited.Mount.Source.{UuidCrate}
use ignited.Mount.Options.{FlagsCrate}
use ignited.Time.{InitramfsTimer}
use ignited.Boot.Exit.{handed_over}
use ignited.Boot.World.{World, State}
use ignited.Boot.Target.{systemd_args, exec_target_init}
use ignited.Boot.HandOver.{exec_target_init-ArgsFor}

abbrev pub IsCString : String → Type 0
IsCString s = has 0 s ≡ false

-- A text, if there is one.
abbrev Given : Option String → Type 0
Given none = Unit
Given (some s) = IsCString s

valid_path-Given : (value : Option String) → Given (valid_path value)
valid_path-Given none = tt
valid_path-Given (some path) = elim (Bool-cases (has 0 path)) [
  | inl null ↦ rw null tt
  | inr fine ↦ rw fine fine
]

init_by-Given : (k : Key) (value : Option String) → Given (init_by k value)
init_by-Given init value = valid_path-Given value
init_by-Given _ value = tt

or_else-Given : (a b : Option String) → Given a → Given b → Given (or_else a b)
or_else-Given none b x y = y
or_else-Given (some s) b x y = x

find_map-Given : (args : List String) → Given (find_map (by init_by) args)
find_map-Given [] = tt
find_map-Given (arg ∷ args) =
    or_else-Given (by init_by arg) (find_map (by init_by) args) (init_by-Given _ _)
      (find_map-Given args)

unwrap_or-IsCString :
    (o : Option String) (d : String) → Given o → IsCString d → IsCString (unwrap_or o d)
unwrap_or-IsCString none d x y = y
unwrap_or-IsCString (some s) d x y = x

module _ {u : UuidCrate} {f : FlagsCrate} {g : GlobCrate} (w : World u f g) where
  init-IsCString :
      (kcon : KConsole) (words : List String) {c : CmdlineArgs u.Uuid f.Flags}
      → (parse_inner u f kcon words).0 ≡ ok c
      → IsCString c.init
  init-IsCString kcon words parsed =
      subst IsCString (sym (parse_inner_first u f kcon words parsed).0) (
        unwrap_or-IsCString (find_map (by init_by) words) init_default_path (find_map-Given words)
          (unfold has in refl))

  systemd_args-IsCString :
      (path : String) (fd : ℕ) → IsCString path → All IsCString (systemd_args w path fd)
  unfolding has
  systemd_args-IsCString path fd fine = (fine, (refl, (refl, (refl, (has_null-show fd, tt)))))

  -- If the program becomes another one with the arguments that it read from the command line, the
  -- path and every argument that it is executed with are C strings: none has a null character.
  pub exec_target_init-IsCString :
      (env : Environment u.Uuid) (kcon : KConsole) (timer : InitramfsTimer)
      (args : CmdlineArgs u.Uuid f.Flags) (h : State w) (path : String) (argv : List String)
      → (parse_current u f env kcon).0 ≡ ok args
      → (exec_target_init w timer args h).0 ≡ handed_over path argv
      → All IsCString (path ∷ argv)
  exec_target_init-IsCString env kcon timer args h path argv read e =
      let (buf, c, text, parsed, (src, same, root)) = parse_current-HasRoot u f env kcon read in
      let fine : IsCString args.init =
        subst IsCString (sym (ap (λ (a : CmdlineArgs u.Uuid f.Flags). a.init) same))
          (init-IsCString kcon _ parsed) in
      let (path_same, (h', switched, given)) =
        exec_target_init-ArgsFor w timer args h path argv e in
      let all : All IsCString argv = elim given [
        | inl (other, alone) ↦ subst (All IsCString) (sym alone) (fine, tt)
        | inr (compatible, (fd, recorded, full)) ↦
            subst (All IsCString) (sym full) (systemd_args-IsCString args.init fd fine)
      ] in
      (subst IsCString (sym path_same) fine, all)
