-- ===== src/Mount/Samples.antt =====
-- Concrete crates for the tests: two UUIDs with a text each, and sets of flags as functions.
use ignited.Prelude.{
  String, Bool, true, false, not, ◌||◌, ◌&&◌, ◌≡◌, refl, ap, Bool-cases, inl, inr, none, some,
  arith, ◌==◌, eq_iff, if◌then◌else◌,
}
use ignited.Prelude.Text.{◌⧺◌, has, starts_with, strip_prefix}
use ignited.Mount.Source.{UuidCrate}
use ignited.Mount.Source.Render.{UuidText}
use ignited.Mount.Options.{FlagsCrate, FlagsLaws, MsFlag, same}

abbrev pub uuid_a : Bool
uuid_a = true

abbrev pub uuid_b : Bool
uuid_b = false

abbrev pub two_uuids : UuidCrate
two_uuids = record {
  Uuid = Bool;
  from_str = λ s. if s == "aa-01" then some true else if s == "bb-02" then some false else none;
}

abbrev print_bool : Bool → String
print_bool true = "aa-01"
print_bool false = "bb-02"

abbrev pub two_texts : UuidText two_uuids
unfolding has
two_texts = record {
  print = print_bool;
  from_str-print = elim [ true ↦ refl | false ↦ refl ];
  print_unquoted = elim [ true ↦ refl | false ↦ refl ];
  print_no_slash = elim [ true ↦ refl | false ↦ refl ];
}

abbrev pub flag_functions : FlagsCrate
flag_functions = record {
  Flags = MsFlag → Bool;
  empty = λ a. false;
  of = λ b a. same b a;
  union = λ s t a. s a || t a;
  insert = λ s t a. s a || t a;
  remove = λ s t a. s a && not (t a);
  set = λ s t b a. if b then s a || t a else s a && not (t a);
  contains = λ s a. s a;
}

abbrev pub flag_functions_laws : FlagsLaws flag_functions
flag_functions_laws = record {
  contains-empty = λ a. refl;
  contains-of = λ a b. refl;
  contains-union = λ s t a. refl;
  contains-insert = λ s t a. refl;
  contains-remove = λ s t a. refl;
  contains-set = λ s t b a. refl;
}

other_start : (s t : String) → starts_with "/" t ≡ false → "/" ⧺ s == t ≡ false
unfolding strip_prefix
other_start s t h = elim (Bool-cases ("/" ⧺ s == t)) [
  | inl e ↦ absurd (ground (arith, ap (starts_with "/") ((eq_iff ("/" ⧺ s) t).0 e)))
  | inr e ↦ e
]

-- A UUID has no slash in front.
pub two_uuids_refuse : (s : String) → two_uuids.from_str ("/" ⧺ s) ≡ none
unfolding strip_prefix
two_uuids_refuse s = rw (other_start s "aa-01" refl, other_start s "bb-02" refl)
