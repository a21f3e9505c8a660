-- ===== src/Mount/Options/Flags.antt =====
-- The `MsFlags` of the `nix` crate as an interface: a set of flags, with the operations that the
-- program calls.
use ignited.Prelude.{ℕ, Bool, false, not, ◌≡◌, eqb, ◌||◌, ◌&&◌, if◌then◌else◌}

-- The constants MS_… that the program names.
pub data MsFlag : Type 0 where
  rdonly nosuid nodev noexec synchronous dirsync noatime nodiratime : MsFlag
  move silent relatime strictatime lazytime : MsFlag

abbrev pub index : MsFlag → ℕ
index rdonly = 0
index nosuid = 1
index nodev = 2
index noexec = 3
index synchronous = 4
index dirsync = 5
index noatime = 6
index nodiratime = 7
index move = 8
index silent = 9
index relatime = 10
index strictatime = 11
index lazytime = 12

abbrev pub same : MsFlag → MsFlag → Bool
same a b = eqb (index a) (index b)

pub record FlagsCrate : Type 1 where
  pub Flags : Type 0
  pub empty : Flags
  pub of : MsFlag → Flags
  pub union : Flags → Flags → Flags
  pub insert : Flags → Flags → Flags
  pub remove : Flags → Flags → Flags
  pub set : Flags → Flags → Bool → Flags
  pub contains : Flags → MsFlag → Bool

-- The documented behaviour of a set of distinct flags.
pub record FlagsLaws (f : FlagsCrate) : Type 0 where
  pub contains-empty : (a : MsFlag) → f.contains f.empty a ≡ false
  pub contains-of : (a b : MsFlag) → f.contains (f.of b) a ≡ same b a
  pub contains-union :
      (s t : f.Flags) (a : MsFlag) → f.contains (f.union s t) a ≡ (f.contains s a || f.contains t a)
  pub contains-insert :
      (s t : f.Flags) (a : MsFlag)
      → f.contains (f.insert s t) a ≡ (f.contains s a || f.contains t a)
  pub contains-remove :
      (s t : f.Flags) (a : MsFlag)
      → f.contains (f.remove s t) a ≡ (f.contains s a && not (f.contains t a))
  pub contains-set :
      (s t : f.Flags) (b : Bool) (a : MsFlag)
      → f.contains (f.set s t b) a
        ≡ (if b then f.contains s a || f.contains t a else f.contains s a && not (f.contains t a))
