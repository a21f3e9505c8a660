-- ===== src/Prelude/Text.antt =====
-- The operations of Rust's `str` that the program calls, by recursion on the characters.
pub mod Laws
pub mod Number
pub mod Split
use Prim.Native.Nat.{ℕ}
use Prim.Native.Char.{Char, code}
use Prim.Native.String.{String, [], ◌∷◌}
use mathlib.Core.Bool.{Bool, true, false, ◌&&◌, ◌||◌}
use mathlib.Core.Option
use mathlib.Core.Option.{Option, none, some}
use mathlib.Core.List
use mathlib.Core.List.{List}
use ignited.Prelude.Tests.{eqb, leb, if◌then◌else◌}

-- This append computes on a known beginning, where the native one waits for both texts.
infixr 65 ◌⧺◌
abbrev pub ◌⧺◌ : String → String → String
[] ⧺ t = t
(c ∷ s) ⧺ t = c ∷ (s ⧺ t)

abbrev pub is : ℕ → Char → Bool
is b c = eqb (code c) b

abbrev pub prepend : Char → String × String → String × String
prepend c (a, b) = (c ∷ a, b)

-- `str::split_once` at a character.
unfoldable pub split_once : ℕ → String → Option (String × String)
split_once sep [] = none
split_once sep (c ∷ s) =
    if is sep c then some ([], s) else Option.map (prepend c) (split_once sep s)

abbrev pub push_front : Char → List String → List String
push_front c List.[] = List.◌∷◌ (c ∷ []) List.[]
push_front c (List.◌∷◌ p ps) = List.◌∷◌ (c ∷ p) ps

-- `str::split` at a character: always at least one piece.
unfoldable pub split : ℕ → String → List String
split sep [] = List.◌∷◌ [] List.[]
split sep (c ∷ s) =
    let rest = split sep s in if is sep c then List.◌∷◌ [] rest else push_front c rest

-- `[String]::join`
unfoldable pub join : String → List String → String
join sep List.[] = []
join sep (List.◌∷◌ p List.[]) = p
join sep (List.◌∷◌ p (List.◌∷◌ q ps)) = p ⧺ sep ⧺ join sep (List.◌∷◌ q ps)

-- `str::strip_prefix`, the prefix first.
unfoldable pub strip_prefix : String → String → Option String
strip_prefix [] s = some s
strip_prefix (p ∷ ps) [] = none
strip_prefix (p ∷ ps) (c ∷ s) = if is (code p) c then strip_prefix ps s else none

-- `str::strip_suffix` of one character.
unfoldable pub strip_last : ℕ → String → Option String
strip_last b [] = none
strip_last b (c ∷ []) = if is b c then some [] else none
strip_last b (c ∷ d ∷ s) = Option.map (λ t. c ∷ t) (strip_last b (d ∷ s))

abbrev pub is_some {ℓ} : {A : Type ℓ} → Option A → Bool
is_some none = false
is_some (some a) = true

-- `str::starts_with`
abbrev pub starts_with : String → String → Bool
starts_with p s = is_some (strip_prefix p s)

-- `str::split_once` at a text.
unfoldable pub split_once_at : String → String → Option (String × String)
unfolding strip_prefix
split_once_at sep [] = Option.map (λ r. ([], r)) (strip_prefix sep [])
split_once_at sep (c ∷ s) =
    let later = Option.map (prepend c) (split_once_at sep s) in
    elim (strip_prefix sep (c ∷ s)) [ none ↦ later | some r ↦ some ([], r) ]

-- `str::replace` of a character by a character.
unfoldable pub replace : ℕ → Char → String → String
replace b d [] = []
replace b d (c ∷ s) = (if is b c then d else c) ∷ replace b d s

-- Whether a character occurs in the text.
unfoldable pub has : ℕ → String → Bool
has b [] = false
has b (c ∷ s) = is b c || has b s

abbrev between : ℕ → ℕ → ℕ → Bool
between lo hi n = leb lo n && leb n hi

-- `char::is_whitespace`, the Unicode property White_Space.
pub is_whitespace : ℕ → Bool
is_whitespace n =
    between 9 13 n
    || eqb n 32
    || eqb n 0x85
    || eqb n 0xa0
    || eqb n 0x1680
    || between 0x2000 0x200a n
    || between 0x2028 0x2029 n
    || eqb n 0x202f
    || eqb n 0x205f
    || eqb n 0x3000

unfoldable pub trim_start : String → String
unfolding is_whitespace
trim_start [] = []
trim_start (c ∷ s) = if is_whitespace (code c) then trim_start s else c ∷ s

-- A character before a text whose end is trimmed: it goes if it is white and nothing is left.
abbrev push_trimmed : Char → String → String
push_trimmed c [] = if is_whitespace (code c) then [] else c ∷ []
push_trimmed c (d ∷ s) = c ∷ d ∷ s

unfoldable pub trim_end : String → String
unfolding is_whitespace
trim_end [] = []
trim_end (c ∷ s) = push_trimmed c (trim_end s)

-- `str::trim`
unfoldable pub trim : String → String
unfolding trim_start trim_end
trim s = trim_end (trim_start s)
