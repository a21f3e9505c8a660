-- ===== src/Logging/Visible.antt =====
-- What reaches the device: the entries at or under the threshold, in the order of the calls.
use mathlib.Core.List.{append_assoc, append-nil}
use ignited.Prelude.{
  ◌≤◌, String, ◌≡◌, ◌∙◌, true, inl, inr, List, [], ◌∷◌, ◌++◌, arith, Bool-cases, if◌then◌else◌,
}
use ignited.Logging.{VerbosityLevel, rank, is_visible, KConsole, entry_line, print_message_ln}
use ignited.Logging.Buffer.{KmsgBufEntry, drain}

-- The lines that a console with this threshold writes for these entries.
unfoldable pub visible_lines : VerbosityLevel → List KmsgBufEntry → List String
visible_lines threshold [] = []
visible_lines threshold (e ∷ es) =
    let rest = visible_lines threshold es in
    if is_visible threshold e.level then entry_line e.level e.args ∷ rest else rest

pub drain_lem :
    (kcon : KConsole) (es : List KmsgBufEntry)
    → drain kcon es ≡ record kcon { handle = kcon.handle ++ visible_lines kcon.current_level es }
unfolding drain visible_lines
drain_lem kcon [] = rw append-nil
drain_lem kcon (e ∷ es) = elim (Bool-cases (is_visible kcon.current_level e.level)) [
  | inl shown ↦
      drain_lem (print_message_ln kcon e.level e.args) es
      ∙ (unfold print_message_ln in rw shown (rw append_assoc))
  | inr hidden ↦
      drain_lem (print_message_ln kcon e.level e.args) es ∙ (unfold print_message_ln in rw hidden)
]

-- A line that is written stays written when the threshold is raised: the lines under the lower
-- threshold are a subsequence of those under the higher.
pub data Subsequence : List String → List String → Type 0 where
  done : Subsequence [] []
  keep : {x : String} {xs ys : List String} → Subsequence xs ys → Subsequence (x ∷ xs) (x ∷ ys)
  skip : {y : String} {xs ys : List String} → Subsequence xs ys → Subsequence xs (y ∷ ys)

is_visible_mono :
    (low high level : VerbosityLevel)
    → rank low ≤ rank high
    → is_visible low level ≡ true
    → is_visible high level ≡ true
is_visible_mono low high level h v = ground arith

pub visible_lines_mono :
    (low high : VerbosityLevel) (es : List KmsgBufEntry)
    → rank low ≤ rank high
    → Subsequence (visible_lines low es) (visible_lines high es)
unfolding visible_lines
visible_lines_mono low high [] h = done
visible_lines_mono low high (e ∷ es) h = elim (Bool-cases (is_visible low e.level)) [
  | inl shown ↦
      rw (shown, is_visible_mono low high e.level h shown) (keep (visible_lines_mono low high es h))
  | inr hidden ↦ rw hidden (elim (Bool-cases (is_visible high e.level)) [
    | inl late ↦ rw late (skip (visible_lines_mono low high es h))
    | inr still ↦ rw still (visible_lines_mono low high es h)
  ])
]
