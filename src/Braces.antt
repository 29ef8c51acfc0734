-- ===== src/Braces.antt =====
-- cpplint.py, CheckBraces (lines 1993-2064).
pub mod Joins
use tpool.Base.{
  Bool, List, Option, [], drop, get_or, if◌then◌else◌, length, negsuc, none, not, pos, some, suc,
  zero, ℕ, ℤ, ◌&&◌, ◌++◌, ◌+◌, ◌-◌, ◌==◌, ◌||◌, ◌∷◌,
}
use tpool.Text.{Text, contains, count, find, text}
use tpool.Pattern.{matches, occurs}
use tpool.Pattern.Parse.{re}
use tpool.Report.{Effect, diagnose, only_if}
use tpool.Run.{Run, emit, or_run_on, raises, ◌>>=◌, ◌>>◌}
use tpool.Cleanse.{CleansedLines}
use tpool.Brackets.{Closed, close_expression}
use tpool.LineChecks.{get_previous_non_blank_line}

-- A brace that starts its line, and an else below a closing brace.
unfoldable pub line_start_reports : Text → Text → ℕ → List Effect
line_start_reports line prevline linenum =
    only_if (matches (re "\\s*{\\s*$") line && not (occurs (re "[;:}{]\\s*$") prevline)) (
      diagnose linenum "whitespace/braces" 4
        (text "{ should almost always be at the end of the previous line")
      ∷ [])
    ++ only_if (matches (re "\\s*else\\s*") line && matches (re "\\s*}\\s*$") prevline) (
        diagnose linenum "whitespace/newline" 4
          (text "An else should appear on the same line as the preceding }")
        ∷ [])

unfoldable pub both_sides : ℕ → List Effect
both_sides linenum =
    diagnose linenum "readability/braces" 5
      (text "If an else has a brace on one side, it should have it on both")
    ∷ []

-- line.find('(', line.find('else if')); a place past the first character.
unfoldable pub condition_start : Text → Option ℕ
unfolding find
condition_start line = elim (find line (text "else if")) [
  | none ↦ none
  | some i ↦ elim (find (drop i line) (text "(")) [ none ↦ none | some j ↦ some (i + j) ]
]

-- s[i:]
unfoldable pub slice_from : Text → ℤ → Text
slice_from s (pos n) = drop n s
slice_from s (negsuc n) = drop (length s - suc n) s

-- After an `else if` whose condition may go beyond the line, there must be a brace.
unfoldable pub close_reports : ℕ → Option Closed → Run (Unit {0})
unfolding slice_from both_sides contains
close_reports linenum none = ([], raises)
close_reports linenum (some closed) = emit (
    only_if (not (contains (slice_from closed.line closed.position) (text "{")))
      (both_sides linenum))

unfoldable pub condition_reports : CleansedLines → ℕ → Option ℕ → Run (Unit {0})
unfolding close_reports
condition_reports clean_lines linenum none = emit []
condition_reports clean_lines linenum (some zero) = emit []
condition_reports clean_lines linenum (some (suc i)) =
    close_reports linenum (close_expression clean_lines linenum (suc i))

unfoldable pub else_reports : CleansedLines → ℕ → Text → Run (Unit {0})
unfolding condition_reports condition_start both_sides
else_reports clean_lines linenum line =
    if occurs (re "}\\s*else[^{]*$") line || matches (re "[^}]*else\\s*{") line
    then (if occurs (re "}\\s*else if([^{]*)$") line
        then condition_reports clean_lines linenum (condition_start line)
        else emit (both_sides linenum))
    else emit []

unfoldable pub one_line_reports : Text → ℕ → List Effect
one_line_reports line linenum =
    only_if (occurs (re "\\belse [^\\s{]") line && not (occurs (re "\\belse if\\b") line)) (
      diagnose linenum "whitespace/newline" 4
        (text "Else clause should never be on same line as else (use 2 lines)")
      ∷ [])
    ++ only_if (matches (re "\\s*do [^\\s{]") line) (
        diagnose linenum "whitespace/newline" 4
          (text "do/while clauses should not be on a single line")
        ∷ [])

-- GetPreviousNonBlankLine, which gives no line and -1 for -1
abbrev pub before : CleansedLines → Option ℕ → Text × Option ℕ
before clean_lines none = ([], none)
before clean_lines (some linenum) = get_previous_non_blank_line clean_lines linenum

-- A block that ends in `;`, indented, with no `;` on the line in front.
unfoldable pub goes_on : Text → Text → Bool
unfolding count
goes_on line prevline = matches (re "\\s+{.*}\\s*;") line && count prevline (text ";") == 0

-- The `while True` loop: the lines in front are joined while the block goes on. `none` is a loop that
-- has not ended within the fuel.
unfoldable pub join_block : ℕ → CleansedLines → Text → Option ℕ → Option Text
unfolding goes_on
join_block zero clean_lines line prevlinenum = none
join_block (suc fuel) clean_lines line prevlinenum =
    let (prevline, above) = before clean_lines prevlinenum in
    let rest = join_block fuel clean_lines (prevline ++ line) above in
    if goes_on line prevline then rest else some line

unfoldable pub block_reports : Text → ℕ → List Effect
unfolding count
block_reports line linenum =
    only_if
      (occurs (re "{.*}\\s*;") line
        && (count line (text "{") == count line (text "}")
            && not (occurs (re "struct|class|enum|\\s*=\\s*{") line)))
      (diagnose linenum "readability/braces" 4 (text "You don't need a ; after a }") ∷ [])

-- CheckBraces; the loop has two rounds more than the number of the line as its fuel.
unfoldable pub check_braces : CleansedLines → ℕ → Run (Unit {0})
unfolding else_reports join_block
check_braces clean_lines linenum = do
  let line = get_or clean_lines.elided linenum []
  let prevline = (get_previous_non_blank_line clean_lines linenum).0
  emit (line_start_reports line prevline linenum)
  else_reports clean_lines linenum line
  emit (one_line_reports line linenum)
  joined ← or_run_on (join_block (linenum + 2) clean_lines line (some linenum))
  emit (block_reports joined linenum)
