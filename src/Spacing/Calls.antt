-- ===== src/Spacing/Calls.antt =====
-- cpplint.py, CheckSpacingForFunctionCall (lines 1488-1551).
use tpool.Base.{Bool, List, [], if◌then◌else◌, none, not, some, ℕ, ◌&&◌, ◌++◌, ◌∷◌}
use tpool.Text.{Text, text}
use tpool.Pattern.{group_text, occurs, search_in}
use tpool.Pattern.Parse.{re}
use tpool.Pattern.Syntax.{Pattern}
use tpool.Report.{Effect, diagnose, only_if}

-- The patterns that are tried in turn for a control structure.
unfoldable pub control_patterns : List Pattern
control_patterns =
    re "\\bif\\s*\\((.*)\\)\\s*{"
    ∷ re "\\bfor\\s*\\((.*)\\)\\s*{"
    ∷ re "\\bwhile\\s*\\((.*)\\)\\s*[{;]"
    ∷ re "\\bswitch\\s*\\((.*)\\)\\s*{"
    ∷ []

-- What stands in the brackets of the first pattern that is found, or the line.
unfoldable pub inside_control : List Pattern → Text → Text
unfolding search_in
inside_control [] line = line
inside_control (pattern ∷ rest) line = elim (search_in pattern line) [
  | some m ↦ group_text 1 m
  | none ↦ inside_control rest line
]

-- Control structures, and pointers or references to functions and arrays, are passed over.
unfoldable pub is_plain_call : Text → Bool
is_plain_call fncall =
    not (occurs (re "\\b(if|for|while|switch|return|delete)\\b") fncall)
    && (not (occurs (re " \\([^)]+\\)\\([^)]*(\\)|,$)") fncall)
        && not (occurs (re " \\([^)]+\\)\\[[^\\]]+\\]") fncall))

unfoldable pub opening_reports : Text → ℕ → List Effect
opening_reports fncall linenum =
    if occurs (re "\\w\\s*\\(\\s(?!\\s*\\\\$)") fncall
    then diagnose linenum "whitespace/parens" 4 (text "Extra space after ( in function call") ∷ []
    else only_if (occurs (re "\\(\\s+(?!(\\s*\\\\)|\\()") fncall)
        (diagnose linenum "whitespace/parens" 2 (text "Extra space after (") ∷ [])

unfoldable pub closing_reports : Text → ℕ → List Effect
closing_reports fncall linenum = only_if (occurs (re "[^)]\\s+\\)\\s*[^{\\s]") fncall) (
    diagnose linenum "whitespace/parens" 2 (
      if occurs (re "^\\s+\\)") fncall
      then text "Closing ) should be moved to the previous line"
      else text "Extra space before )")
    ∷ [])

-- CheckSpacingForFunctionCall
unfoldable pub check_spacing_for_function_call : Text → ℕ → List Effect
unfolding inside_control is_plain_call opening_reports closing_reports
check_spacing_for_function_call line linenum =
    let fncall = inside_control control_patterns line in
    only_if (is_plain_call fncall) (
      opening_reports fncall linenum
      ++ (only_if
            (occurs (re "\\w\\s+\\(") fncall && not (occurs (re "#\\s*define|typedef") fncall))
            (diagnose linenum "whitespace/parens" 4 (text "Extra space before ( in function call")
              ∷ [])
          ++ closing_reports fncall linenum))
