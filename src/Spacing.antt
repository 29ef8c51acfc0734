-- ===== src/Spacing.antt =====
-- cpplint.py, CheckSpacing (lines 1672-1915): blank lines, comments beside code, operators, brackets.
pub mod Calls
pub mod Blank
pub mod Beside
use tpool.Base.{
  Bool, List, Option, [], get_or, if◌then◌else◌, length, ltb, none, not, some, ℕ, ◌&&◌, ◌++◌, ◌+◌,
  ◌==◌, ◌||◌, ◌∷◌,
}
use tpool.Text.{Text, is_empty, same, text}
use tpool.Pattern.{Found, group_text, occurs, on_match, search_in, substitute}
use tpool.Pattern.Parse.{re}
use tpool.Report.{Effect, diagnose, only_if}
use tpool.Cleanse.{CleansedLines}
use tpool.Spacing.Calls.{check_spacing_for_function_call}
use tpool.Spacing.Blank.{check_blank_line}
use tpool.Spacing.Beside.{check_comment_beside}

-- A binary operator with no space on either side, in the order in which the two patterns are tried.
unfoldable pub tight_operator : Text → Option Found
unfolding search_in
tight_operator line = elim (search_in (re "[^<>=!\\s](==|!=|<=|>=)[^<>=!\\s]") line) [
  | some m ↦ some m
  | none ↦
      if occurs (re "<[^<]*,\\s*$") line
      then none
      else search_in (re "[^<>=!\\s](<)[^<>=!\\s]([^>]|->)*$") line
]

unfoldable pub check_operators : Text → ℕ → List Effect
unfolding tight_operator
check_operators line linenum =
    only_if (occurs (re "[\\w.]=[\\w.]") line && not (occurs (re "\\b(if|while) ") line))
      (diagnose linenum "whitespace/operators" 4 (text "Missing spaces around =") ∷ [])
    ++ (on_match (tight_operator line) (λ m.
          diagnose linenum "whitespace/operators" 3
            (text "Missing spaces around " ++ group_text 1 m)
          ∷ [])
        ++ (on_match (search_in (re "[^0-9\\s](<<|>>)[^0-9\\s]") line) (λ m.
              diagnose linenum "whitespace/operators" 3
                (text "Missing spaces around " ++ group_text 1 m)
              ∷ [])
            ++ on_match (search_in (re "(!\\s|~\\s|[\\s]--[\\s;]|[\\s]\\+\\+[\\s;])") line) (λ m.
              diagnose linenum "whitespace/operators" 4
                (text "Extra space for operator " ++ group_text 1 m)
              ∷ [])))

-- Spaces inside the brackets of a control structure may differ for some heads of `for`.
unfoldable pub may_differ : Text → Found → Bool
unfolding same is_empty
may_differ line m =
    (same (group_text 3 m) (text ";") && length (group_text 2 m) == 1 + length (group_text 4 m))
    || (is_empty (group_text 2 m) && occurs (re "\\bfor\\s*\\(.*; \\)") line)

unfoldable pub control_reports : Text → ℕ → Found → List Effect
unfolding may_differ
control_reports line linenum m =
    only_if (not (length (group_text 2 m) == length (group_text 4 m)) && not (may_differ line m)) (
      diagnose linenum "whitespace/parens" 5
        (text "Mismatching spaces inside () in " ++ group_text 1 m)
      ∷ [])
    ++ only_if (ltb 1 (length (group_text 2 m))) (
        diagnose linenum "whitespace/parens" 5
          (text "Should have zero or one spaces inside ( and ) in " ++ group_text 1 m)
        ∷ [])

unfoldable pub check_control_brackets : Text → ℕ → List Effect
unfolding control_reports
check_control_brackets line linenum =
    on_match (search_in (re " (if\\(|for\\(|while\\(|switch\\()") line) (λ m.
      diagnose linenum "whitespace/parens" 5 (text "Missing space before ( in " ++ group_text 1 m)
      ∷ [])
    ++ on_match
        (search_in (re "\\b(if|for|while|switch)\\s*\\(([ ]*)(.).*[^ ]+([ ]*)\\)\\s*{\\s*$") line)
        (λ m. control_reports line linenum m)

unfoldable pub check_separators : Text → ℕ → List Effect
check_separators line linenum =
    only_if (occurs (re ",[^\\s]") line)
      (diagnose linenum "whitespace/comma" 3 (text "Missing space after ,") ∷ [])
    ++ only_if (occurs (re ";[^\\s};\\\\)/]") line)
        (diagnose linenum "whitespace/semicolon" 3 (text "Missing space after ;") ∷ [])

unfoldable pub check_brace_spaces : Text → ℕ → List Effect
check_brace_spaces line linenum =
    only_if (occurs (re "[^ ({]{") line)
      (diagnose linenum "whitespace/braces" 5 (text "Missing space before {") ∷ [])
    ++ (only_if (occurs (re "}else") line)
          (diagnose linenum "whitespace/braces" 5 (text "Missing space before else") ∷ [])
        ++ only_if (occurs (re "\\w\\s+\\[") line && not (occurs (re "delete\\s+\\[") line))
            (diagnose linenum "whitespace/braces" 5 (text "Extra space before [") ∷ []))

unfoldable pub check_last_semicolon : Text → ℕ → List Effect
check_last_semicolon line linenum =
    if occurs (re ":\\s*;\\s*$") line
    then diagnose linenum "whitespace/semicolon" 5
        (text "Semicolon defining empty statement. Use { } instead.")
      ∷ []
    else if occurs (re "^\\s*;\\s*$") line
    then diagnose linenum "whitespace/semicolon" 5 (
        text "Line contains only semicolon. If this should be an empty statement, use { } instead.")
      ∷ []
    else only_if (occurs (re "\\s+;\\s*$") line && not (occurs (re "\\bfor\\b") line)) (
        diagnose linenum "whitespace/semicolon" 5 (
          text
            "Extra space before last semicolon. If this should be an empty statement, use { } instead.")
        ∷ [])

-- The line with no spacing to check in the names of operator methods; the replacement keeps its
-- backslash.
unfoldable pub without_operator_names : Text → Text
unfolding substitute
without_operator_names line =
    substitute (re "operator(==|!=|<|<<|<=|>=|>>|>)\\(") (text "operator\\(") line

-- CheckSpacing
unfoldable pub check_spacing : CleansedLines → ℕ → List Effect
unfolding check_blank_line check_comment_beside check_operators check_control_brackets
    check_separators check_spacing_for_function_call check_brace_spaces check_last_semicolon
    without_operator_names
check_spacing clean_lines linenum =
    let line = without_operator_names (get_or clean_lines.elided linenum []) in
    check_blank_line clean_lines linenum
    ++ (check_comment_beside (get_or clean_lines.raw_lines linenum []) linenum
        ++ (check_operators line linenum
            ++ (check_control_brackets line linenum
                ++ (check_separators line linenum
                    ++ (check_spacing_for_function_call line linenum
                        ++ (check_brace_spaces line linenum
                            ++ check_last_semicolon line linenum))))))
