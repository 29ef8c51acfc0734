-- ===== src/Spacing/Beside.antt =====
-- cpplint.py, the part of CheckSpacing about comments beside code (lines 1757-1790).
use tpool.Base.{
  Bool, List, Option, [], drop, get_or, leb, none, not, some, take, ℕ, ◌%◌, ◌&&◌, ◌++◌, ◌+◌, ◌-◌,
  ◌==◌, ◌||◌, ◌∷◌,
}
use tpool.Text.{Text, count, find, is_ascii_space, text}
use tpool.Pattern.{matches, occurs}
use tpool.Pattern.Parse.{re}
use tpool.Report.{Effect, diagnose, only_if}
use tpool.LineChecks.{check_comment}

-- line[commentpos - n] not in string.whitespace, where there is such a character
abbrev is_code_before : Text → ℕ → ℕ → Bool
is_code_before line commentpos n =
    leb n commentpos && not (is_ascii_space (get_or line (commentpos - n) 0))

unfoldable pub near_code_report : Text → ℕ → ℕ → List Effect
unfolding is_ascii_space
near_code_report line linenum commentpos =
    only_if
      (not (matches (re "^\\s*{ //") line)
        && (is_code_before line commentpos 1 || is_code_before line commentpos 2))
      (diagnose linenum "whitespace/comments" 2
          (text "At least two spaces is best between code and comments")
        ∷ [])

-- A delimiter, an empty Doxygen comment, or several slashes and a space.
unfoldable pub is_comment_exception : Text → Bool
is_comment_exception comment =
    occurs (re "[=/-]{4,}\\s*$") comment
    || (occurs (re "^/$") comment || occurs (re "^/+ ") comment)

unfoldable pub comment_space_report : ℕ → Text → List Effect
unfolding is_comment_exception
comment_space_report linenum [] = []
comment_space_report linenum (c ∷ comment) =
    only_if (not (c == b' ') && not (is_comment_exception (c ∷ comment))) (
      diagnose linenum "whitespace/comments" 4 (text "Should have a space between // and comment")
      ∷ [])

-- The `//` is not in quotes. The difference may be negative in the source; its remainder by 2 is that
-- of the sum.
unfoldable pub is_outside_quotes : Text → Bool
unfolding count
is_outside_quotes code = (count code (text "\"") + count code (text "\\\"")) % 2 == 0

comment_at : Text → ℕ → Option ℕ → List Effect
unfolding near_code_report comment_space_report is_outside_quotes
comment_at line linenum none = []
comment_at line linenum (some commentpos) = only_if (is_outside_quotes (take commentpos line)) (
    near_code_report line linenum commentpos
    ++ (comment_space_report linenum (drop (commentpos + 2) line)
        ++ check_comment (drop commentpos line) linenum))

unfoldable pub check_comment_beside : Text → ℕ → List Effect
unfolding comment_at find
check_comment_beside line linenum = comment_at line linenum (find line (text "//"))
