-- ===== src/Comments.antt =====
-- cpplint.py, comments that span lines (lines 846-904): IsCppString and RemoveMultiLineComments.
pub mod Blanked
pub mod Quiet
use tpool.Base.{
  Bool, List, Option, [], drop, if◌then◌else◌, leb, length, none, not, some, suc, zero, ℕ, ◌%◌,
  ◌&&◌, ◌+◌, ◌==◌, ◌∷◌,
}
use tpool.Text.{Text, contains, count, ends_with, is_space, replace, starts_with, strip, text}
use tpool.Report.{Effect, diagnose}

-- The difference of the counts may be negative in the source; its last bit is that of the sum.
unfoldable pub is_cpp_string : Text → Bool
unfolding replace count
is_cpp_string line =
    let cleaned = replace line (text "\\\\") (text "XX") in
    (count cleaned (text "\"") + count cleaned (text "\\\"") + count cleaned (text "'\"'")) % 2 == 1

-- The line starts a comment that goes beyond it.
unfoldable pub opens : Text → Bool
unfolding strip starts_with contains
opens line =
    let stripped = strip is_space line in
    starts_with stripped (text "/*") && not (contains (drop 2 stripped) (text "*/"))

unfoldable pub closes : Text → Bool
unfolding strip ends_with
closes line = ends_with (strip is_space line) (text "*/")

-- The first index from `lineix` on at which a line passes the test, or the number of lines.
unfoldable pub find_next : (Text → Bool) → List Text → ℕ → ℕ
find_next test [] lineix = 0
find_next test (line ∷ lines) (suc lineix) = suc (find_next test lines lineix)
find_next test (line ∷ lines) zero =
    let rest = find_next test lines zero in if test line then 0 else suc rest

unfoldable pub find_next_multi_line_comment_start : List Text → ℕ → ℕ
unfolding find_next
find_next_multi_line_comment_start = find_next opens

unfoldable pub find_next_multi_line_comment_end : List Text → ℕ → ℕ
unfolding find_next
find_next_multi_line_comment_end = find_next closes

unfoldable pub dummy : Text
unfolding text
dummy = text "// dummy"

-- RemoveMultiLineCommentsFromRange
unfoldable pub clear_range : List Text → ℕ → ℕ → List Text
clear_range [] begin end = []
clear_range (line ∷ lines) begin zero = line ∷ lines
clear_range (line ∷ lines) zero (suc end) = dummy ∷ clear_range lines zero end
clear_range (line ∷ lines) (suc begin) (suc end) = line ∷ clear_range lines begin end

unfoldable pub no_end : ℕ → Effect
no_end lineix_begin =
    diagnose (lineix_begin + 1) "readability/multiline_comment" 5
      (text "Could not find end of multi-line comment")

-- The while loop from `lineix`; `none` is a loop that has not ended within the fuel.
unfoldable pub remove_from : ℕ → List Text → ℕ → Option (List Text × List Effect)
unfolding no_end find_next_multi_line_comment_start find_next_multi_line_comment_end
remove_from zero lines lineix = none
remove_from (suc fuel) lines lineix =
    let lineix_begin = find_next_multi_line_comment_start lines lineix in
    let lineix_end = find_next_multi_line_comment_end lines lineix_begin in
    let rest =
      remove_from fuel (clear_range lines lineix_begin (lineix_end + 1)) (lineix_end + 1) in
    if leb (length lines) lineix_begin
    then some (lines, [])
    else if leb (length lines) lineix_end
    then some (lines, no_end lineix_begin ∷ [])
    else rest

-- One round more than there are lines, for each round passes a line.
unfoldable pub remove_multi_line_comments : List Text → Option (List Text × List Effect)
unfolding remove_from
remove_multi_line_comments lines = remove_from (length lines + 1) lines 0
