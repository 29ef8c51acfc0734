-- ===== src/FileChecks.antt =====
-- cpplint.py, checks of a whole file (lines 1007-1017 and 1115-1149): copyright, characters that
-- are not UTF-8, and the newline at the end.
pub mod Exact
use tpool.Base.{
  Bool, List, [], any, drop, get_or, length, ltb, map, not, suc, take, ℕ, ◌++◌, ◌-◌, ◌==◌, ◌||◌,
  ◌∷◌,
}
use tpool.Text.{Text, contains, is_empty, lower_char, text}
use tpool.Report.{Effect, diagnose, only_if}

-- re.search(r'Copyright', line, re.I)
unfoldable pub has_copyright : Text → Bool
unfolding contains lower_char
has_copyright line = contains (map lower_char line) (text "copyright")

-- Lines 1 to 10, for the marker line stands at index 0.
unfoldable pub check_for_copyright : List Text → List Effect
unfolding has_copyright
check_for_copyright lines = only_if (not (any has_copyright (drop 1 (take 11 lines)))) (
    diagnose 0 "legal/copyright" 5 (
      text
        "No copyright message found.  You should have a line: \"Copyright [year] <Copyright Owner>\"")
    ∷ [])

-- u'\ufffd' in line
unfoldable pub has_replacement : Text → Bool
has_replacement line = any (λ c. c == 0xfffd) line

unfoldable pub invalid_utf8 : ℕ → Effect
invalid_utf8 linenum =
    diagnose linenum "readability/utf8" 5
      (text "Line contains invalid UTF-8 (or Unicode replacement character).")

unfoldable pub check_unicode_from : ℕ → List Text → List Effect
unfolding has_replacement
check_unicode_from linenum [] = []
check_unicode_from linenum (line ∷ lines) =
    only_if (has_replacement line) (invalid_utf8 linenum ∷ [])
    ++ check_unicode_from (suc linenum) lines

unfoldable pub check_for_unicode_replacement_characters : List Text → List Effect
unfolding check_unicode_from
check_for_unicode_replacement_characters lines = check_unicode_from 0 lines

-- The lines have a marker at either end, so there are at least two. lines[-2] is the last line of
-- the file.
unfoldable pub check_for_newline_at_eof : List Text → List Effect
unfolding is_empty
check_for_newline_at_eof lines =
    only_if (ltb (length lines) 3 || not (is_empty (get_or lines (length lines - 2) []))) (
      diagnose (length lines - 2) "whitespace/ending_newline" 5
        (text "Could not find a newline character at the end of the file.")
      ∷ [])
