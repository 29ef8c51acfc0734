-- ===== src/Cleanse.antt =====
-- cpplint.py, the cleansed copies of the lines (lines 825-844, 907-965, and the include pattern of
-- line 2264): CleanseComments and class CleansedLines.
use tpool.Comments.{is_cpp_string}
use tpool.Pattern.{matches, substitute}
use tpool.Text.{Text, find, is_ascii_space, is_space, strip_right, text}
use tpool.Base.{List, Option, [], if◌then◌else◌, length, map, none, not, some, take, ℕ}
use tpool.Pattern.Syntax.{
  Pattern, ahead, among, any_char, at_end, at_start, char, char_in, group, is_digit, is_word,
  none_of, plus, space, star, word, ◌>>◌, ◌or◌,
}

comment_text : Pattern
unfolding word
comment_text = word "/*" >> star any_char >> word "*/"

-- _RE_PATTERN_CLEANSE_LINE_C_COMMENTS
unfoldable pub c_comments : Pattern
unfolding comment_text is_word is_ascii_space
c_comments = group 1 (
    (star space >> comment_text >> star space >> at_end)
    or (comment_text >> plus space)
    or (plus space >> comment_text >> ahead (char_in (λ c. not (is_word c))))
    or comment_text)

-- _RE_PATTERN_INCLUDE
unfoldable pub include_line : Pattern
unfolding word among none_of is_ascii_space
include_line =
    at_start
    >> star space
    >> char b'#'
    >> star space
    >> word "include"
    >> star space
    >> group 1 (among "<\"")
    >> group 2 (star (none_of ">\""))
    >> among ">\""
    >> star any_char
    >> at_end

-- _RE_PATTERN_CLEANSE_LINE_ESCAPES, _DOUBLE_QUOTES and _SINGLE_QUOTES
unfoldable pub escapes : Pattern
unfolding among is_digit
escapes =
    char b'\\'
    >> group 1 (
        among "abfnrtv?\"\\'"
        or plus (char_in is_digit)
        or (char b'x' >> plus (among "0123456789abcdefABCDEF")))

unfoldable pub double_quotes : Pattern
unfolding none_of
double_quotes = char b'"' >> star (none_of "\"") >> char b'"'

unfoldable pub single_quotes : Pattern
single_quotes = char 39 >> any_char >> char 39

-- line[:commentpos].rstrip(), unless there is no `//` or it stands in a string
without_line_comment : Text → Option ℕ → Text
unfolding strip_right is_cpp_string
without_line_comment line none = line
without_line_comment line (some commentpos) =
    let code = take commentpos line in
    if not (is_cpp_string code) then strip_right is_space code else line

unfoldable pub cleanse_comments : Text → Text
unfolding without_line_comment find substitute c_comments
cleanse_comments line = substitute c_comments [] (without_line_comment line (find line (text "//")))

-- CleansedLines._CollapseStrings
unfoldable pub collapse_strings : Text → Text
unfolding matches include_line substitute escapes single_quotes double_quotes
collapse_strings elided =
    if not (matches include_line elided)
    then substitute double_quotes (text "\"\"")
        (substitute single_quotes (text "''") (substitute escapes [] elided))
    else elided

pub record CleansedLines : Type 0 where
  pub elided : List Text
  pub lines : List Text
  pub raw_lines : List Text
  pub num_lines : ℕ

-- CleansedLines.__init__
unfoldable pub cleansed_lines : List Text → CleansedLines
cleansed_lines raw = record {
  elided = map (λ l. cleanse_comments (collapse_strings l)) raw;
  lines = map cleanse_comments raw;
  raw_lines = raw;
  num_lines = length raw;
}
