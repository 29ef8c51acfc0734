-- ===== src/LineChecks.antt =====
-- cpplint.py, checks of one line: multi-line comments and strings (lines 1152-1187), POSIX
-- threading (1190-1230), *count++ (1235-1259), TODO comments (1640-1669), blank lines (1554-1566,
-- 1970-1990) and make_pair (3094-3116).
pub mod Blank
use tpool.Pattern.Syntax.{
  Pattern, any_char, at_end, at_start, boundary, char, group, is_digit, is_letter, is_word, maybe,
  plus, space, star, star_lazy, word, word_char, ◌>>◌, ◌or◌,
}
use tpool.Pattern.{Found, match_start, matches, occurs, read_group}
use tpool.Text.{Text, count, find, is_ascii_space, is_empty, is_space, replace, same, text}
use tpool.Base.{
  Bool, List, Option, [], all, false, get_or, if◌then◌else◌, length, ltb, none, not, some, suc,
  true, zero, ℕ, ◌%◌, ◌&&◌, ◌++◌, ◌+◌, ◌==◌, ◌||◌, ◌∷◌,
}
use tpool.Report.{Effect, diagnose, only_if}
use tpool.Cleanse.{CleansedLines}

line_of : CleansedLines → ℕ → Text
line_of clean_lines linenum = get_or clean_lines.elided linenum []

-- The difference of the counts may be negative in the source; its remainder by 2 is that of the sum.
unfoldable pub check_for_multiline_comments_and_strings : CleansedLines → ℕ → List Effect
unfolding line_of
check_for_multiline_comments_and_strings clean_lines linenum =
    let line = replace (line_of clean_lines linenum) (text "\\\\") [] in
    only_if (ltb (count line (text "*/")) (count line (text "/*"))) (
      diagnose linenum "readability/multiline_comment" 5 (
        text
          "Complex multi-line /*...*/-style comment found. Lint may give bogus warnings.  Consider replacing these with //-style comments, with #if 0...#endif, or with more clearly structured multi-line comments.")
      ∷ [])
    ++ only_if ((count line (text "\"") + count line (text "\\\"")) % 2 == 1) (
        diagnose linenum "readability/multiline_string" 5 (
          text
            "Multi-line string (\"...\") found.  This lint script doesn't do well with such strings, and may give bogus warnings.  They're ugly and unnecessary, and you should use concatenation instead\".")
        ∷ [])

-- threading_list: the calls and their replacements
unfoldable pub threading_list : List (Text × Text)
threading_list =
    (text "asctime(", text "asctime_r(")
    ∷ (text "ctime(", text "ctime_r(")
    ∷ (text "getgrgid(", text "getgrgid_r(")
    ∷ (text "getgrnam(", text "getgrnam_r(")
    ∷ (text "getlogin(", text "getlogin_r(")
    ∷ (text "getpwnam(", text "getpwnam_r(")
    ∷ (text "getpwuid(", text "getpwuid_r(")
    ∷ (text "gmtime(", text "gmtime_r(")
    ∷ (text "localtime(", text "localtime_r(")
    ∷ (text "rand(", text "rand_r(")
    ∷ (text "readdir(", text "readdir_r(")
    ∷ (text "strtok(", text "strtok_r(")
    ∷ (text "ttyname(", text "ttyname_r(")
    ∷ []

-- line[ix - 1].isalnum() or line[ix - 1] in ('_', '.', '>'), for an ASCII line
unfoldable pub joins_name : ℕ → Bool
unfolding is_letter is_digit
joins_name c = is_letter c || (is_digit c || (c == b'_' || (c == b'.' || c == b'>')))

unfoldable pub stands_alone : Text → Option ℕ → Bool
unfolding joins_name
stands_alone line none = false
stands_alone line (some zero) = true
stands_alone line (some (suc i)) = not (joins_name (get_or line i 0))

threading_message : Text → Text → Text
threading_message single safe =
    text "Consider using "
    ++ (safe ++ (text "...) instead of " ++ (single ++ text "...) for improved thread safety.")))

unfoldable pub check_threading : ℕ → Text → List (Text × Text) → List Effect
unfolding stands_alone threading_message find
check_threading linenum line [] = []
check_threading linenum line ((single, safe) ∷ rest) =
    only_if (stands_alone line (find line single))
      (diagnose linenum "runtime/threadsafe_fn" 2 (threading_message single safe) ∷ [])
    ++ check_threading linenum line rest

unfoldable pub check_posix_threading : CleansedLines → ℕ → List Effect
unfolding check_threading line_of threading_list
check_posix_threading clean_lines linenum =
    check_threading linenum (line_of clean_lines linenum) threading_list

-- _RE_PATTERN_INVALID_INCREMENT
unfoldable pub invalid_increment : Pattern
unfolding word is_ascii_space is_word
invalid_increment =
    at_start
    >> star space
    >> char b'*'
    >> plus word_char
    >> group 1 (word "++" or word "--")
    >> char b';'

unfoldable pub check_invalid_increment : CleansedLines → ℕ → List Effect
unfolding matches invalid_increment line_of
check_invalid_increment clean_lines linenum =
    only_if (matches invalid_increment (line_of clean_lines linenum)) (
      diagnose linenum "runtime/invalid_increment" 5
        (text "Changing pointer instead of value (or unused value of operator*).")
      ∷ [])

-- _RE_PATTERN_TODO
unfoldable pub todo : Pattern
unfolding word is_ascii_space
todo =
    at_start
    >> word "//"
    >> group 1 (star space)
    >> word "TODO"
    >> maybe (group 2 (char b'(' >> any_char >> star_lazy any_char >> char b')'))
    >> maybe (char b':')
    >> maybe (group 3 (space or at_end))

abbrev group_length : Option Text → ℕ
group_length none = 0
group_length (some s) = length s

-- `not username`, for a group that may be None
abbrev lacks : Option Text → Bool
lacks none = true
lacks (some s) = is_empty s

-- `middle_whitespace != ' ' and middle_whitespace != ''`, which holds of None
unfoldable pub badly_spaced : Option Text → Bool
unfolding same
badly_spaced none = true
badly_spaced (some s) = not (same s (b' ' ∷ [])) && not (same s [])

unfoldable pub check_todo : ℕ → Option Found → List Effect
unfolding read_group badly_spaced
check_todo linenum none = []
check_todo linenum (some m) =
    only_if (ltb 1 (group_length (read_group 1 m)))
      (diagnose linenum "whitespace/todo" 2 (text "Too many spaces before TODO") ∷ [])
    ++ (only_if (lacks (read_group 2 m)) (
          diagnose linenum "readability/todo" 2
            (text "Missing username in TODO; it should look like \"// TODO(my_username): Stuff.\"")
          ∷ [])
        ++ only_if (badly_spaced (read_group 3 m)) (
            diagnose linenum "whitespace/todo" 2
              (text "TODO(my_username) should be followed by a space")
            ∷ []))

unfoldable pub check_comment : Text → ℕ → List Effect
unfolding check_todo match_start todo
check_comment comment linenum = check_todo linenum (match_start todo comment)

-- _RE_PATTERN_EXPLICIT_MAKEPAIR
unfoldable pub explicit_make_pair : Pattern
unfolding word is_ascii_space
explicit_make_pair = boundary >> word "make_pair" >> star space >> char b'<'

unfoldable pub check_make_pair_uses_deduction : CleansedLines → ℕ → List Effect
unfolding occurs explicit_make_pair
check_make_pair_uses_deduction clean_lines linenum =
    only_if (occurs explicit_make_pair (get_or clean_lines.raw_lines linenum [])) (
      diagnose linenum "build/explicit_make_pair" 4 (
        text
          "Omit template arguments from make_pair OR use pair directly OR if appropriate, construct a pair directly")
      ∷ [])

-- not line or line.isspace()
unfoldable pub is_blank_line : Text → Bool
is_blank_line line = all is_space line

-- From the line before `linenum` back; the number is `none` for -1.
unfoldable pub previous_in : List Text → ℕ → Text × Option ℕ
previous_in elided zero = ([], none)
previous_in elided (suc prevlinenum) =
    let prevline = get_or elided prevlinenum [] in
    let earlier = previous_in elided prevlinenum in
    if not (is_blank_line prevline) then (prevline, some prevlinenum) else earlier

unfoldable pub get_previous_non_blank_line : CleansedLines → ℕ → Text × Option ℕ
unfolding previous_in
get_previous_non_blank_line clean_lines linenum = previous_in clean_lines.elided linenum
