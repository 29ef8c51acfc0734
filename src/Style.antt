-- ===== src/Style.antt =====
-- cpplint.py, GetLineWidth and CheckStyle (lines 2135-2260).
use tpool.Base.{
  Bool, List, Option, [], false, get_or, if◌then◌else◌, last_or, ltb, none, not, some, suc, take, ℕ,
  ◌&&◌, ◌++◌, ◌+◌, ◌==◌, ◌||◌, ◌∷◌,
}
use tpool.Text.{Text, contains, count, is_empty, is_space, same, starts_with, text}
use tpool.Pattern.{matches, occurs}
use tpool.Pattern.Parse.{re}
use tpool.Report.{Effect, diagnose, only_if}
use tpool.Run.{Run, emit, or_run_on, ◌>>=◌, ◌>>◌}
use tpool.Cleanse.{CleansedLines}
use tpool.Environment.{Environment, Unicode}
use tpool.HeaderGuard.{get_header_guard_cpp_variable}
use tpool.LineChecks.{get_previous_non_blank_line}
use tpool.Classes.{ClassState, check_section_spacing}
use tpool.Braces.{check_braces}
use tpool.Spacing.{check_spacing}
use tpool.Checks.{check_check}

unfoldable pub char_width : Unicode → ℕ → ℕ
char_width unicode uc = if unicode.is_wide uc then 2 else if unicode.is_combining uc then 0 else 1

unfoldable pub total_width : Unicode → Text → ℕ
unfolding char_width
total_width unicode [] = 0
total_width unicode (uc ∷ line) = char_width unicode uc + total_width unicode line

-- GetLineWidth of a unicode line
unfoldable pub get_line_width : Unicode → Text → ℕ
unfolding total_width
get_line_width unicode line = total_width unicode (unicode.normalize line)

-- initial_spaces
unfoldable pub initial_spaces : Text → ℕ
initial_spaces [] = 0
initial_spaces (c ∷ line) = let rest = initial_spaces line in if c == b' ' then suc rest else 0

unfoldable pub tab_report : Text → ℕ → List Effect
tab_report line linenum =
    only_if (contains line (9 ∷ []))
      (diagnose linenum "whitespace/tab" 1 (text "Tab found; better to use spaces") ∷ [])

-- The line ends in white space.
unfoldable pub ends_in_space : Text → Bool
unfolding is_space
ends_in_space line = not (is_empty line) && is_space (last_or line 0)

-- The first of three complaints about the ends of the line.
unfoldable pub indent_reports : Text → Text → ℕ → List Effect
unfolding initial_spaces ends_in_space
indent_reports line cleansed_line linenum =
    let n = initial_spaces line in
    if ends_in_space line
    then diagnose linenum "whitespace/end_of_line" 4
        (text "Line ends in whitespace.  Consider deleting these extra spaces.")
      ∷ []
    else if (n == 1 || n == 3) && not (matches (re "\\s*\\w+\\s*:\\s*$") cleansed_line)
    then diagnose linenum "whitespace/indent" 3
        (text "Weird number of spaces at line-start.  Are you using a 2-space indent?")
      ∷ []
    else only_if (n == 0 && (not (same (take 2 line) (text "//")) && occurs (re "[^:]:\\s*$") line))
        (diagnose linenum "whitespace/labels" 4 (
            text
              "Labels should always be indented at least one space.  If this is a member-initializer list in a constructor or the base class list in a class definition, the colon should be on the following line.")
          ∷ [])

-- is_header_guard, for the variable of a header
unfoldable pub is_guard_line : Text → Text → Bool
unfolding starts_with
is_guard_line line cppvar =
    starts_with line (text "#ifndef " ++ cppvar)
    || (starts_with line (text "#define " ++ cppvar)
        || starts_with line (text "#endif  // " ++ cppvar))

unfoldable pub guard_in : Text → Option Text → Option Bool
unfolding is_guard_line
guard_in line none = none
guard_in line (some cppvar) = some (is_guard_line line cppvar)

unfoldable pub header_guard_line : Environment → Text → Text → Text → Option Bool
unfolding get_header_guard_cpp_variable same guard_in
header_guard_line env filename file_extension line =
    if same file_extension (text "h")
    then guard_in line (get_header_guard_cpp_variable env.files env.fuel filename)
    else some false

-- Includes, header guards, URLs and `$Id:...$` comments may be long.
unfoldable pub may_be_long : Text → Bool → Bool
unfolding starts_with
may_be_long line is_header_guard =
    starts_with line (text "#include")
    || (is_header_guard
        || (matches (re "^\\s*//.*http(s?)://\\S*$") line
            || matches (re "^// \\$Id:.*#[0-9]+ \\$$") line))

unfoldable pub width_report : ℕ → ℕ → List Effect
width_report linenum line_width =
    if ltb 100 line_width
    then diagnose linenum "whitespace/line_length" 4
        (text "Lines should very rarely be longer than 100 characters")
      ∷ []
    else only_if (ltb 80 line_width) (
        diagnose linenum "whitespace/line_length" 2 (text "Lines should be <= 80 characters long")
        ∷ [])

unfoldable pub length_report : Unicode → Text → Bool → ℕ → List Effect
unfolding may_be_long width_report get_line_width
length_report unicode line is_header_guard linenum =
    only_if (not (may_be_long line is_header_guard))
      (width_report linenum (get_line_width unicode line))

-- Several commands on a line, but for the heads of `for` and one-line cases.
unfoldable pub several_commands : Text → Text → Bool
unfolding contains count
several_commands cleansed_line prevline =
    ltb 1 (count cleansed_line (text ";"))
    && (not (contains cleansed_line (text "for"))
        && ((not (contains prevline (text "for")) || contains prevline (text ";"))
            && not (
                (contains cleansed_line (text "case ") || contains cleansed_line (text "default:"))
                && contains cleansed_line (text "break;"))))

unfoldable pub commands_report : CleansedLines → ℕ → List Effect
unfolding several_commands
commands_report clean_lines linenum =
    only_if
      (several_commands (get_or clean_lines.elided linenum [])
        (get_previous_non_blank_line clean_lines linenum).0)
      (diagnose linenum "whitespace/newline" 4 (text "More than one command on the same line") ∷ [])

abbrev pub section_reports : CleansedLines → ClassState → ℕ → List Effect
section_reports clean_lines [] linenum = []
section_reports clean_lines (innermost ∷ outer) linenum =
    check_section_spacing clean_lines innermost linenum

-- CheckStyle
unfoldable pub check_style :
    Environment → Text → Text → CleansedLines → ℕ → ClassState → Run (Unit {0})
unfolding tab_report indent_reports header_guard_line length_report commands_report
check_style env filename file_extension clean_lines linenum class_state = do
  let line = get_or clean_lines.raw_lines linenum []
  emit (tab_report line linenum)
  emit (indent_reports line (get_or clean_lines.elided linenum []) linenum)
  is_header_guard ← or_run_on (header_guard_line env filename file_extension line)
  emit (length_report env.unicode line is_header_guard linenum)
  emit (commands_report clean_lines linenum)
  check_braces clean_lines linenum
  emit (check_spacing clean_lines linenum)
  emit (check_check clean_lines linenum)
  emit (section_reports clean_lines class_state linenum)
