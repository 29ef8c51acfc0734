-- ===== src/Language.antt =====
-- cpplint.py, CheckLanguage (lines 2503-2793). The absolute path that it computes is not used.
pub mod Casts
pub mod Calls
pub mod Arrays
use tpool.Run.{Run, emit, emitting, pure, runs_on, ◌>>=◌, ◌>>◌}
use tpool.Base.{
  List, Option, [], get_elem?, get_or, if◌then◌else◌, last_or, ltb, none, not, some, ℕ, ◌&&◌, ◌++◌,
  ◌+◌, ◌==◌, ◌∷◌,
}
use tpool.Text.{Text, is_empty, same, text}
use tpool.Pattern.{count_matches, group_text, match_start, matches, occurs, on_match, search_in}
use tpool.Pattern.Parse.{re}
use tpool.Report.{Effect, diagnose, only_if}
use tpool.Cleanse.{CleansedLines, include_line}
use tpool.Environment.{Environment}
use tpool.Files.{is_test_filename, repository_name}
use tpool.IncludeOrder.{IncludeState}
use tpool.Includes.{check_include_line, name_needed, style_report}
use tpool.Language.Casts.{check_cast_address, check_casts, check_conversion}
use tpool.Language.Calls.{
  check_int_types, check_memset, check_operator_and_if, check_printf, check_string_functions,
}
use tpool.Language.Arrays.{check_arrays}

-- line.split('{', 1)[0]
unfoldable pub up_to_brace : Text → Text
up_to_brace [] = []
up_to_brace (c ∷ line) = let rest = up_to_brace line in if c == b'{' then [] else c ∷ rest

-- Non-const references, by the numbers of the parameters that look like references.
unfoldable pub check_references : Text → ℕ → List Effect
check_references fnline linenum =
    only_if
      (ltb
          (count_matches
              (re
                "\\([^()]*\\bconst\\s+(?:typename\\s+)?(?:struct\\s+)?(?:[\\w:]|<[^()]*>)+(\\s?&|&\\s?)\\w+")
              fnline
            + count_matches (re "\\([^()]*\\b(?:[\\w:]|<[^()]*>)+\\s+const(\\s?&|&\\s?)[\\w]+")
                fnline)
          (count_matches (re "\\([^()]*\\b(?:[\\w:]|<[^()]*>)+(\\s?&|&\\s?)\\w+") fnline)
        && not (occurs (re "(swap|Swap|operator[<>][<>])\\s*\\(\\s*(?:[\\w:]|<.*>)+\\s*&") fnline))
      (diagnose linenum "runtime/references" 2
          (text "Is this a non-const reference? If so, make const or use a pointer.")
        ∷ [])

-- A static or global string, unless it is a function.
unfoldable pub check_global_string : Text → ℕ → List Effect
check_global_string line linenum =
    on_match (match_start (re "((?:|static +)(?:|const +))string +([a-zA-Z0-9_:]+)\\b(.*)") line)
      (λ m.
        only_if
          (not (matches (re "\\s*(<.*>)?(::[a-zA-Z0-9_]+)?\\s*\\(([^\"]|$)") (group_text 3 m)))
          (diagnose linenum "runtime/string" 4 (
              text "For a static/global string constant, use a C style string instead: \""
              ++ (group_text 1 m ++ (text "char " ++ (group_text 2 m ++ text "[]\"."))))
            ∷ []))

unfoldable pub check_rtti_and_init : Text → Text → ℕ → List Effect
check_rtti_and_init filename line linenum =
    only_if (occurs (re "\\bdynamic_cast<") line && not (is_test_filename filename)) (
      diagnose linenum "runtime/rtti" 5 (
        text
          "Do not use dynamic_cast<>.  If you need to cast within a class hierarchy, use static_cast<> to upcast.  Google doesn't support RTTI.")
      ∷ [])
    ++ only_if (occurs (re "\\b([A-Za-z0-9_]*_)\\(\\1\\)") line) (
        diagnose linenum "runtime/init" 4
          (text "You seem to be initializing a member variable with itself.")
        ∷ [])

-- The macros that should stand last in a class; the next line, if there is one.
unfoldable pub check_disallow : Text → Option Text → ℕ → List Effect
check_disallow line none linenum = []
check_disallow line (some next_line) linenum =
    on_match
      (match_start
        (re "\\s*(DISALLOW_(EVIL_CONSTRUCTORS|COPY_AND_ASSIGN|IMPLICIT_CONSTRUCTORS))\\(.*\\);$")
        line)
      (λ m. only_if (not (occurs (re "^\\s*}[\\w\\*,\\s]*;") next_line)) (
        diagnose linenum "readability/constructors" 3
          (group_text 1 m ++ text " should be the last thing in the class")
        ∷ []))

unfoldable pub check_using_namespace : Text → ℕ → List Effect
check_using_namespace line linenum = only_if (occurs (re "\\busing namespace\\b") line) (
    diagnose linenum "build/namespaces" 5
      (text "Do not use namespace using-directives.  Use using-declarations instead.")
    ∷ [])

unfoldable pub check_unnamed_namespace : Text → Text → ℕ → List Effect
unfolding same
check_unnamed_namespace file_extension line linenum =
    only_if
      (same file_extension (text "h")
        && (occurs (re "\\bnamespace\\s*{") line && not (last_or line 0 == b'\\')))
      (diagnose linenum "build/namespaces" 4 (
          text
            "Do not use unnamed namespaces in header files.  See http://google-styleguide.googlecode.com/svn/trunk/cppguide.xml#Namespaces for more information.")
        ∷ [])

-- The checks of a line of code that is no include.
unfoldable pub check_code : Text → Text → Text → Text → Option Text → ℕ → Run (Unit {0})
unfolding check_references check_conversion check_casts check_cast_address check_global_string
    check_rtti_and_init check_int_types check_string_functions check_operator_and_if check_printf
    check_memset check_using_namespace check_arrays check_disallow check_unnamed_namespace
    up_to_brace
check_code filename file_extension line raw_line next_line linenum = do
  emit (check_references (up_to_brace line) linenum)
  emit (check_conversion line linenum)
  emit (check_casts line raw_line linenum)
  emit (check_cast_address line linenum)
  emit (check_global_string line linenum)
  emit (check_rtti_and_init filename line linenum)
  emit (check_int_types line linenum)
  emit (check_string_functions line linenum)
  emit (check_operator_and_if line linenum)
  check_printf line linenum
  emit (check_memset line linenum)
  emit (check_using_namespace line linenum)
  emit (check_arrays line linenum)
  emit (check_disallow line next_line linenum)
  emit (check_unnamed_namespace file_extension line linenum)

-- An include line, for the repository name, which is `none` where RepositoryName does not end.
unfoldable pub include_reports : Text → Option Text → Text → ℕ → IncludeState → Run IncludeState
unfolding check_include_line name_needed style_report
include_reports filename (some name) line linenum include_state =
    emitting (check_include_line filename name line linenum include_state)
include_reports filename none line linenum include_state =
    if name_needed include_state (search_in include_line line)
    then (style_report line linenum, runs_on)
    else emitting (check_include_line filename [] line linenum include_state)

-- A line of code leaves the includes as they are.
unfoldable pub code_line :
    Environment → Text → Text → CleansedLines → ℕ → IncludeState → Run IncludeState
unfolding check_code
code_line env filename file_extension clean_lines linenum include_state = do
  check_code filename file_extension (get_or clean_lines.elided linenum [])
      (get_or clean_lines.raw_lines linenum []) (get_elem? clean_lines.elided (linenum + 1)) linenum
  pure include_state

-- CheckLanguage
unfoldable pub check_language :
    Environment → Text → Text → CleansedLines → ℕ → IncludeState → Run IncludeState
unfolding include_reports code_line is_empty
check_language env filename file_extension clean_lines linenum include_state =
    let line = get_or clean_lines.elided linenum [] in
    if is_empty line
    then pure include_state
    else if occurs include_line line
    then include_reports filename (repository_name env.files env.fuel filename)
        (get_or clean_lines.lines linenum []) linenum include_state
    else code_line env filename file_extension clean_lines linenum include_state
