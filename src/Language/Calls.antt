-- ===== src/Language/Calls.antt =====
-- cpplint.py, the part of CheckLanguage about C functions (lines 2659-2725).
use tpool.Base.{List, Option, [], if◌then◌else◌, none, not, some, ℕ, ◌++◌, ◌∷◌}
use tpool.Text.{Text, same, text}
use tpool.Pattern.{Found, group_text, match_start, matches, occurs, on_match, search_in}
use tpool.Pattern.Parse.{ignoring_case, re}
use tpool.Report.{Effect, diagnose, only_if}
use tpool.Run.{Run, emit, raises}
use tpool.Brackets.{Inside, failed_assertion, found, get_text_inside, not_found}

-- The C integer types, but for ports.
unfoldable pub check_int_types : Text → ℕ → List Effect
check_int_types line linenum =
    if occurs (re "\\bshort port\\b") line
    then only_if (not (occurs (re "\\bunsigned short port\\b") line)) (
        diagnose linenum "runtime/int" 4 (text "Use \"unsigned short\" for ports, not \"short\"")
        ∷ [])
    else on_match (search_in (re "\\b(short|long(?! +double)|long long)\\b") line) (λ m.
      diagnose linenum "runtime/int" 4
        (text "Use int16/int64/etc, rather than the C type " ++ group_text 1 m)
      ∷ [])

unfoldable pub check_string_functions : Text → ℕ → List Effect
unfolding same
check_string_functions line linenum =
    on_match (search_in (re "snprintf\\s*\\(([^,]*),\\s*([0-9]*)\\s*,") line) (λ m.
      only_if (not (same (group_text 2 m) (text "0"))) (
        diagnose linenum "runtime/printf" 3 (
          text "If you can, use sizeof("
          ++ (group_text 1 m
              ++ (text ") instead of " ++ (group_text 2 m ++ text " as the 2nd arg to snprintf."))))
        ∷ []))
    ++ (only_if (occurs (re "\\bsprintf\\b") line) (
          diagnose linenum "runtime/printf" 5 (text "Never use sprintf.  Use snprintf instead.")
          ∷ [])
        ++ (on_match (search_in (re "\\b(strcpy|strcat)\\b") line) (λ m.
              diagnose linenum "runtime/printf" 4
                (text "Almost always, snprintf is better than " ++ group_text 1 m)
              ∷ [])
            ++ only_if (occurs (re "\\bsscanf\\b") line) (
                diagnose linenum "runtime/printf" 1
                  (text "sscanf can be ok, but is slow and can overflow buffers.")
                ∷ [])))

unfoldable pub check_operator_and_if : Text → ℕ → List Effect
check_operator_and_if line linenum =
    only_if (occurs (re "\\boperator\\s*&\\s*\\(\\s*\\)") line) (
      diagnose linenum "runtime/operator" 4 (text "Unary operator& is dangerous.  Do not use it.")
      ∷ [])
    ++ only_if (occurs (re "\\}\\s*if\\s*\\(") line) (
        diagnose linenum "readability/braces" 4
          (text "Did you mean \"else if\"? If not, start a new line for \"if\".")
        ∷ [])

-- `.group(1)` of a search that finds nothing raises.
unfoldable pub format_bug : Text → Text → ℕ → Option Found → Run (Unit {0})
format_bug line argument linenum none = ([], raises)
format_bug line argument linenum (some m) = emit (
    diagnose linenum "runtime/printf" 4 (
      text "Potential format string bug. Do "
      ++ (group_text 1 m ++ (text "(\"%s\", " ++ (argument ++ text ") instead."))))
    ∷ [])

unfoldable pub format_argument : Text → ℕ → Option Found → Run (Unit {0})
unfolding format_bug
format_argument line linenum none = emit []
format_argument line linenum (some m) =
    format_bug line (group_text 1 m) linenum
      (search_in (ignoring_case (re "\\b((?:string)?printf)\\s*\\(")) line)

unfoldable pub printf_inside : Text → ℕ → Inside → Run (Unit {0})
unfolding format_argument
printf_inside line linenum failed_assertion = ([], raises)
printf_inside line linenum not_found = emit []
printf_inside line linenum (found []) = emit []
printf_inside line linenum (found (c ∷ printf_args)) =
    format_argument line linenum (match_start (re "([\\w.\\->()]+)$") (c ∷ printf_args))

unfoldable pub check_printf : Text → ℕ → Run (Unit {0})
unfolding printf_inside
check_printf line linenum =
    printf_inside line linenum
      (get_text_inside line (ignoring_case (re "\\b(string)?printf\\s*\\(")))

unfoldable pub check_memset : Text → ℕ → List Effect
check_memset line linenum =
    on_match (search_in (re "memset\\s*\\(([^,]*),\\s*([^,]*),\\s*0\\s*\\)") line) (λ m.
      only_if (not (matches (re "^''|-?[0-9]+|0x[0-9A-Fa-f]$") (group_text 2 m))) (
        diagnose linenum "runtime/memset" 4 (
          text "Did you mean \"memset("
          ++ (group_text 1 m ++ (text ", 0, " ++ (group_text 2 m ++ text ")\"?"))))
        ∷ []))
