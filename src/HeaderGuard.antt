-- ===== src/HeaderGuard.antt =====
-- cpplint.py, header guards (lines 1020-1112): GetHeaderGuardCPPVariable and CheckForHeaderGuard.
pub mod Exact
use tpool.Paths.{FileSystem}
use tpool.Files.{repository_name}
use tpool.Base.{
  Bool, List, Option, [], false, get_or, if◌then◌else◌, map, none, not, some, suc, true, ℕ, ◌++◌,
  ◌∷◌,
}
use tpool.Text.{Text, is_ascii_space, same, split_words, starts_with, text, upper_char}
use tpool.Pattern.Syntax.{Pattern, among, at_end, space, word, ◌>>◌, ◌or◌}
use tpool.Pattern.{substitute}
use tpool.Report.{Effect, diagnose, only_if}
use tpool.Nolint.{parse_nolint_suppressions}

-- r'_flymake\.h$' and r'[-./\s]'
unfoldable pub flymake_header : Pattern
unfolding word
flymake_header = word "_flymake.h" >> at_end

unfoldable pub separator : Pattern
unfolding among is_ascii_space
separator = among "-./" or space

-- The variable for a repository name.
unfoldable pub guard_name : Text → Text
unfolding substitute separator upper_char
guard_name name = map upper_char (substitute separator (text "_") name) ++ text "_"

named : Option Text → Option Text
unfolding guard_name
named none = none
named (some name) = some (guard_name name)

-- GetHeaderGuardCPPVariable; `none` where RepositoryName does not return within the fuel.
unfoldable pub get_header_guard_cpp_variable : FileSystem → ℕ → Text → Option Text
unfolding named repository_name substitute flymake_header
get_header_guard_cpp_variable fs fuel filename =
    named (repository_name fs fuel (substitute flymake_header (text ".h") filename))

-- The variables of the loop of CheckForHeaderGuard.
pub record Guards : Type 0 where
  pub ifndef : Option Text
  pub ifndef_linenum : ℕ
  pub define : Option Text
  pub endif : Option Text
  pub endif_linenum : ℕ

abbrev pub no_guards : Guards
no_guards = record {
  ifndef = none;
  ifndef_linenum = 0;
  define = none;
  endif = none;
  endif_linenum = 0;
}

abbrev is_none : Option Text → Bool
is_none none = true
is_none (some s) = false

-- The argument of a line `#directive argument ...`.
unfoldable pub argument_of : Text → List Text → Option Text
unfolding same
argument_of directive [] = none
argument_of directive (w ∷ []) = none
argument_of directive (w ∷ v ∷ ws) = if same w directive then some v else none

unfoldable pub read_ifndef : ℕ → Option Text → Guards → Guards
read_ifndef linenum none g = g
read_ifndef linenum (some arg) g =
    if is_none g.ifndef then record g { ifndef = some arg; ifndef_linenum = linenum } else g

unfoldable pub read_define : Option Text → Guards → Guards
read_define none g = g
read_define (some arg) g = if is_none g.define then record g { define = some arg } else g

unfoldable pub read_endif : ℕ → Text → Guards → Guards
read_endif linenum line g =
    if starts_with line (text "#endif")
    then record g { endif = some line; endif_linenum = linenum }
    else g

unfoldable pub read_line : ℕ → Text → Guards → Guards
unfolding read_ifndef read_define read_endif
read_line linenum line g =
    let linesplit = split_words [] line in
    read_endif linenum line (
      read_define (argument_of (text "#define") linesplit)
        (read_ifndef linenum (argument_of (text "#ifndef") linesplit) g))

unfoldable pub read_lines : ℕ → List Text → Guards → Guards
unfolding read_line
read_lines linenum [] g = g
read_lines linenum (line ∷ lines) g = read_lines (suc linenum) lines (read_line linenum line g)

abbrev pub endif_text : Text → Text
endif_text cppvar = text "#endif  // " ++ cppvar

-- None never equals a string.
unfoldable pub is_text : Option Text → Text → Bool
is_text none t = false
is_text (some s) t = same s t

-- A report at a line of the file, after its NOLINT comment has been read.
unfoldable pub guard_report : List Text → ℕ → Bool → Text → List Effect
guard_report lines linenum with_underscore message =
    parse_nolint_suppressions linenum (get_or lines linenum [])
    ++ (diagnose linenum "build/header_guard" (if with_underscore then 0 else 5) message ∷ [])

unfoldable pub check_ifndef : List Text → Text → ℕ → Text → List Effect
unfolding guard_report
check_ifndef lines cppvar linenum ifndef = only_if (not (same ifndef cppvar)) (
    guard_report lines linenum (same ifndef (cppvar ++ text "_"))
      (text "#ifndef header guard has wrong style, please use: " ++ cppvar))

unfoldable pub check_endif : List Text → Text → ℕ → Option Text → List Effect
unfolding guard_report
check_endif lines cppvar linenum endif = only_if (not (is_text endif (endif_text cppvar))) (
    guard_report lines linenum (is_text endif (endif_text (cppvar ++ text "_")))
      (text "#endif line should be \"#endif  // " ++ (cppvar ++ text "\"")))

unfoldable pub at_top : Text → List Effect
at_top message = diagnose 0 "build/header_guard" 5 message ∷ []

-- What is checked once both directives have been found.
unfoldable pub check_pair : List Text → Text → Guards → Text → Text → List Effect
unfolding check_ifndef check_endif at_top
check_pair lines cppvar g ifndef define =
    check_ifndef lines cppvar g.ifndef_linenum ifndef
    ++ (if not (same define ifndef)
        then at_top (text "#ifndef and #define don't match, suggested CPP variable is: " ++ cppvar)
        else check_endif lines cppvar g.endif_linenum g.endif)

unfoldable pub check_guards : List Text → Text → Guards → Option Text → Option Text → List Effect
unfolding check_pair at_top
check_guards lines cppvar g none define =
    at_top (text "No #ifndef header guard found, suggested CPP variable is: " ++ cppvar)
check_guards lines cppvar g (some ifndef) none =
    at_top (text "No #define header guard found, suggested CPP variable is: " ++ cppvar)
check_guards lines cppvar g (some ifndef) (some define) = check_pair lines cppvar g ifndef define

-- CheckForHeaderGuard, for the variable of the file
unfoldable pub check_for_header_guard : Text → List Text → List Effect
unfolding check_guards read_lines
check_for_header_guard cppvar lines =
    let g = read_lines 0 lines no_guards in check_guards lines cppvar g g.ifndef g.define
