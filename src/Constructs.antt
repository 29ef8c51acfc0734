-- ===== src/Constructs.antt =====
-- cpplint.py, CheckForNonStandardConstructs (lines 1318-1485): constructs that gcc-2 accepts, and the
-- stack of the classes whose declarations are being read.
pub mod Tracked
use tpool.Base.{
  Bool, List, Option, [], get_or, if◌then◌else◌, last_or, leb, none, not, some, ℕ, ◌&&◌, ◌++◌, ◌+◌,
  ◌-◌, ◌||◌, ◌∷◌,
}
use tpool.Text.{Text, contains, count, decimal, is_space, replace, same, strip, text}
use tpool.Pattern.{Found, group_text, match_start, matches, occurs, on_match, split_by}
use tpool.Pattern.Parse.{re}
use tpool.Pattern.Syntax.{Pattern, char, letters, ◌>>◌}
use tpool.Report.{Effect, diagnose, only_if}
use tpool.Cleanse.{CleansedLines}
use tpool.Classes.{ClassInfo, ClassState, class_info}

-- The checks on the line with its strings.
unfoldable pub format_reports : Text → ℕ → List Effect
format_reports line linenum =
    only_if (occurs (re "printf\\s*\\(.*\".*%[-+ ]?\\d*q") line) (
      diagnose linenum "runtime/printf_format" 3
        (text "%q in format strings is deprecated.  Use %ll instead.")
      ∷ [])
    ++ (only_if (occurs (re "printf\\s*\\(.*\".*%\\d+\\$") line) (
          diagnose linenum "runtime/printf_format" 2
            (text "%N$ formats are unconventional.  Try rewriting to avoid them.")
          ∷ [])
        ++ only_if (occurs (re "(\"|\\').*\\\\(%|\\[|\\(|{)") (replace line (text "\\\\") [])) (
            diagnose linenum "build/printf_format" 3
              (text "%, [, (, and { are undefined character escapes.  Unescape them.")
            ∷ []))

-- The checks on the line with its strings collapsed.
unfoldable pub construct_reports : Text → ℕ → List Effect
construct_reports line linenum =
    only_if
      (occurs
        (re
          "\\b(const|volatile|void|char|short|int|long|float|double|signed|unsigned|schar|u?int8|u?int16|u?int32|u?int64)\\s+(auto|register|static|extern|typedef)\\b")
        line)
      (diagnose linenum "build/storage_class" 5
          (text "Storage class (static, extern, typedef, etc) should be first.")
        ∷ [])
    ++ (only_if (matches (re "\\s*#\\s*endif\\s*[^/\\s]+") line) (
          diagnose linenum "build/endif_comment" 5
            (text "Uncommented text after #endif is non-standard.  Use a comment.")
          ∷ [])
        ++ (only_if (matches (re "\\s*class\\s+(\\w+\\s*::\\s*)+\\w+\\s*;") line) (
              diagnose linenum "build/forward_decl" 5
                (text "Inner-style forward declarations are invalid.  Remove this line.")
              ∷ [])
            ++ (only_if
                  (occurs
                    (re "(\\w+|[+-]?\\d+(\\.\\d*)?)\\s*(<|>)\\?=?\\s*(\\w+|[+-]?\\d+)(\\.\\d*)?")
                    line)
                  (diagnose linenum "build/deprecated" 3
                      (text ">? and <? (max and min) operators are non-standard and deprecated.")
                    ∷ [])
                ++ only_if (occurs (re "^\\s*const\\s*string\\s*&\\s*\\w+\\s*;") line) (
                    diagnose linenum "runtime/member_string_references" 2 (
                      text
                        "const string& members are dangerous. It is much better to use alternatives, such as pointers or simple constants.")
                    ∷ []))))

-- name.split('::')[-1]
unfoldable pub base_classname : Text → Text
base_classname name = last_or (split_by (re "::") name) []

-- A single-argument constructor that is not explicit; the class name has only word characters.
unfoldable pub takes_own_class : Text → Text → Bool
takes_own_class base argument =
    matches (re "(const\\s+)?" >> letters base >> re "\\s*(?:<\\w+>\\s*)?&")
      (strip is_space argument)

unfoldable pub explicit_report : Text → ℕ → Text → List Effect
unfolding takes_own_class same
explicit_report line linenum base =
    on_match
      (match_start (re "\\s+(?:inline\\s+)?" >> letters base >> re "\\s*\\(([^,()]+)\\)") line)
      (λ args.
        only_if
          (not (same (group_text 1 args) (text "void"))
            && not (takes_own_class base (group_text 1 args)))
          (diagnose linenum "runtime/explicit" 5
              (text "Single-argument constructors should be marked explicit.")
            ∷ []))

-- A method declared virtual, and a virtual destructor on the same line.
unfoldable pub read_virtual : Text → ℕ → Text → ClassInfo → ClassInfo
read_virtual line linenum base info =
    if occurs (re "\\bvirtual\\b") line
    then record info {
      virtual_method_linenumber = some linenum;
      has_virtual_destructor =
          info.has_virtual_destructor || occurs (char b'~' >> letters base >> re "\\s*\\(") line;
    }
    else info

unfoldable pub lacks_destructor : ClassInfo → Option ℕ → List Effect
unfolding decimal
lacks_destructor info none = []
lacks_destructor info (some at) = only_if (not info.has_virtual_destructor && not info.is_derived) (
    diagnose info.linenum "runtime/virtual" 4 (
      text "The class "
      ++ (info.name
          ++ (text
                " probably needs a virtual destructor due to having virtual method(s), one declared at line "
              ++ (decimal at ++ text "."))))
    ∷ [])

-- The end of the class, where its braces are closed, or its new depth.
unfoldable pub close_class : Text → ClassInfo → ClassState → ClassState × List Effect
unfolding lacks_destructor
close_class line info outer =
    let opened = info.brace_depth + count line (text "{") in
    let closed = count line (text "}") in
    if leb opened closed
    then (outer, lacks_destructor info info.virtual_method_linenumber)
    else (record info { brace_depth = opened - closed } ∷ outer, [])

-- A line of a class whose opening brace has been seen.
unfoldable pub class_body : Text → ℕ → ClassInfo → ClassState → ClassState × List Effect
unfolding close_class explicit_report read_virtual
class_body line linenum info outer =
    let base = base_classname info.name in
    let (stack, es) = close_class line (read_virtual line linenum base info) outer in
    (stack, explicit_report line linenum base ++ es)

unfoldable pub read_head : Text → ClassInfo → ClassInfo
read_head line info = record info {
  seen_open_brace = contains line (text "{");
  is_derived = info.is_derived || occurs (re "(^|[^:]):($|[^:])") line;
}

-- A line of a class whose opening brace has not been seen: a `;` ends a forward declaration.
unfoldable pub unopened : Text → ℕ → ClassInfo → ClassState → ClassState × List Effect
unopened line linenum info outer =
    let head = read_head line info in
    if contains line (text ";")
    then (outer, [])
    else if head.seen_open_brace
    then class_body line linenum head outer
    else (head ∷ outer, [])

-- The top of the stack, where there is one.
unfoldable pub innermost : Text → ℕ → ClassState → ClassState × List Effect
innermost line linenum [] = ([], [])
innermost line linenum (info ∷ outer) =
    if info.seen_open_brace
    then class_body line linenum info outer
    else unopened line linenum info outer

unfoldable pub class_decl : Pattern
class_decl =
    re "\\s*(template\\s*<[\\w\\s<>,:]*>\\s*)?(class|struct)\\s+([A-Z_]+\\s+)*(\\w+(::\\w+)*)"

unfoldable pub push_class : CleansedLines → ℕ → Option Found → ClassState → ClassState
push_class clean_lines linenum none stack = stack
push_class clean_lines linenum (some m) stack =
    class_info (group_text 4 m) clean_lines linenum ∷ stack

unfoldable pub track_class : CleansedLines → ℕ → ClassState → ClassState × List Effect
unfolding innermost push_class
track_class clean_lines linenum stack =
    let line = get_or clean_lines.elided linenum [] in
    innermost line linenum (push_class clean_lines linenum (match_start class_decl line) stack)

unfoldable pub check_for_non_standard_constructs :
    CleansedLines → ℕ → ClassState → ClassState × List Effect
unfolding track_class
check_for_non_standard_constructs clean_lines linenum stack =
    let (stack', es) = track_class clean_lines linenum stack in
    (
      stack',
      format_reports (get_or clean_lines.lines linenum []) linenum
          ++ (construct_reports (get_or clean_lines.elided linenum []) linenum ++ es),
    )
