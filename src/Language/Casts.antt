-- ===== src/Language/Casts.antt =====
-- cpplint.py, CheckCStyleCast (lines 2796-2856) and the casts of CheckLanguage.
use tpool.Base.{
  Bool, List, Option, String, [], drop, false, if◌then◌else◌, none, not, some, suc, take, true,
  zero, ℕ, ◌&&◌, ◌++◌, ◌||◌, ◌∷◌,
}
use tpool.Text.{Text, contains, drop_last, is_empty, same, text}
use tpool.Pattern.{
  Found, group_start, group_text, match_start, matches, occurs, on_match, search_in,
}
use tpool.Pattern.Parse.{re}
use tpool.Pattern.Syntax.{Pattern}
use tpool.Report.{Effect, diagnose, only_if}

-- The result says whether a cast, or what looks like one, has been seen.
unfoldable pub function_report : Text → ℕ → Found → List Effect
unfolding contains same
function_report raw_line linenum function_match =
    only_if
      (is_empty (group_text 3 function_match)
        || (same (group_text 3 function_match) (text ";")
            || (not (contains raw_line (text "MockCallback<"))
                && not (contains raw_line (text "/*")))))
      (diagnose linenum "readability/function" 3
          (text "All parameters should be named in a function")
        ∷ [])

unfoldable pub cast_report : Text → ℕ → Text → Text → Option Found → List Effect
unfolding function_report
cast_report raw_line linenum cast_type written (some function_match) =
    function_report raw_line linenum function_match
cast_report raw_line linenum cast_type written none =
    diagnose linenum "readability/casting" 4 (
      text "Using C-style cast.  Use "
      ++ (cast_type ++ (text "<" ++ (written ++ text ">(...) instead"))))
    ∷ []

-- line[0 : match.start(1) - 1], where a bound below 0 counts from the end of the line.
unfoldable pub before_group : Text → Option ℕ → Text
before_group line none = drop_last 2 line
before_group line (some zero) = drop_last 1 line
before_group line (some (suc k)) = take k line

unfoldable pub cast_matched : Text → Text → ℕ → Text → Option Found → Bool × List Effect
unfolding cast_report before_group
cast_matched line raw_line linenum cast_type none = (false, [])
cast_matched line raw_line linenum cast_type (some m) = (
  true,
  (if matches (re ".*sizeof\\s*$") (before_group line (group_start 1 m))
      then diagnose linenum "runtime/sizeof" 1
          (text "Using sizeof(type).  Use sizeof(varname) instead if possible")
        ∷ []
      else cast_report raw_line linenum cast_type (group_text 1 m)
          (match_start (re "\\s*(\\)|=|(const)?\\s*(;|\\{|throw\\(\\)|>))") (drop m.stop line))),
)

-- CheckCStyleCast
unfoldable pub check_c_style_cast : Text → Text → ℕ → String → Pattern → Bool × List Effect
unfolding cast_matched
check_c_style_cast line raw_line linenum cast_type pattern =
    cast_matched line raw_line linenum (text cast_type) (search_in pattern line)

-- The three kinds of casts that CheckLanguage looks for; the last one where the second finds none.
unfoldable pub check_casts : Text → Text → ℕ → List Effect
unfolding check_c_style_cast
check_casts line raw_line linenum =
    let (static_cast, es) =
      check_c_style_cast line raw_line linenum "static_cast"
        (re "\\((int|float|double|bool|char|u?int(16|32|64))\\)") in
    let (const_cast, fs) =
      check_c_style_cast line raw_line linenum "const_cast" (re "\\((char\\s?\\*+\\s?)\\)\\s*\"") in
    let (reinterpret_cast, gs) =
      check_c_style_cast line raw_line linenum "reinterpret_cast" (re "\\((\\w+\\s?\\*+\\s?)\\)") in
    es ++ (if const_cast then fs else gs)

-- A conversion function that is called as a cast.
unfoldable pub conversion_report : Text → ℕ → Found → List Effect
conversion_report line linenum m =
    only_if
      (is_empty (group_text 1 m)
        && not (
            matches (re "^\\s*MOCK_(CONST_)?METHOD\\d+(_T)?\\(") line
            || matches (re "^\\s*MockCallback<.*>") line))
      (diagnose linenum "readability/casting" 4 (
          text "Using deprecated casting style.  Use static_cast<"
          ++ (group_text 2 m ++ text ">(...) instead"))
        ∷ [])

unfoldable pub check_conversion : Text → ℕ → List Effect
unfolding conversion_report
check_conversion line linenum =
    on_match
      (search_in
        (re "(\\bnew\\s+)?\\b(int|float|double|bool|char|int32|uint32|int64|uint64)\\([^)]") line)
      (λ m. conversion_report line linenum m)

unfoldable pub check_cast_address : Text → ℕ → List Effect
check_cast_address line linenum =
    only_if (occurs (re "(&\\([^)]+\\)[\\w(])|(&(static|dynamic|reinterpret)_cast\\b)") line) (
      diagnose linenum "runtime/casting" 4 (
        text
          "Are you taking an address of a cast?  This is dangerous: could be a temp var.  Take the address before doing the cast, rather than after")
      ∷ [])
