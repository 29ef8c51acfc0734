-- ===== src/Session.antt =====
-- cpplint.py, _ShouldPrintError and Error (lines 765-830): the process-wide state that a report
-- meets, and the handler of the effects of a check.
pub mod Verdict
pub mod Output
pub mod Silenced
use tpool.Base.{
  Bool, List, Option, [], below, drop, false, if◌then◌else◌, none, not, some, true, ℕ, ◌++◌, ◌∷◌,
}
use tpool.Text.{Text, decimal, same, starts_with, text}
use tpool.Report.{Diagnostic, Effect, report, suppress}
use tpool.Nolint.{
  Suppressions, add_suppression, is_error_suppressed_by_nolint, reset_nolint_suppressions,
}
use tpool.LintState
use tpool.LintState.{LintState, has_sign, increment_error_count}

-- The global state: _cpplint_state, _error_suppressions, and what went to the standard error.
pub record Session : Type 0 where
  pub lint : LintState
  pub suppressions : Suppressions
  pub output : List Text

-- is_filtered, after one more filter
abbrev pub verdict : Text → Text → Bool → Bool
verdict one_filter category is_filtered =
    if starts_with category (drop 1 one_filter)
    then starts_with one_filter (b'-' ∷ [])
    else is_filtered

-- The loop over _Filters(); `none` is the assertion that fails on a filter with no sign.
unfoldable pub filtered : Bool → List Text → Text → Option Bool
unfolding LintState.has_sign starts_with
filtered is_filtered [] category = some is_filtered
filtered is_filtered (one_filter ∷ rest) category =
    let later = filtered (verdict one_filter category is_filtered) rest category in
    if LintState.has_sign one_filter then later else none

abbrev negated : Option Bool → Option Bool
negated none = none
negated (some b) = some (not b)

unfoldable pub should_print_error : Session → Text → ℕ → ℕ → Option Bool
unfolding is_error_suppressed_by_nolint filtered
should_print_error s category confidence linenum =
    if is_error_suppressed_by_nolint s.suppressions category linenum
    then some false
    else if below confidence s.lint.verbose_level
    then some false
    else negated (filtered false s.lint.filters category)

-- '%s(%s):  %s  [%s] [%d]\n' for vs7, and '%s:%s:  %s  [%s] [%d]\n'
unfoldable pub format_error : Text → Text → Diagnostic → Text
unfolding same
format_error output_format filename d =
    let tail =
      d.message
      ++ (text "  [" ++ (d.category ++ (text "] [" ++ (decimal d.confidence ++ text "]\n")))) in
    if same output_format (text "vs7")
    then filename ++ (text "(" ++ (decimal d.line ++ (text "):  " ++ tail)))
    else filename ++ (text ":" ++ (decimal d.line ++ (text ":  " ++ tail)))

-- What Error does once it knows whether to print.
unfoldable pub print_if : Session → Text → Diagnostic → Option Bool → Option Session
unfolding format_error LintState.increment_error_count
print_if s filename d none = none
print_if s filename d (some false) = some s
print_if s filename d (some true) = some (record s {
  lint = LintState.increment_error_count s.lint d.category;
  output = s.output ++ (format_error s.lint.output_format filename d ∷ []);
})

-- `none` where the assertion fails.
unfoldable pub error : Session → Text → Diagnostic → Option Session
unfolding should_print_error print_if
error s filename d = print_if s filename d (should_print_error s d.category d.confidence d.line)

unfoldable pub apply_effect : Session → Text → Effect → Option Session
apply_effect s filename (report d) = error s filename d
apply_effect s filename (suppress category linenum) =
    some (record s { suppressions = add_suppression category linenum s.suppressions })

unfoldable pub apply_effects : Session → Text → List Effect → Option Session
unfolding apply_effect
apply_effects s filename [] = some s
apply_effects s filename (e ∷ es) = elim (apply_effect s filename e) [
  | none ↦ none
  | some s' ↦ apply_effects s' filename es
]

-- ResetNolintSuppressions()
unfoldable pub forget_suppressions : Session → Session
forget_suppressions s = record s { suppressions = reset_nolint_suppressions }
