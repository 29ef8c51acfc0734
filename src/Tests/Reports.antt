-- ===== src/Tests/Reports.antt =====
-- Runs of the reports and of NOLINT comments, and their theorems on small sessions.
use mathlib.Core.List.{reverse}
use tpool.Session.Silenced.{nolint_silences_category}
use tpool.Pattern.{Found, read_group, search_in}
use tpool.Nolint.{
  add_suppression, error_categories, is_error_suppressed_by_nolint, parse_nolint_suppressions,
  suppression,
}
use tpool.Report.{Diagnostic, Effect, report}
use tpool.Base.{
  List, [], all, arith, below, false, none, not, refl, some, true, ℕ, ◌&&◌, ◌++◌, ◌∷◌, ◌≡◌, ◌≢◌,
}
use tpool.FileChecks.{invalid_utf8}
use tpool.LintState.{LintState, has_sign, increment_error_count}
use tpool.Session.{Session, apply_effects, error, format_error, should_print_error}
use tpool.Session.Output.{Extends, apply_effects_total}
use tpool.Session.Verdict.{first_fit, is_off, should_print_error_exact}
use tpool.Text.{Text, drop_last, ends_with, one_of, starts_with, text}
use tpool.LintState

abbrev session : Session
session = record {
  lint = record LintState.init { filters = text "-build" ∷ text "+build/class" ∷ [] };
  suppressions = (none, 3) ∷ [];
  output = [];
}

session_signed : all LintState.has_sign session.lint.filters ≡ true
unfolding LintState.has_sign text
session_signed = refl

should_print_error_exact_example :
    should_print_error session (text "build/class") 5 2
    ≡ some (
        not (is_error_suppressed_by_nolint session.suppressions (text "build/class") 2)
        && (not (below 5 session.lint.verbose_level)
            && not (is_off false (first_fit (text "build/class") (reverse session.lint.filters)))))
should_print_error_exact_example =
    should_print_error_exact session (text "build/class") 5 2 session_signed

abbrev pub two_reports : List Effect
two_reports = invalid_utf8 1 ∷ invalid_utf8 3 ∷ []

apply_effects_total_example :
    (s' : Session) × (apply_effects session (text "a.cc") two_reports ≡ some s')
    × Extends session s'
apply_effects_total_example = apply_effects_total two_reports session (text "a.cc") session_signed

abbrev silent_line : Text
silent_line = text "f();  // NOLINT(build/class)"

abbrev silent_match : Found
silent_match = record {
  start = 9;
  stop = 28;
  groups = (1, b'(' ∷ (text "build/class" ++ (b')' ∷ []))) ∷ [];
  starts = (1, 15) ∷ [];
}

silent_found : search_in suppression silent_line ≡ some silent_match
unfolding search_in suppression text
silent_found = refl

silent_known : one_of (text "build/class") error_categories ≡ true
unfolding one_of error_categories text
silent_known = refl

abbrev class_error : Diagnostic
class_error = record {
  line = 8;
  category = text "build/class";
  confidence = 5;
  message = text "Failed to find complete declaration of class A";
}

nolint_silences_category_example :
    (s' : Session) × (apply_effects session (text "a.cc") (parse_nolint_suppressions 8 silent_line)
      ≡ some s')
    × (error s' (text "a.cc") class_error ≡ some s')
unfolding read_group
nolint_silences_category_example =
    nolint_silences_category session (text "a.cc") silent_line (text "build/class") 8 silent_match
      class_error silent_found refl silent_known refl refl

abbrev bare_line : Text
bare_line = text "f();  // NOLINT"

abbrev bare_match : Found
bare_match = record { start = 9; stop = 15; groups = []; starts = [] }

bare_found : search_in suppression bare_line ≡ some bare_match
unfolding search_in suppression text
bare_found = refl

abbrev after_note : Session
after_note = record session { suppressions = (some (text "build/class"), 8) ∷ session.suppressions }

note_taken :
    apply_effects session (text "a.cc") (parse_nolint_suppressions 8 silent_line) ≡ some after_note
unfolding apply_effects parse_nolint_suppressions starts_with ends_with one_of error_categories
    drop_last add_suppression
note_taken = refl

abbrev next_line : ℕ
next_line = 9

not_that_line : next_line ≢ 8
not_that_line e = omega (arith, e)

fresh : session.lint.error_count ≡ 0
unfolding LintState.init
fresh = refl

abbrev one_printed : Session
one_printed = record session {
  lint = LintState.increment_error_count session.lint (text "build/class");
  output = format_error session.lint.output_format (text "a.cc") class_error ∷ [];
}

one_print : apply_effects session (text "a.cc") (report class_error ∷ []) ≡ some one_printed
unfolding apply_effects error LintState.init text
one_print = refl
