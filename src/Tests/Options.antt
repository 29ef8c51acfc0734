-- ===== src/Tests/Options.antt =====
-- Runs of the options, the counters and the function lengths, and their theorems.
use tpool.Tests.Reports.{two_reports}
use tpool.Pattern.{matches}
use tpool.Arguments.{Options, files, parse_arguments, read_option, read_options}
use tpool.Arguments.Checked.{parse_arguments-apply_effects}
use tpool.Base.{
  List, [], all, false, min, negsuc, none, pos, refl, some, suc, true, ℕ, ◌*◌, ◌++◌, ◌<◌, ◌^◌, ◌↔◌,
  ◌∷◌, ◌≡◌, ◌≤◌, ◌⊎◌,
}
use tpool.FunctionState.{FunctionState, base_trigger, check, error_level, init, test_name}
use tpool.FunctionState.Size.{ReportsSize, check_lem, check_raises_iff}
use tpool.LintState.{
  LintState, by_category, clean_filters, default_filters, first_bad, has_sign, set_filters,
}
use tpool.LintState.Filters.{set_filters_lem}
use tpool.Session.{Session, apply_effects}
use tpool.Session.Output.{Extends}
use tpool.Text.{Text, is_ascii_space, is_empty, one_of, same, split_on, strip, text}
use tpool.LintState
use tpool.FunctionState

abbrev accepted_options : Options
accepted_options = (text "--filter", text "-whitespace") ∷ (text "--counting", text "detailed") ∷ []

abbrev accepted_state : LintState
accepted_state = record LintState.init {
  filters = text "-build/include_alpha" ∷ text "-whitespace" ∷ [];
  counting = text "detailed";
}

abbrev accepted_names : List Text
accepted_names = text "a.cc" ∷ []

options_accepted :
    parse_arguments LintState.init (some (accepted_options, accepted_names))
    ≡ files accepted_state accepted_names
unfolding parse_arguments read_options read_option same text is_empty one_of set_filters
    LintState.first_bad clean_filters split_on strip is_ascii_space
options_accepted = refl

abbrev accepted_session : Session
accepted_session = record { lint = accepted_state; suppressions = []; output = [] }

parse_arguments-apply_effects_example :
    (s' : Session) × (apply_effects accepted_session (text "a.cc") two_reports ≡ some s')
    × Extends accepted_session s'
parse_arguments-apply_effects_example =
    parse_arguments-apply_effects LintState.init accepted_options accepted_names accepted_names
      accepted_session options_accepted two_reports (text "a.cc")

set_filters_lem_example :
    ((LintState.set_filters LintState.init (text "-a,b")).0.filters
      ≡ LintState.default_filters ++ LintState.clean_filters (split_on b',' (text "-a,b")))
    × ((((LintState.set_filters LintState.init (text "-a,b")).1 ≡ none)
          × (all LintState.has_sign (LintState.set_filters LintState.init (text "-a,b")).0.filters
              ≡ true))
        ⊎ ((f : Text) × (before : List Text) × (after : List Text) × ((LintState.set_filters
                LintState.init
                (text "-a,b")).1
              ≡ some f)
            × ((LintState.set_filters LintState.init (text "-a,b")).0.filters
                ≡ before ++ (f ∷ after))
            × (all LintState.has_sign before ≡ true)
            × (LintState.has_sign f ≡ false)))
set_filters_lem_example = set_filters_lem LintState.init (text "-a,b")

abbrev three_categories : List Text
three_categories = text "build/class" ∷ text "build/include" ∷ text "runtime/int" ∷ []

abbrev toplevel : LintState
toplevel = record LintState.init { counting = text "toplevel" }

toplevel_counts : by_category toplevel.counting ≡ true
unfolding by_category text
toplevel_counts = refl

abbrev long_function : FunctionState
long_function = record {
  in_a_function = true;
  lines_in_function = 1200;
  current_function = text "f()";
}

check_lem_example :
    ((long_function.lines_in_function ≤ base_trigger long_function.current_function * 2 ^ 1)
      × (FunctionState.check long_function (pos 1) 7 ≡ some []))
    ⊎ ((base_trigger long_function.current_function * 2 ^ 1 < long_function.lines_in_function)
        × ((level : ℕ) × ReportsSize 7 level (FunctionState.check long_function (pos 1) 7)
            × (min 5 1 ≤ level)
            × (level ≤ 5)))
check_lem_example = check_lem long_function 1 7

abbrev short_function : FunctionState
short_function = record {
  in_a_function = true;
  lines_in_function = 200;
  current_function = text "f()";
}

short_raises : FunctionState.check short_function (negsuc 0) 7 ≡ none
unfolding FunctionState.check matches FunctionState.test_name FunctionState.error_level
short_raises = refl

check_raises_iff_example : (FunctionState.check short_function (negsuc 0) 7 ≡ none) ↔ (
    (n : ℕ) × (negsuc 0 ≡ negsuc n)
    × (short_function.lines_in_function < base_trigger short_function.current_function)
    × (base_trigger short_function.current_function < short_function.lines_in_function * 2 ^ suc n))
check_raises_iff_example = check_raises_iff short_function (negsuc 0) 7
