-- ===== src/Tests/Whole.antt =====
-- Runs of the processing of whole files, and its theorems applied to small ones.
use tpool.Checks.{check_check, check_macros}
use tpool.Spacing.Calls.{control_patterns}
use tpool.Spacing.{check_spacing}
use tpool.FunctionState
use tpool.FunctionState.{FunctionState, count_line, init}
use tpool.FunctionLengths.{blank, check_for_function_lengths, declaration, function_end}
use tpool.Style.{check_style}
use tpool.Language.{check_language}
use tpool.Nolint.{parse_nolint_suppressions}
use tpool.LineChecks.{
  check_for_multiline_comments_and_strings, check_invalid_increment, check_make_pair_uses_deduction,
  check_posix_threading,
}
use tpool.Constructs.{
  check_for_non_standard_constructs, class_body, class_decl, construct_reports, format_reports,
  read_head, unopened,
}
use tpool.Processing.{
  Job, Tracking, content_reports, is_linted, lengths_run, no_tracking, process_line, process_lines,
  returns_report,
}
use tpool.Brackets.{get_text_inside}
use tpool.Pattern.Parse.{ignoring_case, re}
use tpool.Processing.Stack.{process_lines-IsTracked}
use tpool.Classes.{ClassInfo, class_info}
use tpool.Braces.{block_reports, check_braces, line_start_reports, one_line_reports}
use tpool.Constructs.Tracked.{IsTracked}
use tpool.Base.{[], any, false, none, pos, refl, some, true, ◌++◌, ◌==◌, ◌∷◌, ◌≡◌}
use tpool.Text.{contains, count, count_char, replace, text}
use tpool.Run.{emit, returns, ◌>>=◌, ◌>>◌}
use tpool.Environment.{Environment}
use tpool.LintState
use tpool.LintState.{LintState}
use tpool.Session.{Session}
use tpool.Cleanse.{CleansedLines, include_line}
use tpool.Processing.Returns.{content_reports-with_returns, has_no_return, with_returns}
use tpool.Program.{process_file}
use tpool.Program.Forgets.{process_file-suppressions}
use tpool.Pattern.{count_matches, group_text, match_start, matches, occurs}

-- A tree of directories in which nothing is there but one file.
abbrev env : Environment
env = record {
  files = record { abspath = λ p. text "/r/" ++ p; exists = λ p. false };
  unicode = record { normalize = λ s. s; is_wide = λ c. false; is_combining = λ c. false };
  read = λ name. some (text "int a;\n");
  fuel = 5;
}

abbrev job : Job
job = record {
  env = env;
  filename = text "a.cc";
  file_extension = text "cc";
  verbose_level = pos 1;
}

no_returns : has_no_return (text "int a;\n") ≡ true
unfolding text
no_returns = refl

content_reports-with_returns_example :
    content_reports env (pos 1) (text "a.cc") (with_returns (text "int a;\n")) ≡ (
      content_reports env (pos 1) (text "a.cc") (text "int a;\n")
      >> emit (returns_report (any (λ c. c == b'\n') (text "int a;\n"))))
content_reports-with_returns_example =
    content_reports-with_returns env (pos 1) (text "a.cc") (text "int a;\n") no_returns

abbrev used : Session
used = record { lint = LintState.init; suppressions = (none, 1) ∷ []; output = [] }

linted_cc : is_linted (text "a.cc") ≡ true
unfolding is_linted text
linted_cc = refl

process_file-suppressions_example :
    process_file env (text "a.cc") (pos 1) (record used { suppressions = (none, 2) ∷ [] })
    ≡ process_file env (text "a.cc") (pos 1) used
process_file-suppressions_example =
    process_file-suppressions env (text "a.cc") (text "int a;\n") (pos 1) used ((none, 2) ∷ []) refl
      linted_cc

abbrev class_lines : CleansedLines
class_lines = record {
  elided = text "class A {" ∷ [];
  lines = text "class A {" ∷ [];
  raw_lines = text "class A {" ∷ [];
  num_lines = 1;
}

abbrev open_class : ClassInfo
open_class = record {
  name = text "A";
  linenum = 0;
  seen_open_brace = true;
  is_derived = false;
  virtual_method_linenumber = none;
  has_virtual_destructor = false;
  brace_depth = 1;
  last_line = 0;
}

abbrev inside_class : Tracking
inside_class = record no_tracking {
  function_state = FunctionState.count_line FunctionState.init;
  class_state = open_class ∷ [];
}

no_nolint : parse_nolint_suppressions 0 (text "class A {") ≡ []
unfolding parse_nolint_suppressions text
no_nolint = refl

not_counted :
    check_for_function_lengths class_lines 0 (pos 1) FunctionState.init
    ≡ some (FunctionState.count_line FunctionState.init, [])
unfolding check_for_function_lengths text match_start declaration matches function_end blank
not_counted = refl

no_strings : check_for_multiline_comments_and_strings class_lines 0 ≡ []
unfolding check_for_multiline_comments_and_strings text count replace
no_strings = refl

in_style : check_style env (text "a.cc") (text "cc") class_lines 0 [] ≡ ([], returns tt)
unfolding check_style text ◌>>=◌ occurs check_braces re matches line_start_reports one_line_reports
    block_reports check_spacing control_patterns check_check check_macros
in_style = refl

in_language :
    check_language env (text "a.cc") (text "cc") class_lines 0 no_tracking.include_state
    ≡ ([], returns no_tracking.include_state)
unfolding check_language text occurs include_line ◌>>=◌ get_text_inside ignoring_case re
    count_matches
in_language = refl

class_pushed : check_for_non_standard_constructs class_lines 0 [] ≡ (open_class ∷ [], [])
unfolding check_for_non_standard_constructs text match_start format_reports class_decl occurs re
    class_info replace unopened construct_reports contains matches read_head class_body count
    group_text count_char
class_pushed = refl

no_threads : check_posix_threading class_lines 0 ≡ []
unfolding check_posix_threading text
no_threads = refl

no_increment : check_invalid_increment class_lines 0 ≡ []
unfolding check_invalid_increment text
no_increment = refl

no_pair : check_make_pair_uses_deduction class_lines 0 ≡ []
unfolding check_make_pair_uses_deduction text
no_pair = refl

class_opened : process_lines job class_lines 0 1 no_tracking ≡ ([], returns inside_class)
unfolding process_lines process_line lengths_run ◌>>=◌
class_opened =
    rw
      (
        no_nolint, not_counted, no_strings, in_style, in_language, class_pushed, no_threads,
        no_increment, no_pair,
      )
      refl

process_lines-IsTracked_example : IsTracked 1 inside_class.class_state
process_lines-IsTracked_example =
    process_lines-IsTracked job class_lines 0 1 no_tracking inside_class [] tt class_opened
