-- ===== src/Tests/Runs.antt =====
-- A run of the program over an empty file, and the theorem on its counts applied to it.
use tpool.LintState
use tpool.Arguments.{exit_status}
use tpool.Program.Kept.{lint_files_lem}
use tpool.Run.{returns, ◌>>=◌}
use tpool.Base.{List, [], all, false, length, refl, some, true, ◌++◌, ◌↔◌, ◌∷◌, ◌≡◌}
use tpool.Environment.{Environment}
use tpool.Session.{Session, error, forget_suppressions}
use tpool.LintState.{
  LintState, has_sign, init, print_error_counts, reset_error_counts, set_verbose_level,
}
use tpool.Pattern.Parse.{re}
use tpool.Nolint.{parse_nolint_suppressions}
use tpool.Comments.{opens}
use tpool.Cleanse.{cleanse_comments, collapse_strings}
use tpool.FileChecks.{check_for_copyright}
use tpool.LineChecks.{
  check_comment, check_for_multiline_comments_and_strings, check_invalid_increment,
  check_make_pair_uses_deduction, check_posix_threading,
}
use tpool.FunctionLengths.{blank, check_for_function_lengths, declaration, function_end}
use tpool.Constructs.{
  check_for_non_standard_constructs, class_decl, construct_reports, format_reports,
}
use tpool.Braces.{block_reports, check_braces, line_start_reports, one_line_reports}
use tpool.Checks.{check_check, check_macros}
use tpool.Style.{check_style}
use tpool.Language.{check_language}
use tpool.Spacing.{check_spacing}
use tpool.Spacing.Calls.{control_patterns}
use tpool.Processing.{content_reports}
use tpool.Program.{lint_files}
use tpool.Text.{Text, text}

abbrev env : Environment
env = record {
  files = record { abspath = λ p. text "/r/" ++ p; exists = λ p. false };
  unicode = record { normalize = λ s. s; is_wide = λ c. false; is_combining = λ c. false };
  read = λ name. some [];
  fuel = 5;
}

-- The one error of the run, and the lines that are written beside it.
abbrev after : Session
after = record {
  lint = record LintState.init { error_count = 1 };
  suppressions = [];
  output =
      text
        "a.cc:0:  No copyright message found.  You should have a line: \"Copyright [year] <Copyright Owner>\"  [legal/copyright] [5]\n"
      ∷ [];
}

abbrev summary : List Text
summary = text "Done processing a.cc\n" ∷ text "Total errors found: 1\n" ∷ []

run_done : lint_files env LintState.init (text "a.cc" ∷ []) ≡ returns (after, summary)
unfolding re parse_nolint_suppressions LintState.init LintState.set_verbose_level
    LintState.reset_error_counts LintState.print_error_counts error forget_suppressions opens
    cleanse_comments collapse_strings check_for_copyright check_for_multiline_comments_and_strings
    check_posix_threading check_invalid_increment check_comment check_make_pair_uses_deduction
    declaration function_end blank check_for_function_lengths format_reports construct_reports
    class_decl check_for_non_standard_constructs ◌>>=◌ line_start_reports one_line_reports
    block_reports check_braces check_macros check_check check_style check_language check_spacing
    control_patterns content_reports lint_files
run_done = refl

signed : all has_sign LintState.init.filters ≡ true
unfolding LintState.init text has_sign
signed = refl

lint_files_lem_example :
    (after.lint.error_count ≡ length after.output)
    × ((exit_status after.lint ≡ 0) ↔ (length after.output ≡ 0))
    × (after.lint.filters ≡ LintState.init.filters)
    × (after.lint.verbose_level ≡ LintState.init.verbose_level)
lint_files_lem_example =
    lint_files_lem env LintState.init (text "a.cc" ∷ []) after summary signed run_done
