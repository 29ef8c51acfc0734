-- ===== src/Program.antt =====
-- cpplint.py, ProcessFile (lines 3200-3265) and main (3342-3357) on the process-wide state.
pub mod Kept
pub mod Forgets
use tpool.Base.{List, Option, [], if◌then◌else◌, none, some, ℤ, ◌++◌, ◌∷◌}
use tpool.Text.{Text, text}
use tpool.Run.{Run, Stop, raises, returns, runs_on}
use tpool.Environment.{Environment}
use tpool.LintState
use tpool.LintState.{LintState, print_error_counts, reset_error_counts, set_verbose_level}
use tpool.Session.{Session, apply_effects, forget_suppressions}
use tpool.Processing.{content_reports, is_linted}

-- The state, and the lines that are written to the standard error but for the errors themselves.
abbrev pub Progress : Type 0
Progress = Session × List Text

-- The reports are handled as they are made, so a check that raises or hangs has printed those before.
unfoldable pub conclude : Stop (Unit {0}) → Option Session → Stop Session
conclude stop none = raises
conclude (returns u) (some s) = returns s
conclude raises (some s) = raises
conclude runs_on (some s) = runs_on

unfoldable pub handle : Session → Text → Run (Unit {0}) → Stop Session
unfolding conclude apply_effects
handle s filename (es, stop) = conclude stop (apply_effects s filename es)

unfoldable pub skipping : Text → Text
skipping filename = text "Skipping input '" ++ (filename ++ text "': Can't open for reading\n")

unfoldable pub ignoring : Text → Text
ignoring filename = text "Ignoring " ++ (filename ++ text "; not a .cc or .h file\n")

unfoldable pub done_processing : Text → Text
done_processing filename = text "Done processing " ++ (filename ++ text "\n")

pub finish_file : Text → Stop Session → Stop Progress
unfolding done_processing
finish_file filename (returns s) = returns (s, done_processing filename ∷ [])
finish_file filename raises = raises
finish_file filename runs_on = runs_on

-- A file that has been read.
unfoldable pub lint_content : Environment → ℤ → Text → Session → Text → Stop Progress
unfolding is_linted handle finish_file ignoring done_processing
lint_content env vlevel filename s content =
    if is_linted filename
    then finish_file filename
        (handle (forget_suppressions s) filename (content_reports env vlevel filename content))
    else returns (s, ignoring filename ∷ done_processing filename ∷ [])

pub read_content : Environment → ℤ → Text → Session → Option Text → Stop Progress
unfolding lint_content skipping
read_content env vlevel filename s none = returns (s, skipping filename ∷ [])
read_content env vlevel filename s (some content) = lint_content env vlevel filename s content

-- ProcessFile
unfoldable pub process_file : Environment → Text → ℤ → Session → Stop Progress
unfolding read_content
process_file env filename vlevel s =
    read_content env vlevel filename
      (record s { lint = (LintState.set_verbose_level s.lint vlevel).0 }) (env.read filename)

pub append_lines : List Text → Stop Progress → Stop Progress
append_lines lines (returns (s, more)) = returns (s, lines ++ more)
append_lines lines raises = raises
append_lines lines runs_on = runs_on

-- for filename in filenames
unfoldable pub process_files : Environment → List Text → Session → Stop Progress
unfolding process_file append_lines
process_files env [] s = returns (s, [])
process_files env (filename ∷ filenames) s =
    elim (process_file env filename s.lint.verbose_level s) [
      | returns (s', lines) ↦ append_lines lines (process_files env filenames s')
      | raises ↦ raises
      | runs_on ↦ runs_on
    ]

-- main, once ParseArguments has given the state and the names: the state at the end and the lines of
-- the summary.
abbrev pub start : LintState → Session
start lint = record { lint = LintState.reset_error_counts lint; suppressions = []; output = [] }

pub summarise : Stop Progress → Stop Progress
summarise (returns (s, lines)) = returns (s, lines ++ LintState.print_error_counts s.lint)
summarise raises = raises
summarise runs_on = runs_on

unfoldable pub lint_files : Environment → LintState → List Text → Stop Progress
unfolding summarise process_files
lint_files env lint filenames = summarise (process_files env filenames (start lint))
