-- ===== src/Processing.antt =====
-- cpplint.py, the composition of the checks: ProcessLine, ProcessFileData, and what ProcessFile does
-- with the content of a file (lines 3119-3263). No extra check functions are given, as main gives
-- none.
pub mod Stack
pub mod Returns
use tpool.Run.{Run, emit, emitting, or_run_on, pure, raises, returns, ◌>>=◌, ◌>>◌}
use tpool.Base.{
  Bool, List, Option, [], any, drop, get_or, if◌then◌else◌, length, map, none, some, suc, zero, ℕ,
  ℤ, ◌++◌, ◌==◌, ◌||◌, ◌∷◌,
}
use tpool.Text.{Text, count, ends_with, rfind, same, split_on, strip_right, text}
use tpool.Report.{Effect, diagnose, only_if}
use tpool.Environment.{Environment}
use tpool.Nolint.{parse_nolint_suppressions}
use tpool.IncludeOrder
use tpool.IncludeOrder.{IncludeState, init}
use tpool.FunctionState
use tpool.FunctionState.{FunctionState}
use tpool.FunctionLengths.{check_for_function_lengths}
use tpool.Comments.{remove_multi_line_comments}
use tpool.Cleanse.{CleansedLines, cleansed_lines}
use tpool.HeaderGuard.{check_for_header_guard, get_header_guard_cpp_variable}
use tpool.FileChecks.{
  check_for_copyright, check_for_newline_at_eof, check_for_unicode_replacement_characters,
}
use tpool.LineChecks.{
  check_for_multiline_comments_and_strings, check_invalid_increment, check_make_pair_uses_deduction,
  check_posix_threading,
}
use tpool.Classes.{ClassState, check_finished}
use tpool.Constructs.{check_for_non_standard_constructs}
use tpool.Style.{check_style}
use tpool.Language.{check_language}
use tpool.IncludeUse.{check_for_include_what_you_use}

-- The three objects that ProcessFileData hands from line to line.
pub record Tracking : Type 0 where
  pub include_state : IncludeState
  pub function_state : FunctionState
  pub class_state : ClassState

abbrev pub no_tracking : Tracking
no_tracking = record {
  include_state = IncludeOrder.init;
  function_state = FunctionState.init;
  class_state = [];
}

-- What is fixed while a file is processed: the file's name and extension, and the verbosity level.
pub record Job : Type 0 where
  pub env : Environment
  pub filename : Text
  pub file_extension : Text
  pub verbose_level : ℤ

unfoldable pub lengths_run : Option (FunctionState × List Effect) → Run FunctionState
lengths_run none = ([], raises)
lengths_run (some (s, es)) = (es, returns s)

-- ProcessLine
unfoldable pub process_line : Job → CleansedLines → ℕ → Tracking → Run Tracking
unfolding lengths_run
process_line job clean_lines line t = do
  emit (parse_nolint_suppressions line (get_or clean_lines.raw_lines line []))
  function_state ←
      lengths_run (check_for_function_lengths clean_lines line job.verbose_level t.function_state)
  emit (check_for_multiline_comments_and_strings clean_lines line)
  check_style job.env job.filename job.file_extension clean_lines line t.class_state
  include_state ←
      check_language job.env job.filename job.file_extension clean_lines line t.include_state
  class_state ← emitting (check_for_non_standard_constructs clean_lines line t.class_state)
  emit (check_posix_threading clean_lines line)
  emit (check_invalid_increment clean_lines line)
  emit (check_make_pair_uses_deduction clean_lines line)
  pure (record {
    include_state = include_state;
    function_state = function_state;
    class_state = class_state;
  })

-- for line in xrange(clean_lines.NumLines()): `count` lines from number `line` on.
unfoldable pub process_lines : Job → CleansedLines → ℕ → ℕ → Tracking → Run Tracking
unfolding process_line
process_lines job clean_lines line zero t = pure t
process_lines job clean_lines line (suc count) t = do
  t' ← process_line job clean_lines line t
  process_lines job clean_lines (suc line) count t'

-- The lines of the file with a marker at either end.
unfoldable pub with_markers : List Text → List Text
with_markers lines =
    text "// marker so line numbers and indices both start at 1"
    ∷ (lines ++ (text "// marker so line numbers end in a known way" ∷ []))

-- The header guard of a `.h` file; the variable may not be found within the fuel.
unfoldable pub guard_reports : Job → List Text → Run (Unit {0})
unfolding same get_header_guard_cpp_variable
guard_reports job lines =
    if same job.file_extension (text "h")
    then or_run_on (get_header_guard_cpp_variable job.env.files job.env.fuel job.filename)
      >>= (λ cppvar. emit (check_for_header_guard cppvar lines))
    else emit []

-- The lines of a header that can be opened, as iteration over the file gives them but for the newline
-- that each keeps at its end.
unfoldable pub open_lines : Environment → Text → Option (List Text)
unfolding split_on
open_lines env filename = elim (env.read filename) [
  | none ↦ none
  | some content ↦ some (split_on b'\n' content)
]

-- The checks that come after all the lines. The raw lines have had their comments replaced by then.
unfoldable pub last_reports : Job → List Text → CleansedLines → Tracking → List Effect
unfolding check_finished check_for_include_what_you_use open_lines
    check_for_unicode_replacement_characters check_for_newline_at_eof
last_reports job lines clean_lines t =
    check_finished t.class_state
    ++ (check_for_include_what_you_use job.env.files (open_lines job.env) job.filename clean_lines
          t.include_state
        ++ (check_for_unicode_replacement_characters lines ++ check_for_newline_at_eof lines))

-- ProcessFileData, after ResetNolintSuppressions
unfoldable pub process_file_data : Job → List Text → Run (Unit {0})
unfolding with_markers guard_reports remove_multi_line_comments cleansed_lines process_lines
    last_reports
process_file_data job lines = do
  emit (check_for_copyright (with_markers lines))
  guard_reports job (with_markers lines)
  (kept, es) ← or_run_on (remove_multi_line_comments (with_markers lines))
  emit es
  t ← process_lines job (cleansed_lines kept) 0 (length kept) no_tracking
  emit (last_reports job kept (cleansed_lines kept) t)

-- line.rstrip('\r')
unfoldable pub without_returns : Text → Text
unfolding strip_right
without_returns line = strip_right (λ c. c == 13) line

unfoldable pub has_return : Text → Bool
unfolding ends_with
has_return line = ends_with line (13 ∷ [])

-- filename[filename.rfind('.') + 1:]
unfoldable pub extension_of : Text → Text
unfolding rfind
extension_of filename = elim (rfind b'.' filename) [
  | none ↦ filename
  | some i ↦ drop (suc i) filename
]

unfoldable pub is_linted : Text → Bool
unfolding same extension_of
is_linted filename =
    same filename (text "-")
    || (same (extension_of filename) (text "cc")
        || (same (extension_of filename) (text "h") || same (extension_of filename) (text "cpp")))

unfoldable pub returns_report : Bool → List Effect
returns_report carriage_return_found = only_if carriage_return_found (
    diagnose 0 "whitespace/newline" 1
      (text "One or more unexpected \\r (^M) found;better to use only a \\n")
    ∷ [])

-- The reports of a file with this content, where os.linesep is not '\r\n'.
unfoldable pub content_reports : Environment → ℤ → Text → Text → Run (Unit {0})
unfolding process_file_data without_returns has_return returns_report
content_reports env vlevel filename content = do
  let lines = split_on b'\n' content
  process_file_data
      (record {
        env = env;
        filename = filename;
        file_extension = extension_of filename;
        verbose_level = vlevel;
      })
      (map without_returns lines)
  emit (returns_report (any has_return lines))
