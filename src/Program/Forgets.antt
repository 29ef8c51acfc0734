-- ===== src/Program/Forgets.antt =====
-- The NOLINT comments of one file and the next.
use tpool.Base.{refl, some, true, ℤ, ◌≡◌}
use tpool.Text.{Text}
use tpool.Environment.{Environment}
use tpool.LintState
use tpool.LintState.{LintState, set_verbose_level}
use tpool.Nolint.{Suppressions}
use tpool.Session.{Session, forget_suppressions}
use tpool.Processing.{is_linted}
use tpool.Program.{lint_content, process_file, read_content}

-- A file that can be read and is linted comes out the same, in its errors, its counts and the
-- suppressions left behind, whatever lines were suppressed before: the NOLINT comments of one file
-- silence nothing in another.
pub process_file-suppressions :
    (env : Environment) (filename content : Text) (vlevel : ℤ) (s : Session) (old : Suppressions)
    → env.read filename ≡ some content
    → is_linted filename ≡ true
    → process_file env filename vlevel (record s { suppressions = old })
      ≡ process_file env filename vlevel s
unfolding process_file read_content lint_content forget_suppressions LintState.set_verbose_level
process_file-suppressions env filename content vlevel s old readable linted =
    rw (readable, linted) refl
