-- ===== src/Report.antt =====
-- What a check does to the rest of the program, in the order of its calls: it reports a problem
-- through the `error` callback, or notes that errors of a line are suppressed
-- (_error_suppressions). The handler of these effects is in Session.
use tpool.Base.{Bool, List, Option, String, [], false, true, ℕ}
use tpool.Text.{Text, text}

-- The arguments of error(filename, linenum, category, confidence, message) but for the file's name.
pub record Diagnostic : Type 0 where
  pub line : ℕ
  pub category : Text
  pub confidence : ℕ
  pub message : Text

pub data Effect : Type 0 where
  report : Diagnostic → Effect
  suppress : Option Text → ℕ → Effect

abbrev pub diagnose : ℕ → String → ℕ → Text → Effect
diagnose line category confidence message =
    report
      (record { line = line; category = text category; confidence = confidence; message = message })

-- `if b: ...` in front of what a check does next
abbrev pub only_if : Bool → List Effect → List Effect
only_if true es = es
only_if false es = []
