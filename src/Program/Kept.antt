-- ===== src/Program/Kept.antt =====
-- What a run over files leaves of the process-wide state.
use tpool.Arguments.{exit_status}
use tpool.Base.{
  Bool-cases, List, Option, [], all, arith, inl, inr, length, none, refl, some, subst, true, ℤ, ◌↔◌,
  ◌∷◌, ◌≡◌,
}
use tpool.Text.{Text}
use tpool.Run.{Run, Stop, raises, returns, runs_on}
use tpool.Environment.{Environment}
use tpool.LintState
use tpool.LintState.{LintState, has_sign, reset_error_counts, set_verbose_level}
use tpool.Session.{Session, forget_suppressions}
use tpool.Session.Output.{Extends, Extends-refl, Extends-same, Extends-trans, apply_effects_total}
use tpool.Processing.{content_reports, is_linted}
use tpool.Program.{
  Progress, append_lines, conclude, finish_file, handle, lint_content, lint_files, process_file,
  process_files, read_content, start, summarise,
}

-- The state is an extension, if there is one.
abbrev Keeps : Session → Stop Session → Type 0
Keeps s (returns s') = Extends s s'
Keeps s raises = Unit {0}
Keeps s runs_on = Unit {0}

abbrev Goes : Session → Stop Progress → Type 0
Goes s (returns (s', lines)) = Extends s s'
Goes s raises = Unit {0}
Goes s runs_on = Unit {0}

Goes-trans : {s t : Session} (r : Stop Progress) → Extends s t → Goes t r → Goes s r
Goes-trans (returns (u, lines)) e g = Extends-trans e g
Goes-trans raises e g = tt
Goes-trans runs_on e g = tt

handle-Keeps :
    (s : Session) (filename : Text) (m : Run (Unit {0}))
    → all has_sign s.lint.filters ≡ true
    → Keeps s (handle s filename m)
unfolding handle conclude
handle-Keeps s filename (es, returns u) h =
    let (t, ends, extends) = apply_effects_total es s filename h in rw ends extends
handle-Keeps s filename (es, raises) h =
    let (t, ends, extends) = apply_effects_total es s filename h in rw ends tt
handle-Keeps s filename (es, runs_on) h =
    let (t, ends, extends) = apply_effects_total es s filename h in rw ends tt

finish_file-Goes :
    (s : Session) (filename : Text) (r : Stop Session) → Keeps s r → Goes s (finish_file filename r)
unfolding finish_file
finish_file-Goes s filename (returns s') k = k
finish_file-Goes s filename raises k = tt
finish_file-Goes s filename runs_on k = tt

forget_suppressions-Extends : (s : Session) → Extends s (forget_suppressions s)
unfolding forget_suppressions
forget_suppressions-Extends s = Extends-same s (forget_suppressions s) refl refl

still_signed :
    (s : Session)
    → all has_sign s.lint.filters ≡ true
    → all has_sign (forget_suppressions s).lint.filters ≡ true
unfolding forget_suppressions
still_signed s signed = signed

module _ (env : Environment) (filename : Text) (s : Session)
    (signed : all has_sign s.lint.filters ≡ true) where
  lint_content-Goes :
      (vlevel : ℤ) (content : Text) → Goes s (lint_content env vlevel filename s content)
  unfolding lint_content
  lint_content-Goes vlevel content = elim (Bool-cases (is_linted filename)) [
    | inl linted ↦ rw linted (
        Goes-trans _ (forget_suppressions-Extends s) (
          finish_file-Goes (forget_suppressions s) filename _ (
            handle-Keeps (forget_suppressions s) filename
              (content_reports env vlevel filename content) (still_signed s signed))))
    | inr ignored ↦ rw ignored (Extends-refl s)
  ]

  read_content-Goes : (vlevel : ℤ) (o : Option Text) → Goes s (read_content env vlevel filename s o)
  unfolding read_content
  read_content-Goes vlevel none = Extends-refl s
  read_content-Goes vlevel (some content) = lint_content-Goes vlevel content

process_file-Goes :
    (env : Environment) (filename : Text) (s : Session)
    → all has_sign s.lint.filters ≡ true
    → Goes s (process_file env filename s.lint.verbose_level s)
unfolding process_file LintState.set_verbose_level
process_file-Goes env filename s signed =
    read_content-Goes env filename s signed s.lint.verbose_level (env.read filename)

append_lines-Goes :
    (s : Session) (lines : List Text) (r : Stop Progress) → Goes s r → Goes s (append_lines lines r)
unfolding append_lines
append_lines-Goes s lines (returns (t, more)) g = g
append_lines-Goes s lines raises g = tt
append_lines-Goes s lines runs_on g = tt

process_files-Goes :
    (env : Environment) (filenames : List Text) (s : Session)
    → all has_sign s.lint.filters ≡ true
    → Goes s (process_files env filenames s)
unfolding process_files
process_files-Goes env [] s signed = Extends-refl s
process_files-Goes env (filename ∷ filenames) s signed =
    elim (process_file env filename s.lint.verbose_level s)
        as (λ r.
          Goes s r
          → Goes s (elim r [
            | returns (s', lines) ↦ append_lines lines (process_files env filenames s')
            | raises ↦ raises
            | runs_on ↦ runs_on
          ])) [
            | returns (s', lines) ↦ λ first. append_lines-Goes s lines _ (
                Goes-trans _ first
                  (process_files-Goes env filenames s' (rw (first.same_filters) signed)))
            | raises ↦ λ first. tt
            | runs_on ↦ λ first. tt
          ]
      (process_file-Goes env filename s signed)

summarised :
    (s t : Session) (lines : List Text) (r : Stop Progress)
    → Goes s r
    → summarise r ≡ returns (t, lines)
    → Extends s t
unfolding summarise
summarised s t lines (returns (u, more)) g e = subst (Goes s) e g
summarised s t lines raises g e = absurd cc
summarised s t lines runs_on g e = absurd cc

-- With filters that all have a sign, a run of the program over files that returns has counted exactly
-- the error lines that it printed, so that its exit status is 0 exactly when it printed none; and
-- the filters and the verbosity level are those that it started with.
pub lint_files_lem :
    (env : Environment) (lint : LintState) (filenames : List Text) (s : Session) (lines : List Text)
    → all has_sign lint.filters ≡ true
    → lint_files env lint filenames ≡ returns (s, lines)
    → (s.lint.error_count ≡ length s.output)
      × ((exit_status s.lint ≡ 0) ↔ (length s.output ≡ 0))
      × (s.lint.filters ≡ lint.filters)
      × (s.lint.verbose_level ≡ lint.verbose_level)
unfolding lint_files exit_status LintState.reset_error_counts
lint_files_lem env lint filenames s lines signed run =
    let e =
      summarised (start lint) s lines _ (process_files-Goes env filenames (start lint) signed)
        run in
    (ground (arith, e.counted), ground (arith, e.counted), e.same_filters, e.same_level)
