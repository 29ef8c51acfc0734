-- ===== src/Session/Verdict.antt =====
-- Which reports are printed, by the filters that fit a category.
use tpool.Base.{
  Bool, List, Option, [], all, arith, below, drop, false, if◌then◌else◌, none, not, refl, some,
  true, ℕ, ◌&&◌, ◌++◌, ◌∷◌, ◌≡◌,
}
use tpool.Text.{Text, starts_with}
use tpool.LintState.{has_sign}
use mathlib.Core.List.{reverse, reverse-cons}
use tpool.Session.{Session, error, filtered, print_if, should_print_error, verdict}
use tpool.Report.{Diagnostic}
use tpool.Nolint.{is_error_suppressed_by_nolint}

-- The filter with this name is about the category.
abbrev pub fits : Text → Text → Bool
fits category one_filter = starts_with category (drop 1 one_filter)

-- The first filter of a list that is about the category, if any.
unfoldable pub first_fit : Text → List Text → Option Text
first_fit category [] = none
first_fit category (f ∷ fs) = if fits category f then some f else first_fit category fs

-- Errors are off when that filter is a `-` filter; they are on where no filter is about them.
abbrev pub is_off : Bool → Option Text → Bool
is_off otherwise none = otherwise
is_off otherwise (some f) = starts_with f (b'-' ∷ [])

abbrev or_else : Option Text → Option Text → Option Text
or_else none b = b
or_else (some f) b = some f

first_fit-append :
    (category : Text) (fs gs : List Text)
    → first_fit category (fs ++ gs) ≡ or_else (first_fit category fs) (first_fit category gs)
unfolding first_fit
first_fit-append category [] gs = refl
first_fit-append category (f ∷ fs) gs = ground (arith, first_fit-append category fs gs)

-- For filters that all have a sign, the loop ends with no failed assertion, and what it says is
-- decided by the last filter that fits.
filtered_last :
    (fs : List Text) (b : Bool) (category : Text)
    → all has_sign fs ≡ true
    → filtered b fs category ≡ some (is_off b (first_fit category (reverse fs)))
unfolding filtered first_fit
filtered_last [] b category h = refl
filtered_last (f ∷ fs) b category h =
    rw (reverse-cons f fs, first_fit-append category (reverse fs) (f ∷ []))
      (ground (arith, filtered_last fs (verdict f category b) category))

-- With filters that all have a sign, _ShouldPrintError fails no assertion, and says yes exactly when
-- no NOLINT suppresses the category on the line, the confidence reaches the verbosity level, and the
-- last filter that is a prefix of the category is not a `-` filter.
pub should_print_error_exact :
    (s : Session) (category : Text) (confidence line : ℕ)
    → all has_sign s.lint.filters ≡ true
    → should_print_error s category confidence line
      ≡ some (
          not (is_error_suppressed_by_nolint s.suppressions category line)
          && (not (below confidence s.lint.verbose_level)
              && not (is_off false (first_fit category (reverse s.lint.filters)))))
unfolding should_print_error
should_print_error_exact s category confidence line h = ground (
  arith,
  filtered_last s.lint.filters false category h,
  is_error_suppressed_by_nolint s.suppressions category line,
  is_off false (first_fit category (reverse s.lint.filters)),
)

-- An error that a NOLINT comment suppresses on its line leaves everything as it was, whatever the
-- filters are.
pub error_suppressed :
    (s : Session) (filename : Text) (d : Diagnostic)
    → is_error_suppressed_by_nolint s.suppressions d.category d.line ≡ true
    → error s filename d ≡ some s
unfolding error should_print_error print_if
error_suppressed s filename d h = ground arith
