-- ===== src/Session/Output.antt =====
-- What the handler of reports adds to the session.
use tpool.Base.{
  Bool, List, [], all, ap, append-nil, append_assoc, arith, false, length, length-append, refl,
  some, sym, true, ◌++◌, ◌+◌, ◌∙◌, ◌∷◌, ◌≡◌, ◌≤◌,
}
use tpool.Text.{Text}
use tpool.Report.{Diagnostic, Effect, report, suppress}
use tpool.LintState
use tpool.LintState.{LintState, has_sign, increment_error_count}
use tpool.Session.Verdict.{should_print_error_exact}
use tpool.Session.{Session, apply_effect, apply_effects, error, format_error, print_if}
use tpool.Nolint.{add_suppression}

-- The output so far with what has been printed behind it, one line of output for each error
-- counted, and the options untouched.
pub record Extends (s s' : Session) : Type 0 where
  pub counted : s'.lint.error_count + length s.output ≡ s.lint.error_count + length s'.output
  pub printed : List Text
  pub kept : s'.output ≡ s.output ++ printed
  pub grows : length s.output ≤ length s'.output
  pub same_filters : s'.lint.filters ≡ s.lint.filters
  pub same_level : s'.lint.verbose_level ≡ s.lint.verbose_level
  pub same_counting : s'.lint.counting ≡ s.lint.counting
  pub same_format : s'.lint.output_format ≡ s.lint.output_format

-- What leaves the counts, the options and the output as they are.
pub Extends-same : (s s' : Session) → s'.lint ≡ s.lint → s'.output ≡ s.output → Extends s s'
Extends-same s s' same_lint same_output = record {
  counted = ground arith;
  printed = [];
  kept = same_output ∙ sym (append-nil s.output);
  grows = ground arith;
  same_filters = ground arith;
  same_level = ground arith;
  same_counting = ground arith;
  same_format = ground arith;
}

pub Extends-refl : (s : Session) → Extends s s
Extends-refl s = Extends-same s s refl refl

pub Extends-trans : {r s t : Session} → Extends r s → Extends s t → Extends r t
Extends-trans {r} a b = record {
  counted = ground (arith, a.counted, b.counted);
  printed = a.printed ++ b.printed;
  kept = b.kept ∙ ap (λ l. l ++ b.printed) a.kept ∙ append_assoc r.output a.printed b.printed;
  grows = omega (arith, a.grows, b.grows);
  same_filters = b.same_filters ∙ a.same_filters;
  same_level = b.same_level ∙ a.same_level;
  same_counting = b.same_counting ∙ a.same_counting;
  same_format = b.same_format ∙ a.same_format;
}

print_if-Extends :
    (s : Session) (filename : Text) (d : Diagnostic) (b : Bool)
    → (s' : Session) × (print_if s filename d (some b) ≡ some s') × Extends s s'
unfolding print_if LintState.increment_error_count
print_if-Extends s filename d false = (s, refl, Extends-refl s)
print_if-Extends s filename d true = (
  record s {
    lint = LintState.increment_error_count s.lint d.category;
    output = s.output ++ (format_error s.lint.output_format filename d ∷ []);
  },
  refl,
  record {
    counted =
        ground (arith, length-append s.output (format_error s.lint.output_format filename d ∷ []));
    printed = format_error s.lint.output_format filename d ∷ [];
    kept = refl;
    grows =
        ground (arith, length-append s.output (format_error s.lint.output_format filename d ∷ []));
    same_filters = refl;
    same_level = refl;
    same_counting = refl;
    same_format = refl;
  },
)

error-Extends :
    (s : Session) (filename : Text) (d : Diagnostic)
    → all has_sign s.lint.filters ≡ true
    → (s' : Session) × (error s filename d ≡ some s') × Extends s s'
unfolding error
error-Extends s filename d h =
    rw (should_print_error_exact s d.category d.confidence d.line h)
      (print_if-Extends s filename d _)

apply_effect-Extends :
    (s : Session) (filename : Text) (e : Effect)
    → all has_sign s.lint.filters ≡ true
    → (s' : Session) × (apply_effect s filename e ≡ some s') × Extends s s'
unfolding apply_effect
apply_effect-Extends s filename (report d) h = error-Extends s filename d h
apply_effect-Extends s filename (suppress category linenum) h = (
  record s { suppressions = add_suppression category linenum s.suppressions },
  refl,
  Extends-same s _ refl refl,
)

-- With filters that all have a sign, every list of reports and suppressions is handled to its end,
-- with no failed assertion. What was printed before then stays in front of what is printed now, the
-- error count grows by exactly the number of lines printed, and the options stay as they were.
pub apply_effects_total :
    (es : List Effect) (s : Session) (filename : Text)
    → all has_sign s.lint.filters ≡ true
    → (s' : Session) × (apply_effects s filename es ≡ some s') × Extends s s'
unfolding apply_effects
apply_effects_total [] s filename h = (s, refl, Extends-refl s)
apply_effects_total (e ∷ es) s filename h =
    let (s1, done, first) = apply_effect-Extends s filename e h in
    let (s2, rest, later) = apply_effects_total es s1 filename (rw (first.same_filters) h) in
    (s2, rw (done, apply_effects) rest, Extends-trans first later)
