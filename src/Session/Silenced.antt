-- ===== src/Session/Silenced.antt =====
-- What a NOLINT comment does to the reports of its line and of other lines.
use tpool.Base.{
  Bool, List, Option, Option-cases, [], arith, false, inl, inr, none, refl, some, true, ℕ, ◌++◌,
  ◌∷◌, ◌≡◌, ◌≢◌, ◌⊎◌,
}
use tpool.Text.{Text, one_of, text}
use tpool.Pattern.{Found, read_group, search_in}
use tpool.Nolint.Notes.{
  Noted, noted_line, nothing_noted, parse_nolint_suppressions-Noted, parse_nolint_suppressions-all,
  parse_nolint_suppressions-category, unknown,
}
use tpool.Nolint.{
  add_suppression, covers, error_categories, is_error_suppressed_by_nolint, noted,
  parse_nolint_suppressions, suppression,
}
use tpool.Report.{Diagnostic, Effect, suppress}
use tpool.Session.{Session, apply_effect, apply_effects, error, print_if}
use tpool.Session.Verdict.{error_suppressed}
use tpool.Text.Laws.{same_iff}

suppressions-print_if :
    (s s' : Session) (filename : Text) (d : Diagnostic) (o : Option Bool)
    → print_if s filename d o ≡ some s'
    → s'.suppressions ≡ s.suppressions
unfolding print_if
suppressions-print_if s s' filename d none h = cc
suppressions-print_if s s' filename d (some true) h = ground arith
suppressions-print_if s s' filename d (some false) h = ground arith

suppressions-error :
    (s s' : Session) (filename : Text) (d : Diagnostic)
    → error s filename d ≡ some s'
    → s'.suppressions ≡ s.suppressions
unfolding error
suppressions-error s s' filename d h = suppressions-print_if s s' filename d _ h

other_line :
    (s s' : Session) (filename category : Text) (n line : ℕ) (es : List Effect)
    → Noted n es
    → apply_effects s filename es ≡ some s'
    → line ≢ n
    → is_error_suppressed_by_nolint s'.suppressions category line
      ≡ is_error_suppressed_by_nolint s.suppressions category line
unfolding apply_effects apply_effect add_suppression is_error_suppressed_by_nolint covers
other_line s s' filename category n line es nothing_noted h other = ground arith
other_line s s' filename category n line es (noted_line none) h other = ground arith
other_line s s' filename category n line es (noted_line (some c)) h other = ground arith
other_line s s' filename category n line es (unknown d) h other =
    elim (Option-cases (error s filename d)) [
      | inl failed ↦ ground arith
      | inr (s1, printed) ↦ ground (arith, suppressions-error s s1 filename d printed)
    ]

-- A comment on line `n` leaves the answer of IsErrorSuppressedByNolint for every other line as it was.
pub parse_nolint_suppressions-other_line :
    (s s' : Session) (filename raw_line category : Text) (n line : ℕ)
    → apply_effects s filename (parse_nolint_suppressions n raw_line) ≡ some s'
    → line ≢ n
    → is_error_suppressed_by_nolint s'.suppressions category line
      ≡ is_error_suppressed_by_nolint s.suppressions category line
parse_nolint_suppressions-other_line s s' filename raw_line category n line =
    other_line s s' filename category n line _ (parse_nolint_suppressions-Noted n raw_line)

-- What silences: after this note, an error of the category on the line changes nothing.
silenced :
    (s : Session) (filename : Text) (noted : Option Text) (n : ℕ) (d : Diagnostic)
    → covers d.category d.line (noted, n) ≡ true
    → (s' : Session) × (apply_effects s filename (suppress noted n ∷ []) ≡ some s')
      × (error s' filename d ≡ some s')
unfolding apply_effects apply_effect add_suppression is_error_suppressed_by_nolint
silenced s filename noted n d h =
    let s' = record s { suppressions = (noted, n) ∷ s.suppressions } in
    (s', refl, error_suppressed s' filename d (ground (arith, h)))

-- A NOLINT comment with no category, or with `(*)`, silences every error on its line.
pub nolint_silences_all :
    (s : Session) (filename raw_line : Text) (n : ℕ) (m : Found) (d : Diagnostic)
    → search_in suppression raw_line ≡ some m
    → (read_group 1 m ≡ none) ⊎ (read_group 1 m ≡ some (text "(*)"))
    → d.line ≡ n
    → (s' : Session) × (apply_effects s filename (parse_nolint_suppressions n raw_line) ≡ some s')
      × (error s' filename d ≡ some s')
nolint_silences_all s filename raw_line n m d found which on_line =
    rw (parse_nolint_suppressions-all n raw_line m found which)
      (silenced s filename none n d (unfold covers in ground (arith, on_line)))

-- A NOLINT comment with a known category in brackets silences the errors of it on its line.
pub nolint_silences_category :
    (s : Session) (filename raw_line category : Text) (n : ℕ) (m : Found) (d : Diagnostic)
    → search_in suppression raw_line ≡ some m
    → read_group 1 m ≡ some (b'(' ∷ (category ++ (b')' ∷ [])))
    → one_of category error_categories ≡ true
    → d.line ≡ n
    → d.category ≡ category
    → (s' : Session) × (apply_effects s filename (parse_nolint_suppressions n raw_line) ≡ some s')
      × (error s' filename d ≡ some s')
nolint_silences_category s filename raw_line category n m d found in_brackets known on_line
      same_category =
    elim (parse_nolint_suppressions-category n raw_line category m found in_brackets known) [
      | inl every ↦
          rw every (silenced s filename none n d (unfold covers in ground (arith, on_line)))
      | inr one ↦ rw one (
          silenced s filename (some category) n d
            (unfold covers in ground (arith, on_line, same_iff category d.category, same_category)))
    ]
