-- ===== src/Nolint/Notes.antt =====
-- What a NOLINT comment notes.
use tpool.Base.{
  Bool, Bool-cases, List, Option, [], ap, arith, drop, false, if◌then◌else◌, inl, inr, none, refl,
  some, true, ℕ, ◌++◌, ◌∷◌, ◌≡◌, ◌⊎◌,
}
use tpool.Text.{Text, drop_last, one_of, same, text}
use tpool.Text.Laws.{drop_last-append, ends_with-append, same_refl, starts_with-append}
use tpool.Pattern.{Found, read_group, search_in}
use tpool.Nolint.{
  error_categories, known_or_error, nolint_effects, noted, parse_nolint_suppressions, suppressed,
  suppression,
}
use tpool.Report.{Diagnostic, Effect, only_if, report, suppress}

-- A comment has at most one effect: a note on its own line, or a report.
pub data Noted (n : ℕ) : List Effect → Type 0 where
  nothing_noted : Noted n []
  noted_line : (category : Option Text) → Noted n (suppress category n ∷ [])
  unknown : (d : Diagnostic) → Noted n (report d ∷ [])

only_if-Noted : (n : ℕ) (b : Bool) {es : List Effect} → Noted n es → Noted n (only_if b es)
only_if-Noted n true h = h
only_if-Noted n false h = nothing_noted

known_or_error-Noted : (n : ℕ) (name : Text) (b : Bool) → Noted n (known_or_error n name b)
unfolding known_or_error
known_or_error-Noted n name true = noted_line (some name)
known_or_error-Noted n name false = unknown _

noted-Noted : (n : ℕ) (category : Text) → Noted n (noted n category)
unfolding noted
noted-Noted n category = only_if-Noted n _ (known_or_error-Noted n _ _)

suppressed-Noted : (n : ℕ) (category : Option Text) → Noted n (suppressed n category)
unfolding suppressed
suppressed-Noted n none = noted_line none
suppressed-Noted n (some category) =
    elim (same category (text "(*)"))
      as (λ b. Noted n (if b then suppress none n ∷ [] else noted n category)) [
        | true ↦ noted_line none
        | false ↦ noted-Noted n category
      ]

nolint_effects-Noted : (n : ℕ) (m : Option Found) → Noted n (nolint_effects n m)
unfolding nolint_effects
nolint_effects-Noted n none = nothing_noted
nolint_effects-Noted n (some m) = suppressed-Noted n (read_group 1 m)

pub parse_nolint_suppressions-Noted :
    (n : ℕ) (raw_line : Text) → Noted n (parse_nolint_suppressions n raw_line)
unfolding parse_nolint_suppressions
parse_nolint_suppressions-Noted n raw_line = nolint_effects-Noted n (search_in suppression raw_line)

pub parse_nolint_suppressions-all :
    (n : ℕ) (raw_line : Text) (m : Found)
    → search_in suppression raw_line ≡ some m
    → (read_group 1 m ≡ none) ⊎ (read_group 1 m ≡ some (text "(*)"))
    → parse_nolint_suppressions n raw_line ≡ suppress none n ∷ []
unfolding parse_nolint_suppressions nolint_effects suppressed
parse_nolint_suppressions-all n raw_line m found (inl bare) = rw (found, bare) refl
parse_nolint_suppressions-all n raw_line m found (inr starred) =
    rw (found, starred) (ground (arith, same_refl (text "(*)")))

-- The brackets come off the category.
bracketed : (c : Text) → drop 1 (drop_last 1 (b'(' ∷ (c ++ (b')' ∷ [])))) ≡ c
bracketed c = ap (drop 1) (drop_last-append (b'(' ∷ c) (b')' ∷ []))

noted-category :
    (n : ℕ) (c : Text)
    → one_of c error_categories ≡ true
    → noted n (b'(' ∷ (c ++ (b')' ∷ []))) ≡ suppress (some c) n ∷ []
unfolding noted
noted-category n c known = ground (
  arith,
  bracketed c,
  starts_with-append (b'(' ∷ []) (c ++ (b')' ∷ [])),
  ends_with-append (b'(' ∷ c) (b')' ∷ []),
  known,
)

-- The note is about the category, or about all of them.
pub parse_nolint_suppressions-category :
    (n : ℕ) (raw_line c : Text) (m : Found)
    → search_in suppression raw_line ≡ some m
    → read_group 1 m ≡ some (b'(' ∷ (c ++ (b')' ∷ [])))
    → one_of c error_categories ≡ true
    → (parse_nolint_suppressions n raw_line ≡ suppress none n ∷ [])
      ⊎ (parse_nolint_suppressions n raw_line ≡ suppress (some c) n ∷ [])
unfolding parse_nolint_suppressions nolint_effects suppressed
parse_nolint_suppressions-category n raw_line c m found bracketed_c known =
    rw (found, bracketed_c)
      (elim (Bool-cases (same (b'(' ∷ (c ++ (b')' ∷ []))) (text "(*)"))) [
        | inl star_only ↦ inl (rw star_only refl)
        | inr one ↦ inr (rw one (noted-category n c known))
      ])
