-- ===== src/LineChecks/Blank.antt =====
-- What GetPreviousNonBlankLine finds.
use tpool.LineChecks.{get_previous_non_blank_line, is_blank_line, previous_in}
use tpool.Base.{
  ==_iff, Bool-cases, List, Option, [], arith, below, false, get_or, inl, inr, none, some, suc,
  true, zero, ℕ, ◌<◌, ◌==◌, ◌≡◌,
}
use tpool.Text.{Text}
use tpool.Cleanse.{CleansedLines}

-- The answer for the lines before `n`: the nearest line above that is not blank, or none.
pub data Nearest (lines : List Text) (n : ℕ) : Text × Option ℕ → Type 0 where
  all_blank :
      ((j : ℕ) → j < n → is_blank_line (get_or lines j []) ≡ true) → Nearest lines n ([], none)
  at_index :
      (i : ℕ)
      → i < n
      → is_blank_line (get_or lines i []) ≡ false
      → ((j : ℕ) → i < j → j < n → is_blank_line (get_or lines j []) ≡ true)
      → Nearest lines n (get_or lines i [], some i)

module _ (lines : List Text) (n : ℕ) (blank : is_blank_line (get_or lines n []) ≡ true) where
  at_or_below :
      {P : ℕ → Type 0}
      → ((j : ℕ) → P j → j < n → is_blank_line (get_or lines j []) ≡ true)
      → (j : ℕ) → P j
      → j < suc n
      → is_blank_line (get_or lines j []) ≡ true
  at_or_below below j p lt = elim (Bool-cases (j == n)) [
    | inl e ↦ rw ((==_iff j n).0 e) blank
    | inr ne ↦ below j p (ground arith)
  ]

  one_further : {r : Text × Option ℕ} → Nearest lines n r → Nearest lines (suc n) r
  one_further (all_blank below) =
      all_blank (λ j lt. at_or_below {P = λ k. Unit {0}} (λ i u. below i) j tt lt)
  one_further (at_index i lt hit below) =
      at_index i (omega arith) hit (at_or_below {P = λ k. i < k} below)

previous_in-Nearest : (lines : List Text) (n : ℕ) → Nearest lines n (previous_in lines n)
unfolding previous_in
previous_in-Nearest lines zero = all_blank (λ j lt. absurd (omega arith))
previous_in-Nearest lines (suc n) = elim (Bool-cases (is_blank_line (get_or lines n []))) [
  | inl blank ↦ rw blank (one_further lines n blank (previous_in-Nearest lines n))
  | inr hit ↦ rw hit (at_index n (omega arith) hit (λ j lt gt. absurd (omega arith)))
]

-- GetPreviousNonBlankLine returns the nearest line above that is not blank with its number, or the
-- empty line with the number -1 when all lines above are blank.
pub get_previous_non_blank_line_lem :
    (clean_lines : CleansedLines) (linenum : ℕ)
    → Nearest clean_lines.elided linenum (get_previous_non_blank_line clean_lines linenum)
unfolding get_previous_non_blank_line
get_previous_non_blank_line_lem clean_lines linenum = previous_in-Nearest clean_lines.elided linenum
