-- ===== src/Brackets/Balanced.antt =====
-- Texts whose brackets match, and the pairs of brackets.
use tpool.Base.{[], arith, false, none, some, true, ℕ, ◌++◌, ◌||◌, ◌∷◌, ◌≡◌}
use tpool.Text.{Text}
use tpool.Brackets.{closing_of, is_closing, is_opening}

-- Texts whose brackets match: an independent description, by the grammar.
pub data Balanced : Text → Type 0 where
  empty : Balanced []
  plain :
      {c : ℕ} {s : Text} → (is_opening c || is_closing c) ≡ false → Balanced s → Balanced (c ∷ s)
  nested :
      {c d : ℕ} {s t : Text}
      → closing_of c ≡ some d
      → Balanced s
      → Balanced t
      → Balanced (c ∷ (s ++ (d ∷ t)))

pub closing_of-closing :
    (c : ℕ) {d : ℕ}
    → closing_of c ≡ some d
    → (is_opening c ≡ true) × (is_closing d ≡ true) × (is_closing c ≡ false)
unfolding closing_of is_opening is_closing
closing_of-closing c h = ground arith

pub closing_of-none : (c : ℕ) → closing_of c ≡ none → is_opening c ≡ false
unfolding closing_of is_opening
closing_of-none c h = ground arith

pub closing_of_plain : (c : ℕ) → is_opening c ≡ false → closing_of c ≡ none
unfolding closing_of is_opening
closing_of_plain c h = ground arith
