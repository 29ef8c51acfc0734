-- ===== src/Braces/Joins.antt =====
-- The loop of CheckBraces that joins a line with those above (lines 2053-2059).
use tpool.Base.{
  Bool-cases, List, Option, [], arith, get_or, inl, inr, none, refl, some, suc, sym, true, zero, ℕ,
  ◌++◌, ◌+◌, ◌<◌, ◌∙◌, ◌≡◌, ◌≤◌,
}
use tpool.Text.{Text}
use tpool.Pattern.{matches}
use tpool.Pattern.Parse.{re}
use tpool.Cleanse.{CleansedLines}
use tpool.LineChecks.{get_previous_non_blank_line}
use tpool.LineChecks.Blank.{Nearest, all_blank, at_index, get_previous_non_blank_line_lem}
use tpool.Braces.{before, goes_on, join_block}

-- The rounds that can still go up.
abbrev rank : Option ℕ → ℕ
rank none = 0
rank (some n) = suc n

-- What the next round sees: a line nearer to the top, or the empty line of the top.
data Higher (o : Option ℕ) : Text × Option ℕ → Type 0 where
  at_top : Higher o ([], none)
  above : (prevline : Text) (n : ℕ) → suc n < rank o → Higher o (prevline, some n)

Nearest-Higher :
    (lines : List Text) (n : ℕ) (r : Text × Option ℕ) → Nearest lines n r → Higher (some n) r
Nearest-Higher lines n _ (all_blank h) = at_top
Nearest-Higher lines n _ (at_index i lt hit h) = above (get_or lines i []) i (omega arith)

before-Higher : (cl : CleansedLines) (o : Option ℕ) → Higher o (before cl o)
before-Higher cl none = at_top
before-Higher cl (some n) =
    Nearest-Higher cl.elided n (get_previous_non_blank_line cl n)
      (get_previous_non_blank_line_lem cl n)

-- At the top, a line that goes on is joined with nothing for ever.
stuck :
    (cl : CleansedLines) (line : Text) (o : Option ℕ)
    → before cl o ≡ ([], none)
    → goes_on line [] ≡ true
    → (fuel : ℕ) → join_block fuel cl line o ≡ none
unfolding join_block
stuck cl line o top on zero = refl
stuck cl line o top on (suc fuel) = rw (top, on) (stuck cl line none refl on fuel)

-- If the lines above are all blank and the line is an indented block that ends in `;`, then the loop
-- of CheckBraces never ends: no number of rounds gives a result.
pub join_block_hangs :
    (clean_lines : CleansedLines) (line : Text) (linenum : ℕ)
    → get_previous_non_blank_line clean_lines linenum ≡ ([], none)
    → matches (re "\\s+{.*}\\s*;") line ≡ true
    → (fuel : ℕ) → join_block fuel clean_lines line (some linenum) ≡ none
unfolding goes_on
join_block_hangs clean_lines line linenum top on fuel =
    stuck clean_lines line (some linenum) top (rw on refl) fuel

-- One more round on either side, where the rounds that follow agree.
one_round :
    (cl : CleansedLines) (rounds fuel : ℕ) (line : Text) (o : Option ℕ) (p : Text × Option ℕ)
    → before cl o ≡ p
    → Higher o p
    → ((line' : Text) (o' : Option ℕ)
        → rank o' < rank o
        → join_block fuel cl line' o' ≡ join_block rounds cl line' o')
    → join_block (suc fuel) cl line o ≡ join_block (suc rounds) cl line o
unfolding join_block
one_round cl rounds fuel line o _ e at_top same_later = elim (Bool-cases (goes_on line [])) [
  | inl on ↦ stuck cl line o e on (suc fuel) ∙ sym (stuck cl line o e on (suc rounds))
  | inr off ↦ rw (e, off) refl
]
one_round cl rounds fuel line o _ e (above prevline n lt) same_later =
    rw (e, same_later (prevline ++ line) (some n) lt) refl

stable :
    (cl : CleansedLines) (rounds fuel : ℕ) (line : Text) (o : Option ℕ)
    → rank o < rounds
    → rounds ≤ fuel
    → join_block fuel cl line o ≡ join_block rounds cl line o
stable cl zero fuel line o r f = absurd (omega arith)
stable cl (suc rounds) zero line o r f = absurd (omega arith)
stable cl (suc rounds) (suc fuel) line o r f =
    one_round cl rounds fuel line o (before cl o) refl (before-Higher cl o)
      (λ line' o' lt. stable cl rounds fuel line' o' (omega arith) (omega arith))

-- Any number of rounds beyond two more than the number of the line gives the same as that number:
-- within it the loop of CheckBraces ends, or it never does.
pub join_block_fuel :
    (clean_lines : CleansedLines) (line : Text) (linenum fuel : ℕ)
    → linenum + 2 ≤ fuel
    → join_block fuel clean_lines line (some linenum)
      ≡ join_block (linenum + 2) clean_lines line (some linenum)
join_block_fuel clean_lines line linenum fuel h =
    stable clean_lines (linenum + 2) fuel line (some linenum) (omega arith) h
