-- ===== src/Tests/Lint.antt =====
-- Runs of the checks of a line, and their theorems applied to small inputs.
use tpool.Base.{
  List, [], arith, get_elem?, if◌then◌else◌, length, none, not, refl, some, true, ℕ, ◌++◌, ◌∷◌, ◌≡◌,
}
use tpool.Text.{Text, drop_last, is_space, starts_with, text}
use tpool.Pattern.{group_start, matches, occurs, search_in}
use tpool.Language.Casts.{before_group}
use tpool.Pattern.Parse.{re}
use tpool.Cleanse.{CleansedLines}
use tpool.LineChecks.{get_previous_non_blank_line, is_blank_line}
use tpool.Braces.{join_block}
use tpool.Braces.Joins.{join_block_fuel, join_block_hangs}
use tpool.Dict.{get}
use tpool.IncludeUse.{algorithm_needs, require_lines, template_needs}
use tpool.IncludeUse.Required.{get-require_lines-latest, last_need, latest}
use tpool.Checks.{Macro, Operator, check_macros, check_replacement, replacement, under}
use tpool.Checks.Meaning.{asserts_false, check_replacement-compares, compares, suffix_of}
use tpool.Pattern.Syntax.{word}

abbrev with_lines : List Text → CleansedLines
with_lines lines = record {
  elided = lines;
  lines = lines;
  raw_lines = lines;
  num_lines = length lines;
}

-- A file whose first line of code, below the marker line, is an indented block.
abbrev first_block : CleansedLines
first_block = with_lines ([] ∷ text "  { a };" ∷ [])

all_blank_above : get_previous_non_blank_line first_block 1 ≡ ([], none)
unfolding get_previous_non_blank_line is_blank_line
all_blank_above = refl

block_found : matches (re "\\s+{.*}\\s*;") (text "  { a };") ≡ true
unfolding matches re
block_found = refl

join_block_hangs_example : join_block 1000 first_block (text "  { a };") (some 1) ≡ none
join_block_hangs_example =
    join_block_hangs first_block (text "  { a };") 1 all_blank_above block_found 1000

abbrev later_block : CleansedLines
later_block = with_lines ([] ∷ text "int a[] =" ∷ text "  { 1 };" ∷ [])

joined_below : join_block 4 later_block (text "  { 1 };") (some 2) ≡ some (text "int a[] =  { 1 };")
unfolding join_block matches re get_previous_non_blank_line is_blank_line is_space text
joined_below = refl

join_block_fuel_example :
    join_block 9 later_block (text "  { 1 };") (some 2)
    ≡ join_block 4 later_block (text "  { 1 };") (some 2)
join_block_fuel_example = join_block_fuel later_block (text "  { 1 };") 2 9 (omega arith)

abbrev using_maps : List Text
using_maps = text "map<int, int> a;" ∷ text "multimap<int, int> b;" ∷ text "int c;" ∷ []

latest_map : latest 0 using_maps (text "<map>") ≡ some (1, text "multimap<>")
unfolding latest last_need text search_in re algorithm_needs occurs word template_needs
latest_map = refl

get-require_lines-latest_example :
    get (require_lines 0 using_maps []) (text "<map>") ≡ latest 0 using_maps (text "<map>")
get-require_lines-latest_example = get-require_lines-latest using_maps (text "<map>")

abbrev expect_false : Macro
expect_false = record {
  name = text "EXPECT_FALSE";
  front = text "EXPECT_";
  back = [];
  inverse = true;
}

expect_false_there : get_elem? check_macros 7 ≡ some expect_false
unfolding check_macros text
expect_false_there = refl

check_replacement-compares_example :
    (o' : Operator) × (check_replacement expect_false under
      ≡ expect_false.front ++ (replacement o' ++ expect_false.back))
    × (starts_with expect_false.name (drop_last 1 expect_false.front) ≡ true)
    × (expect_false.back ≡ suffix_of expect_false)
    × ((a b : ℕ)
        → compares o' a b
          ≡ (if asserts_false expect_false then not (compares under a b) else compares under a b))
check_replacement-compares_example =
    check_replacement-compares 7 expect_false under expect_false_there

-- The cut in front of the first group, which has another character than a bracket before it here.
spaced_group :
    before_group
      (text "n = sizeof( int);")
      (elim (search_in (re "\\(\\s*(int|float)\\)") (text "n = sizeof( int);")) [
        | none ↦ none
        | some m ↦ group_start 1 m
      ])
    ≡ text "n = sizeof("
unfolding search_in re text before_group group_start
spaced_group = refl

no_group : before_group (text "int") none ≡ text "i"
unfolding before_group text drop_last
no_group = refl
