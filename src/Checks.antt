-- ===== src/Checks.antt =====
-- cpplint.py, the CHECK macros (lines 249-279) and the checks of their use (2067-2132).
pub mod Meaning
use tpool.Base.{
  Bool, List, Option, String, [], false, get_or, if◌then◌else◌, none, not, some, true, ℕ, ◌&&◌,
  ◌++◌, ◌∷◌,
}
use tpool.Text.{Text, contains, text}
use tpool.Pattern.{matches, occurs}
use tpool.Pattern.Parse.{re}
use tpool.Pattern.Syntax.{Pattern, char, letters, ◌>>◌, ◌or◌}
use tpool.Report.{Effect, diagnose}
use tpool.Cleanse.{CleansedLines}

-- A macro with the parts of the names that replace it, and whether its row is made from the inverse
-- operators.
pub record Macro : Type 0 where
  pub name : Text
  pub front : Text
  pub back : Text
  pub inverse : Bool

abbrev macro_row : String → String → String → Bool → Macro
macro_row name front back inverse = record {
  name = text name;
  front = text front;
  back = text back;
  inverse = inverse;
}

-- _CHECK_MACROS, with the rows of _CHECK_REPLACEMENT
unfoldable pub check_macros : List Macro
check_macros =
    macro_row "DCHECK" "DCHECK_" "" false
    ∷ macro_row "CHECK" "CHECK_" "" false
    ∷ macro_row "EXPECT_TRUE_M" "EXPECT_" "_M" false
    ∷ macro_row "EXPECT_TRUE" "EXPECT_" "" false
    ∷ macro_row "ASSERT_TRUE_M" "ASSERT_" "_M" false
    ∷ macro_row "ASSERT_TRUE" "ASSERT_" "" false
    ∷ macro_row "EXPECT_FALSE_M" "EXPECT_" "_M" true
    ∷ macro_row "EXPECT_FALSE" "EXPECT_" "" true
    ∷ macro_row "ASSERT_FALSE_M" "ASSERT_" "_M" true
    ∷ macro_row "ASSERT_FALSE" "ASSERT_" "" true
    ∷ []

-- The operators, in the order in which they are tried.
pub data Operator : Type 0 where
  equal unequal at_least above at_most under : Operator

abbrev pub operators : List Operator
operators = equal ∷ unequal ∷ at_least ∷ above ∷ at_most ∷ under ∷ []

unfoldable pub symbol : Operator → Text
symbol equal = text "=="
symbol unequal = text "!="
symbol at_least = text ">="
symbol above = text ">"
symbol at_most = text "<="
symbol under = text "<"

-- The replacement and the inverse replacement of an operator.
unfoldable pub replacement : Operator → Text
replacement equal = text "EQ"
replacement unequal = text "NE"
replacement at_least = text "GE"
replacement above = text "GT"
replacement at_most = text "LE"
replacement under = text "LT"

unfoldable pub inv_replacement : Operator → Text
inv_replacement equal = text "NE"
inv_replacement unequal = text "EQ"
inv_replacement at_least = text "LT"
inv_replacement above = text "LE"
inv_replacement at_most = text "GT"
inv_replacement under = text "GE"

-- _CHECK_REPLACEMENT[macro][operator]
unfoldable pub check_replacement : Macro → Operator → Text
unfolding replacement inv_replacement
check_replacement macro operator =
    macro.front
    ++ ((if macro.inverse then inv_replacement operator else replacement operator) ++ macro.back)

-- match_constant: integers, strings and characters
unfoldable pub match_constant : Pattern
match_constant = re "([-+]?(\\d+|0[xX][0-9a-fA-F]+)[lLuU]{0,3}|\".*\"|\\'.*\\')"

-- ReplaceableCheck; no operator or macro has a character that `re` treats specially.
unfoldable pub replaceable_check : Operator → Text → Text → Bool
replaceable_check operator macro line =
    matches
      (re "\\s*"
        >> letters macro
        >> char b'('
        >> ((re "\\s*" >> match_constant >> re "\\s*" >> letters (symbol operator) >> re "[^<>].*")
            or (re ".*[^<>]"
                >> letters (symbol operator)
                >> re "\\s*"
                >> match_constant
                >> re "\\s*\\)")))
      line
    && not (occurs (re "NULL|&&|\\|\\|") line)

-- The first macro in the list that the line contains.
unfoldable pub current_macro : List Macro → Text → Option Macro
unfolding contains
current_macro [] raw_line = none
current_macro (m ∷ ms) raw_line =
    if contains raw_line m.name then some m else current_macro ms raw_line

-- The first operator for which the check can be replaced.
unfoldable pub first_replaceable : List Operator → Text → Text → Option Operator
unfolding replaceable_check
first_replaceable [] macro line = none
first_replaceable (o ∷ os) macro line =
    if replaceable_check o macro line then some o else first_replaceable os macro line

unfoldable pub replace_report : ℕ → Macro → Option Operator → List Effect
unfolding check_replacement symbol
replace_report linenum macro none = []
replace_report linenum macro (some o) =
    diagnose linenum "readability/check" 2 (
      text "Consider using "
      ++ (check_replacement macro o
          ++ (text " instead of " ++ (macro.name ++ (text "(a " ++ (symbol o ++ text " b)"))))))
    ∷ []

macro_report : Text → ℕ → Option Macro → List Effect
unfolding replace_report first_replaceable
macro_report line linenum none = []
macro_report line linenum (some macro) =
    replace_report linenum macro (first_replaceable operators macro.name line)

-- CheckCheck
unfoldable pub check_check : CleansedLines → ℕ → List Effect
unfolding macro_report current_macro
check_check clean_lines linenum =
    macro_report (get_or clean_lines.elided linenum []) linenum
      (current_macro check_macros (get_or clean_lines.raw_lines linenum []))
