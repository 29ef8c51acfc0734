-- ===== src/FunctionState.antt =====
-- cpplint.py, class _FunctionState (lines 614-667): the function whose body is being read, and the
-- report on a long one. The logarithm is taken on whole numbers; up to the cap of 5 the quotients
-- are small enough for the source's floating point to give the same.
pub mod Size
use tpool.Base.{
  Bool, List, Option, [], false, if◌then◌else◌, ltb, min, negsuc, none, pos, some, suc, true, zero,
  ℕ, ℤ, ◌*◌, ◌++◌, ◌+◌, ◌/◌, ◌==◌, ◌^◌, ◌∷◌,
}
use tpool.Text.{Text, decimal, text}
use tpool.Pattern.Syntax.{Pattern, char, word, ◌>>◌, ◌or◌}
use tpool.Pattern.{matches}
use tpool.Report.{Effect, diagnose}

pub record FunctionState : Type 0 where
  pub in_a_function : Bool
  pub lines_in_function : ℕ
  pub current_function : Text

-- __init__
unfoldable pub init : FunctionState
init = record { in_a_function = false; lines_in_function = 0; current_function = [] }

unfoldable pub begin : FunctionState → Text → FunctionState
begin s function_name = record {
  in_a_function = true;
  lines_in_function = 0;
  current_function = function_name;
}

unfoldable pub count_line : FunctionState → FunctionState
count_line s = record s {
  lines_in_function = if s.in_a_function then s.lines_in_function + 1 else s.lines_in_function;
}

-- End()
unfoldable pub finish : FunctionState → FunctionState
finish s = record s { in_a_function = false }

-- r'T(EST|est)'
unfoldable pub test_name : Pattern
unfolding word
test_name = char b'T' >> (word "EST" or word "est")

-- _TEST_TRIGGER and _NORMAL_TRIGGER
unfoldable pub base_trigger : Text → ℕ
base_trigger function = if matches test_name function then 400 else 250

-- base_trigger * 2**_VerboseLevel() < lines, which is a float for a negative level
unfoldable pub exceeds : ℕ → ℕ → ℤ → Bool
exceeds lines base (pos v) = ltb (base * 2 ^ v) lines
exceeds lines base (negsuc n) = ltb base (lines * 2 ^ suc n)

-- '%d' % trigger
unfoldable pub whole_trigger : ℕ → ℤ → ℕ
whole_trigger base (pos v) = base * 2 ^ v
whole_trigger base (negsuc n) = base / 2 ^ suc n

-- int(math.log(q, 2)) for q > 0; the quotient itself is enough fuel
unfoldable pub floor_log2 : ℕ → ℕ → ℕ
floor_log2 zero q = 0
floor_log2 (suc fuel) q = let half = floor_log2 fuel (q / 2) in if ltb q 2 then 0 else suc half

-- `none` is the ValueError of math.log(0, 2)
unfoldable pub error_level : ℕ → ℕ → Option ℕ
unfolding floor_log2
error_level lines base =
    let q = lines / base in if q == 0 then none else some (min 5 (floor_log2 q q))

unfoldable pub size_message : FunctionState → ℕ → ℤ → Text
unfolding whole_trigger
size_message s base verbose_level =
    text "Small and focused functions are preferred: "
    ++ (s.current_function
        ++ (text " has "
            ++ (decimal s.lines_in_function
                ++ (text " non-comment lines (error triggered by exceeding "
                    ++ (decimal (whole_trigger base verbose_level) ++ text " lines).")))))

report_size : FunctionState → ℕ → ℤ → ℕ → Option ℕ → Option (List Effect)
report_size s base verbose_level linenum none = none
report_size s base verbose_level linenum (some level) =
    some (diagnose linenum "readability/fn_size" level (size_message s base verbose_level) ∷ [])

unfoldable pub check : FunctionState → ℤ → ℕ → Option (List Effect)
unfolding report_size base_trigger exceeds
check s verbose_level linenum =
    let base = base_trigger s.current_function in
    if exceeds s.lines_in_function base verbose_level
    then report_size s base verbose_level linenum (error_level s.lines_in_function base)
    else some []
