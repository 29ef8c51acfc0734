-- ===== src/FunctionLengths.antt =====
-- cpplint.py, CheckForFunctionLengths (lines 1569-1636): where a function body starts and ends.
use tpool.FunctionState
use tpool.FunctionState.{FunctionState, begin, check, count_line, finish}
use tpool.Base.{
  Bool, List, Option, [], any, drop, get_or, if◌then◌else◌, leb, none, not, some, ℕ, ℤ, ◌&&◌, ◌++◌,
  ◌==◌, ◌||◌, ◌∷◌,
}
use tpool.Text.{
  Text, contains, is_ascii_space, is_space, same, split_words, starts_with, strip_left, text,
}
use tpool.Pattern.Syntax.{
  Pattern, any_char, at_end, at_start, char, char_in, group, is_word, plus, space, star, word,
  word_char, ◌>>◌, ◌or◌,
}
use tpool.Pattern.{Found, is_match, match_start, matches, read_group, search_in}
use tpool.Report.{Effect, diagnose}
use tpool.Cleanse.{CleansedLines}

-- r'(\w(\w|::|\*|\&|\s)*)\('
unfoldable pub declaration : Pattern
unfolding word is_word is_ascii_space
declaration =
    group 1
      (word_char >> star (group 2 (word_char or word "::" or char b'*' or char b'&' or space)))
    >> char b'('

-- r'[A-Z_]+$'
unfoldable pub all_caps : Pattern
all_caps = plus (char_in (λ c. (leb b'A' c && leb c b'Z') || c == b'_')) >> at_end

-- r'((\w|:)*)\(' and r'(\(.*\))'
unfoldable pub called_name : Pattern
unfolding is_word
called_name = group 1 (star (group 2 (word_char or char b':'))) >> char b'('

unfoldable pub parameters : Pattern
parameters = group 1 (char b'(' >> star any_char >> char b')')

-- r'^\}\s*$' and r'^\s*$'
unfoldable pub function_end : Pattern
unfolding is_ascii_space
function_end = at_start >> char b'}' >> star space >> at_end

unfoldable pub blank : Pattern
unfolding is_ascii_space
blank = at_start >> star space >> at_end

abbrev text_or_empty : Option Text → Text
text_or_empty none = []
text_or_empty (some s) = s

abbrev group_text : ℕ → Option Found → Text
group_text n none = []
group_text n (some m) = text_or_empty (read_group n m)

abbrev last_word : List Text → Text
last_word [] = []
last_word (w ∷ []) = w
last_word (w ∷ v ∷ ws) = last_word (v ∷ ws)

-- Whether the line starts a function: a name that is no macro, or a test.
unfoldable pub starts_function : Text → Bool
unfolding same split_words
starts_function line =
    let match_result = match_start declaration line in
    let function_name = last_word (split_words [] (group_text 1 match_result)) in
    is_match match_result
    && (same function_name (text "TEST")
        || (same function_name (text "TEST_F") || not (matches all_caps function_name)))

unfoldable pub full_function_name : Text → Text → Text
unfolding starts_with
full_function_name line joined_line =
    let function = group_text 1 (search_in called_name line) in
    if starts_with function (text "TEST")
    then function ++ group_text 1 (search_in parameters joined_line)
    else function ++ text "()"

-- What the search for the start of the body comes to.
pub data Body : Type 0 where
  no_body declared : Body
  begins : Text → Body

-- The search from the line `line` on; `joined` is what has been read so far.
unfoldable pub find_body : Text → Text → List Text → Body
unfolding strip_left full_function_name contains
find_body line joined [] = no_body
find_body line joined (start_line ∷ rest) =
    let joined_line = joined ++ (b' ' ∷ strip_left is_space start_line) in
    let later = find_body line joined_line rest in
    if any (λ c. c == b';' || c == b'}') start_line
    then declared
    else if any (λ c. c == b'{') start_line
    then begins (full_function_name line joined_line)
    else later

after_body : FunctionState → ℕ → Body → FunctionState × List Effect
unfolding FunctionState.begin
after_body s linenum no_body = (
  s,
  diagnose linenum "readability/fn_size" 5 (text "Lint failed to find start of function body.")
      ∷ [],
)
after_body s linenum declared = (s, [])
after_body s linenum (begins function) = (FunctionState.begin s function, [])

unfoldable pub after_check :
    FunctionState → Option (List Effect) → Option (FunctionState × List Effect)
unfolding FunctionState.finish
after_check s none = none
after_check s (some es) = some (FunctionState.finish s, es)

-- `none` is the ValueError of the function's check.
unfoldable pub check_for_function_lengths :
    CleansedLines → ℕ → ℤ → FunctionState → Option (FunctionState × List Effect)
unfolding starts_function after_body find_body after_check FunctionState.check
    FunctionState.count_line
check_for_function_lengths clean_lines linenum verbose_level s =
    let line = get_or clean_lines.lines linenum [] in
    if starts_function line
    then some (after_body s linenum (find_body line [] (drop linenum clean_lines.lines)))
    else if matches function_end line
    then after_check s (FunctionState.check s verbose_level linenum)
    else if not (matches blank line)
    then some (FunctionState.count_line s, [])
    else some (s, [])
