-- ===== src/Brackets.antt =====
-- cpplint.py, matching brackets: CloseExpression (lines 968-1004) and _GetTextInside (2447-2500).
pub mod Balanced
pub mod Scans
pub mod Balance
pub mod Close
use tpool.Base.{
  Bool, List, Option, [], drop, get_elem?, get_or, if◌then◌else◌, length, ltb, negsuc, none, pos,
  some, suc, take, zero, ℕ, ℤ, ◌+◌, ◌-◌, ◌==◌, ◌||◌, ◌∷◌,
}
use tpool.Text.{Text, count_char, rfind}
use tpool.Pattern.Syntax.{Pattern}
use tpool.Pattern.{Found, search_in}
use tpool.Cleanse.{CleansedLines}

-- matching_punctuation.get(c), where 40 41 are the round, 91 93 the square, 123 125 the curly ones
unfoldable pub closing_of : ℕ → Option ℕ
closing_of c =
    if c == b'('
    then some b')'
    else if c == b'{'
    then some b'}'
    else if c == b'['
    then some b']'
    else none

-- c in closing_punctuation
unfoldable pub is_closing : ℕ → Bool
is_closing c = c == b')' || (c == b'}' || c == b']')

unfoldable pub is_opening : ℕ → Bool
is_opening c = c == b'(' || (c == b'{' || c == b'[')

-- The while loop of _GetTextInside over what follows the start: the number of characters up to and
-- with the one that empties the stack; `none` where the source returns None.
abbrev pub add_one : Option ℕ → Option ℕ
add_one none = none
add_one (some n) = some (suc n)

abbrev pub pushed : Option ℕ → List ℕ → List ℕ
pushed none stack = stack
pushed (some c) stack = c ∷ stack

unfoldable pub scan : List ℕ → Text → Option ℕ
scan [] s = some 0
scan (top ∷ stack) [] = none
scan (top ∷ stack) (c ∷ s) =
    let popped = scan stack s in
    let deeper = scan (pushed (closing_of c) (top ∷ stack)) s in
    if c == top then add_one popped else if is_closing c then none else add_one deeper

-- What _GetTextInside does: a failed assertion, None, or the text.
pub data Inside : Type 0 where
  failed_assertion not_found : Inside
  found : Text → Inside

unfoldable pub inside_scanned : Text → Option ℕ → Inside
inside_scanned s none = not_found
inside_scanned s (some n) = found (take (n - 1) s)

inside_opened : Text → Option ℕ → Inside
unfolding inside_scanned scan is_closing closing_of
inside_opened s none = failed_assertion
inside_opened s (some closing) = inside_scanned s (scan (closing ∷ []) s)

-- From the position behind the match of the start pattern.
unfoldable pub text_inside_from : Text → ℕ → Inside
unfolding inside_opened closing_of
text_inside_from s zero = failed_assertion
text_inside_from s (suc i) = inside_opened (drop (suc i) s) (closing_of (get_or s i 0))

inside_found : Text → Option Found → Inside
unfolding text_inside_from
inside_found s none = not_found
inside_found s (some m) = text_inside_from s m.stop

-- _GetTextInside(text, start_pattern)
unfoldable pub get_text_inside : Text → Pattern → Inside
unfolding inside_found search_in
get_text_inside s start_pattern = inside_found s (search_in start_pattern s)

-- The result of CloseExpression: the line, its number and the position, which may be -1; `none` is
-- an IndexError.
pub record Closed : Type 0 where
  pub line : Text
  pub linenum : ℕ
  pub position : ℤ

-- line.rfind(')', 0, endpos), where a negative end counts from the end of the line; only -1 occurs
unfoldable pub rfind_before : Text → ℤ → ℤ
unfolding rfind
rfind_before line (pos n) = elim (rfind b')' (take n line)) [ some i ↦ pos i | none ↦ negsuc 0 ]
rfind_before line (negsuc n) = elim (rfind b')' (take (length line - suc n) line)) [
  | some i ↦ pos i
  | none ↦ negsuc 0
]

-- `while num_open >= 0`, for the number of rounds that it makes
unfoldable pub back : ℕ → Text → ℤ → ℤ
unfolding rfind_before
back zero line endpos = endpos
back (suc rounds) line endpos = back rounds line (rfind_before line endpos)

abbrev pub next_pos : ℤ → ℤ
next_pos (pos n) = pos (suc n)
next_pos (negsuc zero) = pos 0
next_pos (negsuc (suc n)) = negsuc n

-- The opening minus the closing brackets read so far, as two counts.
unfoldable pub finish_close : Text → ℕ → ℕ → ℕ → Closed
unfolding back
finish_close line linenum opened closed = record {
  line = line;
  linenum = linenum;
  position = next_pos (back (opened + 1 - closed) line (pos (length line)));
}

-- `while linenum < NumLines and num_open > 0`, over the lines that follow; past the last line the
-- source's index is out of range.
unfoldable pub close_from : List Text → ℕ → ℕ → Text → ℕ → ℕ → ℕ → Option Closed
unfolding finish_close count_char
close_from [] start end line linenum opened closed =
    if ltb closed opened then none else some (finish_close line linenum opened closed)
close_from (next ∷ rest) start end line linenum opened closed =
    let later =
      close_from rest start end next (linenum + 1) (opened + count_char start next)
        (closed + count_char end next) in
    if ltb closed opened then later else some (finish_close line linenum opened closed)

-- The character at `pos` of the line.
unfoldable pub close_at : List Text → ℕ → ℕ → Text → Option ℕ → Option Closed
unfolding close_from closing_of
close_at elided numlines linenum line none = none
close_at elided numlines linenum line (some startchar) = elim (closing_of startchar) [
  | none ↦ some (record { line = line; linenum = numlines; position = negsuc 0 })
  | some endchar ↦
      close_from (drop (linenum + 1) elided) startchar endchar line linenum
        (count_char startchar line) (count_char endchar line)
]

close_on : List Text → ℕ → ℕ → Option Text → ℕ → Option Closed
unfolding close_at
close_on elided numlines linenum none i = none
close_on elided numlines linenum (some line) i =
    close_at elided numlines linenum line (get_elem? line i)

-- CloseExpression(clean_lines, linenum, pos)
unfoldable pub close_expression : CleansedLines → ℕ → ℕ → Option Closed
unfolding close_on
close_expression clean_lines linenum i =
    close_on clean_lines.elided clean_lines.num_lines linenum (get_elem? clean_lines.elided linenum)
      i
