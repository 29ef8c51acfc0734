-- ===== src/Tests/Lines.antt =====
-- Runs of what reads lines, and its theorems on small files.
use tpool.Brackets.Balanced.{Balanced}
use tpool.Base.{List, [], arith, drop, get_elem?, none, refl, some, ◌++◌, ◌↔◌, ◌∷◌, ◌≡◌}
use tpool.Brackets.{close_expression, closing_of, found, scan, text_inside_from}
use tpool.Brackets.Balance.{text_inside_from_iff}
use tpool.Brackets.Close.{Ahead, close_expression_unclosed}
use tpool.Classes.{class_info}
use tpool.Classes.Extent.{Extent, class_info-Extent}
use tpool.Cleanse.{CleansedLines}
use tpool.Comments.{clear_range, closes, dummy, no_end, opens, remove_multi_line_comments}
use tpool.Comments.Quiet.{Cleared, remove_multi_line_comments_lem}
use tpool.Report.{Effect}
use tpool.Text.{Text, count_char, is_space, text}

abbrev commented : List Text
commented = text "/* a" ∷ text "b */" ∷ text "int c;" ∷ text "/* d" ∷ []

remove_commented :
    remove_multi_line_comments commented
    ≡ some (dummy ∷ dummy ∷ text "int c;" ∷ text "/* d" ∷ [], no_end 3 ∷ [])
unfolding remove_multi_line_comments opens text is_space closes clear_range
remove_commented = refl

remove_multi_line_comments_lem_example :
    (out : List Text) × (es : List Effect) × (remove_multi_line_comments commented ≡ some (out, es))
    × Cleared commented out es
remove_multi_line_comments_lem_example = remove_multi_line_comments_lem commented

abbrev call : Text
call = text "f(a[0], g()) + (b"

call_start : get_elem? call 1 ≡ some b'('
unfolding text
call_start = refl

round : closing_of b'(' ≡ some b')'
unfolding closing_of
round = refl

call_inside : text_inside_from call 2 ≡ found (text "a[0], g()")
unfolding text_inside_from scan text
call_inside = refl

text_inside_from_iff_example : (text_inside_from call 2 ≡ found (text "a[0], g()")) ↔ (
    Balanced (text "a[0], g()")
    × ((rest : Text) × (drop 2 call ≡ text "a[0], g()" ++ (b')' ∷ rest))))
text_inside_from_iff_example =
    text_inside_from_iff call (text "a[0], g()") 1 b'(' b')' call_start round

abbrev source : List Text
source = text "if (a(b) &&" ∷ text "  []  c(d)" ∷ text "class A {" ∷ text "" ∷ text "};" ∷ []

abbrev clean : CleansedLines
clean = record { elided = source; lines = source; raw_lines = source; num_lines = 5 }

abbrev first_line : Text
first_line = text "if (a(b) &&"

first_line_there : get_elem? clean.elided 0 ≡ some first_line
first_line_there = refl

first_line_bracket : get_elem? first_line 3 ≡ some b'('
unfolding text
first_line_bracket = refl

never_closed :
    Ahead b'(' b')' (drop 1 clean.elided) (count_char b'(' first_line) (count_char b')' first_line)
unfolding count_char text
never_closed = (omega arith, (omega arith, (omega arith, (omega arith, omega arith))))

abbrev second_line : Text
second_line = text "  []  c(d)"

square : closing_of b'[' ≡ some b']'
unfolding closing_of
square = refl

square_there : get_elem? second_line 2 ≡ some b'['
unfolding text
square_there = refl

square_even : count_char b'[' second_line ≡ count_char b']' second_line
unfolding count_char text
square_even = refl

class_info-Extent_example :
    Extent 2 (drop 2 clean.lines) 0 0 (class_info (text "A") clean 2).last_line
class_info-Extent_example = class_info-Extent (text "A") clean 2

abbrev late_brace : List Text
late_brace = text "class A" ∷ text "{" ∷ text "};" ∷ []

abbrev late : CleansedLines
late = record { elided = late_brace; lines = late_brace; raw_lines = late_brace; num_lines = 3 }

head_even : count_char b'{' (text "class A") ≡ count_char b'}' (text "class A")
unfolding count_char text
head_even = refl

close_expression_unclosed_example : close_expression clean 0 3 ≡ none
close_expression_unclosed_example =
    close_expression_unclosed clean 0 3 b'(' b')' first_line first_line_there first_line_bracket
      round never_closed
