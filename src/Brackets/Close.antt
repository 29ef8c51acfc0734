-- ===== src/Brackets/Close.antt =====
-- CloseExpression: what it returns, and where it misses the bracket that it looks for.
use tpool.Paths.{past}
use tpool.Brackets.{
  back, close_at, close_expression, close_from, closing_of, finish_close, next_pos, rfind_before,
}
use tpool.Base.{
  List, Option, [], ap, arith, drop, get_elem?, length, none, pos, refl, some, take, ℕ, ◌+◌, ◌-◌,
  ◌<◌, ◌∙◌, ◌∷◌, ◌≡◌,
}
use tpool.Text.{Text, count_char, rfind}
use tpool.Cleanse.{CleansedLines}

-- The number of a character in some lines.
pub count_in : ℕ → List Text → ℕ
count_in c [] = 0
count_in c (l ∷ ls) = count_char c l + count_in c ls

-- If the opening brackets stay ahead of the closing ones to the last line, the loop runs off the
-- end of the lines.
abbrev pub Ahead : ℕ → ℕ → List Text → ℕ → ℕ → Type 0
Ahead start end [] opened closed = closed < opened
Ahead start end (l ∷ ls) opened closed =
    (closed < opened) × Ahead start end ls (opened + count_char start l) (closed + count_char end l)

close_from-none :
    (ls : List Text) (start end : ℕ) (line : Text) (linenum opened closed : ℕ)
    → Ahead start end ls opened closed
    → close_from ls start end line linenum opened closed ≡ none
unfolding close_from
close_from-none [] start end line linenum opened closed h = ground arith
close_from-none (l ∷ ls) start end line linenum opened closed h = ground (
  arith,
  close_from-none ls start end l (linenum + 1) (opened + count_char start l)
      (closed + count_char end l),
)

-- Where the opening brackets of the kind at the position are more than the closing ones after its
-- line and after each line below it to the last, CloseExpression fails with an IndexError (none),
-- and not with the position -1 that its comment promises.
pub close_expression_unclosed :
    (clean_lines : CleansedLines) (linenum i start end : ℕ) (line : Text)
    → get_elem? clean_lines.elided linenum ≡ some line
    → get_elem? line i ≡ some start
    → closing_of start ≡ some end
    → Ahead start end
        (drop (linenum + 1) clean_lines.elided)
        (count_char start line)
        (count_char end line)
    → close_expression clean_lines linenum i ≡ none
unfolding close_expression
close_expression_unclosed clean_lines linenum i start end line there here opened uneven =
    rw (there, here, close_at, opened)
      (close_from-none (drop (linenum + 1) clean_lines.elided) start end line linenum _ _ uneven)

take_all : (s : Text) → take (length s) s ≡ s
take_all [] = refl
take_all (c ∷ s) = ap (◌∷◌ c) (take_all s)

-- One step back from the end of the line.
back_once :
    (line : Text) (rounds : ℕ)
    → rounds ≡ 1
    → next_pos (back rounds line (pos (length line))) ≡ pos (past (rfind b')' line))
unfolding back rfind_before
back_once line rounds e = rw e (last (rfind b')' line) refl)
  where
    last :
        (o : Option ℕ)
        → rfind b')' line ≡ o
        → next_pos (rfind_before line (pos (length line))) ≡ pos (past o)
    last none h = rw (rfind_before, take_all line, h) refl
    last (some i) h = rw (rfind_before, take_all line, h) refl

finish_close_even :
    (line : Text) (linenum opened closed : ℕ)
    → opened ≡ closed
    → finish_close line linenum opened closed
      ≡ record { line = line; linenum = linenum; position = pos (past (rfind b')' line)) }
unfolding finish_close
finish_close_even line linenum opened closed e =
    ap (λ p. record { line = line; linenum = linenum; position = p })
      (back_once line (opened + 1 - closed) (omega arith))

close_from_even :
    (ls : List Text) (start end : ℕ) (line : Text) (linenum opened closed : ℕ)
    → opened ≡ closed
    → close_from ls start end line linenum opened closed
      ≡ some (finish_close line linenum opened closed)
unfolding close_from
close_from_even [] start end line linenum opened closed e = ground arith
close_from_even (l ∷ ls) start end line linenum opened closed e = ground arith

-- Where the brackets of the kind at `i` are even on their line, the answer is the position behind
-- the last round bracket of the line, whatever the kind; it is 0 when the line has no `)`.
pub close_expression_even :
    (clean_lines : CleansedLines) (linenum i start end : ℕ) (line : Text)
    → get_elem? clean_lines.elided linenum ≡ some line
    → get_elem? line i ≡ some start
    → closing_of start ≡ some end
    → count_char start line ≡ count_char end line
    → close_expression clean_lines linenum i
      ≡ some (record { line = line; linenum = linenum; position = pos (past (rfind b')' line)) })
unfolding close_expression
close_expression_even clean_lines linenum i start end line there here opened even =
    rw (there, here, close_at, opened)
      (close_from_even (drop (linenum + 1) clean_lines.elided) start end line linenum _ _ even
        ∙ ap some (finish_close_even line linenum _ _ even))
