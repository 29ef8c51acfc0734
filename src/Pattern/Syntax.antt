-- ===== src/Pattern/Syntax.antt =====
-- The patterns: single characters, sequence, choice, repetition, groups, anchors, lookahead.
use tpool.Base.{Bool, String, [], false, leb, not, ℕ, ◌&&◌, ◌==◌, ◌||◌, ◌∷◌}
use tpool.Text.{Text, is_ascii_space, text}

pub data Pattern : Type 0 where
  nothing boundary at_start at_end : Pattern
  char_in : (ℕ → Bool) → Pattern
  seq alt : Pattern → Pattern → Pattern
  star star_lazy ahead not_ahead : Pattern → Pattern
  same_as : ℕ → Pattern
  group : ℕ → Pattern → Pattern

infixr 60 ◌>>◌
infixr 55 ◌or◌
abbrev pub ◌>>◌ : Pattern → Pattern → Pattern
◌>>◌ = seq

abbrev pub ◌or◌ : Pattern → Pattern → Pattern
◌or◌ = alt

-- `\w`, `\d`, `.`
unfoldable pub is_digit : ℕ → Bool
is_digit c = leb b'0' c && leb c b'9'

unfoldable pub is_letter : ℕ → Bool
is_letter c = (leb b'a' c && leb c b'z') || (leb b'A' c && leb c b'Z')

unfoldable pub is_word : ℕ → Bool
unfolding is_digit is_letter
is_word c = is_letter c || is_digit c || c == b'_'

abbrev member : ℕ → Text → Bool
member c [] = false
member c (d ∷ s) = c == d || member c s

-- a literal character, `[…]` and `[^…]`, and a literal text
abbrev pub char : ℕ → Pattern
char d = char_in (λ c. c == d)

unfoldable pub among : String → Pattern
unfolding text
among s = char_in (λ c. member c (text s))

unfoldable pub none_of : String → Pattern
unfolding text
none_of s = char_in (λ c. not (member c (text s)))

abbrev pub letters : Text → Pattern
letters [] = nothing
letters (c ∷ s) = seq (char c) (letters s)

unfoldable pub word : String → Pattern
unfolding text
word s = letters (text s)

abbrev pub space : Pattern
space = char_in is_ascii_space

abbrev pub any_char : Pattern
any_char = char_in (λ c. not (c == b'\n'))

abbrev pub word_char : Pattern
word_char = char_in is_word

abbrev pub plus : Pattern → Pattern
plus r = seq r (star r)

abbrev pub maybe : Pattern → Pattern
maybe r = alt r nothing
