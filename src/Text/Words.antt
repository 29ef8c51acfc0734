-- ===== src/Text/Words.antt =====
-- Literals, comparison, white space, case and splitting.
use Prim.Native.Char.{code}
use tpool.Base.{
  Bool, List, String, [], false, if◌then◌else◌, leb, ltb, not, suc, true, zero, ℕ, ◌%◌, ◌&&◌, ◌++◌,
  ◌+◌, ◌-◌, ◌/◌, ◌==◌, ◌||◌, ◌∷◌,
}

abbrev pub Text : Type 0
Text = List ℕ

-- A literal of the source. Shut, so that proofs see it as one unknown constant.
unfoldable pub text : String → Text
text String.[] = []
text (String.◌∷◌ c s) = code c ∷ text s

-- a == b
unfoldable pub same : Text → Text → Bool
same [] [] = true
same [] (d ∷ t) = false
same (c ∷ s) [] = false
same (c ∷ s) (d ∷ t) = c == d && same s t

-- s in (a, b, ...)
unfoldable pub one_of : Text → List Text → Bool
unfolding same
one_of s [] = false
one_of s (t ∷ ts) = same s t || one_of s ts

-- a < b, by code points
unfoldable pub less : Text → Text → Bool
less [] [] = false
less [] (d ∷ t) = true
less (c ∷ s) [] = false
less (c ∷ s) (d ∷ t) = ltb c d || (c == d && less s t)

-- bool(s) is `not (is_empty s)`
unfoldable pub is_empty : Text → Bool
is_empty [] = true
is_empty (c ∷ s) = false

-- str.isspace of a byte string, and `\s` in a pattern with no flags
unfoldable pub is_ascii_space : ℕ → Bool
is_ascii_space c = (leb 9 c && leb c 13) || c == 32

-- unicode.isspace
unfoldable pub is_space : ℕ → Bool
unfolding is_ascii_space
is_space c =
    is_ascii_space c
    || (leb 28 c && leb c 31)
    || c == 0x85
    || c == 0xa0
    || c == 0x1680
    || c == 0x180e
    || (leb 0x2000 c && leb c 0x200a)
    || c == 0x2028
    || c == 0x2029
    || c == 0x202f
    || c == 0x205f
    || c == 0x3000

-- s.lstrip() and s.rstrip(), for a given set of characters
unfoldable pub strip_left : (ℕ → Bool) → Text → Text
strip_left p [] = []
strip_left p (c ∷ s) = let rest = strip_left p s in if p c then rest else c ∷ s

unfoldable pub strip_right : (ℕ → Bool) → Text → Text
unfolding is_empty
strip_right p [] = []
strip_right p (c ∷ s) = let rest = strip_right p s in if p c && is_empty rest then [] else c ∷ rest

unfoldable pub strip : (ℕ → Bool) → Text → Text
unfolding strip_left strip_right
strip p s = strip_right p (strip_left p s)

-- Letters outside ASCII are left alone.
unfoldable pub lower_char : ℕ → ℕ
lower_char c = if leb b'A' c && leb c b'Z' then c + 32 else c

unfoldable pub upper_char : ℕ → ℕ
upper_char c = if leb b'a' c && leb c b'z' then c - 32 else c

-- s.split(sep) for one separator character: never empty
abbrev pub push_first : ℕ → List Text → List Text
push_first c [] = (c ∷ []) ∷ []
push_first c (w ∷ ws) = (c ∷ w) ∷ ws

unfoldable pub split_on : ℕ → Text → List Text
split_on sep [] = [] ∷ []
split_on sep (c ∷ s) =
    let rest = split_on sep s in if c == sep then [] ∷ rest else push_first c rest

-- s.split() with no separator: the maximal runs without white space. `word` is the run read so far.
unfoldable pub split_words : Text → Text → List Text
unfolding is_empty is_space
split_words word [] = if is_empty word then [] else word ∷ []
split_words word (c ∷ s) =
    let rest = split_words (if is_space c then [] else word ++ c ∷ []) s in
    if is_space c && not (is_empty word) then word ∷ rest else rest

-- sep.join(parts)
unfoldable pub join : Text → List Text → Text
join sep [] = []
join sep (s ∷ []) = s
join sep (s ∷ t ∷ ts) = s ++ (sep ++ join sep (t ∷ ts))

-- '%d' % n, for the digits of a number; the fuel is the number itself, which has fewer digits
unfoldable pub digits_onto : ℕ → ℕ → Text → Text
digits_onto zero n out = out
digits_onto (suc fuel) n out =
    let d = b'0' + n % 10 in
    let more = digits_onto fuel (n / 10) (d ∷ out) in if ltb n 10 then d ∷ out else more

unfoldable pub decimal : ℕ → Text
unfolding digits_onto
decimal n = digits_onto (suc n) n []
