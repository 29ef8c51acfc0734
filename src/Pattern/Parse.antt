-- ===== src/Pattern/Parse.antt =====
-- The notation of `re`'s patterns, as far as cpplint.py uses it, so that the model keeps the source's
-- pattern texts. Groups are numbered by their opening brackets.
use tpool.Base.{
  Bool, Option, String, [], drop, false, get_or, if◌then◌else◌, leb, length, none, not, some, suc,
  true, zero, ℕ, ◌&&◌, ◌*◌, ◌+◌, ◌-◌, ◌==◌, ◌||◌, ◌∷◌,
}
use tpool.Text.{Text, is_ascii_space, lower_char, text, upper_char}
use tpool.Pattern.Syntax.{
  Pattern, ahead, alt, any_char, at_end, at_start, boundary, char, char_in, group, is_digit,
  is_word, maybe, not_ahead, nothing, plus, same_as, seq, star, star_lazy, ◌or◌,
}
use Prim.Native.String.{String}

-- `*`, `+`, `?` with or without the lazy `?`, and `{m}`, `{m,}`, `{m,n}`
pub data Times : Type 0 where
  once any_number : Times
  some_lazily any_lazily : Times
  at_least_one optional : Times
  between : ℕ → Option ℕ → Times

-- The digits of a number in front, with the number that they say.
unfoldable pub leading_number : ℕ → Text → ℕ × Text
unfolding is_digit
leading_number n [] = (n, [])
leading_number n (c ∷ s) =
    let more = leading_number (n * 10 + (c - b'0')) s in if is_digit c then more else (n, c ∷ s)

abbrev starts_digit : Text → Bool
unfolding is_digit
starts_digit [] = false
starts_digit (c ∷ s) = is_digit c

abbrev closes_brace : Text → Bool
closes_brace [] = false
closes_brace (c ∷ s) = c == b'}'

-- What follows `{m`: a brace that makes no quantifier stands for itself.
after_first : ℕ → Text → Option (Times × Text)
unfolding leading_number
after_first m [] = none
after_first m (c ∷ s) =
    let (n, rest) = leading_number 0 s in
    if c == b'}'
    then some (between m (some m), s)
    else if (c == b',') && closes_brace s
    then some (between m none, drop 1 s)
    else if (c == b',') && (starts_digit s && closes_brace rest)
    then some (between m (some n), drop 1 rest)
    else none

braces : Text → Times × Text
unfolding after_first leading_number
braces s =
    let (m, rest) = leading_number 0 s in
    if starts_digit s
    then elim (after_first m rest) [ some r ↦ r | none ↦ (once, b'{' ∷ s) ]
    else (once, b'{' ∷ s)

abbrev lazily : Text → Times → Times → Times × Text
lazily [] greedily reluctantly = (greedily, [])
lazily (c ∷ s) greedily reluctantly = if c == b'?' then (reluctantly, s) else (greedily, c ∷ s)

quantifier : Text → Times × Text
unfolding braces
quantifier [] = (once, [])
quantifier (c ∷ s) =
    if c == b'*'
    then lazily s any_number any_lazily
    else if c == b'+'
    then lazily s at_least_one some_lazily
    else if c == b'?'
    then (optional, s)
    else if c == b'{'
    then braces s
    else (once, c ∷ s)

copies : ℕ → Pattern → Pattern → Pattern
copies zero r tail = tail
copies (suc n) r tail = seq r (copies n r tail)

up_to : ℕ → Pattern → Pattern
up_to zero r = nothing
up_to (suc n) r = maybe (seq r (up_to n r))

repeated : Times → Pattern → Pattern
unfolding copies up_to
repeated once r = r
repeated any_number r = star r
repeated any_lazily r = star_lazy r
repeated at_least_one r = plus r
repeated some_lazily r = seq r (star_lazy r)
repeated optional r = maybe r
repeated (between m none) r = copies m r (star r)
repeated (between m (some n)) r = copies m r (up_to (n - m) r)

-- `\w`, `\W`, `\s`, `\S`, `\d`, `\t`, or a character that stands for itself
escaped : ℕ → ℕ → Bool
unfolding is_word is_digit is_ascii_space
escaped c =
    if c == b'w'
    then is_word
    else if c == b's'
    then is_ascii_space
    else if c == b'S'
    then (λ d. not (is_ascii_space d))
    else if c == b'W'
    then (λ d. not (is_word d))
    else if c == b'd'
    then is_digit
    else if c == b't'
    then (λ d. d == 9)
    else (λ d. d == c)

-- The inside of `[…]`: its test and what follows the bracket. The first member may be `]`.
abbrev joined : (ℕ → Bool) → (ℕ → Bool) × Text → (ℕ → Bool) × Text
joined f (g, s) = ((λ d. f d || g d), s)

is_range : Text → Bool
is_range [] = false
is_range (c ∷ []) = false
is_range (c ∷ d ∷ s) = (c == b'-') && not (d == b']')

members : ℕ → Bool → Text → (ℕ → Bool) × Text
unfolding escaped is_range
members zero first s = ((λ d. false), s)
members (suc fuel) first [] = ((λ d. false), [])
members (suc fuel) first (c ∷ s) =
    let by_escape = joined (escaped (get_or s 0 0)) (members fuel false (drop 1 s)) in
    let by_range = joined (λ d. leb c d && leb d (get_or s 1 0)) (members fuel false (drop 2 s)) in
    let by_char = joined (λ d. d == c) (members fuel false s) in
    if (c == b']') && not first
    then ((λ d. false), s)
    else if c == b'\\'
    then by_escape
    else if is_range s
    then by_range
    else by_char

bracketed : Text → Pattern × Text
unfolding members
bracketed s =
    let (f, rest) = members (length s) true s in
    let (g, rest') = members (length s) true (drop 1 s) in
    if get_or s 0 0 == b'^' then (char_in (λ c. not (g c)), rest') else (char_in f, rest)

-- A single character, or an escape: neither reads a group.
plain_atom : ℕ → Text → Pattern × Text
unfolding bracketed escaped is_digit
plain_atom c s =
    let d = get_or s 0 0 in
    if c == b'['
    then bracketed s
    else if c == b'\\'
    then (
      (if d == b'b'
          then boundary
          else if is_digit d
          then same_as (d - b'0')
          else char_in (escaped d)),
      drop 1 s,
    )
    else if c == b'.'
    then (any_char, s)
    else if c == b'^'
    then (at_start, s)
    else if c == b'$'
    then (at_end, s)
    else (char c, s)

abbrev ends_sequence : Text → Bool
ends_sequence [] = true
ends_sequence (c ∷ s) = (c == b'|') || (c == b')')

-- What an opening bracket begins: how the inside is taken, the number of the next group, and the
-- number of characters that say so.
opened_by : ℕ → Text → (Pattern → Pattern) × ℕ × ℕ
opened_by n s =
    let c = get_or s 1 0 in
    if get_or s 0 0 == b'?'
    then ((if c == b'=' then ahead else if c == b'!' then not_ahead else (λ r. r)), n, 2)
    else (group n, n + 1, 0)

-- A pattern with the number of the next group and what follows. The fuel bounds the depth.
mutual
  unfolding quantifier repeated plain_atom opened_by

  alternatives : ℕ → ℕ → Text → Pattern × ℕ × Text
  alternatives zero n s = (nothing, n, s)
  alternatives (suc fuel) n s =
      let (r, n', rest) = sequence fuel n s in
      let more = alternatives fuel n' (drop 1 rest) in
      if get_or rest 0 0 == b'|' then (r or more.0, more.1, more.2) else (r, n', rest)

  sequence : ℕ → ℕ → Text → Pattern × ℕ × Text
  sequence zero n s = (nothing, n, s)
  sequence (suc fuel) n s =
      let (a, n', rest) = atom fuel n s in
      let (times, rest') = quantifier rest in
      let more = sequence fuel n' rest' in
      if ends_sequence s then (nothing, n, s) else (seq (repeated times a) more.0, more.1, more.2)

  atom : ℕ → ℕ → Text → Pattern × ℕ × Text
  atom zero n s = (nothing, n, s)
  atom (suc fuel) n [] = (nothing, n, [])
  atom (suc fuel) n (c ∷ s) =
      let (wrap, n', k) = opened_by n s in
      let inside = alternatives fuel n' (drop k s) in
      let (a, rest) = plain_atom c s in
      if c == b'(' then (wrap inside.0, inside.1, drop 1 inside.2) else (a, n, rest)

-- re.compile(pattern). An atom uses three steps of the depth at most.
unfoldable pub re : String → Pattern
unfolding alternatives text
re pattern = (alternatives (3 * length (text pattern) + 3) 1 (text pattern)).0

-- The flag re.I, which `(?i)` in front of a pattern sets: a letter stands for both its cases.
unfoldable pub ignoring_case : Pattern → Pattern
unfolding lower_char upper_char
ignoring_case (char_in f) = char_in (λ c. f (lower_char c) || f (upper_char c))
ignoring_case (seq r t) = seq (ignoring_case r) (ignoring_case t)
ignoring_case (alt r t) = alt (ignoring_case r) (ignoring_case t)
ignoring_case (star r) = star (ignoring_case r)
ignoring_case (star_lazy r) = star_lazy (ignoring_case r)
ignoring_case (ahead r) = ahead (ignoring_case r)
ignoring_case (not_ahead r) = not_ahead (ignoring_case r)
ignoring_case (group n r) = group n (ignoring_case r)
ignoring_case r = r
