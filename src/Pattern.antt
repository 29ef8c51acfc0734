-- ===== src/Pattern.antt =====
-- Python's `re`, as far as cpplint.py uses it: patterns as a data type and a backtracking matcher
-- that tries the alternatives in `re`'s order, so that groups and lengths come out the same.
pub mod Syntax
pub mod Parse
use tpool.Base.{
  Bool, List, Option, [], false, if◌then◌else◌, length, ltb, none, not, some, suc, take, true, zero,
  ℕ, ◌&&◌, ◌++◌, ◌-◌, ◌==◌, ◌||◌, ◌∷◌,
}
use tpool.Text.{Text}
use tpool.Pattern.Syntax.{
  Pattern, ahead, alt, at_end, at_start, boundary, char_in, group, is_word, not_ahead, nothing,
  same_as, seq, star, star_lazy,
}

-- A place in the subject: the character before it, its index, what follows, and the groups read
-- with where each began.
pub record Place : Type 0 where
  pub before : Option ℕ
  pub index : ℕ
  pub rest : Text
  pub groups : List (ℕ × Text)
  pub starts : List (ℕ × ℕ)

abbrev is_word_at : Option ℕ → Bool
is_word_at none = false
is_word_at (some c) = is_word c

abbrev first : Text → Option ℕ
first [] = none
first (c ∷ s) = some c

-- `\b`
at_boundary : Place → Bool
at_boundary p =
    let a = is_word_at p.before in let b = is_word_at (first p.rest) in (a && not b) || (not a && b)

-- `$` with no flags: the end, or just before a newline that ends the subject
is_end : Text → Bool
is_end [] = true
is_end (c ∷ []) = c == b'\n'
is_end (c ∷ d ∷ s) = false

is_first : Option ℕ → Bool
is_first none = true
is_first (some c) = false

abbrev Next : Type 0
Next = Place → Option Place

-- One more round of a repeated part, which has to consume something.
abbrev advances : Place → Place → Bool
advances p q = ltb p.index q.index

-- `r*`: as many rounds as possible first. The fuel is one more than the characters left.
greedy : (Place → Next → Option Place) → ℕ → Place → Next → Option Place
greedy m zero p k = k p
greedy m (suc fuel) p k =
    elim (m p (λ q. elim (advances p q) [ true ↦ greedy m fuel q k | false ↦ none ])) [
      | some q ↦ some q
      | none ↦ k p
    ]

-- `r*?`: as few rounds as possible first
reluctant : (Place → Next → Option Place) → ℕ → Place → Next → Option Place
reluctant m zero p k = k p
reluctant m (suc fuel) p k = elim (k p) [
  | some q ↦ some q
  | none ↦ m p (λ q. elim (advances p q) [ true ↦ reluctant m fuel q k | false ↦ none ])
]

step_char : (ℕ → Bool) → Place → Text → Next → Option Place
step_char f p [] k = none
step_char f p (c ∷ s) k = elim (f c) [
  | true ↦ k (record {
    before = some c;
    index = suc p.index;
    rest = s;
    groups = p.groups;
    starts = p.starts;
  })
  | false ↦ none
]

-- A text that an earlier group has read, `\1`
step_text : Text → Place → Next → Option Place
unfolding step_char
step_text [] p k = k p
step_text (d ∷ t) p k = step_char (λ c. c == d) p p.rest (λ q. step_text t q k)

abbrev read_so_far : Option Text → Text
read_so_far none = []
read_so_far (some s) = s

group_of : ℕ → List (ℕ × Text) → Option Text
group_of n [] = none
group_of n ((m, s) ∷ gs) = if m == n then some s else group_of n gs

when : Bool → Place → Next → Option Place
when true p k = k p
when false p k = none

-- What `group n` has read between two places.
captured : ℕ → Place → Place → Place
captured n p q = record q {
  groups = (n, take (q.index - p.index) p.rest) ∷ q.groups;
  starts = (n, p.index) ∷ q.starts;
}

matcher : Pattern → Place → Next → Option Place
unfolding greedy reluctant step_char step_text group_of at_boundary is_end is_first when captured
    is_word
matcher nothing p k = k p
matcher (char_in f) p k = step_char f p p.rest k
matcher (seq r t) p k = matcher r p (λ q. matcher t q k)
matcher (alt r t) p k = elim (matcher r p k) [ some q ↦ some q | none ↦ matcher t p k ]
matcher (star r) p k = greedy (matcher r) (suc (length p.rest)) p k
matcher (star_lazy r) p k = reluctant (matcher r) (suc (length p.rest)) p k
matcher (group n r) p k = matcher r p (λ q. k (captured n p q))
matcher boundary p k = when (at_boundary p) p k
matcher at_start p k = when (is_first p.before) p k
matcher at_end p k = when (is_end p.rest) p k
matcher (not_ahead r) p k = elim (matcher r p some) [ some q ↦ none | none ↦ k p ]
matcher (same_as n) p k = step_text (read_so_far (group_of n p.groups)) p k
matcher (ahead r) p k = elim (matcher r p some) [ some q ↦ k p | none ↦ none ]

-- A match object: `start`, `stop` are m.start(0) and m.end(0), `starts` are the m.start(n).
pub record Found : Type 0 where
  pub start : ℕ
  pub stop : ℕ
  pub groups : List (ℕ × Text)
  pub starts : List (ℕ × ℕ)

abbrev found_at : ℕ → Option Place → Option Found
found_at i none = none
found_at i (some q) =
    some (record { start = i; stop = q.index; groups = q.groups; starts = q.starts })

match_at : Pattern → Option ℕ → ℕ → Text → Option Found
unfolding matcher
match_at r before i s =
    found_at i
      (matcher r (record { before = before; index = i; rest = s; groups = []; starts = [] }) some)

-- Match(pattern, s)
unfoldable pub match_start : Pattern → Text → Option Found
unfolding match_at
match_start r s = match_at r none 0 s

-- Search(pattern, s): the leftmost match
search_from : Pattern → Option ℕ → ℕ → Text → Option Found
unfolding match_at
search_from r before i [] = match_at r before i []
search_from r before i (c ∷ s) = elim (match_at r before i (c ∷ s)) [
  | some m ↦ some m
  | none ↦ search_from r (some c) (suc i) s
]

unfoldable pub search_in : Pattern → Text → Option Found
unfolding search_from
search_in r s = search_from r none 0 s

abbrev pub is_match : Option Found → Bool
is_match none = false
is_match (some m) = true

-- bool(Match(pattern, s)) and bool(Search(pattern, s))
unfoldable pub matches : Pattern → Text → Bool
unfolding match_start
matches r s = is_match (match_start r s)

unfoldable pub occurs : Pattern → Text → Bool
unfolding search_in
occurs r s = is_match (search_in r s)

-- m.group(n), which is None where the group took no part
unfoldable pub read_group : ℕ → Found → Option Text
unfolding group_of
read_group n m = group_of n m.groups

-- pattern.sub(replacement, s), for a pattern that never matches the empty text
match_length : Option Found → ℕ
match_length none = 0
match_length (some m) = m.stop - m.start

substitute_from : Pattern → Text → Option ℕ → ℕ → Text → Text
unfolding match_at match_length
substitute_from r by before skip [] = []
substitute_from r by before (suc skip) (c ∷ s) = substitute_from r by (some c) skip s
substitute_from r by before zero (c ∷ s) =
    let n = match_length (match_at r before 0 (c ∷ s)) in
    let rest = substitute_from r by (some c) (n - 1) s in if n == 0 then c ∷ rest else by ++ rest

unfoldable pub substitute : Pattern → Text → Text → Text
unfolding substitute_from
substitute r by s = substitute_from r by none 0 s

-- len(re.findall(pattern, s)), for a pattern that never matches the empty text
count_matches_from : Pattern → Option ℕ → ℕ → Text → ℕ
unfolding match_at match_length
count_matches_from r before skip [] = 0
count_matches_from r before (suc skip) (c ∷ s) = count_matches_from r (some c) skip s
count_matches_from r before zero (c ∷ s) =
    let n = match_length (match_at r before 0 (c ∷ s)) in
    let rest = count_matches_from r (some c) (n - 1) s in if n == 0 then rest else suc rest

unfoldable pub count_matches : Pattern → Text → ℕ
unfolding count_matches_from
count_matches r s = count_matches_from r none 0 s

-- re.split(pattern, s), for a pattern with no groups that never matches the empty text
abbrev into_first : ℕ → List Text → List Text
into_first c [] = (c ∷ []) ∷ []
into_first c (w ∷ ws) = (c ∷ w) ∷ ws

split_by_from : Pattern → Option ℕ → ℕ → Text → List Text
unfolding match_at match_length
split_by_from r before skip [] = [] ∷ []
split_by_from r before (suc skip) (c ∷ s) = split_by_from r (some c) skip s
split_by_from r before zero (c ∷ s) =
    let n = match_length (match_at r before 0 (c ∷ s)) in
    let rest = split_by_from r (some c) (n - 1) s in if n == 0 then into_first c rest else [] ∷ rest

unfoldable pub split_by : Pattern → Text → List Text
unfolding split_by_from
split_by r s = split_by_from r none 0 s

start_of : ℕ → List (ℕ × ℕ) → Option ℕ
start_of n [] = none
start_of n ((m, i) ∷ gs) = if m == n then some i else start_of n gs

-- m.start(n), which is -1 where the group took no part: none
unfoldable pub group_start : ℕ → Found → Option ℕ
unfolding start_of
group_start n m = start_of n m.starts

-- m.group(n) where the group has taken part
unfoldable pub group_text : ℕ → Found → Text
unfolding read_group
group_text n m = read_so_far (read_group n m)

-- `if match: ...`, for what is done with the match
abbrev pub on_match {ℓ} : {A : Type ℓ} → Option Found → (Found → List A) → List A
on_match none f = []
on_match (some m) f = f m
