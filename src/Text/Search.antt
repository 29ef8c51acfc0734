-- ===== src/Text/Search.antt =====
-- Looking for one text in another: prefixes, suffixes, `find`, `count`, `replace`.
use tpool.Base.{
  ℕ, zero, suc, ◌+◌, ◌-◌, Bool, true, false, ◌&&◌, [], ◌∷◌, ◌++◌, Option, none, some, leb, ◌==◌,
  if◌then◌else◌, length, drop, take,
}
use tpool.Text.Words.{Text, same, is_empty}

-- s.startswith(p)
unfoldable pub starts_with : Text → Text → Bool
starts_with s [] = true
starts_with [] (d ∷ p) = false
starts_with (c ∷ s) (d ∷ p) = c == d && starts_with s p

-- s.endswith(p)
unfoldable pub ends_with : Text → Text → Bool
unfolding same
ends_with s p = leb (length p) (length s) && same (drop (length s - length p) s) p

-- s[:-n] for n > 0, or s without its last n characters
unfoldable pub drop_last : ℕ → Text → Text
drop_last n s = take (length s - n) s

abbrev pub add_one : Option ℕ → Option ℕ
add_one none = none
add_one (some i) = some (suc i)

-- s.find(p)
unfoldable pub find : Text → Text → Option ℕ
unfolding starts_with is_empty
find [] p = if is_empty p then some 0 else none
find (c ∷ s) p = let later = find s p in if starts_with (c ∷ s) p then some 0 else add_one later

-- p in s
abbrev is_found : Option ℕ → Bool
is_found none = false
is_found (some i) = true

unfoldable pub contains : Text → Text → Bool
unfolding find
contains s p = is_found (find s p)

-- s.rfind(c, 0, limit) for one character
abbrev rfind_step : ℕ → ℕ → Option ℕ → Option ℕ
rfind_step c d (some i) = some (suc i)
rfind_step c d none = if c == d then some 0 else none

unfoldable pub rfind : ℕ → Text → Option ℕ
rfind d [] = none
rfind d (c ∷ s) = rfind_step c d (rfind d s)

-- s.count(p): occurrences that do not overlap. `skip` characters of one are still to be passed.
unfoldable pub count_from : ℕ → Text → Text → ℕ
unfolding starts_with
count_from skip [] p = 0
count_from (suc skip) (c ∷ s) p = count_from skip s p
count_from zero (c ∷ s) p =
    let hit = starts_with (c ∷ s) p in
    let rest = count_from (if hit then length p - 1 else 0) s p in if hit then suc rest else rest

unfoldable pub count : Text → Text → ℕ
unfolding count_from
count s p = count_from 0 s p

-- s.count(c) for one character
unfoldable pub count_char : ℕ → Text → ℕ
count_char d [] = 0
count_char d (c ∷ s) = (if c == d then 1 else 0) + count_char d s

-- s.replace(p, r), for p that is not empty
unfoldable pub replace_from : ℕ → Text → Text → Text → Text
unfolding starts_with
replace_from skip [] p r = []
replace_from (suc skip) (c ∷ s) p r = replace_from skip s p r
replace_from zero (c ∷ s) p r =
    let hit = starts_with (c ∷ s) p in
    let rest = replace_from (if hit then length p - 1 else 0) s p r in
    if hit then r ++ rest else c ∷ rest

unfoldable pub replace : Text → Text → Text → Text
unfolding replace_from
replace s p r = replace_from 0 s p r
