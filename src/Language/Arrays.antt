-- ===== src/Language/Arrays.antt =====
-- cpplint.py, the part of CheckLanguage about variable-length arrays (lines 2731-2768).
use tpool.Base.{Bool, List, [], false, if◌then◌else◌, not, true, ℕ, ◌&&◌, ◌==◌, ◌||◌, ◌∷◌}
use tpool.Text.{Text, contains, is_empty, same, starts_with, strip_left, strip_right, text}
use tpool.Pattern.{Found, group_text, match_start, matches, occurs, on_match, split_by}
use tpool.Pattern.Parse.{re}
use tpool.Report.{Effect, diagnose, only_if}

-- tok.lstrip('(').rstrip(')')
unfoldable pub bare_token : Text → Text
unfolding strip_left strip_right
bare_token tok = strip_right (λ c. c == b')') (strip_left (λ c. c == b'(') tok)

-- The token is passed over, as a constant or as nothing at all.
unfoldable pub is_const_token : Text → Bool
unfolding bare_token is_empty
is_const_token tok =
    occurs (re "sizeof\\(.+\\)") tok
    || (occurs (re "arraysize\\(\\w+\\)") tok
        || (is_empty (bare_token tok)
            || (matches (re "\\d+") (bare_token tok)
                || (matches (re "0[xX][0-9a-fA-F]+") (bare_token tok)
                    || (matches (re "k[A-Z0-9]\\w*") (bare_token tok)
                        || (matches (re "(.+::)?k[A-Z0-9]\\w*") (bare_token tok)
                            || matches (re "(.+::)?[A-Z][A-Z0-9_]*") (bare_token tok)))))))

-- The loop over the tokens; the first argument is skip_next.
unfoldable pub is_const : Bool → List Text → Bool
unfolding is_const_token starts_with
is_const skip_next [] = true
is_const true (tok ∷ tokens) = is_const false tokens
is_const false (tok ∷ tokens) =
    let more = is_const false tokens in
    let skipping = is_const true tokens in
    if is_const_token tok
    then more
    else if starts_with (bare_token tok) (text "sizeof")
    then skipping
    else false

unfoldable pub array_report : ℕ → Found → List Effect
unfolding same contains
array_report linenum m =
    only_if
      (not (same (group_text 2 m) (text "return"))
        && (not (same (group_text 2 m) (text "delete"))
            && (not (contains (group_text 3 m) (text "]"))
                && not (
                    is_const false (split_by (re "\\s|\\+|\\-|\\*|\\/|<<|>>]") (group_text 3 m))))))
      (diagnose linenum "runtime/arrays" 1 (
          text
            "Do not use variable-length arrays.  Use an appropriately named ('k' followed by CamelCase) compile-time constant for the size.")
        ∷ [])

unfoldable pub check_arrays : Text → ℕ → List Effect
unfolding array_report
check_arrays line linenum =
    on_match (match_start (re "\\s*(.+::)?(\\w+) [a-z]\\w*\\[(.+)];") line)
      (λ m. array_report linenum m)
