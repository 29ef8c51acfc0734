-- ===== src/Nolint.antt =====
-- cpplint.py, NOLINT comments (lines 294-347): which errors of which lines are suppressed.
pub mod Notes
use tpool.Base.{
  Bool, List, Option, [], any, drop, false, if◌then◌else◌, map, none, some, true, ℕ, ◌&&◌, ◌++◌,
  ◌==◌, ◌∷◌,
}
use tpool.Text.{Text, drop_last, ends_with, one_of, same, starts_with, text}
use tpool.Pattern.{Found, read_group, search_in}
use tpool.Pattern.Syntax.{Pattern, boundary, char, group, maybe, none_of, star, word, ◌>>◌}
use tpool.Report.{Effect, diagnose, only_if, suppress}

-- The map from categories to sets of lines, as the pairs in it; the category None is for all.
abbrev pub Suppressions : Type 0
Suppressions = List (Option Text × ℕ)

-- _RE_SUPPRESSION
unfoldable pub suppression : Pattern
unfolding word none_of
suppression =
    boundary
    >> word "NOLINT"
    >> boundary
    >> maybe (group 1 (char b'(' >> star (none_of ")") >> char b')'))

-- _ERROR_CATEGORIES
unfoldable pub error_categories : List Text
error_categories = map text (
    "build/class" ∷ "build/deprecated" ∷ "build/endif_comment" ∷ "build/explicit_make_pair"
    ∷ "build/forward_decl" ∷ "build/header_guard" ∷ "build/include" ∷ "build/include_alpha"
    ∷ "build/include_order" ∷ "build/include_what_you_use" ∷ "build/namespaces"
    ∷ "build/printf_format" ∷ "build/storage_class" ∷ "legal/copyright" ∷ "readability/braces"
    ∷ "readability/casting" ∷ "readability/check" ∷ "readability/constructors"
    ∷ "readability/fn_size" ∷ "readability/function" ∷ "readability/multiline_comment"
    ∷ "readability/multiline_string" ∷ "readability/nolint" ∷ "readability/streams"
    ∷ "readability/todo" ∷ "readability/utf8" ∷ "runtime/arrays" ∷ "runtime/casting"
    ∷ "runtime/explicit" ∷ "runtime/int" ∷ "runtime/init" ∷ "runtime/invalid_increment"
    ∷ "runtime/member_string_references" ∷ "runtime/memset" ∷ "runtime/operator" ∷ "runtime/printf"
    ∷ "runtime/printf_format" ∷ "runtime/references" ∷ "runtime/rtti" ∷ "runtime/sizeof"
    ∷ "runtime/string" ∷ "runtime/threadsafe_fn" ∷ "runtime/virtual" ∷ "whitespace/blank_line"
    ∷ "whitespace/braces" ∷ "whitespace/comma" ∷ "whitespace/comments" ∷ "whitespace/end_of_line"
    ∷ "whitespace/ending_newline" ∷ "whitespace/indent" ∷ "whitespace/labels"
    ∷ "whitespace/line_length" ∷ "whitespace/newline" ∷ "whitespace/operators" ∷ "whitespace/parens"
    ∷ "whitespace/semicolon" ∷ "whitespace/tab" ∷ "whitespace/todo" ∷ [])

-- A known category is noted, another one is an error.
pub known_or_error : ℕ → Text → Bool → List Effect
known_or_error linenum name true = suppress (some name) linenum ∷ []
known_or_error linenum name false =
    diagnose linenum "readability/nolint" 5 (text "Unknown NOLINT error category: " ++ name) ∷ []

-- `category[1:-1]` if it is bracketed
pub noted : ℕ → Text → List Effect
unfolding known_or_error
noted linenum category =
    let name = drop 1 (drop_last 1 category) in
    only_if (starts_with category (b'(' ∷ []) && ends_with category (b')' ∷ []))
      (known_or_error linenum name (one_of name error_categories))

-- `category in (None, '(*)')` suppresses everything
pub suppressed : ℕ → Option Text → List Effect
unfolding noted same
suppressed linenum none = suppress none linenum ∷ []
suppressed linenum (some category) =
    if same category (text "(*)") then suppress none linenum ∷ [] else noted linenum category

pub nolint_effects : ℕ → Option Found → List Effect
unfolding suppressed read_group
nolint_effects linenum none = []
nolint_effects linenum (some matched) = suppressed linenum (read_group 1 matched)

unfoldable pub parse_nolint_suppressions : ℕ → Text → List Effect
unfolding nolint_effects search_in suppression
parse_nolint_suppressions linenum raw_line = nolint_effects linenum (search_in suppression raw_line)

-- _error_suppressions.setdefault(category, set()).add(linenum)
unfoldable pub add_suppression : Option Text → ℕ → Suppressions → Suppressions
add_suppression category linenum s = (category, linenum) ∷ s

abbrev pub reset_nolint_suppressions : Suppressions
reset_nolint_suppressions = []

-- Is the pair for this category, or for all?
unfoldable pub covers : Text → ℕ → Option Text × ℕ → Bool
unfolding same
covers category linenum (none, line) = line == linenum
covers category linenum (some c, line) = same c category && line == linenum

unfoldable pub is_error_suppressed_by_nolint : Suppressions → Text → ℕ → Bool
unfolding covers
is_error_suppressed_by_nolint s category linenum = any (covers category linenum) s
