-- ===== src/LintState.antt =====
-- cpplint.py, class _CppLintState and the functions that wrap its one instance (lines 491-611).
pub mod Filters
pub mod Counts
use tpool.Base.{
  Bool, List, Option, [], if◌then◌else◌, none, not, pos, some, ℕ, ℤ, ◌++◌, ◌+◌, ◌||◌, ◌∷◌,
}
use tpool.Text.{
  Text, count, decimal, is_ascii_space, is_empty, same, split_on, starts_with, strip, text,
}
use tpool.Dict.{Dict, get, put}

pub record LintState : Type 0 where
  pub verbose_level : ℤ
  pub error_count : ℕ
  pub filters : List Text
  pub counting : Text
  pub errors_by_category : Dict ℕ
  pub output_format : Text

-- _DEFAULT_FILTERS
abbrev pub default_filters : List Text
default_filters = text "-build/include_alpha" ∷ []

-- __init__
unfoldable pub init : LintState
init = record {
  verbose_level = pos 1;
  error_count = 0;
  filters = default_filters;
  counting = text "total";
  errors_by_category = [];
  output_format = text "emacs";
}

unfoldable pub set_output_format : LintState → Text → LintState
set_output_format s output_format = record s { output_format = output_format }

-- The previous level is the second part of the result.
unfoldable pub set_verbose_level : LintState → ℤ → LintState × ℤ
set_verbose_level s level = (record s { verbose_level = level }, s.verbose_level)

unfoldable pub set_counting_style : LintState → Text → LintState
set_counting_style s counting_style = record s { counting = counting_style }

-- for filt in filters.split(','): the stripped pieces that are not empty
unfoldable pub clean_filters : List Text → List Text
unfolding is_empty
clean_filters [] = []
clean_filters (filt ∷ rest) =
    let clean_filt = strip is_ascii_space filt in
    let others = clean_filters rest in if is_empty clean_filt then others else clean_filt ∷ others

unfoldable pub has_sign : Text → Bool
unfolding starts_with
has_sign filt = starts_with filt (b'+' ∷ []) || starts_with filt (b'-' ∷ [])

-- The first filter with neither sign, which the ValueError names.
unfoldable pub first_bad : List Text → Option Text
unfolding has_sign
first_bad [] = none
first_bad (filt ∷ rest) = if not (has_sign filt) then some filt else first_bad rest

-- The new filters stay in place when the call raises; the second part is the filter to blame.
unfoldable pub set_filters : LintState → Text → LintState × Option Text
set_filters s filters =
    let all_filters = default_filters ++ clean_filters (split_on b',' filters) in
    (record s { filters = all_filters }, first_bad all_filters)

unfoldable pub reset_error_counts : LintState → LintState
reset_error_counts s = record s { error_count = 0; errors_by_category = [] }

abbrev first_part : List Text → Text
first_part [] = []
first_part (w ∷ ws) = w

abbrev pub or_zero : Option ℕ → ℕ
or_zero none = 0
or_zero (some n) = n

-- The key under which an error of the category is counted.
unfoldable pub counted_as : Text → Text → Text
unfolding same
counted_as counting category =
    if not (same counting (text "detailed")) then first_part (split_on b'/' category) else category

-- self.counting in ('toplevel', 'detailed')
unfoldable pub by_category : Text → Bool
unfolding same
by_category counting = same counting (text "toplevel") || same counting (text "detailed")

unfoldable pub increment_error_count : LintState → Text → LintState
unfolding counted_as by_category
increment_error_count s category =
    let key = counted_as s.counting category in
    let bumped = put s.errors_by_category key (or_zero (get s.errors_by_category key) + 1) in
    record s {
      error_count = s.error_count + 1;
      errors_by_category = if by_category s.counting then bumped else s.errors_by_category;
    }

category_lines : Dict ℕ → List Text
category_lines [] = []
category_lines ((category, count) ∷ rest) =
    (text "Category '" ++ (category ++ (text "' errors found: " ++ (decimal count ++ text "\n"))))
    ∷ category_lines rest

-- The lines that are written to the standard error.
unfoldable pub print_error_counts : LintState → List Text
unfolding category_lines
print_error_counts s =
    category_lines s.errors_by_category
    ++ ((text "Total errors found: " ++ (decimal s.error_count ++ text "\n")) ∷ [])
