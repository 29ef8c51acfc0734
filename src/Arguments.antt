-- ===== src/Arguments.antt =====
-- cpplint.py, the command line (lines 3268-3339) and the exit status of main (3342-3357). The
-- result of getopt is an argument of the model: the options with their values, and the file names.
pub mod Checked
pub mod Exit
pub mod Usage
use tpool.LintState
use tpool.LintState.{
  LintState, set_counting_style, set_filters, set_output_format, set_verbose_level,
}
use tpool.Base.{
  List, Option, [], if◌then◌else◌, ltb, negsuc, none, pos, some, suc, zero, ℕ, ℤ, ◌*◌, ◌+◌, ◌-◌,
  ◌==◌, ◌∷◌,
}
use tpool.Text.{Text, is_ascii_space, is_empty, one_of, same, strip, text}
use tpool.Pattern.Syntax.{is_digit}

abbrev pub Options : Type 0
Options = List (Text × Text)

-- What ParseArguments comes to: the names of the files and the new state, a message of PrintUsage
-- (none for --help), the list of categories, or a ValueError.
pub data Parsed : Type 0 where
  files : LintState → List Text → Parsed
  usage : Option Text → Parsed
  categories : Parsed
  value_error : Text → Parsed

-- int(val): an optional sign and decimal digits, with white space around them.
unfoldable pub digits_value : ℕ → Text → Option ℕ
unfolding is_digit
digits_value n [] = some n
digits_value n (c ∷ s) =
    let rest = digits_value (n * 10 + (c - b'0')) s in if is_digit c then rest else none

unfoldable pub unsigned_int : Text → Option ℕ
unfolding digits_value
unsigned_int [] = none
unsigned_int (c ∷ s) = digits_value 0 (c ∷ s)

abbrev as_pos : Option ℕ → Option ℤ
as_pos none = none
as_pos (some n) = some (pos n)

abbrev as_neg : Option ℕ → Option ℤ
as_neg none = none
as_neg (some zero) = some (pos 0)
as_neg (some (suc n)) = some (negsuc n)

signed_int : Text → Option ℤ
unfolding unsigned_int
signed_int [] = none
signed_int (c ∷ s) =
    if c == b'-'
    then as_neg (unsigned_int s)
    else if c == b'+'
    then as_pos (unsigned_int s)
    else as_pos (unsigned_int (c ∷ s))

unfoldable pub int_of : Text → Option ℤ
unfolding signed_int strip is_ascii_space
int_of val = signed_int (strip is_ascii_space val)

-- The local variables of ParseArguments.
pub record Settings : Type 0 where
  pub verbosity : ℤ
  pub output_format : Text
  pub filters : Text
  pub counting_style : Text

-- One round of the loop over the options: the new values, or the way out.
pub data Round : Type 0 where
  goes_on : Settings → Round
  leaves : Parsed → Round

unfoldable pub verbosity_read : Settings → Text → Option ℤ → Round
verbosity_read v val none = leaves (value_error val)
verbosity_read v val (some n) = goes_on (record v { verbosity = n })

unfoldable pub read_option : Settings → Text → Text → Round
unfolding verbosity_read
read_option v opt val =
    if same opt (text "--help")
    then leaves (usage none)
    else if same opt (text "--output")
    then (if one_of val (text "emacs" ∷ text "vs7" ∷ [])
        then goes_on (record v { output_format = val })
        else leaves (usage (some (text "The only allowed output formats are emacs and vs7."))))
    else if same opt (text "--verbose")
    then verbosity_read v val (int_of val)
    else if same opt (text "--filter")
    then (if is_empty val then leaves categories else goes_on (record v { filters = val }))
    else if same opt (text "--counting")
    then (if one_of val (text "total" ∷ text "toplevel" ∷ text "detailed" ∷ [])
        then goes_on (record v { counting_style = val })
        else leaves
            (usage (some (text "Valid counting options are total, toplevel, and detailed"))))
    else goes_on v

unfoldable pub read_options : Settings → Options → Round
read_options v [] = goes_on v
read_options v ((opt, val) ∷ rest) = elim (read_option v opt val) [
  | goes_on v' ↦ read_options v' rest
  | leaves p ↦ leaves p
]

unfoldable pub filters_set : LintState × Option Text → Text → List Text → Parsed
unfolding LintState.set_counting_style
filters_set (s, some bad) counting_style filenames = value_error bad
filters_set (s, none) counting_style filenames =
    files (LintState.set_counting_style s counting_style) filenames

-- The settings are stored once all options have been read and there is a file.
unfoldable pub store_settings : LintState → List Text → Settings → Parsed
unfolding filters_set LintState.set_verbose_level LintState.set_output_format
store_settings s [] v = usage (some (text "No files were specified."))
store_settings s (f ∷ fs) v =
    filters_set
      (set_filters
        (LintState.set_verbose_level (LintState.set_output_format s v.output_format) v.verbosity).0
        v.filters)
      v.counting_style (f ∷ fs)

unfoldable pub after_options : LintState → List Text → Round → Parsed
unfolding store_settings
after_options s filenames (leaves p) = p
after_options s filenames (goes_on v) = store_settings s filenames v

-- ParseArguments, for the outcome of getopt: `none` is a GetoptError.
unfoldable pub parse_arguments : LintState → Option (Options × List Text) → Parsed
unfolding after_options
parse_arguments s none = usage (some (text "Invalid arguments."))
parse_arguments s (some (opts, filenames)) = after_options s filenames (
    read_options
      (record {
        verbosity = s.verbose_level;
        output_format = s.output_format;
        filters = [];
        counting_style = [];
      })
      opts)

-- sys.exit(_cpplint_state.error_count > 0)
unfoldable pub exit_status : LintState → ℕ
exit_status s = if ltb 0 s.error_count then 1 else 0
