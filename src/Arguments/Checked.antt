-- ===== src/Arguments/Checked.antt =====
-- What a command line that is accepted leaves behind.
use tpool.Session.Output.{Extends, apply_effects_total}
use tpool.LintState.Filters.{first_bad-none}
use tpool.LintState
use tpool.LintState.{
  LintState, clean_filters, default_filters, first_bad, has_sign, set_counting_style, set_filters,
  set_output_format, set_verbose_level,
}
use tpool.Arguments.{
  Options, Parsed, Round, Settings, categories, files, filters_set, goes_on, leaves,
  parse_arguments, read_option, read_options, store_settings, usage, value_error,
}
use tpool.Base.{
  List, Option, [], all, arith, inl, inr, none, refl, some, true, ◌++◌, ◌∷◌, ◌≡◌, ◌≢◌, ◌⊎◌,
}
use tpool.Text.{Text, split_on}
use tpool.Report.{Effect}
use tpool.Session.{Session, apply_effects}

-- What is known of the state and the names that ParseArguments hands on.
abbrev pub Accepted : List Text → Parsed → Type 0
Accepted filenames (files s names) =
    (all has_sign s.filters ≡ true) × (names ≡ filenames) × (filenames ≢ [])
Accepted filenames (usage m) = Unit {0}
Accepted filenames categories = Unit {0}
Accepted filenames (value_error bad) = Unit {0}

filters_set-Accepted :
    (s : LintState) (bad : Option Text) (counting f : Text) (fs : List Text)
    → (bad ≡ none → all has_sign s.filters ≡ true)
    → Accepted (f ∷ fs) (filters_set (s, bad) counting (f ∷ fs))
unfolding filters_set LintState.set_counting_style
filters_set-Accepted s none counting f fs h = (h refl, refl, λ e. cc)
filters_set-Accepted s (some bad) counting f fs h = tt

store_settings-Accepted :
    (s : LintState) (names : List Text) (v : Settings) → Accepted names (store_settings s names v)
unfolding store_settings set_filters
store_settings-Accepted s [] v = tt
store_settings-Accepted s (f ∷ fs) v =
    let flags = default_filters ++ clean_filters (split_on b',' v.filters) in
    let configured =
      (LintState.set_verbose_level (LintState.set_output_format s v.output_format) v.verbosity).0 in
    filters_set-Accepted (record configured { filters = flags }) (first_bad flags) v.counting_style
      f fs (first_bad-none flags).0

-- An option that leaves the loop hands on no files.
read_option-ne-files :
    (v : Settings) (opt val : Text) (s : LintState) (names : List Text)
    → read_option v opt val ≢ leaves (files s names)
unfolding read_option
read_option-ne-files v opt val s names h = ground arith

Round-cases : (r : Round) → ((v : Settings) × (r ≡ goes_on v)) ⊎ ((p : Parsed) × (r ≡ leaves p))
Round-cases (goes_on v) = inl (v, refl)
Round-cases (leaves p) = inr (p, refl)

read_options-ne-files :
    (opts : Options) (v : Settings) (s : LintState) (names : List Text)
    → read_options v opts ≢ leaves (files s names)
unfolding read_options
read_options-ne-files [] v s names h = cc
read_options-ne-files ((opt, val) ∷ rest) v s names h = elim (Round-cases (read_option v opt val)) [
  | inl (v', e) ↦ read_options-ne-files rest v' s names (ground (arith, e))
  | inr (p, e) ↦ read_option-ne-files v opt val s names (ground (arith, e))
]

Accepted-files :
    (s : LintState) (names filenames : List Text) (p : Parsed)
    → p ≡ files s names
    → Accepted filenames p
    → (all has_sign s.filters ≡ true) × (names ≡ filenames) × (filenames ≢ [])
Accepted-files s names filenames p e a = rw e at a

-- When ParseArguments returns, every filter has a sign, the files are those of the command line, and
-- there is at least one.
pub parse_arguments-Accepted :
    (s s' : LintState) (opts : Options) (filenames names : List Text)
    → parse_arguments s (some (opts, filenames)) ≡ files s' names
    → (all has_sign s'.filters ≡ true) × (names ≡ filenames) × (filenames ≢ [])
unfolding parse_arguments
parse_arguments-Accepted s s' opts filenames names h =
    elim (Round-cases (read_options start opts)) [
      | inl (v, e) ↦
          Accepted-files s' names filenames (store_settings s filenames v) (ground (arith, e))
            (store_settings-Accepted s filenames v)
      | inr (p, e) ↦ absurd (read_options-ne-files opts start s' names (ground (arith, e)))
    ]
  where
    start : Settings
    start = record {
      verbosity = s.verbose_level;
      output_format = s.output_format;
      filters = [];
      counting_style = [];
    }

-- The state that an accepted command line leaves handles any reports and suppressions to their end:
-- no assertion of _ShouldPrintError fails, and each error counted is one line printed.
pub parse_arguments-apply_effects :
    (s : LintState) (opts : Options) (filenames names : List Text) (session : Session)
    → parse_arguments s (some (opts, filenames)) ≡ files session.lint names
    → (es : List Effect) (filename : Text)
    → (session' : Session) × (apply_effects session filename es ≡ some session')
      × Extends session session'
parse_arguments-apply_effects s opts filenames names session h es filename =
    apply_effects_total es session filename
      (parse_arguments-Accepted s session.lint opts filenames names h).0
