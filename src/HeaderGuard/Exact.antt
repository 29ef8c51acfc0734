-- ===== src/HeaderGuard/Exact.antt =====
-- Which files pass CheckForHeaderGuard.
use tpool.HeaderGuard.{
  Guards, argument_of, at_top, check_endif, check_for_header_guard, check_guards, check_ifndef,
  check_pair, endif_text, guard_report, is_text, no_guards, read_line, read_lines,
}
use tpool.Base.{
  Bool, Bool-cases, List, Option, [], ap, arith, false, if◌then◌else◌, inl, inr, none, not, refl,
  some, suc, sym, true, ℕ, ◌++◌, ◌↔◌, ◌∙◌, ◌∷◌, ◌≡◌, ◌≢◌,
}
use tpool.Text.{Text, same, split_words, starts_with, text}
use tpool.Report.{Effect, only_if}
use tpool.Text.Laws.{same_iff}

-- The argument of the first line of a file that is the directive with an argument.
pub first_argument : Text → List Text → Option Text
first_argument directive [] = none
first_argument directive (line ∷ lines) =
    let later = first_argument directive lines in
    elim (argument_of directive (split_words [] line)) [ some arg ↦ some arg | none ↦ later ]

-- The last line that starts with `#endif`.
pub last_endif : List Text → Option Text
last_endif [] = none
last_endif (line ∷ lines) = elim (last_endif lines) [
  | some l ↦ some l
  | none ↦ (if starts_with line (text "#endif") then some line else none)
]

abbrev or_else : Option Text → Option Text → Option Text
or_else none b = b
or_else (some a) b = some a

or_else-none : (a : Option Text) → or_else a none ≡ a
or_else-none none = refl
or_else-none (some a) = refl

-- One line: each directive is read by its own helper, and the others leave its field alone.
module _ (n : ℕ) (line : Text) (g : Guards) where
  ifndef-read_line :
      (read_line n line g).ifndef
      ≡ or_else g.ifndef (argument_of (text "#ifndef") (split_words [] line))
  unfolding read_line
  ifndef-read_line = ground arith

  define-read_line :
      (read_line n line g).define
      ≡ or_else g.define (argument_of (text "#define") (split_words [] line))
  unfolding read_line
  define-read_line = ground arith

  endif-read_line :
      (read_line n line g).endif ≡ (if starts_with line (text "#endif") then some line else g.endif)
  unfolding read_line
  endif-read_line = ground arith

read_lines-first :
    (lines : List Text) (n : ℕ) (g : Guards)
    → ((read_lines n lines g).ifndef ≡ or_else g.ifndef (first_argument (text "#ifndef") lines))
      × ((read_lines n lines g).define ≡ or_else g.define (first_argument (text "#define") lines))
      × ((read_lines n lines g).endif ≡ or_else (last_endif lines) g.endif)
unfolding read_lines first_argument last_endif
read_lines-first [] n g = (ground arith, ground arith, refl)
read_lines-first (line ∷ lines) n g =
    let (i, d, e) = read_lines-first lines (suc n) (read_line n line g) in
    (
      ground (arith, i, ifndef-read_line n line g),
      ground (arith, d, define-read_line n line g),
      ground (arith, e, endif-read_line n line g),
    )

-- A report is never empty, also where the NOLINT comment adds nothing in front of it.
append-ne-nil : (es : List Effect) (e : Effect) → es ++ (e ∷ []) ≢ []
append-ne-nil [] e h = cc
append-ne-nil (x ∷ es) e h = cc

append-nil-inv : (es fs : List Effect) → es ++ fs ≡ [] → (es ≡ []) × (fs ≡ [])
append-nil-inv [] fs h = (refl, h)
append-nil-inv (x ∷ es) fs h = cc

only_if_nil : (b : Bool) (es : List Effect) → es ≢ [] → (only_if (not b) es ≡ []) ↔ (b ≡ true)
only_if_nil true es h = (λ e. refl, λ e. refl)
only_if_nil false es h = (λ e. absurd (h e), λ e. cc)

guard_report-ne-nil :
    (lines : List Text) (n : ℕ) (b : Bool) (message : Text) → guard_report lines n b message ≢ []
unfolding guard_report
guard_report-ne-nil lines n b message = append-ne-nil _ _

check_ifndef_nil :
    (lines : List Text) (cppvar : Text) (n : ℕ) (ifndef : Text)
    → (check_ifndef lines cppvar n ifndef ≡ []) ↔ (ifndef ≡ cppvar)
unfolding check_ifndef
check_ifndef_nil lines cppvar n ifndef =
    let quiet = only_if_nil (same ifndef cppvar) _ (guard_report-ne-nil lines n _ _) in
    let equal = same_iff ifndef cppvar in (λ h. equal.0 (quiet.0 h), λ e. quiet.1 (equal.1 e))

is_text_iff : (o : Option Text) (t : Text) → (is_text o t ≡ true) ↔ (o ≡ some t)
unfolding is_text
is_text_iff none t = (λ h. cc, λ h. cc)
is_text_iff (some s) t = (λ h. ap some ((same_iff s t).0 h), λ h. (same_iff s t).1 (cc))

check_endif_nil :
    (lines : List Text) (cppvar : Text) (n : ℕ) (endif : Option Text)
    → (check_endif lines cppvar n endif ≡ []) ↔ (endif ≡ some (endif_text cppvar))
unfolding check_endif
check_endif_nil lines cppvar n endif =
    let quiet =
      only_if_nil (is_text endif (endif_text cppvar)) _ (guard_report-ne-nil lines n _ _) in
    let equal = is_text_iff endif (endif_text cppvar) in
    (λ h. equal.0 (quiet.0 h), λ e. quiet.1 (equal.1 e))

at_top-ne-nil : (message : Text) → at_top message ≢ []
unfolding at_top
at_top-ne-nil message h = cc

module _ (lines : List Text) (cppvar : Text) (g : Guards) where
  check_pair_nil :
      (ifndef define : Text)
      → (check_pair lines cppvar g ifndef define ≡ [])
        ↔ ((ifndef ≡ cppvar) × (define ≡ cppvar) × (g.endif ≡ some (endif_text cppvar)))
  unfolding check_pair
  check_pair_nil ifndef define = (forward, backward)
    where
      last_part :
          (message : Text)
          → (if not (same define ifndef)
              then at_top message
              else check_endif lines cppvar g.endif_linenum g.endif)
            ≡ []
          → (define ≡ ifndef) × (check_endif lines cppvar g.endif_linenum g.endif ≡ [])
      last_part message h = elim (Bool-cases (same define ifndef)) [
        | inl eq ↦ ((same_iff define ifndef).0 eq, rw eq at h)
        | inr ne ↦ absurd (at_top-ne-nil message (rw ne at h))
      ]

      forward :
          check_pair lines cppvar g ifndef define ≡ []
          → (ifndef ≡ cppvar) × (define ≡ cppvar) × (g.endif ≡ some (endif_text cppvar))
      forward h =
          let (x, y) = append-nil-inv (check_ifndef lines cppvar g.ifndef_linenum ifndef) _ h in
          let a = (check_ifndef_nil lines cppvar g.ifndef_linenum ifndef).0 x in
          let (b, c) = last_part _ y in
          (a, b ∙ a, (check_endif_nil lines cppvar g.endif_linenum g.endif).0 c)

      backward :
          (ifndef ≡ cppvar) × (define ≡ cppvar) × (g.endif ≡ some (endif_text cppvar))
          → check_pair lines cppvar g ifndef define ≡ []
      backward (a, b, c) = rw (
        (check_ifndef_nil lines cppvar g.ifndef_linenum ifndef).1 a,
        (same_iff define ifndef).1 (b ∙ sym a),
        (check_endif_nil lines cppvar g.endif_linenum g.endif).1 c,
      )

  check_guards_nil :
      (ifndef define : Option Text)
      → (check_guards lines cppvar g ifndef define ≡ [])
        ↔ ((ifndef ≡ some cppvar) × (define ≡ some cppvar) × (g.endif ≡ some (endif_text cppvar)))
  unfolding check_guards
  check_guards_nil none define = (λ h. absurd (at_top-ne-nil _ h), λ h. cc)
  check_guards_nil (some i) none = (λ h. absurd (at_top-ne-nil _ h), λ h. cc)
  check_guards_nil (some i) (some d) =
      let pair = check_pair_nil i d in
      (λ h. let (a, b, c) = pair.0 h in (ap some a, ap some b, c), λ h. pair.1 (cc, cc, h.2))

-- CheckForHeaderGuard reports nothing exactly when the first `#ifndef` and the first `#define` of
-- the file both name the expected variable, and the last line that starts with `#endif` is
-- `#endif  // ` and that variable.
pub check_for_header_guard_iff :
    (cppvar : Text) (lines : List Text)
    → (check_for_header_guard cppvar lines ≡ []) ↔ (
        (first_argument (text "#ifndef") lines ≡ some cppvar)
        × (first_argument (text "#define") lines ≡ some cppvar)
        × (last_endif lines ≡ some (endif_text cppvar)))
unfolding check_for_header_guard
check_for_header_guard_iff cppvar lines =
    let (i, d, e) = read_lines-first lines 0 no_guards in
    let g = read_lines 0 lines no_guards in
    let exact = check_guards_nil lines cppvar g g.ifndef g.define in
    let endif = or_else-none (last_endif lines) in
    (
      λ h. let (a, b, c) = exact.0 h in (sym i ∙ a, sym d ∙ b, sym endif ∙ sym e ∙ c),
      λ (a, b, c). exact.1 (i ∙ a, d ∙ b, e ∙ endif ∙ c),
    )
