-- ===== src/IncludeUse/Required.antt =====
-- What the lines of a file require of its includes.
use tpool.Base.{
  Bool, List, Option, [], false, if◌then◌else◌, none, refl, some, suc, true, ℕ, ◌∙◌, ◌∷◌, ◌≡◌,
}
use tpool.Text.{Text, same}
use tpool.Dict.{get, get-put, put}
use tpool.IncludeUse.{Required, line_needs, require_all, require_lines}

abbrev or_else {ℓ} : {A : Type ℓ} → Option A → Option A → Option A
or_else (some a) b = some a
or_else none b = b

-- The last of a line's needs that asks for the header. The needs stand in the order in which the
-- line is searched: string, then the algorithms, then the templates of the tables.
unfoldable pub last_need : List (Text × Text) → Text → Option Text
unfolding same
last_need [] header = none
last_need ((h, template) ∷ rest) header =
    or_else (last_need rest header) (if same h header then some template else none)

abbrev at_line : ℕ → Option Text → Option (ℕ × Text)
at_line linenum none = none
at_line linenum (some template) = some (linenum, template)

-- The line nearest to the end that asks for the header, with the last of its needs that does.
unfoldable pub latest : ℕ → List Text → Text → Option (ℕ × Text)
unfolding line_needs
latest linenum [] header = none
latest linenum (line ∷ lines) header =
    or_else (latest (suc linenum) lines header)
      (at_line linenum (last_need (line_needs line) header))

at_line-or_else :
    (n : ℕ) (o : Option Text) (t : Text) (b : Bool) (old : Option (ℕ × Text))
    → or_else (at_line n o) (if b then some (n, t) else old)
      ≡ or_else (at_line n (or_else o (if b then some t else none))) old
at_line-or_else n (some u) t b old = refl
at_line-or_else n none t true old = refl
at_line-or_else n none t false old = refl

or_else_assoc : (a b c : Option (ℕ × Text)) → or_else a (or_else b c) ≡ or_else (or_else a b) c
or_else_assoc (some x) b c = refl
or_else_assoc none b c = refl

get-require_all :
    (n : ℕ) (needs : List (Text × Text)) (required : Required) (header : Text)
    → get (require_all n needs required) header
      ≡ or_else (at_line n (last_need needs header)) (get required header)
unfolding require_all last_need
get-require_all n [] required header = refl
get-require_all n ((h, template) ∷ rest) required header =
    rw
      (
        get-require_all n rest (put required h (n, template)) header,
        get-put required h header (n, template),
      )
      (at_line-or_else n (last_need rest header) template (same h header) (get required header))

get-require_lines :
    (n : ℕ) (lines : List Text) (required : Required) (header : Text)
    → get (require_lines n lines required) header
      ≡ or_else (latest n lines header) (get required header)
unfolding require_lines latest
get-require_lines n [] required header = refl
get-require_lines n (line ∷ lines) required header =
    rw
      (
        get-require_lines (suc n) lines (require_all n (line_needs line) required) header,
        get-require_all n (line_needs line) required header,
      )
      (or_else_assoc (latest (suc n) lines header) _ _)

or_none : (o : Option (ℕ × Text)) → or_else o none ≡ o
or_none none = refl
or_none (some a) = refl

-- After all the lines, what is required of a header is the last line that asks for it, and nothing
-- if no line does. The name given is, of those found on that line, the last in the order of the
-- search: string, then the table of algorithms, then the table of templates, wherever they stand on
-- the line.
pub get-require_lines-latest :
    (lines : List Text) (header : Text)
    → get (require_lines 0 lines []) header ≡ latest 0 lines header
unfolding get
get-require_lines-latest lines header =
    get-require_lines 0 lines [] header ∙ or_none (latest 0 lines header)
