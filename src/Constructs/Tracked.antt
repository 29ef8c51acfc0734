-- ===== src/Constructs/Tracked.antt =====
-- What holds of the stack of classes between the lines.
use tpool.Pattern.Parse.{re}
use tpool.Base.{
  Bool-cases, Option, [], arith, false, get_or, if◌then◌else◌, inl, inr, leb, ltb, none, refl, some,
  suc, sym, true, ℕ, ◌+◌, ◌<◌, ◌∙◌, ◌∷◌, ◌≡◌, ◌≤◌,
}
use tpool.Text.{Text, contains, count, text}
use tpool.Pattern.{Found, match_start, occurs}
use tpool.Cleanse.{CleansedLines}
use tpool.Classes.{ClassInfo, ClassState, class_info}
use tpool.Constructs.{
  base_classname, check_for_non_standard_constructs, class_body, class_decl, close_class, innermost,
  push_class, read_head, read_virtual, track_class, unopened,
}

-- The line of a virtual method, if there is one, is from `first` on and before `now`.
abbrev pub IsWithin : ℕ → ℕ → Option ℕ → Type 0
IsWithin first now none = Unit {0}
IsWithin first now (some line) = (first ≤ line) × (line < now)

-- A class on the stack before line `now`: it began earlier, its brace has been seen exactly if it is
-- open, and its virtual method is one of its lines.
pub record IsOpen (now : ℕ) (info : ClassInfo) : Type 0 where
  pub begun : info.linenum < now
  pub seen : info.seen_open_brace ≡ ltb 0 info.brace_depth
  pub method : IsWithin info.linenum now info.virtual_method_linenumber

-- Each class is tracked up to its own line by those around it.
abbrev pub IsTracked : ℕ → ClassState → Type 0
IsTracked now [] = Unit {0}
IsTracked now (info ∷ outer) = IsOpen now info × IsTracked info.linenum outer

IsWithin-later :
    (first : ℕ) {m n : ℕ} (o : Option ℕ) → m ≤ n → IsWithin first m o → IsWithin first n o
IsWithin-later first none h w = tt
IsWithin-later first (some line) h w = (w.0, omega arith)

pub IsTracked-later : {m n : ℕ} (s : ClassState) → m ≤ n → IsTracked m s → IsTracked n s
IsTracked-later [] h t = tt
IsTracked-later (info ∷ outer) h (o, rest) = (
  record {
    begun = omega (arith, o.begun);
    seen = o.seen;
    method = IsWithin-later info.linenum info.virtual_method_linenumber h o.method;
  },
  rest,
)

push_class-IsTracked :
    (cl : CleansedLines) (n : ℕ) (m : Option Found) (s : ClassState)
    → IsTracked n s
    → IsTracked (suc n) (push_class cl n m s)
unfolding push_class class_info
push_class-IsTracked cl n none s t = IsTracked-later s (omega arith) t
push_class-IsTracked cl n (some m) s t =
    (record { begun = omega arith; seen = refl; method = tt }, t)

-- What a body line changes of the class, with its start and its braces kept.
read_virtual-method :
    (line : Text) (n : ℕ) (base : Text) (info : ClassInfo)
    → info.linenum < suc n
    → IsWithin info.linenum (suc n) info.virtual_method_linenumber
    → IsWithin info.linenum (suc n) (read_virtual line n base info).virtual_method_linenumber
unfolding read_virtual
read_virtual-method line n base info b w = elim (Bool-cases (occurs (re "\\bvirtual\\b") line)) [
  | inl found_it ↦ rw found_it (omega arith, omega arith)
  | inr not_there ↦ rw not_there w
]

read_virtual-kept :
    (line : Text) (n : ℕ) (base : Text) (info : ClassInfo)
    → ((read_virtual line n base info).linenum ≡ info.linenum)
      × ((read_virtual line n base info).seen_open_brace ≡ info.seen_open_brace)
unfolding read_virtual
read_virtual-kept line n base info = elim (Bool-cases (occurs (re "\\bvirtual\\b") line)) [
  | inl found_it ↦ rw found_it (refl, refl)
  | inr not_there ↦ rw not_there (refl, refl)
]

close_class-IsTracked :
    (line : Text) (now : ℕ) (info : ClassInfo) (outer : ClassState)
    → info.linenum < now
    → info.seen_open_brace ≡ true
    → IsWithin info.linenum now info.virtual_method_linenumber
    → IsTracked info.linenum outer
    → IsTracked now (close_class line info outer).0
unfolding close_class
close_class-IsTracked line now info outer b seen w rest =
    elim (Bool-cases (leb (info.brace_depth + count line (text "{")) (count line (text "}")))) [
      | inl closed ↦ rw closed (IsTracked-later outer (omega arith) rest)
      | inr still ↦ rw still (record { begun = b; seen = ground arith; method = w }, rest)
    ]

class_body-IsTracked :
    (line : Text) (n : ℕ) (info : ClassInfo) (outer : ClassState)
    → info.linenum < suc n
    → info.seen_open_brace ≡ true
    → IsWithin info.linenum (suc n) info.virtual_method_linenumber
    → IsTracked info.linenum outer
    → IsTracked (suc n) (class_body line n info outer).0
unfolding class_body
class_body-IsTracked line n info outer b seen w rest =
    let base = base_classname info.name in
    let (same_start, same_seen) = read_virtual-kept line n base info in
    close_class-IsTracked line (suc n) (read_virtual line n base info) outer (rw same_start b)
      (same_seen ∙ seen) (rw same_start (read_virtual-method line n base info b w))
      (rw same_start rest)

unopened-IsTracked :
    (line : Text) (n : ℕ) (info : ClassInfo) (outer : ClassState)
    → IsOpen (suc n) info
    → info.seen_open_brace ≡ false
    → IsTracked info.linenum outer
    → IsTracked (suc n) (unopened line n info outer).0
unfolding unopened read_head
unopened-IsTracked line n info outer o unseen rest = elim (Bool-cases (contains line (text ";"))) [
  | inl forward ↦ rw forward (IsTracked-later outer (omega (arith, o.begun)) rest)
  | inr goes_on ↦ rw goes_on (
      elim (contains line (text "{"))
          as (λ b.
            contains line (text "{") ≡ b
            → IsTracked (suc n)
                (if b
                  then class_body line n (read_head line info) outer
                  else (read_head line info ∷ outer, [])).0) [
                    | true ↦ λ opens.
                        class_body-IsTracked line n (read_head line info) outer o.begun opens
                          o.method rest
                    | false ↦ λ later. (
                      record {
                        begun = o.begun;
                        seen = later ∙ (sym unseen ∙ o.seen);
                        method = o.method;
                      },
                      rest,
                    )
                  ]
        refl)
]

innermost-IsTracked :
    (line : Text) (n : ℕ) (s : ClassState)
    → IsTracked (suc n) s
    → IsTracked (suc n) (innermost line n s).0
unfolding innermost
innermost-IsTracked line n [] t = tt
innermost-IsTracked line n (info ∷ outer) (o, rest) =
    elim info.seen_open_brace
        as (λ b.
          info.seen_open_brace ≡ b
          → IsTracked (suc n)
              (if b then class_body line n info outer else unopened line n info outer).0) [
                | true ↦ λ seen. class_body-IsTracked line n info outer o.begun seen o.method rest
                | false ↦ λ unseen. unopened-IsTracked line n info outer o unseen rest
              ]
      refl

-- One line keeps the stack tracked.
pub check_for_non_standard_constructs-IsTracked :
    (cl : CleansedLines) (n : ℕ) (s : ClassState)
    → IsTracked n s
    → IsTracked (suc n) (check_for_non_standard_constructs cl n s).0
unfolding check_for_non_standard_constructs track_class
check_for_non_standard_constructs-IsTracked cl n s t =
    innermost-IsTracked (get_or cl.elided n []) n _
      (push_class-IsTracked cl n (match_start class_decl (get_or cl.elided n [])) s t)
