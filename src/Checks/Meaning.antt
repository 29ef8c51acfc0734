-- ===== src/Checks/Meaning.antt =====
-- What a suggested macro asserts, beside what the macro in the line asserts.
use tpool.Base.{
  Bool, Bool-cases, List, [], all, arith, get_elem?, if◌then◌else◌, inl, inr, leb, ltb, not, refl,
  some, suc, true, zero, ℕ, ◌&&◌, ◌++◌, ◌==◌, ◌∷◌, ◌≡◌,
}
use tpool.Text.{Text, contains, drop_last, ends_with, same, starts_with, text}
use tpool.Checks.{
  Macro, Operator, above, at_least, at_most, check_macros, check_replacement, equal,
  inv_replacement, replacement, under, unequal,
}
use tpool.Text.Laws.{same_iff}

-- The comparison that an operator makes.
unfoldable pub compares : Operator → ℕ → ℕ → Bool
compares equal a b = a == b
compares unequal a b = not (a == b)
compares at_least a b = leb b a
compares above a b = ltb b a
compares at_most a b = leb a b
compares under a b = ltb a b

inverse : Operator → Operator
inverse equal = unequal
inverse unequal = equal
inverse at_least = under
inverse above = at_most
inverse at_most = above
inverse under = at_least

inverse-compares : (o : Operator) (a b : ℕ) → compares (inverse o) a b ≡ not (compares o a b)
unfolding compares inverse
inverse-compares equal a b = refl
inverse-compares unequal a b = ground arith
inverse-compares at_least a b = ground arith
inverse-compares above a b = ground arith
inverse-compares at_most a b = ground arith
inverse-compares under a b = ground arith

inverse-replacement : (o : Operator) → replacement (inverse o) ≡ inv_replacement o
unfolding inverse replacement inv_replacement
inverse-replacement equal = refl
inverse-replacement unequal = refl
inverse-replacement at_least = refl
inverse-replacement above = refl
inverse-replacement at_most = refl
inverse-replacement under = refl

-- The macro asserts that its argument is false.
abbrev pub asserts_false : Macro → Bool
asserts_false m = contains m.name (text "FALSE")

-- The suggested name has the family of the macro, its `_M` or none, and the inverse operators for
-- an assertion of falsehood.
unfoldable named_well : Macro → Bool
unfolding contains
named_well m =
    (if m.inverse then asserts_false m else not (asserts_false m))
    && (starts_with m.name (drop_last 1 m.front)
        && same m.back (if ends_with m.name (text "_M") then text "_M" else []))

all-named_well : all named_well check_macros ≡ true
unfolding named_well check_macros text contains drop_last same ends_with
all-named_well = refl

get_elem?-all :
    (p : Macro → Bool) (ms : List Macro) (i : ℕ) (m : Macro)
    → all p ms ≡ true
    → get_elem? ms i ≡ some m
    → p m ≡ true
get_elem?-all p [] i m h e = absurd cc
get_elem?-all p (k ∷ ms) zero m h e = ground (arith, e)
get_elem?-all p (k ∷ ms) (suc i) m h e = get_elem?-all p ms i m (ground arith) e

abbrev pub suffix_of : Macro → Text
suffix_of m = if ends_with m.name (text "_M") then text "_M" else []

-- The facts of a name that is built well.
named_well-facts :
    (m : Macro)
    → named_well m ≡ true
    → (asserts_false m ≡ m.inverse)
      × (starts_with m.name (drop_last 1 m.front) ≡ true)
      × (m.back ≡ suffix_of m)
unfolding named_well
named_well-facts m h =
    (ground arith, ground arith, (same_iff m.back (suffix_of m)).0 (ground arith))

-- For each CHECK macro and operator, the name that is suggested is that of the same family with the
-- name of one operator, and `_M` at its end exactly if the macro has it; and on any two numbers that
-- operator is true exactly when the macro's assertion holds: where it asserts truth, if the original
-- comparison is true, and where it asserts falsehood, if it is false.
pub check_replacement-compares :
    (i : ℕ) (macro : Macro) (o : Operator)
    → get_elem? check_macros i ≡ some macro
    → (o' : Operator) × (check_replacement macro o ≡ macro.front ++ (replacement o' ++ macro.back))
      × (starts_with macro.name (drop_last 1 macro.front) ≡ true)
      × (macro.back ≡ (if ends_with macro.name (text "_M") then text "_M" else []))
      × ((a b : ℕ)
          → compares o' a b
            ≡ (if asserts_false macro then not (compares o a b) else compares o a b))
unfolding check_replacement
check_replacement-compares i macro o e =
    let (falsehood, family, suffix) =
      named_well-facts macro (get_elem?-all named_well check_macros i macro all-named_well e) in
    elim (Bool-cases macro.inverse) [
      | inl inv ↦ (
        inverse o,
        rw (inv, inverse-replacement o) refl,
        family,
        suffix,
        rw (falsehood, inv) (inverse-compares o),
      )
      | inr not_inv ↦ (o, rw not_inv refl, family, suffix, rw (falsehood, not_inv) (λ a b. refl))
    ]
