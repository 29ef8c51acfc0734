-- ===== src/FunctionState/Size.antt =====
-- What the report on a long function says, and when it cannot be made.
use native.Mathlib.Nat.{
  le-mul_of_pos_right, pow-suc, pow-le-pow_right, le-div_iff_mul-le, mul_comm, div-lt_iff_lt-mul,
}
use tpool.Base.{
  Bool-cases, List, Option, [], arith, inl, inr, leb, leb→le, ltb, ltb→lt, lt→ltb, min, negsuc,
  none, pos, refl, some, subst, suc, true, zero, ℕ, ℤ, ◌*◌, ◌/◌, ◌<◌, ◌^◌, ◌↔◌, ◌∷◌, ◌≡◌, ◌≤◌, ◌⊎◌,
}
use tpool.Text.{Text}
use tpool.FunctionState.{
  FunctionState, base_trigger, check, error_level, exceeds, floor_log2, size_message,
}
use tpool.Report.{Effect, diagnose}

-- The level is the whole part of the logarithm to base 2.
floor_log2_bounds :
    (fuel q : ℕ) → 0 < q → q ≤ fuel → (2 ^ floor_log2 fuel q ≤ q) × (q < 2 * 2 ^ floor_log2 fuel q)
unfolding floor_log2
floor_log2_bounds zero q p h = absurd (omega arith)
floor_log2_bounds (suc fuel) q p h = elim (Bool-cases (ltb q 2)) [
  | inl small ↦ rw small (ground arith)
  | inr large ↦
      let half = floor_log2_bounds fuel (q / 2) (ground arith) (ground arith) in
      rw (large, pow-suc 2 (floor_log2 fuel (q / 2))) (ground arith)
]

base_trigger_pos : (function : Text) → 0 < base_trigger function
unfolding base_trigger
base_trigger_pos function = ground arith

level-le-floor_log2 : (q v : ℕ) → 2 ^ v ≤ q → 0 < q → v ≤ floor_log2 q q
level-le-floor_log2 q v h p =
    let (low, high) = floor_log2_bounds q q p (omega arith) in
    elim (Bool-cases (leb v (floor_log2 q q))) [
      | inl le ↦ leb→le _ _ le
      | inr gt ↦ absurd (
          omega (
            arith,
            pow-le-pow_right {n = 2} (omega arith) {i = suc (floor_log2 q q)} {j = v}
                (ground arith),
            pow-suc 2 (floor_log2 q q),
          ))
    ]

quotient : (n base v : ℕ) → 0 < base → base * 2 ^ v < n → 2 ^ v ≤ n / base
quotient n base v p h =
    (le-div_iff_mul-le {k = base} {x = 2 ^ v} {y = n} p).1 (omega (arith, mul_comm base (2 ^ v)))

pow-pos : (v : ℕ) → 0 < 2 ^ v
pow-pos v = pow-le-pow_right {n = 2} (omega arith) {i = 0} {j = v} (omega arith)

-- The message is some text; what counts is the place, the category and the level.
abbrev pub ReportsSize : ℕ → ℕ → Option (List Effect) → Type 0
ReportsSize linenum level r =
    (message : Text) × (r ≡ some (diagnose linenum "readability/fn_size" level message ∷ []))

error_level_large :
    (n base v : ℕ)
    → 0 < base
    → base * 2 ^ v < n
    → (level : ℕ) × (error_level n base ≡ some level) × (min 5 v ≤ level) × (level ≤ 5)
unfolding error_level
error_level_large n base v p h =
    let q = n / base in
    let big : 2 ^ v ≤ q = quotient n base v p h in
    let pos : 0 < q = omega (arith, pow-pos v) in
    (
      min 5 (floor_log2 q q),
      ground arith,
      omega (arith, level-le-floor_log2 q v big pos),
      omega arith,
    )

-- At a verbosity level v of 0 or more the check never raises. A body of at most base * 2^v lines is
-- passed over, where base is 400 for tests and 250 otherwise; a longer one is reported once, with a
-- confidence of at least min(5, v) and at most 5, so that a level up to 5 does not filter it out.
pub check_lem :
    (s : FunctionState) (v linenum : ℕ)
    → let limit = base_trigger s.current_function * 2 ^ v in
      ((s.lines_in_function ≤ limit) × (check s (pos v) linenum ≡ some []))
      ⊎ ((limit < s.lines_in_function)
          × ((level : ℕ) × ReportsSize linenum level (check s (pos v) linenum)
              × (min 5 v ≤ level)
              × (level ≤ 5)))
unfolding check
check_lem s v linenum = elim (Bool-cases (ltb (base * 2 ^ v) s.lines_in_function)) [
  | inl h ↦ inr (ltb→lt _ _ h, long (ltb→lt _ _ h))
  | inr h ↦ inl (ground arith, ground arith)
]
  where
    base : ℕ
    base = base_trigger s.current_function

    long :
        base * 2 ^ v < s.lines_in_function
        → (level : ℕ) × ReportsSize linenum level (check s (pos v) linenum)
          × (min 5 v ≤ level)
          × (level ≤ 5)
    long h =
        let (level, e, low, high) =
          error_level_large s.lines_in_function base v (base_trigger_pos s.current_function) h in
        (level, (size_message s base (pos v), rw (lt→ltb _ _ h, e) refl), low, high)

error_level-none : (n base : ℕ) → 0 < base → (error_level n base ≡ none) ↔ (n < base)
unfolding error_level
error_level-none n base p =
    let small : (n / base < 1) ↔ (n < 1 * base) = div-lt_iff_lt-mul {k = base} {x = n} {y = 1} p in
    (
      λ h. omega (arith, small.0 (ground arith)),
      λ h. let q : n / base < 1 = small.1 (omega arith) in ground arith,
    )

check_short :
    (s : FunctionState) (level : ℤ) (linenum : ℕ)
    → (check s level linenum ≡ none) ↔ (
        (exceeds s.lines_in_function (base_trigger s.current_function) level ≡ true)
        × (s.lines_in_function < base_trigger s.current_function))
unfolding check
check_short s level linenum = ground (
  arith,
  error_level-none s.lines_in_function (base_trigger s.current_function)
      (base_trigger_pos s.current_function),
)

-- At a level that is not negative, a body that exceeds the trigger is no shorter than the base.
never_short : (n base v : ℕ) → exceeds n base (pos v) ≡ true → base ≤ n
unfolding exceeds
never_short n base v over =
    let large : base ≤ base * 2 ^ v = le-mul_of_pos_right base (pow-pos v) in
    omega (arith, large, ltb→lt (base * 2 ^ v) n over)

-- Check raises a ValueError (none), from math.log of 0, exactly when the verbosity level is a
-- negative -k and the lines of the body are fewer than the base trigger, but more than the base
-- trigger divided by 2^k.
pub check_raises_iff :
    (s : FunctionState) (level : ℤ) (linenum : ℕ)
    → (check s level linenum ≡ none) ↔ (
        (n : ℕ) × (level ≡ negsuc n)
        × (s.lines_in_function < base_trigger s.current_function)
        × (base_trigger s.current_function < s.lines_in_function * 2 ^ suc n))
unfolding exceeds
check_raises_iff s (pos v) linenum = (
  λ e.
      let (over, short) = (check_short s (pos v) linenum).0 e in
      absurd (
        omega
          (arith, short, never_short s.lines_in_function (base_trigger s.current_function) v over)),
  λ (n, e, _, _). absurd cc,
)
check_raises_iff s (negsuc k) linenum = (
  λ e.
      let (over, short) = (check_short s (negsuc k) linenum).0 e in
      (k, refl, short, ltb→lt _ _ over),
  λ (n, e, short, over).
      let same : n ≡ k = cc in
      (check_short s (negsuc k) linenum).1 (
        lt→ltb _ _ (
            subst (λ i. base_trigger s.current_function < s.lines_in_function * 2 ^ suc i) same
              over),
        short,
      ),
)
