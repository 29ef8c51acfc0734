-- ===== src/LintState/Counts.antt =====
-- --counting: what IncrementErrorCount adds up.
use tpool.Base.{List, [], arith, if◌then◌else◌, length, map, refl, true, ℕ, ◌+◌, ◌∷◌, ◌≡◌}
use tpool.Text.{Text, same}
use tpool.Text.Laws.{same_iff}
use tpool.Dict.{Dict, get, get-put, put}
use tpool.LintState.{
  LintState, by_category, counted_as, increment_error_count, or_zero, reset_error_counts,
}

pub total : Dict ℕ → ℕ
total [] = 0
total ((k, n) ∷ d) = n + total d

-- How often a key is among those counted.
pub occurrences : Text → List Text → ℕ
occurrences k [] = 0
occurrences k (j ∷ js) = (if same j k then 1 else 0) + occurrences k js

-- IncrementErrorCount for each of the categories in turn.
unfoldable pub increments : LintState → List Text → LintState
increments s [] = s
increments s (c ∷ cs) = increments (increment_error_count s c) cs

total-put : (d : Dict ℕ) (k : Text) → total (put d k (or_zero (get d k) + 1)) ≡ total d + 1
unfolding total put get
total-put [] k = omega arith
total-put ((j, n) ∷ d) k = ground (arith, total-put d k)

error_count-increments :
    (cs : List Text) (s : LintState) → (increments s cs).error_count ≡ s.error_count + length cs
unfolding increments increment_error_count
error_count-increments [] s = omega arith
error_count-increments (c ∷ cs) s =
    omega (arith, error_count-increments cs (increment_error_count s c))

module _ (key : Text → Text) where
  -- The dictionary alone, for keys that are made from the categories by `key`.
  bump_all : Dict ℕ → List Text → Dict ℕ
  bump_all d [] = d
  bump_all d (c ∷ cs) = bump_all (put d (key c) (or_zero (get d (key c)) + 1)) cs

  total-bump_all : (cs : List Text) (d : Dict ℕ) → total (bump_all d cs) ≡ total d + length cs
  unfolding bump_all
  total-bump_all [] d = omega arith
  total-bump_all (c ∷ cs) d =
      omega (
        arith,
        total-bump_all cs (put d (key c) (or_zero (get d (key c)) + 1)),
        total-put d (key c),
      )

  get-bump_all :
      (cs : List Text) (d : Dict ℕ) (k : Text)
      → or_zero (get (bump_all d cs) k) ≡ or_zero (get d k) + occurrences k (map key cs)
  unfolding bump_all occurrences
  get-bump_all [] d k = omega arith
  get-bump_all (c ∷ cs) d k = ground (
    arith,
    get-bump_all cs (put d (key c) (or_zero (get d (key c)) + 1)) k,
    get-put d (key c) k (or_zero (get d (key c)) + 1),
    same_iff (key c) k,
  )

errors_by_category-increments :
    (cs : List Text) (s : LintState)
    → by_category s.counting ≡ true
    → (increments s cs).errors_by_category
      ≡ bump_all (counted_as s.counting) s.errors_by_category cs
unfolding increments increment_error_count bump_all
errors_by_category-increments [] s h = refl
errors_by_category-increments (c ∷ cs) s h =
    ground (arith, errors_by_category-increments cs (increment_error_count s c))

-- In the styles 'toplevel' and 'detailed', after ResetErrorCounts and any errors the total is the
-- number of the errors, each category's count is the number of the errors counted under it, and
-- these counts add up to the total.
pub increments_exact :
    (s : LintState) (cs : List Text) (k : Text)
    → by_category s.counting ≡ true
    → let s' = increments (reset_error_counts s) cs in
      (s'.error_count ≡ length cs)
      × (total s'.errors_by_category ≡ s'.error_count)
      × (or_zero (get s'.errors_by_category k) ≡ occurrences k (map (counted_as s.counting) cs))
unfolding reset_error_counts total get
increments_exact s cs k h =
    let s0 = reset_error_counts s in
    let key = counted_as s.counting in
    let counted = error_count-increments cs s0 in
    (
      omega (arith, counted),
      rw (errors_by_category-increments cs s0 h) (omega (arith, counted, total-bump_all key cs [])),
      rw (errors_by_category-increments cs s0 h) (omega (arith, get-bump_all key cs [] k)),
    )
