-- ===== src/Comments/Quiet.antt =====
-- The lines that RemoveMultiLineComments leaves, and its report.
use tpool.Comments.{
  clear_range, closes, dummy, find_next, no_end, opens, remove_from, remove_multi_line_comments,
}
use tpool.Comments.Blanked.{
  Blanked, Blanked-refl, Blanked-trans, clear_range-Blanked, length-Blanked,
}
use tpool.Base.{
  Bool, Bool-cases, List, [], all, arith, false, get_or, inl, inr, leb, leb→le, length, le→leb, not,
  refl, some, suc, take, true, zero, ℕ, ◌+◌, ◌<◌, ◌∷◌, ◌≡◌, ◌≤◌, ◌⊎◌,
}
use tpool.Text.{Text, is_space, text}
use tpool.Report.{Effect}

-- None of the first `n` lines starts a comment that goes beyond it.
abbrev pub quiet : ℕ → List Text → Bool
quiet n lines = all (λ l. not (opens l)) (take n lines)

quiet-zero : (ls : List Text) → quiet 0 ls ≡ true
quiet-zero ls = refl

find_next-le : (t : Text → Bool) (ls : List Text) (k : ℕ) → find_next t ls k ≤ length ls
unfolding find_next
find_next-le t [] k = omega arith
find_next-le t (l ∷ ls) zero = ground (arith, find_next-le t ls 0)
find_next-le t (l ∷ ls) (suc k) = omega (arith, find_next-le t ls k)

le-find_next : (t : Text → Bool) (ls : List Text) (k : ℕ) → k ≤ length ls → k ≤ find_next t ls k
unfolding find_next
le-find_next t [] k h = omega arith
le-find_next t (l ∷ ls) zero h = omega arith
le-find_next t (l ∷ ls) (suc k) h = omega (arith, le-find_next t ls k)

quiet-find_next :
    (ls : List Text) (k : ℕ) → quiet k ls ≡ true → quiet (find_next opens ls k) ls ≡ true
unfolding find_next
quiet-find_next [] k h = refl
quiet-find_next (l ∷ ls) zero h = ground (arith, quiet-find_next ls 0)
quiet-find_next (l ∷ ls) (suc k) h = ground (arith, quiet-find_next ls k)

opens-dummy : opens dummy ≡ false
unfolding opens dummy is_space text
opens-dummy = refl

quiet-clear_range :
    (ls : List Text) (b e : ℕ) → quiet b ls ≡ true → b ≤ e → quiet e (clear_range ls b e) ≡ true
unfolding clear_range
quiet-clear_range [] b zero h le = refl
quiet-clear_range [] b (suc e) h le = refl
quiet-clear_range (l ∷ ls) b zero h le = refl
quiet-clear_range (l ∷ ls) zero (suc e) h le = ground (arith, opens-dummy, quiet-clear_range ls 0 e)
quiet-clear_range (l ∷ ls) (suc b) (suc e) h le = ground (arith, quiet-clear_range ls b e)

find_next_hit :
    (t : Text → Bool) (ls : List Text) (k : ℕ)
    → find_next t ls k < length ls
    → t (get_or ls (find_next t ls k) []) ≡ true
unfolding find_next
find_next_hit t [] k h = absurd (omega arith)
find_next_hit t (l ∷ ls) zero h = elim (Bool-cases (t l)) [
  | inl hit ↦ rw hit hit
  | inr miss ↦ rw miss (find_next_hit t ls 0 (rest miss))
]
  where
    rest : t l ≡ false → find_next t ls 0 < length ls
    rest miss = ground arith
find_next_hit t (l ∷ ls) (suc k) h = find_next_hit t ls k (omega arith)

-- What is promised of the outcome for the lines `ls`: each line is kept or replaced by the dummy
-- comment. With no report, no line starts a comment that goes beyond it; and a report is for the
-- first such line that is left, where no line from there on ends a comment.
pub record Cleared (ls : List Text) (out : List Text) (es : List Effect) : Type 0 where
  pub blanked : Blanked ls out
  pub outcome :
      ((es ≡ []) × (quiet (length out) out ≡ true))
      ⊎ ((i : ℕ) × (es ≡ no_end i ∷ [])
          × (i < length out)
          × (quiet i out ≡ true)
          × (opens (get_or out i []) ≡ true)
          × (find_next closes out i ≡ length out))

abbrev Outcome : List Text → ℕ → ℕ → Type 0
Outcome ls fuel k =
    (out : List Text) × (es : List Effect) × (remove_from fuel ls k ≡ some (out, es))
    × Cleared ls out es

-- The three ways through one round.
module _ (fuel : ℕ) (ls : List Text) (k : ℕ) (q : quiet k ls ≡ true) (le : k ≤ length ls) where
  begin : ℕ
  begin = find_next opens ls k

  end : ℕ
  end = find_next closes ls begin

  k-le-begin : k ≤ begin
  unfolding begin
  k-le-begin = le-find_next opens ls k le

  begin-le-end : begin ≤ end
  unfolding begin end
  begin-le-end = le-find_next closes ls begin (find_next-le opens ls k)

  cleared : List Text
  cleared = clear_range ls begin (end + 1)

  length_after : length cleared ≡ length ls
  unfolding cleared
  length_after = length-Blanked ls _ (clear_range-Blanked ls begin (end + 1))

  quiet_after : quiet (end + 1) cleared ≡ true
  unfolding begin cleared
  quiet_after =
      quiet-clear_range ls begin (end + 1) (quiet-find_next ls k q) (omega (arith, begin-le-end))

  room : end < length ls → end + 1 ≤ length cleared
  room h = omega (arith, length_after)

  fuel_left : length ls < suc fuel + k → length cleared < fuel + (end + 1)
  fuel_left h = omega (arith, length_after, k-le-begin, begin-le-end)

  all_read : length ls ≤ begin → Outcome ls (suc fuel) k
  unfolding remove_from begin
  all_read h =
      let e : begin ≡ length ls = omega (arith, find_next-le opens ls k) in
      (
        ls,
        [],
        rw (le→leb _ _ h),
        record {
          blanked = Blanked-refl ls;
          outcome = inl (refl, rw e at (quiet-find_next ls k q));
        },
      )

  no_close : begin < length ls → length ls ≤ end → Outcome ls (suc fuel) k
  unfolding remove_from begin end
  no_close h g = (
    ls,
    no_end begin ∷ [],
    ground arith,
    record {
      blanked = Blanked-refl ls;
      outcome = inr (
        begin,
        refl,
        h,
        quiet-find_next ls k q,
        find_next_hit opens ls k h,
        omega (arith, find_next-le closes ls begin),
      );
    },
  )

  one_more :
      begin < length ls → end < length ls → Outcome cleared fuel (end + 1) → Outcome ls (suc fuel) k
  unfolding remove_from begin end cleared
  one_more h g (out, es, e, c) = (
    out,
    es,
    ground arith,
    record {
      blanked = Blanked-trans ls _ out (clear_range-Blanked ls begin (end + 1)) c.blanked;
      outcome = c.outcome;
    },
  )

remove_from-Cleared :
    (fuel : ℕ) (ls : List Text) (k : ℕ)
    → quiet k ls ≡ true
    → k ≤ length ls
    → length ls < fuel + k
    → Outcome ls fuel k
unfolding begin end
remove_from-Cleared zero ls k q le f = absurd (omega arith)
remove_from-Cleared (suc fuel) ls k q le f =
    elim (Bool-cases (leb (length ls) (begin fuel ls k q le))) [
      | inl h ↦ all_read fuel ls k q le (leb→le _ _ h)
      | inr h ↦ elim (Bool-cases (leb (length ls) (end fuel ls k q le))) [
        | inl g ↦ no_close fuel ls k q le (ground arith) (leb→le _ _ g)
        | inr g ↦ one_more fuel ls k q le (ground arith) (ground arith) (
            remove_from-Cleared fuel (cleared fuel ls k q le) (end fuel ls k q le + 1)
              (quiet_after fuel ls k q le) (room fuel ls k q le (ground arith))
              (fuel_left fuel ls k q le f))
      ]
    ]

-- RemoveMultiLineComments ends on every list of lines, and each line is kept or replaced by the dummy
-- comment. With no report, no line that is left starts a comment that goes beyond it; the one report
-- there may be is for the first such line, and no line from there on ends a comment.
pub remove_multi_line_comments_lem :
    (ls : List Text)
    → (out : List Text) × (es : List Effect) × (remove_multi_line_comments ls ≡ some (out, es))
      × Cleared ls out es
unfolding remove_multi_line_comments
remove_multi_line_comments_lem ls =
    remove_from-Cleared (length ls + 1) ls 0 (quiet-zero ls) (omega arith) (omega arith)
