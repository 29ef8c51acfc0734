-- ===== src/Processing/Returns.antt =====
-- Files with carriage returns in front of their newlines (lines 3235-3263).
use tpool.Run.{Run, emit, raises, returns, runs_on, ◌>>=◌, ◌>>◌}
use tpool.Environment.{Environment}
use tpool.Base.{
  Bool, Bool-cases, List, [], all, any, append-nil, arith, false, if◌then◌else◌, inl, inr, length,
  map, not, refl, suc, sym, true, ℕ, ℤ, ◌-◌, ◌==◌, ◌∷◌, ◌≡◌,
}
use tpool.Text.{Text, ends_with, push_first, same, split_on, strip_right}
use tpool.Processing.{content_reports, has_return, returns_report, without_returns}
use tpool.Report.{Effect}

-- The content with a carriage return in front of each newline.
unfoldable pub with_returns : Text → Text
with_returns [] = []
with_returns (c ∷ s) =
    let rest = with_returns s in if c == b'\n' then 13 ∷ b'\n' ∷ rest else c ∷ rest

abbrev pub has_no_return : Text → Bool
has_no_return s = all (λ c. not (c == 13)) s

one_less : (n : ℕ) → suc n - 1 ≡ n
one_less n = omega arith

module _ (c : ℕ) (other : (c == 13) ≡ false) where
  without_returns-push_first :
      (ws : List Text)
      → map without_returns (push_first c ws) ≡ push_first c (map without_returns ws)
  unfolding without_returns strip_right
  without_returns-push_first [] = rw other refl
  without_returns-push_first (w ∷ ws) = rw other refl

  has_return-cons : (w : Text) → has_return (c ∷ w) ≡ has_return w
  unfolding has_return ends_with same
  has_return-cons [] = rw other refl
  has_return-cons (d ∷ w) = rw (one_less (suc (length w)), one_less (length w)) (ground arith)

  has_return-push_first : (ws : List Text) → any has_return (push_first c ws) ≡ any has_return ws
  unfolding has_return ends_with
  has_return-push_first [] = rw (has_return-cons []) refl
  has_return-push_first (w ∷ ws) = rw (has_return-cons w) refl

split_with_returns :
    (s : Text)
    → has_no_return s ≡ true
    → (map without_returns (split_on b'\n' (with_returns s)) ≡ split_on b'\n' s)
      × (any has_return (split_on b'\n' (with_returns s)) ≡ any (λ c. c == b'\n') s)
unfolding split_on with_returns without_returns strip_right has_return ends_with same
split_with_returns [] h = (refl, refl)
split_with_returns (c ∷ s) h =
    let (lines, found) = split_with_returns s (ground arith) in
    elim (Bool-cases (c == b'\n')) [
      | inl newline ↦ rw (newline, lines) (refl, refl)
      | inr same_line ↦ rw same_line (
          rw
            (
              same_line,
              without_returns-push_first c (ground arith),
              has_return-push_first c (ground arith),
              lines,
              found,
            )
            (refl, refl))
    ]

split_plain :
    (s : Text)
    → has_no_return s ≡ true
    → (map without_returns (split_on b'\n' s) ≡ split_on b'\n' s)
      × (any has_return (split_on b'\n' s) ≡ false)
unfolding split_on without_returns strip_right has_return ends_with same
split_plain [] h = (refl, refl)
split_plain (c ∷ s) h =
    let (lines, found) = split_plain s (ground arith) in
    elim (Bool-cases (c == b'\n')) [
      | inl newline ↦ rw (newline, lines, found) (refl, refl)
      | inr same_line ↦ rw same_line (
          rw
            (
              without_returns-push_first c (ground arith),
              has_return-push_first c (ground arith),
              lines,
              found,
            )
            (refl, refl))
    ]

and_then_nothing :
    (m : Run (Unit {0})) (es : List Effect) → (m >> emit [] >> emit es) ≡ (m >> emit es)
unfolding ◌>>=◌
and_then_nothing (fs, returns u) es = rw (append-nil fs) refl
and_then_nothing (fs, raises) es = refl
and_then_nothing (fs, runs_on) es = refl

-- A content without carriage returns and the same content with one in front of each newline are
-- processed alike: the second gives what the first gives, and then, if there is a newline and the
-- first returns, the one report that a carriage return was found.
pub content_reports-with_returns :
    (env : Environment) (vlevel : ℤ) (filename content : Text)
    → has_no_return content ≡ true
    → content_reports env vlevel filename (with_returns content) ≡ (
        content_reports env vlevel filename content
        >> emit (returns_report (any (λ c. c == b'\n') content)))
unfolding content_reports
content_reports-with_returns env vlevel filename content h =
    let (lines, found) = split_with_returns content h in
    let (same_lines, not_found) = split_plain content h in
    rw (lines, found, same_lines, not_found) (sym (and_then_nothing _ _))
