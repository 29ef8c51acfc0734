-- ===== src/Brackets/Scans.antt =====
-- What a scan for the closing bracket passes.
use tpool.Base.{
  ==_iff, Bool-cases, List, Option, Option-cases, [], ap, append_assoc, arith, false, inl, inr,
  length, length-append, none, refl, some, suc, sym, true, zero, ℕ, ◌++◌, ◌+◌, ◌<◌, ◌==◌, ◌||◌, ◌∙◌,
  ◌∷◌, ◌≡◌,
}
use tpool.Text.{Text, add_one}
use tpool.Brackets.{closing_of, is_closing, is_opening, pushed, scan}
use tpool.Brackets.Balanced.{
  Balanced, closing_of-closing, closing_of-none, closing_of_plain, empty, nested, plain,
}

-- What a successful scan for the bracket `d` on top of the stack has passed.
pub record Passed (d : ℕ) (stack : List ℕ) (s : Text) (n : ℕ) : Type 0 where
  pub inner : Text
  pub rest : Text
  pub later : ℕ
  pub splits : s ≡ inner ++ (d ∷ rest)
  pub balanced : Balanced inner
  pub goes_on : scan stack rest ≡ some later
  pub counts : n ≡ suc (length inner + later)

add_one-inv : (o : Option ℕ) {n : ℕ} → add_one o ≡ some n → (m : ℕ) × (o ≡ some m) × (n ≡ suc m)
add_one-inv none h = cc
add_one-inv (some m) h = (m, refl, ground arith)

module _ {d : ℕ} {stack : List ℕ} where
  Passed-plain :
      {s : Text} {m : ℕ} (c : ℕ)
      → (is_opening c || is_closing c) ≡ false
      → Passed d stack s m
      → Passed d stack (c ∷ s) (suc m)
  Passed-plain c h p = record {
    inner = c ∷ p.inner;
    rest = p.rest;
    later = p.later;
    splits = ap (◌∷◌ c) p.splits;
    balanced = plain h p.balanced;
    goes_on = p.goes_on;
    counts = omega (arith, p.counts);
  }

  Passed-nested :
      {s : Text} {m : ℕ} (c : ℕ) {e : ℕ}
      → closing_of c ≡ some e
      → (p : Passed e (d ∷ stack) s m) → Passed d stack p.rest p.later
      → Passed d stack (c ∷ s) (suc m)
  Passed-nested c {e} h p q = record {
    inner = c ∷ (p.inner ++ (e ∷ q.inner));
    rest = q.rest;
    later = q.later;
    splits = ap (◌∷◌ c) (
        p.splits
        ∙ ap (λ x. p.inner ++ (e ∷ x)) q.splits
        ∙ sym (append_assoc p.inner (e ∷ q.inner) (d ∷ q.rest)));
    balanced = nested h p.balanced q.balanced;
    goes_on = q.goes_on;
    counts = omega (arith, p.counts, q.counts, length-append {0} p.inner (e ∷ q.inner));
  }

  length-rest : {s : Text} {m : ℕ} (p : Passed d stack s m) → length p.rest < length s
  length-rest p = omega (arith, ap length p.splits, length-append {0} p.inner (d ∷ p.rest))

-- One round of the loop that does not close the bracket on top.
module _ (d : ℕ) (stack : List ℕ) (c : ℕ) (s : Text) {n : ℕ} (miss : (c == d) ≡ false) where
  scan_kind : scan (d ∷ stack) (c ∷ s) ≡ some n → is_closing c ≡ false
  unfolding scan
  scan_kind h = ground arith

  scan_bare :
      closing_of c ≡ none
      → scan (d ∷ stack) (c ∷ s) ≡ some n
      → add_one (scan (d ∷ stack) s) ≡ some n
  unfolding scan
  scan_bare bare h = ground arith

  scan_nested :
      {e : ℕ}
      → closing_of c ≡ some e
      → scan (d ∷ stack) (c ∷ s) ≡ some n
      → add_one (scan (e ∷ d ∷ stack) s) ≡ some n
  unfolding scan
  scan_nested opened h = ground arith

-- By the length of what is left.
pub scan-Passed :
    (k : ℕ) (d : ℕ) (stack : List ℕ) (s : Text) {n : ℕ}
    → length s < k
    → scan (d ∷ stack) s ≡ some n
    → Passed d stack s n
unfolding scan
scan-Passed zero d stack s lt h = absurd (omega arith)
scan-Passed (suc k) d stack [] lt h = cc
scan-Passed (suc k) d stack (c ∷ s) {n} lt h = elim (Bool-cases (c == d)) [
  | inl hit ↦
      let (m, e, f) = add_one-inv (scan stack s) {n = n} (ground arith) in
      record {
        inner = [];
        rest = s;
        later = m;
        splits = ap (λ x. x ∷ s) ((==_iff c d).0 hit);
        balanced = empty;
        goes_on = e;
        counts = omega arith;
      }
  | inr miss ↦ elim (Option-cases (closing_of c)) [
    | inl bare ↦
        let (m, e, f) =
          add_one-inv (scan (d ∷ stack) s) {n = n} (scan_bare d stack c s miss bare h) in
        let kind = scan_kind d stack c s miss h in
        rw f (
          Passed-plain c (ground (arith, closing_of-none c bare, kind))
            (scan-Passed k d stack s (omega arith) e))
    | inr (e, opened) ↦
        let (m, g, f) =
          add_one-inv (scan (e ∷ d ∷ stack) s) {n = n} (scan_nested d stack c s miss opened h) in
        let p = scan-Passed k e (d ∷ stack) s (omega arith) g in
        rw f (
          Passed-nested c opened p
            (scan-Passed k d stack p.rest (omega (arith, length-rest p)) p.goes_on))
  ]
]

abbrev shifted : ℕ → Option ℕ → Option ℕ
shifted k none = none
shifted k (some m) = some (k + m)

shifted-add_one : (k : ℕ) (o : Option ℕ) → add_one (shifted k o) ≡ shifted (suc k) o
shifted-add_one k none = refl
shifted-add_one k (some m) = ground arith

shifted-shifted : (j k : ℕ) (o : Option ℕ) → shifted j (shifted k o) ≡ shifted (j + k) o
shifted-shifted j k none = refl
shifted-shifted j k (some m) = ground arith

add_one-shifted : (o : Option ℕ) → add_one o ≡ shifted 1 o
add_one-shifted none = refl
add_one-shifted (some m) = ground arith

module _ (d : ℕ) (stack : List ℕ) where
  scan_top : (s : Text) → scan (d ∷ stack) (d ∷ s) ≡ add_one (scan stack s)
  unfolding scan
  scan_top s = ground arith

  scan_other :
      (c : ℕ) (s : Text)
      → is_closing c ≡ false
      → is_closing d ≡ true
      → scan (d ∷ stack) (c ∷ s) ≡ add_one (scan (pushed (closing_of c) (d ∷ stack)) s)
  unfolding scan
  scan_other c s h k = ground (arith, same_kind)
    where
      same_kind : c ≡ d → ⊥
      same_kind e = cc (h, k, ap is_closing e)

pub scan-append :
    {r : Text} (d : ℕ) (stack : List ℕ) (t : Text)
    → Balanced r
    → is_closing d ≡ true
    → scan (d ∷ stack) (r ++ (d ∷ t)) ≡ shifted (suc (length r)) (scan stack t)
scan-append d stack t empty h = scan_top d stack t ∙ add_one-shifted (scan stack t)
scan-append d stack t (plain {c = c} {s = s} p b) h =
    scan_other d stack c (s ++ (d ∷ t)) (ground arith) h
    ∙ rw (closing_of_plain c (ground arith)) (ap add_one (scan-append d stack t b h))
    ∙ shifted-add_one (suc (length s)) (scan stack t)
scan-append d stack t (nested {c = c} {d = e} {s = s} {t = u} p b g) h =
    let (opening, closing, kind) = closing_of-closing c p in
    ap (λ x. scan (d ∷ stack) (c ∷ x)) (append_assoc s (e ∷ u) (d ∷ t))
    ∙ scan_other d stack c (s ++ (e ∷ (u ++ (d ∷ t)))) kind h
    ∙ rw p (
        ap add_one (
          scan-append e (d ∷ stack) (u ++ (d ∷ t)) b closing
          ∙ ap (shifted (suc (length s))) (scan-append d stack t g h)
          ∙ shifted-shifted (suc (length s)) (suc (length u)) (scan stack t)))
    ∙ shifted-add_one (suc (length s) + suc (length u)) (scan stack t)
    ∙ ap (λ k. shifted k (scan stack t)) (omega (arith, length-append {0} s (e ∷ u)))

pub scan-nil : (s : Text) → scan [] s ≡ some 0
unfolding scan
scan-nil [] = refl
scan-nil (c ∷ s) = refl
