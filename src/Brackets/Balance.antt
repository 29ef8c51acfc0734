-- ===== src/Brackets/Balance.antt =====
-- _GetTextInside against the grammar of balanced texts.
use tpool.Base.{
  Option, [], ap, arith, drop, get_elem?, get_or-get_elem?, length, none, refl, some, suc, sym,
  take, take-append, true, ℕ, ◌++◌, ◌-◌, ◌↔◌, ◌∙◌, ◌∷◌, ◌≡◌,
}
use tpool.Text.{Text}
use tpool.Brackets.{closing_of, found, inside_scanned, is_closing, scan, text_inside_from}
use tpool.Brackets.Balanced.{Balanced, closing_of-closing}
use tpool.Brackets.Scans.{Passed, scan-Passed, scan-append, scan-nil}

-- The whole scan, and the text before the bracket that it stops at.
scan_stops :
    (d : ℕ) (r t : Text)
    → Balanced r
    → is_closing d ≡ true
    → scan (d ∷ []) (r ++ (d ∷ t)) ≡ some (suc (length r))
scan_stops d r t b h = scan-append d [] t b h ∙ rw (scan-nil t) (ap some (omega arith))

inside_scanned-found :
    (s r : Text) (o : Option ℕ)
    → inside_scanned s o ≡ found r
    → (n : ℕ) × (o ≡ some n) × (take (n - 1) s ≡ r)
unfolding inside_scanned
inside_scanned-found s r none h = cc
inside_scanned-found s r (some n) h = (n, refl, cc)

text_inside_from-scan :
    (s : Text) (i c closing : ℕ)
    → get_elem? s i ≡ some c
    → closing_of c ≡ some closing
    → text_inside_from s (suc i)
      ≡ inside_scanned (drop (suc i) s) (scan (closing ∷ []) (drop (suc i) s))
unfolding text_inside_from
text_inside_from-scan s i c closing there opened = rw (get_or-get_elem? s i 0 there, opened) refl

scanned_text :
    (s r : Text) → take (length r) s ≡ r → inside_scanned s (some (suc (length r))) ≡ found r
unfolding inside_scanned
scanned_text s r e =
    let n : suc (length r) - 1 ≡ length r = omega arith in ap found (ap (λ k. take k s) n ∙ e)

Passed-inner :
    (d n : ℕ) (u r : Text)
    → Passed d [] u n
    → take (n - 1) u ≡ r
    → Balanced r × ((rest : Text) × (u ≡ r ++ (d ∷ rest)))
Passed-inner d n u r p h = rw (← same_text) (p.balanced, (p.rest, p.splits))
  where
    count : n - 1 ≡ length p.inner
    count = ground (arith, p.goes_on, p.counts, scan-nil p.rest)

    same_text : p.inner ≡ r
    same_text =
        sym (take-append p.inner (d ∷ p.rest))
        ∙ ap (take (length p.inner)) (sym p.splits)
        ∙ ap (λ k. take k u) (sym count)
        ∙ h

-- Behind an opening bracket, _GetTextInside returns a text exactly when what follows the bracket is
-- that text, with its brackets balanced, and then the bracket that closes the opening one.
pub text_inside_from_iff :
    (s r : Text) (i c closing : ℕ)
    → get_elem? s i ≡ some c
    → closing_of c ≡ some closing
    → (text_inside_from s (suc i) ≡ found r)
      ↔ (Balanced r × ((rest : Text) × (drop (suc i) s ≡ r ++ (closing ∷ rest))))
text_inside_from_iff s r i c closing there opened =
    rw (text_inside_from-scan s i c closing there opened)
      (sound (drop (suc i) s), complete (drop (suc i) s))
  where
    sound :
        (u : Text)
        → inside_scanned u (scan (closing ∷ []) u) ≡ found r
        → Balanced r × ((rest : Text) × (u ≡ r ++ (closing ∷ rest)))
    sound u h =
        let (n, e, t) = inside_scanned-found u r (scan (closing ∷ []) u) h in
        Passed-inner closing n u r (scan-Passed (suc (length u)) closing [] u (omega arith) e) t

    complete :
        (u : Text)
        → Balanced r × ((rest : Text) × (u ≡ r ++ (closing ∷ rest)))
        → inside_scanned u (scan (closing ∷ []) u) ≡ found r
    complete u (b, (rest, e)) =
        rw (e, scan_stops closing r rest b (closing_of-closing c opened).1)
          (scanned_text _ r (take-append r (closing ∷ rest)))
