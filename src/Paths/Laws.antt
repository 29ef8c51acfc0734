-- ===== src/Paths/Laws.antt =====
-- What dirname does to a path.
use tpool.Base.{
  Bool, Bool-cases, [], ap, append-nil, append_assoc, arith, drop, inl, inr, length, length-append,
  refl, sym, take, take-append-drop, ℕ, ◌&&◌, ◌++◌, ◌<◌, ◌∙◌, ◌∷◌, ◌≡◌, ◌⊎◌,
}
use tpool.Text.{Text, is_empty, rfind, strip_right}
use tpool.Paths.{dirname, only_slashes, past, trim_head}

strip_right_prefix : (p : ℕ → Bool) (s : Text) → (r : Text) × (s ≡ strip_right p s ++ r)
unfolding strip_right is_empty
strip_right_prefix p [] = ([], refl)
strip_right_prefix p (c ∷ s) =
    let (r, e) = strip_right_prefix p s in
    elim (Bool-cases (p c && is_empty (strip_right p s))) [
      | inl gone ↦ (c ∷ s, rw gone)
      | inr kept ↦ (r, rw kept (ap (◌∷◌ c) e))
    ]

trim_head_prefix : (head : Text) → (r : Text) × (head ≡ trim_head head ++ r)
unfolding trim_head
trim_head_prefix head = elim (Bool-cases (only_slashes head)) [
  | inl slashes ↦ ([], rw slashes (sym (append-nil head)))
  | inr other ↦ rw other (strip_right_prefix _ head)
]

pub dirname_prefix : (p : Text) → (r : Text) × (p ≡ dirname p ++ r)
unfolding dirname
dirname_prefix p =
    let i = past (rfind b'/' p) in
    let (r, e) = trim_head_prefix (take i p) in
    (
      r ++ drop i p,
      sym (take-append-drop i p) ∙ ap (λ t. t ++ drop i p) e ∙ append_assoc _ r (drop i p),
    )

shorter_or_same : (d r p : Text) → p ≡ d ++ r → (d ≡ p) ⊎ (length d < length p)
shorter_or_same d [] p e = inl (sym (e ∙ append-nil d))
shorter_or_same d (c ∷ r) p e = inr (omega (arith, ap length e, length-append {0} d (c ∷ r)))

pub dirname_shorter : (p : Text) → (dirname p ≡ p) ⊎ (length (dirname p) < length p)
dirname_shorter p = let (r, e) = dirname_prefix p in shorter_or_same (dirname p) r p e
