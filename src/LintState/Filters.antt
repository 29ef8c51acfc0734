-- ===== src/LintState/Filters.antt =====
-- --filter: what SetFilters accepts.
use tpool.Base.{
  Bool-cases, List, Option-cases, [], all, ap, arith, false, inl, inr, none, refl, some, true, ◌++◌,
  ◌↔◌, ◌∷◌, ◌≡◌, ◌⊎◌,
}
use tpool.Text.{Text, split_on}
use tpool.LintState.{LintState, clean_filters, default_filters, first_bad, has_sign, set_filters}

-- The filter list that `first_bad` passes has a sign on every entry, and conversely.
pub first_bad-none : (fs : List Text) → (first_bad fs ≡ none) ↔ (all has_sign fs ≡ true)
unfolding first_bad
first_bad-none [] = (λ h. refl, λ h. refl)
first_bad-none (f ∷ fs) = ground (arith, first_bad-none fs)

-- When the call names a filter, all filters before it have a sign and it has none.
pub first_bad-some :
    (fs : List Text) {f : Text}
    → first_bad fs ≡ some f
    → (before : List Text) × (after : List Text) × (fs ≡ before ++ (f ∷ after))
      × (all has_sign before ≡ true)
      × (has_sign f ≡ false)
unfolding first_bad
first_bad-some [] h = cc
first_bad-some (g ∷ fs) {f} h = elim (Bool-cases (has_sign g)) [
  | inl good ↦
      let (before, after, e, signed, bad) = first_bad-some fs {f = f} (ground arith) in
      (g ∷ before, after, ap (◌∷◌ g) e, ground arith, bad)
  | inr bad ↦ let e : g ≡ f = ground arith in ([], fs, ap (λ x. x ∷ fs) e, refl, rw e at bad)
]

-- SetFilters keeps the default filters in front of the ones it is given, whether it raises or not.
-- Either it raises no ValueError and every filter then in place has a sign, or it raises one that
-- names the first of the filters in place that has none: a filter with no sign is no request to
-- leave messages out.
pub set_filters_lem :
    (s : LintState) (flag : Text)
    → let (s', raised) = set_filters s flag in
      (s'.filters ≡ default_filters ++ clean_filters (split_on b',' flag))
      × (((raised ≡ none) × (all has_sign s'.filters ≡ true))
          ⊎ ((f : Text) × (before : List Text) × (after : List Text) × (raised ≡ some f)
              × (s'.filters ≡ before ++ (f ∷ after))
              × (all has_sign before ≡ true)
              × (has_sign f ≡ false)))
unfolding set_filters
set_filters_lem s flag =
    let fs = default_filters ++ clean_filters (split_on b',' flag) in
    elim (Option-cases (first_bad fs)) [
      | inl e ↦ (refl, inl (e, (first_bad-none fs).0 e))
      | inr (f, e) ↦
          let (before, after, splits, signed, bad) = first_bad-some fs e in
          (refl, inr (f, before, after, e, splits, signed, bad))
    ]
