-- ===== src/Text/Laws.antt =====
-- What the text functions satisfy.
use tpool.Base.{
  [], ap, arith, drop, drop-append, length, length-append, refl, sym, take, take-append,
  take-append-drop, true, ◌++◌, ◌-◌, ◌||◌, ◌↔◌, ◌∙◌, ◌∷◌, ◌≡◌,
}
use tpool.Text.Words.{Text, less, same}
use tpool.Text.Search.{drop_last, ends_with, starts_with}

pub same_iff : (s t : Text) → (same s t ≡ true) ↔ (s ≡ t)
unfolding same
same_iff (c ∷ s) (d ∷ t) = ground (arith, same_iff s t)
same_iff _ _ = ground arith

pub same_refl : (s : Text) → same s s ≡ true
same_refl s = (same_iff s s).1 refl

-- A text starts with `p` exactly when it is `p` and a rest.
pub starts_with-append : (p r : Text) → starts_with (p ++ r) p ≡ true
unfolding starts_with
starts_with-append [] r = refl
starts_with-append (c ∷ p) r = ground (arith, starts_with-append p r)

pub starts_with-splits : (s p : Text) → starts_with s p ≡ true → s ≡ p ++ drop (length p) s
unfolding starts_with
starts_with-splits s [] h = refl
starts_with-splits [] (d ∷ p) h = ground arith
starts_with-splits (c ∷ s) (d ∷ p) h = ground (arith, starts_with-splits s p)

length_rest : (r p : Text) → length (r ++ p) - length p ≡ length r
length_rest r p = omega (arith, length-append {0} r p)

pub ends_with-append : (r p : Text) → ends_with (r ++ p) p ≡ true
unfolding ends_with
ends_with-append r p =
    rw (length_rest r p, drop-append r p, same_refl p) (ground (arith, length-append {0} r p))

pub ends_with-splits : (s p : Text) → ends_with s p ≡ true → s ≡ drop_last (length p) s ++ p
unfolding ends_with drop_last
ends_with-splits s p h =
    let q = drop (length s - length p) s in
    let e : q ≡ p = (same_iff q p).0 (ground arith) in
    sym (take-append-drop (length s - length p) s) ∙ ap (λ t. take (length s - length p) s ++ t) e

pub drop_last-append : (r p : Text) → drop_last (length p) (r ++ p) ≡ r
unfolding drop_last
drop_last-append r p = rw (length_rest r p) (take-append r p)

-- `less` is a strict order, and cotransitive, so that two texts which are not less than one another
-- stand alike to any third.
pub less_trans : (a b c : Text) → less a b ≡ true → less b c ≡ true → less a c ≡ true
unfolding less
less_trans [] [] c h k = cc
less_trans [] (y ∷ b) [] h k = cc
less_trans [] (y ∷ b) (z ∷ c) h k = refl
less_trans (x ∷ a) [] c h k = cc
less_trans (x ∷ a) (y ∷ b) [] h k = cc
less_trans (x ∷ a) (y ∷ b) (z ∷ c) h k = ground (arith, less_trans a b c)

pub less_cotrans : (a b c : Text) → less a c ≡ true → (less a b || less b c) ≡ true
unfolding less
less_cotrans [] [] [] h = cc
less_cotrans [] [] (z ∷ c) h = refl
less_cotrans [] (y ∷ b) c h = refl
less_cotrans (x ∷ a) b [] h = cc
less_cotrans (x ∷ a) [] (z ∷ c) h = refl
less_cotrans (x ∷ a) (y ∷ b) (z ∷ c) h = ground (arith, less_cotrans a b c)
