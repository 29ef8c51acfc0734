-- ===== src/Comments/Blanked.antt =====
-- What RemoveMultiLineComments does to the lines one by one.
use tpool.Base.{List, [], ap, arith, inl, inr, length, refl, suc, zero, ℕ, ◌∷◌, ◌≡◌, ◌⊎◌}
use tpool.Text.{Text}
use tpool.Comments.{clear_range, dummy}

-- The second list is the first with some lines replaced by the dummy comment.
abbrev pub Blanked : List Text → List Text → Type 0
Blanked [] [] = Unit {0}
Blanked [] (m ∷ ms) = ⊥
Blanked (l ∷ ls) [] = ⊥
Blanked (l ∷ ls) (m ∷ ms) = ((m ≡ l) ⊎ (m ≡ dummy)) × Blanked ls ms

pub Blanked-refl : (ls : List Text) → Blanked ls ls
Blanked-refl [] = tt
Blanked-refl (l ∷ ls) = (inl refl, Blanked-refl ls)

pub Blanked-trans : (ls ms ns : List Text) → Blanked ls ms → Blanked ms ns → Blanked ls ns
Blanked-trans [] [] [] h k = tt
Blanked-trans [] [] (n ∷ ns) h k = k
Blanked-trans [] (m ∷ ms) ns h k = absurd h
Blanked-trans (l ∷ ls) [] ns h k = absurd h
Blanked-trans (l ∷ ls) (m ∷ ms) [] h k = k
Blanked-trans (l ∷ ls) (m ∷ ms) (n ∷ ns) h k = ground (arith, Blanked-trans ls ms ns h.1 k.1)

pub clear_range-Blanked : (ls : List Text) (b e : ℕ) → Blanked ls (clear_range ls b e)
unfolding clear_range
clear_range-Blanked [] b e = tt
clear_range-Blanked (l ∷ ls) b zero = Blanked-refl (l ∷ ls)
clear_range-Blanked (l ∷ ls) zero (suc e) = (inr refl, clear_range-Blanked ls zero e)
clear_range-Blanked (l ∷ ls) (suc b) (suc e) = (inl refl, clear_range-Blanked ls b e)

pub length-Blanked : (ls ms : List Text) → Blanked ls ms → length ms ≡ length ls
length-Blanked [] [] h = refl
length-Blanked [] (m ∷ ms) h = absurd h
length-Blanked (l ∷ ls) [] h = absurd h
length-Blanked (l ∷ ls) (m ∷ ms) h = ap suc (length-Blanked ls ms h.1)
