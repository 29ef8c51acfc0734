-- ===== src/Packing/Laws.antt =====
-- What pack gives, and that unpack reads it.
use tpool.Base.{
  Bool-cases, [], ap, arith, inl, inr, length, ltb, ltb→lt, some, ℕ, ◌%◌, ◌/◌, ◌<◌, ◌^◌, ◌∙◌, ◌∷◌,
  ◌≡◌,
}
use tpool.Text.{Text}
use tpool.Packing.{pack, unpack, word_of}

unpacks :
    (n : ℕ) → n < 2 ^ 32 → word_of (n / 2 ^ 24) (n / 2 ^ 16 % 256) (n / 2 ^ 8 % 256) (n % 256) ≡ n
unpacks n lt = omega arith

-- The four bytes of a number.
unfoldable pub Packed : ℕ → Text → Type 0
Packed n s =
    (n < 2 ^ 32)
    × ((a : ℕ) × (b : ℕ) × (c : ℕ) × (d : ℕ) × (s ≡ a ∷ b ∷ c ∷ d ∷ []) × (word_of a b c d ≡ n))

pub pack-Packed : (n : ℕ) (s : Text) → pack n ≡ some s → Packed n s
unfolding pack Packed
pack-Packed n s h = elim (Bool-cases (ltb n (2 ^ 32))) [
  | inl lt ↦
      let small = ltb→lt n (2 ^ 32) lt in (small, (_, _, _, _, ground arith, unpacks n small))
  | inr ge ↦ ground arith
]

pub length-pack : (n : ℕ) (s : Text) → pack n ≡ some s → length s ≡ 4
unfolding Packed
length-pack n s h = let (lt, (a, b, c, d, e, w)) = pack-Packed n s h in ap length e

pub pack-word : (n : ℕ) (s : Text) → pack n ≡ some s → n < 2 ^ 32
unfolding Packed
pack-word n s h = (pack-Packed n s h).0

pub unpack-pack : (n : ℕ) (s : Text) → pack n ≡ some s → unpack s ≡ some n
unfolding Packed unpack
unpack-pack n s h = let (lt, (a, b, c, d, e, w)) = pack-Packed n s h in ap unpack e ∙ ap some w
