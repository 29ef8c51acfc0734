-- ===== src/ForwardServer/Numbers.antt =====
-- The numbers that the handler prints are those that were packed.
use tpool.Packing.Laws.{Packed, pack-Packed}
use tpool.Packing.{pack}
use tpool.Base.{
  List, Option, Option-cases, [], ap, append_assoc, arith, inl, inr, length, map, none, refl, some,
  suc, take, zero, ℕ, ◌++◌, ◌<◌, ◌∙◌, ◌∷◌, ◌≡◌, ◌≤◌,
}
use tpool.Text.{Text, decimal, text}
use tpool.ForwardServer.{handle, numbers}

take_few {ℓ} : {A : Type ℓ} (n : ℕ) (xs : List A) → length xs ≤ n → take n xs ≡ xs
take_few zero [] le = refl
take_few zero (x ∷ xs) le = absurd (omega arith)
take_few (suc n) [] le = refl
take_few (suc n) (x ∷ xs) le = ap (◌∷◌ x) (take_few n xs (omega (arith, le)))

-- struct.pack('!I', n) for each number, one after the other.
unfoldable pub pack_all : List ℕ → Option Text
pack_all [] = some []
pack_all (n ∷ ns) = elim (pack n) [
  | none ↦ none
  | some s ↦ elim (pack_all ns) [ none ↦ none | some rest ↦ some (s ++ rest) ]
]

numbers-pack : (n : ℕ) (s rest : Text) → pack n ≡ some s → numbers (s ++ rest) ≡ n ∷ numbers rest
unfolding numbers Packed
numbers-pack n s rest h =
    let (lt, (a, b, c, d, e, w)) = pack-Packed n s h in
    ap (λ l. numbers (l ++ rest)) e ∙ ap (λ k. k ∷ numbers rest) w

numbers-short : (s : Text) → length s < 4 → numbers s ≡ []
unfolding numbers
numbers-short [] lt = refl
numbers-short (a ∷ []) lt = refl
numbers-short (a ∷ b ∷ []) lt = refl
numbers-short (a ∷ b ∷ c ∷ []) lt = refl
numbers-short (a ∷ b ∷ c ∷ d ∷ s) lt = absurd (omega (arith, lt))

numbers-pack_all :
    (ns : List ℕ) (s tail : Text)
    → pack_all ns ≡ some s
    → length tail < 4
    → numbers (s ++ tail) ≡ ns
unfolding numbers pack_all
numbers-pack_all [] s tail h short =
    let empty : s ≡ [] = ground arith in
    ap (λ l. numbers (l ++ tail)) empty ∙ numbers-short tail short
numbers-pack_all (n ∷ ns) s tail h short = elim (Option-cases (pack n)) [
  | inl e ↦ ground arith
  | inr (first, e) ↦ elim (Option-cases (pack_all ns)) [
    | inl e2 ↦ ground arith
    | inr (rest, e2) ↦
        let parted : s ≡ first ++ rest = ground arith in
        ap (λ l. numbers (l ++ tail)) parted
        ∙ (ap numbers (append_assoc first rest tail)
            ∙ (numbers-pack n first (rest ++ tail) e
                ∙ ap (λ l. n ∷ l) (numbers-pack_all ns rest tail e2 short)))
  ]
]

-- Where a client packs numbers one after the other, with at most three bytes behind them and 1024
-- bytes in all, the handler prints the client's address, then each number in their order, and
-- nothing else.
pub handle-pack_all :
    (client_address : Text) (ns : List ℕ) (s tail : Text)
    → pack_all ns ≡ some s
    → length tail < 4
    → length (s ++ tail) ≤ 1024
    → handle client_address (s ++ tail)
      ≡ (text "...connected from: " ++ client_address) ∷ map decimal ns
unfolding handle
handle-pack_all client_address ns s tail h short few =
    ap (λ l. (text "...connected from: " ++ client_address) ∷ l)
      (ap (λ l. map decimal (numbers l)) (take_few 1024 (s ++ tail) few)
        ∙ ap (map decimal) (numbers-pack_all ns s tail h short))
