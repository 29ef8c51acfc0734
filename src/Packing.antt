-- ===== src/Packing.antt =====
-- The format '!I' of Python's struct module, as the example clients and the forward server use it:
-- an unsigned number of four bytes, the most significant first.
pub mod Laws
use tpool.Base.{Option, [], if◌then◌else◌, ltb, none, some, ℕ, ◌%◌, ◌*◌, ◌++◌, ◌+◌, ◌/◌, ◌^◌, ◌∷◌}
use tpool.Text.{Text}

-- struct.pack('!I', n); none is struct.error.
unfoldable pub pack : ℕ → Option Text
pack n =
    if ltb n (2 ^ 32)
    then some (n / 2 ^ 24 ∷ n / 2 ^ 16 % 256 ∷ n / 2 ^ 8 % 256 ∷ n % 256 ∷ [])
    else none

abbrev pub word_of : ℕ → ℕ → ℕ → ℕ → ℕ
word_of a b c d = a * 2 ^ 24 + b * 2 ^ 16 + c * 2 ^ 8 + d

-- struct.unpack('!I', s)[0]; none is struct.error, for a length other than 4.
unfoldable pub unpack : Text → Option ℕ
unpack (a ∷ b ∷ c ∷ d ∷ []) = some (word_of a b c d)
unpack _ = none

-- struct.pack('!II', m, n)
unfoldable pub pack_two : ℕ → ℕ → Option Text
unfolding pack
pack_two m n = elim (pack m) [
  | none ↦ none
  | some first ↦ elim (pack n) [ none ↦ none | some second ↦ some (first ++ second) ]
]
