-- ===== src/Dict.antt =====
-- Python's `dict` with text keys, in the order of insertion. The program prints the order of
-- iteration only in its summary, and relies on no order.
use tpool.Base.{
  Bool, List, Option, [], arith, false, if◌then◌else◌, none, refl, some, true, ◌∷◌, ◌≡◌,
}
use tpool.Text.{Text, same}
use tpool.Text.Laws.{same_iff}

abbrev pub Dict {ℓ} : Type ℓ → Type ℓ
Dict V = List (Text × V)

module _ {ℓ} {V : Type ℓ} where
  -- d.get(k)
  unfoldable pub get : Dict V → Text → Option V
  unfolding same
  get [] k = none
  get ((j, v) ∷ d) k = if same j k then some v else get d k

  -- d[k] = v
  unfoldable pub put : Dict V → Text → V → Dict V
  unfolding same
  put [] k v = (k, v) ∷ []
  put ((j, w) ∷ d) k v = if same j k then (j, v) ∷ d else (j, w) ∷ put d k v

  -- k in d
  abbrev is_there : Option V → Bool
  is_there none = false
  is_there (some v) = true

  unfoldable pub has : Dict V → Text → Bool
  unfolding get
  has d k = is_there (get d k)

  -- A write is seen at its key, and at no other.
  pub get-put :
      (d : Dict V) (k j : Text) (v : V) → get (put d k v) j ≡ (if same k j then some v else get d j)
  unfolding get put
  get-put [] k j v = refl
  get-put ((i, w) ∷ d) k j v =
      ground (arith, get-put d k j v, same_iff i k, same_iff i j, same_iff k j)

  pub get-put-same : (d : Dict V) (k : Text) (v : V) → get (put d k v) k ≡ some v
  get-put-same d k v = ground (arith, get-put d k k v, same_iff k k)

  -- A write at a new key leaves the values that are there.
  pub get-put-new :
      (d : Dict V) (k j : Text) (v : V) {w : V}
      → has d k ≡ false
      → get d j ≡ some w
      → get (put d k v) j ≡ some w
  unfolding has
  get-put-new d k j v new h = ground (arith, get-put d k j v, same_iff k j, new, h)
