-- ===== src/Run/Gives.antt =====
-- What holds of the value that a check returns, where it returns one.
use tpool.Base.{List, subst, ◌++◌, ◌≡◌}
use tpool.Report.{Effect}
use tpool.Run.{Run, raises, returns, runs_on, ◌>>=◌}

pub data Gives {A : Type 0} (P : A → Type 0) : Run A → Type 0 where
  value : (es : List Effect) (a : A) → P a → Gives P (es, returns a)
  raised : (es : List Effect) → Gives P (es, raises)
  hung : (es : List Effect) → Gives P (es, runs_on)

-- Reports made before change nothing.
later :
    {B : Type 0} {P : B → Type 0} (es : List Effect) (m : Run B)
    → Gives P m
    → Gives P (es ++ m.0, m.1)
later es _ (value fs a p) = value (es ++ fs) a p
later es _ (raised fs) = raised (es ++ fs)
later es _ (hung fs) = hung (es ++ fs)

module _ {A : Type 0} where
  HoldsAt : (A → Type 0) → Run A → Type 0
  HoldsAt P (es, returns a) = P a
  HoldsAt P (es, raises) = Unit {0}
  HoldsAt P (es, runs_on) = Unit {0}

  to_value : {P : A → Type 0} {m : Run A} → Gives P m → HoldsAt P m
  unfolding HoldsAt
  to_value (value es a p) = p
  to_value (raised es) = tt
  to_value (hung es) = tt

  pub Gives-value :
      {P : A → Type 0} {m : Run A} {es : List Effect} {a : A}
      → Gives P m
      → m ≡ (es, returns a)
      → P a
  unfolding HoldsAt
  Gives-value {P = P} g e = subst (HoldsAt P) e (to_value g)

  -- A chain gives what its rest gives from each value of its first part.
  pub Gives-bind :
      {B : Type 0} {Q : A → Type 0} {P : B → Type 0} (m : Run A) (f : A → Run B)
      → Gives Q m
      → ((a : A) → Q a → Gives P (f a))
      → Gives P (m >>= f)
  unfolding ◌>>=◌ HoldsAt
  Gives-bind (es, returns a) f h k = later es (f a) (k a (to_value h))
  Gives-bind (es, raises) f h k = raised es
  Gives-bind (es, runs_on) f h k = hung es

  any_value : (m : Run A) → Gives (λ a. Unit {0}) m
  any_value (es, returns a) = value es a tt
  any_value (es, raises) = raised es
  any_value (es, runs_on) = hung es

  pub Gives-after :
      {B : Type 0} {P : B → Type 0} (m : Run A) (f : A → Run B)
      → ((a : A) → Gives P (f a))
      → Gives P (m >>= f)
  Gives-after m f k = Gives-bind m f (any_value m) (λ a h. k a)
