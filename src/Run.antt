-- ===== src/Run.antt =====
-- The way a check ends: what it has reported on the way, and whether it returns a value, raises an
-- exception, or is in a loop that has not ended within its fuel.
use tpool.Base.{List, Option, [], none, some, ◌++◌}
pub mod Gives
use tpool.Report.{Effect}

pub data Stop {ℓ} (A : Type ℓ) : Type ℓ where
  returns : A → Stop A
  raises runs_on : Stop A

abbrev pub Run {ℓ} : Type ℓ → Type ℓ
Run A = List Effect × Stop A

infixl 5 ◌>>=◌ ◌>>◌
unfoldable pub ◌>>=◌ {ℓ κ} : {A : Type ℓ} {B : Type κ} → Run A → (A → Run B) → Run B
◌>>=◌ (es, returns a) f = let (es', r) = f a in (es ++ es', r)
◌>>=◌ (es, raises) f = (es, raises)
◌>>=◌ (es, runs_on) f = (es, runs_on)

abbrev pub ◌>>◌ {κ} : {B : Type κ} → Run (Unit {0}) → Run B → Run B
m >> k = m >>= λ _. k

abbrev pub pure {ℓ} : {A : Type ℓ} → A → Run A
pure a = ([], returns a)

-- The reports of a part that always returns.
abbrev pub emit : List Effect → Run (Unit {0})
emit es = (es, returns tt)

-- The new state with the reports made on the way.
abbrev pub emitting {ℓ} : {A : Type ℓ} → A × List Effect → Run A
emitting (a, es) = (es, returns a)

-- `none` is an exception, or a loop that has not ended.
abbrev pub or_raise {ℓ} : {A : Type ℓ} → Option A → Run A
or_raise none = ([], raises)
or_raise (some a) = pure a

abbrev pub or_run_on {ℓ} : {A : Type ℓ} → Option A → Run A
or_run_on none = ([], runs_on)
or_run_on (some a) = pure a
