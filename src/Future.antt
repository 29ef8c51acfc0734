-- ===== src/Future.antt =====
-- include/FutureTask.h: the result of a task, the threads that wait for it, and the runs of Call,
-- which hold the mutex from the notification to the end. Call may return a value or throw.
pub mod Given
use tpool.Threads.{update}
use tpool.Base.{Bool, List, Option, [], false, if◌then◌else◌, none, not, some, true, ℕ, ◌∷◌, ◌≡◌}

-- Where a thread stands: between two calls, with what GetResult gave it, or inside its wait.
pub data Pc {ℓ} (T : Type ℓ) : Type ℓ where
  idle : Option T → Pc T
  waits : Pc T
  woken : Pc T

-- m_result while m_isResultReturned is set, and the values that Call has returned, last to first.
pub record Monitor {ℓ} (T : Type ℓ) : Type ℓ where
  pub result : Option T
  pub threads : ℕ → Pc T
  pub returned : List T

module _ {ℓ} {T : Type ℓ} where
  abbrev pub start : Monitor T
  start = record { result = none; threads = (λ i. idle none); returned = [] }

  abbrev pub is_result_returned : Option T → Bool
  is_result_returned none = false
  is_result_returned (some v) = true

  abbrev pub notify : Pc T → Pc T
  notify (idle r) = idle r
  notify waits = woken
  notify woken = woken

  -- The ConditionNotifyAllLocker at the head of DoRun.
  abbrev pub notify_all : Monitor T → Monitor T
  notify_all m = record m {
    threads =
        (λ i. if not (is_result_returned m.result) then notify (m.threads i) else m.threads i);
  }

  unfoldable pub do_run : T → Monitor T → Monitor T
  do_run value m = record (notify_all m) { result = some value; returned = value ∷ m.returned }

  -- An exception of Call leaves DoRun and unlocks the mutex.
  unfoldable pub do_run_throws : Monitor T → Monitor T
  do_run_throws m = notify_all m

  abbrev pub stand : ℕ → Pc T → Monitor T → Monitor T
  stand i p m = record m { threads = update m.threads i p }

  -- A round of the loop of GetResult.
  abbrev pub answer : Option T → Pc T
  answer none = waits
  answer (some v) = idle (some v)

  unfoldable pub get_result : ℕ → Monitor T → Monitor T
  get_result i m = stand i (answer m.result) m

  -- none is ResultNotReadyException.
  unfoldable pub try_get_result : Monitor T → Option T
  try_get_result m = m.result

  pub data Step (m : Monitor T) : Monitor T → Type ℓ where
    runs : (value : T) → Step m (do_run value m)
    throws : Step m (do_run_throws m)
    calls_get : {r : Option T} (i : ℕ) → m.threads i ≡ idle r → Step m (get_result i m)
    goes_on_get : (i : ℕ) → m.threads i ≡ woken → Step m (get_result i m)
    tries_get :
        {r : Option T} (i : ℕ) → m.threads i ≡ idle r → Step m (stand i (idle (try_get_result m)) m)
    wakes : (i : ℕ) → Step m (stand i (notify (m.threads i)) m)

  pub data Reach : Monitor T → Type ℓ where
    begins : Reach start
    later : {m n : Monitor T} → Reach m → Step m n → Reach n
