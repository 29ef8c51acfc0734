-- ===== src/Latch.antt =====
-- include/CountDownLatch.h: the count, and the threads that wait for it. `m_count` is an int, which
-- CountDown takes below 0 when it is called too often; its overflow is not modelled.
pub mod Passed
use tpool.Threads.{update}
use tpool.Base.{
  Bool, Option, below, false, if◌then◌else◌, ltb, negsuc, none, pos, some, suc, zero, ℕ, ℤ, ◌==◌,
  ◌≡◌,
}

pub data Pc : Type 0 where
  idle : Pc
  waits : Pc
  woken : Pc
  passed : Pc  -- behind a call of Wait

-- The latch with the threads and how often CountDown has been called.
pub record Monitor : Type 0 where
  pub count : ℤ
  pub threads : ℕ → Pc
  pub downs : ℕ

-- The constructor, with its assertion.
unfoldable pub construct : ℕ → Option Monitor
construct count =
    if ltb 0 count
    then some (record { count = pos count; threads = (λ i. idle); downs = 0 })
    else none

abbrev pub pred : ℤ → ℤ
pred (pos zero) = negsuc 0
pred (pos (suc n)) = pos n
pred (negsuc n) = negsuc (suc n)

abbrev pub is_zero : ℤ → Bool
is_zero (pos n) = n == 0
is_zero (negsuc n) = false

-- The condition of the loop in Wait.
abbrev pub is_positive : ℤ → Bool
is_positive z = below 0 z

abbrev pub notify : Pc → Pc
notify idle = idle
notify waits = woken
notify woken = woken
notify passed = passed

abbrev pub stand : ℕ → Pc → Monitor → Monitor
stand i p m = record m { threads = update m.threads i p }

unfoldable pub wait : ℕ → Monitor → Monitor
wait i m = if is_positive m.count then stand i waits m else stand i passed m

unfoldable pub count_down : Monitor → Monitor
count_down m =
    let lower = pred m.count in
    record {
      count = lower;
      threads = (λ i. if is_zero lower then notify (m.threads i) else m.threads i);
      downs = suc m.downs;
    }

pub data Step (m : Monitor) : Monitor → Type 0 where
  calls_wait : (i : ℕ) → m.threads i ≡ idle → Step m (wait i m)
  goes_on_wait : (i : ℕ) → m.threads i ≡ woken → Step m (wait i m)
  calls_count_down : Step m (count_down m)
  wakes : (i : ℕ) → Step m (stand i (notify (m.threads i)) m)

pub data Reach (count : ℕ) : Monitor → Type 0 where
  begins : {m : Monitor} → construct count ≡ some m → Reach count m
  later : {m n : Monitor} → Reach count m → Step m n → Reach count n
