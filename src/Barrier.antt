-- ===== src/Barrier.antt =====
-- include/CyclicBarrier.h: the count, the two generations, and the threads that wait. The indices
-- are ints; their overflow is not modelled.
pub mod Generations
pub mod Answers
use tpool.Threads.{update}
use tpool.Base.{Bool, Option, if◌then◌else◌, ltb, none, some, suc, ℕ, ◌&&◌, ◌-◌, ◌<◌, ◌==◌, ◌≡◌}

-- A waiting thread keeps both indices of the time of its call.
pub data Pc : Type 0 where
  idle : Pc
  waits : ℕ → ℕ → Pc
  woken : ℕ → ℕ → Pc
  returned : ℕ → Pc  -- behind a call of Wait, with its result

pub record CyclicBarrier : Type 0 where
  pub max_count : ℕ
  pub count : ℕ
  pub barrier_index : ℕ
  pub reset_index : ℕ

pub record Monitor : Type 0 where
  pub shared : CyclicBarrier
  pub threads : ℕ → Pc

-- The constructor, with its assertion.
unfoldable pub construct : ℕ → Option CyclicBarrier
construct count =
    if ltb 0 count
    then some (record { max_count = count; count = count; barrier_index = 0; reset_index = 0 })
    else none

abbrev pub notify : Pc → Pc
notify idle = idle
notify (waits b r) = woken b r
notify (woken b r) = woken b r
notify (returned ret) = returned ret

abbrev pub stand : ℕ → Pc → Monitor → Monitor
stand i p m = record m { threads = update m.threads i p }

abbrev pub notify_all : Monitor → Monitor
notify_all m = record m { threads = (λ i. notify (m.threads i)) }

-- The condition of the loop in Wait.
abbrev pub is_current : CyclicBarrier → ℕ → ℕ → Bool
is_current s b r = b == s.barrier_index && r == s.reset_index

-- What Wait returns behind its loop.
abbrev pub broken : CyclicBarrier → ℕ → ℕ
broken s r = if r == s.reset_index then 0 else 1

-- A round of the loop in Wait, by a thread that waits since the indices `b` and `r`.
unfoldable pub goes_on : ℕ → ℕ → ℕ → Monitor → Monitor
goes_on i b r m =
    if is_current m.shared b r
    then stand i (waits b r) m
    else stand i (returned (broken m.shared r)) m

abbrev pub trip : CyclicBarrier → CyclicBarrier
trip s = record s { count = s.max_count; barrier_index = suc s.barrier_index }

-- A call of Wait to its first wait or to its return.
unfoldable pub wait : ℕ → Monitor → Monitor
unfolding goes_on
wait i m =
    let lower = record m.shared { count = m.shared.count - 1 } in
    if lower.count == 0
    then stand i (returned 0) (record (notify_all m) { shared = trip lower })
    else goes_on i lower.barrier_index lower.reset_index (record m { shared = lower })

unfoldable pub reset : Monitor → Monitor
reset m =
    let s = m.shared in
    record (notify_all m) {
      shared = record s { count = s.max_count; reset_index = suc s.reset_index };
    }

-- One stretch under the mutex by one of `n` threads, a call of Reset, or a wake-up that nobody
-- asked for.
pub data Step (n : ℕ) (m : Monitor) : Monitor → Type 0 where
  calls_wait : (i : ℕ) → i < n → m.threads i ≡ idle → Step n m (wait i m)
  goes_on_wait : {b r : ℕ} (i : ℕ) → i < n → m.threads i ≡ woken b r → Step n m (goes_on i b r m)
  leaves : {ret : ℕ} (i : ℕ) → i < n → m.threads i ≡ returned ret → Step n m (stand i idle m)
  calls_reset : Step n m (reset m)
  wakes : (i : ℕ) → i < n → Step n m (stand i (notify (m.threads i)) m)

pub data Reach (n count : ℕ) : Monitor → Type 0 where
  begins :
      {s : CyclicBarrier}
      → construct count ≡ some s
      → Reach n count (record { shared = s; threads = (λ i. idle) })
  later : {m m' : Monitor} → Reach n count m → Step n m m' → Reach n count m'
