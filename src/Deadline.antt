-- ===== src/Deadline.antt =====
-- ConditionVariable::TimedWait of src/ConditionVariable.cpp: the point in time that it waits for, and
-- its loop. What gettimeofday and pthread_cond_timedwait give are arguments.
pub mod Exact
use tpool.Base.{
  Bool, List, Option, [], if◌then◌else◌, leb, none, some, suc, ℕ, ◌%◌, ◌*◌, ◌+◌, ◌/◌, ◌==◌, ◌∷◌,
}

pub record Timespec : Type 0 where
  pub tv_sec : ℕ
  pub tv_nsec : ℕ

-- Lines 50 to 55: microseconds of a second or more are carried, and then made nanoseconds.
abbrev pub carried : ℕ → ℕ → Timespec
carried sec usec =
    if leb 1000000 usec
    then record { tv_sec = suc sec; tv_nsec = usec % 1000000 * 1000 }
    else record { tv_sec = sec; tv_nsec = usec * 1000 }

unfoldable pub deadline : ℕ → ℕ → ℕ → Timespec
deadline now_sec now_usec delay_in_ms =
    carried (now_sec + delay_in_ms / 1000) (now_usec + delay_in_ms % 1000 * 1000)

abbrev pub eintr : ℕ
eintr = 4

-- The loop over what pthread_cond_timedwait gives; none while it has not ended.
unfoldable pub timed_wait : List ℕ → Option Bool
timed_wait [] = none
timed_wait (ret ∷ rets) =
    let rest = timed_wait rets in if ret == eintr then rest else some (ret == 0)
