-- ===== src/Tests/Pools.antt =====
-- Runs of a pool, and the theorems on it.
use tpool.Threads.{load}
use tpool.Pool.Stopped.{Complete, finished-Complete, popping-queue, stop_never_returns}
use tpool.Pool
use tpool.Pool.Stopped
use tpool.Base.{[], arith, refl, some, ℕ, ◌≢◌}

-- A pool of one worker: a task is added, and the pool is stopped.
abbrev stopping_pool : (p : Pool.Pool ℕ) × Pool.Reach 1 1 p
unfolding Pool.check_task Pool.stop_async Pool.check_first
stopping_pool = (
  _,
  Pool.later
      (Pool.later
        (Pool.later
          (Pool.later
            (Pool.later (Pool.later Pool.begins (Pool.checks 0 (omega arith) refl))
              (Pool.adds_task 0 (some 5) (omega arith) refl))
            (Pool.pushes_task 0 (omega arith) refl))
          (Pool.stops 0 (omega arith) refl))
        (Pool.pushes_end 0 (omega arith) refl))
      (Pool.awaits 0 (omega arith) refl),
)

-- The worker takes the task, runs it, takes the EndTask and stops.
abbrev finished_pool : (p : Pool.Pool ℕ) × Pool.Reach 1 1 p
unfolding Pool.check_task Pool.stop_async Pool.await_finished Pool.count_stopped Pool.check_first
    stopping_pool
finished_pool =
    let takes = Pool.later stopping_pool.1 (Pool.takes 0 (omega arith) refl refl) in
    let runs =
      Pool.later (Pool.later takes (Pool.acts 0 (omega arith) refl))
        (Pool.run_returns 0 (omega arith) refl) in
    let looped = Pool.later runs (Pool.checks 0 (omega arith) refl) in
    let ends =
      Pool.later (Pool.later looped (Pool.takes 0 (omega arith) refl refl))
        (Pool.acts 0 (omega arith) refl) in
    (
      _,
      Pool.later (Pool.later ends (Pool.counts_stopped 0 (omega arith) refl))
          (Pool.finishes 0 (omega arith) refl),
    )

finished-Complete_example : Pool.Stopped.Complete 1 1 finished_pool.0
unfolding finished_pool Pool.finish
finished-Complete_example = finished-Complete 1 1 finished_pool.1 refl refl refl

popping-queue_example : stopping_pool.0.queue ≢ []
unfolding stopping_pool Pool.await_finished load
popping-queue_example = popping-queue 1 1 0 stopping_pool.1 refl refl (omega arith) refl

-- A pool of no threads is stopped, and the caller waits.
abbrev empty_pool : (p : Pool.Pool ℕ) × Pool.Reach 1 0 p
unfolding Pool.stop_async
empty_pool = (
  _,
  Pool.later (Pool.later Pool.begins (Pool.stops 0 (omega arith) refl))
      (Pool.awaits 0 (omega arith) refl),
)

stop_never_returns_example : empty_pool.0.callers 0 ≢ Pool.saw_finish
stop_never_returns_example = stop_never_returns 1 0 0 empty_pool.1 refl
