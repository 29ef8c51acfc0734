-- ===== src/Tests/Threads.antt =====
-- Runs of the threads of the C++ library, and their theorems.
use tpool.Barrier.Answers.{Answer, goes_on-Answer}
use tpool.Barrier.Generations.{IsGathered, Reach-IsGathered}
use tpool.BoundedQueue.Kept.{IsServed, Reach-IsServed, waits-opposed}
use tpool.Latch.Passed.{IsCounted, Reach-IsCounted}
use tpool.Task.Cancelled.{IsAwake, Reach-IsAwake}
use tpool.BoundedQueue
use tpool.Latch
use tpool.Barrier
use tpool.Task
use tpool.Base.{[], arith, pos, refl, ℕ, ◌≡◌, ◌≢◌}

-- A queue of at most one element: thread 0 pushes 7, thread 1 waits to push 8, thread 2 pops and
-- wakes it, and it pushes.
abbrev one : BoundedQueue.BoundedBlockingQueue ℕ
one = record { max_size = 1; queue = [] }

abbrev pushed_twice : BoundedQueue.Monitor ℕ
pushed_twice = BoundedQueue.push 1 8 (BoundedQueue.push 0 7 (BoundedQueue.start one))

reaches_pushed_twice : BoundedQueue.Reach 1 [] pushed_twice
unfolding BoundedQueue.push BoundedQueue.construct BoundedQueue.notify_empty
reaches_pushed_twice =
    BoundedQueue.later
      (BoundedQueue.later (BoundedQueue.begins refl) (BoundedQueue.calls_push 0 7 refl))
      (BoundedQueue.calls_push 1 8 refl)

abbrev handed_over : BoundedQueue.Monitor ℕ
handed_over = BoundedQueue.push 1 8 (BoundedQueue.pop 2 pushed_twice)

reaches_handed_over : BoundedQueue.Reach 1 [] handed_over
unfolding BoundedQueue.push BoundedQueue.notify_empty BoundedQueue.pop BoundedQueue.notify_full
reaches_handed_over =
    BoundedQueue.later (BoundedQueue.later reaches_pushed_twice (BoundedQueue.calls_pop 2 refl))
      (BoundedQueue.goes_on_push 1 refl)

Reach-IsServed_example : IsServed handed_over
Reach-IsServed_example = Reach-IsServed 1 [] reaches_handed_over

waits-opposed_example :
    (pushed_twice.threads 2 ≢ BoundedQueue.pop_waits)
    × (pushed_twice.threads 2 ≢ BoundedQueue.front_waits)
unfolding BoundedQueue.push
waits-opposed_example = waits-opposed 1 [] 1 2 reaches_pushed_twice refl

-- A latch of 1: thread 0 waits, the latch is counted down, and thread 0 passes.
abbrev latch : Latch.Monitor
latch = record { count = pos 1; threads = (λ i. Latch.idle); downs = 0 }

abbrev passed_latch : Latch.Monitor
passed_latch = Latch.wait 0 (Latch.count_down (Latch.wait 0 latch))

reaches_passed_latch : Latch.Reach 1 passed_latch
unfolding Latch.construct Latch.count_down Latch.wait
reaches_passed_latch =
    Latch.later
      (Latch.later (Latch.later (Latch.begins refl) (Latch.calls_wait 0 refl))
        Latch.calls_count_down)
      (Latch.goes_on_wait 0 refl)

Reach-IsCounted_example : IsCounted 1 passed_latch
Reach-IsCounted_example = Reach-IsCounted 1 reaches_passed_latch

-- A barrier for two: thread 0 waits, thread 1 trips the barrier, and before thread 0 moves the
-- barrier is reset.
abbrev barrier : Barrier.Monitor
barrier = record {
  shared = record { max_count = 2; count = 2; barrier_index = 0; reset_index = 0 };
  threads = (λ i. Barrier.idle);
}

abbrev tripped_then_reset : Barrier.Monitor
tripped_then_reset = Barrier.reset (Barrier.wait 1 (Barrier.wait 0 barrier))

reaches_reset : Barrier.Reach 2 2 tripped_then_reset
unfolding Barrier.construct Barrier.wait
reaches_reset =
    Barrier.later
      (Barrier.later (Barrier.later (Barrier.begins refl) (Barrier.calls_wait 0 (omega arith) refl))
        (Barrier.calls_wait 1 (omega arith) refl))
      Barrier.calls_reset

Reach-IsGathered_example : IsGathered 2 tripped_then_reset
Reach-IsGathered_example = Reach-IsGathered 2 2 reaches_reset

-- Wait gives 1 to thread 0, though the barrier has tripped.
goes_on-Answer_example :
    Answer tripped_then_reset.shared 0 0 ((Barrier.goes_on 0 0 0 tripped_then_reset).threads 0)
unfolding Barrier.reset Barrier.wait
goes_on-Answer_example = goes_on-Answer 2 2 0 0 0 reaches_reset refl

broken_though_tripped : (Barrier.goes_on 0 0 0 tripped_then_reset).threads 0 ≡ Barrier.returned 1
unfolding Barrier.goes_on Barrier.reset Barrier.wait
broken_though_tripped = refl

-- Thread 0 runs a task while thread 1 cancels it: the task is finished first, and thread 0 is about
-- to notify thread 1.
abbrev cancelled_late : Task.Monitor
cancelled_late =
    let running = Task.stand 0 Task.in_do_run (
      Task.set_state Task.running
        (Task.stand 0 (Task.check_cancellation Task.checked Task.start) Task.start)) in
    let asleep = Task.await_stop 1 (Task.stand 1 Task.asked (Task.cancel_async running)) in
    Task.stand 0 Task.before_notify
      (Task.set_state Task.finished (Task.stand 0 Task.did_run asleep))

reaches_cancelled_late : Task.Reach cancelled_late
unfolding Task.check_cancellation Task.await_stop Task.cancel_async
reaches_cancelled_late =
    let run =
      Task.later (Task.later Task.begins (Task.calls_run 0 refl)) (Task.sets_running 0 refl) in
    let cancel = Task.later (Task.later run (Task.calls_cancel 1 refl)) (Task.awaits 1 refl) in
    Task.later (Task.later cancel (Task.do_run_returns 0 refl)) (Task.sets_finished 0 refl)

Reach-IsAwake_example : IsAwake cancelled_late
Reach-IsAwake_example = Reach-IsAwake reaches_cancelled_late
