-- ===== src/Tests/Waiting.antt =====
-- Runs of the blocking queue, of a future and of the deadline, and their theorems.
use tpool.Future.Given.{IsFair, Reach-IsFair}
use tpool.Deadline.Exact.{deadline_lem, nanoseconds}
use tpool.BlockingQueue.Ordered.{IsOrdered, Reach-IsOrdered}
use tpool.BlockingQueue
use tpool.Future
use tpool.Deadline.{deadline}
use tpool.Base.{[], arith, refl, ℕ, ◌*◌, ◌+◌, ◌<◌, ◌^◌, ◌≡◌}

-- Thread 0 waits in Pop, thread 1 in Front; a push wakes both, thread 1 sees the element and thread 0
-- takes it.
abbrev waiting : BlockingQueue.Monitor ℕ
waiting = BlockingQueue.front 1 (BlockingQueue.pop 0 (BlockingQueue.start []))

abbrev served : BlockingQueue.Monitor ℕ
served = BlockingQueue.pop 0 (BlockingQueue.front 1 (BlockingQueue.push 7 waiting))

reaches_waiting : BlockingQueue.Reach [] waiting
unfolding BlockingQueue.pop
reaches_waiting =
    BlockingQueue.later (BlockingQueue.later BlockingQueue.begins (BlockingQueue.calls_pop 0 refl))
      (BlockingQueue.calls_front 1 refl)

reaches_served : BlockingQueue.Reach [] served
unfolding BlockingQueue.push BlockingQueue.front BlockingQueue.pop
reaches_served =
    BlockingQueue.later
      (BlockingQueue.later (BlockingQueue.later reaches_waiting (BlockingQueue.calls_push 7))
        (BlockingQueue.goes_on_front 1 refl))
      (BlockingQueue.goes_on_pop 0 refl)

Reach-IsOrdered_example : IsOrdered served
Reach-IsOrdered_example = Reach-IsOrdered reaches_served

-- Thread 0 waits for the result, Call throws at first, and then it returns 5.
abbrev start_future : Future.Monitor ℕ
start_future = Future.start

abbrev answered : Future.Monitor ℕ
answered = Future.get_result 0 (
    Future.do_run 5 (Future.get_result 0 (Future.do_run_throws (Future.get_result 0 start_future))))

reaches_answered : Future.Reach answered
unfolding Future.do_run_throws Future.get_result Future.do_run
reaches_answered =
    Future.later
      (Future.later
        (Future.later
          (Future.later (Future.later Future.begins (Future.calls_get 0 refl)) Future.throws)
          (Future.goes_on_get 0 refl))
        (Future.runs 5))
      (Future.goes_on_get 0 refl)

Reach-IsFair_example : IsFair answered
Reach-IsFair_example = Reach-IsFair reaches_answered

-- A second and a half from 1.7 seconds is 3.2 seconds.
deadline_lem_example :
    ((deadline 1 700000 1500).tv_nsec < 1000000000)
    × ((deadline 1 700000 1500).tv_sec < 2 ^ 63)
    × (nanoseconds (deadline 1 700000 1500) ≡ 1 * 1000000000 + 700000 * 1000 + 1500 * 1000000)
deadline_lem_example = deadline_lem 1 700000 1500 (omega arith) (omega arith) (omega arith)

deadline_carries : deadline 1 700000 1500 ≡ record { tv_sec = 3; tv_nsec = 200000000 }
unfolding deadline
deadline_carries = refl
