-- ===== src/Pool.antt =====
-- include/FixedThreadPool.h and src/WorkerThread.cpp: the pool's state, the threads that call it
-- and its workers. The task queue is a LinearTaskQueue: first in, first out, and Pop waits while it
-- is empty (include/BlockingQueue.h). Between two accesses of shared state any thread may move.
pub mod Counts
pub mod Callers
pub mod Workers
pub mod Leaving
pub mod Stopped
use tpool.Threads.{update}
use tpool.Base.{
  Bool, List, Option, [], false, if◌then◌else◌, leb, none, not, some, suc, true, ℕ, ◌++◌, ◌<◌, ◌∷◌,
  ◌≡◌,
}

pub data Item {ℓ} (T : Type ℓ) : Type ℓ where
  task : T → Item T
  end_task : Item T

-- Where a thread stands that calls the pool; it keeps what AddTask gave it.
pub data Caller {ℓ} (T : Type ℓ) : Type ℓ where
  idle : Option T → Caller T
  checked : T → Caller T  -- DoAddTask, behind the test of m_isRequestStop
  stopping : ℕ → Caller T  -- StopAsync, with so many EndTasks to push
  waits : Caller T  -- Stop, asleep
  woken : Caller T
  saw_finish : Caller T  -- Stop, behind the wait

-- Where a worker stands; `ready` is the head of the loop of WorkFunction.
pub data Worker {ℓ} (T : Type ℓ) : Type ℓ where
  ready : Worker T
  popping : Worker T
  holding : Item T → Worker T
  running : T → Worker T
  leaving : Worker T  -- behind WorkFunction
  counting : ℕ → Worker T  -- NotifyWhenThreadsStop, with its stoppedThreadNum
  stopped : Worker T

pub data State : Type 0 where
  running_state : State
  finished_state : State

-- The pool with its threads, and the items pushed and taken so far, first to last, how many tasks
-- have run to their end, how many have been lost (they threw, or their worker was cancelled behind
-- Pop), and how many workers were cancelled in front of Pop.
pub record Pool {ℓ} (T : Type ℓ) : Type ℓ where
  pub queue : List (Item T)
  pub stopped_thread_num : ℕ
  pub state : State
  pub is_request_stop : Bool
  pub callers : ℕ → Caller T
  pub workers : ℕ → Worker T
  pub is_cancelled : ℕ → Bool
  pub pushed : List (Item T)
  pub taken : List (Item T)
  pub completed : ℕ
  pub lost : ℕ
  pub left_early : ℕ

abbrev pub is_finished : State → Bool
is_finished running_state = false
is_finished finished_state = true

module _ {ℓ} {T : Type ℓ} where
  -- The constructor, with the workers under way.
  abbrev pub start : Pool T
  start = record {
    queue = [];
    stopped_thread_num = 0;
    state = running_state;
    is_request_stop = false;
    callers = (λ i. idle none);
    workers = (λ i. ready);
    is_cancelled = (λ i. false);
    pushed = [];
    taken = [];
    completed = 0;
    lost = 0;
    left_early = 0;
  }

  abbrev pub caller_at : ℕ → Caller T → Pool T → Pool T
  caller_at i c p = record p { callers = update p.callers i c }

  abbrev pub worker_at : ℕ → Worker T → Pool T → Pool T
  worker_at i w p = record p { workers = update p.workers i w }

  abbrev pub push : Item T → Pool T → Pool T
  push item p = record p { queue = p.queue ++ item ∷ []; pushed = p.pushed ++ item ∷ [] }

  -- DoAddTask to the test of the task: none is a null pointer.
  unfoldable pub check_task : Option T → Pool T → Caller T
  check_task t p =
      if p.is_request_stop then idle none else elim t [ none ↦ idle none | some x ↦ checked x ]

  -- The compare-and-set of StopAsync, and how many EndTasks follow.
  unfoldable pub stop_async : ℕ → ℕ → Pool T → Pool T
  stop_async n i p =
      if p.is_request_stop
      then caller_at i (stopping 0) p
      else caller_at i (stopping n) (record p { is_request_stop = true })

  -- A round of the loop of the ConditionWaitLocker in Stop.
  unfoldable pub await_finished : ℕ → Pool T → Pool T
  await_finished i p = caller_at i (if not (is_finished p.state) then waits else saw_finish) p

  -- What a worker does with the item that it holds.
  abbrev pub act : Item T → Worker T
  act (task t) = running t
  act end_task = leaving

  -- CheckCancellation in front of Pop.
  unfoldable pub check_first : ℕ → Pool T → Pool T
  check_first i p =
      if p.is_cancelled i
      then worker_at i leaving (record p { left_early = suc p.left_early })
      else worker_at i popping p

  -- CheckCancellation throws behind Pop: the item is lost, be it a task or an EndTask.
  abbrev pub drop_item : ℕ → Item T → Pool T → Pool T
  drop_item i (task t) p = worker_at i leaving (record p { lost = suc p.lost })
  drop_item i end_task p = worker_at i leaving p

  abbrev pub notify : Caller T → Caller T
  notify (idle r) = idle r
  notify (checked t) = checked t
  notify (stopping k) = stopping k
  notify waits = woken
  notify woken = woken
  notify saw_finish = saw_finish

  unfoldable pub count_stopped : ℕ → Pool T → Pool T
  count_stopped i p =
      worker_at i (counting (suc p.stopped_thread_num))
        (record p { stopped_thread_num = suc p.stopped_thread_num })

  -- NotifyWhenThreadsStop behind the count.
  unfoldable pub finish : ℕ → ℕ → ℕ → Pool T → Pool T
  finish n i stopped_thread_num p =
      if leb n stopped_thread_num
      then worker_at i stopped (record p {
        callers = (λ j. if p.is_request_stop then notify (p.callers j) else p.callers j);
        state = finished_state;
      })
      else worker_at i stopped p

  -- A move of one of `c` callers or of the `n` workers, or a wake-up that nobody asked for.
  pub data Step (c n : ℕ) (p : Pool T) : Pool T → Type ℓ where
    adds_task :
        {r : Option T} (i : ℕ) (t : Option T)
        → i < c
        → p.callers i ≡ idle r
        → Step c n p (caller_at i (check_task t p) p)
    pushes_task :
        {t : T} (i : ℕ)
        → i < c
        → p.callers i ≡ checked t
        → Step c n p (caller_at i (idle (some t)) (push (task t) p))
    stops : {r : Option T} (i : ℕ) → i < c → p.callers i ≡ idle r → Step c n p (stop_async n i p)
    pushes_end :
        {k : ℕ} (i : ℕ)
        → i < c
        → p.callers i ≡ stopping (suc k)
        → Step c n p (caller_at i (stopping k) (push end_task p))
    returns_async :
        (i : ℕ) → i < c → p.callers i ≡ stopping 0 → Step c n p (caller_at i (idle none) p)
    awaits : (i : ℕ) → i < c → p.callers i ≡ stopping 0 → Step c n p (await_finished i p)
    goes_on : (i : ℕ) → i < c → p.callers i ≡ woken → Step c n p (await_finished i p)
    wakes : (i : ℕ) → i < c → Step c n p (caller_at i (notify (p.callers i)) p)
    takes :
        {item : Item T} {rest : List (Item T)} (i : ℕ)
        → i < n
        → p.workers i ≡ popping
        → p.queue ≡ item ∷ rest
        → Step c n p
            (worker_at i (holding item) (record p { queue = rest; taken = p.taken ++ item ∷ [] }))
    acts :
        {item : Item T} (i : ℕ)
        → i < n
        → p.workers i ≡ holding item
        → Step c n p (worker_at i (act item) p)
    run_returns :
        {t : T} (i : ℕ)
        → i < n
        → p.workers i ≡ running t
        → Step c n p (worker_at i ready (record p { completed = suc p.completed }))
    cancels :
        (i j : ℕ)
        → i < c
        → p.callers i ≡ stopping 0
        → Step c n p (record p { is_cancelled = update p.is_cancelled j true })
    checks : (i : ℕ) → i < n → p.workers i ≡ ready → Step c n p (check_first i p)
    drops :
        {item : Item T} (i : ℕ)
        → i < n
        → p.workers i ≡ holding item
        → p.is_cancelled i ≡ true
        → Step c n p (drop_item i item p)
    run_throws :
        {t : T} (i : ℕ)
        → i < n
        → p.workers i ≡ running t
        → Step c n p (worker_at i leaving (record p { lost = suc p.lost }))
    counts_stopped : (i : ℕ) → i < n → p.workers i ≡ leaving → Step c n p (count_stopped i p)
    finishes : {k : ℕ} (i : ℕ) → i < n → p.workers i ≡ counting k → Step c n p (finish n i k p)

  -- What a pool of `n` workers with `c` callers comes to.
  pub data Reach (c n : ℕ) : Pool T → Type ℓ where
    begins : Reach c n start
    later : {p q : Pool T} → Reach c n p → Step c n p q → Reach c n q
