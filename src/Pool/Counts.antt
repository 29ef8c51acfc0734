-- ===== src/Pool/Counts.antt =====
-- What the numbers of a pool add up to.
use tpool.Threads.{load}
use tpool.Pool.{
  Caller, Item, Pool, Worker, checked, counting, end_task, holding, idle, is_finished, leaving,
  notify, popping, ready, running, saw_finish, stopped, stopping, task, waits, woken,
}
use tpool.Base.{
  Bool, List, [], arith, false, if◌then◌else◌, leb, length, not, refl, true, ℕ, ◌&&◌, ◌++◌, ◌+◌,
  ◌-◌, ◌<◌, ◌∷◌, ◌≡◌, ◌≤◌,
}

module _ {ℓ} {T : Type ℓ} where
  abbrev pub is_end : Item T → ℕ
  is_end (task t) = 0
  is_end end_task = 1

  abbrev pub ends : List (Item T) → ℕ
  ends [] = 0
  ends (item ∷ items) = is_end item + ends items

  pub ends-append : (xs ys : List (Item T)) → ends (xs ++ ys) ≡ ends xs + ends ys
  ends-append [] ys = omega arith
  ends-append (x ∷ xs) ys = omega (arith, ends-append xs ys)

  -- The EndTasks that a caller has still to push.
  abbrev pub left : Caller T → ℕ
  left (idle r) = 0
  left (checked t) = 0
  left (stopping k) = k
  left waits = 0
  left woken = 0
  left saw_finish = 0

  -- 1 for a worker that will take no other item.
  abbrev pub gone : Worker T → ℕ
  gone ready = 0
  gone popping = 0
  gone (holding item) = is_end item
  gone (running t) = 0
  gone leaving = 1
  gone (counting k) = 1
  gone stopped = 1

  -- 1 for a worker that has a task in hand.
  abbrev pub busy : Worker T → ℕ
  busy ready = 0
  busy popping = 0
  busy (holding item) = 1 - is_end item
  busy (running t) = 1
  busy leaving = 0
  busy (counting k) = 0
  busy stopped = 0

  -- 1 for a worker that has been counted as stopped.
  abbrev pub counted : Worker T → ℕ
  counted ready = 0
  counted popping = 0
  counted (holding item) = 0
  counted (running t) = 0
  counted leaving = 0
  counted (counting k) = 1
  counted stopped = 1

  -- What a caller's place says of the pool.
  abbrev pub fits : Pool T → Caller T → Bool
  fits p (idle r) = true
  fits p (checked t) = true
  fits p (stopping k) = p.is_request_stop
  fits p waits = p.is_request_stop && not (is_finished p.state)
  fits p woken = p.is_request_stop
  fits p saw_finish = p.is_request_stop && is_finished p.state

  -- The number that a counting worker holds has been reached.
  abbrev pub reached : ℕ → Worker T → Bool
  reached k (counting j) = leb j k
  reached k w = true

  pub record Sound (c n : ℕ) (p : Pool T) : Type ℓ where
    pub fifo : p.pushed ≡ p.taken ++ p.queue
    pub ends_pushed : ends p.pushed + load left c p.callers ≡ (if p.is_request_stop then n else 0)
    pub ends_taken : ends p.taken + p.lost + p.left_early ≡ load gone n p.workers
    pub tasks_taken : length p.taken ≡ ends p.taken + p.completed + p.lost + load busy n p.workers
    pub stopped_num : p.stopped_thread_num ≡ load counted n p.workers
    pub all_stopped : is_finished p.state ≡ true → (n ≤ p.stopped_thread_num) × (0 < n)
    pub callers_fit : (i : ℕ) → fits p (p.callers i) ≡ true
    pub workers_fit : (i : ℕ) → reached p.stopped_thread_num (p.workers i) ≡ true

  pub left-notify : (cl : Caller T) → left (notify cl) ≡ left cl
  left-notify (idle r) = refl
  left-notify (checked t) = refl
  left-notify (stopping k) = refl
  left-notify waits = refl
  left-notify woken = refl
  left-notify saw_finish = refl

  pub left-told : (b : Bool) (cl : Caller T) → left (if b then notify cl else cl) ≡ left cl
  left-told true cl = left-notify cl
  left-told false cl = refl
