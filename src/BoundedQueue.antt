-- ===== src/BoundedQueue.antt =====
-- include/BoundedBlockingQueue.h: the queue with a bound, its two condition variables, and the
-- threads that call it. A member function holds the mutex from its first line to its last but for
-- the time it waits, so a step is one such stretch; ConditionWaitLocker of
-- include/ConditionVariable.h tests the condition, and tests it again after each wait.
pub mod Kept
use tpool.Threads.{update}
use tpool.Base.{
  Bool, List, Option, [], false, if◌then◌else◌, leb, length, ltb, none, some, true, ℕ, ◌&&◌, ◌++◌,
  ◌==◌, ◌∷◌, ◌≡◌,
}

pub record BoundedBlockingQueue {ℓ} (A : Type ℓ) : Type ℓ where
  pub max_size : ℕ
  pub queue : List A

-- Where a thread stands: between two calls, with what the last Pop or Front gave it, or inside a
-- wait, before or after it is woken.
pub data Pc {ℓ} (A : Type ℓ) : Type ℓ where
  idle : Option A → Pc A
  push_waits : A → Pc A
  push_woken : A → Pc A
  pop_waits : Pc A
  pop_woken : Pc A
  front_waits : Pc A
  front_woken : Pc A

-- The queue with the threads, and what has been pushed and popped so far, first to last.
pub record Monitor {ℓ} (A : Type ℓ) : Type ℓ where
  pub shared : BoundedBlockingQueue A
  pub threads : ℕ → Pc A
  pub pushed : List A
  pub popped : List A

module _ {ℓ} {A : Type ℓ} where
  -- The constructors, with the assertions on the bound and on the container.
  unfoldable pub construct : ℕ → List A → Option (BoundedBlockingQueue A)
  construct max_size container =
      if ltb 0 max_size && leb (length container) max_size
      then some (record { max_size = max_size; queue = container })
      else none

  unfoldable pub size : BoundedBlockingQueue A → ℕ
  size q = length q.queue

  unfoldable pub is_full : BoundedBlockingQueue A → Bool
  unfolding size
  is_full q = size q == q.max_size

  unfoldable pub is_empty : BoundedBlockingQueue A → Bool
  unfolding size
  is_empty q = size q == 0

  -- NotifyAll on m_queue_empty_cond
  unfoldable pub notify_empty : Pc A → Pc A
  notify_empty (idle r) = idle r
  notify_empty (push_waits elem) = push_waits elem
  notify_empty (push_woken elem) = push_woken elem
  notify_empty pop_waits = pop_woken
  notify_empty pop_woken = pop_woken
  notify_empty front_waits = front_woken
  notify_empty front_woken = front_woken

  -- NotifyAll on m_queue_full_cond
  unfoldable pub notify_full : Pc A → Pc A
  notify_full (idle r) = idle r
  notify_full (push_waits elem) = push_woken elem
  notify_full (push_woken elem) = push_woken elem
  notify_full pop_waits = pop_waits
  notify_full pop_woken = pop_woken
  notify_full front_waits = front_waits
  notify_full front_woken = front_woken

  -- pthread_cond_wait may also return when nobody has notified.
  unfoldable pub wake : Pc A → Pc A
  unfolding notify_empty notify_full
  wake p = notify_empty (notify_full p)

  abbrev pub stand : ℕ → Pc A → Monitor A → Monitor A
  stand i p m = record m { threads = update m.threads i p }

  abbrev pub notify_if : Bool → (Pc A → Pc A) → Monitor A → Monitor A
  notify_if b notify m = record m {
    threads = (λ i. if b then notify (m.threads i) else m.threads i);
  }

  -- The lines of Push and NonblockingPush behind the guard.
  unfoldable pub push_elem : A → Monitor A → Monitor A
  unfolding is_empty
  push_elem elem m =
      let told = notify_if (is_empty m.shared) notify_empty m in
      record told {
        shared = record m.shared { queue = m.shared.queue ++ elem ∷ [] };
        pushed = m.pushed ++ elem ∷ [];
      }

  -- The lines of Pop and NonblockingPop behind the guard.
  unfoldable pub pop_elem : A → List A → Monitor A → Monitor A
  unfolding is_full
  pop_elem elem rest m =
      let told = notify_if (is_full m.shared) notify_full m in
      record told { shared = record m.shared { queue = rest }; popped = m.popped ++ elem ∷ [] }

  unfoldable pub push : ℕ → A → Monitor A → Monitor A
  unfolding is_full push_elem
  push i elem m =
      if is_full m.shared
      then stand i (push_waits elem) m
      else stand i (idle none) (push_elem elem m)

  unfoldable pub nonblocking_push : A → Monitor A → Bool × Monitor A
  unfolding is_full push_elem
  nonblocking_push elem m = if is_full m.shared then (false, m) else (true, push_elem elem m)

  -- The head of the queue and the rest, or none for an empty queue.
  unfoldable pub head_of : List A → Option (A × List A)
  head_of [] = none
  head_of (x ∷ xs) = some (x, xs)

  unfoldable pub pop : ℕ → Monitor A → Monitor A
  unfolding head_of pop_elem
  pop i m = elim (head_of m.shared.queue) [
    | none ↦ stand i pop_waits m
    | some (elem, rest) ↦ stand i (idle (some elem)) (pop_elem elem rest m)
  ]

  unfoldable pub nonblocking_pop : Monitor A → Option A × Monitor A
  unfolding head_of pop_elem
  nonblocking_pop m = elim (head_of m.shared.queue) [
    | none ↦ (none, m)
    | some (elem, rest) ↦ (some elem, pop_elem elem rest m)
  ]

  unfoldable pub nonblocking_front : Monitor A → Option A
  unfolding head_of
  nonblocking_front m = elim (head_of m.shared.queue) [
    | none ↦ none
    | some (elem, rest) ↦ some elem
  ]

  unfoldable pub front : ℕ → Monitor A → Monitor A
  unfolding head_of
  front i m = elim (head_of m.shared.queue) [
    | none ↦ stand i front_waits m
    | some (elem, rest) ↦ stand i (idle (some elem)) m
  ]

  -- One stretch under the mutex, by any thread, or a wake-up that nobody asked for.
  pub data Step (m : Monitor A) : Monitor A → Type ℓ where
    calls_push : {r : Option A} (i : ℕ) (elem : A) → m.threads i ≡ idle r → Step m (push i elem m)
    goes_on_push : {elem : A} (i : ℕ) → m.threads i ≡ push_woken elem → Step m (push i elem m)
    calls_pop : {r : Option A} (i : ℕ) → m.threads i ≡ idle r → Step m (pop i m)
    goes_on_pop : (i : ℕ) → m.threads i ≡ pop_woken → Step m (pop i m)
    calls_front : {r : Option A} (i : ℕ) → m.threads i ≡ idle r → Step m (front i m)
    goes_on_front : (i : ℕ) → m.threads i ≡ front_woken → Step m (front i m)
    tries_push :
        {r : Option A} (i : ℕ) (elem : A)
        → m.threads i ≡ idle r
        → Step m (stand i (idle none) (nonblocking_push elem m).1)
    tries_pop :
        {r : Option A} (i : ℕ)
        → m.threads i ≡ idle r
        → Step m (stand i (idle (nonblocking_pop m).0) (nonblocking_pop m).1)
    tries_front :
        {r : Option A} (i : ℕ)
        → m.threads i ≡ idle r
        → Step m (stand i (idle (nonblocking_front m)) m)
    wakes : (i : ℕ) → Step m (stand i (wake (m.threads i)) m)

  abbrev pub start : BoundedBlockingQueue A → Monitor A
  start q = record { shared = q; threads = (λ i. idle none); pushed = q.queue; popped = [] }

  -- What a queue of the given bound and first contents comes to.
  pub data Reach (max_size : ℕ) (container : List A) : Monitor A → Type ℓ where
    begins :
        {q : BoundedBlockingQueue A}
        → construct max_size container ≡ some q
        → Reach max_size container (start q)
    later : {m n : Monitor A} → Reach max_size container m → Step m n → Reach max_size container n
