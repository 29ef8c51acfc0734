-- ===== src/BlockingQueue.antt =====
-- include/BlockingQueue.h: the queue without a bound, which LinearTaskQueue (src/LinearTaskQueue.cpp)
-- gives to the pool. One condition variable carries the mutex; Push notifies all if the queue was
-- empty.
pub mod Ordered
use tpool.Threads.{update}
use tpool.Base.{Bool, List, Option, [], false, if◌then◌else◌, none, some, true, ℕ, ◌++◌, ◌∷◌, ◌≡◌}

-- Where a thread stands: between two calls, with what Pop or Front gave it, or inside a wait.
pub data Pc {ℓ} (A : Type ℓ) : Type ℓ where
  idle : Option A → Pc A
  pop_waits : Pc A
  pop_woken : Pc A
  front_waits : Pc A
  front_woken : Pc A

-- m_queue with the threads, and what has been pushed and popped, first to last.
pub record Monitor {ℓ} (A : Type ℓ) : Type ℓ where
  pub queue : List A
  pub threads : ℕ → Pc A
  pub pushed : List A
  pub popped : List A

module _ {ℓ} {A : Type ℓ} where
  -- The constructors: empty, or with a container.
  abbrev pub start : List A → Monitor A
  start container = record {
    queue = container;
    threads = (λ i. idle none);
    pushed = container;
    popped = [];
  }

  abbrev pub is_empty : List A → Bool
  is_empty [] = true
  is_empty (x ∷ xs) = false

  abbrev pub notify : Pc A → Pc A
  notify (idle r) = idle r
  notify pop_waits = pop_woken
  notify pop_woken = pop_woken
  notify front_waits = front_woken
  notify front_woken = front_woken

  abbrev pub stand : ℕ → Pc A → Monitor A → Monitor A
  stand i p m = record m { threads = update m.threads i p }

  unfoldable pub push : A → Monitor A → Monitor A
  push elem m = record {
    queue = m.queue ++ elem ∷ [];
    threads = (λ i. if is_empty m.queue then notify (m.threads i) else m.threads i);
    pushed = m.pushed ++ elem ∷ [];
    popped = m.popped;
  }

  abbrev pub take_front : ℕ → Pc A → List A → Monitor A → Monitor A
  take_front i otherwise [] m = stand i otherwise m
  take_front i otherwise (elem ∷ rest) m =
      stand i (idle (some elem)) (record m { queue = rest; popped = m.popped ++ elem ∷ [] })

  -- A round of Pop: its wait, or the element.
  unfoldable pub pop : ℕ → Monitor A → Monitor A
  pop i m = take_front i pop_waits m.queue m

  -- The result none is the answer false.
  unfoldable pub nonblocking_pop : ℕ → Monitor A → Monitor A
  nonblocking_pop i m = take_front i (idle none) m.queue m

  abbrev pub see_front : Pc A → List A → Pc A
  see_front otherwise [] = otherwise
  see_front otherwise (elem ∷ rest) = idle (some elem)

  unfoldable pub front : ℕ → Monitor A → Monitor A
  front i m = stand i (see_front front_waits m.queue) m

  unfoldable pub nonblocking_front : ℕ → Monitor A → Monitor A
  nonblocking_front i m = stand i (see_front (idle none) m.queue) m

  pub data Step (m : Monitor A) : Monitor A → Type ℓ where
    calls_push : (elem : A) → Step m (push elem m)
    calls_pop : {r : Option A} (i : ℕ) → m.threads i ≡ idle r → Step m (pop i m)
    goes_on_pop : (i : ℕ) → m.threads i ≡ pop_woken → Step m (pop i m)
    calls_front : {r : Option A} (i : ℕ) → m.threads i ≡ idle r → Step m (front i m)
    goes_on_front : (i : ℕ) → m.threads i ≡ front_woken → Step m (front i m)
    tries_pop : {r : Option A} (i : ℕ) → m.threads i ≡ idle r → Step m (nonblocking_pop i m)
    tries_front : {r : Option A} (i : ℕ) → m.threads i ≡ idle r → Step m (nonblocking_front i m)
    wakes : (i : ℕ) → Step m (stand i (notify (m.threads i)) m)

  pub data Reach (container : List A) : Monitor A → Type ℓ where
    begins : Reach container (start container)
    later : {m n : Monitor A} → Reach container m → Step m n → Reach container n
