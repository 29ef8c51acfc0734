-- ===== src/BlockingQueue/Ordered.antt =====
-- The order of a BlockingQueue, and who waits for it.
use tpool.Threads.{update-all}
use tpool.BlockingQueue.{
  Monitor, Pc, Reach, Step, begins, calls_front, calls_pop, calls_push, front, front_waits,
  front_woken, goes_on_front, goes_on_pop, idle, is_empty, later, nonblocking_front,
  nonblocking_pop, notify, pop, pop_waits, pop_woken, push, see_front, stand, take_front,
  tries_front, tries_pop, wakes,
}
use tpool.Base.{
  Bool, List, [], ap, append_assoc, arith, if◌then◌else◌, none, refl, subst, sym, true, ℕ, ◌++◌,
  ◌∙◌, ◌∷◌, ◌≡◌,
}

module _ {ℓ} {A : Type ℓ} where
  -- A thread that sleeps waits for an empty queue.
  abbrev pub rests : List A → Pc A → Bool
  rests queue (idle r) = true
  rests queue pop_waits = is_empty queue
  rests queue pop_woken = true
  rests queue front_waits = is_empty queue
  rests queue front_woken = true

  pub record IsOrdered (m : Monitor A) : Type ℓ where
    pub fifo : m.pushed ≡ m.popped ++ m.queue
    pub placed : (i : ℕ) → rests m.queue (m.threads i) ≡ true

  notify-rests : (queue : List A) (p : Pc A) → rests queue (notify p) ≡ true
  notify-rests queue (idle r) = refl
  notify-rests queue pop_waits = refl
  notify-rests queue pop_woken = refl
  notify-rests queue front_waits = refl
  notify-rests queue front_woken = refl

  -- A queue that had an element had nobody asleep.
  rests-grown : (x : A) (xs ys : List A) (p : Pc A) → rests (x ∷ xs) p ≡ true → rests ys p ≡ true
  rests-grown x xs ys (idle r) h = refl
  rests-grown x xs ys pop_waits h = ground arith
  rests-grown x xs ys pop_woken h = refl
  rests-grown x xs ys front_waits h = ground arith
  rests-grown x xs ys front_woken h = refl

  push-rests :
      (elem : A) (queue : List A) (p : Pc A)
      → rests queue p ≡ true
      → rests (queue ++ elem ∷ []) (if is_empty queue then notify p else p) ≡ true
  push-rests elem [] p h = notify-rests (elem ∷ []) p
  push-rests elem (x ∷ xs) p h = rests-grown x xs (x ∷ (xs ++ elem ∷ [])) p h

  stand-IsOrdered :
      (i : ℕ) (p : Pc A) (m : Monitor A)
      → rests m.queue p ≡ true
      → IsOrdered m
      → IsOrdered (stand i p m)
  stand-IsOrdered i p m new s = record {
    fifo = s.fifo;
    placed = update-all (λ q. rests m.queue q ≡ true) i new s.placed;
  }

  take_front-IsOrdered :
      (i : ℕ) (otherwise : Pc A) (queue : List A) (m : Monitor A)
      → m.queue ≡ queue
      → rests [] otherwise ≡ true
      → IsOrdered m
      → IsOrdered (take_front i otherwise queue m)
  take_front-IsOrdered i otherwise [] m e new s =
      stand-IsOrdered i otherwise m (subst (λ l. rests l otherwise ≡ true) (sym e) new) s
  take_front-IsOrdered i otherwise (elem ∷ rest) m e new s = record {
    fifo = s.fifo ∙ ap (◌++◌ m.popped) e ∙ sym (append_assoc m.popped (elem ∷ []) rest);
    placed =
        update-all (λ q. rests rest q ≡ true) i refl
          (λ j.
            rests-grown elem rest rest (m.threads j)
              (subst (λ l. rests l (m.threads j) ≡ true) e (s.placed j)));
  }

  see_front-rests :
      (otherwise : Pc A) (queue : List A)
      → rests [] otherwise ≡ true
      → rests queue (see_front otherwise queue) ≡ true
  see_front-rests otherwise [] new = new
  see_front-rests otherwise (x ∷ xs) new = refl

  Step-IsOrdered : {m n : Monitor A} → Step m n → IsOrdered m → IsOrdered n
  unfolding push pop front nonblocking_pop nonblocking_front
  Step-IsOrdered {m = m} (calls_push elem) s = record {
    fifo = ap (λ l. l ++ elem ∷ []) s.fifo ∙ append_assoc m.popped m.queue (elem ∷ []);
    placed = λ i. push-rests elem m.queue (m.threads i) (s.placed i);
  }
  Step-IsOrdered {m = m} (calls_pop i at) s = take_front-IsOrdered i pop_waits m.queue m refl refl s
  Step-IsOrdered {m = m} (goes_on_pop i at) s =
      take_front-IsOrdered i pop_waits m.queue m refl refl s
  Step-IsOrdered {m = m} (tries_pop i at) s =
      take_front-IsOrdered i (idle none) m.queue m refl refl s
  Step-IsOrdered {m = m} (calls_front i at) s =
      stand-IsOrdered i _ m (see_front-rests front_waits m.queue refl) s
  Step-IsOrdered {m = m} (goes_on_front i at) s =
      stand-IsOrdered i _ m (see_front-rests front_waits m.queue refl) s
  Step-IsOrdered {m = m} (tries_front i at) s =
      stand-IsOrdered i _ m (see_front-rests (idle none) m.queue refl) s
  Step-IsOrdered {m = m} (wakes i) s =
      stand-IsOrdered i (notify (m.threads i)) m (notify-rests m.queue (m.threads i)) s

  -- In every state that calls of the member functions lead to, in any order and with any wake-ups:
  -- what has been pushed is what has been popped and then what the queue holds, in that order, and
  -- a thread that waits in Pop or Front and has not been woken waits for an empty queue.
  pub Reach-IsOrdered : {container : List A} {m : Monitor A} → Reach container m → IsOrdered m
  Reach-IsOrdered begins = record { fifo = refl; placed = λ i. refl }
  Reach-IsOrdered (later r step) = Step-IsOrdered step (Reach-IsOrdered r)
