-- ===== src/BoundedQueue/Kept.antt =====
-- What every interleaving of calls of a BoundedBlockingQueue keeps.
use tpool.Threads.{update-all}
use tpool.BoundedQueue.{
  BoundedBlockingQueue, Monitor, Pc, Reach, Step, begins, calls_front, calls_pop, calls_push,
  construct, front, front_waits, front_woken, goes_on_front, goes_on_pop, goes_on_push, head_of,
  idle, is_empty, is_full, later, nonblocking_pop, nonblocking_push, notify_empty, notify_full, pop,
  pop_elem, pop_waits, pop_woken, push, push_elem, push_waits, push_woken, size, stand, start,
  tries_front, tries_pop, tries_push, wake, wakes,
}
use tpool.Base.{
  Bool, Bool-cases, List, [], ap, append_assoc, arith, false, if◌then◌else◌, inl, inr, length,
  length-append, none, refl, some, subst, sym, true, ℕ, ◌++◌, ◌<◌, ◌∙◌, ◌∷◌, ◌≡◌, ◌≢◌, ◌≤◌, ◌⊎◌,
}

module _ {ℓ} {A : Type ℓ} where
  -- A waiting thread that nobody has woken has a reason to wait.
  abbrev pub fits : BoundedBlockingQueue A → Pc A → Bool
  fits q (push_waits elem) = is_full q
  fits q pop_waits = is_empty q
  fits q front_waits = is_empty q
  fits q p = true

  pub record IsServed (m : Monitor A) : Type ℓ where
    pub fifo : m.pushed ≡ m.popped ++ m.shared.queue
    pub bounded : size m.shared ≤ m.shared.max_size
    pub positive : 0 < m.shared.max_size
    pub woken : (i : ℕ) → fits m.shared (m.threads i) ≡ true

  notify_empty-fits :
      (elem : A) (q : BoundedBlockingQueue A) (p : Pc A)
      → is_full q ≡ false
      → fits q p ≡ true
      → fits (record q { queue = q.queue ++ elem ∷ [] }) (if is_empty q then notify_empty p else p)
        ≡ true
  unfolding is_empty is_full size notify_empty
  notify_empty-fits elem q (idle r) room h = ground arith
  notify_empty-fits elem q (push_waits e) room h = ground arith
  notify_empty-fits elem q (push_woken e) room h = ground arith
  notify_empty-fits elem q pop_waits room h = ground arith
  notify_empty-fits elem q pop_woken room h = ground arith
  notify_empty-fits elem q front_waits room h = ground arith
  notify_empty-fits elem q front_woken room h = ground arith

  notify_full-fits :
      (elem : A) (rest : List A) (q : BoundedBlockingQueue A) (p : Pc A)
      → q.queue ≡ elem ∷ rest
      → length q.queue ≤ q.max_size
      → fits q p ≡ true
      → fits (record q { queue = rest }) (if is_full q then notify_full p else p) ≡ true
  unfolding is_empty is_full size notify_full
  notify_full-fits elem rest q (idle r) e le h = ground arith
  notify_full-fits elem rest q (push_waits x) e le h = ground arith
  notify_full-fits elem rest q (push_woken x) e le h = ground arith
  notify_full-fits elem rest q pop_waits e le h = ground (arith, ap length e)
  notify_full-fits elem rest q pop_woken e le h = ground arith
  notify_full-fits elem rest q front_waits e le h = ground (arith, ap length e)
  notify_full-fits elem rest q front_woken e le h = ground arith

  wake-fits : (q : BoundedBlockingQueue A) (p : Pc A) → fits q p ≡ true → fits q (wake p) ≡ true
  unfolding wake notify_empty notify_full
  wake-fits q (idle r) h = h
  wake-fits q (push_waits e) h = refl
  wake-fits q (push_woken e) h = h
  wake-fits q pop_waits h = refl
  wake-fits q pop_woken h = h
  wake-fits q front_waits h = refl
  wake-fits q front_woken h = h

module _ {ℓ} {A : Type ℓ} where
  stand-IsServed :
      (i : ℕ) (p : Pc A) (m : Monitor A)
      → fits m.shared p ≡ true
      → IsServed m
      → IsServed (stand i p m)
  stand-IsServed i p m new s = record {
    fifo = s.fifo;
    bounded = s.bounded;
    positive = s.positive;
    woken = update-all (λ q. fits m.shared q ≡ true) i new s.woken;
  }

  push_elem-IsServed :
      (elem : A) (m : Monitor A)
      → is_full m.shared ≡ false
      → IsServed m
      → IsServed (push_elem elem m)
  unfolding push_elem size is_full
  push_elem-IsServed elem m room s = record {
    fifo = ap (λ l. l ++ elem ∷ []) s.fifo ∙ append_assoc m.popped m.shared.queue (elem ∷ []);
    bounded = ground (arith, s.bounded, length-append m.shared.queue (elem ∷ []));
    positive = s.positive;
    woken = λ i. notify_empty-fits elem m.shared (m.threads i) room (s.woken i);
  }

  pop_elem-IsServed :
      (elem : A) (rest : List A) (m : Monitor A)
      → m.shared.queue ≡ elem ∷ rest
      → IsServed m
      → IsServed (pop_elem elem rest m)
  unfolding pop_elem size
  pop_elem-IsServed elem rest m e s = record {
    fifo = s.fifo ∙ ap (◌++◌ m.popped) e ∙ sym (append_assoc m.popped (elem ∷ []) rest);
    bounded = ground (arith, s.bounded, ap length e);
    positive = s.positive;
    woken = λ i. notify_full-fits elem rest m.shared (m.threads i) e s.bounded (s.woken i);
  }

  push-IsServed : (i : ℕ) (elem : A) (m : Monitor A) → IsServed m → IsServed (push i elem m)
  unfolding push
  push-IsServed i elem m s = elim (Bool-cases (is_full m.shared)) [
    | inl full ↦ rw full (stand-IsServed i (push_waits elem) m full s)
    | inr room ↦ rw room (stand-IsServed i (idle none) _ refl (push_elem-IsServed elem m room s))
  ]

  nonblocking_push-IsServed :
      (elem : A) (m : Monitor A) → IsServed m → IsServed (nonblocking_push elem m).1
  unfolding nonblocking_push
  nonblocking_push-IsServed elem m s = elim (Bool-cases (is_full m.shared)) [
    | inl full ↦ rw full s
    | inr room ↦ rw room (push_elem-IsServed elem m room s)
  ]

  head_of-cases :
      (xs : List A)
      → ((head_of xs ≡ none) × (xs ≡ []))
        ⊎ ((x : A) × (rest : List A) × (head_of xs ≡ some (x, rest)) × (xs ≡ x ∷ rest))
  unfolding head_of
  head_of-cases [] = inl (refl, refl)
  head_of-cases (x ∷ rest) = inr (x, rest, refl, refl)

  is_empty_of : (q : BoundedBlockingQueue A) → q.queue ≡ [] → is_empty q ≡ true
  unfolding is_empty size
  is_empty_of q e = ground (arith, ap length e)

  pop-IsServed : (i : ℕ) (m : Monitor A) → IsServed m → IsServed (pop i m)
  unfolding pop
  pop-IsServed i m s = elim (head_of-cases m.shared.queue) [
    | inl (h, e) ↦ rw (h, pop) (stand-IsServed i pop_waits m (is_empty_of m.shared e) s)
    | inr (elem, rest, h, e) ↦
        rw (h, pop) (stand-IsServed i (idle (some elem)) _ refl (pop_elem-IsServed elem rest m e s))
  ]

  nonblocking_pop-IsServed : (m : Monitor A) → IsServed m → IsServed (nonblocking_pop m).1
  unfolding nonblocking_pop
  nonblocking_pop-IsServed m s = elim (head_of-cases m.shared.queue) [
    | inl (h, e) ↦ rw (h, nonblocking_pop) s
    | inr (elem, rest, h, e) ↦ rw (h, nonblocking_pop) (pop_elem-IsServed elem rest m e s)
  ]

  front-IsServed : (i : ℕ) (m : Monitor A) → IsServed m → IsServed (front i m)
  unfolding front
  front-IsServed i m s = elim (head_of-cases m.shared.queue) [
    | inl (h, e) ↦ rw (h, front) (stand-IsServed i front_waits m (is_empty_of m.shared e) s)
    | inr (elem, rest, h, e) ↦ rw (h, front) (stand-IsServed i (idle (some elem)) m refl s)
  ]

  Step-IsServed : {m n : Monitor A} → Step m n → IsServed m → IsServed n
  Step-IsServed (calls_push i elem at) s = push-IsServed i elem _ s
  Step-IsServed (goes_on_push {elem = elem} i at) s = push-IsServed i elem _ s
  Step-IsServed (calls_pop i at) s = pop-IsServed i _ s
  Step-IsServed (goes_on_pop i at) s = pop-IsServed i _ s
  Step-IsServed (calls_front i at) s = front-IsServed i _ s
  Step-IsServed (goes_on_front i at) s = front-IsServed i _ s
  Step-IsServed (tries_push i elem at) s =
      stand-IsServed i (idle none) _ refl (nonblocking_push-IsServed elem _ s)
  Step-IsServed (tries_pop i at) s = stand-IsServed i (idle _) _ refl (nonblocking_pop-IsServed _ s)
  Step-IsServed (tries_front i at) s = stand-IsServed i (idle _) _ refl s
  Step-IsServed {m = m} (wakes i) s =
      stand-IsServed i (wake (m.threads i)) m (wake-fits m.shared (m.threads i) (s.woken i)) s

  start-IsServed :
      (max_size : ℕ) (container : List A) {q : BoundedBlockingQueue A}
      → construct max_size container ≡ some q
      → IsServed (start q)
  unfolding construct size
  start-IsServed max_size container made = ground arith

  -- In every state that calls of the member functions lead to, in any order and with any wake-ups:
  -- what has been pushed is what has been popped and then what the queue holds, in that order; the
  -- queue is not above its bound; a thread that waits in Push and has not been woken waits for a
  -- full queue, and one that waits in Pop or Front for an empty one.
  pub Reach-IsServed :
      (max_size : ℕ) (container : List A) {m : Monitor A} → Reach max_size container m → IsServed m
  Reach-IsServed max_size container (begins made) = start-IsServed max_size container made
  Reach-IsServed max_size container (later r step) =
      Step-IsServed step (Reach-IsServed max_size container r)

  full-empty : (q : BoundedBlockingQueue A) → 0 < q.max_size → is_full q ≡ true → is_empty q ≢ true
  unfolding is_full is_empty size
  full-empty q positive full empty = ground arith

  -- No state that calls lead to has both a thread that waits unwoken in Push and one that waits
  -- unwoken in Pop or in Front, so the threads of a queue never all wait for each other.
  pub waits-opposed :
      (max_size : ℕ) (container : List A) {m : Monitor A} (i j : ℕ) {elem : A}
      → Reach max_size container m
      → m.threads i ≡ push_waits elem
      → (m.threads j ≢ pop_waits) × (m.threads j ≢ front_waits)
  waits-opposed max_size container {m = m} i j r at =
      let s = Reach-IsServed max_size container r in
      let full = subst (λ p. fits m.shared p ≡ true) at (s.woken i) in
      let apart =
        λ (p : Pc A) (e : m.threads j ≡ p). subst (λ p. fits m.shared p ≡ true) e (s.woken j) in
      (
        (λ e. full-empty m.shared s.positive full (apart pop_waits e)),
        (λ e. full-empty m.shared s.positive full (apart front_waits e)),
      )
