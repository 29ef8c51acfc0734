-- ===== src/Barrier/Generations.antt =====
-- The count of a CyclicBarrier and the threads of its current generation.
use tpool.Threads.{load, load-update, load-zero, update-all}
use tpool.Base.{
  Bool, Bool-cases, ap, arith, false, if◌then◌else◌, inl, inr, leb, refl, some, suc, sym, true, ℕ,
  ◌&&◌, ◌+◌, ◌-◌, ◌<◌, ◌==◌, ◌≡◌,
}
use tpool.Text.{count, same}
use tpool.Barrier.{
  CyclicBarrier, Monitor, Pc, Reach, Step, begins, calls_reset, calls_wait, construct, goes_on,
  goes_on_wait, idle, is_current, later, leaves, notify, reset, returned, stand, trip, wait, waits,
  wakes, woken,
}

-- 1 for a thread that waits for the barrier to trip now.
abbrev pub weight : CyclicBarrier → Pc → ℕ
weight s idle = 0
weight s (waits b r) = if is_current s b r then 1 else 0
weight s (woken b r) = if is_current s b r then 1 else 0
weight s (returned ret) = 0

abbrev pub fits : CyclicBarrier → Pc → Bool
fits s idle = true
fits s (waits b r) = is_current s b r
fits s (woken b r) = leb b s.barrier_index && leb r s.reset_index
fits s (returned ret) = true

pub record IsGathered (n : ℕ) (m : Monitor) : Type 0 where
  pub positive : 0 < m.shared.count
  pub counted : load (weight m.shared) n m.threads + m.shared.count ≡ m.shared.max_count
  pub placed : (i : ℕ) → fits m.shared (m.threads i) ≡ true

weight-notify : (s : CyclicBarrier) (p : Pc) → weight s (notify p) ≡ weight s p
weight-notify s idle = refl
weight-notify s (waits b r) = refl
weight-notify s (woken b r) = refl
weight-notify s (returned ret) = refl

fits-notify : (s : CyclicBarrier) (p : Pc) → fits s p ≡ true → fits s (notify p) ≡ true
fits-notify s idle h = h
fits-notify s (waits b r) h = ground arith
fits-notify s (woken b r) h = h
fits-notify s (returned ret) h = h

-- A thread moves to a place of the same weight.
stand-IsGathered :
    (n i : ℕ) (p : Pc) (m : Monitor)
    → i < n
    → fits m.shared p ≡ true
    → weight m.shared p ≡ weight m.shared (m.threads i)
    → IsGathered n m
    → IsGathered n (stand i p m)
stand-IsGathered n i p m lt new same s = record {
  positive = s.positive;
  counted = omega (arith, load-update (weight m.shared) m.threads i p lt, same, s.counted);
  placed = update-all (λ q. fits m.shared q ≡ true) i new s.placed;
}

-- A shared state that no waiting thread is of.
abbrev Newer : CyclicBarrier → CyclicBarrier → Type 0
Newer old new =
    (p : Pc) → fits old p ≡ true → (weight new (notify p) ≡ 0) × (fits new (notify p) ≡ true)

trip-Newer : (s : CyclicBarrier) → Newer s (trip s)
trip-Newer s idle h = (refl, refl)
trip-Newer s (waits b r) h = ground arith
trip-Newer s (woken b r) h = ground arith
trip-Newer s (returned ret) h = (refl, refl)

reset_of : CyclicBarrier → CyclicBarrier
reset_of s = record s { count = s.max_count; reset_index = suc s.reset_index }

reset-Newer : (s : CyclicBarrier) → Newer s (reset_of s)
unfolding reset_of
reset-Newer s idle h = (refl, refl)
reset-Newer s (waits b r) h = ground arith
reset-Newer s (woken b r) h = ground arith
reset-Newer s (returned ret) h = (refl, refl)

-- All are told and a new generation begins with the full count.
renewed :
    (n : ℕ) (s : CyclicBarrier) (threads : ℕ → Pc)
    → 0 < s.max_count
    → s.count ≡ s.max_count
    → ((i : ℕ) → (weight s (threads i) ≡ 0) × (fits s (threads i) ≡ true))
    → IsGathered n (record { shared = s; threads = threads })
renewed n s threads positive full free = record {
  positive = omega (arith, positive, full);
  counted = omega (arith, full, load-zero (weight s) n threads (λ i. (free i).0));
  placed = λ i. (free i).1;
}

-- One more thread of the current generation.
joined :
    (n i : ℕ) (m : Monitor)
    → i < n
    → m.threads i ≡ idle
    → (m.shared.count - 1 == 0) ≡ false
    → IsGathered n m
    → IsGathered n (wait i m)
unfolding wait goes_on
joined n i m lt at more s =
    let p = waits m.shared.barrier_index m.shared.reset_index in
    let current : is_current m.shared m.shared.barrier_index m.shared.reset_index ≡ true =
      ground arith in
    rw (more, current)
      (record {
        positive = ground (arith, s.positive);
        counted = ground (
          arith,
          load-update (weight m.shared) m.threads i p lt,
          s.counted,
          s.positive,
          current,
          ap (weight m.shared) at,
        );
        placed = update-all (λ q. fits m.shared q ≡ true) i current s.placed;
      })

wait-IsGathered :
    (n i : ℕ) (m : Monitor)
    → 0 < m.shared.max_count
    → i < n
    → m.threads i ≡ idle
    → IsGathered n m
    → IsGathered n (wait i m)
unfolding wait
wait-IsGathered n i m positive lt at s = elim (Bool-cases (m.shared.count - 1 == 0)) [
  | inl last ↦ rw last (
      renewed n (trip m.shared) _ positive refl (
        update-all (λ q. (weight (trip m.shared) q ≡ 0) × (fits (trip m.shared) q ≡ true)) i
          (refl, refl) (λ j. trip-Newer m.shared (m.threads j) (s.placed j))))
  | inr more ↦ joined n i m lt at more s
]

goes_on-IsGathered :
    (n i b r : ℕ) (m : Monitor)
    → i < n
    → m.threads i ≡ woken b r
    → IsGathered n m
    → IsGathered n (goes_on i b r m)
unfolding goes_on
goes_on-IsGathered n i b r m lt at s =
    let heavy = ap (weight m.shared) at in
    elim (Bool-cases (is_current m.shared b r)) [
      | inl current ↦ rw current (stand-IsGathered n i (waits b r) m lt current (sym heavy) s)
      | inr old ↦
          rw old (stand-IsGathered n i (returned _) m lt refl (ground (arith, heavy, old)) s)
    ]

reset-IsGathered :
    (n : ℕ) (m : Monitor) → 0 < m.shared.max_count → IsGathered n m → IsGathered n (reset m)
unfolding reset reset_of
reset-IsGathered n m positive s =
    renewed n (reset_of m.shared) _ positive refl
      (λ j. reset-Newer m.shared (m.threads j) (s.placed j))

max-positive : (n : ℕ) (m : Monitor) → IsGathered n m → 0 < m.shared.max_count
max-positive n m s = omega (arith, s.positive, s.counted)

Step-IsGathered : (n : ℕ) {m m' : Monitor} → Step n m m' → IsGathered n m → IsGathered n m'
Step-IsGathered n {m = m} (calls_wait i lt at) s =
    wait-IsGathered n i m (max-positive n m s) lt at s
Step-IsGathered n {m = m} (goes_on_wait {b = b} {r = r} i lt at) s =
    goes_on-IsGathered n i b r m lt at s
Step-IsGathered n {m = m} (leaves i lt at) s =
    stand-IsGathered n i idle m lt refl (sym (ap (weight m.shared) at)) s
Step-IsGathered n {m = m} calls_reset s = reset-IsGathered n m (max-positive n m s) s
Step-IsGathered n {m = m} (wakes i lt) s =
    stand-IsGathered n i (notify (m.threads i)) m lt
      (fits-notify m.shared (m.threads i) (s.placed i)) (weight-notify m.shared (m.threads i)) s

start-IsGathered :
    (n count : ℕ) {s : CyclicBarrier}
    → construct count ≡ some s
    → IsGathered n (record { shared = s; threads = (λ i. idle) })
unfolding construct
start-IsGathered n count {s = s} made = record {
  positive = ground arith;
  counted = ground (arith, load-zero (weight s) n (λ i. idle) (λ i. refl));
  placed = λ i. refl;
}

-- In every state that calls of Wait and Reset by `n` threads lead to, with any wake-ups: the count
-- is positive, and it is the full count less the threads that wait for the barrier to trip now; a
-- thread that waits and has not been woken is one of them, so no generation that has tripped or
-- been reset leaves a thread asleep.
pub Reach-IsGathered : (n count : ℕ) {m : Monitor} → Reach n count m → IsGathered n m
Reach-IsGathered n count (begins made) = start-IsGathered n count made
Reach-IsGathered n count (later r step) = Step-IsGathered n step (Reach-IsGathered n count r)
