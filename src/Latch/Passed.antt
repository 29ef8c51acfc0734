-- ===== src/Latch/Passed.antt =====
-- Who passes a CountDownLatch, and when.
use tpool.Threads.{update-all}
use tpool.Base.{
  Bool, Bool-cases, ap, arith, if◌then◌else◌, inl, inr, leb, ltb, negsuc, pos, refl, some, subst,
  suc, sym, true, ℕ, ℤ, ◌-◌, ◌==◌, ◌∙◌, ◌≡◌,
}
use tpool.Text.{count}
use tpool.Latch.{
  Monitor, Pc, Reach, Step, begins, calls_count_down, calls_wait, construct, count_down,
  goes_on_wait, idle, is_positive, is_zero, later, notify, passed, pred, stand, wait, waits, wakes,
  woken,
}

-- n - k
abbrev difference : ℕ → ℕ → ℤ
difference n k = if leb k n then pos (n - k) else negsuc (k - n - 1)

pred_zero : (x : ℕ) → x ≡ 0 → pred (pos x) ≡ negsuc 0
pred_zero x e = ap (λ z. pred (pos z)) e

pred_pos : (x y : ℕ) → x ≡ suc y → pred (pos x) ≡ pos y
pred_pos x y e = ap (λ z. pred (pos z)) e

pred-difference : (n k : ℕ) → pred (difference n k) ≡ difference n (suc k)
pred-difference n k = elim (Bool-cases (leb (suc k) n)) [
  | inl lt ↦ ground (arith, pred_pos (n - k) (n - suc k) (ground arith))
  | inr ge ↦ elim (Bool-cases (k == n)) [
    | inl e ↦ ground (arith, pred_zero (n - k) (ground arith))
    | inr ne ↦ ground arith
  ]
]

-- What a thread's place says of the calls of CountDown so far.
abbrev pub fits : ℕ → ℕ → Pc → Bool
fits count downs idle = true
fits count downs waits = ltb downs count
fits count downs woken = true
fits count downs passed = leb count downs

pub record IsCounted (count : ℕ) (m : Monitor) : Type 0 where
  pub counted : m.count ≡ difference count m.downs
  pub placed : (i : ℕ) → fits count m.downs (m.threads i) ≡ true

is_positive-difference : (n k : ℕ) → is_positive (difference n k) ≡ ltb k n
is_positive-difference n k = ground arith

stand-IsCounted :
    (count i : ℕ) (p : Pc) (m : Monitor)
    → fits count m.downs p ≡ true
    → IsCounted count m
    → IsCounted count (stand i p m)
stand-IsCounted count i p m new s = record {
  counted = s.counted;
  placed = update-all (λ q. fits count m.downs q ≡ true) i new s.placed;
}

wait-IsCounted : (count i : ℕ) (m : Monitor) → IsCounted count m → IsCounted count (wait i m)
unfolding wait
wait-IsCounted count i m s =
    let test = ap is_positive s.counted ∙ is_positive-difference count m.downs in
    elim (Bool-cases (is_positive m.count)) [
      | inl more ↦ rw more (stand-IsCounted count i waits m (ground (arith, test, more)) s)
      | inr done ↦ rw done (stand-IsCounted count i passed m (ground (arith, test, done)) s)
    ]

count_down-fits :
    (count downs : ℕ) (p : Pc)
    → fits count downs p ≡ true
    → fits count (suc downs) (if is_zero (difference count (suc downs)) then notify p else p) ≡ true
count_down-fits count downs idle h = ground arith
count_down-fits count downs waits h = ground arith
count_down-fits count downs woken h = ground arith
count_down-fits count downs passed h = ground arith

count_down-IsCounted :
    (count : ℕ) (m : Monitor) → IsCounted count m → IsCounted count (count_down m)
unfolding count_down
count_down-IsCounted count m s =
    let lower = ap pred s.counted ∙ pred-difference count m.downs in
    record {
      counted = lower;
      placed = λ i.
          subst
            (λ z.
              fits count (suc m.downs) (if is_zero z then notify (m.threads i) else m.threads i)
              ≡ true)
            (sym lower) (count_down-fits count m.downs (m.threads i) (s.placed i));
    }

notify-fits :
    (count downs : ℕ) (p : Pc) → fits count downs p ≡ true → fits count downs (notify p) ≡ true
notify-fits count downs idle h = h
notify-fits count downs waits h = refl
notify-fits count downs woken h = h
notify-fits count downs passed h = h

Step-IsCounted : (count : ℕ) {m n : Monitor} → Step m n → IsCounted count m → IsCounted count n
Step-IsCounted count (calls_wait i at) s = wait-IsCounted count i _ s
Step-IsCounted count (goes_on_wait i at) s = wait-IsCounted count i _ s
Step-IsCounted count calls_count_down s = count_down-IsCounted count _ s
Step-IsCounted count {m = m} (wakes i) s =
    stand-IsCounted count i (notify (m.threads i)) m
      (notify-fits count m.downs (m.threads i) (s.placed i)) s

start-IsCounted : (count : ℕ) {m : Monitor} → construct count ≡ some m → IsCounted count m
unfolding construct
start-IsCounted count made = ground arith

-- In every state that calls of Wait and CountDown lead to, with any wake-ups: the count is the
-- first count less the number of the calls of CountDown; a thread that has come through Wait has
-- seen that many calls, and one that waits and has not been woken lacks some.
pub Reach-IsCounted : (count : ℕ) {m : Monitor} → Reach count m → IsCounted count m
Reach-IsCounted count (begins made) = start-IsCounted count made
Reach-IsCounted count (later r step) = Step-IsCounted count step (Reach-IsCounted count r)
