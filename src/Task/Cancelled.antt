-- ===== src/Task/Cancelled.antt =====
-- A thread that cancels a task does not sleep through the end of it.
use tpool.Task.Places.{
  asleep_needs, is_asleep, needs_request, notify-awake, notify-needs, notify-rings, rings,
}
use tpool.Threads.{update, update-all, update-keeps, update-same}
use tpool.Base.{
  Bool, Bool-cases, ap, arith, false, if◌then◌else◌, inl, inr, refl, subst, sym, true, ℕ, ◌∙◌, ◌≡◌,
  ◌≢◌,
}
use tpool.Task.{
  Monitor, Pc, Reach, State, Step, asked, await_stop, awaits, before_notify, begins, calls_cancel,
  calls_cancel_async, calls_run, cancel_async, cancelled, check_cancellation, checked, crashed,
  did_run, do_run_checks, do_run_returns, do_run_throws, finished, goes_on, idle, in_do_run,
  is_stop_state, later, leaves_cancel, leaves_run, notifies, notify, notify_cancellers, ran,
  running, saw_stop, set_state, sets_cancelled, sets_finished, sets_running, stand, start, thrown,
  waits, wakes,
}

abbrev is_cancelled : State → Bool
is_cancelled cancelled = true
is_cancelled s = false

pub record IsAwake (m : Monitor) : Type 0 where
  pub requested : (i : ℕ) → needs_request (m.threads i) ≡ true → m.is_request_cancel ≡ true
  pub asked_for : is_cancelled m.state ≡ true → m.is_request_cancel ≡ true
  pub alarm :
      (i : ℕ)
      → is_asleep (m.threads i) ≡ true
      → is_stop_state m.state ≡ true
      → (j : ℕ) × (rings (m.threads j) ≡ true)

true-false : {b : Bool} → b ≡ false → b ≢ true
true-false e h = ground (arith, sym e ∙ h)

-- A thread moves and the state does not change.
stand-IsAwake :
    (k : ℕ) (p : Pc) (m : Monitor)
    → (needs_request p ≡ true → m.is_request_cancel ≡ true)
    → (rings (m.threads k) ≡ true → rings p ≡ true)
    → (is_asleep p ≡ true → is_stop_state m.state ≡ false)
    → IsAwake m
    → IsAwake (stand k p m)
stand-IsAwake k p m need ring sleep s =
    let still : ((j : ℕ) × (rings (m.threads j) ≡ true))
        → (j : ℕ) × (rings (update m.threads k p j) ≡ true) =
      λ w. (w.0, update-keeps (λ q. rings q ≡ true) m.threads k p ring w.0 w.1) in
    record {
      requested =
          update-all (λ q. needs_request q ≡ true → m.is_request_cancel ≡ true) k need s.requested;
      asked_for = s.asked_for;
      alarm =
          update-all
            (λ q.
              is_asleep q ≡ true
              → is_stop_state m.state ≡ true
              → (j : ℕ) × (rings (update m.threads k p j) ≡ true))
            k (λ a b. absurd (true-false (sleep a) b)) (λ i a b. still (s.alarm i a b));
    }

-- The state becomes one that ends the task, and the thread is about to notify.
stopped-IsAwake :
    (k : ℕ) (state : State) (m : Monitor)
    → (is_cancelled state ≡ true → m.is_request_cancel ≡ true)
    → IsAwake m
    → IsAwake (stand k before_notify (set_state state m))
stopped-IsAwake k state m why s = record {
  requested =
      update-all (λ q. needs_request q ≡ true → m.is_request_cancel ≡ true) k (λ e. ground arith)
        s.requested;
  asked_for = why;
  alarm = λ i a b. (k, ap rings (update-same m.threads k before_notify));
}

await_stop-IsAwake :
    (k : ℕ) (m : Monitor)
    → needs_request (m.threads k) ≡ true
    → rings (m.threads k) ≡ false
    → IsAwake m
    → IsAwake (await_stop k m)
unfolding await_stop
await_stop-IsAwake k m at quiet s = elim (Bool-cases (is_stop_state m.state)) [
  | inl stop ↦ rw stop (
      stand-IsAwake k saw_stop m (λ e. s.requested k at) (λ r. absurd (true-false quiet r))
        (λ e. ground arith) s)
  | inr go ↦ rw go (
      stand-IsAwake k waits m (λ e. s.requested k at) (λ r. absurd (true-false quiet r)) (λ e. go)
        s)
]

-- A thread that notifies leaves nobody asleep.
notified :
    (b : Bool) (p : Pc)
    → (needs_request p ≡ true → b ≡ true)
    → (is_asleep p ≡ true → needs_request p ≡ true)
    → (needs_request (if b then notify p else p) ≡ true → b ≡ true)
      × (is_asleep (if b then notify p else p) ≡ false)
notified true p need sleeps = ((λ e. refl), notify-awake p)
notified false p need sleeps = (
  need,
  elim (Bool-cases (is_asleep p)) [
    | inl e ↦ absurd (true-false refl (need (sleeps e)))
    | inr e ↦ e
  ],
)

notify_cancellers-IsAwake :
    (k : ℕ) (m : Monitor) → IsAwake m → IsAwake (stand k ran (notify_cancellers m))
unfolding notify_cancellers
notify_cancellers-IsAwake k m s =
    let told =
      λ (i : ℕ). notified m.is_request_cancel (m.threads i) (s.requested i) (asleep_needs _) in
    record {
      requested =
          update-all (λ q. needs_request q ≡ true → m.is_request_cancel ≡ true) k
            (λ e. ground arith) (λ i. (told i).0);
      asked_for = s.asked_for;
      alarm =
          update-all
            (λ q.
              is_asleep q ≡ true
              → is_stop_state m.state ≡ true
              → (j : ℕ) × (rings ((stand k ran (notify_cancellers m)).threads j) ≡ true))
            k (λ a b. ground arith) (λ i a b. absurd (true-false (told i).1 a));
    }

cancel_async-IsAwake : (m : Monitor) → IsAwake m → IsAwake (cancel_async m)
unfolding cancel_async
cancel_async-IsAwake m s = record {
  requested = λ i e. refl;
  asked_for = λ e. refl;
  alarm = s.alarm;
}

set_running-IsAwake : (m : Monitor) → IsAwake m → IsAwake (set_state running m)
set_running-IsAwake m s = record {
  requested = s.requested;
  asked_for = λ e. ground arith;
  alarm = λ i a b. ground arith;
}

calls_cancel-IsAwake :
    (k : ℕ) (m : Monitor)
    → rings (m.threads k) ≡ false
    → IsAwake m
    → IsAwake (stand k asked (cancel_async m))
unfolding cancel_async
calls_cancel-IsAwake k m quiet s =
    stand-IsAwake k asked (cancel_async m) (λ e. refl) (λ r. absurd (true-false quiet r))
      (λ e. ground arith) (cancel_async-IsAwake m s)

woken-IsAwake : (k : ℕ) (m : Monitor) → IsAwake m → IsAwake (stand k (notify (m.threads k)) m)
woken-IsAwake k m s =
    let p = m.threads k in
    stand-IsAwake k (notify p) m (λ e. s.requested k (sym (notify-needs p) ∙ e))
      (λ r. notify-rings p ∙ r) (λ e. absurd (true-false (notify-awake p) e)) s

-- A thread of a place that neither rings nor needs the request moves to another such place.
quiet-IsAwake :
    (k : ℕ) (p : Pc) (m : Monitor)
    → needs_request p ≡ false
    → rings (m.threads k) ≡ false
    → is_asleep p ≡ false
    → IsAwake m
    → IsAwake (stand k p m)
quiet-IsAwake k p m need quiet awake s =
    stand-IsAwake k p m (λ e. absurd (true-false need e)) (λ r. absurd (true-false quiet r))
      (λ e. absurd (true-false awake e)) s

check-IsAwake :
    (k : ℕ) (p : Pc) (m : Monitor)
    → needs_request p ≡ false
    → rings (m.threads k) ≡ false
    → is_asleep p ≡ false
    → IsAwake m
    → IsAwake (stand k (check_cancellation p m) m)
unfolding check_cancellation
check-IsAwake k p m need quiet awake s = elim (Bool-cases m.is_request_cancel) [
  | inl e ↦
      subst (λ b. IsAwake (stand k (if b then thrown else p) m)) (sym e)
        (stand-IsAwake k thrown m (λ n. e) (λ r. absurd (true-false quiet r)) (λ a. ground arith) s)
  | inr e ↦
      subst (λ b. IsAwake (stand k (if b then thrown else p) m)) (sym e)
        (quiet-IsAwake k p m need quiet awake s)
]

Step-IsAwake : {m n : Monitor} → Step m n → IsAwake m → IsAwake n
Step-IsAwake {m = m} (calls_run k at) s = check-IsAwake k checked m refl (ap rings at) refl s
Step-IsAwake {m = m} (sets_running k at) s =
    quiet-IsAwake k in_do_run _ refl (ap rings at) refl (set_running-IsAwake m s)
Step-IsAwake {m = m} (do_run_checks k at) s = check-IsAwake k in_do_run m refl (ap rings at) refl s
Step-IsAwake {m = m} (do_run_returns k at) s = quiet-IsAwake k did_run m refl (ap rings at) refl s
Step-IsAwake {m = m} (do_run_throws k at) s = quiet-IsAwake k crashed m refl (ap rings at) refl s
Step-IsAwake {m = m} (sets_finished k at) s = stopped-IsAwake k finished m (λ e. ground arith) s
Step-IsAwake {m = m} (sets_cancelled k at) s =
    stopped-IsAwake k cancelled m (λ e. s.requested k (ap needs_request at)) s
Step-IsAwake {m = m} (notifies k at) s = notify_cancellers-IsAwake k m s
Step-IsAwake {m = m} (calls_cancel k at) s = calls_cancel-IsAwake k m (ap rings at) s
Step-IsAwake {m = m} (calls_cancel_async k at) s = cancel_async-IsAwake m s
Step-IsAwake {m = m} (awaits k at) s = await_stop-IsAwake k m (ap needs_request at) (ap rings at) s
Step-IsAwake {m = m} (goes_on k at) s = await_stop-IsAwake k m (ap needs_request at) (ap rings at) s
Step-IsAwake {m = m} (leaves_run k at) s = quiet-IsAwake k idle m refl (ap rings at) refl s
Step-IsAwake {m = m} (leaves_cancel k at) s = quiet-IsAwake k idle m refl (ap rings at) refl s
Step-IsAwake {m = m} (wakes k) s = woken-IsAwake k m s

start-IsAwake : IsAwake start
start-IsAwake = record {
  requested = λ i e. ground arith;
  asked_for = λ e. ground arith;
  alarm = λ i a b. ground arith;
}

-- In every state that calls of Run, Cancel and CancelAsync by any threads lead to, whatever DoRun
-- does and with any wake-ups: a task is in state CANCELLED only if that was asked for; and while a
-- thread waits in Cancel unwoken although the task has stopped, another thread is still in Run and
-- about to notify it.
pub Reach-IsAwake : {m : Monitor} → Reach m → IsAwake m
Reach-IsAwake begins = start-IsAwake
Reach-IsAwake (later r step) = Step-IsAwake step (Reach-IsAwake r)
