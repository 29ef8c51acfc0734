-- ===== src/Task.antt =====
-- src/TaskBase.cpp: the state of a task, the threads that run it and the threads that cancel it.
-- Between two accesses of the shared members any other thread may move. OnCancel and OnCallCancel
-- are the default ones, which do nothing; DoRun is left open: it may return, it may leave through
-- CheckCancellation, and it may throw another exception.
pub mod Places
pub mod Cancelled
use tpool.Threads.{update}
use tpool.Base.{Bool, false, if◌then◌else◌, not, true, ℕ, ◌≡◌}

pub data State : Type 0 where
  init : State
  running : State
  finished : State
  cancelled : State

-- Where a thread stands in Run or in Cancel.
pub data Pc : Type 0 where
  idle : Pc
  checked : Pc  -- Run, behind CheckCancellation
  in_do_run : Pc
  did_run : Pc  -- before SetState(FINISHED)
  thrown : Pc  -- in the handler, before SetState(CANCELLED)
  before_notify : Pc
  ran : Pc  -- behind Run
  crashed : Pc  -- out of Run by another exception
  asked : Pc  -- Cancel, behind CancelAsync
  waits : Pc
  woken : Pc
  saw_stop : Pc  -- behind Cancel

pub record Monitor : Type 0 where
  pub state : State
  pub is_request_cancel : Bool
  pub threads : ℕ → Pc

abbrev pub start : Monitor
start = record { state = init; is_request_cancel = false; threads = (λ i. idle) }

abbrev pub is_stop_state : State → Bool
is_stop_state init = false
is_stop_state running = false
is_stop_state finished = true
is_stop_state cancelled = true

-- NotifyAll on m_cancelCondition
abbrev pub notify : Pc → Pc
notify waits = woken
notify idle = idle
notify checked = checked
notify in_do_run = in_do_run
notify did_run = did_run
notify thrown = thrown
notify before_notify = before_notify
notify ran = ran
notify crashed = crashed
notify asked = asked
notify woken = woken
notify saw_stop = saw_stop

abbrev pub stand : ℕ → Pc → Monitor → Monitor
stand i p m = record m { threads = update m.threads i p }

abbrev pub set_state : State → Monitor → Monitor
set_state state m = record m { state = state }

-- CheckCancellation: the handler's place if it throws, the given one if it returns.
unfoldable pub check_cancellation : Pc → Monitor → Pc
check_cancellation go_on m = if m.is_request_cancel then thrown else go_on

-- The ConditionNotifyAllLocker at the end of Run.
unfoldable pub notify_cancellers : Monitor → Monitor
notify_cancellers m = record m {
  threads = (λ i. if m.is_request_cancel then notify (m.threads i) else m.threads i);
}

unfoldable pub cancel_async : Monitor → Monitor
cancel_async m = record m { is_request_cancel = true }

-- A round of the loop of the ConditionWaitLocker in Cancel.
unfoldable pub await_stop : ℕ → Monitor → Monitor
await_stop i m = if not (is_stop_state m.state) then stand i waits m else stand i saw_stop m

pub data Step (m : Monitor) : Monitor → Type 0 where
  calls_run : (i : ℕ) → m.threads i ≡ idle → Step m (stand i (check_cancellation checked m) m)
  sets_running : (i : ℕ) → m.threads i ≡ checked → Step m (stand i in_do_run (set_state running m))
  do_run_checks :
      (i : ℕ) → m.threads i ≡ in_do_run → Step m (stand i (check_cancellation in_do_run m) m)
  do_run_returns : (i : ℕ) → m.threads i ≡ in_do_run → Step m (stand i did_run m)
  do_run_throws : (i : ℕ) → m.threads i ≡ in_do_run → Step m (stand i crashed m)
  sets_finished :
      (i : ℕ) → m.threads i ≡ did_run → Step m (stand i before_notify (set_state finished m))
  sets_cancelled :
      (i : ℕ) → m.threads i ≡ thrown → Step m (stand i before_notify (set_state cancelled m))
  notifies : (i : ℕ) → m.threads i ≡ before_notify → Step m (stand i ran (notify_cancellers m))
  calls_cancel : (i : ℕ) → m.threads i ≡ idle → Step m (stand i asked (cancel_async m))
  calls_cancel_async : (i : ℕ) → m.threads i ≡ idle → Step m (cancel_async m)
  awaits : (i : ℕ) → m.threads i ≡ asked → Step m (await_stop i m)
  goes_on : (i : ℕ) → m.threads i ≡ woken → Step m (await_stop i m)
  leaves_run : (i : ℕ) → m.threads i ≡ ran → Step m (stand i idle m)
  leaves_cancel : (i : ℕ) → m.threads i ≡ saw_stop → Step m (stand i idle m)
  wakes : (i : ℕ) → Step m (stand i (notify (m.threads i)) m)

pub data Reach : Monitor → Type 0 where
  begins : Reach start
  later : {m n : Monitor} → Reach m → Step m n → Reach n
