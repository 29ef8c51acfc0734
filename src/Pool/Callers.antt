-- ===== src/Pool/Callers.antt =====
-- The moves of the threads that call a pool keep its numbers.
use tpool.Threads.{load-update, update-all}
use tpool.Pool.{
  Caller, Item, Pool, await_finished, caller_at, check_task, checked, idle, is_finished, notify,
  push, saw_finish, stop_async, stopping, waits, woken,
}
use tpool.Pool.Counts.{Sound, ends-append, fits, is_end, left, left-notify}
use tpool.Base.{
  Bool-cases, Option, [], ap, append_assoc, arith, if◌then◌else◌, inl, inr, none, not, refl, some,
  subst, sym, true, ℕ, ◌++◌, ◌+◌, ◌<◌, ◌∙◌, ◌∷◌, ◌≡◌,
}
use tpool.Text.{same}

module _ {ℓ} {T : Type ℓ} (c n : ℕ) where
  -- A caller moves and the pool does not change.
  caller-Sound :
      (i : ℕ) (cl : Caller T) (p : Pool T)
      → i < c
      → left cl ≡ left (p.callers i)
      → fits p cl ≡ true
      → Sound c n p
      → Sound c n (caller_at i cl p)
  caller-Sound i cl p lt same new s = record {
    fifo = s.fifo;
    ends_pushed = omega (arith, load-update left p.callers i cl lt, same, s.ends_pushed);
    ends_taken = s.ends_taken;
    tasks_taken = s.tasks_taken;
    stopped_num = s.stopped_num;
    all_stopped = s.all_stopped;
    callers_fit = update-all (λ q. fits p q ≡ true) i new s.callers_fit;
    workers_fit = s.workers_fit;
  }

  -- A caller pushes an item.
  pub push-Sound :
      (i : ℕ) (cl : Caller T) (item : Item T) (p : Pool T)
      → i < c
      → left cl + is_end item ≡ left (p.callers i)
      → fits p cl ≡ true
      → Sound c n p
      → Sound c n (caller_at i cl (push item p))
  push-Sound i cl item p lt same new s = record {
    fifo = ap (λ l. l ++ item ∷ []) s.fifo ∙ append_assoc p.taken p.queue (item ∷ []);
    ends_pushed = omega (
      arith,
      load-update left p.callers i cl lt,
      same,
      s.ends_pushed,
      ends-append p.pushed (item ∷ []),
    );
    ends_taken = s.ends_taken;
    tasks_taken = s.tasks_taken;
    stopped_num = s.stopped_num;
    all_stopped = s.all_stopped;
    callers_fit = update-all (λ q. fits p q ≡ true) i new s.callers_fit;
    workers_fit = s.workers_fit;
  }

  check_task-fits :
      (t : Option T) (p : Pool T) → (left (check_task t p) ≡ 0) × (fits p (check_task t p) ≡ true)
  unfolding check_task
  check_task-fits none p = ground arith
  check_task-fits (some x) p = ground arith

  pub check_task-Sound :
      (i : ℕ) (t : Option T) (p : Pool T)
      → i < c
      → left (p.callers i) ≡ 0
      → Sound c n p
      → Sound c n (caller_at i (check_task t p) p)
  check_task-Sound i t p lt none_left s =
      let placed = check_task-fits t p in
      caller-Sound i (check_task t p) p lt (placed.0 ∙ sym none_left) placed.1 s

  request-fits :
      (p : Pool T) (cl : Caller T)
      → fits p cl ≡ true
      → fits (record p { is_request_stop = true }) cl ≡ true
  request-fits p (idle r) h = refl
  request-fits p (checked t) h = refl
  request-fits p (stopping k) h = refl
  request-fits p waits h = ground arith
  request-fits p woken h = refl
  request-fits p saw_finish h = ground arith

  pub stop_async-Sound :
      (i : ℕ) (p : Pool T)
      → i < c
      → left (p.callers i) ≡ 0
      → Sound c n p
      → Sound c n (stop_async n i p)
  unfolding stop_async
  stop_async-Sound i p lt none_left s = elim (Bool-cases p.is_request_stop) [
    | inl e ↦
        subst
          (λ b. Sound c n (
            if b
            then caller_at i (stopping 0) p
            else caller_at i (stopping n) (record p { is_request_stop = true })))
          (sym e) (caller-Sound i (stopping 0) p lt (sym none_left) e s)
    | inr e ↦
        subst
          (λ b. Sound c n (
            if b
            then caller_at i (stopping 0) p
            else caller_at i (stopping n) (record p { is_request_stop = true })))
          (sym e)
          (record {
            fifo = s.fifo;
            ends_pushed =
                ground (
                  arith,
                  load-update left p.callers i (stopping n) lt,
                  none_left,
                  e,
                  s.ends_pushed,
                );
            ends_taken = s.ends_taken;
            tasks_taken = s.tasks_taken;
            stopped_num = s.stopped_num;
            all_stopped = s.all_stopped;
            callers_fit =
                update-all (λ q. fits (record p { is_request_stop = true }) q ≡ true) i refl
                  (λ j. request-fits p (p.callers j) (s.callers_fit j));
            workers_fit = s.workers_fit;
          })
  ]

  await-fits :
      (p : Pool T)
      → p.is_request_stop ≡ true
      → (left {T = T} (if not (is_finished p.state) then waits else saw_finish) ≡ 0)
        × (fits p (if not (is_finished p.state) then waits else saw_finish) ≡ true)
  await-fits p asked = ground arith

  pub await_finished-Sound :
      (i : ℕ) (p : Pool T)
      → i < c
      → left (p.callers i) ≡ 0
      → p.is_request_stop ≡ true
      → Sound c n p
      → Sound c n (await_finished i p)
  unfolding await_finished
  await_finished-Sound i p lt none_left asked s =
      let placed = await-fits p asked in caller-Sound i _ p lt (placed.0 ∙ sym none_left) placed.1 s

  notify-fits : (p : Pool T) (cl : Caller T) → fits p cl ≡ true → fits p (notify cl) ≡ true
  notify-fits p (idle r) h = refl
  notify-fits p (checked t) h = refl
  notify-fits p (stopping k) h = h
  notify-fits p waits h = ground arith
  notify-fits p woken h = h
  notify-fits p saw_finish h = h

  pub asleep-woken :
      (i : ℕ) (p : Pool T) → i < c → Sound c n p → Sound c n (caller_at i (notify (p.callers i)) p)
  asleep-woken i p lt s =
      caller-Sound i (notify (p.callers i)) p lt (left-notify (p.callers i))
        (notify-fits p (p.callers i) (s.callers_fit i)) s

  pub caller_from :
      (i : ℕ) (cl x : Caller T) (p : Pool T)
      → i < c
      → p.callers i ≡ x
      → left cl ≡ left x
      → fits p cl ≡ true
      → Sound c n p
      → Sound c n (caller_at i cl p)
  caller_from i cl x p lt at same new s = caller-Sound i cl p lt (same ∙ sym (ap left at)) new s

  pub fits_of :
      (i : ℕ) (x : Caller T) (p : Pool T) → p.callers i ≡ x → Sound c n p → fits p x ≡ true
  fits_of i x p at s = subst (λ cl. fits p cl ≡ true) at (s.callers_fit i)
