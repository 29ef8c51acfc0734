-- ===== src/Pool/Stopped.antt =====
-- What every interleaving of the threads of a pool keeps, and what a stopped pool has done.
use tpool.Pool.Leaving.{check_first-Sound, drop_item-Sound, run_throws-Sound}
use tpool.Pool.Workers.{
  acts-Sound, count_stopped-Sound, finish-Sound, moves, run_returns-Sound, takes-Sound,
}
use tpool.Pool.Callers.{
  asleep-woken, await_finished-Sound, caller_from, check_task-Sound, fits_of, push-Sound,
  stop_async-Sound,
}
use tpool.Threads.{load, load-add-le, load-le, load-zero, update}
use tpool.Pool.{
  Pool, Reach, Step, Worker, acts, adds_task, awaits, begins, cancels, checks, counting,
  counts_stopped, drops, end_task, finishes, goes_on, holding, idle, is_finished, later, leaving,
  popping, pushes_end, pushes_task, ready, returns_async, run_returns, run_throws, running,
  saw_finish, start, stopped, stopping, stops, takes, task, wakes,
}
use tpool.Pool.Counts.{Sound, busy, counted, ends, ends-append, gone, left}
use tpool.Base.{
  [], ap, arith, length, none, refl, some, sym, true, ℕ, ◌++◌, ◌+◌, ◌<◌, ◌∙◌, ◌≡◌, ◌≢◌, ◌≤◌,
}

module _ {ℓ} {T : Type ℓ} (c n : ℕ) where
  start-Sound : Sound c n (start {T = T})
  start-Sound = record {
    fifo = refl;
    ends_pushed = omega (arith, load-zero (left {T = T}) c (λ i. idle none) (λ i. refl));
    ends_taken = omega (arith, load-zero (gone {T = T}) n (λ i. ready) (λ i. refl));
    tasks_taken = omega (arith, load-zero (busy {T = T}) n (λ i. ready) (λ i. refl));
    stopped_num = omega (arith, load-zero (counted {T = T}) n (λ i. ready) (λ i. refl));
    all_stopped = λ f. ground arith;
    callers_fit = λ i. refl;
    workers_fit = λ i. refl;
  }

  Step-Sound : {p q : Pool T} → Step c n p q → Sound c n p → Sound c n q
  Step-Sound {p = p} (adds_task i t lt at) s = check_task-Sound c n i t p lt (ap left at) s
  Step-Sound {p = p} (pushes_task {t = t} i lt at) s =
      push-Sound c n i (idle (some t)) (task t) p lt (sym (ap left at)) refl s
  Step-Sound {p = p} (stops i lt at) s = stop_async-Sound c n i p lt (ap left at) s
  Step-Sound {p = p} (pushes_end {k = k} i lt at) s =
      push-Sound c n i (stopping k) end_task p lt (omega (arith, ap left at))
        (fits_of c n i _ p at s) s
  Step-Sound {p = p} (returns_async i lt at) s = caller_from c n i _ _ p lt at refl refl s
  Step-Sound {p = p} (awaits i lt at) s =
      await_finished-Sound c n i p lt (ap left at) (fits_of c n i _ p at s) s
  Step-Sound {p = p} (goes_on i lt at) s =
      await_finished-Sound c n i p lt (ap left at) (fits_of c n i _ p at s) s
  Step-Sound {p = p} (wakes i lt) s = asleep-woken c n i p lt s
  Step-Sound {p = p} (takes {item = item} {rest = rest} i lt at e) s =
      takes-Sound c n i item rest p lt at e s
  Step-Sound {p = p} (acts {item = item} i lt at) s = acts-Sound c n i item p lt at s
  Step-Sound {p = p} (run_returns {t = t} i lt at) s = run_returns-Sound c n i t p lt at s
  Step-Sound {p = p} (cancels i j lt at) s = record {
    fifo = s.fifo;
    ends_pushed = s.ends_pushed;
    ends_taken = s.ends_taken;
    tasks_taken = s.tasks_taken;
    stopped_num = s.stopped_num;
    all_stopped = s.all_stopped;
    callers_fit = s.callers_fit;
    workers_fit = s.workers_fit;
  }
  Step-Sound {p = p} (checks i lt at) s = check_first-Sound c n i p lt at s
  Step-Sound {p = p} (drops {item = item} i lt at told) s = drop_item-Sound c n i item p lt at s
  Step-Sound {p = p} (run_throws {t = t} i lt at) s = run_throws-Sound c n i t p lt at s
  Step-Sound {p = p} (counts_stopped i lt at) s = count_stopped-Sound c n i p lt at s
  Step-Sound {p = p} (finishes {k = k} i lt at) s = finish-Sound c n i k p lt at s

  pub Reach-Sound : {p : Pool T} → Reach c n p → Sound c n p
  Reach-Sound begins = start-Sound
  Reach-Sound (later r step) = Step-Sound step (Reach-Sound r)

  counted-busy : (w : Worker T) → counted w + busy w ≤ 1
  counted-busy ready = omega arith
  counted-busy popping = omega arith
  counted-busy (holding item) = omega arith
  counted-busy (running t) = omega arith
  counted-busy leaving = omega arith
  counted-busy (counting k) = omega arith
  counted-busy stopped = omega arith

  gone-busy : (w : Worker T) → gone w + busy w ≤ 1
  gone-busy ready = omega arith
  gone-busy popping = omega arith
  gone-busy (holding (task t)) = omega arith
  gone-busy (holding end_task) = omega arith
  gone-busy (running t) = omega arith
  gone-busy leaving = omega arith
  gone-busy (counting k) = omega arith
  gone-busy stopped = omega arith

  counted-gone : (w : Worker T) → counted w ≤ gone w
  counted-gone ready = omega arith
  counted-gone popping = omega arith
  counted-gone (holding item) = omega arith
  counted-gone (running t) = omega arith
  counted-gone leaving = omega arith
  counted-gone (counting k) = omega arith
  counted-gone stopped = omega arith

  -- A pool in which all that was asked for has been done: the stop was requested and all EndTasks
  -- have been pushed and taken, what the queue still holds is tasks pushed behind the last
  -- EndTask, and all tasks that have been taken have run to their end.
  pub record Complete (p : Pool T) : Type ℓ where
    pub stop_requested : p.is_request_stop ≡ true
    pub all_pushed : load left c p.callers ≡ 0
    pub in_order : p.pushed ≡ p.taken ++ p.queue
    pub ends_before : ends p.taken ≡ n
    pub ends_behind : ends p.queue ≡ 0
    pub all_run : length p.taken ≡ n + p.completed

  -- In every state that the callers and the workers lead to, in any order: if the state is
  -- FINISHED, no task has thrown or been dropped and no worker was cancelled in front of Pop, then
  -- the stop was requested, all EndTasks have been pushed and taken, what the queue still holds was
  -- pushed behind the last of them, and all tasks that were taken have run to their end.
  pub finished-Complete :
      {p : Pool T}
      → Reach c n p
      → is_finished p.state ≡ true
      → p.lost ≡ 0
      → p.left_early ≡ 0
      → Complete p
  finished-Complete {p = p} r f calm none_early =
      let s = Reach-Sound r in
      let all = s.all_stopped f in
      let few = load-add-le counted busy n p.workers counted-busy in
      let gone_all = load-le counted gone n p.workers counted-gone in
      let gone_few = load-add-le gone busy n p.workers gone-busy in
      let split = ap ends s.fifo ∙ ends-append p.taken p.queue in
      let most : ends p.pushed + load left c p.callers ≤ n = ground (arith, s.ends_pushed) in
      record {
        stop_requested = ground (
          arith, all.0, all.1, s.stopped_num, gone_all, s.ends_taken, calm, none_early,
          s.ends_pushed, split,
        );
        all_pushed =
            omega
              (arith, all.0, s.stopped_num, gone_all, s.ends_taken, calm, none_early, most, split);
        in_order = s.fifo;
        ends_before = omega (arith, all.0, s.stopped_num, gone_all, gone_few, s.ends_taken, calm);
        ends_behind =
            omega
              (arith, all.0, s.stopped_num, gone_all, s.ends_taken, calm, none_early, most, split);
        all_run = omega (
          arith, all.0, s.stopped_num, few, gone_all, gone_few, s.ends_taken, s.tasks_taken, calm,
          none_early,
        );
      }

  -- Once the stop is requested and all EndTasks are pushed, a worker that waits for a task finds
  -- one in the queue, in every state that the callers and the workers lead to, also where tasks
  -- have thrown or workers were cancelled: no worker sleeps for ever.
  pub popping-queue :
      {p : Pool T} (i : ℕ)
      → Reach c n p
      → p.is_request_stop ≡ true
      → load left c p.callers ≡ 0
      → i < n
      → p.workers i ≡ popping
      → p.queue ≢ []
  popping-queue {p = p} i r asked none_left lt at empty =
      let s = Reach-Sound r in
      let more = moves c n gone i stopped popping p.workers lt at in
      let few = load-add-le gone busy n (update p.workers i stopped) gone-busy in
      let split = ap ends s.fifo ∙ ends-append p.taken p.queue in
      ground (arith, more, few, split, ap ends empty, s.ends_pushed, s.ends_taken, asked, none_left)

  -- A pool of no threads never comes to the state FINISHED, so a call of Stop does not return.
  pub stop_never_returns : {p : Pool T} (i : ℕ) → Reach c n p → n ≡ 0 → p.callers i ≢ saw_finish
  stop_never_returns {p = p} i r zero_threads at =
      let s = Reach-Sound r in
      let finished : is_finished p.state ≡ true = ground (arith, fits_of c n i saw_finish p at s) in
      omega (arith, (s.all_stopped finished).1, zero_threads)
