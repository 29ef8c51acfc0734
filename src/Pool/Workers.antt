-- ===== src/Pool/Workers.antt =====
-- The moves of the workers keep the numbers of their pool.
use tpool.Threads.{load, load-congr, load-update, update, update-all}
use tpool.Pool.{
  Caller, Item, Pool, Worker, act, checked, count_stopped, counting, end_task, finish,
  finished_state, holding, idle, leaving, notify, popping, ready, running, saw_finish, stopped,
  stopping, task, waits, woken, worker_at,
}
use tpool.Pool.Counts.{
  Sound, busy, counted, ends-append, fits, gone, is_end, left, left-told, reached,
}
use tpool.Base.{
  Bool-cases, List, [], ap, append_assoc, arith, if◌then◌else◌, inl, inr, leb, leb→le,
  length-append, refl, subst, suc, sym, true, ℕ, ◌++◌, ◌+◌, ◌<◌, ◌∙◌, ◌∷◌, ◌≡◌, ◌≤◌,
}

module _ {ℓ} {T : Type ℓ} (c n : ℕ) where
  -- The weight of the workers when one of them moves.
  pub moves :
      (g : Worker T → ℕ) (i : ℕ) (w x : Worker T) (workers : ℕ → Worker T)
      → i < n
      → workers i ≡ x
      → g x + load g n (update workers i w) ≡ g w + load g n workers
  moves g i w x workers lt at =
      subst (λ y. g y + load g n (update workers i w) ≡ g w + load g n workers) at
        (load-update g workers i w lt)

  -- A worker moves and the numbers stay.
  pub worker-Sound :
      (i : ℕ) (w x : Worker T) (p : Pool T)
      → i < n
      → p.workers i ≡ x
      → gone w ≡ gone x
      → busy w ≡ busy x
      → counted w ≡ counted x
      → reached p.stopped_thread_num w ≡ true
      → Sound c n p
      → Sound c n (worker_at i w p)
  worker-Sound i w x p lt at g b k r s = record {
    fifo = s.fifo;
    ends_pushed = s.ends_pushed;
    ends_taken = omega (arith, moves gone i w x p.workers lt at, g, s.ends_taken);
    tasks_taken = omega (arith, moves busy i w x p.workers lt at, b, s.tasks_taken);
    stopped_num = omega (arith, moves counted i w x p.workers lt at, k, s.stopped_num);
    all_stopped = s.all_stopped;
    callers_fit = s.callers_fit;
    workers_fit = update-all (λ v. reached p.stopped_thread_num v ≡ true) i r s.workers_fit;
  }

  is_end-le : (item : Item T) → is_end item ≤ 1
  is_end-le (task t) = omega arith
  is_end-le end_task = omega arith

  pub takes-Sound :
      (i : ℕ) (item : Item T) (rest : List (Item T)) (p : Pool T)
      → i < n
      → p.workers i ≡ popping
      → p.queue ≡ item ∷ rest
      → Sound c n p
      → Sound c n
          (worker_at i (holding item) (record p { queue = rest; taken = p.taken ++ item ∷ [] }))
  takes-Sound i item rest p lt at e s = record {
    fifo = s.fifo ∙ ap (◌++◌ p.taken) e ∙ sym (append_assoc p.taken (item ∷ []) rest);
    ends_pushed = s.ends_pushed;
    ends_taken = omega (
      arith,
      moves gone i (holding item) popping p.workers lt at,
      s.ends_taken,
      ends-append p.taken (item ∷ []),
    );
    tasks_taken = omega (
      arith,
      moves busy i (holding item) popping p.workers lt at,
      s.tasks_taken,
      ends-append p.taken (item ∷ []),
      length-append p.taken (item ∷ []),
      is_end-le item,
    );
    stopped_num =
        omega (arith, moves counted i (holding item) popping p.workers lt at, s.stopped_num);
    all_stopped = s.all_stopped;
    callers_fit = s.callers_fit;
    workers_fit = update-all (λ v. reached p.stopped_thread_num v ≡ true) i refl s.workers_fit;
  }

  pub acts-Sound :
      (i : ℕ) (item : Item T) (p : Pool T)
      → i < n
      → p.workers i ≡ holding item
      → Sound c n p
      → Sound c n (worker_at i (act item) p)
  acts-Sound i (task t) p lt at s = worker-Sound i _ _ p lt at refl refl refl refl s
  acts-Sound i end_task p lt at s = worker-Sound i _ _ p lt at refl refl refl refl s

  pub run_returns-Sound :
      (i : ℕ) (t : T) (p : Pool T)
      → i < n
      → p.workers i ≡ running t
      → Sound c n p
      → Sound c n (worker_at i ready (record p { completed = suc p.completed }))
  run_returns-Sound i t p lt at s = record {
    fifo = s.fifo;
    ends_pushed = s.ends_pushed;
    ends_taken = omega (arith, moves gone i ready (running t) p.workers lt at, s.ends_taken);
    tasks_taken = omega (arith, moves busy i ready (running t) p.workers lt at, s.tasks_taken);
    stopped_num = omega (arith, moves counted i ready (running t) p.workers lt at, s.stopped_num);
    all_stopped = s.all_stopped;
    callers_fit = s.callers_fit;
    workers_fit = update-all (λ v. reached p.stopped_thread_num v ≡ true) i refl s.workers_fit;
  }

  reached-suc : (k : ℕ) (w : Worker T) → reached k w ≡ true → reached (suc k) w ≡ true
  reached-suc k ready h = refl
  reached-suc k popping h = refl
  reached-suc k (holding item) h = refl
  reached-suc k (running t) h = refl
  reached-suc k leaving h = refl
  reached-suc k (counting j) h = ground arith
  reached-suc k stopped h = refl

  pub count_stopped-Sound :
      (i : ℕ) (p : Pool T)
      → i < n
      → p.workers i ≡ leaving
      → Sound c n p
      → Sound c n (count_stopped i p)
  unfolding count_stopped
  count_stopped-Sound i p lt at s =
      let k = suc p.stopped_thread_num in
      record {
        fifo = s.fifo;
        ends_pushed = s.ends_pushed;
        ends_taken = omega (arith, moves gone i (counting k) leaving p.workers lt at, s.ends_taken);
        tasks_taken =
            omega (arith, moves busy i (counting k) leaving p.workers lt at, s.tasks_taken);
        stopped_num =
            omega (arith, moves counted i (counting k) leaving p.workers lt at, s.stopped_num);
        all_stopped = λ f. (omega (arith, (s.all_stopped f).0), (s.all_stopped f).1);
        callers_fit = s.callers_fit;
        workers_fit =
            update-all (λ v. reached k v ≡ true) i {a = counting k} (ground arith)
              (λ j. reached-suc p.stopped_thread_num (p.workers j) (s.workers_fit j));
      }

  finished-fits :
      (p : Pool T) (cl : Caller T)
      → fits p cl ≡ true
      → fits (record p { state = finished_state }) (if p.is_request_stop then notify cl else cl)
        ≡ true
  finished-fits p (idle r) h = ground arith
  finished-fits p (checked t) h = ground arith
  finished-fits p (stopping k) h = ground arith
  finished-fits p waits h = ground arith
  finished-fits p woken h = ground arith
  finished-fits p saw_finish h = ground arith

  finish_last-Sound :
      (i k : ℕ) (p : Pool T)
      → i < n
      → p.workers i ≡ counting k
      → n ≤ k
      → Sound c n p
      → Sound c n (
          worker_at i stopped (record p {
            callers = (λ j. if p.is_request_stop then notify (p.callers j) else p.callers j);
            state = finished_state;
          }))
  finish_last-Sound i k p lt at le s =
      let t = worker-Sound i stopped (counting k) p lt at refl refl refl refl s in
      record {
        fifo = t.fifo;
        ends_pushed = omega (
          arith,
          t.ends_pushed,
          load-congr left left c
              (λ j. if p.is_request_stop then notify (p.callers j) else p.callers j) p.callers
              (λ j. left-told p.is_request_stop (p.callers j)),
        );
        ends_taken = t.ends_taken;
        tasks_taken = t.tasks_taken;
        stopped_num = t.stopped_num;
        all_stopped = λ f. (
          ground
              (arith, le, subst (λ w. reached p.stopped_thread_num w ≡ true) at (s.workers_fit i)),
          omega (arith, lt),
        );
        callers_fit = λ j. finished-fits p (p.callers j) (s.callers_fit j);
        workers_fit = t.workers_fit;
      }

  pub finish-Sound :
      (i k : ℕ) (p : Pool T)
      → i < n
      → p.workers i ≡ counting k
      → Sound c n p
      → Sound c n (finish n i k p)
  unfolding finish
  finish-Sound i k p lt at s = elim (Bool-cases (leb n k)) [
    | inl last ↦ rw last (finish_last-Sound i k p lt at (leb→le n k last) s)
    | inr more ↦ rw more (worker-Sound i stopped (counting k) p lt at refl refl refl refl s)
  ]
