-- ===== src/Pool/Leaving.antt =====
-- A worker that leaves by an exception, of a task or of its cancellation, keeps the numbers of its pool.
use tpool.Threads.{update-all}
use tpool.Pool.Workers.{moves, worker-Sound}
use tpool.Pool.Counts.{Sound, busy, counted, gone, reached}
use tpool.Base.{Bool-cases, arith, inl, inr, refl, suc, true, ℕ, ◌<◌, ◌≡◌}
use tpool.Pool.{
  Item, Pool, Worker, check_first, drop_item, end_task, holding, leaving, popping, ready, running,
  task, worker_at,
}

module _ {ℓ} {T : Type ℓ} (c n : ℕ) where
  -- A worker leaves with a task in hand.
  lost-Sound :
      (i : ℕ) (x : Worker T) (p : Pool T)
      → i < n
      → p.workers i ≡ x
      → gone x ≡ 0
      → busy x ≡ 1
      → counted x ≡ 0
      → Sound c n p
      → Sound c n (worker_at i leaving (record p { lost = suc p.lost }))
  lost-Sound i x p lt at g b k s = record {
    fifo = s.fifo;
    ends_pushed = s.ends_pushed;
    ends_taken = omega (arith, moves c n gone i leaving x p.workers lt at, g, s.ends_taken);
    tasks_taken = omega (arith, moves c n busy i leaving x p.workers lt at, b, s.tasks_taken);
    stopped_num = omega (arith, moves c n counted i leaving x p.workers lt at, k, s.stopped_num);
    all_stopped = s.all_stopped;
    callers_fit = s.callers_fit;
    workers_fit = update-all (λ v. reached p.stopped_thread_num v ≡ true) i refl s.workers_fit;
  }

  pub run_throws-Sound :
      (i : ℕ) (t : T) (p : Pool T)
      → i < n
      → p.workers i ≡ running t
      → Sound c n p
      → Sound c n (worker_at i leaving (record p { lost = suc p.lost }))
  run_throws-Sound i t p lt at s = lost-Sound i (running t) p lt at refl refl refl s

  leaves_early-Sound :
      (i : ℕ) (p : Pool T)
      → i < n
      → p.workers i ≡ ready
      → Sound c n p
      → Sound c n (worker_at i leaving (record p { left_early = suc p.left_early }))
  leaves_early-Sound i p lt at s = record {
    fifo = s.fifo;
    ends_pushed = s.ends_pushed;
    ends_taken = omega (arith, moves c n gone i leaving ready p.workers lt at, s.ends_taken);
    tasks_taken = omega (arith, moves c n busy i leaving ready p.workers lt at, s.tasks_taken);
    stopped_num = omega (arith, moves c n counted i leaving ready p.workers lt at, s.stopped_num);
    all_stopped = s.all_stopped;
    callers_fit = s.callers_fit;
    workers_fit = update-all (λ v. reached p.stopped_thread_num v ≡ true) i refl s.workers_fit;
  }

  pub check_first-Sound :
      (i : ℕ) (p : Pool T) → i < n → p.workers i ≡ ready → Sound c n p → Sound c n (check_first i p)
  unfolding check_first
  check_first-Sound i p lt at s = elim (Bool-cases (p.is_cancelled i)) [
    | inl told ↦ rw told (leaves_early-Sound i p lt at s)
    | inr not_told ↦ rw not_told (worker-Sound c n i popping ready p lt at refl refl refl refl s)
  ]

  pub drop_item-Sound :
      (i : ℕ) (item : Item T) (p : Pool T)
      → i < n
      → p.workers i ≡ holding item
      → Sound c n p
      → Sound c n (drop_item i item p)
  drop_item-Sound i end_task p lt at s = worker-Sound c n i _ _ p lt at refl refl refl refl s
  drop_item-Sound i (task t) p lt at s = lost-Sound i (holding (task t)) p lt at refl refl refl s
