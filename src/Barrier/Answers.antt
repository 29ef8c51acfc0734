-- ===== src/Barrier/Answers.antt =====
-- What Wait of a CyclicBarrier returns.
use tpool.Threads.{update-same}
use tpool.Barrier.{
  CyclicBarrier, Monitor, Pc, Reach, broken, goes_on, is_current, returned, stand, waits, woken,
}
use tpool.Barrier.Generations.{Reach-IsGathered, fits}
use tpool.Base.{
  Bool, Bool-cases, arith, false, if◌then◌else◌, inl, inr, leb, subst, sym, true, ℕ, ◌&&◌, ◌<◌,
  ◌==◌, ◌≡◌,
}
use tpool.Text.{count, same}

-- Where a woken thread stands after its round of the loop: it waits again, in the generation that
-- it joined; or Wait gives 0, the barrier has tripped since and has not been reset; or Wait gives
-- 1, and it has been reset since.
pub data Answer (s : CyclicBarrier) (b r : ℕ) : Pc → Type 0 where
  again : b ≡ s.barrier_index → r ≡ s.reset_index → Answer s b r (waits b r)
  tripped : b < s.barrier_index → r ≡ s.reset_index → Answer s b r (returned 0)
  was_reset : r < s.reset_index → Answer s b r (returned 1)

broken-Answer :
    (s : CyclicBarrier) (b r : ℕ)
    → leb b s.barrier_index && leb r s.reset_index ≡ true
    → Answer s b r (if is_current s b r then waits b r else returned (broken s r))
broken-Answer s b r le = elim (Bool-cases (r == s.reset_index)) [
  | inl same ↦ elim (Bool-cases (b == s.barrier_index)) [
    | inl e ↦ rw (same, e) (again (ground arith) (ground arith))
    | inr ne ↦ rw (same, ne) (tripped (ground arith) (ground arith))
  ]
  | inr old ↦ elim (Bool-cases (b == s.barrier_index)) [
    | inl e ↦ rw (old, e) (was_reset (ground arith))
    | inr ne ↦ rw (old, ne) (was_reset (ground arith))
  ]
]

stand_if :
    (c : Bool) (i : ℕ) (p q : Pc) (m : Monitor)
    → (if c then stand i p m else stand i q m).threads i ≡ (if c then p else q)
stand_if true i p q m = update-same m.threads i p
stand_if false i p q m = update-same m.threads i q

-- A thread that is woken in a state that calls lead to waits again only in its own generation, and
-- Wait gives 0 to it only if the barrier has tripped and 1 only if it has been reset.
pub goes_on-Answer :
    (n count i b r : ℕ) {m : Monitor}
    → Reach n count m
    → m.threads i ≡ woken b r
    → Answer m.shared b r ((goes_on i b r m).threads i)
unfolding goes_on
goes_on-Answer n count i b r {m = m} reach at =
    let placed = (Reach-IsGathered n count reach).placed i in
    subst (Answer m.shared b r)
      (sym (stand_if (is_current m.shared b r) i (waits b r) (returned (broken m.shared r)) m))
      (broken-Answer m.shared b r (subst (λ p. fits m.shared p ≡ true) at placed))
