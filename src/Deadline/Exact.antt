-- ===== src/Deadline/Exact.antt =====
-- The deadline of TimedWait is the time of the call and the delay, to the nanosecond.
use tpool.Deadline.{Timespec, carried, deadline}
use tpool.Base.{
  Bool-cases, arith, inl, inr, leb, leb→le, suc, ℕ, ◌%◌, ◌*◌, ◌+◌, ◌/◌, ◌<◌, ◌^◌, ◌≡◌, ◌≤◌,
}

abbrev pub nanoseconds : Timespec → ℕ
nanoseconds t = t.tv_sec * 1000000000 + t.tv_nsec

carried_lem :
    (sec usec : ℕ)
    → usec < 2000000
    → ((carried sec usec).tv_nsec < 1000000000)
      × (nanoseconds (carried sec usec) ≡ sec * 1000000000 + usec * 1000)
carried_lem sec usec small = elim (Bool-cases (leb 1000000 usec)) [
  | inl over ↦
      let much = leb→le 1000000 usec over in
      rw over (omega (arith, small, much), omega (arith, small, much))
  | inr under ↦ rw under (ground arith, omega arith)
]

carried-le : (sec usec : ℕ) → (carried sec usec).tv_sec ≤ suc sec
carried-le sec usec = ground arith

-- For a delay of 64 bits and a time of day that the clock gives (fewer than 2^62 seconds, fewer
-- than a million microseconds): the deadline has fewer than 10^9 nanoseconds, as pthread requires,
-- its seconds fit in a signed word of 64 bits, and it is the time of day and the delay together.
pub deadline_lem :
    (now_sec now_usec delay_in_ms : ℕ)
    → now_sec < 2 ^ 62
    → now_usec < 1000000
    → delay_in_ms < 2 ^ 64
    → ((deadline now_sec now_usec delay_in_ms).tv_nsec < 1000000000)
      × ((deadline now_sec now_usec delay_in_ms).tv_sec < 2 ^ 63)
      × (nanoseconds (deadline now_sec now_usec delay_in_ms)
          ≡ now_sec * 1000000000 + now_usec * 1000 + delay_in_ms * 1000000)
unfolding deadline
deadline_lem now_sec now_usec delay_in_ms sec usec delay =
    let exact =
      carried_lem (now_sec + delay_in_ms / 1000) (now_usec + delay_in_ms % 1000 * 1000)
        (omega (arith, usec)) in
    let most = carried-le (now_sec + delay_in_ms / 1000) (now_usec + delay_in_ms % 1000 * 1000) in
    (exact.0, omega (arith, most, sec, delay), omega (arith, exact.1))
