-- ===== src/Processing/Stack.antt =====
-- The stack of classes from line to line.
use tpool.Run.{returns}
use tpool.Base.{List, arith, suc, zero, ℕ, ◌+◌, ◌≡◌, ◌≤◌}
use tpool.Run.Gives.{Gives, Gives-after, Gives-bind, Gives-value, value}
use tpool.Cleanse.{CleansedLines}
use tpool.Constructs.Tracked.{
  IsTracked, IsTracked-later, check_for_non_standard_constructs-IsTracked,
}
use tpool.Processing.{Job, Tracking, process_line, process_lines}
use tpool.Report.{Effect}

abbrev TrackedAt : ℕ → Tracking → Type 0
TrackedAt n t = IsTracked n t.class_state

process_line-IsTracked :
    (job : Job) (cl : CleansedLines) (n : ℕ) (t : Tracking)
    → TrackedAt n t
    → Gives (TrackedAt (suc n)) (process_line job cl n t)
unfolding process_line
process_line-IsTracked job cl n t h = Gives-after _ _ (λ u1. Gives-after _ _ (λ fs.
    Gives-after _ _ (λ u2. Gives-after _ _ (λ u3. Gives-after _ _ (λ inc.
      Gives-bind _ _ (value _ _ (check_for_non_standard_constructs-IsTracked cl n t.class_state h))
        (λ cs k.
          Gives-after _ _ (λ u4. Gives-after _ _ (λ u5. Gives-after _ _ (λ u6. value _ _ k)))))))))

process_lines-Gives :
    (job : Job) (cl : CleansedLines) (n many last : ℕ) (t : Tracking)
    → n + many ≤ last
    → TrackedAt n t
    → Gives (TrackedAt last) (process_lines job cl n many t)
unfolding process_lines
process_lines-Gives job cl n zero last t le h =
    value _ _ (IsTracked-later t.class_state (omega arith) h)
process_lines-Gives job cl n (suc many) last t le h =
    Gives-bind _ _ (process_line-IsTracked job cl n t h)
      (λ t' k. process_lines-Gives job cl (suc n) many last t' (omega arith) k)

-- From a stack of classes that is tracked at a line, a run over any number of lines that returns
-- leaves one that is tracked after them: each class on it began on a line before, its opening
-- brace has been seen exactly if its braces are open, and its virtual method is a line of its own,
-- before the class inside it.
pub process_lines-IsTracked :
    (job : Job) (clean_lines : CleansedLines) (line many : ℕ) (t t' : Tracking) (es : List Effect)
    → IsTracked line t.class_state
    → process_lines job clean_lines line many t ≡ (es, returns t')
    → IsTracked (line + many) t'.class_state
process_lines-IsTracked job clean_lines line many t t' es h run =
    Gives-value (process_lines-Gives job clean_lines line many (line + many) t (omega arith) h) run
