-- ===== src/Arguments/Exit.antt =====
-- The exit status of a run.
use tpool.Base.{List, all, arith, length, some, sym, true, ◌↔◌, ◌∙◌, ◌≡◌}
use tpool.Text.{Text}
use tpool.LintState.{has_sign}
use tpool.Report.{Effect}
use tpool.Session.{Session, apply_effects}
use tpool.Session.Output.{apply_effects_total}
use tpool.Arguments.{exit_status}

-- With filters that all have a sign and no error counted yet, after any reports and suppressions the
-- exit status is 0 exactly when they have printed no line.
pub exit_status-apply_effects :
    (s s' : Session) (filename : Text) (es : List Effect)
    → all has_sign s.lint.filters ≡ true
    → s.lint.error_count ≡ 0
    → apply_effects s filename es ≡ some s'
    → (exit_status s'.lint ≡ 0) ↔ (length s'.output ≡ length s.output)
unfolding exit_status
exit_status-apply_effects s s' filename es signed fresh run =
    let (t, ends, extends) = apply_effects_total es s filename signed in
    let same_end : some s' ≡ some t = sym run ∙ ends in
    ground (arith, same_end, fresh, extends.counted, extends.grows)
