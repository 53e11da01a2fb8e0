-- ===== src/EntryPlan/Tests.antt =====
-- Runs of macdbg/core/entry_plan.py, and the theorem about the entry stop there.
use macdbg.Prelude.{ℕ, ◌≡◌, refl, Bool, true, false, none, some, [], ◌∷◌}
use macdbg.EntryPlan.{
  Mode, analysis_cloak, auto_clock, unknown, EntryPlan, failed, not_at_loader, queue, arm,
  apply_stop, clear, deleted, created,
}
use macdbg.EntryPlan.Entry.{Entered, apply_stop-Entered}

abbrev blank : EntryPlan ℕ
blank = record {
  queued = record { cloak = false; clock = false };
  bp = none;
  error = none;
  acts = [];
}

abbrev ready_plan : EntryPlan ℕ
ready_plan =
    (arm (some 64) (λ address. (true, 3, 0))
      (queue true auto_clock true (queue true analysis_cloak true blank).1).1).1

-- The clocks cannot be made ready.
abbrev enable : Mode → Bool × ℕ
enable analysis_cloak = (true, 1)
enable auto_clock = (false, 2)
enable unknown = (false, 0)

apply_stop-failed : (apply_stop true enable ready_plan).0 ≡ failed 2
unfolding apply_stop queue arm
apply_stop-failed = refl

queue-elsewhere : (queue false auto_clock true blank).0 ≡ not_at_loader
unfolding queue
queue-elsewhere = refl

clear-deleted : (clear true false ready_plan).acts ≡ created 3 ∷ deleted 3 ∷ []
unfolding clear queue arm
clear-deleted = refl

ready_plan-bp : ready_plan.bp ≡ some 3
unfolding queue arm
ready_plan-bp = refl

apply_stop-Entered_example : Entered enable ready_plan 3 (apply_stop true enable ready_plan)
apply_stop-Entered_example = apply_stop-Entered enable ready_plan 3 ready_plan-bp
