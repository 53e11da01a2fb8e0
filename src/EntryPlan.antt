-- ===== src/EntryPlan.antt =====
-- macdbg/core/entry_plan.py: `EntryPlan`, the defenses that wait for the entry point.
pub mod Entry
mod Tests
use macdbg.Prelude.{
  ℕ, Bool, true, false, not, ◌||◌, Option, none, some, List, [], ◌∷◌, ◌++◌, ◌==◌, if◌then◌else◌,
}

-- The names in `MODES`; any other name is `unknown`.
pub data Mode : Type 0 where
  analysis_cloak auto_clock unknown : Mode

-- The set `queued`.
pub record Queued : Type 0 where
  pub cloak : Bool
  pub clock : Bool

abbrev pub holds : Mode → Queued → Bool
holds analysis_cloak q = q.cloak
holds auto_clock q = q.clock
holds unknown q = false

abbrev pub put : Mode → Bool → Queued → Queued
put analysis_cloak b q = record q { cloak = b }
put auto_clock b q = record q { clock = b }
put unknown b q = q

-- What the plan does to the debugger, in its order: a breakpoint is deleted or made, a defense is
-- enabled with the answer of `enable_…`, which is recorded as an event.
pub data Act : Type 0 where
  deleted created : (bid : ℕ) → Act
  enabled : Mode → (ready : Bool) → Act

pub record EntryPlan (E : Type 0) : Type 0 where
  pub queued : Queued
  pub bp : Option ℕ
  pub error : Option E
  pub acts : List Act

pub data Answer (E : Type 0) : Type 0 where
  done : Answer E
  not_entry : Answer E
  not_a_mode not_at_loader no_entry_address : Answer E
  failed : E → Answer E

-- `MODES`
abbrev pub modes : List Mode
modes = analysis_cloak ∷ auto_clock ∷ []

abbrev pub is_unknown : Mode → Bool
is_unknown unknown = true
is_unknown _ = false

abbrev pub is_none : Option ℕ → Bool
is_none none = true
is_none (some n) = false

module _ {E : Type 0} where
  abbrev pub did : List Act → EntryPlan E → EntryPlan E
  did acts plan = record plan { acts = plan.acts ++ acts }

  abbrev pub drop_bp : Option ℕ → Bool → EntryPlan E → EntryPlan E
  drop_bp (some bid) true plan = did (deleted bid ∷ []) plan
  drop_bp _ _ plan = plan

  -- `clear(keep_queue)`, for a debugger that has a target or none.
  unfoldable pub clear : (has_target keep_queue : Bool) → EntryPlan E → EntryPlan E
  clear has_target keep_queue plan = record (drop_bp plan.bp has_target plan) {
    bp = none;
    error = none;
    queued = if keep_queue then plan.queued else record { cloak = false; clock = false };
  }

  -- `queue(name, enabled)`, at the loader's stop or elsewhere.
  unfoldable pub queue : (at_loader : Bool) → Mode → Bool → EntryPlan E → Answer E × EntryPlan E
  queue at_loader name on plan =
      if is_unknown name
      then (not_a_mode, plan)
      else if not at_loader
      then (not_at_loader, plan)
      else (done, record plan { queued = put name on plan.queued })

  -- `arm()`, with the entry address and the answer of the debugger to a hardware breakpoint there,
  -- the number or the error that is raised.
  unfoldable pub arm_at : Option ℕ → (ℕ → Bool × ℕ × E) → EntryPlan E → Answer E × EntryPlan E
  arm_at none create plan = (no_entry_address, plan)
  arm_at (some address) create plan =
      let (made, bid, e) = create address in
      if address == 0
      then (no_entry_address, plan)
      else if made
      then (done, did (created bid ∷ []) (record plan { bp = some bid }))
      else (failed e, plan)

  unfoldable pub arm : Option ℕ → (ℕ → Bool × ℕ × E) → EntryPlan E → Answer E × EntryPlan E
  unfolding arm_at
  arm address create plan = if is_none plan.bp then arm_at address create plan else (done, plan)

  -- `for name in self.MODES`, by the answers of `enable_…`.
  unfoldable pub enable_modes : (Mode → Bool × E) → List Mode → EntryPlan E → Answer E × EntryPlan E
  enable_modes enable [] plan = (done, plan)
  enable_modes enable (name ∷ names) plan =
      let (ready, message) = enable name in
      let tried = did (enabled name ready ∷ []) plan in
      let skipped = enable_modes enable names plan in
      let rest =
        enable_modes enable names (record tried { queued = put name false tried.queued }) in
      if not (holds name plan.queued)
      then skipped
      else if not ready
      then (failed message, record tried { error = some message })
      else rest

  unfoldable pub apply_at : (Mode → Bool × E) → Option ℕ → EntryPlan E → Answer E × EntryPlan E
  unfolding enable_modes
  apply_at enable none plan = (not_entry, plan)
  apply_at enable (some bid) plan =
      enable_modes enable modes (did (deleted bid ∷ []) (record plan { bp = none }))

  -- `apply_stop()`: `done` for true, `not_entry` for false.
  unfoldable pub apply_stop :
      (at_entry : Bool) → (Mode → Bool × E) → EntryPlan E → Answer E × EntryPlan E
  unfolding apply_at
  apply_stop at_entry enable plan =
      if at_entry then apply_at enable plan.bp plan else (not_entry, plan)
