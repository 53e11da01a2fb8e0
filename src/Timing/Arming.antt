-- ===== src/Timing/Arming.antt =====
-- macdbg/core/timing.py: `enable`, `disable` and `validate`.
use macdbg.Prelude.{
  ℕ, Bool, true, false, not, ◌||◌, Option, none, some, List, [], ◌∷◌, ◌++◌, ◌==◌, if◌then◌else◌,
  length, Result, ok, err, ◌>>=◌, ◌>>◌, raise_if,
}
use macdbg.Prelude.Int.{ℤ}
use macdbg.Http.Text.{any}
use macdbg.Timing.{Hook, Timing, Breakpoints, discard, same_ℤ, has_site, validated}
use macdbg.Timing.Rules.{
  Problem, automatic_clocks, no_rules, hardware_refused, hooks_missing, no_capacity, hook_modified,
  hook_moved, filters_modified, has_commands, overlaps, Rule, Target, check_stopped,
}

-- What LLDB says of the filters of a breakpoint or of its location.
pub record Filters : Type 0 where
  pub condition : Bool
  pub ignore_count : ℕ
  pub auto_continue : Bool
  pub any_thread : Bool
  pub any_index : Bool
  pub thread_name : Bool
  pub queue_name : Bool
  pub commands : ℕ

-- `_check_filters(breakpoint)`
unfoldable pub check_filters : Filters → Result Problem (Unit {0})
check_filters f =
    raise_if
      (f.condition
        || not (f.ignore_count == 0)
        || f.auto_continue
        || not f.any_thread
        || not f.any_index
        || f.thread_name
        || f.queue_name)
      filters_modified
    >> raise_if (not (f.commands == 0)) has_commands

-- What LLDB says of the breakpoint of a hook and of its first location.
pub record Site : Type 0 where
  pub valid : Bool
  pub enabled : Bool
  pub hardware : Bool
  pub locations : ℕ
  pub one_shot : Bool
  pub location_enabled : Bool
  pub location_resolved : Bool
  pub location_address : ℤ
  pub filters : Filters
  pub location_filters : Filters

unfoldable pub check_site : ℤ → Site → Result Problem (Unit {0})
unfolding check_filters
check_site address s = do
  raise_if (not s.valid || not s.enabled || not s.hardware || not (s.locations == 1) || s.one_shot)
      hook_modified
  raise_if
      (not s.location_enabled || not s.location_resolved || not (same_ℤ s.location_address address))
      hook_moved
  checked ← check_filters s.filters
  check_filters s.location_filters

-- `for bp_id, (_, address) in self._hooks.items()`
unfoldable pub check_hooks : (ℕ → Site) → List Hook → Result Problem (Unit {0})
unfolding check_site
check_hooks site [] = ok tt
check_hooks site (h ∷ hooks) = do
  checked ← check_site h.address (site h.bid)
  check_hooks site hooks

abbrev pub sites_of : List Hook → List ℤ
sites_of [] = []
sites_of (h ∷ hooks) = h.address ∷ sites_of hooks

module _ {S : Type 0} where
  -- The checks of `validate()`: `capacity` is the answer of `validate_hardware_capacity`, `software`
  -- has the locations of the breakpoints that are enabled and not of the hardware.
  unfoldable pub check_all :
      Target
      → (capacity : Bool) → (ℕ → Site)
      → (software : List ℤ) → Timing S
      → Result Problem (Unit {0})
  unfolding check_hooks has_site validated any
  check_all t capacity site software d = do
    raise_if (length d.hooks == 0 || not (length d.hooks == length d.rules)) hooks_missing
    raise_if (not capacity) no_capacity
    checked ← check_hooks site d.hooks
    raise_if (any (λ address. has_site address (sites_of d.hooks)) software) overlaps
    (if t.stopped then (validated t d.rules >>= λ rules. ok tt) else ok tt)

  abbrev pub after_checks : Timing S → Result Problem (Unit {0}) → Option Problem × Timing S
  after_checks d (ok u) = (none, d)
  after_checks d (err e) = (some e, record d { last_error = some e })

  abbrev pub validate_now :
      Timing S → Option Problem → Result Problem (Unit {0}) → Option Problem × Timing S
  validate_now d (some e) checked = (some e, d)
  validate_now d none checked = after_checks d checked

  -- `validate()`: the error, or none where it answers true.
  unfoldable pub validate :
      Target
      → (capacity : Bool) → (ℕ → Site)
      → (software : List ℤ) → Timing S
      → Option Problem × Timing S
  unfolding check_all
  validate t capacity site software d =
      if not d.enabled
      then (none, d)
      else validate_now d d.last_error (check_all t capacity site software d)

module _ {S : Type 0} where
  abbrev pub add_hook : Rule → ℤ → Option ℕ × S → Timing S → Bool × Timing S
  add_hook rule address (none, s) d = (false, record d { debugger = s })
  add_hook rule address (some bid, s) d = (
    true,
    record d {
      debugger = s;
      hooks = d.hooks ++ record { bid = bid; rule = rule; address = address } ∷ [];
      hardware_ids = d.hardware_ids ++ bid ∷ [];
    },
  )

module _ {S : Type 0} (b : Breakpoints S) where
  unfoldable pub delete_hooks : List Hook → S → S
  delete_hooks [] s = s
  delete_hooks (h ∷ hooks) s = delete_hooks hooks (b.delete h.bid s)

  unfoldable pub discard_hooks : List Hook → List ℕ → List ℕ
  discard_hooks [] ids = ids
  discard_hooks (h ∷ hooks) ids = discard_hooks hooks (discard h.bid ids)

  -- `disable()`, for a debugger that has a target or none.
  unfoldable pub disable : (has_target : Bool) → Timing S → Timing S
  unfolding delete_hooks discard_hooks
  disable has_target d = record d {
    debugger = if has_target then delete_hooks d.hooks d.debugger else d.debugger;
    hardware_ids = discard_hooks d.hooks d.hardware_ids;
    hooks = [];
    handled = [];
    enabled = false;
    last_error = none;
  }

  -- `for rule, address in validated`: whether every breakpoint was made.
  unfoldable pub arm_rules : List (Rule × ℤ) → Timing S → Bool × Timing S
  arm_rules [] d = (true, d)
  arm_rules ((rule, address) ∷ rules) d =
      let (made, next) = add_hook rule address (b.create address d.debugger) d in
      let rest = arm_rules rules next in if made then rest else (false, next)

  abbrev pub fail_enable : (has_target : Bool) → Problem → Timing S → Option Problem × Timing S
  unfolding disable
  fail_enable has_target e d = (some e, record (disable has_target d) { last_error = some e })

  abbrev pub finish_enable : (has_target : Bool) → Bool × Timing S → Option Problem × Timing S
  unfolding disable
  finish_enable has_target (true, d) =
      (none, record d { enabled = true; last_error = none; handled = []; hits = [] })
  finish_enable has_target (false, d) = fail_enable has_target hardware_refused d

  abbrev pub enable_checked :
      (has_target : Bool) → Timing S → Result Problem (List (Rule × ℤ)) → Option Problem × Timing S
  unfolding disable arm_rules
  enable_checked has_target d (err e) = fail_enable has_target e d
  enable_checked has_target d (ok rules) = finish_enable has_target (arm_rules rules d)

  -- `enable()`, where `clocks` says whether automatic clocks are enabled and `revalidate` is the answer of
  -- `validate()`.
  unfoldable pub enable :
      Target
      → (clocks : Bool) → (revalidate : Timing S → Option Problem × Timing S) → Timing S
      → Option Problem × Timing S
  unfolding check_stopped validated disable arm_rules
  enable t clocks revalidate d =
      let tried = enable_checked t.valid d (
        check_stopped t
        >> raise_if clocks automatic_clocks
        >> raise_if (length d.rules == 0) no_rules
        >> validated t d.rules) in
      if d.enabled then revalidate d else tried
