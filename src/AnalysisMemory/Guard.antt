-- ===== src/AnalysisMemory/Guard.antt =====
-- macdbg/core/analysis_memory.py: the execution guard, and `enable`, `disable` and `apply_stop`, over
-- the return hooks.
use macdbg.Prelude.{
  ℕ, ◌-◌, Bool, true, false, not, ◌&&◌, Option, none, some, List, [], ◌∷◌, ◌++◌, ltb, leb, ◌==◌,
  if◌then◌else◌, Result, ok, err, ◌>>◌, raise_if,
}
use Prim.Native.Nat.{bit_and}
use macdbg.Http.Text.{any}
use macdbg.ReturnHooks.{Breakpoints, ReturnHooks, clear}
use macdbg.AnalysisMemory.{
  Problem, guard_exists, not_executable, too_large, pc_inside, cannot_protect, still_running, Store,
}
use macdbg.AnalysisMemory.Observe.{Region, size_of, Baselines, Event}

-- The calls that are observed.
pub data Api : Type 0 where
  mprotect mach_vm_protect vm_protect mmap dlopen : Api

-- `HOOKS`
abbrev pub apis : List Api
apis = mprotect ∷ mach_vm_protect ∷ vm_protect ∷ mmap ∷ dlopen ∷ []

-- What the return hooks carry: the call and its arguments.
pub record Payload : Type 0 where
  pub name : Api
  pub arguments : List ℕ

pub data Note : Type 0 where
  scanned : Event → Note
  armed_guard invalidated first_execution : (pc : ℕ) → Region → Note
  protected_again : Region → (protection : ℕ) → Note
  returned : Payload → (result : ℕ) → Note
  unobserved : (arguments : List ℕ) → Note

-- The object. `notes` are the events of the log and the changes of protection, in their order.
pub record Analysis (S : Type 0) : Type 0 where
  pub returns : ReturnHooks S Payload
  pub enabled : Bool
  pub hooks : List (ℕ × Api)
  pub store : Store
  pub previous : Baselines
  pub guard : Option Region
  pub guard_stop : Option (ℕ × ℕ × ℕ)
  pub observed : Option (ℕ × ℕ)
  pub notes : List Note

-- The state of the process when protections are restored: `running stops` says whether it can be
-- stopped within the deadline.
pub data Process : Type 0 where
  gone stopped other_state : Process
  running : (stops : Bool) → Process

-- `region['base'] <= address < region['end']`
abbrev pub is_in : ℕ → Region → Bool
is_in address row = leb row.base address && ltb address row.stop

unfoldable pub region_of : ℕ → List Region → Option Region
region_of address [] = none
region_of address (row ∷ rows) =
    let rest = region_of address rows in if is_in address row then some row else rest

abbrev pub may_execute : Region → Bool
may_execute row = not (bit_and row.protection 4 == 0)

abbrev pub check_region : List ℕ → Option Region → Result Problem Region
unfolding any
check_region pcs none = err not_executable
check_region pcs (some row) = do
  raise_if (not (may_execute row)) not_executable
  raise_if (ltb 0x1000000 (size_of row)) too_large
  raise_if (any (λ pc. is_in pc row) pcs) pc_inside
  ok row

abbrev pub is_armed : Option Region → Bool
is_armed none = false
is_armed (some row) = true

module _ {S : Type 0} where
  abbrev pub noted : List Note → Analysis S → Analysis S
  noted notes a = record a { notes = a.notes ++ notes }

  -- `_protect(region, protection)`, where `protects` is the answer of the target.
  unfoldable pub protect :
      (protects : Bool) → Region → (protection : ℕ) → Analysis S → Option Problem × Analysis S
  protect protects row protection a =
      if protects
      then (none, noted (protected_again row protection ∷ []) a)
      else (some cannot_protect, a)

  abbrev pub after_protect :
      ℕ → Region → Option Problem × Analysis S → Result Problem Region × Analysis S
  after_protect address row (some e, a) = (err e, a)
  after_protect address row (none, a) =
      (ok row, noted (armed_guard address row ∷ []) (record a { guard = some row }))

  abbrev pub arm_checked :
      (protects : Bool)
      → ℕ
      → Result Problem Region
      → Analysis S
      → Result Problem Region × Analysis S
  unfolding protect
  arm_checked protects address (err e) a = (err e, a)
  arm_checked protects address (ok row) a =
      -- `region['protection'] & ~4` of a region that may be executed.
      after_protect address row (protect protects row (row.protection - 4) a)

  -- `arm_guard(address)`, for the regions and the program counters of the threads.
  unfoldable pub arm_guard :
      (protects : Bool)
      → List Region
      → (pcs : List ℕ) → ℕ
      → Analysis S
      → Result Problem Region × Analysis S
  unfolding region_of any protect
  arm_guard protects rows pcs address a =
      if is_armed a.guard
      then (err guard_exists, a)
      else arm_checked protects address (check_region pcs (region_of address rows)) a

  abbrev pub forget_guard : Option Problem × Analysis S → Option Problem × Analysis S
  forget_guard (some e, a) = (some e, a)
  forget_guard (none, a) = (none, record a { guard = none })

  abbrev pub restore_guard :
      Process → (protects : Bool) → Region → Analysis S → Option Problem × Analysis S
  unfolding protect
  restore_guard gone protects row a = (none, a)
  restore_guard other_state protects row a = (none, a)
  restore_guard stopped protects row a = protect protects row row.protection a
  restore_guard (running true) protects row a = protect protects row row.protection a
  restore_guard (running false) protects row a = (some still_running, a)

  -- `disarm_guard()`
  unfoldable pub disarm_guard :
      Process → (protects : Bool) → Option Region → Analysis S → Option Problem × Analysis S
  unfolding protect
  disarm_guard process protects none a = (none, record a { guard = none })
  disarm_guard process protects (some row) a = forget_guard (restore_guard process protects row a)

  module _ (b : Breakpoints S) where
    unfoldable pub delete_apis : List (ℕ × Api) → ReturnHooks S Payload → ReturnHooks S Payload
    delete_apis [] r = r
    delete_apis ((bid, name) ∷ hooks) r =
        delete_apis hooks (record r { debugger = b.delete bid r.debugger })

    abbrev pub disable_rest :
        (has_target : Bool) → Option Problem × Analysis S → Option Problem × Analysis S
    unfolding clear delete_apis
    disable_rest has_target (some e, a) = (some e, a)
    disable_rest has_target (none, a) =
        let cleared = clear b a.returns in
        (
          none,
          record a {
            returns = if has_target then delete_apis a.hooks cleared else cleared;
            hooks = [];
            enabled = false;
          },
        )

    -- `disable()`
    unfoldable pub disable :
        (has_target : Bool) → Process → (protects : Bool) → Analysis S → Option Problem × Analysis S
    unfolding disarm_guard clear delete_apis
    disable has_target process protects a =
        disable_rest has_target (disarm_guard process protects a.guard a)

    abbrev pub reset_rest : Option Problem × Analysis S → Option Problem × Analysis S
    reset_rest (some e, a) = (some e, a)
    reset_rest (none, a) = (
      none,
      record a {
        store = record a.store { snapshots = [] };
        previous = [];
        guard_stop = none;
        observed = none;
      },
    )

    -- `reset()`
    unfoldable pub reset :
        (has_target : Bool) → Process → (protects : Bool) → Analysis S → Option Problem × Analysis S
    unfolding disable
    reset has_target process protects a = reset_rest (disable has_target process protects a)
