-- ===== src/AnalysisMemory/Stops.antt =====
-- macdbg/core/analysis_memory.py: `enable` and `apply_stop`.
use macdbg.Prelude.{
  ℕ, Bool, true, false, not, ◌&&◌, ◌||◌, Option, none, some, List, [], ◌∷◌, ◌++◌, ltb, ◌==◌,
  if◌then◌else◌, length, map,
}
use macdbg.Http.Text.{all}
use macdbg.ReturnHooks.{Hook, Breakpoints, ReturnHooks, Armed, armed, Frame, bids, arm, consume}
use macdbg.AnalysisMemory.{Live, Problem, cannot_monitor}
use macdbg.AnalysisMemory.Observe.{Region, Event, Scan, observe}
use macdbg.AnalysisMemory.Guard.{
  Api, apis, Payload, Note, scanned, invalidated, first_execution, returned, unobserved, Analysis,
  Process, stopped, is_in, noted, disarm_guard, disable,
}

-- What the code reads of the stop and of its selected thread. `executable` is what LLDB says of the
-- memory at the program counter, or none where it fails.
pub record Stop : Type 0 where
  pub pid : ℕ
  pub stop : ℕ
  pub bad_access : Bool
  pub executable : Option Bool
  pub protects : Bool
  pub ids : List ℕ
  pub frame : Frame
  pub result : ℕ
  pub arguments : List ℕ

pub data Handling : Type 0 where
  visible internal unhandled : Handling

abbrev pub is_open : Option Bool → Bool
is_open none = true
is_open (some executable) = executable

abbrev pub ids_of_hooks : List (ℕ × Api) → List ℕ
ids_of_hooks [] = []
ids_of_hooks ((bid, name) ∷ hooks) = bid ∷ ids_of_hooks hooks

-- `self.hooks[bid]`, of the first of some breakpoints that is one.
unfoldable pub api_of : ℕ → List (ℕ × Api) → Option Api
api_of bid [] = none
api_of bid ((i, name) ∷ hooks) = let rest = api_of bid hooks in if i == bid then some name else rest

abbrev pub or_later : Option Api → Option Api → Option Api
or_later none later = later
or_later (some name) later = some name

unfoldable pub first_api : List ℕ → List (ℕ × Api) → Option Api
unfolding api_of
first_api [] hooks = none
first_api (bid ∷ ids) hooks = or_later (api_of bid hooks) (first_api ids hooks)

unfoldable pub has_id : ℕ → List ℕ → Bool
has_id bid [] = false
has_id bid (i ∷ ids) = i == bid || has_id bid ids

unfoldable pub note_events : List Event → List Note
note_events [] = []
note_events (e ∷ events) = scanned e ∷ note_events events

unfoldable pub note_returns : (result : ℕ) → List (Hook Payload) → List Note
note_returns result [] = []
note_returns result (h ∷ hooks) = returned h.payload result ∷ note_returns result hooks

-- `if key != self._observed: …`
abbrev pub is_seen : Option (ℕ × ℕ) → ℕ × ℕ → Bool
is_seen none key = false
is_seen (some (p, s)) (pid, stop) = p == pid && s == stop

-- `'internal' if ids and ids <= owned else None`
unfoldable pub handling_of : List ℕ → (owned : List ℕ) → Handling
unfolding all has_id
handling_of ids owned =
    if ltb 0 (length ids) && all (λ i. has_id i owned) ids then internal else unhandled

-- An exception of the handler takes the place of the one that it handles.
abbrev pub raised_last : Problem → Option Problem → Problem
raised_last e none = e
raised_last e (some e') = e'

module _ {S : Type 0} where
  -- `observe(baseline)` of the object.
  abbrev pub after_scan : Option Problem × Scan → Analysis S → Option Problem × Analysis S
  unfolding note_events
  after_scan (some e, scan) a =
      (some e, noted (note_events scan.events) (record a { store = scan.store }))
  after_scan (none, scan) a = (
    none,
    noted (note_events scan.events) (record a { store = scan.store; previous = scan.current }),
  )

  unfoldable pub observe_now :
      Live
      → (sha256 : List ℕ → List ℕ) → (baseline : Bool) → List Region
      → Analysis S
      → Option Problem × Analysis S
  unfolding observe note_events
  observe_now live sha256 baseline rows a =
      after_scan (observe live sha256 baseline a.previous rows a.store) a

  unfoldable pub observe_once :
      Live
      → (sha256 : List ℕ → List ℕ) → List Region
      → ℕ × ℕ
      → Analysis S
      → Option Problem × Analysis S
  unfolding observe_now
  observe_once live sha256 rows key a =
      let observed = observe_now live sha256 false rows (record a { observed = some key }) in
      if is_seen a.observed key then (none, a) else observed

  -- The guard's own fault, for the region that is guarded.
  unfoldable pub guard_fault : Stop → Region → Analysis S → Option Problem × Handling × Analysis S
  unfolding disarm_guard
  guard_fault s row a =
      let (e, a') = disarm_guard stopped s.protects (some row) a in
      if is_open s.executable
      then (none, visible, noted (invalidated s.frame.pc row ∷ []) (record a { guard = none }))
      else elim e [
        | some problem ↦ (some problem, visible, a')
        | none ↦ (
          none,
          visible,
          noted (first_execution s.frame.pc row ∷ [])
              (record a' { guard_stop = some (s.pid, s.stop, s.frame.pc) }),
        )
      ]

  module _ (b : Breakpoints S) where
    abbrev pub after_arm :
        Stop
        → Handling
        → Armed × ReturnHooks S Payload
        → Analysis S
        → Option Problem × Handling × Analysis S
    after_arm s handling (armed sequence, r) a = (none, handling, record a { returns = r })
    after_arm s handling (_, r) a =
        (none, visible, noted (unobserved s.arguments ∷ []) (record a { returns = r }))

    unfoldable pub arm_return :
        Stop → Handling → Option Api → Analysis S → Option Problem × Handling × Analysis S
    unfolding arm
    arm_return s handling none a = (none, handling, a)
    arm_return s handling (some name) a =
        after_arm s handling
          (arm b s.frame (record { name = name; arguments = s.arguments }) a.returns) a

    -- The breakpoints of a stop at which the returns are consumed.
    unfoldable pub handle_breakpoint : Stop → Analysis S → Option Problem × Handling × Analysis S
    unfolding consume note_returns first_api arm_return handling_of
    handle_breakpoint s a =
        let (completed, r) = consume b s.frame a.returns in
        let owned = ids_of_hooks a.hooks ++ bids a.returns.pending in
        arm_return s (handling_of s.ids owned) (first_api s.ids a.hooks)
          (noted (note_returns s.result completed) (record a { returns = r }))

    abbrev pub after_observe :
        Stop → Option Problem × Analysis S → Option Problem × Handling × Analysis S
    unfolding handle_breakpoint
    after_observe s (some e, a) = (some e, unhandled, a)
    after_observe s (none, a) =
        if s.frame.is_breakpoint then handle_breakpoint s a else (none, unhandled, a)

    -- `apply_stop()` without a fault of the guard.
    unfoldable pub apply_unguarded :
        Live
        → (sha256 : List ℕ → List ℕ) → List Region
        → Stop
        → Analysis S
        → Option Problem × Handling × Analysis S
    unfolding observe_once handle_breakpoint
    apply_unguarded live sha256 rows s a =
        let observed = observe_once live sha256 rows (s.pid, s.stop) a in
        if not a.enabled then (none, unhandled, a) else after_observe s observed

    abbrev pub faulting : Stop → Option Region → Option Region
    faulting s none = none
    faulting s (some row) = if s.bad_access && is_in s.frame.pc row then some row else none

    abbrev pub apply_guarded :
        Live
        → (sha256 : List ℕ → List ℕ) → List Region
        → Stop
        → Option Region
        → Analysis S
        → Option Problem × Handling × Analysis S
    unfolding guard_fault apply_unguarded
    apply_guarded live sha256 rows s none a = apply_unguarded live sha256 rows s a
    apply_guarded live sha256 rows s (some row) a = guard_fault s row a

    -- `apply_stop()`
    unfoldable pub apply_stop :
        Live
        → (sha256 : List ℕ → List ℕ) → List Region
        → Stop
        → Analysis S
        → Option Problem × Handling × Analysis S
    unfolding guard_fault apply_unguarded
    apply_stop live sha256 rows s a = apply_guarded live sha256 rows s (faulting s a.guard) a

    -- `for name in self.HOOKS`: `make` is whether the command succeeded, and the breakpoints it made.
    unfoldable pub make_hooks :
        (make : Api → S → Bool × List ℕ × S) → List Api → Analysis S → Option Problem × Analysis S
    make_hooks make [] a = (none, a)
    make_hooks make (name ∷ names) a =
        let (succeeded, created, s) = make name a.returns.debugger in
        let next : Analysis S = record a {
          hooks = a.hooks ++ map (λ bid. (bid, name)) created;
          returns = record a.returns { debugger = s };
        } in
        let rest = make_hooks make names next in
        if succeeded && length created == 1 then rest else (some cannot_monitor, next)

    abbrev pub after_hooks :
        (has_target : Bool)
        → Process
        → (protects : Bool) → Option Problem × Analysis S
        → Option Problem × Analysis S
    unfolding disable
    after_hooks has_target process protects (none, a) = (none, record a { enabled = true })
    after_hooks has_target process protects (some e, a) =
        let (e', a') = disable b has_target process protects a in (some (raised_last e e'), a')

    abbrev pub enable_observed :
        (has_target : Bool)
        → Process
        → (protects : Bool) → (make : Api → S → Bool × List ℕ × S) → Option Problem × Analysis S
        → Option Problem × Analysis S
    unfolding make_hooks disable
    enable_observed has_target process protects make (some e, a) = (some e, a)
    enable_observed has_target process protects make (none, a) =
        after_hooks has_target process protects (make_hooks make apis a)

    -- `enable()`
    unfoldable pub enable :
        Live
        → (sha256 : List ℕ → List ℕ) → List Region
        → (has_target : Bool) → Process
        → (protects : Bool) → (make : Api → S → Bool × List ℕ × S) → Analysis S
        → Option Problem × Analysis S
    unfolding observe_now make_hooks disable
    enable live sha256 rows has_target process protects make a =
        let tried =
          enable_observed has_target process protects make (observe_now live sha256 true rows a) in
        if a.enabled then (none, a) else tried
