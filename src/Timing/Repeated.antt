-- ===== src/Timing/Repeated.antt =====
-- Stops at which `apply_stop` of macdbg/core/timing.py is asked again.
use macdbg.Prelude.{ℕ, ◌≡◌, Bool, true, false, Option, none, some, List, [], if◌then◌else◌, All}
use macdbg.Timing.{Hook, Key, Timing}
use macdbg.Timing.Rules.{Problem}
use macdbg.Timing.Stops.{
  Thread, Round, is_handled, hooks_at, is_applied, key_of, apply_threads, begin_stop,
}

-- What was handled stays handled.
abbrev Extends : List Key → List Key → Type 0
Extends old new = (k : Key) → is_handled k old ≡ true → is_handled k new ≡ true

-- The hooks of a thread are handled at this stop.
abbrev Covered : (pid stop : ℕ) → Thread → List Hook → List Key → Type 0
Covered pid stop thread hooks handled =
    All (λ h. is_handled (key_of pid stop thread h) handled ≡ true) hooks

module _ {S : Type 0} (base pid stop : ℕ) where
  -- What a round that raised nothing has; a round that raised is not spoken of.
  abbrev Ends : (Round S → Type 0) → Option Problem × Round S → Type 0
  Ends Q (none, r) = Q r
  Ends Q (some e, r) = Unit

  -- The round keeps the hooks and what is handled, and has handled the hooks of the thread.
  abbrev Handles : Thread → List Hook → Round S → Round S → Type 0
  Handles thread hooks r r' =
      (r'.timing.hooks ≡ r.timing.hooks)
      × Extends r.timing.handled r'.timing.handled
      × Covered pid stop thread hooks r'.timing.handled

  -- A thread that the loop is done with: its hooks are handled, where rules apply to it.
  abbrev Done : Thread → Timing S → Type 0
  Done thread d =
      thread.has_frame ≡ true
      → is_applied thread.reason ≡ true
      → Covered pid stop thread (hooks_at thread.pc d.hooks) d.handled

  abbrev Goes : Round S → Round S → Type 0
  Goes r r' = (r'.timing.hooks ≡ r.timing.hooks) × Extends r.timing.handled r'.timing.handled

  -- A round that raises nothing and does nothing.
  abbrev Quiet : Round S → Option Problem × Round S → Type 0
  Quiet r (e, r') = (e ≡ none) × (r'.acts ≡ r.acts) × (r'.timing ≡ r.timing)

  -- A run that does nothing new: no error, no act and no hit.
  abbrev Idle : Timing S → Option Problem × Round S → Type 0
  Idle d (e, r) = (e ≡ none) × (r.acts ≡ []) × (r.timing.hits ≡ d.hits)

abbrev guarded :
    {S : Type 0}
    → (stopped : Bool) (base pid stop : ℕ) → List Thread
    → Timing S
    → Bool
    → Option Problem × Round S
guarded stopped base pid stop threads d g =
    if g
    then (none, record { acts = []; matched = false; foreign = false; timing = d })
    else apply_threads base pid stop threads (begin_stop pid stop d)
