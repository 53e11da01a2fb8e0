-- ===== src/ReturnHooks/Completion.antt =====
-- macdbg/core/return_hooks.py: what a stop completes, and any sequence of calls.
use macdbg.Prelude.{
  ℕ, ◌≡◌, refl, sym, ap, ◌∙◌, Bool, true, false, not, List, [], ◌∷◌, arith, if◌then◌else◌, select,
}
use macdbg.ReturnHooks.{
  Hook, bids, Breakpoints, IsBreakpoints, ReturnHooks, Frame, reversed, completes, clear, arm,
  consume_matches, consume,
}
use macdbg.ReturnHooks.Ownership.{
  forget_all, IsOwned, forget_all-select, retire-state, Distinct-select, length-select, select_none,
  arm-IsOwned, clear-IsOwned,
}

module _ {S P : Type 0} (b : Breakpoints S) (hardware : S → List ℕ)
    (laws : IsBreakpoints b hardware) where
  -- After a stop at a breakpoint, what it completes was reported, the newest first, and the rest is
  -- pending; any other stop changes nothing.
  abbrev pub Completes : Bool → Frame → ReturnHooks S P → List (Hook P) × ReturnHooks S P → Type 0
  Completes true frame r (reported, r') =
      (reported ≡ reversed (select (completes frame) r.pending))
      × (r'.pending ≡ select (λ h. not (completes frame h)) r.pending)
  Completes false frame r o = o ≡ ([], r)

  matches-Completes :
      (frame : Frame) (r : ReturnHooks S P) (matches : List (Hook P))
      → select (completes frame) r.pending ≡ matches
      → IsOwned b hardware laws r
      → Completes true frame r (consume_matches b matches r)
        × IsOwned b hardware laws (consume_matches b matches r).1
  unfolding consume_matches
  matches-Completes frame r [] e h =
      ((rw e refl, sym (select_none b hardware laws (completes frame) r.pending e)), h)
  matches-Completes frame r (m ∷ matches) e h =
      let (left, owned, limit) =
        retire-state b hardware laws (m ∷ matches) (record r { retired = bids (m ∷ matches) })
          h.owned in
      let rest =
        left
        ∙ ap (λ ms. forget_all ms r.pending) (sym e)
        ∙ forget_all-select (completes frame) r.pending h.distinct in
      (
        (rw e refl, rest),
        record {
          owned = owned;
          distinct =
              rw rest (
                Distinct-select b hardware laws (λ x. not (completes frame x)) r.pending
                  h.distinct);
          few =
              rw (limit, rest)
                (omega (
                  arith,
                  length-select b hardware laws (λ x. not (completes frame x)) r.pending,
                  h.few,
                ));
        },
      )

  pub consume-Completes :
      (frame : Frame) (r : ReturnHooks S P)
      → IsOwned b hardware laws r
      → Completes frame.is_breakpoint frame r (consume b frame r)
        × IsOwned b hardware laws (consume b frame r).1
  unfolding consume
  consume-Completes frame r h = by_reason frame.is_breakpoint
    where
      by_reason :
          (reason : Bool)
          → Completes reason frame r (
              if not reason
              then ([], r)
              else consume_matches b (select (completes frame) r.pending) r)
            × IsOwned b hardware laws
                (if not reason
                  then ([], r)
                  else consume_matches b (select (completes frame) r.pending) r).1
      by_reason false = (refl, h)
      by_reason true = matches-Completes frame r (select (completes frame) r.pending) refl h

-- The calls, each with what it is given.
pub data Call (P : Type 0) : Type 0 where
  arming : Frame → P → Call P
  consuming : Frame → Call P
  clearing : Call P

module _ {S P : Type 0} (b : Breakpoints S) where
  unfoldable pub step : Call P → ReturnHooks S P → ReturnHooks S P
  unfolding arm consume clear
  step (arming frame payload) r = (arm b frame payload r).1
  step (consuming frame) r = (consume b frame r).1
  step clearing r = clear b r

  unfoldable pub run : List (Call P) → ReturnHooks S P → ReturnHooks S P
  unfolding step
  run [] r = r
  run (call ∷ calls) r = run calls (step call r)

module _ {S P : Type 0} (b : Breakpoints S) (hardware : S → List ℕ)
    (laws : IsBreakpoints b hardware) where
  step-IsOwned :
      (call : Call P) (r : ReturnHooks S P)
      → IsOwned b hardware laws r
      → IsOwned b hardware laws (step b call r)
  unfolding step
  step-IsOwned (arming frame payload) r h = arm-IsOwned b hardware laws frame payload r h
  step-IsOwned (consuming frame) r h = (consume-Completes b hardware laws frame r h).1
  step-IsOwned clearing r h = clear-IsOwned b hardware laws r h

  -- Any calls of arm, consume and clear on hooks that own their breakpoints, whatever the debugger
  -- refuses: the debugger has exactly one breakpoint for each pending hook, no number stands twice,
  -- and there are not more hooks than the limit.
  pub run-IsOwned :
      (calls : List (Call P)) (r : ReturnHooks S P)
      → IsOwned b hardware laws r
      → IsOwned b hardware laws (run b calls r)
  unfolding run
  run-IsOwned [] r h = h
  run-IsOwned (call ∷ calls) r h = run-IsOwned calls (step b call r) (step-IsOwned call r h)
