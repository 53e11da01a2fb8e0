-- ===== src/EntryPlan/Entry.antt =====
-- macdbg/core/entry_plan.py: what the stop at the entry point does with the queue.
use macdbg.Prelude.{
  ℕ, ◌≡◌, refl, Bool, true, false, Option, none, some, List, [], ◌∷◌, ◌++◌, append-append_one,
  append-nil, ap, sym,
}
use macdbg.EntryPlan.{
  Mode, analysis_cloak, auto_clock, unknown, Queued, holds, Act, deleted, enabled, EntryPlan,
  Answer, done, failed, enable_modes, apply_at, apply_stop,
}

-- The defenses of the queue, enabled in the order of `MODES`.
abbrev pub all_enabled : Bool → Bool → List Act
all_enabled false false = []
all_enabled true false = enabled analysis_cloak true ∷ []
all_enabled false true = enabled auto_clock true ∷ []
all_enabled true true = enabled analysis_cloak true ∷ enabled auto_clock true ∷ []

module _ {E : Type 0} where
  -- What the answers of `apply_stop` mean at the entry point, for a plan with this breakpoint.
  abbrev pub Entered : (Mode → Bool × E) → EntryPlan E → (bid : ℕ) → Answer E × EntryPlan E → Type 0
  Entered enable plan bid (done, plan') =
      (plan'.queued ≡ record { cloak = false; clock = false })
      × (plan'.acts
          ≡ (plan.acts ++ deleted bid ∷ []) ++ all_enabled plan.queued.cloak plan.queued.clock)
      × (plan'.bp ≡ none)
      × ((name : Mode) → holds name plan.queued ≡ true → (enable name).0 ≡ true)
  Entered enable plan bid (failed e, plan') =
      (name : Mode) × (holds name plan.queued ≡ true)
      × (enable name ≡ (false, e))
      × (holds name plan'.queued ≡ true)
      × (plan'.error ≡ some e)
      × (plan'.bp ≡ none)
  Entered enable plan bid (_, plan') = ⊥

  all_ready :
      (enable : Mode → Bool × E) (q : Queued)
      → (q.cloak ≡ true → (enable analysis_cloak).0 ≡ true)
      → (q.clock ≡ true → (enable auto_clock).0 ≡ true)
      → (name : Mode) → holds name q ≡ true
      → (enable name).0 ≡ true
  all_ready enable q f g analysis_cloak h = f h
  all_ready enable q f g auto_clock h = g h
  all_ready enable q f g unknown h = cc

  at_entry :
      (enable : Mode → Bool × E) (b c : Bool) (bp : ℕ) (error : Option E) (acts : List Act)
      (r s : Bool) (m n : E)
      → enable analysis_cloak ≡ (r, m)
      → enable auto_clock ≡ (s, n)
      → (let plan : EntryPlan E = record {
        queued = record { cloak = b; clock = c };
        bp = some bp;
        error = error;
        acts = acts;
      } in
          Entered enable plan bp (apply_at enable (some bp) plan))
  unfolding apply_at enable_modes
  at_entry enable false false bp error acts r s m n f g = (
    refl,
    sym (append-nil (acts ++ deleted bp ∷ [])),
    refl,
    all_ready enable _ (λ h. cc) (λ h. cc),
  )
  at_entry enable true false bp error acts false s m n f g =
      rw f (analysis_cloak, refl, f, refl, refl, refl)
  at_entry enable true false bp error acts true s m n f g =
      rw f (refl, refl, refl, all_ready enable _ (λ h. ap (λ (x : Bool × E). x.0) f) (λ h. cc))
  at_entry enable true true bp error acts true true m n f g =
      rw (f, g)
        (
          refl,
          append-append_one (acts ++ deleted bp ∷ []) (enabled analysis_cloak true) _,
          refl,
          all_ready enable _ (λ h. ap (λ (x : Bool × E). x.0) f)
              (λ h. ap (λ (x : Bool × E). x.0) g),
        )
  at_entry enable true true bp error acts true false m n f g =
      rw (f, g) (auto_clock, refl, g, refl, refl, refl)
  at_entry enable true true bp error acts false s m n f g =
      rw f (analysis_cloak, refl, f, refl, refl, refl)
  at_entry enable false true bp error acts r false m n f g =
      rw g (auto_clock, refl, g, refl, refl, refl)
  at_entry enable false true bp error acts r true m n f g =
      rw g (refl, refl, refl, all_ready enable _ (λ h. cc) (λ h. ap (λ (x : Bool × E). x.0) g))

  -- At the entry point, with a breakpoint of the plan: where `apply_stop` returns, every queued defense
  -- was enabled, in the order of `MODES` and after the breakpoint was deleted, and none is queued; where
  -- it raises, the defense that was not ready is still queued and its message is the error. In both
  -- cases the plan has no breakpoint any more.
  pub apply_stop-Entered :
      (enable : Mode → Bool × E) (plan : EntryPlan E) (bid : ℕ)
      → plan.bp ≡ some bid
      → Entered enable plan bid (apply_stop true enable plan)
  unfolding apply_stop
  apply_stop-Entered enable plan bid e = rw e (
      at_entry enable plan.queued.cloak plan.queued.clock bid plan.error plan.acts _ _ _ _ refl
        refl)
