-- ===== src/SelfTrap/Completing.antt =====
-- The registers of a thread whose trap was forwarded and completed, by macdbg/core/self_trap.py.
use macdbg.Prelude.{
  ℕ, ◌≡◌, sym, ◌∙◌, ap, subst, Bool, true, false, not, ◌||◌, Option, none, some, List, [], ◌∷◌,
  ◌==◌, if◌then◌else◌, All, Result, ok, err,
}
use macdbg.SelfTrap.{
  Register, names, Problem, unrestored_stack, Entry, Target, SelfTrap, Stop, restore, after_return,
  complete_entry, complete, find_entry, is_among, forward,
}
use macdbg.SelfTrap.Restoring.{
  IsTarget, are_distinct, registers_of, names_distinct, Holds, Unchanged, Holds-both, Restored,
  restore-Restored,
}
use macdbg.SelfTrap.Forwarding.{SavedBy, Forwarded, forward-Forwarded}

module _ {W : Type 0} (t : Target W) (good : IsTarget t) where
  -- Where the entry is gone, the registers are those of `w`.
  abbrev Completed : W → Result Problem Bool × SelfTrap W → Type 0
  Completed w (ok own, s) = s.active ≡ [] → Unchanged t w s.target
  Completed w (err e, s) = Unit

  settled :
      (ns : List Register) (w w' : W) (stack bid : ℕ)
      → All (λ n. t.register n w' ≡ t.register n w) ns
      → All
          (λ n. t.register n (t.deallocate stack (t.delete_breakpoint bid w')) ≡ t.register n w)
          ns
  settled [] w w' stack bid h = tt
  settled (n ∷ ns) w w' stack bid h =
      (good.releases n stack _ ∙ good.deletes n bid w' ∙ h.0, settled ns w w' stack bid h.1)

  after_return-Completed :
      (stop : Stop) (w : W) (s : SelfTrap W) (e : Entry) (q : Option Problem × SelfTrap W)
      → Holds t w e.registers × (registers_of e.registers ≡ names)
      → Restored t good e.registers s q
      → Completed w (after_return t stop e q)
  after_return-Completed stop w s e (some problem, s') kept restored = tt
  after_return-Completed stop w s e (none, s') kept restored = λ gone.
      settled names w s'.target e.stack e.bp (
        subst (λ ns. All (λ n. t.register n s'.target ≡ t.register n w) ns) kept.1
          (Holds-both t names e.registers w s'.target kept.1 kept.0 restored.0))

  still_there :
      (w : W) (s : SelfTrap W) (tid : ℕ) (e : Entry)
      → s.active ≡ (tid, e) ∷ []
      → Completed w (ok false, s)
  still_there w s tid e h gone = let absurd : ⊥ = cc in elim absurd [ ]

  complete_entry-Completed :
      (stop : Stop) (w : W) (s : SelfTrap W) (tid : ℕ) (e : Entry)
      → s.active ≡ (tid, e) ∷ []
      → Holds t w e.registers × (registers_of e.registers ≡ names)
      → Completed w (complete_entry t stop (some e) s)
  unfolding complete_entry
  complete_entry-Completed stop w s tid e h kept =
      by_tests (not stop.is_breakpoint)
        (not (is_among e.bp stop.ids) || not (stop.address == e.address))
        (not (stop.stack_pointer == e.top))
    where
      by_tests :
          (a b c : Bool)
          → Completed w (
              if a
              then (ok false, s)
              else if b
              then (ok false, s)
              else if c
              then (err unrestored_stack, s)
              else after_return t stop e (restore t e.registers s))
      by_tests true b c = still_there w s tid e h
      by_tests false true c = still_there w s tid e h
      by_tests false false true = tt
      by_tests false false false =
          after_return-Completed stop w s e (restore t e.registers s) kept
            (restore-Restored t good e.registers s (ap are_distinct kept.1 ∙ names_distinct))

  complete-Completed :
      (stop : Stop) (w : W) (s : SelfTrap W) (active : List (ℕ × Entry))
      → s.active ≡ active
      → SavedBy t w active
      → Completed w (complete_entry t stop (find_entry stop.tid active) s)
  unfolding complete_entry
  complete-Completed stop w s [] h kept = elim kept [ ]
  complete-Completed stop w s (first ∷ second ∷ active) h kept = elim kept [ ]
  complete-Completed stop w s ((tid, e) ∷ []) h kept = by_thread (tid == stop.tid)
    where
      by_thread : (b : Bool) → Completed w (complete_entry t stop (if b then some e else none) s)
      by_thread true = complete_entry-Completed stop w s tid e h kept
      by_thread false = still_there w s tid e h

  -- In a target whose registers are independent of each other: where `forward` enters a handler, then
  -- whatever the target does to its registers, a `complete` that answers and takes the entry out has
  -- given every register that is kept the bytes it had before the trap was forwarded.
  pub forward-complete :
      (on : Bool) (stop returned : Stop) (s s' after last : SelfTrap W) (handler : ℕ) (own : Bool)
      → forward t on stop s ≡ (ok (some handler), s')
      → after.active ≡ s'.active
      → complete t returned after ≡ (ok own, last)
      → last.active ≡ []
      → Unchanged t s.target last.target
  unfolding complete
  forward-complete on stop returned s s' after last handler own e same_active e' gone =
      subst (Completed s.target) e'
        (subst
          (λ active.
            Completed s.target (complete_entry t returned (find_entry returned.tid active) after))
          (sym same_active)
          (complete-Completed returned s.target after s'.active same_active
            (subst (Forwarded t s) e (forward-Forwarded t good on stop s))))
        gone

  -- In a target whose registers are independent of each other: where `forward` answers without
  -- entering a handler, every register that is kept has the bytes it had before, and no trap is
  -- forwarded that was not before.
  pub forward-Unchanged :
      (on : Bool) (stop : Stop) (s s' : SelfTrap W)
      → forward t on stop s ≡ (ok none, s')
      → Unchanged t s.target s'.target × (s'.active ≡ s.active)
  forward-Unchanged on stop s s' e = subst (Forwarded t s) e (forward-Forwarded t good on stop s)
