-- ===== src/SelfTrap/Entering.antt =====
-- What `forward` of macdbg/core/self_trap.py owns once it has entered a handler or given up.
use macdbg.Prelude.{
  ℕ, ◌+◌, ◌≡◌, refl, sym, ◌∙◌, ap, subst, Bool, true, false, not, ◌||◌, Option, none, some, List,
  [], ◌∷◌, ◌==◌, if◌then◌else◌, Result, ok, err,
}
use macdbg.SelfTrap.{
  Register, x, lr, sp, pc, Problem, unsupported_action, Saved, Entry, Target, SelfTrap, Stop,
  set_all, after_set, enter, with_breakpoint, with_stack, dispatch, without_restart,
}
use macdbg.SelfTrap.Owned.{IsOwner, Owning, Keeps, release-owned, set_all-owned}

module _ {W : Type 0} (t : Target W) (owned : W → List ℕ × List ℕ) where
  module _ (good : IsOwner t owned) (base : List ℕ × List ℕ) where
    abbrev pub Safe : SelfTrap W → Type 0
    Safe s = Owning base s.active (owned s.target)

    pub Safe-kept : (s s' : SelfTrap W) → Keeps t owned good base s s' → Safe s → Safe s'
    Safe-kept s s' k h =
        subst (λ active. Owning base active (owned s'.target)) (sym k.0)
          (subst (Owning base s.active) (sym k.1) h)

    after_set-Safe :
        (handler : ℕ) (tid : ℕ) (e : Entry) (active : List (ℕ × Entry)) (q : Bool × W)
        (s : SelfTrap W)
        → active ≡ []
        → owned q.1 ≡ (e.stack ∷ base.0, e.bp ∷ base.1)
        → Safe (after_set t handler ((tid, e) ∷ active) q s).1
    after_set-Safe handler tid e active (false, w) s none_yet h = rw none_yet h
    after_set-Safe handler tid e active (true, w) s none_yet h = rw none_yet (good.runs w ∙ h)

    enter-Safe :
        (handler : ℕ) (stop : Stop) (e : Entry) (s : SelfTrap W)
        → s.active ≡ []
        → owned s.target ≡ (e.stack ∷ base.0, e.bp ∷ base.1)
        → Safe (enter t handler stop e s).1
    unfolding enter
    enter-Safe handler stop e s none_yet h =
        after_set-Safe handler stop.tid e s.active
          (set_all t values (t.for_thread e.bp stop.tid s.target)) s none_yet
          (set_all-owned t owned good base values _ ∙ good.restricts e.bp stop.tid s.target ∙ h)
      where
        values : List (Register × ℕ)
        values = (sp, e.top) ∷ (x 0, 5) ∷ (lr, e.address) ∷ (pc, handler) ∷ []

    with_breakpoint-Safe :
        (handler : ℕ) (stop : Stop) (r : Saved) (stack : ℕ) (s : SelfTrap W) (w : W)
        (q : Option ℕ × W)
        → s.active ≡ []
        → owned w ≡ (stack ∷ base.0, base.1)
        → ((bid : ℕ) → q.0 ≡ some bid → owned q.1 ≡ ((owned w).0, bid ∷ (owned w).1))
        → (q.0 ≡ none → owned q.1 ≡ owned w)
        → Safe (with_breakpoint t handler stop r stack s q).1
    unfolding with_breakpoint
    with_breakpoint-Safe handler stop r stack s w (none, w') none_yet h made refused =
        rw none_yet (release-owned t owned good base stack w' base (refused refl ∙ h))
    with_breakpoint-Safe handler stop r stack s w (some bid, w') none_yet h made refused =
        enter-Safe handler stop _ (record s { target = w' }) none_yet
          (made bid refl ∙ ap (λ o. (o.0, bid ∷ o.1)) h)

    with_stack-Safe :
        (handler : ℕ) (stop : Stop) (r : Saved) (s : SelfTrap W) (w : W) (q : Option ℕ × W)
        → s.active ≡ []
        → owned w ≡ base
        → ((a : ℕ) → q.0 ≡ some a → owned q.1 ≡ (a ∷ (owned w).0, (owned w).1))
        → (q.0 ≡ none → owned q.1 ≡ owned w)
        → Safe (with_stack t handler stop r s q).1
    unfolding with_stack
    with_stack-Safe handler stop r s w (none, w') none_yet h made refused =
        rw none_yet (refused refl ∙ h)
    with_stack-Safe handler stop r s w (some a, w') none_yet h made refused =
        with_breakpoint-Safe handler stop r a s w' (t.hardware (stop.address + 4) w') none_yet
          (made a refl ∙ ap (λ o. (a ∷ o.0, o.1)) h) (good.creates (stop.address + 4) w')
          (good.declines (stop.address + 4) w')

    pub by_tests :
        (b c : Bool) (p q r : Result Problem (Option ℕ) × SelfTrap W)
        → Safe p.1
        → Safe q.1
        → Safe r.1
        → Safe (if b then p else if c then q else r).1
    by_tests true c p q r hp hq hr = hp
    by_tests false true p q r hp hq hr = hq
    by_tests false false p q r hp hq hr = hr

    pub dispatch-Safe :
        (handler mask flags : ℕ) (stop : Stop) (r : Saved) (s : SelfTrap W)
        → s.active ≡ []
        → owned s.target ≡ base
        → Safe (dispatch t handler mask flags stop r s).1
    unfolding dispatch
    dispatch-Safe handler mask flags stop r s none_yet h =
        let safe : Safe s = rw none_yet h in
        by_tests (handler == 0 || handler == 1)
          (not (mask == 0) || not (without_restart flags == 0)) (ok none, s)
          (err unsupported_action, s) (with_stack t handler stop r s (t.allocate 65536 s.target))
          safe safe
          (with_stack-Safe handler stop r s s.target (t.allocate 65536 s.target) none_yet h
            (good.allocates 65536 s.target) (good.refuses 65536 s.target))
