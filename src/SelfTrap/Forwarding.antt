-- ===== src/SelfTrap/Forwarding.antt =====
-- What `forward` and `complete` of macdbg/core/self_trap.py leave of the registers.
use macdbg.Prelude.{
  ℕ, ◌+◌, ◌≡◌, refl, ◌∙◌, ap, subst, Bool, true, false, not, ◌||◌, Option, none, some, List, [],
  ◌∷◌, ◌==◌, if◌then◌else◌, length, All, arith, Result, ok, err, Post,
}
use macdbg.Bytes.{same}
use macdbg.Http.Text.{starts}
use macdbg.SelfTrap.{
  Register, names, Problem, unsupported_action, nested, Saved, Entry, Target, SelfTrap, Stop,
  restore, save, action, after_set, enter, with_breakpoint, with_stack, dispatch, after_restore,
  after_action, after_save, after_code, forward, brk, system_library, usr_lib, without_restart,
}
use macdbg.SelfTrap.Restoring.{
  IsTarget, are_distinct, registers_of, names_distinct, Holds, Unchanged, save-Holds, Holds-both,
  Restored, restore-Restored,
}

module _ {W : Type 0} (t : Target W) where
  -- The registers of `w` are in the one entry.
  abbrev pub SavedBy : W → List (ℕ × Entry) → Type 0
  SavedBy w [] = ⊥
  SavedBy w ((tid, e) ∷ []) = Holds t w e.registers × (registers_of e.registers ≡ names)
  SavedBy w (first ∷ second ∷ active) = ⊥

  abbrev pub Forwarded : SelfTrap W → Result Problem (Option ℕ) × SelfTrap W → Type 0
  Forwarded s (ok none, s') = Unchanged t s.target s'.target × (s'.active ≡ s.active)
  Forwarded s (ok (some handler), s') = SavedBy s.target s'.active
  Forwarded s (err e, s') = Unit

  by_tests :
      (s : SelfTrap W) (b c : Bool) (p q r : Result Problem (Option ℕ) × SelfTrap W)
      → Forwarded s p
      → Forwarded s q
      → Forwarded s r
      → Forwarded s (if b then p else if c then q else r)
  by_tests s true c p q r hp hq hr = hp
  by_tests s false true p q r hp hq hr = hq
  by_tests s false false p q r hp hq hr = hr

  module _ (good : IsTarget t) (stop : Stop) (s : SelfTrap W) (r : Saved)
      (kept : Holds t s.target r × (registers_of r ≡ names)) where
    after_set-Forwarded :
        (handler : ℕ) (e : Entry)
        → e.registers ≡ r
        → (q : Bool × W) (s' : SelfTrap W)
        → Forwarded s (after_set t handler ((stop.tid, e) ∷ []) q s')
    after_set-Forwarded handler e h (false, w) s' = tt
    after_set-Forwarded handler e h (true, w) s' = rw h kept

    with_stack-Forwarded :
        (handler : ℕ) (s' : SelfTrap W) (q : Option ℕ × W)
        → s'.active ≡ []
        → Forwarded s (with_stack t handler stop r s' q)
    unfolding enter with_stack with_breakpoint
    with_stack-Forwarded handler s' (none, w) h = tt
    with_stack-Forwarded handler s' (some stack, w) h = by_answer (t.hardware (stop.address + 4) w)
      where
        by_answer : (p : Option ℕ × W) → Forwarded s (with_breakpoint t handler stop r stack s' p)
        by_answer (none, w') = tt
        by_answer (some bid, w') = rw h (after_set-Forwarded handler _ refl _ _)

    dispatch-Forwarded :
        (handler mask flags : ℕ) (s' : SelfTrap W)
        → Unchanged t s.target s'.target
        → s'.active ≡ []
        → s'.active ≡ s.active
        → Forwarded s (dispatch t handler mask flags stop r s')
    unfolding dispatch with_stack
    dispatch-Forwarded handler mask flags s' same_registers h h' =
        by_tests s (handler == 0 || handler == 1)
          (not (mask == 0) || not (without_restart flags == 0)) (ok none, s')
          (err unsupported_action, s') (with_stack t handler stop r s' (t.allocate 65536 s'.target))
          (same_registers, h') tt (with_stack-Forwarded handler s' (t.allocate 65536 s'.target) h)

    after_restore-Forwarded :
        (result : Result Problem (ℕ × ℕ × ℕ)) (q : Option Problem × SelfTrap W) (s0 : SelfTrap W)
        → s0.active ≡ s.active
        → s.active ≡ []
        → Restored t good r s0 q
        → Forwarded s (after_restore t stop r result q)
    unfolding after_restore dispatch
    after_restore-Forwarded result (some e, s') s0 h none_yet restored = tt
    after_restore-Forwarded (err e) (none, s') s0 h none_yet restored = tt
    after_restore-Forwarded (ok (handler, mask, flags)) (none, s') s0 h none_yet restored =
        let unchanged : Unchanged t s.target s'.target =
          subst (λ ns. All (λ n. t.register n s'.target ≡ t.register n s.target) ns) kept.1
            (Holds-both t names r s.target s'.target kept.1 kept.0 restored.0) in
        dispatch-Forwarded handler mask flags s' unchanged (restored.1 ∙ h ∙ none_yet)
          (restored.1 ∙ h)

    after_action-Forwarded :
        (q : Result Problem (ℕ × ℕ × ℕ) × W)
        → s.active ≡ []
        → are_distinct (registers_of r) ≡ true
        → Forwarded s (after_action t stop r s q)
    unfolding after_action restore dispatch
    after_action-Forwarded (result, w) none_yet distinct =
        after_restore-Forwarded result _ (record s { target = w }) refl none_yet
          (restore-Restored t good r (record s { target = w }) distinct)

  every_register : (w : W) (ns : List Register) → All (λ n. t.register n w ≡ t.register n w) ns
  every_register w [] = tt
  every_register w (n ∷ ns) = (refl, every_register w ns)

  module _ (good : IsTarget t) where
    after_save-Forwarded :
        (stop : Stop) (s : SelfTrap W) (m : Result Problem Saved)
        → s.active ≡ []
        → Post (λ e. Unit) (λ r. Holds t s.target r × (registers_of r ≡ names)) m
        → Forwarded s (after_save t stop m s)
    unfolding after_save
    after_save-Forwarded stop s (err e) none_yet h = tt
    after_save-Forwarded stop s (ok r) none_yet h =
        after_action-Forwarded good stop s r h (action t s.target) none_yet
          (ap are_distinct h.1 ∙ names_distinct)

    no_entry : (active : List (ℕ × Entry)) → (length active == 0) ≡ true → active ≡ []
    no_entry [] e = refl
    no_entry (a ∷ active) e = let absurd : ⊥ = ground arith in elim absurd [ ]

    after_code-Forwarded :
        (stop : Stop) (s : SelfTrap W) (code : Option (List ℕ))
        → Forwarded s (after_code t stop code s)
    unfolding after_code
    after_code-Forwarded stop s none = tt
    after_code-Forwarded stop s (some code) =
        by_code (not (same code brk)) (length s.active == 0) refl
      where
        by_code :
            (b c : Bool)
            → (length s.active == 0) ≡ c
            → Forwarded s (
                if b
                then (ok none, s)
                else if not c
                then (err nested, s)
                else after_save t stop (save t names s.target) s)
        by_code true c e = (every_register s.target names, refl)
        by_code false true e =
            after_save-Forwarded stop s (save t names s.target) (no_entry s.active e)
              (save-Holds t names s.target)
        by_code false false e = tt

    pub forward-Forwarded :
        (on : Bool) (stop : Stop) (s : SelfTrap W) → Forwarded s (forward t on stop s)
    unfolding forward
    forward-Forwarded on stop s =
        let stays : Forwarded s (ok none, s) = (every_register s.target names, refl) in
        by_tests s (not on || not stop.is_exception)
          (starts system_library stop.path || starts usr_lib stop.path) (ok none, s) (ok none, s)
          (after_code t stop (t.read_memory stop.address 4 s.target) s) stays stays
          (after_code-Forwarded stop s (t.read_memory stop.address 4 s.target))
