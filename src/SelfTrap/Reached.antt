-- ===== src/SelfTrap/Reached.antt =====
-- The states that calls of macdbg/core/self_trap.py reach, and what they own.
use macdbg.Prelude.{
  ℕ, ◌≡◌, refl, sym, ◌∙◌, subst, Bool, true, false, not, ◌||◌, Option, none, some, List, [], ◌∷◌,
  ◌==◌, if◌then◌else◌, length, arith, Result, ok, err,
}
use macdbg.Bytes.{same}
use macdbg.Http.Text.{starts}
use macdbg.SelfTrap.{
  names, Problem, nested, unrestored_stack, Saved, Entry, Target, SelfTrap, Stop, restore, save,
  action, after_restore, after_action, after_save, after_code, forward, after_return,
  complete_entry, complete, find_entry, release, reset, brk, system_library, usr_lib, is_among,
}
use macdbg.SelfTrap.Owned.{
  IsOwner, Owning, Keeps, release-owned, delete-owned, restore-Keeps, action-owned,
}
use macdbg.SelfTrap.Entering.{by_tests, dispatch-Safe}

module _ {W : Type 0} (t : Target W) (owned : W → List ℕ × List ℕ) where
  -- One call, or the target as it runs on.
  pub data Step (s : SelfTrap W) : SelfTrap W → Type 0 where
    forwarded : (on : Bool) (stop : Stop) → Step s (forward t on stop s).1
    completed : (stop : Stop) → Step s (complete t stop s).1
    cleared : Step s (reset t true s)
    ran_on : (w : W) → owned w ≡ owned s.target → Step s (record s { target = w })

  pub data Reach (start : SelfTrap W) : SelfTrap W → Type 0 where
    begun : Reach start start
    later : {s s' : SelfTrap W} → Reach start s → Step s s' → Reach start s'

  module _ (good : IsOwner t owned) (base : List ℕ × List ℕ) where
    abbrev Sound : SelfTrap W → Type 0
    Sound s = Owning base s.active (owned s.target)

    after_restore-Sound :
        (stop : Stop) (r : Saved) (result : Result Problem (ℕ × ℕ × ℕ))
        (q : Option Problem × SelfTrap W)
        → q.1.active ≡ []
        → owned q.1.target ≡ base
        → Sound (after_restore t stop r result q).1
    unfolding after_restore
    after_restore-Sound stop r result (some e, s) none_yet h = rw none_yet h
    after_restore-Sound stop r (err e) (none, s) none_yet h = rw none_yet h
    after_restore-Sound stop r (ok (handler, mask, flags)) (none, s) none_yet h =
        dispatch-Safe t owned good base handler mask flags stop r s none_yet h

    after_save-Sound :
        (stop : Stop) (m : Result Problem Saved) (s : SelfTrap W)
        → s.active ≡ []
        → owned s.target ≡ base
        → Sound (after_save t stop m s).1
    unfolding after_save after_action
    after_save-Sound stop (err e) s none_yet h = rw none_yet h
    after_save-Sound stop (ok r) s none_yet h =
        let restored : Keeps t owned good base (record s { target = (action t s.target).1 })
            (restore t r (record s { target = (action t s.target).1 })).1 =
          restore-Keeps t owned good base r (record s { target = (action t s.target).1 }) in
        after_restore-Sound stop r (action t s.target).0
          (restore t r (record s { target = (action t s.target).1 })) (restored.0 ∙ none_yet)
          (restored.1 ∙ action-owned t owned good base s.target ∙ h)

    after_code-Sound :
        (stop : Stop) (code : Option (List ℕ)) (s : SelfTrap W)
        → Sound s
        → Sound (after_code t stop code s).1
    unfolding after_code
    after_code-Sound stop none s h = h
    after_code-Sound stop (some code) s h = by_code (not (same code brk)) s.active refl h
      where
        by_code :
            (b : Bool) (active : List (ℕ × Entry))
            → s.active ≡ active
            → Owning base active (owned s.target)
            → Sound
                (if b
                  then (ok none, s)
                  else if not (length active == 0)
                  then (err nested, s)
                  else after_save t stop (save t names s.target) s).1
        by_code true active e h' = h
        by_code false [] e h' = after_save-Sound stop (save t names s.target) s e h'
        by_code false (first ∷ active) e h' =
            let busy : (length (first ∷ active) == 0) ≡ false = ground arith in rw busy h

    forward-Sound :
        (on : Bool) (stop : Stop) (s : SelfTrap W) → Sound s → Sound (forward t on stop s).1
    unfolding forward
    forward-Sound on stop s h =
        by_tests t owned good base (not on || not stop.is_exception)
          (starts system_library stop.path || starts usr_lib stop.path) (ok none, s) (ok none, s)
          (after_code t stop (t.read_memory stop.address 4 s.target) s) h h
          (after_code-Sound stop (t.read_memory stop.address 4 s.target) s h)

    given_back :
        (w : W) (e : Entry)
        → owned w ≡ (e.stack ∷ base.0, e.bp ∷ base.1)
        → owned (t.deallocate e.stack (t.delete_breakpoint e.bp w)) ≡ base
    given_back w e h =
        release-owned t owned good base e.stack _ base
          (delete-owned t owned good base e.bp w (e.stack ∷ base.0, base.1) h)

    reset-owned : (s : SelfTrap W) → Sound s → owned (reset t true s).target ≡ base
    unfolding reset
    reset-owned s h = by_active s.active s.target h
      where
        by_active :
            (active : List (ℕ × Entry)) (w : W)
            → Owning base active (owned w)
            → owned (release t true active w) ≡ base
        by_active [] w h' = h'
        by_active ((tid, e) ∷ []) w h' = given_back w e h'
        by_active (first ∷ second ∷ active) w h' = elim h' [ ]

    after_return-Sound :
        (stop : Stop) (tid : ℕ) (e : Entry) (q : Option Problem × SelfTrap W)
        → (tid == stop.tid) ≡ true
        → q.1.active ≡ (tid, e) ∷ []
        → owned q.1.target ≡ (e.stack ∷ base.0, e.bp ∷ base.1)
        → Sound (after_return t stop e q).1
    after_return-Sound stop tid e (some problem, s) here h owns = rw h owns
    after_return-Sound stop tid e (none, s) here h owns = rw (h, here) (given_back s.target e owns)

    complete_entry-Sound :
        (stop : Stop) (tid : ℕ) (e : Entry) (s : SelfTrap W)
        → (tid == stop.tid) ≡ true
        → s.active ≡ (tid, e) ∷ []
        → Sound s
        → owned s.target ≡ (e.stack ∷ base.0, e.bp ∷ base.1)
        → Sound (complete_entry t stop (some e) s).1
    unfolding complete_entry
    complete_entry-Sound stop tid e s here h safe owns =
        by_cases (not stop.is_breakpoint)
          (not (is_among e.bp stop.ids) || not (stop.address == e.address))
          (not (stop.stack_pointer == e.top))
      where
        restored : Keeps t owned good base s (restore t e.registers s).1
        restored = restore-Keeps t owned good base e.registers s

        by_cases :
            (a b c : Bool)
            → Sound
                (if a
                  then (ok false, s)
                  else if b
                  then (ok false, s)
                  else if c
                  then (err unrestored_stack, s)
                  else after_return t stop e (restore t e.registers s)).1
        by_cases true b c = safe
        by_cases false true c = safe
        by_cases false false true = safe
        by_cases false false false =
            after_return-Sound stop tid e (restore t e.registers s) here (restored.0 ∙ h)
              (restored.1 ∙ owns)

    complete-Sound : (stop : Stop) (s : SelfTrap W) → Sound s → Sound (complete t stop s).1
    unfolding complete complete_entry
    complete-Sound stop s safe = by_active s.active refl safe
      where
        by_thread :
            (b : Bool) (tid : ℕ) (e : Entry)
            → (tid == stop.tid) ≡ b
            → s.active ≡ (tid, e) ∷ []
            → owned s.target ≡ (e.stack ∷ base.0, e.bp ∷ base.1)
            → Sound (complete_entry t stop (if b then some e else none) s).1
        by_thread true tid e here h owns = complete_entry-Sound stop tid e s here h safe owns
        by_thread false tid e here h owns = safe

        by_active :
            (active : List (ℕ × Entry))
            → s.active ≡ active
            → Owning base active (owned s.target)
            → Sound (complete_entry t stop (find_entry stop.tid active) s).1
        by_active [] h owns = safe
        by_active ((tid, e) ∷ []) h owns = by_thread (tid == stop.tid) tid e refl h owns
        by_active (first ∷ second ∷ active) h owns = elim owns [ ]

    Step-Sound : (s s' : SelfTrap W) → Step s s' → Sound s → Sound s'
    unfolding reset
    Step-Sound s _ (forwarded on stop) safe = forward-Sound on stop s safe
    Step-Sound s _ (completed stop) safe = complete-Sound stop s safe
    Step-Sound s _ cleared safe = reset-owned s safe
    Step-Sound s _ (ran_on w same_owned) safe = subst (Owning base s.active) (sym same_owned) safe

    Reach-Sound : (start s : SelfTrap W) → Reach start s → Sound start → Sound s
    Reach-Sound start s begun safe = safe
    Reach-Sound start s (later {s = m} r step) safe =
        Step-Sound m s step (Reach-Sound start m r safe)

  -- In every state that calls of `forward`, `complete` and `reset` and runs of the target reach from one
  -- without a forwarded trap, whichever of them raise: at most one trap is being forwarded, and beyond
  -- what the debugger had allocated and set before there are its handler's stack and the breakpoint on
  -- its return, and nothing where no trap is being forwarded. A `reset` of the live process gives both
  -- back.
  pub Reach-Owning :
      IsOwner t owned
      → (start s : SelfTrap W) → start.active ≡ []
      → Reach start s
      → Owning (owned start.target) s.active (owned s.target)
        × (owned (reset t true s).target ≡ owned start.target)
  Reach-Owning good start s none_yet r =
      let safe : Owning (owned start.target) s.active (owned s.target) =
        Reach-Sound good (owned start.target) start s r (rw none_yet refl) in
      (safe, reset-owned good (owned start.target) s safe)
