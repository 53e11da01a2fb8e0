-- ===== src/SelfTrap/Restoring.antt =====
-- The registers of a trapped thread, before `forward` and after `complete` of macdbg/core/self_trap.py.
use macdbg.Prelude.{
  ℕ, ◌≡◌, refl, sym, ◌∙◌, ap, Bool, true, false, not, ◌&&◌, Option, none, some, List, [], ◌∷◌,
  if◌then◌else◌, All, Result, ok, err, Post,
}
use macdbg.Bytes.{same, same→eq}
use macdbg.SelfTrap.{
  Register, same_register, names, Problem, Saved, Target, SelfTrap, is_read, write_register,
  cannot_restore, restore, keep, save, is_vector,
}

-- What LLDB documents of registers: writing one leaves those of other names, and so do the release of
-- memory and the deletion of a breakpoint in a stopped process.
pub record IsTarget {W : Type 0} (t : Target W) : Type 0 where
  pub sets :
      (n m : Register) (value : ℕ) (w : W)
      → same_register n m ≡ false
      → t.register m (t.set_value n value w).1 ≡ t.register m w
  pub writes :
      (n m : Register) (kept : List ℕ) (w : W)
      → same_register n m ≡ false
      → t.register m (t.write_vector n kept w).1 ≡ t.register m w
  pub releases :
      (m : Register) (address : ℕ) (w : W) → t.register m (t.deallocate address w) ≡ t.register m w
  pub deletes :
      (m : Register) (bid : ℕ) (w : W) → t.register m (t.delete_breakpoint bid w) ≡ t.register m w

-- No register stands twice.
abbrev is_apart : Register → List Register → Bool
is_apart n [] = true
is_apart n (m ∷ ms) = not (same_register m n) && is_apart n ms

abbrev pub are_distinct : List Register → Bool
are_distinct [] = true
are_distinct (n ∷ ns) = is_apart n ns && are_distinct ns

pub names_distinct : are_distinct names ≡ true
names_distinct = refl

abbrev pub registers_of : Saved → List Register
registers_of [] = []
registers_of ((n, kept) ∷ registers) = n ∷ registers_of registers

pub by_if : {X : Type 0} (P : X → Type 0) (b : Bool) {x y : X} → P x → P y → P (if b then x else y)
by_if P true p q = p
by_if P false p q = q

and_left : (a b : Bool) → (a && b) ≡ true → a ≡ true
and_left true b e = refl
and_left false b e = e

and_right : (a b : Bool) → (a && b) ≡ true → b ≡ true
and_right true b e = e
and_right false b e = let absurd : ⊥ = cc in elim absurd [ ]

not-true : (a : Bool) → not a ≡ true → a ≡ false
not-true true e = sym e
not-true false e = refl

is_read-eq :
    (kept : List ℕ) (found : Option (List ℕ)) → is_read kept found ≡ true → found ≡ some kept
unfolding same
is_read-eq kept none e = let absurd : ⊥ = cc in elim absurd [ ]
is_read-eq kept (some data_read) e = ap some (same→eq data_read kept e)

module _ {W : Type 0} (t : Target W) where
  -- The saved bytes are those of the registers.
  abbrev pub Holds : W → Saved → Type 0
  Holds w [] = Unit
  Holds w ((n, kept) ∷ registers) = (t.register n w ≡ some kept) × Holds w registers

  abbrev pub Unchanged : W → W → Type 0
  Unchanged w w' = All (λ n. t.register n w' ≡ t.register n w) names

  pub save-Holds :
      (ns : List Register) (w : W)
      → Post (λ e. Unit) (λ r. Holds w r × (registers_of r ≡ ns)) (save t ns w)
  unfolding save
  save-Holds [] w = (tt, refl)
  save-Holds (n ∷ ns) w = by_parts (t.register n w) (save t ns w) refl (save-Holds ns w)
    where
      by_parts :
          (found : Option (List ℕ)) (rest : Result Problem Saved)
          → t.register n w ≡ found
          → Post (λ e. Unit) (λ r. Holds w r × (registers_of r ≡ ns)) rest
          → Post (λ e. Unit) (λ r. Holds w r × (registers_of r ≡ n ∷ ns)) (keep t n found rest)
      by_parts none rest e h = tt
      by_parts (some kept) (err problem) e h = tt
      by_parts (some kept) (ok registers) e h = ((e, h.0), ap (λ l. n ∷ l) h.1)

  pub Holds-both :
      (ns : List Register) (r : Saved) (w w' : W)
      → registers_of r ≡ ns
      → Holds w r
      → Holds w' r
      → All (λ n. t.register n w' ≡ t.register n w) (registers_of r)
  Holds-both ns [] w w' e h h' = tt
  Holds-both ns ((n, kept) ∷ r) w w' e h h' =
      (h'.0 ∙ sym h.0, Holds-both (registers_of r) r w w' refl h.1 h'.1)

  module _ (good : IsTarget t) where
    write_register-other :
        (n m : Register) (kept : List ℕ) (w : W)
        → same_register n m ≡ false
        → t.register m (write_register t n kept w).1 ≡ t.register m w
    unfolding write_register
    write_register-other n m kept w e =
        by_if {X = Bool × W} (λ p. t.register m p.1 ≡ t.register m w) (is_vector n)
          (good.writes n m kept w e) (good.sets n m _ w e)

    restore-other :
        (m : Register) (r : Saved) (s : SelfTrap W)
        → is_apart m (registers_of r) ≡ true
        → t.register m (restore t r s).1.target ≡ t.register m s.target
    unfolding restore write_register is_read
    restore-other m [] s e = refl
    restore-other m ((n, kept) ∷ r) s e =
        let first : t.register m (write_register t n kept s.target).1 ≡ t.register m s.target =
          write_register-other n m kept s.target (not-true (same_register n m) (and_left _ _ e)) in
        by_if {X = Option Problem × SelfTrap W}
          (λ p. t.register m p.1.target ≡ t.register m s.target) _
          (restore-other m r (record s { target = (write_register t n kept s.target).1 })
              (and_right _ _ e)
            ∙ first)
          first

    -- What `_restore` leaves of the saved registers: their bytes, where it does not raise.
    abbrev pub Restored : Saved → SelfTrap W → Option Problem × SelfTrap W → Type 0
    Restored r s (some e, s') = Unit
    Restored r s (none, s') = Holds s'.target r × (s'.active ≡ s.active)

    pub restore-Restored :
        (r : Saved) (s : SelfTrap W)
        → are_distinct (registers_of r) ≡ true
        → Restored r s (restore t r s)
    unfolding restore write_register is_read
    restore-Restored [] s e = (tt, refl)
    restore-Restored ((n, kept) ∷ r) s e =
        by_test _ refl (restore t r next) (restore-other n r next (and_left _ _ e))
          (restore-Restored r next (and_right _ _ e))
      where
        next : SelfTrap W
        next = record s { target = (write_register t n kept s.target).1 }

        by_test :
            (b : Bool)
            → ((write_register t n kept s.target).0 && is_read kept (t.register n next.target)) ≡ b
            → (rest : Option Problem × SelfTrap W)
            → t.register n rest.1.target ≡ t.register n next.target
            → Restored r next rest
            → Restored ((n, kept) ∷ r) s (
                if b then rest else (
                  some (cannot_restore n),
                  record s { error = some (cannot_restore n); target = next.target },
                ))
        by_test false h rest same_n restored = tt
        by_test true h (some problem, s') same_n restored = tt
        by_test true h (none, s') same_n restored = (
          (same_n ∙ is_read-eq kept (t.register n next.target) (and_right _ _ h), restored.0),
          restored.1,
        )
