-- ===== src/SelfTrap/Owned.antt =====
-- The memory and the breakpoints that macdbg/core/self_trap.py makes and gives back.
use macdbg.Prelude.{
  ℕ, ◌≡◌, refl, ◌∙◌, ap, Bool, true, false, Option, none, some, List, [], ◌∷◌, ◌==◌, if◌then◌else◌,
  arith,
}
use macdbg.Bytes.{little}
use macdbg.SelfTrap.{
  Register, Problem, cannot_restore, Saved, Entry, Target, SelfTrap, write_register, restore,
  queried, after_buffer, action, set_all, is_vector,
}

abbrev pub drop_first : ℕ → List ℕ → List ℕ
drop_first a [] = []
drop_first a (b ∷ bs) = let rest = drop_first a bs in if b == a then bs else b ∷ rest

-- What LLDB documents of the memory that is allocated for the debugger and of its breakpoints, `owned`:
-- the calls that make and release them, and no others, change them.
pub record IsOwner {W : Type 0} (t : Target W) (owned : W → List ℕ × List ℕ) : Type 0 where
  pub sets : (n : Register) (value : ℕ) (w : W) → owned (t.set_value n value w).1 ≡ owned w
  pub writes : (n : Register) (kept : List ℕ) (w : W) → owned (t.write_vector n kept w).1 ≡ owned w
  pub queries : (address : ℕ) (w : W) → owned (t.query address w).1 ≡ owned w
  pub restricts : (bid tid : ℕ) (w : W) → owned (t.for_thread bid tid w) ≡ owned w
  pub runs : (w : W) → owned (t.cont w) ≡ owned w
  pub allocates :
      (size : ℕ) (w : W) (a : ℕ)
      → (t.allocate size w).0 ≡ some a
      → owned (t.allocate size w).1 ≡ (a ∷ (owned w).0, (owned w).1)
  pub refuses :
      (size : ℕ) (w : W) → (t.allocate size w).0 ≡ none → owned (t.allocate size w).1 ≡ owned w
  pub releases :
      (a : ℕ) (w : W) → owned (t.deallocate a w) ≡ (drop_first a (owned w).0, (owned w).1)
  pub creates :
      (address : ℕ) (w : W) (bid : ℕ)
      → (t.hardware address w).0 ≡ some bid
      → owned (t.hardware address w).1 ≡ ((owned w).0, bid ∷ (owned w).1)
  pub declines :
      (address : ℕ) (w : W)
      → (t.hardware address w).0 ≡ none
      → owned (t.hardware address w).1 ≡ owned w
  pub deletes :
      (bid : ℕ) (w : W)
      → owned (t.delete_breakpoint bid w) ≡ ((owned w).0, drop_first bid (owned w).1)

drop_first-first : (a : ℕ) (rest : List ℕ) → drop_first a (a ∷ rest) ≡ rest
drop_first-first a rest = let self : (a == a) ≡ true = ground arith in rw self refl

-- Beyond `base` there are the stack and the breakpoint of the one entry, or nothing where there is none.
abbrev pub Owning : List ℕ × List ℕ → List (ℕ × Entry) → List ℕ × List ℕ → Type 0
Owning base [] o = o ≡ base
Owning base ((tid, e) ∷ []) o = o ≡ (e.stack ∷ base.0, e.bp ∷ base.1)
Owning base (first ∷ second ∷ active) o = ⊥

module _ {W : Type 0} (t : Target W) (owned : W → List ℕ × List ℕ) (good : IsOwner t owned)
    (base : List ℕ × List ℕ) where
  abbrev pub Owns : SelfTrap W → Type 0
  Owns s = Owning base s.active (owned s.target)

  pub release-owned :
      (a : ℕ) (w : W) (o : List ℕ × List ℕ)
      → owned w ≡ (a ∷ o.0, o.1)
      → owned (t.deallocate a w) ≡ o
  release-owned a w o h =
      good.releases a w
      ∙ ap (λ p. (drop_first a p.0, p.1)) h
      ∙ ap (λ l. (l, o.1)) (drop_first-first a o.0)

  pub delete-owned :
      (b : ℕ) (w : W) (o : List ℕ × List ℕ)
      → owned w ≡ (o.0, b ∷ o.1)
      → owned (t.delete_breakpoint b w) ≡ o
  delete-owned b w o h =
      good.deletes b w
      ∙ ap (λ p. (p.0, drop_first b p.1)) h
      ∙ ap (λ l. (o.0, l)) (drop_first-first b o.1)

  write_register-owned :
      (n : Register) (kept : List ℕ) (w : W) → owned (write_register t n kept w).1 ≡ owned w
  unfolding write_register
  write_register-owned n kept w = by_kind (is_vector n)
    where
      by_kind :
          (b : Bool)
          → owned (if b then t.write_vector n kept w else t.set_value n (little kept) w).1 ≡ owned w
      by_kind true = good.writes n kept w
      by_kind false = good.sets n (little kept) w

  abbrev pub Keeps : SelfTrap W → SelfTrap W → Type 0
  Keeps s s' = (s'.active ≡ s.active) × (owned s'.target ≡ owned s.target)

  pub restore-Keeps : (r : Saved) (s : SelfTrap W) → Keeps s (restore t r s).1
  unfolding restore write_register
  restore-Keeps [] s = (refl, refl)
  restore-Keeps ((n, kept) ∷ r) s =
      by_test _ (restore t r next) (restore-Keeps r next) (write_register-owned n kept s.target)
    where
      next : SelfTrap W
      next = record s { target = (write_register t n kept s.target).1 }

      by_test :
          (b : Bool) (rest : Option Problem × SelfTrap W)
          → Keeps next rest.1
          → owned next.target ≡ owned s.target
          → Keeps s
              (if b then rest else (
                some (cannot_restore n),
                record s { error = some (cannot_restore n); target = next.target },
              )).1
      by_test true rest h e = (h.0, h.1 ∙ e)
      by_test false rest h e = (refl, e)

  queried-owned :
      (a : ℕ) (q : Bool × W) (o : List ℕ × List ℕ)
      → owned q.1 ≡ (a ∷ o.0, o.1)
      → owned (queried t a q).1 ≡ o
  unfolding queried
  queried-owned a (false, w) o h = release-owned a w o h
  queried-owned a (true, w) o h = release-owned a w o h

  pub action-owned : (w : W) → owned (action t w).1 ≡ owned w
  unfolding action after_buffer
  action-owned w = by_answer (t.allocate 16 w) (good.allocates 16 w) (good.refuses 16 w)
    where
      by_answer :
          (q : Option ℕ × W)
          → ((a : ℕ) → q.0 ≡ some a → owned q.1 ≡ (a ∷ (owned w).0, (owned w).1))
          → (q.0 ≡ none → owned q.1 ≡ owned w)
          → owned (after_buffer t q).1 ≡ owned w
      by_answer (none, w') h h' = h' refl
      by_answer (some a, w') h h' =
          queried-owned a (t.query a w') (owned w) (good.queries a w' ∙ h a refl)

  pub set_all-owned :
      (values : List (Register × ℕ)) (w : W) → owned (set_all t values w).1 ≡ owned w
  unfolding set_all
  set_all-owned [] w = refl
  set_all-owned ((n, value) ∷ values) w =
      by_test (t.set_value n value w).0 (set_all t values w')
        (set_all-owned values w' ∙ good.sets n value w)
    where
      w' : W
      w' = (t.set_value n value w).1

      by_test :
          (b : Bool) (rest : Bool × W)
          → owned rest.1 ≡ owned w
          → owned (if b then rest else (false, w')).1 ≡ owned w
      by_test true rest h = h
      by_test false rest h = good.sets n value w
