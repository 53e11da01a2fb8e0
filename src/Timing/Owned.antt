-- ===== src/Timing/Owned.antt =====
-- The breakpoints that `enable` and `disable` of macdbg/core/timing.py make and delete.
use macdbg.Prelude.{
  ℕ, suc, ◌+◌, ◌≡◌, ◌≢◌, refl, sym, ◌∙◌, ap, subst, Bool, true, false, ◌==◌, Option, none, some,
  List, [], ◌∷◌, ◌++◌, append-nil, append_assoc, length-append, Post, Post-bind, Post-raise_if,
  raise_if, ◌>>◌, not, ◌||◌, if◌then◌else◌, All, All-append, length, Result, ok, err, arith,
}
use macdbg.Prelude.Int.{ℤ, pos, ◌+ℤ◌}
use macdbg.Bytes.{same}
use macdbg.Timing.{
  Hook, Timing, Breakpoints, discard, validated, validated_rules, has_text, has_site, check_action,
}
use macdbg.Timing.Rules.{
  Problem, Rule, Target, check_stopped, automatic_clocks, no_rules, module_base, is_name,
  duplicate_name, duplicate_site, instruction, changed,
}
use macdbg.Timing.Arming.{
  delete_hooks, disable, add_hook, arm_rules, finish_enable, enable_checked, enable,
}

-- What the debugger promises: `hardware` are its breakpoints; a new one has a new number, and the
-- refusal of one leaves them.
pub record IsBreakpoints {S : Type 0} (b : Breakpoints S) (hardware : S → List ℕ) : Type 0 where
  pub refuses :
      (address : ℤ) (s : S)
      → (b.create address s).0 ≡ none
      → hardware (b.create address s).1 ≡ hardware s
  pub creates :
      (address : ℤ) (s : S) (bid : ℕ)
      → (b.create address s).0 ≡ some bid
      → (hardware (b.create address s).1 ≡ hardware s ++ bid ∷ []) × All (λ i. i ≢ bid) (hardware s)
  pub deletes : (bid : ℕ) (s : S) → hardware (b.delete bid s) ≡ discard bid (hardware s)

abbrev pub bids : List Hook → List ℕ
bids [] = []
bids (h ∷ hooks) = h.bid ∷ bids hooks

bids-append : (hooks : List Hook) (h : Hook) → bids (hooks ++ h ∷ []) ≡ bids hooks ++ h.bid ∷ []
bids-append [] h = refl
bids-append (x ∷ hooks) h = ap (λ l. x.bid ∷ l) (bids-append hooks h)

abbrev Distinct : List ℕ → Type 0
Distinct [] = Unit
Distinct (x ∷ xs) = All (λ i. i ≢ x) xs × Distinct xs

Distinct-append :
    (xs : List ℕ) (y : ℕ) → Distinct xs → All (λ i. i ≢ y) xs → Distinct (xs ++ y ∷ [])
Distinct-append [] y h k = (tt, tt)
Distinct-append (x ∷ xs) y h k =
    (All-append (λ i. i ≢ x) xs (y ∷ []) h.0 ((λ e. k.0 (sym e)), tt), Distinct-append xs y h.1 k.1)

All-parts : (P : ℕ → Type 0) (xs ys : List ℕ) → All P (xs ++ ys) → All P xs × All P ys
All-parts P [] ys h = (tt, h)
All-parts P (x ∷ xs) ys h = let (a, b) = All-parts P xs ys h.1 in ((h.0, a), b)

discard_none : (x : ℕ) (ids : List ℕ) → All (λ i. i ≢ x) ids → discard x ids ≡ ids
discard_none x [] h = refl
discard_none x (y ∷ ids) h =
    let other : (y == x) ≡ false = ground (arith, h.0) in
    rw other (ap (λ l. y ∷ l) (discard_none x ids h.1))

discard-middle :
    (x : ℕ) (old xs : List ℕ)
    → All (λ i. i ≢ x) old
    → All (λ i. i ≢ x) xs
    → discard x (old ++ x ∷ xs) ≡ old ++ xs
discard-middle x [] xs h k =
    let self : (x == x) ≡ true = ground arith in rw self (discard_none x xs k)
discard-middle x (y ∷ old) xs h k =
    let other : (y == x) ≡ false = ground (arith, h.0) in
    rw other (ap (λ l. y ∷ l) (discard-middle x old xs h.1 k))

Post-any {ℓ} : {A : Type ℓ} → (m : Result Problem A) → Post (λ e. Unit {0}) (λ a. Unit {0}) m
Post-any (ok a) = tt
Post-any (err e) = tt

-- There is one validated row for each rule.
validated_rules-length :
    (t : Target) (base : ℕ) (names : List (List ℕ)) (sites : List ℤ) (rules : List Rule)
    → Post
        (λ e. Unit {0})
        (λ rows. length rows ≡ length rules)
        (validated_rules t base names sites rules)
unfolding validated_rules
validated_rules-length t base names sites [] = refl
validated_rules-length t base names sites (rule ∷ rules) =
    Post-raise_if (λ e. Unit) (λ rows. length rows ≡ suc (length rules))
      (not (is_name rule.name) || has_text rule.name names) duplicate_name _ tt
      (λ e.
        Post-raise_if (λ e. Unit) (λ rows. length rows ≡ suc (length rules))
          (has_site (pos base +ℤ rule.offset) sites) duplicate_site _ tt
          (λ e'.
            Post-bind (λ e. Unit) (λ w. Unit {0}) (λ rows. length rows ≡ suc (length rules))
              (instruction t (pos base +ℤ rule.offset)) _
              (Post-any (instruction t (pos base +ℤ rule.offset)))
              (λ here u.
                Post-raise_if (λ e. Unit) (λ rows. length rows ≡ suc (length rules))
                  (not (same here rule.expected)) changed _ tt
                  (λ e''.
                    Post-bind (λ e. Unit) (λ w. Unit {0}) (λ rows. length rows ≡ suc (length rules))
                      (check_action t base (pos base +ℤ rule.offset) rule.action) _
                      (Post-any (check_action t base (pos base +ℤ rule.offset) rule.action))
                      (λ w u'.
                        Post-bind (λ e. Unit) (λ rows. length rows ≡ length rules)
                          (λ rows. length rows ≡ suc (length rules))
                          (validated_rules t base (rule.name ∷ names)
                            ((pos base +ℤ rule.offset) ∷ sites) rules)
                          _
                          (validated_rules-length t base (rule.name ∷ names)
                            ((pos base +ℤ rule.offset) ∷ sites) rules)
                          (λ rows k. ap suc k))))))

validated-length :
    (t : Target) (rules : List Rule)
    → Post (λ e. Unit {0}) (λ rows. length rows ≡ length rules) (validated t rules)
unfolding validated
validated-length t rules =
    Post-bind (λ e. Unit) (λ u. Unit {0}) (λ rows. length rows ≡ length rules) (module_base t) _
      (Post-any (module_base t)) (λ base u. validated_rules-length t base [] [] rules)

module _ {S : Type 0} (b : Breakpoints S) (hardware : S → List ℕ)
    (laws : IsBreakpoints b hardware) where
  -- The breakpoints of the debugger are those that it had, `old`, and one for each hook.
  pub record Owns (old : List ℕ) (d : Timing S) : Type 0 where
    pub owned : hardware d.debugger ≡ old ++ bids d.hooks
    pub distinct : Distinct (bids d.hooks)
    pub new : All (λ x. All (λ i. i ≢ x) old) (bids d.hooks)

  -- Deleting the breakpoints of the hooks leaves the old ones.
  delete_hooks-owned :
      (old : List ℕ) (hooks : List Hook) (s : S)
      → hardware s ≡ old ++ bids hooks
      → Distinct (bids hooks)
      → All (λ x. All (λ i. i ≢ x) old) (bids hooks)
      → hardware (delete_hooks b hooks s) ≡ old
  unfolding delete_hooks
  delete_hooks-owned old [] s e h k = e ∙ append-nil old
  delete_hooks-owned old (x ∷ hooks) s e h k =
      delete_hooks-owned old hooks (b.delete x.bid s)
        (laws.deletes x.bid s
          ∙ ap (discard x.bid) e
          ∙ discard-middle x.bid old (bids hooks) k.0 h.0)
        h.1 k.1

  pub disable-owned :
      (old : List ℕ) (d : Timing S) → Owns old d → hardware (disable b true d).debugger ≡ old
  unfolding disable
  disable-owned old d h = delete_hooks-owned old d.hooks d.debugger h.owned h.distinct h.new

  arm_rules-Owns :
      (old : List ℕ) (rules : List (Rule × ℤ)) (d : Timing S)
      → Owns old d
      → Owns old (arm_rules b rules d).1
  unfolding arm_rules
  arm_rules-Owns old [] d h = h
  arm_rules-Owns old ((rule, address) ∷ rules) d h =
      by_answer (b.create address d.debugger) refl (λ next k. arm_rules-Owns old rules next k)
    where
      by_answer :
          (p : Option ℕ × S)
          → b.create address d.debugger ≡ p
          → ((next : Timing S) → Owns old next → Owns old (arm_rules b rules next).1)
          → Owns old
              (if (add_hook rule address p d).0
                then arm_rules b rules (add_hook rule address p d).1
                else (false, (add_hook rule address p d).1)).1
      by_answer (none, s) e ih =
          let answer : (b.create address d.debugger).0 ≡ none = ap (λ q. q.0) e in
          let same_hardware =
            ap (λ q. hardware q.1) (sym e) ∙ laws.refuses address d.debugger answer in
          record { owned = same_hardware ∙ h.owned; distinct = h.distinct; new = h.new }
      by_answer (some bid, s) e ih =
          let answer : (b.create address d.debugger).0 ≡ some bid = ap (λ q. q.0) e in
          let (grown, fresh) = laws.creates address d.debugger bid answer in
          let fresh' = subst (All (λ i. i ≢ bid)) h.owned fresh in
          let (not_old, not_hook) = All-parts (λ i. i ≢ bid) old (bids d.hooks) fresh' in
          let next_hook : Hook = record { bid = bid; rule = rule; address = address } in
          ih (add_hook rule address (some bid, s) d).1 (record {
            owned =
                ap (λ q. hardware q.1) (sym e)
                ∙ grown
                ∙ ap (λ l. l ++ bid ∷ []) h.owned
                ∙ append_assoc old (bids d.hooks) (bid ∷ [])
                ∙ ap (λ l. old ++ l) (sym (bids-append d.hooks next_hook));
            distinct =
                subst Distinct (sym (bids-append d.hooks next_hook))
                  (Distinct-append (bids d.hooks) bid h.distinct not_hook);
            new = subst (All (λ x. All (λ i. i ≢ x) old)) (sym (bids-append d.hooks next_hook)) (
                All-append (λ x. All (λ i. i ≢ x) old) (bids d.hooks) (bid ∷ []) h.new
                  (not_old, tt));
          })

  -- What an attempt to enable leaves: the rules enabled, each with one new breakpoint, or nothing
  -- at all but the error.
  abbrev pub AllOrNothing : Timing S → Option Problem × Timing S → Type 0
  AllOrNothing d (none, d') =
      (d'.enabled ≡ true) × (length d'.hooks ≡ length d.rules) × Owns (hardware d.debugger) d'
  AllOrNothing d (some e, d') =
      (d'.enabled ≡ false)
      × (d'.hooks ≡ [])
      × (d'.last_error ≡ some e)
      × (hardware d'.debugger ≡ hardware d.debugger)

  -- As many hooks are made as there are rules, where all are made.
  arm_rules-length :
      (rules : List (Rule × ℤ)) (d : Timing S)
      → (arm_rules b rules d).0 ≡ true
      → length (arm_rules b rules d).1.hooks ≡ length d.hooks + length rules
  unfolding arm_rules
  arm_rules-length [] d h = omega arith
  arm_rules-length ((rule, address) ∷ rules) d h =
      by_answer (b.create address d.debugger) (λ next k. arm_rules-length rules next k) h
    where
      by_answer :
          (p : Option ℕ × S)
          → ((next : Timing S)
              → (arm_rules b rules next).0 ≡ true
              → length (arm_rules b rules next).1.hooks ≡ length next.hooks + length rules)
          → (if (add_hook rule address p d).0
              then arm_rules b rules (add_hook rule address p d).1
              else (false, (add_hook rule address p d).1)).0
            ≡ true
          → length
              (if (add_hook rule address p d).0
                then arm_rules b rules (add_hook rule address p d).1
                else (false, (add_hook rule address p d).1)).1.hooks
            ≡ length d.hooks + suc (length rules)
      by_answer (none, s) ih h = let absurd : ⊥ = cc in elim absurd [ ]
      by_answer (some bid, s) ih h =
          let e = ih (add_hook rule address (some bid, s) d).1 h in
          omega (
            arith,
            e,
            length-append d.hooks (record { bid = bid; rule = rule; address = address } ∷ []),
          )

  Owns-none : (d : Timing S) → d.hooks ≡ [] → Owns (hardware d.debugger) d
  Owns-none d e = record {
    owned =
        sym (ap (λ hooks. hardware d.debugger ++ bids hooks) e ∙ append-nil (hardware d.debugger));
    distinct = subst (λ hooks. Distinct (bids hooks)) (sym e) tt;
    new =
        subst (λ hooks. All (λ x. All (λ i. i ≢ x) (hardware d.debugger)) (bids hooks)) (sym e) tt;
  }

  enable_checked-AllOrNothing :
      (d : Timing S) (checked : Result Problem (List (Rule × ℤ)))
      → d.hooks ≡ []
      → Post (λ e. Unit {0}) (λ rules. length rules ≡ length d.rules) checked
      → AllOrNothing d (enable_checked b true d checked)
  unfolding disable arm_rules
  enable_checked-AllOrNothing d (err e) none_yet h =
      (refl, refl, refl, disable-owned (hardware d.debugger) d (Owns-none d none_yet))
  enable_checked-AllOrNothing d (ok rules) none_yet h =
      by_made (arm_rules b rules d)
        (arm_rules-Owns (hardware d.debugger) rules d (Owns-none d none_yet))
        (arm_rules-length rules d)
    where
      by_made :
          (p : Bool × Timing S)
          → Owns (hardware d.debugger) p.1
          → (p.0 ≡ true → length p.1.hooks ≡ length d.hooks + length rules)
          → AllOrNothing d (finish_enable b true p)
      by_made (true, d') k l = (
        refl,
        l refl ∙ ap (λ n. n + length rules) (ap length none_yet) ∙ omega (arith, h),
        record { owned = k.owned; distinct = k.distinct; new = k.new },
      )
      by_made (false, d') k l = (refl, refl, refl, disable-owned (hardware d.debugger) d' k)

  -- With a target, rules that are not enabled and have no hooks, and a debugger whose breakpoints
  -- have numbers of their own: `enable` answers true with as many hooks as rules, each with a
  -- breakpoint that the debugger did not have before and has once; or it answers false, and then the
  -- rules are not enabled, the error is kept, and the debugger has the breakpoints that it had, the
  -- ones made on the way included.
  pub enable-AllOrNothing :
      (t : Target) (clocks : Bool) (revalidate : Timing S → Option Problem × Timing S)
      (d : Timing S)
      → t.valid ≡ true
      → d.enabled ≡ false
      → d.hooks ≡ []
      → AllOrNothing d (enable b t clocks revalidate d)
  unfolding enable
  enable-AllOrNothing t clocks revalidate d valid off none_yet =
      by_tests d.enabled t.valid off valid (
        Post-bind (λ e. Unit) (λ u. Unit {0}) (λ rows. length rows ≡ length d.rules) guards _
          (Post-any guards) (λ u v. validated-length t d.rules))
    where
      guards : Result Problem (Unit {0})
      guards =
          check_stopped t
          >> raise_if clocks automatic_clocks
          >> raise_if (length d.rules == 0) no_rules

      by_tests :
          (on has : Bool)
          → on ≡ false
          → has ≡ true
          → Post
              (λ e. Unit {0})
              (λ rows. length rows ≡ length d.rules)
              (guards >> validated t d.rules)
          → AllOrNothing d
              (if on then revalidate d else enable_checked b has d (guards >> validated t d.rules))
      by_tests true has e e' rows = let absurd : ⊥ = cc in elim absurd [ ]
      by_tests false false e e' rows = let absurd : ⊥ = cc in elim absurd [ ]
      by_tests false true e e' rows =
          enable_checked-AllOrNothing d (guards >> validated t d.rules) none_yet rows
