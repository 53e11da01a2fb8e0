-- ===== src/ReturnHooks/Ownership.antt =====
-- macdbg/core/return_hooks.py: the pending hooks own exactly the debugger's breakpoints for returns.
use macdbg.Prelude.{
  ℕ, ◌+◌, ◌≤◌, ◌<◌, ◌≡◌, ◌≢◌, refl, sym, ap, ◌∙◌, Bool, true, false, not, Option, none, some, List,
  [], ◌∷◌, ◌++◌, arith, leb, ◌==◌, if◌then◌else◌, length, length-append, select, All, All-append,
  Bool-cases, inl, inr,
}
use macdbg.ReturnHooks.{
  Hook, bids, Breakpoints, IsBreakpoints, forget, without_id, ReturnHooks, limit_reached,
  no_return_address, Frame, delete_all, clear, arm_at, arm, retire,
}

-- No breakpoint number stands twice.
abbrev pub Distinct : {P : Type 0} → List (Hook P) → Type 0
Distinct [] = Unit
Distinct (h ∷ hooks) = All (λ (i : ℕ). i ≢ h.bid) (bids hooks) × Distinct hooks

forget_none :
    {P : Type 0} (bid : ℕ) (hooks : List (Hook P))
    → All (λ i. i ≢ bid) (bids hooks)
    → forget bid hooks ≡ hooks
unfolding forget
forget_none bid [] h = refl
forget_none bid (x ∷ hooks) h =
    let other : (x.bid == bid) ≡ false = ground (arith, h.0) in
    rw (other, forget_none bid hooks h.1) refl

forget-first :
    {P : Type 0} (x : Hook P) (hooks : List (Hook P))
    → All (λ i. i ≢ x.bid) (bids hooks)
    → forget x.bid (x ∷ hooks) ≡ hooks
unfolding forget
forget-first x hooks h =
    let self : (x.bid == x.bid) ≡ true = ground arith in rw self (forget_none x.bid hooks h)

bids-forget :
    {P : Type 0} (bid : ℕ) (hooks : List (Hook P))
    → bids (forget bid hooks) ≡ without_id bid (bids hooks)
unfolding forget
bids-forget bid [] = refl
bids-forget bid (x ∷ hooks) = elim (Bool-cases (x.bid == bid)) [
  | inl same ↦ rw same (bids-forget bid hooks)
  | inr other ↦ rw other (ap (λ ids. x.bid ∷ ids) (bids-forget bid hooks))
]

bids-append :
    {P : Type 0} (hooks : List (Hook P)) (h : Hook P)
    → bids (hooks ++ h ∷ []) ≡ bids hooks ++ h.bid ∷ []
bids-append [] h = refl
bids-append (x ∷ hooks) h = ap (λ ids. x.bid ∷ ids) (bids-append hooks h)

Distinct-append :
    {P : Type 0} (hooks : List (Hook P)) (h : Hook P)
    → Distinct hooks
    → All (λ i. i ≢ h.bid) (bids hooks)
    → Distinct (hooks ++ h ∷ [])
Distinct-append [] h d n = (tt, tt)
Distinct-append (x ∷ hooks) h d n =
    let apart : All (λ (i : ℕ). i ≢ x.bid) (bids hooks ++ h.bid ∷ []) =
      All-append _ (bids hooks) (h.bid ∷ []) d.0 ((λ e. n.0 (sym e)), tt) in
    (rw (bids-append hooks h) apart, Distinct-append hooks h d.1 n.1)

module _ {P : Type 0} where
  -- The hooks that are not of these numbers.
  abbrev pub forget_all : List (Hook P) → List (Hook P) → List (Hook P)
  forget_all [] hooks = hooks
  forget_all (m ∷ matches) hooks = forget_all matches (forget m.bid hooks)

  bids-select :
      (q : ℕ → Type 0) (test : Hook P → Bool) (hooks : List (Hook P))
      → All q (bids hooks)
      → All q (bids (select test hooks))
  bids-select q test [] h = tt
  bids-select q test (x ∷ hooks) h = elim (Bool-cases (test x)) [
    | inl on ↦ rw on (h.0, bids-select q test hooks h.1)
    | inr off ↦ rw off (bids-select q test hooks h.1)
  ]

  forget_all-other :
      (matches : List (Hook P)) (x : Hook P) (hooks : List (Hook P))
      → All (λ (i : ℕ). i ≢ x.bid) (bids matches)
      → forget_all matches (x ∷ hooks) ≡ x ∷ forget_all matches hooks
  unfolding forget
  forget_all-other [] x hooks h = refl
  forget_all-other (m ∷ matches) x hooks h =
      let other : (x.bid == m.bid) ≡ false = ground (arith, h.0) in
      rw other (forget_all-other matches x (forget m.bid hooks) h.1)

  -- Forgetting the hooks that pass a test leaves those that do not.
  pub forget_all-select :
      (test : Hook P → Bool) (hooks : List (Hook P))
      → Distinct hooks
      → forget_all (select test hooks) hooks ≡ select (λ h. not (test h)) hooks
  unfolding forget
  forget_all-select test [] d = refl
  forget_all-select test (x ∷ hooks) d = elim (Bool-cases (test x)) [
    | inl on ↦ rw on (
        ap (forget_all (select test hooks)) (forget-first x hooks d.0)
        ∙ forget_all-select test hooks d.1)
    | inr off ↦ rw off (
        forget_all-other (select test hooks) x hooks (bids-select _ test hooks d.0)
        ∙ ap (λ hs. x ∷ hs) (forget_all-select test hooks d.1))
  ]

module _ {S P : Type 0} (b : Breakpoints S) (hardware : S → List ℕ)
    (laws : IsBreakpoints b hardware) where
  -- The debugger has one breakpoint for each pending hook and no other, and there are not too many.
  pub record IsOwned (r : ReturnHooks S P) : Type 0 where
    pub owned : hardware r.debugger ≡ bids r.pending
    pub distinct : Distinct r.pending
    pub few : length r.pending ≤ r.limit

  delete_all-bids :
      (hooks : List (Hook P)) (s : S)
      → Distinct hooks
      → hardware s ≡ bids hooks
      → hardware (delete_all b (bids hooks) s) ≡ []
  unfolding delete_all
  delete_all-bids [] s d e = e
  delete_all-bids (x ∷ hooks) s d e = delete_all-bids hooks (b.delete x.bid s) d.1 (
      laws.deletes x.bid s
      ∙ ap (without_id x.bid) e
      ∙ sym (bids-forget x.bid (x ∷ hooks))
      ∙ ap bids (forget-first x hooks d.0))

  pub clear-IsOwned : (r : ReturnHooks S P) → IsOwned r → IsOwned (clear b r)
  unfolding clear
  clear-IsOwned r h = record {
    owned = delete_all-bids r.pending r.debugger h.distinct h.owned;
    distinct = tt;
    few = omega arith;
  }

  pub arm-IsOwned :
      (frame : Frame) (payload : P) (r : ReturnHooks S P)
      → IsOwned r
      → IsOwned (arm b frame payload r).1
  unfolding arm arm_at
  arm-IsOwned frame payload r h =
      by_tests (leb r.limit (length r.pending)) refl (frame.lr == 0)
        (b.create frame.lr frame.tid r.debugger).0 refl
    where
      s : S
      s = (b.create frame.lr frame.tid r.debugger).1

      hook : ℕ → Hook P
      hook bid = record {
        bid = bid;
        tid = frame.tid;
        sp = frame.sp;
        address = frame.lr;
        payload = payload;
        invocation = r.sequence + 1;
      }

      by_tests :
          (full : Bool)
          → leb r.limit (length r.pending) ≡ full
          → (no_address : Bool) (o : Option ℕ) → (b.create frame.lr frame.tid r.debugger).0 ≡ o
          → IsOwned
              (if full
                then (limit_reached, r)
                else if no_address
                then (no_return_address, r)
                else arm_at b frame payload r (o, s)).1
      by_tests true e no_address o c = h
      by_tests false e true o c = h
      by_tests false e false none c = record {
        owned = laws.refuses frame.lr frame.tid r.debugger c ∙ h.owned;
        distinct = h.distinct;
        few = h.few;
      }
      by_tests false e false (some bid) c =
          let (more, new) = laws.creates frame.lr frame.tid r.debugger bid c in
          let new : All (λ (i : ℕ). i ≢ bid) (bids r.pending) = rw h.owned at new in
          let less : length r.pending < r.limit = ground arith in
          record {
            owned =
                more ∙ ap (λ ids. ids ++ bid ∷ []) h.owned ∙ sym (bids-append r.pending (hook bid));
            distinct = Distinct-append r.pending (hook bid) h.distinct new;
            few = let n = length-append r.pending (hook bid ∷ []) in omega (arith, n, less);
          }

  pub retire-state :
      (matches : List (Hook P)) (r : ReturnHooks S P)
      → hardware r.debugger ≡ bids r.pending
      → ((retire b matches r).pending ≡ forget_all matches r.pending)
        × (hardware (retire b matches r).debugger ≡ bids (retire b matches r).pending)
        × ((retire b matches r).limit ≡ r.limit)
  unfolding retire
  retire-state [] r e = (refl, e, refl)
  retire-state (m ∷ matches) r e = retire-state matches _ (
      laws.deletes m.bid (b.remember m.bid r.debugger)
      ∙ ap (without_id m.bid) (laws.remembers m.bid r.debugger ∙ e)
      ∙ sym (bids-forget m.bid r.pending))

  pub Distinct-select :
      (test : Hook P → Bool) (hooks : List (Hook P)) → Distinct hooks → Distinct (select test hooks)
  Distinct-select test [] d = tt
  Distinct-select test (x ∷ hooks) d = elim (Bool-cases (test x)) [
    | inl on ↦ rw on (bids-select _ test hooks d.0, Distinct-select test hooks d.1)
    | inr off ↦ rw off (Distinct-select test hooks d.1)
  ]

  pub length-select :
      (test : Hook P → Bool) (hooks : List (Hook P)) → length (select test hooks) ≤ length hooks
  length-select test [] = omega arith
  length-select test (x ∷ hooks) = ground (arith, length-select test hooks)

  pub select_none :
      (test : Hook P → Bool) (hooks : List (Hook P))
      → select test hooks ≡ []
      → select (λ h. not (test h)) hooks ≡ hooks
  select_none test [] e = refl
  select_none test (x ∷ hooks) e = elim (Bool-cases (test x)) [
    | inl on ↦ let absurd : x ∷ select test hooks ≡ [] = rw on at e in cc
    | inr off ↦
        let rest : select test hooks ≡ [] = rw off at e in
        rw off (ap (λ hs. x ∷ hs) (select_none test hooks rest))
  ]
