-- ===== src/ReturnHooks/Tests.antt =====
-- Runs of macdbg/core/return_hooks.py on a debugger with two breakpoints, and the theorems there.
use macdbg.Prelude.{
  ℕ, sym, suc, ◌<◌, ◌≡◌, ◌≢◌, refl, true, none, some, List, [], ◌∷◌, ◌++◌, arith, ltb, max,
  if◌then◌else◌, length, map, All, Bool-cases, inl, inr,
}
use macdbg.ReturnHooks.{
  Hook, Breakpoints, IsBreakpoints, without_id, ReturnHooks, Frame, arm, consume, completes,
}
use macdbg.ReturnHooks.Ownership.{IsOwned}
use macdbg.ReturnHooks.Completion.{Call, arming, run, run-IsOwned}

largest : List ℕ → ℕ
largest [] = 0
largest (i ∷ ids) = max i (largest ids)

largest-new : (ids : List ℕ) (n : ℕ) → largest ids < n → All (λ i. i ≢ n) ids
unfolding largest
largest-new [] n lt = tt
largest-new (i ∷ ids) n lt = (omega arith, largest-new ids n (omega arith))

abbrev two_sites : Breakpoints (List ℕ)
two_sites = record {
  create = λ address tid ids.
      if ltb (length ids) 2
      then (some (suc (largest ids)), ids ++ suc (largest ids) ∷ [])
      else (none, ids);
  delete = λ bid ids. without_id bid ids;
  remember = λ bid ids. ids;
}

abbrev ids_of : List ℕ → List ℕ
ids_of ids = ids

two_sites-IsBreakpoints : IsBreakpoints two_sites ids_of
two_sites-IsBreakpoints = record {
  refuses = λ address tid ids e. elim (Bool-cases (ltb (length ids) 2)) [
    | inl room ↦ let absurd : some (suc (largest ids)) ≡ none = rw room at e in cc
    | inr full ↦ rw full refl
  ];
  creates = λ address tid ids bid e. elim (Bool-cases (ltb (length ids) 2)) [
    | inl room ↦
        let e : some (suc (largest ids)) ≡ some bid = rw room at e in
        let same : suc (largest ids) ≡ bid = cc in
        rw (room, sym same) (refl, largest-new ids (suc (largest ids)) (omega arith))
    | inr full ↦ let absurd : none ≡ some bid = rw full at e in cc
  ];
  deletes = λ bid ids. refl;
  remembers = λ bid ids. refl;
}

abbrev blank : ReturnHooks (List ℕ) ℕ
blank = record { debugger = []; limit = 128; pending = []; sequence = 0; retired = [] }

abbrev frame_at : (lr sp pc : ℕ) → Frame
frame_at lr sp pc = record { lr = lr; tid = 1; sp = sp; pc = pc; is_breakpoint = true }

-- A call that calls itself with the same frame, and a third that finds no breakpoint.
abbrev calls : List (Call ℕ)
calls =
    arming (frame_at 100 50 1) 7 ∷ arming (frame_at 100 50 1) 8 ∷ arming (frame_at 200 60 1) 9 ∷ []

abbrev busy : ReturnHooks (List ℕ) ℕ
busy = run two_sites calls blank

consume-newest_first :
    map (λ (h : Hook ℕ). h.payload) (consume two_sites (frame_at 0 50 100) busy).0 ≡ 8 ∷ 7 ∷ []
unfolding run arm consume completes largest
consume-newest_first = refl

blank-IsOwned : IsOwned two_sites ids_of two_sites-IsBreakpoints blank
blank-IsOwned = record { owned = refl; distinct = tt; few = omega arith }

run-IsOwned_example : IsOwned two_sites ids_of two_sites-IsBreakpoints (run two_sites calls blank)
run-IsOwned_example = run-IsOwned two_sites ids_of two_sites-IsBreakpoints calls blank blank-IsOwned
