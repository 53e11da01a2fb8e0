-- ===== src/SessionTools/Policies.antt =====
-- The signal policies that macdbg/core/session_tools.py changes, or sets back.
use macdbg.Prelude.{
  ℕ, ◌≡◌, Bool, true, false, ◌&&◌, Option, none, some, List, [], ◌∷◌, Result, ok, err,
}
use macdbg.SessionTools.{
  Kind, stopping, suppressing, notifying, Flag, Problem, Signals, wanted, denied, change_all,
  policies,
}

abbrev pub same_kind : Kind → Kind → Bool
same_kind stopping stopping = true
same_kind suppressing suppressing = true
same_kind notifying notifying = true
same_kind _ _ = false

abbrev pub or_before : Option Bool → Bool → Bool
or_before none before = before
or_before (some b) before = b

-- What LLDB documents: a change that is accepted is made, and a change leaves the policies of other kinds.
pub record IsSignals {S : Type 0} (g : Signals S) : Type 0 where
  pub sets :
      (k : Kind) (n : ℕ) (b : Bool) (s : S)
      → (g.set_policy k n b s).0 ≡ true
      → g.policy k n (g.set_policy k n b s).1 ≡ b
  pub others :
      (k k' : Kind) (n : ℕ) (b : Bool) (s : S)
      → same_kind k k' ≡ false
      → g.policy k' n (g.set_policy k n b s).1 ≡ g.policy k' n s

module _ {S : Type 0} (g : Signals S) where
  -- Whether LLDB accepts the values that are set back.
  abbrev pub is_accepted : ℕ → List (Kind × Bool) → S → Bool
  is_accepted n [] s = true
  is_accepted n ((k, b) ∷ rest) s =
      (g.set_policy k n b s).0 && is_accepted n rest (g.set_policy k n b s).1

  abbrev pub expected : (stop deliver notify : Flag) → ℕ → S → List (Kind × Bool)
  expected stop deliver notify n s =
      (stopping, or_before (wanted stop) (g.policy stopping n s))
      ∷ (suppressing, or_before (denied (wanted deliver)) (g.policy suppressing n s))
      ∷ (notifying, or_before (wanted notify) (g.policy notifying n s))
      ∷ []

  -- One change of the loop, which went on to its end.
  abbrev Changed : ℕ → Kind → Option Bool → List (Kind × Option Bool) → S → S → Type 0
  Changed n k w rest s s' =
      (next : S) × (g.policy k n next ≡ or_before w (g.policy k n s))
      × ((k' : Kind) → same_kind k k' ≡ false → g.policy k' n next ≡ g.policy k' n s)
      × (change_all g n rest next ≡ (true, s'))

  -- The policies after `signal_policy`: those that were asked for, or those from before.
  abbrev pub IsPolicy :
      (stop deliver notify : Flag) → ℕ → S → Result Problem (Unit {0}) × S → Type 0
  IsPolicy stop deliver notify n s (ok u, s') = policies g n s' ≡ expected stop deliver notify n s
  IsPolicy stop deliver notify n s (err e, s') = policies g n s' ≡ policies g n s
