-- ===== src/SessionTools.antt =====
-- macdbg/core/session_tools.py: the native signal policies, and the processes that descend from the target.
pub mod Families
pub mod Policies
mod Tests
use macdbg.Prelude.{
  ℕ, zero, suc, Bool, true, false, not, ◌&&◌, ◌||◌, Option, none, some, List, [], ◌∷◌, ◌++◌, ◌==◌,
  if◌then◌else◌, length, select, Result, ok, err, ◌>>=◌, ◌>>◌, raise_if,
}

-- A row of `ps`, whose numbers are read outside.
pub record Row : Type 0 where
  pub pid : ℕ
  pub parent : ℕ
  pub state : List ℕ
  pub path : List ℕ

unfoldable pub is_in : ℕ → List ℕ → Bool
is_in p [] = false
is_in p (q ∷ qs) = q == p || is_in p qs

-- `{r['pid'] for r in rows if r['parent'] in selected}`
unfoldable pub children : List Row → List ℕ → List ℕ
unfolding is_in
children [] selected = []
children (r ∷ rows) selected =
    let rest = children rows selected in if is_in r.parent selected then r.pid ∷ rest else rest

-- `more <= selected`
unfoldable pub is_subset : (more selected : List ℕ) → Bool
unfolding is_in
is_subset [] selected = true
is_subset (p ∷ more) selected = is_in p selected && is_subset more selected

-- The loop, for a number of rounds.
unfoldable pub grow : (rounds : ℕ) → List Row → (selected : List ℕ) → List ℕ
unfolding children is_subset
grow zero rows selected = selected
grow (suc n) rows selected =
    let more = children rows selected in
    let rest = grow n rows (more ++ selected) in if is_subset more selected then selected else rest

-- `related_processes`, for the rows that were read.
unfoldable pub related : List Row → (root : ℕ) → List Row
unfolding grow is_in
related rows root = select (λ r. is_in r.pid (grow 64 rows (root ∷ []))) rows

pub data Kind : Type 0 where
  stopping suppressing notifying : Kind

-- An argument that is left out, a Boolean, or another value.
pub data Flag : Type 0 where
  absent no_boolean : Flag
  flag : Bool → Flag

pub data Problem : Type 0 where
  not_stopped unavailable no_number reserved no_booleans refused : Problem

-- What is asked of LLDB: whether a stopped process and its signals are there, the name of a number, and the
-- policies of the signals in a state `S`, with whether a change was accepted.
pub record Signals (S : Type 0) : Type 0 where
  pub is_stopped : S → Bool
  pub is_valid : S → Bool
  pub has_name : ℕ → S → Bool
  pub policy : Kind → ℕ → S → Bool
  pub set_policy : Kind → ℕ → Bool → S → Bool × S

abbrev pub is_bad : Flag → Bool
is_bad no_boolean = true
is_bad _ = false

abbrev pub wanted : Flag → Option Bool
wanted (flag b) = some b
wanted _ = none

-- `None if deliver is None else not deliver`
abbrev pub denied : Option Bool → Option Bool
denied none = none
denied (some b) = some (not b)

abbrev pub changes : (stop deliver notify : Flag) → List (Kind × Option Bool)
changes stop deliver notify =
    (stopping, wanted stop)
    ∷ (suppressing, denied (wanted deliver))
    ∷ (notifying, wanted notify)
    ∷ []

abbrev pub same_bool : Bool → Bool → Bool
same_bool true b = b
same_bool false b = not b

module _ {S : Type 0} (g : Signals S) where
  -- The loop of the changes: whether every one was accepted and is read back.
  unfoldable pub change_all : ℕ → List (Kind × Option Bool) → S → Bool × S
  change_all n [] s = (true, s)
  change_all n ((k, none) ∷ rest) s = change_all n rest s
  change_all n ((k, some b) ∷ rest) s =
      let (accepted, s') = g.set_policy k n b s in
      let further = change_all n rest s' in
      if not accepted || not (same_bool (g.policy k n s') b) then (false, s') else further

  -- `for (_, setter, _), value in zip(changes, before): setter(number, value)`
  unfoldable pub set_back : ℕ → List (Kind × Bool) → S → S
  set_back n [] s = s
  set_back n ((k, b) ∷ rest) s = set_back n rest (g.set_policy k n b s).1

  -- `before`
  abbrev pub policies : ℕ → S → List (Kind × Bool)
  policies n s =
      (stopping, g.policy stopping n s)
      ∷ (suppressing, g.policy suppressing n s)
      ∷ (notifying, g.policy notifying n s)
      ∷ []

  abbrev pub after_changes : ℕ → List (Kind × Bool) → Bool × S → Result Problem (Unit {0}) × S
  unfolding set_back
  after_changes n before (true, s) = (ok tt, s)
  after_changes n before (false, s) = (err refused, set_back n before s)

  abbrev pub with_guards :
      Result Problem (Unit {0}) → ℕ → List (Kind × Option Bool) → S → Result Problem (Unit {0}) × S
  unfolding change_all set_back
  with_guards (err e) n asked s = (err e, s)
  with_guards (ok u) n asked s = after_changes n (policies n s) (change_all n asked s)

  -- `signal_policy` for a signal; `number` is what its name or its text stands for.
  unfoldable pub signal_policy :
      (number : Option ℕ) → (stop deliver notify : Flag) → S → Result Problem (Unit {0}) × S
  unfolding change_all set_back
  signal_policy none stop deliver notify s = (
    raise_if (not (g.is_stopped s)) not_stopped
        >> (raise_if (not (g.is_valid s)) unavailable >> err no_number),
    s,
  )
  signal_policy (some n) stop deliver notify s =
      with_guards
        (raise_if (not (g.is_stopped s)) not_stopped
          >> (raise_if (not (g.is_valid s)) unavailable
              >> (raise_if ((n == 9 || n == 17 || n == 19) || not (g.has_name n s)) reserved
                  >> raise_if (is_bad stop || is_bad deliver || is_bad notify) no_booleans)))
        n (changes stop deliver notify) s
