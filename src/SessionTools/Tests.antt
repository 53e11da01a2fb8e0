-- ===== src/SessionTools/Tests.antt =====
-- Processes and signals that can be run, for macdbg/core/session_tools.py.
use macdbg.Prelude.{
  ℕ, ◌≤◌, ◌≡◌, refl, Bool, true, false, not, some, List, [], ◌∷◌, if◌then◌else◌, All, err,
}
use macdbg.SessionTools.{
  Row, is_in, children, is_subset, grow, related, Kind, notifying, absent, flag, Signals,
  change_all, set_back, after_changes, with_guards, signal_policy, refused,
}
use macdbg.SessionTools.Families.{IsDescendant, Descends, pids, related-IsDescendant}
use macdbg.SessionTools.Policies.{same_kind}

abbrev family : List Row
family =
    record { pid = 7; parent = 6; state = []; path = [] }
    ∷ record { pid = 5; parent = 1; state = []; path = [] }
    ∷ record { pid = 6; parent = 5; state = []; path = [] }
    ∷ record { pid = 9; parent = 1; state = []; path = [] }
    ∷ []

related-IsDescendant_example :
    All (λ r. IsDescendant family 5 r.pid) (related family 5)
    × ((d p : ℕ)
        → d ≤ 64
        → Descends family 5 d p
        → is_in p (pids family) ≡ true
        → is_in p (pids (related family 5)) ≡ true)
related-IsDescendant_example = related-IsDescendant family 5

test-related : pids (related family 5) ≡ 7 ∷ 5 ∷ 6 ∷ []
unfolding related grow children is_subset is_in
test-related = refl

-- A signal that cannot be told to notify.
abbrev put : Kind → Bool → (Kind → Bool) → Kind → Bool
put k b s k' = if same_kind k k' then b else s k'

abbrev is_refused : Kind → Bool → Bool
is_refused notifying true = true
is_refused _ _ = false

abbrev machine : Signals (Kind → Bool)
machine = record {
  is_stopped = λ s. true;
  is_valid = λ s. true;
  has_name = λ n s. true;
  policy = λ k n s. s k;
  set_policy = λ k n b s. (not (is_refused k b), if is_refused k b then s else put k b s);
}

abbrev quiet : Kind → Bool
quiet k = false

test-refused :
    (signal_policy machine (some 15) (flag true) absent (flag true) quiet).0 ≡ err refused
unfolding signal_policy with_guards after_changes change_all set_back
test-refused = refl
