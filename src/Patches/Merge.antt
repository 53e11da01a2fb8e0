-- ===== src/Patches/Merge.antt =====
-- macdbg/core/patch_export.py: the runs that `normalized` builds.
use macdbg.Prelude.{
  ℕ, zero, suc, ◌+◌, ◌-◌, ◌≤◌, ◌<◌, ◌≡◌, refl, All, Option, none, some, List, [], ◌∷◌, ◌++◌, arith,
  leb, ◌==◌, if◌then◌else◌, length, Bool-cases, inl, inr,
}
use macdbg.Patches.{Run, Entry, add_byte}

-- The old and the new byte at an index of a run, and at an address of the runs.
pub pair_at : (original new : List ℕ) → ℕ → Option (ℕ × ℕ)
pair_at (o ∷ original) (n ∷ new) zero = some (o, n)
pair_at (o ∷ original) (n ∷ new) (suc i) = pair_at original new i
pair_at [] new i = none
pair_at (o ∷ original) [] i = none

pub run_at : ℕ → Run → Option (ℕ × ℕ)
unfolding pair_at
run_at at r = if leb r.address at then pair_at r.original r.new (at - r.address) else none

abbrev pub or_else : Option (ℕ × ℕ) → Option (ℕ × ℕ) → Option (ℕ × ℕ)
or_else none later = later
or_else (some x) later = some x

unfoldable pub byte_at : ℕ → List Run → Option (ℕ × ℕ)
unfolding run_at
byte_at at [] = none
byte_at at (r ∷ runs) = or_else (run_at at r) (byte_at at runs)

-- A run holds as many old bytes as new ones, and at least one.
abbrev pub IsRun : Run → Type 0
IsRun r = (length r.original ≡ length r.new) × (0 < length r.new)

abbrev pub end_of : Run → ℕ
end_of r = r.address + length r.new

-- The runs rise, with a gap of at least one address between two of them.
abbrev pub Separated : List Run → Type 0
Separated [] = Unit
Separated (r ∷ runs) = IsRun r × All (λ s. end_of r < s.address) runs × Separated runs

-- All runs end at `bound` or before.
abbrev pub EndsBelow : ℕ → List Run → Type 0
EndsBelow bound runs = All (λ r. end_of r ≤ bound) runs

pair_at-append :
    (original new : List ℕ) (o n i : ℕ)
    → length original ≡ length new
    → pair_at (original ++ o ∷ []) (new ++ n ∷ []) i
      ≡ (if i == length new then some (o, n) else pair_at original new i)
unfolding pair_at
pair_at-append [] [] o n zero h = refl
pair_at-append [] [] o n (suc i) h = ground arith
pair_at-append [] (m ∷ new) o n i h = absurd (omega arith)
pair_at-append (p ∷ original) [] o n i h = absurd (omega arith)
pair_at-append (p ∷ original) (m ∷ new) o n zero h = ground arith
pair_at-append (p ∷ original) (m ∷ new) o n (suc i) h =
    ground (arith, pair_at-append original new o n i)

pair_at-end : (original new : List ℕ) (i : ℕ) → length new ≤ i → pair_at original new i ≡ none
unfolding pair_at
pair_at-end [] new i h = refl
pair_at-end (o ∷ original) [] i h = refl
pair_at-end (o ∷ original) (n ∷ new) zero h = absurd (omega arith)
pair_at-end (o ∷ original) (n ∷ new) (suc i) h = pair_at-end original new i (omega arith)

pub run_at-end : (at : ℕ) (r : Run) → r.address + length r.new ≤ at → run_at at r ≡ none
unfolding run_at
run_at-end at r h = ground (arith, pair_at-end r.original r.new (at - r.address))

abbrev pub single : Entry → Run
single e = record { address = e.address; original = e.old ∷ []; new = e.new ∷ [] }

abbrev pub extended : Entry → Run → Run
extended e r = record r { original = r.original ++ e.old ∷ []; new = r.new ++ e.new ∷ [] }

abbrev pub here : ℕ → Entry → Option (ℕ × ℕ) → Option (ℕ × ℕ)
here at e other = if e.address == at then some (e.old, e.new) else other

pair_at_single : (o n i : ℕ) → pair_at (o ∷ []) (n ∷ []) i ≡ (if i == 0 then some (o, n) else none)
unfolding pair_at
pair_at_single o n zero = refl
pair_at_single o n (suc i) = ground arith

run_at-single : (at : ℕ) (e : Entry) → run_at at (single e) ≡ here at e none
unfolding run_at
run_at-single at e = ground (arith, pair_at_single e.old e.new (at - e.address))

run_at-extended :
    (at : ℕ) (e : Entry) (r : Run)
    → IsRun r
    → e.address ≡ r.address + length r.new
    → run_at at (extended e r) ≡ here at e (run_at at r)
unfolding run_at
run_at-extended at e r h end =
    ground (arith, pair_at-append r.original r.new e.old e.new (at - r.address))

or_else-here :
    (at : ℕ) (e : Entry) (a b : Option (ℕ × ℕ))
    → (e.address ≡ at → a ≡ none)
    → or_else a (here at e b) ≡ here at e (or_else a b)
or_else-here at e a b h = ground (arith, h)

-- One byte more than all runs so far is at its address, and nothing else changes.
pub byte_at-add_byte :
    (at : ℕ) (e : Entry) (runs : List Run)
    → Separated runs
    → EndsBelow e.address runs
    → byte_at at (add_byte e runs) ≡ here at e (byte_at at runs)
unfolding byte_at add_byte
byte_at-add_byte at e [] h below = rw (run_at-single at e) (ground arith)
byte_at-add_byte at e (r ∷ []) h below = elim (Bool-cases (e.address == r.address + length r.new)) [
  | inl next ↦ rw next (rw (run_at-extended at e r h.0 (ground arith)) (ground arith))
  | inr gap ↦ rw gap (
      rw (run_at-single at e)
        (rw (or_else-here at e none none (λ _. refl)) (ground (arith, run_at-end at r, below.0))))
]
byte_at-add_byte at e (r ∷ s ∷ runs) h below = rw (byte_at-add_byte at e (s ∷ runs) h.2 below.1) (
    or_else-here at e (run_at at r) (byte_at at (s ∷ runs))
      (λ same. run_at-end at r (omega (arith, below.0))))
