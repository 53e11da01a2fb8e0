-- ===== src/AnalysisMemory/Guarded.antt =====
-- What the execution guard of macdbg/core/analysis_memory.py leaves of a region's protection.
use macdbg.Prelude.{
  ℕ, ◌≡◌, refl, ◌∙◌, Bool, false, Option, none, some, List, [], ◌∷◌, ◌++◌, ◌==◌, if◌then◌else◌,
}
use macdbg.ReturnHooks.{Breakpoints, ReturnHooks}
use macdbg.AnalysisMemory.{Live, Problem}
use macdbg.AnalysisMemory.Observe.{Region}
use macdbg.AnalysisMemory.Guard.{
  Note, scanned, armed_guard, invalidated, first_execution, protected_again, returned, unobserved,
  Analysis, stopped, arm_guard, disarm_guard,
}
use macdbg.AnalysisMemory.Stops.{Stop, Handling, apply_stop}

-- The region whose execute permission is taken away after some notes, behind an earlier one.
abbrev armed_by : List Note → Option Region → Option Region
armed_by [] g = g
armed_by (protected_again row protection ∷ notes) g =
    armed_by notes (if protection == row.protection then none else some row)
armed_by (scanned e ∷ notes) g = armed_by notes g
armed_by (armed_guard pc row ∷ notes) g = armed_by notes g
armed_by (invalidated pc row ∷ notes) g = armed_by notes g
armed_by (first_execution pc row ∷ notes) g = armed_by notes g
armed_by (returned payload result ∷ notes) g = armed_by notes g
armed_by (unobserved arguments ∷ notes) g = armed_by notes g

armed_by-append :
    (xs ys : List Note) (g : Option Region) → armed_by (xs ++ ys) g ≡ armed_by ys (armed_by xs g)
armed_by-append [] ys g = refl
armed_by-append (protected_again row protection ∷ xs) ys g =
    armed_by-append xs ys (if protection == row.protection then none else some row)
armed_by-append (scanned e ∷ xs) ys g = armed_by-append xs ys g
armed_by-append (armed_guard pc row ∷ xs) ys g = armed_by-append xs ys g
armed_by-append (invalidated pc row ∷ xs) ys g = armed_by-append xs ys g
armed_by-append (first_execution pc row ∷ xs) ys g = armed_by-append xs ys g
armed_by-append (returned payload result ∷ xs) ys g = armed_by-append xs ys g
armed_by-append (unobserved arguments ∷ xs) ys g = armed_by-append xs ys g

-- The region that the log leaves without execute permission is the one that is guarded.
abbrev pub IsGuarded : {S : Type 0} → Analysis S → Type 0
IsGuarded a = armed_by a.notes none ≡ a.guard

-- The same of what a stop leaves.
abbrev pub LeavesGuarded : {S : Type 0} → Option Problem × Handling × Analysis S → Type 0
LeavesGuarded (e, handling, a) = IsGuarded a

module _ {S : Type 0} where
  -- Notes behind which no region is without the permission.
  noted-restored :
      (row : Region) (notes : List Note) (a : Analysis S)
      → ((g : Option Region) → armed_by notes g ≡ none)
      → armed_by (a.notes ++ notes) none ≡ none
  noted-restored row notes a quiet =
      armed_by-append a.notes notes none ∙ quiet (armed_by a.notes none)

-- What happens to the object: a guard is armed, or taken back while the process is stopped, or there
-- is a stop.
pub data Call : Type 0 where
  arms : (protects : Bool) → List Region → (pcs : List ℕ) → (address : ℕ) → Call
  disarms : (protects : Bool) → Call
  stops : Live → List Region → Stop → Call

module _ {S : Type 0} (b : Breakpoints S) (sha256 : List ℕ → List ℕ) where
  pub perform_call : Call → Analysis S → Analysis S
  perform_call (arms protects rows pcs address) a = (arm_guard protects rows pcs address a).1
  perform_call (disarms protects) a = (disarm_guard stopped protects a.guard a).1
  perform_call (stops live rows s) a = (apply_stop b live sha256 rows s a).2

  pub run : List Call → Analysis S → Analysis S
  run [] a = a
  run (c ∷ calls) a = run calls (perform_call c a)

  -- The mapping of a guarded region is not changed by the target behind the guard's back.
  abbrev pub IsUnmapped : Call → Type 0
  IsUnmapped (stops live rows s) = s.executable ≡ some false
  IsUnmapped (arms protects rows pcs address) = Unit
  IsUnmapped (disarms protects) = Unit
