-- ===== src/Patches/Tests.antt =====
-- Runs of `normalized` of macdbg/core/patch_export.py, and the theorems about it there.
use macdbg.Prelude.{ℕ, ◌≡◌, refl, List, [], ◌∷◌, ok, some, ◌↔◌, All}
use macdbg.Patches.{Patch, Run, normalized}
use macdbg.Patches.Values.{writes, edit_at, last_new}
use macdbg.Patches.Merge.{byte_at, Separated}
use macdbg.Patches.Runs.{changed}
use macdbg.Patches.Meaning.{
  normalized_runs, normalized_total, normalized_effect, after_runs, EqualLengths,
}

-- Two edits that overlap at 11, one that undoes itself at 20, and one that stands alone.
abbrev edits : List Patch
edits =
    record { addr = 10; orig = 1 ∷ 2 ∷ []; new = 7 ∷ 8 ∷ [] }
    ∷ record { addr = 11; orig = 8 ∷ 3 ∷ []; new = 9 ∷ 3 ∷ [] }
    ∷ record { addr = 20; orig = 5 ∷ []; new = 6 ∷ [] }
    ∷ record { addr = 20; orig = 6 ∷ []; new = 5 ∷ [] }
    ∷ record { addr = 4; orig = 0 ∷ []; new = 1 ∷ [] }
    ∷ []

abbrev edit_runs : List Run
edit_runs =
    record { address = 4; original = 0 ∷ []; new = 1 ∷ [] }
    ∷ record { address = 10; original = 1 ∷ 2 ∷ []; new = 7 ∷ 9 ∷ [] }
    ∷ []

normalized-edits : normalized edits ≡ ok edit_runs
unfolding normalized
normalized-edits = refl

normalized_runs_example :
    Separated edit_runs × ((at : ℕ) → byte_at at edit_runs ≡ changed (edit_at at (writes edits)))
normalized_runs_example = normalized_runs edits edit_runs normalized-edits

normalized_total_example :
    All EqualLengths edits ↔ ((runs : List Run) × (normalized edits ≡ ok runs))
normalized_total_example = normalized_total edits

edit_original : edit_at 11 (writes edits) ≡ some (2, 9)
unfolding edit_at writes
edit_original = refl

normalized_effect_example : after_runs 11 2 edit_runs ≡ last_new 11 2 (writes edits)
normalized_effect_example =
    normalized_effect edits edit_runs 11 2 normalized-edits (rw edit_original refl)
