-- ===== src/Export/Made.antt =====
-- What `export` of macdbg/core/patch_export.py leaves in the file system.
use macdbg.Prelude.{
  ℕ, ◌≡◌, Bool, true, false, Option, none, some, List, ◌∷◌, if◌then◌else◌, Result, ok, err,
}
use macdbg.Export.{Problem, Manifest, Files, has_file, System, Exported}
use macdbg.Export.Written.{Kept, Stands}

module _ (sha256 : List ℕ → List ℕ) where
  -- The manifest's patches written over a copy that has its digest.
  abbrev pub IsPatched : Option (List ℕ) → Manifest → List ℕ → Type 0
  IsPatched none m file = ⊥
  IsPatched (some copy) m file =
      (sha256 copy ≡ m.sha256) × Stands file m.patches × Kept m.patches copy file

  -- The same, and then signed where that was asked for.
  abbrev pub IsImage : (sign : Bool) → System → Manifest → List ℕ → Type 0
  IsImage false system m content = IsPatched system.copied m content
  IsImage true system m content =
      (file : List ℕ) × IsPatched system.copied m file × (system.codesign file ≡ some content)

  -- What `export` leaves of the files: all of them where it raises, and else one more.
  abbrev pub IsExport :
      (dumps : Manifest → List ℕ) (path : List ℕ) (sign manifest_only : Bool) (system : System)
      → Result Problem Manifest
      → Files
      → Result Problem Exported × Files
      → Type 0
  IsExport dumps path sign manifest_only system made files (err e, files') = files' ≡ files
  IsExport dumps path sign manifest_only system (err e) files (ok x, files') = ⊥
  IsExport dumps path sign manifest_only system (ok m) files (ok x, files') =
      (has_file path files ≡ false)
      × (content : List ℕ) × (files' ≡ (path, content) ∷ files)
      × (if manifest_only then content ≡ dumps m else IsImage sign system m content)
