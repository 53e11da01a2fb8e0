-- ===== src/Manifest/Checks.antt =====
-- macdbg/core/patch_export.py: what the checks of `import_manifest` establish, and the whole import.
use macdbg.Prelude.{ℕ, ◌≡◌, Bool, true, false, List, length, Result, ok, err, ◌>>=◌}
use macdbg.MachO as MachO
use macdbg.Debugger.{Process, bytes_at, IsProcess, Debugger}
use macdbg.Manifest.{Manifest, Checked, Problem, refused, rollback_failed, not_recorded}
use macdbg.Manifest.Rollback.{Untouched, AreFrom}
use macdbg.Manifest.Apply.{overlay}

-- The problems that the checks find, before anything is written.
abbrev IsCheck : Problem → Type 0
IsCheck (refused w) = ⊥
IsCheck (rollback_failed w failed) = ⊥
IsCheck (not_recorded e) = ⊥
IsCheck _ = Unit

module _ {M : Type 0} (p : Process M) (byte : M → ℕ → ℕ) (h : IsProcess p byte) where
  -- A row that was checked: its original bytes are live, and as many as its new ones.
  abbrev IsLive : (ℕ → ℕ) → Checked → Type 0
  IsLive f c =
      (bytes_at f c.address (length c.original) ≡ c.original) × (length c.new ≡ length c.original)

  -- What an import leaves: the memory with all new bytes, or as it was.
  abbrev pub AfterImport :
      (apply : Bool) → Debugger M → Result Problem (List Checked) × Debugger M → Type 0
  AfterImport true d (ok checked, d') =
      (at : ℕ) → byte d'.process at ≡ overlay checked (byte d.process) at
  AfterImport false d (ok checked, d') = d' ≡ d
  AfterImport apply d (err (refused w), d') =
      ((at : ℕ) → byte d'.process at ≡ byte d.process at) × (d'.patches ≡ d.patches)
  AfterImport apply d (err (rollback_failed w failed), d') =
      (checked : List Checked) × AreFrom (byte d.process) checked
      × ((at : ℕ) → Untouched checked at → byte d'.process at ≡ byte d.process at)
      × (d'.patches ≡ d.patches)
  AfterImport apply d (err (not_recorded e), d') =
      (checked : List Checked) × ((at : ℕ)
        → byte d'.process at ≡ overlay checked (byte d.process) at)
  AfterImport apply d (err e, d') = d' ≡ d
