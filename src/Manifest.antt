-- ===== src/Manifest.antt =====
-- macdbg/core/patch_export.py: `import_manifest`, the checked import of a patch set and its rollback.
-- The file is read and decoded outside: a row has its numbers and its bytes, and a manifest has the
-- fields that the checks ask for.
pub mod Rollback
pub mod Apply
pub mod Checks
pub mod Disjoint
mod Tests
use macdbg.Prelude.{
  ℕ, zero, suc, ◌+◌, ◌-◌, Bool, true, false, not, ◌&&◌, ◌||◌, Option, none, some, List, [], ◌∷◌,
  ◌++◌, ltb, leb, ◌==◌, if◌then◌else◌, length, Result, ok, err, ◌>>=◌, ◌>>◌, raise_if,
}
use macdbg.Prelude.Int.{ℤ, pos, negsuc}
use macdbg.Bytes.{slice, same}
use macdbg.Http.Text.{any}
use macdbg.MachO.{Image, file_address}
use macdbg.MachO as MachO
use macdbg.Patches as Patches
use macdbg.Debugger.{
  Process, Debugger, Written, wrote, no_process, not_stopped, write_failed, verify_failed,
  partial_write, raised, is_wrote, read_memory, write_memory, record_patch,
}

pub record Row : Type 0 where
  -- `int(patch["offset"])`
  pub offset : ℤ
  pub original : List ℕ
  pub new : List ℕ

-- The fields `schema`, `sha256` and `patches`; `none` where the latter is no list.
pub record Manifest : Type 0 where
  pub schema : List ℕ
  pub sha256 : List ℕ
  pub patches : Option (List Row)

pub record Checked : Type 0 where
  pub address : ℕ
  pub original : List ℕ
  pub new : List ℕ

pub data Problem : Type 0 where
  another_binary invalid_set not_loaded invalid_row overlapping file_differs live_differs : Problem
  no_range : MachO.Error → Problem
  refused : Written → Problem
  rollback_failed : Written → List ℕ → Problem
  not_recorded : Patches.Error → Problem

abbrev pub schema_name : List ℕ
schema_name =
    b'm' ∷ b'a' ∷ b'c' ∷ b'd' ∷ b'b' ∷ b'g' ∷ b'.' ∷ b'p' ∷ b'a' ∷ b't' ∷ b'c' ∷ b'h' ∷ b'-' ∷ b's'
    ∷ b'e' ∷ b't' ∷ b'.' ∷ b'v' ∷ b'1' ∷ []

-- The original on disk, its image and its digest, and the load addresses of the loaded module, with
-- `none` for an address that has no load address.
pub record Source : Type 0 where
  pub bytes : List ℕ
  pub image : Image
  pub digest : List ℕ
  pub load_address : Option (ℕ → Option ℕ)

abbrev pub range : (start size : ℕ) → List ℕ
range start zero = []
range start (suc size) = start ∷ range (start + 1) size

-- `occupied.intersection(range(offset, offset + len(new)))`
unfoldable pub meets : (occupied : List ℕ) (offset size : ℕ) → Bool
unfolding any
meets occupied offset size = any (λ at. leb offset at && ltb at (offset + size)) occupied

abbrev pub lift_range : {A : Type 0} → Result MachO.Error A → Result Problem A
lift_range (ok a) = ok a
lift_range (err e) = err (no_range e)

module _ {M : Type 0} (p : Process M) where
  -- The live bytes of a row are its original ones.
  unfoldable pub check_live : Option ℕ → Row → Debugger M → Result Problem Checked
  unfolding read_memory
  check_live none row d = err live_differs
  check_live (some address) row d = do
    raise_if (not (same (read_memory p d.process address (length row.original)) row.original))
        live_differs
    ok (record { address = address; original = row.original; new = row.new })

  -- The body of the loop over the rows, for an offset that is not negative.
  unfoldable pub check_at :
      Source
      → (ℕ → Option ℕ)
      → (occupied : List ℕ) (offset : ℕ) → Row
      → Debugger M
      → Result Problem Checked
  unfolding meets check_live
  check_at source load_address occupied offset row d = do
    raise_if
        (not (leb 1 (length row.new) && leb (length row.new) 4096)
          || not (length row.original == length row.new))
        invalid_row
    raise_if (meets occupied offset (length row.new)) overlapping
    raise_if (not (same (slice source.bytes offset (length row.original)) row.original))
        file_differs
    address ← lift_range (file_address source.image offset (length row.new))
    check_live (load_address address) row d

  unfoldable pub check_rows :
      Source
      → (ℕ → Option ℕ)
      → (occupied : List ℕ) → List Row
      → Debugger M
      → Result Problem (List Checked)
  unfolding check_at
  check_rows source load_address occupied [] d = ok []
  check_rows source load_address occupied (row ∷ rows) d = elim row.offset [
    | negsuc n ↦ err invalid_row
    | pos offset ↦ do
      checked ← check_at source load_address occupied offset row d
      rest ← check_rows source load_address (occupied ++ range offset (length row.new)) rows d
      ok (checked ∷ rest)
  ]

  -- The checks of `import_manifest`, in their order.
  unfoldable pub check_manifest : Source → Manifest → Debugger M → Result Problem (List Checked)
  unfolding check_rows
  check_manifest source manifest d = do
    raise_if (not (same manifest.schema schema_name) || not (same manifest.sha256 source.digest))
        another_binary
    rows ← elim manifest.patches [ none ↦ err invalid_set | some rows ↦ ok rows ]
    raise_if (not (leb 1 (length rows) && leb (length rows) 4096)) invalid_set
    load_address ← elim source.load_address [ none ↦ err not_loaded | some load ↦ ok load ]
    check_rows source load_address [] rows d

  -- The loop of writes; `applied` has the last one first. It ends with the answer of the write that
  -- did not succeed, or `none`.
  unfoldable pub apply_writes :
      List Checked
      → (applied : List Checked) → Debugger M
      → Option Written × List Checked × Debugger M
  unfolding write_memory
  apply_writes [] applied d = (none, applied, d)
  apply_writes (c ∷ checked) applied d =
      let (w, d') = write_memory p false c.address c.new d in
      elim (is_wrote w) [
        | true ↦ apply_writes checked (c ∷ applied) d'
        | false ↦ (some w, c ∷ applied, d')
      ]

  abbrev pub failed_at : ℕ → Written → List ℕ → List ℕ
  failed_at address wrote failed = failed
  failed_at address _ failed = address ∷ failed

  -- `[a for a, old in reversed(applied) if not write_memory(a, old)[0]]`
  unfoldable pub roll_back : List Checked → Debugger M → List ℕ × Debugger M
  unfolding write_memory
  roll_back [] d = ([], d)
  roll_back (c ∷ applied) d =
      let (w, d') = write_memory p false c.address c.original d in
      let (failed, d'') = roll_back applied d' in (failed_at c.address w failed, d'')

  unfoldable pub record_patches : List Checked → Debugger M → Result Problem (Unit {0}) × Debugger M
  unfolding record_patch
  record_patches [] d = (ok tt, d)
  record_patches (c ∷ checked) d = elim (record_patch c.address c.original c.new d) [
    | ok d' ↦ record_patches checked d'
    | err e ↦ (err (not_recorded e), d)
  ]

  abbrev pub rolled_back : Written → List ℕ × Debugger M → Result Problem (Unit {0}) × Debugger M
  rolled_back w ([], d) = (err (refused w), d)
  rolled_back w (a ∷ failed, d) = (err (rollback_failed w (a ∷ failed)), d)

  unfoldable pub after_writes :
      List Checked
      → Option Written × List Checked × Debugger M
      → Result Problem (Unit {0}) × Debugger M
  unfolding roll_back record_patches
  after_writes checked (none, applied, d) = record_patches checked d
  after_writes checked (some w, applied, d) = rolled_back w (roll_back applied d)

  -- `if apply:`
  unfoldable pub apply_checked : List Checked → Debugger M → Result Problem (Unit {0}) × Debugger M
  unfolding apply_writes after_writes
  apply_checked checked d = after_writes checked (apply_writes checked [] d)

  -- `import_manifest(path, apply)`
  unfoldable pub import_manifest :
      Source → Manifest → (apply : Bool) → Debugger M → Result Problem (List Checked) × Debugger M
  unfolding check_manifest apply_checked
  import_manifest source manifest apply d = elim (check_manifest source manifest d) [
    | err e ↦ (err e, d)
    | ok checked ↦
        if not apply
        then (ok checked, d)
        else let (r, d') = apply_checked checked d in (r >> ok checked, d')
  ]
