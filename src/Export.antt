-- ===== src/Export.antt =====
-- macdbg/core/patch_export.py: `PatchExporter.source`, `manifest` and `export`, over the runs of Patches and
-- the image of MachO.
pub mod Written
pub mod Made
mod Tests
use macdbg.Prelude.{
  ℕ, zero, suc, ◌+◌, ◌*◌, Bool, true, false, not, ◌&&◌, ◌||◌, Option, none, some, List, [], ◌∷◌,
  ltb, ◌==◌, if◌then◌else◌, length, Result, ok, err, ◌>>=◌, ◌>>◌, raise_if,
}
use macdbg.Bytes.{slice, same}
use macdbg.MachO.{Image, parse, file_offset}
use macdbg.MachO as MachO
use macdbg.Patches.{Patch, Run, normalized}
use macdbg.Patches as Patches

pub data Problem : Type 0 where
  no_target image_too_large changed_on_disk outside_image original_differs live_differs no_changes :
      Problem
  original_chosen os_error changed_during_export verification_failed signing_failed : Problem
  no_image : MachO.Error → Problem
  no_runs : Patches.Error → Problem

-- A row of the manifest; its bytes stand there in hexadecimal text.
pub record Row : Type 0 where
  pub offset : ℕ
  pub address : ℕ
  pub original : List ℕ
  pub new : List ℕ

pub record Manifest : Type 0 where
  pub sha256 : List ℕ
  pub patches : List Row
  pub signed_source : Bool

-- What the debugger answers: the digest and the patches of its state, the bytes of the binary's file, the
-- address in the file's image that a load address of the main module has, and the live memory.
pub record Session : Type 0 where
  pub has_target : Bool
  pub digest : List ℕ
  pub patches : List Patch
  pub binary : Option (List ℕ)
  pub file_address : ℕ → Option ℕ
  pub read_memory : (address size : ℕ) → List ℕ

abbrev pub lift_image : {A : Type 0} → Result MachO.Error A → Result Problem A
lift_image (ok a) = ok a
lift_image (err e) = err (no_image e)

abbrev pub lift_runs : Result Patches.Error (List Run) → Result Problem (List Run)
lift_runs (ok runs) = ok runs
lift_runs (err e) = err (no_runs e)

abbrev pub or_raise {ℓ} : {A : Type ℓ} → Problem → Option A → Result Problem A
or_raise e none = err e
or_raise e (some a) = ok a

-- `source`: the bytes and the image of a binary that has not changed.
unfoldable pub source : (sha256 : List ℕ → List ℕ) → Session → Result Problem (List ℕ × Image)
unfolding same parse
source sha256 session = do
  raise_if (not session.has_target) no_target
  bytes ← or_raise os_error session.binary
  raise_if (ltb (512 * 1024 * 1024) (length bytes)) image_too_large
  raise_if (not (same (sha256 bytes) session.digest)) changed_on_disk
  image ← lift_image (parse bytes none)
  ok (bytes, image)

unfoldable pub manifest_row : List ℕ → Image → Session → Run → Result Problem Row
unfolding same file_offset
manifest_row bytes image session run = do
  resolved ← or_raise outside_image (session.file_address run.address)
  offset ← lift_image (file_offset image resolved (length run.new))
  raise_if (not (same (slice bytes offset (length run.new)) run.original)) original_differs
  raise_if (not (same (session.read_memory run.address (length run.new)) run.new)) live_differs
  ok (record { offset = offset; address = run.address; original = run.original; new = run.new })

unfoldable pub manifest_rows : List ℕ → Image → Session → List Run → Result Problem (List Row)
unfolding manifest_row
manifest_rows bytes image session [] = ok []
manifest_rows bytes image session (run ∷ runs) = do
  row ← manifest_row bytes image session run
  rows ← manifest_rows bytes image session runs
  ok (row ∷ rows)

-- `manifest`
unfoldable pub manifest : (sha256 : List ℕ → List ℕ) → Session → Result Problem Manifest
unfolding source normalized manifest_rows
manifest sha256 session = do
  found ← source sha256 session
  runs ← lift_runs (normalized session.patches)
  rows ← manifest_rows found.0 found.1 session runs
  raise_if (length rows == 0) no_changes
  ok (record { sha256 = session.digest; patches = rows; signed_source = found.1.signed })

-- `stream.write(new)` at a place in the file.
unfoldable pub write_over : (new file : List ℕ) → List ℕ
write_over [] file = file
write_over (n ∷ new) [] = n ∷ write_over new []
write_over (n ∷ new) (f ∷ file) = n ∷ write_over new file

-- `stream.seek(offset); stream.write(new)`
unfoldable pub write_at : ℕ → (new file : List ℕ) → List ℕ
unfolding write_over
write_at zero new file = write_over new file
write_at (suc n) new [] = 0 ∷ write_at n new []
write_at (suc n) new (f ∷ file) = f ∷ write_at n new file

-- The file system, as contents by path.
abbrev pub Files : Type 0
Files = List (List ℕ × List ℕ)

unfoldable pub has_file : List ℕ → Files → Bool
unfolding same
has_file path [] = false
has_file path ((p, content) ∷ files) = same p path || has_file path files

-- `os.unlink`
unfoldable pub unlink : List ℕ → Files → Files
unfolding same
unlink path [] = []
unlink path ((p, content) ∷ files) =
    let rest = unlink path files in if same p path then files else (p, content) ∷ rest

unfoldable pub put_file : List ℕ → List ℕ → Files → Files
unfolding same
put_file path content [] = []
put_file path content ((p, c) ∷ files) =
    let rest = put_file path content files in
    if same p path then (p, content) ∷ files else (p, c) ∷ rest

-- The answers of the operating system: whether the file can be created, what is copied from the binary,
-- and whether the other calls succeed; codesign makes another content or fails.
pub record System : Type 0 where
  pub creates : Bool
  pub copied : Option (List ℕ)
  pub writes : Row → Bool
  pub writes_text : Bool
  pub flushes : Bool
  pub changes_mode : Bool
  pub codesign : List ℕ → Option (List ℕ)

-- The loop of writes, and the loop that reads them back.
unfoldable pub write_rows : System → List Row → List ℕ → Result Problem (List ℕ)
unfolding write_at
write_rows system [] file = ok file
write_rows system (row ∷ rows) file = do
  raise_if (not (system.writes row)) os_error
  write_rows system rows (write_at row.offset row.new file)

unfoldable pub verify_rows : List Row → List ℕ → Result Problem (Unit {0})
unfolding same
verify_rows [] file = ok tt
verify_rows (row ∷ rows) file = do
  raise_if (not (same (slice file row.offset (length row.new)) row.new)) verification_failed
  verify_rows rows file

abbrev pub signed_content : (sign : Bool) → System → List ℕ → Result Problem (List ℕ)
signed_content false system content = ok content
signed_content true system content = or_raise signing_failed (system.codesign content)

-- What the `try` of `export` makes of the new file that is no manifest.
unfoldable pub image_content :
    (sha256 : List ℕ → List ℕ) → (sign : Bool) → System → Manifest → Result Problem (List ℕ)
unfolding same write_rows verify_rows
image_content sha256 sign system m = do
  copy ← or_raise os_error system.copied
  raise_if (not (same (sha256 copy) m.sha256)) changed_during_export
  content ← write_rows system m.patches copy
  raise_if (not system.flushes) os_error
  verify_rows m.patches content
  raise_if (not system.changes_mode) os_error
  signed_content sign system content

-- The `try` of `export`, where `dumps` is the text of a manifest.
unfoldable pub content_of :
    (sha256 : List ℕ → List ℕ)
    → (dumps : Manifest → List ℕ) → (sign manifest_only : Bool) → System
    → Manifest
    → Result Problem (List ℕ)
unfolding image_content
content_of sha256 dumps sign manifest_only system m =
    if manifest_only
    then raise_if (not system.writes_text) os_error >> ok (dumps m)
    else image_content sha256 sign system m

pub record Exported : Type 0 where
  pub patches : ℕ
  pub signed : Bool

-- The end of `export`: the content, or an exception after which the new file is taken away.
abbrev pub after_content :
    (path : List ℕ) → Exported → Files → Result Problem (List ℕ) → Result Problem Exported × Files
unfolding unlink put_file
after_content path exported files (err e) = (err e, unlink path files)
after_content path exported files (ok content) = (ok exported, put_file path content files)

-- `export`, to a path that is made absolute; `is_source` says whether it leads to the binary itself.
abbrev pub after_manifest :
    (sha256 : List ℕ → List ℕ)
    → (dumps : Manifest → List ℕ) → (path : List ℕ) → (is_source sign manifest_only : Bool) → System
    → Files
    → Result Problem Manifest
    → Result Problem Exported × Files
unfolding has_file content_of
after_manifest sha256 dumps path is_source sign manifest_only system files (err e) = (err e, files)
after_manifest sha256 dumps path is_source sign manifest_only system files (ok m) =
    if is_source
    then (err original_chosen, files)
    else if has_file path files || not system.creates
    then (err os_error, files)
    else after_content path
        (record { patches = length m.patches; signed = sign && not manifest_only })
        ((path, []) ∷ files) (content_of sha256 dumps sign manifest_only system m)

unfoldable pub export :
    (sha256 : List ℕ → List ℕ)
    → (dumps : Manifest → List ℕ) → (path : List ℕ) → (is_source sign manifest_only : Bool)
    → Session
    → System
    → Files
    → Result Problem Exported × Files
unfolding manifest has_file content_of
export sha256 dumps path is_source sign manifest_only session system files =
    after_manifest sha256 dumps path is_source sign manifest_only system files
      (manifest sha256 session)
