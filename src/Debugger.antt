-- ===== src/Debugger.antt =====
-- macdbg/core/debugger.py: `read_memory`, `write_memory`, `_record_patch` and `revert_patch`, over the
-- process of LLDB.
pub mod Reads
pub mod Writes
pub mod Reverts
pub mod Sample
mod Tests
use macdbg.Prelude.{
  ℕ, zero, suc, ◌+◌, ◌-◌, ◌/◌, ◌≤◌, ◌<◌, ◌≡◌, Bool, true, false, not, ◌&&◌, Option, none, some,
  List, [], ◌∷◌, ◌++◌, ltb, leb, ◌==◌, if◌then◌else◌, map, length, take, get_elem?, Result, ok, err,
  ◌⊎◌,
}
use macdbg.Bytes.{same}
use macdbg.Patches.{Patch, Run, Error, normalized}

-- What the debugger asks of an `lldb.SBProcess` in a state `M`: whether there is one, whether it is
-- stopped, and its reads and writes, which fail with `none`.
pub record Process (M : Type 0) : Type 0 where
  pub has_process : M → Bool
  pub is_stopped : M → Bool
  pub read_process : M → (address size : ℕ) → Option (List ℕ)
  pub write_process : M → (address : ℕ) → List ℕ → Option ℕ × M

abbrev pub bytes_at : (ℕ → ℕ) → (address size : ℕ) → List ℕ
bytes_at byte address zero = []
bytes_at byte address (suc size) = byte address ∷ bytes_at byte (address + 1) size

-- What LLDB documents: a read that succeeds gives the bytes of the memory, and a write, whatever comes
-- of it, leaves the bytes alone that are not in its range.
pub record IsProcess {M : Type 0} (p : Process M) (byte : M → ℕ → ℕ) : Type 0 where
  pub reads :
      (m : M) (address size : ℕ) (found : List ℕ)
      → p.read_process m address size ≡ some found
      → found ≡ bytes_at (byte m) address size
  pub keeps :
      (m : M) (address : ℕ) (given : List ℕ) (at : ℕ)
      → (at < address) ⊎ (address + length given ≤ at)
      → byte (p.write_process m address given).1 at ≡ byte m at

-- The debugger: its process, and the patches of its state, if it has a state.
pub record Debugger (M : Type 0) : Type 0 where
  pub process : M
  pub patches : Option (List Patch)

-- How `write_memory` ends: its answers, and the error that it raises.
pub data Written : Type 0 where
  wrote no_process not_stopped write_failed verify_failed : Written
  partial_write : ℕ → Written
  raised : Error → Written

abbrev pub is_wrote : Written → Bool
is_wrote wrote = true
is_wrote _ = false

abbrev pub patch_of : Run → Patch
patch_of r = record { addr = r.address; orig = r.original; new = r.new }

-- `_record_patch(addr, orig, new)`
unfoldable pub record_patch :
    {M : Type 0} (address : ℕ) (orig new : List ℕ) → Debugger M → Result Error (Debugger M)
record_patch address orig new d = elim d.patches [
  | none ↦ ok d
  | some patches ↦
      elim (normalized (patches ++ record { addr = address; orig = orig; new = new } ∷ [])) [
        | ok runs ↦ ok (record d { patches = some (map patch_of runs) })
        | err e ↦ err e
      ]
]

module _ {M : Type 0} (p : Process M) where
  -- The loop of `read_memory`, which halves the size until a read succeeds, with fuel for its rounds.
  unfoldable pub read_halving : (fuel : ℕ) → M → (address size : ℕ) → List ℕ
  read_halving zero m address size = []
  read_halving (suc fuel) m address size =
      let rest = read_halving fuel m address (size / 2) in
      if ltb size 1 then [] else elim (p.read_process m address size) [
        | some found ↦ found
        | none ↦ if size == 1 then [] else rest
      ]

  -- `read_memory(addr, size)`
  unfoldable pub read_memory : M → (address size : ℕ) → List ℕ
  unfolding read_halving
  read_memory m address size =
      if p.has_process m then read_halving (suc size) m address size else []

  -- `track and self.state and orig and len(orig) >= len(data)`
  unfoldable pub is_tracked : (track : Bool) (orig given : List ℕ) → Option (List Patch) → Bool
  is_tracked track orig given none = false
  is_tracked track orig given (some patches) =
      track && not (length orig == 0) && leb (length given) (length orig)

  unfoldable pub tracked :
      (track : Bool) (address : ℕ) (given orig : List ℕ) → Debugger M → Written × Debugger M
  unfolding is_tracked record_patch
  tracked track address given orig d =
      if is_tracked track orig given d.patches
      then elim (record_patch address (take (length given) orig) given d) [
        | ok d' ↦ (wrote, d')
        | err e ↦ (raised e, d)
      ]
      else (wrote, d)

  -- What follows the write of the process, by the number of bytes that it reports.
  unfoldable pub after_write :
      (track : Bool) (address : ℕ) (given orig : List ℕ)
      → Option ℕ
      → Debugger M
      → Written × Debugger M
  unfolding tracked read_memory
  after_write track address given orig none d = (write_failed, d)
  after_write track address given orig (some n) d =
      if not (n == length given)
      then (partial_write n, d)
      else if not (same (take (length given) (read_memory d.process address (length given))) given)
      then (verify_failed, d)
      else tracked track address given orig d

  -- `write_memory(addr, data, track)`
  unfoldable pub write_memory :
      (track : Bool) (address : ℕ) → List ℕ → Debugger M → Written × Debugger M
  unfolding after_write
  write_memory track address given d =
      if not (p.has_process d.process)
      then (no_process, d)
      else if not (p.is_stopped d.process)
      then (not_stopped, d)
      else let (count, m) = p.write_process d.process address given in
        after_write track address given (read_memory d.process address (length given)) count
          (record d { process = m })

-- How `revert_patch` ends.
pub data Reverted : Type 0 where
  reverted no_such_patch bytes_changed : Reverted
  revert_failed : Written → Reverted

-- `del patches[index]`
unfoldable pub remove_at : ℕ → List Patch → List Patch
remove_at index [] = []
remove_at zero (p ∷ patches) = patches
remove_at (suc index) (p ∷ patches) = p ∷ remove_at index patches

abbrev pub patch_at : ℕ → Option (List Patch) → Option Patch
patch_at index none = none
patch_at index (some patches) = get_elem? patches index

abbrev pub removed : ℕ → Option (List Patch) → Option (List Patch)
removed index none = none
removed index (some patches) = some (remove_at index patches)

module _ {M : Type 0} (p : Process M) where
  unfoldable pub after_revert : (index : ℕ) → Written × Debugger M → Reverted × Debugger M
  unfolding remove_at
  after_revert index (wrote, d) = (reverted, record d { patches = removed index d.patches })
  after_revert index (w, d) = (revert_failed w, d)

  -- `revert_patch(index)`, for an index that is not negative.
  unfoldable pub revert_patch : (index : ℕ) → Debugger M → Reverted × Debugger M
  unfolding after_revert read_memory write_memory
  revert_patch index d = elim (patch_at index d.patches) [
    | none ↦ (no_such_patch, d)
    | some q ↦
        if not (same (read_memory p d.process q.addr (length q.new)) q.new)
        then (bytes_changed, d)
        else after_revert index (write_memory p false q.addr q.orig d)
  ]
