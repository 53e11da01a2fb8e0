-- ===== src/Debugger/Reverts.antt =====
-- macdbg/core/debugger.py: what `revert_patch` leaves in the memory and in the list of patches.
use macdbg.Prelude.{ℕ, ◌≡◌, refl, Bool, true, false, not, Option, none, some, length, if◌then◌else◌}
use macdbg.Bytes.{same, same→eq}
use macdbg.Patches.{Patch}
use macdbg.Debugger.{
  Process, bytes_at, IsProcess, Debugger, Written, wrote, no_process, not_stopped, write_failed,
  partial_write, verify_failed, raised, read_memory, write_memory, Reverted, reverted,
  no_such_patch, bytes_changed, revert_failed, patch_at, removed, after_revert, revert_patch,
}
use macdbg.Debugger.Writes.{Apart, IsWrite, read_memory-all, write_memory-IsWrite}

module _ {M : Type 0} (p : Process M) (byte : M → ℕ → ℕ) where
  -- The memory outside of a patch's original bytes is as before.
  abbrev pub Leaves : Patch → Debugger M → Debugger M → Type 0
  Leaves q d d' =
      (at : ℕ) → Apart q.addr (length q.orig) at → byte d'.process at ≡ byte d.process at

  -- What an answer of `revert_patch` means.
  abbrev pub Means : (index : ℕ) → Debugger M → Reverted × Debugger M → Type 0
  Means index d (reverted, d') =
      (q : Patch) × (patch_at index d.patches ≡ some q)
      × (bytes_at (byte d.process) q.addr (length q.new) ≡ q.new)
      × (bytes_at (byte d'.process) q.addr (length q.orig) ≡ q.orig)
      × Leaves q d d'
      × (d'.patches ≡ removed index d.patches)
  Means index d (no_such_patch, d') = (patch_at index d.patches ≡ none) × (d' ≡ d)
  Means index d (bytes_changed, d') = d' ≡ d
  Means index d (revert_failed w, d') =
      (q : Patch) × (patch_at index d.patches ≡ some q) × Leaves q d d' × (d'.patches ≡ d.patches)

module _ {M : Type 0} (p : Process M) (byte : M → ℕ → ℕ) (h : IsProcess p byte) where
  after_revert-Means :
      (index : ℕ) (q : Patch) (d : Debugger M) (r : Written × Debugger M)
      → patch_at index d.patches ≡ some q
      → bytes_at (byte d.process) q.addr (length q.new) ≡ q.new
      → IsWrite p byte false q.addr q.orig d r
      → Means p byte index d (after_revert p index r)
  unfolding after_revert
  after_revert-Means index q d (wrote, d') e live k =
      let patches : d'.patches ≡ d.patches = k.untracked refl in
      (q, e, live, k.landed refl, k.untouched, rw patches refl)
  after_revert-Means index q d (no_process, d') e live k = (q, e, k.untouched, k.untracked refl)
  after_revert-Means index q d (not_stopped, d') e live k = (q, e, k.untouched, k.untracked refl)
  after_revert-Means index q d (write_failed, d') e live k = (q, e, k.untouched, k.untracked refl)
  after_revert-Means index q d (verify_failed, d') e live k = (q, e, k.untouched, k.untracked refl)
  after_revert-Means index q d (partial_write n, d') e live k =
      (q, e, k.untouched, k.untracked refl)
  after_revert-Means index q d (raised e', d') e live k = (q, e, k.untouched, k.untracked refl)

  -- Where `revert_patch` answers that it reverted, the live bytes were those of the patch, its range
  -- holds its original bytes, and the patch is taken from the list; otherwise the list is as before.
  -- In any case the memory outside of the original bytes is as before, and all of it is where there
  -- is no such patch or its live bytes changed.
  pub revert_patch-Means :
      (index : ℕ) (d : Debugger M) → Means p byte index d (revert_patch p index d)
  unfolding revert_patch
  revert_patch-Means index d = by_patch (patch_at index d.patches) refl
    where
      by_patch :
          (o : Option Patch)
          → patch_at index d.patches ≡ o
          → Means p byte index d (elim o [
            | none ↦ (no_such_patch, d)
            | some q ↦
                if not (same (read_memory p d.process q.addr (length q.new)) q.new)
                then (bytes_changed, d)
                else after_revert p index (write_memory p false q.addr q.orig d)
          ])
      by_patch none e = (e, refl)
      by_patch (some q) e =
          by_bytes (same (read_memory p d.process q.addr (length q.new)) q.new) refl
        where
          by_bytes :
              (b : Bool)
              → same (read_memory p d.process q.addr (length q.new)) q.new ≡ b
              → Means p byte index d (
                  if not b
                  then (bytes_changed, d)
                  else after_revert p index (write_memory p false q.addr q.orig d))
          by_bytes false s = refl
          by_bytes true s =
              after_revert-Means index q d (write_memory p false q.addr q.orig d) e
                (read_memory-all p byte h d.process q.addr q.new (same→eq _ q.new s))
                (write_memory-IsWrite p byte h false q.addr q.orig d)
