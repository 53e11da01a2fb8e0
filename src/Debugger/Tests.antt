-- ===== src/Debugger/Tests.antt =====
-- Runs of the writes of macdbg/core/debugger.py on a small process, and the theorems about them there.
use macdbg.Prelude.{ℕ, ◌≡◌, refl, true, some, [], ◌∷◌}
use macdbg.Bytes.{same}
use macdbg.Patches.{normalized}
use macdbg.Debugger.{Debugger, write_failed, write_memory, revert_patch, reverted}
use macdbg.Debugger.Writes.{poke, IsWrite, write_memory-IsWrite}
use macdbg.Debugger.Reverts.{Means, revert_patch-Means}
use macdbg.Debugger.Sample.{sample, memory, sample-IsProcess}

-- The memory holds each address as its byte, but for a patch at 10.
abbrev patched : Debugger (ℕ → ℕ)
patched = record {
  process = poke 10 (1 ∷ 2 ∷ []) (λ at. at);
  patches = some (record { addr = 10; orig = 10 ∷ 11 ∷ []; new = 1 ∷ 2 ∷ [] } ∷ []);
}

write_memory-tracked :
    (write_memory sample true 12 (7 ∷ []) patched).1.patches
    ≡ some (record { addr = 10; orig = 10 ∷ 11 ∷ 12 ∷ []; new = 1 ∷ 2 ∷ 7 ∷ [] } ∷ [])
unfolding write_memory same poke normalized
write_memory-tracked = refl

write_memory-refused : (write_memory sample true 200 (7 ∷ []) patched).0 ≡ write_failed
unfolding write_memory
write_memory-refused = refl

revert_patch-reverted : (revert_patch sample 0 patched).0 ≡ reverted
unfolding revert_patch same poke
revert_patch-reverted = refl

write_memory-IsWrite_example :
    IsWrite sample memory true 12 (7 ∷ []) patched (write_memory sample true 12 (7 ∷ []) patched)
write_memory-IsWrite_example =
    write_memory-IsWrite sample memory sample-IsProcess true 12 (7 ∷ []) patched

revert_patch-Means_example : Means sample memory 0 patched (revert_patch sample 0 patched)
revert_patch-Means_example = revert_patch-Means sample memory sample-IsProcess 0 patched
