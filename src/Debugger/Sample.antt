-- ===== src/Debugger/Sample.antt =====
-- A process for the tests of macdbg/core/debugger.py: its memory below 100 can be written, and the
-- rest refuses.
use macdbg.Prelude.{
  ℕ, ◌+◌, ◌≡◌, refl, true, false, none, some, List, [], ◌∷◌, arith, ltb, ◌==◌, if◌then◌else◌,
  length, inl, inr, Bool-cases,
}
use macdbg.Debugger.{Process, bytes_at, IsProcess}
use macdbg.Debugger.Writes.{poke, Apart}

abbrev pub sample : Process (ℕ → ℕ)
sample = record {
  has_process = λ m. true;
  is_stopped = λ m. true;
  read_process = λ m address size. some (bytes_at m address size);
  write_process = λ m address given.
      if ltb address 100 then (some (length given), poke address given m) else (none, m);
}

abbrev pub memory : (ℕ → ℕ) → ℕ → ℕ
memory m = m

poke-Apart :
    (address : ℕ) (given : List ℕ) (m : ℕ → ℕ) (at : ℕ)
    → Apart address (length given) at
    → poke address given m at ≡ m at
unfolding poke
poke-Apart address [] m at far = refl
poke-Apart address (b ∷ given) m at far =
    let other : (at == address) ≡ false = elim far [
      | inl below ↦ ground arith
      | inr beyond ↦ ground arith
    ] in
    let away : Apart (address + 1) (length given) at = elim far [
      | inl below ↦ inl (omega arith)
      | inr beyond ↦ inr (omega arith)
    ] in
    rw other (poke-Apart (address + 1) given m at away)

pub sample-IsProcess : IsProcess sample memory
sample-IsProcess = record {
  reads = λ m address size found e. cc;
  keeps = λ m address given at far. elim (Bool-cases (ltb address 100)) [
    | inl low ↦ rw low (poke-Apart address given m at far)
    | inr high ↦ rw high refl
  ];
}
