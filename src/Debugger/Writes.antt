-- ===== src/Debugger/Writes.antt =====
-- macdbg/core/debugger.py: what `write_memory` leaves in the memory of the process.
use macdbg.Prelude.{
  ℕ, zero, suc, ◌+◌, ◌/◌, ◌≤◌, ◌<◌, ◌≡◌, refl, sym, ap, subst, ◌∙◌, Bool, true, false, not, Option,
  none, some, List, [], ◌∷◌, ◌++◌, arith, ltb, ◌==◌, if◌then◌else◌, length, take, map, Result, ok,
  err, Bool-cases, inl, inr, ◌⊎◌,
}
use macdbg.Bytes.{same, same→eq}
use macdbg.Patches.{Patch, Run, Error, normalized}
use macdbg.Debugger.{
  Process, bytes_at, IsProcess, Debugger, Written, wrote, no_process, not_stopped, partial_write,
  verify_failed, raised, is_wrote, record_patch, patch_of, read_halving, read_memory, is_tracked,
  tracked, after_write, write_memory,
}

pub length-bytes_at : (byte : ℕ → ℕ) (address size : ℕ) → length (bytes_at byte address size) ≡ size
length-bytes_at byte address zero = refl
length-bytes_at byte address (suc size) = ap suc (length-bytes_at byte (address + 1) size)

-- A memory after some bytes are written at an address.
unfoldable pub poke : (address : ℕ) → List ℕ → (ℕ → ℕ) → ℕ → ℕ
poke address [] f at = f at
poke address (b ∷ bytes) f at =
    let rest = poke (address + 1) bytes f at in if at == address then b else rest

abbrev pub Apart : (address size at : ℕ) → Type 0
Apart address size at = (at < address) ⊎ (address + size ≤ at)

take_short : (n : ℕ) (xs : List ℕ) → length xs ≤ n → take n xs ≡ xs
take_short zero [] h = refl
take_short (suc n) [] h = refl
take_short zero (x ∷ xs) h = let absurd : ⊥ = omega arith in elim absurd [ ]
take_short (suc n) (x ∷ xs) h = ap (λ ys. x ∷ ys) (take_short n xs (omega arith))

module _ {M : Type 0} (p : Process M) (byte : M → ℕ → ℕ) where
  -- A read gives the first bytes of its range, as many as could be read.
  abbrev pub IsRead : M → (address size : ℕ) → List ℕ → Type 0
  IsRead m address size found =
      (read : ℕ) × (read ≤ size) × (found ≡ bytes_at (byte m) address read)

  -- A write changes at most its range, which holds the bytes given if it succeeds; and it changes the
  -- patches only if it is tracked.
  pub record IsWrite (track : Bool) (address : ℕ) (given : List ℕ) (before : Debugger M)
      (r : Written × Debugger M) : Type 0 where
    pub untouched :
        (at : ℕ) → Apart address (length given) at → byte r.1.process at ≡ byte before.process at
    pub landed : is_wrote r.0 ≡ true → bytes_at (byte r.1.process) address (length given) ≡ given
    pub untracked : track ≡ false → r.1.patches ≡ before.patches

abbrev pub SameProcess : {M : Type 0} → Debugger M → Result Error (Debugger M) → Type 0
SameProcess d (ok d') = d'.process ≡ d.process
SameProcess d (err e) = Unit

pub record_patch-process :
    {M : Type 0} (address : ℕ) (orig new : List ℕ) (d : Debugger M)
    → SameProcess d (record_patch address orig new d)
unfolding record_patch
record_patch-process address orig new d = by_patches d.patches
  where
    by_runs :
        (o : Result Error (List Run))
        → SameProcess d (elim o [
          | ok runs ↦ ok (record d { patches = some (map patch_of runs) })
          | err e ↦ err e
        ])
    by_runs (ok runs) = refl
    by_runs (err e) = tt

    by_patches :
        (o : Option (List Patch))
        → SameProcess d (elim o [
          | none ↦ ok d
          | some patches ↦
              elim (normalized
                (patches ++ record { addr = address; orig = orig; new = new } ∷ [])) [
                  | ok runs ↦ ok (record d { patches = some (map patch_of runs) })
                  | err e ↦ err e
                ]
        ])
    by_patches none = refl
    by_patches (some patches) =
        by_runs (normalized (patches ++ record { addr = address; orig = orig; new = new } ∷ []))

module _ {M : Type 0} (p : Process M) (byte : M → ℕ → ℕ) (h : IsProcess p byte) where
  read_halving-IsRead :
      (fuel : ℕ) (m : M) (address size : ℕ)
      → IsRead p byte m address size (read_halving p fuel m address size)
  unfolding read_halving
  read_halving-IsRead zero m address size = (0, omega arith, refl)
  read_halving-IsRead (suc fuel) m address size =
      by_read (ltb size 1) (p.read_process m address size) refl (size == 1)
        (read_halving-IsRead fuel m address (size / 2))
    where
      by_read :
          (small : Bool) (o : Option (List ℕ))
          → p.read_process m address size ≡ o
          → (one : Bool)
          → IsRead p byte m address (size / 2) (read_halving p fuel m address (size / 2))
          → IsRead p byte m address size (
              if small then [] else elim o [
                | some found ↦ found
                | none ↦ if one then [] else read_halving p fuel m address (size / 2)
              ])
      by_read true o e one ih = (0, omega arith, refl)
      by_read false none e true ih = (0, omega arith, refl)
      by_read false none e false ih = (ih.0, omega (arith, ih.1), ih.2)
      by_read false (some found) e one ih = (size, omega arith, h.reads m address size found e)

  pub read_memory-IsRead :
      (m : M) (address size : ℕ) → IsRead p byte m address size (read_memory p m address size)
  unfolding read_memory
  read_memory-IsRead m address size = elim (Bool-cases (p.has_process m)) [
    | inl here ↦ rw here (read_halving-IsRead (suc size) m address size)
    | inr gone ↦ rw gone (0, omega arith, refl)
  ]

  -- A read that gives back all bytes asked for shows them to be in memory.
  pub read_memory-all :
      (m : M) (address : ℕ) (given : List ℕ)
      → read_memory p m address (length given) ≡ given
      → bytes_at (byte m) address (length given) ≡ given
  read_memory-all m address given e =
      let (read, le, found) = read_memory-IsRead m address (length given) in
      let same_size : read ≡ length given =
        sym (length-bytes_at (byte m) address read)
        ∙ ap (λ (xs : List ℕ). length xs) (sym found ∙ e) in
      subst (λ n. bytes_at (byte m) address n ≡ given) same_size (sym found ∙ e)

  read_back :
      (m : M) (address : ℕ) (given : List ℕ)
      → take (length given) (read_memory p m address (length given)) ≡ given
      → bytes_at (byte m) address (length given) ≡ given
  read_back m address given e =
      let (read, le, found) = read_memory-IsRead m address (length given) in
      let short : length (read_memory p m address (length given)) ≤ length given =
        rw found (omega (arith, length-bytes_at (byte m) address read, le)) in
      read_memory-all m address given (sym (take_short (length given) _ short) ∙ e)

  is_tracked-off :
      (orig given : List ℕ) (o : Option (List Patch)) → is_tracked p false orig given o ≡ false
  unfolding is_tracked
  is_tracked-off orig given none = refl
  is_tracked-off orig given (some patches) = refl

  tracked-IsWrite :
      (track : Bool) (address : ℕ) (given orig : List ℕ) (before d : Debugger M)
      → ((at : ℕ) → Apart address (length given) at → byte d.process at ≡ byte before.process at)
      → bytes_at (byte d.process) address (length given) ≡ given
      → d.patches ≡ before.patches
      → IsWrite p byte track address given before (tracked p track address given orig d)
  unfolding tracked
  tracked-IsWrite track address given orig before d apart landed e =
      by_track (is_tracked p track orig given d.patches) refl
        (record_patch address (take (length given) orig) given d) (record_patch-process _ _ _ d)
    where
      by_track :
          (b : Bool)
          → is_tracked p track orig given d.patches ≡ b
          → (o : Result Error (Debugger M)) → SameProcess d o
          → IsWrite p byte track address given before
              (if b then elim o [ ok d' ↦ (wrote, d') | err e ↦ (raised e, d) ] else (wrote, d))
      by_track false t o k = record { untouched = apart; landed = λ _. landed; untracked = λ _. e }
      by_track true t (ok d') k = record {
        untouched = λ at far. rw k (apart at far);
        landed = λ _. rw k landed;
        untracked = λ off.
            let on : is_tracked p false orig given d.patches ≡ true = rw off at t in
            let is_off = is_tracked-off orig given d.patches in cc;
      }
      by_track true t (err e') k = record {
        untouched = apart;
        landed = λ w. cc;
        untracked = λ _. e;
      }

  after_write-IsWrite :
      (track : Bool) (address : ℕ) (given orig : List ℕ) (o : Option ℕ) (before d : Debugger M)
      → ((at : ℕ) → Apart address (length given) at → byte d.process at ≡ byte before.process at)
      → d.patches ≡ before.patches
      → IsWrite p byte track address given before (after_write p track address given orig o d)
  unfolding after_write
  after_write-IsWrite track address given orig none before d apart e = record {
    untouched = apart;
    landed = λ w. cc;
    untracked = λ _. e;
  }
  after_write-IsWrite track address given orig (some n) before d apart e =
      by_tests (not (n == length given))
        (same (take (length given) (read_memory p d.process address (length given))) given) refl
    where
      by_tests :
          (partial back : Bool)
          → same (take (length given) (read_memory p d.process address (length given))) given ≡ back
          → IsWrite p byte track address given before (
              if partial
              then (partial_write n, d)
              else if not back
              then (verify_failed, d)
              else tracked p track address given orig d)
      by_tests true back s = record { untouched = apart; landed = λ w. cc; untracked = λ _. e }
      by_tests false false s = record { untouched = apart; landed = λ w. cc; untracked = λ _. e }
      by_tests false true s =
          tracked-IsWrite track address given orig before d apart
            (read_back d.process address given (same→eq _ given s)) e

  -- Whatever comes of a write, the memory outside of its range is as before; where it answers that it
  -- wrote, the range holds the bytes given; and without tracking, the patches are as before.
  pub write_memory-IsWrite :
      (track : Bool) (address : ℕ) (given : List ℕ) (d : Debugger M)
      → IsWrite p byte track address given d (write_memory p track address given d)
  unfolding write_memory
  write_memory-IsWrite track address given d =
      by_state (not (p.has_process d.process)) (not (p.is_stopped d.process))
    where
      by_state :
          (gone running : Bool)
          → IsWrite p byte track address given d (
              if gone
              then (no_process, d)
              else if running
              then (not_stopped, d)
              else let (count, m) = p.write_process d.process address given in
                after_write p track address given
                  (read_memory p d.process address (length given))
                  count
                  (record d { process = m }))
      by_state true running = record {
        untouched = λ at far. refl;
        landed = λ w. cc;
        untracked = λ _. refl;
      }
      by_state false true = record {
        untouched = λ at far. refl;
        landed = λ w. cc;
        untracked = λ _. refl;
      }
      by_state false false =
          after_write-IsWrite track address given (read_memory p d.process address (length given))
            (p.write_process d.process address given).0 d
            (record d { process = (p.write_process d.process address given).1 })
            (λ at far. h.keeps d.process address given at far) refl
