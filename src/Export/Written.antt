-- ===== src/Export/Written.antt =====
-- The bytes of a file that macdbg/core/patch_export.py writes the rows of a manifest over.
use macdbg.Prelude.{
  ℕ, zero, suc, ◌+◌, ◌≤◌, ◌<◌, ◌≡◌, refl, sym, ◌∙◌, Bool, true, false, not, List, [], ◌∷◌, ◌⊎◌, inl,
  inr, length, get_elem?, All, arith, Result, ok, err, Post, Post-raise_if,
}
use macdbg.Bytes.{slice, same, same→eq}
use macdbg.Export.{
  Row, Problem, System, os_error, verification_failed, write_over, write_at, write_rows,
  verify_rows,
}

-- A place outside the bytes of a row.
abbrev pub Outside : ℕ → Row → Type 0
Outside i row = (i < row.offset) ⊎ (row.offset + length row.new ≤ i)

write_over-beyond :
    (new file : List ℕ) (i : ℕ)
    → length new ≤ i
    → get_elem? (write_over new file) i ≡ get_elem? file i
unfolding write_over
write_over-beyond [] file i h = refl
write_over-beyond (n ∷ new) file zero h = let absurd : ⊥ = omega arith in elim absurd [ ]
write_over-beyond (n ∷ new) [] (suc i) h = write_over-beyond new [] i (omega arith)
write_over-beyond (n ∷ new) (f ∷ file) (suc i) h = write_over-beyond new file i (omega arith)

-- A write leaves the bytes of the file that are outside of it.
write_at-outside :
    (at : ℕ) (new file : List ℕ) (i : ℕ)
    → i < length file
    → (i < at) ⊎ (at + length new ≤ i)
    → get_elem? (write_at at new file) i ≡ get_elem? file i
unfolding write_at
write_at-outside zero new file i h (inl before) = let absurd : ⊥ = omega arith in elim absurd [ ]
write_at-outside zero new file i h (inr beyond) = write_over-beyond new file i (omega arith)
write_at-outside (suc n) new [] i h out = let absurd : ⊥ = omega arith in elim absurd [ ]
write_at-outside (suc n) new (f ∷ file) zero h out = refl
write_at-outside (suc n) new (f ∷ file) (suc i) h (inl before) =
    write_at-outside n new file i (omega arith) (inl (omega arith))
write_at-outside (suc n) new (f ∷ file) (suc i) h (inr beyond) =
    write_at-outside n new file i (omega arith) (inr (omega arith))

length-write_over : (new file : List ℕ) → length file ≤ length (write_over new file)
unfolding write_over
length-write_over [] file = omega arith
length-write_over (n ∷ new) [] = omega arith
length-write_over (n ∷ new) (f ∷ file) =
    let more : length file ≤ length (write_over new file) = length-write_over new file in
    omega arith

length-write_at : (at : ℕ) (new file : List ℕ) → length file ≤ length (write_at at new file)
unfolding write_at
length-write_at zero new file = length-write_over new file
length-write_at (suc n) new [] = omega arith
length-write_at (suc n) new (f ∷ file) =
    let more : length file ≤ length (write_at n new file) = length-write_at n new file in
    omega arith

-- Outside of all rows, the written file has the bytes of the copy.
abbrev pub Kept : List Row → (copy file : List ℕ) → Type 0
Kept rows copy file =
    (i : ℕ) → i < length copy → All (Outside i) rows → get_elem? file i ≡ get_elem? copy i

pub write_rows-Kept :
    (system : System) (rows : List Row) (copy : List ℕ)
    → Post (λ e. Unit {0}) (λ file. Kept rows copy file) (write_rows system rows copy)
unfolding write_rows
write_rows-Kept system [] copy = λ i h out. refl
write_rows-Kept system (row ∷ rows) copy =
    Post-raise_if (λ e. Unit {0}) _ (not (system.writes row)) os_error _ tt
      λ h. further (write_rows system rows next) (write_rows-Kept system rows next)
  where
    next : List ℕ
    next = write_at row.offset row.new copy

    further :
        (m : Result Problem (List ℕ))
        → Post (λ e. Unit {0}) (λ file. Kept rows next file) m
        → Post (λ e. Unit {0}) (λ file. Kept (row ∷ rows) copy file) m
    further (err e) h = tt
    further (ok file) h = λ i small out.
        h i (omega (arith, small, length-write_at row.offset row.new copy)) out.1
        ∙ write_at-outside row.offset row.new copy i small out.0

-- Every row's bytes stand at its offset.
abbrev pub Stands : List ℕ → List Row → Type 0
Stands file rows = All (λ row. slice file row.offset (length row.new) ≡ row.new) rows

pub not-false : (b : Bool) → not b ≡ false → b ≡ true
not-false true e = refl
not-false false e = sym e

pub verify_rows-Stands :
    (rows : List Row) (file : List ℕ)
    → Post (λ e. Unit {0}) (λ u. Stands file rows) (verify_rows rows file)
unfolding verify_rows
verify_rows-Stands [] file = tt
verify_rows-Stands (row ∷ rows) file =
    Post-raise_if (λ e. Unit {0}) _ (not (same (slice file row.offset (length row.new)) row.new))
      verification_failed (verify_rows rows file) tt
      λ h.
        further (verify_rows rows file) (same→eq _ _ (not-false _ h)) (verify_rows-Stands rows file)
  where
    further :
        (m : Result Problem (Unit {0}))
        → slice file row.offset (length row.new) ≡ row.new
        → Post (λ e. Unit {0}) (λ u. Stands file rows) m
        → Post (λ e. Unit {0}) (λ u. Stands file (row ∷ rows)) m
    further (err e) first h = tt
    further (ok u) first h = (first, h)
