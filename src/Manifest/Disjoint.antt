-- ===== src/Manifest/Disjoint.antt =====
-- macdbg/core/patch_export.py: the rows that `import_manifest` accepts lie in the file and apart.
use macdbg.Prelude.{
  max, ℕ, zero, suc, ◌+◌, ◌≤◌, ◌<◌, ◌≡◌, refl, sym, ap, ◌∙◌, Bool, true, false, not, ◌&&◌, ◌||◌,
  Option, List, [], ◌∷◌, ◌++◌, arith, leb, ltb, ◌==◌, length, All, ok, err, ◌>>=◌, bind-eq-ok,
  raise_if-eq-ok, inl, inr, ◌⊎◌, Bool-cases,
}
use macdbg.Bytes.{slice, same, same→eq}
use macdbg.Http.Text.{any}
use macdbg.Debugger.{Process, Debugger}
use macdbg.Prelude.Int.{ℤ, pos, negsuc}
use macdbg.Manifest.{
  Row, Checked, invalid_row, overlapping, file_differs, Source, range, meets, check_at, check_rows,
}

-- Every number of a list fails a test that none of them passes.
any-false : (test : ℕ → Bool) (xs : List ℕ) → any test xs ≡ false → All (λ x. test x ≡ false) xs
unfolding any
any-false test [] h = tt
any-false test (x ∷ xs) h = (ground arith, any-false test xs (ground arith))

abbrev Outside : (offset size : ℕ) → List ℕ → Type 0
Outside offset size occupied = All (λ x. (leb offset x && ltb x (offset + size)) ≡ false) occupied

meets-Outside :
    (occupied : List ℕ) (offset size : ℕ)
    → meets occupied offset size ≡ false
    → Outside offset size occupied
unfolding meets
meets-Outside occupied offset size h =
    any-false (λ x. leb offset x && ltb x (offset + size)) occupied h

Outside-append :
    (offset size : ℕ) (xs ys : List ℕ)
    → Outside offset size (xs ++ ys)
    → Outside offset size xs × Outside offset size ys
Outside-append offset size [] ys h = (tt, h)
Outside-append offset size (x ∷ xs) ys h =
    let (a, b) = Outside-append offset size xs ys h.1 in ((h.0, a), b)

range-Outside :
    (start count offset size at : ℕ)
    → Outside offset size (range start count)
    → start ≤ at
    → at < start + count
    → (leb offset at && ltb at (offset + size)) ≡ false
range-Outside start zero offset size at h le lt = let absurd : ⊥ = omega arith in elim absurd [ ]
range-Outside start (suc count) offset size at h le lt = elim (Bool-cases (at == start)) [
  | inl here ↦ let same_at : at ≡ start = ground arith in rw same_at h.0
  | inr other ↦
      let above : start + 1 ≤ at = ground arith in
      range-Outside (start + 1) count offset size at h.1 above (omega arith)
]

abbrev pub Disjoint : (o n o' n' : ℕ) → Type 0
Disjoint o n o' n' = (o + n ≤ o') ⊎ (o' + n' ≤ o)

-- A range that meets no number of another lies apart from it, as both have numbers.
range-Disjoint : (o n o' n' : ℕ) → 0 < n → 0 < n' → Outside o' n' (range o n) → Disjoint o n o' n'
range-Disjoint o n o' n' some_n some_n' h = elim (Bool-cases (leb (o + n) o')) [
  | inl before ↦ inl (ground arith)
  | inr meet ↦ elim (Bool-cases (leb (o' + n') o)) [
    | inl after ↦ inr (ground arith)
    | inr meet' ↦
        let low : o' < o + n = ground arith in
        let high : o < o' + n' = ground arith in
        let at : ℕ = max o o' in
        let out = range-Outside o n o' n' at h (omega arith) (omega arith) in
        let absurd : ⊥ = ground arith in elim absurd [ ]
  ]
]

-- A row that the checks accept, at this offset, with what earlier rows occupy.
pub record IsAccepted (source : Source) (occupied : List ℕ) (row : Row) (offset : ℕ) : Type 0 where
  pub at : row.offset ≡ pos offset
  pub some_bytes : 0 < length row.new
  pub limited : length row.new ≤ 4096
  pub equal : length row.original ≡ length row.new
  pub on_disk : slice source.bytes offset (length row.original) ≡ row.original
  pub free : Outside offset (length row.new) occupied

abbrev Accepted : Source → (occupied : List ℕ) → List Row → Type 0
Accepted source occupied [] = Unit
Accepted source occupied (row ∷ rows) =
    (offset : ℕ) × IsAccepted source occupied row offset
    × Accepted source (occupied ++ range offset (length row.new)) rows

-- The rows behind one of this range lie apart from it.
abbrev pub AllDisjoint : (offset size : ℕ) → List Row → Type 0
AllDisjoint offset size rows =
    All (λ (r : Row). (o : ℕ) → r.offset ≡ pos o → Disjoint offset size o (length r.new)) rows

-- What the checks promise of the rows: each has its original bytes in the file, and they lie apart.
abbrev pub InFile : Source → List Row → Type 0
InFile source [] = Unit
InFile source (row ∷ rows) =
    (offset : ℕ) × (row.offset ≡ pos offset)
    × (0 < length row.new)
    × (length row.new ≤ 4096)
    × (slice source.bytes offset (length row.new) ≡ row.original)
    × AllDisjoint offset (length row.new) rows
    × InFile source rows

pos_eq : (m n : ℕ) → pos m ≡ pos n → m ≡ n
pos_eq m n e = cc

Accepted-AllDisjoint :
    (source : Source) (occupied : List ℕ) (rows : List Row) (offset size : ℕ)
    → 0 < size
    → ((o n : ℕ) → Outside o n occupied → Outside o n (range offset size))
    → Accepted source occupied rows
    → AllDisjoint offset size rows
Accepted-AllDisjoint source occupied [] offset size some_bytes inside h = tt
Accepted-AllDisjoint source occupied (row ∷ rows) offset size some_bytes inside h =
    let (o, a, rest) = h in
    (
      λ o' e.
          let same_offset : o ≡ o' = pos_eq o o' (sym a.at ∙ e) in
          rw (sym same_offset) (
            range-Disjoint offset size o (length row.new) some_bytes a.some_bytes
              (inside o (length row.new) a.free)),
      Accepted-AllDisjoint source (occupied ++ range o (length row.new)) rows offset size some_bytes
          (λ o' n out. inside o' n (Outside-append o' n occupied (range o (length row.new)) out).0)
          rest,
    )

Accepted-InFile :
    (source : Source) (occupied : List ℕ) (rows : List Row)
    → Accepted source occupied rows
    → InFile source rows
Accepted-InFile source occupied [] h = tt
Accepted-InFile source occupied (row ∷ rows) h =
    let (o, a, rest) = h in
    let on_disk : slice source.bytes o (length row.new) ≡ row.original =
      ap (λ n. slice source.bytes o n) (sym a.equal) ∙ a.on_disk in
    (
      o,
      a.at,
      a.some_bytes,
      a.limited,
      on_disk,
      Accepted-AllDisjoint source (occupied ++ range o (length row.new)) rows o (length row.new)
          a.some_bytes (λ o' n out. (Outside-append o' n occupied (range o (length row.new)) out).1)
          rest,
      Accepted-InFile source (occupied ++ range o (length row.new)) rows rest,
    )

not-false : (b : Bool) → not b ≡ false → b ≡ true
not-false true h = refl
not-false false h = cc

sizes_hold :
    (m n : ℕ)
    → (not (leb 1 n && leb n 4096) || not (m == n)) ≡ false
    → (0 < n) × (n ≤ 4096) × (m ≡ n)
sizes_hold m n h = (ground arith, ground arith, ground arith)

module _ {M : Type 0} (p : Process M) where
  check_at-IsAccepted :
      (source : Source) (load_address : ℕ → Option ℕ) (occupied : List ℕ) (offset : ℕ) (row : Row)
      (d : Debugger M) {c : Checked}
      → row.offset ≡ pos offset
      → check_at p source load_address occupied offset row d ≡ ok c
      → IsAccepted source occupied row offset
  unfolding check_at
  check_at-IsAccepted source load_address occupied offset row d e h =
      let (lengths, h) =
        raise_if-eq-ok
          (not (leb 1 (length row.new) && leb (length row.new) 4096)
            || not (length row.original == length row.new))
          invalid_row _ h in
      let (apart, h) = raise_if-eq-ok (meets occupied offset (length row.new)) overlapping _ h in
      let (on_disk, h) =
        raise_if-eq-ok (not (same (slice source.bytes offset (length row.original)) row.original))
          file_differs _ h in
      let (some_bytes, limited, equal) =
        sizes_hold (length row.original) (length row.new) lengths in
      record {
        at = e;
        some_bytes = some_bytes;
        limited = limited;
        equal = equal;
        on_disk = same→eq _ row.original (not-false _ on_disk);
        free = meets-Outside occupied offset (length row.new) apart;
      }

  check_rows-Accepted :
      (source : Source) (load_address : ℕ → Option ℕ) (occupied : List ℕ) (rows : List Row)
      (d : Debugger M) (checked : List Checked)
      → check_rows p source load_address occupied rows d ≡ ok checked
      → Accepted source occupied rows
  unfolding check_rows
  check_rows-Accepted source load_address occupied [] d checked h = tt
  check_rows-Accepted source load_address occupied (row ∷ rows) d checked h =
      by_offset row.offset refl h λ o rest e.
        check_rows-Accepted source load_address (occupied ++ range o (length row.new)) rows d rest e
    where
      by_offset :
          (z : ℤ)
          → row.offset ≡ z
          → (elim z [
            | negsuc n ↦ err invalid_row
            | pos offset ↦ do
              c ← check_at p source load_address occupied offset row d
              rest ←
                  check_rows p source load_address
                    (occupied ++ range offset (length row.new))
                    rows
                    d
              ok (c ∷ rest)
          ])
            ≡ ok checked
          → ((o : ℕ) (rest : List Checked)
              → check_rows p source load_address (occupied ++ range o (length row.new)) rows d
                ≡ ok rest
              → Accepted source (occupied ++ range o (length row.new)) rows)
          → Accepted source occupied (row ∷ rows)
      by_offset (negsuc n) e h k = cc
      by_offset (pos offset) e h k =
          let (c, first, h) =
            bind-eq-ok (check_at p source load_address occupied offset row d) _ h in
          let (rest, others, h) =
            bind-eq-ok
              (check_rows p source load_address (occupied ++ range offset (length row.new)) rows d)
              _ h in
          (
            offset,
            check_at-IsAccepted source load_address occupied offset row d e first,
            k offset rest others,
          )

  -- The rows that the checks accept have between 1 and 4096 bytes each, all of them with their original
  -- bytes in the file at their offset, and no two of them overlap.
  pub check_rows-InFile :
      (source : Source) (load_address : ℕ → Option ℕ) (rows : List Row) (d : Debugger M)
      (checked : List Checked)
      → check_rows p source load_address [] rows d ≡ ok checked
      → InFile source rows
  check_rows-InFile source load_address rows d checked h =
      Accepted-InFile source [] rows (check_rows-Accepted source load_address [] rows d checked h)
