-- ===== src/MachO/Slices.antt =====
-- macdbg/core/macho.py: the choice of the architecture slice reads within the file.
use macdbg.Prelude.{
  ℕ, zero, suc, ◌+◌, ◌*◌, ◌≤◌, ◌<◌, ◌≡◌, ◌≢◌, false, not, ◌||◌, ◌&&◌, Option, List, [], ◌∷◌, arith,
  ltb, leb, ◌==◌, if◌then◌else◌, length, All, All-append, Post, Post-bind, Post-raise_if,
  Bool-cases, ltb-false→le, ◌⊎◌, inl, inr,
}
use macdbg.Bytes.{Post-unpack_from, be_field}
use macdbg.MachO.{
  Error, struct_error, arm64, wanted_subtype, add_candidate, truncated_macho, invalid_fat_header,
  invalid_slice, fat_slices, only_slice, choose_fat, choose_slice,
}

-- A `ValueError`: no read went past the end of the data.
abbrev pub IsValueError : Error → Type 0
IsValueError e = e ≢ struct_error

abbrev pub SliceFits : List ℕ → ℕ × ℕ → Type 0
SliceFits bytes (base, span) = (base + span ≤ length bytes) × (32 ≤ span)

slice_fits :
    (offset size header total : ℕ)
    → (ltb offset header || ltb size 32 || ltb total (offset + size)) ≡ false
    → (offset + size ≤ total) × (32 ≤ size)
slice_fits offset size header total h = ground arith

width_cases :
    (magic : ℕ)
    → (let width : ℕ = if magic == 0xcafebabe then 20 else 32 in (width ≡ 20) ⊎ (width ≡ 32))
width_cases magic = ground arith

header_fits :
    (count width total : ℕ)
    → (not (leb 1 count && leb count 64) || ltb total (8 + width * count)) ≡ false
    → 8 + width * count ≤ total
header_fits count width total h = ground arith

-- The architecture entry at `index` lies within the `count` entries.
entry_fits : (index width count : ℕ) → index < count → index * width + width ≤ width * count
entry_fits index width count h = grind arith

-- The entry holds its two words and its range.
word_fits :
    (width : ℕ) → (width ≡ 20) ⊎ (width ≡ 32) → 8 + 2 * (if width == 20 then 4 else 8) ≤ width
word_fits width w = ground arith

module _ (bytes : List ℕ) where
  only_slice_lem :
      (candidates : List (ℕ × ℕ))
      → All (SliceFits bytes) candidates
      → Post IsValueError (SliceFits bytes) (only_slice candidates)
  unfolding only_slice
  only_slice_lem [] h = λ p. cc
  only_slice_lem (c ∷ []) h = h.0
  only_slice_lem (c ∷ d ∷ rest) h = λ p. cc

  add_candidate_lem :
      (subtype : Option ℕ) (cpu sub : ℕ) (candidates : List (ℕ × ℕ)) (c : ℕ × ℕ)
      → All (SliceFits bytes) candidates
      → SliceFits bytes c
      → All (SliceFits bytes) (add_candidate subtype cpu sub c candidates)
  unfolding add_candidate
  add_candidate_lem subtype cpu sub candidates c h k =
      elim (Bool-cases (cpu == arm64 && wanted_subtype subtype sub)) [
        | inl e ↦ rw e (All-append (SliceFits bytes) candidates (c ∷ []) h (k, tt))
        | inr e ↦ rw e h
      ]

  fat_slices_lem :
      (subtype : Option ℕ) (width count rounds index : ℕ) (candidates : List (ℕ × ℕ))
      → (width ≡ 20) ⊎ (width ≡ 32)
      → index + rounds ≡ count
      → 8 + width * count ≤ length bytes
      → All (SliceFits bytes) candidates
      → Post IsValueError
          (All (SliceFits bytes))
          (fat_slices bytes subtype width count rounds index candidates)
  unfolding fat_slices
  fat_slices_lem subtype width count zero index candidates w e room h = h
  fat_slices_lem subtype width count (suc rounds) index candidates w e room h =
      let entry = entry_fits index width count (omega arith) in
      let word : ℕ = if width == 20 then 4 else 8 in
      let word_fits' = word_fits width w in
      Post-unpack_from IsValueError (All (SliceFits bytes)) struct_error 8 bytes _ _ (omega arith)
        λ arch _.
          Post-unpack_from IsValueError (All (SliceFits bytes)) struct_error _ bytes _ _
            (omega arith)
            λ range _.
              Post-raise_if IsValueError (All (SliceFits bytes)) _ invalid_slice _ (λ p. cc)
                λ fits.
                  let offset : ℕ = be_field 0 word range in
                  let size : ℕ = be_field word word range in
                  fat_slices_lem subtype width count rounds (index + 1)
                    (add_candidate subtype (be_field 0 4 arch) (be_field 4 4 arch) (offset, size)
                      candidates)
                    w (omega arith) room
                    (add_candidate_lem subtype _ _ candidates (offset, size) h
                      (slice_fits offset size _ (length bytes) fits))

  choose_fat_lem :
      (subtype : Option ℕ) (magic : ℕ)
      → 32 ≤ length bytes
      → Post IsValueError (SliceFits bytes) (choose_fat bytes subtype magic)
  unfolding choose_fat
  choose_fat_lem subtype magic long =
      Post-unpack_from IsValueError (SliceFits bytes) struct_error 4 bytes _ _ (omega arith)
        λ counted _.
          let count : ℕ = be_field 0 4 counted in
          let width : ℕ = if magic == 0xcafebabe then 20 else 32 in
          Post-raise_if IsValueError (SliceFits bytes) _ invalid_fat_header _ (λ p. cc)
            λ room.
              Post-bind IsValueError (All (SliceFits bytes)) (SliceFits bytes) _ only_slice
                (fat_slices_lem subtype width count count 0 [] (width_cases magic) (omega arith)
                  (header_fits count width (length bytes) room) tt)
                only_slice_lem

  pub choose_slice_lem :
      (subtype : Option ℕ) → Post IsValueError (SliceFits bytes) (choose_slice bytes subtype)
  unfolding choose_slice
  choose_slice_lem subtype =
      Post-raise_if IsValueError (SliceFits bytes) _ truncated_macho _ (λ p. cc)
        λ short.
          let long : 32 ≤ length bytes = ltb-false→le (length bytes) 32 short in
          Post-unpack_from IsValueError (SliceFits bytes) struct_error 4 bytes _ _ (omega arith)
            λ head _.
              let magic : ℕ = be_field 0 4 head in
              elim (Bool-cases (magic == 0xcafebabe || magic == 0xcafebabf)) [
                | inl fat ↦ rw fat (choose_fat_lem subtype magic long)
                | inr thin ↦ rw thin (omega arith, long)
              ]
