-- ===== src/MachO/Commands.antt =====
-- macdbg/core/macho.py: the load commands are read within the slice, and what they name lies in it.
use macdbg.Prelude.{
  ℕ, zero, suc, ◌+◌, ◌*◌, ◌≤◌, ◌≡◌, false, not, ◌||◌, ◌&&◌, List, [], ◌∷◌, ◌++◌, arith, ltb, ◌==◌,
  length, All, All-append, ok, Post, Post-bind, Post-raise_if, Bool-cases, ltb-false→le, inl, inr,
}
use macdbg.Bytes.{Post-unpack_from, le_field}
use macdbg.MachO.{
  struct_error, truncated_command, invalid_command_size, truncated_segment, invalid_segment_range,
  section_exceeds_file, invalid_relocations, truncated_encryption, size_mismatch, Section, Segment,
  Image, is_zero_fill, section_at, segment_at, read_sections, read_segment, read_encryption,
  load_command, load_commands,
}
use macdbg.MachO.Slices.{IsValueError}

-- A file-backed section or a segment lies within the slice.
abbrev pub SectionWithin : (base span : ℕ) → Section → Type 0
SectionWithin base span s =
    s.zero_fill ≡ false → (base ≤ s.offset) × (s.offset + s.size ≤ base + span)

abbrev pub SegmentWithin : (base span : ℕ) → Segment → Type 0
SegmentWithin base span s = (base ≤ s.offset) × (s.offset + s.file_size ≤ base + span)

pub record IsWithin (bytes : List ℕ) (base span : ℕ) (image : Image) : Type 0 where
  pub same_bytes : image.bytes ≡ bytes
  pub same_base : image.base ≡ base
  pub same_span : image.span ≡ span
  pub slice_fits : base + span ≤ length bytes
  pub sections_fit : All (SectionWithin base span) image.sections
  pub segments_fit : All (SegmentWithin base span) image.segments

command_fits :
    {bound : ℕ} (size end offset : ℕ)
    → end ≤ bound
    → (ltb size 8 || ltb end (offset + size)) ≡ false
    → offset + size ≤ bound
command_fits size end offset room h = ground arith

module _ (bytes : List ℕ) (base span : ℕ) where
  abbrev Within : Image → Type 0
  Within = IsWithin bytes base span

  add_section :
      (image : Image) (s : Section)
      → Within image
      → SectionWithin base span s
      → Within (record image { sections = image.sections ++ s ∷ [] })
  add_section image s w h = record {
    same_bytes = w.same_bytes;
    same_base = w.same_base;
    same_span = w.same_span;
    slice_fits = w.slice_fits;
    sections_fit =
        All-append (SectionWithin base span) image.sections (s ∷ []) w.sections_fit (h, tt);
    segments_fit = w.segments_fit;
  }

  add_segment :
      (image : Image) (s : Segment)
      → Within image
      → SegmentWithin base span s
      → Within (record image { segments = image.segments ++ s ∷ [] })
  add_segment image s w h = record {
    same_bytes = w.same_bytes;
    same_base = w.same_base;
    same_span = w.same_span;
    slice_fits = w.slice_fits;
    sections_fit = w.sections_fit;
    segments_fit =
        All-append (SegmentWithin base span) image.segments (s ∷ []) w.segments_fit (h, tt);
  }

  -- The bytes of a load command that ends within the slice.
  in_bytes : (image : Image) (at : ℕ) → Within image → at ≤ base + span → at ≤ length image.bytes
  in_bytes image at w h = rw w.same_bytes (omega (arith, w.slice_fits))

  section_at_lem :
      (image : Image) (block : List ℕ)
      → Within image
      → (not (is_zero_fill (le_field 64 4 block))
          && ltb image.span (le_field 48 4 block + le_field 40 8 block))
        ≡ false
      → SectionWithin base span (section_at image.base block)
  unfolding section_at
  section_at_lem image block w fits z = ground (arith, w.same_base, w.same_span)

  segment_at_lem :
      (image : Image) (block : List ℕ) (size nsects : ℕ)
      → Within image
      → (ltb size (72 + nsects * 80) || ltb image.span (le_field 32 8 block + le_field 40 8 block))
        ≡ false
      → SegmentWithin base span (segment_at image.base block) × (72 + nsects * 80 ≤ size)
  unfolding segment_at
  segment_at_lem image block size nsects w fits = ground (arith, w.same_base, w.same_span)

  read_sections_lem :
      (rounds index nsects offset : ℕ) (image : Image)
      → index + rounds ≡ nsects
      → offset + 72 + nsects * 80 ≤ base + span
      → Within image
      → Post IsValueError Within (read_sections rounds index offset image)
  unfolding read_sections
  read_sections_lem zero index nsects offset image e room w = w
  read_sections_lem (suc rounds) index nsects offset image e room w =
      Post-unpack_from IsValueError Within struct_error 68 image.bytes _ _
        (in_bytes image (offset + 72 + index * 80 + 68) w (omega arith))
        λ block _.
          Post-raise_if IsValueError Within _ section_exceeds_file _ (λ p. cc)
            λ fits.
              Post-raise_if IsValueError Within _ invalid_relocations _ (λ p. cc)
                λ _. read_sections_lem rounds (index + 1) nsects offset _ (omega arith) room (
                  add_section image (section_at image.base block) w
                    (section_at_lem image block w fits))

  read_segment_lem :
      (offset size : ℕ) (image : Image)
      → offset + size ≤ base + span
      → Within image
      → Post IsValueError Within (read_segment offset size image)
  unfolding read_segment
  read_segment_lem offset size image room w =
      Post-raise_if IsValueError Within _ truncated_segment _ (λ p. cc)
        λ short.
          let long : 72 ≤ size = ltb-false→le size 72 short in
          Post-unpack_from IsValueError Within struct_error 48 image.bytes _ _
            (in_bytes image (offset + 8 + 48) w (omega arith))
            λ block _.
              Post-unpack_from IsValueError Within struct_error 4 image.bytes _ _
                (in_bytes image (offset + 64 + 4) w (omega arith))
                λ counted _.
                  Post-raise_if IsValueError Within _ invalid_segment_range _ (λ p. cc)
                    λ fits.
                      let nsects : ℕ = le_field 0 4 counted in
                      let (inside, room') = segment_at_lem image block size nsects w fits in
                      read_sections_lem nsects 0 nsects offset _ (omega arith) (omega arith)
                        (add_segment image (segment_at image.base block) w inside)

  read_encryption_lem :
      (offset size : ℕ) (image : Image)
      → offset + size ≤ base + span
      → Within image
      → Post IsValueError Within (read_encryption offset size image)
  unfolding read_encryption
  read_encryption_lem offset size image room w =
      Post-raise_if IsValueError Within _ truncated_encryption _ (λ p. cc)
        λ short.
          let long : 20 ≤ size = ltb-false→le size 20 short in
          Post-unpack_from IsValueError Within struct_error 4 image.bytes _ _
            (in_bytes image (offset + 16 + 4) w (omega arith))
            λ block _. record {
              same_bytes = w.same_bytes;
              same_base = w.same_base;
              same_span = w.same_span;
              slice_fits = w.slice_fits;
              sections_fit = w.sections_fit;
              segments_fit = w.segments_fit;
            }

  load_command_lem :
      (command offset size : ℕ) (image : Image)
      → offset + size ≤ base + span
      → Within image
      → Post IsValueError Within (load_command command offset size image)
  unfolding load_command
  load_command_lem command offset size image room w = elim (Bool-cases (command == 0x19)) [
    | inl segment ↦ rw segment (read_segment_lem offset size image room w)
    | inr e1 ↦ rw e1 (elim (Bool-cases (command == 0x1d)) [
      | inl signature ↦ rw signature record {
        same_bytes = w.same_bytes;
        same_base = w.same_base;
        same_span = w.same_span;
        slice_fits = w.slice_fits;
        sections_fit = w.sections_fit;
        segments_fit = w.segments_fit;
      }
      | inr e2 ↦ rw e2 (elim (Bool-cases (command == 0x21 || command == 0x2c)) [
        | inl encryption ↦ rw encryption (read_encryption_lem offset size image room w)
        | inr e3 ↦ rw e3 w
      ])
    ])
  ]

  pub load_commands_lem :
      (rounds offset end : ℕ) (image : Image)
      → end ≤ base + span
      → Within image
      → Post IsValueError Within (load_commands rounds offset end image)
  unfolding load_commands
  load_commands_lem zero offset end image room w =
      Post-raise_if IsValueError Within _ size_mismatch (ok image) (λ p. cc) (λ _. w)
  load_commands_lem (suc rounds) offset end image room w =
      Post-raise_if IsValueError Within _ truncated_command _ (λ p. cc)
        λ whole.
          let head_fits : offset + 8 ≤ end = ltb-false→le end (offset + 8) whole in
          Post-unpack_from IsValueError Within struct_error 8 image.bytes _ _
            (in_bytes image (offset + 8) w (omega arith))
            λ head _.
              let size : ℕ = le_field 4 4 head in
              Post-raise_if IsValueError Within _ invalid_command_size _ (λ p. cc)
                λ fits.
                  Post-bind IsValueError Within Within
                    (load_command (le_field 0 4 head) offset size image) _
                    (load_command_lem (le_field 0 4 head) offset size image
                      (command_fits size end offset room fits) w)
                    λ image' w'. load_commands_lem rounds (offset + size) end image' room w'
