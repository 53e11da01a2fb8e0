-- ===== src/MachO/Safety.antt =====
-- macdbg/core/macho.py: `MachO(data)` never reads past its data, and what it accepts lies in it.
use macdbg.Prelude.{
  ℕ, ◌+◌, ◌-◌, ◌≤◌, ◌≡◌, refl, false, not, ◌||◌, Option, List, arith, ltb, ◌==◌, length, All,
  Result, ◌>>◌, raise_if, Post, Post-bind, Post-mono, Post-raise_if,
}
use macdbg.Bytes.{Post-unpack_from, le_field}
use macdbg.MachO.{
  Error, struct_error, arm64, not_arm64, invalid_commands, Image, choose_slice, load_commands,
  fresh_image, parse_slice, parse,
}
use macdbg.MachO.Slices.{IsValueError, SliceFits, choose_slice_lem}
use macdbg.MachO.Commands.{IsWithin, SectionWithin, SegmentWithin, load_commands_lem}

-- What an accepted image promises of the file that it was read from.
pub record IsSound (bytes : List ℕ) (image : Image) : Type 0 where
  pub same_bytes : image.bytes ≡ bytes
  pub slice_fits : image.base + image.span ≤ length bytes
  pub sections_fit : All (SectionWithin image.base image.span) image.sections
  pub segments_fit : All (SegmentWithin image.base image.span) image.segments

sound :
    {bytes : List ℕ} {base span : ℕ} (image : Image)
    → IsWithin bytes base span image
    → IsSound bytes image
sound image w = record {
  same_bytes = w.same_bytes;
  slice_fits = simp (w.same_base, w.same_span) w.slice_fits;
  sections_fit = simp (w.same_base, w.same_span) w.sections_fit;
  segments_fit = simp (w.same_base, w.same_span) w.segments_fit;
}

header_fits :
    (count commands_size span : ℕ)
    → 32 ≤ span
    → (ltb 65536 count || ltb (span - 32) commands_size) ≡ false
    → 32 + commands_size ≤ span
header_fits count commands_size span long h = ground arith

parse_slice_lem :
    (bytes : List ℕ) (base span : ℕ)
    → SliceFits bytes (base, span)
    → Post IsValueError (IsSound bytes) (parse_slice bytes (base, span))
unfolding parse_slice
parse_slice_lem bytes base span h =
    Post-unpack_from IsValueError (IsSound bytes) struct_error 24 bytes base _ (omega arith)
      λ head _.
        let count : ℕ = le_field 16 4 head in
        let commands_size : ℕ = le_field 20 4 head in
        let image : Image = fresh_image bytes base span (le_field 8 4 head) in
        let rest : Result Error Image =
          load_commands count (base + 32) (base + 32 + commands_size) image in
        let checked : Result Error Image =
          raise_if (ltb 65536 count || ltb (span - 32) commands_size) invalid_commands >> rest in
        let wrong = not (le_field 0 4 head == 0xfeedfacf) || not (le_field 4 4 head == arm64) in
        Post-raise_if IsValueError (IsSound bytes) wrong not_arm64 checked (λ p. cc)
          λ _.
            Post-raise_if IsValueError (IsSound bytes) _ invalid_commands rest (λ p. cc)
              λ fits.
                let room = header_fits count commands_size span h.1 fits in
                Post-mono IsValueError (IsWithin bytes base span) (IsSound bytes) rest
                  (λ image w. sound image w)
                  (load_commands_lem bytes base span count _ _ image (omega arith) (record {
                    same_bytes = refl;
                    same_base = refl;
                    same_span = refl;
                    slice_fits = h.0;
                    sections_fit = tt;
                    segments_fit = tt;
                  }))

-- `MachO(data, subtype)` ends in an image or in a `ValueError`, never in a read past the data; the
-- slice of the image lies in the file, and so do its segments and its file-backed sections in the
-- slice.
pub parse-IsSound :
    (bytes : List ℕ) (subtype : Option ℕ) → Post IsValueError (IsSound bytes) (parse bytes subtype)
unfolding parse
parse-IsSound bytes subtype =
    Post-bind IsValueError (SliceFits bytes) (IsSound bytes) (choose_slice bytes subtype)
      (parse_slice bytes) (choose_slice_lem bytes subtype)
      λ (base, span) h. parse_slice_lem bytes base span h
