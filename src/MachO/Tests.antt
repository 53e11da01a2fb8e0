-- ===== src/MachO/Tests.antt =====
-- Runs of macdbg/core/macho.py on a small image, and the theorems about it at that image.
use macdbg.Prelude.{ℕ, ◌+◌, ◌≤◌, ◌≡◌, refl, true, false, none, [], ◌∷◌, length, ok, Post}
use macdbg.Bytes.{unpack_from, be_field, le_field}
use macdbg.MachO.{
  Image, parse, choose_slice, parse_slice, load_commands, load_command, read_segment, read_sections,
  is_zero_fill, section_at, segment_at, file_offset, file_address,
}
use macdbg.MachO.Sample.{tiny}
use macdbg.MachO.Slices.{IsValueError}
use macdbg.MachO.Safety.{IsSound, parse-IsSound}
use macdbg.MachO.Ranges.{file_offset-fits, file_address-file_offset}

abbrev tiny_image : Image
tiny_image = record {
  bytes = tiny;
  base = 0;
  span = 208;
  subtype = 0;
  sections =
      record {
        name = b'_' ∷ b'_' ∷ b't' ∷ b'e' ∷ b'x' ∷ b't' ∷ [];
        segment = b'_' ∷ b'_' ∷ b't' ∷ b'e' ∷ b'x' ∷ b't' ∷ [];
        address = 0x10c8;
        size = 8;
        offset = 200;
        zero_fill = false;
        relocations = 0;
      }
      ∷ [];
  segments =
      record {
        name = b'_' ∷ b'_' ∷ b't' ∷ b'e' ∷ b'x' ∷ b't' ∷ [];
        address = 0x1000;
        size = 0x100;
        offset = 0;
        file_size = 208;
      }
      ∷ [];
  signed = true;
  encrypted = false;
}

parse-tiny : parse tiny none ≡ ok tiny_image
unfolding parse choose_slice unpack_from be_field parse_slice le_field load_commands load_command
    read_segment read_sections is_zero_fill section_at segment_at
parse-tiny = refl

file_offset-tiny : file_offset tiny_image 0x10ca 4 ≡ ok 202
unfolding file_offset
file_offset-tiny = refl

file_address-tiny : file_address tiny_image 202 4 ≡ ok 0x10ca
unfolding file_address
file_address-tiny = refl

parse-IsSound_example : Post IsValueError (IsSound tiny) (parse tiny none)
parse-IsSound_example = parse-IsSound tiny none

file_offset-fits_example :
    (tiny_image.encrypted ≡ false)
    × (tiny_image.base ≤ 202)
    × (202 + 4 ≤ tiny_image.base + tiny_image.span)
    × (tiny_image.base + tiny_image.span ≤ length tiny)
file_offset-fits_example =
    file_offset-fits tiny none tiny_image 0x10ca 4 202 parse-tiny file_offset-tiny

file_address-file_offset_example : ◌≡◌ {A = ℕ} 0x10ca 0x10ca
file_address-file_offset_example =
    file_address-file_offset tiny_image 0x10ca 4 202 0x10ca file_offset-tiny file_address-tiny
