-- ===== src/Export/Tests.antt =====
-- An export that can be run, for macdbg/core/patch_export.py.
use macdbg.Prelude.{ℕ, ◌≡◌, refl, true, false, none, some, List, [], ◌∷◌, ◌==◌, if◌then◌else◌, ok}
use macdbg.Bytes.{same, unpack_from, le_field, be_field}
use macdbg.MachO.{
  parse, choose_slice, parse_slice, load_commands, load_command, read_segment, read_sections,
  is_zero_fill, section_at, segment_at, file_offset, only_match, holds_address,
}
use macdbg.MachO.Sample.{tiny}
use macdbg.Patches.{
  normalized, collect, set_bytes, set_value, insert_entry, sorted, add_byte, runs_of,
}
use macdbg.Export.{
  Session, manifest, source, manifest_row, manifest_rows, System, has_file, write_rows, verify_rows,
  write_at, write_over, image_content, content_of, put_file, unlink, after_content, after_manifest,
  export,
}

-- Two of the bytes at 202 in the file are patched in the live process.
abbrev session : Session
session = record {
  has_target = true;
  digest = tiny;
  patches = record { addr = 500; orig = 3 ∷ 4 ∷ []; new = 9 ∷ 9 ∷ [] } ∷ [];
  binary = some tiny;
  file_address = λ a. if a == 500 then some 0x10ca else none;
  read_memory = λ a size. 9 ∷ 9 ∷ [];
}

abbrev system : System
system = record {
  creates = true;
  copied = some tiny;
  writes = λ row. true;
  writes_text = true;
  flushes = true;
  changes_mode = true;
  codesign = λ content. none;
}

abbrev path : List ℕ
path = b'/' ∷ b'p' ∷ []

abbrev digest_of : List ℕ → List ℕ
digest_of bytes = bytes

test-export :
    (export digest_of (λ m. []) path false false false session system []).0
    ≡ ok (record { patches = 1; signed = false })
unfolding export manifest source parse choose_slice parse_slice load_commands load_command
    read_segment read_sections is_zero_fill section_at segment_at unpack_from le_field be_field same
    file_offset only_match holds_address normalized collect set_bytes set_value insert_entry sorted
    add_byte runs_of manifest_row manifest_rows has_file content_of image_content write_rows
    verify_rows write_at write_over after_content after_manifest put_file unlink
test-export = refl

-- A signing that fails leaves no file.
test-unsigned : (export digest_of (λ m. []) path false true false session system []).1 ≡ []
unfolding export manifest source parse choose_slice parse_slice load_commands load_command
    read_segment read_sections is_zero_fill section_at segment_at unpack_from le_field be_field same
    file_offset only_match holds_address normalized collect set_bytes set_value insert_entry sorted
    add_byte runs_of manifest_row manifest_rows has_file content_of image_content write_rows
    verify_rows write_at write_over after_content after_manifest put_file unlink
test-unsigned = refl
