-- ===== src/MachO.antt =====
-- macdbg/core/macho.py: the range reader `MachO`.
mod Slices
mod Commands
pub mod Safety
pub mod Ranges
pub mod Sample
mod Tests
use macdbg.Prelude.{
  ℕ, zero, suc, ◌+◌, ◌-◌, ◌*◌, ◌^◌, ◌%◌, Bool, true, false, not, ◌&&◌, ◌||◌, Option, none, some,
  List, [], ◌∷◌, ◌++◌, ltb, leb, ◌==◌, if◌then◌else◌, length, select, Result, ok, err, ◌>>=◌, ◌>>◌,
  raise_if,
}
use macdbg.Bytes.{unpack_from, slice, le_field, be_field, rstrip_nul, decode_ascii}

-- The `ValueError`s by their messages, and `struct.error` for a read past the end of the data.
pub data Error : Type 0 where
  truncated_macho invalid_fat_header invalid_slice ambiguous_slice not_arm64 : Error
  invalid_commands truncated_command invalid_command_size truncated_segment : Error
  invalid_segment_range section_exceeds_file invalid_relocations truncated_encryption : Error
  size_mismatch encrypted_image not_one_section offset_outside_sections struct_error : Error

abbrev pub arm64 : ℕ
arm64 = 0x100000c

pub record Segment : Type 0 where
  pub name : List ℕ
  pub address : ℕ
  pub size : ℕ
  pub offset : ℕ
  pub file_size : ℕ

pub record Section : Type 0 where
  pub name : List ℕ
  pub segment : List ℕ
  pub address : ℕ
  pub size : ℕ
  pub offset : ℕ
  pub zero_fill : Bool
  pub relocations : ℕ

-- The fields of a `MachO` object; `bytes` is the attribute `data`.
pub record Image : Type 0 where
  pub bytes : List ℕ
  pub base : ℕ
  pub span : ℕ
  pub subtype : ℕ
  pub sections : List Section
  pub segments : List Segment
  pub signed : Bool
  pub encrypted : Bool

-- A fixed-width name of a segment or a section.
unfoldable pub name_field : ℕ → List ℕ → List ℕ
unfolding rstrip_nul decode_ascii
name_field at block = decode_ascii (rstrip_nul (slice block at 16))

-- `subtype is None or (sub & 0xffffff) == subtype`
unfoldable pub wanted_subtype : Option ℕ → ℕ → Bool
wanted_subtype none sub = true
wanted_subtype (some wanted) sub = sub % 2 ^ 24 == wanted

-- `if cpu == ARM64 and (…): candidates.append((offset, length))`
unfoldable pub add_candidate : Option ℕ → (cpu sub : ℕ) → ℕ × ℕ → List (ℕ × ℕ) → List (ℕ × ℕ)
unfolding wanted_subtype
add_candidate subtype cpu sub range candidates =
    if cpu == arm64 && wanted_subtype subtype sub then candidates ++ range ∷ [] else candidates

-- `for index in range(count)` over the architectures of a fat file: the slices that fit.
unfoldable pub fat_slices :
    List ℕ → Option ℕ → (width count rounds index : ℕ) → List (ℕ × ℕ) → Result Error (List (ℕ × ℕ))
fat_slices bytes subtype width count zero index candidates = ok candidates
fat_slices bytes subtype width count (suc rounds) index candidates = do
  let at = 8 + index * width
  arch ← unpack_from struct_error 8 bytes at
  let word = if width == 20 then 4 else 8
  range ← unpack_from struct_error (2 * word) bytes (at + 8)
  let offset = be_field 0 word range
  let size = be_field word word range
  raise_if (ltb offset (8 + width * count) || ltb size 32 || ltb (length bytes) (offset + size))
      invalid_slice
  fat_slices bytes subtype width count rounds (index + 1)
      (add_candidate subtype (be_field 0 4 arch) (be_field 4 4 arch) (offset, size) candidates)

-- `if len(candidates) != 1: raise …; self.base, self.length = candidates[0]`
unfoldable pub only_slice : List (ℕ × ℕ) → Result Error (ℕ × ℕ)
only_slice [] = err ambiguous_slice
only_slice (c ∷ []) = ok c
only_slice (c ∷ d ∷ rest) = err ambiguous_slice

-- The branch of a fat magic: the one slice that is wanted.
unfoldable pub choose_fat : List ℕ → Option ℕ → (magic : ℕ) → Result Error (ℕ × ℕ)
choose_fat bytes subtype magic = do
  counted ← unpack_from struct_error 4 bytes 4
  let count = be_field 0 4 counted
  let width = if magic == 0xcafebabe then 20 else 32
  raise_if (not (leb 1 count && leb count 64) || ltb (length bytes) (8 + width * count))
      invalid_fat_header
  candidates ← fat_slices bytes subtype width count count 0 []
  only_slice candidates

-- The slice of the file that is read: the whole of a thin file, the one match of a fat one.
unfoldable pub choose_slice : List ℕ → Option ℕ → Result Error (ℕ × ℕ)
choose_slice bytes subtype = do
  raise_if (ltb (length bytes) 32) truncated_macho
  head ← unpack_from struct_error 4 bytes 0
  let magic = be_field 0 4 head
  if magic == 0xcafebabe || magic == 0xcafebabf
      then choose_fat bytes subtype magic
      else ok (0, length bytes)

-- `zero = flags & 0xff in (1, 0xc, 0x12)`
unfoldable pub is_zero_fill : ℕ → Bool
is_zero_fill flags = let kind = flags % 256 in kind == 1 || kind == 0xc || kind == 0x12

-- The entry of `self.sections` for an unpacked section header, and of `self.segments`.
unfoldable pub section_at : (base : ℕ) (block : List ℕ) → Section
unfolding name_field is_zero_fill
section_at base block = record {
  name = name_field 0 block;
  segment = name_field 16 block;
  address = le_field 32 8 block;
  size = le_field 40 8 block;
  offset = base + le_field 48 4 block;
  zero_fill = is_zero_fill (le_field 64 4 block);
  relocations = le_field 60 4 block;
}

unfoldable pub segment_at : (base : ℕ) (block : List ℕ) → Segment
unfolding name_field
segment_at base block = record {
  name = name_field 0 block;
  address = le_field 16 8 block;
  size = le_field 24 8 block;
  offset = base + le_field 32 8 block;
  file_size = le_field 40 8 block;
}

-- `for index in range(nsects)` over the sections of the segment command at `offset`.
unfoldable pub read_sections : (rounds index offset : ℕ) → Image → Result Error Image
read_sections zero index offset image = ok image
read_sections (suc rounds) index offset image = do
  block ← unpack_from struct_error 68 image.bytes (offset + 72 + index * 80)
  let reloff = le_field 56 4 block
  let nreloc = le_field 60 4 block
  raise_if
      (not (is_zero_fill (le_field 64 4 block))
        && ltb image.span (le_field 48 4 block + le_field 40 8 block))
      section_exceeds_file
  raise_if (not (nreloc == 0) && ltb image.span (reloff + nreloc * 8)) invalid_relocations
  read_sections rounds (index + 1) offset
      (record image { sections = image.sections ++ section_at image.base block ∷ [] })

-- The command 0x19: a segment and its sections.
unfoldable pub read_segment : (offset size : ℕ) → Image → Result Error Image
read_segment offset size image = do
  raise_if (ltb size 72) truncated_segment
  block ← unpack_from struct_error 48 image.bytes (offset + 8)
  counted ← unpack_from struct_error 4 image.bytes (offset + 64)
  let nsects = le_field 0 4 counted
  raise_if
      (ltb size (72 + nsects * 80) || ltb image.span (le_field 32 8 block + le_field 40 8 block))
      invalid_segment_range
  read_sections nsects 0 offset
      (record image { segments = image.segments ++ segment_at image.base block ∷ [] })

-- The commands 0x21 and 0x2c: whether the image is encrypted.
unfoldable pub read_encryption : (offset size : ℕ) → Image → Result Error Image
read_encryption offset size image = do
  raise_if (ltb size 20) truncated_encryption
  block ← unpack_from struct_error 4 image.bytes (offset + 16)
  ok (record image { encrypted = image.encrypted || not (le_field 0 4 block == 0) })

-- The body of the loop over the load commands, by the command.
unfoldable pub load_command : (command offset size : ℕ) → Image → Result Error Image
load_command command offset size image =
    if command == 0x19
    then read_segment offset size image
    else if command == 0x1d
    then ok (record image { signed = true })
    else if command == 0x21 || command == 0x2c
    then read_encryption offset size image
    else ok image

-- `for _ in range(count)` over the load commands, and the test of the end offset behind it.
unfoldable pub load_commands : (rounds offset end : ℕ) → Image → Result Error Image
load_commands zero offset end image = raise_if (not (offset == end)) size_mismatch >> ok image
load_commands (suc rounds) offset end image = do
  raise_if (ltb end (offset + 8)) truncated_command
  head ← unpack_from struct_error 8 image.bytes offset
  let size = le_field 4 4 head
  raise_if (ltb size 8 || ltb end (offset + size)) invalid_command_size
  image' ← load_command (le_field 0 4 head) offset size image
  load_commands rounds (offset + size) end image'

-- The attributes before the first load command.
unfoldable pub fresh_image : List ℕ → (base span subtype : ℕ) → Image
fresh_image bytes base span subtype = record {
  bytes = bytes;
  base = base;
  span = span;
  subtype = subtype;
  sections = [];
  segments = [];
  signed = false;
  encrypted = false;
}

-- `MachO.__init__`, once the slice is chosen.
unfoldable pub parse_slice : List ℕ → ℕ × ℕ → Result Error Image
unfolding fresh_image
parse_slice bytes (base, span) = do
  head ← unpack_from struct_error 24 bytes base
  raise_if (not (le_field 0 4 head == 0xfeedfacf) || not (le_field 4 4 head == arm64)) not_arm64
  let count = le_field 16 4 head
  let commands_size = le_field 20 4 head
  raise_if (ltb 65536 count || ltb (span - 32) commands_size) invalid_commands
  load_commands count (base + 32) (base + 32 + commands_size)
      (fresh_image bytes base span (le_field 8 4 head))

-- `MachO(data, subtype)`
unfoldable pub parse : List ℕ → Option ℕ → Result Error Image
parse bytes subtype = do range ← choose_slice bytes subtype; parse_slice bytes range

-- `if len(matches) != 1: raise ValueError(…); s = matches[0]`
unfoldable pub only_match : Error → List Section → Result Error Section
only_match e [] = err e
only_match e (s ∷ []) = ok s
only_match e (s ∷ t ∷ rest) = err e

-- The sections that hold a range of addresses, and those that hold a range of the file.
unfoldable pub holds_address : (address size : ℕ) → Section → Bool
holds_address address size s =
    not s.zero_fill && leb s.address address && leb (address + size) (s.address + s.size)

unfoldable pub holds_offset : (offset size : ℕ) → Section → Bool
holds_offset offset size s =
    not s.zero_fill && leb s.offset offset && leb (offset + size) (s.offset + s.size)

-- `MachO.file_offset`
unfoldable pub file_offset : Image → (address size : ℕ) → Result Error ℕ
unfolding only_match holds_address
file_offset image address size = do
  raise_if image.encrypted encrypted_image
  s ← only_match not_one_section (select (holds_address address size) image.sections)
  ok (s.offset + address - s.address)

-- `MachO.file_address`
unfoldable pub file_address : Image → (offset size : ℕ) → Result Error ℕ
unfolding only_match holds_offset
file_address image offset size = do
  s ← only_match offset_outside_sections (select (holds_offset offset size) image.sections)
  ok (s.address + offset - s.offset)
