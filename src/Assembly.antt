-- ===== src/Assembly.antt =====
-- macdbg/core/assembly.py: `assemble`, around the compiler, which is a parameter.
pub mod Text
pub mod Encode
pub mod Targets
pub mod Fields
pub mod Branches
pub mod Reach
pub mod Lines
pub mod Output
pub mod Program
mod Tests
use macdbg.Prelude.{
  ℕ, suc, ◌+◌, ◌*◌, ◌/◌, ◌%◌, Bool, true, false, not, ◌&&◌, ◌||◌, Option, none, some, List, [], ◌∷◌,
  ◌++◌, ltb, leb, ◌==◌, if◌then◌else◌, length, take, drop, select, Result, ok, err, ◌>>=◌, ◌>>◌,
  raise_if,
}
use macdbg.Prelude.Int.{ℤ, pos}
use macdbg.Bytes.{same, slice}
use macdbg.Http.Text.{split, strip, lstrip, lower, all, any, is_space, is_digit}
use macdbg.MachO.{Image, Section, Error, parse}
use macdbg.Assembly.Text.{
  lookup, has_key, splitlines, before_comment, is_letter, label_name, first_word, last, integer,
}
use macdbg.Assembly.Encode.{
  Problem, bad_source, duplicate_label, not_an_instruction, line_count, directive, unknown_symbol,
  text_sections, relocations, instruction_size, raised, image, Mnemonic, b_cond, other, ldr, ldrsw,
  mnemonic_of, relative_instruction,
}

-- The locals of the first loop: `lines`, `labels` and `offset`.
pub record Listing : Type 0 where
  pub lines : List (ℕ × List ℕ)
  pub labels : List (List ℕ × ℕ)
  pub offset : ℕ

abbrev pub is_forbidden : ℕ → Bool
is_forbidden c = c == b';' || c == 92 || c == 34

-- `re.match(r'^[a-zA-Z]…', line)` without a character that is refused.
abbrev pub is_instruction : List ℕ → Bool
unfolding any
is_instruction [] = false
is_instruction (c ∷ line) = is_letter c && not (any is_forbidden (c ∷ line))

-- A line that is a label or not.
unfoldable pub list_line : ℕ → List ℕ → Option (List ℕ) → Listing → Result Problem Listing
unfolding has_key
list_line address line (some name) listing =
    raise_if (has_key name listing.labels) duplicate_label
    >> ok (record listing { labels = (name, address + listing.offset) ∷ listing.labels })
list_line address line none listing =
    raise_if (not (is_instruction line)) not_an_instruction
    >> ok (record listing {
      lines = listing.lines ++ (address + listing.offset, line) ∷ [];
      offset = listing.offset + 4;
    })

abbrev pub is_empty : List ℕ → Bool
is_empty [] = true
is_empty (c ∷ text) = false

-- `for raw in source.splitlines()`
unfoldable pub list_lines : ℕ → List (List ℕ) → Listing → Result Problem Listing
unfolding list_line strip before_comment label_name
list_lines address [] listing = ok listing
list_lines address (raw ∷ raws) listing =
    let line = strip is_space (before_comment raw) in
    let skipped = list_lines address raws listing in
    let listed =
      list_line address line (label_name line) listing >>= λ next. list_lines address raws next in
    if is_empty line then skipped else listed

-- `resolve`: the address of a symbol, or the error it raises.
abbrev pub Resolver : Type 0
Resolver = Option (List ℕ → Result (List ℕ) ℤ)

abbrev pub lifted {ℓ} : {A : Type ℓ} → Result (List ℕ) A → Result Problem A
lifted (ok a) = ok a
lifted (err message) = err (raised message)

abbrev pub resolve_symbol : Resolver → List ℕ → Result Problem ℤ
resolve_symbol none expression = err unknown_symbol
resolve_symbol (some resolve) expression = lifted (resolve expression)

abbrev pub number_or_symbol : Resolver → List ℕ → Option ℤ → Result Problem ℤ
number_or_symbol resolve expression (some number) = ok number
number_or_symbol resolve expression none = resolve_symbol resolve expression

-- The address that an expression names: a label, a number or a symbol.
unfoldable pub destination_of : Resolver → List ℕ → Option ℕ → Result Problem ℤ
unfolding integer
destination_of resolve expression (some label) = ok (pos label)
destination_of resolve expression none = number_or_symbol resolve expression (integer expression)

-- `operands.split(',')[-1].strip().lstrip('#')`
unfoldable pub expression_of : List ℕ → List ℕ
unfolding split last strip lstrip
expression_of operands = lstrip (λ c. c == 35) (strip is_space (last (split 44 operands)))

-- Whether the code encodes the instruction itself.
unfoldable pub is_relative : Mnemonic → List ℕ → Bool
unfolding any
is_relative other operands = false
is_relative ldr operands = not (any (λ c. c == 91) operands)
is_relative ldrsw operands = not (any (λ c. c == 91) operands)
is_relative _ operands = true

-- `[a-z][a-z0-9.]*` in full.
abbrev pub is_lower : ℕ → Bool
is_lower c = leb b'a' c && leb c b'z'

unfoldable pub is_mnemonic : List ℕ → Bool
unfolding all
is_mnemonic [] = false
is_mnemonic (c ∷ text) = is_lower c && all (λ d. is_lower d || is_digit d || d == 46) text

-- An instruction that the code encodes, with `nop` for the compiler, or a line for the compiler.
unfoldable pub encode_parts :
    Resolver
    → List (List ℕ × ℕ)
    → (pc : ℕ) → List ℕ
    → Mnemonic
    → (operands : List ℕ) → Result Problem (List ℕ × Option ℕ)
unfolding is_relative expression_of lookup destination_of relative_instruction
encode_parts resolve labels pc line mnemonic operands =
    let expression = expression_of operands in
    let encoded = destination_of resolve expression (lookup expression labels) >>= λ destination.
    relative_instruction mnemonic operands pc destination >>= λ value.
    ok (b'n' ∷ b'o' ∷ b'p' ∷ [], some value) in
    if is_relative mnemonic operands then encoded else ok (line, none)

-- One round of the second loop: the line for the compiler, and the word that replaces its output.
unfoldable pub encode_line :
    Resolver → List (List ℕ × ℕ) → (pc : ℕ) → List ℕ → Result Problem (List ℕ × Option ℕ)
unfolding first_word lower is_mnemonic mnemonic_of encode_parts
encode_line resolve labels pc line =
    let (word, operands) = first_word line in
    raise_if (not (is_mnemonic (lower word))) directive
    >> encode_parts resolve labels pc line (mnemonic_of (lower word)) operands

-- `replacements[len(compiler)] = value`
abbrev pub replaced : ℕ → Option ℕ → List (ℕ × ℕ) → List (ℕ × ℕ)
replaced index (some value) replacements = (index, value) ∷ replacements
replaced index none replacements = replacements

-- `for pc, line in lines`, from the number `index` of lines that stand before: `compiler` and
-- `replacements`.
unfoldable pub encode_lines :
    Resolver
    → List (List ℕ × ℕ)
    → (index : ℕ) → List (ℕ × List ℕ)
    → Result Problem (List (List ℕ) × List (ℕ × ℕ))
unfolding encode_line
encode_lines resolve labels index [] = ok ([], [])
encode_lines resolve labels index ((pc, line) ∷ lines) = do
  (text, value) ← encode_line resolve labels pc line
  (compiler, replacements) ← encode_lines resolve labels (suc index) lines
  ok (text ∷ compiler, replaced index value replacements)

-- `value.to_bytes(4, 'little')`, for a value that fits.
abbrev pub to_bytes : ℕ → List ℕ
to_bytes value = value % 256 ∷ value / 256 % 256 ∷ value / 65536 % 256 ∷ value / 16777216 % 256 ∷ []

-- `data[index * 4:index * 4 + 4] = value.to_bytes(4, 'little')`
abbrev pub put_word : ℕ → ℕ → List ℕ → List ℕ
put_word index value code = take (index * 4) code ++ (to_bytes value ++ drop (index * 4 + 4) code)

-- `for index, value in replacements.items()`
unfoldable pub replace_words : List (ℕ × ℕ) → List ℕ → List ℕ
replace_words [] code = code
replace_words ((index, value) ∷ replacements) code =
    replace_words replacements (put_word index value code)

abbrev pub text_name : List ℕ
text_name = 95 ∷ 95 ∷ b't' ∷ b'e' ∷ b'x' ∷ b't' ∷ []

abbrev pub text_segment : List ℕ
text_segment = 95 ∷ 95 ∷ b'T' ∷ b'E' ∷ b'X' ∷ b'T' ∷ []

unfoldable pub is_text : Section → Bool
unfolding same
is_text s = same s.name text_name && same s.segment text_segment

unfoldable pub one_section : List Section → Result Problem Section
one_section (s ∷ []) = ok s
one_section _ = err text_sections

abbrev pub parsed {ℓ} : {A : Type ℓ} → Result Error A → Result Problem A
parsed (ok a) = ok a
parsed (err e) = err (image e)

-- The text of the object file, for the number of lines.
unfoldable pub object_text : (count : ℕ) → List ℕ → Result Problem (List ℕ)
unfolding parse is_text one_section
object_text count bytes = do
  macho ← parsed (parse bytes none)
  section ← one_section (select is_text macho.sections)
  raise_if (not (section.relocations == 0)) relocations
  let code = slice macho.bytes section.offset section.size
  raise_if (not (length code == count * 4)) instruction_size
  ok code

abbrev pub empty_listing : Listing
empty_listing = record { lines = []; labels = []; offset = 0 }

-- The second loop, the run of the compiler and the replacements.
unfoldable pub encode_listing :
    (clang : List (List ℕ) → Result (List ℕ) (List ℕ))
    → Resolver
    → Listing
    → Result Problem (List ℕ)
unfolding encode_lines object_text replace_words
encode_listing clang resolve listing = do
  (compiler, replacements) ← encode_lines resolve listing.labels 0 listing.lines
  object ← lifted (clang compiler)
  code ← object_text (length listing.lines) object
  ok (replace_words replacements code)

-- `clang` answers with the bytes of the object file or with its message.
unfoldable pub assemble :
    (clang : List (List ℕ) → Result (List ℕ) (List ℕ))
    → List ℕ
    → (address : ℕ) → Resolver
    → Result Problem (List ℕ)
unfolding splitlines list_lines encode_listing
assemble clang source address resolve = do
  raise_if (ltb 16384 (length source) || not (address % 4 == 0)) bad_source
  listing ← list_lines address (splitlines source) empty_listing
  raise_if (not (leb 1 (length listing.lines) && leb (length listing.lines) 256)) line_count
  encode_listing clang resolve listing
