-- ===== src/Assembly/Encode.antt =====
-- macdbg/core/assembly.py: `relative_instruction`, the word of an instruction that names an address.
use macdbg.Prelude.{
  ℕ, ◌+◌, ◌*◌, ◌/◌, ◌%◌, Bool, true, false, not, ◌&&◌, ◌||◌, Option, none, some, List, [], ◌∷◌, ltb,
  ◌==◌, if◌then◌else◌, get_elem?, Result, ok, err, ◌>>=◌, ◌>>◌, raise_if,
}
use macdbg.Prelude.Int.{ℤ, pos, negsuc, ◌-ℕ◌, floor_div, wrap, fits}
use macdbg.Bytes.{same}
use macdbg.Http.Text.{lstrip}
use macdbg.MachO.{Error}
use macdbg.Assembly.Text.{lookup, fields, first, numbered, integer}

-- The errors by their messages; `no_second_field` is the `IndexError` of `fields[1]`, `raised` what
-- the resolver or the compiler reports, `image` what the reader of the object file raises.
pub data Problem : Type 0 where
  adr_destination adr_range unaligned load_register load_range ldrsw_register : Problem
  branch_range unknown_condition condition_range branch_register register_number : Problem
  compare_range no_second_field bit_text bit_index test_range unsupported : Problem
  bad_source duplicate_label not_an_instruction line_count directive unknown_symbol : Problem
  text_sections relocations instruction_size : Problem
  raised : (message : List ℕ) → Problem
  image : Error → Problem

-- The mnemonics that the code tells apart; `b_cond` holds what follows `b.`.
pub data Mnemonic : Type 0 where
  adr adrp ldr ldrsw b_always bl cbz cbnz tbz tbnz : Mnemonic
  b_cond : (condition : List ℕ) → Mnemonic
  other : Mnemonic

abbrev pub mnemonics : List (List ℕ × Mnemonic)
mnemonics =
    (b'a' ∷ b'd' ∷ b'r' ∷ [], adr)
    ∷ (b'a' ∷ b'd' ∷ b'r' ∷ b'p' ∷ [], adrp)
    ∷ (b'l' ∷ b'd' ∷ b'r' ∷ [], ldr)
    ∷ (b'l' ∷ b'd' ∷ b'r' ∷ b's' ∷ b'w' ∷ [], ldrsw)
    ∷ (b'b' ∷ [], b_always)
    ∷ (b'b' ∷ b'l' ∷ [], bl)
    ∷ (b'c' ∷ b'b' ∷ b'z' ∷ [], cbz)
    ∷ (b'c' ∷ b'b' ∷ b'n' ∷ b'z' ∷ [], cbnz)
    ∷ (b't' ∷ b'b' ∷ b'z' ∷ [], tbz)
    ∷ (b't' ∷ b'b' ∷ b'n' ∷ b'z' ∷ [], tbnz)
    ∷ []

-- `mnemonic.startswith('b.')` and `mnemonic[2:]`
abbrev pub conditional : List ℕ → Mnemonic
conditional (c ∷ d ∷ condition) = if c == b'b' && d == 46 then b_cond condition else other
conditional _ = other

abbrev pub known_or : Mnemonic → Option Mnemonic → Mnemonic
known_or other_one none = other_one
known_or other_one (some m) = m

unfoldable pub mnemonic_of : List ℕ → Mnemonic
unfolding lookup
mnemonic_of text = known_or (conditional text) (lookup text mnemonics)

-- `conditions`
abbrev pub conditions : List (List ℕ × ℕ)
conditions =
    (b'e' ∷ b'q' ∷ [], 0)
    ∷ (b'n' ∷ b'e' ∷ [], 1)
    ∷ (b'h' ∷ b's' ∷ [], 2)
    ∷ (b'l' ∷ b'o' ∷ [], 3)
    ∷ (b'm' ∷ b'i' ∷ [], 4)
    ∷ (b'p' ∷ b'l' ∷ [], 5)
    ∷ (b'v' ∷ b's' ∷ [], 6)
    ∷ (b'v' ∷ b'c' ∷ [], 7)
    ∷ (b'h' ∷ b'i' ∷ [], 8)
    ∷ (b'l' ∷ b's' ∷ [], 9)
    ∷ (b'g' ∷ b'e' ∷ [], 10)
    ∷ (b'l' ∷ b't' ∷ [], 11)
    ∷ (b'g' ∷ b't' ∷ [], 12)
    ∷ (b'l' ∷ b'e' ∷ [], 13)
    ∷ (b'a' ∷ b'l' ∷ [], 14)
    ∷ (b'n' ∷ b'v' ∷ [], 15)
    ∷ (b'c' ∷ b's' ∷ [], 2)
    ∷ (b'c' ∷ b'c' ∷ [], 3)
    ∷ []

abbrev pub some_or {ℓ} : {E : Type 0} {A : Type ℓ} → E → Option A → Result E A
some_or e none = err e
some_or e (some a) = ok a

-- In the words below the fields do not meet, so that `|` is a sum; a shift multiplies by a power of
-- two and a mask is `wrap`.

-- `('adr', 'adrp')`
unfoldable pub address_word : (page : Bool) → List ℕ → (pc : ℕ) → ℤ → Result Problem ℕ
unfolding fields first numbered ◌-ℕ◌
address_word page operands pc destination = do
  (letter, number) ← some_or adr_destination (numbered (λ c. c == b'x') (first (fields operands)))
  raise_if (ltb 30 number) adr_destination
  let delta = if page then floor_div destination 4096 -ℕ pc / 4096 else destination -ℕ pc
  raise_if (not (fits 1048576 delta)) adr_range
  let encoded = wrap 2097152 delta
  ok (
      (if page then 0x90000000 else 0x10000000)
      + encoded % 4 * 536870912
      + encoded / 4 * 32
      + number)

abbrev pub is_load_letter : ℕ → Bool
is_load_letter c = c == b'x' || c == b'w' || c == b's' || c == b'd' || c == b'q'

-- `bases`
abbrev pub load_base : ℕ → ℕ
load_base c =
    if c == b'w'
    then 0x18000000
    else if c == b'x'
    then 0x58000000
    else if c == b's'
    then 0x1c000000
    else if c == b'd'
    then 0x5c000000
    else 0x9c000000

-- `('ldr', 'ldrsw')`, with `delta` in words from here on.
unfoldable pub load_word : (signed_word : Bool) → List ℕ → ℤ → Result Problem ℕ
unfolding fields first numbered
load_word signed_word operands delta = do
  (letter, number) ← some_or load_register (numbered is_load_letter (first (fields operands)))
  raise_if (ltb 31 number) load_register
  raise_if (not (fits 262144 delta)) load_range
  raise_if (signed_word && not (letter == b'x')) ldrsw_register
  ok ((if signed_word then 0x98000000 else load_base letter) + wrap 524288 delta * 32 + number)

-- `('b', 'bl')`
unfoldable pub jump_word : (link : Bool) → ℤ → Result Problem ℕ
jump_word link delta = do
  raise_if (not (fits 33554432 delta)) branch_range
  ok ((if link then 0x94000000 else 0x14000000) + wrap 67108864 delta)

-- `b.` with a condition
unfoldable pub condition_word : List ℕ → ℤ → Result Problem ℕ
unfolding lookup
condition_word condition delta = do
  code ← some_or unknown_condition (lookup condition conditions)
  raise_if (not (fits 262144 delta)) condition_range
  ok (0x54000000 + wrap 524288 delta * 32 + code)

-- `([wx])(\d+|zr)` in full: the letter and the number of the register, 31 for `zr`.
abbrev pub is_wx : ℕ → Bool
is_wx c = c == b'w' || c == b'x'

unfoldable pub wx_register : List ℕ → Option (ℕ × ℕ)
unfolding numbered same
wx_register (c ∷ rest) =
    let number = numbered is_wx (c ∷ rest) in
    if is_wx c && same rest (b'z' ∷ b'r' ∷ []) then some (c, 31) else number
wx_register [] = none

unfoldable pub branch_register_of : List ℕ → Result Problem (ℕ × ℕ)
unfolding fields first wx_register
branch_register_of operands = do
  (letter, reg) ← some_or branch_register (wx_register (first (fields operands)))
  raise_if (ltb 31 reg) register_number
  ok (letter, reg)

-- `('cbz', 'cbnz')`
unfoldable pub compare_word : (nonzero : Bool) → ℕ × ℕ → ℤ → Result Problem ℕ
compare_word nonzero (letter, reg) delta = do
  raise_if (not (fits 262144 delta)) compare_range
  ok (
      0x34000000
      + (if letter == b'x' then 0x80000000 else 0)
      + (if nonzero then 0x1000000 else 0)
      + wrap 524288 delta * 32
      + reg)

-- `0 <= bit < limit`
unfoldable pub bit_below : ℕ → ℤ → Result Problem ℕ
bit_below limit (negsuc n) = err bit_index
bit_below limit (pos bit) = if ltb bit limit then ok bit else err bit_index

-- `('tbz', 'tbnz')`
unfoldable pub test_word : (nonzero : Bool) → List ℕ → ℕ × ℕ → ℤ → Result Problem ℕ
unfolding fields lstrip integer bit_below
test_word nonzero operands (letter, reg) delta = do
  field ← some_or no_second_field (get_elem? (fields operands) 1)
  value ← some_or bit_text (integer (lstrip (λ c. c == 35) field))
  bit ← bit_below (if letter == b'x' then 64 else 32) value
  raise_if (not (fits 8192 delta)) test_range
  ok (
      0x36000000
      + bit / 32 * 0x80000000
      + bit % 32 * 524288
      + (if nonzero then 0x1000000 else 0)
      + wrap 16384 delta * 32
      + reg)

-- The mnemonics behind the test of alignment, for `delta` in words.
unfoldable pub branch_word : Mnemonic → List ℕ → ℤ → Result Problem ℕ
unfolding load_word jump_word condition_word branch_register_of compare_word test_word
branch_word ldr operands delta = load_word false operands delta
branch_word ldrsw operands delta = load_word true operands delta
branch_word b_always operands delta = jump_word false delta
branch_word bl operands delta = jump_word true delta
branch_word (b_cond condition) operands delta = condition_word condition delta
branch_word cbz operands delta = branch_register_of operands >>= λ r. compare_word false r delta
branch_word cbnz operands delta = branch_register_of operands >>= λ r. compare_word true r delta
branch_word tbz operands delta =
    branch_register_of operands >>= λ r. test_word false operands r delta
branch_word tbnz operands delta =
    branch_register_of operands >>= λ r. test_word true operands r delta
branch_word _ operands delta = branch_register_of operands >>= λ r. err unsupported

unfoldable pub aligned_word : Mnemonic → List ℕ → (pc : ℕ) → ℤ → Result Problem ℕ
unfolding branch_word ◌-ℕ◌
aligned_word mnemonic operands pc destination =
    let delta = destination -ℕ pc in
    raise_if (not (wrap 4 delta == 0)) unaligned
    >> branch_word mnemonic operands (floor_div delta 4)

unfoldable pub relative_instruction : Mnemonic → List ℕ → (pc : ℕ) → ℤ → Result Problem ℕ
unfolding address_word aligned_word
relative_instruction adr operands pc destination = address_word false operands pc destination
relative_instruction adrp operands pc destination = address_word true operands pc destination
relative_instruction mnemonic operands pc destination =
    aligned_word mnemonic operands pc destination
