-- ===== src/Timing/Rules.antt =====
-- macdbg/core/timing.py: the values of timing rules and what the rules are checked against.
use macdbg.Prelude.{
  ℕ, ◌+◌, ◌-◌, ◌/◌, ◌%◌, ◌^◌, Bool, false, not, ◌&&◌, ◌||◌, Option, none, some, List, [], ◌∷◌, ltb,
  leb, ◌==◌, if◌then◌else◌, length, Result, ok, err, ◌>>=◌, ◌>>◌, raise_if,
}
use Prim.Native.Nat.{bit_and, bit_or, bit_xor}
use macdbg.Prelude.Int.{ℤ, pos, negsuc}
use macdbg.Http.Text.{all, is_digit}
use macdbg.Assembly.Text.{is_letter, integer}

-- The errors by their messages; `missing_field` is a `KeyError`.
pub data Problem : Type 0 where
  expected_integer bad_register bad_value not_stopped in_step no_target not_arm64 not_loaded :
      Problem
  no_load_address bad_address unreadable is_enabled unknown_fields bad_name name_exists : Problem
  missing_field site_exists both_actions same_address unknown_rule duplicate_name : Problem
  duplicate_site changed redirect_changed automatic_clocks no_rules hardware_refused : Problem
  hooks_missing no_capacity hook_modified hook_moved filters_modified has_commands overlaps :
      Problem
  cannot_redirect no_register register_read register_write register_verify : Problem

-- A value of the arguments; `other_value` is neither an integer nor text.
pub data Argument : Type 0 where
  number : ℤ → Argument
  text : List ℕ → Argument
  other_value : Argument

abbrev pub integer_text : Option ℤ → Result Problem ℤ
integer_text none = err expected_integer
integer_text (some n) = ok n

-- `integer(value)`
unfoldable pub integer_of : Argument → Result Problem ℤ
unfolding integer
integer_of (number n) = ok n
integer_of (text t) = integer_text (integer t)
integer_of other_value = err expected_integer

-- `[12]?\d|30` in full.
abbrev pub is_number : List ℕ → Bool
is_number (d ∷ []) = is_digit d
is_number (c ∷ d ∷ []) = (c == b'1' || c == b'2') && is_digit d || c == b'3' && d == b'0'
is_number _ = false

-- `register_bits(name)`
unfoldable pub register_bits : List ℕ → Result Problem ℕ
register_bits [] = err bad_register
register_bits (letter ∷ digits) =
    if not ((letter == b'x' || letter == b'w') && is_number digits)
    then err bad_register
    else if letter == b'w'
    then ok 32
    else ok 64

-- `rewritten_value(old, value, mask, bits)`
unfoldable pub rewritten_value : ℕ → ℤ → ℤ → ℕ → Result Problem ℕ
rewritten_value old (pos value) (pos mask) bits =
    let limit = 2 ^ bits - 1 in
    if not (leb value limit)
      || not (ltb 0 mask && leb mask limit)
      || not (bit_and value (bit_xor limit mask) == 0)
    then err bad_value
    else ok (bit_or (bit_and old (bit_xor limit mask)) value)
rewritten_value old _ _ bits = err bad_value

-- What a rule does at its instruction: it changes bits of a register, or moves the program counter to
-- another instruction.
pub data Action : Type 0 where
  rewrite : (register : List ℕ) → (value mask : ℤ) → Action
  redirect : (offset : ℤ) → (expected : List ℕ) → Action

pub record Rule : Type 0 where
  pub name : List ℕ
  pub offset : ℤ
  pub expected : List ℕ
  pub action : Action

-- The target as the rules see it: its state, its main module and section, and the reads of its
-- memory.
pub record Target : Type 0 where
  pub stopped : Bool
  pub stepping : Bool
  pub valid : Bool
  pub arm64 : Bool
  pub loaded : Bool
  pub base : ℕ
  pub has_text : Bool
  pub start : ℕ
  pub size : ℕ
  pub read_memory : ℕ → List ℕ

-- `LLDB_INVALID_ADDRESS`
abbrev pub invalid_address : ℕ
invalid_address = 0xffffffffffffffff

-- `_stopped()`
unfoldable pub check_stopped : Target → Result Problem (Unit {0})
check_stopped t = raise_if (not t.stopped) not_stopped >> raise_if t.stepping in_step

-- `_module()`, the load address.
unfoldable pub module_base : Target → Result Problem ℕ
module_base t = do
  raise_if (not t.valid) no_target
  raise_if (not t.arm64) not_arm64
  raise_if (not t.loaded) not_loaded
  raise_if (t.base == 0 || t.base == invalid_address) no_load_address
  ok t.base

abbrev pub hex_digit : ℕ → ℕ
hex_digit n = if ltb n 10 then n + 48 else n + 87

-- `data.hex()`
unfoldable pub hex_text : List ℕ → List ℕ
hex_text [] = []
hex_text (c ∷ data_left) = hex_digit (c / 16) ∷ hex_digit (c % 16) ∷ hex_text data_left

-- `_instruction(address)`
unfoldable pub instruction_at : Target → (base : ℕ) → ℤ → Result Problem (List ℕ)
unfolding hex_text
instruction_at t base (negsuc n) = err bad_address
instruction_at t base (pos address) = do
  raise_if
      (not t.has_text
        || not (address % 4 == 0)
        || t.start == invalid_address
        || not (leb t.start address && leb (address + 4) (t.start + t.size)))
      bad_address
  let word = t.read_memory address
  raise_if (not (length word == 4)) unreadable
  ok (hex_text word)

unfoldable pub instruction : Target → ℤ → Result Problem (List ℕ)
unfolding module_base instruction_at
instruction t address = module_base t >>= λ base. instruction_at t base address

abbrev pub is_name_char : ℕ → Bool
is_name_char c = is_letter c || is_digit c || c == 95 || c == 46 || c == 45

-- `[A-Za-z0-9_.-]{1,64}` in full.
unfoldable pub is_name : List ℕ → Bool
unfolding all
is_name name = ltb 0 (length name) && leb (length name) 64 && all is_name_char name
