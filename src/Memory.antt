-- ===== src/Memory.antt =====
-- macdbg/core/memory.py: the rows of a hexdump.
pub mod Rows
mod Tests
use macdbg.Prelude.{
  ℕ, zero, suc, ◌+◌, ◌-◌, ◌*◌, ◌/◌, ◌%◌, Bool, true, false, ◌&&◌, List, [], ◌∷◌, ◌++◌, ltb, leb,
  ◌==◌, if◌then◌else◌, length, take, drop, map,
}
use macdbg.State.Hex.{digit}

pub record Row : Type 0 where
  pub address : ℕ
  pub hex_part : List ℕ
  pub ascii_part : List ℕ

-- `" ".join("{:02x}".format(b) for b in chunk)`
unfoldable pub hex_text : List ℕ → List ℕ
hex_text [] = []
hex_text (b ∷ []) = digit (b / 16) ∷ digit (b % 16) ∷ []
hex_text (b ∷ c ∷ chunk) = digit (b / 16) ∷ digit (b % 16) ∷ 32 ∷ hex_text (c ∷ chunk)

abbrev pub spaces : ℕ → List ℕ
spaces zero = []
spaces (suc n) = 32 ∷ spaces n

-- `text.ljust(width)`
abbrev pub ljust : ℕ → List ℕ → List ℕ
ljust width text = text ++ spaces (width - length text)

-- `chr(b) if 32 <= b < 127 else "."`
abbrev pub shown : ℕ → ℕ
shown b = if leb 32 b && ltb b 127 then b else 46

unfoldable pub dump_row : (width address : ℕ) → List ℕ → Row
unfolding hex_text
dump_row width address chunk = record {
  address = address;
  hex_part = ljust (width * 3 - 1) (hex_text chunk);
  ascii_part = map shown chunk;
}

-- The loop over the offsets, as many rounds as there are bytes at most.
unfoldable pub rows_from : (rounds width address : ℕ) → List ℕ → List Row
unfolding dump_row
rows_from zero width address content = []
rows_from (suc rounds) width address content =
    let rest = rows_from rounds width (address + width) (drop width content) in
    if length content == 0 then [] else dump_row width address (take width content) ∷ rest

-- `hexdump_rows`, for a width of at least one byte.
unfoldable pub hexdump_rows : List ℕ → (base_addr width : ℕ) → List Row
unfolding rows_from
hexdump_rows content base_addr width = rows_from (length content) width base_addr content

-- `bytes_per_row_for`
unfoldable pub bytes_per_row_for : (pane_width : ℕ) → ℕ
bytes_per_row_for pane_width = if ltb pane_width 88 then 8 else 16
