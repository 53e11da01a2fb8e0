-- ===== src/Memory/Tests.antt =====
-- A hexdump of three bytes, for macdbg/core/memory.py.
use macdbg.Prelude.{ℕ, ◌≡◌, refl, some, List, [], ◌∷◌, arith}
use macdbg.Memory.{hex_text, dump_row, rows_from, hexdump_rows}
use macdbg.Memory.Rows.{read_rows, Aligned, hexdump_rows-Aligned}

abbrev three : List ℕ
three = 1 ∷ 65 ∷ 255 ∷ []

hexdump_rows-Aligned_example :
    (read_rows (hexdump_rows three 4096 2) ≡ some three)
    × Aligned 2 4096 (hexdump_rows three 4096 2)
hexdump_rows-Aligned_example =
    hexdump_rows-Aligned three 4096 2 (omega arith) (omega arith, (omega arith, (omega arith, tt)))

test-rows :
    hexdump_rows three 4096 2
    ≡ record {
      address = 4096;
      hex_part = b'0' ∷ b'1' ∷ 32 ∷ b'4' ∷ b'1' ∷ [];
      ascii_part = 46 ∷ b'A' ∷ [];
    }
      ∷ record { address = 4098; hex_part = b'f' ∷ b'f' ∷ 32 ∷ 32 ∷ 32 ∷ []; ascii_part = 46 ∷ [] }
      ∷ []
unfolding hexdump_rows rows_from dump_row hex_text
test-rows = refl
