-- ===== src/Assembly/Tests.antt =====
-- Runs of macdbg/core/assembly.py, and the theorems about it at those runs.
use macdbg.Prelude.{ℕ, zero, suc, ◌/◌, ◌%◌, ◌≡◌, refl, none, some, List, [], ◌∷◌, ◌++◌, Result, ok}
use macdbg.Prelude.Int.{pos, negsuc}
use macdbg.Bytes.{unpack_from, be_field, le_field}
use macdbg.MachO.{
  choose_slice, parse_slice, load_commands, load_command, read_segment, read_sections, is_zero_fill,
  section_at,
}
use macdbg.Assembly.{assemble}
use macdbg.Assembly.Text.{integer}
use macdbg.Assembly.Encode.{relative_instruction, tbnz}
use macdbg.Assembly.Reach.{Means, named, relative_instruction-target}

abbrev le : ℕ → ℕ → List ℕ
le zero n = []
le (suc width) n = n % 256 ∷ le width (n / 256)

abbrev name : List ℕ → List ℕ
name text = text ++ le 8 0

-- An object file with two `nop`s as its text.
abbrev object : List ℕ
object =
    le 4 0xfeedfacf
    ++ (le 4 0x100000c
        ++ (le 8 0
            ++ (le 4 1
                ++ (le 4 152
                    ++ (le 8 0
                        ++ (le 4 0x19
                            ++ (le 4 152
                                ++ (name (95 ∷ 95 ∷ b'T' ∷ b'E' ∷ b'X' ∷ b'T' ∷ 0 ∷ 0 ∷ [])
                                    ++ (le 8 0
                                        ++ (le 8 8
                                            ++ (le 8 184
                                                ++ (le 8 8
                                                    ++ (le 8 0
                                                        ++ (le 4 1
                                                            ++ (le 4 0
                                                            ++ (name (
                                                            95 ∷ 95 ∷ b't' ∷ b'e' ∷ b'x' ∷ b't' ∷ 0
                                                            ∷ 0 ∷ [])
                                                            ++ (name (
                                                            95 ∷ 95 ∷ b'T' ∷ b'E' ∷ b'X' ∷ b'T' ∷ 0
                                                            ∷ 0 ∷ [])
                                                            ++ (le 8 0
                                                            ++ (le 8 8
                                                            ++ (le 4 184
                                                            ++ (le 28 0
                                                            ++ (le 4 0xd503201f
                                                            ++ le 4 0xd503201f))))))))))))))))))))))

abbrev clang : List (List ℕ) → Result (List ℕ) (List ℕ)
clang lines = ok object

-- `again:`, `nop`, `b again`
abbrev source : List ℕ
source =
    b'a' ∷ b'g' ∷ b'a' ∷ b'i' ∷ b'n' ∷ 58 ∷ 10 ∷ b'n' ∷ b'o' ∷ b'p' ∷ 10 ∷ b'b' ∷ 32 ∷ b'a' ∷ b'g'
    ∷ b'a' ∷ b'i' ∷ b'n' ∷ []

assembled_loop : assemble clang source 4096 none ≡ ok (le 4 0xd503201f ++ le 4 0x17ffffff)
unfolding assemble choose_slice unpack_from be_field parse_slice le_field load_commands load_command
    read_segment read_sections is_zero_fill section_at
assembled_loop = refl

minus_hex : integer (32 ∷ 45 ∷ b'0' ∷ b'x' ∷ 95 ∷ b'1' ∷ b'F' ∷ []) ≡ some (negsuc 30)
unfolding integer
minus_hex = refl

-- `tbnz w3, #5` back by eight bytes
relative_instruction-target_example :
    Means 4096
      (named tbnz (pos 4088))
      (relative_instruction tbnz (b'w' ∷ b'3' ∷ 44 ∷ 35 ∷ b'5' ∷ 44 ∷ b'q' ∷ []) 4096 (pos 4088))
relative_instruction-target_example =
    relative_instruction-target tbnz (b'w' ∷ b'3' ∷ 44 ∷ 35 ∷ b'5' ∷ 44 ∷ b'q' ∷ []) 4096 (pos 4088)

tbnz_back :
    relative_instruction tbnz (b'w' ∷ b'3' ∷ 44 ∷ 35 ∷ b'5' ∷ 44 ∷ b'q' ∷ []) 4096 (pos 4088)
    ≡ ok 0x372fffc3
unfolding relative_instruction
tbnz_back = refl
