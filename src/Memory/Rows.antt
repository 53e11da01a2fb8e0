-- ===== src/Memory/Rows.antt =====
-- What the rows of macdbg/core/memory.py show.
use macdbg.Prelude.{
  ℕ, zero, suc, ◌+◌, ◌-◌, ◌*◌, ◌≤◌, ◌<◌, ◌≡◌, refl, ◌∙◌, ap, false, Option, none, some, List, [],
  ◌∷◌, ◌++◌, ◌==◌, length, length-append, length-take, length-drop, take, drop, take-append-drop,
  map, All, arith,
}
use macdbg.State.Hex.{from_hex, from_hex-byte}
use macdbg.Memory.{Row, hex_text, spaces, shown, dump_row, rows_from, hexdump_rows}

from_hex-spaces : (n : ℕ) → from_hex (spaces n) ≡ some []
unfolding from_hex
from_hex-spaces zero = refl
from_hex-spaces (suc zero) = refl
from_hex-spaces (suc (suc n)) = from_hex-spaces (suc n)

from_hex-space : (text : List ℕ) → from_hex (32 ∷ text) ≡ from_hex text
unfolding from_hex
from_hex-space [] = refl
from_hex-space (c ∷ text) = refl

from_hex-hex_text :
    (chunk : List ℕ) (n : ℕ)
    → All (λ b. b < 256) chunk
    → from_hex (hex_text chunk ++ spaces n) ≡ some chunk
unfolding hex_text
from_hex-hex_text [] n h = from_hex-spaces n
from_hex-hex_text (b ∷ []) n h = from_hex-byte b (spaces n) [] h.0 (from_hex-spaces n)
from_hex-hex_text (b ∷ c ∷ chunk) n h =
    from_hex-byte b _ (c ∷ chunk) h.0 (from_hex-space _ ∙ from_hex-hex_text (c ∷ chunk) n h.1)

length-hex_text : (chunk : List ℕ) → length (hex_text chunk) ≡ length chunk * 3 - 1
unfolding hex_text
length-hex_text [] = refl
length-hex_text (b ∷ []) = refl
length-hex_text (b ∷ c ∷ chunk) =
    let rest : length (hex_text (c ∷ chunk)) ≡ length (c ∷ chunk) * 3 - 1 =
      length-hex_text (c ∷ chunk) in
    omega arith

length-spaces : (n : ℕ) → length (spaces n) ≡ n
length-spaces zero = refl
length-spaces (suc n) = ap suc (length-spaces n)

length-map : (chunk : List ℕ) → length (map shown chunk) ≡ length chunk
length-map [] = refl
length-map (b ∷ chunk) = ap suc (length-map chunk)

All-take :
    (n : ℕ) (content : List ℕ) → All (λ b. b < 256) content → All (λ b. b < 256) (take n content)
All-take zero content h = tt
All-take (suc n) [] h = tt
All-take (suc n) (b ∷ content) h = (h.0, All-take n content h.1)

All-drop :
    (n : ℕ) (content : List ℕ) → All (λ b. b < 256) content → All (λ b. b < 256) (drop n content)
All-drop zero content h = h
All-drop (suc n) [] h = h
All-drop (suc n) (b ∷ content) h = All-drop n content h.1

-- The bytes that the hexadecimal parts of rows are read as.
abbrev pub both : Option (List ℕ) → Option (List ℕ) → Option (List ℕ)
both (some xs) (some ys) = some (xs ++ ys)
both _ _ = none

unfoldable pub read_rows : List Row → Option (List ℕ)
unfolding from_hex
read_rows [] = some []
read_rows (r ∷ rows) = both (from_hex r.hex_part) (read_rows rows)

-- Rows that follow each other, all of one width but for their characters, of which there are at most so many.
abbrev pub Aligned : (width address : ℕ) → List Row → Type 0
Aligned width address [] = Unit
Aligned width address (r ∷ rows) =
    (r.address ≡ address)
    × (length r.hex_part ≡ width * 3 - 1)
    × (length r.ascii_part ≤ width)
    × Aligned width (address + width) rows

rows_from-read :
    (rounds width address : ℕ) (content : List ℕ)
    → 0 < width
    → length content ≤ rounds
    → All (λ b. b < 256) content
    → (read_rows (rows_from rounds width address content) ≡ some content)
      × Aligned width address (rows_from rounds width address content)
unfolding rows_from read_rows dump_row
rows_from-read zero width address [] wide enough small = (refl, tt)
rows_from-read zero width address (b ∷ content) wide enough small =
    let absurd : ⊥ = omega arith in elim absurd [ ]
rows_from-read (suc rounds) width address [] wide enough small = (refl, tt)
rows_from-read (suc rounds) width address (b ∷ content) wide enough small =
    let rest =
      rows_from-read rounds width (address + width) (drop width (b ∷ content)) wide
        (omega (arith, length-drop width (b ∷ content))) (All-drop width (b ∷ content) small) in
    let chunk : List ℕ = take width (b ∷ content) in
    let shorter : length chunk ≤ width = omega (arith, length-take width (b ∷ content)) in
    let some_left : (length (b ∷ content) == 0) ≡ false = ground arith in
    rw some_left (
      rw
          (
            from_hex-hex_text chunk (width * 3 - 1 - length (hex_text chunk))
                (All-take width (b ∷ content) small),
            rest.0,
          )
          (ap some (take-append-drop width (b ∷ content))),
      (
        refl,
        omega (
          arith,
          length-append (hex_text chunk) (spaces (width * 3 - 1 - length (hex_text chunk))),
          length-spaces (width * 3 - 1 - length (hex_text chunk)),
          length-hex_text chunk,
          shorter,
        ),
        omega (arith, length-map chunk, shorter),
        rest.1,
      ),
    )

-- A hexdump of bytes, in rows of at least one byte, shows all of them: what its hexadecimal parts are read
-- as, one row after the other, is the content. Its rows are at the base address and a width further each, their
-- hexadecimal parts are all of the length of a full row, and their characters are at most as many as the width.
pub hexdump_rows-Aligned :
    (content : List ℕ) (base_addr width : ℕ)
    → 0 < width
    → All (λ b. b < 256) content
    → (read_rows (hexdump_rows content base_addr width) ≡ some content)
      × Aligned width base_addr (hexdump_rows content base_addr width)
unfolding hexdump_rows
hexdump_rows-Aligned content base_addr width wide small =
    rows_from-read (length content) width base_addr content wide (omega arith) small
