-- ===== src/Assembly/Program.antt =====
-- What `assemble` of macdbg/core/assembly.py returns.
use macdbg.Prelude.{ℕ, ◌*◌, ◌≤◌, ◌≡◌, List, length}
use macdbg.Bytes.{le_field}
use macdbg.Assembly.{Listing, Resolver}
use macdbg.Assembly.Lines.{Spaced, AreLines}

-- The bytes that are returned for a listing: four for each of its 1 to 256 lines, which stand four
-- bytes apart from `address` on, and whose encoded instructions read as they mean.
abbrev pub Assembled : (address : ℕ) → Resolver → Listing → List ℕ → Type 0
Assembled address resolve listing code =
    Spaced address 0 listing.lines
    × (1 ≤ length listing.lines)
    × (length listing.lines ≤ 256)
    × (length code ≡ length listing.lines * 4)
    × AreLines resolve listing.labels (λ i. le_field (i * 4) 4 code) 0 listing.lines
