-- ===== src/MachO/Sample.antt =====
-- A small image for the tests of macdbg/core/macho.py and of what reads images.
use macdbg.Prelude.{ℕ, zero, suc, ◌/◌, ◌%◌, List, [], ◌∷◌, ◌++◌}

-- A little-endian number of `width` bytes, and `width` zeros.
abbrev le : ℕ → ℕ → List ℕ
le zero n = []
le (suc width) n = n % 256 ∷ le width (n / 256)

abbrev text_name : List ℕ
text_name = b'_' ∷ b'_' ∷ b't' ∷ b'e' ∷ b'x' ∷ b't' ∷ le 10 0

-- Two load commands: a segment with one section of eight bytes at 200, and a signature.
abbrev pub tiny : List ℕ
tiny =
    le 4 0xfeedfacf
    ++ (le 4 0x100000c
        ++ (le 8 0
            ++ (le 4 2
                ++ (le 4 168
                    ++ (le 8 0
                        ++ (le 4 0x19
                            ++ (le 4 152
                                ++ (text_name
                                    ++ (le 8 0x1000
                                        ++ (le 8 0x100
                                            ++ (le 8 0
                                                ++ (le 8 208
                                                    ++ (le 8 0
                                                        ++ (le 4 1
                                                            ++ (le 4 0
                                                            ++ (text_name
                                                            ++ (text_name
                                                            ++ (le 8 0x10c8
                                                            ++ (le 8 8
                                                            ++ (le 4 200
                                                            ++ le 28 0))))))))))))))))))))
    ++ (le 4 0x1d ++ (le 4 16 ++ (le 8 0 ++ (1 ∷ 2 ∷ 3 ∷ 4 ∷ 5 ∷ 6 ∷ 7 ∷ 8 ∷ []))))
