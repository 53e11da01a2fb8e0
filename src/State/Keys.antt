-- ===== src/State/Keys.antt =====
-- The names of the fields that macdbg/core/state.py writes.
use macdbg.Prelude.{ℕ, List, [], ◌∷◌}

abbrev pub key_sha256 : List ℕ
key_sha256 = b's' ∷ b'h' ∷ b'a' ∷ b'2' ∷ b'5' ∷ b'6' ∷ []

abbrev pub key_binary_path : List ℕ
key_binary_path = b'b' ∷ b'i' ∷ b'n' ∷ b'a' ∷ b'r' ∷ b'y' ∷ 95 ∷ b'p' ∷ b'a' ∷ b't' ∷ b'h' ∷ []

abbrev pub key_timing_rules : List ℕ
key_timing_rules =
    b't' ∷ b'i' ∷ b'm' ∷ b'i' ∷ b'n' ∷ b'g' ∷ 95 ∷ b'r' ∷ b'u' ∷ b'l' ∷ b'e' ∷ b's' ∷ []

abbrev pub key_identity_profile : List ℕ
key_identity_profile =
    b'i' ∷ b'd' ∷ b'e' ∷ b'n' ∷ b't' ∷ b'i' ∷ b't' ∷ b'y' ∷ 95 ∷ b'p' ∷ b'r' ∷ b'o' ∷ b'f' ∷ b'i'
    ∷ b'l' ∷ b'e' ∷ []

abbrev pub key_comments : List ℕ
key_comments = b'c' ∷ b'o' ∷ b'm' ∷ b'm' ∷ b'e' ∷ b'n' ∷ b't' ∷ b's' ∷ []

abbrev pub key_bookmarks : List ℕ
key_bookmarks = b'b' ∷ b'o' ∷ b'o' ∷ b'k' ∷ b'm' ∷ b'a' ∷ b'r' ∷ b'k' ∷ b's' ∷ []

abbrev pub key_breakpoints : List ℕ
key_breakpoints = b'b' ∷ b'r' ∷ b'e' ∷ b'a' ∷ b'k' ∷ b'p' ∷ b'o' ∷ b'i' ∷ b'n' ∷ b't' ∷ b's' ∷ []

abbrev pub key_patches : List ℕ
key_patches = b'p' ∷ b'a' ∷ b't' ∷ b'c' ∷ b'h' ∷ b'e' ∷ b's' ∷ []

abbrev pub key_watches : List ℕ
key_watches = b'w' ∷ b'a' ∷ b't' ∷ b'c' ∷ b'h' ∷ b'e' ∷ b's' ∷ []

abbrev pub key_addr : List ℕ
key_addr = b'a' ∷ b'd' ∷ b'd' ∷ b'r' ∷ []

abbrev pub key_symbol : List ℕ
key_symbol = b's' ∷ b'y' ∷ b'm' ∷ b'b' ∷ b'o' ∷ b'l' ∷ []

abbrev pub key_condition : List ℕ
key_condition = b'c' ∷ b'o' ∷ b'n' ∷ b'd' ∷ b'i' ∷ b't' ∷ b'i' ∷ b'o' ∷ b'n' ∷ []

abbrev pub key_commands : List ℕ
key_commands = b'c' ∷ b'o' ∷ b'm' ∷ b'm' ∷ b'a' ∷ b'n' ∷ b'd' ∷ b's' ∷ []

abbrev pub key_enabled : List ℕ
key_enabled = b'e' ∷ b'n' ∷ b'a' ∷ b'b' ∷ b'l' ∷ b'e' ∷ b'd' ∷ []

abbrev pub key_hardware : List ℕ
key_hardware = b'h' ∷ b'a' ∷ b'r' ∷ b'd' ∷ b'w' ∷ b'a' ∷ b'r' ∷ b'e' ∷ []

abbrev pub key_specification : List ℕ
key_specification =
    b's' ∷ b'p' ∷ b'e' ∷ b'c' ∷ b'i' ∷ b'f' ∷ b'i' ∷ b'c' ∷ b'a' ∷ b't' ∷ b'i' ∷ b'o' ∷ b'n' ∷ []

abbrev pub key_orig : List ℕ
key_orig = b'o' ∷ b'r' ∷ b'i' ∷ b'g' ∷ []

abbrev pub key_new : List ℕ
key_new = b'n' ∷ b'e' ∷ b'w' ∷ []

abbrev pub key_slot : List ℕ
key_slot = b's' ∷ b'l' ∷ b'o' ∷ b't' ∷ []

abbrev pub key_length : List ℕ
key_length = b'l' ∷ b'e' ∷ b'n' ∷ b'g' ∷ b't' ∷ b'h' ∷ []

abbrev pub key_label : List ℕ
key_label = b'l' ∷ b'a' ∷ b'b' ∷ b'e' ∷ b'l' ∷ []
