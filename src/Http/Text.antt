-- ===== src/Http/Text.antt =====
-- The bytes methods and regular expressions that macdbg/core/http_capture.py uses.
use macdbg.Prelude.{
  ℕ, suc, ◌+◌, ◌-◌, ◌*◌, Bool, true, false, not, ◌&&◌, ◌||◌, Option, none, some, List, [], ◌∷◌, ltb,
  leb, ◌==◌, if◌then◌else◌, length,
}

abbrev pub crlf : List ℕ
crlf = 13 ∷ 10 ∷ []

abbrev pub blank_line : List ℕ
blank_line = 13 ∷ 10 ∷ 13 ∷ 10 ∷ []

-- `text.startswith(prefix)`
unfoldable pub starts : (prefix text : List ℕ) → Bool
starts [] text = true
starts (p ∷ prefix) [] = false
starts (p ∷ prefix) (c ∷ text) = p == c && starts prefix text

abbrev pub shifted : Option ℕ → Option ℕ
shifted none = none
shifted (some i) = some (suc i)

-- `text.find(part)`, for a part that is not empty; `none` for -1.
unfoldable pub find : (part text : List ℕ) → Option ℕ
unfolding starts
find part [] = none
find part (c ∷ text) = if starts part (c ∷ text) then some 0 else shifted (find part text)

abbrev pub longer : ℕ → Option (List ℕ × List ℕ) → Option (List ℕ × List ℕ)
longer c none = none
longer c (some (before, after)) = some (c ∷ before, after)

-- `text.split(byte, 1)` where the byte occurs: what stands before it and what stands behind it.
unfoldable pub cut : ℕ → List ℕ → Option (List ℕ × List ℕ)
cut byte [] = none
cut byte (c ∷ text) = if c == byte then some ([], text) else longer c (cut byte text)

-- `text.partition(b"\r\n")` where the separator occurs.
unfoldable pub cut_line : List ℕ → Option (List ℕ × List ℕ)
cut_line [] = none
cut_line (c ∷ []) = none
cut_line (c ∷ d ∷ text) =
    if c == 13 && d == 10 then some ([], text) else longer c (cut_line (d ∷ text))

abbrev pub onto_head : ℕ → List (List ℕ) → List (List ℕ)
onto_head c [] = (c ∷ []) ∷ []
onto_head c (line ∷ lines) = (c ∷ line) ∷ lines

-- `text.split(byte)`
unfoldable pub split : ℕ → List ℕ → List (List ℕ)
split byte [] = [] ∷ []
split byte (c ∷ text) =
    let rest = split byte text in if c == byte then [] ∷ rest else onto_head c rest

-- `text.split(b"\r\n")`
unfoldable pub split_lines : List ℕ → List (List ℕ)
split_lines [] = [] ∷ []
split_lines (c ∷ []) = (c ∷ []) ∷ []
split_lines (c ∷ d ∷ text) = elim (c == 13 && d == 10) [
  | true ↦ [] ∷ split_lines text
  | false ↦ onto_head c (split_lines (d ∷ text))
]

-- `lines[:-1]`
unfoldable pub but_last {ℓ} : {A : Type ℓ} → List A → List A
but_last [] = []
but_last (x ∷ []) = []
but_last (x ∷ y ∷ rest) = x ∷ but_last (y ∷ rest)

-- `text.lstrip(…)`, `text.rstrip(…)` and `text.strip(…)` for a set of characters.
unfoldable pub lstrip : (ℕ → Bool) → List ℕ → List ℕ
lstrip blank [] = []
lstrip blank (c ∷ text) = let rest = lstrip blank text in if blank c then rest else c ∷ text

unfoldable pub rstrip : (ℕ → Bool) → List ℕ → List ℕ
rstrip blank [] = []
rstrip blank (c ∷ text) = elim (rstrip blank text) [
  | [] ↦ if blank c then [] else c ∷ []
  | d ∷ rest ↦ c ∷ d ∷ rest
]

unfoldable pub strip : (ℕ → Bool) → List ℕ → List ℕ
unfolding lstrip rstrip
strip blank text = rstrip blank (lstrip blank text)

-- The characters that `strip(" \t")` removes, and the Latin-1 ones that `strip()` does.
abbrev pub is_tab_or_space : ℕ → Bool
is_tab_or_space c = c == 32 || c == 9

abbrev pub is_space : ℕ → Bool
is_space c = leb 9 c && leb c 13 || leb 28 c && leb c 32 || c == 133 || c == 160

abbrev pub is_upper : ℕ → Bool
is_upper c = leb b'A' c && leb c b'Z'

abbrev pub is_digit : ℕ → Bool
is_digit c = leb b'0' c && leb c b'9'

-- `text.lower()` of Latin-1 text.
unfoldable pub lower : List ℕ → List ℕ
lower [] = []
lower (c ∷ text) =
    (if is_upper c || leb 192 c && leb c 222 && not (c == 215) then c + 32 else c) ∷ lower text

unfoldable pub all {ℓ} : {A : Type ℓ} → (A → Bool) → List A → Bool
all test [] = true
all test (x ∷ xs) = test x && all test xs

unfoldable pub any {ℓ} : {A : Type ℓ} → (A → Bool) → List A → Bool
any test [] = false
any test (x ∷ xs) = test x || any test xs

-- `_TOKEN`: one character of the set or more.
unfoldable pub is_token_char : ℕ → Bool
is_token_char c =
    is_upper c
    || leb b'a' c && leb c b'z'
    || is_digit c
    || c == 33
    || leb 35 c && leb c 39
    || c == 42
    || c == 43
    || c == 45
    || c == 46
    || leb 94 c && leb c 96
    || c == 124
    || c == 126

unfoldable pub is_token : List ℕ → Bool
unfolding all is_token_char
is_token text = ltb 0 (length text) && all is_token_char text

-- `int(text)` of decimal digits.
unfoldable pub decimal : ℕ → List ℕ → ℕ
decimal n [] = n
decimal n (c ∷ text) = decimal (n * 10 + (c - b'0')) text

-- `[0-9a-fA-F]`, and `int(text, 16)` of such characters.
abbrev pub is_hex : ℕ → Bool
is_hex c = is_digit c || leb b'a' c && leb c b'f' || leb b'A' c && leb c b'F'

abbrev pub hex_value : ℕ → ℕ
hex_value c = if is_digit c then c - b'0' else if leb b'a' c then c - 87 else c - 55

unfoldable pub hexadecimal : ℕ → List ℕ → ℕ
hexadecimal n [] = n
hexadecimal n (c ∷ text) = hexadecimal (n * 16 + hex_value c) text
