-- ===== src/Assembly/Text.antt =====
-- The methods of `str` and the regular expressions that macdbg/core/assembly.py uses, on text of
-- code points below 256.
use macdbg.Prelude.{
  ℕ, zero, suc, ◌+◌, ◌*◌, Bool, true, false, not, ◌&&◌, ◌||◌, Option, none, some, List, [], ◌∷◌,
  ltb, leb, ◌==◌, if◌then◌else◌, length,
}
use mathlib.Core.Option.{map}
use macdbg.Prelude.Int.{ℤ, pos, negsuc}
use macdbg.Bytes.{same}
use macdbg.Http.Text.{
  split, strip, lstrip, onto_head, all, is_space, is_upper, is_digit, is_hex, hex_value, decimal,
}

-- A key of a dictionary with text keys, where a later entry stands in front.
unfoldable pub lookup {ℓ} : {A : Type ℓ} → List ℕ → List (List ℕ × A) → Option A
lookup key [] = none
lookup key ((name, value) ∷ entries) =
    let rest = lookup key entries in if same key name then some value else rest

unfoldable pub has_key {ℓ} : {A : Type ℓ} → List ℕ → List (List ℕ × A) → Bool
has_key key [] = false
has_key key ((name, value) ∷ entries) = same key name || has_key key entries

-- The characters that `splitlines()` ends a line at, but for the pair of 13 and 10.
abbrev pub is_line_end : ℕ → Bool
is_line_end c = leb 10 c && leb c 13 || leb 28 c && leb c 30 || c == 133

-- `text.splitlines()`
unfoldable pub splitlines : List ℕ → List (List ℕ)
splitlines [] = []
splitlines (c ∷ []) = if is_line_end c then [] ∷ [] else (c ∷ []) ∷ []
splitlines (c ∷ d ∷ text) = elim (c == 13 && d == 10) [
  | true ↦ [] ∷ splitlines text
  | false ↦
      let rest = splitlines (d ∷ text) in if is_line_end c then [] ∷ rest else onto_head c rest
]

-- `raw.split('//', 1)[0]`
unfoldable pub before_comment : List ℕ → List ℕ
before_comment [] = []
before_comment (c ∷ []) = c ∷ []
before_comment (c ∷ d ∷ text) =
    let rest = before_comment (d ∷ text) in if c == 47 && d == 47 then [] else c ∷ rest

abbrev pub is_letter : ℕ → Bool
is_letter c = is_upper c || leb b'a' c && leb c b'z'

-- `\w`
abbrev pub is_word : ℕ → Bool
is_word c =
    is_letter c
    || is_digit c
    || c == 95
    || c == 170
    || c == 178
    || c == 179
    || c == 181
    || leb 185 c && leb c 190 && not (c == 187)
    || leb 192 c && leb c 255 && not (c == 215) && not (c == 247)

-- `\w*:` in full: what stands before the colon.
unfoldable pub word_colon : List ℕ → Option (List ℕ)
word_colon [] = none
word_colon (c ∷ []) = if c == 58 then some [] else none
word_colon (c ∷ d ∷ text) =
    let rest = word_colon (d ∷ text) in if is_word c then map (λ name. c ∷ name) rest else none

-- `[A-Za-z_]\w*:` in full: the name, `line[:-1]`.
unfoldable pub label_name : List ℕ → Option (List ℕ)
unfolding word_colon
label_name [] = none
label_name (c ∷ text) =
    if is_letter c || c == 95 then map (λ name. c ∷ name) (word_colon text) else none

-- `line.split(None, 1)` of a line without space at its ends: the first word and what follows.
unfoldable pub first_word : List ℕ → List ℕ × List ℕ
unfolding lstrip
first_word [] = ([], [])
first_word (c ∷ text) =
    let (word, rest) = first_word text in
    if is_space c then ([], lstrip is_space text) else (c ∷ word, rest)

-- `[x.strip() for x in operands.split(',')]`
unfoldable pub fields_of : List (List ℕ) → List (List ℕ)
unfolding strip
fields_of [] = []
fields_of (x ∷ xs) = strip is_space x ∷ fields_of xs

unfoldable pub fields : List ℕ → List (List ℕ)
unfolding fields_of split
fields operands = fields_of (split 44 operands)

-- `xs[0]` and `xs[-1]` of a list that is not empty.
unfoldable pub first : List (List ℕ) → List ℕ
first [] = []
first (x ∷ xs) = x

unfoldable pub last : List (List ℕ) → List ℕ
last [] = []
last (x ∷ []) = x
last (x ∷ y ∷ xs) = last (y ∷ xs)

-- `[…](\d+)` in full: the letter and the number.
unfoldable pub numbered : (ℕ → Bool) → List ℕ → Option (ℕ × ℕ)
unfolding all decimal
numbered letters [] = none
numbered letters (c ∷ digits) =
    if letters c && ltb 0 (length digits) && all is_digit digits
    then some (c, decimal 0 digits)
    else none

-- Where a character of a number may stand: behind nothing, behind the prefix of a base, a digit or
-- an underscore.
pub data Place : Type 0 where
  at_start after_prefix after_digit after_underscore : Place

abbrev pub may_underscore : Place → Bool
may_underscore after_prefix = true
may_underscore after_digit = true
may_underscore _ = false

-- The digits of a number in a base, with single underscores between them.
unfoldable pub number_in : (base value : ℕ) → Place → List ℕ → Option ℕ
number_in base value after_digit [] = some value
number_in base value _ [] = none
number_in base value place (c ∷ text) =
    let skipped = number_in base value after_underscore text in
    let taken = number_in base (value * base + hex_value c) after_digit text in
    if c == 95 && may_underscore place
    then skipped
    else if is_hex c && ltb (hex_value c) base
    then taken
    else none

-- A decimal number that begins with a zero is zero.
abbrev pub only_zero : Option ℕ → Option ℕ
only_zero (some zero) = some 0
only_zero _ = none

unfoldable pub unsigned : List ℕ → Option ℕ
unfolding number_in
unsigned (c ∷ d ∷ text) =
    if c == 48 && (d == 120 || d == 88)
    then number_in 16 0 after_prefix text
    else if c == 48 && (d == 111 || d == 79)
    then number_in 8 0 after_prefix text
    else if c == 48 && (d == 98 || d == 66)
    then number_in 2 0 after_prefix text
    else if c == 48
    then only_zero (number_in 10 0 at_start (c ∷ d ∷ text))
    else number_in 10 0 at_start (c ∷ d ∷ text)
unsigned text = number_in 10 0 at_start text

abbrev pub negated : ℕ → ℤ
negated zero = pos 0
negated (suc n) = negsuc n

unfoldable pub with_sign : List ℕ → Option ℤ
unfolding unsigned
with_sign [] = none
with_sign (c ∷ text) =
    if c == 45
    then map negated (unsigned text)
    else if c == 43
    then map pos (unsigned text)
    else map pos (unsigned (c ∷ text))

-- `int(text, 0)`; `none` for its `ValueError`.
unfoldable pub integer : List ℕ → Option ℤ
unfolding strip with_sign
integer text = with_sign (strip is_space text)
