-- ===== src/State/Hex.antt =====
-- Numbers and bytes in hexadecimal text, as macdbg/core/state.py writes and reads them.
use macdbg.Prelude.{
  ℕ, zero, suc, ◌+◌, ◌*◌, ◌/◌, ◌%◌, ◌≤◌, ◌<◌, ◌≡◌, refl, ◌∙◌, ap, Bool, true, false, ◌&&◌, ◌||◌,
  Option, none, some, List, [], ◌∷◌, ◌++◌, ltb, ◌==◌, if◌then◌else◌, length, All, All-append,
  length-append, arith,
}
use mathlib.Core.Option.{map}
use macdbg.Prelude.Int.{ℤ, pos, negsuc}
use macdbg.Http.Text.{strip, lstrip, rstrip, is_space, is_hex, hex_value}
use macdbg.Assembly.Text.{at_start, after_prefix, after_digit, number_in, negated}

abbrev pub digit : ℕ → ℕ
digit n = if ltb n 10 then n + 48 else n + 87

-- The digits of a number; as many rounds as the number serve.
unfoldable pub digits : (rounds n : ℕ) → List ℕ
digits zero n = digit n ∷ []
digits (suc rounds) n =
    let rest = digits rounds (n / 16) in
    if ltb n 16 then digit n ∷ [] else rest ++ digit (n % 16) ∷ []

-- `'{:#x}'.format(n)`
unfoldable pub format_hex : ℤ → List ℕ
unfolding digits
format_hex (pos n) = 48 ∷ 120 ∷ digits n n
format_hex (negsuc n) = 45 ∷ 48 ∷ 120 ∷ digits (suc n) (suc n)

abbrev pub unsigned16 : List ℕ → Option ℕ
unfolding number_in
unsigned16 (c ∷ d ∷ text) =
    if c == 48 && (d == 120 || d == 88)
    then number_in 16 0 after_prefix text
    else number_in 16 0 at_start (c ∷ d ∷ text)
unsigned16 text = number_in 16 0 at_start text

abbrev pub signed16 : List ℕ → Option ℤ
unfolding number_in
signed16 [] = none
signed16 (c ∷ text) =
    if c == 45
    then map negated (unsigned16 text)
    else if c == 43
    then map pos (unsigned16 text)
    else map pos (unsigned16 (c ∷ text))

-- `int(text, 16)`; `none` for its `ValueError`.
unfoldable pub parse_hex : List ℕ → Option ℤ
unfolding strip number_in
parse_hex text = signed16 (strip is_space text)

-- `data.hex()`
unfoldable pub bytes_hex : List ℕ → List ℕ
bytes_hex [] = []
bytes_hex (c ∷ bytes_left) = digit (c / 16) ∷ digit (c % 16) ∷ bytes_hex bytes_left

-- `bytes.fromhex(text)`: pairs of digits, with space between them; `none` for its `ValueError`.
unfoldable pub from_hex : List ℕ → Option (List ℕ)
from_hex [] = some []
from_hex (c ∷ []) = if is_space c then some [] else none
from_hex (c ∷ d ∷ text) =
    let skipped = from_hex (d ∷ text) in
    let rest = from_hex text in
    if is_space c
    then skipped
    else if is_hex c && is_hex d
    then map (λ bytes_left. (hex_value c * 16 + hex_value d) ∷ bytes_left) rest
    else none

-- The digits of a number below 16.
digit-is_hex : (n : ℕ) → n < 16 → is_hex (digit n) ≡ true
digit-is_hex n h = ground arith

digit-value : (n : ℕ) → n < 16 → hex_value (digit n) ≡ n
digit-value n h = ground arith

is_hex-facts :
    (c : ℕ)
    → is_hex c ≡ true
    → ((c == 95) ≡ false) × (ltb (hex_value c) 16 ≡ true) × (is_space c ≡ false)
is_hex-facts c h = ground arith

-- The value of digits, behind a value of the digits before.
value_of : ℕ → List ℕ → ℕ
value_of v [] = v
value_of v (c ∷ text) = value_of (v * 16 + hex_value c) text

number_in-digits :
    (v : ℕ) (text : List ℕ)
    → All (λ c. (is_hex c ≡ true)) text
    → number_in 16 v after_digit text ≡ some (value_of v text)
unfolding number_in value_of
number_in-digits v [] h = refl
number_in-digits v (c ∷ text) h =
    let (plain, small, others) = is_hex-facts c h.0 in
    rw (plain, h.0, small) (number_in-digits (v * 16 + hex_value c) text h.1)

digits-hex : (rounds n : ℕ) → n ≤ rounds → All (λ c. is_hex c ≡ true) (digits rounds n)
unfolding digits
digits-hex zero n h = (digit-is_hex n (omega arith), tt)
digits-hex (suc rounds) n h = by_test (ltb n 16) refl (digits-hex rounds (n / 16) (omega arith))
  where
    by_test :
        (b : Bool)
        → ltb n 16 ≡ b
        → All (λ c. is_hex c ≡ true) (digits rounds (n / 16))
        → All
            (λ c. is_hex c ≡ true)
            (if b then digit n ∷ [] else digits rounds (n / 16) ++ digit (n % 16) ∷ [])
    by_test true e ih = (digit-is_hex n (ground arith), tt)
    by_test false e ih =
        All-append (λ c. is_hex c ≡ true) (digits rounds (n / 16)) (digit (n % 16) ∷ []) ih
          (digit-is_hex (n % 16) (omega arith), tt)

value_of-last :
    (v : ℕ) (text : List ℕ) (c : ℕ)
    → value_of v (text ++ c ∷ []) ≡ value_of v text * 16 + hex_value c
unfolding value_of
value_of-last v [] c = refl
value_of-last v (d ∷ text) c = value_of-last (v * 16 + hex_value d) text c

digits-value : (rounds n : ℕ) → n ≤ rounds → value_of 0 (digits rounds n) ≡ n
unfolding digits value_of
digits-value zero n h = omega (arith, digit-value n (omega arith))
digits-value (suc rounds) n h = by_test (ltb n 16) refl (digits-value rounds (n / 16) (omega arith))
  where
    by_test :
        (b : Bool)
        → ltb n 16 ≡ b
        → value_of 0 (digits rounds (n / 16)) ≡ n / 16
        → value_of 0 (if b then digit n ∷ [] else digits rounds (n / 16) ++ digit (n % 16) ∷ []) ≡ n
    by_test true e ih = let low = digit-value n (ground arith) in omega (arith, low)
    by_test false e ih =
        let low = digit-value (n % 16) (omega arith) in
        omega (arith, value_of-last 0 (digits rounds (n / 16)) (digit (n % 16)), ih, low)

-- Two digits are read as their byte.
pub from_hex-byte :
    (b : ℕ) (text rest : List ℕ)
    → b < 256
    → from_hex text ≡ some rest
    → from_hex (digit (b / 16) ∷ digit (b % 16) ∷ text) ≡ some (b ∷ rest)
unfolding from_hex
from_hex-byte b text rest h e =
    let high = digit-is_hex (b / 16) (omega (arith, h)) in
    let low = digit-is_hex (b % 16) (omega arith) in
    let hv = digit-value (b / 16) (omega (arith, h)) in
    let lv = digit-value (b % 16) (omega arith) in
    let whole : b / 16 * 16 + b % 16 ≡ b = omega arith in
    let (plain, small, space) = is_hex-facts (digit (b / 16)) high in
    rw (space, high, low, e, hv, lv, whole) refl

pub from_hex-bytes_hex :
    (content : List ℕ) → All (λ c. c < 256) content → from_hex (bytes_hex content) ≡ some content
unfolding bytes_hex from_hex
from_hex-bytes_hex [] h = refl
from_hex-bytes_hex (c ∷ content) h =
    from_hex-byte c (bytes_hex content) content h.0 (from_hex-bytes_hex content h.1)

number_in-start :
    (text : List ℕ)
    → 0 < length text
    → All (λ c. is_hex c ≡ true) text
    → number_in 16 0 after_prefix text ≡ some (value_of 0 text)
unfolding number_in value_of
number_in-start [] some_digit h = let absurd : ⊥ = omega arith in elim absurd [ ]
number_in-start (c ∷ text) some_digit h =
    let (plain, small, space) = is_hex-facts c h.0 in
    rw (plain, h.0, small) (number_in-digits (0 * 16 + hex_value c) text h.1)

digits-length : (rounds n : ℕ) → 0 < length (digits rounds n)
unfolding digits
digits-length zero n = omega arith
digits-length (suc rounds) n = by_test (ltb n 16)
  where
    by_test :
        (b : Bool)
        → 0 < length (if b then digit n ∷ [] else digits rounds (n / 16) ++ digit (n % 16) ∷ [])
    by_test true = omega arith
    by_test false = omega (arith, length-append (digits rounds (n / 16)) (digit (n % 16) ∷ []))

-- Text without space is not stripped.
strip-plain : (text : List ℕ) → All (λ c. is_space c ≡ false) text → strip is_space text ≡ text
unfolding strip
strip-plain text h = ap (rstrip is_space) (lstrip-plain text h) ∙ rstrip-plain text h
  where
    lstrip-plain : (t : List ℕ) → All (λ c. is_space c ≡ false) t → lstrip is_space t ≡ t
    lstrip-plain [] k = refl
    lstrip-plain (c ∷ t) k = rw k.0 refl

    rstrip-plain : (t : List ℕ) → All (λ c. is_space c ≡ false) t → rstrip is_space t ≡ t
    rstrip-plain [] k = refl
    rstrip-plain (c ∷ []) k = rw k.0 refl
    rstrip-plain (c ∷ d ∷ t) k = rw (rstrip-plain (d ∷ t) k.1) refl

hex-plain : (text : List ℕ) → All (λ c. is_hex c ≡ true) text → All (λ c. is_space c ≡ false) text
hex-plain [] h = tt
hex-plain (c ∷ text) h = ((is_hex-facts c h.0).2, hex-plain text h.1)

-- A number is read back from its hexadecimal text.
pub parse_hex-format_hex : (z : ℤ) → parse_hex (format_hex z) ≡ some z
unfolding parse_hex format_hex
parse_hex-format_hex (pos n) =
    let hex = digits-hex n n (omega arith) in
    ap signed16 (strip-plain (48 ∷ 120 ∷ digits n n) (refl, (refl, hex-plain (digits n n) hex)))
    ∙ ap (map pos) (number_in-start (digits n n) (digits-length n n) hex)
    ∙ ap (λ v. some (pos v)) (digits-value n n (omega arith))
parse_hex-format_hex (negsuc n) =
    let hex = digits-hex (suc n) (suc n) (omega arith) in
    ap signed16 (
      strip-plain (45 ∷ 48 ∷ 120 ∷ digits (suc n) (suc n))
        (refl, (refl, (refl, hex-plain (digits (suc n) (suc n)) hex))))
    ∙ ap (map negated)
        (number_in-start (digits (suc n) (suc n)) (digits-length (suc n) (suc n)) hex)
    ∙ ap (λ v. some (negated v)) (digits-value (suc n) (suc n) (omega arith))
