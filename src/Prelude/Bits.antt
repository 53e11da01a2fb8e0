-- ===== src/Prelude/Bits.antt =====
-- The binary digits of numbers, and what `&`, `|` and `^` do to them.
use Prim.Native.Nat.{
  ℕ, zero, suc, ◌+◌, ◌-◌, ◌*◌, ◌/◌, ◌%◌, ◌^◌, ◌≤◌, ◌<◌, min, max, bit_and, bit_or, bit_xor, digits,
  bitwise, differ, bit_and-bitwise, bit_or-bitwise, bit_xor-bitwise,
}
use mathlib.Core.Path.{◌≡◌, refl, ap, ◌∙◌}
use native.Mathlib.Omega.{arith}

-- The digit of the value 2 ^ i.
pub bit : ℕ → ℕ → ℕ
bit zero n = n % 2
bit (suc i) n = bit i (n / 2)

-- An operation on digits, where `z` is what it makes of a number that stands against zero.
module _ (z : ℕ → ℕ) (f : ℕ → ℕ → ℕ) (z_step : (b : ℕ) → z b ≡ z (b / 2) * 2 + f 0 (b % 2)) where
  -- Any count of digits that is not below the first number serves.
  digits_count : (n m a b : ℕ) → a ≤ n → a ≤ m → digits z f n a b ≡ digits z f m a b
  digits_count zero zero a b p q = refl
  digits_count zero (suc m) zero b p q = refl
  digits_count zero (suc m) (suc a) b p q = let absurd : ⊥ = omega arith in elim absurd [ ]
  digits_count (suc n) zero zero b p q = refl
  digits_count (suc n) zero (suc a) b p q = let absurd : ⊥ = omega arith in elim absurd [ ]
  digits_count (suc n) (suc m) zero b p q = refl
  digits_count (suc n) (suc m) (suc a) b p q =
      ap (λ h. h * 2 + f (suc a % 2) (b % 2))
        (digits_count n m (suc a / 2) (b / 2) (omega arith) (omega arith))

  bitwise_step : (a b : ℕ) → bitwise z f a b ≡ bitwise z f (a / 2) (b / 2) * 2 + f (a % 2) (b % 2)
  bitwise_step zero b = z_step b
  bitwise_step (suc a) b =
      ap (λ h. h * 2 + f (suc a % 2) (b % 2))
        (digits_count a (suc a / 2) (suc a / 2) (b / 2) (omega arith) (omega arith))

  -- The digits of the result are the results on the digits.
  bit-bitwise :
      ((x y : ℕ) → x < 2 → y < 2 → f x y < 2)
      → (i a b : ℕ) → bit i (bitwise z f a b) ≡ f (bit i a) (bit i b)
  unfolding bit
  bit-bitwise small zero a b =
      let s : f (a % 2) (b % 2) < 2 = small (a % 2) (b % 2) (omega arith) (omega arith) in
      omega (arith, bitwise_step a b)
  bit-bitwise small (suc i) a b =
      let s : f (a % 2) (b % 2) < 2 = small (a % 2) (b % 2) (omega arith) (omega arith) in
      let half : bitwise z f a b / 2 ≡ bitwise z f (a / 2) (b / 2) =
        omega (arith, bitwise_step a b) in
      ap (bit i) half ∙ bit-bitwise small i (a / 2) (b / 2)

pub bit-bit_and : (i a b : ℕ) → bit i (bit_and a b) ≡ min (bit i a) (bit i b)
bit-bit_and i a b =
    ap (bit i) (bit_and-bitwise a b)
    ∙ bit-bitwise (λ b. 0) min (λ b. omega arith) (λ x y p q. omega arith) i a b

pub bit-bit_or : (i a b : ℕ) → bit i (bit_or a b) ≡ max (bit i a) (bit i b)
bit-bit_or i a b =
    ap (bit i) (bit_or-bitwise a b)
    ∙ bit-bitwise (λ b. b) max (λ b. omega arith) (λ x y p q. omega arith) i a b

differ_lt : (x y : ℕ) → x < 2 → y < 2 → differ x y < 2
differ_lt zero y p q = q
differ_lt (suc zero) zero p q = p
differ_lt (suc zero) (suc zero) p q = omega arith
differ_lt (suc zero) (suc (suc y)) p q = let absurd : ⊥ = omega arith in elim absurd [ ]
differ_lt (suc (suc x)) y p q = let absurd : ⊥ = omega arith in elim absurd [ ]

pub bit-bit_xor : (i a b : ℕ) → bit i (bit_xor a b) ≡ differ (bit i a) (bit i b)
bit-bit_xor i a b =
    ap (bit i) (bit_xor-bitwise a b)
    ∙ bit-bitwise (λ b. b) differ (λ b. omega arith) differ_lt i a b

pub bit_lt : (i n : ℕ) → bit i n < 2
unfolding bit
bit_lt zero n = omega arith
bit_lt (suc i) n = bit_lt i (n / 2)

pub bit-zero : (i : ℕ) → bit i 0 ≡ 0
unfolding bit
bit-zero zero = refl
bit-zero (suc i) = bit-zero i

-- A number below 2 ^ w has no digits from w on.
pub bit-high : (i w n : ℕ) → n < 2 ^ w → w ≤ i → bit i n ≡ 0
unfolding bit
bit-high i zero n h h' = ap (bit i) (omega arith) ∙ bit-zero i
bit-high zero (suc w) n h h' = let absurd : ⊥ = omega arith in elim absurd [ ]
bit-high (suc i) (suc w) n h h' = bit-high i w (n / 2) (omega arith) (omega arith)

pub power_pos : (w : ℕ) → 0 < 2 ^ w
power_pos zero = omega arith
power_pos (suc w) = let h = power_pos w in omega arith

-- 2 ^ w - 1 has every digit below w.
pub bit-ones : (i w : ℕ) → i < w → bit i (2 ^ w - 1) ≡ 1
unfolding bit
bit-ones zero (suc w) h = let p = power_pos w in omega arith
bit-ones (suc i) (suc w) h =
    let p = power_pos w in ap (bit i) (omega arith) ∙ bit-ones i w (omega arith)
bit-ones i zero h = let absurd : ⊥ = omega arith in elim absurd [ ]
