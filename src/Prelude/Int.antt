-- ===== src/Prelude/Int.antt =====
-- Signed integers over the native numbers, with Python's floor division, masks and comparisons.
use Prim.Native.Nat.{ℕ, suc, ◌+◌, ◌-◌, ◌*◌, ◌/◌, ◌%◌, ◌<◌}
use mathlib.Core.Path.{◌≡◌, refl, ap}
use mathlib.Core.Bool.{Bool, true, false}
use native.Mathlib.Omega.{arith}
use native.Mathlib.Nat.{mod-lt, mod-eq_of_lt}
use macdbg.Prelude.Tests.{ltb, leb, if◌then◌else◌}

-- `negsuc n` is -(n + 1).
pub data ℤ : Type 0 where
  pos negsuc : ℕ → ℤ

abbrev pub pos_part : ℤ → ℕ
pos_part (pos n) = n
pos_part (negsuc n) = 0

abbrev pub neg_part : ℤ → ℕ
neg_part (pos n) = 0
neg_part (negsuc n) = suc n

-- a - b, as an integer.
abbrev pub sub_ℕ : ℕ → ℕ → ℤ
sub_ℕ a b = if leb b a then pos (a - b) else negsuc (b - a - 1)

infixl 65 ◌+ℤ◌
unfoldable pub ◌+ℤ◌ : ℤ → ℤ → ℤ
a +ℤ b = sub_ℕ (pos_part a + pos_part b) (neg_part a + neg_part b)

-- `a - b` for a number `b`.
infixl 65 ◌-ℕ◌
unfoldable pub ◌-ℕ◌ : ℤ → ℕ → ℤ
a -ℕ b = sub_ℕ (pos_part a) (neg_part a + b)

-- `a // k` and `a >> w` for `k = 2 ^ w`, which round down.
abbrev pub floor_div : ℤ → ℕ → ℤ
floor_div (pos n) k = pos (n / k)
floor_div (negsuc n) k = negsuc (n / k)

-- `a % k`, and `a & (k - 1)` for a power of two `k`.
abbrev pub wrap : ℕ → ℤ → ℕ
wrap k (pos n) = n % k
wrap k (negsuc n) = k - 1 - n % k

-- `-(half) <= a < half`
abbrev pub fits : ℕ → ℤ → Bool
fits half (pos n) = ltb n half
fits half (negsuc n) = ltb n half

-- The number of two's complement that a field of `2 * half` values stands for.
abbrev pub signed : ℕ → ℕ → ℤ
signed half field = if ltb field half then pos field else negsuc (2 * half - 1 - field)

-- `k * a`
abbrev pub times : ℕ → ℤ → ℤ
times k (pos n) = pos (k * n)
times k (negsuc n) = negsuc (k * n + (k - 1))

-- A number that fits comes back from its field.
pub signed-wrap : (half : ℕ) (a : ℤ) → fits half a ≡ true → signed half (wrap (2 * half) a) ≡ a
signed-wrap half (pos n) h =
    let small : n < half = ground arith in
    let same : n % (2 * half) ≡ n = mod-eq_of_lt (omega arith) in
    let test : ltb n half ≡ true = ground arith in rw (same, test) refl
signed-wrap half (negsuc n) h =
    let small : n < half = ground arith in
    let same : n % (2 * half) ≡ n = mod-eq_of_lt (omega arith) in
    let test : ltb (2 * half - 1 - n) half ≡ false = ground arith in
    let back : 2 * half - 1 - (2 * half - 1 - n) ≡ n = omega arith in rw (same, test, back) refl

pub wrap_lt : (k : ℕ) (a : ℤ) → 0 < k → wrap k a < k
wrap_lt k (pos n) h = mod-lt n h
wrap_lt k (negsuc n) h = omega arith

pub add-sub : (b : ℕ) (a : ℤ) → pos b +ℤ (a -ℕ b) ≡ a
unfolding ◌+ℤ◌ ◌-ℕ◌
add-sub b (pos n) = ground arith
add-sub b (negsuc n) = ground arith

pub times-floor_div4 : (a : ℤ) → wrap 4 a ≡ 0 → times 4 (floor_div a 4) ≡ a
times-floor_div4 (pos n) h = ap pos (omega arith)
times-floor_div4 (negsuc n) h = ap negsuc (omega arith)
