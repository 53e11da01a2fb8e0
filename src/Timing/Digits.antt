-- ===== src/Timing/Digits.antt =====
-- The digits of `rewritten_value` in macdbg/core/timing.py.
use macdbg.Prelude.{
  ℕ, zero, suc, ◌-◌, ◌^◌, ◌≤◌, ◌<◌, min, max, ◌≡◌, refl, sym, ◌∙◌, ap, Bool, true, false, not, ◌&&◌,
  ◌||◌, ltb, leb, ◌==◌, if◌then◌else◌, arith, ltb-false→le, Result, ok, err,
}
use Prim.Native.Nat.{bit_and, bit_xor, differ}
use macdbg.Prelude.Int.{pos}
use macdbg.Prelude.Bits.{
  bit, bit-bit_and, bit-bit_or, bit-bit_xor, bit_lt, bit-zero, bit-high, bit-ones, power_pos,
}
use macdbg.Timing.Rules.{Problem, rewritten_value, bad_value}

-- The digit that a rule means: that of the value in the mask, the old one elsewhere, and none
-- beyond the register.
pub chosen : (old value mask bits i : ℕ) → ℕ
chosen old value mask bits i =
    if ltb i bits then (if bit i mask == 1 then bit i value else bit i old) else 0

guards :
    (value mask limit : ℕ) (b : Bool)
    → (not (leb value limit) || not (ltb 0 mask && leb mask limit) || not (b)) ≡ false
    → (value ≤ limit) × (mask ≤ limit) × (b ≡ true)
guards value mask limit b h = ground arith

digit_chosen :
    (o v m l : ℕ)
    → o < 2
    → v < 2
    → m < 2
    → l ≡ 1
    → min v (differ l m) ≡ 0
    → max (min o (differ l m)) v ≡ (if m == 1 then v else o)
digit_chosen o v zero l ho hv hm e h = let empty : min v 1 ≡ 0 = rw e at h in rw e (omega arith)
digit_chosen o v (suc zero) l ho hv hm e h = rw e (omega arith)
digit_chosen o v (suc (suc m)) l ho hv hm e h = let absurd : ⊥ = omega arith in elim absurd [ ]

-- A test that did not raise is false, and what is returned is the value.
unless-ok :
    (b : Bool) (e : Problem) {x y : ℕ}
    → ◌≡◌ {A = Result Problem ℕ} (if b then err e else ok x) (ok y)
    → (b ≡ false) × (x ≡ y)
unless-ok true e h = cc
unless-ok false e h = (refl, cc)

-- Where `rewritten_value` accepts a value and a mask for a register of some bits, it changes the
-- digits in the mask to those of the value, leaves the register's other digits, and clears those
-- beyond the register.
pub rewritten_value-digits :
    (old value mask bits : ℕ) {new : ℕ}
    → rewritten_value old (pos value) (pos mask) bits ≡ ok new
    → (i : ℕ) → bit i new ≡ chosen old value mask bits i
unfolding rewritten_value chosen
rewritten_value-digits old value mask bits {new} h i =
    let limit = 2 ^ bits - 1 in
    let (guard, e) = unless-ok _ bad_value h in
    let (low, high, outside) =
      guards value mask (2 ^ bits - 1) (bit_and value (bit_xor (2 ^ bits - 1) mask) == 0) guard in
    let digits : bit i new
        ≡ max (min (bit i old) (differ (bit i (2 ^ bits - 1)) (bit i mask))) (bit i value) =
      ap (bit i) (sym e)
      ∙ bit-bit_or i (bit_and old (bit_xor limit mask)) value
      ∙ ap (λ d. max d (bit i value)) (bit-bit_and i old (bit_xor limit mask))
      ∙ ap (λ d. max (min (bit i old) d) (bit i value)) (bit-bit_xor i limit mask) in
    let apart : min (bit i value) (differ (bit i (2 ^ bits - 1)) (bit i mask)) ≡ 0 =
      sym (ap (λ d. min (bit i value) d) (bit-bit_xor i limit mask))
      ∙ sym (bit-bit_and i value (bit_xor limit mask))
      ∙ ap (bit i) (ground arith)
      ∙ bit-zero i in
    digits ∙ by_place (ltb i bits) refl low high apart
  where
    by_place :
        (b : Bool)
        → ltb i bits ≡ b
        → value ≤ 2 ^ bits - 1
        → mask ≤ 2 ^ bits - 1
        → min (bit i value) (differ (bit i (2 ^ bits - 1)) (bit i mask)) ≡ 0
        → max (min (bit i old) (differ (bit i (2 ^ bits - 1)) (bit i mask))) (bit i value)
          ≡ (if b then if bit i mask == 1 then bit i value else bit i old else 0)
    by_place true e low high apart =
        digit_chosen (bit i old) (bit i value) (bit i mask) (bit i (2 ^ bits - 1)) (bit_lt i old)
          (bit_lt i value) (bit_lt i mask) (bit-ones i bits (ground arith)) apart
    by_place false e low high apart =
        let some_digit = power_pos bits in
        let far : bits ≤ i = ltb-false→le i bits e in
        let v : bit i value ≡ 0 = bit-high i bits value (omega arith) far in
        let m : bit i mask ≡ 0 = bit-high i bits mask (omega arith) far in
        let l : bit i (2 ^ bits - 1) ≡ 0 = bit-high i bits (2 ^ bits - 1) (omega arith) far in
        rw (v, m, l) (omega arith)
