-- ===== src/Assembly/Targets.antt =====
-- The words of `relative_instruction` in macdbg/core/assembly.py, read back by the encodings of the
-- architecture.
use macdbg.Prelude.{
  ℕ, not, ◌∙◌, ◌+◌, ◌*◌, ◌/◌, ◌%◌, ◌<◌, ◌≡◌, refl, Bool, true, false, ◌&&◌, ◌||◌, Option, none,
  some, ◌==◌, if◌then◌else◌, arith, ap,
}
use macdbg.Prelude.Int.{ℤ, pos, ◌+ℤ◌, times, signed}

-- The address that an instruction word at `pc` names, by the architecture's encodings: the branches
-- with 26, 19 and 14 bits, the literal loads with 19, and the addresses with 21.
pub target : (pc word : ℕ) → Option ℤ
target pc word =
    if word / 67108864 % 32 == 5
    then some (pos pc +ℤ times 4 (signed 33554432 (word % 67108864)))
    else if word / 16777216 == 84
        || word / 33554432 % 64 == 26
        || word / 134217728 % 8 == 3 && word / 16777216 % 4 == 0
    then some (pos pc +ℤ times 4 (signed 262144 (word / 32 % 524288)))
    else if word / 33554432 % 64 == 27
    then some (pos pc +ℤ times 4 (signed 8192 (word / 32 % 16384)))
    else if word / 16777216 % 32 == 16
    then (let field = signed 1048576 (word / 536870912 % 4 + 4 * (word / 32 % 524288)) in
        if word / 2147483648 == 0
        then some (pos pc +ℤ field)
        else some (times 4096 (pos (pc / 4096) +ℤ field)))
    else none

-- A word of 19 bits at bit 5, below eight bits that are read as one of these instructions.
abbrev pub is_imm19 : ℕ → Bool
is_imm19 k = k == 84 || k / 2 % 64 == 26 || k / 8 % 8 == 3 && k % 4 == 0

pub target-imm19 :
    (pc k f c : ℕ)
    → f < 524288
    → c < 32
    → (k / 4 % 32 == 5) ≡ false
    → is_imm19 k ≡ true
    → target pc (k * 16777216 + f * 32 + c) ≡ some (pos pc +ℤ times 4 (signed 262144 f))
unfolding target
target-imm19 pc k f c h h' e e' =
    let jump : (k * 16777216 + f * 32 + c) / 67108864 % 32 ≡ k / 4 % 32 = omega arith in
    let top : (k * 16777216 + f * 32 + c) / 16777216 ≡ k = omega arith in
    let seven : (k * 16777216 + f * 32 + c) / 33554432 % 64 ≡ k / 2 % 64 = omega arith in
    let load : (k * 16777216 + f * 32 + c) / 134217728 % 8 ≡ k / 8 % 8 = omega arith in
    let field : (k * 16777216 + f * 32 + c) / 32 % 524288 ≡ f = omega arith in
    rw (jump, top, seven, load, field, e, e') refl

pub target-imm26 :
    (pc k f : ℕ)
    → f < 67108864
    → (k % 32 == 5) ≡ true
    → target pc (k * 67108864 + f) ≡ some (pos pc +ℤ times 4 (signed 33554432 f))
unfolding target
target-imm26 pc k f h e =
    let top : (k * 67108864 + f) / 67108864 % 32 ≡ k % 32 = omega arith in
    let field : (k * 67108864 + f) % 67108864 ≡ f = omega arith in rw (top, field, e) refl

-- A test of the bit `b` and `x * 32`: 14 bits at bit 5.
pub target-imm14 :
    (pc k b f c : ℕ)
    → b < 32
    → f < 16384
    → c < 32
    → (k / 4 % 32 == 5) ≡ false
    → is_imm19 k ≡ false
    → (k / 2 % 64 == 27) ≡ true
    → target pc (k * 16777216 + b * 524288 + f * 32 + c) ≡ some (pos pc +ℤ times 4 (signed 8192 f))
unfolding target
target-imm14 pc k b f c hb hf hc e e' e'' =
    let jump : (k * 16777216 + b * 524288 + f * 32 + c) / 67108864 % 32 ≡ k / 4 % 32 =
      omega arith in
    let top : (k * 16777216 + b * 524288 + f * 32 + c) / 16777216 ≡ k = omega arith in
    let seven : (k * 16777216 + b * 524288 + f * 32 + c) / 33554432 % 64 ≡ k / 2 % 64 =
      omega arith in
    let load : (k * 16777216 + b * 524288 + f * 32 + c) / 134217728 % 8 ≡ k / 8 % 8 = omega arith in
    let field : (k * 16777216 + b * 524288 + f * 32 + c) / 32 % 16384 ≡ f = omega arith in
    rw (jump, top, seven, load, field, e, e', e'') refl

-- The address of 21 bits, by the page or not.
abbrev pub addressed : (page : Bool) → (pc : ℕ) → ℤ → ℤ
addressed false pc delta = pos pc +ℤ delta
addressed true pc delta = times 4096 (pos (pc / 4096) +ℤ delta)

-- The word with the low two bits `l` and the high ones `h` of the address.
abbrev address_bits : (p l h c : ℕ) → ℕ
address_bits p l h c = p * 2147483648 + 268435456 + l * 536870912 + h * 32 + c

target-address_bits :
    (pc p l h c : ℕ)
    → p < 2
    → l < 4
    → h < 524288
    → c < 32
    → target pc (address_bits p l h c)
      ≡ some (addressed (not (p == 0)) pc (signed 1048576 (l + 4 * h)))
unfolding target
target-address_bits pc p l h c hp hl hh hc =
    let jump : (address_bits p l h c / 67108864 % 32 == 5) ≡ false = ground arith in
    let condition : (address_bits p l h c / 16777216 == 84) ≡ false = ground arith in
    let compare : (address_bits p l h c / 33554432 % 64 == 26) ≡ false = ground arith in
    let test : (address_bits p l h c / 33554432 % 64 == 27) ≡ false = ground arith in
    let load : (address_bits p l h c / 134217728 % 8 == 3) ≡ false = ground arith in
    let address : address_bits p l h c / 16777216 % 32 ≡ 16 = omega arith in
    let page : address_bits p l h c / 2147483648 ≡ p = omega arith in
    let low : address_bits p l h c / 536870912 % 4 ≡ l = omega arith in
    let high : address_bits p l h c / 32 % 524288 ≡ h = omega arith in
    rw (jump, condition, compare, test, load, address, page, low, high) (by_page (p == 0))
  where
    by_page :
        (b : Bool)
        → (if b
            then some (pos pc +ℤ signed 1048576 (l + 4 * h))
            else some (times 4096 (pos (pc / 4096) +ℤ signed 1048576 (l + 4 * h))))
          ≡ some (addressed (not b) pc (signed 1048576 (l + 4 * h)))
    by_page true = refl
    by_page false = refl

pub target-imm21 :
    (page : Bool) (pc f c : ℕ)
    → f < 2097152
    → c < 32
    → target pc ((if page then 0x90000000 else 0x10000000) + f % 4 * 536870912 + f / 4 * 32 + c)
      ≡ some (addressed page pc (signed 1048576 f))
target-imm21 false pc f c h h' =
    let whole : f % 4 + 4 * (f / 4) ≡ f = omega arith in
    target-address_bits pc 0 (f % 4) (f / 4) c (omega arith) (omega arith) (omega arith) h'
    ∙ ap (λ n. some (addressed false pc (signed 1048576 n))) whole
target-imm21 true pc f c h h' =
    let whole : f % 4 + 4 * (f / 4) ≡ f = omega arith in
    target-address_bits pc 1 (f % 4) (f / 4) c (omega arith) (omega arith) (omega arith) h'
    ∙ ap (λ n. some (addressed true pc (signed 1048576 n))) whole
