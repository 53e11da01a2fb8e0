-- ===== src/Assembly/Branches.antt =====
-- The branches and literal loads of `relative_instruction` in macdbg/core/assembly.py.
use macdbg.Prelude.{
  ℕ, ◌+◌, ◌*◌, ◌/◌, ◌%◌, ◌<◌, ◌≡◌, refl, Bool, true, false, not, List, ◌==◌, ◌&&◌, Post-bind, ◌⊎◌,
  inl, inr, get_elem?, All, ltb-false→le, ◌≤◌, if◌then◌else◌, ltb, arith, Result, ok, err, ◌>>=◌,
  Post, Post-raise_if,
}
use macdbg.Prelude.Int.{ℤ, pos, negsuc, wrap, fits}
use macdbg.Http.Text.{lstrip}
use macdbg.Assembly.Text.{lookup, fields, first, numbered, integer}
use macdbg.Assembly.Encode.{
  Problem, Mnemonic, adrp, load_word, jump_word, condition_word, compare_word, test_word,
  branch_word, branch_register, branch_register_of, wx_register, register_number, unsupported, ldr,
  ldrsw, b_always, bl, b_cond, cbz, cbnz, tbz, tbnz, adr, other, branch_range, compare_range,
  unknown_condition, condition_range, load_register, load_range, ldrsw_register, is_load_letter,
  no_second_field, bit_text, bit_below, test_range, load_base, conditions, some_or,
}
use macdbg.Assembly.Targets.{is_imm19}
use macdbg.Assembly.Fields.{
  Leads, Reaches, not-false, Post-any, lookup-Post, imm26-Leads, imm19-Leads, imm14-Leads,
}

-- The bases of the literal loads are eight bits that read as one.
load_base-bits :
    (letter : ℕ)
    → (k : ℕ) × (load_base letter ≡ k * 16777216)
      × ((k / 4 % 32 == 5) ≡ false)
      × (is_imm19 k ≡ true)
      × (k < 256)
load_base-bits letter =
    by_letter (letter == b'w') (letter == b'x') (letter == b's') (letter == b'd')
  where
    by_letter :
        (w x s d : Bool)
        → (k : ℕ) × ((if w
              then 0x18000000
              else if x
              then 0x58000000
              else if s
              then 0x1c000000
              else if d
              then 0x5c000000
              else 0x9c000000)
            ≡ k * 16777216)
          × ((k / 4 % 32 == 5) ≡ false)
          × (is_imm19 k ≡ true)
          × (k < 256)
    by_letter true x s d = (0x18, refl, refl, refl, omega arith)
    by_letter false true s d = (0x58, refl, refl, refl, omega arith)
    by_letter false false true d = (0x1c, refl, refl, refl, omega arith)
    by_letter false false false true = (0x5c, refl, refl, refl, omega arith)
    by_letter false false false false = (0x9c, refl, refl, refl, omega arith)

module _ (pc : ℕ) (delta : ℤ) where
  jump_word-Reaches : (link : Bool) → Reaches pc delta (jump_word link delta)
  unfolding jump_word
  jump_word-Reaches link =
      Post-raise_if (λ e. Unit) (Leads pc delta) (not (fits 33554432 delta)) branch_range _ tt
        (λ e. by_link link (not-false (fits 33554432 delta) e))
    where
      by_link :
          (l : Bool)
          → fits 33554432 delta ≡ true
          → Leads pc delta ((if l then 0x94000000 else 0x14000000) + wrap 67108864 delta)
      by_link true e = imm26-Leads pc delta 37 refl (omega arith) e
      by_link false e = imm26-Leads pc delta 5 refl (omega arith) e

  compare_word-Reaches :
      (nonzero : Bool) (r : ℕ × ℕ) → r.1 < 32 → Reaches pc delta (compare_word nonzero r delta)
  unfolding compare_word
  compare_word-Reaches nonzero (letter, reg) h =
      Post-raise_if (λ e. Unit) (Leads pc delta) (not (fits 262144 delta)) compare_range _ tt
        (λ e. by_bits (letter == b'x') nonzero (not-false (fits 262144 delta) e))
    where
      by_bits :
          (x n : Bool)
          → fits 262144 delta ≡ true
          → Leads pc delta (
              0x34000000
              + (if x then 0x80000000 else 0)
              + (if n then 0x1000000 else 0)
              + wrap 524288 delta * 32
              + reg)
      by_bits true true e = imm19-Leads pc delta 181 reg h refl refl (omega arith) e
      by_bits true false e = imm19-Leads pc delta 180 reg h refl refl (omega arith) e
      by_bits false true e = imm19-Leads pc delta 53 reg h refl refl (omega arith) e
      by_bits false false e = imm19-Leads pc delta 52 reg h refl refl (omega arith) e

  condition_word-Reaches : (condition : List ℕ) → Reaches pc delta (condition_word condition delta)
  unfolding condition_word
  condition_word-Reaches condition =
      Post-bind (λ e. Unit) (λ c. c < 16) (Leads pc delta)
        (some_or unknown_condition (lookup condition conditions)) _
        (lookup-Post (λ c. c < 16) unknown_condition condition conditions in_table)
        (λ c h.
          Post-raise_if (λ e. Unit) (Leads pc delta) (not (fits 262144 delta)) condition_range _ tt
            (λ e.
              imm19-Leads pc delta 84 c (omega arith) refl refl (omega arith)
                (not-false (fits 262144 delta) e)))
    where
      in_table : All (λ e. e.1 < 16) conditions
      in_table = ground arith

  load_word-Reaches :
      (signed_word : Bool) (operands : List ℕ)
      → Reaches pc delta (load_word signed_word operands delta)
  unfolding load_word
  load_word-Reaches signed_word operands =
      Post-bind (λ e. Unit) (λ r. Unit {0}) (Leads pc delta)
        (some_or load_register (numbered is_load_letter (first (fields operands)))) _
        (Post-any (some_or load_register (numbered is_load_letter (first (fields operands)))))
        (λ r u.
          Post-raise_if (λ e. Unit) (Leads pc delta) (ltb 31 r.1) load_register _ tt
            (λ small.
              Post-raise_if (λ e. Unit) (Leads pc delta) (not (fits 262144 delta)) load_range _ tt
                (λ fit.
                  Post-raise_if (λ e. Unit) (Leads pc delta) (signed_word && not (r.0 == b'x'))
                    ldrsw_register _ tt
                    (λ letter.
                      loads signed_word r.0 r.1 (ltb-false→le 31 r.1 small)
                        (not-false (fits 262144 delta) fit)))))
    where
      loads :
          (s : Bool) (letter number : ℕ)
          → number ≤ 31
          → fits 262144 delta ≡ true
          → Leads pc delta
              ((if s then 0x98000000 else load_base letter) + wrap 524288 delta * 32 + number)
      loads true letter number h fit =
          imm19-Leads pc delta 0x98 number (omega arith) refl refl (omega arith) fit
      loads false letter number h fit =
          let (k, e, t, t', small) = load_base-bits letter in
          rw e (imm19-Leads pc delta k number (omega arith) t t' small fit)

  bit_below-lt :
      (x : Bool) (v : ℤ) → Post (λ e. Unit {0}) (λ b. b < 64) (bit_below (if x then 64 else 32) v)
  unfolding bit_below
  bit_below-lt x (negsuc n) = tt
  bit_below-lt true (pos n) = ground arith
  bit_below-lt false (pos n) = ground arith

  -- The word of a bit test, whose bit stands in two places.
  test_bits-Leads :
      (nonzero : Bool) (bit reg : ℕ)
      → bit < 64
      → reg < 32
      → fits 8192 delta ≡ true
      → Leads pc delta (
          0x36000000
          + bit / 32 * 0x80000000
          + bit % 32 * 524288
          + (if nonzero then 0x1000000 else 0)
          + wrap 16384 delta * 32
          + reg)
  test_bits-Leads nonzero bit reg small h fit =
      let low : bit % 32 < 32 = omega arith in
      let high : (bit / 32 ≡ 0) ⊎ (bit / 32 ≡ 1) = omega arith in
      by_bits nonzero (bit / 32) (bit % 32) low high
    where
      placed :
          (k b word : ℕ)
          → b < 32
          → (k / 4 % 32 == 5) ≡ false
          → is_imm19 k ≡ false
          → (k / 2 % 64 == 27) ≡ true
          → k < 256
          → word ≡ k * 16777216 + b * 524288 + wrap 16384 delta * 32 + reg
          → Leads pc delta word
      placed k b word hb t t' t'' hk e = rw e (imm14-Leads pc delta k b reg hb h t t' t'' hk fit)

      by_bits :
          (n : Bool) (q b : ℕ)
          → b < 32
          → (q ≡ 0) ⊎ (q ≡ 1)
          → Leads pc delta (
              0x36000000
              + q * 0x80000000
              + b * 524288
              + (if n then 0x1000000 else 0)
              + wrap 16384 delta * 32
              + reg)
      by_bits true q b hb (inl e) = placed 55 b _ hb refl refl refl (omega arith) (omega arith)
      by_bits true q b hb (inr e) = placed 183 b _ hb refl refl refl (omega arith) (omega arith)
      by_bits false q b hb (inl e) = placed 54 b _ hb refl refl refl (omega arith) (omega arith)
      by_bits false q b hb (inr e) = placed 182 b _ hb refl refl refl (omega arith) (omega arith)

  test_word-Reaches :
      (nonzero : Bool) (operands : List ℕ) (r : ℕ × ℕ)
      → r.1 < 32
      → Reaches pc delta (test_word nonzero operands r delta)
  unfolding test_word
  test_word-Reaches nonzero operands (letter, reg) h =
      Post-bind (λ e. Unit) (λ f. Unit {0}) (Leads pc delta)
        (some_or no_second_field (get_elem? (fields operands) 1)) _
        (Post-any (some_or no_second_field (get_elem? (fields operands) 1)))
        (λ f u.
          Post-bind (λ e. Unit) (λ v. Unit {0}) (Leads pc delta)
            (some_or bit_text (integer (lstrip (λ c. c == 35) f))) _
            (Post-any (some_or bit_text (integer (lstrip (λ c. c == 35) f))))
            (λ v u'.
              Post-bind (λ e. Unit) (λ b. b < 64) (Leads pc delta)
                (bit_below (if letter == b'x' then 64 else 32) v) _
                (bit_below-lt (letter == b'x') v)
                (λ b small.
                  Post-raise_if (λ e. Unit) (Leads pc delta) (not (fits 8192 delta)) test_range _ tt
                    (λ fit.
                      test_bits-Leads nonzero b reg small h (not-false (fits 8192 delta) fit)))))

  branch_register_of-lt :
      (operands : List ℕ) → Post (λ e. Unit {0}) (λ r. r.1 < 32) (branch_register_of operands)
  unfolding branch_register_of
  branch_register_of-lt operands =
      Post-bind (λ e. Unit) (λ r. Unit {0}) (λ r. r.1 < 32)
        (some_or branch_register (wx_register (first (fields operands)))) _
        (Post-any (some_or branch_register (wx_register (first (fields operands)))))
        (λ r u.
          Post-raise_if (λ e. Unit) (λ r'. r'.1 < 32) (ltb 31 r.1) register_number (ok r) tt
            (λ small. let le = ltb-false→le 31 r.1 small in omega arith))

  with_register :
      (operands : List ℕ) (f : ℕ × ℕ → Result Problem ℕ)
      → ((r : ℕ × ℕ) → r.1 < 32 → Reaches pc delta (f r))
      → Reaches pc delta (branch_register_of operands >>= f)
  with_register operands f h =
      Post-bind (λ e. Unit) (λ r. r.1 < 32) (Leads pc delta) (branch_register_of operands) f
        (branch_register_of-lt operands) h

  -- Every branch leads where its words say.
  pub branch_word-Reaches :
      (mnemonic : Mnemonic) (operands : List ℕ)
      → Reaches pc delta (branch_word mnemonic operands delta)
  unfolding branch_word
  branch_word-Reaches ldr operands = load_word-Reaches false operands
  branch_word-Reaches ldrsw operands = load_word-Reaches true operands
  branch_word-Reaches b_always operands = jump_word-Reaches false
  branch_word-Reaches bl operands = jump_word-Reaches true
  branch_word-Reaches (b_cond condition) operands = condition_word-Reaches condition
  branch_word-Reaches cbz operands =
      with_register operands (λ r. compare_word false r delta)
        (λ r h. compare_word-Reaches false r h)
  branch_word-Reaches cbnz operands =
      with_register operands (λ r. compare_word true r delta) (λ r h. compare_word-Reaches true r h)
  branch_word-Reaches tbz operands =
      with_register operands (λ r. test_word false operands r delta)
        (λ r h. test_word-Reaches false operands r h)
  branch_word-Reaches tbnz operands =
      with_register operands (λ r. test_word true operands r delta)
        (λ r h. test_word-Reaches true operands r h)
  branch_word-Reaches adr operands = with_register operands (λ r. err unsupported) (λ r h. tt)
  branch_word-Reaches adrp operands = with_register operands (λ r. err unsupported) (λ r h. tt)
  branch_word-Reaches other operands = with_register operands (λ r. err unsupported) (λ r h. tt)
