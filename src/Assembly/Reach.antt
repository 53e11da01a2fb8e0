-- ===== src/Assembly/Reach.antt =====
-- Where the words of `relative_instruction` in macdbg/core/assembly.py lead.
use macdbg.Prelude.{
  ℕ, ◌+◌, ◌*◌, ◌/◌, ◌%◌, ◌<◌, ◌≡◌, ◌∙◌, ap, Bool, true, false, not, some, List, ◌==◌, Post-bind,
  Post-mono, ltb-false→le, if◌then◌else◌, ltb, arith, Result, Post, Post-raise_if,
}
use macdbg.Prelude.Int.{
  ℤ, pos, ◌+ℤ◌, ◌-ℕ◌, floor_div, times, wrap, fits, signed-wrap, wrap_lt, add-sub, times-floor_div4,
}
use macdbg.Assembly.Text.{fields, first, numbered}
use macdbg.Assembly.Encode.{
  Problem, Mnemonic, adrp, address_word, branch_word, aligned_word, relative_instruction, ldr,
  ldrsw, b_always, bl, b_cond, cbz, cbnz, tbz, tbnz, adr, other, unaligned, adr_destination,
  adr_range, some_or,
}
use macdbg.Assembly.Targets.{target, target-imm21, addressed}
use macdbg.Assembly.Fields.{Leads, not-false, Post-any}
use macdbg.Assembly.Branches.{branch_word-Reaches}

-- The address that an instruction means: its destination, or the page of that.
pub named : Mnemonic → ℤ → ℤ
named adrp destination = times 4096 (floor_div destination 4096)
named _ destination = destination

-- What `relative_instruction` answers: a word that leads to the address, or an error.
abbrev pub Means : ℕ → ℤ → Result Problem ℕ → Type 0
Means pc address m =
    Post (λ e. Unit {0}) (λ word. (target pc word ≡ some address) × (word < 4294967296)) m

aligned_word-Means :
    (mnemonic : Mnemonic) (operands : List ℕ) (pc : ℕ) (destination : ℤ)
    → Means pc destination (aligned_word mnemonic operands pc destination)
unfolding aligned_word
aligned_word-Means mnemonic operands pc destination =
    Post-raise_if (λ e. Unit) (λ word. (target pc word ≡ some destination) × (word < 4294967296))
      (not (wrap 4 (destination -ℕ pc) == 0)) unaligned _ tt
      (λ e.
        let whole : wrap 4 (destination -ℕ pc) ≡ 0 = ground arith in
        let back =
          ap (λ d. pos pc +ℤ d) (times-floor_div4 (destination -ℕ pc) whole)
          ∙ add-sub pc destination in
        Post-mono (λ x. Unit) (Leads pc (floor_div (destination -ℕ pc) 4))
          (λ word. (target pc word ≡ some destination) × (word < 4294967296))
          (branch_word mnemonic operands (floor_div (destination -ℕ pc) 4))
          (λ w leads. (leads.0 ∙ ap some back, leads.1))
          (branch_word-Reaches pc (floor_div (destination -ℕ pc) 4) mnemonic operands))

-- The word of an address `delta` behind the instruction or its page.
address_bits-Means :
    (page : Bool) (pc number : ℕ) (delta destination : ℤ)
    → number < 31
    → fits 1048576 delta ≡ true
    → addressed page pc delta ≡ destination
    → (target pc (
          (if page then 0x90000000 else 0x10000000)
          + wrap 2097152 delta % 4 * 536870912
          + wrap 2097152 delta / 4 * 32
          + number)
        ≡ some destination)
      × ((if page then 0x90000000 else 0x10000000)
            + wrap 2097152 delta % 4 * 536870912
            + wrap 2097152 delta / 4 * 32
            + number
          < 4294967296)
address_bits-Means page pc number delta destination h fit e =
    let field = wrap_lt 2097152 delta (omega arith) in
    (
      target-imm21 page pc (wrap 2097152 delta) number field (omega arith)
          ∙ ap (λ d. some (addressed page pc d)) (signed-wrap 1048576 delta fit)
          ∙ ap some e,
      small page field,
    )
  where
    small :
        (p : Bool)
        → wrap 2097152 delta < 2097152
        → (if p then 0x90000000 else 0x10000000)
            + wrap 2097152 delta % 4 * 536870912
            + wrap 2097152 delta / 4 * 32
            + number
          < 4294967296
    small true field = omega arith
    small false field = omega arith

address_word-Means :
    (page : Bool) (operands : List ℕ) (pc : ℕ) (destination : ℤ)
    → Means pc
        (if page then times 4096 (floor_div destination 4096) else destination)
        (address_word page operands pc destination)
unfolding address_word
address_word-Means page operands pc destination =
    Post-bind (λ e. Unit) (λ r. Unit {0}) Here
      (some_or adr_destination (numbered (λ c. c == b'x') (first (fields operands)))) _
      (Post-any (some_or adr_destination (numbered (λ c. c == b'x') (first (fields operands)))))
      (λ r u.
        Post-raise_if (λ e. Unit) Here (ltb 30 r.1) adr_destination _ tt
          (λ small.
            Post-raise_if (λ e. Unit) Here (not (fits 1048576 delta)) adr_range _ tt
              (λ fit.
                address_bits-Means page pc r.1 delta _
                  (let le = ltb-false→le 30 r.1 small in omega arith)
                  (not-false (fits 1048576 delta) fit) (back page))))
  where
    delta : ℤ
    delta = if page then floor_div destination 4096 -ℕ pc / 4096 else destination -ℕ pc

    Here : ℕ → Type 0
    Here word =
        (target pc word
          ≡ some (if page then times 4096 (floor_div destination 4096) else destination))
        × (word < 4294967296)

    back :
        (p : Bool)
        → addressed p pc (if p then floor_div destination 4096 -ℕ pc / 4096 else destination -ℕ pc)
          ≡ (if p then times 4096 (floor_div destination 4096) else destination)
    back true = ap (times 4096) (add-sub (pc / 4096) (floor_div destination 4096))
    back false = add-sub pc destination

-- An instruction that `relative_instruction` returns is a word, and read at its own address it
-- names the destination: for `adrp` the start of the destination's page, for the other mnemonics
-- the destination.
pub relative_instruction-target :
    (mnemonic : Mnemonic) (operands : List ℕ) (pc : ℕ) (destination : ℤ)
    → Means pc (named mnemonic destination) (relative_instruction mnemonic operands pc destination)
unfolding relative_instruction named
relative_instruction-target adr operands pc destination =
    address_word-Means false operands pc destination
relative_instruction-target adrp operands pc destination =
    address_word-Means true operands pc destination
relative_instruction-target ldr operands pc destination =
    aligned_word-Means ldr operands pc destination
relative_instruction-target ldrsw operands pc destination =
    aligned_word-Means ldrsw operands pc destination
relative_instruction-target b_always operands pc destination =
    aligned_word-Means b_always operands pc destination
relative_instruction-target bl operands pc destination =
    aligned_word-Means bl operands pc destination
relative_instruction-target (b_cond condition) operands pc destination =
    aligned_word-Means (b_cond condition) operands pc destination
relative_instruction-target cbz operands pc destination =
    aligned_word-Means cbz operands pc destination
relative_instruction-target cbnz operands pc destination =
    aligned_word-Means cbnz operands pc destination
relative_instruction-target tbz operands pc destination =
    aligned_word-Means tbz operands pc destination
relative_instruction-target tbnz operands pc destination =
    aligned_word-Means tbnz operands pc destination
relative_instruction-target other operands pc destination =
    aligned_word-Means other operands pc destination
