-- ===== src/Assembly/Lines.antt =====
-- The lines that `assemble` of macdbg/core/assembly.py lists and the words that it encodes for them.
use macdbg.Prelude.{
  ℕ, suc, ◌+◌, ◌*◌, ◌<◌, ◌≡◌, refl, ◌∙◌, ap, Bool, true, false, not, Option, none, some, List, [],
  ◌∷◌, ◌++◌, arith, length, length-append, All, Result, ok, err, ◌>>=◌, Post, Post-bind,
  Post-raise_if, if◌then◌else◌,
}
use macdbg.Prelude.Int.{ℤ}
use macdbg.Http.Text.{lower, strip, is_space}
use macdbg.Assembly.{
  Listing, list_line, list_lines, Resolver, destination_of, expression_of, is_relative, is_mnemonic,
  encode_line, encode_parts, encode_lines, replaced, is_instruction, is_empty,
}
use macdbg.Assembly.Text.{lookup, first_word, has_key, before_comment, label_name}
use macdbg.Assembly.Encode.{
  Problem, Mnemonic, mnemonic_of, relative_instruction, directive, duplicate_label,
  not_an_instruction,
}
use macdbg.Assembly.Targets.{target}
use macdbg.Assembly.Reach.{named, relative_instruction-target}
use macdbg.Assembly.Output.{Rising, none_left, one_more, Rising-moved, Rising-weaken}

-- Lines that stand four bytes apart, from line `index` on.
abbrev pub Spaced : (address index : ℕ) → List (ℕ × List ℕ) → Type 0
Spaced address index [] = Unit
Spaced address index ((pc, line) ∷ lines) =
    (pc ≡ address + index * 4) × Spaced address (suc index) lines

Spaced-append :
    (address index : ℕ) (lines : List (ℕ × List ℕ)) (pc : ℕ) (line : List ℕ)
    → Spaced address index lines
    → pc ≡ address + (index + length lines) * 4
    → Spaced address index (lines ++ (pc, line) ∷ [])
Spaced-append address index [] pc line h e = (omega arith, tt)
Spaced-append address index ((pc', line') ∷ lines) pc line h e =
    (h.0, Spaced-append address (suc index) lines pc line h.1 (omega arith))

abbrev pub Laid : ℕ → Listing → Type 0
Laid address listing = Spaced address 0 listing.lines × (listing.offset ≡ length listing.lines * 4)

list_line-Laid :
    (address : ℕ) (line : List ℕ) (name : Option (List ℕ)) (listing : Listing)
    → Laid address listing
    → Post (λ e. Unit {0}) (Laid address) (list_line address line name listing)
unfolding list_line
list_line-Laid address line (some name) listing h =
    Post-raise_if (λ e. Unit) (Laid address) (has_key name listing.labels) duplicate_label _ tt
      (λ e. h)
list_line-Laid address line none listing h =
    Post-raise_if (λ e. Unit) (Laid address) (not (is_instruction line)) not_an_instruction _ tt
      (λ e. (
        Spaced-append address 0 listing.lines (address + listing.offset) line h.0
            (omega (arith, h.1)),
        omega (arith, h.1, length-append listing.lines ((address + listing.offset, line) ∷ [])),
      ))

pub list_lines-Laid :
    (address : ℕ) (raws : List (List ℕ)) (listing : Listing)
    → Laid address listing
    → Post (λ e. Unit {0}) (Laid address) (list_lines address raws listing)
unfolding list_lines
list_lines-Laid address [] listing h = h
list_lines-Laid address (raw ∷ raws) listing h =
    by_line _ _ (is_empty (strip is_space (before_comment raw)))
      (list_lines-Laid address raws listing h)
      (Post-bind (λ e. Unit) (Laid address) (Laid address)
        (list_line address (strip is_space (before_comment raw))
          (label_name (strip is_space (before_comment raw))) listing)
        (λ next. list_lines address raws next)
        (list_line-Laid address (strip is_space (before_comment raw))
          (label_name (strip is_space (before_comment raw))) listing h)
        (λ next laid. list_lines-Laid address raws next laid))
  where
    by_line :
        (m k : Result Problem Listing) (b : Bool)
        → Post (λ e. Unit {0}) (Laid address) m
        → Post (λ e. Unit {0}) (Laid address) k
        → Post (λ e. Unit {0}) (Laid address) (if b then m else k)
    by_line m k true skipped listed = skipped
    by_line m k false skipped listed = listed

Post-self {ℓ} : {A : Type ℓ} → (m : Result Problem A) → Post (λ e. Unit {ℓ}) (λ a. m ≡ ok a) m
Post-self (ok a) = refl
Post-self (err e) = tt

-- What holds of a result, with the result.
pub Post-and {ℓ} :
    {A : Type ℓ} (P : A → Type 0) (m : Result Problem A)
    → Post (λ e. Unit {0}) P m
    → Post (λ e. Unit {ℓ}) (λ a. (m ≡ ok a) × P a) m
Post-and P (ok a) h = (refl, h)
Post-and P (err e) h = tt

module _ (resolve : Resolver) (labels : List (List ℕ × ℕ)) where
  -- Where the code encodes an instruction itself, its word at `pc` leads to the address that the
  -- operand means.
  abbrev pub IsInstruction : Mnemonic → List ℕ → (pc word : ℕ) → Type 0
  IsInstruction mnemonic operands pc word =
      is_relative mnemonic operands ≡ true
      → (destination : ℤ) × (destination_of resolve (expression_of operands)
            (lookup (expression_of operands) labels)
          ≡ ok destination)
        × (target pc word ≡ some (named mnemonic destination))

  abbrev pub IsLine : (pc : ℕ) → List ℕ → (word : ℕ) → Type 0
  IsLine pc line word =
      IsInstruction (mnemonic_of (lower (first_word line).0)) (first_word line).1 pc word

  -- The words that are read at the lines from `index` on.
  abbrev pub AreLines : (ℕ → ℕ) → (index : ℕ) → List (ℕ × List ℕ) → Type 0
  AreLines read index [] = Unit
  AreLines read index ((pc, line) ∷ lines) =
      IsLine pc line (read index) × AreLines read (suc index) lines

  -- What a line is replaced by: its word, or nothing where the compiler encodes it.
  abbrev Replaces : Mnemonic → List ℕ → (pc : ℕ) → Option ℕ → Type 0
  Replaces mnemonic operands pc (some value) =
      IsInstruction mnemonic operands pc value × (value < 4294967296)
  Replaces mnemonic operands pc none = is_relative mnemonic operands ≡ false

  encode_parts-Replaces :
      (pc : ℕ) (line : List ℕ) (mnemonic : Mnemonic) (operands : List ℕ)
      → Post
          (λ e. Unit {0})
          (λ r. Replaces mnemonic operands pc r.1)
          (encode_parts resolve labels pc line mnemonic operands)
  unfolding encode_parts
  encode_parts-Replaces pc line mnemonic operands = by_test (is_relative mnemonic operands) refl
    where
      encoded : Result Problem (List ℕ × Option ℕ)
      encoded =
          destination_of resolve (expression_of operands) (lookup (expression_of operands) labels)
          >>= λ destination. relative_instruction mnemonic operands pc destination >>= λ value.
              ok (b'n' ∷ b'o' ∷ b'p' ∷ [], some value)

      by_test :
          (b : Bool)
          → is_relative mnemonic operands ≡ b
          → Post
              (λ e. Unit {0})
              (λ r. Replaces mnemonic operands pc r.1)
              (if b then encoded else ok (line, none))
      by_test false e = e
      by_test true e =
          Post-bind (λ x. Unit)
            (λ d.
              destination_of resolve (expression_of operands)
                (lookup (expression_of operands) labels)
              ≡ ok d)
            (λ r. Replaces mnemonic operands pc r.1)
            (destination_of resolve (expression_of operands)
              (lookup (expression_of operands) labels))
            _
            (Post-self (
              destination_of resolve (expression_of operands)
                (lookup (expression_of operands) labels)))
            (λ d found.
              Post-bind (λ x. Unit)
                (λ word. (target pc word ≡ some (named mnemonic d)) × (word < 4294967296))
                (λ r. Replaces mnemonic operands pc r.1)
                (relative_instruction mnemonic operands pc d) _
                (relative_instruction-target mnemonic operands pc d)
                (λ word means. ((λ u. (d, found, means.0)), means.1)))

  encode_line-Replaces :
      (pc : ℕ) (line : List ℕ)
      → Post
          (λ e. Unit {0})
          (λ r. Replaces (mnemonic_of (lower (first_word line).0)) (first_word line).1 pc r.1)
          (encode_line resolve labels pc line)
  unfolding encode_line
  encode_line-Replaces pc line =
      Post-raise_if (λ e. Unit)
        (λ r. Replaces (mnemonic_of (lower (first_word line).0)) (first_word line).1 pc r.1)
        (not (is_mnemonic (lower (first_word line).0))) directive _ tt
        (λ e.
          encode_parts-Replaces pc line (mnemonic_of (lower (first_word line).0))
            (first_word line).1)

  -- What the second loop yields from line `index` on: a line for the compiler for every line, and
  -- replacements which, once they are read at their indices, make the words of the lines.
  abbrev pub Encodes : (index : ℕ) → List (ℕ × List ℕ) → List (List ℕ) × List (ℕ × ℕ) → Type 0
  Encodes index lines (compiler, replacements) =
      (length compiler ≡ length lines)
      × Rising (index + length lines) index replacements
      × ((read : ℕ → ℕ) → All (λ r. read r.0 ≡ r.1) replacements → AreLines read index lines)

  one_line :
      (index pc : ℕ) (line : List ℕ) (lines : List (ℕ × List ℕ)) (r : List ℕ × Option ℕ)
      (rest : List (List ℕ) × List (ℕ × ℕ))
      → Replaces (mnemonic_of (lower (first_word line).0)) (first_word line).1 pc r.1
      → Encodes (suc index) lines rest
      → Encodes index ((pc, line) ∷ lines) (r.0 ∷ rest.0, replaced index r.1 rest.1)
  one_line index pc line lines (text, some value) rest replaces encodes = (
    ap suc encodes.0,
    one_more (omega arith) (omega arith) replaces.1 (Rising-moved _ _ _ _ (omega arith) encodes.1),
    λ read h. (
      (λ e. let (d, found, leads) = replaces.0 e in (d, found, ap (target pc) h.0 ∙ leads)),
      encodes.2 read h.1,
    ),
  )
  one_line index pc line lines (text, none) rest replaces encodes = (
    ap suc encodes.0,
    Rising-weaken _ _ _ (Rising-moved _ _ _ _ (omega arith) encodes.1),
    λ read h. ((λ e. let absurd : ⊥ = ground arith in elim absurd [ ]), encodes.2 read h),
  )

  pub encode_lines-Encodes :
      (index : ℕ) (lines : List (ℕ × List ℕ))
      → Post (λ e. Unit {0}) (Encodes index lines) (encode_lines resolve labels index lines)
  unfolding encode_lines
  encode_lines-Encodes index [] = (refl, none_left, λ read h. tt)
  encode_lines-Encodes index ((pc, line) ∷ lines) =
      Post-bind (λ e. Unit)
        (λ r. Replaces (mnemonic_of (lower (first_word line).0)) (first_word line).1 pc r.1)
        (Encodes index ((pc, line) ∷ lines)) (encode_line resolve labels pc line) _
        (encode_line-Replaces pc line)
        (λ r replaces.
          Post-bind (λ e. Unit) (Encodes (suc index) lines) (Encodes index ((pc, line) ∷ lines))
            (encode_lines resolve labels (suc index) lines) _
            (encode_lines-Encodes (suc index) lines)
            (λ rest encodes. one_line index pc line lines r rest replaces encodes))
