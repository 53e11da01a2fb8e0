-- ===== src/MachO/Ranges.antt =====
-- macdbg/core/macho.py: `file_offset` and `file_address` of an accepted image.
use macdbg.Prelude.{
  ℕ, ◌+◌, ◌-◌, ◌≤◌, ◌≡◌, ◌≢◌, ap, Bool, true, false, Option, List, [], ◌∷◌, arith, length, select,
  All, All-select, ok, Post-ok, bind-eq-ok, raise_if-eq-ok, Bool-cases, inl, inr,
}
use macdbg.MachO.{
  Error, Section, Image, parse, only_match, holds_address, holds_offset, file_offset, file_address,
  encrypted_image, not_one_section, offset_outside_sections,
}
use macdbg.MachO.Slices.{IsValueError}
use macdbg.MachO.Commands.{SectionWithin}
use macdbg.MachO.Safety.{IsSound, parse-IsSound}

only_match_lem :
    (e : Error) (sections : List Section) {s : Section}
    → only_match e sections ≡ ok s
    → sections ≡ s ∷ []
unfolding only_match
only_match_lem e [] h = cc
only_match_lem e (s ∷ []) h = cc
only_match_lem e (s ∷ t ∷ rest) h = cc

-- The section that an accepted address range lies in, and its offset.
record Located (image : Image) (address size offset : ℕ) : Type 0 where
  section : Section
  plain : image.encrypted ≡ false
  chosen : select (holds_address address size) image.sections ≡ section ∷ []
  result : offset ≡ section.offset + address - section.address

file_offset-Located :
    (image : Image) (address size : ℕ) {offset : ℕ}
    → file_offset image address size ≡ ok offset
    → Located image address size offset
unfolding file_offset
file_offset-Located image address size h =
    let (plain, located) = raise_if-eq-ok image.encrypted encrypted_image _ h in
    let matches : List Section = select (holds_address address size) image.sections in
    let (s, one, found) = bind-eq-ok (only_match not_one_section matches) _ located in
    record {
      section = s;
      plain = plain;
      chosen = only_match_lem not_one_section matches one;
      result = cc found;
    }

All-trivial {ℓ} : {A : Type ℓ} (xs : List A) → All (λ x. Unit {0}) xs
All-trivial [] = tt
All-trivial (x ∷ xs) = (tt, All-trivial xs)

-- The one selected element is of the list, and passes the test.
select_one {ℓ κ} :
    {A : Type ℓ} (P : A → Type κ) (test : A → Bool) (xs : List A) {a : A}
    → select test xs ≡ a ∷ []
    → All P xs
    → P a × (test a ≡ true)
select_one P test xs e h =
    let selected : All (λ x. P x × (test x ≡ true)) (_ ∷ []) = rw e at (All-select P test xs h) in
    selected.0

module _ {ℓ} {A : Type ℓ} (test other : A → Bool) where
  -- An element that another test passes too is among those that it selects.
  select_both_ne :
      (xs : List A) (a : A) → select test xs ≡ a ∷ [] → other a ≡ true → select other xs ≢ []
  select_both_ne [] a e h = ground arith
  select_both_ne (x ∷ xs) a e h = elim (Bool-cases (test x)) [
    | inl yes' ↦ ground (arith, e)
    | inr no' ↦ ground (arith, select_both_ne xs a)
  ]

  select_both :
      (xs : List A) (a b : A)
      → select test xs ≡ a ∷ []
      → other a ≡ true
      → select other xs ≡ b ∷ []
      → a ≡ b
  select_both [] a b e h k = ground arith
  select_both (x ∷ xs) a b e h k = ground (arith, select_both xs a b, select_both_ne xs a)

holds_address_lem :
    (address size : ℕ) (s : Section)
    → holds_address address size s ≡ true
    → (s.zero_fill ≡ false) × (s.address ≤ address) × (address + size ≤ s.address + s.size)
unfolding holds_address
holds_address_lem address size s h = ground arith

-- A section that holds a range of addresses holds the file range that they map to.
holds_offset_lem :
    (address size : ℕ) (s : Section)
    → holds_address address size s ≡ true
    → holds_offset (s.offset + address - s.address) size s ≡ true
unfolding holds_address holds_offset
holds_offset_lem address size s h = ground arith

-- The range that `file_offset` returns lies in the slice of the image, which lies in the file;
-- an encrypted image has none.
pub file_offset-fits :
    (bytes : List ℕ) (subtype : Option ℕ) (image : Image) (address size offset : ℕ)
    → parse bytes subtype ≡ ok image
    → file_offset image address size ≡ ok offset
    → (image.encrypted ≡ false)
      × (image.base ≤ offset)
      × (offset + size ≤ image.base + image.span)
      × (image.base + image.span ≤ length bytes)
file_offset-fits bytes subtype image address size offset parsed found =
    let at = file_offset-Located image address size found in
    let safe =
      Post-ok IsValueError (IsSound bytes) (IsSound bytes) (parse bytes subtype)
        (parse-IsSound bytes subtype) parsed in
    let (inside, holds) =
      select_one (SectionWithin image.base image.span) (holds_address address size) image.sections
        at.chosen safe.sections_fit in
    let (filled, low, high) = holds_address_lem address size at.section holds in
    let (from, to) = inside filled in
    (at.plain, omega (arith, at.result), omega (arith, at.result), safe.slice_fits)

-- The inverse directions agree: where the file range that an address range maps to maps back, it
-- maps back to that address.
pub file_address-file_offset :
    (image : Image) (address size offset back : ℕ)
    → file_offset image address size ≡ ok offset
    → file_address image offset size ≡ ok back
    → back ≡ address
unfolding file_address
file_address-file_offset image address size offset back there here =
    let at = file_offset-Located image address size there in
    let (_, holds) =
      select_one (λ (s : Section). Unit {0}) (holds_address address size) image.sections at.chosen
        (All-trivial image.sections) in
    let matches : List Section = select (holds_offset offset size) image.sections in
    let (t, one, found) = bind-eq-ok (only_match offset_outside_sections matches) _ here in
    let also : holds_offset offset size at.section ≡ true =
      rw at.result (holds_offset_lem address size at.section holds) in
    let same : at.section ≡ t =
      select_both (holds_address address size) (holds_offset offset size) image.sections at.section
        t at.chosen also (only_match_lem offset_outside_sections matches one) in
    let (_, low, _) = holds_address_lem address size at.section holds in
    ground (
      arith,
      at.result,
      found,
      low,
      ap (λ (s : Section). s.address) same,
      ap (λ (s : Section). s.offset) same,
    )
