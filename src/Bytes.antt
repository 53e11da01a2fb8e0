-- ===== src/Bytes.antt =====
-- Byte strings as lists of numbers: Python's slices and `struct.unpack_from`, which the
-- readers of `macdbg/core` use.
use macdbg.Prelude.{
  ℕ, ◌+◌, ◌*◌, ◌≤◌, ◌≡◌, refl, Bool, true, false, List, [], ◌∷◌, arith, ltb, leb, ◌==◌, ◌&&◌,
  if◌then◌else◌, length, take, drop, length-take, length-drop, Result, ok, err, ◌>>=◌, Post,
}

-- `data[at:at + size]`
abbrev pub slice : List ℕ → ℕ → ℕ → List ℕ
slice bytes at size = take size (drop at bytes)

-- `struct.unpack_from` of a format of `size` bytes: the bytes read, or `struct.error` where the
-- buffer is shorter.
unfoldable pub unpack_from : {E : Type 0} → E → ℕ → List ℕ → ℕ → Result E (List ℕ)
unpack_from short size bytes at =
    if leb (at + size) (length bytes) then ok (slice bytes at size) else err short

-- The value of a little-endian and of a big-endian field.
unfoldable pub little : List ℕ → ℕ
little [] = 0
little (b ∷ bs) = b + 256 * little bs

unfoldable pub big_from : ℕ → List ℕ → ℕ
big_from acc [] = acc
big_from acc (b ∷ bs) = big_from (acc * 256 + b) bs

-- The field of `width` bytes at `at` of an unpacked block.
unfoldable pub le_field : ℕ → ℕ → List ℕ → ℕ
unfolding little
le_field at width block = little (slice block at width)

unfoldable pub be_field : ℕ → ℕ → List ℕ → ℕ
unfolding big_from
be_field at width block = big_from 0 (slice block at width)

-- `text.rstrip(b'\0')`
unfoldable pub rstrip_nul : List ℕ → List ℕ
rstrip_nul [] = []
rstrip_nul (c ∷ cs) = elim (rstrip_nul cs) [
  | [] ↦ if c == 0 then [] else c ∷ []
  | d ∷ ds ↦ c ∷ d ∷ ds
]

-- `bytes.decode('ascii', 'replace')`, as code points.
unfoldable pub decode_ascii : List ℕ → List ℕ
decode_ascii [] = []
decode_ascii (c ∷ cs) = (if ltb c 128 then c else 0xfffd) ∷ decode_ascii cs

-- `a == b` on byte strings.
unfoldable pub same : List ℕ → List ℕ → Bool
same [] [] = true
same [] (y ∷ ys) = false
same (x ∷ xs) [] = false
same (x ∷ xs) (y ∷ ys) = x == y && same xs ys

pub same→eq : (xs ys : List ℕ) → same xs ys ≡ true → xs ≡ ys
unfolding same
same→eq [] [] h = refl
same→eq [] (y ∷ ys) h = ground arith
same→eq (x ∷ xs) [] h = ground arith
same→eq (x ∷ xs) (y ∷ ys) h = ground (arith, same→eq xs ys)

pub same_refl : (xs : List ℕ) → same xs xs ≡ true
unfolding same
same_refl [] = refl
same_refl (x ∷ xs) = ground (arith, same_refl xs)

-- A read within the buffer does not raise, and yields as many bytes as asked for.
module _ {κ} {E : Type 0} {B : Type κ} (Q : E → Type 0) (R : B → Type 0) where
  pub Post-unpack_from :
      (short : E) (size : ℕ) (bytes : List ℕ) (at : ℕ) (f : List ℕ → Result E B)
      → at + size ≤ length bytes
      → ((block : List ℕ) → length block ≡ size → Post Q R (f block))
      → Post Q R (unpack_from short size bytes at >>= f)
  unfolding unpack_from
  Post-unpack_from short size bytes at f h k =
      let fits : leb (at + size) (length bytes) ≡ true = ground arith in
      rw fits (
        k (slice bytes at size)
          (omega (arith, length-take size (drop at bytes), length-drop at bytes)))
