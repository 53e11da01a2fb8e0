-- ===== src/Assembly/Output.antt =====
-- The words that `assemble` of macdbg/core/assembly.py writes over the compiler's output.
use macdbg.Prelude.{
  ℕ, zero, suc, ◌+◌, ◌*◌, ◌≤◌, ◌<◌, ◌≡◌, refl, ◌∙◌, ap, subst, List, [], ◌∷◌, ◌++◌, arith, length,
  take, drop, length-append, length-take, length-drop, All,
}
use macdbg.Bytes.{slice, little, le_field}
use macdbg.Assembly.{to_bytes, put_word, replace_words}

little-to_bytes : (value : ℕ) → value < 4294967296 → little (to_bytes value) ≡ value
unfolding little
little-to_bytes value h = omega arith

-- Four bytes over the list at `at`.
abbrev spliced : ℕ → ℕ → List ℕ → List ℕ
spliced value at xs = take at xs ++ (to_bytes value ++ drop (at + 4) xs)

length-spliced :
    (value at : ℕ) (xs : List ℕ) → at + 4 ≤ length xs → length (spliced value at xs) ≡ length xs
length-spliced value at xs h = omega (
  arith,
  length-append (take at xs) (to_bytes value ++ drop (at + 4) xs),
  length-take at xs,
  length-drop (at + 4) xs,
)

slice-append :
    (value at : ℕ) (xs zs : List ℕ)
    → at ≤ length xs
    → slice (take at xs ++ (to_bytes value ++ zs)) at 4 ≡ to_bytes value
slice-append value zero xs zs h = refl
slice-append value (suc at) [] zs h = let absurd : ⊥ = omega arith in elim absurd [ ]
slice-append value (suc at) (x ∷ xs) zs h = slice-append value at xs zs (omega arith)

take-take_append :
    (n m : ℕ) (xs ys : List ℕ) → n ≤ m → m ≤ length xs → take n (take m xs ++ ys) ≡ take n xs
take-take_append zero m xs ys h h' = refl
take-take_append (suc n) zero xs ys h h' = let absurd : ⊥ = omega arith in elim absurd [ ]
take-take_append (suc n) (suc m) [] ys h h' = let absurd : ⊥ = omega arith in elim absurd [ ]
take-take_append (suc n) (suc m) (x ∷ xs) ys h h' =
    ap (λ zs. x ∷ zs) (take-take_append n m xs ys (omega arith) (omega arith))

slice-append_before :
    (at before : ℕ) (xs zs : List ℕ)
    → before + 4 ≤ at
    → at ≤ length xs
    → slice (take at xs ++ zs) before 4 ≡ slice xs before 4
slice-append_before at zero xs zs h h' = take-take_append 4 at xs zs h h'
slice-append_before zero (suc before) xs zs h h' = let absurd : ⊥ = omega arith in elim absurd [ ]
slice-append_before (suc at) (suc before) [] zs h h' =
    let absurd : ⊥ = omega arith in elim absurd [ ]
slice-append_before (suc at) (suc before) (x ∷ xs) zs h h' =
    slice-append_before at before xs zs (omega arith) (omega arith)

-- The replacements of the lines from `index` up to `count`, in their order.
pub data Rising (count : ℕ) : ℕ → List (ℕ × ℕ) → Type 0 where
  none_left : {index : ℕ} → Rising count index []
  one_more :
      {index i v : ℕ} {rest : List (ℕ × ℕ)}
      → index ≤ i
      → i < count
      → v < 4294967296
      → Rising count (suc i) rest
      → Rising count index ((i, v) ∷ rest)

pub Rising-moved :
    (count count' index : ℕ) (replacements : List (ℕ × ℕ))
    → count ≡ count'
    → Rising count index replacements
    → Rising count' index replacements
Rising-moved count count' index replacements e h = subst (λ n. Rising n index replacements) e h

pub Rising-weaken :
    (count index : ℕ) (replacements : List (ℕ × ℕ))
    → Rising count (suc index) replacements
    → Rising count index replacements
Rising-weaken count index _ none_left = none_left
Rising-weaken count index _ (one_more a b c r) = one_more (omega arith) b c r

pub length-replace_words :
    (count index : ℕ) (replacements : List (ℕ × ℕ)) (code : List ℕ)
    → Rising count index replacements
    → length code ≡ count * 4
    → length (replace_words replacements code) ≡ count * 4
unfolding replace_words
length-replace_words count index _ code none_left h = h
length-replace_words count index _ code (one_more {i = i} {v = v} {rest = rest} a b c r) h =
    length-replace_words count (suc i) rest (put_word i v code) r
      (length-spliced v (i * 4) code (omega arith) ∙ h)

-- What stands before the replacements stays.
slice-replace_words :
    (count index before : ℕ) (replacements : List (ℕ × ℕ)) (code : List ℕ)
    → Rising count index replacements
    → length code ≡ count * 4
    → before < index
    → slice (replace_words replacements code) (before * 4) 4 ≡ slice code (before * 4) 4
unfolding replace_words
slice-replace_words count index before _ code none_left h h' = refl
slice-replace_words count index before _ code (one_more {i = i} {v = v} {rest = rest} a b c r) h
      h' =
    slice-replace_words count (suc i) before rest (put_word i v code) r
      (length-spliced v (i * 4) code (omega arith) ∙ h) (omega arith)
    ∙ slice-append_before (i * 4) (before * 4) code (to_bytes v ++ drop (i * 4 + 4) code)
        (omega arith) (omega arith)

-- Every replacement is read back at its line.
pub replace_words-read :
    (count index : ℕ) (replacements : List (ℕ × ℕ)) (code : List ℕ)
    → Rising count index replacements
    → length code ≡ count * 4
    → All (λ r. le_field (r.0 * 4) 4 (replace_words replacements code) ≡ r.1) replacements
unfolding replace_words le_field
replace_words-read count index _ code none_left h = tt
replace_words-read count index _ code (one_more {i = i} {v = v} {rest = rest} a b c r) h =
    let long : length (put_word i v code) ≡ count * 4 =
      length-spliced v (i * 4) code (omega arith) ∙ h in
    (
      ap little (
            slice-replace_words count (suc i) i rest (put_word i v code) r long (omega arith)
            ∙ slice-append v (i * 4) code (drop (i * 4 + 4) code) (omega arith))
          ∙ little-to_bytes v c,
      replace_words-read count (suc i) rest (put_word i v code) r long,
    )
