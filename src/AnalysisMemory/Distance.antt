-- ===== src/AnalysisMemory/Distance.antt =====
-- What `compare` of macdbg/core/analysis_memory.py counts.
use macdbg.Prelude.{
  ℕ, zero, suc, ◌+◌, ◌*◌, ◌/◌, ◌≤◌, max, ◌≡◌, ◌↔◌, refl, sym, ◌∙◌, ap, Bool, true, false, List, [],
  ◌∷◌, ◌==◌, if◌then◌else◌, length, take, drop, length-drop, length-take, arith,
}
use macdbg.Bytes.{slice}
use macdbg.AnalysisMemory.{Snapshot, Change, differing, changed_in, compare_rows, compared}

-- The bytes at which two strings differ, and those that only one of them has.
pub distance : List ℕ → List ℕ → ℕ
distance [] after = length after
distance (a ∷ before) [] = suc (length before)
distance (a ∷ before) (b ∷ after) = (if a == b then 0 else 1) + distance before after

changed_in-distance : (xs ys : List ℕ) → changed_in xs ys ≡ distance xs ys
unfolding differing distance
changed_in-distance [] ys = omega arith
changed_in-distance (x ∷ xs) [] = omega arith
changed_in-distance (x ∷ xs) (y ∷ ys) = omega (arith, changed_in-distance xs ys)

distance_nil : (xs : List ℕ) → distance xs [] ≡ length xs
unfolding distance
distance_nil [] = refl
distance_nil (x ∷ xs) = refl

-- The distance of two strings is that of their heads and that of their tails.
distance-split :
    (n : ℕ) (xs ys : List ℕ)
    → distance xs ys ≡ distance (take n xs) (take n ys) + distance (drop n xs) (drop n ys)
unfolding distance
distance-split zero xs ys = omega arith
distance-split (suc n) [] [] = omega arith
distance-split (suc n) [] (y ∷ ys) =
    omega (arith, distance-split n [] ys, length-take n ys, length-drop n ys)
distance-split (suc n) (x ∷ xs) [] =
    omega (arith, distance_nil (drop n xs), length-take n xs, length-drop n xs)
distance-split (suc n) (x ∷ xs) (y ∷ ys) = omega (arith, distance-split n xs ys)

drop_nil : (n : ℕ) → drop {A = ℕ} n [] ≡ []
drop_nil zero = refl
drop_nil (suc n) = refl

drop-drop : (m n : ℕ) (xs : List ℕ) → drop n (drop m xs) ≡ drop (m + n) xs
drop-drop zero n xs = ap (λ k. drop k xs) (omega arith)
drop-drop (suc m) n [] = drop_nil n ∙ sym (drop_nil (suc m + n))
drop-drop (suc m) n (x ∷ xs) =
    let next : suc (m + n) ≡ suc m + n = omega arith in
    drop-drop m n xs ∙ ap (λ k. drop k (x ∷ xs)) next

drop_all : (n : ℕ) (xs : List ℕ) → length xs ≤ n → drop n xs ≡ []
drop_all zero [] h = refl
drop_all zero (x ∷ xs) h = let absurd : ⊥ = omega arith in elim absurd [ ]
drop_all (suc n) [] h = refl
drop_all (suc n) (x ∷ xs) h = drop_all n xs (omega arith)

plus_nothing : (n : ℕ) → n ≡ n + distance [] []
unfolding distance
plus_nothing n = omega arith

compare_rows-count :
    (address : ℕ) (old new : List ℕ) (rounds offset : ℕ) (changes : List Change) (changed : ℕ)
    → max (length new) (length old) ≤ offset + rounds * 16
    → (compare_rows address old new rounds offset changes changed).1
      ≡ changed + distance (drop offset old) (drop offset new)
unfolding compare_rows
compare_rows-count address old new zero offset changes changed h =
    let o : drop offset old ≡ [] = drop_all offset old (omega arith) in
    let n : drop offset new ≡ [] = drop_all offset new (omega arith) in
    rw (o, n) (plus_nothing changed)
compare_rows-count address old new (suc rounds) offset changes changed h = step _ (λ next.
    compare_rows-count address old new rounds (offset + 16) next
      (changed + changed_in (slice old offset 16) (slice new offset 16)) (omega arith))
  where
    step :
        (next : List Change)
        → ((l : List Change)
            → (compare_rows address old new rounds
                (offset + 16)
                l
                (changed + changed_in (slice old offset 16) (slice new offset 16))).1
              ≡ changed
                + changed_in (slice old offset 16) (slice new offset 16)
                + distance (drop (offset + 16) old) (drop (offset + 16) new))
        → (compare_rows address old new rounds
            (offset + 16)
            next
            (changed + changed_in (slice old offset 16) (slice new offset 16))).1
          ≡ changed + distance (drop offset old) (drop offset new)
    step next ih =
        let e = ih next in
        let split = distance-split 16 (drop offset old) (drop offset new) in
        let row = changed_in-distance (slice old offset 16) (slice new offset 16) in
        let rest = ap (λ l. distance l (drop (offset + 16) new)) (drop-drop offset 16 old) in
        let rest' = ap (λ l. distance (drop 16 (drop offset old)) l) (drop-drop offset 16 new) in
        omega (arith, e, split, row, rest, rest')

distance_zero : (xs ys : List ℕ) → distance xs ys ≡ 0 → xs ≡ ys
unfolding distance
distance_zero [] [] h = refl
distance_zero [] (y ∷ ys) h = let absurd : ⊥ = omega arith in elim absurd [ ]
distance_zero (x ∷ xs) [] h = let absurd : ⊥ = omega arith in elim absurd [ ]
distance_zero (x ∷ xs) (y ∷ ys) h = by_test (x == y) refl h (distance_zero xs ys)
  where
    by_test :
        (b : Bool)
        → (x == y) ≡ b
        → (if b then 0 else 1) + distance xs ys ≡ 0
        → (distance xs ys ≡ 0 → xs ≡ ys)
        → x ∷ xs ≡ y ∷ ys
    by_test true e k ih =
        let same_head : x ≡ y = ground arith in
        ap (λ c. c ∷ xs) same_head ∙ ap (λ l. y ∷ l) (ih (omega arith))
    by_test false e k ih = let absurd : ⊥ = omega arith in elim absurd [ ]

distance_self : (xs : List ℕ) → distance xs xs ≡ 0
unfolding distance
distance_self [] = refl
distance_self (x ∷ xs) =
    let self : (x == x) ≡ true = ground arith in rw self (omega (arith, distance_self xs))

-- The count of changed bytes in a comparison is the distance of the contents, wherever the rows are
-- cut and however many of them are listed: it is zero exactly where the bytes are the same.
pub compared-distance :
    (old : Snapshot) (new : List ℕ)
    → ((compared old new).changed_bytes ≡ distance old.content new)
      × ((compared old new).changed_bytes ≡ 0 ↔ old.content ≡ new)
unfolding compared
compared-distance old new = (
  count,
  (
    (λ z. distance_zero old.content new (sym count ∙ z)),
    (λ same_bytes. count ∙ ap (distance old.content) (sym same_bytes) ∙ distance_self old.content),
  ),
)
  where
    count :
        (compare_rows old.address old.content new
          ((max (length new) (length old.content) + 15) / 16)
          0
          []
          0).1
        ≡ distance old.content new
    count =
        compare_rows-count old.address old.content new
          ((max (length new) (length old.content) + 15) / 16) 0 [] 0 (omega arith)
        ∙ omega arith
