-- ===== src/SessionTools/Families.antt =====
-- The processes that macdbg/core/session_tools.py selects, and the descendants of the target.
use macdbg.Prelude.{
  ℕ, zero, suc, ◌+◌, ◌≤◌, ◌≡◌, refl, sym, ◌∙◌, subst, Bool, true, false, ◌&&◌, ◌||◌, List, [], ◌∷◌,
  ◌++◌, ◌==◌, if◌then◌else◌, select, All, All-append, Bool-cases, inl, inr, arith,
}
use macdbg.SessionTools.{Row, is_in, children, is_subset, grow, related}

abbrev pub has_child : List Row → (parent pid : ℕ) → Bool
has_child [] parent pid = false
has_child (r ∷ rows) parent pid = (r.parent == parent && r.pid == pid) || has_child rows parent pid

-- A process descends from the root in a number of generations.
pub data Descends (rows : List Row) (root : ℕ) : ℕ → ℕ → Type 0 where
  itself : Descends rows root 0 root
  child :
      {d p q : ℕ}
      → Descends rows root d p
      → has_child rows p q ≡ true
      → Descends rows root (suc d) q

or_right : (a b : Bool) → b ≡ true → (a || b) ≡ true
or_right true b e = refl
or_right false b e = e

All-is_in : (P : ℕ → Type 0) (p : ℕ) (ps : List ℕ) → All P ps → is_in p ps ≡ true → P p
unfolding is_in
All-is_in P p [] h e = let absurd : ⊥ = cc in elim absurd [ ]
All-is_in P p (q ∷ ps) h e = elim (Bool-cases (q == p)) [
  | inl here ↦ let same : q ≡ p = ground arith in subst P same h.0
  | inr away ↦ All-is_in P p ps h.1 (rw away at e)
]

is_in-append_left : (p : ℕ) (ps qs : List ℕ) → is_in p ps ≡ true → is_in p (ps ++ qs) ≡ true
unfolding is_in
is_in-append_left p [] qs e = let absurd : ⊥ = cc in elim absurd [ ]
is_in-append_left p (q ∷ ps) qs e = elim (Bool-cases (q == p)) [
  | inl here ↦ rw here refl
  | inr away ↦ rw away (is_in-append_left p ps qs (rw away at e))
]

is_in-append_right : (p : ℕ) (ps qs : List ℕ) → is_in p qs ≡ true → is_in p (ps ++ qs) ≡ true
unfolding is_in
is_in-append_right p [] qs e = e
is_in-append_right p (q ∷ ps) qs e = or_right (q == p) _ (is_in-append_right p ps qs e)

is_in-subset :
    (p : ℕ) (more selected : List ℕ)
    → is_subset more selected ≡ true
    → is_in p more ≡ true
    → is_in p selected ≡ true
unfolding is_subset is_in
is_in-subset p [] selected h e = let absurd : ⊥ = cc in elim absurd [ ]
is_in-subset p (q ∷ more) selected h e = elim (Bool-cases (is_in q selected)) [
  | inl there ↦ elim (Bool-cases (q == p)) [
    | inl here ↦ let same : q ≡ p = ground arith in subst (λ x. is_in x selected ≡ true) same there
    | inr away ↦ is_in-subset p more selected (rw there at h) (rw away at e)
  ]
  | inr missing ↦
      let wrong : false ≡ true = rw missing at h in let absurd : ⊥ = cc in elim absurd [ ]
]

is_in-children :
    (rows : List Row) (selected : List ℕ) (p q : ℕ)
    → is_in p selected ≡ true
    → has_child rows p q ≡ true
    → is_in q (children rows selected) ≡ true
unfolding children is_in
is_in-children [] selected p q e h = let absurd : ⊥ = cc in elim absurd [ ]
is_in-children (r ∷ rows) selected p q e h =
    by_row (is_in-children rows selected p q e) (is_in r.parent selected) (r.parent == p)
      (r.pid == q) refl refl refl h
  where
    by_row :
        (later : has_child rows p q ≡ true → is_in q (children rows selected) ≡ true)
        → (c a b : Bool) → is_in r.parent selected ≡ c
        → (r.parent == p) ≡ a
        → (r.pid == q) ≡ b
        → ((a && b) || has_child rows p q) ≡ true
        → is_in q (if c then r.pid ∷ children rows selected else children rows selected) ≡ true
    by_row later true a true e0 e1 e2 h' = rw e2 refl
    by_row later true true false e0 e1 e2 h' = or_right (r.pid == q) _ (later h')
    by_row later true false false e0 e1 e2 h' = or_right (r.pid == q) _ (later h')
    by_row later false true true e0 e1 e2 h' =
        let same : r.parent ≡ p = ground arith in
        let there : is_in r.parent selected ≡ true = rw same e in
        let wrong : true ≡ false = sym there ∙ e0 in let absurd : ⊥ = cc in elim absurd [ ]
    by_row later false true false e0 e1 e2 h' = later h'
    by_row later false false b e0 e1 e2 h' = later h'

module _ (rows : List Row) (root : ℕ) where
  abbrev pub IsDescendant : ℕ → Type 0
  IsDescendant p = (d : ℕ) × Descends rows root d p

  -- Whoever descends in at most so many generations is selected.
  abbrev Reaches : ℕ → List ℕ → Type 0
  Reaches k selected = (d p : ℕ) → d ≤ k → Descends rows root d p → is_in p selected ≡ true

  next-Reaches :
      (k : ℕ) (selected : List ℕ)
      → Reaches k selected
      → Reaches (suc k) (children rows selected ++ selected)
  next-Reaches k selected h d p small (itself) =
      is_in-append_right p (children rows selected) selected (h 0 p (omega arith) itself)
  next-Reaches k selected h d q small (child {d = d'} {p = p} parent step) =
      is_in-append_left q (children rows selected) selected
        (is_in-children rows selected p q (h d' p (omega arith) parent) step)

  closed-Reaches :
      (k : ℕ) (selected : List ℕ)
      → Reaches 0 selected
      → is_subset (children rows selected) selected ≡ true
      → Reaches k selected
  closed-Reaches k selected h closed d p small itself = h 0 p (omega arith) itself
  closed-Reaches k selected h closed d q small (child {d = d'} {p = p} parent step) =
      is_in-subset q (children rows selected) selected closed (
        is_in-children rows selected p q
          (closed-Reaches k selected h closed d' p (omega arith) parent) step)

  grow-Reaches :
      (n k : ℕ) (selected : List ℕ) → Reaches k selected → Reaches (k + n) (grow n rows selected)
  unfolding grow
  grow-Reaches zero k selected h = λ d p small. h d p (omega arith)
  grow-Reaches (suc n) k selected h =
      by_test
        (grow-Reaches n (suc k) (children rows selected ++ selected) (next-Reaches k selected h))
        (is_subset (children rows selected) selected) refl
    where
      by_test :
          Reaches (suc k + n) (grow n rows (children rows selected ++ selected))
          → (b : Bool) → is_subset (children rows selected) selected ≡ b
          → Reaches
              (k + suc n)
              (if b then selected else grow n rows (children rows selected ++ selected))
      by_test further true e =
          closed-Reaches (k + suc n) selected (λ d p small. h d p (omega arith)) e
      by_test further false e = λ d p small. further d p (omega arith)

  own_children : (rest : List Row) → All (λ r. has_child rest r.parent r.pid ≡ true) rest
  own_children [] = tt
  own_children (r ∷ rest) =
      let first : (r.parent == r.parent) ≡ true = ground arith in
      let second : (r.pid == r.pid) ≡ true = ground arith in
      (rw (first, second) refl, weaken rest (own_children rest))
    where
      weaken :
          (some_rows : List Row)
          → All (λ x. has_child rest x.parent x.pid ≡ true) some_rows
          → All (λ x. has_child (r ∷ rest) x.parent x.pid ≡ true) some_rows
      weaken [] h = tt
      weaken (x ∷ some_rows) h = (or_right _ _ h.0, weaken some_rows h.1)

  children-All :
      (rest : List Row) (selected : List ℕ)
      → All (λ r. has_child rows r.parent r.pid ≡ true) rest
      → All IsDescendant selected
      → All IsDescendant (children rest selected)
  unfolding children
  children-All [] selected h known = tt
  children-All (r ∷ rest) selected h known =
      by_test (children-All rest selected h.1 known) (is_in r.parent selected) refl
    where
      by_test :
          All IsDescendant (children rest selected)
          → (b : Bool) → is_in r.parent selected ≡ b
          → All IsDescendant (if b then r.pid ∷ children rest selected else children rest selected)
      by_test later false e = later
      by_test later true e =
          let parent : IsDescendant r.parent = All-is_in IsDescendant r.parent selected known e in
          ((suc parent.0, child parent.1 h.0), later)

  grow-All :
      (n : ℕ) (selected : List ℕ)
      → All IsDescendant selected
      → All IsDescendant (grow n rows selected)
  unfolding grow
  grow-All zero selected known = known
  grow-All (suc n) selected known =
      by_test
        (grow-All n (children rows selected ++ selected) (
          All-append _ (children rows selected) selected
            (children-All rows selected (own_children rows) known) known))
        (is_subset (children rows selected) selected)
    where
      by_test :
          All IsDescendant (grow n rows (children rows selected ++ selected))
          → (b : Bool)
          → All IsDescendant
              (if b then selected else grow n rows (children rows selected ++ selected))
      by_test further true = known
      by_test further false = further

abbrev pub pids : List Row → List ℕ
pids [] = []
pids (r ∷ rows) = r.pid ∷ pids rows

is_in-select :
    (p : ℕ) (selected : List ℕ) (rest : List Row)
    → is_in p selected ≡ true
    → is_in p (pids rest) ≡ true
    → is_in p (pids (select (λ r. is_in r.pid selected) rest)) ≡ true
unfolding is_in
is_in-select p selected [] h e = e
is_in-select p selected (r ∷ rest) h e = elim (Bool-cases (r.pid == p)) [
  | inl here ↦
      let same : r.pid ≡ p = ground arith in
      let there : is_in r.pid selected ≡ true = rw same h in rw (there, here) refl
  | inr away ↦
      let later : is_in p (pids (select (λ r. is_in r.pid selected) rest)) ≡ true =
        is_in-select p selected rest h (rw away at e) in
      elim (Bool-cases (is_in r.pid selected)) [
        | inl there ↦ rw (there, away) later
        | inr missing ↦ rw missing later
      ]
]

select-IsDescendant :
    (rows : List Row) (root : ℕ) (selected : List ℕ) (rest : List Row)
    → All (IsDescendant rows root) selected
    → All (λ r. IsDescendant rows root r.pid) (select (λ r. is_in r.pid selected) rest)
select-IsDescendant rows root selected [] known = tt
select-IsDescendant rows root selected (r ∷ rest) known = elim (Bool-cases (is_in r.pid selected)) [
  | inl there ↦ rw there (
    All-is_in (IsDescendant rows root) r.pid selected known there,
    select-IsDescendant rows root selected rest known,
  )
  | inr missing ↦ rw missing (select-IsDescendant rows root selected rest known)
]

root-Reaches :
    (rows : List Row) (root d p : ℕ) → d ≤ 0 → Descends rows root d p → is_in p (root ∷ []) ≡ true
unfolding is_in
root-Reaches rows root d p small itself =
    let self : (root == root) ≡ true = ground arith in rw self refl
root-Reaches rows root d q small (child parent step) =
    let absurd : ⊥ = omega arith in elim absurd [ ]

-- Every process that is listed descends from the root by the parents of the rows, or is the root; and each
-- process of the rows that descends from it in at most 64 generations is listed.
pub related-IsDescendant :
    (rows : List Row) (root : ℕ)
    → All (λ r. IsDescendant rows root r.pid) (related rows root)
      × ((d p : ℕ)
          → d ≤ 64
          → Descends rows root d p
          → is_in p (pids rows) ≡ true
          → is_in p (pids (related rows root)) ≡ true)
unfolding related
related-IsDescendant rows root = (
  select-IsDescendant rows root (grow 64 rows (root ∷ [])) rows
      (grow-All rows root 64 (root ∷ []) ((0, itself), tt)),
  λ d p small descends listed.
      is_in-select p (grow 64 rows (root ∷ [])) rows
        (grow-Reaches rows root 64 0 (root ∷ []) (root-Reaches rows root) d p small descends)
        listed,
)
