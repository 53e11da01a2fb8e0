-- ===== src/AnalysisMemory/Snapshots.antt =====
-- The snapshots that `capture` of macdbg/core/analysis_memory.py keeps and `compare` finds.
use macdbg.Prelude.{
  ℕ, zero, suc, ◌+◌, ◌-◌, ◌^◌, ◌≤◌, ◌≡◌, ◌≢◌, refl, sym, ◌∙◌, ap, subst, Bool, true, false, not,
  ◌&&◌, ◌||◌, some, List, [], ◌∷◌, ◌++◌, ltb, leb, ◌==◌, if◌then◌else◌, length, drop, All,
  All-append, length-drop, arith, Result, ok, err, Post, Post-raise_if, ◌↔◌,
}
use macdbg.Prelude.Int.{ℤ, pos, negsuc}
use macdbg.AnalysisMemory.{
  Snapshot, Store, Live, Problem, not_stopped, bad_size, unreadable, evict_snapshots, new_snapshot,
  keep_snapshot, captured, after_read, capture, find_snapshot, compared, compare_found,
  compare_snapshot, Comparison, is_nil, snapshot_limit,
}
use macdbg.AnalysisMemory.Distance.{compared-distance}

-- What every store has: at most eight snapshots, numbered up to `sequence`.
pub record IsStore (store : Store) : Type 0 where
  pub few : length store.snapshots ≤ 8
  pub numbered : All (λ s. s.id ≤ store.sequence) store.snapshots

evict_snapshots-drop : (l : List Snapshot) → evict_snapshots l ≡ drop (length l - 8) l
unfolding evict_snapshots
evict_snapshots-drop [] = refl
evict_snapshots-drop (s ∷ l) = by_test (ltb 8 (suc (length l))) refl (evict_snapshots-drop l)
  where
    by_test :
        (b : Bool)
        → ltb 8 (suc (length l)) ≡ b
        → evict_snapshots l ≡ drop (length l - 8) l
        → (if b then evict_snapshots l else s ∷ l) ≡ drop (suc (length l) - 8) (s ∷ l)
    by_test true e ih =
        let more : suc (length l - 8) ≡ suc (length l) - 8 = ground arith in
        ih ∙ ap (λ n. drop n (s ∷ l)) more
    by_test false e ih =
        let few : 0 ≡ suc (length l) - 8 = ground arith in ap (λ n. drop n (s ∷ l)) few

All-drop : {A : Type 0} → (P : A → Type 0) (n : ℕ) (l : List A) → All P l → All P (drop n l)
All-drop P zero l h = h
All-drop P (suc n) [] h = tt
All-drop P (suc n) (x ∷ l) h = All-drop P n l h.1

All-raise : (n : ℕ) (l : List Snapshot) → All (λ s. s.id ≤ n) l → All (λ s. s.id ≤ suc n) l
All-raise n [] h = tt
All-raise n (s ∷ l) h = (omega (arith, h.0), All-raise n l h.1)

find_snapshot-append :
    (n : ℕ) (old : List Snapshot) (s : Snapshot)
    → All (λ o. o.id ≤ n) old
    → s.id ≡ suc n
    → find_snapshot s.id (old ++ s ∷ []) ≡ some s
unfolding find_snapshot
find_snapshot-append n [] s h e = let self : (s.id == s.id) ≡ true = ground arith in rw self refl
find_snapshot-append n (o ∷ old) s h e =
    let other : (o.id == s.id) ≡ false = ground (arith, h.0) in
    rw other (find_snapshot-append n old s h.1 e)

-- The last of a list is found behind others with smaller numbers.
find_snapshot-last :
    (n : ℕ) (old : List Snapshot) (s : Snapshot)
    → All (λ o. o.id ≤ n) old
    → s.id ≡ suc n
    → find_snapshot s.id (evict_snapshots (old ++ s ∷ [])) ≡ some s
unfolding find_snapshot evict_snapshots
find_snapshot-last n [] s h e = let self : (s.id == s.id) ≡ true = ground arith in rw self refl
find_snapshot-last n (o ∷ old) s h e =
    by_test (ltb 8 (suc (length (old ++ s ∷ [])))) (find_snapshot-last n old s h.1 e)
  where
    by_test :
        (b : Bool)
        → find_snapshot s.id (evict_snapshots (old ++ s ∷ [])) ≡ some s
        → find_snapshot s.id (if b then evict_snapshots (old ++ s ∷ []) else o ∷ (old ++ s ∷ []))
          ≡ some s
    by_test true ih = ih
    by_test false ih = find_snapshot-append n (o ∷ old) s h e

keep_snapshot-IsStore :
    (address requested : ℕ) (label content : List ℕ) (store : Store)
    → IsStore store
    → IsStore (keep_snapshot address requested label content store).1
unfolding keep_snapshot new_snapshot
keep_snapshot-IsStore address requested label content store h =
    let s = new_snapshot store address requested label content in
    let all = store.snapshots ++ s ∷ [] in
    let dropped = evict_snapshots-drop all in
    record {
      few = subst (λ l. length l ≤ 8) (sym dropped) (few_left all);
      numbered = subst (All (λ o. o.id ≤ suc store.sequence)) (sym dropped) (
          All-drop (λ o. o.id ≤ suc store.sequence) (length all - 8) all
            (All-append (λ o. o.id ≤ suc store.sequence) store.snapshots (s ∷ [])
              (All-raise store.sequence store.snapshots h.numbered) (omega arith, tt)));
    }
  where
    few_left : (l : List Snapshot) → length (drop (length l - 8) l) ≤ 8
    few_left l = omega (arith, length-drop (length l - 8) l)

is_nil-length : (content : List ℕ) → is_nil content ≡ false → length content ≢ 0
is_nil-length [] h = cc
is_nil-length (c ∷ content) h = omega arith

captured-bytes :
    (live : Live) (address size : ℤ)
    → Post (λ e. Unit {0}) (λ r. length r.2 ≢ 0) (captured live address size)
unfolding captured
captured-bytes live (negsuc a) size = tt
captured-bytes live (pos a) (negsuc n) = tt
captured-bytes live (pos a) (pos n) =
    Post-raise_if (λ e. Unit) (λ r. length r.2 ≢ 0)
      (not (ltb 0 n && leb n snapshot_limit) || leb (2 ^ 64) (a + n)) bad_size _ tt
      (λ e.
        Post-raise_if (λ e. Unit) (λ r. length r.2 ≢ 0) (not live.stopped) not_stopped _ tt
          (λ e'.
            Post-raise_if (λ e. Unit) (λ r. length r.2 ≢ 0) (is_nil (live.read_memory a n))
              unreadable _ tt (λ e''. is_nil-length (live.read_memory a n) e'')))

-- What `capture` answers, for a later look at the process: a new snapshot, which is kept in a store of
-- at most eight and found there, and compared with what is read of its range then; or an error,
-- which keeps the store.
abbrev pub Captured : Live → Store → Result Problem Snapshot × Store → Type 0
Captured later store (err e, store') = store' ≡ store
Captured later store (ok s, store') =
    IsStore store'
    × (find_snapshot s.id store'.snapshots ≡ some s)
    × (length s.content ≢ 0)
    × (c : Comparison) × (compare_snapshot later s.id store' ≡ ok c)
    × (c.changed_bytes ≡ 0 ↔ s.content ≡ later.read_memory s.address (length s.content))

-- A snapshot that `capture` makes, in a store of at most eight numbered snapshots, is in a store of at
-- most eight, is found by its number and has bytes; and `compare` of it at a later stop answers, and
-- reports no changed byte exactly where the same bytes are read again. A capture that raises leaves
-- the store.
pub capture-Captured :
    (live later : Live) (address size : ℤ) (label : List ℕ) (store : Store)
    → IsStore store
    → later.stopped ≡ true
    → Captured later store (capture live address size label store)
unfolding capture keep_snapshot new_snapshot compare_snapshot
capture-Captured live later address size label store h stopped =
    by_read (captured live address size) (captured-bytes live address size)
  where
    by_read :
        (m : Result Problem (ℕ × ℕ × List ℕ))
        → Post (λ e. Unit {0}) (λ r. length r.2 ≢ 0) m
        → Captured later store (after_read label store m)
    by_read (err e) some_bytes = refl
    by_read (ok (a, n, content)) some_bytes =
        let s = new_snapshot store a n label content in
        let found = find_snapshot-last store.sequence store.snapshots s h.numbered refl in
        (
          keep_snapshot-IsStore a n label content store h,
          found,
          some_bytes,
          compared s (later.read_memory a (length content)),
          rw stopped (ap (compare_found later) found),
          (compared-distance s (later.read_memory a (length content))).1,
        )
