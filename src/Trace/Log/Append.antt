-- ===== src/Trace/Log/Append.antt =====
-- macdbg/core/trace_log.py: `append` keeps the log the end of its history.
use macdbg.Prelude.{
  ℕ, suc, ◌+◌, ◌≤◌, ◌<◌, ◌≡◌, refl, ap, ◌∙◌, Bool, true, false, Option, none, some, List, [], ◌∷◌,
  ◌++◌, map, append_assoc, arith, length, length-append, Result, ok, err, ◌⊎◌, inl, inr,
  Option-cases,
}
use macdbg.Trace.Log.{
  Row, TraceLog, Window, Disk, written, makedirs_fails, write_fails, Error, os_error, push, evict,
  keep, new_row, append_to, append,
}
use macdbg.Trace.Log.Invariant.{IsLog, Evicted, evict-Evicted, sum, Numbered, size_of, line_of}

push-lt :
    {A : Type 0} (maxlen : ℕ) (xs : List A) (x : A)
    → length xs < maxlen
    → push maxlen xs x ≡ xs ++ x ∷ []
unfolding push
push-lt maxlen xs x h = ground arith

map-append_one :
    {A B : Type 0} (f : A → B) (xs : List A) (x : A) → map f (xs ++ x ∷ []) ≡ map f xs ++ f x ∷ []
map-append_one f [] x = refl
map-append_one f (y ∷ xs) x = ap (λ ys. f y ∷ ys) (map-append_one f xs x)

length-map : {A B : Type 0} (f : A → B) (xs : List A) → length (map f xs) ≡ length xs
length-map f [] = refl
length-map f (x ∷ xs) = ap suc (length-map f xs)

sum-append : (xs : List ℕ) (x : ℕ) → sum (xs ++ x ∷ []) ≡ sum xs + x
sum-append [] x = omega arith
sum-append (y ∷ xs) x = omega (arith, sum-append xs x)

Numbered-append :
    {D : Type 0} (k : ℕ) (rows : List (Row D)) (r : Row D)
    → Numbered k rows
    → r.n ≡ k + length rows
    → Numbered k (rows ++ r ∷ [])
Numbered-append k [] r h e = (omega (arith, e), tt)
Numbered-append k (q ∷ rows) r h e = (h.0, Numbered-append (k + 1) rows r h.1 (omega (arith, e)))

module _ {D : Type 0} (dumps : Row D → List ℕ) where
  room_lt :
      (capacity capacity_bytes size : ℕ) (rows : List (Row D)) (w : Window D)
      → 0 < capacity
      → Evicted dumps capacity capacity_bytes size rows w
      → length w.rows < capacity
  room_lt capacity capacity_bytes size rows w positive h = elim h.room [
    | inl empty ↦ rw empty positive
    | inr fits ↦ fits.0
  ]

  budget_of :
      (capacity capacity_bytes size : ℕ) (rows : List (Row D)) (w : Window D) (row : Row D)
      → Evicted dumps capacity capacity_bytes size rows w
      → (w.live_bytes + size ≤ capacity_bytes) ⊎ (length (w.rows ++ row ∷ []) ≤ 1)
  budget_of capacity capacity_bytes size rows w row h = elim h.room [
    | inl empty ↦ inr (rw empty (omega arith))
    | inr fits ↦ inl fits.1
  ]

  -- One more row, behind an end of the live rows that leaves room for it.
  keep-IsLog :
      (history : List (Row D)) (row : Row D) (path : Option ℕ) (log : TraceLog D)
      → IsLog dumps history log
      → row.n ≡ log.count + 1
      → 0 < log.capacity
      → (let after =
            keep dumps row
              (record log { path = path; lines = log.lines ++ line_of dumps row ∷ [] }) in
          (after.0 ≡ ok row) × IsLog dumps (history ++ row ∷ []) after.1)
  unfolding keep
  keep-IsLog history row path log h number positive =
      let size : ℕ = length (dumps row) in
      let (w, evicted, rest) =
        evict-Evicted dumps log.capacity log.capacity_bytes size log.rows log.live_bytes
          (h.summed ∙ ap sum h.sized) in
      let ran : evict log.capacity log.capacity_bytes size log.rows log.row_sizes log.live_bytes
          ≡ ok w =
        rw h.sized evicted in
      let room = room_lt log.capacity log.capacity_bytes size log.rows w positive rest in
      let pushed = push-lt log.capacity w.rows row room in
      let same_length = ap length rest.sized ∙ length-map (size_of dumps) w.rows in
      let pushed_sizes = push-lt log.capacity w.row_sizes size (omega (arith, same_length)) in
      rw (ran, keep)
        (
          refl,
          record {
            older = h.older ++ rest.dropped;
            split = rw pushed (
                ap (λ xs. xs ++ row ∷ []) (h.split ∙ ap (λ xs. h.older ++ xs) rest.split)
                ∙ simp append_assoc);
            filed = rw (map-append_one (line_of dumps) history row, h.filed);
            numbered = Numbered-append 1 history row h.numbered (omega (arith, h.counted, number));
            counted = omega (arith, h.counted, length-append history (row ∷ []));
            sized =
                rw (pushed, pushed_sizes, map-append_one (size_of dumps) w.rows row, rest.sized);
            summed = rw pushed_sizes (omega (arith, sum-append w.row_sizes size, rest.summed));
            within = rw pushed (omega (arith, length-append w.rows (row ∷ [])));
            budget = rw pushed (budget_of log.capacity log.capacity_bytes size log.rows w row rest);
          },
        )

  new_row_n :
      (timestamp : ℕ) (category call : List ℕ) (details : D) (log : TraceLog D)
      → (new_row dumps timestamp category call details log).n ≡ log.count + 1
  unfolding new_row
  new_row_n timestamp category call details log = refl

  IsLog-path :
      (history : List (Row D)) (path : Option ℕ) (log : TraceLog D)
      → IsLog dumps history log
      → IsLog dumps history (record log { path = path })
  IsLog-path history path log h = record {
    older = h.older;
    split = h.split;
    filed = h.filed;
    numbered = h.numbered;
    counted = h.counted;
    sized = h.sized;
    summed = h.summed;
    within = h.within;
    budget = h.budget;
  }

-- Whether the file system lets a row be recorded: the directory is made for the first row only.
abbrev pub accepts : Disk → Option ℕ → Bool
accepts written path = true
accepts makedirs_fails none = false
accepts makedirs_fails (some p) = true
accepts write_fails path = false

module _ {D : Type 0} (dumps : Row D → List ℕ) where
  -- What a call of `append` leads to: its result, and the history that the log then stands for.
  abbrev pub Appended : Bool → List (Row D) → Row D → Result Error (Row D) × TraceLog D → Type 0
  Appended true history row (result, log) =
      (result ≡ ok row) × IsLog dumps (history ++ row ∷ []) log
  Appended false history row (result, log) = (result ≡ err os_error) × IsLog dumps history log

  module _ (fresh timestamp : ℕ) (category call : List ℕ) (details : D) (history : List (Row D))
      (log : TraceLog D) (h : IsLog dumps history log) (positive : 0 < log.capacity) where
    abbrev row : Row D
    row = new_row dumps timestamp category call details log

    append_to-written :
        Appended true history row
          (append_to dumps written fresh timestamp category call details log)
    unfolding append_to
    append_to-written =
        keep-IsLog dumps history row _ log h (new_row_n dumps timestamp category call details log)
          positive

    pub append-IsLog :
        (disk : Disk)
        → Appended
            (accepts disk log.path)
            history
            row
            (append dumps disk fresh timestamp category call details log)
    unfolding append
    append-IsLog written = append_to-written
    append-IsLog makedirs_fails = elim (Option-cases log.path) [
      | inl e ↦ rw (e, append) (refl, h)
      | inr (p, e) ↦ rw (e, append) append_to-written
    ]
    append-IsLog write_fails = (refl, IsLog-path dumps history _ log h)
