-- ===== src/Trace/Log/Invariant.antt =====
-- macdbg/core/trace_log.py: the live history is the bounded end of all that was recorded.
use macdbg.Prelude.{
  ℕ, ◌+◌, ◌-◌, ◌≤◌, ◌<◌, ◌≡◌, refl, ap, ◌||◌, List, [], ◌∷◌, ◌++◌, map, arith, ltb, leb, length, ok,
  ◌⊎◌, inl, inr, Bool-cases,
}
use macdbg.Trace.Log.{Row, TraceLog, Window, evict}

abbrev pub sum : List ℕ → ℕ
sum [] = 0
sum (x ∷ xs) = x + sum xs

-- The rows are numbered from `k` on.
abbrev pub Numbered : {D : Type 0} → ℕ → List (Row D) → Type 0
Numbered k [] = Unit
Numbered k (r ∷ rows) = (r.n ≡ k) × Numbered (k + 1) rows

module _ {D : Type 0} (dumps : Row D → List ℕ) where
  abbrev pub size_of : Row D → ℕ
  size_of row = length (dumps row)

  abbrev pub line_of : Row D → List ℕ
  line_of row = dumps row ++ 10 ∷ []

  -- A log with the history of all rows of this epoch, of which the live rows are the end.
  pub record IsLog (history : List (Row D)) (log : TraceLog D) : Type 0 where
    pub older : List (Row D)
    pub split : history ≡ older ++ log.rows
    pub filed : log.lines ≡ map line_of history
    pub numbered : Numbered 1 history
    pub counted : log.count ≡ length history
    pub sized : log.row_sizes ≡ map size_of log.rows
    pub summed : log.live_bytes ≡ sum log.row_sizes
    pub within : length log.rows ≤ log.capacity
    pub budget : (log.live_bytes ≤ log.capacity_bytes) ⊎ (length log.rows ≤ 1)

  -- What the eviction loop leaves: an end of the rows, with room for one more.
  pub record Evicted (capacity capacity_bytes size : ℕ) (rows : List (Row D)) (w : Window D)
      : Type 0 where
    pub dropped : List (Row D)
    pub split : rows ≡ dropped ++ w.rows
    pub sized : w.row_sizes ≡ map size_of w.rows
    pub summed : w.live_bytes ≡ sum w.row_sizes
    pub room : (w.rows ≡ []) ⊎ ((length w.rows < capacity) × (w.live_bytes + size ≤ capacity_bytes))

  pub evict-Evicted :
      (capacity capacity_bytes size : ℕ) (rows : List (Row D)) (live : ℕ)
      → live ≡ sum (map size_of rows)
      → (w : Window D) × (evict capacity capacity_bytes size rows (map size_of rows) live ≡ ok w)
        × Evicted capacity capacity_bytes size rows w
  unfolding evict
  evict-Evicted capacity capacity_bytes size [] live e = (
    record { rows = []; row_sizes = []; live_bytes = live },
    refl,
    record { dropped = []; split = refl; sized = refl; summed = e; room = inl refl },
  )
  evict-Evicted capacity capacity_bytes size (r ∷ rows) live e =
      elim (Bool-cases (leb capacity (length (r ∷ rows)) || ltb capacity_bytes (live + size))) [
        | inl full ↦
            let (w, ran, h) =
              evict-Evicted capacity capacity_bytes size rows (live - size_of r) (omega arith) in
            (
              w,
              rw full ran,
              record {
                dropped = r ∷ h.dropped;
                split = ap (λ xs. r ∷ xs) h.split;
                sized = h.sized;
                summed = h.summed;
                room = h.room;
              },
            )
        | inr fits ↦ (
          record { rows = r ∷ rows; row_sizes = map size_of (r ∷ rows); live_bytes = live },
          rw fits,
          record {
            dropped = [];
            split = refl;
            sized = refl;
            summed = e;
            room = inr (ground arith);
          },
        )
      ]
