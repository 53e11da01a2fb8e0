-- ===== src/Trace/Log.antt =====
-- macdbg/core/trace_log.py: the bounded live history `TraceLog` and its session file.
pub mod Invariant
pub mod Append
pub mod Polling
pub mod Runs
mod Tests
use macdbg.Prelude.{
  ℕ, ◌+◌, ◌-◌, ◌||◌, Option, none, some, List, [], ◌∷◌, ◌++◌, ltb, leb, ◌==◌, if◌then◌else◌, length,
  drop, select, Result, ok, err,
}

-- A row: the fields that `append` writes, over the caller's details.
pub record Row (D : Type 0) : Type 0 where
  pub n : ℕ
  pub epoch : ℕ
  pub timestamp : ℕ
  pub category : List ℕ
  pub call : List ℕ
  pub details : D

-- A `TraceLog` object, with the lines that it has written to its file since `reset`.
pub record TraceLog (D : Type 0) : Type 0 where
  pub capacity : ℕ
  pub capacity_bytes : ℕ
  pub rows : List (Row D)
  pub row_sizes : List ℕ
  pub live_bytes : ℕ
  pub count : ℕ
  pub epoch : ℕ
  pub path : Option ℕ
  pub lines : List (List ℕ)

-- How the file system answers: the two calls that may raise, in the order in which they are made.
pub data Disk : Type 0 where
  written makedirs_fails write_fails : Disk

pub data Error : Type 0 where
  os_error index_error : Error

-- `reset`, with the fresh epoch that `uuid4` gives.
unfoldable pub reset : {D : Type 0} → ℕ → TraceLog D → TraceLog D
reset epoch log = record log {
  rows = [];
  row_sizes = [];
  live_bytes = 0;
  count = 0;
  epoch = epoch;
  path = none;
  lines = [];
}

-- `deque.append` on a deque with `maxlen`.
unfoldable pub push {ℓ} : {A : Type ℓ} → ℕ → List A → A → List A
push maxlen xs x =
    if maxlen == 0 then [] else if leb maxlen (length xs) then drop 1 xs ++ x ∷ [] else xs ++ x ∷ []

-- The rows, their sizes and the live bytes, as the eviction loop holds them.
pub record Window (D : Type 0) : Type 0 where
  pub rows : List (Row D)
  pub row_sizes : List ℕ
  pub live_bytes : ℕ

-- `while self.rows and (len(self.rows) >= self.capacity or …)`: drop the oldest row.
unfoldable pub evict :
    {D : Type 0} (capacity capacity_bytes size : ℕ)
    → List (Row D)
    → List ℕ
    → ℕ
    → Result Error (Window D)
evict capacity capacity_bytes size [] sizes live =
    ok (record { rows = []; row_sizes = sizes; live_bytes = live })
evict capacity capacity_bytes size (r ∷ rows) [] live =
    if leb capacity (length (r ∷ rows)) || ltb capacity_bytes (live + size)
    then err index_error
    else ok (record { rows = r ∷ rows; row_sizes = []; live_bytes = live })
evict capacity capacity_bytes size (r ∷ rows) (z ∷ sizes) live =
    let rest = evict capacity capacity_bytes size rows sizes (live - z) in
    if leb capacity (length (r ∷ rows)) || ltb capacity_bytes (live + size)
    then rest
    else ok (record { rows = r ∷ rows; row_sizes = z ∷ sizes; live_bytes = live })

-- `json.dumps`, the name of a fresh file, and a clock are what `append` takes from outside.
module _ {D : Type 0} (dumps : Row D → List ℕ) where
  -- The record behind the file's write: the live history.
  unfoldable pub keep : Row D → TraceLog D → Result Error (Row D) × TraceLog D
  unfolding evict push
  keep row log =
      let size = length (dumps row) in
      let counted = record log { count = log.count + 1 } in
      elim (evict log.capacity log.capacity_bytes size log.rows log.row_sizes log.live_bytes) [
        | err e ↦ (err e, counted)
        | ok w ↦ (
          ok row,
          record counted {
            rows = push log.capacity w.rows row;
            row_sizes = push log.capacity w.row_sizes size;
            live_bytes = w.live_bytes + size;
          },
        )
      ]

  -- `if self.path is None: self.path = …`
  unfoldable pub opened : (fresh : ℕ) → TraceLog D → TraceLog D
  opened fresh log = record log { path = some (elim log.path [ none ↦ fresh | some p ↦ p ]) }

  unfoldable pub new_row : (timestamp : ℕ) (category call : List ℕ) → D → TraceLog D → Row D
  new_row timestamp category call details log = record {
    n = log.count + 1;
    epoch = log.epoch;
    timestamp = timestamp;
    category = category;
    call = call;
    details = details;
  }

  -- The part of `append` that follows once the directory stands.
  unfoldable pub append_to :
      Disk
      → (fresh timestamp : ℕ) (category call : List ℕ) → D
      → TraceLog D
      → Result Error (Row D) × TraceLog D
  unfolding keep opened new_row
  append_to written fresh timestamp category call details log =
      let row = new_row timestamp category call details log in
      let here = opened fresh log in
      keep row (record here { lines = here.lines ++ (dumps row ++ 10 ∷ []) ∷ [] })
  append_to _ fresh timestamp category call details log = (err os_error, opened fresh log)

  -- `append(category, call, **details)`. The directory is made with the first row only.
  unfoldable pub append :
      Disk
      → (fresh timestamp : ℕ) (category call : List ℕ) → D
      → TraceLog D
      → Result Error (Row D) × TraceLog D
  unfolding append_to
  append makedirs_fails fresh timestamp category call details log = elim log.path [
    | none ↦ (err os_error, log)
    | some p ↦ append_to written fresh timestamp category call details log
  ]
  append disk fresh timestamp category call details log =
      append_to disk fresh timestamp category call details log

-- What `snapshot(since)` returns.
pub record Snapshot (D : Type 0) : Type 0 where
  pub hits : List (Row D)
  pub total : ℕ
  pub epoch : ℕ
  pub path : Option ℕ
  pub first_available : ℕ

unfoldable pub first_available : {D : Type 0} → TraceLog D → ℕ
first_available log = elim log.rows [ [] ↦ log.count + 1 | r ∷ rows ↦ r.n ]

unfoldable pub snapshot : {D : Type 0} → ℕ → TraceLog D → Snapshot D
unfolding first_available
snapshot since log = record {
  hits = select (λ r. ltb since r.n) log.rows;
  total = log.count;
  epoch = log.epoch;
  path = log.path;
  first_available = first_available log;
}
