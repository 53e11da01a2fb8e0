-- ===== src/Trace/Log/Tests.antt =====
-- Runs of macdbg/core/trace_log.py on a small log, and the theorems about it there.
use macdbg.Prelude.{ℕ, ◌≡◌, refl, ltb, none, List, [], ◌∷◌, arith, length, select, map}
use macdbg.Trace.Log.{
  Row, TraceLog, Disk, written, makedirs_fails, write_fails, reset, append, snapshot,
}
use macdbg.Trace.Log.Polling.{snapshot_complete}
use macdbg.Trace.Log.Runs.{Call, step, run, recorded, run-IsLog}

abbrev dumps : Row ℕ → List ℕ
dumps row = row.n ∷ row.call

-- A log of at most two rows and a hundred bytes.
abbrev blank : TraceLog ℕ
blank = record {
  capacity = 2;
  capacity_bytes = 100;
  rows = [];
  row_sizes = [];
  live_bytes = 0;
  count = 0;
  epoch = 0;
  path = none;
  lines = [];
}

abbrev call_of : Disk → ℕ → Call ℕ
call_of disk k = record {
  disk = disk;
  fresh = 5;
  timestamp = k;
  category = 1 ∷ [];
  call = k ∷ [];
  details = k;
}

-- Three rows are recorded, between them one call that cannot write.
abbrev calls : List (Call ℕ)
calls =
    call_of written 10
    ∷ call_of write_fails 11
    ∷ call_of makedirs_fails 12
    ∷ call_of written 13
    ∷ []

abbrev busy : TraceLog ℕ
busy = run dumps (reset 7 blank) calls

abbrev rows_of : List (Row ℕ)
rows_of = recorded dumps (reset 7 blank) calls

busy_live : map (λ (r : Row ℕ). r.n) busy.rows ≡ 2 ∷ 3 ∷ []
unfolding run step append reset
busy_live = refl

busy_first : (snapshot 1 busy).first_available ≡ 2
unfolding run step append reset snapshot
busy_first = refl

snapshot_complete_example :
    ((snapshot 1 busy).hits ≡ select (λ r. ltb 1 r.n) rows_of)
    × ((snapshot 1 busy).total ≡ length rows_of)
snapshot_complete_example =
    snapshot_complete dumps rows_of busy (run-IsLog dumps 7 blank calls (omega arith)) 1
      (rw busy_first (omega arith))
