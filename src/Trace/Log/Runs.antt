-- ===== src/Trace/Log/Runs.antt =====
-- macdbg/core/trace_log.py: any sequence of calls of `append` after a `reset`.
use macdbg.Prelude.{
  ℕ, ◌<◌, ◌≡◌, refl, true, false, if◌then◌else◌, List, [], ◌∷◌, ◌++◌, arith, length, inl, inr,
  Result, ok, err, Bool-cases, Option-cases, append-nil, append-append_one,
}
use macdbg.Trace.Log.{
  Row, TraceLog, Disk, written, makedirs_fails, write_fails, Error, reset, new_row, append,
  append_to, keep, evict, Window,
}
use macdbg.Trace.Log.Invariant.{IsLog}
use macdbg.Trace.Log.Append.{accepts, Appended, append-IsLog}

pub record Call (D : Type 0) : Type 0 where
  pub disk : Disk
  pub fresh : ℕ
  pub timestamp : ℕ
  pub category : List ℕ
  pub call : List ℕ
  pub details : D

pub reset-IsLog :
    {D : Type 0} (dumps : Row D → List ℕ) (epoch : ℕ) (log : TraceLog D)
    → IsLog dumps [] (reset epoch log)
unfolding reset
reset-IsLog dumps epoch log = record {
  older = [];
  split = refl;
  filed = refl;
  numbered = tt;
  counted = refl;
  sized = refl;
  summed = refl;
  within = omega arith;
  budget = inr (omega arith);
}

module _ {D : Type 0} (dumps : Row D → List ℕ) where
  unfoldable pub step : TraceLog D → Call D → TraceLog D
  step log c = (append dumps c.disk c.fresh c.timestamp c.category c.call c.details log).1

  -- The calls one after another; an `OSError` ends only its own call.
  unfoldable pub run : TraceLog D → List (Call D) → TraceLog D
  unfolding step
  run log [] = log
  run log (c ∷ calls) = run (step log c) calls

  -- The rows of the calls that the file system accepts.
  unfoldable pub recorded : TraceLog D → List (Call D) → List (Row D)
  unfolding step
  recorded log [] = []
  recorded log (c ∷ calls) =
      let rest = recorded (step log c) calls in
      if accepts c.disk log.path
      then new_row dumps c.timestamp c.category c.call c.details log ∷ rest
      else rest

  capacity-keep : (row : Row D) (log : TraceLog D) → (keep dumps row log).1.capacity ≡ log.capacity
  unfolding keep
  capacity-keep row log =
      step_of
        (evict log.capacity log.capacity_bytes (length (dumps row)) log.rows log.row_sizes
          log.live_bytes)
        refl
    where
      step_of :
          (r : Result Error (Window D))
          → evict log.capacity log.capacity_bytes
              (length (dumps row))
              log.rows
              log.row_sizes
              log.live_bytes
            ≡ r
          → (keep dumps row log).1.capacity ≡ log.capacity
      step_of (ok w) e = rw (e, keep)
      step_of (err x) e = rw (e, keep)

  capacity-append_to :
      (disk : Disk) (fresh timestamp : ℕ) (category call : List ℕ) (details : D) (log : TraceLog D)
      → (append_to dumps disk fresh timestamp category call details log).1.capacity ≡ log.capacity
  unfolding append_to
  capacity-append_to written fresh timestamp category call details log = capacity-keep _ _
  capacity-append_to _ fresh timestamp category call details log = refl

  capacity-step : (log : TraceLog D) (c : Call D) → (step log c).capacity ≡ log.capacity
  unfolding step append
  capacity-step log c = by_disk c.disk
    where
      by_disk :
          (disk : Disk)
          → (append dumps disk c.fresh c.timestamp c.category c.call c.details log).1.capacity
            ≡ log.capacity
      by_disk written =
          capacity-append_to written c.fresh c.timestamp c.category c.call c.details log
      by_disk makedirs_fails = elim (Option-cases log.path) [
        | inl e ↦ rw (e, append)
        | inr (p, e) ↦
            rw (e, append)
              (capacity-append_to written c.fresh c.timestamp c.category c.call c.details log)
      ]
      by_disk write_fails =
          capacity-append_to write_fails c.fresh c.timestamp c.category c.call c.details log

  -- One call takes the history on by its row, if it is accepted.
  run_from :
      (history : List (Row D)) (log : TraceLog D) (calls : List (Call D))
      → IsLog dumps history log
      → 0 < log.capacity
      → IsLog dumps (history ++ recorded log calls) (run log calls)
  unfolding run recorded
  run_from history log [] h positive = rw append-nil h
  run_from history log (c ∷ calls) h positive =
      let row = new_row dumps c.timestamp c.category c.call c.details log in
      let stepped =
        append-IsLog dumps c.fresh c.timestamp c.category c.call c.details history log h positive
          c.disk in
      let room : 0 < (step log c).capacity = rw (capacity-step log c) positive in
      elim (Bool-cases (accepts c.disk log.path)) [
        | inl yes' ↦
            let appended : Appended dumps true history row _ = rw yes' at stepped in
            rw yes' (
              rw (append-append_one history row (recorded (step log c) calls)) at
                (run_from (history ++ row ∷ []) (step log c) calls appended.1 room))
        | inr no' ↦
            let refused : Appended dumps false history row _ = rw no' at stepped in
            rw no' (run_from history (step log c) calls refused.1 room)
      ]

  pub run-IsLog :
      (epoch : ℕ) (log : TraceLog D) (calls : List (Call D))
      → 0 < log.capacity
      → IsLog dumps (recorded (reset epoch log) calls) (run (reset epoch log) calls)
  run-IsLog epoch log calls positive =
      run_from [] (reset epoch log) calls (reset-IsLog dumps epoch log) (unfold reset in positive)
