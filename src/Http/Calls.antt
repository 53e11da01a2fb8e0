-- ===== src/Http/Calls.antt =====
-- macdbg/core/http_capture.py: any sequence of calls of `HTTPRequestCapture`.
use macdbg.Prelude.{
  ℕ, ◌+◌, ◌*◌, ◌≤◌, false, Option, none, some, List, [], ◌∷◌, ◌++◌, arith, length, All, All-append,
}
use macdbg.Http.Stream.{
  Stream, Mode, reading_headers, fixed, chunk_size, chunk_data, chunk_crlf, reading_trailers,
  finish, Request, stream_ended, Warning,
}
use macdbg.Http.Capture.{
  Streams, Capture, new_capture, stream_of, discard, flush, flush_all, reset_capture, ended, feed,
}
use macdbg.Http.Invariant.{InMode, IsHonest, Every, finish-IsHonest}
use macdbg.Http.Parts.{Held}
use macdbg.Http.Streams.{IsWaiting, AllWait, IsCapture}
use macdbg.Http.Feeding.{Fed, discard-IsCapture, feed-Fed}

ended-IsHonest : (warning : Warning) (streams : Streams) → All IsHonest (ended warning streams)
unfolding ended
ended-IsHonest warning [] = tt
ended-IsHonest warning ((k, s) ∷ streams) =
    go (finish s false none (some warning)) (finish-IsHonest s false none (some warning))
      (ended-IsHonest warning streams)
  where
    go :
        (o : Option Request)
        → Every IsHonest o
        → All IsHonest (ended warning streams)
        → All IsHonest
            (elim o [ none ↦ ended warning streams | some r ↦ r ∷ ended warning streams ])
    go none h ih = ih
    go (some r) h ih = (h, ih)

pub new_capture-IsCapture : (max_streams : ℕ) → IsCapture (new_capture max_streams)
unfolding new_capture
new_capture-IsCapture max_streams = record {
  some_room = omega arith;
  limited = omega arith;
  few = omega arith;
  waiting = tt;
}

-- The calls of the capture.
pub data Call : Type 0 where
  feeding : (key : ℕ) (data_given : List ℕ) (total_length : Option ℕ) → Call
  discarding flushing : (key : ℕ) → Call
  flushing_all resetting : Call

unfoldable pub step : Call → Capture → Option (List Request × Capture)
unfolding feed discard flush flush_all reset_capture
step (feeding key data_given total_length) c = feed key data_given total_length c
step (discarding key) c = some ([], discard key c)
step (flushing key) c = some (flush key c)
step flushing_all c = some (flush_all c)
step resetting c = some ([], reset_capture c)

-- The calls in their order, with all requests that they give out.
unfoldable pub run : List Call → Capture → Option (List Request × Capture)
unfolding step
run [] c = some ([], c)
run (call ∷ calls) c = elim (step call c) [
  | none ↦ none
  | some (result, c') ↦ elim (run calls c') [
    | none ↦ none
    | some (more, c'') ↦ some (result ++ more, c'')
  ]
]

reset-IsCapture : (c : Capture) → IsCapture c → IsCapture (record c { streams = [] })
reset-IsCapture c h = record {
  some_room = h.some_room;
  limited = h.limited;
  few = omega arith;
  waiting = tt;
}

flush-Fed : (key : ℕ) (c : Capture) → IsCapture c → Fed (some (flush key c))
unfolding flush
flush-Fed key c h = go (stream_of key c.streams)
  where
    go :
        (o : Option Stream)
        → Fed (
            some (elim o [
              | none ↦ ([], c)
              | some s ↦ (ended stream_ended ((key, s) ∷ []), discard key c)
            ]))
    go none = (tt, h)
    go (some s) = (ended-IsHonest stream_ended ((key, s) ∷ []), discard-IsCapture key c h)

step-Fed : (call : Call) (c : Capture) → IsCapture c → Fed (step call c)
unfolding step flush_all reset_capture
step-Fed (feeding key data_given total_length) c h = feed-Fed key data_given total_length c h
step-Fed (discarding key) c h = (tt, discard-IsCapture key c h)
step-Fed (flushing key) c h = flush-Fed key c h
step-Fed flushing_all c h = (ended-IsHonest stream_ended c.streams, reset-IsCapture c h)
step-Fed resetting c h = (tt, reset-IsCapture c h)

-- Any calls of a capture that holds its invariant end and keep it, and every request that they give
-- out as complete has its whole body: as many bytes as were counted, none of them cut off.
pub run-Fed : (calls : List Call) (c : Capture) → IsCapture c → Fed (run calls c)
unfolding run
run-Fed [] c h = (tt, h)
run-Fed (call ∷ calls) c h = go (step call c) (step-Fed call c h) λ c' h'. run-Fed calls c' h'
  where
    then_ :
        (result : List Request) (o : Option (List Request × Capture))
        → All IsHonest result
        → Fed o
        → Fed (elim o [ none ↦ none | some (more, c'') ↦ some (result ++ more, c'') ])
    then_ result none h k = elim k [ ]
    then_ result (some (more, c'')) h k = (All-append IsHonest result more h k.0, k.1)

    go :
        (o : Option (List Request × Capture))
        → Fed o
        → ((c' : Capture) → IsCapture c' → Fed (run calls c'))
        → Fed (elim o [
          | none ↦ none
          | some (result, c') ↦ elim (run calls c') [
            | none ↦ none
            | some (more, c'') ↦ some (result ++ more, c'')
          ]
        ])
    go none k rest = elim k [ ]
    go (some (result, c')) k rest = then_ result (run calls c') k.0 (rest c' k.1)

-- The bytes that a stream, and all of them, hold.
abbrev pub stream_bytes : Stream → ℕ
stream_bytes s = length s.buffer + length s.body

unfoldable pub held_bytes : Streams → ℕ
held_bytes [] = 0
held_bytes ((k, s) ∷ streams) = stream_bytes s + held_bytes streams

stream_bytes-bound : (s : Stream) → IsWaiting s → stream_bytes s ≤ 327680
stream_bytes-bound s h = by_mode h.at h.here h.held
  where
    by_mode :
        (m : Mode)
        → InMode m (record { stream = s; result = [] })
        → Held m (record { stream = s; result = [] })
        → stream_bytes s ≤ 327680
    by_mode reading_headers k held = omega (arith, k.kept, held)
    by_mode fixed k held = omega (arith, k.kept, held.0)
    by_mode chunk_size k held = omega (arith, k.kept, held)
    by_mode chunk_data k held = omega (arith, k.kept, held)
    by_mode chunk_crlf k held = omega (arith, k.kept, held)
    by_mode reading_trailers k held = omega (arith, k.kept, held)

held_bytes-bound :
    (streams : Streams) → AllWait streams → held_bytes streams ≤ length streams * 327680
unfolding held_bytes
held_bytes-bound [] h = omega arith
held_bytes-bound ((k, s) ∷ streams) h =
    omega (arith, stream_bytes-bound s h.0, held_bytes-bound streams h.1)

abbrev pub IsBounded : Option (List Request × Capture) → Type 0
IsBounded none = ⊥
IsBounded (some (result, c)) = held_bytes c.streams ≤ 64 * 327680

Fed-IsBounded : (o : Option (List Request × Capture)) → Fed o → IsBounded o
Fed-IsBounded none h = h
Fed-IsBounded (some (result, c)) h =
    omega (arith, held_bytes-bound c.streams h.1.waiting, h.1.few, h.1.limited)

-- Whatever a new capture is asked for and called with, it ends, and the streams that it still has
-- hold at most 64 times 320 KiB in their buffers and bodies.
pub run-IsBounded :
    (max_streams : ℕ) (calls : List Call) → IsBounded (run calls (new_capture max_streams))
run-IsBounded max_streams calls =
    Fed-IsBounded _ (run-Fed calls (new_capture max_streams) (new_capture-IsCapture max_streams))
