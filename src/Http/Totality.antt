-- ===== src/Http/Totality.antt =====
-- macdbg/core/http_capture.py: `_consume` and the loop of `feed` end, whatever the bytes are.
use macdbg.Prelude.{
  ℕ, zero, suc, ◌≤◌, ◌<◌, Bool, true, false, Option, none, some, List, [], ◌∷◌, ◌++◌, arith, length,
  length-drop, take, drop, inl, inr, All,
}
use macdbg.Http.Headers.{Problem}
use macdbg.Http.Stream.{
  Mode, reading_headers, fixed, chunk_size, chunk_data, chunk_crlf, reading_trailers, finish,
}
use macdbg.Http.Consume.{
  Work, Flow, next, again, return_true, return_false, raise, round, consume, on_error, status_for,
}
use macdbg.Http.Capture.{feed_pieces, piece_bytes}
use macdbg.Http.Invariant.{InMode, IsHonest, Goes, size_of, finish-IsHonest, added-All}
use macdbg.Http.Parts.{rank, Left, Within, Anew, Waits, Held}
use macdbg.Http.Rounds.{round-Goes}

-- An outcome of the loop: there is one, a stream that goes on waits, and every request that was
-- finished is honest.
abbrev pub Ends : Option (Bool × Work) → Type 0
Ends none = ⊥
Ends (some (true, w)) = Waits w
Ends (some (false, w)) = All IsHonest w.result

on_error-IsHonest :
    (p : Problem) (w : Work) → All IsHonest w.result → All IsHonest (on_error p w).result
unfolding on_error
on_error-IsHonest p w h =
    added-All IsHonest w.result (finish w.stream false (some (status_for p)) (some _)) h
      (finish-IsHonest w.stream false (some (status_for p)) (some _))

Within-last : (size : ℕ) (w : Work) → Within 6 size w → ⊥
Within-last size w h = last h.at h.not_past
  where
    last : (m : Mode) → 6 ≤ rank m → ⊥
    last reading_headers h = omega arith
    last fixed h = omega arith
    last chunk_size h = omega arith
    last chunk_data h = omega arith
    last chunk_crlf h = omega arith
    last reading_trailers h = omega arith

Anew-Within : (size : ℕ) (w : Work) → Anew size w → Within 0 (size_of w) w
Anew-Within size w h = elim h.started [
  | inl k ↦ record { at = reading_headers; here = k; not_past = omega arith; left = omega arith }
  | inr k ↦ record { at = chunk_size; here = k; not_past = omega arith; left = omega arith }
]

-- From work within a round, one round more than the buffer has bytes is enough for `_consume`. Where
-- it returns true the stream waits, with its buffer bounded and its mode and fields in agreement;
-- where it returns false, the requests that it finished are honest about their bodies.
pub consume-Ends :
    (fuel : ℕ) (w : Work) → Within 0 (size_of w) w → size_of w < fuel → Ends (consume fuel w)
unfolding consume
consume-Ends zero w h enough = omega arith
consume-Ends (suc fuel) w h enough =
    go (round w) (round-Goes (size_of w) w h) λ w' k le. consume-Ends fuel w' k le
  where
    go :
        (o : Flow)
        → Goes (Within 6 (size_of w)) (Anew (size_of w)) Waits o
        → ((w' : Work) → Within 0 (size_of w') w' → size_of w' < fuel → Ends (consume fuel w'))
        → Ends (elim o [
          | next w' ↦ consume fuel w'
          | again w' ↦ consume fuel w'
          | return_true w' ↦ some (true, w')
          | return_false w' ↦ some (false, w')
          | raise p w' ↦ some (false, on_error p w')
        ])
    go (next w') k loop = elim (Within-last (size_of w) w' k) [ ]
    go (again w') k loop = loop w' (Anew-Within (size_of w) w' k) (omega (arith, k.smaller))
    go (return_true w') k loop = k
    go (return_false w') k loop = k
    go (raise p w') k loop = on_error-IsHonest p w' k

-- More data for a stream that waits.
more : List ℕ → Work → Work
more bytes w = record w { stream = record (w.stream) { buffer = w.stream.buffer ++ bytes } }

Held-Left :
    (m : Mode) (bytes : List ℕ) (w : Work)
    → Held m w
    → Left (size_of (more bytes w)) m (more bytes w)
unfolding more
Held-Left reading_headers bytes w h = omega arith
Held-Left fixed bytes w h = (omega arith, omega arith)
Held-Left chunk_size bytes w h = omega arith
Held-Left chunk_data bytes w h = omega arith
Held-Left chunk_crlf bytes w h = omega arith
Held-Left reading_trailers bytes w h = omega arith

more-InMode : (m : Mode) (bytes : List ℕ) (w : Work) → InMode m w → InMode m (more bytes w)
unfolding more
more-InMode reading_headers bytes w h = record {
  mode = h.mode;
  kept = h.kept;
  phase = h.phase;
  honest = h.honest;
}
more-InMode fixed bytes w h = record {
  mode = h.mode;
  kept = h.kept;
  phase = h.phase;
  honest = h.honest;
}
more-InMode chunk_size bytes w h = record {
  mode = h.mode;
  kept = h.kept;
  phase = h.phase;
  honest = h.honest;
}
more-InMode chunk_data bytes w h = record {
  mode = h.mode;
  kept = h.kept;
  phase = h.phase;
  honest = h.honest;
}
more-InMode chunk_crlf bytes w h = record {
  mode = h.mode;
  kept = h.kept;
  phase = h.phase;
  honest = h.honest;
}
more-InMode reading_trailers bytes w h = record {
  mode = h.mode;
  kept = h.kept;
  phase = h.phase;
  honest = h.honest;
}

consume-more-Ends :
    (bytes : List ℕ) (w : Work)
    → Waits w
    → Ends (consume (suc (size_of (more bytes w))) (more bytes w))
consume-more-Ends bytes w h =
    consume-Ends _ (more bytes w)
      (record {
        at = h.at;
        here = more-InMode h.at bytes w h.here;
        not_past = omega arith;
        left = Held-Left h.at bytes w h.held;
      })
      (omega arith)

pub feed_pieces-Ends :
    (fuel : ℕ) (data_left : List ℕ) (w : Work)
    → Waits w
    → length data_left < fuel
    → Ends (feed_pieces fuel data_left w)
unfolding feed_pieces more
feed_pieces-Ends zero rest w h enough = omega arith
feed_pieces-Ends (suc fuel) [] w h enough = h
feed_pieces-Ends (suc fuel) (b ∷ rest) w h enough =
    go (consume (suc (size_of (more piece w))) (more piece w)) (consume-more-Ends piece w h) λ w' k.
      feed_pieces-Ends fuel (drop piece_bytes (b ∷ rest)) w' k
        (omega (arith, length-drop piece_bytes (b ∷ rest)))
  where
    piece : List ℕ
    piece = take piece_bytes (b ∷ rest)

    go :
        (o : Option (Bool × Work))
        → Ends o
        → ((w' : Work) → Waits w' → Ends (feed_pieces fuel (drop piece_bytes (b ∷ rest)) w'))
        → Ends (elim o [
          | none ↦ none
          | some (false, w') ↦ some (false, w')
          | some (true, w') ↦ feed_pieces fuel (drop piece_bytes (b ∷ rest)) w'
        ])
    go none k loop = elim k [ ]
    go (some (false, w')) k loop = k
    go (some (true, w')) k loop = loop w' k
