-- ===== src/Http/Streams.antt =====
-- macdbg/core/http_capture.py: the invariant of `HTTPRequestCapture`, and `feed` on it.
use macdbg.Prelude.{
  subst, ℕ, ◌≤◌, ◌<◌, ◌≡◌, refl, false, Option, none, some, List, [], ◌∷◌, ◌++◌, arith, length,
  length-append, All, ltb, ◌==◌, Bool-cases, ltb-false→le, inl, inr,
}
use macdbg.Http.Stream.{
  Stream, Mode, reading_headers, fixed, chunk_size, chunk_data, chunk_crlf, reading_trailers,
  finish, Request, new_stream, stream_evicted,
}
use macdbg.Http.Capture.{
  max_streams_limit, Streams, Capture, stream_of, without, evict_streams, entered,
}
use macdbg.Http.Invariant.{IsHonest, finish-IsHonest, added-All}
use macdbg.Http.Parts.{Waits, Held}

-- A stream between two calls: what it holds back is bounded, and agrees with its mode.
abbrev pub IsWaiting : Stream → Type 0
IsWaiting s = Waits (record { stream = s; result = [] })

abbrev pub AllWait : Streams → Type 0
AllWait streams = All (λ entry. IsWaiting entry.1) streams

pub record IsCapture (c : Capture) : Type 0 where
  pub some_room : 0 < c.max_streams
  pub limited : c.max_streams ≤ max_streams_limit
  pub few : length c.streams ≤ c.max_streams
  pub waiting : AllWait c.streams

stream-Held :
    (m : Mode) (s : Stream) (before after : List Request)
    → Held m (record { stream = s; result = before })
    → Held m (record { stream = s; result = after })
stream-Held reading_headers s before after h = h
stream-Held fixed s before after h = h
stream-Held chunk_size s before after h = h
stream-Held chunk_data s before after h = h
stream-Held chunk_crlf s before after h = h
stream-Held reading_trailers s before after h = h

pub with_result :
    (s : Stream) (before after : List Request)
    → All IsHonest after
    → Waits (record { stream = s; result = before })
    → Waits (record { stream = s; result = after })
with_result s before after honest h = record {
  at = h.at;
  here = record { mode = h.here.mode; kept = h.here.kept; phase = h.here.phase; honest = honest };
  held = stream-Held h.at s before after h.held;
}

new_stream-IsWaiting : (key : ℕ) → IsWaiting (new_stream key)
new_stream-IsWaiting key = record {
  at = reading_headers;
  here = record { mode = refl; kept = omega arith; phase = (refl, refl, refl); honest = tt };
  held = omega arith;
}

pub without-AllWait :
    (key : ℕ) (streams : Streams) → AllWait streams → AllWait (without key streams)
unfolding without
without-AllWait key [] h = tt
without-AllWait key ((k, s) ∷ streams) h = elim (Bool-cases (k == key)) [
  | inl e ↦ rw e (without-AllWait key streams h.1)
  | inr e ↦ rw e (h.0, without-AllWait key streams h.1)
]

pub length-without : (key : ℕ) (streams : Streams) → length (without key streams) ≤ length streams
unfolding without
length-without key [] = omega arith
length-without key ((k, s) ∷ streams) = ground (arith, length-without key streams)

pub without_last :
    (key : ℕ) (s : Stream) (streams : Streams)
    → length (without key (streams ++ (key, s) ∷ [])) ≤ length streams
unfolding without
without_last key s [] = ground arith
without_last key s ((k, t) ∷ streams) = ground (arith, without_last key s streams)

stream_of-IsWaiting :
    (key : ℕ) (streams : Streams) (s : Stream)
    → AllWait streams
    → stream_of key streams ≡ some s
    → IsWaiting s
unfolding stream_of
stream_of-IsWaiting key [] s h e = cc
stream_of-IsWaiting key ((k, t) ∷ streams) s h e = elim (Bool-cases (k == key)) [
  | inl same ↦ let e : some t ≡ some s = rw same at e in let e : t ≡ s = cc in subst IsWaiting e h.0
  | inr other ↦ stream_of-IsWaiting key streams s h.1 (rw other at e)
]

pub entered-IsWaiting :
    (key : ℕ) (bytes : List ℕ) (streams : Streams) (s : Stream)
    → AllWait streams
    → entered key bytes streams ≡ some s
    → IsWaiting s
unfolding entered
entered-IsWaiting key bytes streams s h e = pending (stream_of key streams) refl e
  where
    fresh :
        (data_given : List ℕ)
        → (elim data_given [ [] ↦ none | b ∷ rest ↦ some (new_stream key) ]) ≡ some s
        → IsWaiting s
    fresh [] e = cc
    fresh (b ∷ rest) e =
        let e : new_stream key ≡ s = cc in subst IsWaiting e (new_stream-IsWaiting key)

    pending :
        (o : Option Stream)
        → stream_of key streams ≡ o
        → (elim o [
          | some t ↦ some t
          | none ↦ elim bytes [ [] ↦ none | b ∷ rest ↦ some (new_stream key) ]
        ])
          ≡ some s
        → IsWaiting s
    pending none found e = fresh bytes e
    pending (some t) found e =
        let e : t ≡ s = cc in subst IsWaiting e (stream_of-IsWaiting key streams t h found)

-- What eviction leaves when the newest stream is at the end: it stays, with those just before it.
pub record Evicted (max_streams : ℕ) (newest : ℕ × Stream) (r : List Request × Streams)
    : Type 0 where
  pub others : Streams
  pub stays : r.1 ≡ others ++ newest ∷ []
  pub few : length others < max_streams
  pub waiting : AllWait others
  pub honest : All IsHonest r.0

pub evict_streams-Evicted :
    (max_streams key : ℕ) (t : Stream) (streams : Streams) (result : List Request)
    → 0 < max_streams
    → AllWait streams
    → All IsHonest result
    → Evicted max_streams (key, t) (evict_streams max_streams (streams ++ (key, t) ∷ []) result)
unfolding evict_streams
evict_streams-Evicted max_streams key t [] result room h honest =
    rw (evict_streams, one)
      record { others = []; stays = refl; few = room; waiting = tt; honest = honest }
  where
    one : ltb max_streams 1 ≡ false
    one = ground arith
evict_streams-Evicted max_streams key t ((k, s) ∷ streams) result room h honest =
    elim (Bool-cases (ltb max_streams (length ((k, s) ∷ streams ++ (key, t) ∷ [])))) [
      | inl over ↦
          rw (evict_streams, over)
            (evict_streams-Evicted max_streams key t streams _ room h.1 (
              added-All IsHonest result (finish s false none (some stream_evicted)) honest
                (finish-IsHonest s false none (some stream_evicted))))
      | inr fits ↦
          rw (evict_streams, fits)
            record {
              others = (k, s) ∷ streams;
              stays = refl;
              few =
                  let le =
                    ltb-false→le max_streams (length ((k, s) ∷ streams ++ (key, t) ∷ [])) fits in
                  omega (arith, le, length-append streams ((key, t) ∷ []));
              waiting = h;
              honest = honest;
            }
    ]
