-- ===== src/Http/Capture.antt =====
-- macdbg/core/http_capture.py: `HTTPRequestCapture`, the streams of all sockets.
use macdbg.Prelude.{
  ℕ, zero, suc, Bool, true, false, Option, none, some, List, [], ◌∷◌, ◌++◌, ltb, ◌==◌, min, max,
  if◌then◌else◌, length, take, drop,
}
use macdbg.Http.Body.{truncated}
use macdbg.Http.Stream.{
  Warning, stream_ended, stream_evicted, short_payload, Request, Stream, new_stream, finish,
}
use macdbg.Http.Consume.{Work, added, consume}

abbrev pub max_streams_limit : ℕ
max_streams_limit = 64

-- An `OrderedDict` of streams by their keys, the oldest first.
abbrev pub Streams : Type 0
Streams = List (ℕ × Stream)

pub record Capture : Type 0 where
  pub max_streams : ℕ
  pub streams : Streams

-- `HTTPRequestCapture(max_streams)`
unfoldable pub new_capture : ℕ → Capture
new_capture max_streams = record {
  max_streams = max 1 (min max_streams_limit max_streams);
  streams = [];
}

-- `self._streams.get(key)`, and the dictionary after `self._streams.pop(key, None)`.
unfoldable pub stream_of : ℕ → Streams → Option Stream
stream_of key [] = none
stream_of key ((k, s) ∷ streams) = if k == key then some s else stream_of key streams

unfoldable pub without : ℕ → Streams → Streams
without key [] = []
without key ((k, s) ∷ streams) =
    let rest = without key streams in if k == key then rest else (k, s) ∷ rest

-- `reset`, `discard` and `has_pending`
unfoldable pub reset_capture : Capture → Capture
reset_capture c = record c { streams = [] }

unfoldable pub discard : ℕ → Capture → Capture
unfolding without
discard key c = record c { streams = without key c.streams }

unfoldable pub has_pending : ℕ → Capture → Bool
unfolding stream_of
has_pending key c = elim (stream_of key c.streams) [ none ↦ false | some s ↦ true ]

-- The requests of streams that end, in their order.
unfoldable pub ended : Warning → Streams → List Request
ended warning [] = []
ended warning ((k, s) ∷ streams) = elim (finish s false none (some warning)) [
  | none ↦ ended warning streams
  | some r ↦ r ∷ ended warning streams
]

-- `flush()` of all streams, and `flush(key)` of one.
unfoldable pub flush_all : Capture → List Request × Capture
unfolding ended
flush_all c = (ended stream_ended c.streams, record c { streams = [] })

unfoldable pub flush : ℕ → Capture → List Request × Capture
unfolding ended discard stream_of
flush key c = elim (stream_of key c.streams) [
  | none ↦ ([], c)
  | some s ↦ (ended stream_ended ((key, s) ∷ []), discard key c)
]

-- `while len(self._streams) > self.max_streams`: the oldest streams are finished and dropped.
unfoldable pub evict_streams : (max_streams : ℕ) → Streams → List Request → List Request × Streams
evict_streams max_streams [] result = (result, [])
evict_streams max_streams ((k, s) ∷ streams) result =
    elim (ltb max_streams (length ((k, s) ∷ streams))) [
      | true ↦
          evict_streams max_streams streams
            (added result (finish s false none (some stream_evicted)))
      | false ↦ (result, (k, s) ∷ streams)
    ]

abbrev pub piece_bytes : ℕ
piece_bytes = 16384

-- `for offset in range(0, len(data), 16384)`, with fuel for the rounds; `none` if it runs out.
-- The stream is consumed piece by piece until `_consume` returns false.
unfoldable pub feed_pieces : (fuel : ℕ) → List ℕ → Work → Option (Bool × Work)
feed_pieces zero bytes w = none
feed_pieces (suc fuel) [] w = some (true, w)
feed_pieces (suc fuel) (b ∷ bytes) w =
    let s = record (w.stream) { buffer = w.stream.buffer ++ take piece_bytes (b ∷ bytes) } in
    elim (consume (suc (length s.buffer)) (record w { stream = s })) [
      | none ↦ none
      | some (false, w') ↦ some (false, w')
      | some (true, w') ↦ feed_pieces fuel (drop piece_bytes (b ∷ bytes)) w'
    ]

-- `total_length is not None and total_length > len(data)`
unfoldable pub is_short : Option ℕ → ℕ → Bool
is_short none size = false
is_short (some total) size = ltb size total

abbrev pub is_idle : Stream → Bool
is_idle s = elim s.request [ none ↦ length s.buffer == 0 | some r ↦ false ]

abbrev pub put_stream : (key : ℕ) → Stream → Capture → Capture
put_stream key s c = record c { streams = without key c.streams ++ (key, s) ∷ [] }

-- What `feed` does once the data is consumed; the stream was moved to the end of the dictionary.
unfoldable pub after_feed :
    (key size : ℕ) → Option ℕ → Capture → Bool × Work → List Request × Capture
unfolding discard is_short
after_feed key size total_length c (false, w) = (w.result, discard key c)
after_feed key size total_length c (true, w) =
    if is_short total_length size
    then (
      added w.result (finish w.stream false (some truncated) (some short_payload)),
      discard key c,
    )
    else if is_idle w.stream
    then (w.result, discard key c)
    else (w.result, put_stream key w.stream c)

-- The stream that `feed` goes on with: the pending one, or a new one if there is data.
unfoldable pub entered : (key : ℕ) → List ℕ → Streams → Option Stream
unfolding stream_of
entered key bytes streams = elim (stream_of key streams) [
  | some s ↦ some s
  | none ↦ elim bytes [ [] ↦ none | b ∷ rest ↦ some (new_stream key) ]
]

-- `feed(key, data, total_length)`, with the fuel of its loop.
unfoldable pub feed_fuel :
    (fuel : ℕ) (key : ℕ) → List ℕ → Option ℕ → Capture → Option (List Request × Capture)
unfolding entered evict_streams feed_pieces after_feed
feed_fuel fuel key bytes total_length c = elim (entered key bytes c.streams) [
  | none ↦ some ([], c)
  | some s ↦
      let (result, streams) =
        evict_streams c.max_streams (without key c.streams ++ (key, s) ∷ []) [] in
      let moved = record c { streams = streams } in
      elim (feed_pieces fuel bytes (record { stream = s; result = result })) [
        | none ↦ none
        | some outcome ↦ some (after_feed key (length bytes) total_length moved outcome)
      ]
]

-- `feed(key, data, total_length)`: as many rounds as there are bytes are enough.
unfoldable pub feed : (key : ℕ) → List ℕ → Option ℕ → Capture → Option (List Request × Capture)
unfolding feed_fuel
feed key bytes total_length c = feed_fuel (suc (length bytes)) key bytes total_length c
