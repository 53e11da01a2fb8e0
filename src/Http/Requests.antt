-- ===== src/Http/Requests.antt =====
-- macdbg/core/http_capture.py: requests that come in one piece through `feed`.
use macdbg.Prelude.{
  ℕ, zero, suc, ◌≤◌, ◌<◌, ◌≡◌, refl, ap, ◌∙◌, Bool, true, false, Option, none, some, List, [], ◌∷◌,
  ◌++◌, arith, ◌==◌, length, take, drop, All,
}
use macdbg.Http.Stream.{Stream, Request, new_stream}
use macdbg.Http.Consume.{Work, consume}
use macdbg.Http.Capture.{
  Streams, Capture, new_capture, without, discard, entered, evict_streams, feed_pieces, after_feed,
  is_short, feed_fuel, feed, piece_bytes, stream_of,
}
use macdbg.Http.Exact.{fresh, take_all, small}
use macdbg.Http.Messages.{Sent, IsSent, wire, requests}
use macdbg.Http.Pipeline.{messages-consume}

drop_all : (n : ℕ) (xs : List ℕ) → length xs ≤ n → drop n xs ≡ []
drop_all zero [] h = refl
drop_all (suc n) [] h = refl
drop_all zero (x ∷ xs) h = let absurd : ⊥ = omega arith in elim absurd [ ]
drop_all (suc n) (x ∷ xs) h = drop_all n xs (omega arith)

-- What `feed_pieces` does with a piece and what is behind it.
by_piece : (fuel : ℕ) (piece behind : List ℕ) → Work → Option (Bool × Work)
by_piece fuel piece behind w =
    let s = record (w.stream) { buffer = w.stream.buffer ++ piece } in
    elim (consume (suc (length s.buffer)) (record w { stream = s })) [
      | none ↦ none
      | some (false, w') ↦ some (false, w')
      | some (true, w') ↦ feed_pieces fuel behind w'
    ]

feed_pieces-by_piece :
    (fuel b : ℕ) (rest : List ℕ) (w : Work)
    → feed_pieces (suc fuel) (b ∷ rest) w
      ≡ by_piece fuel (take piece_bytes (b ∷ rest)) (drop piece_bytes (b ∷ rest)) w
unfolding feed_pieces by_piece
feed_pieces-by_piece fuel b rest w = refl

-- One piece that the loop consumes whole.
one_piece :
    (fuel key b : ℕ) (rest : List ℕ) (result : List Request)
    → length (b ∷ rest) ≤ piece_bytes
    → consume (suc (length (b ∷ rest))) (record { stream = fresh key (b ∷ rest); result = [] })
      ≡ some (true, record { stream = fresh key []; result = result })
    → feed_pieces (suc (suc fuel)) (b ∷ rest) (record { stream = new_stream key; result = [] })
      ≡ some (true, record { stream = fresh key []; result = result })
unfolding by_piece feed_pieces
one_piece fuel key b rest result le e =
    let w : Work = record { stream = new_stream key; result = [] } in
    feed_pieces-by_piece (suc fuel) b rest w
    ∙ ap (λ xs. by_piece (suc fuel) xs (drop piece_bytes (b ∷ rest)) w)
        (take_all piece_bytes (b ∷ rest) le)
    ∙ ap (λ xs. by_piece (suc fuel) (b ∷ rest) xs w) (drop_all piece_bytes (b ∷ rest) le)
    ∙ rw (by_piece, e) refl

alone :
    (key max_streams : ℕ) (s : Stream)
    → 1 ≤ max_streams
    → evict_streams max_streams ((key, s) ∷ []) [] ≡ ([], (key, s) ∷ [])
unfolding evict_streams
alone key max_streams s le = rw (evict_streams, small 1 max_streams le) refl

discard_alone :
    (key n : ℕ) (s : Stream)
    → discard key (record (new_capture n) { streams = (key, s) ∷ [] }) ≡ new_capture n
unfolding discard without new_capture
discard_alone key n s = let same : (key == key) ≡ true = ground arith in rw same refl

by_eviction :
    (key n b : ℕ) (rest : List ℕ) → List Request × Streams → Option (List Request × Capture)
by_eviction key n b rest r =
    elim (feed_pieces (suc (length (b ∷ rest))) (b ∷ rest)
      (record { stream = new_stream key; result = r.0 })) [
        | none ↦ none
        | some outcome ↦ some (
            after_feed key (length (b ∷ rest)) none (record (new_capture n) { streams = r.1 })
              outcome)
      ]

feed-by_eviction :
    (key n b : ℕ) (rest : List ℕ)
    → feed key (b ∷ rest) none (new_capture n)
      ≡ by_eviction key n b rest
          (evict_streams (new_capture n).max_streams ((key, new_stream key) ∷ []) [])
unfolding feed feed_fuel entered stream_of without new_capture by_eviction
feed-by_eviction key n b rest = refl

room : (n : ℕ) → 1 ≤ (new_capture n).max_streams
unfolding new_capture
room n = omega arith

feed_piece :
    (key n b : ℕ) (rest : List ℕ) (result : List Request)
    → length (b ∷ rest) ≤ piece_bytes
    → consume (suc (length (b ∷ rest))) (record { stream = fresh key (b ∷ rest); result = [] })
      ≡ some (true, record { stream = fresh key []; result = result })
    → feed key (b ∷ rest) none (new_capture n) ≡ some (result, new_capture n)
unfolding by_eviction after_feed is_short
feed_piece key n b rest result le e =
    feed-by_eviction key n b rest
    ∙ ap (by_eviction key n b rest)
        (alone key (new_capture n).max_streams (new_stream key) (room n))
    ∙ rw (by_eviction, one_piece (length rest) key b rest result le e)
        (ap (λ c. some (result, c)) (discard_alone key n (new_stream key)))

-- Requests that come together in one piece of at most 16384 bytes, for a stream that is new: `feed` on
-- a new capture gives them all out in their order, each complete with its own line, headers and
-- content, and the capture is as new.
pub messages-feed :
    (key n : ℕ) (ms : List Sent)
    → All IsSent ms
    → 0 < length (wire ms)
    → length (wire ms) ≤ piece_bytes
    → feed key (wire ms) none (new_capture n) ≡ some (requests key ms, new_capture n)
messages-feed key n ms h some_bytes le =
    by_bytes (wire ms) some_bytes le (messages-consume key ms h)
  where
    by_bytes :
        (bytes_sent : List ℕ)
        → 0 < length bytes_sent
        → length bytes_sent ≤ piece_bytes
        → consume (suc (length bytes_sent)) (record { stream = fresh key bytes_sent; result = [] })
          ≡ some (true, record { stream = fresh key []; result = requests key ms })
        → feed key bytes_sent none (new_capture n) ≡ some (requests key ms, new_capture n)
    by_bytes [] lt le e = let absurd : ⊥ = omega arith in elim absurd [ ]
    by_bytes (b ∷ rest) lt le e = feed_piece key n b rest (requests key ms) le e
