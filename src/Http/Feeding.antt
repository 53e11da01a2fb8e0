-- ===== src/Http/Feeding.antt =====
-- macdbg/core/http_capture.py: `feed` keeps the invariant of the capture, and always ends.
use macdbg.Prelude.{
  ℕ, suc, ◌≤◌, ◌<◌, ◌≡◌, refl, Bool, true, false, Option, none, some, List, [], ◌∷◌, ◌++◌, arith,
  length, length-append, All, All-append, if◌then◌else◌,
}
use macdbg.Http.Body.{truncated}
use macdbg.Http.Stream.{Stream, finish, Request, short_payload}
use macdbg.Http.Consume.{Work, added}
use macdbg.Http.Capture.{
  max_streams_limit, feed_pieces, Streams, Capture, without, discard, evict_streams, after_feed,
  is_short, is_idle, put_stream, entered, feed_fuel, feed,
}
use macdbg.Http.Invariant.{IsHonest, finish-IsHonest, added-All}
use macdbg.Http.Totality.{Ends, feed_pieces-Ends}
use macdbg.Http.Streams.{
  IsWaiting, IsCapture, with_result, without-AllWait, length-without, without_last,
  entered-IsWaiting, Evicted, evict_streams-Evicted,
}

-- What `feed` gives: the invariant again, and requests that are honest about their bodies.
abbrev pub Fed : Option (List Request × Capture) → Type 0
Fed none = ⊥
Fed (some (result, c)) = All IsHonest result × IsCapture c

pub discard-IsCapture : (key : ℕ) (c : Capture) → IsCapture c → IsCapture (discard key c)
unfolding discard
discard-IsCapture key c h = record {
  some_room = h.some_room;
  limited = h.limited;
  few = omega (arith, h.few, length-without key c.streams);
  waiting = without-AllWait key c.streams h.waiting;
}

-- After the eviction, the last stream may be taken out, or put back.
moved-IsCapture :
    (key : ℕ) (s : Stream) (c : Capture) (r : List Request × Streams)
    → (0 < c.max_streams) × (c.max_streams ≤ max_streams_limit)
    → IsWaiting s
    → Evicted c.max_streams (key, s) r
    → IsCapture (record c { streams = r.1 })
moved-IsCapture key s c r room h e = record {
  some_room = room.0;
  limited = room.1;
  few = let n = length-append e.others ((key, s) ∷ []) in rw e.stays (omega (arith, n, e.few));
  waiting = rw e.stays (All-append _ e.others ((key, s) ∷ []) e.waiting (h, tt));
}

put_stream-IsCapture :
    (key : ℕ) (s t : Stream) (c : Capture) (r : List Request × Streams)
    → (0 < c.max_streams) × (c.max_streams ≤ max_streams_limit)
    → IsWaiting s
    → IsWaiting t
    → Evicted c.max_streams (key, s) r
    → IsCapture (put_stream key t (record c { streams = r.1 }))
put_stream-IsCapture key s t c r room hs h e = record {
  some_room = room.0;
  limited = room.1;
  few =
      let shorter = without_last key s e.others in
      let n = length-append (without key (e.others ++ (key, s) ∷ [])) ((key, t) ∷ []) in
      rw e.stays (omega (arith, n, shorter, e.few));
  waiting = rw e.stays (
      All-append _ (without key (e.others ++ (key, s) ∷ [])) ((key, t) ∷ [])
        (without-AllWait key (e.others ++ (key, s) ∷ [])
          (All-append _ e.others ((key, s) ∷ []) e.waiting (hs, tt)))
        (h, tt));
}

after_feed-Fed :
    (key size : ℕ) (total_length : Option ℕ) (s : Stream) (c : Capture) (r : List Request × Streams)
    (b : Bool) (w : Work)
    → (0 < c.max_streams) × (c.max_streams ≤ max_streams_limit)
    → IsWaiting s
    → Evicted c.max_streams (key, s) r
    → Ends (some (b, w))
    → Fed (some (after_feed key size total_length (record c { streams = r.1 }) (b, w)))
unfolding after_feed
after_feed-Fed key size total_length s c r false w room hs e h =
    (h, discard-IsCapture key _ (moved-IsCapture key s c r room hs e))
after_feed-Fed key size total_length s c r true w room hs e h =
    by_tests (is_short total_length size) (is_idle w.stream)
  where
    moved : Capture
    moved = record c { streams = r.1 }

    rest : IsCapture (discard key moved)
    rest = discard-IsCapture key moved (moved-IsCapture key s c r room hs e)

    by_tests :
        (short idle : Bool)
        → Fed (
            some (
              if short
              then (
                added w.result (finish w.stream false (some truncated) (some short_payload)),
                discard key moved,
              )
              else if idle
              then (w.result, discard key moved)
              else (w.result, put_stream key w.stream moved)))
    by_tests true idle = (
      added-All IsHonest w.result (finish w.stream false (some truncated) (some short_payload))
          h.here.honest (finish-IsHonest w.stream false (some truncated) (some short_payload)),
      rest,
    )
    by_tests false true = (h.here.honest, rest)
    by_tests false false = (
      h.here.honest,
      put_stream-IsCapture key s w.stream c r room hs (with_result w.stream w.result [] tt h) e,
    )

-- On a capture that holds its invariant, `feed` always ends; it keeps the invariant, and the requests
-- it gives out as complete carry their whole bodies.
pub feed-Fed :
    (key : ℕ) (data_given : List ℕ) (total_length : Option ℕ) (c : Capture)
    → IsCapture c
    → Fed (feed key data_given total_length c)
unfolding feed feed_fuel
feed-Fed key data_given total_length c h =
    by_entry (entered key data_given c.streams)
      (λ s e. entered-IsWaiting key data_given c.streams s h.waiting e)
  where
    size : ℕ
    size = length data_given

    consumed :
        (s : Stream) (r : List Request × Streams) (o : Option (Bool × Work))
        → IsWaiting s
        → Evicted c.max_streams (key, s) r
        → Ends o
        → Fed (elim o [
          | none ↦ none
          | some outcome ↦
              some (after_feed key size total_length (record c { streams = r.1 }) outcome)
        ])
    consumed s r none hs e k = elim k [ ]
    consumed s r (some (b, w)) hs e k =
        after_feed-Fed key size total_length s c r b w (h.some_room, h.limited) hs e k

    evicted :
        (s : Stream) (r : List Request × Streams)
        → IsWaiting s
        → Evicted c.max_streams (key, s) r
        → Fed (elim (feed_pieces (suc size) data_given (record { stream = s; result = r.0 })) [
          | none ↦ none
          | some outcome ↦
              some (after_feed key size total_length (record c { streams = r.1 }) outcome)
        ])
    evicted s r hs e = consumed s r _ hs e (
        feed_pieces-Ends (suc size) data_given (record { stream = s; result = r.0 })
          (with_result s [] r.0 e.honest hs) (omega arith))

    by_entry :
        (o : Option Stream)
        → ((s : Stream) → o ≡ some s → IsWaiting s)
        → Fed (elim o [
          | none ↦ some ([], c)
          | some s ↦
              let (result, streams) =
                evict_streams c.max_streams (without key c.streams ++ (key, s) ∷ []) [] in
              let moved = record c { streams = streams } in
              elim (feed_pieces (suc size) data_given (record { stream = s; result = result })) [
                | none ↦ none
                | some outcome ↦ some (after_feed key size total_length moved outcome)
              ]
        ])
    by_entry none k = (tt, h)
    by_entry (some s) k =
        evicted s (evict_streams c.max_streams (without key c.streams ++ (key, s) ∷ []) [])
          (k s refl)
          (evict_streams-Evicted c.max_streams key s (without key c.streams) [] h.some_room
            (without-AllWait key c.streams h.waiting) tt)
