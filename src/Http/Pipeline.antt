-- ===== src/Http/Pipeline.antt =====
-- macdbg/core/http_capture.py: requests on the wire go through the loop of `_consume` one by one.
use macdbg.Prelude.{
  ℕ, zero, suc, ◌+◌, ◌≤◌, ◌≡◌, refl, sym, ap, ◌∙◌, Bool, true, false, Option, none, some, List, [],
  ◌∷◌, ◌++◌, append_assoc, append-nil, append-append_one, arith, length, length-append, All,
}
use macdbg.Http.Text.{blank_line, find, cut}
use macdbg.Http.Headers.{Header, RequestLine}
use macdbg.Http.Body.{capture_limit}
use macdbg.Http.Stream.{Request, chunk_size, reading_headers}
use macdbg.Http.Consume.{
  Work, Flow, next, again, return_true, return_false, raise, round, consume, on_error, on_headers,
  headers_end, wait_headers, first_word, bad_prefix,
}
use macdbg.Http.Invariant.{IsHonest}
use macdbg.Http.Parts.{Within}
use macdbg.Http.Totality.{Ends, consume-Ends}
use macdbg.Http.Exact.{fresh, received, fixed-round}
use macdbg.Http.Chunks.{
  Chunk, content_of, IsChunk, IsSizeLine, inside, chunk-round, last-round, headed-round,
}
use macdbg.Http.Messages.{
  Coding, stated, chunked, Sent, joined, content, chunks_wire, coding_wire, wire, requests, IsCoded,
  IsSent, chunk_rounds, rounds_of, all_rounds,
}

after_round : ℕ → Flow → Option (Bool × Work)
after_round fuel (next w) = consume fuel w
after_round fuel (again w) = consume fuel w
after_round fuel (return_true w) = some (true, w)
after_round fuel (return_false w) = some (false, w)
after_round fuel (raise p w) = some (false, on_error p w)

consume-suc : (fuel : ℕ) (w : Work) → consume (suc fuel) w ≡ after_round fuel (round w)
unfolding consume after_round
consume-suc fuel w = by_flow (round w)
  where
    by_flow :
        (o : Flow)
        → (elim o [
          | next w' ↦ consume fuel w'
          | again w' ↦ consume fuel w'
          | return_true w' ↦ some (true, w')
          | return_false w' ↦ some (false, w')
          | raise p w' ↦ some (false, on_error p w')
        ])
          ≡ after_round fuel o
    by_flow (next w') = refl
    by_flow (again w') = refl
    by_flow (return_true w') = refl
    by_flow (return_false w') = refl
    by_flow (raise p w') = refl

consume-again :
    (fuel : ℕ) (w w' : Work) → round w ≡ again w' → consume (suc fuel) w ≡ consume fuel w'
unfolding after_round
consume-again fuel w w' e = consume-suc fuel w ∙ ap (after_round fuel) e

consume-round :
    (fuel : ℕ) (w w' : Work) → round w ≡ round w' → consume (suc fuel) w ≡ consume (suc fuel) w'
consume-round fuel w w' e = consume-suc fuel w ∙ ap (after_round fuel) e ∙ sym (consume-suc fuel w')

-- More fuel does not change what the loop returns.
consume_more :
    (f g : ℕ) (w : Work) (x : Bool × Work) → f ≤ g → consume f w ≡ some x → consume g w ≡ some x
unfolding consume after_round
consume_more zero g w x le e = cc
consume_more (suc f) zero w x le e = let absurd : ⊥ = omega arith in elim absurd [ ]
consume_more (suc f) (suc g) w x le e =
    consume-suc g w
    ∙ by_flow (round w) (λ w' k. consume_more f g w' x (omega arith) k) (sym (consume-suc f w) ∙ e)
  where
    by_flow :
        (o : Flow)
        → ((w' : Work) → consume f w' ≡ some x → consume g w' ≡ some x)
        → after_round f o ≡ some x
        → after_round g o ≡ some x
    by_flow (next w') k e = k w' e
    by_flow (again w') k e = k w' e
    by_flow (return_true w') k e = e
    by_flow (return_false w') k e = e
    by_flow (raise p w') k e = e

chunks-consume :
    (fuel key : ℕ) (line : RequestLine) (found : List Header) (body : List ℕ) (cs : List Chunk)
    (last rest : List ℕ) (result : List Request)
    → All IsChunk cs
    → IsSizeLine last 0
    → length body + length (joined cs) ≤ capture_limit
    → consume (chunk_rounds cs fuel) (record {
      stream = inside key line found chunk_size 0 body (chunks_wire cs last rest);
      result = result;
    })
      ≡ consume fuel (record {
        stream = fresh key rest;
        result = result ++ received key line found (body ++ joined cs) ∷ [];
      })
chunks-consume fuel key line found body [] last rest result h k le =
    rw (append-nil body)
      (consume-again fuel _ _ (last-round key line found body last rest result k (omega arith)))
chunks-consume fuel key line found body (c ∷ cs) last rest result h k le =
    let n = length-append (content_of c) (joined cs) in
    let m = length-append body (content_of c) in
    consume-again (chunk_rounds cs fuel) _ _ (
      chunk-round key line found body c (chunks_wire cs last rest) result h.0
        (omega (arith, n, le)))
    ∙ chunks-consume fuel key line found (body ++ content_of c) cs last rest result h.1 k
        (omega (arith, n, m, le))
    ∙ ap
        (λ xs.
          consume fuel (record {
            stream = fresh key rest;
            result = result ++ received key line found xs ∷ [];
          }))
        (append_assoc body (content_of c) (joined cs))

message-consume :
    (fuel key : ℕ) (m : Sent) (rest : List ℕ) (result : List Request)
    → IsSent m
    → consume (rounds_of m.coding fuel) (record {
      stream = fresh key (m.block ++ (blank_line ++ coding_wire m.coding rest));
      result = result;
    })
      ≡ consume fuel (record {
        stream = fresh key rest;
        result = result ++ received key m.line m.found (content m.coding) ∷ [];
      })
message-consume fuel key m rest result h = by_coding m.coding h.1
  where
    given : Coding → Work
    given coding = record {
      stream = fresh key (m.block ++ (blank_line ++ coding_wire coding rest));
      result = result;
    }

    by_coding :
        (coding : Coding)
        → IsCoded m.found coding
        → consume (rounds_of coding fuel) (given coding)
          ≡ consume fuel (record {
            stream = fresh key rest;
            result = result ++ received key m.line m.found (content coding) ∷ [];
          })
    by_coding (stated body) k = consume-again fuel _ _ (
        fixed-round key (record { block = m.block; line = m.line; found = m.found; content = body })
          rest result (record { head = h.0; stated = k.0; fits = k.1 }))
    by_coding (chunked [] last) k =
        consume-round fuel _ _
          (headed-round key m.block m.line m.found (chunks_wire [] last rest) result h.0 k.0)
        ∙ chunks-consume fuel key m.line m.found [] [] last rest result k.1 k.2 (omega (arith, k.3))
    by_coding (chunked (c ∷ cs) last) k =
        consume-round (chunk_rounds cs fuel) _ _
          (headed-round key m.block m.line m.found (chunks_wire (c ∷ cs) last rest) result h.0 k.0)
        ∙ chunks-consume fuel key m.line m.found [] (c ∷ cs) last rest result k.1 k.2
            (omega (arith, k.3))

-- An empty stream waits.
consume-empty :
    (fuel key : ℕ) (result : List Request)
    → consume (suc fuel) (record { stream = fresh key []; result = result })
      ≡ some (true, record { stream = fresh key []; result = result })
unfolding consume round on_headers headers_end wait_headers first_word bad_prefix find cut
consume-empty fuel key result = refl

messages-rounds :
    (fuel key : ℕ) (ms : List Sent) (result : List Request)
    → All IsSent ms
    → consume (all_rounds ms fuel) (record { stream = fresh key (wire ms); result = result })
      ≡ some (true, record { stream = fresh key []; result = result ++ requests key ms })
messages-rounds fuel key [] result h = rw (append-nil result) (consume-empty fuel key result)
messages-rounds fuel key (m ∷ ms) result h =
    message-consume (all_rounds ms fuel) key m (wire ms) result h.0
    ∙ messages-rounds fuel key ms _ h.1
    ∙ ap (λ rs. some (true, record { stream = fresh key []; result = rs }))
        (append-append_one result (received key m.line m.found (content m.coding))
          (requests key ms))

fresh-Within :
    (key : ℕ) (buffer : List ℕ) (result : List Request)
    → All IsHonest result
    → Within 0 (length buffer) (record { stream = fresh key buffer; result = result })
fresh-Within key buffer result h = record {
  at = reading_headers;
  here = record { mode = refl; kept = omega arith; phase = (refl, refl, refl); honest = h };
  not_past = omega arith;
  left = omega arith;
}

agree :
    (f g : ℕ) (w : Work) (x : Bool × Work)
    → consume f w ≡ some x
    → Ends (consume g w)
    → consume g w ≡ some x
agree f g w x e k = by_outcome (consume g w) refl k
  where
    by_outcome : (o : Option (Bool × Work)) → consume g w ≡ o → Ends o → consume g w ≡ some x
    by_outcome none d k = elim k [ ]
    by_outcome (some y) d k =
        let there = consume_more f (f + g) w x (omega arith) e in
        let here = consume_more g (f + g) w y (omega arith) d in d ∙ (sym here ∙ there)

-- Requests that stand in the buffer one behind the other, each with a body of a stated length or in
-- chunks that the capture can hold, are given out in their order, each complete with its own line,
-- headers and content; the stream is left as new, and the fuel that `feed` gives is enough.
pub messages-consume :
    (key : ℕ) (ms : List Sent)
    → All IsSent ms
    → consume (suc (length (wire ms))) (record { stream = fresh key (wire ms); result = [] })
      ≡ some (true, record { stream = fresh key []; result = requests key ms })
messages-consume key ms h =
    agree (all_rounds ms 0) (suc (length (wire ms)))
      (record { stream = fresh key (wire ms); result = [] }) _ (messages-rounds 0 key ms [] h)
      (consume-Ends (suc (length (wire ms))) (record { stream = fresh key (wire ms); result = [] })
        (fresh-Within key (wire ms) [] tt) (omega arith))
