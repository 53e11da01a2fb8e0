-- ===== src/Http/Chunks.antt =====
-- macdbg/core/http_capture.py: a body in chunks is put together exactly.
use macdbg.Prelude.{
  ℕ, suc, ◌+◌, ◌-◌, ◌≤◌, ◌≡◌, refl, ap, ◌∙◌, true, false, none, some, List, [], ◌∷◌, ◌++◌, arith,
  length, length-append, take, drop, min, ltb, ◌==◌, ok, if◌then◌else◌,
}
use macdbg.Http.Text.{crlf, blank_line, find, starts, hexadecimal}
use macdbg.Http.Headers.{Header, RequestLine}
use macdbg.Http.Body.{capture_limit}
use macdbg.Http.Stream.{
  expected_or, Request, Stream, Mode, chunk_size, chunk_data, chunk_crlf, reading_trailers,
  take_body,
}
use macdbg.Http.Framing.{chunks, framing_of}
use macdbg.Http.Consume.{
  Work, next, again, return_true, on_chunk_size, size_end, size_digits, is_size, chunk_line_bytes,
  sized, with_buffer, on_chunk_data, take_some, on_chunk_crlf, on_trailers, round,
}
use macdbg.Http.Exact.{
  whole, take-append_length, drop-append_length, small, begun_stream, Head, headed, received, fresh,
  on_headers-begun, complete_request-whole,
}

-- One line with the size of a chunk, perhaps with an extension.
pub record IsSizeLine (line : List ℕ) (size : ℕ) : Type 0 where
  pub no_end : (tail : List ℕ) → find crlf (line ++ (crlf ++ tail)) ≡ some (length line)
  pub short : length line ≤ chunk_line_bytes
  pub digits : is_size (size_digits line) ≡ true
  pub value : hexadecimal 0 (size_digits line) ≡ size

-- A stream in the midst of a chunked body.
abbrev pub inside :
    (key : ℕ) → RequestLine → List Header → Mode → (remaining : ℕ) → (body buffer : List ℕ) → Stream
inside key line found mode remaining body buffer = record (begun_stream key line found buffer) {
  mode = mode;
  remaining = remaining;
  body = body;
  body_seen = length body;
}

drop_line : (line tail : List ℕ) → drop (length line + 2) (line ++ (crlf ++ tail)) ≡ tail
drop_line [] tail = refl
drop_line (c ∷ line) tail =
    let e : suc (length line) + 2 ≡ suc (length line + 2) = omega arith in
    rw e (drop_line line tail)

size_end-found :
    (w : Work) (line tail : List ℕ) (size : ℕ)
    → IsSizeLine line size
    → take (length line) w.stream.buffer ≡ line
    → drop (length line + 2) w.stream.buffer ≡ tail
    → size_end w (some (length line)) ≡ next (sized size (with_buffer tail w))
unfolding size_end
size_end-found w line tail size h before after =
    rw (before, after, small (length line) chunk_line_bytes h.short, h.digits, h.value) refl

on_chunk_size-next :
    (s : Stream) (line tail : List ℕ) (size : ℕ) (result : List Request)
    → IsSizeLine line size
    → s.buffer ≡ line ++ (crlf ++ tail)
    → on_chunk_size (record { stream = s; result = result })
      ≡ next (sized size (record { stream = record s { buffer = tail }; result = result }))
unfolding on_chunk_size
on_chunk_size-next s line tail size result h e =
    let w : Work = record { stream = s; result = result } in
    let before : take (length line) s.buffer ≡ line =
      rw e (take-append_length line (crlf ++ tail)) in
    let after : drop (length line + 2) s.buffer ≡ tail = rw e (drop_line line tail) in
    let here : find crlf s.buffer ≡ some (length line) = rw e (h.no_end tail) in
    rw here (size_end-found w line tail size h before after)

-- A chunk that stands in the buffer is moved to the body.
take_some-chunk :
    (s : Stream) (chunk rest : List ℕ) (result : List Request)
    → s.buffer ≡ chunk ++ rest
    → s.remaining ≡ length chunk
    → s.body_seen ≡ length s.body
    → length s.body + length chunk ≤ capture_limit
    → take_some (record { stream = s; result = result }) ≡ record {
      stream = record s {
        buffer = rest;
        body = s.body ++ chunk;
        body_seen = length (s.body ++ chunk);
        remaining = 0;
      };
      result = result;
    }
unfolding take_some take_body
take_some-chunk s chunk rest result b r seen le =
    let count : min (length (chunk ++ rest)) (length chunk) ≡ length chunk =
      omega (arith, length-append chunk rest) in
    let retain : min (length chunk) (capture_limit - length s.body) ≡ length chunk = omega arith in
    let left : length chunk - length chunk ≡ 0 = omega arith in
    let both : length (s.body ++ chunk) ≡ length s.body + length chunk =
      length-append s.body chunk in
    rw
      (
        b,
        r,
        seen,
        count,
        retain,
        left,
        take-append_length chunk rest,
        drop-append_length chunk rest,
        both,
      )
      refl

sized-chunk_data :
    (c : ℕ) (chunk : List ℕ) (w : Work)
    → sized (length (c ∷ chunk)) w ≡ record w {
      stream = record (w.stream) { remaining = length (c ∷ chunk); mode = chunk_data };
    }
sized-chunk_data c chunk w = let e : (suc (length chunk) == 0) ≡ false = ground arith in rw e refl

on_chunk_data-done :
    (w taken : Work)
    → take_some w ≡ taken
    → taken.stream.remaining ≡ 0
    → on_chunk_data w ≡ next (record taken { stream = record (taken.stream) { mode = chunk_crlf } })
unfolding on_chunk_data
on_chunk_data-done w taken e done =
    ap
      (λ (v : Work).
        if v.stream.remaining == 0
        then next (record v { stream = record (v.stream) { mode = chunk_crlf } })
        else return_true v)
      e
    ∙ rw done refl

on_chunk_crlf-again :
    (s : Stream) (tail : List ℕ) (result : List Request)
    → s.buffer ≡ crlf ++ tail
    → on_chunk_crlf (record { stream = s; result = result })
      ≡ again (record { stream = record s { buffer = tail; mode = chunk_size }; result = result })
unfolding on_chunk_crlf starts
on_chunk_crlf-again s tail result e =
    let two : ltb (suc (suc (length tail))) 2 ≡ false =
      small 2 (suc (suc (length tail))) (omega arith) in
    rw (e, two) refl

-- A chunk on the wire, behind the line with its size.
pub record Chunk : Type 0 where
  pub line : List ℕ
  pub first : ℕ
  pub others : List ℕ

abbrev pub content_of : Chunk → List ℕ
content_of c = c.first ∷ c.others

abbrev pub IsChunk : Chunk → Type 0
IsChunk c = IsSizeLine c.line (length (content_of c))

abbrev pub chunk_wire : Chunk → List ℕ → List ℕ
chunk_wire c tail = c.line ++ (crlf ++ (content_of c ++ (crlf ++ tail)))

pub chunk-round :
    (key : ℕ) (line : RequestLine) (found : List Header) (body : List ℕ) (c : Chunk) (tail : List ℕ)
    (result : List Request)
    → IsChunk c
    → length body + length (content_of c) ≤ capture_limit
    → round (record {
      stream = inside key line found chunk_size 0 body (chunk_wire c tail);
      result = result;
    })
      ≡ again (record {
        stream = inside key line found chunk_size 0 (body ++ content_of c) tail;
        result = result;
      })
unfolding round
chunk-round key line found body c tail result h le =
    let chunk : List ℕ = content_of c in
    let s : Stream =
      inside key line found chunk_data (length chunk) body (chunk ++ (crlf ++ tail)) in
    let t : Stream = inside key line found chunk_crlf 0 (body ++ chunk) (crlf ++ tail) in
    let u : Stream = inside key line found chunk_size 0 body (chunk_wire c tail) in
    let sized_next : on_chunk_size (record { stream = u; result = result })
        ≡ next (record { stream = s; result = result }) =
      on_chunk_size-next u c.line (chunk ++ (crlf ++ tail)) (length chunk) result h refl
      ∙ ap next (
          sized-chunk_data c.first c.others
            (record { stream = record u { buffer = chunk ++ (crlf ++ tail) }; result = result })) in
    rw
      (
        sized_next,
        on_chunk_data-done (record { stream = s; result = result }) _
            (take_some-chunk s chunk (crlf ++ tail) result refl refl refl le) refl,
        on_chunk_crlf-again t tail result refl,
      )
      refl

-- The last line states the size 0; no trailers follow it.
abbrev pub last_wire : (line rest : List ℕ) → List ℕ
last_wire line rest = line ++ (crlf ++ (crlf ++ rest))

on_trailers-done :
    (s : Stream) (r : Request) (rest : List ℕ) (result : List Request)
    → s.buffer ≡ crlf ++ rest
    → s.request ≡ some r
    → s.expected ≡ none
    → s.body_seen ≡ length s.body
    → length s.body ≤ capture_limit
    → s.remaining ≡ 0
    → on_trailers (record { stream = s; result = result })
      ≡ again (record {
        stream = fresh s.key rest;
        result = result ++ record r { body = some (whole s.body); complete = true } ∷ [];
      })
unfolding on_trailers starts
on_trailers-done s r rest result e has unstated seen le done =
    let total : expected_or s.body_seen s.expected ≡ length s.body = rw unstated seen in
    rw e (
      ap again (
        complete_request-whole (record s { buffer = rest }) r result has total
          (omega (arith, seen, le)) le done))

pub last-round :
    (key : ℕ) (line : RequestLine) (found : List Header) (body last rest : List ℕ)
    (result : List Request)
    → IsSizeLine last 0
    → length body ≤ capture_limit
    → round (record {
      stream = inside key line found chunk_size 0 body (last_wire last rest);
      result = result;
    })
      ≡ again
          (record { stream = fresh key rest; result = result ++ received key line found body ∷ [] })
unfolding round
last-round key line found body last rest result h le =
    let u : Stream = inside key line found chunk_size 0 body (last_wire last rest) in
    let v : Stream = inside key line found reading_trailers 0 body (crlf ++ rest) in
    let sized_next : on_chunk_size (record { stream = u; result = result })
        ≡ next (record { stream = v; result = result }) =
      on_chunk_size-next u last (crlf ++ rest) 0 result h refl in
    rw
      (
        sized_next,
        on_trailers-done v (headed key line found) rest result refl refl refl refl le refl,
      )
      refl

-- The head of a chunked message makes way for the rest in the same round.
pub headed-round :
    (key : ℕ) (block : List ℕ) (line : RequestLine) (found : List Header) (tail : List ℕ)
    (result : List Request)
    → Head block line found
    → framing_of found ≡ ok chunks
    → round (record { stream = fresh key (block ++ (blank_line ++ tail)); result = result })
      ≡ round (record { stream = inside key line found chunk_size 0 [] tail; result = result })
unfolding round
headed-round key block line found tail result h e =
    rw (on_headers-begun key block line found chunks tail result h e) refl
