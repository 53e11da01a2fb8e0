-- ===== src/Http/Consume.antt =====
-- macdbg/core/http_capture.py: the loop `_consume` over the buffer of a stream.
use macdbg.Prelude.{
  ℕ, zero, suc, ◌+◌, ◌-◌, Bool, true, false, ◌&&◌, ◌||◌, not, Option, none, some, List, [], ◌∷◌,
  ◌++◌, ltb, leb, ◌==◌, min, if◌then◌else◌, length, take, drop, Result, ok, err,
}
use macdbg.Bytes.{same}
use macdbg.Http.Text.{
  crlf, blank_line, starts, find, cut, is_token, is_hex, hexadecimal, all, any, lower,
}
use macdbg.Http.Headers.{
  Problem, header_limit, chunk_line_limit, malformed_chunk_size, missing_chunk_terminator,
  trailer_limit, framing_in_trailers, Header, headers,
}
use macdbg.Http.Body.{Status, truncated, malformed}
use macdbg.Http.Stream.{
  header_limit_bytes, problem, Request, Stream, Mode, reading_headers, fixed, chunk_size,
  chunk_data, chunk_crlf, reading_trailers, take_body, finish,
}
use macdbg.Http.Framing.{
  Started, begun, refused, raised, content_length_name, transfer_encoding_name, new_request,
}

abbrev pub chunk_line_bytes : ℕ
chunk_line_bytes = 8192

-- The stream, and the list `result` of finished requests.
pub record Work : Type 0 where
  pub stream : Stream
  pub result : List Request

-- How a part of the loop's body ends: it goes on below, goes round again, returns or raises.
pub data Flow : Type 0 where
  next : Work → Flow
  again : Work → Flow
  return_true : Work → Flow
  return_false : Work → Flow
  raise : Problem → Work → Flow

abbrev pub then_do : Flow → (Work → Flow) → Flow
then_do (next w) f = f w
then_do (again w) f = again w
then_do (return_true w) f = return_true w
then_do (return_false w) f = return_false w
then_do (raise p w) f = raise p w

abbrev pub added : List Request → Option Request → List Request
added result none = result
added result (some r) = result ++ r ∷ []

-- `_complete(stream, result)`
unfoldable pub complete_request : Work → Work
complete_request w = record {
  stream = record (w.stream) {
    request = none;
    body = [];
    body_seen = 0;
    mode = reading_headers;
    expected = none;
    content_type = [];
  };
  result = added w.result (finish w.stream true none none);
}

abbrev pub with_buffer : List ℕ → Work → Work
with_buffer buffer w = record w { stream = record (w.stream) { buffer = buffer } }

-- `prefix and (len(prefix) > 32 or not _TOKEN.fullmatch(prefix))`
unfoldable pub bad_prefix : List ℕ → Bool
bad_prefix prefix = ltb 0 (length prefix) && (ltb 32 (length prefix) || not (is_token prefix))

-- `bytes(stream.buffer).split(b" ", 1)[0]`
unfoldable pub first_word : List ℕ → List ℕ
first_word buffer = elim (cut 32 buffer) [ none ↦ buffer | some (before, after) ↦ before ]

-- The mode `headers`, while the headers have no end yet.
unfoldable pub wait_headers : Work → Flow
unfolding bad_prefix first_word
wait_headers w =
    let buffer = w.stream.buffer in
    if ltb header_limit_bytes (length buffer)
    then raise header_limit w
    else if bad_prefix (first_word buffer)
    then return_false w
    else return_true w

abbrev pub of_started : List Request → Started → Flow
of_started result (begun s) = next (record { stream = s; result = result })
of_started result (refused s) = return_false (record { stream = s; result = result })
of_started result (raised p s) = raise p (record { stream = s; result = result })

-- The mode `headers`, by where the blank line is.
unfoldable pub headers_end : Work → Option ℕ → Flow
unfolding wait_headers
headers_end w none = wait_headers w
headers_end w (some end) =
    let s = w.stream in
    if ltb header_limit_bytes (end + 4)
    then raise header_limit w
    else of_started w.result
        (new_request (record s { buffer = drop (end + 4) s.buffer }) (take end s.buffer))

unfoldable pub on_headers : Work → Flow
unfolding headers_end
on_headers w = headers_end w (find blank_line w.stream.buffer)

-- `count = min(len(buffer), remaining); take_body(count); remaining -= count`
unfoldable pub take_some : Work → Work
unfolding take_body
take_some w =
    let s = w.stream in
    let count = min (length s.buffer) s.remaining in
    record w { stream = record (take_body count s) { remaining = s.remaining - count } }

-- The mode `fixed`.
unfoldable pub on_fixed : Work → Flow
unfolding take_some complete_request
on_fixed w =
    let w' = take_some w in
    if w'.stream.remaining == 0 then again (complete_request w') else return_true w'

-- `line.split(b";", 1)[0]`
unfoldable pub size_digits : List ℕ → List ℕ
size_digits line = elim (cut b';' line) [ none ↦ line | some (before, after) ↦ before ]

-- `re.fullmatch(rb"[0-9a-fA-F]{1,16}", size)`
unfoldable pub is_size : List ℕ → Bool
is_size size = ltb 0 (length size) && leb (length size) 16 && all is_hex size

abbrev pub sized : ℕ → Work → Work
sized n w = record w {
  stream = record (w.stream) {
    remaining = n;
    mode = if n == 0 then reading_trailers else chunk_data;
  };
}

-- The mode `chunk_size`, by where the line ends.
unfoldable pub size_end : Work → Option ℕ → Flow
unfolding size_digits is_size
size_end w none =
    if ltb chunk_line_bytes (length w.stream.buffer)
    then raise chunk_line_limit w
    else return_true w
size_end w (some end) =
    let buffer = w.stream.buffer in
    let w' = with_buffer (drop (end + 2) buffer) w in
    let size = size_digits (take end buffer) in
    if ltb chunk_line_bytes end
    then raise chunk_line_limit w'
    else if not (is_size size)
    then raise malformed_chunk_size w'
    else next (sized (hexadecimal 0 size) w')

unfoldable pub on_chunk_size : Work → Flow
unfolding size_end
on_chunk_size w = size_end w (find crlf w.stream.buffer)

-- The mode `chunk_data`.
unfoldable pub on_chunk_data : Work → Flow
unfolding take_some
on_chunk_data w =
    let w' = take_some w in
    if w'.stream.remaining == 0
    then next (record w' { stream = record (w'.stream) { mode = chunk_crlf } })
    else return_true w'

-- The mode `chunk_crlf`.
unfoldable pub on_chunk_crlf : Work → Flow
on_chunk_crlf w =
    let buffer = w.stream.buffer in
    if ltb (length buffer) 2
    then return_true w
    else if not (starts crlf buffer)
    then raise missing_chunk_terminator w
    else again
        (record w { stream = record (w.stream) { buffer = drop 2 buffer; mode = chunk_size } })

-- `header["name"].lower() in ("content-length", "transfer-encoding")`
unfoldable pub is_framing : Header → Bool
is_framing h = same (lower h.name) content_length_name || same (lower h.name) transfer_encoding_name

abbrev pub put_trailers : List Header → Option Request → Option Request
put_trailers found none = none
put_trailers found (some r) = some (record r { trailers = some found })

-- The trailers up to `end` are checked, and dropped with their blank line.
unfoldable pub end_trailers : (end : ℕ) → Work → Result Problem (List Header) → Flow
unfolding is_framing complete_request
end_trailers end w (err p) = raise p w
end_trailers end w (ok found) =
    let s = w.stream in
    let s' = record s { request = put_trailers found s.request } in
    if any is_framing found
    then raise framing_in_trailers (record w { stream = s' })
    else again
        (complete_request (record w { stream = record s' { buffer = drop (end + 4) s.buffer } }))

unfoldable pub trailers_end : Work → Option ℕ → Flow
unfolding end_trailers
trailers_end w none =
    if ltb header_limit_bytes (length w.stream.buffer) then raise trailer_limit w else return_true w
trailers_end w (some end) =
    if ltb header_limit_bytes (end + 4)
    then raise trailer_limit w
    else end_trailers end w (headers (take end w.stream.buffer))

-- The mode `trailers`.
unfoldable pub on_trailers : Work → Flow
unfolding trailers_end
on_trailers w =
    let buffer = w.stream.buffer in
    if starts crlf buffer
    then again (complete_request (with_buffer (drop 2 buffer) w))
    else trailers_end w (find blank_line buffer)

-- One test of the loop's body: the part `f` runs in the mode `m` alone.
abbrev pub same_mode : Mode → Mode → Bool
same_mode reading_headers reading_headers = true
same_mode fixed fixed = true
same_mode chunk_size chunk_size = true
same_mode chunk_data chunk_data = true
same_mode chunk_crlf chunk_crlf = true
same_mode reading_trailers reading_trailers = true
same_mode _ _ = false

abbrev pub if_mode : Mode → (Work → Flow) → Work → Flow
if_mode m f w = if same_mode w.stream.mode m then f w else next w

-- The body of `while True`, in the order of its tests.
unfoldable pub round : Work → Flow
unfolding on_headers on_fixed on_chunk_size on_chunk_data on_chunk_crlf on_trailers
round w = then_do (if_mode reading_headers on_headers w) λ w1.
    then_do (if_mode fixed on_fixed w1) λ w2. then_do (if_mode chunk_size on_chunk_size w2) λ w3.
      then_do (if_mode chunk_data on_chunk_data w3)
        λ w4. then_do (if_mode chunk_crlf on_chunk_crlf w4) (if_mode reading_trailers on_trailers)

-- `"truncated" if "capture limit exceeded" in str(error) else "malformed"`
abbrev pub status_for : Problem → Status
status_for header_limit = truncated
status_for chunk_line_limit = truncated
status_for trailer_limit = truncated
status_for _ = malformed

-- `except ValueError`: the request so far is finished with the error as a warning.
unfoldable pub on_error : Problem → Work → Work
on_error p w = record w {
  result = added w.result (finish w.stream false (some (status_for p)) (some (problem p)));
}

-- `_consume(stream, result)`, with fuel for its rounds: `none` means that the fuel ran out.
unfoldable pub consume : ℕ → Work → Option (Bool × Work)
unfolding round on_error
consume zero w = none
consume (suc fuel) w = elim (round w) [
  | next w' ↦ consume fuel w'
  | again w' ↦ consume fuel w'
  | return_true w' ↦ some (true, w')
  | return_false w' ↦ some (false, w')
  | raise p w' ↦ some (false, on_error p w')
]
