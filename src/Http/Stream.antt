-- ===== src/Http/Stream.antt =====
-- macdbg/core/http_capture.py: the state of one stream, `_Stream`, and the record that `_finish`
-- makes of it.
use macdbg.Prelude.{
  ℕ, ◌+◌, ◌-◌, Bool, true, false, ◌&&◌, ◌||◌, not, Option, none, some, List, [], ◌∷◌, ◌++◌, ltb,
  min, if◌then◌else◌, length, take, drop, ok, err,
}
use macdbg.Http.Text.{cut_line, split_lines, but_last}
use macdbg.Http.Headers.{Problem, Header, headers, RequestLine, request_line}
use macdbg.Http.Body.{
  Status, complete, incomplete, truncated, capture_limit, Body, is_complete, record_bytes,
}

abbrev pub header_limit_bytes : ℕ
header_limit_bytes = 65536

pub data Warning : Type 0 where
  problem : Problem → Warning
  stream_ended stream_evicted short_payload headers_incomplete multiple_content_types : Warning
  encoded_body body_limit : Warning

abbrev pub is_body_limit : Warning → Bool
is_body_limit body_limit = true
is_body_limit _ = false

pub record Request : Type 0 where
  pub line : RequestLine
  pub headers : List Header
  pub stream : ℕ
  pub warnings : List Warning
  pub trailers : Option (List Header)
  pub body : Option Body
  pub complete : Bool

pub data Mode : Type 0 where
  reading_headers fixed chunk_size chunk_data chunk_crlf reading_trailers : Mode

pub record Stream : Type 0 where
  pub key : ℕ
  pub buffer : List ℕ
  pub request : Option Request
  pub body : List ℕ
  pub body_seen : ℕ
  pub mode : Mode
  pub remaining : ℕ
  pub expected : Option ℕ
  pub content_type : List ℕ

-- `_Stream(key)`
abbrev pub new_stream : ℕ → Stream
new_stream key = record {
  key = key;
  buffer = [];
  request = none;
  body = [];
  body_seen = 0;
  mode = reading_headers;
  remaining = 0;
  expected = none;
  content_type = [];
}

-- `take_body(count)`: at most the capture limit is kept, and all of it is counted.
unfoldable pub take_body : ℕ → Stream → Stream
take_body count s =
    let retain = min count (capture_limit - length s.body) in
    record s {
      body = s.body ++ take retain s.buffer;
      buffer = drop count s.buffer;
      body_seen = s.body_seen + count;
    }

-- The headers of a cut-off request, up to the first malformed one.
unfoldable pub whole_headers : List (List ℕ) → List Header
whole_headers [] = []
whole_headers (line ∷ lines) = elim (headers line) [
  | err p ↦ []
  | ok found ↦ found ++ whole_headers lines
]

-- The request of a stream whose headers are not complete, if its request line is.
unfoldable pub partial_request : Stream → Option Request
unfolding whole_headers
partial_request s = elim (cut_line (take header_limit_bytes s.buffer)) [
  | none ↦ none
  | some (line, rest) ↦ elim (request_line line) [
    | none ↦ none
    | some found ↦ some (record {
      line = found;
      headers = whole_headers (but_last (split_lines rest));
      stream = s.key;
      warnings = headers_incomplete ∷ [];
      trailers = none;
      body = none;
      complete = false;
    })
  ]
]

abbrev pub started : Stream → Option Request
started s = elim s.request [ none ↦ partial_request s | some r ↦ some r ]

unfoldable pub warns_limit : List Warning → Bool
warns_limit [] = false
warns_limit (w ∷ warnings) = is_body_limit w || warns_limit warnings

abbrev pub with_warning : Option Warning → List Warning → List Warning
with_warning none warnings = warnings
with_warning (some w) warnings = warnings ++ w ∷ []

abbrev pub or_status : Option Status → Status → Status
or_status none later = later
or_status (some s) later = s

-- The status that `_finish` gives to the body.
unfoldable pub final_status : (body_seen : ℕ) → Bool → Option Status → Status
final_status body_seen is_done status =
    let limited =
      if ltb capture_limit body_seen then some (or_status status truncated) else status in
    or_status limited (if is_done then complete else incomplete)

abbrev pub no_total : Bool → Option ℕ → Body → Body
no_total false none body = record body { total_bytes = none }
no_total _ _ body = body

abbrev pub expected_or : ℕ → Option ℕ → ℕ
expected_or seen none = seen
expected_or seen (some n) = n

-- The rest of `_finish`, for the request that the stream has.
unfoldable pub finish_request : Stream → Bool → Option Status → Option Warning → Request → Request
unfolding final_status warns_limit
finish_request s is_done status warning r =
    let warnings = with_warning warning r.warnings in
    let total = expected_or s.body_seen s.expected in
    let body =
      no_total is_done s.expected
        (record_bytes s.body (some total) (some (final_status s.body_seen is_done status))) in
    record r {
      warnings =
          if body.is_truncated && not (warns_limit warnings) && ltb capture_limit total
          then warnings ++ body_limit ∷ []
          else warnings;
      body = some body;
      complete = is_done && is_complete body.status;
    }

-- `_finish(stream, complete, status, warning)`
unfoldable pub finish : Stream → Bool → Option Status → Option Warning → Option Request
unfolding partial_request finish_request
finish s is_done status warning = elim (started s) [
  | none ↦ none
  | some r ↦ some (finish_request s is_done status warning r)
]
