-- ===== src/Http/Exact.antt =====
-- macdbg/core/http_capture.py: requests that are framed as they should be are recovered exactly.
use macdbg.Prelude.{
  ℕ, zero, suc, ◌+◌, ◌-◌, ◌≤◌, ◌≡◌, refl, ap, ◌∙◌, true, false, none, some, List, [], ◌∷◌, ◌++◌,
  arith, length, length-append, take, drop, min, max, ltb, ◌==◌, ok, if◌then◌else◌,
}
use macdbg.Http.Text.{blank_line, find}
use macdbg.Http.Headers.{Header, RequestLine, headers, request_line}
use macdbg.Http.Body.{complete, capture_limit, Body, record_bytes, status_of}
use macdbg.Http.Stream.{
  header_limit_bytes, Request, Stream, new_stream, take_body, finish, finish_request, final_status,
  expected_or,
}
use macdbg.Http.Framing.{
  bytes, begun, Framing, framing_of, media_of, fresh_request, line_and_rest, framed, new_request,
  begin_line, begin_headers, begin_body, begin_framed,
}
use macdbg.Http.Consume.{
  Work, next, again, on_headers, headers_end, on_fixed, take_some, complete_request, round,
  of_started, return_true,
}

pub take-append_length {ℓ} : {A : Type ℓ} → (xs ys : List A) → take (length xs) (xs ++ ys) ≡ xs
take-append_length [] ys = refl
take-append_length (x ∷ xs) ys = ap (λ zs. x ∷ zs) (take-append_length xs ys)

pub drop-append_length {ℓ} : {A : Type ℓ} → (xs ys : List A) → drop (length xs) (xs ++ ys) ≡ ys
drop-append_length [] ys = refl
drop-append_length (x ∷ xs) ys = drop-append_length xs ys

-- The head of a request: its first line and its headers, without a blank line in it.
pub record Head (block : List ℕ) (line : RequestLine) (found : List Header) : Type 0 where
  pub first : request_line (line_and_rest block).0 ≡ some line
  pub fields : headers (line_and_rest block).1 ≡ ok found
  pub short : length block + 4 ≤ header_limit_bytes
  pub no_blank :
      (tail : List ℕ) → find blank_line (block ++ (blank_line ++ tail)) ≡ some (length block)

-- A stream that has nothing but bytes to read.
abbrev pub fresh : (key : ℕ) → List ℕ → Stream
fresh key buffer = record (new_stream key) { buffer = buffer }

abbrev pub headed : (key : ℕ) → RequestLine → List Header → Request
headed key line found = record (fresh_request line key) {
  headers = found;
  warnings = (media_of found).warnings;
}

-- The stream whose request has begun.
abbrev pub begun_stream : (key : ℕ) → RequestLine → List Header → List ℕ → Stream
begun_stream key line found tail = record (fresh key tail) {
  request = some (headed key line found);
  content_type = (media_of found).content_type;
}

drop_head : (block tail : List ℕ) → drop (length block + 4) (block ++ (blank_line ++ tail)) ≡ tail
drop_head [] tail = refl
drop_head (c ∷ block) tail =
    let e : suc (length block) + 4 ≡ suc (length block + 4) = omega arith in
    rw e (drop_head block tail)

pub small : (a b : ℕ) → a ≤ b → ltb b a ≡ false
small a b h = ground arith

headers_end-found :
    (w : Work) (end : ℕ) (block tail : List ℕ)
    → take end w.stream.buffer ≡ block
    → drop (end + 4) w.stream.buffer ≡ tail
    → end + 4 ≤ header_limit_bytes
    → headers_end w (some end)
      ≡ of_started w.result (new_request (record (w.stream) { buffer = tail }) block)
unfolding headers_end
headers_end-found w end block tail before after le =
    rw (small (end + 4) header_limit_bytes le, before, after) refl

new_request-begun :
    (s : Stream) (block : List ℕ) (line : RequestLine) (found : List Header) (f : Framing)
    → Head block line found
    → framing_of found ≡ ok f
    → new_request s block
      ≡ begun (
          framed f (record s {
            request = some (headed s.key line found);
            content_type = (media_of found).content_type;
          }))
unfolding new_request begin_line begin_headers begin_body begin_framed
new_request-begun s block line found f h e = rw (h.first, h.fields, e) refl

pub on_headers-begun :
    (key : ℕ) (block : List ℕ) (line : RequestLine) (found : List Header) (f : Framing)
    (tail : List ℕ) (result : List Request)
    → Head block line found
    → framing_of found ≡ ok f
    → on_headers (record { stream = fresh key (block ++ (blank_line ++ tail)); result = result })
      ≡ next (record { stream = framed f (begun_stream key line found tail); result = result })
unfolding on_headers
on_headers-begun key block line found f tail result h e = rw (h.no_blank tail) (
    headers_end-found
      (record { stream = fresh key (block ++ (blank_line ++ tail)); result = result })
      (length block) block tail (take-append_length block (blank_line ++ tail))
      (drop_head block tail) h.short
    ∙ ap (of_started result) (new_request-begun (fresh key tail) block line found f h e))

-- What a whole body of these bytes is recorded as.
abbrev pub whole : List ℕ → Body
whole body = record {
  bytes = body;
  captured_bytes = length body;
  total_bytes = some (length body);
  is_truncated = false;
  status = complete;
}

pub take_all : (n : ℕ) (xs : List ℕ) → length xs ≤ n → take n xs ≡ xs
take_all n [] h = by_size n
  where
    by_size : (n : ℕ) → take {A = ℕ} n [] ≡ []
    by_size zero = refl
    by_size (suc n) = refl
take_all zero (x ∷ xs) h = let absurd : ⊥ = omega arith in elim absurd [ ]
take_all (suc n) (x ∷ xs) h = ap (λ ys. x ∷ ys) (take_all n xs (omega arith))

record_bytes-whole :
    (body : List ℕ)
    → length body ≤ capture_limit
    → record_bytes body (some (length body)) (some complete) ≡ whole body
unfolding record_bytes status_of
record_bytes-whole body h =
    let same_size : max (length body) (length body) ≡ length body = omega arith in
    rw (take_all capture_limit body h, same_size, small (length body) (length body) (omega arith))
      refl

finish_request-whole :
    (s : Stream) (r : Request) (total : ℕ)
    → total ≡ length s.body
    → expected_or s.body_seen s.expected ≡ total
    → s.body_seen ≤ capture_limit
    → length s.body ≤ capture_limit
    → finish_request s true none none r ≡ record r { body = some (whole s.body); complete = true }
unfolding finish_request final_status
finish_request-whole s r total e f seen le =
    rw (f, e, small s.body_seen capture_limit seen, record_bytes-whole s.body le) refl

-- The request of a message with its whole body.
abbrev pub received : (key : ℕ) → RequestLine → List Header → List ℕ → Request
received key line found body = record (headed key line found) {
  body = some (whole body);
  complete = true;
}

-- The stream whose body of a stated length stands in the buffer.
abbrev with_body : (key : ℕ) → RequestLine → List Header → (body rest : List ℕ) → Stream
with_body key line found body rest =
    framed (bytes (length body)) (begun_stream key line found (body ++ rest))

pub take_some-whole :
    (s : Stream) (body rest : List ℕ) (result : List Request)
    → s.buffer ≡ body ++ rest
    → s.remaining ≡ length body
    → s.body ≡ []
    → length body ≤ capture_limit
    → take_some (record { stream = s; result = result }) ≡ record {
      stream = record s {
        buffer = rest;
        body = body;
        body_seen = s.body_seen + length body;
        remaining = 0;
      };
      result = result;
    }
unfolding take_some take_body
take_some-whole s body rest result b r e le =
    let count : min (length (body ++ rest)) (length body) ≡ length body =
      omega (arith, length-append body rest) in
    let retain : min (length body) capture_limit ≡ length body = omega arith in
    let left : length body - length body ≡ 0 = omega arith in
    rw (b, r, e, count, retain, left, take-append_length body rest, drop-append_length body rest)
      refl

pub complete_request-whole :
    (s : Stream) (r : Request) (result : List Request)
    → s.request ≡ some r
    → expected_or s.body_seen s.expected ≡ length s.body
    → s.body_seen ≤ capture_limit
    → length s.body ≤ capture_limit
    → s.remaining ≡ 0
    → complete_request (record { stream = s; result = result }) ≡ record {
      stream = fresh s.key s.buffer;
      result = result ++ record r { body = some (whole s.body); complete = true } ∷ [];
    }
unfolding complete_request finish
complete_request-whole s r result has total seen le done =
    rw (has, finish_request-whole s r (length s.body) refl total seen le, done) refl

on_fixed-done :
    (w taken : Work)
    → take_some w ≡ taken
    → taken.stream.remaining ≡ 0
    → on_fixed w ≡ again (complete_request taken)
unfolding on_fixed
on_fixed-done w taken e done =
    ap (λ (v : Work). if v.stream.remaining == 0 then again (complete_request v) else return_true v)
      e
    ∙ rw done refl

-- A body of a stated length, all of it in the buffer, ends its request.
pub on_fixed-again :
    (key : ℕ) (line : RequestLine) (found : List Header) (body rest : List ℕ)
    (result : List Request)
    → length body ≤ capture_limit
    → on_fixed (record { stream = with_body key line found body rest; result = result })
      ≡ again
          (record { stream = fresh key rest; result = result ++ received key line found body ∷ [] })
on_fixed-again key line found body rest result le =
    let s : Stream = record (with_body key line found body rest) {
      buffer = rest;
      body = body;
      body_seen = 0 + length body;
      remaining = 0;
    } in
    on_fixed-done _ (record { stream = s; result = result })
      (take_some-whole (with_body key line found body rest) body rest result refl refl refl le) refl
    ∙ ap again (
        complete_request-whole s (headed key line found) result refl refl (omega (arith, le)) le
          refl)

-- A message whose head states the length of its body.
pub record Message : Type 0 where
  pub block : List ℕ
  pub line : RequestLine
  pub found : List Header
  pub content : List ℕ

pub record IsMessage (m : Message) : Type 0 where
  pub head : Head m.block m.line m.found
  pub stated : framing_of m.found ≡ ok (bytes (length m.content))
  pub fits : length m.content ≤ capture_limit

pub fixed-round :
    (key : ℕ) (m : Message) (rest : List ℕ) (result : List Request)
    → IsMessage m
    → round (record {
      stream = fresh key (m.block ++ (blank_line ++ (m.content ++ rest)));
      result = result;
    })
      ≡ again (record {
        stream = fresh key rest;
        result = result ++ received key m.line m.found m.content ∷ [];
      })
unfolding round
fixed-round key m rest result h =
    rw
      (
        on_headers-begun key m.block m.line m.found (bytes (length m.content)) (m.content ++ rest)
            result h.head h.stated,
        on_fixed-again key m.line m.found m.content rest result h.fits,
      )
      refl
