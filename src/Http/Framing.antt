-- ===== src/Http/Framing.antt =====
-- macdbg/core/http_capture.py: `_new_request`, which reads the framing of a body from the headers.
use macdbg.Prelude.{
  ℕ, Bool, false, ◌&&◌, not, Option, none, some, List, [], ◌∷◌, ◌++◌, ltb, leb, ◌==◌, map,
  if◌then◌else◌, length, Result, ok, err,
}
use macdbg.Bytes.{same}
use macdbg.Http.Text.{cut_line, split, strip, is_space, is_digit, lower, all, any, decimal}
use macdbg.Http.Headers.{
  Problem, conflicting_framing, unsupported_transfer, invalid_length, Header, headers, RequestLine,
  request_line,
}
use macdbg.Http.Stream.{
  Warning, multiple_content_types, encoded_body, Request, Stream, fixed, chunk_size,
}

-- `values.get(name, [])`: the values of the headers of a lower-case name.
unfoldable pub values_of : (name : List ℕ) → List Header → List (List ℕ)
values_of name [] = []
values_of name (h ∷ rest) =
    let more = values_of name rest in if same (lower h.name) name then h.value ∷ more else more

-- `for item in items for value in item.split(",")`
unfoldable pub parts_of : List (List ℕ) → List (List ℕ)
parts_of [] = []
parts_of (item ∷ items) = split b',' item ++ parts_of items

-- `value.strip().lower()` of each
unfoldable pub codings_of : List (List ℕ) → List (List ℕ)
unfolding parts_of
codings_of items = map (λ value. lower (strip is_space value)) (parts_of items)

abbrev pub content_type_name : List ℕ
content_type_name =
    b'c' ∷ b'o' ∷ b'n' ∷ b't' ∷ b'e' ∷ b'n' ∷ b't' ∷ b'-' ∷ b't' ∷ b'y' ∷ b'p' ∷ b'e' ∷ []

abbrev pub content_encoding_name : List ℕ
content_encoding_name =
    b'c' ∷ b'o' ∷ b'n' ∷ b't' ∷ b'e' ∷ b'n' ∷ b't' ∷ b'-' ∷ b'e' ∷ b'n' ∷ b'c' ∷ b'o' ∷ b'd' ∷ b'i'
    ∷ b'n' ∷ b'g' ∷ []

abbrev pub content_length_name : List ℕ
content_length_name =
    b'c' ∷ b'o' ∷ b'n' ∷ b't' ∷ b'e' ∷ b'n' ∷ b't' ∷ b'-' ∷ b'l' ∷ b'e' ∷ b'n' ∷ b'g' ∷ b't' ∷ b'h'
    ∷ []

abbrev pub transfer_encoding_name : List ℕ
transfer_encoding_name =
    b't' ∷ b'r' ∷ b'a' ∷ b'n' ∷ b's' ∷ b'f' ∷ b'e' ∷ b'r' ∷ b'-' ∷ b'e' ∷ b'n' ∷ b'c' ∷ b'o' ∷ b'd'
    ∷ b'i' ∷ b'n' ∷ b'g' ∷ []

abbrev pub identity_name : List ℕ
identity_name = b'i' ∷ b'd' ∷ b'e' ∷ b'n' ∷ b't' ∷ b'i' ∷ b't' ∷ b'y' ∷ []

abbrev pub chunked_name : List ℕ
chunked_name = b'c' ∷ b'h' ∷ b'u' ∷ b'n' ∷ b'k' ∷ b'e' ∷ b'd' ∷ []

-- `codings == ["chunked"]`
unfoldable pub is_chunked : List (List ℕ) → Bool
is_chunked [] = false
is_chunked (c ∷ []) = same c chunked_name
is_chunked (c ∷ d ∷ rest) = false

-- `re.fullmatch(r"[0-9]{1,19}", n)`
unfoldable pub is_length : List ℕ → Bool
is_length n = ltb 0 (length n) && leb (length n) 19 && all is_digit n

-- The content type of the body, where it is to be interpreted, and the warnings about it.
pub record Media : Type 0 where
  pub content_type : List ℕ
  pub warnings : List Warning

unfoldable pub one_type : List (List ℕ) → Media
one_type [] = record { content_type = []; warnings = [] }
one_type (t ∷ []) = record { content_type = t; warnings = [] }
one_type (t ∷ u ∷ rest) = record { content_type = []; warnings = multiple_content_types ∷ [] }

unfoldable pub media_of : List Header → Media
unfolding values_of codings_of one_type
media_of found =
    let media = one_type (values_of content_type_name found) in
    if any (λ c. not (same c identity_name)) (codings_of (values_of content_encoding_name found))
    then record { content_type = []; warnings = media.warnings ++ encoded_body ∷ [] }
    else media

-- How the body ends: by chunks, or after a number of bytes.
pub data Framing : Type 0 where
  chunks : Framing
  bytes : ℕ → Framing

-- The one length that all `Content-Length` values state, 0 without any.
unfoldable pub length_of : List (List ℕ) → Result Problem Framing
unfolding is_length
length_of [] = ok (bytes 0)
length_of (n ∷ numbers) =
    if all is_length (n ∷ numbers) && all (λ m. decimal 0 m == decimal 0 n) numbers
    then ok (bytes (decimal 0 n))
    else err invalid_length

unfoldable pub framing_by : (lengths transfer : List (List ℕ)) → Result Problem Framing
unfolding is_chunked codings_of length_of
framing_by [] [] = length_of []
framing_by (l ∷ lengths) [] = length_of (map (strip is_space) (parts_of (l ∷ lengths)))
framing_by [] (t ∷ transfer) =
    if is_chunked (codings_of (t ∷ transfer)) then ok chunks else err unsupported_transfer
framing_by (l ∷ lengths) (t ∷ transfer) = err conflicting_framing

unfoldable pub framing_of : List Header → Result Problem Framing
unfolding values_of framing_by
framing_of found =
    framing_by (values_of content_length_name found) (values_of transfer_encoding_name found)

-- The outcome of `_new_request`: the stream it leaves, and whether it returned or raised.
pub data Started : Type 0 where
  begun : Stream → Started
  refused : Stream → Started
  raised : Problem → Stream → Started

abbrev pub framed : Framing → Stream → Stream
framed chunks s = record s { mode = chunk_size }
framed (bytes n) s = record s { expected = some n; remaining = n; mode = fixed }

abbrev pub fresh_request : RequestLine → ℕ → Request
fresh_request line key = record {
  line = line;
  headers = [];
  stream = key;
  warnings = [];
  trailers = none;
  body = none;
  complete = false;
}

-- What `block` starts with: its first line, which is all of it where it has no line end.
abbrev pub line_and_rest : List ℕ → List ℕ × List ℕ
line_and_rest block = elim (cut_line block) [ none ↦ (block, []) | some parts ↦ parts ]

unfoldable pub begin_framed : Result Problem Framing → Stream → Started
begin_framed (err p) s = raised p s
begin_framed (ok framing) s = begun (framed framing s)

-- The headers are read; what is left is their meaning.
unfoldable pub begin_body : Stream → Request → List Header → Started
unfolding media_of framing_of begin_framed
begin_body s r found =
    let media = media_of found in
    begin_framed (framing_of found) (record s {
      request = some (record r { headers = found; warnings = media.warnings });
      content_type = media.content_type;
    })

-- A malformed header raises once the request is set, without headers.
unfoldable pub begin_headers : Stream → Request → Result Problem (List Header) → Started
unfolding begin_body
begin_headers s r (err p) = raised p (record s { request = some r })
begin_headers s r (ok found) = begin_body s r found

unfoldable pub begin_line : Stream → (rest : List ℕ) → Option RequestLine → Started
unfolding begin_headers
begin_line s rest none = refused s
begin_line s rest (some line) = begin_headers s (fresh_request line s.key) (headers rest)

-- `_new_request(stream, block)`
unfoldable pub new_request : Stream → List ℕ → Started
unfolding begin_line
new_request s block =
    let (line, rest) = line_and_rest block in begin_line s rest (request_line line)
