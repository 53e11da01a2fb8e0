-- ===== src/Http/Headers.antt =====
-- macdbg/core/http_capture.py: `_headers` and the request line.
use macdbg.Prelude.{
  ℕ, Bool, ◌&&◌, ◌||◌, not, Option, none, some, List, [], ◌∷◌, ltb, leb, ◌==◌, if◌then◌else◌,
  length, Result, ok, err, ◌>>=◌,
}
use macdbg.Bytes.{same}
use macdbg.Http.Text.{cut, split_lines, strip, is_tab_or_space, is_token, any, all}

-- The `ValueError`s of the capture, by their messages.
pub data Problem : Type 0 where
  malformed_header_line malformed_header_value header_limit conflicting_framing : Problem
  unsupported_transfer invalid_length chunk_line_limit malformed_chunk_size : Problem
  missing_chunk_terminator trailer_limit framing_in_trailers : Problem

pub record Header : Type 0 where
  pub name : List ℕ
  pub value : List ℕ

-- `any(c == 127 or (c < 32 and c != 9) for c in value)`
unfoldable pub has_control : List ℕ → Bool
unfolding any
has_control value = any (λ c. c == 127 || ltb c 32 && not (c == 9)) value

-- One line of `_headers`.
unfoldable pub header : List ℕ → Result Problem Header
unfolding has_control
header line = elim (cut b':' line) [
  | none ↦ err malformed_header_line
  | some (name, value) ↦
      if not (is_token name) || has_control value
      then err malformed_header_value
      else ok (record { name = name; value = strip is_tab_or_space value })
]

unfoldable pub headers_of : List (List ℕ) → Result Problem (List Header)
unfolding header
headers_of [] = ok []
headers_of (line ∷ lines) = do h ← header line; rest ← headers_of lines; ok (h ∷ rest)

-- `_headers(data)`
unfoldable pub headers : List ℕ → Result Problem (List Header)
unfolding headers_of
headers [] = ok []
headers (c ∷ bytes) = headers_of (split_lines (c ∷ bytes))

pub record RequestLine : Type 0 where
  pub method : List ℕ
  pub url : List ℕ
  pub version : List ℕ

-- `[^\x00-\x20\x7f]+`, and `HTTP/1\.[01]`
unfoldable pub is_url : List ℕ → Bool
is_url text = ltb 0 (length text) && all (λ c. ltb 32 c && not (c == 127)) text

unfoldable pub is_version : List ℕ → Bool
unfolding same
is_version text =
    same text (b'H' ∷ b'T' ∷ b'T' ∷ b'P' ∷ b'/' ∷ b'1' ∷ b'.' ∷ b'0' ∷ [])
    || same text (b'H' ∷ b'T' ∷ b'T' ∷ b'P' ∷ b'/' ∷ b'1' ∷ b'.' ∷ b'1' ∷ [])

-- `_REQUEST_LINE.fullmatch(line)`, with a method that `_TOKEN` matches.
unfoldable pub request_line : List ℕ → Option RequestLine
unfolding is_url is_version
request_line line = elim (cut 32 line) [
  | none ↦ none
  | some (method, rest) ↦ elim (cut 32 rest) [
    | none ↦ none
    | some (url, version) ↦
        if leb (length method) 32 && is_token method && is_url url && is_version version
        then some (record { method = method; url = url; version = version })
        else none
  ]
]
