-- ===== src/Http/Messages.antt =====
-- macdbg/core/http_capture.py: a stream of requests is taken apart into these requests.
use macdbg.Prelude.{ℕ, suc, ◌≤◌, ◌≡◌, List, [], ◌∷◌, ◌++◌, length, ok, All}
use macdbg.Http.Text.{blank_line}
use macdbg.Http.Headers.{Header, RequestLine}
use macdbg.Http.Body.{capture_limit}
use macdbg.Http.Stream.{Request}
use macdbg.Http.Framing.{chunks, bytes, framing_of}
use macdbg.Http.Exact.{received, Head}
use macdbg.Http.Chunks.{Chunk, content_of, IsChunk, IsSizeLine, chunk_wire, last_wire}

-- How the content of a request is sent.
pub data Coding : Type 0 where
  stated : List ℕ → Coding
  chunked : List Chunk → (last : List ℕ) → Coding

pub record Sent : Type 0 where
  pub block : List ℕ
  pub line : RequestLine
  pub found : List Header
  pub coding : Coding

abbrev pub joined : List Chunk → List ℕ
joined [] = []
joined (c ∷ cs) = content_of c ++ joined cs

abbrev pub content : Coding → List ℕ
content (stated body) = body
content (chunked cs last) = joined cs

abbrev pub chunks_wire : List Chunk → (last rest : List ℕ) → List ℕ
chunks_wire [] last rest = last_wire last rest
chunks_wire (c ∷ cs) last rest = chunk_wire c (chunks_wire cs last rest)

abbrev pub coding_wire : Coding → List ℕ → List ℕ
coding_wire (stated body) rest = body ++ rest
coding_wire (chunked cs last) rest = chunks_wire cs last rest

-- The requests on the wire, one behind the other.
abbrev pub wire : List Sent → List ℕ
wire [] = []
wire (m ∷ ms) = m.block ++ (blank_line ++ coding_wire m.coding (wire ms))

abbrev pub requests : (key : ℕ) → List Sent → List Request
requests key [] = []
requests key (m ∷ ms) = received key m.line m.found (content m.coding) ∷ requests key ms

abbrev pub IsCoded : List Header → Coding → Type 0
IsCoded found (stated body) =
    (framing_of found ≡ ok (bytes (length body))) × (length body ≤ capture_limit)
IsCoded found (chunked cs last) =
    (framing_of found ≡ ok chunks)
    × All IsChunk cs
    × IsSizeLine last 0
    × (length (joined cs) ≤ capture_limit)

abbrev pub IsSent : Sent → Type 0
IsSent m = Head m.block m.line m.found × IsCoded m.found m.coding

-- One round is the last of a chunked body; one is for each chunk.
abbrev pub chunk_rounds : List Chunk → ℕ → ℕ
chunk_rounds [] fuel = suc fuel
chunk_rounds (c ∷ cs) fuel = suc (chunk_rounds cs fuel)

abbrev pub rounds_of : Coding → ℕ → ℕ
rounds_of (stated body) fuel = suc fuel
rounds_of (chunked cs last) fuel = chunk_rounds cs fuel

abbrev pub all_rounds : List Sent → ℕ → ℕ
all_rounds [] fuel = suc fuel
all_rounds (m ∷ ms) fuel = rounds_of m.coding (all_rounds ms fuel)
