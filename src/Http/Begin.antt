-- ===== src/Http/Begin.antt =====
-- macdbg/core/http_capture.py: what `_new_request` leaves in a stream, and where `find` finds.
use macdbg.Prelude.{
  ℕ, ◌+◌, ◌≤◌, ◌≡◌, refl, true, Option, none, some, List, [], ◌∷◌, arith, length, ok, err,
  Bool-cases, Option-cases, inl, inr, ◌⊎◌, Result,
}
use macdbg.Http.Text.{starts, find}
use macdbg.Http.Headers.{Problem, Header, headers, RequestLine, request_line}
use macdbg.Http.Stream.{Stream, fixed, chunk_size, Request}
use macdbg.Http.Framing.{
  Started, begun, refused, raised, Framing, chunks, bytes, framing_of, begin_framed, begin_body,
  begin_headers, begin_line, new_request, line_and_rest, fresh_request,
}
use macdbg.Http.Invariant.{HasRequest}

pub starts-length : (prefix text : List ℕ) → starts prefix text ≡ true → length prefix ≤ length text
unfolding starts
starts-length [] text h = omega arith
starts-length (p ∷ prefix) [] h = ground arith
starts-length (p ∷ prefix) (c ∷ text) h = ground (arith, starts-length prefix text)

-- A part that is found lies in the text.
pub find-length :
    (part text : List ℕ) (i : ℕ) → find part text ≡ some i → i + length part ≤ length text
unfolding find
find-length part [] i h = ground arith
find-length part (c ∷ text) i h = elim (Bool-cases (starts part (c ∷ text))) [
  | inl here ↦ ground (arith, starts-length part (c ∷ text))
  | inr later ↦ elim (Option-cases (find part text)) [
    | inl nowhere ↦ ground arith
    | inr (j, found) ↦ ground (arith, find-length part text j)
  ]
]

-- The stream of a request that begins: its body is still to be read, by its length or by chunks.
pub record Begins (s t : Stream) : Type 0 where
  pub same_buffer : t.buffer ≡ s.buffer
  pub has_request : HasRequest t
  pub no_body : (t.body ≡ s.body) × (t.body_seen ≡ s.body_seen)
  pub way :
      ((t.mode ≡ fixed) × (t.expected ≡ some t.remaining))
      ⊎ ((t.mode ≡ chunk_size) × (t.expected ≡ s.expected))

abbrev pub Begun : Stream → Started → Type 0
Begun s (begun t) = Begins s t
Begun s (refused t) = Unit
Begun s (raised p t) = Unit

begin_framed-Begun :
    (s t : Stream) (f : Result Problem Framing)
    → HasRequest t
    → (t.buffer ≡ s.buffer)
      × (t.body ≡ s.body)
      × (t.body_seen ≡ s.body_seen)
      × (t.expected ≡ s.expected)
    → Begun s (begin_framed f t)
unfolding begin_framed
begin_framed-Begun s t (err p) r h = tt
begin_framed-Begun s t (ok chunks) r h = record {
  same_buffer = h.0;
  has_request = r;
  no_body = (h.1, h.2);
  way = inr (refl, h.3);
}
begin_framed-Begun s t (ok (bytes n)) r h = record {
  same_buffer = h.0;
  has_request = r;
  no_body = (h.1, h.2);
  way = inl (refl, refl);
}

begin_headers-Begun :
    (s : Stream) (r : Request) (h : Result Problem (List Header)) → Begun s (begin_headers s r h)
unfolding begin_headers begin_body
begin_headers-Begun s r (err p) = tt
begin_headers-Begun s r (ok found) =
    begin_framed-Begun s _ (framing_of found) (_, refl) (refl, refl, refl, refl)

begin_line-Begun :
    (s : Stream) (rest : List ℕ) (line : Option RequestLine) → Begun s (begin_line s rest line)
unfolding begin_line
begin_line-Begun s rest none = tt
begin_line-Begun s rest (some line) =
    begin_headers-Begun s (fresh_request line s.key) (headers rest)

pub new_request-Begun : (s : Stream) (block : List ℕ) → Begun s (new_request s block)
unfolding new_request
new_request-Begun s block =
    let (line, rest) = line_and_rest block in begin_line-Begun s rest (request_line line)
