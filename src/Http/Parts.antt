-- ===== src/Http/Parts.antt =====
-- macdbg/core/http_capture.py: the part of `_consume`'s loop for each mode keeps the invariant and
-- takes bytes from the buffer, or is the last.
use macdbg.Prelude.{
  ℕ, suc, ◌+◌, ◌≤◌, ◌<◌, ◌≡◌, refl, ap, ◌∙◌, Bool, true, false, Option, none, some, List, arith,
  ltb, min, if◌then◌else◌, length, length-drop, take, drop, Bool-cases, ltb-false→le, inl, inr, ◌⊎◌,
  All,
}
use macdbg.Http.Text.{blank_line, find}
use macdbg.Http.Body.{capture_limit}
use macdbg.Http.Stream.{
  Stream, Mode, reading_headers, fixed, chunk_size, chunk_data, chunk_crlf, reading_trailers,
  header_limit_bytes, Request,
}
use macdbg.Http.Framing.{Started, begun, refused, raised, new_request}
use macdbg.Http.Consume.{
  Work, Flow, return_true, return_false, wait_headers, bad_prefix, first_word, on_headers,
  headers_end, of_started,
}
use macdbg.Http.Invariant.{InMode, IsHonest, Goes, size_of}
use macdbg.Http.Begin.{Begun, new_request-Begun, find-length}

-- The place of a mode in the order of the loop's tests.
abbrev pub rank : Mode → ℕ
rank reading_headers = 0
rank fixed = 1
rank chunk_size = 2
rank chunk_data = 3
rank chunk_crlf = 4
rank reading_trailers = 5

-- The rest of a fixed body is not empty, or the round has taken bytes; `size` is the buffer's size
-- when the round began.
abbrev pub Left : (size : ℕ) → Mode → Work → Type 0
Left size fixed w = (size_of w ≤ size) × (size_of w < size + w.stream.remaining)
Left size m w = size_of w ≤ size

-- The work within a round, before the test of rank `k`.
pub record Within (k size : ℕ) (w : Work) : Type 0 where
  pub at : Mode
  pub here : InMode at w
  pub not_past : k ≤ rank at
  pub left : Left size at w

-- The work that goes round again has taken bytes.
pub record Anew (size : ℕ) (w : Work) : Type 0 where
  pub started : InMode reading_headers w ⊎ InMode chunk_size w
  pub smaller : size_of w < size

-- What a stream that waits for data holds back.
abbrev pub Held : Mode → Work → Type 0
Held reading_headers w = size_of w ≤ header_limit_bytes
Held fixed w = (size_of w ≡ 0) × (0 < w.stream.remaining)
Held chunk_size w = size_of w ≤ 8192
Held chunk_data w = size_of w ≡ 0
Held chunk_crlf w = size_of w < 2
Held reading_trailers w = size_of w ≤ header_limit_bytes

pub record Waits (w : Work) : Type 0 where
  pub at : Mode
  pub here : InMode at w
  pub held : Held at w

abbrev pub Part : (k size : ℕ) → Flow → Type 0
Part k size f = Goes (Within (suc k) size) (Anew size) Waits f

of_started-Part :
    (size : ℕ) (result : List Request) (s : Stream) (o : Started)
    → All IsHonest result
    → length s.buffer < size
    → (length s.body ≡ min capture_limit s.body_seen) × (s.body_seen ≡ 0) × (s.expected ≡ none)
    → Begun s o
    → Part 0 size (of_started result o)
of_started-Part size result s (begun t) honest shorter empty b = elim b.way [
  | inl (m, e) ↦ record {
    at = fixed;
    here = record {
      mode = m;
      kept = rw (b.no_body.0, b.no_body.1) empty.0;
      phase = (b.has_request, e ∙ ap some (omega (arith, b.no_body.1, empty.1)));
      honest = honest;
    };
    not_past = omega arith;
    left = let e = ap (λ xs. length xs) b.same_buffer in (omega (arith, e), omega (arith, e));
  }
  | inr (m, e) ↦ record {
    at = chunk_size;
    here = record {
      mode = m;
      kept = rw (b.no_body.0, b.no_body.1) empty.0;
      phase = (b.has_request, e ∙ empty.2);
      honest = honest;
    };
    not_past = omega arith;
    left = let e = ap (λ xs. length xs) b.same_buffer in omega (arith, e);
  }
]
of_started-Part size result s (refused t) honest shorter empty b = honest
of_started-Part size result s (raised p t) honest shorter empty b = honest

wait_headers-Part : (size : ℕ) (w : Work) → InMode reading_headers w → Part 0 size (wait_headers w)
unfolding wait_headers
wait_headers-Part size w h = elim (Bool-cases (ltb header_limit_bytes (size_of w))) [
  | inl long ↦ rw long h.honest
  | inr short ↦ rw short (
      by_prefix (bad_prefix (first_word w.stream.buffer))
        (ltb-false→le header_limit_bytes (size_of w) short))
]
  where
    by_prefix :
        (b : Bool)
        → size_of w ≤ header_limit_bytes
        → Part 0 size (if b then return_false w else return_true w)
    by_prefix true le = h.honest
    by_prefix false le = record { at = reading_headers; here = h; held = le }

headers_end-Part :
    (size : ℕ) (w : Work) (o : Option ℕ)
    → InMode reading_headers w
    → size_of w ≤ size
    → find blank_line w.stream.buffer ≡ o
    → Part 0 size (headers_end w o)
unfolding headers_end
headers_end-Part size w none h le e = wait_headers-Part size w h
headers_end-Part size w (some end) h le e = elim (Bool-cases (ltb header_limit_bytes (end + 4))) [
  | inl long ↦ rw long h.honest
  | inr short ↦ rw short (
      of_started-Part size w.result rest (new_request rest block) h.honest
        (omega (
          arith,
          length-drop (end + 4) w.stream.buffer,
          find-length blank_line w.stream.buffer end e,
        ))
        (h.kept, h.phase.1, h.phase.2) (new_request-Begun rest block))
]
  where
    rest : Stream
    rest = record (w.stream) { buffer = drop (end + 4) w.stream.buffer }

    block : List ℕ
    block = take end w.stream.buffer

pub on_headers-Part :
    (size : ℕ) (w : Work)
    → InMode reading_headers w
    → Left size reading_headers w
    → Part 0 size (on_headers w)
unfolding on_headers
on_headers-Part size w h le = headers_end-Part size w (find blank_line w.stream.buffer) h le refl
