-- ===== src/Http/Bodies.antt =====
-- macdbg/core/http_capture.py: the parts of `_consume`'s loop that read bodies, by their length or in
-- chunks.
use macdbg.Prelude.{
  ℕ, zero, suc, ◌+◌, ◌-◌, ◌≤◌, ◌≡◌, ◌≢◌, refl, sym, ap, ◌∙◌, Bool, true, false, not, Option, none,
  some, List, arith, ltb, ◌==◌, min, if◌then◌else◌, length, length-drop, length-take, length-append,
  take, drop, Bool-cases, ltb-false→le, inl, inr, All,
}
use macdbg.Http.Text.{hexadecimal, crlf, starts, find}
use macdbg.Http.Headers.{chunk_line_limit, malformed_chunk_size, missing_chunk_terminator}
use macdbg.Http.Body.{capture_limit}
use macdbg.Http.Stream.{
  Mode, reading_headers, fixed, chunk_size, chunk_data, chunk_crlf, reading_trailers, take_body,
  finish,
}
use macdbg.Http.Consume.{
  Work, next, again, raise, complete_request, take_some, on_fixed, on_chunk_size, size_end,
  on_chunk_data, on_chunk_crlf, is_size, size_digits, chunk_line_bytes, with_buffer, sized,
}
use macdbg.Http.Invariant.{InMode, Phase, IsHonest, size_of, finish-IsHonest, added-All}
use macdbg.Http.Parts.{Left, Within, Part}

eq→≡ : (m n : ℕ) → (m == n) ≡ true → m ≡ n
eq→≡ m n h = ground arith

ne→≢ : (m n : ℕ) → (m == n) ≡ false → m ≢ n
ne→≢ m n h = ground arith

-- What `take_some` does to the counts of a stream.
pub take_some-kept :
    (w : Work)
    → length w.stream.body ≡ min capture_limit w.stream.body_seen
    → length (take_some w).stream.body ≡ min capture_limit (take_some w).stream.body_seen
unfolding take_some take_body
take_some-kept w h =
    let s = w.stream in
    let count : ℕ = min (length s.buffer) s.remaining in
    let retain : ℕ = min count (capture_limit - length s.body) in
    omega (arith, h, length-append s.body (take retain s.buffer), length-take retain s.buffer)

pub take_some-size : (w : Work) → size_of (take_some w) ≡ size_of w - w.stream.remaining
unfolding take_some take_body
take_some-size w =
    let s = w.stream in
    let count : ℕ = min (length s.buffer) s.remaining in omega (arith, length-drop count s.buffer)

pub take_some-remaining :
    (w : Work) → (take_some w).stream.remaining ≡ w.stream.remaining - size_of w
unfolding take_some take_body
take_some-remaining w = omega arith

pub take_some-seen :
    (w : Work)
    → (take_some w).stream.body_seen + (take_some w).stream.remaining
      ≡ w.stream.body_seen + w.stream.remaining
unfolding take_some take_body
take_some-seen w = omega arith

take_some-fixed : (w : Work) → InMode fixed w → InMode fixed (take_some w)
unfolding take_some take_body
take_some-fixed w h = record {
  mode = h.mode;
  kept = take_some-kept w h.kept;
  phase = (h.phase.0, h.phase.1 ∙ ap some (sym (take_some-seen w)));
  honest = h.honest;
}

take_some-data : (w : Work) → InMode chunk_data w → InMode chunk_data (take_some w)
unfolding take_some take_body
take_some-data w h = record {
  mode = h.mode;
  kept = take_some-kept w h.kept;
  phase = h.phase;
  honest = h.honest;
}

-- A finished request is added, and the stream is as new but for its buffer.
pub complete_request-InMode :
    (w : Work) → All IsHonest w.result → InMode reading_headers (complete_request w)
unfolding complete_request
complete_request-InMode w h = record {
  mode = refl;
  kept = omega arith;
  phase = (refl, refl, refl);
  honest =
      added-All IsHonest w.result (finish w.stream true none none) h
        (finish-IsHonest w.stream true none none);
}

pub complete_request-size : (w : Work) → size_of (complete_request w) ≡ size_of w
unfolding complete_request
complete_request-size w = refl

pub on_fixed-Part :
    (size : ℕ) (w : Work) → InMode fixed w → Left size fixed w → Part 1 size (on_fixed w)
unfolding on_fixed
on_fixed-Part size w h left = elim (Bool-cases ((take_some w).stream.remaining == 0)) [
  | inl done ↦ rw done record {
    started = inl (complete_request-InMode (take_some w) h.honest);
    smaller = omega (
      arith,
      complete_request-size (take_some w),
      take_some-size w,
      take_some-remaining w,
      left.0,
      left.1,
      eq→≡ _ _ done,
    );
  }
  | inr more ↦ rw more record {
    at = fixed;
    here = take_some-fixed w h;
    held =
        let more : (take_some w).stream.remaining ≢ 0 = ne→≢ _ _ more in
        (omega (arith, take_some-size w, take_some-remaining w), omega arith);
  }
]

pub on_chunk_data-Part :
    (size : ℕ) (w : Work)
    → InMode chunk_data w
    → Left size chunk_data w
    → Part 3 size (on_chunk_data w)
unfolding on_chunk_data
on_chunk_data-Part size w h left = elim (Bool-cases ((take_some w).stream.remaining == 0)) [
  | inl done ↦ rw done record {
    at = chunk_crlf;
    here =
        let h = take_some-data w h in
        record { mode = refl; kept = h.kept; phase = h.phase; honest = h.honest };
    not_past = omega arith;
    left = omega (arith, take_some-size w, left);
  }
  | inr more ↦ rw more record {
    at = chunk_data;
    here = take_some-data w h;
    held =
        let more : (take_some w).stream.remaining ≢ 0 = ne→≢ _ _ more in
        omega (arith, take_some-size w, take_some-remaining w);
  }
]

suc-ne : (n : ℕ) → (suc n == 0) ≡ false
suc-ne n = ground arith

sized-Within :
    (size n : ℕ) (w : Work) → InMode chunk_size w → size_of w ≤ size → Within 3 size (sized n w)
sized-Within size zero w h le = record {
  at = reading_trailers;
  here = record { mode = refl; kept = h.kept; phase = h.phase; honest = h.honest };
  not_past = omega arith;
  left = le;
}
sized-Within size (suc n) w h le = record {
  at = chunk_data;
  here = record { mode = rw (suc-ne n); kept = h.kept; phase = h.phase; honest = h.honest };
  not_past = omega arith;
  left = le;
}

pub with_buffer-InMode :
    (m : Mode) (buffer : List ℕ) (w : Work)
    → Phase m (with_buffer buffer w).stream
    → InMode m w
    → InMode m (with_buffer buffer w)
with_buffer-InMode m buffer w phase h = record {
  mode = h.mode;
  kept = h.kept;
  phase = phase;
  honest = h.honest;
}

size_end-Part :
    (size : ℕ) (w : Work) (o : Option ℕ)
    → InMode chunk_size w
    → size_of w ≤ size
    → Part 2 size (size_end w o)
unfolding size_end
size_end-Part size w none h le = elim (Bool-cases (ltb chunk_line_bytes (size_of w))) [
  | inl long ↦ rw long h.honest
  | inr short ↦
      rw short record { at = chunk_size; here = h; held = ltb-false→le 8192 (size_of w) short }
]
size_end-Part size w (some end) h le =
    by_size (ltb chunk_line_bytes end) (is_size digits) (hexadecimal 0 digits)
  where
    digits : List ℕ
    digits = size_digits (take end w.stream.buffer)

    w' : Work
    w' = with_buffer (drop (end + 2) w.stream.buffer) w

    by_size :
        (long good : Bool) (n : ℕ)
        → Part 2 size (
            if long
            then raise chunk_line_limit w'
            else if not good
            then raise malformed_chunk_size w'
            else next (sized n w'))
    by_size true good n = h.honest
    by_size false false n = h.honest
    by_size false true n =
        sized-Within size n w' (with_buffer-InMode chunk_size _ w h.phase h)
          (omega (arith, length-drop (end + 2) w.stream.buffer))

pub on_chunk_size-Part :
    (size : ℕ) (w : Work)
    → InMode chunk_size w
    → Left size chunk_size w
    → Part 2 size (on_chunk_size w)
unfolding on_chunk_size
on_chunk_size-Part size w h left = size_end-Part size w (find crlf w.stream.buffer) h left

pub on_chunk_crlf-Part :
    (size : ℕ) (w : Work)
    → InMode chunk_crlf w
    → Left size chunk_crlf w
    → Part 4 size (on_chunk_crlf w)
unfolding on_chunk_crlf
on_chunk_crlf-Part size w h left = elim (Bool-cases (ltb (size_of w) 2)) [
  | inl short ↦ rw short record { at = chunk_crlf; here = h; held = ground arith }
  | inr long ↦ rw long (by_start (starts crlf w.stream.buffer) (ltb-false→le (size_of w) 2 long))
]
  where
    w' : Work
    w' = record w {
      stream = record (w.stream) { buffer = drop 2 w.stream.buffer; mode = chunk_size };
    }

    by_start :
        (b : Bool)
        → 2 ≤ size_of w
        → Part 4 size (if not b then raise missing_chunk_terminator w else again w')
    by_start false le = h.honest
    by_start true le = record {
      started = inr record { mode = refl; kept = h.kept; phase = h.phase; honest = h.honest };
      smaller = omega (arith, length-drop 2 w.stream.buffer);
    }
