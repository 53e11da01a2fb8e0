-- ===== src/Http/Rounds.antt =====
-- macdbg/core/http_capture.py: the trailers, a whole round of `_consume`'s loop, and the loop.
use macdbg.Prelude.{
  subst, ℕ, ◌+◌, ◌≤◌, ◌≡◌, ◌≢◌, refl, sym, ◌∙◌, Bool, true, false, Option, none, some, List, arith,
  ltb, if◌then◌else◌, length-drop, take, drop, ok, err, Bool-cases, ltb-false→le, inl, inr, Result,
}
use macdbg.Http.Text.{crlf, blank_line, starts, find, any}
use macdbg.Http.Headers.{Problem, trailer_limit, framing_in_trailers, Header, headers}
use macdbg.Http.Stream.{
  Stream, Mode, reading_headers, fixed, chunk_size, chunk_data, chunk_crlf, reading_trailers,
  header_limit_bytes,
}
use macdbg.Http.Consume.{
  Work, Flow, next, again, return_true, return_false, raise, complete_request, on_headers, on_fixed,
  on_chunk_size, on_chunk_data, on_chunk_crlf, end_trailers, trailers_end, then_do, if_mode,
  same_mode, round, on_trailers, is_framing, with_buffer, put_trailers,
}
use macdbg.Http.Invariant.{InMode, HasRequest, Goes, size_of}
use macdbg.Http.Begin.{find-length, starts-length}
use macdbg.Http.Parts.{rank, Left, Within, Anew, Waits, Part, on_headers-Part}
use macdbg.Http.Bodies.{
  complete_request-InMode, complete_request-size, on_fixed-Part, on_chunk_size-Part,
  on_chunk_data-Part, on_chunk_crlf-Part,
}

put_trailers-HasRequest :
    (s : Stream) (found : List Header)
    → HasRequest s
    → HasRequest (record s { request = put_trailers found s.request })
put_trailers-HasRequest s found (r, e) = (record r { trailers = some found }, rw e)

end_trailers-Part :
    (size end : ℕ) (w : Work) (o : Result Problem (List Header))
    → InMode reading_trailers w
    → size_of w ≤ size
    → end + 4 ≤ size_of w
    → Part 5 size (end_trailers end w o)
unfolding end_trailers
end_trailers-Part size end w (err p) h le inside = h.honest
end_trailers-Part size end w (ok found) h le inside = by_framing (any is_framing found)
  where
    s' : Stream
    s' = record (w.stream) { request = put_trailers found w.stream.request }

    w' : Work
    w' = record w { stream = record s' { buffer = drop (end + 4) w.stream.buffer } }

    by_framing :
        (b : Bool)
        → Part 5 size (
            if b
            then raise framing_in_trailers (record w { stream = s' })
            else again (complete_request w'))
    by_framing true = h.honest
    by_framing false = record {
      started = inl (complete_request-InMode w' h.honest);
      smaller = omega (arith, complete_request-size w', length-drop (end + 4) w.stream.buffer);
    }

trailers_end-Part :
    (size : ℕ) (w : Work) (o : Option ℕ)
    → InMode reading_trailers w
    → size_of w ≤ size
    → find blank_line w.stream.buffer ≡ o
    → Part 5 size (trailers_end w o)
unfolding trailers_end
trailers_end-Part size w none h le e = elim (Bool-cases (ltb header_limit_bytes (size_of w))) [
  | inl long ↦ rw long h.honest
  | inr short ↦ rw short record {
    at = reading_trailers;
    here = h;
    held = ltb-false→le header_limit_bytes (size_of w) short;
  }
]
trailers_end-Part size w (some end) h le e = by_size (ltb header_limit_bytes (end + 4))
  where
    by_size :
        (b : Bool)
        → Part 5 size (
            if b
            then raise trailer_limit w
            else end_trailers end w (headers (take end w.stream.buffer)))
    by_size true = h.honest
    by_size false =
        end_trailers-Part size end w _ h le
          (omega (arith, find-length blank_line w.stream.buffer end e))

on_trailers-Part :
    (size : ℕ) (w : Work)
    → InMode reading_trailers w
    → Left size reading_trailers w
    → Part 5 size (on_trailers w)
unfolding on_trailers
on_trailers-Part size w h left = elim (Bool-cases (starts crlf w.stream.buffer)) [
  | inl here ↦ rw here record {
    started = inl (complete_request-InMode (with_buffer (drop 2 w.stream.buffer) w) h.honest);
    smaller = omega (
      arith,
      complete_request-size (with_buffer (drop 2 w.stream.buffer) w),
      length-drop 2 w.stream.buffer,
      starts-length crlf w.stream.buffer here,
    );
  }
  | inr later ↦ rw later (trailers_end-Part size w (find blank_line w.stream.buffer) h left refl)
]

-- A part that runs in one mode alone is passed by the others.
same_mode→eq : (m n : Mode) → same_mode m n ≡ true → m ≡ n
same_mode→eq reading_headers reading_headers h = refl
same_mode→eq fixed fixed h = refl
same_mode→eq chunk_size chunk_size h = refl
same_mode→eq chunk_data chunk_data h = refl
same_mode→eq chunk_crlf chunk_crlf h = refl
same_mode→eq reading_trailers reading_trailers h = refl
same_mode→eq _ _ h = cc

same_mode→ne : (m n : Mode) → same_mode m n ≡ false → rank m ≢ rank n
same_mode→ne m n h = ground arith

-- One test of the loop's body, for work that no earlier test was for.
test-Part :
    (m : Mode) (size : ℕ) (f : Work → Flow)
    → ((w : Work) → InMode m w → Left size m w → Part (rank m) size (f w))
    → (w : Work) → Within (rank m) size w
    → Part (rank m) size (if_mode m f w)
test-Part m size f part w h = elim (Bool-cases (same_mode w.stream.mode m)) [
  | inl same ↦
      let e : h.at ≡ m = sym h.here.mode ∙ same_mode→eq w.stream.mode m same in
      rw same (part w (subst (λ n. InMode n w) e h.here) (subst (λ n. Left size n w) e h.left))
  | inr other ↦
      let e : rank h.at ≢ rank m = rw h.here.mode at (same_mode→ne w.stream.mode m other) in
      rw other
        record { at = h.at; here = h.here; not_past = omega (arith, e, h.not_past); left = h.left }
]

then_do-Goes :
    (N M A T : Work → Type 0) (o : Flow) (f : Work → Flow)
    → Goes N A T o
    → ((w : Work) → N w → Goes M A T (f w))
    → Goes M A T (then_do o f)
then_do-Goes N M A T (next w) f h k = k w h
then_do-Goes N M A T (again w) f h k = h
then_do-Goes N M A T (return_true w) f h k = h
then_do-Goes N M A T (return_false w) f h k = h
then_do-Goes N M A T (raise p w) f h k = h

-- A round takes bytes from the buffer, or it is the last and what waits is bounded.
pub round-Goes :
    (size : ℕ) (w : Work) → Within 0 size w → Goes (Within 6 size) (Anew size) Waits (round w)
unfolding round
round-Goes size w h =
    do_ 1 _ _ (test-Part reading_headers size on_headers (on_headers-Part size) w h) λ w1 h1.
      do_ 2 _ _ (test-Part fixed size on_fixed (on_fixed-Part size) w1 h1) λ w2 h2.
        do_ 3 _ _ (test-Part chunk_size size on_chunk_size (on_chunk_size-Part size) w2 h2) λ w3 h3.
          do_ 4 _ _ (test-Part chunk_data size on_chunk_data (on_chunk_data-Part size) w3 h3)
            λ w4 h4.
              do_ 5 _ _ (test-Part chunk_crlf size on_chunk_crlf (on_chunk_crlf-Part size) w4 h4)
                λ w5 h5. test-Part reading_trailers size on_trailers (on_trailers-Part size) w5 h5
  where
    do_ :
        (k : ℕ) (o : Flow) (f : Work → Flow)
        → Goes (Within k size) (Anew size) Waits o
        → ((v : Work) → Within k size v → Goes (Within 6 size) (Anew size) Waits (f v))
        → Goes (Within 6 size) (Anew size) Waits (then_do o f)
    do_ k = then_do-Goes (Within k size) (Within 6 size) (Anew size) Waits
