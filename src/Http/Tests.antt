-- ===== src/Http/Tests.antt =====
-- Runs of the capture of macdbg/core/http_capture.py, and the theorems about it there.
use macdbg.Prelude.{
  ℕ, suc, ◌≡◌, refl, Bool, true, false, Option, none, some, List, [], ◌∷◌, map, arith, length,
}
use macdbg.Bytes.{same}
use macdbg.Http.Text.{
  all, find, cut, cut_line, is_token, split_lines, lower, split, strip, decimal, hexadecimal,
}
use macdbg.Http.Framing.{new_request, framing_of}
use macdbg.Http.Consume.{is_size, size_digits}
use macdbg.Http.Exact.{Head, fresh}
use macdbg.Http.Chunks.{IsSizeLine}
use macdbg.Http.Messages.{Sent, stated, chunked, IsSent, wire, requests}
use macdbg.Http.Pipeline.{messages-consume}
use macdbg.Http.Requests.{messages-feed}
use macdbg.Http.Headers.{headers, request_line}
use macdbg.Http.Body.{record_bytes}
use macdbg.Http.Stream.{Request, new_stream, stream_ended, finish, reading_headers}
use macdbg.Http.Consume.{Work, consume}
use macdbg.Http.Capture.{Capture, new_capture, feed}
use macdbg.Http.Invariant.{Every, IsHonest, finish-IsHonest}
use macdbg.Http.Parts.{Within}
use macdbg.Http.Totality.{Ends, consume-Ends}
use macdbg.Http.Feeding.{Fed, feed-Fed}
use macdbg.Http.Calls.{
  Call, feeding, flushing_all, run, run-Fed, IsBounded, run-IsBounded, new_capture-IsCapture,
}

-- A POST with a body of two bytes comes in two pieces; a GET without the end of its headers follows.
abbrev first_piece : List ℕ
first_piece =
    b'P' ∷ b'O' ∷ b'S' ∷ b'T' ∷ 32 ∷ b'/' ∷ 32 ∷ b'H' ∷ b'T' ∷ b'T' ∷ b'P' ∷ b'/' ∷ b'1' ∷ b'.'
    ∷ b'1' ∷ 13 ∷ 10 ∷ b'C' ∷ b'o' ∷ b'n' ∷ b't' ∷ b'e' ∷ b'n' ∷ b't' ∷ b'-' ∷ b'L' ∷ b'e' ∷ b'n'
    ∷ b'g' ∷ b't' ∷ b'h' ∷ b':' ∷ 32 ∷ b'2' ∷ 13 ∷ 10 ∷ 13 ∷ 10 ∷ b'h' ∷ []

abbrev second_piece : List ℕ
second_piece =
    b'i' ∷ b'G' ∷ b'E' ∷ b'T' ∷ 32 ∷ b'/' ∷ b'a' ∷ 32 ∷ b'H' ∷ b'T' ∷ b'T' ∷ b'P' ∷ b'/' ∷ b'1'
    ∷ b'.' ∷ b'1' ∷ 13 ∷ 10 ∷ []

-- A PUT with one chunk.
abbrev chunked_piece : List ℕ
chunked_piece =
    b'P' ∷ b'U' ∷ b'T' ∷ 32 ∷ b'/' ∷ b'c' ∷ 32 ∷ b'H' ∷ b'T' ∷ b'T' ∷ b'P' ∷ b'/' ∷ b'1' ∷ b'.'
    ∷ b'1' ∷ 13 ∷ 10 ∷ b'T' ∷ b'r' ∷ b'a' ∷ b'n' ∷ b's' ∷ b'f' ∷ b'e' ∷ b'r' ∷ b'-' ∷ b'E' ∷ b'n'
    ∷ b'c' ∷ b'o' ∷ b'd' ∷ b'i' ∷ b'n' ∷ b'g' ∷ b':' ∷ 32 ∷ b'c' ∷ b'h' ∷ b'u' ∷ b'n' ∷ b'k' ∷ b'e'
    ∷ b'd' ∷ 13 ∷ 10 ∷ 13 ∷ 10 ∷ b'2' ∷ 13 ∷ 10 ∷ b'o' ∷ b'k' ∷ 13 ∷ 10 ∷ b'0' ∷ 13 ∷ 10 ∷ 13 ∷ 10
    ∷ []

abbrev calls : List Call
calls =
    feeding 7 first_piece none
    ∷ feeding 8 chunked_piece none
    ∷ feeding 7 second_piece none
    ∷ flushing_all
    ∷ []

abbrev shown : Option (List Request × Capture) → List (List ℕ × Bool × Option (List ℕ))
shown none = []
shown (some (result, c)) =
    map
      (λ (r : Request).
        (r.line.url, r.complete, elim r.body [ none ↦ none | some b ↦ some b.bytes ]))
      result

run-shown : shown (run calls (new_capture 2)) ≡ (
    (b'/' ∷ b'c' ∷ [], true, some (b'o' ∷ b'k' ∷ []))
    ∷ (b'/' ∷ [], true, some (b'h' ∷ b'i' ∷ []))
    ∷ (b'/' ∷ b'a' ∷ [], false, some [])
    ∷ [])
unfolding run new_capture consume find new_request request_line cut cut_line is_token headers
    split_lines lower split strip decimal hexadecimal finish record_bytes
run-shown = refl

run-Fed_example : Fed (run calls (new_capture 2))
run-Fed_example = run-Fed calls (new_capture 2) (new_capture-IsCapture 2)

run-IsBounded_example : IsBounded (run calls (new_capture 2))
run-IsBounded_example = run-IsBounded 2 calls

feed-Fed_example : Fed (feed 7 first_piece (some 100) (new_capture 1))
feed-Fed_example = feed-Fed 7 first_piece (some 100) (new_capture 1) (new_capture-IsCapture 1)

-- The stream that has just been given the first piece.
abbrev given : Work
given = record { stream = record (new_stream 7) { buffer = first_piece }; result = [] }

given-Within : Within 0 (length first_piece) given
given-Within = record {
  at = reading_headers;
  here = record { mode = refl; kept = omega arith; phase = (refl, refl, refl); honest = tt };
  not_past = omega arith;
  left = omega arith;
}

consume-Ends_example : Ends (consume (suc (length first_piece)) given)
consume-Ends_example = consume-Ends (suc (length first_piece)) given given-Within (omega arith)

finish-IsHonest_example : Every IsHonest (finish given.stream true none (some stream_ended))
finish-IsHonest_example = finish-IsHonest given.stream true none (some stream_ended)

-- A POST with two bytes of content, and a PUT with a chunk whose line has an extension.
abbrev post : Sent
post = record {
  block =
      b'P' ∷ b'O' ∷ b'S' ∷ b'T' ∷ 32 ∷ b'/' ∷ 32 ∷ b'H' ∷ b'T' ∷ b'T' ∷ b'P' ∷ b'/' ∷ b'1' ∷ b'.'
      ∷ b'1' ∷ 13 ∷ 10 ∷ b'C' ∷ b'o' ∷ b'n' ∷ b't' ∷ b'e' ∷ b'n' ∷ b't' ∷ b'-' ∷ b'L' ∷ b'e' ∷ b'n'
      ∷ b'g' ∷ b't' ∷ b'h' ∷ b':' ∷ 32 ∷ b'2' ∷ [];
  line = record {
    method = b'P' ∷ b'O' ∷ b'S' ∷ b'T' ∷ [];
    url = b'/' ∷ [];
    version = b'H' ∷ b'T' ∷ b'T' ∷ b'P' ∷ b'/' ∷ b'1' ∷ b'.' ∷ b'1' ∷ [];
  };
  found =
      record {
        name =
            b'C' ∷ b'o' ∷ b'n' ∷ b't' ∷ b'e' ∷ b'n' ∷ b't' ∷ b'-' ∷ b'L' ∷ b'e' ∷ b'n' ∷ b'g' ∷ b't'
            ∷ b'h' ∷ [];
        value = b'2' ∷ [];
      }
      ∷ [];
  coding = stated (b'h' ∷ b'i' ∷ []);
}

abbrev put : Sent
put = record {
  block =
      b'P' ∷ b'U' ∷ b'T' ∷ 32 ∷ b'/' ∷ b'c' ∷ 32 ∷ b'H' ∷ b'T' ∷ b'T' ∷ b'P' ∷ b'/' ∷ b'1' ∷ b'.'
      ∷ b'1' ∷ 13 ∷ 10 ∷ b'T' ∷ b'r' ∷ b'a' ∷ b'n' ∷ b's' ∷ b'f' ∷ b'e' ∷ b'r' ∷ b'-' ∷ b'E' ∷ b'n'
      ∷ b'c' ∷ b'o' ∷ b'd' ∷ b'i' ∷ b'n' ∷ b'g' ∷ b':' ∷ 32 ∷ b'c' ∷ b'h' ∷ b'u' ∷ b'n' ∷ b'k'
      ∷ b'e' ∷ b'd' ∷ [];
  line = record {
    method = b'P' ∷ b'U' ∷ b'T' ∷ [];
    url = b'/' ∷ b'c' ∷ [];
    version = b'H' ∷ b'T' ∷ b'T' ∷ b'P' ∷ b'/' ∷ b'1' ∷ b'.' ∷ b'1' ∷ [];
  };
  found =
      record {
        name =
            b'T' ∷ b'r' ∷ b'a' ∷ b'n' ∷ b's' ∷ b'f' ∷ b'e' ∷ b'r' ∷ b'-' ∷ b'E' ∷ b'n' ∷ b'c' ∷ b'o'
            ∷ b'd' ∷ b'i' ∷ b'n' ∷ b'g' ∷ [];
        value = b'c' ∷ b'h' ∷ b'u' ∷ b'n' ∷ b'k' ∷ b'e' ∷ b'd' ∷ [];
      }
      ∷ [];
  coding =
      chunked
        (record { line = b'2' ∷ b';' ∷ b'a' ∷ b'=' ∷ b'b' ∷ []; first = b'o'; others = b'k' ∷ [] }
          ∷ [])
        (b'0' ∷ []);
}

post-Head : Head post.block post.line post.found
unfolding find request_line cut cut_line is_token headers split_lines strip
post-Head = record { first = refl; fields = refl; short = omega arith; no_blank = λ tail. refl }

put-Head : Head put.block put.line put.found
unfolding find request_line cut cut_line is_token headers split_lines strip
put-Head = record { first = refl; fields = refl; short = omega arith; no_blank = λ tail. refl }

post-IsSent : IsSent post
unfolding framing_of lower strip split decimal same all
post-IsSent = (post-Head, (refl, omega arith))

two-IsSizeLine : IsSizeLine (b'2' ∷ b';' ∷ b'a' ∷ b'=' ∷ b'b' ∷ []) 2
unfolding find is_size size_digits cut hexadecimal all
two-IsSizeLine = record { no_end = λ tail. refl; short = omega arith; digits = refl; value = refl }

last-IsSizeLine : IsSizeLine (b'0' ∷ []) 0
unfolding find is_size size_digits cut hexadecimal all
last-IsSizeLine = record { no_end = λ tail. refl; short = omega arith; digits = refl; value = refl }

put-IsSent : IsSent put
unfolding framing_of lower strip split same all
put-IsSent = (put-Head, (refl, (two-IsSizeLine, tt), last-IsSizeLine, omega arith))

messages-consume_example :
    consume
      (suc (length (wire (post ∷ put ∷ []))))
      (record { stream = fresh 7 (wire (post ∷ put ∷ [])); result = [] })
    ≡ some (true, record { stream = fresh 7 []; result = requests 7 (post ∷ put ∷ []) })
messages-consume_example = messages-consume 7 (post ∷ put ∷ []) (post-IsSent, (put-IsSent, tt))

messages-feed_example :
    feed 7 (wire (post ∷ put ∷ [])) none (new_capture 2)
    ≡ some (requests 7 (post ∷ put ∷ []), new_capture 2)
messages-feed_example =
    messages-feed 7 2 (post ∷ put ∷ []) (post-IsSent, (put-IsSent, tt)) (omega arith) (omega arith)
