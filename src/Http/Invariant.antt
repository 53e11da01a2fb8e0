-- ===== src/Http/Invariant.antt =====
-- macdbg/core/http_capture.py: what holds of a stream in each mode.
use macdbg.Prelude.{
  ℕ, ◌+◌, ◌≤◌, ◌≡◌, refl, ap, Bool, true, false, ◌||◌, Option, none, some, List, [], ◌∷◌, arith,
  ltb, min, max, length, length-take, take, ltb-false→le, All, All-append,
}
use macdbg.Http.Body.{
  Status, complete, incomplete, truncated, malformed, unavailable, Body, capture_limit,
  record_bytes, status_of, is_complete,
}
use macdbg.Http.Stream.{
  Stream, Mode, reading_headers, fixed, chunk_size, chunk_data, chunk_crlf, reading_trailers,
  Warning, Request, started, finish_request, finish, final_status, expected_or,
}
use macdbg.Http.Consume.{Work, Flow, next, again, return_true, return_false, raise, added}

-- A request that is marked complete carries its whole body: nothing was cut off.
pub record IsWhole (b : Body) : Type 0 where
  pub all_bytes : b.total_bytes ≡ some b.captured_bytes
  pub counted : length b.bytes ≡ b.captured_bytes
  pub not_cut : b.is_truncated ≡ false
  pub as_stated : b.status ≡ complete

abbrev pub IsHonest : Request → Type 0
IsHonest r = r.complete ≡ true → (b : Body) × (r.body ≡ some b) × IsWhole b

abbrev pub HasRequest : Stream → Type 0
HasRequest s = (r : Request) × (s.request ≡ some r)

-- What a mode says of the fields that only some modes use.
abbrev pub Phase : Mode → Stream → Type 0
Phase reading_headers s = (s.request ≡ none) × (s.body_seen ≡ 0) × (s.expected ≡ none)
Phase fixed s = HasRequest s × (s.expected ≡ some (s.body_seen + s.remaining))
Phase chunk_size s = HasRequest s × (s.expected ≡ none)
Phase chunk_data s = HasRequest s × (s.expected ≡ none)
Phase chunk_crlf s = HasRequest s × (s.expected ≡ none)
Phase reading_trailers s = HasRequest s × (s.expected ≡ none)

-- A stream in a mode: its body is what was seen of it, up to the limit.
pub record InMode (m : Mode) (w : Work) : Type 0 where
  pub mode : w.stream.mode ≡ m
  pub kept : length w.stream.body ≡ min capture_limit w.stream.body_seen
  pub phase : Phase m w.stream
  pub honest : All IsHonest w.result

abbrev pub size_of : Work → ℕ
size_of w = length w.stream.buffer

-- What holds of the work that a part hands on, goes round again with, or returns true with; and of
-- the requests when it returns false or raises.
abbrev pub Goes : (N A T : Work → Type 0) → Flow → Type 0
Goes N A T (next w) = N w
Goes N A T (again w) = A w
Goes N A T (return_true w) = T w
Goes N A T (return_false w) = All IsHonest w.result
Goes N A T (raise p w) = All IsHonest w.result

abbrev pub Never : Work → Type 0
Never w = ⊥

whole_count : (c a n : ℕ) → ltb c (max a n) ≡ false → c ≤ a → max a n ≡ c
whole_count c a n h k = let total = ltb-false→le c (max a n) h in omega arith

status_of-complete : (cut : Bool) → is_complete (status_of cut (some complete)) ≡ true → cut ≡ false
unfolding status_of
status_of-complete true h = cc
status_of-complete false h = refl

or-false : (b : Bool) → (b || false) ≡ false → b ≡ false
or-false true h = cc
or-false false h = refl

length-take_le : (n : ℕ) (xs : List ℕ) → length (take n xs) ≤ length xs
length-take_le n xs = omega (arith, length-take n xs)

-- What is recorded with the status `complete` is whole.
record_bytes-IsWhole_done :
    (bytes : List ℕ) (n : ℕ)
    → is_complete (record_bytes bytes (some n) (some complete)).status ≡ true
    → IsWhole (record_bytes bytes (some n) (some complete))
unfolding record_bytes
record_bytes-IsWhole_done bytes n h =
    let c : ℕ = length (take capture_limit bytes) in
    let whole = status_of-complete (ltb c (max (length bytes) n) || false) h in
    record {
      all_bytes =
          ap some (
            whole_count c (length bytes) n (or-false _ whole) (length-take_le capture_limit bytes));
      counted = refl;
      not_cut = whole;
      as_stated = rw whole;
    }

record_bytes-IsWhole :
    (bytes : List ℕ) (n : ℕ) (status : Status)
    → is_complete (record_bytes bytes (some n) (some status)).status ≡ true
    → IsWhole (record_bytes bytes (some n) (some status))
unfolding record_bytes
record_bytes-IsWhole bytes n complete h = record_bytes-IsWhole_done bytes n h
record_bytes-IsWhole bytes n incomplete h = cc
record_bytes-IsWhole bytes n truncated h = cc
record_bytes-IsWhole bytes n malformed h = cc
record_bytes-IsWhole bytes n unavailable h = cc

abbrev pub Every : (Request → Type 0) → Option Request → Type 0
Every P none = Unit
Every P (some r) = P r

finish_request-IsHonest :
    (s : Stream) (done : Bool) (status : Option Status) (warning : Option Warning) (r : Request)
    → IsHonest (finish_request s done status warning r)
unfolding finish_request
finish_request-IsHonest s false status warning r h = cc
finish_request-IsHonest s true status warning r h =
    let total : ℕ = expected_or s.body_seen s.expected in
    let b : Body = record_bytes s.body (some total) (some (final_status s.body_seen true status)) in
    (b, refl, record_bytes-IsWhole s.body total (final_status s.body_seen true status) h)

-- A request that `_finish` makes, of any stream, is honest about its body: where it is marked as
-- complete, the body holds all its bytes.
pub finish-IsHonest :
    (s : Stream) (done : Bool) (status : Option Status) (warning : Option Warning)
    → Every IsHonest (finish s done status warning)
unfolding finish
finish-IsHonest s done status warning = by_request (started s)
  where
    by_request :
        (o : Option Request)
        → Every IsHonest
            (elim o [ none ↦ none | some r ↦ some (finish_request s done status warning r) ])
    by_request none = tt
    by_request (some r) = finish_request-IsHonest s done status warning r

pub added-All :
    (P : Request → Type 0) (result : List Request) (o : Option Request)
    → All P result
    → Every P o
    → All P (added result o)
added-All P result none h k = h
added-All P result (some r) h k = All-append P result (r ∷ []) h (k, tt)
