-- ===== src/Http/Body.antt =====
-- macdbg/core/http_capture.py: `_record_bytes`, the bounded copy of a body. The decoded forms that
-- `body_record` adds to it (text, form fields, JSON, parts) are not modelled.
use macdbg.Prelude.{
  ℕ, Bool, true, false, ◌||◌, Option, none, some, List, ltb, max, if◌then◌else◌, length, take,
}

abbrev pub capture_limit : ℕ
capture_limit = 262144

pub data Status : Type 0 where
  complete incomplete truncated malformed unavailable : Status

pub record Body : Type 0 where
  pub bytes : List ℕ
  pub captured_bytes : ℕ
  pub total_bytes : Option ℕ
  pub is_truncated : Bool
  pub status : Status

abbrev pub is_complete : Status → Bool
is_complete complete = true
is_complete _ = false

abbrev pub is_cut : Option Status → Bool
is_cut (some truncated) = true
is_cut _ = false

abbrev pub total_of : (available : ℕ) → Option ℕ → ℕ
total_of available none = available
total_of available (some n) = max available n

-- `status or ("truncated" if truncated else "complete")`, then the correction of a complete status.
unfoldable pub status_of : Bool → Option Status → Status
status_of is_truncated none = if is_truncated then truncated else complete
status_of is_truncated (some complete) = if is_truncated then truncated else complete
status_of is_truncated (some s) = s

-- `record["total_bytes"]`: unavailable data of an unknown length has none.
abbrev pub known_total : Option Status → Option ℕ → ℕ → Option ℕ
known_total (some unavailable) none total = none
known_total _ _ total = some total

-- `_record_bytes(data, total_length, content_type, status)`
unfoldable pub record_bytes : List ℕ → Option ℕ → Option Status → Body
unfolding status_of
record_bytes bytes total_length status =
    let available = length bytes in
    let captured = take capture_limit bytes in
    let total = total_of available total_length in
    let is_truncated = ltb (length captured) total || is_cut status in
    record {
      bytes = captured;
      captured_bytes = length captured;
      total_bytes = known_total status total_length total;
      is_truncated = is_truncated;
      status = status_of is_truncated status;
    }
