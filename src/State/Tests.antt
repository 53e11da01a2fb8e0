-- ===== src/State/Tests.antt =====
-- A state that is saved and loaded, for macdbg/core/state.py.
use macdbg.Prelude.{ℕ, ◌≡◌, ◌≢◌, refl, ap, true, false, [], ◌∷◌, arith, ok, err}
use macdbg.Prelude.Int.{ℤ, pos, negsuc}
use macdbg.Bytes.{same}
use macdbg.State.{
  StoredBp, BinaryState, save_payload, uncaught, load_bp, load_all, load_payload, at_key, int_16,
}
use macdbg.State.Values.{
  null, number, string, array, object, no_elements, element, no_members, member, get,
}
use macdbg.State.Keys.{key_addr}
use macdbg.State.Roundtrip.{IsState, load_payload-save_payload}

abbrev stored : StoredBp
stored = record {
  addr = pos 4096;
  symbol = string (b'm' ∷ []);
  condition = string [];
  commands = element (string (b'b' ∷ b't' ∷ [])) no_elements;
  enabled = false;
  hardware = true;
  specification = null;
}

abbrev kept : BinaryState
kept = record {
  sha256 = b'a' ∷ [];
  binary_path = b'b' ∷ [];
  comments = (pos 16, string (b'x' ∷ [])) ∷ (pos 32, string (b'y' ∷ [])) ∷ [];
  bookmarks = [];
  breakpoints = stored ∷ [];
  patches = record { addr = pos 64; orig = 31 ∷ 32 ∷ []; new = 192 ∷ 3 ∷ [] } ∷ [];
  watches = record { slot = pos 0; addr = pos 255; length = pos 32; label = [] } ∷ [];
  timing_rules = array no_elements;
  identity_profile = object no_members;
}

abbrev magnitude : ℤ → ℕ
magnitude (pos n) = n
magnitude (negsuc n) = n

pos-inj : (m n : ℕ) → pos m ≡ pos n → m ≡ n
pos-inj m n e = ap magnitude e

apart : pos 32 ≢ pos 16
apart e = omega (arith, pos-inj 32 16 e)

kept-IsState : IsState kept
kept-IsState = record {
  comments_once = ((apart, tt), (tt, tt));
  bookmarks_once = tt;
  conditions = ((refl, refl), tt);
  bytes = ((ground arith, ground arith), tt);
}

load_payload-save_payload_example :
    load_payload (λ v. []) (b'a' ∷ []) (b'b' ∷ []) (save_payload kept) ≡ ok kept
load_payload-save_payload_example = load_payload-save_payload (λ v. []) kept kept-IsState

-- A breakpoint without an address is left out; one whose address is a number ends the loading.
test-left_out : load_all load_bp (element (object no_members) no_elements) ≡ ok []
unfolding load_all load_bp at_key get
test-left_out = refl

test-number : load_bp (object (member key_addr (number (pos 1)) no_members)) ≡ err uncaught
unfolding load_bp at_key get int_16 same
test-number = refl
