-- ===== src/State.antt =====
-- macdbg/core/state.py: what `BinaryState.save` writes and `load_for` reads. The digest of the binary,
-- the directories and the calls of the file system stay outside; json.dump and json.load carry a
-- `Json` value from the one to the other.
pub mod Values
pub mod Hex
pub mod Keys
pub mod Roundtrip
mod Tests
use macdbg.Prelude.{
  ℕ, zero, suc, ◌+◌, Bool, true, false, not, ◌&&◌, ◌||◌, Option, none, some, List, [], ◌∷◌, ◌++◌,
  ◌==◌, if◌then◌else◌, Result, ok, err, ◌>>=◌, ◌>>◌,
}
use macdbg.Prelude.Int.{ℤ, pos, negsuc}
use macdbg.Http.Text.{strip, is_space}
use macdbg.Assembly.Text.{at_start, number_in, negated}
use macdbg.State.Values.{
  Json, null, boolean, number, string, array, object, Elements, no_elements, element, Members,
  no_members, member, truthy, get, get_or,
}
use macdbg.State.Hex.{format_hex, parse_hex, bytes_hex, from_hex}
use macdbg.State.Keys.{
  key_sha256, key_binary_path, key_timing_rules, key_identity_profile, key_comments, key_bookmarks,
  key_breakpoints, key_patches, key_watches, key_addr, key_symbol, key_condition, key_commands,
  key_enabled, key_hardware, key_specification, key_orig, key_new, key_slot, key_length, key_label,
}

-- A breakpoint, a patch and a watch; the fields that are taken over without a test hold any value.
pub record StoredBp : Type 0 where
  pub addr : ℤ
  pub symbol : Json
  pub condition : Json
  pub commands : Elements
  pub enabled : Bool
  pub hardware : Bool
  pub specification : Json

pub record SavedPatch : Type 0 where
  pub addr : ℤ
  pub orig : List ℕ
  pub new : List ℕ

pub record Watch : Type 0 where
  pub slot : ℤ
  pub addr : ℤ
  pub length : ℤ
  pub label : List ℕ

-- A dictionary by addresses.
abbrev pub Labels : Type 0
Labels = List (ℤ × Json)

pub record BinaryState : Type 0 where
  pub sha256 : List ℕ
  pub binary_path : List ℕ
  pub comments : Labels
  pub bookmarks : Labels
  pub breakpoints : List StoredBp
  pub patches : List SavedPatch
  pub watches : List Watch
  pub timing_rules : Json
  pub identity_profile : Json

-- `{"{:#x}".format(k): v for k, v in …}`
unfoldable pub save_labels : Labels → Members
unfolding format_hex
save_labels [] = no_members
save_labels ((k, v) ∷ labels) = member (format_hex k) v (save_labels labels)

unfoldable pub save_bp : StoredBp → Json
unfolding format_hex
save_bp bp = object (
    member key_addr (string (format_hex bp.addr)) (
      member key_symbol bp.symbol (
        member key_condition bp.condition (
          member key_commands (array bp.commands) (
            member key_enabled (boolean bp.enabled) (
              member key_hardware (boolean bp.hardware)
                (member key_specification bp.specification no_members)))))))

unfoldable pub save_patch : SavedPatch → Json
unfolding format_hex bytes_hex
save_patch p = object (
    member key_addr (string (format_hex p.addr)) (
      member key_orig (string (bytes_hex p.orig))
        (member key_new (string (bytes_hex p.new)) no_members)))

unfoldable pub save_watch : Watch → Json
unfolding format_hex
save_watch w = object (
    member key_slot (number w.slot) (
      member key_addr (string (format_hex w.addr))
        (member key_length (number w.length) (member key_label (string w.label) no_members))))

-- `[… for x in xs]`
unfoldable pub save_all : {A : Type 0} → (A → Json) → List A → Elements
save_all save [] = no_elements
save_all save (x ∷ xs) = element (save x) (save_all save xs)

-- `payload`
unfoldable pub save_payload : BinaryState → Members
unfolding save_labels save_bp save_patch save_watch save_all
save_payload st = member key_sha256 (string st.sha256) (
    member key_binary_path (string st.binary_path) (
      member key_timing_rules st.timing_rules (
        member key_identity_profile st.identity_profile (
          member key_comments (object (save_labels st.comments)) (
            member key_bookmarks (object (save_labels st.bookmarks)) (
              member key_breakpoints (array (save_all save_bp st.breakpoints)) (
                member key_patches (array (save_all save_patch st.patches))
                  (member key_watches (array (save_all save_watch st.watches)) no_members))))))))

-- Why an entry cannot be read: a `KeyError` or a `ValueError`, for which the loader goes on, or an
-- error of another type, which it does not catch.
pub data Problem : Type 0 where
  skipped uncaught : Problem

-- `d[key]`
unfoldable pub at_key : List ℕ → Members → Result Problem Json
unfolding get
at_key key d = elim (get key d) [ none ↦ err skipped | some value ↦ ok value ]

abbrev pub or_skip {ℓ} : {A : Type ℓ} → Option A → Result Problem A
or_skip none = err skipped
or_skip (some a) = ok a

-- `int(value, 16)`
unfoldable pub int_16 : Json → Result Problem ℤ
unfolding parse_hex
int_16 (string text) = or_skip (parse_hex text)
int_16 _ = err uncaught

-- `bytes.fromhex(value)`
unfoldable pub fromhex : Json → Result Problem (List ℕ)
unfolding from_hex
fromhex (string text) = or_skip (from_hex text)
fromhex _ = err uncaught

abbrev pub signed10 : List ℕ → Option ℤ
unfolding number_in
signed10 [] = none
signed10 (c ∷ text) = elim (c == 45) [
  | true ↦ elim (number_in 10 0 at_start text) [ none ↦ none | some n ↦ some (negated n) ]
  | false ↦ elim (number_in 10 0 at_start (if c == 43 then text else c ∷ text)) [
    | none ↦ none
    | some n ↦ some (pos n)
  ]
]

-- `int(value)` of a value that is no fraction.
unfoldable pub int_10 : Json → Result Problem ℤ
unfolding strip number_in
int_10 (number n) = ok n
int_10 (boolean true) = ok (pos 1)
int_10 (boolean false) = ok (pos 0)
int_10 (string text) = or_skip (signed10 (strip is_space text))
int_10 _ = err uncaught

-- `x.get(…)` and `x[…]` of a value that is an object.
abbrev pub members_of : Json → Result Problem Members
members_of (object d) = ok d
members_of _ = err uncaught

-- `value or {}` and `value or []`, and what a loop over them meets.
unfoldable pub object_or_empty : Json → Result Problem Members
object_or_empty value = if truthy value then members_of value else ok no_members

-- The elements of a list, and those of a text or an object that stands in the place of a list.
abbrev pub each_char : List ℕ → Elements
each_char [] = no_elements
each_char (c ∷ text) = element (string (c ∷ [])) (each_char text)

abbrev pub each_key : Members → Elements
each_key no_members = no_elements
each_key (member k v d) = element (string k) (each_key d)

abbrev pub elements_of : Json → Result Problem Elements
elements_of (array xs) = ok xs
elements_of (string text) = ok (each_char text)
elements_of (object d) = ok (each_key d)
elements_of _ = err uncaught

unfoldable pub list_or_empty : Json → Result Problem Elements
list_or_empty value = if truthy value then elements_of value else ok no_elements

-- `bp.get("specification") if isinstance(…, dict) else None`
abbrev pub dict_or_none : Json → Json
dict_or_none (object d) = object d
dict_or_none _ = null

abbrev pub text_or_empty : Json → Json
text_or_empty value = if truthy value then value else string []

unfoldable pub load_bp : Json → Result Problem StoredBp
unfolding at_key int_16 get_or list_or_empty
load_bp value = do
  d ← members_of value
  at ← at_key key_addr d
  addr ← int_16 at
  commands ← list_or_empty (get_or key_commands null d)
  ok (record {
    addr = addr;
    symbol = get_or key_symbol (string []) d;
    condition = text_or_empty (get_or key_condition (string []) d);
    commands = commands;
    enabled = truthy (get_or key_enabled (boolean true) d);
    hardware = truthy (get_or key_hardware (boolean false) d);
    specification = dict_or_none (get_or key_specification null d);
  })

unfoldable pub load_patch : Json → Result Problem SavedPatch
unfolding at_key int_16 get_or fromhex
load_patch value = do
  d ← members_of value
  at ← at_key key_addr d
  addr ← int_16 at
  orig ← fromhex (get_or key_orig (string []) d)
  new ← fromhex (get_or key_new (string []) d)
  ok (record { addr = addr; orig = orig; new = new })

-- `str(value)`, where `str_of` is what it makes of a value that is no text.
abbrev pub text_of : (str_of : Json → List ℕ) → Json → List ℕ
text_of str_of (string text) = text
text_of str_of value = str_of value

unfoldable pub load_watch : (str_of : Json → List ℕ) → Json → Result Problem Watch
unfolding at_key int_16 int_10 get_or
load_watch str_of value = do
  d ← members_of value
  given ← at_key key_slot d
  slot ← int_10 given
  at ← at_key key_addr d
  addr ← int_16 at
  size ← int_10 (get_or key_length (number (pos 32)) d)
  ok (record {
    slot = slot;
    addr = addr;
    length = size;
    label = text_of str_of (get_or key_label (string []) d);
  })

-- `for x in …: try: ….append(…) except (KeyError, ValueError): continue`
unfoldable pub load_all :
    {A : Type 0} → (Json → Result Problem A) → Elements → Result Problem (List A)
load_all load no_elements = ok []
load_all load (element x xs) =
    let rest = load_all load xs in
    elim (load x) [
      | ok a ↦ (rest >>= λ loaded. ok (a ∷ loaded))
      | err skipped ↦ rest
      | err uncaught ↦ err uncaught
    ]

abbrev pub same_ℤ : ℤ → ℤ → Bool
same_ℤ (pos m) (pos n) = m == n
same_ℤ (negsuc m) (negsuc n) = m == n
same_ℤ _ _ = false

-- `labels[address] = value`
unfoldable pub put_label : ℤ → Json → Labels → Labels
put_label address value [] = (address, value) ∷ []
put_label address value ((k, v) ∷ labels) =
    let rest = put_label address value labels in
    if same_ℤ k address then (k, value) ∷ labels else (k, v) ∷ rest

abbrev pub put_parsed : Option ℤ → Json → Labels → Labels
unfolding put_label
put_parsed none value labels = labels
put_parsed (some address) value labels = put_label address value labels

-- `for k, v in ….items()`
unfoldable pub load_labels : Members → Labels → Labels
unfolding parse_hex put_label
load_labels no_members labels = labels
load_labels (member k v d) labels = load_labels d (put_parsed (parse_hex k) v labels)

-- `load_for`, for the values that were read from the file.
unfoldable pub load_payload :
    (str_of : Json → List ℕ) → (sha256 binary_path : List ℕ) → Members → Result Problem BinaryState
unfolding get_or object_or_empty list_or_empty load_labels load_all load_bp load_patch load_watch
load_payload str_of sha256 binary_path d = do
  comments ← object_or_empty (get_or key_comments null d)
  bookmarks ← object_or_empty (get_or key_bookmarks null d)
  bps ← list_or_empty (get_or key_breakpoints null d)
  breakpoints ← load_all load_bp bps
  ps ← list_or_empty (get_or key_patches null d)
  patches ← load_all load_patch ps
  ws ← list_or_empty (get_or key_watches null d)
  watches ← load_all (load_watch str_of) ws
  ok (record {
    sha256 = sha256;
    binary_path = binary_path;
    comments = load_labels comments [];
    bookmarks = load_labels bookmarks [];
    breakpoints = breakpoints;
    patches = patches;
    watches = watches;
    timing_rules = get_or key_timing_rules (array no_elements) d;
    identity_profile = get_or key_identity_profile (object no_members) d;
  })
