-- ===== src/State/Roundtrip.antt =====
-- What is saved by macdbg/core/state.py is what is loaded.
use macdbg.Prelude.{
  ℕ, ◌<◌, ◌≡◌, ◌≢◌, refl, sym, ◌∙◌, ap, false, List, [], ◌∷◌, ◌++◌, append-nil, append-append_one,
  All, All-append, arith, Result, ok, err, ◌>>=◌,
}
use macdbg.Prelude.Int.{ℤ, pos, negsuc}
use macdbg.Bytes.{same}
use macdbg.State.{
  StoredBp, SavedPatch, Watch, Labels, BinaryState, save_labels, save_bp, save_patch, save_watch,
  save_all, save_payload, Problem, skipped, uncaught, at_key, int_16, fromhex, int_10,
  object_or_empty, list_or_empty, dict_or_none, text_or_empty, load_bp, load_patch, load_watch,
  load_all, same_ℤ, put_label, put_parsed, load_labels, load_payload,
}
use macdbg.State.Values.{
  Json, array, object, Elements, no_elements, element, Members, no_members, member, get, get_or,
}
use macdbg.State.Hex.{parse_hex-format_hex, from_hex-bytes_hex}

-- Each address stands once.
abbrev pub Once : Labels → Type 0
Once [] = Unit
Once (l ∷ labels) = All (λ m. m.0 ≢ l.0) labels × Once labels

-- What a state holds that is saved: each address once, conditions that are not replaced by the empty
-- text, specifications that are dictionaries or nothing, and bytes.
pub record IsState (st : BinaryState) : Type 0 where
  pub comments_once : Once st.comments
  pub bookmarks_once : Once st.bookmarks
  pub conditions :
      All
        (λ bp.
          (text_or_empty bp.condition ≡ bp.condition)
          × (dict_or_none bp.specification ≡ bp.specification))
        st.breakpoints
  pub bytes : All (λ p. All (λ c. c < 256) p.orig × All (λ c. c < 256) p.new) st.patches

same_ℤ-eq : (a b : ℤ) → (a ≢ b) → same_ℤ a b ≡ false
same_ℤ-eq (pos m) (pos n) h = let other : m ≢ n = λ e. h (ap pos e) in ground arith
same_ℤ-eq (negsuc m) (negsuc n) h = let other : m ≢ n = λ e. h (ap negsuc e) in ground arith
same_ℤ-eq (pos m) (negsuc n) h = refl
same_ℤ-eq (negsuc m) (pos n) h = refl

put_label-new :
    (address : ℤ) (value : Json) (labels : Labels)
    → All (λ l. l.0 ≢ address) labels
    → put_label address value labels ≡ labels ++ (address, value) ∷ []
unfolding put_label
put_label-new address value [] h = refl
put_label-new address value ((k, v) ∷ labels) h =
    rw (same_ℤ-eq k address h.0) (ap (λ l. (k, v) ∷ l) (put_label-new address value labels h.1))

apart-append :
    (a : ℤ) (v : Json) (before labels : Labels)
    → All (λ l. All (λ b. b.0 ≢ l.0) before) labels
    → All (λ m. m.0 ≢ a) labels
    → All (λ l. All (λ b. b.0 ≢ l.0) (before ++ (a, v) ∷ [])) labels
apart-append a v before [] h k = tt
apart-append a v before (l ∷ labels) h k =
    (All-append _ before _ h.0 ((λ e. k.0 (sym e)), tt), apart-append a v before labels h.1 k.1)

load_labels-save_labels :
    (labels before : Labels)
    → Once labels
    → All (λ l. All (λ b. b.0 ≢ l.0) before) labels
    → load_labels (save_labels labels) before ≡ before ++ labels
unfolding load_labels save_labels
load_labels-save_labels [] before h k = sym (append-nil before)
load_labels-save_labels ((a, v) ∷ labels) before h k =
    ap (λ p. load_labels (save_labels labels) (put_parsed p v before)) (parse_hex-format_hex a)
    ∙ ap (load_labels (save_labels labels)) (put_label-new a v before k.0)
    ∙ load_labels-save_labels labels (before ++ (a, v) ∷ []) h.1
        (apart-append a v before labels k.1 h.0)
    ∙ append-append_one before (a, v) labels

list_or_empty-array : (xs : Elements) → list_or_empty (array xs) ≡ ok xs
unfolding list_or_empty
list_or_empty-array no_elements = refl
list_or_empty-array (element x xs) = refl

object_or_empty-object : (d : Members) → object_or_empty (object d) ≡ ok d
unfolding object_or_empty
object_or_empty-object no_members = refl
object_or_empty-object (member k v d) = refl

load_all-save_all :
    {A : Type 0}
    → (save : A → Json) (load : Json → Result Problem A) (P : A → Type 0)
    → ((a : A) → P a → load (save a) ≡ ok a)
    → (xs : List A) → All P xs
    → load_all load (save_all save xs) ≡ ok xs
unfolding load_all save_all
load_all-save_all save load P one [] h = refl
load_all-save_all {A = A} save load P one (x ∷ xs) h =
    by_parts (load (save x)) (load_all load (save_all save xs)) (one x h.0)
      (load_all-save_all save load P one xs h.1)
  where
    by_parts :
        (m : Result Problem A) (rest : Result Problem (List A))
        → m ≡ ok x
        → rest ≡ ok xs
        → (elim m [
          | ok a ↦ (rest >>= λ loaded. ok (a ∷ loaded))
          | err skipped ↦ rest
          | err uncaught ↦ err uncaught
        ])
          ≡ ok (x ∷ xs)
    by_parts m rest e e' = rw (e, e') refl

load_bp-save_bp :
    (bp : StoredBp)
    → (text_or_empty bp.condition ≡ bp.condition)
      × (dict_or_none bp.specification ≡ bp.specification)
    → load_bp (save_bp bp) ≡ ok bp
unfolding load_bp save_bp at_key get_or int_16 get same
load_bp-save_bp bp h =
    rw (parse_hex-format_hex bp.addr, list_or_empty-array bp.commands, h.0, h.1) refl

load_patch-save_patch :
    (p : SavedPatch)
    → All (λ c. c < 256) p.orig × All (λ c. c < 256) p.new
    → load_patch (save_patch p) ≡ ok p
unfolding load_patch save_patch at_key get_or int_16 fromhex get same
load_patch-save_patch p h =
    rw (parse_hex-format_hex p.addr, from_hex-bytes_hex p.orig h.0, from_hex-bytes_hex p.new h.1)
      refl

load_watch-save_watch :
    (str_of : Json → List ℕ) (w : Watch) → load_watch str_of (save_watch w) ≡ ok w
unfolding load_watch save_watch at_key get_or int_16 int_10 get same
load_watch-save_watch str_of w = rw (parse_hex-format_hex w.addr) refl

no-apart : (labels : Labels) → All (λ l. All {A = ℤ × Json} (λ b. b.0 ≢ l.0) []) labels
no-apart [] = tt
no-apart (l ∷ labels) = (tt, no-apart labels)

every : (ws : List Watch) → All {0, 0} (λ w. Unit) ws
every [] = tt
every (w ∷ ws) = (tt, every ws)

-- A state whose dictionaries hold an address once, whose conditions are not replaced by the empty
-- text, whose specifications are dictionaries or nothing and whose patches are made of bytes is
-- loaded from what was saved of it, whatever `str` makes of the values that are no text.
pub load_payload-save_payload :
    (str_of : Json → List ℕ) (st : BinaryState)
    → IsState st
    → load_payload str_of st.sha256 st.binary_path (save_payload st) ≡ ok st
unfolding load_payload save_payload get_or get same
load_payload-save_payload str_of st h =
    rw
      (
        object_or_empty-object (save_labels st.comments),
        object_or_empty-object (save_labels st.bookmarks),
        list_or_empty-array (save_all save_bp st.breakpoints),
        load_all-save_all save_bp load_bp _ load_bp-save_bp st.breakpoints h.conditions,
        list_or_empty-array (save_all save_patch st.patches),
        load_all-save_all save_patch load_patch _ load_patch-save_patch st.patches h.bytes,
        list_or_empty-array (save_all save_watch st.watches),
        load_all-save_all save_watch (load_watch str_of) _ (λ w t. load_watch-save_watch str_of w)
            st.watches (every st.watches),
        load_labels-save_labels st.comments [] h.comments_once (no-apart st.comments),
        load_labels-save_labels st.bookmarks [] h.bookmarks_once (no-apart st.bookmarks),
      )
      refl
