-- ===== src/Patches/Values.antt =====
-- macdbg/core/patch_export.py: the dictionary of `normalized` holds the first old and the last new
-- byte of each address, in the order of the addresses once it is sorted.
use macdbg.Prelude.{
  ℕ, ◌+◌, ◌<◌, ◌≡◌, ◌≢◌, refl, ap, sym, subst, All, ◌∙◌, not, Option, none, some, List, [], ◌∷◌,
  ◌++◌, arith, leb, ◌==◌, if◌then◌else◌, length, ok, Bool-cases, inl, inr, raise_if-eq-ok,
}
use macdbg.Patches.{
  Patch, patch_lengths_differ, Entry, set_value, set_bytes, collect, insert_entry, sorted,
}

-- The writes of one byte that the patches stand for, in their order.
pub write_bytes : ℕ → (orig new : List ℕ) → List Entry
write_bytes address (o ∷ orig) (n ∷ new) =
    record { address = address; old = o; new = n } ∷ write_bytes (address + 1) orig new
write_bytes address [] new = []
write_bytes address (o ∷ orig) [] = []

unfoldable pub writes : List Patch → List Entry
unfolding write_bytes
writes [] = []
writes (p ∷ patches) = write_bytes p.addr p.orig p.new ++ writes patches

-- The new byte of the last write at an address, and the old byte of the first.
unfoldable pub last_new : (address new : ℕ) → List Entry → ℕ
last_new address new [] = new
last_new address new (e ∷ entries) =
    last_new address (if e.address == address then e.new else new) entries

unfoldable pub edit_at : ℕ → List Entry → Option (ℕ × ℕ)
unfolding last_new
edit_at address [] = none
edit_at address (e ∷ entries) =
    if e.address == address
    then some (e.old, last_new address e.new entries)
    else edit_at address entries

-- The first entry of an address.
unfoldable pub value_at : ℕ → List Entry → Option (ℕ × ℕ)
value_at address [] = none
value_at address (e ∷ entries) =
    if e.address == address then some (e.old, e.new) else value_at address entries

-- The dictionary after the writes.
abbrev set_all : List Entry → List Entry → List Entry
set_all [] entries = entries
set_all (w ∷ more) entries = set_all more (set_value w.address w.old w.new entries)

set_all-append :
    (xs ys entries : List Entry) → set_all (xs ++ ys) entries ≡ set_all ys (set_all xs entries)
set_all-append [] ys entries = refl
set_all-append (x ∷ xs) ys entries = set_all-append xs ys (set_value x.address x.old x.new entries)

set_bytes-eq-set_all :
    (address : ℕ) (orig new : List ℕ) (entries : List Entry)
    → set_bytes address orig new entries ≡ set_all (write_bytes address orig new) entries
unfolding set_bytes write_bytes
set_bytes-eq-set_all address (o ∷ orig) (n ∷ new) entries =
    set_bytes-eq-set_all (address + 1) orig new (set_value address o n entries)
set_bytes-eq-set_all address [] new entries = refl
set_bytes-eq-set_all address (o ∷ orig) [] entries = refl

collect-eq-set_all :
    (patches : List Patch) (entries : List Entry) {values : List Entry}
    → collect patches entries ≡ ok values
    → values ≡ set_all (writes patches) entries
unfolding collect writes
collect-eq-set_all [] entries h = cc
collect-eq-set_all (p ∷ patches) entries h =
    let (_, rest) = raise_if-eq-ok (not (length p.orig == length p.new)) patch_lengths_differ _ h in
    collect-eq-set_all patches (set_bytes p.addr p.orig p.new entries) rest
    ∙ ap (set_all (writes patches)) (set_bytes-eq-set_all p.addr p.orig p.new entries)
    ∙ sym (set_all-append (write_bytes p.addr p.orig p.new) (writes patches) entries)

-- What a write leaves at an address.
abbrev written : (address old new : ℕ) → Option (ℕ × ℕ) → Option (ℕ × ℕ)
written address old new none = some (old, new)
written address old new (some (first, last)) = some (first, new)

value_at-set_value :
    (at address old new : ℕ) (entries : List Entry)
    → value_at at (set_value address old new entries) ≡ (
        if address == at
        then written address old new (value_at at entries)
        else value_at at entries)
unfolding value_at set_value
value_at-set_value at address old new [] = ground arith
value_at-set_value at address old new (e ∷ entries) =
    ground (arith, value_at-set_value at address old new entries)

-- The entry of an address after writes over what it held.
abbrev pub merged : ℕ → List Entry → Option (ℕ × ℕ) → Option (ℕ × ℕ)
merged at writes' none = edit_at at writes'
merged at writes' (some (first, last)) = some (first, last_new at last writes')

value_at-set_all :
    (at : ℕ) (ws entries : List Entry)
    → value_at at (set_all ws entries) ≡ merged at ws (value_at at entries)
unfolding edit_at last_new
value_at-set_all at [] entries = ground arith
value_at-set_all at (w ∷ ws) entries = ground (
  arith,
  value_at-set_all at ws (set_value w.address w.old w.new entries),
  value_at-set_value at w.address w.old w.new entries,
)

-- The dictionary of the collected patches, at an address.
pub value_at-collect :
    (at : ℕ) (patches : List Patch) {values : List Entry}
    → collect patches [] ≡ ok values
    → value_at at values ≡ edit_at at (writes patches)
unfolding value_at
value_at-collect at patches h =
    ap (value_at at) (collect-eq-set_all patches [] h) ∙ value_at-set_all at (writes patches) []

-- No address has two entries.
abbrev pub Unique : List Entry → Type 0
Unique [] = Unit
Unique (e ∷ entries) = All (λ f. e.address ≢ f.address) entries × Unique entries

-- The addresses rise.
abbrev pub Ascending : List Entry → Type 0
Ascending [] = Unit
Ascending (e ∷ entries) = All (λ f. e.address < f.address) entries × Ascending entries

set_value-ne :
    (a address old new : ℕ) (entries : List Entry)
    → All (λ f. a ≢ f.address) entries
    → a ≢ address
    → All (λ f. a ≢ f.address) (set_value address old new entries)
unfolding set_value
set_value-ne a address old new [] h ne = (ne, tt)
set_value-ne a address old new (e ∷ entries) h ne = elim (Bool-cases (e.address == address)) [
  | inl same ↦ rw same h
  | inr other ↦ rw other (h.0, set_value-ne a address old new entries h.1 ne)
]

set_value-Unique :
    (address old new : ℕ) (entries : List Entry)
    → Unique entries
    → Unique (set_value address old new entries)
unfolding set_value
set_value-Unique address old new [] h = (tt, tt)
set_value-Unique address old new (e ∷ entries) h = elim (Bool-cases (e.address == address)) [
  | inl same ↦ rw same h
  | inr other ↦ rw other (
    set_value-ne e.address address old new entries h.0 (ground arith),
    set_value-Unique address old new entries h.1,
  )
]

set_all-Unique : (ws entries : List Entry) → Unique entries → Unique (set_all ws entries)
set_all-Unique [] entries h = h
set_all-Unique (w ∷ ws) entries h =
    set_all-Unique ws (set_value w.address w.old w.new entries)
      (set_value-Unique w.address w.old w.new entries h)

pub collect-Unique :
    (patches : List Patch) {values : List Entry} → collect patches [] ≡ ok values → Unique values
collect-Unique patches h =
    subst Unique (sym (collect-eq-set_all patches [] h)) (set_all-Unique (writes patches) [] tt)

insert_entry-All :
    (P : Entry → Type 0) (e : Entry) (entries : List Entry)
    → P e
    → All P entries
    → All P (insert_entry e entries)
unfolding insert_entry
insert_entry-All P e [] p h = (p, tt)
insert_entry-All P e (f ∷ entries) p h = elim (Bool-cases (leb e.address f.address)) [
  | inl below ↦ rw below (p, h)
  | inr above ↦ rw above (h.0, insert_entry-All P e entries p h.1)
]

sorted-All : (P : Entry → Type 0) (entries : List Entry) → All P entries → All P (sorted entries)
unfolding sorted
sorted-All P [] h = tt
sorted-All P (e ∷ entries) h = insert_entry-All P e (sorted entries) h.0 (sorted-All P entries h.1)

All-lt :
    (a b : ℕ) (entries : List Entry)
    → a < b
    → All (λ f. b < f.address) entries
    → All (λ f. a < f.address) entries
All-lt a b [] h k = tt
All-lt a b (e ∷ entries) h k = (omega (arith, k.0), All-lt a b entries h k.1)

insert_entry-Ascending :
    (e : Entry) (entries : List Entry)
    → Ascending entries
    → All (λ f. e.address ≢ f.address) entries
    → Ascending (insert_entry e entries)
unfolding insert_entry
insert_entry-Ascending e [] h ne = (tt, tt)
insert_entry-Ascending e (f ∷ entries) h ne = elim (Bool-cases (leb e.address f.address)) [
  | inl below ↦
      let lt : e.address < f.address = ground (arith, ne.0) in
      rw below ((lt, All-lt e.address f.address entries lt h.0), h)
  | inr above ↦ rw above (
    insert_entry-All (λ g. f.address < g.address) e entries (ground arith) h.0,
    insert_entry-Ascending e entries h.1 ne.1,
  )
]

pub sorted-Ascending : (entries : List Entry) → Unique entries → Ascending (sorted entries)
unfolding sorted
sorted-Ascending [] h = tt
sorted-Ascending (e ∷ entries) h =
    insert_entry-Ascending e (sorted entries) (sorted-Ascending entries h.1)
      (sorted-All (λ f. e.address ≢ f.address) entries h.0)

value_at-insert_entry :
    (at : ℕ) (e : Entry) (entries : List Entry)
    → value_at at (insert_entry e entries)
      ≡ (if e.address == at then some (e.old, e.new) else value_at at entries)
unfolding value_at insert_entry
value_at-insert_entry at e [] = refl
value_at-insert_entry at e (f ∷ entries) = ground (arith, value_at-insert_entry at e entries)

-- Sorting changes no entry.
pub value_at-sorted :
    (at : ℕ) (entries : List Entry) → value_at at (sorted entries) ≡ value_at at entries
unfolding value_at sorted
value_at-sorted at [] = refl
value_at-sorted at (e ∷ entries) =
    value_at-insert_entry at e (sorted entries) ∙ rw (value_at-sorted at entries)
