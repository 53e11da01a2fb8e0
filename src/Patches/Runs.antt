-- ===== src/Patches/Runs.antt =====
-- macdbg/core/patch_export.py: the loop of `normalized` over the sorted entries.
use macdbg.Prelude.{
  ℕ, ◌+◌, ◌<◌, ◌≡◌, refl, ap, subst, All, ◌∙◌, true, false, Option, none, some, List, [], ◌∷◌,
  arith, ◌==◌, if◌then◌else◌, length, length-append, Bool-cases, inl, inr,
}
use macdbg.Patches.{Run, Entry, add_byte, runs_of}
use macdbg.Patches.Values.{value_at, Ascending}
use macdbg.Patches.Merge.{
  byte_at, run_at-end, or_else, Separated, EndsBelow, end_of, single, extended, here,
  byte_at-add_byte,
}

-- A property of the runs that a byte more keeps.
add_byte-All :
    (P : Run → Type 0) (e : Entry) (runs : List Run)
    → All P runs
    → P (single e)
    → ((r : Run) → P r → P (extended e r))
    → All P (add_byte e runs)
unfolding add_byte
add_byte-All P e [] h one more = (one, tt)
add_byte-All P e (r ∷ []) h one more = elim (Bool-cases (e.address == r.address + length r.new)) [
  | inl next ↦ rw next (more r h.0, tt)
  | inr gap ↦ rw gap (h.0, (one, tt))
]
add_byte-All P e (r ∷ s ∷ runs) h one more = (h.0, add_byte-All P e (s ∷ runs) h.1 one more)

add_byte-EndsBelow :
    (bound : ℕ) (e : Entry) (runs : List Run)
    → EndsBelow e.address runs
    → e.address < bound
    → EndsBelow bound (add_byte e runs)
unfolding add_byte
add_byte-EndsBelow bound e [] below h = (omega arith, tt)
add_byte-EndsBelow bound e (r ∷ []) below h =
    elim (Bool-cases (e.address == r.address + length r.new)) [
      | inl next ↦ rw next (ground (arith, length-append r.new (e.new ∷ [])), tt)
      | inr gap ↦ rw gap (omega (arith, below.0), (omega arith, tt))
    ]
add_byte-EndsBelow bound e (r ∷ s ∷ runs) below h =
    (omega (arith, below.0), add_byte-EndsBelow bound e (s ∷ runs) below.1 h)

EndsBelow-lt : (a b : ℕ) (runs : List Run) → a < b → EndsBelow a runs → EndsBelow b runs
EndsBelow-lt a b [] h k = tt
EndsBelow-lt a b (r ∷ runs) h k = (omega (arith, k.0), EndsBelow-lt a b runs h k.1)

add_byte-Separated :
    (e : Entry) (runs : List Run)
    → Separated runs
    → EndsBelow e.address runs
    → Separated (add_byte e runs)
unfolding add_byte
add_byte-Separated e [] h below = ((refl, omega arith), tt, tt)
add_byte-Separated e (r ∷ []) h below = elim (Bool-cases (e.address == r.address + length r.new)) [
  | inl next ↦ rw next (
    (
      omega (arith, h.0, length-append r.original (e.old ∷ []), length-append r.new (e.new ∷ [])),
      omega (arith, length-append r.new (e.new ∷ [])),
    ),
    tt,
    tt,
  )
  | inr gap ↦ rw gap (h.0, (ground (arith, below.0), tt), ((refl, omega arith), tt, tt))
]
add_byte-Separated e (r ∷ s ∷ runs) h below = (
  h.0,
  add_byte-All (λ t. end_of r < t.address) e (s ∷ runs) h.1 (omega (arith, h.1.0, below.1.0))
      (λ t k. k),
  add_byte-Separated e (s ∷ runs) h.2 below.1,
)

byte_at-below : (at : ℕ) (runs : List Run) → EndsBelow at runs → byte_at at runs ≡ none
unfolding byte_at
byte_at-below at [] h = refl
byte_at-below at (r ∷ runs) h = rw (run_at-end at r h.0) (byte_at-below at runs h.1)

value_at-above :
    (at : ℕ) (entries : List Entry) → All (λ f. at < f.address) entries → value_at at entries ≡ none
unfolding value_at
value_at-above at [] h = refl
value_at-above at (e ∷ entries) h = ground (arith, value_at-above at entries h.1, h.0)

-- A byte that an edit leaves as it was is no change.
abbrev pub changed : Option (ℕ × ℕ) → Option (ℕ × ℕ)
changed none = none
changed (some (old, new)) = if old == new then none else some (old, new)

-- The entries still to come lie above all runs.
abbrev pub Fits : List Entry → List Run → Type 0
Fits entries runs = All (λ (e : Entry). EndsBelow e.address runs) entries

Fits-step :
    (e : Entry) (entries : List Entry) (runs : List Run)
    → Ascending (e ∷ entries)
    → EndsBelow e.address runs
    → Fits entries (add_byte e runs)
Fits-step e entries runs h below = go entries h.0
  where
    go : (more : List Entry) → All (λ f. e.address < f.address) more → Fits more (add_byte e runs)
    go [] k = tt
    go (f ∷ more) k = (add_byte-EndsBelow f.address e runs below k.0, go more k.1)

or_else-changed :
    (at : ℕ) (e : Entry) (held later : Option (ℕ × ℕ))
    → (e.address ≡ at → held ≡ none)
    → (e.address ≡ at → later ≡ none)
    → (e.old == e.new) ≡ false
    → or_else (here at e held) (changed later) ≡ or_else held (changed (here at e later))
or_else-changed at e held later h k differ = ground (arith, h, k)

or_else-same :
    (at : ℕ) (e : Entry) (held later : Option (ℕ × ℕ))
    → (e.address ≡ at → later ≡ none)
    → (e.old == e.new) ≡ true
    → or_else held (changed later) ≡ or_else held (changed (here at e later))
or_else-same at e held later k same = ground (arith, k)

-- The runs of rising entries: separated, and at each address the change of its entry.
pub runs_of-Separated :
    (entries : List Entry) (runs : List Run)
    → Ascending entries
    → Separated runs
    → Fits entries runs
    → Separated (runs_of entries runs)
unfolding runs_of
runs_of-Separated [] runs h s fits = s
runs_of-Separated (e ∷ entries) runs h s fits = elim (Bool-cases (e.old == e.new)) [
  | inl same ↦ rw same (runs_of-Separated entries runs h.1 s fits.1)
  | inr differ ↦ rw differ (
      runs_of-Separated entries (add_byte e runs) h.1 (add_byte-Separated e runs s fits.0)
        (Fits-step e entries runs h fits.0))
]

pub byte_at-runs_of :
    (at : ℕ) (entries : List Entry) (runs : List Run)
    → Ascending entries
    → Separated runs
    → Fits entries runs
    → byte_at at (runs_of entries runs) ≡ or_else (byte_at at runs) (changed (value_at at entries))
unfolding runs_of value_at
byte_at-runs_of at [] runs h s fits = ground arith
byte_at-runs_of at (e ∷ entries) runs h s fits =
    let later = λ (same : e.address ≡ at).
      value_at-above at entries (subst (λ a. All (λ f. a < f.address) entries) same h.0) in
    elim (Bool-cases (e.old == e.new)) [
      | inl same ↦ rw same (
          byte_at-runs_of at entries runs h.1 s fits.1
          ∙ or_else-same at e (byte_at at runs) (value_at at entries) later same)
      | inr differ ↦ rw differ (
          byte_at-runs_of at entries (add_byte e runs) h.1 (add_byte-Separated e runs s fits.0)
            (Fits-step e entries runs h fits.0)
          ∙ ap (λ o. or_else o (changed (value_at at entries)))
              (byte_at-add_byte at e runs s fits.0)
          ∙ or_else-changed at e (byte_at at runs) (value_at at entries)
              (λ same. byte_at-below at runs (subst (λ a. EndsBelow a runs) same fits.0)) later
              differ)
    ]
