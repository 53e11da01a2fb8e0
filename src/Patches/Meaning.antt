-- ===== src/Patches/Meaning.antt =====
-- macdbg/core/patch_export.py: what `normalized` promises of the patches that it merges.
use macdbg.Prelude.{
  ℕ, ◌≡◌, refl, ap, sym, All, ◌∙◌, true, not, Option, none, some, List, [], ◌∷◌, arith, ◌==◌,
  length, ok, bind-eq-ok, raise_if-eq-ok, ◌↔◌,
}
use macdbg.Patches.{
  Patch, Run, patch_lengths_differ, Entry, set_bytes, collect, sorted, runs_of, normalized,
}
use macdbg.Patches.Values.{
  writes, last_new, edit_at, value_at-collect, value_at-sorted, collect-Unique, sorted-Ascending,
}
use macdbg.Patches.Merge.{byte_at, Separated}
use macdbg.Patches.Runs.{Fits, changed, runs_of-Separated, byte_at-runs_of}

Fits-nil : (entries : List Entry) → Fits entries []
Fits-nil [] = tt
Fits-nil (e ∷ entries) = (tt, Fits-nil entries)

-- The runs that `normalized` returns rise, are not empty, hold as many old bytes as new ones, and
-- neither touch nor overlap; and at each address they hold the first old and the last new byte that
-- the patches give it, or nothing where those are the same byte or no patch reaches it.
pub normalized_runs :
    (patches : List Patch) (runs : List Run)
    → normalized patches ≡ ok runs
    → Separated runs × ((at : ℕ) → byte_at at runs ≡ changed (edit_at at (writes patches)))
unfolding normalized byte_at
normalized_runs patches runs h =
    let (values, collected, built) = bind-eq-ok (collect patches []) _ h in
    let rising = sorted-Ascending values (collect-Unique patches collected) in
    let e : runs ≡ runs_of (sorted values) [] = cc built in
    (
      rw e (runs_of-Separated (sorted values) [] rising tt (Fits-nil (sorted values))),
      λ at. rw e (
          byte_at-runs_of at (sorted values) [] rising tt (Fits-nil (sorted values))
          ∙ ap changed (value_at-sorted at values ∙ value_at-collect at patches collected)),
    )

abbrev pub EqualLengths : Patch → Type 0
EqualLengths p = length p.orig ≡ length p.new

collect_total :
    (patches : List Patch) (entries : List Entry)
    → All EqualLengths patches
    → (values : List Entry) × (collect patches entries ≡ ok values)
unfolding collect
collect_total [] entries h = (entries, refl)
collect_total (p ∷ patches) entries h =
    let same : (length p.orig == length p.new) ≡ true = ground (arith, h.0) in
    rw same (collect_total patches (set_bytes p.addr p.orig p.new entries) h.1)

collect-All :
    (patches : List Patch) (entries : List Entry) {values : List Entry}
    → collect patches entries ≡ ok values
    → All EqualLengths patches
unfolding collect
collect-All [] entries h = tt
collect-All (p ∷ patches) entries h =
    let (same, rest) =
      raise_if-eq-ok (not (length p.orig == length p.new)) patch_lengths_differ _ h in
    (ground (arith, same), collect-All patches (set_bytes p.addr p.orig p.new entries) rest)

-- `normalized` returns runs exactly when each patch holds as many old bytes as new ones.
pub normalized_total :
    (patches : List Patch)
    → All EqualLengths patches ↔ ((runs : List Run) × (normalized patches ≡ ok runs))
unfolding normalized
normalized_total patches = (total, equal)
  where
    total : All EqualLengths patches → (runs : List Run) × (normalized patches ≡ ok runs)
    total h =
        let (values, collected) = collect_total patches [] h in
        (runs_of (sorted values) [], rw (collected, normalized))

    equal : ((runs : List Run) × (normalized patches ≡ ok runs)) → All EqualLengths patches
    equal (runs, h) =
        let (values, collected, built) = bind-eq-ok (collect patches []) _ h in
        collect-All patches [] collected

-- A byte of memory after the runs are written over it.
abbrev pub after_runs : ℕ → ℕ → List Run → ℕ
after_runs at byte runs = elim (byte_at at runs) [ none ↦ byte | some (old, new) ↦ new ]

abbrev HasOriginal : ℕ → Option (ℕ × ℕ) → Type 0
HasOriginal byte none = Unit
HasOriginal byte (some (old, new)) = byte ≡ old

last_byte : ℕ → Option (ℕ × ℕ) → ℕ
last_byte byte none = byte
last_byte byte (some (old, new)) = new

last_new-edit_at :
    (at byte : ℕ) (ws : List Entry) → last_new at byte ws ≡ last_byte byte (edit_at at ws)
unfolding last_new edit_at last_byte
last_new-edit_at at byte [] = refl
last_new-edit_at at byte (e ∷ ws) = ground (arith, last_new-edit_at at byte ws)

after_changed :
    {held : Option (ℕ × ℕ)} (byte : ℕ) (edit : Option (ℕ × ℕ))
    → HasOriginal byte edit
    → held ≡ changed edit
    → (elim held [ none ↦ byte | some (old, new) ↦ new ]) ≡ last_byte byte edit
unfolding last_byte
after_changed byte none original e = rw e refl
after_changed byte (some (old, new)) original e = rw e (ground (arith, original))

-- Over bytes that are the ones which the patches found first, writing the runs leaves what writing
-- the patches one after another leaves.
pub normalized_effect :
    (patches : List Patch) (runs : List Run) (at byte : ℕ)
    → normalized patches ≡ ok runs
    → HasOriginal byte (edit_at at (writes patches))
    → after_runs at byte runs ≡ last_new at byte (writes patches)
normalized_effect patches runs at byte h original =
    let (_, bytes) = normalized_runs patches runs h in
    after_changed byte (edit_at at (writes patches)) original (bytes at)
    ∙ sym (last_new-edit_at at byte (writes patches))
