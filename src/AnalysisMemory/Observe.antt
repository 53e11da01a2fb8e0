-- ===== src/AnalysisMemory/Observe.antt =====
-- macdbg/core/analysis_memory.py: `observe`, the scan of executable memory for changes.
-- The digest of bytes is a parameter; the dump files that a change writes are part of its event.
use macdbg.Prelude.{
  ℕ, ◌-◌, min, Bool, true, false, not, ◌&&◌, ◌||◌, Option, none, some, List, [], ◌∷◌, ◌++◌, ◌==◌,
  if◌then◌else◌, length, Result, ok, err,
}
use Prim.Native.Nat.{bit_and}
use macdbg.Prelude.Int.{pos}
use macdbg.Bytes.{same}
use macdbg.AnalysisMemory.{Live, Problem, Snapshot, Store, capture}

-- A row of `regions()`; `is_system` is whether its name is below /System or /usr/lib.
pub record Region : Type 0 where
  pub base : ℕ
  pub stop : ℕ
  pub protection : ℕ
  pub is_system : Bool

abbrev pub size_of : Region → ℕ
size_of row = row.stop - row.base

-- What is remembered of a region: the digest, the protection and the bytes.
pub record Baseline : Type 0 where
  pub digest : List ℕ
  pub protection : ℕ
  pub content : List ℕ

-- The dictionaries `previous` and `current`, by the base of a region.
abbrev pub Baselines : Type 0
Baselines = List (ℕ × Baseline)

unfoldable pub baseline_of : ℕ → Baselines → Option Baseline
baseline_of base [] = none
baseline_of base ((b, l) ∷ rest) =
    let found = baseline_of base rest in if b == base then some l else found

-- `current[base] = …`
unfoldable pub put_baseline : ℕ → Baseline → Baselines → Baselines
put_baseline base new [] = (base, new) ∷ []
put_baseline base new ((b, l) ∷ rest) =
    let later = put_baseline base new rest in if b == base then (b, new) ∷ rest else (b, l) ∷ later

pub data Kind : Type 0 where
  new_region changed_region : Kind

-- An event of the log, with the two dump files: the bytes that were read and those before.
pub record Event : Type 0 where
  pub kind : Kind
  pub region : Region
  pub snapshot : ℕ
  pub content : List ℕ
  pub before : Option (List ℕ)

-- The locals of the loop, with the snapshots, the events, and the bytes that were asked for.
pub record Scan : Type 0 where
  pub budget : ℕ
  pub current : Baselines
  pub store : Store
  pub events : List Event

abbrev pub scan_limit : ℕ
scan_limit = 0x800000

abbrev pub region_limit : ℕ
region_limit = 0x40000

-- What a region is remembered by: a read that is short leaves the last baseline's bytes.
unfoldable pub remembered :
    (sha256 : List ℕ → List ℕ) → Region → (size : ℕ) → List ℕ → Option Baseline → Baseline
remembered sha256 row size content none = record {
  digest = sha256 content;
  protection = row.protection;
  content = content;
}
remembered sha256 row size content (some old) =
    if length content == size
    then record { digest = sha256 content; protection = row.protection; content = content }
    else record { digest = old.digest; protection = row.protection; content = old.content }

-- `changed`
unfoldable pub has_changed :
    (sha256 : List ℕ → List ℕ) → Region → (size : ℕ) → List ℕ → Baseline → Bool
has_changed sha256 row size content old =
    not (old.protection == row.protection)
    || length content == size
      && length old.content == size
      && not (same old.digest (sha256 content))

-- The kind of the event that a region makes, if it makes one.
unfoldable pub kind_of :
    (sha256 : List ℕ → List ℕ)
    → (baseline : Bool) → Region
    → (size : ℕ) → List ℕ
    → Option Baseline
    → Option Kind
unfolding has_changed
kind_of sha256 true row size content old = none
kind_of sha256 false row size content none = some new_region
kind_of sha256 false row size content (some old) =
    if has_changed sha256 row size content old then some changed_region else none

abbrev pub content_before : Option Baseline → Option (List ℕ)
content_before none = none
content_before (some old) = some old.content

-- The label of a snapshot.
abbrev pub label_of : Kind → List ℕ
label_of new_region =
    b'n' ∷ b'e' ∷ b'w' ∷ 32 ∷ b'e' ∷ b'x' ∷ b'e' ∷ b'c' ∷ b'u' ∷ b't' ∷ b'a' ∷ b'b' ∷ b'l' ∷ b'e'
    ∷ 32 ∷ b'r' ∷ b'e' ∷ b'g' ∷ b'i' ∷ b'o' ∷ b'n' ∷ []
label_of changed_region =
    b'e' ∷ b'x' ∷ b'e' ∷ b'c' ∷ b'u' ∷ b't' ∷ b'a' ∷ b'b' ∷ b'l' ∷ b'e' ∷ 32 ∷ b'm' ∷ b'e' ∷ b'm'
    ∷ b'o' ∷ b'r' ∷ b'y' ∷ 32 ∷ b'c' ∷ b'h' ∷ b'a' ∷ b'n' ∷ b'g' ∷ b'e' ∷ b'd' ∷ []

abbrev pub after_capture :
    Kind
    → Region
    → List ℕ
    → Option Baseline
    → Scan
    → Result Problem Snapshot × Store
    → Option Problem × Scan
after_capture kind row content old scan (err e, store) = (some e, record scan { store = store })
after_capture kind row content old scan (ok snapshot, store) = (
  none,
  record scan {
    store = store;
    events =
        scan.events
        ++ record {
          kind = kind;
          region = row;
          snapshot = snapshot.id;
          content = content;
          before = content_before old;
        }
          ∷ [];
  },
)

abbrev pub report :
    Live
    → Region
    → (size : ℕ) → List ℕ
    → Option Baseline
    → Scan
    → Option Kind
    → Option Problem × Scan
unfolding capture
report live row size content old scan none = (none, scan)
report live row size content old scan (some kind) =
    after_capture kind row content old scan
      (capture live (pos row.base) (pos size) (label_of kind) scan.store)

-- One region that is read.
unfoldable pub observe_region :
    Live
    → (sha256 : List ℕ → List ℕ) → (baseline : Bool) → Baselines
    → Region
    → (size : ℕ) → Scan
    → Option Problem × Scan
unfolding baseline_of put_baseline remembered kind_of capture
observe_region live sha256 baseline previous row size scan =
    let content = live.read_memory row.base size in
    let old = baseline_of row.base previous in
    let next : Scan = record scan {
      budget = scan.budget - size;
      current = put_baseline row.base (remembered sha256 row size content old) scan.current;
    } in
    report live row size content old next (kind_of sha256 baseline row size content old)

-- `row['protection'] & 5 != 5 or …`
abbrev pub is_skipped : Region → Bool
is_skipped row = not (bit_and row.protection 5 == 5) || row.is_system

abbrev pub size_read : Region → Scan → ℕ
size_read row scan = min (min (size_of row) region_limit) scan.budget

-- `for row in self.regions()`
unfoldable pub observe_regions :
    Live
    → (sha256 : List ℕ → List ℕ) → (baseline : Bool) → Baselines
    → List Region
    → Scan
    → Option Problem × Scan
unfolding observe_region
observe_regions live sha256 baseline previous [] scan = (none, scan)
observe_regions live sha256 baseline previous (row ∷ rows) scan =
    let skipped = observe_regions live sha256 baseline previous rows scan in
    let observed = observe_region live sha256 baseline previous row (size_read row scan) scan in
    elim (is_skipped row) [
      | true ↦ skipped
      | false ↦ elim (size_read row scan == 0) [
        | true ↦ (none, scan)
        | false ↦ elim observed.0 [
          | some e ↦ (some e, observed.1)
          | none ↦ observe_regions live sha256 baseline previous rows observed.1
        ]
      ]
    ]

-- `observe(baseline)`: the error that is raised, if one is, and the scan; its `current` becomes
-- `previous` where none is.
unfoldable pub observe :
    Live
    → (sha256 : List ℕ → List ℕ) → (baseline : Bool) → Baselines
    → List Region
    → Store
    → Option Problem × Scan
unfolding observe_regions
observe live sha256 baseline previous rows store =
    observe_regions live sha256 baseline previous rows
      (record { budget = scan_limit; current = []; store = store; events = [] })
