-- ===== src/AnalysisMemory.antt =====
-- macdbg/core/analysis_memory.py: `strings`, and the snapshots of `MemoryAnalysis`.
pub mod Observe
pub mod Guard
pub mod Stops
pub mod Guarded
pub mod Distance
pub mod Snapshots
mod Tests
use macdbg.Prelude.{
  ℕ, zero, suc, ◌+◌, ◌-◌, ◌*◌, ◌/◌, ◌^◌, min, max, Bool, true, false, not, ◌&&◌, ◌||◌, Option, none,
  some, List, [], ◌∷◌, ◌++◌, ltb, leb, ◌==◌, if◌then◌else◌, length, take, select, Result, ok, err,
  ◌>>=◌, ◌>>◌, raise_if,
}
use macdbg.Prelude.Int.{ℤ, pos, negsuc}
use macdbg.Bytes.{slice, same}
use macdbg.Http.Text.{any}

-- A printable character, `[\x20-\x7e]`.
abbrev pub is_printable : ℕ → Bool
is_printable c = leb 0x20 c && leb c 0x7e

-- A run of printable characters that ends: it counts from five characters on.
abbrev pub ended : (start : ℕ) → List ℕ → List (ℕ × List ℕ) → List (ℕ × List ℕ)
ended start run rest = if leb 5 (length run) then (start, run) ∷ rest else rest

-- The runs from `at` on, behind the run that began at `start`.
unfoldable pub runs : (start at : ℕ) → List ℕ → List ℕ → List (ℕ × List ℕ)
runs start at run [] = ended start run []
runs start at run (c ∷ text) =
    let longer = runs start (suc at) (run ++ c ∷ []) text in
    let rest = runs (suc at) (suc at) [] text in
    if is_printable c then longer else ended start run rest

-- `strings(data, base)`
unfoldable pub strings : List ℕ → ℕ → List (ℕ × List ℕ)
unfolding runs
strings text base = take 4096 (runs base base [] text)

pub record Snapshot : Type 0 where
  pub id : ℕ
  pub address : ℕ
  pub requested : ℕ
  pub label : List ℕ
  pub content : List ℕ
  pub strings_of : List (ℕ × List ℕ)

-- The process as the analysis sees it: whether it is stopped, and `Debugger.read_memory`.
pub record Live : Type 0 where
  pub stopped : Bool
  pub read_memory : ℕ → ℕ → List ℕ

pub data Problem : Type 0 where
  bad_size not_stopped unreadable expired : Problem
  cannot_monitor guard_exists not_executable too_large pc_inside cannot_protect still_running :
      Problem

-- The fields that the snapshots use: `snapshots` has the oldest first.
pub record Store : Type 0 where
  pub snapshots : List Snapshot
  pub sequence : ℕ

-- `while len(self.snapshots) > 8: self.snapshots.popitem(last=False)`
unfoldable pub evict_snapshots : List Snapshot → List Snapshot
evict_snapshots [] = []
evict_snapshots (s ∷ snapshots) =
    let rest = evict_snapshots snapshots in
    if ltb 8 (length (s ∷ snapshots)) then rest else s ∷ snapshots

unfoldable pub new_snapshot : Store → (address requested : ℕ) → (label content : List ℕ) → Snapshot
unfolding strings
new_snapshot store address requested label content = record {
  id = suc store.sequence;
  address = address;
  requested = requested;
  label = take 100 label;
  content = content;
  strings_of = strings content address;
}

-- `self.sequence += 1`, and the record that is put among the others.
unfoldable pub keep_snapshot :
    (address requested : ℕ) → (label content : List ℕ) → Store → Snapshot × Store
unfolding evict_snapshots new_snapshot
keep_snapshot address requested label content store =
    let s = new_snapshot store address requested label content in
    (
      s,
      record {
        snapshots = evict_snapshots (store.snapshots ++ s ∷ []);
        sequence = suc store.sequence;
      },
    )

abbrev pub is_nil : List ℕ → Bool
is_nil [] = true
is_nil (c ∷ content) = false

abbrev pub snapshot_limit : ℕ
snapshot_limit = 0x100000

-- What `capture` reads, or the error it raises.
unfoldable pub captured : Live → ℤ → ℤ → Result Problem (ℕ × ℕ × List ℕ)
captured live (pos address) (pos size) = do
  raise_if (not (ltb 0 size && leb size snapshot_limit) || leb (2 ^ 64) (address + size)) bad_size
  raise_if (not live.stopped) not_stopped
  let content = live.read_memory address size
  raise_if (is_nil content) unreadable
  ok (address, size, content)
captured live _ _ = err bad_size

abbrev pub after_read :
    List ℕ → Store → Result Problem (ℕ × ℕ × List ℕ) → Result Problem Snapshot × Store
unfolding keep_snapshot
after_read label store (err e) = (err e, store)
after_read label store (ok (address, size, content)) =
    let (s, store') = keep_snapshot address size label content store in (ok s, store')

-- `capture(address, size, label)`
unfoldable pub capture : Live → ℤ → ℤ → List ℕ → Store → Result Problem Snapshot × Store
unfolding captured keep_snapshot
capture live address size label store = after_read label store (captured live address size)

unfoldable pub find_snapshot : ℕ → List Snapshot → Option Snapshot
find_snapshot id [] = none
find_snapshot id (s ∷ snapshots) =
    let rest = find_snapshot id snapshots in if s.id == id then some s else rest

-- `sum(a != b for a, b in zip(before, after)) + abs(len(before) - len(after))`
unfoldable pub differing : List ℕ → List ℕ → ℕ
differing [] after = 0
differing (a ∷ before) [] = 0
differing (a ∷ before) (b ∷ after) = (if a == b then 0 else 1) + differing before after

abbrev pub changed_in : List ℕ → List ℕ → ℕ
unfolding differing
changed_in before after =
    differing before after
    + (max (length before) (length after) - min (length before) (length after))

-- A row of 16 bytes that changed.
pub record Change : Type 0 where
  pub address : ℕ
  pub before : List ℕ
  pub after : List ℕ

-- `for offset in range(0, max(…), 16)`, for the rounds that are left: `changes` and `changed`.
unfoldable pub compare_rows :
    (address : ℕ)
    → (old new : List ℕ) → (rounds offset : ℕ) → List Change
    → (changed : ℕ) → List Change × ℕ
unfolding differing
compare_rows address old new zero offset changes changed = (changes, changed)
compare_rows address old new (suc rounds) offset changes changed =
    let before = slice old offset 16 in
    let after = slice new offset 16 in
    let row : Change = record { address = address + offset; before = before; after = after } in
    compare_rows address old new rounds (offset + 16)
      (if not (same before after) && ltb (length changes) 512 then changes ++ row ∷ [] else changes)
      (changed + changed_in before after)

pub record Comparison : Type 0 where
  pub changed_bytes : ℕ
  pub changes : List Change
  pub complete : Bool
  pub strings_added : List (ℕ × List ℕ)
  pub strings_removed : List (ℕ × List ℕ)

abbrev pub same_string : ℕ × List ℕ → ℕ × List ℕ → Bool
same_string (a, t) (a', t') = a == a' && same t t'

-- The strings of one list that are not among those of another; the code gives them out sorted.
unfoldable pub strings_without : List (ℕ × List ℕ) → List (ℕ × List ℕ) → List (ℕ × List ℕ)
unfolding any
strings_without others found = select (λ s. not (any (same_string s) others)) found

unfoldable pub compared : Snapshot → (new : List ℕ) → Comparison
unfolding compare_rows strings strings_without
compared old new =
    let (changes, changed) =
      compare_rows old.address old.content new ((max (length new) (length old.content) + 15) / 16) 0
        [] 0 in
    record {
      changed_bytes = changed;
      changes = changes;
      complete = length new == length old.content;
      strings_added = strings_without old.strings_of (strings new old.address);
      strings_removed = strings_without (strings new old.address) old.strings_of;
    }

abbrev pub compare_found : Live → Option Snapshot → Result Problem Comparison
unfolding compared
compare_found live none = err expired
compare_found live (some old) =
    ok (compared old (live.read_memory old.address (length old.content)))

-- `compare(snapshot_id)`
unfoldable pub compare_snapshot : Live → ℕ → Store → Result Problem Comparison
unfolding find_snapshot compared
compare_snapshot live id store =
    raise_if (not live.stopped) not_stopped >> compare_found live (find_snapshot id store.snapshots)
