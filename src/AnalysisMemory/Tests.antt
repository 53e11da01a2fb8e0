-- ===== src/AnalysisMemory/Tests.antt =====
-- Runs of macdbg/core/analysis_memory.py, and the theorems about it at those runs.
use macdbg.Prelude.{ℕ, ◌+◌, ◌≡◌, ◌↔◌, refl, true, false, none, some, List, [], ◌∷◌, arith, take}
use macdbg.Prelude.Int.{pos}
use macdbg.Bytes.{same}
use macdbg.ReturnHooks.{Breakpoints, ReturnHooks}
use macdbg.AnalysisMemory.{Live, Store, Snapshot, strings, capture, compared}
use macdbg.AnalysisMemory.Distance.{distance, compared-distance}
use macdbg.AnalysisMemory.Snapshots.{IsStore, Captured, capture-Captured}
use macdbg.AnalysisMemory.Observe.{Region}
use macdbg.AnalysisMemory.Guard.{Analysis, Payload}
use macdbg.AnalysisMemory.Stops.{Stop}
use macdbg.AnalysisMemory.Guarded.{Call, arms, stops}

-- Five printable characters between others, at 100.
abbrev bytes_with_text : List ℕ
bytes_with_text = 0 ∷ b'h' ∷ b'e' ∷ b'l' ∷ b'l' ∷ b'o' ∷ 0 ∷ b'n' ∷ b'o' ∷ []

one_string : strings bytes_with_text 100 ≡ (101, b'h' ∷ b'e' ∷ b'l' ∷ b'l' ∷ b'o' ∷ []) ∷ []
unfolding strings
one_string = refl

abbrev live : Live
live = record { stopped = true; read_memory = λ address size. take size bytes_with_text }

abbrev blank : Store
blank = record { snapshots = []; sequence = 3 }

blank-IsStore : IsStore blank
blank-IsStore = record { few = omega arith; numbered = tt }

capture-Captured_example : Captured live blank (capture live (pos 100) (pos 6) [] blank)
capture-Captured_example = capture-Captured live live (pos 100) (pos 6) [] blank blank-IsStore refl

abbrev snapshot : Snapshot
snapshot = record {
  id = 1;
  address = 100;
  requested = 9;
  label = [];
  content = bytes_with_text;
  strings_of = [];
}

two_changed :
    (compared snapshot (0 ∷ b'j' ∷ b'e' ∷ b'l' ∷ b'l' ∷ b'o' ∷ 0 ∷ b'n' ∷ [])).changed_bytes ≡ 2
unfolding compared same
two_changed = refl

compared-distance_example :
    ((compared snapshot (0 ∷ b'j' ∷ [])).changed_bytes ≡ distance bytes_with_text (0 ∷ b'j' ∷ []))
    × ((compared snapshot (0 ∷ b'j' ∷ [])).changed_bytes ≡ 0 ↔ bytes_with_text ≡ 0 ∷ b'j' ∷ [])
compared-distance_example = compared-distance snapshot (0 ∷ b'j' ∷ [])

abbrev breakpoints : Breakpoints ℕ
breakpoints = record {
  create = λ address tid s. (some s, s + 1);
  delete = λ bid s. s;
  remember = λ bid s. s;
}

abbrev returns : ReturnHooks ℕ Payload
returns = record { debugger = 1; limit = 4; pending = []; sequence = 0; retired = [] }

abbrev analysis : Analysis ℕ
analysis = record {
  returns = returns;
  enabled = false;
  hooks = [];
  store = blank;
  previous = [];
  guard = none;
  guard_stop = none;
  observed = none;
  notes = [];
}

abbrev code : Region
code = record { base = 4096; stop = 8192; protection = 5; is_system = false }

-- The first execution in the guarded region.
abbrev fault : Stop
fault = record {
  pid = 1;
  stop = 2;
  bad_access = true;
  executable = some false;
  protects = true;
  ids = [];
  frame = record { lr = 0; tid = 7; sp = 0; pc = 4100; is_breakpoint = false };
  result = 0;
  arguments = [];
}

abbrev calls : List Call
calls = arms true (code ∷ []) (12288 ∷ []) 4096 ∷ stops live [] fault ∷ []
