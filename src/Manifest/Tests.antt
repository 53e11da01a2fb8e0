-- ===== src/Manifest/Tests.antt =====
-- Runs of the import of macdbg/core/patch_export.py, and the theorem about it there.
use macdbg.Prelude.{List, ok, err, ℕ, ◌≡◌, refl, true, false, some, [], ◌∷◌}
use macdbg.Bytes.{same}
use macdbg.Http.Text.{any}
use macdbg.MachO.{Image, file_address}
use macdbg.Debugger.{Debugger, write_failed, write_memory}
use macdbg.Debugger.Writes.{poke}
use macdbg.Debugger.Sample.{sample}
use macdbg.Manifest.{
  check_rows, Row, pos, Manifest, schema_name, Source, rollback_failed, import_manifest,
}
use macdbg.Manifest.Disjoint.{InFile, check_rows-InFile}

-- Six bytes of the file lie at 50 and four at 120, each with its offset as its byte.
abbrev image : Image
image = record {
  bytes = 0 ∷ 1 ∷ 2 ∷ 3 ∷ 4 ∷ 5 ∷ 6 ∷ 7 ∷ 8 ∷ 9 ∷ [];
  base = 0;
  span = 10;
  subtype = 0;
  sections =
      record {
        name = [];
        segment = [];
        address = 50;
        size = 6;
        offset = 0;
        zero_fill = false;
        relocations = 0;
      }
      ∷ record {
        name = [];
        segment = [];
        address = 120;
        size = 4;
        offset = 6;
        zero_fill = false;
        relocations = 0;
      }
      ∷ [];
  segments = [];
  signed = false;
  encrypted = false;
}

abbrev source : Source
source = record {
  bytes = image.bytes;
  image = image;
  digest = 1 ∷ [];
  load_address = some (λ at. some at);
}

abbrev live : Debugger (ℕ → ℕ)
live = record {
  process = poke 50 (0 ∷ 1 ∷ 2 ∷ 3 ∷ 4 ∷ 5 ∷ []) (poke 120 (6 ∷ 7 ∷ 8 ∷ 9 ∷ []) (λ at. 0));
  patches = some [];
}

-- The second row is at an address that refuses writes, that of the rollback too.
abbrev manifest : Manifest
manifest = record {
  schema = schema_name;
  sha256 = 1 ∷ [];
  patches = some (
      record { offset = pos 2; original = 2 ∷ 3 ∷ []; new = 20 ∷ 30 ∷ [] }
      ∷ record { offset = pos 7; original = 7 ∷ []; new = 70 ∷ [] }
      ∷ []);
}

import_manifest-rollback_failed :
    (import_manifest sample source manifest true live).0
    ≡ err (rollback_failed write_failed (121 ∷ []))
unfolding import_manifest same any file_address poke write_memory
import_manifest-rollback_failed = refl

import_manifest-memory : (import_manifest sample source manifest true live).1.process 52 ≡ 2
unfolding import_manifest same any file_address poke write_memory
import_manifest-memory = refl

abbrev rows : List Row
rows =
    record { offset = pos 2; original = 2 ∷ 3 ∷ []; new = 20 ∷ 30 ∷ [] }
    ∷ record { offset = pos 7; original = 7 ∷ []; new = 70 ∷ [] }
    ∷ []

check_rows-checked :
    check_rows sample source (λ at. some at) [] rows live
    ≡ ok (
        record { address = 52; original = 2 ∷ 3 ∷ []; new = 20 ∷ 30 ∷ [] }
        ∷ record { address = 121; original = 7 ∷ []; new = 70 ∷ [] }
        ∷ [])
unfolding check_rows same any file_address poke
check_rows-checked = refl

check_rows-InFile_example : InFile source rows
check_rows-InFile_example =
    check_rows-InFile sample source (λ at. some at) rows live _ check_rows-checked
