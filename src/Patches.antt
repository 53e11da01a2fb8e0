-- ===== src/Patches.antt =====
-- macdbg/core/patch_export.py: `normalized`, the merge of overlapping edits into runs, with the
-- `Patch` of macdbg/core/state.py.
mod Values
mod Merge
mod Runs
pub mod Meaning
mod Tests
use macdbg.Prelude.{
  ℕ, zero, suc, ◌+◌, Bool, List, [], ◌∷◌, ◌++◌, leb, not, ◌==◌, if◌then◌else◌, length, Result, ok,
  err, ◌>>=◌, ◌>>◌, raise_if,
}

pub record Patch : Type 0 where
  pub addr : ℕ
  pub orig : List ℕ
  pub new : List ℕ

pub record Run : Type 0 where
  pub address : ℕ
  pub original : List ℕ
  pub new : List ℕ

pub data Error : Type 0 where
  patch_lengths_differ : Error

-- An entry of the dictionary `values`: an address with its old and its new byte.
pub record Entry : Type 0 where
  pub address : ℕ
  pub old : ℕ
  pub new : ℕ

-- `values[address] = (values.get(address, (old,))[0], new)`
unfoldable pub set_value : (address old new : ℕ) → List Entry → List Entry
set_value address old new [] = record { address = address; old = old; new = new } ∷ []
set_value address old new (e ∷ entries) =
    if e.address == address
    then record e { new = new } ∷ entries
    else e ∷ set_value address old new entries

-- `for index, (old, new) in enumerate(zip(patch.orig, patch.new))`, at the address of the index.
unfoldable pub set_bytes : ℕ → (orig new : List ℕ) → List Entry → List Entry
set_bytes address (o ∷ orig) (n ∷ new) entries =
    set_bytes (address + 1) orig new (set_value address o n entries)
set_bytes address [] new entries = entries
set_bytes address (o ∷ orig) [] entries = entries

-- `for patch in patches`
unfoldable pub collect : List Patch → List Entry → Result Error (List Entry)
unfolding set_bytes set_value
collect [] entries = ok entries
collect (p ∷ patches) entries = do
  raise_if (not (length p.orig == length p.new)) patch_lengths_differ
  collect patches (set_bytes p.addr p.orig p.new entries)

-- `sorted(values)`: the entries in the order of their addresses.
unfoldable pub insert_entry : Entry → List Entry → List Entry
insert_entry e [] = e ∷ []
insert_entry e (f ∷ entries) =
    if leb e.address f.address then e ∷ f ∷ entries else f ∷ insert_entry e entries

unfoldable pub sorted : List Entry → List Entry
unfolding insert_entry
sorted [] = []
sorted (e ∷ entries) = insert_entry e (sorted entries)

-- The byte of one changed address, behind the last run if it continues that, else in a new run.
unfoldable pub add_byte : Entry → List Run → List Run
add_byte e [] = record { address = e.address; original = e.old ∷ []; new = e.new ∷ [] } ∷ []
add_byte e (r ∷ []) =
    if e.address == r.address + length r.new
    then record r { original = r.original ++ e.old ∷ []; new = r.new ++ e.new ∷ [] } ∷ []
    else r ∷ record { address = e.address; original = e.old ∷ []; new = e.new ∷ [] } ∷ []
add_byte e (r ∷ s ∷ runs) = r ∷ add_byte e (s ∷ runs)

-- `for address in sorted(values)`, with `if old == new: continue`
unfoldable pub runs_of : List Entry → List Run → List Run
unfolding add_byte
runs_of [] runs = runs
runs_of (e ∷ entries) runs = runs_of entries (if e.old == e.new then runs else add_byte e runs)

-- `normalized(patches)`
unfoldable pub normalized : List Patch → Result Error (List Run)
unfolding collect sorted runs_of
normalized patches = do values ← collect patches []; ok (runs_of (sorted values) [])
