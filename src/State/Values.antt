-- ===== src/State/Values.antt =====
-- The values that Python's json module reads and writes, as macdbg/core/state.py uses them.
use macdbg.Prelude.{
  ℕ, zero, suc, Bool, true, false, Option, none, some, List, [], ◌∷◌, if◌then◌else◌,
}
use macdbg.Prelude.Int.{ℤ, pos, negsuc}
use macdbg.Bytes.{same}

-- `elements` of a list and `members` of an object are the two lists of the same block.
mutual
  pub data Json : Type 0 where
    null : Json
    boolean : Bool → Json
    number : ℤ → Json
    string : List ℕ → Json
    array : Elements → Json
    object : Members → Json

  pub data Elements : Type 0 where
    no_elements : Elements
    element : Json → Elements → Elements

  pub data Members : Type 0 where
    no_members : Members
    member : (key : List ℕ) → Json → Members → Members

-- `bool(value)`
abbrev pub truthy : Json → Bool
truthy null = false
truthy (boolean b) = b
truthy (number (pos zero)) = false
truthy (number (pos (suc n))) = true
truthy (number (negsuc n)) = true
truthy (string []) = false
truthy (string (c ∷ text)) = true
truthy (array no_elements) = false
truthy (array (element x xs)) = true
truthy (object no_members) = false
truthy (object (member key value rest)) = true

-- `d.get(key)`
unfoldable pub get : List ℕ → Members → Option Json
get key no_members = none
get key (member k value rest) = let found = get key rest in if same k key then some value else found

-- `d.get(key, default)`
unfoldable pub get_or : List ℕ → Json → Members → Json
unfolding get
get_or key default d = elim (get key d) [ none ↦ default | some value ↦ value ]
