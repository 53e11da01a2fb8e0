-- ===== src/Timing.antt =====
-- macdbg/core/timing.py: `TimingDefense`, the rules that an analyst gives for single instructions.
-- A saved rule has the fields of one of the two kinds; the tests of the kinds of saved values, which
-- guard against edits of the file, are not modelled.
pub mod Rules
pub mod Digits
pub mod Arming
pub mod Owned
pub mod Stops
pub mod Repeated
mod Tests
use macdbg.Prelude.{
  ℕ, suc, ◌+◌, ◌-◌, ◌*◌, ◌^◌, ◌≡◌, ◌≢◌, Bool, true, false, not, ◌&&◌, ◌||◌, Option, none, some,
  List, [], ◌∷◌, ◌++◌, map, ltb, leb, ◌==◌, if◌then◌else◌, length, select, All, Result, ok, err,
  ◌>>=◌, ◌>>◌, raise_if,
}
use macdbg.Prelude.Int.{ℤ, pos, negsuc, ◌+ℤ◌, ◌-ℕ◌}
use macdbg.Bytes.{same}
use macdbg.Http.Text.{any}
use macdbg.Assembly.Encode.{some_or}
use macdbg.Timing.Rules.{
  Problem, is_enabled, unknown_fields, bad_name, name_exists, missing_field, site_exists,
  both_actions, same_address, unknown_rule, duplicate_name, duplicate_site, changed,
  redirect_changed, automatic_clocks, no_rules, hardware_refused, hooks_missing, no_capacity,
  hook_modified, hook_moved, filters_modified, has_commands, overlaps, cannot_redirect, no_register,
  register_read, register_write, register_verify, Argument, integer_of, register_bits,
  rewritten_value, Action, rewrite, redirect, Rule, Target, check_stopped, module_base, instruction,
  is_name,
}

-- A row of the dictionary `_hooks`.
pub record Hook : Type 0 where
  pub bid : ℕ
  pub rule : Rule
  pub address : ℤ

-- A stop of a thread at a hook that is handled: process, stop, thread and breakpoint.
pub record Key : Type 0 where
  pub pid : ℕ
  pub stop : ℕ
  pub tid : ℕ
  pub bid : ℕ

-- The object; `debugger` is the state of the debugger's breakpoints, `hardware_ids` the set
-- `hardware_bp_ids`, and `saved` the rules of its session state, if it has one.
pub record Timing (S : Type 0) : Type 0 where
  pub debugger : S
  pub hardware_ids : List ℕ
  pub saved : Option (List Rule)
  pub rules : List Rule
  pub enabled : Bool
  pub last_error : Option Problem
  pub hooks : List Hook
  pub handled : List Key
  pub hits : List (List ℕ × ℕ)

abbrev pub same_ℤ : ℤ → ℤ → Bool
same_ℤ (pos m) (pos n) = m == n
same_ℤ (negsuc m) (negsuc n) = m == n
same_ℤ _ _ = false

unfoldable pub has_name : List ℕ → List Rule → Bool
has_name name [] = false
has_name name (r ∷ rules) = same r.name name || has_name name rules

unfoldable pub has_offset : ℤ → List Rule → Bool
has_offset offset [] = false
has_offset offset (r ∷ rules) = same_ℤ r.offset offset || has_offset offset rules

-- The arguments of `add`: each field that is given, and whether there are others.
pub record Args : Type 0 where
  pub others : Bool
  pub name : Option (List ℕ)
  pub addr : Option Argument
  pub register : Option (List ℕ)
  pub value : Option Argument
  pub mask : Option Argument
  pub destination : Option Argument

abbrev pub given {ℓ} : {A : Type ℓ} → Option A → Bool
given none = false
given (some a) = true

-- `integer(args.get("mask", (1 << bits) - 1))`
abbrev pub mask_or_all : ℕ → Option Argument → Result Problem ℤ
unfolding integer_of
mask_or_all bits none = ok (pos (2 ^ bits - 1))
mask_or_all bits (some mask) = integer_of mask

-- The action of a new rule at an address.
unfoldable pub new_action :
    Target → (base : ℕ) → (address : ℤ) → Args → Option Argument → Result Problem Action
unfolding integer_of register_bits rewritten_value instruction ◌-ℕ◌
new_action t base address args (some redirect_to) = do
  raise_if (given args.register || given args.value || given args.mask) both_actions
  destination ← integer_of redirect_to
  raise_if (same_ℤ destination address) same_address
  expected ← instruction t destination
  ok (redirect (destination -ℕ base) expected)
new_action t base address args none = do
  register ← some_or missing_field args.register
  bits ← register_bits register
  given_value ← some_or missing_field args.value
  value ← integer_of given_value
  mask ← mask_or_all bits args.mask
  checked ← rewritten_value 0 value mask bits
  ok (rewrite register value mask)

abbrev pub name_or_empty : Option (List ℕ) → List ℕ
name_or_empty none = []
name_or_empty (some name) = name

-- The rule that `add` makes, or the error that it raises.
unfoldable pub new_rule : Target → Bool → List Rule → Args → Result Problem Rule
unfolding check_stopped is_name has_name has_offset integer_of module_base instruction new_action
    ◌-ℕ◌
new_rule t enabled rules args = do
  check_stopped t
  raise_if enabled is_enabled
  raise_if args.others unknown_fields
  let name = name_or_empty args.name
  raise_if (not (is_name name)) bad_name
  raise_if (has_name name rules) name_exists
  addr ← some_or missing_field args.addr
  address ← integer_of addr
  base ← module_base t
  expected ← instruction t address
  raise_if (has_offset (address -ℕ base) rules) site_exists
  action ← new_action t base address args args.destination
  ok (record { name = name; offset = address -ℕ base; expected = expected; action = action })

-- What the defense asks of the debugger: a hardware breakpoint at an address, which it may refuse,
-- and its deletion.
pub record Breakpoints (S : Type 0) : Type 0 where
  pub create : ℤ → S → Option ℕ × S
  pub delete : ℕ → S → S

abbrev pub discard : ℕ → List ℕ → List ℕ
discard bid ids = select (λ i. not (i == bid)) ids

abbrev pub resaved : List Rule → Option (List Rule) → Option (List Rule)
resaved rules none = none
resaved rules (some old) = some rules

module _ {S : Type 0} where
  -- `_persist()`, with the rules it saves.
  unfoldable pub with_rules : List Rule → Timing S → Timing S
  with_rules rules d = record d { rules = rules; last_error = none; saved = resaved rules d.saved }

  unfoldable pub after_new : Timing S → Result Problem Rule → Result Problem Rule × Timing S
  unfolding with_rules
  after_new d (ok rule) = (ok rule, with_rules (d.rules ++ rule ∷ []) d)
  after_new d (err e) = (err e, d)

  -- `add(args)`
  unfoldable pub add : Target → Args → Timing S → Result Problem Rule × Timing S
  unfolding new_rule after_new
  add t args d = after_new d (new_rule t d.enabled d.rules args)

  unfoldable pub after_remove :
      List ℕ → Timing S → Result Problem (Unit {0}) → Result Problem (Unit {0}) × Timing S
  unfolding with_rules
  after_remove name d (ok u) = (ok u, with_rules (select (λ r. not (same r.name name)) d.rules) d)
  after_remove name d (err e) = (err e, d)

  -- `remove(name)`
  unfoldable pub remove : Target → List ℕ → Timing S → Result Problem (Unit {0}) × Timing S
  unfolding check_stopped has_name after_remove
  remove t name d = after_remove name d (
      check_stopped t
      >> raise_if d.enabled is_enabled
      >> raise_if (not (has_name name d.rules)) unknown_rule)

-- The action of a saved rule is still what it was.
unfoldable pub check_action :
    Target → (base : ℕ) → (address : ℤ) → Action → Result Problem (Unit {0})
unfolding instruction register_bits rewritten_value ◌+ℤ◌
check_action t base address (redirect offset expected) = do
  let destination = pos base +ℤ offset
  raise_if (same_ℤ destination address) redirect_changed
  there ← instruction t destination
  raise_if (not (same there expected)) redirect_changed
check_action t base address (rewrite register value mask) = do
  bits ← register_bits register
  checked ← rewritten_value 0 value mask bits
  ok tt

unfoldable pub has_site : ℤ → List ℤ → Bool
has_site site [] = false
has_site site (s ∷ sites) = same_ℤ s site || has_site site sites

unfoldable pub has_text : List ℕ → List (List ℕ) → Bool
has_text name [] = false
has_text name (n ∷ names) = same n name || has_text name names

-- `_validated_rules()` behind its first line, with the names and sites that it has met.
unfoldable pub validated_rules :
    Target → (base : ℕ) → List (List ℕ) → List ℤ → List Rule → Result Problem (List (Rule × ℤ))
unfolding is_name has_text has_site instruction check_action ◌+ℤ◌
validated_rules t base names sites [] = ok []
validated_rules t base names sites (rule ∷ rules) = do
  raise_if (not (is_name rule.name) || has_text rule.name names) duplicate_name
  let address = pos base +ℤ rule.offset
  raise_if (has_site address sites) duplicate_site
  here ← instruction t address
  raise_if (not (same here rule.expected)) changed
  check_action t base address rule.action
  rest ← validated_rules t base (rule.name ∷ names) (address ∷ sites) rules
  ok ((rule, address) ∷ rest)

unfoldable pub validated : Target → List Rule → Result Problem (List (Rule × ℤ))
unfolding module_base validated_rules
validated t rules = do base ← module_base t; validated_rules t base [] [] rules
