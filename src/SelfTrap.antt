-- ===== src/SelfTrap.antt =====
-- macdbg/core/self_trap.py: `SelfTrapForwarder`, which runs the handler that a target has installed for
-- SIGTRAP and gives the trapped thread its registers back.
pub mod Restoring
pub mod Forwarding
pub mod Completing
pub mod Owned
pub mod Entering
pub mod Reached
mod Tests
use macdbg.Prelude.{
  ℕ, zero, suc, ◌+◌, ◌-◌, ◌*◌, ◌/◌, ◌%◌, Bool, true, false, not, ◌&&◌, ◌||◌, Option, none, some,
  List, [], ◌∷◌, ◌++◌, ◌==◌, if◌then◌else◌, length, Result, ok, err,
}
use macdbg.Bytes.{same, little, le_field}
use macdbg.Http.Text.{starts}

-- The registers that are kept: x0 to x28, v0 to v31 and the named ones, and `pc`.
pub data Register : Type 0 where
  x : ℕ → Register
  v : ℕ → Register
  fp lr sp cpsr fpsr fpcr pc : Register

abbrev pub same_register : Register → Register → Bool
same_register (x i) (x j) = i == j
same_register (v i) (v j) = i == j
same_register fp fp = true
same_register lr lr = true
same_register sp sp = true
same_register cpsr cpsr = true
same_register fpsr fpsr = true
same_register fpcr fpcr = true
same_register pc pc = true
same_register _ _ = false

-- `name.startswith('v')`
abbrev pub is_vector : Register → Bool
is_vector (v i) = true
is_vector _ = false

-- `[name + str(i) for i in range(first, first + count)]`
abbrev pub numbered : (ℕ → Register) → (first count : ℕ) → List Register
numbered name first zero = []
numbered name first (suc count) = name first ∷ numbered name (first + 1) count

abbrev pub names : List Register
names = numbered x 0 29 ++ (fp ∷ lr ∷ sp ∷ cpsr ∷ fpsr ∷ fpcr ∷ []) ++ numbered v 0 32

pub data Problem : Type 0 where
  no_query_buffer no_action unreadable short_action nested unsupported_action no_stack
        no_breakpoint :
      Problem
  cannot_enter unrestored_stack : Problem
  cannot_preserve cannot_restore : Register → Problem

abbrev pub Saved : Type 0
Saved = List (Register × List ℕ)

pub record Entry : Type 0 where
  pub bp : ℕ
  pub address : ℕ
  pub stack : ℕ
  pub top : ℕ
  pub registers : Saved

-- What the forwarder asks of LLDB, about the trapped thread and its process in a state `W`. `register` has
-- the bytes of a valid register that is read whole, `query` runs the sigaction expression into a buffer,
-- and `none` stands for a call that fails.
pub record Target (W : Type 0) : Type 0 where
  pub register : Register → W → Option (List ℕ)
  pub set_value : Register → ℕ → W → Bool × W
  pub write_vector : Register → List ℕ → W → Bool × W
  pub allocate : ℕ → W → Option ℕ × W
  pub deallocate : ℕ → W → W
  pub query : ℕ → W → Bool × W
  pub read_memory : (address size : ℕ) → W → Option (List ℕ)
  pub hardware : ℕ → W → Option ℕ × W
  pub for_thread : (bid tid : ℕ) → W → W
  pub delete_breakpoint : ℕ → W → W
  pub cont : W → W

-- The object, with the state of its target; `active` is by thread.
pub record SelfTrap (W : Type 0) : Type 0 where
  pub active : List (ℕ × Entry)
  pub error : Option Problem
  pub target : W

-- What a stopped thread shows.
pub record Stop : Type 0 where
  pub tid : ℕ
  pub is_exception : Bool
  pub is_breakpoint : Bool
  pub ids : List ℕ
  pub address : ℕ
  pub stack_pointer : ℕ
  pub path : List ℕ

abbrev pub system_library : List ℕ
system_library =
    b'/' ∷ b'S' ∷ b'y' ∷ b's' ∷ b't' ∷ b'e' ∷ b'm' ∷ b'/' ∷ b'L' ∷ b'i' ∷ b'b' ∷ b'r' ∷ b'a' ∷ b'r'
    ∷ b'y' ∷ b'/' ∷ []

abbrev pub usr_lib : List ℕ
usr_lib = b'/' ∷ b'u' ∷ b's' ∷ b'r' ∷ b'/' ∷ b'l' ∷ b'i' ∷ b'b' ∷ b'/' ∷ []

-- `brk #0`
abbrev pub brk : List ℕ
brk = 0 ∷ 0 ∷ 32 ∷ 212 ∷ []

abbrev pub find_entry : ℕ → List (ℕ × Entry) → Option Entry
find_entry tid [] = none
find_entry tid ((t, e) ∷ active) =
    let rest = find_entry tid active in if t == tid then some e else rest

abbrev pub remove_entry : ℕ → List (ℕ × Entry) → List (ℕ × Entry)
remove_entry tid [] = []
remove_entry tid ((t, e) ∷ active) =
    let rest = remove_entry tid active in if t == tid then active else (t, e) ∷ rest

-- `entry['bp'] in ids` and `ids == {entry['bp']}`
abbrev pub is_among : ℕ → List ℕ → Bool
is_among bid [] = false
is_among bid (i ∷ ids) = i == bid || is_among bid ids

abbrev pub is_only : ℕ → List ℕ → Bool
is_only bid [] = true
is_only bid (i ∷ ids) = i == bid && is_only bid ids

abbrev pub is_read : List ℕ → Option (List ℕ) → Bool
unfolding same
is_read expected none = false
is_read expected (some data_read) = same data_read expected

-- `flags & ~2`
abbrev pub without_restart : ℕ → ℕ
without_restart flags = flags - 2 * (flags / 2 % 2)

module _ {W : Type 0} (t : Target W) where
  abbrev pub write_register : Register → List ℕ → W → Bool × W
  unfolding little
  write_register name kept w =
      if is_vector name then t.write_vector name kept w else t.set_value name (little kept) w

  -- `_restore`: every register is written, read back and compared.
  unfoldable pub restore : Saved → SelfTrap W → Option Problem × SelfTrap W
  unfolding same little
  restore [] s = (none, s)
  restore ((name, kept) ∷ registers) s =
      let (success, w) = write_register name kept s.target in
      let rest = restore registers (record s { target = w }) in
      if success && is_read kept (t.register name w)
      then rest
      else (some (cannot_restore name), record s { error = some (cannot_restore name); target = w })

  -- The loop of `forward` that keeps the registers.
  abbrev pub keep : Register → Option (List ℕ) → Result Problem Saved → Result Problem Saved
  keep name none rest = err (cannot_preserve name)
  keep name (some kept) (err e) = err e
  keep name (some kept) (ok registers) = ok ((name, kept) ∷ registers)

  unfoldable pub save : List Register → W → Result Problem Saved
  save [] w = ok []
  save (name ∷ rest) w = keep name (t.register name w) (save rest w)

  abbrev pub unpacked : Option (List ℕ) → Result Problem (ℕ × ℕ × ℕ)
  unfolding le_field
  unpacked none = err unreadable
  unpacked (some block) =
      if not (length block == 16)
      then err short_action
      else ok (le_field 0 8 block, le_field 8 4 block, le_field 12 4 block)

  abbrev pub queried : (address : ℕ) → Bool × W → Result Problem (ℕ × ℕ × ℕ) × W
  unfolding le_field
  queried address (false, w) = (err no_action, t.deallocate address w)
  queried address (true, w) = (unpacked (t.read_memory address 16 w), t.deallocate address w)

  abbrev pub after_buffer : Option ℕ × W → Result Problem (ℕ × ℕ × ℕ) × W
  unfolding le_field
  after_buffer (none, w) = (err no_query_buffer, w)
  after_buffer (some address, w) = queried address (t.query address w)

  -- `_action`
  unfoldable pub action : W → Result Problem (ℕ × ℕ × ℕ) × W
  unfolding le_field
  action w = after_buffer (t.allocate 16 w)

  -- The registers that lead into the handler, set one after the other.
  unfoldable pub set_all : List (Register × ℕ) → W → Bool × W
  set_all [] w = (true, w)
  set_all ((name, value) ∷ values) w =
      let (success, w') = t.set_value name value w in
      let rest = set_all values w' in if success then rest else (false, w')

  abbrev pub after_set :
      (handler : ℕ)
      → List (ℕ × Entry)
      → Bool × W
      → SelfTrap W
      → Result Problem (Option ℕ) × SelfTrap W
  after_set handler active (false, w) s =
      (err cannot_enter, record { active = active; error = some cannot_enter; target = w })
  after_set handler active (true, w) s =
      (ok (some handler), record s { active = active; target = t.cont w })

  unfoldable pub enter :
      (handler : ℕ) → Stop → Entry → SelfTrap W → Result Problem (Option ℕ) × SelfTrap W
  unfolding set_all
  enter handler stop e s =
      after_set handler ((stop.tid, e) ∷ s.active)
        (set_all ((sp, e.top) ∷ (x 0, 5) ∷ (lr, e.address) ∷ (pc, handler) ∷ [])
          (t.for_thread e.bp stop.tid s.target))
        s

  abbrev pub with_breakpoint :
      (handler : ℕ)
      → Stop
      → Saved
      → (stack : ℕ) → SelfTrap W
      → Option ℕ × W
      → Result Problem (Option ℕ) × SelfTrap W
  unfolding enter
  with_breakpoint handler stop registers stack s (none, w) =
      (err no_breakpoint, record s { target = t.deallocate stack w })
  with_breakpoint handler stop registers stack s (some bid, w) =
      enter handler stop
        (record {
          bp = bid;
          address = stop.address + 4;
          stack = stack;
          top = (stack + 65536 - 16) / 16 * 16;
          registers = registers;
        })
        (record s { target = w })

  abbrev pub with_stack :
      (handler : ℕ)
      → Stop
      → Saved
      → SelfTrap W
      → Option ℕ × W
      → Result Problem (Option ℕ) × SelfTrap W
  unfolding enter
  with_stack handler stop registers s (none, w) = (err no_stack, record s { target = w })
  with_stack handler stop registers s (some stack, w) =
      with_breakpoint handler stop registers stack s (t.hardware (stop.address + 4) w)

  -- What `forward` does with the action of the target.
  unfoldable pub dispatch :
      (handler mask flags : ℕ) → Stop → Saved → SelfTrap W → Result Problem (Option ℕ) × SelfTrap W
  unfolding enter
  dispatch handler mask flags stop registers s =
      if handler == 0 || handler == 1
      then (ok none, s)
      else if not (mask == 0) || not (without_restart flags == 0)
      then (err unsupported_action, s)
      else with_stack handler stop registers s (t.allocate 65536 s.target)

  abbrev pub after_restore :
      Stop
      → Saved
      → Result Problem (ℕ × ℕ × ℕ)
      → Option Problem × SelfTrap W
      → Result Problem (Option ℕ) × SelfTrap W
  unfolding dispatch
  after_restore stop registers result (some e, s) = (err e, s)
  after_restore stop registers (err e) (none, s) = (err e, s)
  after_restore stop registers (ok (handler, mask, flags)) (none, s) =
      dispatch handler mask flags stop registers s

  abbrev pub after_action :
      Stop
      → Saved
      → SelfTrap W
      → Result Problem (ℕ × ℕ × ℕ) × W
      → Result Problem (Option ℕ) × SelfTrap W
  unfolding restore dispatch
  after_action stop registers s (result, w) =
      after_restore stop registers result (restore registers (record s { target = w }))

  abbrev pub after_save :
      Stop → Result Problem Saved → SelfTrap W → Result Problem (Option ℕ) × SelfTrap W
  unfolding action restore dispatch
  after_save stop (err e) s = (err e, s)
  after_save stop (ok registers) s = after_action stop registers s (action s.target)

  abbrev pub after_code :
      Stop → Option (List ℕ) → SelfTrap W → Result Problem (Option ℕ) × SelfTrap W
  unfolding action restore dispatch save same
  after_code stop none s = (err unreadable, s)
  after_code stop (some code) s =
      if not (same code brk)
      then (ok none, s)
      else if not (length s.active == 0)
      then (err nested, s)
      else after_save stop (save names s.target) s

  -- `forward`; `on` is the debugger's switch, and the answer the address of the handler that was entered.
  unfoldable pub forward : (on : Bool) → Stop → SelfTrap W → Result Problem (Option ℕ) × SelfTrap W
  unfolding action restore dispatch save same starts
  forward on stop s =
      if not on || not stop.is_exception
      then (ok none, s)
      else if starts system_library stop.path || starts usr_lib stop.path
      then (ok none, s)
      else after_code stop (t.read_memory stop.address 4 s.target) s

  abbrev pub after_return :
      Stop → Entry → Option Problem × SelfTrap W → Result Problem Bool × SelfTrap W
  after_return stop e (some problem, s) = (err problem, s)
  after_return stop e (none, s) = (
    ok (is_only e.bp stop.ids),
    record s {
      active = remove_entry stop.tid s.active;
      target = t.deallocate e.stack (t.delete_breakpoint e.bp s.target);
    },
  )

  abbrev pub complete_entry : Stop → Option Entry → SelfTrap W → Result Problem Bool × SelfTrap W
  unfolding restore
  complete_entry stop none s = (ok false, s)
  complete_entry stop (some e) s =
      if not stop.is_breakpoint
      then (ok false, s)
      else if not (is_among e.bp stop.ids) || not (stop.address == e.address)
      then (ok false, s)
      else if not (stop.stack_pointer == e.top)
      then (err unrestored_stack, s)
      else after_return stop e (restore e.registers s)

  -- `complete`
  unfoldable pub complete : Stop → SelfTrap W → Result Problem Bool × SelfTrap W
  unfolding restore
  complete stop s = complete_entry stop (find_entry stop.tid s.active) s

  abbrev pub release : (valid : Bool) → List (ℕ × Entry) → W → W
  release valid [] w = w
  release valid ((tid, e) ∷ active) w =
      let w' = t.delete_breakpoint e.bp w in
      release valid active (if valid then t.deallocate e.stack w' else w')

  -- `reset`
  unfoldable pub reset : (valid : Bool) → SelfTrap W → SelfTrap W
  reset valid s = record { active = []; error = none; target = release valid s.active s.target }
