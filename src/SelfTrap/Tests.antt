-- ===== src/SelfTrap/Tests.antt =====
-- A target that can be run, for macdbg/core/self_trap.py.
use macdbg.Prelude.{
  ℕ, ◌+◌, ◌≡◌, refl, ap, Bool, true, false, Option, none, some, List, [], ◌∷◌, ◌==◌, if◌then◌else◌,
  Result,
}
use macdbg.Bytes.{same, little, le_field}
use macdbg.Http.Text.{starts}
use macdbg.SelfTrap.{
  Register, x, same_register, Problem, Target, SelfTrap, Stop, brk, forward, complete, reset,
  restore, save, action, set_all, enter, dispatch, write_register, is_read, queried, after_buffer,
  unpacked, with_breakpoint, with_stack, after_restore, after_action, after_save, after_code,
  complete_entry,
}
use macdbg.SelfTrap.Restoring.{IsTarget, Unchanged}
use macdbg.SelfTrap.Completing.{forward-complete, forward-Unchanged}
use macdbg.SelfTrap.Owned.{IsOwner, Owning, drop_first}
use macdbg.SelfTrap.Reached.{begun, later, forwarded, completed, Reach-Owning}

-- Registers of one byte, and numbers for memory and breakpoints, given out in turn.
record Machine : Type 0 where
  value : Register → ℕ
  memory : List ℕ
  breakpoints : List ℕ
  next : ℕ

abbrev put : Register → ℕ → Machine → Machine
put n value m = record m { value = λ r. if same_register n r then value else m.value r }

-- `sigaction` answers the handler 4096, without a mask, with SA_RESTART; the query spoils x0, and the
-- handler every register.
abbrev machine : Target Machine
unfolding little
machine = record {
  register = λ n m. some (m.value n ∷ []);
  set_value = λ n value m. (true, put n value m);
  write_vector = λ n kept m. (true, put n (little kept) m);
  allocate = λ size m. (some m.next, record m { memory = m.next ∷ m.memory; next = m.next + 1 });
  deallocate = λ a m. record m { memory = drop_first a m.memory };
  query = λ a m. (true, put (x 0) 77 m);
  read_memory = λ a size m. some (
      if size == 4
      then brk
      else 0 ∷ 16 ∷ 0 ∷ 0 ∷ 0 ∷ 0 ∷ 0 ∷ 0 ∷ 0 ∷ 0 ∷ 0 ∷ 0 ∷ 2 ∷ 0 ∷ 0 ∷ 0 ∷ []);
  hardware =
      λ a m. (some m.next, record m { breakpoints = m.next ∷ m.breakpoints; next = m.next + 1 });
  for_thread = λ bid tid m. m;
  delete_breakpoint = λ bid m. record m { breakpoints = drop_first bid m.breakpoints };
  cont = λ m. record m { value = λ r. 99 };
}

abbrev owned : Machine → List ℕ × List ℕ
owned m = (m.memory, m.breakpoints)

abbrev taken : Option ℕ → ℕ
taken none = 0
taken (some n) = n

machine-IsTarget : IsTarget machine
unfolding machine
machine-IsTarget = record {
  sets = λ n m value w h. rw h refl;
  writes = λ n m kept w h. rw h refl;
  releases = λ m address w. refl;
  deletes = λ m bid w. refl;
}

some-none : {A : Type 0} (n : ℕ) → some n ≡ none → A
some-none n h = let absurd : ⊥ = cc in elim absurd [ ]

machine-IsOwner : IsOwner machine owned
unfolding machine
machine-IsOwner = record {
  sets = λ n value w. refl;
  writes = λ n kept w. refl;
  queries = λ address w. refl;
  restricts = λ bid tid w. refl;
  runs = λ w. refl;
  allocates = λ size w a h. ap (λ o. (taken o ∷ w.memory, w.breakpoints)) h;
  refuses = λ size w h. some-none w.next h;
  releases = λ a w. refl;
  creates = λ address w bid h. ap (λ o. (w.memory, taken o ∷ w.breakpoints)) h;
  declines = λ address w h. some-none w.next h;
  deletes = λ bid w. refl;
}

abbrev idle : SelfTrap Machine
idle = record {
  active = [];
  error = none;
  target = record { value = λ r. 7; memory = []; breakpoints = []; next = 100 };
}

abbrev trapped : Stop
trapped = record {
  tid = 1;
  is_exception = true;
  is_breakpoint = false;
  ids = [];
  address = 256;
  stack_pointer = 7;
  path = b'/' ∷ b'a' ∷ [];
}

-- The breakpoint is the third thing that is made, after the buffer and the stack.
abbrev returned : Stop
returned = record {
  tid = 1;
  is_exception = false;
  is_breakpoint = true;
  ids = 102 ∷ 1 ∷ [];
  address = 260;
  stack_pointer = 65616;
  path = [];
}

unfoldable in_handler : Result Problem (Option ℕ) × SelfTrap Machine
unfolding forward machine
in_handler = forward machine true trapped idle

unfoldable finished : Result Problem Bool × SelfTrap Machine
unfolding complete machine
finished = complete machine returned in_handler.1

forward-complete_example : Unchanged machine idle.target finished.1.target
unfolding machine forward complete in_handler finished same little le_field starts restore save
    action set_all enter dispatch write_register is_read queried after_buffer unpacked
    with_breakpoint with_stack after_restore after_action after_save after_code complete_entry
forward-complete_example =
    forward-complete machine machine-IsTarget true trapped returned idle in_handler.1 in_handler.1
      finished.1 4096 false refl refl refl refl

-- A target that ignores the signal.
abbrev ignoring : Target Machine
unfolding machine little
ignoring = record machine {
  read_memory = λ a size m. some (
      if size == 4
      then brk
      else 0 ∷ 0 ∷ 0 ∷ 0 ∷ 0 ∷ 0 ∷ 0 ∷ 0 ∷ 0 ∷ 0 ∷ 0 ∷ 0 ∷ 0 ∷ 0 ∷ 0 ∷ 0 ∷ []);
}

ignoring-IsTarget : IsTarget ignoring
unfolding machine ignoring
ignoring-IsTarget = record {
  sets = λ n m value w h. rw h refl;
  writes = λ n m kept w h. rw h refl;
  releases = λ m address w. refl;
  deletes = λ m bid w. refl;
}

forward-Unchanged_example :
    Unchanged ignoring idle.target (forward ignoring true trapped idle).1.target
    × ((forward ignoring true trapped idle).1.active ≡ idle.active)
unfolding machine ignoring forward same little le_field starts restore save action dispatch
    write_register is_read queried after_buffer unpacked after_restore after_action after_save
    after_code
forward-Unchanged_example =
    forward-Unchanged ignoring ignoring-IsTarget true trapped idle
      (forward ignoring true trapped idle).1 refl

Reach-Owning_example :
    Owning (owned idle.target) finished.1.active (owned finished.1.target)
    × (owned (reset machine true finished.1).target ≡ owned idle.target)
unfolding finished in_handler
Reach-Owning_example =
    Reach-Owning machine owned machine-IsOwner idle finished.1 refl
      (later (later begun (forwarded true trapped)) (completed returned))

-- In the handler the registers are other ones.
test-spoiled : in_handler.1.target.value (x 0) ≡ 99
unfolding machine forward complete in_handler same little le_field starts restore save action
    set_all enter dispatch write_register is_read queried after_buffer unpacked with_breakpoint
    with_stack after_restore after_action after_save after_code
test-spoiled = refl
