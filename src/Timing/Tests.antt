-- ===== src/Timing/Tests.antt =====
-- Runs of macdbg/core/timing.py, and the theorems about it at those runs.
use macdbg.Prelude.{
  ℕ, suc, ◌+◌, ◌≡◌, ◌≢◌, refl, true, false, Option, none, some, List, [], ◌∷◌, ◌++◌, All, arith, ok,
  subst, ap, ◌∙◌,
}
use macdbg.Prelude.Bits.{bit}
use macdbg.Prelude.Int.{pos}
use macdbg.Bytes.{same}
use macdbg.Timing.{Timing, Args, Breakpoints, discard, add}
use macdbg.Timing.Rules.{Target, number, rewritten_value}
use macdbg.Timing.Digits.{chosen, rewritten_value-digits}
use macdbg.Timing.Arming.{enable}
use macdbg.Timing.Owned.{IsBreakpoints, AllOrNothing, enable-AllOrNothing}
use macdbg.Timing.Stops.{Thread, breakpoint, wrote, apply_stop}

masked : rewritten_value 0xabcd (pos 0x30) (pos 0xf0) 32 ≡ ok 0xab3d
unfolding rewritten_value
masked = refl

rewritten_value-digits_example : bit 4 0xab3d ≡ chosen 0xabcd 0x30 0xf0 32 4
rewritten_value-digits_example = rewritten_value-digits 0xabcd 0x30 0xf0 32 masked 4

-- A target with one instruction at 4096.
abbrev target : Target
target = record {
  stopped = true;
  stepping = false;
  valid = true;
  arm64 = true;
  loaded = true;
  base = 4096;
  has_text = true;
  start = 4096;
  size = 64;
  read_memory = λ address. 1 ∷ 2 ∷ 3 ∷ 4 ∷ [];
}

abbrev empty : Timing (List ℕ)
empty = record {
  debugger = 7 ∷ [];
  hardware_ids = [];
  saved = none;
  rules = [];
  enabled = false;
  last_error = none;
  hooks = [];
  handled = [];
  hits = [];
}

abbrev args : Args
args = record {
  others = false;
  name = some (b'a' ∷ []);
  addr = some (number (pos 4100));
  register = some (b'x' ∷ b'1' ∷ []);
  value = some (number (pos 5));
  mask = none;
  destination = none;
}

-- A debugger that numbers its breakpoints from the largest on.
abbrev above : List ℕ → ℕ
above [] = 0
above (i ∷ ids) = suc i + above ids

abbrev breakpoints : Breakpoints (List ℕ)
breakpoints = record {
  create = λ address ids. (some (above ids), ids ++ above ids ∷ []);
  delete = λ bid ids. discard bid ids;
}

above_fresh : (n : ℕ) (ids : List ℕ) → All (λ i. i ≢ n + above ids) ids
above_fresh n [] = tt
above_fresh n (i ∷ ids) =
    let sum : n + suc i + above ids ≡ n + (suc i + above ids) = omega arith in
    (omega arith, subst (λ m. All (λ j. j ≢ m) ids) sum (above_fresh (n + suc i) ids))

breakpoints-IsBreakpoints : IsBreakpoints breakpoints (λ ids. ids)
breakpoints-IsBreakpoints = record {
  refuses = λ address s h. cc;
  creates = λ address s bid h. by_bid s bid h;
  deletes = λ bid s. refl;
}
  where
    sum : (s : List ℕ) → 0 + above s ≡ above s
    sum s = omega arith

    by_bid :
        (s : List ℕ) (bid : ℕ)
        → ◌≡◌ {A = Option ℕ} (some (above s)) (some bid)
        → (s ++ above s ∷ [] ≡ s ++ bid ∷ []) × All (λ i. i ≢ bid) s
    by_bid s bid h =
        let e : above s ≡ bid = cc in
        (ap (λ i. s ++ i ∷ []) e, subst (λ i. All (λ j. j ≢ i) s) (sum s ∙ e) (above_fresh 0 s))

abbrev ready : Timing (List ℕ)
unfolding add
ready = (add target args empty).1

enable-AllOrNothing_example :
    AllOrNothing breakpoints
      (λ ids. ids)
      breakpoints-IsBreakpoints
      ready
      (enable breakpoints target false (λ d. (none, d)) ready)
unfolding add
enable-AllOrNothing_example =
    enable-AllOrNothing breakpoints (λ ids. ids) breakpoints-IsBreakpoints target false
      (λ d. (none, d)) ready refl refl refl

abbrev thread : Thread
thread = record {
  tid = 11;
  reason = breakpoint;
  ids = 8 ∷ [];
  has_frame = true;
  pc = 4100;
  jump = λ destination. true;
  register = λ r. ok 9;
  set = λ r value. true;
  after = λ r value. some value;
}

abbrev armed : Timing (List ℕ)
unfolding add enable
armed = (enable breakpoints target false (λ d. (none, d)) ready).1

first_stop :
    (apply_stop true 4096 1 2 (thread ∷ []) armed).1.acts ≡ (b'a' ∷ [], 11, wrote 1 9 5) ∷ []
unfolding add enable apply_stop same
first_stop = refl
