-- ===== src/ReturnHooks.antt =====
-- macdbg/core/return_hooks.py: `ReturnHooks`, the breakpoints on the returns of observed calls.
pub mod Ownership
pub mod Completion
mod Tests
use macdbg.Prelude.{
  ℕ, ◌+◌, ◌≡◌, ◌≢◌, Bool, true, false, not, ◌&&◌, Option, none, some, List, [], ◌∷◌, ◌++◌, map, leb,
  ◌==◌, if◌then◌else◌, length, select, All,
}

-- A row of the dictionary `pending`: the breakpoint's number, and what the call will be known by.
pub record Hook (P : Type 0) : Type 0 where
  pub bid : ℕ
  pub tid : ℕ
  pub sp : ℕ
  pub address : ℕ
  pub payload : P
  pub invocation : ℕ

abbrev pub bids : {P : Type 0} → List (Hook P) → List ℕ
bids [] = []
bids (h ∷ hooks) = h.bid ∷ bids hooks

-- What the hooks ask of the debugger, in a state `S`: a hardware breakpoint at an address for a
-- thread, which it may refuse, its deletion, and the note of a return that `breakpoints.py` keeps.
pub record Breakpoints (S : Type 0) : Type 0 where
  pub create : (address tid : ℕ) → S → Option ℕ × S
  pub delete : ℕ → S → S
  pub remember : ℕ → S → S

-- `del self.pending[bid]`, and the same of a list of numbers.
unfoldable pub forget : {P : Type 0} → ℕ → List (Hook P) → List (Hook P)
forget bid hooks = select (λ h. not (h.bid == bid)) hooks

abbrev pub without_id : ℕ → List ℕ → List ℕ
without_id bid ids = select (λ i. not (i == bid)) ids

-- What the debugger promises: `hardware` are its breakpoints; a new one has a new number.
pub record IsBreakpoints {S : Type 0} (b : Breakpoints S) (hardware : S → List ℕ) : Type 0 where
  pub refuses :
      (address tid : ℕ) (s : S)
      → (b.create address tid s).0 ≡ none
      → hardware (b.create address tid s).1 ≡ hardware s
  pub creates :
      (address tid : ℕ) (s : S) (bid : ℕ)
      → (b.create address tid s).0 ≡ some bid
      → (hardware (b.create address tid s).1 ≡ hardware s ++ bid ∷ [])
        × All (λ i. i ≢ bid) (hardware s)
  pub deletes : (bid : ℕ) (s : S) → hardware (b.delete bid s) ≡ without_id bid (hardware s)
  pub remembers : (bid : ℕ) (s : S) → hardware (b.remember bid s) ≡ hardware s

-- The object, with the state of its debugger; `pending` has the oldest hook first.
pub record ReturnHooks (S P : Type 0) : Type 0 where
  pub debugger : S
  pub limit : ℕ
  pub pending : List (Hook P)
  pub sequence : ℕ
  pub retired : List ℕ

pub data Armed : Type 0 where
  armed : (sequence : ℕ) → Armed
  limit_reached no_return_address refused : Armed

-- The frame and the stop that the hooks look at.
pub record Frame : Type 0 where
  pub lr : ℕ
  pub tid : ℕ
  pub sp : ℕ
  pub pc : ℕ
  pub is_breakpoint : Bool

abbrev pub reversed : {P : Type 0} → List (Hook P) → List (Hook P)
reversed [] = []
reversed (h ∷ hooks) = reversed hooks ++ h ∷ []

-- `for bid in …: delete_breakpoint(bid)`
unfoldable pub delete_all : {S : Type 0} → Breakpoints S → List ℕ → S → S
delete_all b [] s = s
delete_all b (bid ∷ ids) s = delete_all b ids (b.delete bid s)

-- A hook that this stop completes.
unfoldable pub completes : {P : Type 0} → Frame → Hook P → Bool
completes frame h = h.tid == frame.tid && h.address == frame.pc && h.sp == frame.sp

module _ {S P : Type 0} (b : Breakpoints S) where
  -- `clear()`
  unfoldable pub clear : ReturnHooks S P → ReturnHooks S P
  unfolding delete_all
  clear r = record r {
    debugger = delete_all b (bids r.pending) r.debugger;
    pending = [];
    retired = [];
  }

  unfoldable pub arm_at : Frame → P → ReturnHooks S P → Option ℕ × S → Armed × ReturnHooks S P
  arm_at frame payload r (none, s) = (refused, record r { debugger = s })
  arm_at frame payload r (some bid, s) = (
    armed (r.sequence + 1),
    record r {
      debugger = s;
      sequence = r.sequence + 1;
      pending =
          r.pending
          ++ record {
            bid = bid;
            tid = frame.tid;
            sp = frame.sp;
            address = frame.lr;
            payload = payload;
            invocation = r.sequence + 1;
          }
            ∷ [];
    },
  )

  -- `arm(frame, payload)`
  unfoldable pub arm : Frame → P → ReturnHooks S P → Armed × ReturnHooks S P
  unfolding arm_at
  arm frame payload r =
      if leb r.limit (length r.pending)
      then (limit_reached, r)
      else if frame.lr == 0
      then (no_return_address, r)
      else arm_at frame payload r (b.create frame.lr frame.tid r.debugger)

  -- `for bid, _ in matches`
  unfoldable pub retire : List (Hook P) → ReturnHooks S P → ReturnHooks S P
  unfolding forget
  retire [] r = r
  retire (h ∷ matches) r = retire matches (record r {
    debugger = b.delete h.bid (b.remember h.bid r.debugger);
    pending = forget h.bid r.pending;
  })

  unfoldable pub consume_matches : List (Hook P) → ReturnHooks S P → List (Hook P) × ReturnHooks S P
  unfolding retire
  consume_matches [] r = ([], r)
  consume_matches (h ∷ matches) r =
      (reversed (h ∷ matches), retire (h ∷ matches) (record r { retired = bids (h ∷ matches) }))

  -- `consume(thread)`
  unfoldable pub consume : Frame → ReturnHooks S P → List (Hook P) × ReturnHooks S P
  unfolding completes consume_matches
  consume frame r =
      if not frame.is_breakpoint
      then ([], r)
      else consume_matches (select (completes frame) r.pending) r
