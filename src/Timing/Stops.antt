-- ===== src/Timing/Stops.antt =====
-- macdbg/core/timing.py: `apply_stop`, what the rules do at a stop.
use macdbg.Prelude.{
  ℕ, ◌+◌, Bool, true, false, not, ◌&&◌, ◌||◌, Option, none, some, List, [], ◌∷◌, ◌++◌, ◌==◌,
  if◌then◌else◌, select, Result, ok, err, ◌>>=◌, ◌>>◌, raise_if,
}
use macdbg.Prelude.Int.{ℤ, pos, ◌+ℤ◌}
use macdbg.Bytes.{same}
use macdbg.Http.Text.{any, decimal}
use macdbg.Timing.{Hook, Key, Timing, same_ℤ}
use macdbg.Timing.Rules.{
  Problem, cannot_redirect, register_write, register_verify, register_bits, rewritten_value, Action,
  rewrite, redirect, Rule,
}

-- The reasons that the code tells apart.
pub data Reason : Type 0 where
  nothing invalid breakpoint plan_complete other_reason : Reason

-- A thread at the stop, with the answers of LLDB to what is done to it: `jump` is whether the program
-- counter could be set and reads back, `register` the number in a register or why there is none,
-- `set` whether a register could be set, and `after` what it reads back then.
pub record Thread : Type 0 where
  pub tid : ℕ
  pub reason : Reason
  pub ids : List ℕ
  pub has_frame : Bool
  pub pc : ℕ
  pub jump : ℤ → Bool
  pub register : ℕ → Result Problem ℕ
  pub set : ℕ → ℕ → Bool
  pub after : ℕ → ℕ → Option ℕ

-- What a rule did to a thread.
pub data Act : Type 0 where
  jumped : (destination : ℤ) → Act
  wrote : (register old value : ℕ) → Act

abbrev pub reads_back : ℕ → Option ℕ → Bool
reads_back value none = false
reads_back value (some actual) = actual == value

-- `int(name[1:])` of a register that `register_bits` accepts.
unfoldable pub register_number : List ℕ → ℕ
unfolding decimal
register_number [] = 0
register_number (letter ∷ digits) = decimal 0 digits

-- The action of a rule on a thread; `base` is the load address of the module.
unfoldable pub perform : (base : ℕ) → Thread → Action → Result Problem Act
unfolding register_bits rewritten_value register_number ◌+ℤ◌
perform base thread (redirect offset expected) =
    raise_if (not (thread.jump (pos base +ℤ offset))) cannot_redirect
    >> ok (jumped (pos base +ℤ offset))
perform base thread (rewrite name value mask) = do
  bits ← register_bits name
  let register = register_number name
  old ← thread.register register
  new ← rewritten_value old value mask bits
  raise_if (not (thread.set register new)) register_write
  raise_if (not (reads_back new (thread.after register new))) register_verify
  ok (wrote register old new)

unfoldable pub same_key : Key → Key → Bool
same_key a b = a.pid == b.pid && a.stop == b.stop && a.tid == b.tid && a.bid == b.bid

unfoldable pub is_handled : Key → List Key → Bool
unfolding same_key
is_handled key [] = false
is_handled key (k ∷ handled) = same_key key k || is_handled key handled

-- `self.hits[name] = self.hits.get(name, 0) + 1`
unfoldable pub count_hit : List ℕ → List (List ℕ × ℕ) → List (List ℕ × ℕ)
count_hit name [] = (name, 1) ∷ []
count_hit name ((n, k) ∷ hits) =
    let rest = count_hit name hits in if same n name then (n, k + 1) ∷ hits else (n, k) ∷ rest

-- The hooks whose address is the program counter.
unfoldable pub hooks_at : ℕ → List Hook → List Hook
hooks_at pc hooks = select (λ h. same_ℤ h.address (pos pc)) hooks

unfoldable pub has_hook : List Hook → ℕ → Bool
unfolding any
has_hook hooks bid = any (λ h. h.bid == bid) hooks

abbrev pub is_breakpoint : Reason → Bool
is_breakpoint breakpoint = true
is_breakpoint _ = false

-- The reasons that do not make a stop somebody else's.
abbrev pub is_quiet : Reason → Bool
is_quiet nothing = true
is_quiet invalid = true
is_quiet breakpoint = true
is_quiet _ = false

abbrev pub is_applied : Reason → Bool
is_applied breakpoint = true
is_applied plan_complete = true
is_applied _ = false

-- `bool(ids - hidden) or reason not in (…)`
unfoldable pub is_foreign : List Hook → Thread → Bool
unfolding any has_hook
is_foreign hooks thread =
    is_breakpoint thread.reason && any (λ i. not (has_hook hooks i)) thread.ids
    || not (is_quiet thread.reason)

-- The locals of the loop over the threads, with the object; `acts` stands for the messages.
pub record Round (S : Type 0) : Type 0 where
  pub acts : List (List ℕ × ℕ × Act)
  pub matched : Bool
  pub foreign : Bool
  pub timing : Timing S

abbrev pub key_of : (pid stop : ℕ) → Thread → Hook → Key
key_of pid stop thread h = record { pid = pid; stop = stop; tid = thread.tid; bid = h.bid }

-- `{key for key in self._handled if key[:2] == (…)}`
unfoldable pub of_stop : (pid stop : ℕ) → List Key → List Key
of_stop pid stop handled = select (λ k. k.pid == pid && k.stop == stop) handled

module _ {S : Type 0} where
  unfoldable pub after_act : Key → (tid : ℕ) → Rule → Act → Round S → Round S
  unfolding count_hit
  after_act key tid rule act r = record r {
    acts = r.acts ++ (rule.name, tid, act) ∷ [];
    timing = record r.timing {
      handled = key ∷ r.timing.handled;
      hits = count_hit rule.name r.timing.hits;
    };
  }

  abbrev pub failed_round : Problem → Round S → Round S
  failed_round e r = record r { timing = record r.timing { last_error = some e } }

  -- `for bid, rule in hooks`: the error that is raised, if one is.
  unfoldable pub apply_hooks :
      (base pid stop : ℕ) → Thread → List Hook → Round S → Option Problem × Round S
  unfolding perform is_handled after_act
  apply_hooks base pid stop thread [] r = (none, r)
  apply_hooks base pid stop thread (h ∷ hooks) r =
      elim (is_handled (key_of pid stop thread h) r.timing.handled) [
        | true ↦ apply_hooks base pid stop thread hooks (record r { matched = true })
        | false ↦ elim (perform base thread h.rule.action) [
          | err e ↦ (some e, failed_round e (record r { matched = true }))
          | ok act ↦ apply_hooks base pid stop thread hooks (
              after_act (key_of pid stop thread h) thread.tid h.rule act
                (record r { matched = true }))
        ]
      ]

  -- The thread with its part of `foreign`, if its reason is one at which rules apply.
  unfoldable pub apply_thread : (base pid stop : ℕ) → Thread → Round S → Option Problem × Round S
  unfolding is_foreign hooks_at apply_hooks
  apply_thread base pid stop thread r =
      let seen : Round S = record r { foreign = r.foreign || is_foreign r.timing.hooks thread } in
      if not thread.has_frame
      then (none, r)
      else if not (is_applied thread.reason)
      then (none, seen)
      else apply_hooks base pid stop thread (hooks_at thread.pc r.timing.hooks) seen

  -- `for thread in process`
  unfoldable pub apply_threads :
      (base pid stop : ℕ) → List Thread → Round S → Option Problem × Round S
  unfolding apply_thread
  apply_threads base pid stop [] r = (none, r)
  apply_threads base pid stop (thread ∷ threads) r = elim (apply_thread base pid stop thread r).0 [
    | some e ↦ (some e, (apply_thread base pid stop thread r).1)
    | none ↦ apply_threads base pid stop threads (apply_thread base pid stop thread r).1
  ]

  unfoldable pub begin_stop : (pid stop : ℕ) → Timing S → Round S
  unfolding of_stop
  begin_stop pid stop d = record {
    acts = [];
    matched = false;
    foreign = false;
    timing = record d { handled = of_stop pid stop d.handled };
  }

  -- `apply_stop()`, of rules that `require_ready` has found ready: the error, or none, with what was
  -- done; a stop is the rules' own where `matched` holds and `foreign` does not.
  unfoldable pub apply_stop :
      (stopped : Bool) → (base pid stop : ℕ) → List Thread → Timing S → Option Problem × Round S
  unfolding begin_stop apply_threads
  apply_stop stopped base pid stop threads d =
      let idle : Round S = record { acts = []; matched = false; foreign = false; timing = d } in
      let applied = apply_threads base pid stop threads (begin_stop pid stop d) in
      if not d.enabled || not stopped then (none, idle) else applied

  abbrev pub is_ours : Round S → Bool
  is_ours r = r.matched && not r.foreign
