-- ===== src/Manifest/Apply.antt =====
-- macdbg/core/patch_export.py: what the writes of an import leave in the memory.
use macdbg.Prelude.{
  ◌≢◌, ℕ, suc, ◌+◌, ◌≡◌, refl, ap, fun_ext, ◌∙◌, Bool, true, false, Option, none, some, List, [],
  ◌∷◌, arith, ◌==◌, length, Bool-cases, inl, inr, Result, ok, err,
}
use macdbg.Patches as Patches
use macdbg.Debugger.{
  Process, bytes_at, IsProcess, Debugger, Written, is_wrote, write_memory, record_patch,
}
use macdbg.Debugger.Writes.{
  poke, Apart, IsWrite, write_memory-IsWrite, SameProcess, record_patch-process,
}
use macdbg.Manifest.{
  Checked, Problem, refused, rollback_failed, not_recorded, apply_writes, roll_back, record_patches,
  rolled_back, after_writes, apply_checked,
}
use macdbg.Manifest.Rollback.{
  Apart-cases, head_eq, Untouched, AreFrom, roll_back-restores, roll_back-leaves,
}

-- A memory after all patches are written.
unfoldable pub overlay : List Checked → (ℕ → ℕ) → ℕ → ℕ
unfolding poke
overlay [] f = f
overlay (c ∷ checked) f = overlay checked (poke c.address c.new f)

Apart-none : (address at : ℕ) → Apart address 0 at
Apart-none address at = elim (Apart-cases address 0 at) [
  | inl far ↦ far
  | inr (le, lt) ↦ let absurd : ⊥ = omega arith in elim absurd [ ]
]

Apart-suc :
    (address size at : ℕ) → at ≢ address → Apart (address + 1) size at → Apart address (suc size) at
Apart-suc address size at other (inl below) = inl (omega (arith, other))
Apart-suc address size at other (inr beyond) = inr (omega arith)

poke_lem :
    (address : ℕ) (bytes : List ℕ) (f g : ℕ → ℕ) (at : ℕ)
    → bytes_at g address (length bytes) ≡ bytes
    → (Apart address (length bytes) at → g at ≡ f at)
    → g at ≡ poke address bytes f at
unfolding poke
poke_lem address [] f g at landed far = far (Apart-none address at)
poke_lem address (b ∷ bytes) f g at landed far = elim (Bool-cases (at == address)) [
  | inl here ↦
      let same : at ≡ address = ground arith in
      rw here (ap g same ∙ (head_eq (g address) b _ bytes landed).0)
  | inr other ↦
      let ne : at ≢ address = ground arith in
      rw other (
        poke_lem (address + 1) bytes f g at (head_eq (g address) b _ bytes landed).1
          λ away. far (Apart-suc address (length bytes) at ne away))
]

module _ {M : Type 0} (p : Process M) (byte : M → ℕ → ℕ) (h : IsProcess p byte) where
  -- After the loop of writes over patches that were checked against the memory `f`.
  pub record Applied (f : ℕ → ℕ) (checked applied : List Checked) (d : Debugger M)
      (r : Option Written × List Checked × Debugger M) : Type 0 where
    pub undone : (at : ℕ) → Untouched r.1 at → byte r.2.process at ≡ f at
    pub from : AreFrom f r.1
    pub patches : r.2.patches ≡ d.patches
    pub within : (at : ℕ) → Untouched checked at → Untouched applied at → Untouched r.1 at
    pub all : r.0 ≡ none → (at : ℕ) → byte r.2.process at ≡ overlay checked (byte d.process) at

  apply_writes-Applied :
      (f : ℕ → ℕ) (checked applied : List Checked) (d : Debugger M)
      → AreFrom f checked
      → AreFrom f applied
      → ((at : ℕ) → Untouched applied at → byte d.process at ≡ f at)
      → Applied f checked applied d (apply_writes p checked applied d)
  unfolding apply_writes overlay
  apply_writes-Applied f [] applied d from done same = record {
    undone = same;
    from = done;
    patches = refl;
    within = λ at far away. away;
    all = λ e at. refl;
  }
  apply_writes-Applied f (c ∷ checked) applied d from done same =
      by_answer (is_wrote r.0) refl
        (apply_writes-Applied f checked (c ∷ applied) r.1 from.1 (from.0, done) after)
    where
      r : Written × Debugger M
      r = write_memory p false c.address c.new d

      k : IsWrite p byte false c.address c.new d r
      k = write_memory-IsWrite p byte h false c.address c.new d

      after : (at : ℕ) → Untouched (c ∷ applied) at → byte r.1.process at ≡ f at
      after at far =
          let far' : Apart c.address (length c.new) at = rw from.0.1 far.0 in
          k.untouched at far' ∙ same at far.1

      by_answer :
          (b : Bool)
          → is_wrote r.0 ≡ b
          → Applied f checked (c ∷ applied) r.1 (apply_writes p checked (c ∷ applied) r.1)
          → Applied f (c ∷ checked) applied d (elim b [
            | true ↦ apply_writes p checked (c ∷ applied) r.1
            | false ↦ (some r.0, c ∷ applied, r.1)
          ])
      by_answer true w ih = record {
        undone = ih.undone;
        from = ih.from;
        patches = ih.patches ∙ k.untracked refl;
        within = λ at far away. ih.within at far.1 (far.0, away);
        all = λ e at.
            ih.all e at
            ∙ ap (λ m. overlay checked m at)
                (fun_ext λ x.
                  poke_lem c.address c.new (byte d.process) (byte r.1.process) x (k.landed w)
                    (k.untouched x));
      }
      by_answer false w ih = record {
        undone = after;
        from = (from.0, done);
        patches = k.untracked refl;
        within = λ at far away. (far.0, away);
        all = λ e. cc;
      }

  -- What the answers of `apply_checked` mean for patches that were checked.
  abbrev pub AfterApply :
      List Checked → Debugger M → Result Problem (Unit {0}) × Debugger M → Type 0
  AfterApply checked d (ok u, d') =
      (at : ℕ) → byte d'.process at ≡ overlay checked (byte d.process) at
  AfterApply checked d (err (refused w), d') =
      ((at : ℕ) → byte d'.process at ≡ byte d.process at) × (d'.patches ≡ d.patches)
  AfterApply checked d (err (rollback_failed w failed), d') =
      ((at : ℕ) → Untouched checked at → byte d'.process at ≡ byte d.process at)
      × (d'.patches ≡ d.patches)
  AfterApply checked d (err (not_recorded e), d') =
      (at : ℕ) → byte d'.process at ≡ overlay checked (byte d.process) at
  AfterApply checked d (err _, d') = ⊥

  record_patches-AfterApply :
      (checked written : List Checked) (d d' : Debugger M)
      → ((at : ℕ) → byte d'.process at ≡ overlay checked (byte d.process) at)
      → AfterApply checked d (record_patches p written d')
  unfolding record_patches
  record_patches-AfterApply checked [] d d' h = h
  record_patches-AfterApply checked (c ∷ written) d d' h =
      by_record (record_patch c.address c.original c.new d')
        (record_patch-process c.address c.original c.new d')
        λ d'' same. record_patches-AfterApply checked written d d'' λ at. rw same (h at)
    where
      by_record :
          (o : Result Patches.Error (Debugger M))
          → SameProcess d' o
          → ((d'' : Debugger M)
              → d''.process ≡ d'.process
              → AfterApply checked d (record_patches p written d''))
          → AfterApply checked d (elim o [
            | ok d'' ↦ record_patches p written d''
            | err e ↦ (err (not_recorded e), d')
          ])
      by_record (ok d'') same rest = rest d'' same
      by_record (err e) same rest = h

  pub apply_checked-AfterApply :
      (checked : List Checked) (d : Debugger M)
      → AreFrom (byte d.process) checked
      → AfterApply checked d (apply_checked p checked d)
  unfolding apply_checked after_writes
  apply_checked-AfterApply checked d from =
      by_writes (apply_writes p checked [] d)
        (apply_writes-Applied (byte d.process) checked [] d from tt λ at far. refl)
    where
      by_rollback :
          (w : Written) (applied : List Checked) (d' : Debugger M) (o : List ℕ × Debugger M)
          → Applied (byte d.process) checked [] d (some w, applied, d')
          → (o.0 ≡ [] → (at : ℕ) → byte o.1.process at ≡ byte d.process at)
          → ((at : ℕ) → Untouched applied at → byte o.1.process at ≡ byte d'.process at)
          → o.1.patches ≡ d'.patches
          → AfterApply checked d (rolled_back p w o)
      by_rollback w applied d' ([], d'') k all far same = (all refl, same ∙ k.patches)
      by_rollback w applied d' (a ∷ failed, d'') k all far same = (
        λ at away. let reached = k.within at away tt in far at reached ∙ k.undone at reached,
        same ∙ k.patches,
      )

      by_writes :
          (r : Option Written × List Checked × Debugger M)
          → Applied (byte d.process) checked [] d r
          → AfterApply checked d (after_writes p checked r)
      by_writes (none, applied, d') k = record_patches-AfterApply checked checked d d' (k.all refl)
      by_writes (some w, applied, d') k =
          let (far, same) = roll_back-leaves p byte h applied d' in
          by_rollback w applied d' (roll_back p applied d') k
            (λ e. roll_back-restores p byte h (byte d.process) applied d' k.from k.undone e) far
            same
