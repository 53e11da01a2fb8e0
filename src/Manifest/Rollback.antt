-- ===== src/Manifest/Rollback.antt =====
-- macdbg/core/patch_export.py: an import that cannot write all of its patches takes back those that
-- it wrote.
use macdbg.Prelude.{
  ℕ, zero, suc, ◌+◌, ◌≤◌, ◌<◌, ◌≡◌, refl, sym, ◌∙◌, true, false, List, [], ◌∷◌, arith, ltb, leb,
  ◌==◌, length, All, Bool-cases, inl, inr, ◌⊎◌,
}
use macdbg.Debugger.{Process, bytes_at, IsProcess, Debugger, Written, wrote, is_wrote, write_memory}
use macdbg.Debugger.Writes.{Apart, IsWrite, write_memory-IsWrite}
use macdbg.Manifest.{Checked, roll_back, failed_at}

pub Apart-cases :
    (address size at : ℕ) → Apart address size at ⊎ ((address ≤ at) × (at < address + size))
Apart-cases address size at = elim (Bool-cases (ltb at address)) [
  | inl below ↦ inl (inl (ground arith))
  | inr above ↦ elim (Bool-cases (leb (address + size) at)) [
    | inl beyond ↦ inl (inr (ground arith))
    | inr inside ↦ inr (ground arith, ground arith)
  ]
]

pub head_eq : (x y : ℕ) (xs ys : List ℕ) → x ∷ xs ≡ y ∷ ys → (x ≡ y) × (xs ≡ ys)
head_eq x y xs ys e = (cc, cc)

-- Where two memories have the same bytes in a range, they agree at each address of it.
bytes_at-agree :
    (f g : ℕ → ℕ) (address size at : ℕ)
    → bytes_at f address size ≡ bytes_at g address size
    → address ≤ at
    → at < address + size
    → f at ≡ g at
bytes_at-agree f g address zero at e le lt = let absurd : ⊥ = omega arith in elim absurd [ ]
bytes_at-agree f g address (suc size) at e le lt =
    let (here, rest) = head_eq (f address) (g address) _ _ e in
    elim (Bool-cases (at == address)) [
      | inl same ↦ let same : at ≡ address = ground arith in rw same here
      | inr other ↦
          let above : address + 1 ≤ at = ground arith in
          bytes_at-agree f g (address + 1) size at rest above (omega arith)
    ]

-- No write of these patches reaches the address.
abbrev pub Untouched : List Checked → ℕ → Type 0
Untouched checked at = All (λ c. Apart c.address (length c.original) at) checked

-- The patches were checked against this memory.
abbrev pub AreFrom : (ℕ → ℕ) → List Checked → Type 0
AreFrom f checked =
    All
      (λ c.
        (bytes_at f c.address (length c.original) ≡ c.original)
        × (length c.new ≡ length c.original))
      checked

module _ {M : Type 0} (p : Process M) (byte : M → ℕ → ℕ) (h : IsProcess p byte) where
  -- Writing the original bytes of a patch over it heals its range.
  healed :
      (f : ℕ → ℕ) (c : Checked) (d : Debugger M) (r : Written × Debugger M)
      → bytes_at f c.address (length c.original) ≡ c.original
      → IsWrite p byte false c.address c.original d r
      → is_wrote r.0 ≡ true
      → (at : ℕ) → (Apart c.address (length c.original) at → byte d.process at ≡ f at)
      → byte r.1.process at ≡ f at
  healed f c d r e k w at same = elim (Apart-cases c.address (length c.original) at) [
    | inl far ↦ k.untouched at far ∙ same far
    | inr (le, lt) ↦
        bytes_at-agree (byte r.1.process) f c.address (length c.original) at (k.landed w ∙ sym e) le
          lt
  ]

  failed_at-nil :
      (address : ℕ) (w : Written) (failed : List ℕ)
      → failed_at p address w failed ≡ []
      → (is_wrote w ≡ true) × (failed ≡ [])
  failed_at-nil address wrote failed e = (refl, e)
  failed_at-nil address _ failed e = cc

  -- If every write of the rollback succeeds, all of the memory is as it was.
  pub roll_back-restores :
      (f : ℕ → ℕ) (applied : List Checked) (d : Debugger M)
      → AreFrom f applied
      → ((at : ℕ) → Untouched applied at → byte d.process at ≡ f at)
      → (roll_back p applied d).0 ≡ []
      → (at : ℕ) → byte (roll_back p applied d).1.process at ≡ f at
  unfolding roll_back
  roll_back-restores f [] d from same e at = same at tt
  roll_back-restores f (c ∷ applied) d from same e at =
      let r = write_memory p false c.address c.original d in
      let k = write_memory-IsWrite p byte h false c.address c.original d in
      let (w, rest) = failed_at-nil c.address r.0 (roll_back p applied r.1).0 e in
      roll_back-restores f applied r.1 from.1
        (λ x far. healed f c d r from.0.0 k w x (λ away. same x (away, far))) rest at

  -- The rollback changes nothing outside of its patches, and never the list of patches.
  pub roll_back-leaves :
      (applied : List Checked) (d : Debugger M)
      → ((at : ℕ)
          → Untouched applied at
          → byte (roll_back p applied d).1.process at ≡ byte d.process at)
        × ((roll_back p applied d).1.patches ≡ d.patches)
  unfolding roll_back
  roll_back-leaves [] d = (λ at far. refl, refl)
  roll_back-leaves (c ∷ applied) d =
      let r = write_memory p false c.address c.original d in
      let k = write_memory-IsWrite p byte h false c.address c.original d in
      let (same, patches) = roll_back-leaves applied r.1 in
      (λ at far. same at far.1 ∙ k.untouched at far.0, patches ∙ k.untracked refl)
