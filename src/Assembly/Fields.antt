-- ===== src/Assembly/Fields.antt =====
-- The fields of the words in macdbg/core/assembly.py that hold a distance.
use macdbg.Prelude.{
  ℕ, ◌+◌, ◌*◌, ◌/◌, ◌%◌, ◌<◌, ◌≡◌, refl, ◌∙◌, ap, Bool, true, false, not, some, List, ◌==◌, [], ◌∷◌,
  All, if◌then◌else◌, arith, Result, ok, err, Post,
}
use macdbg.Prelude.Int.{ℤ, pos, ◌+ℤ◌, times, wrap, fits, signed, signed-wrap, wrap_lt}
use macdbg.Bytes.{same}
use macdbg.Assembly.Text.{lookup}
use macdbg.Assembly.Encode.{Problem, some_or}
use macdbg.Assembly.Targets.{target, target-imm26, target-imm19, target-imm14, is_imm19}

-- What the word of a branch in words of `delta` at `pc` has: it is a word, and it leads there.
abbrev pub Leads : ℕ → ℤ → ℕ → Type 0
Leads pc delta word = (target pc word ≡ some (pos pc +ℤ times 4 delta)) × (word < 4294967296)

abbrev pub Reaches : ℕ → ℤ → Result Problem ℕ → Type 0
Reaches pc delta m = Post (λ e. Unit {0}) (Leads pc delta) m

-- A field that fits reads back, in a word that leads where its field says.
module _ (pc half : ℕ) (delta : ℤ) (word : ℕ) where
  pub Leads-wrap :
      target pc word ≡ some (pos pc +ℤ times 4 (signed half (wrap (2 * half) delta)))
      → fits half delta ≡ true
      → word < 4294967296
      → Leads pc delta word
  Leads-wrap t h small =
      (t ∙ ap (λ d. some (pos pc +ℤ times 4 d)) (signed-wrap half delta h), small)

pub not-false : (b : Bool) → not b ≡ false → b ≡ true
not-false true h = refl
not-false false h = cc

pub Post-any {ℓ} : {A : Type ℓ} → (m : Result Problem A) → Post (λ e. Unit {0}) (λ a. Unit {0}) m
Post-any (ok a) = tt
Post-any (err e) = tt

-- What holds of every value of a table holds of the one that is found.
pub lookup-Post {ℓ κ} :
    {A : Type ℓ} (P : A → Type κ) (e : Problem) (key : List ℕ) (table : List (List ℕ × A))
    → All (λ entry. P entry.1) table
    → Post (λ x. Unit {κ}) P (some_or e (lookup key table))
unfolding lookup
lookup-Post P e key [] h = tt
lookup-Post P e key ((name, value) ∷ table) h =
    by_key (same key name) (lookup-Post P e key table h.1)
  where
    by_key :
        (b : Bool)
        → Post (λ x. Unit) P (some_or e (lookup key table))
        → Post (λ x. Unit) P (some_or e (if b then some value else lookup key table))
    by_key true rest = h.0
    by_key false rest = rest

module _ (pc : ℕ) (delta : ℤ) where
  pub imm26-Leads :
      (k : ℕ)
      → (k % 32 == 5) ≡ true
      → k < 64
      → fits 33554432 delta ≡ true
      → Leads pc delta (k * 67108864 + wrap 67108864 delta)
  imm26-Leads k t small fit =
      let field = wrap_lt 67108864 delta (omega arith) in
      Leads-wrap pc 33554432 delta _ (target-imm26 pc k _ field t) fit (omega arith)

  pub imm19-Leads :
      (k c : ℕ)
      → c < 32
      → (k / 4 % 32 == 5) ≡ false
      → is_imm19 k ≡ true
      → k < 256
      → fits 262144 delta ≡ true
      → Leads pc delta (k * 16777216 + wrap 524288 delta * 32 + c)
  imm19-Leads k c h t t' small fit =
      let field = wrap_lt 524288 delta (omega arith) in
      Leads-wrap pc 262144 delta _ (target-imm19 pc k _ c field h t t') fit (omega arith)

  pub imm14-Leads :
      (k b c : ℕ)
      → b < 32
      → c < 32
      → (k / 4 % 32 == 5) ≡ false
      → is_imm19 k ≡ false
      → (k / 2 % 64 == 27) ≡ true
      → k < 256
      → fits 8192 delta ≡ true
      → Leads pc delta (k * 16777216 + b * 524288 + wrap 16384 delta * 32 + c)
  imm14-Leads k b c hb hc t t' t'' small fit =
      let field = wrap_lt 16384 delta (omega arith) in
      Leads-wrap pc 8192 delta _ (target-imm14 pc k b _ c hb field hc t t' t'') fit (omega arith)
