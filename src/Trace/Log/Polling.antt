-- ===== src/Trace/Log/Polling.antt =====
-- macdbg/core/trace_log.py: what a client that polls `snapshot` may conclude.
use macdbg.Prelude.{
  ℕ, ◌+◌, ◌≤◌, ◌≡◌, refl, sym, ap, subst, ◌∙◌, Bool, List, [], ◌∷◌, ◌++◌, arith, ltb, length,
  length-append, select,
}
use macdbg.Trace.Log.{Row, TraceLog}
use macdbg.Trace.Log.{first_available, snapshot}
use macdbg.Trace.Log.Invariant.{IsLog, Numbered}

select-append :
    {A : Type 0} (test : A → Bool) (xs ys : List A)
    → select test (xs ++ ys) ≡ select test xs ++ select test ys
select-append test [] ys = refl
select-append test (x ∷ xs) ys = ground (arith, select-append test xs ys)

module _ {D : Type 0} where
  abbrev since_test : ℕ → Row D → Bool
  since_test since r = ltb since r.n

  -- No row of a numbered list that ends at `since` is newer.
  select-old :
      (since k : ℕ) (rows more : List (Row D))
      → Numbered k (rows ++ more)
      → k + length rows ≤ since + 1
      → select (since_test since) rows ≡ []
  select-old since k [] more h e = refl
  select-old since k (r ∷ rows) more h e =
      let ih = select-old since (k + 1) rows more h.1 (omega arith) in ground (arith, ih, h.0)

  Numbered-drop :
      (k : ℕ) (rows : List (Row D)) (r : Row D) (more : List (Row D))
      → Numbered k (rows ++ r ∷ more)
      → r.n ≡ k + length rows
  Numbered-drop k [] r more h = omega (arith, h.0)
  Numbered-drop k (q ∷ rows) r more h = omega (arith, Numbered-drop (k + 1) rows r more h.1)

  module _ (dumps : Row D → List ℕ) (history : List (Row D)) (log : TraceLog D)
      (h : IsLog dumps history log) where
    -- The first row that is still there follows all that were dropped.
    first_available_lem : first_available log ≡ 1 + length h.older
    unfolding first_available
    first_available_lem = go log.rows refl
      where
        go :
            (rows : List (Row D))
            → log.rows ≡ rows
            → elim rows [ [] ↦ log.count + 1 | r ∷ rest ↦ r.n ] ≡ 1 + length h.older
        go [] e =
            omega (arith, h.counted, ap length h.split, length-append h.older log.rows, ap length e)
        go (r ∷ rest) e =
            Numbered-drop 1 h.older r rest
              (subst (λ xs. Numbered 1 (h.older ++ xs)) e (subst (Numbered 1) h.split h.numbered))

    -- A client that asks from a row number no older than the row before `first_available` is given
    -- exactly the rows of the whole history behind that number, and the number of all rows.
    pub snapshot_complete :
        (since : ℕ)
        → (snapshot since log).first_available ≤ since + 1
        → ((snapshot since log).hits ≡ select (λ r. ltb since r.n) history)
          × ((snapshot since log).total ≡ length history)
    unfolding snapshot
    snapshot_complete since fresh =
        let numbered = subst (Numbered 1) h.split h.numbered in
        let old =
          select-old since 1 h.older log.rows numbered (omega (arith, first_available_lem)) in
        let parts = select-append (since_test since) h.older log.rows in
        let all = ap (select (since_test since)) h.split in (sym (all ∙ parts ∙ rw old), h.counted)
