-- ===== src/Outbox/Delivery.antt =====
-- What the publisher of pkg/outbox sends and what it marks.
use hire_flow.Prelude.{
  ℕ, ◌≤◌, ◌≡◌, refl, ◌⊎◌, inl, inr, Bool-cases, Bool, true, false, List, [], ◌∷◌, map, arith,
  if◌then◌else◌,
}
use hire_flow.Prelude.Table.{length, contains, filter, All}
use hire_flow.Prelude.Sorting.{
  sort_by, IsSorted, sort_by-IsSorted, IsSorted-take, All-take, All-sort_by, length-take,
}
use hire_flow.Outbox.{
  Entry, BatchEnv, BatchResult, Sending, batch, is_sent, is_unpublished, fetch_unpublished,
  mark_published, publish_all, close_batch, publish_fetched, publish_batch,
}

module _ {E P : Type 0} where
  abbrev pub ids : List (Entry E P) → List ℕ
  ids rows = map (λ (e : Entry E P). e.id) rows

  -- How a batch may change the rows: row by row, only `published_at` is set, and only in a row whose
  -- id is among `js`.
  abbrev pub Marked : List ℕ → List (Entry E P) → List (Entry E P) → Type 0
  Marked js [] [] = Unit
  Marked js [] (_ ∷ _) = ⊥
  Marked js (_ ∷ _) [] = ⊥
  Marked js (e ∷ rows) (e' ∷ rows') =
      ((e' ≡ e)
        ⊎ (contains e.id js ≡ true)
          × (e' ≡ record e { published_at = e'.published_at })
          × (is_unpublished e' ≡ false))
      × Marked js rows rows'

  pub Marked-same : (js : List ℕ) (rows : List (Entry E P)) → Marked js rows rows
  Marked-same js [] = tt
  Marked-same js (e ∷ rows) = (inl refl, Marked-same js rows)

  -- every acknowledged entry was sent
  acked_sent :
      (s : ℕ → Sending) (es : List (Entry E P)) (id : ℕ)
      → contains id (publish_all s es).0 ≡ true
      → contains id (ids (publish_all s es).1) ≡ true
  unfolding publish_all
  acked_sent s [] id h = cc
  acked_sent s (e ∷ es) id h = ground (arith, acked_sent s es id)

  mark_published-Marked :
      (js ks : List ℕ) (now : ℕ) (rows : List (Entry E P))
      → ((id : ℕ) → contains id ks ≡ true → contains id js ≡ true)
      → Marked js rows (mark_published ks now rows)
  unfolding mark_published
  mark_published-Marked js ks now [] sub = tt
  mark_published-Marked js ks now (e ∷ rows) sub =
      (ground (arith, sub e.id), mark_published-Marked js ks now rows sub)

  close_batch-Marked :
      (env : BatchEnv) (js ks : List ℕ) (rows : List (Entry E P))
      → ((id : ℕ) → contains id ks ≡ true → contains id js ≡ true)
      → Marked js rows (close_batch env ks rows).1
  close_batch-Marked env js [] rows sub = ground (arith, Marked-same js rows)
  close_batch-Marked env js (k ∷ ks) rows sub =
      ground (arith, Marked-same js rows, mark_published-Marked js (k ∷ ks) env.now rows sub)

  publish_fetched-Marked :
      (env : BatchEnv) (es rows : List (Entry E P))
      → Marked (ids (publish_fetched env es rows).2) rows (publish_fetched env es rows).1
  publish_fetched-Marked env [] rows = Marked-same [] rows
  publish_fetched-Marked env (e ∷ es) rows =
      close_batch-Marked env (ids (publish_all env.sending (e ∷ es)).1)
        (publish_all env.sending (e ∷ es)).0 rows (acked_sent env.sending (e ∷ es))

  pub publish_batch-Marked :
      (env : BatchEnv) (rows : List (Entry E P))
      → Marked (ids (publish_batch env rows).2) rows (publish_batch env rows).1
  unfolding publish_batch
  publish_batch-Marked env rows =
      ground
        (arith, Marked-same [] rows, publish_fetched-Marked env (fetch_unpublished batch rows) rows)

  abbrev pub created : Entry E P → ℕ
  created e = e.created_at

  abbrev pub Unpublished : List (Entry E P) → Type 0
  Unpublished = All (λ (e : Entry E P). is_unpublished e ≡ true)

  abbrev kept : Bool → Entry E P → List (Entry E P) → List (Entry E P)
  kept b e es = if b then e ∷ es else es

  All-kept :
      (Q : Entry E P → Type 0) (b : Bool) (e : Entry E P) (es : List (Entry E P))
      → Q e
      → All Q es
      → All Q (kept b e es)
  All-kept Q true e es q h = (q, h)
  All-kept Q false e es q h = h

  All-publish_all :
      (Q : Entry E P → Type 0) (s : ℕ → Sending) (es : List (Entry E P))
      → All Q es
      → All Q (publish_all s es).1
  unfolding publish_all
  All-publish_all Q s [] h = tt
  All-publish_all Q s (e ∷ es) h =
      All-kept Q (is_sent (s e.id)) e (publish_all s es).1 h.0 (All-publish_all Q s es h.1)

  All-filter :
      (Q : Entry E P → Type 0) (rows : List (Entry E P))
      → All (λ (e : Entry E P). is_unpublished e ≡ true → Q e) rows
      → All (λ (e : Entry E P). Q e × (is_unpublished e ≡ true)) (filter is_unpublished rows)
  All-filter Q [] h = tt
  All-filter Q (e ∷ rows) h = elim (Bool-cases (is_unpublished e)) [
    | inl waits ↦ rw waits ((h.0 waits, waits), All-filter Q rows h.1)
    | inr published ↦ rw published (All-filter Q rows h.1)
  ]

  publish_fetched-All :
      (Q : Entry E P → Type 0) (env : BatchEnv) (es rows : List (Entry E P))
      → All Q es
      → All Q (publish_fetched env es rows).2
  publish_fetched-All Q env [] rows h = tt
  publish_fetched-All Q env (e ∷ es) rows h = All-publish_all Q env.sending (e ∷ es) h

  -- What holds of the rows that wait, holds of all that one batch sends.
  pub publish_batch-All :
      (Q : Entry E P → Type 0) (env : BatchEnv) (rows : List (Entry E P))
      → All (λ (e : Entry E P). is_unpublished e ≡ true → Q e) rows
      → All (λ (e : Entry E P). Q e × (is_unpublished e ≡ true)) (publish_batch env rows).2
  unfolding publish_batch fetch_unpublished
  publish_batch-All Q env rows h = begun env.begin_fails env.fetch_fails
    where
      begun :
          (b f : Bool)
          → All
              (λ (e : Entry E P). Q e × (is_unpublished e ≡ true))
              (if b
                then (BatchResult.failed, rows, [])
                else if f
                then (BatchResult.failed, rows, [])
                else publish_fetched env (fetch_unpublished batch rows) rows).2
      begun true f = tt
      begun false true = tt
      begun false false =
          publish_fetched-All (λ e. Q e × (is_unpublished e ≡ true)) env
            (fetch_unpublished batch rows) rows
            (All-take _ batch (sort_by created (filter is_unpublished rows))
              (All-sort_by created _ (filter is_unpublished rows) (All-filter Q rows h)))

  IsSorted-kept :
      (b : Bool) (e : Entry E P) (es : List (Entry E P))
      → All (λ (x : Entry E P). e.created_at ≤ x.created_at) es
      → IsSorted created es
      → IsSorted created (kept b e es)
  IsSorted-kept true e es low h = (low, h)
  IsSorted-kept false e es low h = h

  publish_all-IsSorted :
      (s : ℕ → Sending) (es : List (Entry E P))
      → IsSorted created es
      → IsSorted created (publish_all s es).1
  unfolding publish_all
  publish_all-IsSorted s [] h = tt
  publish_all-IsSorted s (e ∷ es) h =
      IsSorted-kept (is_sent (s e.id)) e (publish_all s es).1
        (All-publish_all (λ (x : Entry E P). e.created_at ≤ x.created_at) s es h.0)
        (publish_all-IsSorted s es h.1)

  length-publish_all :
      (s : ℕ → Sending) (es : List (Entry E P)) → length (publish_all s es).1 ≤ length es
  unfolding publish_all
  length-publish_all s [] = omega arith
  length-publish_all s (e ∷ es) = ground (arith, length-publish_all s es)

  filter-Unpublished : (rows : List (Entry E P)) → Unpublished (filter is_unpublished rows)
  filter-Unpublished [] = tt
  filter-Unpublished (e ∷ rows) = ground (arith, filter-Unpublished rows)

  -- What may go out in one batch.
  abbrev pub IsBatch : List (Entry E P) → Type 0
  IsBatch es = IsSorted created es × Unpublished es × (length es ≤ batch)

  fetch_unpublished-IsBatch : (rows : List (Entry E P)) → IsBatch (fetch_unpublished batch rows)
  unfolding fetch_unpublished
  fetch_unpublished-IsBatch rows =
      let pending = filter is_unpublished rows in
      let queue = sort_by created pending in
      (
        IsSorted-take created batch queue (sort_by-IsSorted created pending),
        All-take _ batch queue (
            All-sort_by created (λ (e : Entry E P). is_unpublished e ≡ true) pending
              (filter-Unpublished rows)),
        omega (arith, length-take batch queue),
      )

  publish_fetched-IsBatch :
      (env : BatchEnv) (es rows : List (Entry E P))
      → IsBatch es
      → IsBatch (publish_fetched env es rows).2
  publish_fetched-IsBatch env [] rows h = (tt, tt, omega arith)
  publish_fetched-IsBatch env (e ∷ es) rows h = (
    publish_all-IsSorted env.sending (e ∷ es) h.0,
    All-publish_all (λ (x : Entry E P). is_unpublished x ≡ true) env.sending (e ∷ es) h.1,
    omega (arith, length-publish_all env.sending (e ∷ es)),
  )

  -- Whatever fails in a batch, the broker receives its entries in the order of their creation, at
  -- most a hundred of them, and none that was already marked as published.
  pub publish_batch-IsBatch :
      (env : BatchEnv) (rows : List (Entry E P)) → IsBatch (publish_batch env rows).2
  unfolding publish_batch
  publish_batch-IsBatch env rows = ground (
    arith,
    publish_fetched-IsBatch env (fetch_unpublished batch rows) rows
        (fetch_unpublished-IsBatch rows),
  )
