-- ===== src/Outbox/Drain.antt =====
-- The publisher of pkg/outbox when nothing fails, and the backlog.
use hire_flow.Prelude.{
  ℕ, ◌-◌, ◌*◌, ◌≤◌, ◌≡◌, refl, true, false, List, [], ◌∷◌, map, arith, if◌then◌else◌, ap,
}
use hire_flow.Prelude.Table.{length, contains, filter, sum_by, All}
use hire_flow.Prelude.Sorting.{
  sort_by, take, drop, sum_by-sort_by, sum_by-append, take-append-drop, length-drop, length-take,
}
use hire_flow.Prelude.Database.{durable}
use hire_flow.Outbox.{
  Entry, BatchEnv, acked, Sending, batch, is_unpublished, fetch_unpublished, mark_published,
  publish_all, publish_fetched, publish_batch, run,
}

-- every call of the batch works
pub record Works (env : BatchEnv) : Type 0 where
  pub begins : env.begin_fails ≡ false
  pub fetches : env.fetch_fails ≡ false
  pub marks : env.mark_fails ≡ false
  pub sends : (id : ℕ) → env.sending id ≡ acked
  pub commits : env.commit ≡ durable

module _ {E P : Type 0} where
  abbrev pub unpublished : List (Entry E P) → ℕ
  unpublished rows = length (filter is_unpublished rows)

  abbrev ids : List (Entry E P) → List ℕ
  ids rows = map (λ (e : Entry E P). e.id) rows

  -- 1 for a row that stays unpublished when the rows of `js` are marked
  abbrev left : List ℕ → Entry E P → ℕ
  left js e = if is_unpublished e then if contains e.id js then 0 else 1 else 0

  abbrev created : Entry E P → ℕ
  created e = e.created_at

  publish_all_acked :
      (s : ℕ → Sending) (es : List (Entry E P))
      → ((id : ℕ) → s id ≡ acked)
      → publish_all s es ≡ (ids es, es)
  unfolding publish_all
  publish_all_acked s [] h = refl
  publish_all_acked s (e ∷ es) h = ground (arith, h e.id, publish_all_acked s es h)

  unpublished-mark :
      (js : List ℕ) (now : ℕ) (rows : List (Entry E P))
      → unpublished (mark_published js now rows) ≡ sum_by (left js) rows
  unfolding mark_published
  unpublished-mark js now [] = refl
  unpublished-mark js now (e ∷ rows) = ground (arith, unpublished-mark js now rows)

  left-filter :
      (js : List ℕ) (rows : List (Entry E P))
      → sum_by (left js) (filter is_unpublished rows) ≡ sum_by (left js) rows
  left-filter js [] = refl
  left-filter js (e ∷ rows) = ground (arith, left-filter js rows)

  left-le : (js : List ℕ) (rows : List (Entry E P)) → sum_by (left js) rows ≤ length rows
  left-le js [] = omega arith
  left-le js (e ∷ rows) = ground (arith, left-le js rows)

  -- the rows whose ids are listed leave nothing
  left_of_ids :
      (js : List ℕ) (rows : List (Entry E P))
      → All (λ (e : Entry E P). contains e.id js ≡ true) rows
      → sum_by (left js) rows ≡ 0
  left_of_ids js [] h = refl
  left_of_ids js (e ∷ rows) h = ground (arith, left_of_ids js rows h.1)

  ids_weaken :
      (j : ℕ) (js : List ℕ) (rows : List (Entry E P))
      → All (λ (e : Entry E P). contains e.id js ≡ true) rows
      → All (λ (e : Entry E P). contains e.id (j ∷ js) ≡ true) rows
  ids_weaken j js [] h = tt
  ids_weaken j js (e ∷ rows) h = (ground arith, ids_weaken j js rows h.1)

  ids_contain :
      (rows : List (Entry E P)) → All (λ (e : Entry E P). contains e.id (ids rows) ≡ true) rows
  ids_contain [] = tt
  ids_contain (e ∷ rows) = (ground arith, ids_weaken e.id (ids rows) rows (ids_contain rows))

  sum_by-one : (rows : List (Entry E P)) → sum_by (λ e. 1) rows ≡ length rows
  sum_by-one [] = refl
  sum_by-one (e ∷ rows) = omega (arith, sum_by-one rows)

  length-sort_by : (rows : List (Entry E P)) → length (sort_by created rows) ≡ length rows
  length-sort_by rows = omega (
    arith,
    sum_by-one rows,
    sum_by-one (sort_by created rows),
    sum_by-sort_by created (λ e. 1) rows,
  )

  marked_page :
      (now : ℕ) (rows : List (Entry E P))
      → unpublished (mark_published (ids (fetch_unpublished batch rows)) now rows)
        ≤ unpublished rows - batch
  unfolding fetch_unpublished
  marked_page now rows =
      let queue = sort_by created (filter is_unpublished rows) in
      let page = take batch queue in
      let js = ids page in
      omega (
        arith,
        unpublished-mark js now rows,
        left-filter js rows,
        sum_by-sort_by created (left js) (filter is_unpublished rows),
        ap (sum_by (left js)) (take-append-drop batch queue),
        sum_by-append (left js) page (drop batch queue),
        left_of_ids js page (ids_contain page),
        left-le js (drop batch queue),
        length-drop batch queue,
        length-sort_by (filter is_unpublished rows),
      )

  fetched_empty :
      (rows : List (Entry E P)) → fetch_unpublished batch rows ≡ [] → unpublished rows ≡ 0
  unfolding fetch_unpublished
  fetched_empty rows e =
      let queue = sort_by created (filter is_unpublished rows) in
      omega
        (arith, ap length e, length-take batch queue, length-sort_by (filter is_unpublished rows))

  publish_fetched-Works :
      (env : BatchEnv) (es rows : List (Entry E P))
      → Works env
      → fetch_unpublished batch rows ≡ es
      → unpublished (publish_fetched env es rows).1 ≤ unpublished rows - batch
  publish_fetched-Works env [] rows ok e = omega (arith, fetched_empty rows e)
  publish_fetched-Works env (x ∷ es) rows ok e =
      ground (arith, publish_all_acked env.sending (x ∷ es) ok.sends, marked_page env.now rows)

  -- A batch whose calls all work publishes a full batch, or all that is left.
  pub publish_batch-Works :
      (env : BatchEnv) (rows : List (Entry E P))
      → Works env
      → unpublished (publish_batch env rows).1 ≤ unpublished rows - batch
  unfolding publish_batch
  publish_batch-Works env rows ok =
      ground (arith, publish_fetched-Works env (fetch_unpublished batch rows) rows ok refl)

  -- The publisher empties the outbox: after as many working batches as the backlog has hundreds,
  -- rounded up, no row is unpublished.
  pub run_drains :
      (envs : List BatchEnv) (rows : List (Entry E P))
      → All Works envs
      → unpublished rows ≤ batch * length envs
      → unpublished (run envs rows).0 ≡ 0
  unfolding run
  run_drains [] rows ok h = omega arith
  run_drains (env ∷ envs) rows ok h =
      run_drains envs (publish_batch env rows).1 ok.1
        (omega (arith, publish_batch-Works env rows ok.0))
