-- ===== src/Outbox/Arrival.antt =====
-- What the publisher of pkg/outbox sends in a run of batches.
use mathlib.Core.Bool.{false≢true}
use mathlib.Core.Path.{subst}
use hire_flow.Prelude.{
  ℕ, ◌*◌, ◌≤◌, ◌≡◌, refl, sym, ap, ◌∙◌, inl, inr, ◌⊎◌, true, false, ◌||◌, List, [], ◌∷◌, ◌++◌,
  arith, none, ◌==◌, Bool-cases,
}
use hire_flow.Prelude.Table.{
  length, contains, All, All-Memᴰ, All-weaken, Memᴰ-all, Keyed, Keyed-same, find, find-none,
}
use hire_flow.Prelude.Paging.{map-append, All-append}
use mathlib.Core.List.{Memᴰ}
use hire_flow.Outbox.{Entry, BatchEnv, batch, is_unpublished, entry_key, publish_batch, run}
use hire_flow.Outbox.Delivery.{ids, Marked, Marked-same, publish_batch-Marked, publish_batch-All}
use hire_flow.Outbox.Drain.{Works, unpublished, run_drains}

pub contains-append :
    (k : ℕ) (js ks : List ℕ) → contains k (js ++ ks) ≡ (contains k js || contains k ks)
contains-append k [] ks = refl
contains-append k (j ∷ js) ks = ground (arith, contains-append k js ks)

module _ {E P : Type 0} where
  -- how one row may change
  abbrev Kept : List ℕ → Entry E P → Entry E P → Type 0
  Kept js e e' =
      (e' ≡ e)
      ⊎ (contains e.id js ≡ true)
        × (e' ≡ record e { published_at = e'.published_at })
        × (is_unpublished e' ≡ false)

  Kept-id : (js : List ℕ) (e e' : Entry E P) → Kept js e e' → e'.id ≡ e.id
  Kept-id js e e' (inl same) = ap (λ (x : Entry E P). x.id) same
  Kept-id js e e' (inr (sent, is, published)) = ap (λ (x : Entry E P). x.id) is

  Kept-trans :
      (js ks : List ℕ) (a b c : Entry E P) → Kept js a b → Kept ks b c → Kept (js ++ ks) a c
  Kept-trans js ks a b c p q = ground (arith, contains-append a.id js ks)

  Marked-trans :
      (js ks : List ℕ) (a b c : List (Entry E P))
      → Marked js a b
      → Marked ks b c
      → Marked (js ++ ks) a c
  Marked-trans js ks [] [] [] p q = tt
  Marked-trans js ks [] [] (z ∷ c) p q = absurd q
  Marked-trans js ks [] (y ∷ b) c p q = absurd p
  Marked-trans js ks (x ∷ a) [] c p q = absurd p
  Marked-trans js ks (x ∷ a) (y ∷ b) [] p q = absurd q
  Marked-trans js ks (x ∷ a) (y ∷ b) (z ∷ c) p q =
      (Kept-trans js ks x y z p.0 q.0, Marked-trans js ks a b c p.1 q.1)

  -- what `publish_batch-Marked` says of one batch holds of any number
  run-Marked :
      (envs : List BatchEnv) (rows : List (Entry E P))
      → Marked (ids (run envs rows).1) rows (run envs rows).0
  unfolding run
  run-Marked [] rows = Marked-same [] rows
  run-Marked (env ∷ envs) rows =
      let (result, rows', sent) = publish_batch env rows in
      let (rows'', later) = run envs rows' in
      subst (λ js. Marked js rows rows'') (sym (map-append (λ (e : Entry E P). e.id) sent later))
        (Marked-trans (ids sent) (ids later) rows rows' rows'' (publish_batch-Marked env rows)
          (run-Marked envs rows'))

  waiting_sent :
      (js : List ℕ) (e : Entry E P)
      → (is_unpublished e ≡ false) ⊎ (contains e.id js ≡ true)
      → is_unpublished e ≡ true
      → contains e.id js ≡ true
  waiting_sent js e (inl published) waits = absurd (false≢true (sym published ∙ waits))
  waiting_sent js e (inr sent) waits = sent

  pub Marked-All :
      (Q : Entry E P → Type 0) (js : List ℕ) (rows after : List (Entry E P))
      → Marked js rows after
      → All (λ (e : Entry E P). is_unpublished e ≡ true → Q e) rows
      → All (λ (e : Entry E P). is_unpublished e ≡ true → Q e) after
  Marked-All Q js [] [] m h = tt
  Marked-All Q js [] (_ ∷ _) m h = absurd m
  Marked-All Q js (_ ∷ _) [] m h = absurd m
  Marked-All Q js (e ∷ rows) (e' ∷ after) m h = (kept m.0, Marked-All Q js rows after m.1 h.1)
    where
      kept : Kept js e e' → is_unpublished e' ≡ true → Q e'
      kept (inl same) = subst (λ x. is_unpublished x ≡ true → Q x) (sym same) h.0
      kept (inr (sent, is, published)) = λ waits. absurd (false≢true (sym published ∙ waits))

  Marked-find :
      (js : List ℕ) (k : ℕ) (rows after : List (Entry E P))
      → Marked js rows after
      → find entry_key k rows ≡ none
      → find entry_key k after ≡ none
  Marked-find js k [] [] m h = refl
  Marked-find js k [] (_ ∷ _) m h = absurd m
  Marked-find js k (_ ∷ _) [] m h = absurd m
  Marked-find js k (e ∷ rows) (e' ∷ after) m h =
      let same = Kept-id js e e' m.0 in ground (arith, same, Marked-find js k rows after m.1)

  pub Marked-Keyed :
      (js : List ℕ) (rows after : List (Entry E P))
      → Marked js rows after
      → Keyed entry_key rows
      → Keyed entry_key after
  Marked-Keyed js [] [] m h = tt
  Marked-Keyed js [] (_ ∷ _) m h = absurd m
  Marked-Keyed js (_ ∷ _) [] m h = absurd m
  Marked-Keyed js (e ∷ rows) (e' ∷ after) m h = (
    subst (λ k. find entry_key k after ≡ none) (sym (Kept-id js e e' m.0))
        (Marked-find js e.id rows after m.1 h.0),
    Marked-Keyed js rows after m.1 h.1,
  )

  sent_of_empty :
      (js : List ℕ) (rows after : List (Entry E P))
      → Marked js rows after
      → unpublished after ≡ 0
      → All (λ (e : Entry E P). (is_unpublished e ≡ false) ⊎ (contains e.id js ≡ true)) rows
  sent_of_empty js [] after m h = tt
  sent_of_empty js (e ∷ rows) [] m h = absurd m
  sent_of_empty js (e ∷ rows) (e' ∷ after) m h =
      (ground (arith, m.0), sent_of_empty js rows after m.1 (ground arith))

  -- What holds of the rows that wait, holds of all that the broker receives: a row changes only when
  -- it is marked, and then it is not sent again.
  pub run-All :
      (Q : Entry E P → Type 0) (envs : List BatchEnv) (rows : List (Entry E P))
      → All (λ (e : Entry E P). is_unpublished e ≡ true → Q e) rows
      → All Q (run envs rows).1
  unfolding run
  run-All Q [] rows h = tt
  run-All Q (env ∷ envs) rows h =
      let (result, rows', sent) = publish_batch env rows in
      All-append Q sent (run envs rows').1
        (All-weaken (λ e. Q e × (is_unpublished e ≡ true)) Q sent (λ e q. q.0)
          (publish_batch-All Q env rows h))
        (run-All Q envs rows'
          (Marked-All Q (ids sent) rows rows' (publish_batch-Marked env rows) h))

  -- the broker receives rows of the outbox, as they were
  pub run-Memᴰ :
      (envs : List BatchEnv) (rows : List (Entry E P))
      → All (λ (e : Entry E P). Memᴰ e rows) (run envs rows).1
  run-Memᴰ envs rows =
      run-All (λ e. Memᴰ e rows) envs rows
        (All-weaken (λ e. Memᴰ e rows) (λ e. is_unpublished e ≡ true → Memᴰ e rows) rows
          (λ e m w. m) (Memᴰ-all rows))

  -- an entry that arrived under the id of a row is that row, where no other row has the id
  pub arrived :
      (e : Entry E P) (rows sent : List (Entry E P))
      → ((x : Entry E P) → Memᴰ x rows → x.id ≡ e.id → x ≡ e)
      → All (λ (x : Entry E P). Memᴰ x rows) sent
      → contains e.id (ids sent) ≡ true
      → Memᴰ e sent
  arrived e rows [] only h c = absurd (ground arith)
  arrived e rows (x ∷ sent) only h c = elim (Bool-cases (x.id == e.id)) [
    | inl here ↦ Memᴰ.head (sym (only x h.0 (ground arith)))
    | inr later ↦ Memᴰ.tail (arrived e rows sent only h.1 (ground arith))
  ]

  -- Every entry of an outbox with unique ids that was not published reaches the broker, as it is,
  -- within as many working batches as the backlog has hundreds, rounded up.
  pub run_delivers :
      (envs : List BatchEnv) (rows : List (Entry E P)) (e : Entry E P)
      → Keyed entry_key rows
      → All Works envs
      → unpublished rows ≤ batch * length envs
      → Memᴰ e rows
      → is_unpublished e ≡ true
      → Memᴰ e (run envs rows).1
  run_delivers envs rows e keyed works room m waits =
      arrived e rows (run envs rows).1 (λ x n same. Keyed-same entry_key rows x e keyed n m same)
        (run-Memᴰ envs rows)
        (waiting_sent _ e
          (All-Memᴰ _ e rows
            (sent_of_empty (ids (run envs rows).1) rows (run envs rows).0 (run-Marked envs rows)
              (run_drains envs rows works room))
            m)
          waits)

  -- the newest row of the outbox, under an id of its own, reaches the broker
  pub newest_delivered :
      (envs : List BatchEnv) (e : Entry E P) (rows : List (Entry E P))
      → find entry_key e.id rows ≡ none
      → is_unpublished e ≡ true
      → All Works envs
      → unpublished (e ∷ rows) ≤ batch * length envs
      → Memᴰ e (run envs (e ∷ rows)).1
  newest_delivered envs e rows fresh waits works room =
      let sent = (run envs (e ∷ rows)).1 in
      arrived e (e ∷ rows) sent only (run-Memᴰ envs (e ∷ rows)) (
        waiting_sent _ e
          (sent_of_empty (ids sent) (e ∷ rows) (run envs (e ∷ rows)).0 (run-Marked envs (e ∷ rows))
            (run_drains envs (e ∷ rows) works room)).0
          waits)
    where
      only : (x : Entry E P) → Memᴰ x (e ∷ rows) → x.id ≡ e.id → x ≡ e
      only x (Memᴰ.head is) same = is
      only x (Memᴰ.tail m) same = absurd (find-none entry_key e.id rows x fresh m same)
