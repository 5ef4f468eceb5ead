-- ===== src/Store/Queue/Polled.antt =====
-- What a call of DequeueBatch leaves of a queued execution's row (internal/store/postgres/queue.go).
use jobplane.Base.{
  ℕ, ◌+◌, ◌<◌, ◌≡◌, refl, sym, ap, ◌∙◌, subst, inl, inr, true, false, some, List, [], ◌∷◌, arith,
  map, ◌==◌, ==_iff, first_sound, any-map, any-first, All, All-map, All-first, All-mono, Bool-cases,
}
use jobplane.Store.Models.{Uuid, Time, QueueItem}
use jobplane.Store.Db.{Db, QueueRow}
use jobplane.Store.Exec.{ok, World}
use jobplane.Store.Exec.Triple.{Result-cases}
use jobplane.Store.Queue.{
  dequeue_batch, select_batch, at_least_one, row_id, claim_row, item_of, has_id, visibility_timeout,
  claim_of, update_claimed, update_started, start_with,
}
use jobplane.Store.Queue.Claim.{dequeue_batch_ok, dequeue_batch-err, after_claim}
use jobplane.Store.Queue.Claimed.{start_with-id}
use jobplane.Store.Queue.Exclusive.{
  delivers, Poll, poll, select_batch-All, delivers-has_id, hidden_not_delivered,
}
use jobplane.Store.Queue.Outcome.{queue_of}
use jobplane.Store.Queue.Stays.{Own, Stays}

module _ (i : Uuid) (q : QueueRow) where
  pub Stays-queued : (db : Db) → Stays i q db → queue_of db i ≡ some q
  Stays-queued db h =
      let (r, found) = any-first (λ x. x.execution_id == i) db.queue h.there in
      let own = All-first (Own i q) (λ x. x.execution_id == i) db.queue r h.own found in
      found
      ∙ ap some (own.0 ((==_iff _ _).0 (first_sound (λ x. x.execution_id == i) db.queue r found)))

  -- A batch without the execution has no row with the id of its row.
  no_id :
      (rows : List QueueRow)
      → All (Own i q) rows
      → delivers i (map item_of rows) ≡ false
      → has_id (map row_id rows) q ≡ false
  no_id [] own d = refl
  no_id (r ∷ rs) own d = elim (Bool-cases (r.id == q.id)) [
    | inl same ↦
        let e : r.execution_id ≡ i = own.0.1 ((==_iff _ _).0 same) in absurd (ground (arith, d, e))
    | inr miss ↦ rw miss (no_id rs own.1 (ground (arith, d)))
  ]

  claim_row-Own :
      (now : Time) (ids : List ℕ) (r : QueueRow)
      → Own i q r
      → Own i (claim_row now ids q) (claim_row now ids r)
  claim_row-Own now ids r own = (
    λ e. ap (claim_row now ids) (own.0 (exec ∙ e)),
    λ e. sym exec ∙ own.1 (id r ∙ e ∙ sym (id q)),
  )
    where
      exec : r.execution_id ≡ (claim_row now ids r).execution_id
      exec = ground arith

      id : (x : QueueRow) → x.id ≡ (claim_row now ids x).id
      id x = ground arith

  after_claim-Stays :
      (now : Time) (rows : List QueueRow) (db : Db)
      → Stays i q db
      → Stays i (claim_row now (map row_id rows) q) (after_claim now rows db)
  unfolding after_claim update_claimed update_started
  after_claim-Stays now [] db h = h
  after_claim-Stays now (r ∷ rs) db h =
      let ids = map row_id (r ∷ rs) in
      let claimed = map (claim_row now ids) db.queue in
      record {
        known =
            any-map (λ e. e.id == i) (λ e. start_with now (claim_of ids claimed e.id) e)
              db.executions
              (λ e. ap (λ n. n == i) (start_with-id now ids db (claim_of ids claimed e.id) e))
            ∙ h.known;
        alive = h.alive;
        there =
            any-map (λ x. x.execution_id == i) (claim_row now ids) db.queue (λ x. ground arith)
            ∙ h.there;
        own =
            All-map (Own i q) (Own i (claim_row now ids q)) (claim_row now ids) db.queue
              (claim_row-Own now ids) h.own;
        numbered =
            let e : (claim_row now ids q).id ≡ q.id = ground arith in omega (arith, e, h.numbered);
      }

  module _ (p : Poll) (w : World) where
    abbrev batch : List QueueRow
    batch = select_batch p.now p.locked p.tenants (at_least_one p.limit) w.db.queue

    batch-Own : Stays i q w.db → All (Own i q) batch
    batch-Own h =
        select_batch-All _ _ p.now p.locked p.tenants (at_least_one p.limit) w.db.queue (λ x _ k. k)
          h.own

    abbrev pub Passes : Type 0
    Passes =
        (items : List QueueItem)
        → (dequeue_batch p.now p.locked p.tenants p.limit w).0 ≡ ok items
        → delivers i items ≡ false

    -- A call that does not hand the execution out leaves its row as it is.
    pub poll-Stays : Passes → Stays i q w.db → Stays i q (poll p w).db
    poll-Stays passes h = elim (Result-cases (dequeue_batch p.now p.locked p.tenants p.limit w).0) [
      | inr (e, failed) ↦ rw (dequeue_batch-err p.now p.locked p.tenants p.limit w failed) h
      | inl (items, ran) ↦
          let (handed, db) = dequeue_batch_ok p.now p.locked p.tenants p.limit w ran in
          let free : has_id (map row_id batch) q ≡ false =
            no_id batch (batch-Own h) (ap (delivers i) (sym handed) ∙ passes items ran) in
          let same : claim_row p.now (map row_id batch) q ≡ q = rw free refl in
          rw db (
            subst (λ r. Stays i r (after_claim p.now batch w.db)) same
              (after_claim-Stays p.now batch w.db h))
    ]

    -- A call that hands it out counts one attempt more and hides it for the visibility timeout.
    pub poll-taken :
        (items : List QueueItem)
        → (dequeue_batch p.now p.locked p.tenants p.limit w).0 ≡ ok items
        → delivers i items ≡ true
        → Stays i q w.db
        → Stays i
            (record q { attempt = q.attempt + 1; visible_after = p.now + visibility_timeout })
            (poll p w).db
    poll-taken items ran d h =
        let (handed, db) = dequeue_batch_ok p.now p.locked p.tenants p.limit w ran in
        let hit : has_id (map row_id batch) q ≡ true =
          delivers-has_id i q batch (All-mono _ _ batch (λ x o. o.0) (batch-Own h))
            (ap (delivers i) (sym handed) ∙ d) in
        let taken : claim_row p.now (map row_id batch) q
            ≡ record q { attempt = q.attempt + 1; visible_after = p.now + visibility_timeout } =
          rw hit refl in
        rw db (
          subst (λ r. Stays i r (after_claim p.now batch w.db)) taken
            (after_claim-Stays p.now batch w.db h))

    -- It is not handed out before it is visible.
    pub hidden-Passes : p.now < q.visible_after → Stays i q w.db → Passes
    hidden-Passes soon h items ran =
        hidden_not_delivered i p.now p.locked p.tenants p.limit w
          (All-mono _ _ w.db.queue
            (λ x o e.
              let v : x.visible_after ≡ q.visible_after = ap (λ r. r.visible_after) (o.0 e) in
              omega (arith, v, soon))
            h.own)
          ran
