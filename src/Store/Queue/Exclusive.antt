-- ===== src/Store/Queue/Exclusive.antt =====
-- No execution is handed out while it is invisible: after a claim, a backoff or a heartbeat
-- (internal/store/postgres/queue.go).
use jobplane.Base.{
  ℕ, ◌+◌, ◌≤◌, ◌<◌, ◌≡◌, ◌≢◌, refl, ap, inl, inr, Bool, true, false, List, [], ◌∷◌, arith, map,
  ◌==◌, any, select, All, All-take, All-map, All-mono, All-select, Bool-cases, Option-cases,
  Distinct, first_unique, first-none-All, ==_iff,
}
use jobplane.Base.Int.{ℤ}
use jobplane.Store.Models.{Uuid, Time, QueueItem}
use jobplane.Store.Db.{queue_key, Db, QueueRow, find_queued}
use jobplane.Store.Exec.{ok, World}
use jobplane.Store.Exec.Triple.{Result-cases}
use jobplane.Store.Queue.{
  visibility_timeout, is_claimable, has_id, goes_first, select_batch, dequeue_batch, at_least_one,
  row_id, item_of, claim_row,
}
use jobplane.Base.Sort.{order_by, order_by-All}
use jobplane.Store.Queue.Claim.{dequeue_batch_ok, dequeue_batch-err, after_claim}

-- Every row of execution `i` is invisible until after `t`.
abbrev pub HiddenUntil : Uuid → Time → List QueueRow → Type 0
HiddenUntil i t queue = All (λ q. q.execution_id ≡ i → t < q.visible_after) queue

abbrev pub delivers : Uuid → List QueueItem → Bool
delivers i items = any (λ item. item.execution_id == i) items

is_claimable-visible :
    (now : Time) (tenants : List Uuid) (q : QueueRow)
    → is_claimable now tenants q ≡ true
    → q.visible_after ≤ now
is_claimable-visible now [] q h = ground arith
is_claimable-visible now (t ∷ ts) q h = ground arith

-- What holds of the claimable rows of the queue holds of the batch.
pub select_batch-All :
    (P Q : QueueRow → Type 0) (now : Time) (locked : List ℕ) (tenants : List Uuid) (limit : ℕ)
    (queue : List QueueRow)
    → ((q : QueueRow) → is_claimable now tenants q ≡ true → P q → Q q)
    → All P queue
    → All Q (select_batch now locked tenants limit queue)
unfolding select_batch
select_batch-All P Q now locked tenants limit queue f h = All-take Q limit _ (
    All-select Q Q _ (order_by goes_first (select (is_claimable now tenants) queue)) (λ q _ k. k)
      (order_by-All goes_first Q _ (All-select P Q (is_claimable now tenants) queue f h)))

pub delivers-map :
    (i : Uuid) (qs : List QueueRow)
    → All (λ q. q.execution_id ≢ i) qs
    → delivers i (map item_of qs) ≡ false
delivers-map i [] h = refl
delivers-map i (q ∷ qs) h = ground (arith, h.0, delivers-map i qs h.1)

-- A call that succeeds hands out no execution that is hidden at its time.
pub hidden_not_delivered :
    (i : Uuid) (now : Time) (locked : List ℕ) (tenants : List Uuid) (limit : ℤ) (w : World)
    {items : List QueueItem}
    → HiddenUntil i now w.db.queue
    → (dequeue_batch now locked tenants limit w).0 ≡ ok items
    → delivers i items ≡ false
hidden_not_delivered i now locked tenants limit w {items} hidden h =
    rw (dequeue_batch_ok now locked tenants limit w h).0 (
      delivers-map i _ (
        select_batch-All _ (λ q. q.execution_id ≢ i) now locked tenants (at_least_one limit)
          w.db.queue
          (λ q visible later e. ground (arith, is_claimable-visible now tenants q, later e))
          hidden))

-- A batch that delivers `i`, and whose only row of `i` can be `q0`, has the row `q0`.
pub delivers-has_id :
    (i : Uuid) (q0 : QueueRow) (qs : List QueueRow)
    → All (λ q. q.execution_id ≡ i → q ≡ q0) qs
    → delivers i (map item_of qs) ≡ true
    → has_id (map row_id qs) q0 ≡ true
delivers-has_id i q0 [] h d = cc
delivers-has_id i q0 (q ∷ qs) h d = elim (Bool-cases (q.execution_id == i)) [
  | inl hit ↦
      let same : q ≡ q0 = h.0 ((==_iff _ _).0 hit) in
      let e : (q.id == q0.id) ≡ true = (==_iff _ _).1 (ap (λ r. r.id) same) in rw e
  | inr miss ↦ ground (arith, delivers-has_id i q0 qs h.1)
]

claimed-HiddenUntil :
    (i : Uuid) (now t : Time) (ids : List ℕ) (q0 : QueueRow) (queue : List QueueRow)
    → t < now + visibility_timeout
    → has_id ids q0 ≡ true
    → All (λ q. q.execution_id ≡ i → q ≡ q0) queue
    → HiddenUntil i t (map (claim_row now ids) queue)
claimed-HiddenUntil i now t ids q0 queue soon has only =
    All-map _ _ (claim_row now ids) queue
      (λ q same e. ground (arith, same, ap (has_id ids) (same (ground arith)))) only

after_claim-HiddenUntil :
    (i : Uuid) (now t : Time) (rows : List QueueRow) (db : Db) (q0 : QueueRow)
    → t < now + visibility_timeout
    → All (λ q. q.execution_id ≡ i → q ≡ q0) db.queue
    → All (λ q. q.execution_id ≡ i → q ≡ q0) rows
    → delivers i (map item_of rows) ≡ true
    → HiddenUntil i t (after_claim now rows db).queue
unfolding after_claim
after_claim-HiddenUntil i now t [] db q0 soon only only' d = absurd (ground arith)
after_claim-HiddenUntil i now t (q ∷ qs) db q0 soon only only' d =
    claimed-HiddenUntil i now t (map row_id (q ∷ qs)) q0 db.queue soon
      (delivers-has_id i q0 (q ∷ qs) only' d) only

module _ (i : Uuid) (now : Time) (locked : List ℕ) (tenants : List Uuid) (limit : ℤ) (w : World)
    (distinct : Distinct queue_key w.db.queue) where
  -- Where no execution is queued twice, what a call has handed out is hidden until the visibility
  -- timeout ends.
  pub delivered-HiddenUntil :
      {items : List QueueItem} (t : Time)
      → t < now + visibility_timeout
      → (dequeue_batch now locked tenants limit w).0 ≡ ok items
      → delivers i items ≡ true
      → HiddenUntil i t (dequeue_batch now locked tenants limit w).1.db.queue
  delivered-HiddenUntil {items} t soon h d = elim (Option-cases (find_queued i w.db.queue)) [
    | inl gone ↦ absurd (
        ground (
          arith,
          delivers-map i batch (
              select_batch-All _ _ now locked tenants (at_least_one limit) w.db.queue (λ q _ k. k)
                (first-none-All queue_key i w.db.queue gone)),
          ap (delivers i) ran.0,
        ))
    | inr (q0, e) ↦
        let only = first_unique queue_key i w.db.queue q0 distinct e in
        rw ran.1 (
          after_claim-HiddenUntil i now t batch w.db q0 soon only
            (select_batch-All _ _ now locked tenants (at_least_one limit) w.db.queue (λ q _ k. k)
              only)
            (rw (ran.0) at d))
  ]
    where
      batch : List QueueRow
      batch = select_batch now locked tenants (at_least_one limit) w.db.queue

      ran :
          (items ≡ map item_of batch)
          × ((dequeue_batch now locked tenants limit w).1.db ≡ after_claim now batch w.db)
      ran = dequeue_batch_ok now locked tenants limit w h

-- A claim leaves hidden what is hidden, since it moves a row's visibility forward only.
after_claim-keeps :
    (i : Uuid) (t now : Time) (rows : List QueueRow) (db : Db)
    → t < now + visibility_timeout
    → HiddenUntil i t db.queue
    → HiddenUntil i t (after_claim now rows db).queue
unfolding after_claim
after_claim-keeps i t now [] db soon h = h
after_claim-keeps i t now (q ∷ qs) db soon h =
    All-map _ _ (claim_row now (map row_id (q ∷ qs))) db.queue
      (λ r hidden e. ground (arith, hidden)) h

-- A call of DequeueBatch by some worker.
pub record Poll : Type 0 where
  pub now : Time
  pub locked : List ℕ
  pub tenants : List Uuid
  pub limit : ℤ

abbrev pub poll : Poll → World → World
poll p w = (dequeue_batch p.now p.locked p.tenants p.limit w).1

unfoldable pub poll_all : List Poll → World → World
poll_all [] w = w
poll_all (p ∷ ps) w = poll_all ps (poll p w)

pub poll-HiddenUntil :
    (i : Uuid) (t : Time) (p : Poll) (w : World)
    → t < p.now + visibility_timeout
    → HiddenUntil i t w.db.queue
    → HiddenUntil i t (poll p w).db.queue
poll-HiddenUntil i t p w soon h =
    elim (Result-cases (dequeue_batch p.now p.locked p.tenants p.limit w).0) [
      | inl (items, ran) ↦
          rw (dequeue_batch_ok p.now p.locked p.tenants p.limit w ran).1
            (after_claim-keeps i t p.now _ w.db soon h)
      | inr (e, failed) ↦ rw (dequeue_batch-err p.now p.locked p.tenants p.limit w failed) h
    ]

poll_all-HiddenUntil :
    (i : Uuid) (t : Time) (ps : List Poll) (w : World)
    → All (λ p. t < p.now + visibility_timeout) ps
    → HiddenUntil i t w.db.queue
    → HiddenUntil i t (poll_all ps w).db.queue
unfolding poll_all
poll_all-HiddenUntil i t [] w soon h = h
poll_all-HiddenUntil i t (p ∷ ps) w soon h =
    poll_all-HiddenUntil i t ps (poll p w) soon.1 (poll-HiddenUntil i t p w soon.0 h)

module _ (i : Uuid) (first_poll : Poll) (w : World) (distinct : Distinct queue_key w.db.queue) where
  -- Where no execution is queued twice, one that a call has handed out is handed out by no call
  -- before its visibility timeout ends, with any tenants, limit and locked rows, after any calls in
  -- between that are no earlier than the first, whether they succeed or fail.
  pub delivered_once :
      {items items' : List QueueItem} (between : List Poll) (second_poll : Poll)
      → All (λ p. first_poll.now ≤ p.now) between
      → second_poll.now < first_poll.now + visibility_timeout
      → (dequeue_batch first_poll.now first_poll.locked first_poll.tenants first_poll.limit w).0
        ≡ ok items
      → delivers i items ≡ true
      → (dequeue_batch second_poll.now second_poll.locked second_poll.tenants second_poll.limit
          (poll_all between (poll first_poll w))).0
        ≡ ok items'
      → delivers i items' ≡ false
  delivered_once between second_poll later soon h d h' =
      hidden_not_delivered i second_poll.now second_poll.locked second_poll.tenants
        second_poll.limit (poll_all between (poll first_poll w))
        (poll_all-HiddenUntil i second_poll.now between (poll first_poll w)
          (All-mono _ _ between (λ p after. omega (arith, after, soon)) later)
          (delivered-HiddenUntil i first_poll.now first_poll.locked first_poll.tenants
            first_poll.limit w distinct second_poll.now soon h d))
        h'
