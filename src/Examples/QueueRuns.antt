-- ===== src/Examples/QueueRuns.antt =====
-- The queue's theorems on the example tables.
use jobplane.Base.{
  ◌^◌, ◌+◌, ◌*◌, ◌≡◌, refl, true, false, none, some, List, [], ◌∷◌, arith, map, ◌++◌,
}
use jobplane.Base.Sort.{order_by, insert_by}
use jobplane.Base.Int.{pos}
use jobplane.Store.Models.{Time, QueueItem, second, failed}
use jobplane.Store.Db.{Db}
use jobplane.Store.Exec.{ok, err, unavailable, unique_violation, World}
use jobplane.Store.Queue.{
  set_visible_after, after_attempt, reschedule, select_attempt, dequeue_batch, dequeue_body,
  select_batch, claim_batch, update_claimed, update_started, complete, fail, item_of, row_id,
  visibility_timeout,
}
use jobplane.Store.Queue.Best.{IsBestBatch, select_batch-IsBestBatch}
use jobplane.Store.Queue.Claimed.{Claims, dequeue_batch-Claims}
use jobplane.Store.Queue.Exclusive.{
  delivers, Poll, poll, poll_all, hidden_not_delivered, delivered_once,
}
use jobplane.Store.Queue.Completion.{as_completed, complete_effect, complete_again}
use jobplane.Store.Queue.Wedged.{fail_wedged}
use jobplane.Store.Queue.Outcome.{quiet, Updates, Deletes, executions_of, queue_of, dlq_of}
use jobplane.Store.Queue.Waiting.{Waiting, starts, goes_on, retry_waits}
use jobplane.Store.Queue.Stays.{Stays}
use jobplane.Store.Queue.Around.{Spared}
use jobplane.Store.Queue.Held.Alive.{
  Other, polls, fails, act, Alive, taken, beaten, meanwhile, alive_not_delivered,
}
use jobplane.Store.Executions.{retry_from_dlq}
use jobplane.Store.Executions.Retry.{fresh_retry, retry_from_dlq_effect}
use jobplane.Examples.Rows.{now, tables, world, row_at, execution_at, dead_build}

abbrev first_batch : List QueueItem
first_batch = record { execution_id = 100; payload = "{}" } ∷ []

-- A worker asks for one execution and gets the one that waits.
gets_first : (dequeue_batch now [] [] (pos 1) world).0 ≡ ok first_batch
unfolding dequeue_batch dequeue_body select_batch order_by insert_by claim_batch update_claimed
    update_started
gets_first = refl

-- A second later.
abbrev soon : Time
soon = now + second

abbrev after_first : World
after_first = (dequeue_batch now [] [] (pos 1) world).1

abbrev first_poll : Poll
first_poll = record { now = now; locked = []; tenants = []; limit = pos 1 }

abbrev poll_soon : Poll
poll_soon = record { now = soon; locked = []; tenants = []; limit = pos 5 }

still_nothing :
    (dequeue_batch soon [] [] (pos 5) (poll_all (poll_soon ∷ []) (poll first_poll world))).0 ≡ ok []
unfolding poll_all dequeue_batch dequeue_body select_batch order_by insert_by claim_batch
    update_claimed update_started
still_nothing = refl

delivered_once_example : delivers 100 [] ≡ false
delivered_once_example =
    delivered_once 100 first_poll world (refl, (refl, (refl, tt))) {items = first_batch}
      {items' = []} (poll_soon ∷ []) poll_soon (omega arith, tt) (omega arith) gets_first refl
      still_nothing

hidden_not_delivered_example : delivers 101 first_batch ≡ false
hidden_not_delivered_example =
    hidden_not_delivered 101 now [] [] (pos 1) world {items = first_batch}
      (λ e. absurd (omega arith), (λ e. omega arith, (λ e. absurd (omega arith), tt))) gets_first

select_batch-IsBestBatch_example :
    IsBestBatch now [] [] 1 tables.queue (select_batch now [] [] 1 tables.queue)
select_batch-IsBestBatch_example = select_batch-IsBestBatch now [] [] 1 tables.queue

dequeue_batch-Claims_example :
    (first_batch ≡ map item_of (select_batch now [] [] 1 tables.queue))
    × Claims now (map row_id (select_batch now [] [] 1 tables.queue)) tables after_first.db
dequeue_batch-Claims_example =
    dequeue_batch-Claims now [] [] (pos 1) world {items = first_batch} gets_first

-- The second statement is lost.
abbrev shaky : World
shaky = record { db = tables; faults = false ∷ true ∷ [] }

fails_once : (dequeue_batch now [] [] (pos 1) shaky).0 ≡ err unavailable
unfolding dequeue_batch dequeue_body
fails_once = refl

complete_effect_example :
    let (r, w) = complete now 101 (pos 0) none (quiet tables) in
    (r ≡ ok tt)
    × Deletes 101 (queue_of tables) (queue_of w.db)
    × Updates 101 (as_completed now (pos 0) none) (executions_of tables) (executions_of w.db)
    × (w.db ≡ record tables { queue = w.db.queue; executions = w.db.executions })
complete_effect_example = complete_effect now 101 tables (pos 0) none

complete_again_example :
    complete now 101 (pos 0) none (quiet (complete now 101 (pos 0) none shaky).1.db)
    ≡ complete now 101 (pos 0) none (quiet tables)
complete_again_example = complete_again now 101 tables (pos 0) none (false ∷ true ∷ [])

fail_wedged_example :
    let db =
      (fail now 102 none "boom"
        (record { db = tables; faults = false ∷ false ∷ true ∷ [] })).1.db in
    (queue_of db 102 ≡ some (row_at 3 102 6 (2000 * second)))
    × (fail soon 102 none "again" (quiet db) ≡ (err unique_violation, quiet db))
fail_wedged_example =
    fail_wedged 102 (row_at 3 102 6 (2000 * second)) tables refl (omega arith) refl now soon none
      none "boom" "again"

retry_from_dlq_effect_example :
    let (r, w) = retry_from_dlq now 200 103 (quiet tables) in
    let retried = fresh_retry 200 now (execution_at 103 failed 6) in
    (r ≡ ok 200)
    × (w.db.executions ≡ tables.executions ++ retried ∷ [])
    × (w.db.queue ≡ tables.queue ++ record (row_at 4 200 0 now) { created_at = now } ∷ [])
    × Deletes 103 (dlq_of tables) (dlq_of w.db)
    × (w.db ≡ record tables {
      executions = w.db.executions;
      queue = w.db.queue;
      next_queue_id = 5;
      dlq = w.db.dlq;
    })
retry_from_dlq_effect_example =
    retry_from_dlq_effect now 200 103 tables dead_build (execution_at 103 failed 6) refl refl refl
      refl refl refl

abbrev later : Time
later = now + 60 * second

-- A minute after the claim a heartbeat extends the visibility to five minutes from then.
abbrev beaten_at_minute : World
beaten_at_minute = (set_visible_after 100 (later + visibility_timeout) (poll first_poll world)).1

beats_in_time :
    (set_visible_after 100 (later + visibility_timeout) (poll first_poll world)).0 ≡ ok tt
unfolding set_visible_after dequeue_batch dequeue_body select_batch order_by insert_by claim_batch
    update_claimed update_started
beats_in_time = refl

-- Another execution fails meanwhile, at the end of the first visibility.
abbrev at_timeout : Time
at_timeout = now + visibility_timeout

abbrev other_fails : Other 100 at_timeout
other_fails = fails at_timeout 101 none "boom" (λ e. absurd (omega (arith, e)))

abbrev running_100 :
    Alive 100 at_timeout (later + visibility_timeout) (act other_fails beaten_at_minute)
running_100 =
    meanwhile other_fails
      (beaten later (later + visibility_timeout)
        (taken first_poll world first_batch (refl, (refl, (refl, tt))) gets_first refl)
        (omega arith) (omega arith) (omega arith) beats_in_time)
      (omega arith) (omega arith)

abbrev poll_late : Poll
poll_late = record { now = at_timeout + 30 * second; locked = []; tenants = []; limit = pos 5 }

-- The retry of the other execution, once its backoff is over.
abbrev other_batch : List QueueItem
other_batch = record { execution_id = 101; payload = "{}" } ∷ []

gets_other_late :
    (dequeue_batch poll_late.now [] [] (pos 5) (act other_fails beaten_at_minute)).0
    ≡ ok other_batch
unfolding dequeue_batch dequeue_body select_batch order_by insert_by claim_batch update_claimed
    update_started set_visible_after act fail after_attempt reschedule select_attempt
gets_other_late = refl

alive_not_delivered_example : delivers 100 other_batch ≡ false
alive_not_delivered_example =
    alive_not_delivered 100 poll_late running_100 (omega arith) gets_other_late

-- Execution 101 is to wait 20 seconds. A first worker asks after one, while the row of 100 is locked,
-- and a second one after two.
abbrev poll_first : Poll
poll_first = record { now = soon; locked = 1 ∷ []; tenants = []; limit = pos 5 }

abbrev poll_second : Poll
poll_second = record { now = now + 2 * second; locked = []; tenants = []; limit = pos 5 }

tables-Stays : Stays 101 (row_at 2 101 1 (2000 * second)) tables
tables-Stays = record {
  known = refl;
  alive = refl;
  there = refl;
  own = (
    ((λ e. absurd (omega (arith, e))), (λ e. absurd (omega (arith, e)))),
    (
      ((λ e. refl), (λ e. refl)),
      (((λ e. absurd (omega (arith, e))), (λ e. absurd (omega (arith, e)))), tt),
    ),
  );
  numbered = omega arith;
}

abbrev first_polls : Other 101 soon
first_polls = polls poll_first

abbrev after_polled : Db
after_polled = (act first_polls (quiet (fail now 101 none "boom" (quiet tables)).1.db)).db

backoff_101 : Waiting 101 (now + 10 * 2 ^ 1 * second) after_polled
unfolding Spared
backoff_101 =
    goes_on first_polls []
      (starts now none "boom" tables (row_at 2 101 1 (2000 * second)) tables-Stays (omega arith))
      (omega arith) tt

gets_other_too :
    (dequeue_batch poll_second.now [] [] (pos 5) (quiet after_polled)).0 ≡ ok first_batch
unfolding dequeue_batch dequeue_body select_batch order_by insert_by claim_batch update_claimed
    update_started act fail after_attempt reschedule select_attempt
gets_other_too = refl

retry_waits_example : delivers 101 first_batch ≡ false
retry_waits_example =
    retry_waits 101 poll_second [] first_batch backoff_101 (omega arith) gets_other_too
