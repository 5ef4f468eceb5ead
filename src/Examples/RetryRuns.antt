-- ===== src/Examples/RetryRuns.antt =====
-- The waiting execution of the example tables fails in six deliveries.
use jobplane.Base.{ℕ, suc, ◌+◌, ◌≤◌, arith, ◌*◌, ◌≡◌, refl, none, List, [], ◌∷◌}
use jobplane.Base.Sort.{order_by, insert_by}
use jobplane.Base.Int.{pos}
use jobplane.Store.Models.{QueueItem, second}
use jobplane.Store.Db.{Db}
use jobplane.Store.Exec.{ok, World}
use jobplane.Store.Queue.{
  after_attempt, reschedule, select_attempt, dequeue_batch, dequeue_body, select_batch, claim_batch,
  update_claimed, update_started, fail, bury, insert_dead, set_visible_after, max_retries,
}
use jobplane.Store.Queue.Exclusive.{Poll, poll}
use jobplane.Store.Queue.Outcome.{quiet}
use jobplane.Store.Queue.Stays.{Stays}
use jobplane.Store.Queue.Around.{Apart}
use jobplane.Store.Queue.Held.Alive.{Other, fails, act}
use jobplane.Store.Queue.Exhausted.{
  Failing, fresh, handed_out, given_back, beaten, goes_on, Fate, dead_after_six,
}
use jobplane.Examples.Rows.{now, tables, row_at}

-- One call every 500 seconds, which is longer than any backoff, for one execution.
abbrev poll_at : ℕ → Poll
poll_at k = record { now = now + k * 500 * second; locked = []; tenants = []; limit = pos 1 }

abbrev items_100 : List QueueItem
items_100 = record { execution_id = 100; payload = "{}" } ∷ []

abbrev calm : Db → World
calm db = record { db = db; faults = [] }

abbrev round : ℕ → Db → Db
round k db =
    (fail (now + k * 500 * second) 100 none "boom" (quiet (poll (poll_at k) (calm db)).db)).1.db

abbrev Gets100 : ℕ → Db → Type 0
Gets100 k db = (dequeue_batch (poll_at k).now [] [] (pos 1) (calm db)).0 ≡ ok items_100

abbrev after_one : Db
after_one = round 0 tables

abbrev after_two : Db
after_two = round 1 after_one

abbrev after_three : Db
after_three = round 2 after_two

abbrev after_four : Db
after_four = round 3 after_three

abbrev after_five : Db
after_five = round 4 after_four

delivered_six_times :
    Gets100 0 tables
    × Gets100 1 after_one
    × Gets100 2 after_two
    × Gets100 3 after_three
    × Gets100 4 after_four
    × Gets100 5 after_five
unfolding dequeue_batch dequeue_body select_batch order_by insert_by claim_batch update_claimed
    update_started fail after_attempt reschedule select_attempt bury insert_dead
delivered_six_times = (refl, refl, refl, refl, refl, refl)

-- A heartbeat of the worker, and the Fail of another execution, come between a delivery and its Fail.
abbrev handed : ℕ → Db → Db
handed k db = (poll (poll_at k) (calm db)).db

tables-Stays : Stays 100 (row_at 1 100 0 0) tables
tables-Stays = record {
  known = refl;
  alive = refl;
  there = refl;
  own = (
    ((λ e. refl), (λ e. refl)),
    (
      ((λ e. absurd (omega (arith, e))), (λ e. absurd (omega (arith, e)))),
      (((λ e. absurd (omega (arith, e))), (λ e. absurd (omega (arith, e)))), tt),
    ),
  );
  numbered = omega arith;
}

handed_once :
    {n : ℕ} {db : Db} (k : ℕ) → Failing 100 n db → Gets100 k db → Failing 100 (suc n) (handed k db)
handed_once k before ran = handed_out (poll_at k) [] items_100 before ran refl

round_fails :
    {n : ℕ} {db : Db} (k : ℕ)
    → Failing 100 n db
    → Gets100 k db
    → suc n ≤ max_retries
    → Failing 100 (suc n) (round k db)
round_fails k before ran few =
    given_back (now + k * 500 * second) none "boom" (handed_once k before ran) few

five_rounds : Failing 100 5 after_five
five_rounds =
    let (g0, g1, g2, g3, g4, g5) = delivered_six_times in
    let one = round_fails 0 (fresh (row_at 1 100 0 0) tables tables-Stays refl) g0 (omega arith) in
    let two = round_fails 1 one g1 (omega arith) in
    let three = round_fails 2 two g2 (omega arith) in
    let four = round_fails 3 three g3 (omega arith) in round_fails 4 four g4 (omega arith)

-- The sixth delivery, a heartbeat of its worker, and the Fail of another execution.
abbrev beaten_on_sixth : Db
beaten_on_sixth = (set_visible_after 100 (now + 2800 * second) (calm (handed 5 after_five))).1.db

abbrev other_fails : Other 100 (now + 2600 * second)
other_fails = fails (now + 2600 * second) 101 none "boom" (λ same. absurd (omega (arith, same)))

six_rounds : Failing 100 6 (act other_fails (calm beaten_on_sixth)).db
unfolding Apart
six_rounds =
    let (g0, g1, g2, g3, g4, g5) = delivered_six_times in
    goes_on other_fails [] (beaten (now + 2800 * second) [] (handed_once 5 five_rounds g5)) tt

dead_after_six_example :
    Fate 100 6
      (fail
        (now + 2700 * second)
        100
        none
        "boom"
        (quiet (act other_fails (calm beaten_on_sixth)).db)).1.db
dead_after_six_example = dead_after_six 100 (now + 2700 * second) none "boom" six_rounds
