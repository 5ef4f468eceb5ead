-- ===== src/Store/Queue.antt =====
-- internal/store/postgres/queue.go. `now` is the database's NOW() at the call, and `locked` lists
-- the queue rows that other open transactions hold.
pub mod Around
pub mod Beaten
pub mod Best
pub mod Claim
pub mod Claimed
pub mod Exclusive
pub mod Outcome
pub mod Completion
pub mod Wedged
pub mod Held
pub mod Stays
pub mod Polled
pub mod Exhausted
pub mod Waiting
use jobplane.Base.{
  ℕ, suc, ◌+◌, ◌*◌, ◌^◌, String, Bool, not, ◌&&◌, ◌||◌, Option, none, some, List, [], ◌∷◌, ◌++◌,
  map, ltb, leb, ◌==◌, if◌then◌else◌, length, take, select, any, first,
}
use jobplane.Base.Sort.{order_by}
use jobplane.Base.Int.{ℤ, pos, pos_part, ltb_ℤ, leb_ℤ}
use jobplane.Store.Models.{
  Uuid, Time, Json, Execution, QueueItem, running, completed, failed, second, minute,
}
use jobplane.Store.Db.{Db, QueueRow, DlqRow, find_execution, find_queued}
use jobplane.Store.Exec.{
  no_rows, unique_violation, Result, ok, err, Exec, ◌>>=◌, ◌>>◌, pure, raise, attempt_to, statement,
  Finish, commits, discards, transaction,
}

abbrev pub max_retries : ℕ
max_retries = 5

abbrev pub visibility_timeout : ℕ
visibility_timeout = 5 * minute

-- UPDATE executions SET f WHERE id = i
unfoldable pub update_execution : Uuid → (Execution → Execution) → Db → Result (Unit {0}) × Db
update_execution i f db =
    (ok tt, record db { executions = map (λ e. if e.id == i then f e else e) db.executions })

-- UPDATE execution_queue SET f WHERE execution_id = i
unfoldable pub update_queued : Uuid → (QueueRow → QueueRow) → Db → Result (Unit {0}) × Db
update_queued i f db =
    (ok tt, record db { queue = map (λ q. if q.execution_id == i then f q else q) db.queue })

-- DELETE FROM execution_queue WHERE execution_id = i
unfoldable pub delete_queued : Uuid → Db → Result (Unit {0}) × Db
delete_queued i db = (ok tt, record db { queue = select (λ q. not (q.execution_id == i)) db.queue })

-- `visibleAfter.IsZero()` means: at once.
abbrev pub visible_or_now : Time → Time → Time
visible_or_now now t = if t == 0 then now else t

unfoldable pub new_row : ℕ → Time → Json → Time → Execution → QueueRow
new_row id now payload visible_after e = record {
  id = id;
  execution_id = e.id;
  tenant_id = e.tenant_id;
  payload = payload;
  priority = e.priority;
  attempt = 0;
  visible_after = visible_after;
  created_at = now;
}

-- INSERT INTO execution_queue … SELECT … FROM executions WHERE id = $1 RETURNING id
unfoldable pub insert_queued : Time → Uuid → Json → Time → Db → Result ℕ × Db
unfolding new_row
insert_queued now i payload visible_after db = elim (find_execution i db.executions) [
  | none ↦ (err no_rows, db)
  | some e ↦ if any (λ q. q.execution_id == i) db.queue then (err unique_violation, db) else (
    ok db.next_queue_id,
    record db {
      queue = db.queue ++ new_row db.next_queue_id now payload visible_after e ∷ [];
      next_queue_id = suc db.next_queue_id;
    },
  )
]

unfoldable pub enqueue : Time → Uuid → Json → Time → Exec ℕ
unfolding insert_queued
enqueue now execution_id payload visible_after =
    statement (insert_queued now execution_id payload (visible_or_now now visible_after))

-- ORDER BY priority DESC, created_at ASC
abbrev pub goes_first : QueueRow → QueueRow → Bool
goes_first a b =
    ltb_ℤ b.priority a.priority || (leb_ℤ b.priority a.priority && leb a.created_at b.created_at)

-- WHERE visible_after <= NOW() AND tenant_id = ANY($2), the second test if tenants are given.
abbrev pub is_claimable : Time → List Uuid → QueueRow → Bool
is_claimable now [] q = leb q.visible_after now
is_claimable now (t ∷ ts) q = leb q.visible_after now && any (λ u. u == q.tenant_id) (t ∷ ts)

abbrev pub has_id : List ℕ → QueueRow → Bool
has_id ids q = any (λ i. i == q.id) ids

-- The rows of `selectQuery`: in order, those that others lock skipped, and at most `limit`.
unfoldable pub select_batch : Time → List ℕ → List Uuid → ℕ → List QueueRow → List QueueRow
select_batch now locked tenants limit queue = take limit (
    select (λ q. not (has_id locked q))
      (order_by goes_first (select (is_claimable now tenants) queue)))

-- UPDATE execution_queue SET attempt = attempt + 1, visible_after = … WHERE id = ANY($2)
abbrev pub claim_row : Time → List ℕ → QueueRow → QueueRow
claim_row now ids q =
    if has_id ids q
    then record q { attempt = q.attempt + 1; visible_after = now + visibility_timeout }
    else q

unfoldable pub update_claimed : Time → List ℕ → Db → Result (Unit {0}) × Db
update_claimed now ids db = (ok tt, record db { queue = map (claim_row now ids) db.queue })

-- COALESCE
abbrev pub or_else : {A : Type 0} → Option A → A → A
or_else none d = d
or_else (some a) d = a

-- UPDATE executions e SET … FROM execution_queue eq WHERE eq.id = ANY($2) AND e.id = eq.execution_id
abbrev pub start_with : Time → Option QueueRow → Execution → Execution
start_with now none e = e
start_with now (some q) e = record e {
  status = running;
  started_at = some (or_else e.started_at now);
  attempt = q.attempt;
}

abbrev pub claim_of : List ℕ → List QueueRow → Uuid → Option QueueRow
claim_of ids queue i = first (λ q. has_id ids q && q.execution_id == i) queue

unfoldable pub update_started : Time → List ℕ → Db → Result (Unit {0}) × Db
update_started now ids db = (
  ok tt,
  record db { executions = map (λ e. start_with now (claim_of ids db.queue e.id) e) db.executions },
)

abbrev pub item_of : QueueRow → QueueItem
item_of q = record { execution_id = q.execution_id; payload = q.payload }

abbrev pub row_id : QueueRow → ℕ
row_id q = q.id

-- `if limit <= 0 { limit = 1 }`
abbrev pub at_least_one : ℤ → ℕ
at_least_one limit = if leb_ℤ limit (pos 0) then 1 else pos_part limit

unfoldable pub claim_batch : Time → List QueueRow → Exec (Finish (List QueueItem))
unfolding update_claimed update_started
claim_batch now [] = pure (discards [])
claim_batch now (q ∷ qs) = do
  let rows = q ∷ qs
  statement (update_claimed now (map row_id rows))
  statement (update_started now (map row_id rows))
  pure (commits (map item_of rows))

-- The body of the transaction.
unfoldable pub dequeue_body : Time → List ℕ → List Uuid → ℤ → Exec (Finish (List QueueItem))
unfolding select_batch claim_batch
dequeue_body now locked tenants limit = do
  rows ← statement (λ db. (ok (select_batch now locked tenants (at_least_one limit) db.queue), db))
  claim_batch now rows

unfoldable pub dequeue_batch : Time → List ℕ → List Uuid → ℤ → Exec (List QueueItem)
unfolding dequeue_body
dequeue_batch now locked tenants limit = transaction (dequeue_body now locked tenants limit)

unfoldable pub complete : Time → Uuid → ℤ → Option Json → Exec (Unit {0})
unfolding delete_queued update_execution
complete now execution_id exit_code result = do
  statement (delete_queued execution_id)
  statement (
      update_execution execution_id (λ e. record e {
        status = completed;
        exit_code = some exit_code;
        result = result;
        completed_at = some now;
      }))

-- SELECT attempt FROM execution_queue WHERE execution_id = $1
unfoldable pub select_attempt : Uuid → Db → Result ℕ × Db
select_attempt i db = elim (find_queued i db.queue) [
  | none ↦ (err no_rows, db)
  | some q ↦ (ok q.attempt, db)
]

-- `10 * (1 << attempt)` seconds. The shift is made only for an attempt of at most `max_retries`.
abbrev pub backoff : ℕ → ℕ
backoff attempt = 10 * 2 ^ attempt * second

unfoldable pub dead_row : ℕ → Time → String → QueueRow → DlqRow
dead_row id now message q = record {
  id = id;
  execution_id = q.execution_id;
  tenant_id = q.tenant_id;
  payload = q.payload;
  error_message = some message;
  attempts = q.attempt;
  failed_at = now;
}

-- INSERT INTO execution_dlq … SELECT … FROM execution_queue WHERE execution_id = $2
unfoldable pub insert_dead : Time → Uuid → String → Db → Result (Unit {0}) × Db
unfolding dead_row
insert_dead now i message db = elim (find_queued i db.queue) [
  | none ↦ (ok tt, db)
  | some q ↦ if any (λ d. d.execution_id == i) db.dlq then (err unique_violation, db) else (
    ok tt,
    record db {
      dlq = db.dlq ++ dead_row db.next_dlq_id now message q ∷ [];
      next_dlq_id = suc db.next_dlq_id;
    },
  )
]

unfoldable pub bury : Time → Uuid → Option ℤ → String → Exec (Unit {0})
unfolding insert_dead delete_queued update_execution
bury now execution_id exit_code message = do
  statement (insert_dead now execution_id message)
  statement (delete_queued execution_id)
  statement (
      update_execution execution_id (λ e. record e {
        status = failed;
        exit_code = exit_code;
        error_message = some message;
        completed_at = some now;
      }))

unfoldable pub reschedule : Time → Uuid → ℕ → Exec (Unit {0})
unfolding update_queued
reschedule now execution_id attempt =
    statement (update_queued execution_id (λ q. record q { visible_after = now + backoff attempt }))

-- A row that is not there counts as fatal, and so does an attempt beyond `max_retries`.
unfoldable pub after_attempt : Time → Uuid → Option ℤ → String → Result ℕ → Exec (Unit {0})
unfolding bury reschedule
after_attempt now execution_id exit_code message (ok attempt) =
    if ltb max_retries attempt
    then bury now execution_id exit_code message
    else reschedule now execution_id attempt
after_attempt now execution_id exit_code message (err no_rows) =
    bury now execution_id exit_code message
after_attempt now execution_id exit_code message (err e) = raise e

unfoldable pub fail : Time → Uuid → Option ℤ → String → Exec (Unit {0})
unfolding select_attempt after_attempt
fail now execution_id exit_code message = do
  attempt ← attempt_to (statement (select_attempt execution_id))
  after_attempt now execution_id exit_code message attempt

unfoldable pub set_visible_after : Uuid → Time → Exec (Unit {0})
unfolding update_queued
set_visible_after execution_id visible_after =
    statement (update_queued execution_id (λ q. record q { visible_after = visible_after }))

unfoldable pub count : Exec ℕ
count = statement (λ db. (ok (length db.queue), db))
