-- ===== src/Store/Invariant/Finishing.antt =====
-- Complete and Fail keep the invariant, also where one of their statements fails: they run outside
-- a transaction.
use jobplane.Base.{
  ℕ, ◌≡◌, refl, inl, inr, String, false, not, Option, some, map, arith, ◌==◌, ltb, if◌then◌else◌,
  All-mono, All-select, All-unless, All-first, All-append, Distinct-map, Distinct-select,
  Distinct-append_one, any-select_not, first_sound, any, Bool-cases, Option-cases, ==_iff,
}
use jobplane.Base.Int.{ℤ}
use jobplane.Store.Models.{Uuid, Time, Json, Execution}
use jobplane.Store.Db.{execution_key, queue_key, dead_key, Db, QueueRow, find_queued}
use jobplane.Store.Exec.{Result, ok, err, no_rows, statement, ◌>>=◌}
use jobplane.Store.Exec.Triple.{
  Keeps, Triple-bind, Triple-statement, Triple-raise, Keeps-attempt_to, Keeps-if, Keeps-statement,
}
use jobplane.Store.Queue.{
  update_execution, delete_queued, complete, insert_dead, dead_row, bury, select_attempt,
  after_attempt, fail, max_retries,
}
use jobplane.Store.Invariant.Backed.{Backed, Known, IsConsistent, Preserves, Backed-map, Known-map}
use jobplane.Store.Invariant.Queueing.{reschedule-IsConsistent}

-- No row of the queue belongs to the execution `i`.
abbrev pub Unqueued : Uuid → Db → Type 0
Unqueued i db = any (λ q. q.execution_id == i) db.queue ≡ false

pub delete_queued-IsConsistent :
    (i : Uuid) (db : Db) → IsConsistent db → IsConsistent (delete_queued i db).1
unfolding delete_queued
delete_queued-IsConsistent i db v = record {
  executions_distinct = v.executions_distinct;
  queue_distinct = Distinct-select queue_key _ db.queue v.queue_distinct;
  dlq_distinct = v.dlq_distinct;
  backed =
      All-select (Backed db.executions) (Backed db.executions) _ db.queue (λ q _ b. b) v.backed;
  known = v.known;
}

pub delete_queued-Unqueued : (i : Uuid) (db : Db) → Unqueued i (delete_queued i db).1
unfolding delete_queued
delete_queued-Unqueued i db =
    any-select_not (λ q. q.execution_id == i) (λ q. not (q.execution_id == i)) db.queue
      (λ q h. ground arith)

module _ (i : Uuid) (f : Execution → Execution) (keep : (e : Execution) → (f e).id ≡ e.id) where
  abbrev on_i : Execution → Execution
  on_i e = if e.id == i then f e else e

  on_i-id : (e : Execution) → (on_i e).id ≡ e.id
  on_i-id e = ground (arith, keep e)

  on_i-Preserves : (j : Uuid) → (j == i) ≡ false → Preserves on_i j
  on_i-Preserves j h = record {
    keeps_id = on_i-id;
    keeps_active = λ e same a. ground arith;
    keeps_tenant = λ e same. ground arith;
    keeps_priority = λ e same. ground arith;
  }

  -- An UPDATE of an execution that is not queued.
  pub update_execution-IsConsistent :
      (db : Db) → IsConsistent db → Unqueued i db → IsConsistent (update_execution i f db).1
  unfolding update_execution
  update_execution-IsConsistent db v u = record {
    executions_distinct =
        Distinct-map execution_key on_i db.executions on_i-id v.executions_distinct;
    queue_distinct = v.queue_distinct;
    dlq_distinct = v.dlq_distinct;
    backed =
        All-unless (Backed db.executions) (Backed (map on_i db.executions))
          (λ q. q.execution_id == i) db.queue
          (λ q miss. Backed-map on_i db.executions q (on_i-Preserves q.execution_id miss)) u
          v.backed;
    known = All-mono _ _ db.dlq (Known-map on_i db.executions on_i-id) v.known;
  }

  -- DELETE from the queue, then UPDATE the execution.
  pub finish-IsConsistent :
      Keeps IsConsistent (statement (delete_queued i) >>= λ _. statement (update_execution i f))
  unfolding delete_queued update_execution
  finish-IsConsistent =
      Triple-bind {R = λ _ db. IsConsistent db × Unqueued i db} _ _
        (Triple-statement (delete_queued i) (λ db v. deleted db v) (λ db v. v))
        λ _. Triple-statement (update_execution i f) (λ db h. updated db h) (λ db h. h.0)
    where
      deleted :
          (db : Db)
          → IsConsistent db
          → IsConsistent (delete_queued i db).1 × Unqueued i (delete_queued i db).1
      deleted db v = (delete_queued-IsConsistent i db v, delete_queued-Unqueued i db)

      updated :
          (db : Db) → IsConsistent db × Unqueued i db → IsConsistent (update_execution i f db).1
      updated db h = update_execution-IsConsistent db h.0 h.1

pub complete-IsConsistent :
    (now : Time) (i : Uuid) (exit_code : ℤ) (result : Option Json)
    → Keeps IsConsistent (complete now i exit_code result)
unfolding complete
complete-IsConsistent now i exit_code result = finish-IsConsistent i _ (λ e. refl)

insert_dead-IsConsistent :
    (now : Time) (i : Uuid) (message : String) (db : Db)
    → IsConsistent db
    → IsConsistent (insert_dead now i message db).1
unfolding insert_dead
insert_dead-IsConsistent now i message db v = elim (Option-cases (find_queued i db.queue)) [
  | inl gone ↦ rw (gone, insert_dead) v
  | inr (q, e) ↦
      rw (e, insert_dead)
        (elim (Bool-cases (any (λ d. d.execution_id == i) db.dlq)) [
          | inl old ↦ rw old v
          | inr new ↦ rw new (record {
            executions_distinct = v.executions_distinct;
            queue_distinct = v.queue_distinct;
            dlq_distinct =
                Distinct-append_one dead_key db.dlq _
                  (rw ((==_iff _ _).0 (first_sound (λ q. q.execution_id == i) db.queue q e)) new)
                  v.dlq_distinct;
            backed = v.backed;
            known = All-append (Known db.executions) db.dlq _ v.known (known q e, tt);
          })
        ])
]
  where
    known :
        (q : QueueRow)
        → find_queued i db.queue ≡ some q
        → Known db.executions (dead_row db.next_dlq_id now message q)
    known q e =
        let b = All-first (Backed db.executions) _ db.queue q v.backed e in
        record { execution = b.execution; found = b.found }

pub bury-IsConsistent :
    (now : Time) (i : Uuid) (exit_code : Option ℤ) (message : String)
    → Keeps IsConsistent (bury now i exit_code message)
unfolding bury
bury-IsConsistent now i exit_code message =
    Triple-bind {R = λ _. IsConsistent} _ _
      (Keeps-statement (insert_dead now i message) (insert_dead-IsConsistent now i message))
      (λ _. finish-IsConsistent i _ (λ e. refl))

after_attempt-IsConsistent :
    (now : Time) (i : Uuid) (exit_code : Option ℤ) (message : String) (r : Result ℕ)
    → Keeps IsConsistent (after_attempt now i exit_code message r)
unfolding after_attempt
after_attempt-IsConsistent now i exit_code message (ok attempt) =
    Keeps-if (ltb max_retries attempt) _ _ (bury-IsConsistent now i exit_code message)
      (reschedule-IsConsistent now i attempt)
after_attempt-IsConsistent now i exit_code message (err no_rows) =
    bury-IsConsistent now i exit_code message
after_attempt-IsConsistent now i exit_code message (err e) = Triple-raise _ (λ db v. v)

select_attempt-unchanged : (i : Uuid) (db : Db) → (select_attempt i db).1 ≡ db
unfolding select_attempt
select_attempt-unchanged i db = ground arith

pub fail-IsConsistent :
    (now : Time) (i : Uuid) (exit_code : Option ℤ) (message : String)
    → Keeps IsConsistent (fail now i exit_code message)
unfolding fail
fail-IsConsistent now i exit_code message =
    Triple-bind {R = λ _. IsConsistent} _ _
      (Keeps-attempt_to _
        (Keeps-statement (select_attempt i) (λ db v. rw (select_attempt-unchanged i db) v)))
      (after_attempt-IsConsistent now i exit_code message)
