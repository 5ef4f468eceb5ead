-- ===== src/Controller/Handlers/Unread.antt =====
-- An execution without a result cannot be read (internal/store/postgres/execution.go,
-- GetExecutionByID, and internal/controller/handlers/executions.go and logs.go).
use jobplane.Base.{
  ◌≡◌, refl, ap, sym, subst, String, false, Option, none, some, ◌==◌, ==_refl, arith, inl, inr,
  Bool-cases, if◌then◌else◌, ◌∙◌,
}
use mathlib.Core.Option
use jobplane.Base.Int.{ℤ}
use jobplane.Store.Models.{Uuid, Time, Tenant, Execution, has_json}
use jobplane.Store.Db.{Db, find_execution}
use jobplane.Store.Exec.{World, next_fault}
use jobplane.Store.Queue.{fail}
use jobplane.Store.Queue.Outcome.{
  quiet, as_failed, executions_of, FailOutcome, retried, buried, ended, refused, fail-FailOutcome,
}
use jobplane.Api.{ExecutionResultRequest}
use jobplane.Controller.Handlers.{Library, Call, Hooks, Server, done, serve, serving}
use jobplane.Controller.Handlers.Executions.{owned_execution, get_execution}
use jobplane.Controller.Handlers.Internal.{
  internal_update_result, record_result, is_success, trigger_webhook,
}
use jobplane.Controller.Handlers.Isolation.{not_found, after_one}
use jobplane.Controller.Handlers.Logs.{get_logs}

module _ (i : Uuid) where
  -- The execution is there, and its result is NULL.
  abbrev pub IsUnread : Db → Type 0
  IsUnread db = (e : Execution) × (executions_of db i ≡ some e) × (has_json e.result ≡ false)

  owned_unread :
      (t : Uuid) (s : Server)
      → IsUnread s.db
      → owned_execution i t s ≡ (done not_found, after_one s)
  unfolding owned_execution
  owned_unread t s (e, found, null) = elim (Bool-cases (next_fault s.faults)) [
    | inl fault ↦ rw fault
    | inr quiet_now ↦ rw (quiet_now, found) (rw null)
  ]

  trigger_unread : (w : World) → IsUnread w.db → trigger_webhook i w ≡ none
  unfolding trigger_webhook
  trigger_unread w (e, found, null) = elim (Bool-cases (next_fault w.faults)) [
    | inl fault ↦ rw fault
    | inr quiet_now ↦ rw (quiet_now, found) (rw null)
  ]

  -- Fail writes no result.
  fail-IsUnread :
      (now : Time) (exit_code : Option ℤ) (message : String) (db : Db)
      → IsUnread db
      → IsUnread (fail now i exit_code message (quiet db)).1.db
  fail-IsUnread now exit_code message db (e, found, null) =
      outcome (fail-FailOutcome now i db exit_code message)
    where
      after : Db
      after = (fail now i exit_code message (quiet db)).1.db

      marked :
          executions_of after i ≡ (
            if i == i
            then Option.map (as_failed now exit_code message) (executions_of db i)
            else executions_of db i)
          → IsUnread after
      marked same = (as_failed now exit_code message e, same ∙ rw (==_refl i, found) refl, null)

      outcome :
          FailOutcome now i db exit_code message (fail now i exit_code message (quiet db)).0 after
          → IsUnread after
      outcome (retried q queued low ok_now updates executions dlq) = (e, rw executions found, null)
      outcome (buried q queued high ok_now deletes updates dlq) = marked (updates i)
      outcome (ended gone ok_now queue updates dlq) = marked (updates i)
      outcome (refused q queued high old refusal same) = (e, rw same found, null)

module _ (lib : Library) (i : Uuid) (id : String) (parsed : lib.parse_uuid id ≡ some i) where
  -- The tables after a report of failure, whether the answer is 200 or 500.
  reported :
      (call : Call) (hooks : Hooks) (req : ExecutionResultRequest) (db : Db)
      → is_success req ≡ false
      → (serve (internal_update_result lib hooks call id (some req)) (serving db)).1.db
        ≡ (fail call.now i req.exit_code req.error (quiet db)).1.db
  unfolding internal_update_result record_result
  reported call hooks req db failure = rw (parsed, failure) (ground arith)

  -- Where no statement of the report is lost, a report of failure about an execution with no result
  -- leaves it one that GetExecutionByID cannot read: the webhook of the report finds nothing to
  -- deliver, and GetExecution and GetExecutionLogs answer 404 also to the execution's own tenant.
  pub failure_unread :
      (call : Call) (hooks : Hooks) (req : ExecutionResultRequest) (db : Db) (e : Execution)
      → is_success req ≡ false
      → find_execution i db.executions ≡ some e
      → e.result ≡ none
      → (t : Tenant) (limit after_id : String)
      → let (r, s) = serve (internal_update_result lib hooks call id (some req)) (serving db) in
        (trigger_webhook i s.world ≡ none)
        × (serve (get_execution lib id (some t)) s ≡ (not_found, after_one s))
        × (serve (get_logs lib id (some t) limit after_id) s ≡ (not_found, after_one s))
  unfolding get_execution get_logs
  failure_unread call hooks req db e failure found null t limit after_id =
      let s : Server =
        (serve (internal_update_result lib hooks call id (some req)) (serving db)).1 in
      let unread : IsUnread i s.db =
        subst (IsUnread i) (sym (reported call hooks req db failure))
          (fail-IsUnread i call.now req.exit_code req.error db (e, found, ap has_json null)) in
      let hidden = owned_unread i t.id s unread in
      (trigger_unread i s.world unread, rw parsed (rw hidden), rw parsed (rw hidden))
