-- ===== src/Controller/Handlers/Isolation.antt =====
-- A tenant sees and retries its own executions only
-- (internal/controller/handlers/executions.go and logs.go).
use jobplane.Base.{
  ◌≡◌, ◌≢◌, String, false, ◌&&◌, some, ◌==◌, arith, inl, inr, Bool-cases, Option-cases,
}
use jobplane.Store.Models.{has_json, Uuid, Tenant, Execution}
use jobplane.Store.Db.{find_execution}
use jobplane.Store.Exec.{next_fault, later_faults}
use jobplane.Api.{Response, ExecutionResponse, execution_found, error_response}
use jobplane.Controller.Handlers.{Library, Call, Server, done, serve}
use jobplane.Controller.Handlers.Executions.{
  owned_execution, get_execution, retry_dlq_execution, to_response,
}
use jobplane.Controller.Handlers.Logs.{get_logs}

abbrev pub not_found : Response
not_found = record { status = 404; body = error_response "Execution not found" 404 }

-- The server after one statement.
abbrev pub after_one : Server → Server
after_one s = record s { world = record { db = s.db; faults = later_faults s.faults } }

module _ (id : Uuid) (t : Tenant) (s : Server) where
  -- The execution `id` is missing, or belongs to another tenant.
  abbrev pub Hidden : Type 0
  Hidden = (e : Execution) → find_execution id s.db.executions ≡ some e → e.tenant_id ≢ t.id

  owned_hidden : Hidden → owned_execution id t.id s ≡ (done not_found, after_one s)
  unfolding owned_execution
  owned_hidden hidden = elim (Bool-cases (next_fault s.faults)) [
    | inl fault ↦ rw fault
    | inr quiet ↦ elim (Option-cases (find_execution id s.db.executions)) [
      | inl gone ↦ rw (quiet, gone)
      | inr (e, found) ↦
          let foreign : (e.tenant_id == t.id) ≡ false = ground (arith, hidden e found) in
          elim (Bool-cases (has_json e.result && has_json e.callback_headers)) [
            | inl read ↦ rw (quiet, found, read) (rw foreign)
            | inr null ↦ rw (quiet, found, null)
          ]
    ]
  ]

  module _ (lib : Library) (id_str : String) (parsed : lib.parse_uuid id_str ≡ some id) where
    -- For an execution that is missing or of another tenant, GetExecution, GetExecutionLogs and
    -- RetryDQLExecution give one and the same 404, and change no table.
    pub hidden_not_found :
        (call : Call) (limit after_id : String)
        → Hidden
        → (serve (get_execution lib id_str (some t)) s ≡ (not_found, after_one s))
          × (serve (get_logs lib id_str (some t) limit after_id) s ≡ (not_found, after_one s))
          × (serve (retry_dlq_execution lib call (some t) id_str) s ≡ (not_found, after_one s))
    unfolding get_execution get_logs retry_dlq_execution
    hidden_not_found call limit after_id hidden =
        let e = owned_hidden hidden in (rw parsed (rw e), rw parsed (rw e), rw parsed (rw e))

    -- What a tenant gets is its own execution as the table has it.
    found_own :
        {r : ExecutionResponse}
        → (serve (get_execution lib id_str (some t)) s).0
          ≡ record { status = 200; body = execution_found r }
        → (e : Execution) × (find_execution id s.db.executions ≡ some e)
          × (e.tenant_id ≡ t.id)
          × (r ≡ to_response e)
    unfolding get_execution owned_execution
    found_own {r} h = elim (Bool-cases (next_fault s.faults)) [
      | inl fault ↦ absurd (ground arith)
      | inr quiet ↦ elim (Option-cases (find_execution id s.db.executions)) [
        | inl gone ↦ absurd (ground arith)
        | inr (e, found) ↦ elim (Bool-cases (has_json e.result && has_json e.callback_headers)) [
          | inl read ↦ (e, found, ground arith, ground arith)
          | inr null ↦ absurd (ground arith)
        ]
      ]
    ]
