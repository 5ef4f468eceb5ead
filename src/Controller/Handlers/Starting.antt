-- ===== src/Controller/Handlers/Starting.antt =====
-- The steps of RunJob on given tables: the job, the limit, the execution and its row of the queue
-- (internal/controller/handlers/jobs.go).
use jobplane.Base.{
  suc, ◌<◌, ◌≡◌, ◌∙◌, refl, inl, inr, true, false, some, [], ◌∷◌, ◌++◌, ◌==◌, leb, length, select,
  any, arith, Bool-cases, Option-cases, ==_refl, first-append_fresh,
}
use jobplane.Base.Int.{pos, pos_part, ltb_ℤ}
use jobplane.Store.Models.{Uuid, Time, Json, Tenant, Execution}
use jobplane.Store.Db.{Db, find_job, find_execution}
use jobplane.Store.Exec.Triple.{Triple, Post, Keeps-statement, Triple-statement, Triple-bind}
use jobplane.Store.Jobs.{get_job_by_id, insert_execution, create_execution, as_inserted, has_tenant}
use jobplane.Store.Queue.{insert_queued, enqueue, visible_or_now, new_row}
use jobplane.Store.Executions.{count_running_executions, runs_for}
use jobplane.Controller.Handlers.Rules.{Ensures, Ensures-bind, Ensures-keep, Ensures-store}
use jobplane.Controller.Handlers.Rules.Known.{Ensures-unless, Ensures-mono, Ensures-if}
use jobplane.Controller.Handlers.Jobs.{check_concurrency, limit_running}

-- The tenant has room for one more running execution, or no limit.
abbrev pub HasRoom : Tenant → Db → Type 0
HasRoom t db =
    ltb_ℤ (pos 0) t.max_concurrent_executions ≡ true
    → length (select (runs_for t.id) db.executions) < pos_part t.max_concurrent_executions

module _ (before : Db) where
  abbrev pub Same : Db → Type 0
  Same db = db ≡ before

  pub get_job_found :
      (i : Uuid)
      → Triple Same (get_job_by_id i) (λ job db. Same db × (find_job i before.jobs ≡ some job)) Same
  unfolding get_job_by_id
  get_job_found i =
      Triple-statement _
        (λ db same. elim (Option-cases (find_job i db.jobs)) [
          | inl gone ↦ rw gone same
          | inr (job, e) ↦ rw e (same, ground (arith, same, e))
        ])
        (λ db same. same)

  count_running-exact :
      (i : Uuid)
      → Triple Same
          (count_running_executions i)
          (λ n db. Same db × (n ≡ length (select (runs_for i) before.executions)))
          Same
  unfolding count_running_executions
  count_running-exact i =
      Triple-bind {R = λ _. Same} _ _ (Keeps-statement _ (λ db same. same))
        (λ _. Triple-statement _ (λ db same. (same, rw same)) (λ db same. same))

  limit_running-HasRoom :
      (t : Tenant) → Ensures Same (limit_running t) (λ _ db. Same db × HasRoom t before) Same
  unfolding limit_running
  limit_running-HasRoom t =
      Ensures-bind _ _
        (Ensures-store _ "Failed to count running executions" 500 (count_running-exact t.id))
        λ n.
          Ensures-mono (λ d h. h) (λ _ d h. (h.0.0, λ _. ground (arith, h.1, h.0.1))) (λ d h. h.0)
            (Ensures-unless
              {P = λ db. Same db × (n ≡ length (select (runs_for t.id) before.executions))}
              (leb (pos_part t.max_concurrent_executions) n)
              "Max concurrent executions for tenant reached" 429)

  pub check_concurrency-HasRoom :
      (t : Tenant) → Ensures Same (check_concurrency t) (λ _ db. Same db × HasRoom t before) Same
  unfolding check_concurrency
  check_concurrency-HasRoom t =
      Ensures-if (ltb_ℤ (pos 0) t.max_concurrent_executions) _ _
        (λ limited. limit_running-HasRoom t)
        (λ free. Ensures-keep tt (λ db same. (same, λ limited. absurd (ground arith))))

  -- The tables with one execution more, whose id was not taken.
  abbrev pub Appended : Execution → Db → Type 0
  Appended e db =
      (db ≡ record before { executions = before.executions ++ e ∷ [] })
      × (any (λ x. x.id == e.id) before.executions ≡ false)

  insert_execution-Appended :
      (e : Execution)
      → Post (λ _. Appended e) Same (insert_execution e before).0 (insert_execution e before).1
  unfolding insert_execution
  insert_execution-Appended e = elim (Bool-cases (any (λ x. x.id == e.id) before.executions)) [
    | inl taken ↦ rw taken refl
    | inr fresh ↦ rw fresh (elim (Bool-cases (any (λ j. j.id == e.job_id) before.jobs)) [
      | inr no_job ↦ rw no_job refl
      | inl job ↦ rw job (elim (Bool-cases (has_tenant e.tenant_id before)) [
        | inr no_tenant ↦ rw no_tenant refl
        | inl tenant ↦ rw tenant (refl, fresh)
      ])
    ])
  ]

  pub create_execution-Appended :
      (e : Execution) → Triple Same (create_execution e) (λ _. Appended (as_inserted e)) Same
  unfolding create_execution
  create_execution-Appended e =
      Triple-statement _ (λ db same. rw same (insert_execution-Appended (as_inserted e)))
        (λ db same. same)

  abbrev pub Enqueued : Time → Json → Time → Execution → Db → Type 0
  Enqueued now payload t e db = db ≡ record before {
    executions = before.executions ++ e ∷ [];
    queue = before.queue ++ new_row before.next_queue_id now payload t e ∷ [];
    next_queue_id = suc before.next_queue_id;
  }

  insert_queued-Enqueued :
      (now : Time) (payload : Json) (t : Time) (e : Execution)
      → any (λ x. x.id == e.id) before.executions ≡ false
      → let db = record before { executions = before.executions ++ e ∷ [] } in
        Post
          (λ _. Enqueued now payload t e)
          (λ _. Unit {0})
          (insert_queued now e.id payload t db).0
          (insert_queued now e.id payload t db).1
  unfolding insert_queued
  insert_queued-Enqueued now payload t e fresh =
      let found : find_execution e.id (before.executions ++ e ∷ []) ≡ some e =
        first-append_fresh (λ x. x.id == e.id) before.executions (e ∷ []) fresh
        ∙ rw (==_refl e.id) in
      rw (found, insert_queued)
        (elim (Bool-cases (any (λ q. q.execution_id == e.id) before.queue)) [
          | inl taken ↦ rw taken tt
          | inr free ↦ rw free refl
        ])

  pub enqueue-Enqueued :
      (now : Time) (payload : Json) (t : Time) (e : Execution)
      → Triple
          (Appended e)
          (enqueue now e.id payload t)
          (λ _. Enqueued now payload (visible_or_now now t) e)
          (λ _. Unit {0})
  unfolding enqueue
  enqueue-Enqueued now payload t e =
      Triple-statement _
        (λ db h. rw (h.0) (insert_queued-Enqueued now payload (visible_or_now now t) e h.1))
        (λ db h. tt)
