-- ===== src/Controller/Handlers/Atomicity.antt =====
-- A request that is refused or fails has changed no table
-- (internal/controller/handlers/jobs.go and executions.go).
use jobplane.Base.{ℕ, ◌≤◌, ◌<◌, ◌≡◌, ◌∙◌, refl, String, Option, List, arith}
use jobplane.Store.Models.{Uuid, Tenant}
use jobplane.Store.Db.{Db}
use jobplane.Store.Exec.{Exec, Result, ok, err, Error, Finish, transaction}
use jobplane.Store.Exec.Triple.{Triple, Keeps, Post, Keeps-statement, transaction-err}
use jobplane.Store.Jobs.{get_job_by_id}
use jobplane.Store.Queue.{dequeue_batch}
use jobplane.Store.Executions.{get_execution_by_id, retry_from_dlq}
use jobplane.Api.{Body, Response, CreateJobRequest, DequeueRequest}
use jobplane.Controller.Handlers.{Library, Call, Server, Handler, serve, ◌>>=◌, ok_response}
use jobplane.Controller.Handlers.Rules.{
  Ensures, Ensures-bind, Ensures-keep, Ensures-store, Holds, holds_rules,
}
use jobplane.Controller.Handlers.Rules.Known.{Ensures-in_transaction, Ensures-nothing, serve-Fails}
use jobplane.Controller.Handlers.Jobs.{RunJobBody, create_job_handler, run_job}
use jobplane.Controller.Handlers.Executions.{owned_execution, retry_dlq_execution}
use jobplane.Controller.Handlers.Internal.{internal_dequeue}

-- With an answer of 400 or more the tables are those before the request.
abbrev pub IsAtomic : Handler Response → Type 0
IsAtomic h = (s : Server) → 400 ≤ (serve h s).0.status → (serve h s).1.db ≡ s.db

abbrev Same : Db → Db → Type 0
Same before db = db ≡ before

abbrev Succeeds : Db → Handler Response → Type 0
Succeeds before h = Ensures (Same before) h (λ r _. r.status < 400) (Same before)

from_Succeeds : (h : Handler Response) → ((before : Db) → Succeeds before h) → IsAtomic h
from_Succeeds h t s = serve-Fails h s (t s.db) refl

transaction-Post :
    {A : Type 0} (r : Result A) (before db : Db)
    → ((e : Error) → r ≡ err e → db ≡ before)
    → Post (λ _ _. Unit {0}) (Same before) r db
transaction-Post (ok a) before db h = tt
transaction-Post (err e) before db h = h e refl

transaction-Triple :
    {A : Type 0} (before : Db) (m : Exec (Finish A))
    → Triple (Same before) (transaction m) (λ _ _. Unit {0}) (Same before)
transaction-Triple before m = record {
  at =
      λ w same. transaction-Post (transaction m w).0 before _ (λ e h. transaction-err m w h ∙ same);
}

module _ (before : Db) where
  get_job-Same : (i : Uuid) → Keeps (Same before) (get_job_by_id i)
  unfolding get_job_by_id
  get_job-Same i = Keeps-statement _ (λ db v. v)

  get_execution-Same : (i : Uuid) → Keeps (Same before) (get_execution_by_id i)
  unfolding get_execution_by_id
  get_execution-Same i = Keeps-statement _ (λ db v. v)

  owned-Same : (i tenant_id : Uuid) → Holds (Same before) (owned_execution i tenant_id)
  unfolding owned_execution
  owned-Same i tenant_id = search (holds_rules, get_execution-Same)

  -- The rest of a handler after a part that only reads.
  reads :
      {A : Type 0} (m : Handler A) (f : A → Handler Response)
      → Holds (Same before) m
      → ((a : A) → Succeeds before (f a))
      → Succeeds before (m >>= f)
  reads m f h k = Ensures-bind {R = λ _. Same before} m f h k

  -- The rest of a handler after the part that writes.
  writes :
      {A : Type 0} (m : Handler A) (body : A → Body)
      → Ensures (Same before) m (λ _ _. Unit {0}) (Same before)
      → Succeeds before (m >>= λ a. ok_response 200 (body a))
  writes m body t = Ensures-bind {R = λ _ _. Unit {0}} m _ t (λ a. Ensures-keep _ (λ db _. low))
    where
      low : 200 < 400
      low = omega arith

  module _ (lib : Library) (call : Call) where
    run_job-Succeeds :
        (id : String) (tenant : Option Tenant) (body : RunJobBody)
        → Succeeds before (run_job lib call id tenant body)
    unfolding run_job
    run_job-Succeeds id tenant body =
        search (reads, writes, holds_rules, get_job-Same, Ensures-in_transaction, Ensures-nothing)
          depth 14

    create_job-Succeeds :
        (tenant : Option Tenant) (body : Option CreateJobRequest)
        → Succeeds before (create_job_handler lib call tenant body)
    unfolding create_job_handler
    create_job-Succeeds tenant body =
        search (reads, writes, holds_rules, Ensures-in_transaction, Ensures-nothing) depth 12

    retry-Succeeds :
        (tenant : Option Tenant) (id : String)
        → Succeeds before (retry_dlq_execution lib call tenant id)
    unfolding retry_dlq_execution retry_from_dlq
    retry-Succeeds tenant id =
        search (reads, writes, holds_rules, owned-Same, Ensures-store, transaction-Triple) depth 12

  dequeue-Succeeds :
      (call : Call) (locked : List ℕ) (body : Option DequeueRequest)
      → Succeeds before (internal_dequeue call locked body)
  unfolding internal_dequeue dequeue_batch
  dequeue-Succeeds call locked body =
      search (reads, writes, holds_rules, Ensures-store, transaction-Triple) depth 12

-- RunJob, CreateJob, RetryDQLExecution and InternalDequeue change nothing unless they succeed,
-- whatever the request is and whichever statement the environment lets fail.
pub handlers-IsAtomic :
    (lib : Library) (call : Call) (id : String) (tenant : Option Tenant)
    → ((body : RunJobBody) → IsAtomic (run_job lib call id tenant body))
      × ((body : Option CreateJobRequest) → IsAtomic (create_job_handler lib call tenant body))
      × IsAtomic (retry_dlq_execution lib call tenant id)
      × ((locked : List ℕ) (body : Option DequeueRequest)
          → IsAtomic (internal_dequeue call locked body))
handlers-IsAtomic lib call id tenant = (
  λ body. from_Succeeds _ (λ before. run_job-Succeeds before lib call id tenant body),
  λ body. from_Succeeds _ (λ before. create_job-Succeeds before lib call tenant body),
  from_Succeeds _ (λ before. retry-Succeeds before lib call tenant id),
  λ locked body. from_Succeeds _ (λ before. dequeue-Succeeds before call locked body),
)
