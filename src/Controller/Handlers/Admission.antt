-- ===== src/Controller/Handlers/Admission.antt =====
-- What RunJob checks and writes when it succeeds (internal/controller/handlers/jobs.go).
use jobplane.Base.{suc, ◌≡◌, refl, String, false, some, [], ◌∷◌, ◌++◌, not, ◌==◌, arith}
use jobplane.Store.Models.{Uuid, Tenant, Job}
use jobplane.Store.Db.{Db, find_job}
use jobplane.Store.Jobs.{get_job_by_id, create_execution, as_inserted}
use jobplane.Store.Queue.{enqueue, visible_or_now, new_row}
use jobplane.Api.{Response, RunJobRequest, run_started}
use jobplane.Controller.Handlers.{Library, Call, Server, going}
use jobplane.Controller.Handlers.Rules.{
  Ensures, Ensures-bind, Ensures-keep, Ensures-store, Ensures-weaken,
}
use jobplane.Controller.Handlers.Rules.Known.{
  Ensures-unless, Ensures-in_transaction, Ensures-going, with_fact, with_fact', require_known,
}
use jobplane.Controller.Handlers.Jobs.{
  RunJobBody, run_job_request, run_job, start_execution, new_execution, in_past, scheduled_time,
}
use jobplane.Controller.Handlers.Starting.{
  HasRoom, Same, Appended, get_job_found, check_concurrency-HasRoom, create_execution-Appended,
  enqueue-Enqueued,
}

module _ (lib : Library) (call : Call) (t : Tenant) where
  -- The execution and its row of the queue are added, and nothing else changes.
  unfoldable pub started_db : Uuid → RunJobRequest → Job → Db → Db
  started_db job_id req job db =
      let e = as_inserted (new_execution lib call job_id req t job) in
      record db {
        executions = db.executions ++ e ∷ [];
        queue =
            db.queue
            ++ new_row db.next_queue_id call.now (lib.marshal_payload job)
                (visible_or_now call.now (scheduled_time call.now req.scheduled_at)) e
              ∷ [];
        next_queue_id = suc db.next_queue_id;
      }

  pub record IsStarted (id : String) (body : RunJobBody) (before after : Db) : Type 0 where
    pub job_id : Uuid
    pub req : RunJobRequest
    pub job : Job
    pub parsed : lib.parse_uuid id ≡ some job_id
    pub decoded : run_job_request body ≡ some req
    pub found : find_job job_id before.jobs ≡ some job
    pub own : job.tenant_id ≡ t.id
    pub on_time : in_past call.now req.scheduled_at ≡ false
    pub room : HasRoom t before
    pub written : after ≡ started_db job_id req job before

module _ (before : Db) where
  module _ (lib : Library) (call : Call) (t : Tenant) where
    start_execution-writes :
        (job_id : Uuid) (req : RunJobRequest) (job : Job)
        → Ensures
            (Same before)
            (start_execution lib call job_id req t job)
            (λ _ db. (db ≡ started_db lib call t job_id req job before) × HasRoom t before)
            (λ _. Unit {0})
    unfolding start_execution new_execution started_db
    start_execution-writes job_id req job =
        let e = new_execution lib call job_id req t job in
        Ensures-bind {R = λ _ db. Same before db × HasRoom t before} _ _
          (Ensures-weaken (check_concurrency-HasRoom before t))
          λ _. with_fact (HasRoom t before) (
            Ensures-bind {R = λ _. Appended before (as_inserted e)} _ _
              (Ensures-weaken (
                Ensures-store (create_execution e) "Failed to create execution" 500
                  (create_execution-Appended before e)))
              λ _.
                Ensures-bind {R = λ _ db. db ≡ started_db lib call t job_id req job before} _ _
                  (Ensures-store
                    (enqueue call.now call.new_uuid (lib.marshal_payload job)
                      (scheduled_time call.now req.scheduled_at))
                    "Failed to enqueue" 500
                    (enqueue-Enqueued before call.now (lib.marshal_payload job)
                      (scheduled_time call.now req.scheduled_at) (as_inserted e)))
                  (λ _. Ensures-keep tt (λ db v. v)))

    run_job-IsStarted :
        (id : String) (body : RunJobBody)
        → Ensures
            (Same before)
            (run_job lib call id (some t) body)
            (λ r db.
              (r ≡ record { status = 200; body = run_started call.new_uuid })
              × IsStarted lib call t id body before db)
            (λ _. Unit {0})
    unfolding run_job
    run_job-IsStarted id body =
        Ensures-bind {R = λ i db. Same before db × (lib.parse_uuid id ≡ some i)} _ _
          (require_known (lib.parse_uuid id) "Invalid job id" 400)
          λ job_id. with_fact' (lib.parse_uuid id ≡ some job_id) λ parsed.
            Ensures-bind {R = λ req db. Same before db × (run_job_request body ≡ some req)} _ _
              (require_known (run_job_request body) "Invalid request body" 400)
              λ req. with_fact' (run_job_request body ≡ some req) λ decoded.
                Ensures-bind
                  {R = λ job db. Same before db × (find_job job_id before.jobs ≡ some job)} _ _
                  (Ensures-weaken (
                    Ensures-store (get_job_by_id job_id) "Related job not found" 404
                      (get_job_found before job_id)))
                  λ job. with_fact' (find_job job_id before.jobs ≡ some job) λ found.
                    Ensures-bind _ _
                      (Ensures-weaken
                        (Ensures-unless (not (job.tenant_id == t.id)) "Related job not found" 404))
                      λ _. with_fact' (not (job.tenant_id == t.id) ≡ false) λ own.
                        Ensures-bind _ _
                          (Ensures-weaken (
                            Ensures-unless (in_past call.now req.scheduled_at)
                              "Scheduled time cannot be in the past" 400))
                          λ _. with_fact' (in_past call.now req.scheduled_at ≡ false) λ on_time.
                            Ensures-bind _ _
                              (Ensures-weaken (
                                Ensures-in_transaction (start_execution lib call job_id req t job)
                                  (start_execution-writes job_id req job)))
                              (λ _. Ensures-keep _ (λ db h. (
                                refl,
                                record {
                                  job_id = job_id;
                                  req = req;
                                  job = job;
                                  parsed = parsed;
                                  decoded = decoded;
                                  found = found;
                                  own = ground arith;
                                  on_time = on_time;
                                  room = h.1;
                                  written = h.0;
                                },
                              )))

-- A run that is accepted is for a job of the tenant, not in the past and within the limit on
-- running executions, and adds the execution and its row of the queue.
pub run_job_ok :
    (lib : Library) (call : Call) (t : Tenant) (id : String) (body : RunJobBody) (s : Server)
    {r : Response}
    → (run_job lib call id (some t) body s).0 ≡ going r
    → (r ≡ record { status = 200; body = run_started call.new_uuid })
      × IsStarted lib call t id body s.db (run_job lib call id (some t) body s).1.db
run_job_ok lib call t id body s h =
    Ensures-going (run_job lib call id (some t) body) s (run_job-IsStarted s.db lib call t id body)
      refl h
