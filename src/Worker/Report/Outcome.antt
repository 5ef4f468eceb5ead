-- ===== src/Worker/Report/Outcome.antt =====
-- The controller and the agent agree on what success is (internal/worker/agent.go and
-- internal/controller/handlers/executions.go).
use jobplane.Base.{
  suc, ◌^◌, ◌≤◌, ◌≡◌, ◌↔◌, refl, subst, zero, inl, inr, true, false, Option, none, some, arith, ltb,
  Bool-cases,
}
use jobplane.Base.Int.{pos, negsuc}
use jobplane.Store.Models.{Json, Job}
use jobplane.Controller.Handlers.Internal.{is_success}
use jobplane.Worker.Report.{
  Host, wait_error, exited, ResultFile, no_directory, unreadable, content, Run, start_error,
  started, job_of, get_result_from_file, report_of, process_item, report_job,
}

-- The job starts and exits with code 0.
abbrev pub Succeeds : Run → Type 0
Succeeds (start_error text) = ⊥
Succeeds (started (wait_error text late) file) = ⊥
Succeeds (started (exited code error) file) = code ≡ pos 0

-- The report has the result that lies in the file, which is JSON of at most 1 MiB.
abbrev pub IsResultOf : Host → Json → Run → Type 0
IsResultOf host json (start_error text) = ⊥
IsResultOf host json (started waited file) =
    (file ≡ content json) × (host.size json ≤ 2 ^ 20) × (host.is_json json ≡ true)

module _ (host : Host) where
  get_result-content :
      (file : ResultFile) (json : Json)
      → get_result_from_file host file ≡ some json
      → (file ≡ content json) × (host.size json ≤ 2 ^ 20) × (host.is_json json ≡ true)
  unfolding get_result_from_file
  get_result-content no_directory json h = absurd (cc)
  get_result-content unreadable json h = absurd (cc)
  get_result-content (content text) json h = elim (Bool-cases (ltb (2 ^ 20) (host.size text))) [
    | inl large ↦ let e = rw large at h in absurd (cc)
    | inr small ↦ elim (Bool-cases (host.is_json text)) [
      | inr bad ↦ let e = rw (small, bad) at h in absurd (cc)
      | inl good ↦
          let e = rw (small, good) at h in
          let same : text ≡ json = cc in
          (
            cc,
            subst (λ t. host.size t ≤ 2 ^ 20) same (ground arith),
            subst (λ t. host.is_json t ≡ true) same good,
          )
    ]
  ]

  pub report-success :
      (job : Job) (r : Run) → (is_success (report_of host job r) ≡ true) ↔ Succeeds r
  unfolding report_of
  report-success job (start_error text) = (λ h. cc, λ h. absurd h)
  report-success job (started (wait_error text true) file) = (λ h. cc, λ h. absurd h)
  report-success job (started (wait_error text false) file) = (λ h. cc, λ h. absurd h)
  report-success job (started (exited (negsuc n) error) file) = (λ h. cc, λ h. cc)
  report-success job (started (exited (pos zero) error) file) = (λ h. refl, λ h. refl)
  report-success job (started (exited (pos (suc n)) error) file) =
      (λ h. ground arith, λ h. ground arith)

  report-result :
      (job : Job) (r : Run) (json : Json)
      → (report_of host job r).result ≡ some json
      → Succeeds r × IsResultOf host json r
  unfolding report_of
  report-result job (start_error text) json h = absurd (cc)
  report-result job (started (wait_error text true) file) json h = absurd (cc)
  report-result job (started (wait_error text false) file) json h = absurd (cc)
  report-result job (started (exited (negsuc n) error) file) json h = absurd (cc)
  report-result job (started (exited (pos zero) error) file) json h =
      (refl, get_result-content file json h)
  report-result job (started (exited (pos (suc n)) error) file) json h = absurd (ground arith)

  module _ (payload : Json) (run : Job → Run) where
    abbrev Agrees : Option Job → Type 0
    Agrees o =
        let req = report_job host payload o run in
        ((is_success req ≡ true) ↔ ((job : Job) × (o ≡ some job) × Succeeds (run job)))
        × ((json : Json)
            → req.result ≡ some json
            → (job : Job) × (o ≡ some job) × Succeeds (run job) × IsResultOf host json (run job))

    report_job-Agrees : (o : Option Job) → Agrees o
    report_job-Agrees none = ((λ h. absurd (cc), λ h. absurd (cc)), λ json h. absurd (cc))
    report_job-Agrees (some job) =
        let both = report-success job (run job) in
        (
          (
            λ h. (job, refl, both.0 h),
            λ h. let same : h.0 ≡ job = cc in both.1 (subst (λ j. Succeeds (run j)) same h.2),
          ),
          λ json h. let r = report-result job (run job) json h in (job, refl, r.0, r.1),
        )

  -- What the agent reports counts as a success for the controller exactly where the payload names a
  -- job and that job starts and exits with code 0; and a report has a result only then, the one that
  -- lies in the result file, valid and of at most 1 MiB.
  pub process_item-success :
      (payload : Json) (run : Job → Run)
      → let req = process_item host payload run in
        ((is_success req ≡ true)
          ↔ ((job : Job) × (job_of host payload ≡ some job) × Succeeds (run job)))
        × ((json : Json)
            → req.result ≡ some json
            → (job : Job) × (job_of host payload ≡ some job)
              × Succeeds (run job)
              × IsResultOf host json (run job))
  unfolding process_item
  process_item-success payload run = report_job-Agrees payload run (job_of host payload)
