-- ===== src/Store/Queue/Stays.antt =====
-- What the calls about other executions leave of one that is queued
-- (internal/store/postgres/queue.go): its row, exactly.
pub mod Calls
use jobplane.Base.{
  ℕ, suc, ◌+◌, ◌≤◌, ◌<◌, ◌≡◌, ◌≢◌, ◌⊎◌, refl, sym, ap, ◌∙◌, subst, inl, inr, String, Bool, true,
  false, not, Option, none, some, List, [], ◌∷◌, ◌++◌, arith, map, ◌==◌, ==_iff, ltb, if◌then◌else◌,
  any, first, select, All, All-append, All-map, All-select, any-map, any-select, any-select_keep,
  any-append_one, any-append_some, first_sound, Bool-cases, Option-cases,
}
use jobplane.Base.Int.{ℤ}
use jobplane.Store.Models.{Uuid, Time, Json, Execution}
use jobplane.Store.Db.{Db, QueueRow, DlqRow, find_execution, find_queued}
use jobplane.Store.Exec.{Result, ok, err, no_rows, statement, World}
use jobplane.Store.Exec.Triple.{
  Keeps, Triple-bind, Triple-raise, Triple-weaken, Triple-pure, Keeps-statement, Keeps-attempt_to,
  Keeps-if, Keeps-transaction,
}
use jobplane.Store.Queue.{
  update_execution, update_queued, delete_queued, complete, insert_dead, dead_row, bury,
  select_attempt, after_attempt, fail, max_retries, reschedule, set_visible_after, insert_queued,
  new_row, enqueue,
}
use jobplane.Store.Jobs.{insert_execution}
use jobplane.Store.Executions.{select_dead, delete_dead, retry_of, retry_body, retry_from_dlq}
use jobplane.Store.Queue.Held.{found_id}

-- `r` is the row `q` if it is of the execution, and has another id if it is not.
abbrev pub Own : Uuid → QueueRow → QueueRow → Type 0
Own i q r = (r.execution_id ≡ i → r ≡ q) × (r.id ≡ q.id → r.execution_id ≡ i)

-- The execution is there, is no dead letter, and its one row of the queue is `q`, whose id is no other
-- row's and lies before the next one of the sequence.
pub record Stays (i : Uuid) (q : QueueRow) (db : Db) : Type 0 where
  pub known : any (λ e. e.id == i) db.executions ≡ true
  pub alive : any (λ d. d.execution_id == i) db.dlq ≡ false
  pub there : any (λ r. r.execution_id == i) db.queue ≡ true
  pub own : All (Own i q) db.queue
  pub numbered : q.id < db.next_queue_id

module _ (i : Uuid) (q : QueueRow) where
  -- A statement that leaves these tables as they are.
  pub same_tables :
      {A : Type 0} (f : Db → Result A × Db)
      → ((db : Db) → (f db).1 ≡ db)
      → Keeps (Stays i q) (statement f)
  same_tables f same = Keeps-statement f (λ db h. subst (Stays i q) (sym (same db)) h)

  pub update_execution-Stays :
      (j : Uuid) (f : Execution → Execution)
      → ((e : Execution) → (f e).id ≡ e.id)
      → Keeps (Stays i q) (statement (update_execution j f))
  unfolding update_execution
  update_execution-Stays j f keep = Keeps-statement _ λ db h. record {
    known =
        any-map (λ e. e.id == i) (λ e. if e.id == j then f e else e) db.executions
          (λ e. ground (arith, keep e))
        ∙ h.known;
    alive = h.alive;
    there = h.there;
    own = h.own;
    numbered = h.numbered;
  }

  pub delete_queued-Stays : (j : Uuid) → j ≢ i → Keeps (Stays i q) (statement (delete_queued j))
  unfolding delete_queued
  delete_queued-Stays j other = Keeps-statement _ λ db h. record {
    known = h.known;
    alive = h.alive;
    there =
        any-select_keep (λ r. r.execution_id == i) (λ r. not (r.execution_id == j)) db.queue
          (λ r hit. ground arith) h.there;
    own = All-select _ _ _ db.queue (λ r _ o. o) h.own;
    numbered = h.numbered;
  }

  pub update_queued-Stays :
      (j : Uuid) (v : Time)
      → j ≢ i
      → Keeps (Stays i q) (statement (update_queued j (λ r. record r { visible_after = v })))
  unfolding update_queued
  update_queued-Stays j v other = Keeps-statement _ λ db h. record {
    known = h.known;
    alive = h.alive;
    there =
        any-map (λ r. r.execution_id == i)
          (λ r. if r.execution_id == j then record r { visible_after = v } else r) db.queue
          (λ r. ground arith)
        ∙ h.there;
    own =
        All-map (Own i q) (Own i q)
          (λ r. if r.execution_id == j then record r { visible_after = v } else r) db.queue
          (λ r o. elim (Bool-cases (r.execution_id == j)) [
            | inl hit ↦ rw hit (λ e. absurd (other (sym ((==_iff _ _).0 hit) ∙ e)), o.1)
            | inr miss ↦ rw miss o
          ])
          h.own;
    numbered = h.numbered;
  }

  pub complete-Stays :
      (now : Time) (j : Uuid) (exit_code : ℤ) (result : Option Json)
      → j ≢ i
      → Keeps (Stays i q) (complete now j exit_code result)
  unfolding complete
  complete-Stays now j exit_code result other =
      Triple-bind {R = λ _. Stays i q} _ _ (delete_queued-Stays j other)
        (λ _. update_execution-Stays j _ (λ e. refl))

  pub set_visible_after-Stays :
      (j : Uuid) (v : Time) → j ≢ i → Keeps (Stays i q) (set_visible_after j v)
  unfolding set_visible_after
  set_visible_after-Stays j v other = update_queued-Stays j v other
