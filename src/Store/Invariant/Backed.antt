-- ===== src/Store/Invariant/Backed.antt =====
-- The invariant of the tables, and how the rows of the queue stay backed by executions.
use jobplane.Base.{
  ◌≡◌, sym, ap, ◌∙◌, true, some, List, [], ◌∷◌, ◌++◌, map, ◌==◌, All, Distinct, first-map,
  first_sound, first-append_some, ==_iff,
}
use mathlib.Core.Option
use jobplane.Store.Models.{Uuid, Execution, is_active}
use jobplane.Store.Db.{execution_key, queue_key, dead_key, Db, QueueRow, DlqRow, find_execution}

-- A row of the queue belongs to an execution that waits or runs, of the same tenant and priority.
pub record Backed (executions : List Execution) (q : QueueRow) : Type 0 where
  pub execution : Execution
  pub found : find_execution q.execution_id executions ≡ some execution
  pub active : is_active execution.status ≡ true
  pub same_tenant : execution.tenant_id ≡ q.tenant_id
  pub same_priority : execution.priority ≡ q.priority

-- A dead letter belongs to an execution.
pub record Known (executions : List Execution) (d : DlqRow) : Type 0 where
  pub execution : Execution
  pub found : find_execution d.execution_id executions ≡ some execution

pub record IsConsistent (db : Db) : Type 0 where
  pub executions_distinct : Distinct execution_key db.executions
  pub queue_distinct : Distinct queue_key db.queue
  pub dlq_distinct : Distinct dead_key db.dlq
  pub backed : All (Backed db.executions) db.queue
  pub known : All (Known db.executions) db.dlq

-- An UPDATE that leaves the columns of a queued execution's identity, and leaves it active.
pub record Preserves (f : Execution → Execution) (i : Uuid) : Type 0 where
  pub keeps_id : (e : Execution) → (f e).id ≡ e.id
  pub keeps_active :
      (e : Execution) → e.id ≡ i → is_active e.status ≡ true → is_active (f e).status ≡ true
  pub keeps_tenant : (e : Execution) → e.id ≡ i → (f e).tenant_id ≡ e.tenant_id
  pub keeps_priority : (e : Execution) → e.id ≡ i → (f e).priority ≡ e.priority

find-map :
    (f : Execution → Execution) (i : Uuid) (es : List Execution) (e : Execution)
    → ((x : Execution) → (f x).id ≡ x.id)
    → find_execution i es ≡ some e
    → find_execution i (map f es) ≡ some (f e)
find-map f i es e keep h = first-map (λ x. x.id == i) f es (λ x. rw (keep x)) ∙ ap (Option.map f) h

pub Known-map :
    (f : Execution → Execution) (es : List Execution)
    → ((e : Execution) → (f e).id ≡ e.id)
    → (d : DlqRow) → Known es d
    → Known (map f es) d
Known-map f es keep d k = record {
  execution = f k.execution;
  found = find-map f d.execution_id es k.execution keep k.found;
}

pub Backed-map :
    (f : Execution → Execution) (es : List Execution) (q : QueueRow)
    → Preserves f q.execution_id
    → Backed es q
    → Backed (map f es) q
Backed-map f es q p b = record {
  execution = f b.execution;
  found = find-map f q.execution_id es b.execution p.keeps_id b.found;
  active = p.keeps_active b.execution same b.active;
  same_tenant = p.keeps_tenant b.execution same ∙ b.same_tenant;
  same_priority = p.keeps_priority b.execution same ∙ b.same_priority;
}
  where
    same : b.execution.id ≡ q.execution_id
    same = (==_iff _ _).0 (first_sound (λ x. x.id == q.execution_id) es b.execution b.found)

-- An INSERT backs what was backed.
pub Backed-append :
    (es : List Execution) (e : Execution) (q : QueueRow) → Backed es q → Backed (es ++ e ∷ []) q
Backed-append es e q b = record {
  execution = b.execution;
  found = first-append_some (λ x. x.id == q.execution_id) es (e ∷ []) b.execution b.found;
  active = b.active;
  same_tenant = b.same_tenant;
  same_priority = b.same_priority;
}

pub Known-append :
    (es : List Execution) (e : Execution) (d : DlqRow) → Known es d → Known (es ++ e ∷ []) d
Known-append es e d k = record {
  execution = k.execution;
  found = first-append_some (λ x. x.id == d.execution_id) es (e ∷ []) k.execution k.found;
}

-- An UPDATE of a queue row that leaves its execution, tenant and priority.
pub Backed-row :
    (es : List Execution) (f : QueueRow → QueueRow)
    → ((q : QueueRow) → (f q).execution_id ≡ q.execution_id)
    → ((q : QueueRow) → (f q).tenant_id ≡ q.tenant_id)
    → ((q : QueueRow) → (f q).priority ≡ q.priority)
    → (q : QueueRow) → Backed es q
    → Backed es (f q)
Backed-row es f keep_id keep_tenant keep_priority q b = record {
  execution = b.execution;
  found = rw (keep_id q) b.found;
  active = b.active;
  same_tenant = b.same_tenant ∙ sym (keep_tenant q);
  same_priority = b.same_priority ∙ sym (keep_priority q);
}
