-- ===== src/Store/Invariant/Ended.antt =====
-- An execution that has ended stays so, and is not started again: every method of the store keeps
-- this beside the consistency of the tables (internal/store/postgres).
use jobplane.Base.{
  ℕ, ◌≡◌, refl, sym, ◌∙◌, ap, inl, inr, false, none, some, List, [], ◌∷◌, ◌++◌, map, arith, ◌==◌,
  any, any-All, All-mono, first-map, first_sound, first-append_some, Bool-cases, ==_iff,
}
use mathlib.Core.Option
use jobplane.Store.Models.{Uuid, Time, Execution, is_active}
use jobplane.Store.Db.{Db, QueueRow, find_execution}
use jobplane.Store.Queue.{update_started, claim_of, start_with}
use jobplane.Store.Invariant.Backed.{Backed, IsConsistent}
use jobplane.Store.Invariant.Finishing.{Unqueued}

pub record Ended (i : Uuid) (executions : List Execution) : Type 0 where
  pub execution : Execution
  pub found : find_execution i executions ≡ some execution
  pub over : is_active execution.status ≡ false

abbrev pub HasEnded : Uuid → Db → Type 0
HasEnded i db = Ended i db.executions

abbrev pub EndedIn : Uuid → Db → Type 0
EndedIn i db = IsConsistent db × HasEnded i db

pub Ended-map :
    (i : Uuid) (f : Execution → Execution) (es : List Execution)
    → ((e : Execution) → (f e).id ≡ e.id)
    → ((e : Execution) → e.id ≡ i → is_active e.status ≡ false → is_active (f e).status ≡ false)
    → Ended i es
    → Ended i (map f es)
Ended-map i f es keep over h = record {
  execution = f h.execution;
  found = first-map (λ x. x.id == i) f es (λ x. rw (keep x)) ∙ ap (Option.map f) h.found;
  over =
      over h.execution ((==_iff _ _).0 (first_sound (λ x. x.id == i) es h.execution h.found))
        h.over;
}

pub Ended-append :
    (i : Uuid) (e : Execution) (es : List Execution) → Ended i es → Ended i (es ++ e ∷ [])
Ended-append i e es h = record {
  execution = h.execution;
  found = first-append_some (λ x. x.id == i) es (e ∷ []) h.execution h.found;
  over = h.over;
}

-- The queue holds no execution that has ended.
pub EndedIn-Unqueued : (i : Uuid) (db : Db) → EndedIn i db → Unqueued i db
EndedIn-Unqueued i db (v, h) =
    any-All (λ q. q.execution_id == i) db.queue (All-mono _ _ db.queue foreign v.backed)
  where
    foreign : (q : QueueRow) → Backed db.executions q → (q.execution_id == i) ≡ false
    foreign q b = elim (Bool-cases (q.execution_id == i)) [
      | inr miss ↦ miss
      | inl hit ↦
          let same : q.execution_id ≡ i = (==_iff _ _).0 hit in
          let twin : some h.execution ≡ some b.execution = sym h.found ∙ (rw same at (b.found)) in
          absurd (ground (arith, twin, h.over, b.active))
    ]

unqueued-claim_of :
    (i : Uuid) (ids : List ℕ) (qs : List QueueRow)
    → any (λ q. q.execution_id == i) qs ≡ false
    → claim_of ids qs i ≡ none
unqueued-claim_of i ids [] h = refl
unqueued-claim_of i ids (q ∷ qs) h = ground (arith, unqueued-claim_of i ids qs)

pub update_started-HasEnded :
    (i : Uuid) (now : Time) (ids : List ℕ) (db : Db)
    → Unqueued i db
    → HasEnded i db
    → HasEnded i (update_started now ids db).1
unfolding update_started
update_started-HasEnded i now ids db u h =
    Ended-map i (λ e. start_with now (claim_of ids db.queue e.id) e) db.executions
      (λ e. elim (claim_of ids db.queue e.id) as (λ c. (start_with now c e).id ≡ e.id) [
        | none ↦ refl
        | some q ↦ refl
      ])
      (λ e same over. rw same (rw (unqueued-claim_of i ids db.queue u) over)) h
