-- ===== src/Store/Logs/Page.antt =====
-- What a page of logs holds (internal/store/postgres/log.go, GetExecutionLogs).
use mathlib.Core.List.{Perm}
use mathlib.Core.List.Perm
use jobplane.Base.{
  ℕ, ◌≤◌, ◌≡◌, subst, inl, inr, true, false, not, List, [], ◌∷◌, ◌++◌, arith, min, length, take,
  drop, select, All, All-select, All-mono, All-trivial, Bool-cases, length-take, take-append-drop,
}
use jobplane.Base.Sort.{
  order_by, IsSorted, order_by-IsSorted, order_by-perm, select_parts, order_by-All,
}
use jobplane.Base.Int.{ℤ, pos, pos_part, ltb_ℤ, ◌≤ℤ◌}
use jobplane.Store.Models.{Uuid, LogEntry}
use jobplane.Store.Exec.{ok, World, next_fault}
use jobplane.Store.Logs.{is_older, is_after, get_execution_logs}

-- The entry is of the execution, and comes after the given id.
abbrev pub IsWanted : Uuid → ℤ → LogEntry → Type 0
IsWanted i after_id l = (l.execution_id ≡ i) × (pos l.id ≤ℤ after_id → ⊥)

-- Each entry is as old as those that follow it, or older.
abbrev pub InTime : List LogEntry → Type 0
InTime [] = Unit {0}
InTime (l ∷ ls) = All (λ m. l.created_at ≤ m.created_at) ls × InTime ls

-- The table is the page, the wanted entries that it leaves, and entries that are not wanted.
pub record IsPage (i : Uuid) (after_id : ℤ) (limit : ℕ) (logs page : List LogEntry) : Type 0 where
  pub left : List LogEntry
  pub others : List LogEntry
  pub in_time : InTime (page ++ left)
  pub complete : Perm ((page ++ left) ++ others) logs
  pub wanted : All (IsWanted i after_id) (page ++ left)
  pub unwanted : All (λ l. IsWanted i after_id l → ⊥) others
  pub full : length page ≡ min limit (length (page ++ left))

IsSorted-InTime : (tie : LogEntry → ℕ) (ls : List LogEntry) → IsSorted (is_older tie) ls → InTime ls
IsSorted-InTime tie [] h = tt
IsSorted-InTime tie (l ∷ ls) h =
    (All-mono _ _ ls (λ m e. ground arith) h.0, IsSorted-InTime tie ls h.1)

is_after-IsWanted :
    (i : Uuid) (after_id : ℤ) (l : LogEntry) → is_after i after_id l ≡ true → IsWanted i after_id l
is_after-IsWanted i after_id l h = (ground arith, λ k. ground arith)

others-IsWanted :
    (i : Uuid) (after_id : ℤ) (l : LogEntry)
    → not (is_after i after_id l) ≡ true
    → IsWanted i after_id l
    → ⊥
others-IsWanted i after_id l h k = k.1 (ground (arith, k.0))

taken-IsPage :
    (tie : LogEntry → ℕ) (i : Uuid) (after_id : ℤ) (limit : ℕ) (logs : List LogEntry)
    → IsPage i after_id limit logs
        (take limit (order_by (is_older tie) (select (is_after i after_id) logs)))
taken-IsPage tie i after_id limit logs = record {
  left = drop limit sorted;
  others = select (λ l. not (is_after i after_id l)) logs;
  in_time =
      rw parts (IsSorted-InTime tie sorted (order_by-IsSorted (is_older tie) total trans wanted));
  complete = rw parts (
      Perm.trans (Perm.append_right _ (order_by-perm (is_older tie) wanted))
        (select_parts (is_after i after_id) logs));
  wanted = rw parts (
      order_by-All (is_older tie) _ wanted (
        All-select (λ _. Unit {0}) _ (is_after i after_id) logs
          (λ l h _. is_after-IsWanted i after_id l h) (All-trivial logs)));
  unwanted =
      All-select (λ _. Unit {0}) _ (λ l. not (is_after i after_id l)) logs
        (λ l h _. others-IsWanted i after_id l h) (All-trivial logs);
  full = rw parts (length-take limit sorted);
}
  where
    wanted : List LogEntry
    wanted = select (is_after i after_id) logs

    sorted : List LogEntry
    sorted = order_by (is_older tie) wanted

    parts : take limit sorted ++ drop limit sorted ≡ sorted
    parts = take-append-drop limit sorted

    total : (a b : LogEntry) → is_older tie a b ≡ false → is_older tie b a ≡ true
    total a b h = ground arith

    trans :
        (a b c : LogEntry)
        → is_older tie a b ≡ true
        → is_older tie b c ≡ true
        → is_older tie a c ≡ true
    trans a b c h k = ground arith

-- A successful call returns, of the entries of the execution after the given id, the oldest ones in
-- order of time, as many as the limit allows, whatever order the database takes for entries of the
-- same time.
pub get_execution_logs-IsPage :
    (tie : LogEntry → ℕ) (i : Uuid) (after_id limit : ℤ) (w : World) (page : List LogEntry)
    → (get_execution_logs tie i after_id limit w).0 ≡ ok page
    → IsPage i after_id (pos_part limit) w.db.logs page
unfolding get_execution_logs
get_execution_logs-IsPage tie i after_id limit w page h = elim (Bool-cases (next_fault w.faults)) [
  | inl fault ↦ let k = rw fault at h in absurd (ground arith)
  | inr quiet ↦ elim (Bool-cases (ltb_ℤ limit (pos 0))) [
    | inl bad ↦ let k = rw (quiet, bad) at h in absurd (ground arith)
    | inr fine ↦
        let k = rw (quiet, fine) at h in
        let same : take (pos_part limit)
              (order_by (is_older tie) (select (is_after i after_id) w.db.logs))
            ≡ page =
          cc in
        subst (IsPage i after_id (pos_part limit) w.db.logs) same
          (taken-IsPage tie i after_id (pos_part limit) w.db.logs)
  ]
]
