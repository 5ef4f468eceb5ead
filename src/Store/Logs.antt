-- ===== src/Store/Logs.antt =====
-- internal/store/postgres/log.go.
pub mod Page
use jobplane.Base.{
  ℕ, suc, ltb, ◌||◌, String, Bool, List, [], ◌∷◌, ◌++◌, ◌&&◌, leb, ◌==◌, take, select, any,
  if◌then◌else◌,
}
use jobplane.Base.Sort.{order_by}
use jobplane.Base.Int.{ℤ, pos, pos_part, ltb_ℤ}
use jobplane.Store.Models.{Uuid, Time, LogEntry}
use jobplane.Store.Db.{Db}
use jobplane.Store.Exec.{foreign_key_violation, invalid_row_count, Result, ok, err, Exec, statement}

-- INSERT INTO execution_logs
unfoldable pub insert_log : Time → Uuid → String → Db → Result (Unit {0}) × Db
insert_log now execution_id content db =
    if any (λ e. e.id == execution_id) db.executions
    then (
      ok tt,
      record db {
        logs =
            db.logs
            ++ record {
              id = db.next_log_id;
              execution_id = execution_id;
              content = content;
              created_at = now;
            }
              ∷ [];
        next_log_id = suc db.next_log_id;
      },
    )
    else (err foreign_key_violation, db)

unfoldable pub add_log_entry : Time → Uuid → String → Exec (Unit {0})
unfolding insert_log
add_log_entry now execution_id content = statement (insert_log now execution_id content)

-- ORDER BY created_at ASC, which leaves entries of the same time to the database: `tie` is the order
-- that it takes for them.
abbrev pub is_older : (LogEntry → ℕ) → LogEntry → LogEntry → Bool
is_older tie a b =
    ltb a.created_at b.created_at || (a.created_at == b.created_at && leb (tie a) (tie b))

-- WHERE execution_id = $1 and id > $2
abbrev pub is_after : Uuid → ℤ → LogEntry → Bool
is_after execution_id after_id l = l.execution_id == execution_id && ltb_ℤ after_id (pos l.id)

unfoldable pub get_execution_logs : (LogEntry → ℕ) → Uuid → ℤ → ℤ → Exec (List LogEntry)
get_execution_logs tie execution_id after_id limit = statement λ db.
    if ltb_ℤ limit (pos 0) then (err invalid_row_count, db) else (
      ok (
          take (pos_part limit)
            (order_by (is_older tie) (select (is_after execution_id after_id) db.logs))),
      db,
    )
