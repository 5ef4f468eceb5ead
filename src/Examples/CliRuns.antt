-- ===== src/Examples/CliRuns.antt =====
-- The theorem about `jobctl logs` on a small table.
use Prim.Native.Char.{Char}
use Prim.Native.String.{[] as no_text, ◌∷◌ as before}
use jobplane.Base.Text.{cons-ne-empty}
use jobplane.Base.{ℕ, zero, suc, ◌≡◌, refl, String, Option, some, none, [], ◌∷◌, length, arith}
use jobplane.Base.Int.{ℤ, pos, negsuc}
use jobplane.Base.Sort.{order_by, insert_by}
use jobplane.Store.Models.{Execution, completed, LogEntry, Uuid, Time}
use jobplane.Store.Db.{Db}
use jobplane.Store.Exec.{World, ok}
use jobplane.Store.Logs.{get_execution_logs}
use jobplane.Controller.Handlers.{Library, serve, serving}
use jobplane.Controller.Handlers.Logs.{get_logs}
use jobplane.Cli.Client
use jobplane.Cli.Client.{Wire, JobClient, Endpoint, Transport, logs_after, unanswered, answered}
use jobplane.Cli.Dlq.{error_cell, bytes_of}
use jobplane.Base.{◌++◌ as append}
use jobplane.Cli.Logs.{show_logs}
use jobplane.Cli.Logs.Cursor.{left, all_of}
use jobplane.Cli.Logs.Complete.{ReadsBack, show_logs_complete}
use jobplane.Examples.Rows.{execution_at, tables, acme, lib}

abbrev stroke : Char
stroke = "1"

-- A number as one stroke more than it counts, and back.
tally : ℕ → String
tally zero = before stroke no_text
tally (suc n) = before stroke (tally n)

strokes : String → Option ℤ
strokes no_text = none
strokes (before c no_text) = some (pos 0)
strokes (before c (before d s)) = next (strokes (before d s))
  where
    next : Option ℤ → Option ℤ
    next (some (pos n)) = some (pos (suc n))
    next o = none

abbrev entry : ℕ → Uuid → Time → LogEntry
entry id i at_time = record { id = id; execution_id = i; content = "line"; created_at = at_time }

-- An execution that has ended with a result.
abbrev finished : Execution
finished = record (execution_at 101 completed 1) {
  result = some "{}";
  callback_headers = some "null";
}

abbrev db : Db
db = record tables {
  executions = finished ∷ [];
  logs = entry 1 101 5 ∷ entry 2 102 6 ∷ entry 3 101 6 ∷ entry 4 101 7 ∷ [];
}

abbrev reading : Library
reading = record lib { atoi = strokes }

abbrev client : JobClient
client = record { base_url = "http://localhost:6161"; token = "key" }

show : ℤ → String
show (pos n) = tally n
show (negsuc n) = ""

controller : Endpoint → Transport
controller (logs_after id_str after_id) =
    answered (serve (get_logs reading id_str (some acme) "" after_id) (serving db)).0
controller _ = unanswered "no route"

abbrev wire : Wire
wire = record { send = λ req. controller req.endpoint; show_int = show; show_body = λ body. "" }

strokes-tally : (n : ℕ) → strokes (tally n) ≡ some (pos n)
unfolding strokes tally
strokes-tally zero = refl
strokes-tally (suc zero) = refl
strokes-tally (suc (suc n)) = rw (strokes-tally (suc n)) refl

reads_back : ReadsBack wire reading
unfolding show tally
reads_back zero = (strokes-tally zero, refl)
reads_back (suc n) = (strokes-tally (suc n), cons-ne-empty stroke (tally n))

show_logs_complete_example :
    show_logs (Client.get_logs wire client "runs") (suc (length (left 101 db.logs 0))) (pos 0)
    ≡ some (all_of (left 101 db.logs 0))
unfolding controller
show_logs_complete_example =
    show_logs_complete wire reading acme "runs" db 101 client (λ after_id. refl)
      (finished, refl, refl, refl, refl) reads_back
      (
        ((omega arith, omega arith), ((omega arith, omega arith), tt)),
        (((omega arith, omega arith), tt), (tt, tt)),
      )

-- Where an older id has a later time, and falls behind the end of a page, no later page has it.
abbrev unordered : World
unordered = record { db = record tables { logs = entry 1 101 9 ∷ entry 2 101 5 ∷ [] }; faults = [] }

skips_entry :
    ((get_execution_logs (λ l. l.id) 101 (pos 0) (pos 1) unordered).0 ≡ ok (entry 2 101 5 ∷ []))
    × ((get_execution_logs (λ l. l.id) 101 (pos 2) (pos 1) unordered).0 ≡ ok [])
unfolding get_execution_logs order_by insert_by
skips_entry = (refl, refl)

-- A message of 26 letters of two bytes is cut in the middle of the 24th.
cut_in_half :
    error_cell (some "éééééééééééééééééééééééééé")
    ≡ append (bytes_of "ééééééééééééééééééééééé") (195 ∷ 46 ∷ 46 ∷ 46 ∷ [])
unfolding error_cell bytes_of
cut_in_half = refl
