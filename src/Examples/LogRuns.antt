-- ===== src/Examples/LogRuns.antt =====
-- The theorem about pages of logs on a small table.
use jobplane.Base.{ℕ, ◌≡◌, refl, List, [], ◌∷◌}
use jobplane.Base.Sort.{order_by, insert_by}
use jobplane.Base.Int.{pos}
use jobplane.Store.Models.{LogEntry, Uuid, Time}
use jobplane.Store.Exec.{ok, World}
use jobplane.Store.Logs.{get_execution_logs}
use jobplane.Store.Logs.Page.{IsPage, get_execution_logs-IsPage}
use jobplane.Examples.Rows.{tables}

abbrev entry : ℕ → Uuid → Time → LogEntry
entry id i at_time = record { id = id; execution_id = i; content = "line"; created_at = at_time }

-- Entry 3 is older than entry 2, and entry 4 is of another execution.
abbrev written : List LogEntry
written = entry 1 101 5 ∷ entry 2 101 9 ∷ entry 3 101 7 ∷ entry 4 102 8 ∷ []

abbrev logged : World
logged = record { db = record tables { logs = written }; faults = [] }

reads_page :
    (get_execution_logs (λ l. l.id) 101 (pos 1) (pos 5) logged).0
    ≡ ok (entry 3 101 7 ∷ entry 2 101 9 ∷ [])
unfolding get_execution_logs order_by insert_by
reads_page = refl

get_execution_logs-IsPage_example :
    IsPage 101 (pos 1) 5 written (entry 3 101 7 ∷ entry 2 101 9 ∷ [])
get_execution_logs-IsPage_example =
    get_execution_logs-IsPage (λ l. l.id) 101 (pos 1) (pos 5) logged
      (entry 3 101 7 ∷ entry 2 101 9 ∷ []) reads_page
