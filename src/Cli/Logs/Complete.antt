-- ===== src/Cli/Logs/Complete.antt =====
-- `jobctl logs` against the controller's GetExecutionLogs: every line, once, in order, and an end.
use mathlib.Core.List.{map-append}
use jobplane.Base.{
  ◌&&◌, ℕ, zero, suc, ◌<◌, ◌≡◌, refl, sym, ap, ◌∙◌, subst, inl, inr, String, true, false, Option,
  some, List, ◌∷◌, ◌++◌, map, arith, length, take, drop, take-append-drop, length-drop, ◌==◌,
  ==_iff,
}
use jobplane.Base.Int.{ℤ, pos}
use jobplane.Base.Text.{List-cases}
use jobplane.Base.Sort.{order_by}
use jobplane.Store.Models.{has_json, Uuid, LogEntry}
use jobplane.Store.Logs.{is_older}
use jobplane.Api.{LogLine, logs_listed}
use jobplane.Controller.Handlers.Logs.{to_log_line}
use jobplane.Store.Models.{Tenant, Execution}
use jobplane.Store.Db.{Db, find_execution}
use jobplane.Controller.Handlers.{Library, Server, serve, serving}
use jobplane.Controller.Handlers.Jobs.{is_empty}
use jobplane.Controller.Handlers.Logs.{get_logs}
use jobplane.Cli.Client
use jobplane.Cli.Client.{
  ClientResult, received, Wire, JobClient, authorization_of, logs_after, answered, result_of, is_ok,
  logs_in,
}
use jobplane.Cli.Logs.{printed, last_id, Shown, after_page, next_page, show_logs}
use jobplane.Cli.Logs.Cursor.{
  IsChronological, order_by-IsChronological, drop-IsChronological, all_of, left, left-page,
}

module _ (tie : LogEntry → ℕ) (i : Uuid) (logs : List LogEntry) where
  module _ (fetch : ℤ → ClientResult (List LogLine)) (size : ℕ)
      (pages : (a : ℕ)
        → fetch (pos a)
          ≡ received
              (map to_log_line (take (suc size) (order_by (is_older tie) (left i logs a))))) where
    abbrev texts : List LogEntry → List String
    texts ls = map printed (map to_log_line ls)

    page_step :
        (go_on : List LogLine → Option Shown) (xs : List LogEntry) (l : LogEntry)
        (ls : List LogEntry)
        → xs ≡ l ∷ ls
        → next_page go_on (received (map to_log_line (take (suc size) xs)))
          ≡ after_page (texts (take (suc size) xs)) (go_on (map to_log_line (take (suc size) xs)))
    unfolding next_page
    page_step go_on xs l ls e = rw e refl

    shorter :
        (fuel : ℕ) (l : LogEntry) (ls : List LogEntry)
        → length (l ∷ ls) < suc fuel
        → length (drop (suc size) (l ∷ ls)) < fuel
    shorter fuel l ls h = ground (arith, length-drop size ls)

    joined :
        (ls : List LogEntry)
        → record {
          output = texts (take (suc size) ls) ++ texts (drop (suc size) ls);
          has_failed = false;
        }
          ≡ all_of ls
    joined ls =
        let parts : texts (take (suc size) ls) ++ texts (drop (suc size) ls) ≡ texts ls =
          rw⁻¹ (map-append, map-append) (ap texts (take-append-drop (suc size) ls)) in
        rw parts refl

    show_logs_all :
        (fuel a : ℕ)
        → length (left i logs a) < fuel
        → IsChronological (left i logs a)
        → show_logs fetch fuel (pos a) ≡ some (all_of (left i logs a))
    unfolding show_logs
    show_logs_all zero a f c = absurd (omega arith)
    show_logs_all (suc fuel) a f c =
        rw
          (
            show_logs,
            pages a
                ∙ ap (λ ls. received (map to_log_line (take (suc size) ls)))
                    (order_by-IsChronological tie (left i logs a) c),
          )
          (elim (List-cases (left i logs a)) [
            | inl empty ↦ rw empty refl
            | inr (l, ls, e) ↦
                let (m, last, rest) = left-page i logs (suc size) a c in
                let later : show_logs fetch fuel (pos m)
                    ≡ some (all_of (drop (suc size) (left i logs a))) =
                  show_logs_all fuel m (rw (rest, e) (shorter fuel l ls (rw e at f))) (
                    subst IsChronological (sym rest)
                      (drop-IsChronological (suc size) (left i logs a) c))
                  ∙ ap (λ xs. some (all_of xs)) rest in
                page_step (λ lines. show_logs fetch fuel (last_id (pos a) lines)) (left i logs a) l
                  ls e
                ∙ ap
                    (λ z.
                      after_page (texts (take (suc size) (left i logs a))) (show_logs fetch fuel z))
                    last
                ∙ ap (after_page (texts (take (suc size) (left i logs a)))) later
                ∙ ap some (joined (left i logs a))
          ])

-- The wire hands the requests for the logs of an execution to the controller's handler, for the
-- tenant whose token the client has.
abbrev pub IsConnected : Wire → JobClient → Library → Tenant → String → Server → Type 0
IsConnected wire client lib t id_str s =
    (after_id : String)
    → wire.send
        (record { authorization = authorization_of client; endpoint = logs_after id_str after_id })
      ≡ answered (serve (get_logs lib id_str (some t) "" after_id) s).0

-- strconv.ParseInt reads what fmt writes.
abbrev pub ReadsBack : Wire → Library → Type 0
ReadsBack wire lib =
    (a : ℕ)
    → (lib.atoi (wire.show_int (pos a)) ≡ some (pos a)) × (is_empty (wire.show_int (pos a)) ≡ false)

module _ (wire : Wire) (lib : Library) (t : Tenant) (id_str : String) (db : Db) (i : Uuid) where
  -- The text names an execution of the tenant, whose row `Scan` can read: neither its result nor its
  -- headers are NULL.
  abbrev pub IsOwned : Type 0
  IsOwned =
      (e : Execution) × (lib.parse_uuid id_str ≡ some i)
      × (find_execution i db.executions ≡ some e)
      × (e.tenant_id ≡ t.id)
      × (has_json e.result && has_json e.callback_headers ≡ true)

  handler_page :
      (a : ℕ)
      → IsOwned
      → ReadsBack wire lib
      → (serve (get_logs lib id_str (some t) "" (wire.show_int (pos a))) (serving db)).0 ≡ record {
        status = 200;
        body =
            logs_listed
              (map to_log_line (take 1000 (order_by (is_older lib.log_tie) (left i db.logs a))));
      }
  unfolding get_logs
  handler_page a (e, parsed, found, own, read) reads =
      let same : (e.tenant_id == t.id) ≡ true = (==_iff _ _).1 own in
      let (back, filled) = reads a in
      rw (parsed, found) (rw read (rw same (rw (filled, back) refl)))

  module _ (client : JobClient) where
    served_page :
        IsConnected wire client lib t id_str (serving db)
        → IsOwned
        → ReadsBack wire lib
        → (a : ℕ)
        → Client.get_logs wire client id_str (pos a)
          ≡ received
              (map to_log_line (take 1000 (order_by (is_older lib.log_tie) (left i db.logs a))))
    unfolding Client.get_logs
    served_page connected owned reads a =
        ap (result_of wire is_ok logs_in)
          (connected (wire.show_int (pos a)) ∙ ap answered (handler_page a owned reads))

    -- `jobctl logs` without --follow ends, after at most one call more than there are entries, and has
    -- then printed every entry of the execution with a positive id, once and in order, and no error.
    -- This holds where the client's requests reach the controller's handler for the tenant that owns
    -- the execution, its result and its callback's headers are not NULL, no statement is lost, the
    -- tables stay as they are, and later entries have greater ids and later times.
    pub show_logs_complete :
        IsConnected wire client lib t id_str (serving db)
        → IsOwned
        → ReadsBack wire lib
        → IsChronological (left i db.logs 0)
        → show_logs (Client.get_logs wire client id_str) (suc (length (left i db.logs 0))) (pos 0)
          ≡ some (all_of (left i db.logs 0))
    show_logs_complete connected owned reads c =
        show_logs_all lib.log_tie i db.logs (Client.get_logs wire client id_str) 999
          (served_page connected owned reads) (suc (length (left i db.logs 0))) 0 (omega arith) c
