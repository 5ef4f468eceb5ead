-- ===== src/Controller/Handlers/Health.antt =====
-- internal/controller/handlers/health.go: the probes.
use jobplane.Store.Exec.{Exec, ok, statement}
use jobplane.Api.{Response, probe_status}
use jobplane.Controller.Handlers.{Handler, ◌>>◌, store, ok_response}

unfoldable pub healthz : Handler Response
healthz = ok_response 200 (probe_status "healthy")

-- Store.Ping reaches the database or fails.
unfoldable pub ping : Exec (Unit {0})
ping = statement (λ db. (ok tt, db))

unfoldable pub readyz : Handler Response
unfolding ping
readyz = store ping "Database unavailable" 503 >> ok_response 200 (probe_status "ready")
