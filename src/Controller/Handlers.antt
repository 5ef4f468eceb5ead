-- ===== src/Controller/Handlers.antt =====
-- internal/controller/handlers/handlers.go: how a handler runs. It works on the database and ends in
-- a response, early on every error. `Library` holds what the handlers call of other packages.
pub mod Jobs
pub mod Executions
pub mod Internal
pub mod Logs
pub mod Tenants
pub mod Rules
pub mod Isolation
pub mod Unread
pub mod Atomicity
pub mod Starting
pub mod Admission
pub mod Batches
pub mod Health
use jobplane.Base.{ℕ, String, Bool, Option, none, some, List, [], ◌∷◌, ◌++◌, if◌then◌else◌}
use jobplane.Base.Int.{ℤ}
use jobplane.Store.Models.{Uuid, Time, Json, Job, LogEntry}
use jobplane.Store.Db.{Db}
use jobplane.Store.Exec.{Result, ok, err, World, Exec, next_fault, later_faults}
use jobplane.Auth.{hash_with}
use jobplane.Api.{Headers, Body, no_body, error_response, Response}

-- uuid.Parse, strconv.Atoi and strconv.ParseInt, json.Marshal of the headers and of the payload
-- (with the trace context of the request), and hex.EncodeToString of sha256.Sum256.
pub record Library : Type 0 where
  pub parse_uuid : String → Option Uuid
  pub atoi : String → Option ℤ
  pub marshal_headers : Option Headers → Json
  pub marshal_payload : Job → Json
  pub sha256_hex : String → String
  -- the order of Postgres for log entries of the same time
  pub log_tie : LogEntry → ℕ

-- auth.HashKey
abbrev pub hash_key : Library → String → String
hash_key lib = hash_with lib.sha256_hex

-- What a handler reads of the world at a call: the time, and the uuid that `uuid.New` returns.
pub record Call : Type 0 where
  pub now : Time
  pub new_uuid : Uuid

-- What a handler tells the rest of the controller: a goroutine that runs triggerWebhook for an
-- execution, and the call of OnTenantUpdated.
pub data Notice : Type 0 where
  webhook_started : Uuid → Notice
  tenant_updated : Uuid → Notice

-- The optional parts of `Handlers`: is there a dispatcher, and an OnTenantUpdated?
pub record Hooks : Type 0 where
  pub has_webhook : Bool
  pub has_on_tenant_updated : Bool

pub record Server : Type 0 where
  pub world : World
  pub open world use *
  pub notices : List Notice

pub data Reply (A : Type 0) : Type 0 where
  done : Response → Reply A
  going : A → Reply A

abbrev pub Handler : Type 0 → Type 0
Handler A = Server → Reply A × Server

abbrev pub proceed : {A B : Type 0} → Reply A → (A → Handler B) → Handler B
proceed (done r) f s = (done r, s)
proceed (going a) f s = f a s

infixl 10 ◌>>=◌ ◌>>◌
abbrev pub ◌>>=◌ : {A B : Type 0} → Handler A → (A → Handler B) → Handler B
◌>>=◌ m f s = let (r, s') = m s in proceed r f s'

abbrev pub ◌>>◌ : {A B : Type 0} → Handler A → Handler B → Handler B
m >> k = m >>= λ _. k

abbrev pub respond : {A : Type 0} → ℕ → Body → Handler A
respond status body s = (done (record { status = status; body = body }), s)

-- `httpError`: the message, and the code once more as text in the body.
abbrev pub http_error : {A : Type 0} → String → ℕ → Handler A
http_error message code = respond code (error_response message code)

abbrev pub keep : {A : Type 0} → A → Handler A
keep a s = (going a, s)

-- `if v, err := …; err != nil { httpError(…); return }`
abbrev pub require : {A : Type 0} → Option A → String → ℕ → Handler A
require none message code = http_error message code
require (some a) message code = keep a

abbrev pub unless : Bool → String → ℕ → Handler (Unit {0})
unless bad message code = if bad then http_error message code else keep tt

abbrev pub notify : Bool → Notice → Handler (Unit {0})
notify on n s = (going tt, if on then record s { notices = s.notices ++ n ∷ [] } else s)

abbrev pub reply_of : {A : Type 0} → Result A → String → ℕ → Handler A
reply_of (ok a) message code = keep a
reply_of (err e) message code = http_error message code

-- A call of the store; any error becomes the given response.
abbrev pub store : {A : Type 0} → Exec A → String → ℕ → Handler A
store m message code s = let (r, w) = m s.world in reply_of r message code (record s { world = w })

abbrev pub settle : {A : Type 0} → Db → Reply A → Handler A
settle before (going a) s =
    if next_fault s.faults
    then http_error "Failed to commit transaction" 500
        (record s { world = record { db = before; faults = later_faults s.faults } })
    else (going a, record s { world = record { db = s.db; faults = later_faults s.faults } })
settle before (done r) s = (done r, record s { world = record { db = before; faults = s.faults } })

-- BeginTx, the body, and Commit, with the deferred Rollback on every other way out.
abbrev pub in_transaction : {A : Type 0} → Handler A → Handler A
in_transaction m s =
    let begun : Server = record s {
      world = record { db = s.db; faults = later_faults s.faults };
    } in
    if next_fault s.faults
    then http_error "Internal database error" 500 begun
    else let (r, s') = m begun in settle s.db r s'

abbrev pub answer : Reply Response → Response
answer (done r) = r
answer (going r) = r

-- A whole handler, from the request to the response.
abbrev pub serve : Handler Response → Server → Response × Server
serve h s = let (r, s') = h s in (answer r, s')

abbrev pub ok_response : ℕ → Body → Handler Response
ok_response status body = keep (record { status = status; body = body })

-- A server over the tables, where no statement is lost.
abbrev pub serving : Db → Server
serving db = record { world = record { db = db; faults = [] }; notices = [] }
