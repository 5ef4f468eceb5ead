-- ===== src/Controller/Routes/Guarded.antt =====
-- No handler of a tenant runs without the tenant's key, and none of a worker without the system's
-- secret (internal/controller/server.go).
use text.Mathlib.Text.{◌==◌ as str_eq}
use text.Mathlib.TextEquality.{eq_iff}
use jobplane.Base.{
  ◌≤◌, ◌≡◌, ◌⊎◌, refl, subst, inl, inr, String, Option, none, some, arith, Bool-cases,
}
use jobplane.Store.Models.{Time, Tenant}
use jobplane.Store.Db.{Db}
use jobplane.Api.{Response}
use jobplane.Base.Text.{split}
use jobplane.Store.Tenants.{get_tenant_by_api_key_hash}
use jobplane.Store.Exec.{
  Result, ok, err, no_rows, unique_violation, foreign_key_violation, not_null_violation,
  invalid_row_count, unsupported_scan, unavailable, next_fault, World,
}
use jobplane.Controller.Handlers.{hash_key, Library, Server, Reply, done, going, Handler, serve}
use jobplane.Controller.Handlers.Jobs.{is_empty}
use jobplane.Controller.Middleware.Auth.{
  Bears, HasKey, given_token, token_of, space, tenant_or_error, Reply-cases, authenticate,
  authenticate-HasKey, bearer_token, bearer_token-going, find_tenant, require_internal_auth,
}
use jobplane.Controller.Middleware.RateLimit.{
  Bucket, RateLimiter, Verdict, unauthorized, too_many_requests, passes, rate_middleware,
}
use jobplane.Controller.Routes.{Front, by_verdict, run_handler, tenant_route, internal_route}

-- The request was refused before any handler and changed no table, or the handler ran for a tenant
-- whose key the header bears.
pub data IsGuarded (lib : Library) (header : String) (next : Option Tenant → Handler Response)
    (s : Server) (r : Response) (after : Db) : Type 0 where
  refused : 400 ≤ r.status → after ≡ s.db → IsGuarded lib header next s r after
  admitted :
      (key : String) (t : Tenant) (s' : Server)
      → Bears key header
      → HasKey lib key t s.db
      → s'.db ≡ s.db
      → r ≡ (serve (next (some t)) s').0
      → after ≡ (serve (next (some t)) s').1.db
      → IsGuarded lib header next s r after

-- An early answer is one of 400 or more.
abbrev AnswersHigh : {A : Type 0} → Db → Reply A → Db → Type 0
AnswersHigh before (done r) db = (400 ≤ r.status) × (db ≡ before)
AnswersHigh before (going a) db = db ≡ before

given_token-AnswersHigh :
    (o : Option String) (s : Server) → AnswersHigh s.db (given_token o s).0 (given_token o s).1.db
given_token-AnswersHigh none s = (omega arith, refl)
given_token-AnswersHigh (some token) s = refl

bearer_token-AnswersHigh :
    (header : String) (s : Server)
    → AnswersHigh s.db (bearer_token header s).0 (bearer_token header s).1.db
unfolding bearer_token
bearer_token-AnswersHigh header s = elim (Bool-cases (is_empty header)) [
  | inl missing ↦ rw missing (omega arith, refl)
  | inr there ↦ rw there (given_token-AnswersHigh (token_of (split space header)) s)
]

tenant_or_error-AnswersHigh :
    (r : Result Tenant) (s : Server)
    → AnswersHigh s.db (tenant_or_error r s).0 (tenant_or_error r s).1.db
tenant_or_error-AnswersHigh (ok t) s = refl
tenant_or_error-AnswersHigh (err no_rows) s = (omega arith, refl)
tenant_or_error-AnswersHigh (err unique_violation) s = (omega arith, refl)
tenant_or_error-AnswersHigh (err foreign_key_violation) s = (omega arith, refl)
tenant_or_error-AnswersHigh (err not_null_violation) s = (omega arith, refl)
tenant_or_error-AnswersHigh (err invalid_row_count) s = (omega arith, refl)
tenant_or_error-AnswersHigh (err unsupported_scan) s = (omega arith, refl)
tenant_or_error-AnswersHigh (err unavailable) s = (omega arith, refl)

get_tenant-reads : (hash : String) (w : World) → (get_tenant_by_api_key_hash hash w).1.db ≡ w.db
unfolding get_tenant_by_api_key_hash
get_tenant-reads hash w = elim (Bool-cases (next_fault w.faults)) [
  | inl fault ↦ rw fault
  | inr quiet ↦ rw quiet
]

find_tenant-AnswersHigh :
    (lib : Library) (key : String) (s : Server)
    → AnswersHigh s.db (find_tenant lib key s).0 (find_tenant lib key s).1.db
unfolding find_tenant
find_tenant-AnswersHigh lib key s =
    subst (λ d. AnswersHigh d (find_tenant lib key s).0 (find_tenant lib key s).1.db)
      (get_tenant-reads (hash_key lib key) s.world)
      (tenant_or_error-AnswersHigh (get_tenant_by_api_key_hash (hash_key lib key) s.world).0
        (record s { world = (get_tenant_by_api_key_hash (hash_key lib key) s.world).1 }))

authenticate-AnswersHigh :
    (lib : Library) (header : String) (s : Server)
    → AnswersHigh s.db (authenticate lib header s).0 (authenticate lib header s).1.db
unfolding authenticate
authenticate-AnswersHigh lib header s = elim (Reply-cases (bearer_token header s).0) [
  | inl (r, refused_now) ↦ rw refused_now (rw refused_now at (bearer_token-AnswersHigh header s))
  | inr (key, given) ↦
      let same = (bearer_token-going header s key given).1 in
      rw (given, same) (find_tenant-AnswersHigh lib key s)
]

module _ {L : Type 0} (lib : Library) (bucket : Bucket L) where
  -- A route of a tenant either refuses the request, with an answer of 400 or more and no change to a
  -- table, or answers and writes as the handler does for the tenant whose key the header bears.
  pub tenant_route-IsGuarded :
      (now : Time) (header : String) (next : Option Tenant → Handler Response) (f : Front L)
      → let (r, f') = tenant_route lib bucket now header next f in
        IsGuarded lib header next f.server r f'.server.db
  unfolding tenant_route run_handler
  tenant_route-IsGuarded now header next f =
      elim (Reply-cases (authenticate lib header f.server).0) [
        | inl (r, refused_now) ↦
            let high = rw refused_now at (authenticate-AnswersHigh lib header f.server) in
            rw refused_now (refused high.0 high.1)
        | inr (t, known) ↦
            let has = authenticate-HasKey lib f.server header t known in
            rw known (by (rate_middleware bucket now (some t) f.limiter) t has)
      ]
    where
      by :
          (v : Verdict × RateLimiter L) (t : Tenant)
          → ((key : String) × Bears key header × HasKey lib key t f.server.db)
            × ((authenticate lib header f.server).1.db ≡ f.server.db)
          → let (r, f') =
              by_verdict lib bucket v.0 (next (some t)) (authenticate lib header f.server).1 v.1 in
            IsGuarded lib header next f.server r f'.server.db
      by (unauthorized, rl) t h = refused (omega arith) h.1
      by (too_many_requests, rl) t h = refused (omega arith) h.1
      by (passes, rl) t h =
          admitted h.0.0 t (authenticate lib header f.server).1 h.0.1 h.0.2 h.1 refl refl

-- A route of a worker runs its handler only with the system's secret; else it answers 400 or more and
-- changes no table.
pub internal_route-guarded :
    (secret header : String) (next : Handler Response) (s : Server)
    → let (r, s') = internal_route secret header next s in
      ((400 ≤ r.status) × (s'.db ≡ s.db)) ⊎ (Bears secret header × ((r, s') ≡ serve next s))
unfolding internal_route require_internal_auth
internal_route-guarded secret header next s = elim (Reply-cases (bearer_token header s).0) [
  | inl (r, refused_now) ↦
      inl (rw refused_now (rw refused_now at (bearer_token-AnswersHigh header s)))
  | inr (token, given) ↦
      let had = bearer_token-going header s token given in
      elim (Bool-cases (str_eq token secret)) [
        | inr wrong ↦ inl (rw (given, had.1) (rw wrong (omega arith, refl)))
        | inl right ↦
            let same : token ≡ secret = (eq_iff _ _).0 right in
            inr (subst (λ x. Bears x header) same had.0, rw (given, had.1) (rw right))
      ]
]
