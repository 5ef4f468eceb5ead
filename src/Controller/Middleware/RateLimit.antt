-- ===== src/Controller/Middleware/RateLimit.antt =====
-- internal/controller/middleware/ratelimit.go, one request at a time. The token bucket of
-- golang.org/x/time/rate is the parameter `Bucket`.
pub mod Fresh
use jobplane.Base.{
  ℕ, ◌+◌, ◌*◌, ◌≡◌, Bool, true, false, not, Option, none, some, List, [], ◌∷◌, map, ltb, ◌==◌,
  first, select, if◌then◌else◌,
}
use jobplane.Base.Int.{ℤ, pos, ltb_ℤ}
use jobplane.Store.Models.{Uuid, Time, Tenant, minute}

-- rate.NewLimiter and Allow, which takes a token where there is one.
pub record Bucket (L : Type 0) : Type 0 where
  pub new_limiter : ℤ → ℤ → L
  pub allow : Time → L → Bool × L

pub record CachedLimiter (L : Type 0) : Type 0 where
  pub limiter : L
  pub expires_at : Time

-- The map from tenants to limiters, with the tenant beside each value.
pub record RateLimiter (L : Type 0) : Type 0 where
  pub ttl : ℕ
  pub limiters : List (Uuid × CachedLimiter L)

abbrev pub is_of : {L : Type 0} → Uuid → Uuid × CachedLimiter L → Bool
is_of i entry = entry.0 == i

abbrev pub cached : {L : Type 0} → Option (Uuid × CachedLimiter L) → Option (CachedLimiter L)
cached none = none
cached (some entry) = some entry.1

-- sync.Map's Load, Delete and Store.
abbrev pub load : {L : Type 0} → Uuid → List (Uuid × CachedLimiter L) → Option (CachedLimiter L)
load i entries = cached (first (is_of i) entries)

abbrev pub remove :
    {L : Type 0} → Uuid → List (Uuid × CachedLimiter L) → List (Uuid × CachedLimiter L)
remove i entries = select (λ entry. not (is_of i entry)) entries

abbrev pub put :
    {L : Type 0}
    → Uuid
    → CachedLimiter L
    → List (Uuid × CachedLimiter L)
    → List (Uuid × CachedLimiter L)
put i c entries = (i, c) ∷ remove i entries

-- NewRateLimiter with no option.
abbrev pub new_rate_limiter : (L : Type 0) → RateLimiter L
new_rate_limiter L = record { ttl = 5 * minute; limiters = [] }

unfoldable pub invalidate_tenant : {L : Type 0} → Uuid → RateLimiter L → RateLimiter L
invalidate_tenant i rl = record rl { limiters = remove i rl.limiters }

-- What the middleware does with a request.
pub data Verdict : Type 0 where
  unauthorized : Verdict
  too_many_requests : Verdict
  passes : Verdict

abbrev pub verdict_of : Bool → Verdict
verdict_of true = passes
verdict_of false = too_many_requests

-- The value that the cache holds at `now`, unless it has expired.
abbrev pub alive : {L : Type 0} → Time → Option (CachedLimiter L) → Option (CachedLimiter L)
alive now none = none
alive now (some c) = if ltb now c.expires_at then some c else none

module _ {L : Type 0} (bucket : Bucket L) where
  abbrev pub fresh_limiter : Time → Tenant → RateLimiter L → CachedLimiter L
  fresh_limiter now t rl = record {
    limiter = bucket.new_limiter t.rate_limit t.rate_limit_burst;
    expires_at = now + rl.ttl;
  }

  abbrev pub chosen : Option (CachedLimiter L) → CachedLimiter L → CachedLimiter L
  chosen none fresh = fresh
  chosen (some c) fresh = c

  -- The entry of the cache, or a new one, which is stored.
  unfoldable pub get_or_create_limiter : Time → Tenant → RateLimiter L → CachedLimiter L
  get_or_create_limiter now t rl =
      chosen (alive now (load t.id rl.limiters)) (fresh_limiter now t rl)

  -- The limiter is shared with the cache, so what Allow does to it stays there.
  unfoldable pub take_token : Time → Tenant → RateLimiter L → Verdict × RateLimiter L
  unfolding get_or_create_limiter
  take_token now t rl =
      let c = get_or_create_limiter now t rl in
      let (allowed, used) = bucket.allow now c.limiter in
      (
        verdict_of allowed,
        record rl { limiters = put t.id (record c { limiter = used }) rl.limiters },
      )

  unfoldable pub rate_middleware : Time → Option Tenant → RateLimiter L → Verdict × RateLimiter L
  unfolding take_token
  rate_middleware now none rl = (unauthorized, rl)
  rate_middleware now (some t) rl =
      if ltb_ℤ (pos 0) t.rate_limit then take_token now t rl else (passes, rl)

  -- What reaches the limiter: a request at a time, or a change of a tenant.
  pub data Visit : Type 0 where
    requests : Time → Option Tenant → Visit
    changes : Uuid → Visit

  unfoldable pub visit : Visit → RateLimiter L → RateLimiter L
  unfolding rate_middleware invalidate_tenant
  visit (requests now t) rl = (rate_middleware now t rl).1
  visit (changes i) rl = invalidate_tenant i rl

  unfoldable pub visit_all : List Visit → RateLimiter L → RateLimiter L
  unfolding visit
  visit_all [] rl = rl
  visit_all (v ∷ vs) rl = visit_all vs (visit v rl)
