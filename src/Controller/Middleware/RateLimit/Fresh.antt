-- ===== src/Controller/Middleware/RateLimit/Fresh.antt =====
-- How old the settings can be that a tenant is limited by
-- (internal/controller/middleware/ratelimit.go).
use jobplane.Base.{
  ℕ, ◌+◌, ◌≤◌, ◌≡◌, refl, ap, ◌∙◌, ==_refl, inl, inr, false, none, some, List, [], ◌∷◌, arith, ltb,
  ◌==◌, first, All, All-select, Bool-cases, Option-cases, if◌then◌else◌,
}
use jobplane.Base.Int.{pos, ltb_ℤ}
use jobplane.Store.Models.{Uuid, Time, Tenant}
use jobplane.Store.Views.{first-delete}
use jobplane.Controller.Middleware.RateLimit.{
  Bucket, CachedLimiter, RateLimiter, is_of, cached, load, remove, fresh_limiter,
  get_or_create_limiter, take_token, rate_middleware, invalidate_tenant, Visit, requests, changes,
  visit, visit_all,
}

module _ {L : Type 0} (bucket : Bucket L) (t : Tenant) where
  -- The limiter that the tenant's settings stand for, with no token used.
  abbrev pub IsCurrent : Time → RateLimiter L → Type 0
  IsCurrent now rl = get_or_create_limiter bucket now t rl ≡ fresh_limiter bucket now t rl

module _ {L : Type 0} (bucket : Bucket L) (last : Time) where
  -- Every entry of the cache ends by `last` and the time to live.
  abbrev EndsBy : RateLimiter L → Type 0
  EndsBy rl = All (λ entry. entry.1.expires_at ≤ last + rl.ttl) rl.limiters

  -- The visit is no later than `last`.
  abbrev pub IsBy : Visit bucket → Type 0
  IsBy (requests now t) = now ≤ last
  IsBy (changes i) = Unit {0}

  first-All :
      (i : Uuid) (n : ℕ) (entries : List (Uuid × CachedLimiter L)) (c : CachedLimiter L)
      → All (λ entry. entry.1.expires_at ≤ n) entries
      → load i entries ≡ some c
      → c.expires_at ≤ n
  first-All i n [] c h e = absurd (cc)
  first-All i n (entry ∷ entries) c h e = elim (Bool-cases (entry.0 == i)) [
    | inl hit ↦ ground (arith, h.0, rw hit at e)
    | inr miss ↦ first-All i n entries c h.1 (rw miss at e)
  ]

  get_or_create-ends :
      (now : Time) (t : Tenant) (rl : RateLimiter L)
      → now ≤ last
      → EndsBy rl
      → (get_or_create_limiter bucket now t rl).expires_at ≤ last + rl.ttl
  unfolding get_or_create_limiter
  get_or_create-ends now t rl soon h = elim (Option-cases (load t.id rl.limiters)) [
    | inl gone ↦ rw gone (omega arith)
    | inr (c, found) ↦ rw found (elim (Bool-cases (ltb now c.expires_at)) [
      | inl live ↦ rw live (first-All t.id _ rl.limiters c h found)
      | inr dead ↦ rw dead (omega arith)
    ])
  ]

  visit-EndsBy :
      (v : Visit bucket) (rl : RateLimiter L)
      → IsBy v
      → EndsBy rl
      → EndsBy (visit bucket v rl) × ((visit bucket v rl).ttl ≡ rl.ttl)
  unfolding visit rate_middleware invalidate_tenant take_token
  visit-EndsBy (changes i) rl soon h = (All-select _ _ _ rl.limiters (λ x _ k. k) h, refl)
  visit-EndsBy (requests now none) rl soon h = (h, refl)
  visit-EndsBy (requests now (some t)) rl soon h = elim (Bool-cases (ltb_ℤ (pos 0) t.rate_limit)) [
    | inl limited ↦
        rw (limited, visit)
          ((get_or_create-ends now t rl soon h, All-select _ _ _ rl.limiters (λ x _ k. k) h), refl)
    | inr free ↦ rw (free, visit) (h, refl)
  ]

  visits-EndsBy :
      (vs : List (Visit bucket)) (rl : RateLimiter L)
      → All IsBy vs
      → EndsBy rl
      → EndsBy (visit_all bucket vs rl) × ((visit_all bucket vs rl).ttl ≡ rl.ttl)
  unfolding visit_all
  visits-EndsBy [] rl soon h = (h, refl)
  visits-EndsBy (v ∷ vs) rl soon h =
      let one = visit-EndsBy v rl soon.0 h in
      let all = visits-EndsBy vs (visit bucket v rl) soon.1 one.0 in (all.0, all.1 ∙ one.1)

  -- From an empty cache, after any requests and changes up to `last`, a tenant is limited by its
  -- settings of the moment from `last` and the time to live on.
  pub settings_expire :
      (vs : List (Visit bucket)) (ttl : ℕ) (now : Time) (t : Tenant)
      → All IsBy vs
      → last + ttl ≤ now
      → IsCurrent bucket t now (visit_all bucket vs (record { ttl = ttl; limiters = [] }))
  unfolding get_or_create_limiter
  settings_expire vs ttl now t soon late =
      let empty : RateLimiter L = record { ttl = ttl; limiters = [] } in
      let done = visits-EndsBy vs empty soon tt in
      let rl = visit_all bucket vs empty in
      elim (Option-cases (load t.id rl.limiters)) [
        | inl gone ↦ rw gone
        | inr (c, found) ↦
            let old = first-All t.id _ rl.limiters c done.0 found in
            let dead : ltb now c.expires_at ≡ false = ground (arith, old, done.1) in
            rw found (rw dead)
      ]

-- After InvalidateTenant a tenant is limited by its settings of the moment at once, and the entries
-- of the other tenants stay.
pub invalidated-IsCurrent :
    {L : Type 0} (bucket : Bucket L) (t : Tenant) (now : Time) (rl : RateLimiter L)
    → IsCurrent bucket t now (invalidate_tenant t.id rl)
      × ((i : Uuid)
          → (i == t.id) ≡ false
          → load i (invalidate_tenant t.id rl).limiters ≡ load i rl.limiters)
unfolding invalidate_tenant get_or_create_limiter
invalidated-IsCurrent bucket t now rl =
    (rw (gone t.id) (rw (==_refl t.id)), λ i other. ap cached (gone i ∙ if_other i other))
  where
    gone :
        (i : Uuid)
        → first (is_of i) (remove t.id rl.limiters)
          ≡ (if t.id == i then none else first (is_of i) rl.limiters)
    gone i = first-delete (λ entry. entry.0) t.id i rl.limiters

    if_other :
        (i : Uuid)
        → (i == t.id) ≡ false
        → (if t.id == i then none else first (is_of i) rl.limiters) ≡ first (is_of i) rl.limiters
    if_other i other = let e : (t.id == i) ≡ false = ground arith in rw e
