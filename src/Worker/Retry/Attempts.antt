-- ===== src/Worker/Retry/Attempts.antt =====
-- Which attempt decides a call, and how long a call can wait (internal/worker/agent.go, doWithRetry).
use jobplane.Base.{
  ℕ, suc, zero, ◌+◌, ◌≤◌, ◌<◌, ◌≡◌, ◌⊎◌, refl, subst, inl, inr, true, false, arith, leb, Bool-cases,
  if◌then◌else◌,
}
use jobplane.Worker.Retry.{
  max_retries, Outcome, no_request, network_error, answered, Sent, response, cancelled,
  request_error, fatal_status, retries_exceeded, Network, backoff_before, Call, stop, wait,
  is_retriable, after_attempt, attempt_from, do_with_retry,
}

-- The attempt is worth another.
abbrev pub IsTransient : Outcome → Type 0
IsTransient no_request = ⊥
IsTransient network_error = Unit {0}
IsTransient (answered status) = (500 ≤ status) ⊎ (status ≡ 429)

-- The attempt decides the call, with this result.
abbrev pub Decides : Outcome → Sent → Type 0
Decides no_request sent = sent ≡ request_error
Decides network_error sent = ⊥
Decides (answered status) sent =
    ((status < 400) × (sent ≡ response status))
    ⊎ ((400 ≤ status) × (status < 500) × ((status ≡ 429) → ⊥) × (sent ≡ fatal_status status))

module _ (net : Network) where
  -- The first `k` attempts from `attempt` are transient, and the context lives after each.
  abbrev pub Waits : ℕ → ℕ → Type 0
  Waits attempt k =
      (j : ℕ)
      → j < k
      → IsTransient (net.client (attempt + j)) × (net.is_cancelled (attempt + j) ≡ false)

  pub data Ends (attempt left : ℕ) (sent : Sent) : Type 0 where
    decided :
        (k : ℕ)
        → k ≤ left
        → Waits attempt k
        → Decides (net.client (attempt + k)) sent
        → Ends attempt left sent
    interrupted :
        (k : ℕ)
        → k < left
        → Waits attempt k
        → IsTransient (net.client (attempt + k))
        → net.is_cancelled (attempt + k) ≡ true
        → sent ≡ cancelled
        → Ends attempt left sent
    exhausted :
        Waits attempt left
        → IsTransient (net.client (attempt + left))
        → sent ≡ retries_exceeded
        → Ends attempt left sent

  data Sorted (o : Outcome) (rest : Call) : Type 0 where
    final : Decides o (after_attempt o rest).sent → Sorted o rest
    passing : IsTransient o → after_attempt o rest ≡ rest → Sorted o rest

  sort : (o : Outcome) (rest : Call) → Sorted o rest
  unfolding after_attempt
  sort no_request rest = final refl
  sort network_error rest = passing tt refl
  sort (answered status) rest = elim (Bool-cases (is_retriable status)) [
    | inl busy ↦ passing (retriable status busy) (rw busy)
    | inr decided_now ↦ elim (Bool-cases (leb 400 status)) [
      | inl bad ↦ final (inr (ground arith, ground arith, λ e. ground arith, rw (decided_now, bad)))
      | inr fine ↦ final (inl (ground arith, rw (decided_now, fine)))
    ]
  ]
    where
      retriable : (n : ℕ) → is_retriable n ≡ true → (500 ≤ n) ⊎ (n ≡ 429)
      retriable n h = elim (Bool-cases (leb 500 n)) [
        | inl high ↦ inl (ground arith)
        | inr low ↦ inr (ground arith)
      ]

  at_zero : (P : ℕ → Type 0) (attempt : ℕ) → P attempt → P (attempt + 0)
  at_zero P attempt = subst P (omega arith)

  at_suc : (P : ℕ → Type 0) (attempt j : ℕ) → P (suc attempt + j) → P (attempt + suc j)
  at_suc P attempt j = subst P (omega arith)

  earlier :
      (attempt k : ℕ)
      → IsTransient (net.client attempt)
      → net.is_cancelled attempt ≡ false
      → Waits (suc attempt) k
      → Waits attempt (suc k)
  earlier attempt k now alive later zero h =
      at_zero (λ n. IsTransient (net.client n) × (net.is_cancelled n ≡ false)) attempt (now, alive)
  earlier attempt k now alive later (suc j) h =
      at_suc (λ n. IsTransient (net.client n) × (net.is_cancelled n ≡ false)) attempt j
        (later j (omega arith))

  nothing : (attempt : ℕ) → Waits attempt 0
  nothing attempt j h = absurd (omega arith)

  earlier-Ends :
      (attempt left : ℕ) (sent : Sent)
      → IsTransient (net.client attempt)
      → net.is_cancelled attempt ≡ false
      → Ends (suc attempt) left sent
      → Ends attempt (suc left) sent
  earlier-Ends attempt left sent now alive (decided k low before last) =
      decided (suc k) (omega arith) (earlier attempt k now alive before)
        (at_suc (λ n. Decides (net.client n) sent) attempt k last)
  earlier-Ends attempt left sent now alive (interrupted k low before last gone e) =
      interrupted (suc k) (omega arith) (earlier attempt k now alive before)
        (at_suc (λ n. IsTransient (net.client n)) attempt k last)
        (at_suc (λ n. net.is_cancelled n ≡ true) attempt k gone) e
  earlier-Ends attempt left sent now alive (exhausted before last e) =
      exhausted (earlier attempt left now alive before)
        (at_suc (λ n. IsTransient (net.client n)) attempt left last) e

  attempt_from-Ends : (attempt left : ℕ) → Ends attempt left (attempt_from net left attempt).sent
  unfolding attempt_from
  attempt_from-Ends attempt zero = elim (sort (net.client attempt) (stop retries_exceeded)) [
    | final h ↦
        decided 0 (omega arith) (nothing attempt)
          (at_zero (λ n. Decides (net.client n) (attempt_from net 0 attempt).sent) attempt h)
    | passing h e ↦
        exhausted (nothing attempt) (at_zero (λ n. IsTransient (net.client n)) attempt h) (rw e)
  ]
  attempt_from-Ends attempt (suc left) =
      let ih = attempt_from-Ends (suc attempt) left in
      let rest = wait (backoff_before attempt (net.jitter attempt)) (
        if net.is_cancelled attempt then stop cancelled else attempt_from net left (suc attempt)) in
      elim (sort (net.client attempt) rest) [
        | final h ↦ decided 0 (omega arith) (nothing attempt) (
            at_zero (λ n. Decides (net.client n) (attempt_from net (suc left) attempt).sent) attempt
              h)
        | passing h e ↦ elim (Bool-cases (net.is_cancelled attempt)) [
          | inl gone ↦
              interrupted 0 (omega arith) (nothing attempt)
                (at_zero (λ n. IsTransient (net.client n)) attempt h)
                (at_zero (λ n. net.is_cancelled n ≡ true) attempt gone) (rw (e, gone))
          | inr alive ↦ rw e (rw alive (earlier-Ends attempt left _ h alive ih))
        ]
      ]

  -- A call is decided by the first attempt that is not worth another, if it is among the first six
  -- and the context lives so long: an answer below 400 is returned, another one is fatal, and so is a
  -- request that cannot be made. Else the
  -- call is cancelled in the wait in which the context ends, or gives up after six attempts.
  pub do_with_retry-Ends : Ends 0 max_retries (do_with_retry net).sent
  unfolding do_with_retry
  do_with_retry-Ends = attempt_from-Ends 0 max_retries
