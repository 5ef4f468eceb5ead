-- ===== src/Controller/Webhook/Attempts.antt =====
-- When a callback is delivered, and with how many requests (internal/controller/webhook/webhook.go).
use jobplane.Base.{
  ℕ, suc, zero, ◌+◌, ◌≤◌, ◌<◌, ◌≡◌, ◌⊎◌, refl, sym, ap, inl, inr, subst, Bool-cases, true, false,
  ◌&&◌, ◌||◌, List, [], ◌∷◌, arith, ltb, leb, ◌==◌,
}
use jobplane.Controller.Webhook.{
  max_retries, retry_backoff, Outcome, no_request, network_error, answered, do_post, Delivery, stop,
  again, after_post, deliver_from, deliver_with_retry,
}

-- A 2xx answer.
abbrev pub IsAccepted : Outcome → Type 0
IsAccepted (answered status) = (200 ≤ status) × (status < 300)
IsAccepted no_request = ⊥
IsAccepted network_error = ⊥

-- The attempt is worth another: the network failed, or the server is at fault or overloaded.
abbrev pub IsTransient : Outcome → Type 0
IsTransient (answered status) = (500 ≤ status) ⊎ (status ≡ 429)
IsTransient no_request = Unit {0}
IsTransient network_error = Unit {0}

-- Any other answer.
abbrev pub IsRefused : Outcome → Type 0
IsRefused (answered status) =
    ((status < 200) ⊎ (300 ≤ status)) × (status < 500) × ((status ≡ 429) → ⊥)
IsRefused no_request = ⊥
IsRefused network_error = ⊥

-- The sleeps before the retries `attempt + 1`, `attempt + 2`, …
abbrev pub sleeps : ℕ → ℕ → List ℕ
sleeps attempt zero = []
sleeps attempt (suc n) = retry_backoff (suc attempt) ∷ sleeps (suc attempt) n

module _ (client : ℕ → Outcome) where
  -- The loop of `1 + left` attempts from `attempt` ends at the first one that is not transient.
  pub data Ends (attempt left : ℕ) (r : Delivery) : Type 0 where
    accepted :
        (k : ℕ)
        → k ≤ left
        → ((j : ℕ) → j < k → IsTransient (client (attempt + j)))
        → IsAccepted (client (attempt + k))
        → r ≡ record { delivered = true; posts = suc k; slept = sleeps attempt k }
        → Ends attempt left r
    refused :
        (k : ℕ)
        → k ≤ left
        → ((j : ℕ) → j < k → IsTransient (client (attempt + j)))
        → IsRefused (client (attempt + k))
        → r ≡ record { delivered = false; posts = suc k; slept = sleeps attempt k }
        → Ends attempt left r
    exhausted :
        ((j : ℕ) → j ≤ left → IsTransient (client (attempt + j)))
        → r ≡ record { delivered = false; posts = suc left; slept = sleeps attempt left }
        → Ends attempt left r

  data Sorted (o : Outcome) (rest : Delivery) : Type 0 where
    good : IsAccepted o → after_post (do_post o) rest ≡ stop true → Sorted o rest
    bad : IsRefused o → after_post (do_post o) rest ≡ stop false → Sorted o rest
    passing : IsTransient o → after_post (do_post o) rest ≡ rest → Sorted o rest

  sort-status :
      (status : ℕ)
      → IsAccepted (answered status) ⊎ (IsRefused (answered status) ⊎ IsTransient (answered status))
  sort-status status = elim (Bool-cases (leb 200 status && ltb status 300)) [
    | inl fine ↦ inl (ground arith)
    | inr other ↦ elim (Bool-cases (leb 500 status || status == 429)) [
      | inr poor ↦ inr (inl (ground arith, ground arith, λ e. ground arith))
      | inl busy ↦ inr (
          inr (elim (Bool-cases (leb 500 status)) [
            | inl high ↦ inl (ground arith)
            | inr low ↦ inr (ground arith)
          ]))
    ]
  ]

  -- Each outcome is of one of the three kinds, and the loop tells them apart.
  sort : (o : Outcome) (rest : Delivery) → Sorted o rest
  unfolding do_post
  sort no_request rest = passing tt refl
  sort network_error rest = passing tt refl
  sort (answered status) rest = elim (sort-status status) [
    | inl ok_status ↦ good ok_status (ground arith)
    | inr (inl poor) ↦ bad poor (ground arith)
    | inr (inr busy) ↦ passing busy (ground arith)
  ]

  at_zero : (P : Outcome → Type 0) (attempt : ℕ) → P (client attempt) → P (client (attempt + 0))
  at_zero P attempt = subst (λ n. P (client n)) (omega arith)

  at_suc :
      (P : Outcome → Type 0) (attempt j : ℕ)
      → P (client (suc attempt + j))
      → P (client (attempt + suc j))
  at_suc P attempt j = subst (λ n. P (client n)) (omega arith)

  earlier :
      (attempt k : ℕ)
      → IsTransient (client attempt)
      → ((j : ℕ) → j < k → IsTransient (client (suc attempt + j)))
      → (j : ℕ) → j < suc k
      → IsTransient (client (attempt + j))
  earlier attempt k now later zero h = at_zero IsTransient attempt now
  earlier attempt k now later (suc j) h = at_suc IsTransient attempt j (later j (omega arith))

  none_before : (attempt j : ℕ) → j < 0 → IsTransient (client (attempt + j))
  none_before attempt j h = absurd (omega arith)

  -- One transient attempt more before the rest of the loop.
  earlier-Ends :
      (attempt left : ℕ) (r : Delivery)
      → IsTransient (client attempt)
      → Ends (suc attempt) left r
      → Ends attempt (suc left) (again (retry_backoff (suc attempt)) r)
  earlier-Ends attempt left r now (accepted k low before last e) =
      accepted (suc k) (omega arith) (earlier attempt k now before)
        (at_suc IsAccepted attempt k last) (ap (again (retry_backoff (suc attempt))) e)
  earlier-Ends attempt left r now (refused k low before last e) =
      refused (suc k) (omega arith) (earlier attempt k now before) (at_suc IsRefused attempt k last)
        (ap (again (retry_backoff (suc attempt))) e)
  earlier-Ends attempt left r now (exhausted before e) =
      exhausted
        (λ j low. earlier attempt (suc left) now (λ i l. before i (omega arith)) j (omega arith))
        (ap (again (retry_backoff (suc attempt))) e)

  deliver_from-Ends : (attempt left : ℕ) → Ends attempt left (deliver_from client left attempt)
  unfolding deliver_from
  deliver_from-Ends attempt zero = elim (sort (client attempt) (stop false)) [
    | good h e ↦ accepted 0 (omega arith) (none_before attempt) (at_zero IsAccepted attempt h) e
    | bad h e ↦ refused 0 (omega arith) (none_before attempt) (at_zero IsRefused attempt h) e
    | passing h e ↦
        exhausted (λ j low. earlier attempt 0 h (none_before (suc attempt)) j (omega arith)) e
  ]
  deliver_from-Ends attempt (suc left) =
      let ih = deliver_from-Ends (suc attempt) left in
      let rest = again (retry_backoff (suc attempt)) (deliver_from client left (suc attempt)) in
      elim (sort (client attempt) rest) [
        | good h e ↦ accepted 0 (omega arith) (none_before attempt) (at_zero IsAccepted attempt h) e
        | bad h e ↦ refused 0 (omega arith) (none_before attempt) (at_zero IsRefused attempt h) e
        | passing h e ↦ subst (Ends attempt (suc left)) (sym e) (earlier-Ends attempt left _ h ih)
      ]

  -- A callback is posted until an answer is not transient, at most four times, with sleeps of 1, 5
  -- and 25 seconds between; an answer of 429 is transient as one from 500 on is, and so are a network
  -- error and a request that cannot be made. It counts as delivered exactly where the last answer is a 2xx.
  pub deliver_with_retry-Ends : Ends 0 max_retries (deliver_with_retry client)
  unfolding deliver_with_retry
  deliver_with_retry-Ends = deliver_from-Ends 0 max_retries
