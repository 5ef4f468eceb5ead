-- ===== src/Store/Queue/Best.antt =====
-- DequeueBatch's selection meets its specification (internal/store/postgres/queue.go,
-- `selectQuery`): the best rows that the caller may claim.
use mathlib.Core.List.{Perm, append_assoc}
use mathlib.Core.List.Perm
use jobplane.Base.{
  ℕ, ◌≤◌, ◌≡◌, ◌⊎◌, refl, inl, inr, Bool, true, false, not, List, [], ◌∷◌, ◌++◌, arith, min, length,
  take, drop, any, select, ◌==◌, All, All-select, All-mono, All-append, All-trivial, length-take,
  take-append-drop,
}
use jobplane.Base.Int.{◌≤ℤ◌}
use jobplane.Store.Models.{Uuid, Time}
use jobplane.Store.Db.{QueueRow}
use jobplane.Store.Queue.{goes_first, is_claimable, has_id, select_batch}
use jobplane.Base.Sort.{
  order_by, IsSorted, order_by-IsSorted, order_by-perm, order_by-All, select-IsSorted, select_parts,
}

-- Not of lower priority, and among equals not younger.
abbrev pub Precedes : QueueRow → QueueRow → Type 0
Precedes a b = (b.priority ≤ℤ a.priority) × (a.priority ≤ℤ b.priority → a.created_at ≤ b.created_at)

-- Each row precedes all that follow it.
abbrev pub InOrder : List QueueRow → Type 0
InOrder [] = Unit {0}
InOrder (q ∷ qs) = All (Precedes q) qs × InOrder qs

-- The row is visible, of one of the tenants if any are given, and locked by nobody.
abbrev pub IsAvailable : Time → List ℕ → List Uuid → QueueRow → Type 0
IsAvailable now locked tenants q =
    (q.visible_after ≤ now)
    × ((tenants ≡ []) ⊎ (any (λ t. t == q.tenant_id) tenants ≡ true))
    × (any (λ i. i == q.id) locked ≡ false)

-- The queue is the batch, the available rows that it leaves, and rows that are not available.
pub record IsBestBatch (now : Time) (locked : List ℕ) (tenants : List Uuid) (limit : ℕ)
    (queue batch : List QueueRow) : Type 0 where
  pub left : List QueueRow
  pub others : List QueueRow
  pub in_order : InOrder (batch ++ left)
  pub complete : Perm ((batch ++ left) ++ others) queue
  pub available : All (IsAvailable now locked tenants) (batch ++ left)
  pub unavailable : All (λ q. IsAvailable now locked tenants q → ⊥) others
  pub full : length batch ≡ min limit (length (batch ++ left))

goes_first-Precedes : (a b : QueueRow) → goes_first a b ≡ true → Precedes a b
goes_first-Precedes a b h = ground arith

goes_first-total : (a b : QueueRow) → goes_first a b ≡ false → goes_first b a ≡ true
goes_first-total a b h = ground arith

goes_first_trans :
    (a b c : QueueRow) → goes_first a b ≡ true → goes_first b c ≡ true → goes_first a c ≡ true
goes_first_trans a b c h k = ground arith

IsSorted-InOrder : (qs : List QueueRow) → IsSorted goes_first qs → InOrder qs
IsSorted-InOrder [] h = tt
IsSorted-InOrder (q ∷ qs) h = (All-mono _ _ qs (goes_first-Precedes q) h.0, IsSorted-InOrder qs h.1)

-- Two tests one after the other leave three parts.
parts-perm :
    (p free : QueueRow → Bool) (queue sorted : List QueueRow)
    → Perm sorted (select p queue)
    → Perm
        (select free sorted ++ (select (λ q. not (free q)) sorted ++ select (λ q. not (p q)) queue))
        queue
parts-perm p free queue sorted h =
    rw⁻¹
      (append_assoc (select free sorted) (select (λ q. not (free q)) sorted)
        (select (λ q. not (p q)) queue))
      (Perm.trans (Perm.append_right _ (Perm.trans (select_parts free sorted) h))
        (select_parts p queue))

module _ (now : Time) (locked : List ℕ) where
  abbrev free : QueueRow → Bool
  free q = not (has_id locked q)

  claimable-IsAvailable :
      (ts : List Uuid) (q : QueueRow)
      → is_claimable now ts q ≡ true
      → free q ≡ true
      → IsAvailable now locked ts q
  claimable-IsAvailable [] q h k = (ground arith, inl refl, ground arith)
  claimable-IsAvailable (t ∷ ts) q h k = (ground arith, inr (ground arith), ground arith)

  other-IsAvailable :
      (ts : List Uuid) (q : QueueRow)
      → not (is_claimable now ts q) ≡ true
      → IsAvailable now locked ts q
      → ⊥
  other-IsAvailable [] q h k = ground (arith, k.0)
  other-IsAvailable (t ∷ ts) q h (v, inl e, f) = cc
  other-IsAvailable (t ∷ ts) q h (v, inr e, f) = ground arith

  module _ (tenants : List Uuid) (limit : ℕ) (queue : List QueueRow) where
    abbrev claimable : List QueueRow
    claimable = select (is_claimable now tenants) queue

    abbrev ordered : List QueueRow
    ordered = order_by goes_first claimable

    claimable-All : All (λ q. is_claimable now tenants q ≡ true) ordered
    claimable-All = order_by-All goes_first _ claimable (
        All-select (λ _. Unit {0}) _ (is_claimable now tenants) queue (λ q h _. h)
          (All-trivial queue))

    -- The selected rows are, of those that are visible, of the given tenants and not locked, the ones
    -- that come first by priority and then by age, as many as the limit allows.
    pub select_batch-IsBestBatch :
        IsBestBatch now locked tenants limit queue (select_batch now locked tenants limit queue)
    unfolding select_batch
    select_batch-IsBestBatch = record {
      left = drop limit sorted;
      others =
          select (λ q. not (free q)) ordered
          ++ select (λ q. not (is_claimable now tenants q)) queue;
      in_order = rw parts (
          IsSorted-InOrder sorted (
            select-IsSorted goes_first free ordered
              (order_by-IsSorted goes_first goes_first-total goes_first_trans claimable)));
      complete = rw parts (
          parts-perm (is_claimable now tenants) free queue ordered
            (order_by-perm goes_first claimable));
      available = rw parts (
          All-select _ _ free ordered
            (λ q unlocked visible. claimable-IsAvailable tenants q visible unlocked) claimable-All);
      unavailable =
          All-append _ _ _
            (All-select (λ _. Unit {0}) _ (λ q. not (free q)) ordered
              (λ q h _ k. ground (arith, k.2)) (All-trivial ordered))
            (All-select (λ _. Unit {0}) _ (λ q. not (is_claimable now tenants q)) queue
              (λ q h _. other-IsAvailable tenants q h) (All-trivial queue));
      full = rw parts (length-take limit sorted);
    }
      where
        sorted : List QueueRow
        sorted = select free ordered

        parts : take limit sorted ++ drop limit sorted ≡ sorted
        parts = take-append-drop limit sorted
