-- ===== src/Worker/Pull/Capacity.antt =====
-- The pull loop never runs more executions than it has slots for, and never waits for a slot while
-- it holds executions that it has claimed (internal/worker/agent.go, Run).
use jobplane.Base.{
  ℕ, suc, ◌+◌, ◌≤◌, ◌≡◌, ◌⊎◌, inl, inr, refl, some, List, [], ◌∷◌, arith, min, length,
}
use jobplane.Store.Models.{Uuid}
use jobplane.Worker.Pull.{
  Phase, selecting, dispatching, draining, stopped, Loop, Leaves, here, there, available_slots,
  after_fetch, Step, timer, full, fetch_fails, fetches, acquires, batch_ends, finishes, cancels,
  drains, Reaches, at_start, then_step,
}

-- The executions that are claimed and not yet handed out.
abbrev pub waiting : Phase → ℕ
waiting selecting = 0
waiting (dispatching rest more) = length rest
waiting draining = 0
waiting stopped = 0

Leaves-length : {i : Uuid} {xs ys : List Uuid} → Leaves i xs ys → suc (length ys) ≡ length xs
Leaves-length (here xs) = refl
Leaves-length (there x xs ys h) = ground (arith, Leaves-length h)

module _ (concurrency poll_interval max_backoff : ℕ) (Answers : ℕ → List Uuid → Type 0)
    (honest : (limit : ℕ) (items : List Uuid) → Answers limit items → length items ≤ limit) where
  pub record Fits (l : Loop) : Type 0 where
    pub slots : length l.running + waiting l.phase ≤ concurrency
    pub least : min poll_interval max_backoff ≤ l.current_backoff
    pub most : (l.current_backoff ≤ poll_interval) ⊎ (l.current_backoff ≤ max_backoff)

  abbrev Steps : Loop → Loop → Type 0
  Steps = Step concurrency poll_interval max_backoff Answers

  fetched-Fits :
      (l : Loop) (items : List Uuid)
      → l.phase ≡ selecting
      → Answers (available_slots concurrency poll_interval max_backoff l) items
      → Fits l
      → Fits (after_fetch concurrency poll_interval max_backoff (some items) l)
  unfolding after_fetch
  fetched-Fits l [] e a h = record {
    slots = h.slots;
    least = omega (arith, h.least);
    most = inr (omega arith);
  }
  fetched-Fits l (i ∷ items) e a h = record {
    slots = omega (arith, honest _ _ a, h.slots);
    least = omega arith;
    most = inl (omega arith);
  }

  Step-Fits : (l m : Loop) → Steps l m → Fits l → Fits m
  Step-Fits l _ (timer e) h = record { slots = h.slots; least = h.least; most = h.most }
  Step-Fits l _ (full e p n) h = record { slots = h.slots; least = h.least; most = h.most }
  Step-Fits l _ (fetch_fails e p n) h =
      unfold after_fetch in record { slots = h.slots; least = h.least; most = h.most }
  Step-Fits l _ (fetches items e p n a) h = fetched-Fits l items e a h
  Step-Fits l _ (acquires i rest more e free) h = record {
    slots = let k = rw e at (h.slots) in omega (arith, k);
    least = h.least;
    most = h.most;
  }
  Step-Fits l _ (batch_ends more e) h = record {
    slots = let k = rw e at (h.slots) in omega (arith, k);
    least = h.least;
    most = h.most;
  }
  Step-Fits l _ (finishes i rest gone) h = record {
    slots = omega (arith, h.slots, Leaves-length gone);
    least = h.least;
    most = h.most;
  }
  Step-Fits l _ (cancels e) h = record {
    slots = omega (arith, h.slots);
    least = h.least;
    most = h.most;
  }
  Step-Fits l _ (drains e gone) h = record {
    slots = omega (arith, h.slots);
    least = h.least;
    most = h.most;
  }

  -- Where the controller answers with no more executions than it is asked for, in every state that the
  -- loop reaches the executions that run and those that are claimed fit in the slots together, and the
  -- backoff is at least the smaller and at most the larger of the poll interval and its maximum.
  pub reached-Fits : (l : Loop) → Reaches concurrency poll_interval max_backoff Answers l → Fits l
  reached-Fits _ at_start = record {
    slots = omega arith;
    least = omega arith;
    most = inl (omega arith);
  }
  reached-Fits _ (then_step l m r s) = Step-Fits l m s (reached-Fits l r)
