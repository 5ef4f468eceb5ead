-- ===== src/Worker/Pull.antt =====
-- internal/worker/agent.go, Run: the pull loop as a machine. `Answers limit items` says what the
-- controller may answer to a request for `limit` executions.
pub mod Capacity
use jobplane.Base.{
  ℕ, ◌+◌, ◌-◌, ◌*◌, ◌≤◌, ◌<◌, ◌≡◌, Bool, true, false, ◌||◌, Option, none, some, List, [], ◌∷◌, ltb,
  min, length, if◌then◌else◌,
}
use jobplane.Store.Models.{Uuid}

-- The loop selects, hands the rest of a batch to goroutines, waits for them to end, or has ended.
pub data Phase : Type 0 where
  selecting : Phase
  dispatching : List Uuid → Bool → Phase
  draining : Phase
  stopped : Phase

-- `running` are the executions that hold a slot of the semaphore, `poll_now` whether the channel
-- holds a signal.
pub record Loop : Type 0 where
  pub running : List Uuid
  pub poll_now : Bool
  pub current_backoff : ℕ
  pub phase : Phase

-- The execution leaves the list, wherever it stands.
pub data Leaves (i : Uuid) : List Uuid → List Uuid → Type 0 where
  here : (xs : List Uuid) → Leaves i (i ∷ xs) xs
  there : (x : Uuid) (xs ys : List Uuid) → Leaves i xs ys → Leaves i (x ∷ xs) (x ∷ ys)

module _ (concurrency poll_interval max_backoff : ℕ) where
  abbrev pub started : Loop
  started = record {
    running = [];
    poll_now = true;
    current_backoff = poll_interval;
    phase = selecting;
  }

  abbrev pub available_slots : Loop → ℕ
  available_slots l = concurrency - length l.running

  -- What a poll does with the answer of fetchWork, `none` for an error.
  unfoldable pub after_fetch : Option (List Uuid) → Loop → Loop
  after_fetch none l = record l { poll_now = false }
  after_fetch (some []) l = record l {
    poll_now = false;
    current_backoff = min (l.current_backoff * 2) max_backoff;
  }
  after_fetch (some (i ∷ items)) l = record l {
    poll_now = false;
    current_backoff = poll_interval;
    phase = dispatching (i ∷ items) (ltb (length (i ∷ items)) (available_slots l));
  }

  -- The execution takes a slot.
  abbrev pub dispatch : Uuid → List Uuid → Bool → Loop → Loop
  dispatch i rest more l = record l { running = i ∷ l.running; phase = dispatching rest more }

  -- The batch is handed out; where slots are left, a poll follows at once.
  abbrev pub dispatched : Bool → Loop → Loop
  dispatched more l = record l { poll_now = l.poll_now || more; phase = selecting }

  pub data Step (Answers : ℕ → List Uuid → Type 0) (l : Loop) : Loop → Type 0 where
    timer : l.phase ≡ selecting → Step Answers l (record l { poll_now = true })
    -- No slot is free: the signal is taken, and nothing asked.
    full :
        l.phase ≡ selecting
        → l.poll_now ≡ true
        → available_slots l ≡ 0
        → Step Answers l (record l { poll_now = false })
    fetch_fails :
        l.phase ≡ selecting
        → l.poll_now ≡ true
        → 0 < available_slots l
        → Step Answers l (after_fetch none l)
    fetches :
        (items : List Uuid)
        → l.phase ≡ selecting
        → l.poll_now ≡ true
        → 0 < available_slots l
        → Answers (available_slots l) items
        → Step Answers l (after_fetch (some items) l)
    -- `sem <- struct{}{}` waits for a free slot.
    acquires :
        (i : Uuid) (rest : List Uuid) (more : Bool)
        → l.phase ≡ dispatching (i ∷ rest) more
        → length l.running < concurrency
        → Step Answers l (dispatch i rest more l)
    batch_ends : (more : Bool) → l.phase ≡ dispatching [] more → Step Answers l (dispatched more l)
    -- A goroutine ends: its slot is free, and a poll is signalled.
    finishes :
        (i : Uuid) (rest : List Uuid)
        → Leaves i l.running rest
        → Step Answers l (record l { running = rest; poll_now = true })
    cancels : l.phase ≡ selecting → Step Answers l (record l { phase = draining })
    drains : l.phase ≡ draining → l.running ≡ [] → Step Answers l (record l { phase = stopped })

  pub data Reaches (Answers : ℕ → List Uuid → Type 0) : Loop → Type 0 where
    at_start : Reaches Answers started
    then_step : (l m : Loop) → Reaches Answers l → Step Answers l m → Reaches Answers m
