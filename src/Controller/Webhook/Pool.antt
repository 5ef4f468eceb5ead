-- ===== src/Controller/Webhook/Pool.antt =====
-- internal/controller/webhook/webhook.go, Deliver and Shutdown, and internal/controller/server.go,
-- Shutdown: the goroutines of the dispatcher as a step relation, with the semaphore that lets ten of
-- them work at a time and the wait group that Shutdown waits for.
pub mod Drained
use jobplane.Base.{
  ℕ, ◌<◌, ◌≡◌, String, true, false, Option, none, some, List, [], ◌∷◌, ◌++◌, length,
}
use jobplane.Store.Models.{Execution}
use jobplane.Store.Exec.{World}
use jobplane.Controller.Handlers.Jobs.{has_url}
use jobplane.Controller.Webhook.{Outcome, deliver}

abbrev pub max_concurrent : ℕ
max_concurrent = 10

-- The goroutines before the semaphore, those that hold it, and the deliveries that have ended.
pub record Pool : Type 0 where
  pub waiting : List Execution
  pub active : List Execution
  pub ended : List Execution
  pub world : World

-- A new dispatcher over a store.
abbrev pub new_pool : World → Pool
new_pool world = record { waiting = []; active = []; ended = []; world = world }

-- `client` is the network of each delivery.
module _ (client : Execution → ℕ → Outcome) where
  -- A goroutine takes the semaphore, or makes its delivery, gives the semaphore back and ends.
  pub data Works (p q : Pool) : Type 0 where
    acquires :
        (before later : List Execution) (e : Execution)
        → p.waiting ≡ before ++ e ∷ later
        → length p.active < max_concurrent
        → q ≡ record p { waiting = before ++ later; active = e ∷ p.active }
        → Works p q
    finishes :
        (before later : List Execution) (e : Execution)
        → p.active ≡ before ++ e ∷ later
        → q ≡ record p {
          active = before ++ later;
          ended = e ∷ p.ended;
          world = (deliver (client e) e p.world).1;
        }
        → Works p q

  -- The pools that can be reached, with the executions that Deliver was given and that have a URL.
  pub data Reaches (world : World) : Pool → List Execution → Type 0 where
    at_start : Reaches world (new_pool world) []
    delivers :
        (p : Pool) (given : List Execution) (e : Execution)
        → Reaches world p given
        → has_url e.callback_url ≡ true
        → Reaches world (record p { waiting = e ∷ p.waiting }) (e ∷ given)
    skips :
        (p : Pool) (given : List Execution) (e : Execution)
        → Reaches world p given
        → has_url e.callback_url ≡ false
        → Reaches world p given
    works :
        (p q : Pool) (given : List Execution)
        → Reaches world p given
        → Works p q
        → Reaches world q given

-- The wait group is empty.
abbrev pub IsIdle : Pool → Type 0
IsIdle p = (p.waiting ≡ []) × (p.active ≡ [])

-- What the select of Shutdown may take at a pool, where `context_error` is ctx.Err(): `done` once the
-- wait group is empty, and the context once it has ended. Where both can go, select takes either.
pub data ShutdownReturns (p : Pool) (context_error : Option String) : Option String → Type 0 where
  drained : IsIdle p → ShutdownReturns p context_error none
  cut_off :
      (text : String) → context_error ≡ some text → ShutdownReturns p context_error (some text)

-- Server.Shutdown: the error of the HTTP server goes before the dispatcher's.
unfoldable pub server_shutdown : Option String → Option String → Option String
server_shutdown none dispatcher_error = dispatcher_error
server_shutdown (some text) dispatcher_error = some text
