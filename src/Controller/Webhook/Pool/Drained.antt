-- ===== src/Controller/Webhook/Pool/Drained.antt =====
-- What the dispatcher's goroutines do with the deliveries they are given
-- (internal/controller/webhook/webhook.go).
use mathlib.Core.List.{Perm, perm_middle}
use mathlib.Core.List.Perm
use jobplane.Base.{
  ℕ, suc, ◌+◌, ◌*◌, ◌≤◌, ◌≡◌, ◌⊎◌, inl, inr, refl, sym, ap, subst, none, some, Option, String, List,
  [], ◌∷◌, ◌++◌, length, length-append, arith,
}
use jobplane.Base.Text.{List-cases}
use jobplane.Store.Models.{Execution}
use jobplane.Store.Exec.{World}
use jobplane.Controller.Webhook.{Outcome}
use jobplane.Controller.Webhook.Pool.{
  max_concurrent, Pool, Works, acquires, finishes, Reaches, at_start, delivers, skips, works,
  IsIdle, ShutdownReturns, drained, cut_off,
}

length-middle :
    {A : Type 0} (before later : List A) (e : A)
    → length (before ++ e ∷ later) ≡ suc (length (before ++ later))
length-middle before later e =
    omega (arith, length-append before (e ∷ later), length-append before later)

-- What Shutdown returns: with an open context nil and nothing else, and not before the dispatcher
-- is at rest; with an ended one that, or the error of the context.
pub data Answers (q : Pool) : Option String → Option String → Type 0 where
  waited : IsIdle q → Answers q none none
  waited_late : (text : String) → IsIdle q → Answers q (some text) none
  gave_up : (text : String) → Answers q (some text) (some text)

ShutdownReturns-Answers :
    (q : Pool) (context_error r : Option String)
    → ShutdownReturns q context_error r
    → Answers q context_error r
ShutdownReturns-Answers q none r (drained idle) = waited idle
ShutdownReturns-Answers q (some text) r (drained idle) = waited_late text idle
ShutdownReturns-Answers q context_error r (cut_off text e) =
    subst (λ c. Answers q c (some text)) (sym e) (gave_up text)

-- At most ten goroutines hold the semaphore, and every delivery is at one place.
pub record Holds (p : Pool) (given : List Execution) : Type 0 where
  pub few : length p.active ≤ max_concurrent
  pub once : Perm (p.waiting ++ (p.active ++ p.ended)) given

-- An element may stand before a list or in the middle of the list's first part.
move_perm :
    (before later rest : List Execution) (e : Execution)
    → Perm ((before ++ later) ++ e ∷ rest) ((before ++ e ∷ later) ++ rest)
move_perm before later rest e =
    Perm.trans (perm_middle (before ++ later) rest)
      (Perm.append_right rest (Perm.symm (perm_middle before later)))

-- The steps that the goroutines of a pool have yet to make.
abbrev pub steps_left : Pool → ℕ
steps_left p = 2 * length p.waiting + length p.active

module _ (client : Execution → ℕ → Outcome) where
  Works-Holds :
      (p q : Pool) (given : List Execution) → Works client p q → Holds p given → Holds q given
  Works-Holds p q given (acquires before later e w room same) h =
      let all : Perm ((before ++ e ∷ later) ++ (p.active ++ p.ended)) given =
        subst (λ l. Perm (l ++ (p.active ++ p.ended)) given) w h.once in
      subst (λ r. Holds r given) (sym same)
        (record {
          few = omega (arith, room);
          once = Perm.trans (move_perm before later (p.active ++ p.ended) e) all;
        })
  Works-Holds p q given (finishes before later e a same) h =
      let all : Perm (p.waiting ++ ((before ++ e ∷ later) ++ p.ended)) given =
        subst (λ l. Perm (p.waiting ++ (l ++ p.ended)) given) a h.once in
      subst (λ r. Holds r given) (sym same)
        (record {
          few = omega (arith, h.few, ap length a, length-middle before later e);
          once = Perm.trans (Perm.append_left p.waiting (move_perm before later p.ended e)) all;
        })

  -- Whatever deliveries are asked for, and in whatever order the goroutines go on, at most ten of
  -- them hold the semaphore, and every delivery with a URL is waiting, under way or ended, exactly
  -- once.
  pub reached-Holds :
      (world : World) (p : Pool) (given : List Execution)
      → Reaches client world p given
      → Holds p given
  reached-Holds world p given at_start = record { few = omega arith; once = Perm.refl _ }
  reached-Holds world p given (delivers p' given' e r has) =
      let h = reached-Holds world p' given' r in record { few = h.few; once = Perm.cons e h.once }
  reached-Holds world p given (skips p' given' e r has) = reached-Holds world p' given' r
  reached-Holds world p given (works p' q given' r w) =
      Works-Holds p' q given' w (reached-Holds world p' given' r)

  Works-steps_left : (p q : Pool) → Works client p q → suc (steps_left q) ≡ steps_left p
  Works-steps_left p q (acquires before later e w room same) =
      rw (same, w) (omega (arith, length-middle before later e))
  Works-steps_left p q (finishes before later e a same) =
      rw (same, a) (omega (arith, length-middle before later e))

  -- A pool is idle, or one of its goroutines can go on.
  goes_on :
      (p : Pool) → length p.active ≤ max_concurrent → IsIdle p ⊎ ((q : Pool) × Works client p q)
  goes_on p few = elim (List-cases p.active) [
    | inr (e, later, a) ↦ inr (_, finishes [] later e a refl)
    | inl none_active ↦ elim (List-cases p.waiting) [
      | inl none_waiting ↦ inl (none_waiting, none_active)
      | inr (e, later, w) ↦
          inr (_, acquires [] later e w (omega (arith, ap length none_active)) refl)
    ]
  ]

  -- `n` steps of the goroutines, without a new delivery.
  pub data Runs : ℕ → Pool → Pool → Type 0 where
    here : (p : Pool) → Runs 0 p p
    then_works : (n : ℕ) (p q r : Pool) → Works client p q → Runs n q r → Runs (suc n) p r

  Runs-steps_left : (n : ℕ) (p q : Pool) → Runs n p q → n + steps_left q ≡ steps_left p
  Runs-steps_left n p q (here p') = omega arith
  Runs-steps_left n p q (then_works n' p' q' r w rest) =
      omega (arith, Works-steps_left p' q' w, Runs-steps_left n' q' r rest)

  Works-few :
      (p q : Pool)
      → Works client p q
      → length p.active ≤ max_concurrent
      → length q.active ≤ max_concurrent
  Works-few p q (acquires before later e w room same) few = rw same (omega (arith, room))
  Works-few p q (finishes before later e a same) few =
      rw same (omega (arith, few, ap length a, length-middle before later e))

  Runs-goes_on :
      (n : ℕ) (p q : Pool)
      → length p.active ≤ max_concurrent
      → Runs n p q
      → IsIdle q ⊎ ((r : Pool) × Works client q r)
  Runs-goes_on n p q few (here p') = goes_on p' few
  Runs-goes_on n p q few (then_works n' p' q' r w rest) =
      Runs-goes_on n' q' r (Works-few p' q' w few) rest

  no_steps-IsIdle : (p : Pool) → steps_left p ≡ 0 → IsIdle p
  no_steps-IsIdle p h = elim (List-cases p.waiting) [
    | inr (e, later, w) ↦ absurd (omega (arith, h, ap length w))
    | inl none_waiting ↦ elim (List-cases p.active) [
      | inr (e, later, a) ↦ absurd (omega (arith, h, ap length a))
      | inl none_active ↦ (none_waiting, none_active)
    ]
  ]

  -- Without new deliveries the dispatcher comes to rest: from any pool that can be reached, while a
  -- goroutine is left one of them can go on, no run of them has more than twice as many steps as
  -- there are waiting goroutines and one for each active one, and a run of that many steps ends
  -- where Shutdown can return nil. On the way, with an open context Shutdown returns nil and only at
  -- rest; with one that has ended it returns its error, or nil and that only at rest.
  pub shutdown_drains :
      (world : World) (p : Pool) (given : List Execution)
      → Reaches client world p given
      → ((n : ℕ) (q : Pool)
          → Runs n p q
          → (IsIdle q ⊎ ((r : Pool) × Works client q r))
            × (n ≤ steps_left p)
            × ((context_error r : Option String)
                → ShutdownReturns q context_error r
                → Answers q context_error r))
        × ((q : Pool)
            → Runs (steps_left p) p q
            → IsIdle q × ((context_error : Option String) → ShutdownReturns q context_error none))
  shutdown_drains world p given r =
      let few = (reached-Holds world p given r).few in
      (
        λ n q run. (
          Runs-goes_on n p q few run,
          omega (arith, Runs-steps_left n p q run),
          ShutdownReturns-Answers q,
        ),
        λ q run.
            let idle = no_steps-IsIdle q (omega (arith, Runs-steps_left (steps_left p) p q run)) in
            (idle, λ context_error. drained idle),
      )
