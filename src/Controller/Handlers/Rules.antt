-- ===== src/Controller/Handlers/Rules.antt =====
-- What a handler ensures of the tables, whether it goes on or has answered
-- (internal/controller/handlers), and whichever statements fail.
pub mod Known
use jobplane.Base.{
  subst, ℕ, ◌≤◌, ◌<◌, refl, arith, ◌≡◌, Bool, true, false, Option, none, some, String,
  if◌then◌else◌, Bool-cases, inl, inr,
}
use jobplane.Store.Db.{Db}
use jobplane.Store.Exec.{Result, ok, err, Exec, next_fault, later_faults}
use jobplane.Store.Exec.Triple.{Triple, Keeps, Post}
use jobplane.Controller.Handlers.{
  Notice, Server, Reply, done, going, Handler, ◌>>=◌, proceed, keep, require, unless, notify,
  reply_of, store, settle, in_transaction, answer, serve,
}
use jobplane.Api.{Response}

-- `Q` holds of a value and the tables it leaves, `E` of the tables under an early response.
abbrev pub Answers : {A : Type 0} → (A → Db → Type 0) → (Db → Type 0) → Reply A → Db → Type 0
Answers Q E (going a) db = Q a db
Answers Q E (done r) db = E db

pub record Ensures {A : Type 0} (P : Db → Type 0) (h : Handler A) (Q : A → Db → Type 0)
    (E : Db → Type 0) : Type 0 where
  pub at : (s : Server) → P s.db → Answers Q E (h s).0 (h s).1.db

module _ {A B : Type 0} {R : A → Db → Type 0} {Q : B → Db → Type 0} {E : Db → Type 0} where
  proceed-Answers :
      (r : Reply A) (f : A → Handler B) (s : Server)
      → ((a : A) → Ensures (R a) (f a) Q E)
      → Answers R E r s.db
      → Answers Q E (proceed r f s).0 (proceed r f s).1.db
  proceed-Answers (going a) f s k h = (k a).at s h
  proceed-Answers (done r) f s k h = h

  pub Ensures-bind :
      {P : Db → Type 0} (m : Handler A) (f : A → Handler B)
      → Ensures P m R E
      → ((a : A) → Ensures (R a) (f a) Q E)
      → Ensures P (m >>= f) Q E
  Ensures-bind m f t k = record { at = λ s h. proceed-Answers (m s).0 f (m s).1 k (t.at s h) }

module _ {A : Type 0} {P E : Db → Type 0} {Q : A → Db → Type 0} where
  pub Ensures-keep : (a : A) → ((db : Db) → P db → Q a db) → Ensures P (keep a) Q E
  Ensures-keep a h = record { at = λ s. h s.db }

  pub Ensures-require :
      (o : Option A) (message : String) (code : ℕ)
      → ((a : A) (db : Db) → P db → Q a db)
      → ((db : Db) → P db → E db)
      → Ensures P (require o message code) Q E
  Ensures-require none message code f g = record { at = λ s. g s.db }
  Ensures-require (some a) message code f g = record { at = λ s. f a s.db }

store-Answers :
    {A : Type 0} (Q : A → Db → Type 0) (E : Db → Type 0) (r : Result A) (message : String)
    (code : ℕ) (s : Server)
    → Post Q E r s.db
    → Answers Q E (reply_of r message code s).0 (reply_of r message code s).1.db
store-Answers Q E (ok a) message code s h = h
store-Answers Q E (err e) message code s h = h

module _ {A : Type 0} {P E : Db → Type 0} {Q : A → Db → Type 0} where
  pub Ensures-store :
      (m : Exec A) (message : String) (code : ℕ)
      → Triple P m Q E
      → Ensures P (store m message code) Q E
  Ensures-store m message code t = record {
    at = λ s h.
        store-Answers Q E (m s.world).0 message code (record s { world = (m s.world).1 })
          (t.at s.world h);
  }

-- One rule for each way to build a handler that keeps the invariant `I`, answered or not.
abbrev pub Holds : {A : Type 0} → (Db → Type 0) → Handler A → Type 0
Holds I h = Ensures I h (λ _. I) I

module _ {I : Db → Type 0} where
  pub Holds-unless : (bad : Bool) (message : String) (code : ℕ) → Holds I (unless bad message code)
  Holds-unless true message code = record { at = λ s h. h }
  Holds-unless false message code = record { at = λ s h. h }

  pub Holds-notify : (on : Bool) (n : Notice) → Holds I (notify on n)
  Holds-notify true n = record { at = λ s h. h }
  Holds-notify false n = record { at = λ s h. h }

settle-Answers :
    {A : Type 0} (I : Db → Type 0) (before : Db) (r : Reply A) (s : Server)
    → I before
    → Answers (λ _. I) (λ _. Unit {0}) r s.db
    → Answers (λ _. I) I (settle before r s).0 (settle before r s).1.db
settle-Answers I before (done r) s i h = i
settle-Answers I before (going a) s i h = elim (Bool-cases (next_fault s.faults)) [
  | inl fault ↦ rw fault i
  | inr quiet ↦ rw quiet h
]

module _ {A : Type 0} {I : Db → Type 0} where
  pub Holds-if : (b : Bool) (m n : Handler A) → Holds I m → Holds I n → Holds I (if b then m else n)
  Holds-if true m n km kn = km
  Holds-if false m n km kn = kn

  -- Inside a transaction only what is committed has to keep the invariant.
  pub Holds-in_transaction :
      (m : Handler A) → Ensures I m (λ _. I) (λ _. Unit {0}) → Holds I (in_transaction m)
  Holds-in_transaction m t = record {
    at = λ s i. elim (Bool-cases (next_fault s.faults)) [
      | inl fault ↦ rw fault i
      | inr quiet ↦
          let s' : Server = record s {
            world = record { db = s.db; faults = later_faults s.faults };
          } in
          rw quiet (settle-Answers I s.db (m s').0 (m s').1 i (t.at s' i))
    ];
  }

  pub Holds-require :
      (o : Option A) (message : String) (code : ℕ) → Holds I (require o message code)
  Holds-require none message code = record { at = λ s h. h }
  Holds-require (some a) message code = record { at = λ s h. h }

  pub Holds-store :
      (m : Exec A) (message : String) (code : ℕ) → Keeps I m → Holds I (store m message code)
  Holds-store m message code k = Ensures-store m message code k

  pub Holds-keep : (a : A) → Holds I (keep a)
  Holds-keep a = record { at = λ s h. h }

module _ {A B : Type 0} {I : Db → Type 0} where
  pub Holds-bind :
      (m : Handler A) (f : A → Handler B)
      → Holds I m
      → ((a : A) → Holds I (f a))
      → Holds I (m >>= f)
  Holds-bind m f h k = Ensures-bind {R = λ _. I} m f h k

-- The tables after a whole handler.
answer_holds :
    {A : Type 0} (I : Db → Type 0) (r : Reply A) (db : Db) → Answers (λ _. I) I r db → I db
answer_holds I (going a) db h = h
answer_holds I (done r) db h = h

pub serve_holds :
    {I : Db → Type 0} (h : Handler Response) (s : Server) → Holds I h → I s.db → I (serve h s).1.db
serve_holds {I} h s k i = answer_holds I (h s).0 (h s).1.db (k.at s i)

pub ruleset holds_rules =
    (Holds-require, Holds-store, Holds-keep, Holds-bind, Holds-unless, Holds-notify, Holds-if)

forget-Answers :
    {A : Type 0} (Q : A → Db → Type 0) (E : Db → Type 0) (r : Reply A) (db : Db)
    → Answers Q E r db
    → Answers Q (λ _. Unit {0}) r db
forget-Answers Q E (going a) db h = h
forget-Answers Q E (done r) db h = tt

module _ {A : Type 0} {P E : Db → Type 0} {Q : A → Db → Type 0} where
  -- Inside a transaction an early response owes nothing: what it wrote is rolled back.
  pub Ensures-weaken : {m : Handler A} → Ensures P m Q E → Ensures P m Q (λ _. Unit {0})
  Ensures-weaken {m} t = record { at = λ s h. forget-Answers Q E (m s).0 (m s).1.db (t.at s h) }

module _ {A : Type 0} {I : Db → Type 0} where
  pub Holds-store-in_transaction :
      (m : Exec A) (message : String) (code : ℕ)
      → Keeps I m
      → Holds I (in_transaction (store m message code))
  Holds-store-in_transaction m message code k =
      Holds-in_transaction _ (Ensures-weaken (Holds-store m message code k))
