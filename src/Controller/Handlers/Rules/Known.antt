-- ===== src/Controller/Handlers/Rules/Known.antt =====
-- What a handler ensures beyond an invariant: what its guards have shown, what a transaction commits
-- and what an answer of 400 or more leaves (internal/controller/handlers).
use jobplane.Base.{
  subst, ℕ, ◌≤◌, ◌<◌, refl, arith, ◌≡◌, Bool, true, false, Option, none, some, String,
  if◌then◌else◌, Bool-cases, inl, inr,
}
use jobplane.Store.Db.{Db}
use jobplane.Store.Exec.{next_fault, later_faults}
use jobplane.Controller.Handlers.{
  Server, Reply, done, going, Handler, require, unless, settle, in_transaction, answer, serve,
}
use jobplane.Api.{Response}
use jobplane.Controller.Handlers.Rules.{Answers, Ensures}

module _ {P : Db → Type 0} where
  -- After a guard its condition is known.
  pub Ensures-unless :
      (bad : Bool) (message : String) (code : ℕ)
      → Ensures P (unless bad message code) (λ _ db. P db × (bad ≡ false)) P
  Ensures-unless true message code = record { at = λ s h. h }
  Ensures-unless false message code = record { at = λ s h. (h, refl) }

settle_ensures :
    {A : Type 0} (P : Db → Type 0) (Q : A → Db → Type 0) (before : Db) (r : Reply A) (s : Server)
    → P before
    → Answers Q (λ _. Unit {0}) r s.db
    → Answers Q P (settle before r s).0 (settle before r s).1.db
settle_ensures P Q before (done r) s i h = i
settle_ensures P Q before (going a) s i h = elim (Bool-cases (next_fault s.faults)) [
  | inl fault ↦ rw fault i
  | inr quiet ↦ rw quiet h
]

module _ {A : Type 0} {P : Db → Type 0} {Q : A → Db → Type 0} where
  -- A transaction either commits what its body ensures, or leaves the tables as they were.
  pub Ensures-in_transaction :
      (m : Handler A) → Ensures P m Q (λ _. Unit {0}) → Ensures P (in_transaction m) Q P
  Ensures-in_transaction m t = record {
    at = λ s i. elim (Bool-cases (next_fault s.faults)) [
      | inl fault ↦ rw fault i
      | inr quiet ↦
          let s' : Server = record s {
            world = record { db = s.db; faults = later_faults s.faults };
          } in
          rw quiet (settle_ensures P Q s.db (m s').0 (m s').1 i (t.at s' i))
    ];
  }

trivial-Answers :
    {A : Type 0} (r : Reply A) (db : Db) → Answers (λ _ _. Unit {0}) (λ _. Unit {0}) r db
trivial-Answers (going a) db = tt
trivial-Answers (done r) db = tt

pub Ensures-nothing :
    {A : Type 0} {P : Db → Type 0} (m : Handler A) → Ensures P m (λ _ _. Unit {0}) (λ _. Unit {0})
Ensures-nothing m = record { at = λ s h. trivial-Answers (m s).0 (m s).1.db }

-- The tables under an answer of at least 400, where every handler that goes on answers less.
abbrev pub Fails : (Db → Type 0) → Response → Db → Type 0
Fails E r db = 400 ≤ r.status → E db

Fails-Answers :
    (E : Db → Type 0) (r : Reply Response) (db : Db)
    → Answers (λ r _. r.status < 400) E r db
    → Fails E (answer r) db
Fails-Answers E (going r) db h k = absurd (omega arith)
Fails-Answers E (done r) db h k = h

pub serve-Fails :
    {P E : Db → Type 0} (h : Handler Response) (s : Server)
    → Ensures P h (λ r _. r.status < 400) E
    → P s.db
    → Fails E (serve h s).0 (serve h s).1.db
serve-Fails {E} h s t i = Fails-Answers E (h s).0 (h s).1.db (t.at s i)

weaken-Answers :
    {A : Type 0} (Q Q' : A → Db → Type 0) (E E' : Db → Type 0) (r : Reply A) (db : Db)
    → ((a : A) (d : Db) → Q a d → Q' a d)
    → ((d : Db) → E d → E' d)
    → Answers Q E r db
    → Answers Q' E' r db
weaken-Answers Q Q' E E' (going a) db f g h = f a db h
weaken-Answers Q Q' E E' (done r) db f g h = g db h

module _ {A : Type 0} {P P' E E' : Db → Type 0} {Q Q' : A → Db → Type 0} where
  pub Ensures-mono :
      {m : Handler A}
      → ((d : Db) → P' d → P d)
      → ((a : A) (d : Db) → Q a d → Q' a d)
      → ((d : Db) → E d → E' d)
      → Ensures P m Q E
      → Ensures P' m Q' E'
  Ensures-mono {m} p q e t = record {
    at = λ s h. weaken-Answers Q Q' E E' (m s).0 (m s).1.db q e (t.at s (p s.db h));
  }

module _ {A : Type 0} {P E : Db → Type 0} {Q : A → Db → Type 0} where
  pub Ensures-if :
      (b : Bool) (m n : Handler A)
      → (b ≡ true → Ensures P m Q E)
      → (b ≡ false → Ensures P n Q E)
      → Ensures P (if b then m else n) Q E
  Ensures-if true m n f g = f refl
  Ensures-if false m n f g = g refl

with_fact-Answers :
    {A : Type 0} (F : Type 0) (Q : A → Db → Type 0) (r : Reply A) (db : Db)
    → F
    → Answers Q (λ _. Unit {0}) r db
    → Answers (λ a d. Q a d × F) (λ _. Unit {0}) r db
with_fact-Answers F Q (going a) db f h = (h, f)
with_fact-Answers F Q (done r) db f h = tt

module _ {A : Type 0} {P : Db → Type 0} {Q : A → Db → Type 0} where
  -- What does not depend on the tables is still known at the end.
  pub with_fact :
      (F : Type 0) {m : Handler A}
      → Ensures P m Q (λ _. Unit {0})
      → Ensures (λ d. P d × F) m (λ a d. Q a d × F) (λ _. Unit {0})
  with_fact F {m} t = record {
    at = λ s h. with_fact-Answers F Q (m s).0 (m s).1.db h.1 (t.at s h.0);
  }

module _ {A : Type 0} {P : Db → Type 0} where
  pub require_known :
      (o : Option A) (message : String) (code : ℕ)
      → Ensures P (require o message code) (λ a d. P d × (o ≡ some a)) (λ _. Unit {0})
  require_known none message code = record { at = λ s h. tt }
  require_known (some a) message code = record { at = λ s h. (h, refl) }

module _ {A : Type 0} {P E : Db → Type 0} {Q : A → Db → Type 0} where
  -- A fact beside the precondition that does not depend on the tables.
  pub with_fact' :
      (F : Type 0) {m : Handler A} → (F → Ensures P m Q E) → Ensures (λ d. P d × F) m Q E
  with_fact' F t = record { at = λ s h. (t h.1).at s h.0 }

going_answers :
    {A : Type 0} (Q : A → Db → Type 0) (E : Db → Type 0) (r : Reply A) (db : Db) {a : A}
    → r ≡ going a
    → Answers Q E r db
    → Q a db
going_answers Q E (going b) db {a} h q =
    let same : b ≡ a = ground arith in subst (λ x. Q x db) same q
going_answers Q E (done r) db h q = absurd (ground arith)

-- What a handler that has come to its end ensures.
pub Ensures-going :
    {A : Type 0} {P E : Db → Type 0} {Q : A → Db → Type 0} (m : Handler A) (s : Server) {a : A}
    → Ensures P m Q E
    → P s.db
    → (m s).0 ≡ going a
    → Q a (m s).1.db
Ensures-going {E} {Q} m s t p h = going_answers Q E (m s).0 (m s).1.db h (t.at s p)
