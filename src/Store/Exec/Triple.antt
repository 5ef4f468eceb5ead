-- ===== src/Store/Exec/Triple.antt =====
-- What a method of the store ensures, whichever of its statements the environment lets fail.
use jobplane.Base.{◌⊎◌, ◌≡◌, refl, arith, Bool, true, false, if◌then◌else◌, Bool-cases, inl, inr}
use jobplane.Store.Db.{Db}
use jobplane.Store.Exec.{
  Error, Result, ok, err, World, Exec, ◌>>=◌, continue, pure, raise, attempt_to, statement,
  next_fault, later_faults, Finish, commits, discards, transaction, settle,
}

-- `Q` holds of a value and the tables it leaves, `E` of the tables that an error leaves.
abbrev pub Post : {A : Type 0} → (A → Db → Type 0) → (Db → Type 0) → Result A → Db → Type 0
Post Q E (ok a) db = Q a db
Post Q E (err e) db = E db

pub record Triple {A : Type 0} (P : Db → Type 0) (m : Exec A) (Q : A → Db → Type 0)
    (E : Db → Type 0) : Type 0 where
  pub at : (w : World) → P w.db → Post Q E (m w).0 (m w).1.db

-- `I` holds after the call if it holds before, on success and on every error.
abbrev pub Keeps : {A : Type 0} → (Db → Type 0) → Exec A → Type 0
Keeps I m = Triple I m (λ _. I) I

module _ {A B : Type 0} {R : A → Db → Type 0} {Q : B → Db → Type 0} {E : Db → Type 0} where
  continue-Post :
      (r : Result A) (f : A → Exec B) (w : World)
      → ((a : A) → Triple (R a) (f a) Q E)
      → Post R E r w.db
      → Post Q E (continue r f w).0 (continue r f w).1.db
  continue-Post (ok a) f w k h = (k a).at w h
  continue-Post (err e) f w k h = h

  pub Triple-bind :
      {P : Db → Type 0} (m : Exec A) (f : A → Exec B)
      → Triple P m R E
      → ((a : A) → Triple (R a) (f a) Q E)
      → Triple P (m >>= f) Q E
  Triple-bind m f t k = record { at = λ w h. continue-Post (m w).0 f (m w).1 k (t.at w h) }

module _ {A : Type 0} {P : Db → Type 0} {Q : A → Db → Type 0} {E : Db → Type 0} where
  pub Triple-statement :
      (f : Db → Result A × Db)
      → ((db : Db) → P db → Post Q E (f db).0 (f db).1)
      → ((db : Db) → P db → E db)
      → Triple P (statement f) Q E
  Triple-statement f body lost = record {
    at = λ w h. elim (Bool-cases (next_fault w.faults)) [
      | inl fault ↦ rw fault (lost w.db h)
      | inr quiet ↦ rw quiet (body w.db h)
    ];
  }

  pub Triple-pure : (a : A) → ((db : Db) → P db → Q a db) → Triple P (pure a) Q E
  Triple-pure a h = record { at = λ w. h w.db }

  pub Triple-raise : (e : Error) → ((db : Db) → P db → E db) → Triple P (raise {A = A} e) Q E
  Triple-raise e h = record { at = λ w. h w.db }

-- What holds of the tables at the end of the body counts only if the body goes on to commit.
abbrev pub Committed : {A : Type 0} → (Db → Type 0) → Finish A → Db → Type 0
Committed I (commits a) db = I db
Committed I (discards a) db = Unit

module _ {A : Type 0} (I : Db → Type 0) where
  settle-Post :
      (before : Db) (r : Result (Finish A)) (w : World)
      → I before
      → Post (Committed I) (λ _. Unit {0}) r w.db
      → Post (λ _. I) I (settle before r w).0 (settle before r w).1.db
  settle-Post before (ok (commits a)) w i h = elim (Bool-cases (next_fault w.faults)) [
    | inl fault ↦ rw fault i
    | inr quiet ↦ rw quiet h
  ]
  settle-Post before (ok (discards a)) w i h = i
  settle-Post before (err e) w i h = i

  -- Inside a transaction only what is committed has to keep the invariant.
  pub Keeps-transaction :
      (m : Exec (Finish A)) → Triple I m (Committed I) (λ _. Unit {0}) → Keeps I (transaction m)
  Keeps-transaction m t = record {
    at = λ w i. elim (Bool-cases (next_fault w.faults)) [
      | inl fault ↦ rw fault i
      | inr quiet ↦
          let w' : World = record w { faults = later_faults w.faults } in
          rw quiet (settle-Post w.db (m w').0 (m w').1 i (t.at w' i))
    ];
  }

pub result_post :
    {A : Type 0} (I : Db → Type 0) (r : Result A) (db : Db) → Post (λ _. I) I r db → I db
result_post I (ok a) db h = h
result_post I (err e) db h = h

module _ {A : Type 0} {I : Db → Type 0} where
  pub Keeps-attempt_to : (m : Exec A) → Keeps I m → Keeps I (attempt_to m)
  Keeps-attempt_to m k = record { at = λ w h. result_post I (m w).0 (m w).1.db (k.at w h) }

  pub Keeps-if : (b : Bool) (m n : Exec A) → Keeps I m → Keeps I n → Keeps I (if b then m else n)
  Keeps-if true m n km kn = km
  Keeps-if false m n km kn = kn

  -- `statement` with the same invariant before, after and on errors.
  pub Keeps-statement :
      (f : Db → Result A × Db) → ((db : Db) → I db → I (f db).1) → Keeps I (statement f)
  Keeps-statement f body =
      Triple-statement f (λ db h. post (f db).0 (f db).1 (body db h)) (λ db h. h)
    where
      post : (r : Result A) (db : Db) → I db → Post (λ _. I) I r db
      post (ok a) db h = h
      post (err e) db h = h

-- The tables are fit on either outcome.
pub as-Post : {A : Type 0} (I : Db → Type 0) (r : Result A) (db : Db) → I db → Post (λ _. I) I r db
as-Post I (ok a) db h = h
as-Post I (err e) db h = h

module _ {A : Type 0} where
  pub forget-Post :
      (Q : A → Db → Type 0) (E E' : Db → Type 0) (r : Result A) (db : Db)
      → ((d : Db) → E d → E' d)
      → Post Q E r db
      → Post Q E' r db
  forget-Post Q E E' (ok a) db f h = h
  forget-Post Q E E' (err e) db f h = f db h

  pub Triple-weaken :
      {P E : Db → Type 0} {Q : A → Db → Type 0} {m : Exec A}
      → Triple P m Q E
      → Triple P m Q (λ _. Unit {0})
  Triple-weaken {E} {Q} {m} t = record {
    at = λ w h. forget-Post Q E (λ _. Unit {0}) (m w).0 (m w).1.db (λ d _. tt) (t.at w h);
  }

settle-err :
    {A : Type 0} (before : Db) (r : Result (Finish A)) (w : World) {e : Error}
    → (settle before r w).0 ≡ err e
    → (settle before r w).1.db ≡ before
settle-err before (ok (commits a)) w h = ground arith
settle-err before (ok (discards a)) w h = refl
settle-err before (err e) w h = refl

-- A transaction that fails leaves the tables as it found them.
pub transaction-err :
    {A : Type 0} (m : Exec (Finish A)) (w : World) {e : Error}
    → (transaction m w).0 ≡ err e
    → (transaction m w).1.db ≡ w.db
transaction-err m w {e} h = elim (Bool-cases (next_fault w.faults)) [
  | inl fault ↦ rw fault
  | inr quiet ↦
      let w' : World = record w { faults = later_faults w.faults } in
      rw quiet (settle-err w.db (m w').0 (m w').1 {e = e} (rw quiet at h))
]

module _ {A : Type 0} where
  and_Post :
      (Q Q' : A → Db → Type 0) (E E' : Db → Type 0) (r : Result A) (db : Db)
      → Post Q E r db
      → Post Q' E' r db
      → Post (λ a d. Q a d × Q' a d) (λ d. E d × E' d) r db
  and_Post Q Q' E E' (ok a) db h k = (h, k)
  and_Post Q Q' E E' (err e) db h k = (h, k)

  pub Triple-and :
      {P P' E E' : Db → Type 0} {Q Q' : A → Db → Type 0} {m : Exec A}
      → Triple P m Q E
      → Triple P' m Q' E'
      → Triple (λ d. P d × P' d) m (λ a d. Q a d × Q' a d) (λ d. E d × E' d)
  Triple-and {E} {E'} {Q} {Q'} {m} t t' = record {
    at = λ w h. and_Post Q Q' E E' (m w).0 (m w).1.db (t.at w h.0) (t'.at w h.1);
  }

-- A call either succeeds or fails.
pub Result-cases :
    {A : Type 0} (r : Result A) → ((a : A) × (r ≡ ok a)) ⊎ ((e : Error) × (r ≡ err e))
Result-cases (ok a) = inl (a, refl)
Result-cases (err e) = inr (e, refl)
