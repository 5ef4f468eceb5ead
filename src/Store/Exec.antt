-- ===== src/Store/Exec.antt =====
-- How a method of the store talks to the database. A statement may be refused by the database (a
-- missing row, a key) or fail for a reason of the environment: a lost connection, a cancelled
-- context, a full disk. The environment is the list `faults`, one entry for each statement to come.
pub mod Triple
use jobplane.Base.{Bool, false, List, [], ◌∷◌, if◌then◌else◌}
use jobplane.Store.Db.{Db}

pub data Error : Type 0 where
  no_rows : Error
  unique_violation : Error
  foreign_key_violation : Error
  not_null_violation : Error
  invalid_row_count : Error
  -- database/sql has no conversion from NULL to json.RawMessage
  unsupported_scan : Error
  unavailable : Error

pub data Result (A : Type 0) : Type 0 where
  ok : A → Result A
  err : Error → Result A

pub record World : Type 0 where
  pub db : Db
  pub faults : List Bool

abbrev pub next_fault : List Bool → Bool
next_fault [] = false
next_fault (b ∷ bs) = b

abbrev pub later_faults : List Bool → List Bool
later_faults [] = []
later_faults (b ∷ bs) = bs

abbrev pub Exec : Type 0 → Type 0
Exec A = World → Result A × World

abbrev pub continue : {A B : Type 0} → Result A → (A → Exec B) → Exec B
continue (ok a) f w = f a w
continue (err e) f w = (err e, w)

infixl 10 ◌>>=◌ ◌>>◌
abbrev pub ◌>>=◌ : {A B : Type 0} → Exec A → (A → Exec B) → Exec B
◌>>=◌ m f w = let (r, w') = m w in continue r f w'

abbrev pub ◌>>◌ : {A B : Type 0} → Exec A → Exec B → Exec B
m >> k = m >>= λ _. k

abbrev pub pure : {A : Type 0} → A → Exec A
pure a w = (ok a, w)

abbrev pub raise : {A : Type 0} → Error → Exec A
raise e w = (err e, w)

-- The outcome of a statement as a value, for code that looks at the error.
abbrev pub attempt_to : {A : Type 0} → Exec A → Exec (Result A)
attempt_to m w = let (r, w') = m w in (ok r, w')

-- One round trip to the database. What the database refuses it leaves as it was.
abbrev pub statement : {A : Type 0} → (Db → Result A × Db) → Exec A
statement f w =
    if next_fault w.faults
    then (err unavailable, record w { faults = later_faults w.faults })
    else let (r, db') = f w.db in (r, record { db = db'; faults = later_faults w.faults })

-- How the body of a transaction ends: `return nil` after `Commit`, or before it.
pub data Finish (A : Type 0) : Type 0 where
  commits : A → Finish A
  discards : A → Finish A

abbrev pub settle : {A : Type 0} → Db → Result (Finish A) → Exec A
settle before (ok (commits a)) w =
    if next_fault w.faults
    then (err unavailable, record { db = before; faults = later_faults w.faults })
    else (ok a, record w { faults = later_faults w.faults })
settle before (ok (discards a)) w = (ok a, record w { db = before })
settle before (err e) w = (err e, record w { db = before })

-- BeginTx, the body, and Commit, with the deferred Rollback on every other way out.
abbrev pub transaction : {A : Type 0} → Exec (Finish A) → Exec A
transaction m w =
    if next_fault w.faults
    then (err unavailable, record w { faults = later_faults w.faults })
    else let (r, w') = m (record w { faults = later_faults w.faults }) in settle w.db r w'
