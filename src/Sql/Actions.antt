-- ===== src/Sql/Actions.antt =====
-- Actions of a handler on the database, and what each call of pgx does to it.
use thclaws_thai_ai_agent.Base.{
  ℕ, ◌+◌, String, Bool, true, false, Option, none, some, List, [], ◌∷◌, if◌then◌else◌,
}

-- What a call of pgx returns: `pgx.ErrNoRows`, SQLSTATE 23505 and 23514, 25P02, or any other.
pub data SqlError : Type 0 where
  no_rows unique_violation check_violation in_failed_tx unavailable : SqlError

-- `errors.New(m)` and `fmt.Errorf("m: %w", e)`
pub data Error : Type 0 where
  plain : String → Error
  wrapped : String → SqlError → Error

pub data Result (E A : Type 0) : Type 0 where
  ok : A → Result E A
  err : E → Result E A

-- What the server supplies to one statement.
pub record Stamp : Type 0 where
  pub id : String
  pub now : ℕ

-- One SQL statement: its rows and the tables after it, or an error and no change.
abbrev pub Query : Type 0 → Type 0 → Type 0
Query S A = Stamp → S → Result SqlError (A × S)

pub record World (S : Type 0) : Type 0 where
  pub db : S
  pub work : S
  pub aborted : Bool
  pub faults : List (Option SqlError)
  pub uuid : ℕ → String
  pub drawn : ℕ
  pub clock : ℕ

abbrev pub M : Type 0 → Type 0 → Type 0 → Type 0
M S E A = World S → Result E A × World S

-- The fault that the next call meets.
abbrev head_fault : List (Option SqlError) → Option SqlError
head_fault [] = none
head_fault (f ∷ fs) = f

abbrev rest_faults : List (Option SqlError) → List (Option SqlError)
rest_faults [] = []
rest_faults (f ∷ fs) = fs

abbrev label : {A : Type 0} → String → Result SqlError A → Result Error A
label m (ok a) = ok a
label m (err e) = err (wrapped m e)

module _ {S E A : Type 0} where
  unfoldable pub pure : A → M S E A
  pure a w = (ok a, w)

  unfoldable pub raise : E → M S E A
  raise e w = (err e, w)

module _ {S E A B : Type 0} where
  abbrev pub continue : Result E A → (A → M S E B) → M S E B
  continue (ok a) f w = f a w
  continue (err e) f w = (err e, w)

  infixl 10 ◌>>=◌ ◌>>◌
  unfoldable pub ◌>>=◌ : M S E A → (A → M S E B) → M S E B
  unfolding pure raise
  ◌>>=◌ m f w = let (r, w') = m w in continue r f w'

  abbrev pub ◌>>◌ : M S E A → M S E B → M S E B
  m >> n = m >>= λ _. n

module _ {S : Type 0} where
  -- `if c { return …, fmt.Errorf(m) }`
  unfoldable pub guard : Bool → String → M S Error (Unit {0})
  guard c m w = (if c then err (plain m) else ok tt, w)

  -- `time.Now().UTC()`
  unfoldable pub time_now : M S Error ℕ
  time_now w = (ok w.clock, w)

  -- The outcome of a statement on the open transaction.
  abbrev settle_tx : {A : Type 0} → Result SqlError (A × S) → World S → Result SqlError A × World S
  settle_tx (ok (a, s)) w = (ok a, record w { work = s })
  settle_tx (err no_rows) w = (err no_rows, w)
  settle_tx (err e) w = (err e, record w { aborted = true })

  abbrev run_tx : {A : Type 0} → Option SqlError → Query S A → World S → Result SqlError A × World S
  run_tx (some e) q w = (err e, record w { aborted = true })
  run_tx none q w =
      settle_tx (q (record { id = w.uuid w.drawn; now = w.clock }) w.work)
        (record w { drawn = w.drawn + 1 })

  -- `tx.QueryRow`, `tx.Exec`. After an error the server refuses every statement of the transaction.
  unfoldable pub on_tx : {A : Type 0} → Query S A → M S SqlError A
  on_tx q w =
      if w.aborted
      then (err in_failed_tx, w)
      else run_tx (head_fault w.faults) q (record w { faults = rest_faults w.faults })

  abbrev settle_pool :
      {A : Type 0} → Result SqlError (A × S) → World S → Result SqlError A × World S
  settle_pool (ok (a, s)) w = (ok a, record w { db = s })
  settle_pool (err e) w = (err e, w)

  abbrev run_pool :
      {A : Type 0} → Option SqlError → Query S A → World S → Result SqlError A × World S
  run_pool (some e) q w = (err e, w)
  run_pool none q w =
      settle_pool (q (record { id = w.uuid w.drawn; now = w.clock }) w.db)
        (record w { drawn = w.drawn + 1 })

  -- `pool.QueryRow`, `pool.Exec`: a transaction of its own.
  unfoldable pub on_pool : {A : Type 0} → Query S A → M S SqlError A
  on_pool q w = run_pool (head_fault w.faults) q (record w { faults = rest_faults w.faults })

  abbrev start : Option SqlError → World S → Result SqlError (Unit {0}) × World S
  start (some e) w = (err e, w)
  start none w = (ok tt, record w { work = w.db; aborted = false })

  -- `pool.Begin`
  unfoldable pub begin : M S SqlError (Unit {0})
  begin w = start (head_fault w.faults) (record w { faults = rest_faults w.faults })

  -- `tx.Rollback`
  unfoldable pub rollback : M S Error (Unit {0})
  rollback w = (ok tt, record w { work = w.db; aborted = true })

  abbrev finish : Option SqlError → World S → Result SqlError (Unit {0}) × World S
  finish (some e) w = (err e, record w { aborted = true })
  finish none w = (ok tt, record w { db = w.work })

  -- `tx.Commit`: a transaction that met an error is rolled back instead. One that fails has changed
  -- nothing; a COMMIT that the server did and whose answer was lost is not modelled.
  unfoldable pub commit : M S SqlError (Unit {0})
  commit w =
      if w.aborted
      then (err in_failed_tx, w)
      else finish (head_fault w.faults) (record w { faults = rest_faults w.faults })

  -- `if err != nil { return …, fmt.Errorf("m: %w", err) }`
  unfoldable pub wrap : {A : Type 0} → String → M S SqlError A → M S Error A
  wrap m a w = let (r, w') = a w in (label m r, w')

  -- The caller looks at the error itself.
  unfoldable pub recover : {A : Type 0} → M S SqlError A → M S Error (Result SqlError A)
  recover a w = let (r, w') = a w in (ok r, w')

  -- A statement that only reads.
  abbrev pub reading : {A : Type 0} → (S → Result SqlError A) → Query S A
  reading f st s = elim (f s) [ ok a ↦ ok (a, s) | err e ↦ err e ]

  -- A statement without a result that cannot fail by itself.
  abbrev pub writing : (Stamp → S → S) → Query S (Unit {0})
  writing f st s = ok (tt, f st s)
