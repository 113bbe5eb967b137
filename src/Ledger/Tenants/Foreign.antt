-- ===== src/Ledger/Tenants/Foreign.antt =====
-- The statements that leave the rows of a user alone.
use thclaws_thai_ai_agent.Base.{
  String, exists, find_first, Bool, true, false, ◌≡◌, refl, Option, none, some, List, [], ◌∷◌, ◌++◌,
  str_eq, if◌then◌else◌, keep, Bool-cases, inl, inr,
}
use thclaws_thai_ai_agent.Base.Int.{pos, ltb_ℤ}
use thclaws_thai_ai_agent.Sql.{
  SqlError, no_rows, unique_violation, check_violation, Result, ok, err, Stamp, Query,
}
use thclaws_thai_ai_agent.Ledger.Tables.{
  WriteTxInput, TxRow, JournalLine, Allocation, LedgerEvent, HouseholdTx, ChartAccount, Fields, Db,
}
use thclaws_thai_ai_agent.Ledger.Accounts.{AccountSpec}
use thclaws_thai_ai_agent.Ledger.Journal.{is_account, upsert_account, insert_line, insert_entry}
use thclaws_thai_ai_agent.Ledger.Allocations.{same_slot, insert_allocation}
use thclaws_thai_ai_agent.Ledger.Events.{server_event, insert_event, insert_server_event}
use thclaws_thai_ai_agent.Ledger.Projects.{ProjectInput, insert_project}
use thclaws_thai_ai_agent.Ledger.Household.{insert_household_tx}
use thclaws_thai_ai_agent.Ledger.Writer.{insert_transaction}
use thclaws_thai_ai_agent.Ledger.Tenants.{rows_of}

keep_last :
    {A : Type 0} (p : A → Bool) (x : A) (xs : List A)
    → p x ≡ false
    → keep p (xs ++ x ∷ []) ≡ keep p xs
keep_last p x [] n = rw n refl
keep_last p x (y ∷ ys) n = elim (Bool-cases (p y)) [
  | inl h ↦ rw (h, keep_last p x ys n) refl
  | inr h ↦ rw (h, keep_last p x ys n) refl
]

-- `q` leaves the rows of `v` alone.
pub record Foreign (v : String) {A : Type 0} (q : Query Db A) : Type 0 where
  pub same :
      (st : Stamp) (s : Db) (a : A) (s' : Db) → q st s ≡ ok (a, s') → rows_of v s' ≡ rows_of v s

-- A statement that writes `r`, or refuses.
written :
    {A : Type 0} (v : String) (s : Db) (b : Bool) (x : SqlError) (r : A × Db) (o : A × Db)
    → rows_of v r.1 ≡ rows_of v s
    → (if b then err x else ok r) ≡ ok o
    → rows_of v o.1 ≡ rows_of v s
written v s true x r o h e = cc
written v s false x r o h e = let i : r ≡ o = cc in rw (← i) h

twice_guarded :
    {A : Type 0} (v : String) (s : Db) (b c : Bool) (x y : SqlError) (r : A × Db) (o : A × Db)
    → rows_of v r.1 ≡ rows_of v s
    → (if b then err x else if c then err y else ok r) ≡ ok o
    → rows_of v o.1 ≡ rows_of v s
twice_guarded v s true c x y r o h e = cc
twice_guarded v s false c x y r o h e = written v s c y r o h e

refused_or :
    {A : Type 0} (v : String) (s : Db) (b : Bool) (x : SqlError) (r o : A × Db)
    → rows_of v r.1 ≡ rows_of v s
    → (if b then ok r else err x) ≡ ok o
    → rows_of v o.1 ≡ rows_of v s
refused_or v s true x r o h e = written v s false x r o h e
refused_or v s false x r o h e = cc

upserted :
    {A B : Type 0} (v : String) (s : Db) (found : Option B) (f : B → A × Db) (r o : A × Db)
    → ((b : B) → rows_of v (f b).1 ≡ rows_of v s)
    → rows_of v r.1 ≡ rows_of v s
    → elim found as (λ _. Result SqlError (A × Db)) [ some b ↦ ok (f b) | none ↦ ok r ] ≡ ok o
    → rows_of v o.1 ≡ rows_of v s
upserted v s (some b) f r o hf h e = written v s false no_rows (f b) o (hf b) e
upserted v s none f r o hf h e = written v s false no_rows r o h e

module _ {u v : String} (n : str_eq u v ≡ false) where
  pub insert_transaction-Foreign :
      (row : String → TxRow)
      → ((i : String) → (row i).user_id ≡ u)
      → Foreign v (insert_transaction row)
  unfolding insert_transaction rows_of
  insert_transaction-Foreign row own = record {
    same = λ st s a s' e. written v s _ _ _ _ (rw (own st.id, n) refl) e;
  }

  pub insert_event-Foreign : (x : LedgerEvent) → x.user_id ≡ u → Foreign v (insert_event x)
  unfolding insert_event rows_of
  insert_event-Foreign x own = record {
    same = λ st s a s' e.
        written v s _ _ _ _
          (rw (keep_last (λ (r : LedgerEvent). str_eq r.user_id v) x s.events (rw own n)) refl) e;
  }

  pub insert_server_event-Foreign :
      (ns k : String) (d : Fields) → Foreign v (insert_server_event ns u k d)
  unfolding rows_of
  insert_server_event-Foreign ns k d = record {
    same = λ st s a s' e.
        written v s false no_rows _ _
          (rw
            (keep_last (λ (r : LedgerEvent). str_eq r.user_id v) (server_event ns u k d st) s.events
              n)
            refl)
          e;
  }

  pub insert_project-Foreign : (p : ProjectInput) → p.user_id ≡ u → Foreign v (insert_project p)
  unfolding insert_project rows_of
  insert_project-Foreign p own = record {
    same = λ st s a s' e. written v s _ _ _ _ (rw (own, n) refl) e;
  }

  pub insert_household_tx-Foreign :
      (row : String → HouseholdTx)
      → ((i : String) → (row i).user_id ≡ u)
      → Foreign v (insert_household_tx row)
  unfolding insert_household_tx rows_of
  insert_household_tx-Foreign row own = record {
    same = λ st s a s' e. written v s false no_rows _ _ (rw (own st.id, n) refl) e;
  }

  pub insert_entry-Foreign :
      (tx : WriteTxInput) (id : String) → tx.user_id ≡ u → Foreign v (insert_entry tx id)
  unfolding insert_entry rows_of
  insert_entry-Foreign tx id own = record {
    same = λ st s a s' e. written v s _ _ _ _ (rw (own, n) refl) e;
  }

  pub insert_allocation-Foreign : (r : Allocation) → r.user_id ≡ u → Foreign v (insert_allocation r)
  unfolding insert_allocation rows_of
  insert_allocation-Foreign r own = record {
    same = λ st s a s' e.
        twice_guarded v s (exists (same_slot r.transaction_id r.project_id) s.allocations)
          (ltb_ℤ r.amount (pos 0)) unique_violation check_violation
          (tt, record s { allocations = r ∷ s.allocations }) _ (rw (own, n) refl) e;
  }

pub insert_line-Foreign : (v : String) (l : JournalLine) → Foreign v (insert_line l)
unfolding insert_line rows_of
insert_line-Foreign v l = record { same = λ st s a s' e. refused_or v s _ _ _ _ refl e }

other_accounts :
    (v : String) (s : Db) (xs : List ChartAccount)
    → rows_of v (record s { accounts = xs }) ≡ rows_of v s
unfolding rows_of
other_accounts v s xs = refl

pub upsert_account-Foreign :
    (v ns : String) (spec : AccountSpec) → Foreign v (upsert_account ns spec)
unfolding upsert_account
upsert_account-Foreign v ns spec = record {
  same = λ st s a s' e.
      upserted v s (find_first (is_account ns spec.code) s.accounts) _ _ _
        (λ x. other_accounts v s _) (other_accounts v s _) e;
}
