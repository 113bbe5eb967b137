-- ===== src/Ledger/Books/Posting.antt =====
-- `createJournalEntry` of ledger/writer.go and the books: proofs.
use thclaws_thai_ai_agent.Base.{
  String, ◌≡◌, refl, false, none, List, [], ◌∷◌, str_eq, eq_iff, if◌then◌else◌, tally, exists,
  arith, Bool-cases, inl, inr,
}
use thclaws_thai_ai_agent.Base.Int.{ℤ, pos, ◌+ℤ◌, zero_left}
use thclaws_thai_ai_agent.Sql.{ok, Stamp, on_tx, wrap, ◌>>=◌}
use thclaws_thai_ai_agent.Sql.Triple.{Triple, Triple-pure, Triple-raise, Triple-if, Triple-bind}
use thclaws_thai_ai_agent.Sql.Triple.Rules.{Triple-on_tx, Triple-wrap}
use thclaws_thai_ai_agent.Ledger.Tables.{WriteTxInput, TxRow, JournalEntry, JournalLine, Db}
use thclaws_thai_ai_agent.Ledger.Journal.{
  insert_line, insert_journal_line, insert_entry, post_lines, create_journal_entry,
}
use thclaws_thai_ai_agent.Ledger.Writer.{insert_transaction}
use thclaws_thai_ai_agent.Ledger.Books.{
  debits, credits, On, has_id, IsBalanced, HasUniqueIds, IsMatched, IsSound, IsOpen,
}
use thclaws_thai_ai_agent.Ledger.Books.Frame.{ensure_account-frame}

-- Sound, but for `x` that entry `j` has in debit and not yet in credit.
record IsOwing (j : String) (x : ℤ) (txs : List TxRow) (entries : List JournalEntry)
    (ls : List JournalLine) : Type 0 where
  owing : (id : String) → debits id ls ≡ (if str_eq j id then x else pos 0) +ℤ credits id ls
  unique : HasUniqueIds txs entries ls
  matched : IsMatched txs entries ls

inserted :
    (l : JournalLine) (st : Stamp) (s : Db) (u : Unit {0}) (s' : Db)
    → insert_line l st s ≡ ok (u, s')
    → s' ≡ record s { lines = l ∷ s.lines }
unfolding insert_line
inserted l st s u s' e = ground arith

owing-debit :
    (l : JournalLine) (x : ℤ) (ls : List JournalLine)
    → l.debit ≡ x
    → l.credit ≡ pos 0
    → IsBalanced [] [] ls
    → (id : String)
    → debits id (l ∷ ls)
      ≡ (if str_eq l.journal_entry_id id then x else pos 0) +ℤ credits id (l ∷ ls)
unfolding debits credits
owing-debit l x ls d c h id = elim (Bool-cases (str_eq l.journal_entry_id id)) [
  | inl e ↦ rw (e, d, c) (rw (h id, zero_left))
  | inr e ↦ rw e (simp zero_left (h id))
]

settled-credit :
    (l : JournalLine) (x : ℤ) (ls : List JournalLine)
    → l.debit ≡ pos 0
    → l.credit ≡ x
    → ((id : String)
        → debits id ls ≡ (if str_eq l.journal_entry_id id then x else pos 0) +ℤ credits id ls)
    → IsBalanced [] [] (l ∷ ls)
unfolding debits credits
settled-credit l x ls d c h id = elim (Bool-cases (str_eq l.journal_entry_id id)) [
  | inl e ↦ rw (e, d, c) (rw (zero_left, h id) (rw e))
  | inr e ↦ rw e (simp (zero_left, h id, e))
]

debit_line :
    (j ns a : String) (x : ℤ) (m : String)
    → Triple (On IsSound) (insert_journal_line j ns a x (pos 0) m) (λ _. On (IsOwing j x))
unfolding insert_journal_line
debit_line j ns a x m = Triple-wrap _ (
    Triple-on_tx _ λ st s u s' h e. rw (inserted _ st s u s' e) (record {
      owing = owing-debit _ x s.lines refl refl h.balanced;
      unique = h.unique;
      matched = h.matched;
    }))

credit_line :
    (j ns a : String) (x : ℤ) (m : String)
    → Triple (On (IsOwing j x)) (insert_journal_line j ns a (pos 0) x m) (λ _. On IsSound)
unfolding insert_journal_line
credit_line j ns a x m = Triple-wrap _ (
    Triple-on_tx _ λ st s u s' h e. rw (inserted _ st s u s' e) (record {
      balanced = settled-credit _ x s.lines refl refl h.owing;
      unique = h.unique;
      matched = h.matched;
    }))

two_lines :
    (j ns a b : String) (x : ℤ) (m : String)
    → Triple
        (On IsSound)
        (insert_journal_line j ns a x (pos 0) m >>= λ _. insert_journal_line j ns b (pos 0) x m)
        (λ _. On IsSound)
two_lines j ns a b x m = Triple-bind (debit_line j ns a x m) (λ _. credit_line j ns b x m)

post_lines-IsSound :
    (tx : WriteTxInput) (j c t : String)
    → Triple (On IsSound) (post_lines tx j c t) (λ _. On IsSound)
unfolding post_lines
post_lines-IsSound tx j c t = search (Triple-if, two_lines, Triple-raise)

insert_entry-settles :
    (tx : WriteTxInput) (id m : String)
    → Triple (On (IsOpen tx.namespace id)) (wrap m (on_tx (insert_entry tx id))) (λ _. On IsSound)
unfolding insert_entry
insert_entry-settles tx id m = Triple-wrap m (
    Triple-on_tx _ λ st s a s' h e. record {
      balanced = λ i. ground (arith, h.balanced i);
      unique = λ i. ground (arith, h.unique i);
      matched = λ n i. ground (arith, h.short n i);
    })

-- From books in which transaction `id` is still to be posted, `createJournalEntry` comes to sound
-- books.
pub create_journal_entry-settles :
    (tx : WriteTxInput) (id : String)
    → Triple (On (IsOpen tx.namespace id)) (create_journal_entry tx id) (λ _. On IsSound)
unfolding create_journal_entry
create_journal_entry-settles tx id =
    Triple-bind (ensure_account-frame (IsOpen tx.namespace id) _ _) λ cash.
      Triple-bind (ensure_account-frame (IsOpen tx.namespace id) _ _) λ target.
        Triple-bind (insert_entry-settles tx id _)
          λ j. Triple-bind (post_lines-IsSound tx j cash target) λ _. Triple-pure j

fresh_id :
    (k : String) (txs : List TxRow)
    → exists (λ (r : TxRow). str_eq r.id k) txs ≡ false
    → tally (has_id k) txs ≡ 0
fresh_id k [] h = refl
fresh_id k (x ∷ xs) h = ground (arith, fresh_id k xs)

-- The new row of an insert is the one that is still to be posted.
pub insert_transaction-opens :
    (row : String → TxRow) (ns m : String)
    → ((i : String) → (row i).id ≡ i)
    → ((i : String) → (row i).namespace ≡ ns)
    → ((i : String) → (row i).deleted_at ≡ none)
    → Triple (On IsSound) (wrap m (on_tx (insert_transaction row))) (λ id. On (IsOpen ns id))
unfolding insert_transaction
insert_transaction-opens row ns m same_id same_ns live = Triple-wrap m (
    Triple-on_tx _ λ st s a s' h e. record {
      balanced = λ i. ground (arith, h.balanced i);
      unique = λ i.
          ground (arith, h.unique i, same_id st.id, fresh_id st.id s.transactions, eq_iff st.id i);
      short = λ n i. ground (arith, h.matched n i, same_id st.id, same_ns st.id, live st.id);
    })
