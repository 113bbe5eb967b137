-- ===== src/Ledger/Books.antt =====
-- What is true of the books at every commit of go-core/internal/ledger: the predicates.
pub mod Counts
pub mod Frame
pub mod Posting
pub mod Kept
pub mod Changed
pub mod Beside
use thclaws_thai_ai_agent.Base.{
  ℕ, suc, ◌+◌, ◌≤◌, String, ◌≡◌, Bool, ◌&&◌, List, [], ◌∷◌, str_eq, if◌then◌else◌, tally, arith,
  refl,
}
use thclaws_thai_ai_agent.Base.Int.{ℤ, pos, ◌+ℤ◌}
use thclaws_thai_ai_agent.Ledger.Tables.{TxRow, JournalEntry, JournalLine, Db}
use thclaws_thai_ai_agent.Ledger.Allocations.{is_live}
use thclaws_thai_ai_agent.Ledger.Update.{is_posted}

-- The debits and the credits of one journal entry.
pub debits : String → List JournalLine → ℤ
debits id [] = pos 0
debits id (l ∷ ls) = (if str_eq l.journal_entry_id id then l.debit else pos 0) +ℤ debits id ls

pub credits : String → List JournalLine → ℤ
credits id [] = pos 0
credits id (l ∷ ls) = (if str_eq l.journal_entry_id id then l.credit else pos 0) +ℤ credits id ls

-- A statement about transactions, journal entries and journal lines.
abbrev pub Books : Type 1
Books = List TxRow → List JournalEntry → List JournalLine → Type 0

abbrev pub On : Books → Db → Type 0
On P db = P db.transactions db.entries db.lines

abbrev pub has_id : String → TxRow → Bool
has_id id r = str_eq r.id id

-- A transaction that is not deleted.
abbrev pub is_kept : String → String → TxRow → Bool
is_kept namespace id r = str_eq r.namespace namespace && str_eq r.id id && is_live r.deleted_at

abbrev pub is_pair : String → String → String → String → Bool
is_pair namespace id n i = str_eq namespace n && str_eq id i

-- Every entry balances.
abbrev pub IsBalanced : Books
IsBalanced txs entries ls = (id : String) → debits id ls ≡ credits id ls

-- Transaction ids are unique.
abbrev pub HasUniqueIds : Books
HasUniqueIds txs entries ls = (id : String) → tally (has_id id) txs ≤ 1

-- A transaction that is kept has one posted entry, any other has none.
abbrev pub IsMatched : Books
IsMatched txs entries ls = (n i : String) → tally (is_posted n i) entries ≡ tally (is_kept n i) txs

-- So it is, but for one entry that is still to be posted.
abbrev pub IsShort : String → String → Books
IsShort namespace id txs entries ls =
    (n i : String)
    → tally (is_posted n i) entries + (if is_pair namespace id n i then 1 else 0)
      ≡ tally (is_kept n i) txs

pub record IsSound (txs : List TxRow) (entries : List JournalEntry) (ls : List JournalLine)
    : Type 0 where
  pub balanced : IsBalanced txs entries ls
  pub unique : HasUniqueIds txs entries ls
  pub matched : IsMatched txs entries ls

pub record IsOpen (namespace id : String) (txs : List TxRow) (entries : List JournalEntry)
    (ls : List JournalLine) : Type 0 where
  pub balanced : IsBalanced txs entries ls
  pub unique : HasUniqueIds txs entries ls
  pub short : IsShort namespace id txs entries ls

-- Empty books are sound.
pub IsSound-nil : IsSound [] [] []
unfolding debits credits
IsSound-nil = record { balanced = λ i. refl; unique = λ i. omega arith; matched = λ n i. refl }
