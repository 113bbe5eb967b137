-- ===== src/Dispatcher/Isolated.antt =====
-- `Dispatch` of dispatcher/dispatcher.go and the users for whom it is not called.
use thclaws_thai_ai_agent.Base.{String, false, ◌≡◌, str_eq}
use thclaws_thai_ai_agent.Ledger.Tenants.{rows_of}
use thclaws_thai_ai_agent.Ledger.Tenants.Writes.{
  OthersKept, OthersKept-refl, OthersKept-trans, create_personal_transaction-OthersKept,
  create_business_transaction-OthersKept, create_project-OthersKept,
  create_household_transaction-OthersKept,
}
use thclaws_thai_ai_agent.Dispatcher.Chat.{Chat, Service}
use thclaws_thai_ai_agent.Dispatcher.Image.{Naming}
use thclaws_thai_ai_agent.Dispatcher.Event.{Event, Resolved, dispatch}
use thclaws_thai_ai_agent.Dispatcher.Handled.{IsFollowed}
use thclaws_thai_ai_agent.Dispatcher.Sound.{user_of, dispatch-moved}

others_kept : IsFollowed OthersKept
others_kept = record {
  order = λ u. record { same = OthersKept-refl u; then_to = OthersKept-trans u };
  personal = create_personal_transaction-OthersKept;
  project = create_project-OthersKept;
  household = create_household_transaction-OthersKept;
  business = create_business_transaction-OthersKept;
}

-- Whatever event LINE sends, and whichever calls fail: a user other than the one whom the sender is
-- resolved to has after `Dispatch` the same transactions, journal entries, allocations, projects,
-- ledger events and household transactions as before, and no home, membership or business of
-- anybody is changed.
pub dispatch_isolates :
    (naming : Naming) (svc : Service) (resolve : String → Resolved) (e : Event) (c : Chat)
    (v : String)
    → str_eq (user_of (resolve e.line_user_id)) v ≡ false
    → rows_of v (dispatch naming svc resolve e c).1.books.db ≡ rows_of v c.books.db
unfolding OthersKept
dispatch_isolates naming svc resolve e c v n = dispatch-moved others_kept naming svc resolve e c v n
