-- ===== src/Ledger/Reads.antt =====
-- The reads of go-core/internal/ledger that a chat causes commit nothing.
use thclaws_thai_ai_agent.Base.{ℕ, String}
use thclaws_thai_ai_agent.Sql.Quiet.{Quiet, quiet_rules}
use thclaws_thai_ai_agent.Thaitime.{Calendar}
use thclaws_thai_ai_agent.Ledger.Projects.{list_active_projects}
use thclaws_thai_ai_agent.Ledger.Household.{fetch_household_range, list_my_households}
use thclaws_thai_ai_agent.Ledger.Household.Report.{household_summary}
use thclaws_thai_ai_agent.Ledger.Business.{list_my_businesses, compute_business_profit}
use thclaws_thai_ai_agent.Ledger.Reader.{fetch_user_range, fetch_user_totals}
use thclaws_thai_ai_agent.Ledger.Summary.{today, this_month, balance}

pub list_active_projects-Quiet : (u ns : String) → Quiet (list_active_projects u ns)
unfolding list_active_projects
list_active_projects-Quiet u ns = search quiet_rules

pub list_my_households-Quiet : (u : String) → Quiet (list_my_households u)
unfolding list_my_households
list_my_households-Quiet u = search quiet_rules

fetch_household_range-Quiet :
    (u h : String) (from to : ℕ) → Quiet (fetch_household_range u h from to)
unfolding fetch_household_range
fetch_household_range-Quiet u h from to = search quiet_rules

pub household_summary-Quiet :
    (cal : Calendar) (u h : String) (from to : ℕ) → Quiet (household_summary cal u h from to)
unfolding household_summary
household_summary-Quiet cal u h from to = search (quiet_rules, fetch_household_range-Quiet)

pub list_my_businesses-Quiet : (u : String) → Quiet (list_my_businesses u)
unfolding list_my_businesses
list_my_businesses-Quiet u = search quiet_rules

pub compute_business_profit-Quiet :
    (b : String) (from to : ℕ) → Quiet (compute_business_profit b from to)
unfolding compute_business_profit
compute_business_profit-Quiet b from to = search quiet_rules

fetch_user_range-Quiet : (u ns : String) (from to : ℕ) → Quiet (fetch_user_range u ns from to)
unfolding fetch_user_range
fetch_user_range-Quiet u ns from to = search quiet_rules

fetch_user_totals-Quiet : (u ns : String) → Quiet (fetch_user_totals u ns)
unfolding fetch_user_totals
fetch_user_totals-Quiet u ns = search quiet_rules

pub today-Quiet : (cal : Calendar) (u ns : String) → Quiet (today cal u ns)
unfolding today
today-Quiet cal u ns = search (quiet_rules, fetch_user_range-Quiet)

pub this_month-Quiet : (cal : Calendar) (u ns : String) → Quiet (this_month cal u ns)
unfolding this_month
this_month-Quiet cal u ns = search (quiet_rules, fetch_user_range-Quiet)

pub balance-Quiet : (u ns : String) → Quiet (balance u ns)
unfolding balance
balance-Quiet u ns = search (quiet_rules, fetch_user_totals-Quiet)
