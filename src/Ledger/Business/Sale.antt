-- ===== src/Ledger/Business/Sale.antt =====
-- `RecordBusinessSale` and `RecordBusinessPurchase` of ledger/business.go; a quantity is whole.
use thclaws_thai_ai_agent.Base.{ℕ, ◌*◌, ◌==◌, String, if◌then◌else◌}
use thclaws_thai_ai_agent.Base.Int.{ℤ, pos}
use thclaws_thai_ai_agent.Sql.{Error, M}
use thclaws_thai_ai_agent.Ledger.Tables.{Db}
use thclaws_thai_ai_agent.Ledger.Business.{create_business_transaction}

-- `if amount == 0 { amount = quantity * price }`
abbrev pub amount_or : ℕ → ℕ → ℕ → ℤ
amount_or amount quantity price = pos (if amount == 0 then quantity * price else amount)

-- `RecordBusinessSale`
unfoldable pub record_business_sale : String → String → String → ℕ → ℕ → ℕ → M Db Error String
record_business_sale user_id business_id product amount quantity unit_price =
    create_business_transaction user_id business_id (record {
      tx_type = "INCOME";
      amount = amount_or amount quantity unit_price;
      category = "รายได้จากการขาย";
      note = product;
      happened_at = 0;
    })

-- `RecordBusinessPurchase`
unfoldable pub record_business_purchase : String → String → String → ℕ → ℕ → ℕ → M Db Error String
record_business_purchase user_id business_id material amount quantity unit_cost =
    create_business_transaction user_id business_id (record {
      tx_type = "EXPENSE";
      amount = amount_or amount quantity unit_cost;
      category = "ต้นทุนสินค้า";
      note = material;
      happened_at = 0;
    })
