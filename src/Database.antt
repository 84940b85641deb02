-- ===== src/Database.antt =====
-- The database that the services share, and what the surroundings hand to a request.
use enterprise_ai_procuremen.Prelude.{ℕ, String}
use enterprise_ai_procuremen.Results.{Action}
use enterprise_ai_procuremen.Store.{Table}
use enterprise_ai_procuremen.Schema.{
  Vendor, User, Award, PurchaseOrder, GoodsReceipt, Invoice, Role,
}

pub record Database : Type 0 where
  pub vendors : Table Vendor
  pub users : Table User
  pub awards : Table Award
  pub purchase_orders : Table PurchaseOrder
  pub goods_receipts : Table GoodsReceipt
  pub invoices : Table Invoice

-- The signed-in user, as the guards of the API attach it to a request.
pub record Caller : Type 0 where
  pub organisation_id : ℕ
  pub user_id : ℕ
  pub email : String
  pub role : Role

-- The primary keys that `cuid()` draws for a new row and for its items, and the clock.
pub record Surroundings : Type 0 where
  pub new_id : ℕ
  pub new_item_id : ℕ → ℕ
  pub now : ℕ
  pub year : ℕ

abbrev pub M : Type 0 → Type 0
M A = Action Database A
