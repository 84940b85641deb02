-- ===== src/Orders/Lifecycle.antt =====
-- The life of a purchase order under the requests of the service.
use enterprise_ai_procuremen.Prelude.{
  ℕ, ◌≡◌, ◌⊎◌, Bool, true, false, Option, none, some, String, arith, ◌≢◌,
}
use enterprise_ai_procuremen.Store.{
  lookup, lookup-insert_self, lookup-insert_ne, lookup-erase_ne, lookup-erase_self, IsKeyed,
}
use enterprise_ai_procuremen.Schema.{PurchaseOrder, PurchaseOrderStatus}
use enterprise_ai_procuremen.Database.{Database, Caller, Surroundings}
use enterprise_ai_procuremen.Orders.Repository.{find_order}
use enterprise_ai_procuremen.Orders.Service.{
  issue, cancel, acknowledge, update, delete, UpdatePurchaseOrderDto,
}

-- the requests that change an order, with their data
pub data Request : Type 0 where
  updates : UpdatePurchaseOrderDto → Request
  deletes cancels : Request
  issues : Surroundings → Option ℕ → Option String → Request
  acknowledges : Option String → Request

-- the database after a request on the order `id`, whether it succeeds or not
unfoldable pub perform : Caller → ℕ → Request → Database → Database
perform caller id (updates dto) db = (update caller id dto db).1
perform caller id deletes db = (delete caller id db).1
perform caller id cancels db = (cancel caller id db).1
perform caller id (issues env date notes) db = (issue env caller id date notes db).1
perform caller id (acknowledges notes) db = (acknowledge caller id notes db).1

-- the status changes that the requests may make
abbrev pub may_become : PurchaseOrderStatus → PurchaseOrderStatus → Bool
may_become PurchaseOrderStatus.draft PurchaseOrderStatus.issued = true
may_become PurchaseOrderStatus.issued PurchaseOrderStatus.acknowledged = true
may_become PurchaseOrderStatus.completed _ = false
may_become PurchaseOrderStatus.cancelled _ = false
may_become _ PurchaseOrderStatus.cancelled = true
may_become _ _ = false

-- what a request may have made of an order
abbrev pub Outcome : PurchaseOrder → Option PurchaseOrder → Type 0
Outcome o none = o.status ≡ PurchaseOrderStatus.draft
Outcome o (some o') =
    (o' ≡ o)
    ⊎ (((may_become o.status o'.status ≡ true)
          ⊎ ((o.status ≡ PurchaseOrderStatus.draft) × (o'.status ≡ PurchaseOrderStatus.draft)))
        × (o'.items ≡ o.items)
        × (o'.total_amount ≡ o.total_amount)
        × (o'.award_id ≡ o.award_id)
        × (o'.vendor_id ≡ o.vendor_id)
        × (o'.organisation_id ≡ o.organisation_id)
        × (o'.po_number ≡ o.po_number))

module _ (caller : Caller) (id : ℕ) (db : Database) (o : PurchaseOrder)
    (e : lookup id db.purchase_orders ≡ some o) (keyed : IsKeyed db.purchase_orders) where
  -- What a request makes of the order that it names: nothing, an edit of a draft, one of the allowed
  -- status changes, or the removal of a draft. Items, total, award, vendor, organisation and number
  -- stay.
  pub order-Outcome : (r : Request) → Outcome o (lookup id (perform caller id r db).purchase_orders)
  unfolding perform issue cancel acknowledge update delete find_order
  order-Outcome (updates dto) = grind (arith, lookup-insert_self)
  order-Outcome deletes = ground (arith, lookup-erase_self id db.purchase_orders keyed)
  order-Outcome cancels = grind (arith, lookup-insert_self)
  order-Outcome (issues env date notes) = grind (arith, lookup-insert_self)
  order-Outcome (acknowledges notes) = grind (arith, lookup-insert_self)

-- A request changes no other order, and none of another organisation.
pub perform_frame :
    (caller : Caller) (id k : ℕ) (r : Request) (db : Database) (o : PurchaseOrder)
    → lookup k db.purchase_orders ≡ some o
    → (k ≢ id) ⊎ (o.organisation_id ≢ caller.organisation_id)
    → lookup k (perform caller id r db).purchase_orders ≡ some o
unfolding perform issue cancel acknowledge update delete find_order
perform_frame caller id k (updates dto) db o e h = grind (arith, lookup-insert_ne)
perform_frame caller id k deletes db o e h = grind (arith, lookup-erase_ne)
perform_frame caller id k cancels db o e h = grind (arith, lookup-insert_ne)
perform_frame caller id k (issues env date notes) db o e h = grind (arith, lookup-insert_ne)
perform_frame caller id k (acknowledges notes) db o e h = grind (arith, lookup-insert_ne)
