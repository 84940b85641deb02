-- ===== src/Orders/History.antt =====
-- Orders under any request to the order service, creations included, and what issuing needs.
use enterprise_ai_procuremen.Prelude.{
  ℕ, ◌≡◌, ◌⊎◌, inl, inr, true, some, none, String, Option, map, arith, ◌==◌, ==_iff, Bool-cases,
}
use enterprise_ai_procuremen.Results.{or_else, or_keep, ok, is_err}
use enterprise_ai_procuremen.Store.{
  lookup, insert, lookup-insert_ne, IsKeyed, insert-IsKeyed, erase-IsKeyed,
}
use enterprise_ai_procuremen.Schema.{
  admin, procurement_manager, finance, PurchaseOrder, PurchaseOrderStatus,
}
use enterprise_ai_procuremen.Database.{Database, Caller, Surroundings}
use enterprise_ai_procuremen.Decimals.{of_cents, sum, num_eq}
use enterprise_ai_procuremen.Orders.Effects.{create_elim}
use enterprise_ai_procuremen.Orders.Repository.{find_order}
use enterprise_ai_procuremen.Orders.Service.{
  issue, cancel, acknowledge, update, delete, create, CreatePurchaseOrderDto, total_matches_items,
  calculate_items_total,
}
use enterprise_ai_procuremen.Orders.Lifecycle.{
  Request, updates, deletes, cancels, issues, acknowledges, perform, Outcome, order-Outcome,
  perform_frame,
}

-- a request on an order, by a caller, or the creation of one
pub data Call : Type 0 where
  names : Caller → ℕ → Request → Call
  creates : Surroundings → Caller → CreatePurchaseOrderDto → Call

abbrev pub caller_of : Call → Caller
caller_of (names caller id r) = caller
caller_of (creates env caller dto) = caller

unfoldable pub answer : Call → Database → Database
answer (names caller id r) db = perform caller id r db
answer (creates env caller dto) db = (create env caller dto db).1

pub perform-IsKeyed :
    (caller : Caller) (id : ℕ) (r : Request) (db : Database)
    → IsKeyed db.purchase_orders
    → IsKeyed (perform caller id r db).purchase_orders
unfolding perform issue cancel acknowledge update delete find_order
perform-IsKeyed caller id (updates dto) db h = grind (arith, insert-IsKeyed)
perform-IsKeyed caller id deletes db h = grind (arith, erase-IsKeyed)
perform-IsKeyed caller id cancels db h = grind (arith, insert-IsKeyed)
perform-IsKeyed caller id (issues env date notes) db h = grind (arith, insert-IsKeyed)
perform-IsKeyed caller id (acknowledges notes) db h = grind (arith, insert-IsKeyed)

abbrev pub IsTerminal : PurchaseOrder → Type 0
IsTerminal o =
    (o.status ≡ PurchaseOrderStatus.completed) ⊎ (o.status ≡ PurchaseOrderStatus.cancelled)

Outcome-terminal :
    (o : PurchaseOrder) (after : Option PurchaseOrder)
    → IsTerminal o
    → Outcome o after
    → after ≡ some o
Outcome-terminal o none t h = ground arith
Outcome-terminal o (some o') t h = ground arith

perform_terminal :
    (caller : Caller) (id k : ℕ) (r : Request) (db : Database) (o : PurchaseOrder)
    → IsKeyed db.purchase_orders
    → lookup k db.purchase_orders ≡ some o
    → IsTerminal o
    → lookup k (perform caller id r db).purchase_orders ≡ some o
perform_terminal caller id k r db o keyed e t = elim (Bool-cases (k == id)) [
  | inl same ↦ rw ((==_iff k id).0 same) (
      Outcome-terminal o _ t (order-Outcome caller id db o (rw (← (==_iff k id).0 same) e) keyed r))
  | inr other ↦ perform_frame caller id k r db o e (inl (ground arith))
]

pub answer-IsKeyed :
    (call : Call) (db : Database)
    → IsKeyed db.purchase_orders
    → IsKeyed (answer call db).purchase_orders
unfolding answer
answer-IsKeyed (names caller id r) db h = perform-IsKeyed caller id r db h
answer-IsKeyed (creates env caller dto) db h =
    create_elim env caller dto db (λ after. IsKeyed after.purchase_orders) h
      λ o absent own. insert-IsKeyed env.new_id o db.purchase_orders h

-- A creation leaves every row that is there.
create_frame :
    (env : Surroundings) (caller : Caller) (dto : CreatePurchaseOrderDto) (db : Database) (k : ℕ)
    (o : PurchaseOrder)
    → lookup k db.purchase_orders ≡ some o
    → lookup k (create env caller dto db).1.purchase_orders ≡ some o
create_frame env caller dto db k o e =
    create_elim env caller dto db (λ after. lookup k after.purchase_orders ≡ some o) e
      λ p absent own. ground (arith, lookup-insert_ne k env.new_id p db.purchase_orders)

-- A request to the order service leaves a completed or cancelled order.
pub answer_terminal :
    (call : Call) (db : Database) (k : ℕ) (o : PurchaseOrder)
    → IsKeyed db.purchase_orders
    → lookup k db.purchase_orders ≡ some o
    → IsTerminal o
    → lookup k (answer call db).purchase_orders ≡ some o
unfolding answer
answer_terminal (names caller id r) db k o keyed e t = perform_terminal caller id k r db o keyed e t
answer_terminal (creates env caller dto) db k o keyed e t = create_frame env caller dto db k o e

-- A request by a caller of another organisation leaves an order.
pub answer_foreign :
    (call : Call) (db : Database) (k : ℕ) (o : PurchaseOrder)
    → lookup k db.purchase_orders ≡ some o
    → ¬ (o.organisation_id ≡ (caller_of call).organisation_id)
    → lookup k (answer call db).purchase_orders ≡ some o
unfolding answer
answer_foreign (names caller id r) db k o e ne = perform_frame caller id k r db o e (inr ne)
answer_foreign (creates env caller dto) db k o e ne = create_frame env caller dto db k o e

-- a manager of the order's organisation, and a draft whose total is the sum of its lines in doubles
abbrev pub MayIssue : Caller → PurchaseOrder → Type 0
MayIssue caller o =
    ((caller.role ≡ admin) ⊎ (caller.role ≡ procurement_manager) ⊎ (caller.role ≡ finance))
    × (o.organisation_id ≡ caller.organisation_id)
    × (o.status ≡ PurchaseOrderStatus.draft)
    × (num_eq (sum (map (λ i. of_cents i.total_price) o.items)) (of_cents o.total_amount) ≡ true)

module _ (caller : Caller) (id : ℕ) (db : Database) (o : PurchaseOrder)
    (e : lookup id db.purchase_orders ≡ some o) where
  -- Issuing succeeds exactly for a manager of the order's organisation, on a draft whose total is the
  -- sum of its lines; then the order has the status, the date and the notes asked for. Otherwise the
  -- answer is a failure and nothing is written.
  pub issue_iff :
      (env : Surroundings) (date : Option ℕ) (notes : Option String)
      → let o' : PurchaseOrder = record o {
        status = PurchaseOrderStatus.issued;
        issue_date = some (or_else date env.now);
        notes = or_keep notes o.notes;
      } in
        ((issue env caller id date notes db
            ≡ (ok o', record db { purchase_orders = insert id o' db.purchase_orders }))
          × MayIssue caller o)
        ⊎ ((is_err (issue env caller id date notes db).0 ≡ true)
            × ((issue env caller id date notes db).1 ≡ db)
            × ¬ MayIssue caller o)
  unfolding issue find_order total_matches_items calculate_items_total
  issue_iff env date notes = ground arith
