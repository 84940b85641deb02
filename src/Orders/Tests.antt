-- ===== src/Orders/Tests.antt =====
-- Runs of the order requests, and the theorems at concrete inputs.
use enterprise_ai_procuremen.Prelude.{
  ◌≡◌, ◌≢◌, refl, ◌⊎◌, true, false, none, some, [], ◌∷◌, map, arith, is_empty,
}
use enterprise_ai_procuremen.Results.{ok, err, bad_request, or_else, or_keep, is_err}
use enterprise_ai_procuremen.Store.{lookup, insert}
use enterprise_ai_procuremen.Decimals.{
  of_cents, num_eq, num_add, nearest, half_even, scale, coarsen, to_fixed2, sum,
}
use enterprise_ai_procuremen.Decimals.Accuracy.{total}
use enterprise_ai_procuremen.Schema.{Award, PurchaseOrder, PurchaseOrderStatus, BidStatus}
use enterprise_ai_procuremen.Database.{Database}
use enterprise_ai_procuremen.Samples.{
  administrator, stranger, surroundings, order, with_draft_order, award, empty,
}
use enterprise_ai_procuremen.Orders.Repository.{find_award, has_active_by_award, create_with_items}
use enterprise_ai_procuremen.Orders.Service.{
  CreatePurchaseOrderDto, create, issue, total_matches_items, calculate_items_total, order_items,
  generate_po_number,
}
use enterprise_ai_procuremen.Orders.Lifecycle.{cancels, perform, Outcome, order-Outcome}
use enterprise_ai_procuremen.Orders.History.{MayIssue, issue_iff}
use enterprise_ai_procuremen.Orders.Effects.{IsLeft, create_failure}
use enterprise_ai_procuremen.Orders.Creation.{
  bid_totals, calculate_items_total-exact, new_order, with_order, IsMade, create_award_taken,
  create_number_taken, order_created,
}

order-Outcome_example :
    Outcome order (lookup 10 (perform administrator 10 cancels with_draft_order).purchase_orders)
order-Outcome_example =
    order-Outcome administrator 10 with_draft_order order refl (refl, tt) cancels

abbrev dto : CreatePurchaseOrderDto
dto = record { award_id = 3; delivery_address = none; notes = none; expected_delivery_date = 600 }

abbrev closed : PurchaseOrder
closed = record order { status = PurchaseOrderStatus.cancelled }

abbrev with_closed : Database
with_closed = record empty { purchase_orders = (10, closed) ∷ [] }

issue_iff_example :
    let o' : PurchaseOrder = record order {
      status = PurchaseOrderStatus.issued;
      issue_date = some (or_else none surroundings.now);
      notes = or_keep none order.notes;
    } in
    ((issue surroundings administrator 10 none none with_draft_order ≡ (
      ok o',
      record with_draft_order { purchase_orders = insert 10 o' with_draft_order.purchase_orders },
    ))
      × MayIssue administrator order)
    ⊎ ((is_err (issue surroundings administrator 10 none none with_draft_order).0 ≡ true)
        × ((issue surroundings administrator 10 none none with_draft_order).1 ≡ with_draft_order)
        × ¬ MayIssue administrator order)
issue_iff_example = issue_iff administrator 10 with_draft_order order refl surroundings none none

calculate_items_total-exact_example :
    to_fixed2 (calculate_items_total (order_items surroundings.new_item_id 0 award.bid.items))
    ≡ total (bid_totals award.bid.items)
calculate_items_total-exact_example =
    calculate_items_total-exact surroundings.new_item_id award.bid.items (ground arith)
      (ground arith)

-- Ten and twenty cents make more than thirty.
abbrev left : PurchaseOrder
left = new_order surroundings administrator dto empty award

sample_drift : create surroundings administrator dto empty ≡ (
  err (bad_request "Purchase order total amount must equal the sum of line items"),
  with_order surroundings administrator dto empty left,
)
unfolding create create_with_items find_award total_matches_items calculate_items_total order_items
    generate_po_number num_eq num_add nearest half_even scale coarsen of_cents to_fixed2 sum
sample_drift = refl

create_failure_example :
    let after = with_order surroundings administrator dto empty left in
    (after ≡ empty)
    ⊎ ((p : PurchaseOrder) × IsLeft surroundings administrator dto empty
          (bad_request "Purchase order total amount must equal the sum of line items")
          after
          p)
create_failure_example = create_failure surroundings administrator dto empty _ _ sample_drift

create_award_taken_example :
    ((create surroundings administrator dto with_closed).1 ≡ with_closed)
    × ((p : PurchaseOrder) → (create surroundings administrator dto with_closed).0 ≢ ok p)
create_award_taken_example =
    create_award_taken surroundings administrator dto with_closed 10 closed refl refl

create_number_taken_example :
    ((create surroundings stranger dto with_closed).1 ≡ with_closed)
    × ((p : PurchaseOrder) → (create surroundings stranger dto with_closed).0 ≢ ok p)
create_number_taken_example =
    create_number_taken surroundings stranger dto with_closed 10 closed refl refl refl

abbrev pens : Award
pens = record award {
  bid = record award.bid {
    items = (record { description = "Pen"; quantity = 1; unit_price = 10; total_price = 10 }) ∷ [];
  };
}

abbrev with_pens : Database
with_pens = record empty { awards = (3, pens) ∷ [] }

abbrev made : PurchaseOrder
made = new_order surroundings administrator dto with_pens pens

sample_create :
    create surroundings administrator dto with_pens
    ≡ (ok made, with_order surroundings administrator dto with_pens made)
unfolding create create_with_items find_award total_matches_items calculate_items_total order_items
    generate_po_number num_eq num_add nearest half_even scale coarsen of_cents to_fixed2 sum
sample_create = refl

order_created_example :
    (pens.bid.status ≡ BidStatus.awarded)
    × (is_empty pens.bid.items ≡ false)
    × (has_active_by_award dto.award_id with_pens ≡ false)
    × (lookup 99 with_pens.purchase_orders ≡ none)
    × IsMade surroundings administrator dto with_pens pens made
    × (num_eq (sum (map (λ i. of_cents i.total_price) made.items)) (of_cents made.total_amount)
        ≡ true)
    × (with_order surroundings administrator dto with_pens made
        ≡ record with_pens { purchase_orders = insert 99 made with_pens.purchase_orders })
unfolding find_award
order_created_example =
    order_created surroundings administrator dto with_pens pens made
      (with_order surroundings administrator dto with_pens made) refl sample_create
