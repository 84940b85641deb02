-- ===== src/Orders/Effects.antt =====
-- What `create` does to the table of orders, whether it succeeds or fails.
use enterprise_ai_procuremen.Prelude.{
  ◌≡◌, ◌⊎◌, inl, inr, refl, ap, sym, ◌∙◌, false, some, none, Option-cases, map, arith,
}
use enterprise_ai_procuremen.Results.{err, bad_request, Failure}
use enterprise_ai_procuremen.Store.{lookup, insert}
use enterprise_ai_procuremen.Decimals.{of_cents, sum, num_eq}
use enterprise_ai_procuremen.Schema.{
  PurchaseOrder, PurchaseOrderStatus, Award, order_status_enum, bid_status_enum,
}
use enterprise_ai_procuremen.Database.{Database, Caller, Surroundings}
use enterprise_ai_procuremen.Orders.Repository.{find_award, create_with_items}
use enterprise_ai_procuremen.Orders.Service.{
  CreatePurchaseOrderDto, calculate_items_total, total_matches_items, create,
}
use enterprise_ai_procuremen.Orders.Creation.{new_order, with_order}

module _ (env : Surroundings) (caller : Caller) (dto : CreatePurchaseOrderDto) (db : Database) where
  create_writes :
      (award : Award)
      → find_award dto.award_id caller.organisation_id db ≡ some award
      → ((create env caller dto db).1 ≡ db)
        ⊎ (((create env caller dto db).1
              ≡ with_order env caller dto db (new_order env caller dto db award))
            × (lookup env.new_id db.purchase_orders ≡ none))
  unfolding create create_with_items
  create_writes award ea = ground arith

  create_no_award :
      find_award dto.award_id caller.organisation_id db ≡ none → (create env caller dto db).1 ≡ db
  unfolding create
  create_no_award n = ground arith

  -- What holds of the database, and is kept by a new order of the caller's organisation at a free
  -- key, holds after `create`.
  pub create_elim :
      (P : Database → Type 0)
      → P db
      → ((o : PurchaseOrder)
          → lookup env.new_id db.purchase_orders ≡ none
          → o.organisation_id ≡ caller.organisation_id
          → P (with_order env caller dto db o))
      → P (create env caller dto db).1
  create_elim P p add = elim (Option-cases (find_award dto.award_id caller.organisation_id db)) [
    | inl n ↦ rw (create_no_award n) p
    | inr (award, ea) ↦ elim (create_writes award ea) [
      | inl same ↦ rw same p
      | inr (wrote, absent) ↦ rw wrote (add (new_order env caller dto db award) absent refl)
    ]
  ]

  create_failed :
      (award : Award) (f : Failure) (after : Database)
      → find_award dto.award_id caller.organisation_id db ≡ some award
      → create env caller dto db ≡ (err f, after)
      → (after ≡ db)
        ⊎ ((after ≡ with_order env caller dto db (new_order env caller dto db award))
            × (lookup env.new_id db.purchase_orders ≡ none)
            × (total_matches_items (new_order env caller dto db award) ≡ false)
            × (f ≡ bad_request "Purchase order total amount must equal the sum of line items"))
  unfolding create create_with_items
  create_failed award f after ea h = ground arith

  -- A draft that a failed creation left: its total is not the sum of its lines in doubles.
  abbrev pub IsLeft : Failure → Database → PurchaseOrder → Type 0
  IsLeft f after p =
      (after ≡ record db { purchase_orders = insert env.new_id p db.purchase_orders })
      × (lookup env.new_id db.purchase_orders ≡ none)
      × (p.status ≡ PurchaseOrderStatus.draft)
      × (p.award_id ≡ dto.award_id)
      × (num_eq (sum (map (λ i. of_cents i.total_price) p.items)) (of_cents p.total_amount) ≡ false)
      × (f ≡ bad_request "Purchase order total amount must equal the sum of line items")

  -- A creation that fails leaves the database as it was, or with a new draft for the award, at a key
  -- that was free, whose total is not the sum of its lines in doubles; then the failure says so.
  pub create_failure :
      (f : Failure) (after : Database)
      → create env caller dto db ≡ (err f, after)
      → (after ≡ db) ⊎ ((p : PurchaseOrder) × IsLeft f after p)
  unfolding total_matches_items calculate_items_total
  create_failure f after h =
      elim (Option-cases (find_award dto.award_id caller.organisation_id db)) [
        | inl n ↦ inl (sym (ap (λ q. q.1) h) ∙ create_no_award n)
        | inr (award, ea) ↦ elim (create_failed award f after ea h) [
          | inl same ↦ inl same
          | inr (wrote, absent, differs, message) ↦
              inr (new_order env caller dto db award, (wrote, absent, refl, refl, differs, message))
        ]
      ]
