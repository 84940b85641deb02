-- ===== src/Orders/Creation.antt =====
-- What `create` writes, and when it cannot succeed.
use enterprise_ai_procuremen.Prelude.{
  ℕ, ◌+◌, ◌^◌, ◌≤◌, ◌<◌, ◌≡◌, ◌≢◌, refl, ap, true, false, ◌||◌, some, none, List, [], ◌∷◌, map,
  arith, ◌==◌, length, is_empty,
}
use enterprise_ai_procuremen.Results.{ok}
use enterprise_ai_procuremen.Store.{lookup, insert, any_row-lookup}
use enterprise_ai_procuremen.Decimals.{of_cents, to_fixed2, sum, num_eq}
use enterprise_ai_procuremen.Decimals.Accuracy.{total, to_fixed2-sum}
use enterprise_ai_procuremen.Schema.{
  BidItem, OrderItem, BidStatus, PurchaseOrder, PurchaseOrderStatus, Award, order_status_enum,
  bid_status_enum,
}
use enterprise_ai_procuremen.Database.{Database, Caller, Surroundings}
use enterprise_ai_procuremen.Orders.Repository.{
  find_award, same_number, create_with_items, has_active_by_award, count_by_organisation,
}
use enterprise_ai_procuremen.Orders.Service.{
  CreatePurchaseOrderDto, item_totals, calculate_items_total, total_matches_items, order_items,
  create, generate_po_number,
}

-- the amounts of the bid's lines
abbrev pub bid_totals : List BidItem → List ℕ
bid_totals items = map (λ i. i.total_price) items

item_totals-order_items :
    (new_id : ℕ → ℕ) (n : ℕ) (items : List BidItem)
    → item_totals (order_items new_id n items) ≡ map of_cents (bid_totals items)
unfolding order_items
item_totals-order_items new_id n [] = refl
item_totals-order_items new_id n (i ∷ is) =
    ap (◌∷◌ (of_cents i.total_price)) (item_totals-order_items new_id (n + 1) is)

-- The total of an order that is made from up to 2000 bid lines with a total below 2 ^ 40 cents is
-- their exact sum.
pub calculate_items_total-exact :
    (new_id : ℕ → ℕ) (items : List BidItem)
    → length (bid_totals items) ≤ 2000
    → total (bid_totals items) < 2 ^ 40
    → to_fixed2 (calculate_items_total (order_items new_id 0 items)) ≡ total (bid_totals items)
unfolding calculate_items_total
calculate_items_total-exact new_id items l h =
    rw (item_totals-order_items new_id 0 items) (to_fixed2-sum (bid_totals items) l h)

-- The lines of the order are those of the bid, in order, with new ids.
abbrev pub AreCopied : (ℕ → ℕ) → ℕ → List BidItem → List OrderItem → Type 0
AreCopied new_id n [] [] = Unit
AreCopied new_id n (b ∷ bs) (i ∷ is) =
    (i.id ≡ new_id n)
    × (i.description ≡ b.description)
    × (i.quantity ≡ b.quantity)
    × (i.unit_price ≡ b.unit_price)
    × (i.total_price ≡ b.total_price)
    × AreCopied new_id (n + 1) bs is
AreCopied new_id n [] (_ ∷ _) = ⊥
AreCopied new_id n (_ ∷ _) [] = ⊥

order_items-AreCopied :
    (new_id : ℕ → ℕ) (n : ℕ) (items : List BidItem)
    → AreCopied new_id n items (order_items new_id n items)
unfolding order_items
order_items-AreCopied new_id n [] = tt
order_items-AreCopied new_id n (b ∷ bs) =
    (refl, refl, refl, refl, refl, order_items-AreCopied new_id (n + 1) bs)

module _ (env : Surroundings) (caller : Caller) (dto : CreatePurchaseOrderDto) (db : Database) where
  -- the row that `create` writes for an award
  abbrev pub new_order : Award → PurchaseOrder
  new_order award =
      let items = order_items env.new_item_id 0 award.bid.items in
      record {
        po_number = generate_po_number env.year caller.organisation_id db;
        organisation_id = caller.organisation_id;
        vendor_id = award.bid.vendor_id;
        award_id = dto.award_id;
        procurement_request_id = award.procurement_request_id;
        issued_by_id = caller.user_id;
        issue_date = none;
        expected_delivery_date = dto.expected_delivery_date;
        total_amount = to_fixed2 (calculate_items_total items);
        currency = award.bid.currency;
        payment_terms = award.bid.payment_terms;
        delivery_address = dto.delivery_address;
        notes = dto.notes;
        status = PurchaseOrderStatus.draft;
        items = items;
      }

  abbrev pub with_order : PurchaseOrder → Database
  with_order o = record db { purchase_orders = insert env.new_id o db.purchase_orders }

  -- If any order, cancelled ones included, has the award already, `create` fails and writes nothing.
  pub create_award_taken :
      (k : ℕ) (o : PurchaseOrder)
      → lookup k db.purchase_orders ≡ some o
      → o.award_id ≡ dto.award_id
      → ((create env caller dto db).1 ≡ db)
        × ((p : PurchaseOrder) → (create env caller dto db).0 ≢ ok p)
  unfolding create create_with_items
  create_award_taken k o e h =
      let taken =
        any_row-lookup
          (λ o.
            same_number o.po_number (generate_po_number env.year caller.organisation_id db)
            || (o.award_id == dto.award_id))
          k o db.purchase_orders e (ground arith) in
      (ground (arith, taken), λ p. ground (arith, taken))

  -- Numbers count per organisation but are unique over all: if any order holds the first number of the
  -- year, an organisation with no orders cannot create one.
  pub create_number_taken :
      (k : ℕ) (o : PurchaseOrder)
      → lookup k db.purchase_orders ≡ some o
      → o.po_number ≡ record { year = env.year; sequence = 1 }
      → count_by_organisation caller.organisation_id db ≡ 0
      → ((create env caller dto db).1 ≡ db)
        × ((p : PurchaseOrder) → (create env caller dto db).0 ≢ ok p)
  unfolding create create_with_items generate_po_number
  create_number_taken k o e h z =
      let taken =
        any_row-lookup
          (λ o.
            same_number o.po_number (record {
              year = env.year;
              sequence = count_by_organisation caller.organisation_id db + 1;
            })
            || (o.award_id == dto.award_id))
          k o db.purchase_orders e (rw (h, z) (ground arith)) in
      (ground (arith, taken), λ p. ground (arith, taken))

  -- What `create` wrote for an award and its bid.
  abbrev pub IsMade : Award → PurchaseOrder → Type 0
  IsMade award p =
      AreCopied env.new_item_id 0 award.bid.items p.items
      × (p.status ≡ PurchaseOrderStatus.draft)
      × (p.organisation_id ≡ caller.organisation_id)
      × (p.issued_by_id ≡ caller.user_id)
      × (p.issue_date ≡ none)
      × (p.award_id ≡ dto.award_id)
      × (p.procurement_request_id ≡ award.procurement_request_id)
      × (p.vendor_id ≡ award.bid.vendor_id)
      × (p.currency ≡ award.bid.currency)
      × (p.payment_terms ≡ award.bid.payment_terms)
      × (p.expected_delivery_date ≡ dto.expected_delivery_date)
      × (p.total_amount ≡ to_fixed2 (sum (map of_cents (bid_totals award.bid.items))))
      × (p.po_number.year ≡ env.year)
      × (p.po_number.sequence ≡ count_by_organisation caller.organisation_id db + 1)

  new_order-IsMade : (award : Award) → IsMade award (new_order award)
  unfolding calculate_items_total generate_po_number
  new_order-IsMade award = (
    order_items-AreCopied env.new_item_id 0 award.bid.items,
    refl,
    refl,
    refl,
    refl,
    refl,
    refl,
    refl,
    refl,
    refl,
    refl,
    ap (λ l. to_fixed2 (sum l)) (item_totals-order_items env.new_item_id 0 award.bid.items),
    refl,
    refl,
  )

  order_created_as :
      (award : Award) (p : PurchaseOrder) (after : Database)
      → find_award dto.award_id caller.organisation_id db ≡ some award
      → create env caller dto db ≡ (ok p, after)
      → (award.bid.status ≡ BidStatus.awarded)
        × (is_empty award.bid.items ≡ false)
        × (has_active_by_award dto.award_id db ≡ false)
        × (lookup env.new_id db.purchase_orders ≡ none)
        × (p ≡ new_order award)
        × (total_matches_items p ≡ true)
        × (after ≡ with_order p)
  unfolding create create_with_items
  order_created_as award p after ea h = ground arith

  -- A creation that succeeds was for an award of the caller's organisation on an awarded bid that had
  -- lines and no active order. It adds one draft at a new key, with copies of the bid's lines, its
  -- vendor, currency and terms, the next number of the organisation and the rounded sum of the lines,
  -- and that total equals the sum of the order's lines in doubles.
  pub order_created :
      (award : Award) (p : PurchaseOrder) (after : Database)
      → find_award dto.award_id caller.organisation_id db ≡ some award
      → create env caller dto db ≡ (ok p, after)
      → (award.bid.status ≡ BidStatus.awarded)
        × (is_empty award.bid.items ≡ false)
        × (has_active_by_award dto.award_id db ≡ false)
        × (lookup env.new_id db.purchase_orders ≡ none)
        × IsMade award p
        × (num_eq (sum (map (λ i. of_cents i.total_price) p.items)) (of_cents p.total_amount)
            ≡ true)
        × (after ≡ record db { purchase_orders = insert env.new_id p db.purchase_orders })
  unfolding total_matches_items calculate_items_total
  order_created award p after ea h =
      let (awarded, lines, free, absent, same, sums, wrote) = order_created_as award p after ea h in
      (awarded, lines, free, absent, rw same (new_order-IsMade award), sums, wrote)
