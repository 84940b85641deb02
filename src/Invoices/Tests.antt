-- ===== src/Invoices/Tests.antt =====
-- Runs of the invoice requests, and the theorems at concrete inputs.
use enterprise_ai_procuremen.Prelude.{
  ◌≡◌, ◌≢◌, refl, ◌↔◌, ◌⊎◌, inr, true, none, some, [], ◌∷◌, List, arith,
}
use enterprise_ai_procuremen.Results.{ok, err, or_keep, is_err}
use enterprise_ai_procuremen.Store.{lookup, insert}
use enterprise_ai_procuremen.Decimals.{
  nearest, half_even, scale, coarsen, of_cents, num_eq, num_add, num_mul, to_fixed2, sum,
}
use enterprise_ai_procuremen.Decimals.Accuracy.{total}
use enterprise_ai_procuremen.Schema.{Invoice, InvoiceStatus, MatchStatus}
use enterprise_ai_procuremen.Database.{Database}
use enterprise_ai_procuremen.Samples.{
  administrator, stranger, invoice, submitted_invoice, issued_order, full_receipt, with_submitted,
  with_invoice, invoice_item, surroundings, delivered, vendor,
}
use enterprise_ai_procuremen.Orders.Repository.{find_order}
use enterprise_ai_procuremen.Receipts.Repository.{find_receipt}
use enterprise_ai_procuremen.Invoices.Repository.{
  find_invoice, update_invoice, upsert_matching_result, set_matched_status, create_with_items,
}
use enterprise_ai_procuremen.Invoices.Amounts.{
  line_total, subtotal_valid, calculate_items_subtotal, total_valid, total_message,
  build_invoice_item, build_invoice_items,
}
use enterprise_ai_procuremen.Invoices.Matching.{
  match_line, match_item, match_items, received_value, find_discrepancies, resolve_match_status,
  run_three_way_match,
}
use enterprise_ai_procuremen.Invoices.Service.{
  CreateInvoiceDto, match, submit, create, create_for, find_vendor,
}
use enterprise_ai_procuremen.Invoices.Agreement.{Agreement, find_discrepancies_iff, match_iff}
use enterprise_ai_procuremen.Invoices.Lifecycle.{
  matches, pays, approves, submits, perform, Outcome, invoice-Outcome,
}
use enterprise_ai_procuremen.Invoices.History.{
  Call, names, creates, run, closed_invoice_stays, foreign_calls_keep_invoice, AllSound,
  run-AllSound,
}
use enterprise_ai_procuremen.Invoices.Totals.{
  line_amounts, calculate_items_subtotal-exact, subtotal_valid_iff, submit_iff, MaySubmit,
}
use enterprise_ai_procuremen.Invoices.Creation.{
  IsBuilt, MayInvoice, IsInvoiceable, AreItemsOf, invoice_created,
}
use enterprise_ai_procuremen.Invoices.Effects.{create_total_valid}

-- the sample invoice after a match
abbrev matched_invoice : Invoice
matched_invoice = record submitted_invoice {
  status = InvoiceStatus.matched;
  matching_result = some (record {
    purchase_order_id = 10;
    goods_receipt_id = 20;
    match_status = MatchStatus.matched;
    matched_by_id = 70;
    discrepancies = none;
  });
}

sample_match : lookup 30 (match administrator 30 with_submitted).1.invoices ≡ some matched_invoice
unfolding match find_invoice update_invoice upsert_matching_result set_matched_status find_order
    find_receipt match_item match_items received_value find_discrepancies resolve_match_status
    run_three_way_match line_total num_eq num_add num_mul of_cents to_fixed2 nearest half_even scale
    match_line coarsen
sample_match = refl

match_iff_example :
    (matched_invoice.status ≡ InvoiceStatus.matched)
    ↔ Agreement submitted_invoice issued_order full_receipt
unfolding find_order find_receipt
match_iff_example =
    match_iff administrator 30 with_submitted submitted_invoice matched_invoice issued_order
      full_receipt refl refl refl refl refl refl sample_match

find_discrepancies_iff_example :
    (resolve_match_status (find_discrepancies invoice issued_order full_receipt)
      ≡ MatchStatus.matched)
    ↔ Agreement invoice issued_order full_receipt
find_discrepancies_iff_example = find_discrepancies_iff invoice issued_order full_receipt

invoice-Outcome_example :
    Outcome submitted_invoice (lookup 30 (perform administrator 30 matches with_submitted).invoices)
invoice-Outcome_example =
    invoice-Outcome administrator 30 with_submitted submitted_invoice refl (refl, tt) matches

abbrev dto : CreateInvoiceDto
dto = record {
  vendor_id = 2;
  purchase_order_id = 10;
  goods_receipt_id = 20;
  invoice_date = 560;
  due_date = 590;
  subtotal = of_cents 5000;
  tax_amount = of_cents 500;
  currency = none;
  payment_terms = none;
  notes = none;
  items =
      (record {
        purchase_order_item_id = 1;
        description = "Chair";
        quantity = 5;
        unit_price = of_cents 1000;
      })
      ∷ [];
}

abbrev calls : List Call
calls =
    creates surroundings administrator dto
    ∷ names administrator 99 (submits none)
    ∷ names administrator 30 matches
    ∷ names administrator 30 (approves none)
    ∷ names administrator 30 pays
    ∷ []

one_sound : AllSound with_submitted
one_sound k i e h = ground arith

run-AllSound_example : AllSound (run calls with_submitted)
run-AllSound_example = run-AllSound calls with_submitted (refl, tt) one_sound

abbrev paid_invoice : Invoice
paid_invoice = record matched_invoice { status = InvoiceStatus.paid }

abbrev with_paid : Database
with_paid = record delivered { invoices = (30, paid_invoice) ∷ [] }

closed_invoice_stays_example : lookup 30 (run calls with_paid).invoices ≡ some paid_invoice
closed_invoice_stays_example =
    closed_invoice_stays calls with_paid 30 paid_invoice (refl, tt) refl (inr refl)

abbrev foreign : List Call
foreign = names stranger 30 matches ∷ creates surroundings stranger dto ∷ []

seven-eight : ¬ (submitted_invoice.organisation_id ≡ stranger.organisation_id)
seven-eight e = ground arith

foreign_calls_keep_invoice_example :
    lookup 30 (run foreign with_submitted).invoices ≡ some submitted_invoice
foreign_calls_keep_invoice_example =
    foreign_calls_keep_invoice foreign with_submitted 30 submitted_invoice refl
      (seven-eight, (seven-eight, tt))

calculate_items_subtotal-exact_example :
    calculate_items_subtotal (invoice_item ∷ invoice_item ∷ [])
    ≡ total (line_amounts (invoice_item ∷ invoice_item ∷ []))
calculate_items_subtotal-exact_example =
    calculate_items_subtotal-exact (invoice_item ∷ invoice_item ∷ []) (ground arith) (ground arith)

declared_bound : to_fixed2 (of_cents 5000) ≡ 5000
unfolding to_fixed2 of_cents nearest half_even scale
declared_bound = refl

subtotal_valid_iff_example :
    (subtotal_valid (of_cents 5000) (calculate_items_subtotal (invoice_item ∷ [])) ≡ true)
    ↔ (to_fixed2 (of_cents 5000) ≡ total (line_amounts (invoice_item ∷ [])))
subtotal_valid_iff_example =
    subtotal_valid_iff (of_cents 5000) (invoice_item ∷ []) (ground arith) (ground arith)
      (ground (arith, declared_bound))

create_total_valid_example : (create surroundings administrator dto delivered).0 ≢ err total_message
create_total_valid_example = create_total_valid surroundings administrator dto delivered

submit_iff_example :
    let i' : Invoice = record invoice {
      status = InvoiceStatus.submitted;
      notes = or_keep none invoice.notes;
    } in
    ((submit administrator 30 none with_invoice
        ≡ (ok i', record with_invoice { invoices = insert 30 i' with_invoice.invoices }))
      × MaySubmit administrator vendor invoice)
    ⊎ ((is_err (submit administrator 30 none with_invoice).0 ≡ true)
        × ((submit administrator 30 none with_invoice).1 ≡ with_invoice)
        × ¬ MaySubmit administrator vendor invoice)
submit_iff_example = submit_iff administrator 30 none with_invoice invoice vendor refl refl

sample_create :
    create surroundings administrator dto delivered
    ≡ (ok invoice, record delivered { invoices = insert 99 invoice delivered.invoices })
unfolding create create_for find_vendor find_order find_receipt create_with_items
    build_invoice_items build_invoice_item calculate_items_subtotal subtotal_valid total_valid
    line_total num_eq num_add num_mul of_cents to_fixed2 nearest half_even scale sum coarsen
sample_create = refl

invoice_created_example :
    let after = record delivered { invoices = insert 99 invoice delivered.invoices } in
    MayInvoice administrator vendor
    × IsInvoiceable dto issued_order full_receipt
    × IsBuilt surroundings administrator dto issued_order delivered invoice after
    × AreItemsOf issued_order.items dto.items invoice.items
unfolding find_vendor find_order find_receipt
invoice_created_example =
    invoice_created surroundings administrator dto delivered _ invoice vendor issued_order
      full_receipt refl refl refl sample_create
