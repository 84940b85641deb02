-- ===== src/Invoices/Repository.antt =====
-- apps/api/src/invoices/invoice.repository.ts.
use enterprise_ai_procuremen.Prelude.{ℕ, Option, none, some, List, String, ◌==◌}
use enterprise_ai_procuremen.Results.{
  ok, err, Done, record_not_found, unique_violation, pure, gets, throw_if, modify, is_some, ◌>>=◌,
  ◌>>◌, or_keep,
}
use enterprise_ai_procuremen.Store.{lookup, insert, erase, any_row, count_rows}
use enterprise_ai_procuremen.Schema.{
  Invoice, InvoiceItem, InvoiceStatus, MatchingResult, MatchStatus, Discrepancy,
}
use enterprise_ai_procuremen.Database.{Database, M}
use enterprise_ai_procuremen.Orders.Repository.{of_organisation, same_number}

unfoldable pub find_invoice : ℕ → ℕ → Database → Option Invoice
find_invoice id org db = of_organisation (λ i. i.organisation_id) org (lookup id db.invoices)

-- `invoiceNumber` is a unique column of the whole table. The primary key that the database
-- client makes is refused if a row has it.
unfoldable pub create_with_items : ℕ → Invoice → M Invoice
create_with_items id invoice = do
  used ← gets λ db. is_some (lookup id db.invoices)
  throw_if used unique_violation
  taken ← gets λ db. any_row (λ i. same_number i.invoice_number invoice.invoice_number) db.invoices
  throw_if taken unique_violation
  modify λ db. record db { invoices = insert id invoice db.invoices }
  pure invoice

unfoldable pub update_invoice : ℕ → (Invoice → Invoice) → M Invoice
update_invoice id change db = elim (lookup id db.invoices) [
  | none ↦ (err record_not_found, db)
  | some i ↦ (ok (change i), record db { invoices = insert id (change i) db.invoices })
]

unfoldable pub delete_invoice : ℕ → M Done
delete_invoice id db = elim (lookup id db.invoices) [
  | none ↦ (err record_not_found, db)
  | some _ ↦ (ok tt, record db { invoices = erase id db.invoices })
]

-- The items are deleted and written anew in one transaction.
unfoldable pub replace_items : ℕ → (Invoice → Invoice) → List InvoiceItem → ℕ → ℕ → M Invoice
unfolding update_invoice
replace_items id change items subtotal total_amount =
    update_invoice id
      λ i. record (change i) { subtotal = subtotal; total_amount = total_amount; items = items }

unfoldable pub submit_invoice : ℕ → Option String → M Invoice
unfolding update_invoice
submit_invoice id notes =
    update_invoice id
      λ i. record i { status = InvoiceStatus.submitted; notes = or_keep notes i.notes }

unfoldable pub approve_invoice : ℕ → Option String → M Invoice
unfolding update_invoice
approve_invoice id notes =
    update_invoice id
      λ i. record i { status = InvoiceStatus.approved; notes = or_keep notes i.notes }

unfoldable pub reject_invoice : ℕ → String → M Invoice
unfolding update_invoice
reject_invoice id reason =
    update_invoice id λ i. record i { status = InvoiceStatus.rejected; notes = some reason }

unfoldable pub mark_invoice_paid : ℕ → M Invoice
unfolding update_invoice
mark_invoice_paid id = update_invoice id λ i. record i { status = InvoiceStatus.paid }

-- A result that is there already keeps the order and the receipt that it names.
abbrev pub upserted :
    ℕ → ℕ → ℕ → MatchStatus → Option (List Discrepancy) → Option MatchingResult → MatchingResult
upserted order_id receipt_id user_id status discrepancies none = record {
  purchase_order_id = order_id;
  goods_receipt_id = receipt_id;
  match_status = status;
  matched_by_id = user_id;
  discrepancies = discrepancies;
}
upserted order_id receipt_id user_id status discrepancies (some old) = record old {
  match_status = status;
  matched_by_id = user_id;
  discrepancies = discrepancies;
}

unfoldable pub upsert_matching_result :
    ℕ → ℕ → ℕ → ℕ → MatchStatus → Option (List Discrepancy) → M Invoice
unfolding update_invoice
upsert_matching_result id order_id receipt_id user_id status discrepancies = update_invoice id λ i.
    record i {
      matching_result =
          some (upserted order_id receipt_id user_id status discrepancies i.matching_result);
    }

unfoldable pub set_matched_status : ℕ → M Invoice
unfolding update_invoice
set_matched_status id = update_invoice id λ i. record i { status = InvoiceStatus.matched }

abbrev pub count_by_organisation : ℕ → Database → ℕ
count_by_organisation org db = count_rows (λ i. i.organisation_id == org) db.invoices
