-- ===== src/Invoices/Lifecycle.antt =====
-- The life of an invoice under the requests of the service.
use enterprise_ai_procuremen.Prelude.{
  ℕ, ◌≡◌, ◌⊎◌, Bool, true, false, Option, none, some, String, arith,
}
use enterprise_ai_procuremen.Store.{lookup, lookup-insert_self, lookup-erase_self, IsKeyed}
use enterprise_ai_procuremen.Schema.{Invoice, InvoiceStatus}
use enterprise_ai_procuremen.Database.{Database, Caller}
use enterprise_ai_procuremen.Invoices.Repository.{find_invoice, delete_invoice}
use enterprise_ai_procuremen.Orders.Repository.{related_vendor}
use enterprise_ai_procuremen.Invoices.Updates.{update_elim, rewritten-SameRow}
use enterprise_ai_procuremen.Invoices.Matches.{match_elim}
use enterprise_ai_procuremen.Invoices.Service.{
  UpdateInvoiceDto, update, delete, submit, match, approve, reject, mark_paid, has_matched,
}

-- the requests that change an invoice, with their data
pub data Request : Type 0 where
  updates : UpdateInvoiceDto → Request
  deletes matches pays : Request
  submits approves : Option String → Request
  rejects : String → Request

-- the database after a request on the invoice `id`, whether it succeeds or not
unfoldable pub perform : Caller → ℕ → Request → Database → Database
perform caller id (updates dto) db = (update caller id dto db).1
perform caller id deletes db = (delete caller id db).1
perform caller id (submits notes) db = (submit caller id notes db).1
perform caller id matches db = (match caller id db).1
perform caller id (approves notes) db = (approve caller id notes db).1
perform caller id (rejects reason) db = (reject caller id reason db).1
perform caller id pays db = (mark_paid caller id db).1

-- the status changes that the requests may make
abbrev pub may_become : InvoiceStatus → InvoiceStatus → Bool
may_become InvoiceStatus.draft InvoiceStatus.draft = true
may_become InvoiceStatus.draft InvoiceStatus.submitted = true
may_become InvoiceStatus.submitted InvoiceStatus.submitted = true
may_become InvoiceStatus.submitted InvoiceStatus.matched = true
may_become InvoiceStatus.submitted InvoiceStatus.rejected = true
may_become InvoiceStatus.matched InvoiceStatus.rejected = true
may_become InvoiceStatus.matched InvoiceStatus.approved = true
may_become InvoiceStatus.approved InvoiceStatus.paid = true
may_become _ _ = false

-- the statuses that follow a successful match
abbrev pub is_past_matching : InvoiceStatus → Bool
is_past_matching InvoiceStatus.matched = true
is_past_matching InvoiceStatus.approved = true
is_past_matching InvoiceStatus.paid = true
is_past_matching _ = false

-- An invoice past matching has a matching result that says so.
abbrev pub IsSound : Invoice → Type 0
IsSound i = is_past_matching i.status ≡ true → has_matched i.matching_result ≡ true

-- the amounts and the items are those they were
abbrev pub SameAmounts : Invoice → Invoice → Type 0
SameAmounts i i' =
    (i'.items ≡ i.items)
    × (i'.subtotal ≡ i.subtotal)
    × (i'.tax_amount ≡ i.tax_amount)
    × (i'.total_amount ≡ i.total_amount)

-- what a request may have made of an invoice
abbrev pub Outcome : Invoice → Option Invoice → Type 0
Outcome i none = i.status ≡ InvoiceStatus.draft
Outcome i (some i') =
    (i' ≡ i)
    ⊎ ((may_become i.status i'.status ≡ true)
        × ((i.status ≡ InvoiceStatus.draft) ⊎ SameAmounts i i')
        × (i'.organisation_id ≡ i.organisation_id)
        × (i'.invoice_number ≡ i.invoice_number)
        × (IsSound i → IsSound i'))

module _ (caller : Caller) (id : ℕ) (db : Database) (i : Invoice)
    (e : lookup id db.invoices ≡ some i) (keyed : IsKeyed db.invoices) where
  -- What a request makes of the invoice that it names: nothing, the removal of a draft, or one of the
  -- allowed status changes. Only a draft changes its amounts, organisation and number stay, and the
  -- invoice is past matching only with a result that matched.
  pub invoice-Outcome : (r : Request) → Outcome i (lookup id (perform caller id r db).invoices)
  unfolding perform update delete submit approve reject mark_paid find_invoice related_vendor
      delete_invoice
  invoice-Outcome (updates dto) =
      update_elim caller id dto db (λ after. Outcome i (lookup id after.invoices)) (ground arith)
        λ j items tax subtotal total found own draft.
          grind (arith, lookup-insert_self, rewritten-SameRow dto items tax subtotal total j)
  invoice-Outcome deletes = ground (arith, lookup-erase_self id db.invoices keyed)
  invoice-Outcome (submits notes) = grind (arith, lookup-insert_self)
  invoice-Outcome matches =
      match_elim caller id db (λ after. Outcome i (lookup id after.invoices)) (ground arith)
        λ j r found own submitted.
          (grind (arith, lookup-insert_self), λ matched. grind (arith, lookup-insert_self))
  invoice-Outcome (approves notes) = grind (arith, lookup-insert_self)
  invoice-Outcome (rejects reason) = grind (arith, lookup-insert_self)
  invoice-Outcome pays = grind (arith, lookup-insert_self)
