-- ===== src/Invoices/Updates.antt =====
-- What `update` of apps/api/src/invoices/invoices.service.ts writes.
use enterprise_ai_procuremen.Prelude.{
  ℕ, ◌≡◌, Option, none, some, List, arith, refl, inl, inr, Option-cases, subst, sym, ◌⊎◌,
}
use enterprise_ai_procuremen.Results.{Result, answer-cases, ◌>>=◌}
use enterprise_ai_procuremen.Decimals.{num_add, of_cents, to_fixed2}
use enterprise_ai_procuremen.Store.{lookup, insert}
use enterprise_ai_procuremen.Schema.{Invoice, InvoiceItem, InvoiceStatus}
use enterprise_ai_procuremen.Database.{Database, Caller}
use enterprise_ai_procuremen.Orders.Repository.{find_order, related_vendor}
use enterprise_ai_procuremen.Invoices.Repository.{find_invoice, update_invoice, replace_items}
use enterprise_ai_procuremen.Invoices.Amounts.{CreateInvoiceItemDto, assert_amounts_valid}
use enterprise_ai_procuremen.Invoices.Service.{
  UpdateInvoiceDto, update, updated_items, update_draft, update_amounts, write_update, edited,
  new_tax, new_subtotal,
}

-- the row that an update writes
pub rewritten : UpdateInvoiceDto → Option (List InvoiceItem) → ℕ → ℕ → ℕ → Invoice → Invoice
rewritten dto none tax subtotal total i = record (edited dto tax i) {
  subtotal = elim dto.subtotal [ none ↦ i.subtotal | some _ ↦ subtotal ];
  total_amount = total;
}
rewritten dto (some items) tax subtotal total i = record (edited dto tax i) {
  subtotal = subtotal;
  total_amount = total;
  items = items;
}

-- the fields that an update leaves
abbrev pub SameRow : Invoice → Invoice → Type 0
SameRow i i' =
    (i'.status ≡ i.status)
    × (i'.organisation_id ≡ i.organisation_id)
    × (i'.invoice_number ≡ i.invoice_number)
    × (i'.matching_result ≡ i.matching_result)

pub rewritten-SameRow :
    (dto : UpdateInvoiceDto) (items : Option (List InvoiceItem)) (tax subtotal total : ℕ)
    (i : Invoice)
    → SameRow i (rewritten dto items tax subtotal total i)
unfolding rewritten
rewritten-SameRow dto none tax subtotal total i = (refl, refl, refl, refl)
rewritten-SameRow dto (some items) tax subtotal total i = (refl, refl, refl, refl)

write_update_lem :
    (id : ℕ) (dto : UpdateInvoiceDto) (items : Option (List InvoiceItem)) (tax subtotal total : ℕ)
    (db : Database) (i : Invoice)
    → lookup id db.invoices ≡ some i
    → (write_update id dto items tax subtotal total db).1
      ≡ record db { invoices = insert id (rewritten dto items tax subtotal total i) db.invoices }
unfolding rewritten update_invoice replace_items
write_update_lem id dto none tax subtotal total db i e =
    rw (e, write_update, replace_items, update_invoice) refl
write_update_lem id dto (some items) tax subtotal total db i e =
    rw (e, write_update, replace_items, update_invoice) refl

-- With the items built, an update writes nothing or the row.
update_amounts_cases :
    (id : ℕ) (dto : UpdateInvoiceDto) (i : Invoice) (items : Option (List InvoiceItem))
    (db : Database)
    → lookup id db.invoices ≡ some i
    → let tax = new_tax i dto.tax_amount in
      let subtotal = new_subtotal i items in
      let total = to_fixed2 (num_add (of_cents tax) (of_cents subtotal)) in
      ((update_amounts id dto i items db).1 ≡ db)
      ⊎ ((update_amounts id dto i items db).1 ≡ record db {
        invoices = insert id (rewritten dto items tax subtotal total i) db.invoices;
      })
unfolding update_amounts assert_amounts_valid
update_amounts_cases id dto i items db e =
    let tax = new_tax i dto.tax_amount in
    let subtotal = new_subtotal i items in
    let total = to_fixed2 (num_add (of_cents tax) (of_cents subtotal)) in
    ground (arith, write_update_lem id dto items tax subtotal total db i e)

updated_items-keeps :
    (org : ℕ) (i : Invoice) (dtos : Option (List CreateInvoiceItemDto)) (db : Database)
    → (updated_items org i dtos db).1 ≡ db
unfolding updated_items find_order
updated_items-keeps org i none db = refl
updated_items-keeps org i (some dtos) db = ground arith

update_guarded :
    (caller : Caller) (id : ℕ) (dto : UpdateInvoiceDto) (db : Database) (i : Invoice)
    → lookup id db.invoices ≡ some i
    → ((update caller id dto db).1 ≡ db)
      ⊎ ((i.organisation_id ≡ caller.organisation_id)
          × (i.status ≡ InvoiceStatus.draft)
          × (update caller id dto db ≡ update_draft caller.organisation_id id dto i db))
unfolding update find_invoice related_vendor
update_guarded caller id dto db i e = ground arith

update_missing :
    (caller : Caller) (id : ℕ) (dto : UpdateInvoiceDto) (db : Database)
    → lookup id db.invoices ≡ none
    → (update caller id dto db).1 ≡ db
unfolding update find_invoice
update_missing caller id dto db e = ground arith

module _ (caller : Caller) (id : ℕ) (dto : UpdateInvoiceDto) (db : Database) (P : Database → Type 0)
    (p : P db)
    (h : (i : Invoice) (items : Option (List InvoiceItem)) (tax subtotal total : ℕ)
      → lookup id db.invoices ≡ some i
      → i.organisation_id ≡ caller.organisation_id
      → i.status ≡ InvoiceStatus.draft
      → P (record db {
        invoices = insert id (rewritten dto items tax subtotal total i) db.invoices;
      })) where
  amounts_elim :
      (i : Invoice) (items : Option (List InvoiceItem))
      → lookup id db.invoices ≡ some i
      → i.organisation_id ≡ caller.organisation_id
      → i.status ≡ InvoiceStatus.draft
      → P (update_amounts id dto i items db).1
  amounts_elim i items e own draft = elim (update_amounts_cases id dto i items db e) [
    | inl same ↦ subst P (sym same) p
    | inr written ↦ subst P (sym written) (h i items _ _ _ e own draft)
  ]

  draft_elim :
      (i : Invoice)
      → lookup id db.invoices ≡ some i
      → i.organisation_id ≡ caller.organisation_id
      → i.status ≡ InvoiceStatus.draft
      → P (update_draft caller.organisation_id id dto i db).1
  unfolding update_draft
  draft_elim i e own draft =
      let org = caller.organisation_id in
      let after : Result (Option (List InvoiceItem)) × Database → Type 0 =
        λ q. P (((λ _. q) >>= λ items. update_amounts id dto i items) db).1 in
      elim (answer-cases (updated_items org i dto.items db)
        (updated_items-keeps org i dto.items db)) [
          | inl (items, k) ↦ subst after (sym k) (amounts_elim i items e own draft)
          | inr (f, k) ↦ subst after (sym k) p
        ]

  -- An update writes nothing, or it writes the row of a draft of the caller's organisation.
  pub update_elim : P (update caller id dto db).1
  update_elim = elim (Option-cases (lookup id db.invoices)) [
    | inl n ↦ subst P (sym (update_missing caller id dto db n)) p
    | inr (i, e) ↦ elim (update_guarded caller id dto db i e) [
      | inl same ↦ subst P (sym same) p
      | inr (own, draft, same) ↦ rw same (draft_elim i e own draft)
    ]
  ]
