-- ===== src/Invoices/Writes.antt =====
-- The writes of the requests: which rows they can touch.
use enterprise_ai_procuremen.Prelude.{
  ℕ, ◌≡◌, ◌≢◌, ◌⊎◌, inl, inr, Option, none, some, String, arith, ◌==◌, ==_iff, Bool-cases,
  Option-cases, refl,
}
use enterprise_ai_procuremen.Store.{
  Table, lookup, insert, erase, lookup-insert_self, lookup-insert_ne, lookup-erase_ne, IsKeyed,
  insert-IsKeyed, erase-IsKeyed,
}
use enterprise_ai_procuremen.Schema.{Invoice}
use enterprise_ai_procuremen.Database.{Database, Caller}
use enterprise_ai_procuremen.Orders.Repository.{related_vendor}
use enterprise_ai_procuremen.Invoices.Repository.{
  find_invoice, update_invoice, delete_invoice, submit_invoice, approve_invoice, reject_invoice,
  mark_invoice_paid,
}
use enterprise_ai_procuremen.Invoices.Updates.{update_elim}
use enterprise_ai_procuremen.Invoices.Matches.{match_elim, recorded}
use enterprise_ai_procuremen.Invoices.Service.{delete, submit, approve, reject, mark_paid}
use enterprise_ai_procuremen.Invoices.Lifecycle.{
  Request, updates, deletes, matches, pays, submits, approves, rejects, perform,
}

module _ (caller : Caller) (id : ℕ) (db : Database) where
  delete_writes :
      ((delete caller id db).1 ≡ db) ⊎ ((delete caller id db).1 ≡ (delete_invoice id db).1)
  unfolding delete find_invoice related_vendor
  delete_writes = ground arith

  submit_writes :
      (notes : Option String)
      → ((submit caller id notes db).1 ≡ db)
        ⊎ ((submit caller id notes db).1 ≡ (submit_invoice id notes db).1)
  unfolding submit find_invoice related_vendor
  submit_writes notes = ground arith

  approve_writes :
      (notes : Option String)
      → ((approve caller id notes db).1 ≡ db)
        ⊎ ((approve caller id notes db).1 ≡ (approve_invoice id notes db).1)
  unfolding approve find_invoice
  approve_writes notes = ground arith

  reject_writes :
      (reason : String)
      → ((reject caller id reason db).1 ≡ db)
        ⊎ ((reject caller id reason db).1 ≡ (reject_invoice id reason db).1)
  unfolding reject find_invoice
  reject_writes reason = ground arith

  pay_writes :
      ((mark_paid caller id db).1 ≡ db) ⊎ ((mark_paid caller id db).1 ≡ (mark_invoice_paid id db).1)
  unfolding mark_paid find_invoice
  pay_writes = ground arith

abbrev with_invoices : Database → Table Invoice → Database
with_invoices db t = record db { invoices = t }

module _ (caller : Caller) (id : ℕ) (db : Database) (P : Table Invoice → Type 0) (p : P db.invoices)
    (write : (t : Table Invoice) (i i' : Invoice) → lookup id t ≡ some i → P t → P (insert id i' t))
    (remove : (i : Invoice) → lookup id db.invoices ≡ some i → P (erase id db.invoices)) where
  abbrev Holds : Database → Type 0
  Holds after = P after.invoices

  update_invoice_elim : (change : Invoice → Invoice) → Holds (update_invoice id change db).1
  unfolding update_invoice
  update_invoice_elim change = elim (Option-cases (lookup id db.invoices)) [
    | inl n ↦ rw (n, update_invoice) p
    | inr (i, e) ↦ rw (e, update_invoice) (write db.invoices i (change i) e p)
  ]

  delete_invoice_elim : Holds (delete_invoice id db).1
  unfolding delete_invoice
  delete_invoice_elim = elim (Option-cases (lookup id db.invoices)) [
    | inl n ↦ rw (n, delete_invoice) p
    | inr (i, e) ↦ rw (e, delete_invoice) (remove i e)
  ]

  either_elim :
      {after other : Database} → ((after ≡ db) ⊎ (after ≡ other)) → Holds other → Holds after
  either_elim (inl e) h = rw e p
  either_elim (inr e) h = rw e h

  -- What holds of the table, and is kept by writes to a row that is there and by its removal, holds
  -- after a request.
  perform_elim : (r : Request) → Holds (perform caller id r db)
  unfolding perform submit_invoice approve_invoice reject_invoice mark_invoice_paid
  perform_elim (updates dto) =
      update_elim caller id dto db Holds p
        λ j items tax subtotal total found own draft. write db.invoices j _ found p
  perform_elim deletes = either_elim (delete_writes caller id db) delete_invoice_elim
  perform_elim (submits notes) =
      either_elim (submit_writes caller id db notes) (update_invoice_elim _)
  perform_elim matches = match_elim caller id db Holds p λ j r found own submitted. (
    write db.invoices j _ found p,
    λ matched.
        write (recorded id j r db).invoices _ _ (lookup-insert_self id _ db.invoices)
          (write db.invoices j _ found p),
  )
  perform_elim (approves notes) =
      either_elim (approve_writes caller id db notes) (update_invoice_elim _)
  perform_elim (rejects reason) =
      either_elim (reject_writes caller id db reason) (update_invoice_elim _)
  perform_elim pays = either_elim (pay_writes caller id db) (update_invoice_elim _)

pub perform-IsKeyed :
    (caller : Caller) (id : ℕ) (r : Request) (db : Database)
    → IsKeyed db.invoices
    → IsKeyed (perform caller id r db).invoices
perform-IsKeyed caller id r db h =
    perform_elim caller id db IsKeyed h (λ t i i' e k. insert-IsKeyed id i' t k)
      (λ i e. erase-IsKeyed id db.invoices h) r

-- No request makes an invoice where there is none.
pub perform_absent :
    (caller : Caller) (id k : ℕ) (r : Request) (db : Database)
    → lookup k db.invoices ≡ none
    → lookup k (perform caller id r db).invoices ≡ none
perform_absent caller id k r db n =
    perform_elim caller id db (λ t. lookup k t ≡ none) n
      (λ t i i' e h. ground (arith, lookup-insert_ne k id i' t))
      (λ i e. ground (arith, lookup-erase_ne k id db.invoices)) r

other_frame :
    (caller : Caller) (id k : ℕ) (r : Request) (db : Database) (i : Invoice)
    → lookup k db.invoices ≡ some i
    → k ≢ id
    → lookup k (perform caller id r db).invoices ≡ some i
other_frame caller id k r db i e ne =
    perform_elim caller id db (λ t. lookup k t ≡ some i) e
      (λ t j j' f h. ground (arith, lookup-insert_ne k id j' t))
      (λ j f. ground (arith, lookup-erase_ne k id db.invoices)) r

module _ (caller : Caller) (id : ℕ) (db : Database) (i : Invoice)
    (e : lookup id db.invoices ≡ some i) (ne : i.organisation_id ≢ caller.organisation_id) where
  foreign_row :
      (j : Invoice) → lookup id db.invoices ≡ some j → j.organisation_id ≢ caller.organisation_id
  foreign_row j f = ground arith

  -- A request on an invoice of another organisation writes nothing.
  perform_foreign : (r : Request) → perform caller id r db ≡ db
  unfolding perform delete submit approve reject mark_paid find_invoice
  perform_foreign (updates dto) =
      update_elim caller id dto db (λ after. after ≡ db) refl
        λ j items tax subtotal total found own draft. absurd (foreign_row j found own)
  perform_foreign deletes = ground arith
  perform_foreign (submits notes) = ground arith
  perform_foreign matches =
      match_elim caller id db (λ after. after ≡ db) refl
        λ j r found own submitted. absurd (foreign_row j found own)
  perform_foreign (approves notes) = ground arith
  perform_foreign (rejects reason) = ground arith
  perform_foreign pays = ground arith

-- A request changes no other invoice, and none of another organisation.
pub perform_frame :
    (caller : Caller) (id k : ℕ) (r : Request) (db : Database) (i : Invoice)
    → lookup k db.invoices ≡ some i
    → (k ≢ id) ⊎ (i.organisation_id ≢ caller.organisation_id)
    → lookup k (perform caller id r db).invoices ≡ some i
perform_frame caller id k r db i e (inl other) = other_frame caller id k r db i e other
perform_frame caller id k r db i e (inr foreign) = elim (Bool-cases (k == id)) [
  | inl same ↦ rw (perform_foreign caller id db i (rw (← (==_iff k id).0 same) e) foreign r) e
  | inr other ↦ other_frame caller id k r db i e (ground arith)
]
