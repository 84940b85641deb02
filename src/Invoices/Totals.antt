-- ===== src/Invoices/Totals.antt =====
-- The amounts of invoices: what `create` writes, and what `submit` accepts.
use native.Mathlib.Nat.{add_comm, mul_comm}
use enterprise_ai_procuremen.Prelude.{
  ℕ, ◌*◌, ◌^◌, ◌≤◌, ◌<◌, ◌≡◌, ◌⊎◌, ◌↔◌, refl, ap, true, Option, some, String, List, [], ◌∷◌, map,
  arith, ==_iff, length,
}
use enterprise_ai_procuremen.Results.{ok, or_keep, is_err}
use enterprise_ai_procuremen.Store.{lookup, insert}
use enterprise_ai_procuremen.Decimals.{Double, of_cents, to_fixed2, num_eq, num_add, sum}
use enterprise_ai_procuremen.Decimals.Accuracy.{total, to_fixed2-sum}
use enterprise_ai_procuremen.Decimals.Injective.{of_cents_iff}
use enterprise_ai_procuremen.Schema.{
  admin, finance, user, Invoice, InvoiceItem, InvoiceStatus, Vendor,
}
use enterprise_ai_procuremen.Schema.Emails.{same_email}
use enterprise_ai_procuremen.Database.{Database, Caller}
use enterprise_ai_procuremen.Orders.Repository.{related_vendor}
use enterprise_ai_procuremen.Invoices.Repository.{find_invoice, update_invoice}
use enterprise_ai_procuremen.Invoices.Amounts.{
  item_totals, calculate_items_subtotal, subtotal_valid, total_valid, items_sum_valid,
  stored_total_valid,
}
use enterprise_ai_procuremen.Invoices.Service.{submit, can_view_invoice}

-- the amounts of the lines
abbrev pub line_amounts : List InvoiceItem → List ℕ
line_amounts items = map (λ i. i.total_price) items

pub item_totals-line_amounts :
    (items : List InvoiceItem) → item_totals items ≡ map of_cents (line_amounts items)
item_totals-line_amounts [] = refl
item_totals-line_amounts (i ∷ is) = ap (◌∷◌ (of_cents i.total_price)) (item_totals-line_amounts is)

-- The subtotal of up to 2000 lines with a total below 2 ^ 40 cents is their exact sum.
pub calculate_items_subtotal-exact :
    (items : List InvoiceItem)
    → length (line_amounts items) ≤ 2000
    → total (line_amounts items) < 2 ^ 40
    → calculate_items_subtotal items ≡ total (line_amounts items)
unfolding calculate_items_subtotal
calculate_items_subtotal-exact items l h =
    rw (item_totals-line_amounts items) (to_fixed2-sum (line_amounts items) l h)

num_add_comm : (a b : Double) → num_add a b ≡ num_add b a
unfolding num_add
num_add_comm a b = rw (mul_comm a.den b.den, add_comm (a.mant * b.den) (b.mant * a.den)) refl

-- The check of the total passes for the total that `create` computes.
pub total_valid-computed :
    (tax : Double) (calculated : ℕ)
    → total_valid tax calculated (to_fixed2 (num_add tax (of_cents calculated))) ≡ true
unfolding total_valid num_eq
total_valid-computed tax calculated =
    rw (num_add_comm tax (of_cents calculated)) ((==_iff _ _).1 refl)

-- For up to 2000 lines with a total below 2 ^ 40 cents, the check of a declared subtotal below 2 ^ 40
-- cents accepts exactly the sum of the lines.
pub subtotal_valid_iff :
    (declared : Double) (items : List InvoiceItem)
    → length (line_amounts items) ≤ 2000
    → total (line_amounts items) < 2 ^ 40
    → to_fixed2 declared < 2 ^ 40
    → (subtotal_valid declared (calculate_items_subtotal items) ≡ true)
      ↔ (to_fixed2 declared ≡ total (line_amounts items))
unfolding subtotal_valid
subtotal_valid_iff declared items l h d =
    rw (calculate_items_subtotal-exact items l h)
      (of_cents_iff (to_fixed2 declared) (total (line_amounts items)) d h)

-- one of the roles that manage invoices, which also sees every invoice or has the vendor's address
abbrev pub MaySubmit : Caller → Vendor → Invoice → Type 0
MaySubmit caller vendor i =
    ((caller.role ≡ admin)
      ⊎ (caller.role ≡ finance)
      ⊎ ((caller.role ≡ user) × (same_email caller.email vendor.email ≡ true)))
    × (i.organisation_id ≡ caller.organisation_id)
    × (i.status ≡ InvoiceStatus.draft)
    × (num_eq (of_cents i.subtotal) (sum (map of_cents (line_amounts i.items))) ≡ true)
    × (num_eq (of_cents i.total_amount) (
          of_cents (
            to_fixed2
              (num_add (sum (map of_cents (line_amounts i.items))) (of_cents i.tax_amount))))
        ≡ true)

-- Submitting an invoice succeeds, and writes the status and the notes, exactly for a draft of the
-- caller's organisation, by the administrator, finance, or a user with the vendor's address, where the
-- subtotal is the sum of the lines in doubles and the total is that sum with the tax, rounded.
-- Otherwise the answer is a failure and nothing is written.
pub submit_iff :
    (caller : Caller) (id : ℕ) (notes : Option String) (db : Database) (i : Invoice)
    (vendor : Vendor)
    → lookup id db.invoices ≡ some i
    → lookup i.vendor_id db.vendors ≡ some vendor
    → let i' : Invoice = record i {
      status = InvoiceStatus.submitted;
      notes = or_keep notes i.notes;
    } in
      ((submit caller id notes db ≡ (ok i', record db { invoices = insert id i' db.invoices }))
        × MaySubmit caller vendor i)
      ⊎ ((is_err (submit caller id notes db).0 ≡ true)
          × ((submit caller id notes db).1 ≡ db)
          × ¬ MaySubmit caller vendor i)
unfolding submit find_invoice related_vendor update_invoice items_sum_valid stored_total_valid
    can_view_invoice
submit_iff caller id notes db i vendor e ev = ground (arith, item_totals-line_amounts i.items)
