-- ===== src/Invoices/Matches.antt =====
-- What `runThreeWayMatch` of apps/api/src/invoices/invoices.service.ts writes.
use enterprise_ai_procuremen.Prelude.{
  ℕ, ◌≡◌, Option, none, some, arith, refl, inl, inr, Option-cases, subst, sym, ◌⊎◌, List, [], ◌∷◌,
}
use enterprise_ai_procuremen.Store.{lookup, insert, lookup-insert_self}
use enterprise_ai_procuremen.Schema.{
  Invoice, InvoiceStatus, MatchStatus, MatchingResult, match_status_enum, PurchaseOrder,
  GoodsReceipt, Discrepancy,
}
use enterprise_ai_procuremen.Database.{Database, Caller}
use enterprise_ai_procuremen.Orders.Repository.{find_order}
use enterprise_ai_procuremen.Receipts.Repository.{find_receipt}
use enterprise_ai_procuremen.Invoices.Repository.{
  find_invoice, update_invoice, upsert_matching_result, set_matched_status, upserted,
}
use enterprise_ai_procuremen.Invoices.Matching.{
  run_three_way_match, find_discrepancies, resolve_match_status, or_null,
}
use enterprise_ai_procuremen.Invoices.Service.{match}

-- the database with a matching result recorded, and with the status written after that
abbrev pub recorded : ℕ → Invoice → MatchingResult → Database → Database
recorded id i r db = record db {
  invoices = insert id (record i { matching_result = some r }) db.invoices;
}

abbrev pub marked : ℕ → Invoice → MatchingResult → Database → Database
marked id i r db = record db {
  invoices =
      insert id (record i { matching_result = some r; status = InvoiceStatus.matched })
        (recorded id i r db).invoices;
}

module _ (id : ℕ) (i : Invoice) (org user_id : ℕ) (db : Database)
    (e : lookup id db.invoices ≡ some i) where
  run_without_order :
      find_order i.purchase_order_id org db ≡ none
      → (run_three_way_match id i org user_id db).1
        ≡ recorded id i
            (upserted i.purchase_order_id i.goods_receipt_id user_id MatchStatus.missing_po
              (some (Discrepancy.order_missing ∷ []))
              i.matching_result)
            db
  unfolding run_three_way_match upsert_matching_result update_invoice
  run_without_order n = ground arith

  run_without_receipt :
      (order : PurchaseOrder)
      → find_order i.purchase_order_id org db ≡ some order
      → find_receipt i.goods_receipt_id org db ≡ none
      → (run_three_way_match id i org user_id db).1
        ≡ recorded id i
            (upserted i.purchase_order_id i.goods_receipt_id user_id MatchStatus.missing_grn
              (some (Discrepancy.receipt_missing ∷ []))
              i.matching_result)
            db
  unfolding run_three_way_match upsert_matching_result update_invoice
  run_without_receipt order eo n = ground arith

upserted-status :
    (a b c : ℕ) (s : MatchStatus) (ds : Option (List Discrepancy)) (old : Option MatchingResult)
    → (upserted a b c s ds old).match_status ≡ s
upserted-status a b c s ds none = refl
upserted-status a b c s ds (some r) = refl

run_lem :
    (id : ℕ) (i : Invoice) (org user_id : ℕ) (db : Database) (order : PurchaseOrder)
    (receipt : GoodsReceipt)
    → lookup id db.invoices ≡ some i
    → find_order i.purchase_order_id org db ≡ some order
    → find_receipt i.goods_receipt_id org db ≡ some receipt
    → let f = find_discrepancies i order receipt in
      let status = resolve_match_status f in
      let r =
        upserted i.purchase_order_id i.goods_receipt_id user_id status
          (or_null f.discrepancies)
          i.matching_result in
      ((status ≡ MatchStatus.matched)
        × ((run_three_way_match id i org user_id db).1 ≡ marked id i r db))
      ⊎ ((run_three_way_match id i org user_id db).1 ≡ recorded id i r db)
unfolding run_three_way_match set_matched_status upsert_matching_result find_invoice update_invoice
run_lem id i org user_id db order receipt e eo er =
    let f = find_discrepancies i order receipt in
    let r =
      upserted i.purchase_order_id i.goods_receipt_id user_id (resolve_match_status f)
        (or_null f.discrepancies) i.matching_result in
    ground (arith, lookup-insert_self id (record i { matching_result = some r }) db.invoices)

module _ (id : ℕ) (i : Invoice) (org user_id : ℕ) (db : Database) (P : Database → Type 0)
    (e : lookup id db.invoices ≡ some i) (h : (r : MatchingResult) → P (recorded id i r db))
    (k : (r : MatchingResult) → r.match_status ≡ MatchStatus.matched → P (marked id i r db)) where
  found_elim :
      (order : PurchaseOrder) (receipt : GoodsReceipt)
      → find_order i.purchase_order_id org db ≡ some order
      → find_receipt i.goods_receipt_id org db ≡ some receipt
      → P (run_three_way_match id i org user_id db).1
  found_elim order receipt eo er = elim (run_lem id i org user_id db order receipt e eo er) [
    | inl (matched, m) ↦
        subst P (sym m) (k _ (rw (upserted-status _ _ _ _ _ i.matching_result) matched))
    | inr same ↦ subst P (sym same) (h _)
  ]

  -- A run of the match records a result, and it marks the invoice only if the result is a match.
  pub run_elim : P (run_three_way_match id i org user_id db).1
  run_elim = elim (Option-cases (find_order i.purchase_order_id org db)) [
    | inl n ↦ subst P (sym (run_without_order id i org user_id db e n)) (h _)
    | inr (order, eo) ↦ elim (Option-cases (find_receipt i.goods_receipt_id org db)) [
      | inl n ↦ subst P (sym (run_without_receipt id i org user_id db e order eo n)) (h _)
      | inr (receipt, er) ↦ found_elim order receipt eo er
    ]
  ]

match_guarded :
    (caller : Caller) (id : ℕ) (db : Database) (i : Invoice)
    → lookup id db.invoices ≡ some i
    → ((match caller id db).1 ≡ db)
      ⊎ ((i.organisation_id ≡ caller.organisation_id)
          × (i.status ≡ InvoiceStatus.submitted)
          × (match caller id db
              ≡ run_three_way_match id i caller.organisation_id caller.user_id db))
unfolding match find_invoice
match_guarded caller id db i e = ground arith

match_missing :
    (caller : Caller) (id : ℕ) (db : Database)
    → lookup id db.invoices ≡ none
    → (match caller id db).1 ≡ db
unfolding match find_invoice
match_missing caller id db e = ground arith

-- Matching writes nothing, or it records a result for a submitted invoice of the caller's
-- organisation, and it marks the invoice only if the result is a match.
pub match_elim :
    (caller : Caller) (id : ℕ) (db : Database) (P : Database → Type 0)
    → P db
    → ((i : Invoice) (r : MatchingResult)
        → lookup id db.invoices ≡ some i
        → i.organisation_id ≡ caller.organisation_id
        → i.status ≡ InvoiceStatus.submitted
        → P (recorded id i r db) × (r.match_status ≡ MatchStatus.matched → P (marked id i r db)))
    → P (match caller id db).1
match_elim caller id db P p h = elim (Option-cases (lookup id db.invoices)) [
  | inl n ↦ subst P (sym (match_missing caller id db n)) p
  | inr (i, e) ↦ elim (match_guarded caller id db i e) [
    | inl same ↦ subst P (sym same) p
    | inr (own, submitted, same) ↦ rw same (
        run_elim id i caller.organisation_id caller.user_id db P e (λ r. (h i r e own submitted).0)
          (λ r matched. (h i r e own submitted).1 matched))
  ]
]
