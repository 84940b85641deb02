-- ===== src/Receipts/Progress.antt =====
-- The status that a receipt gets from its quantities.
use enterprise_ai_procuremen.Prelude.{
  ◌≡◌, refl, true, false, ◌&&◌, List, [], ◌∷◌, arith, ◌==◌, leb, ltb, any, all,
}
use enterprise_ai_procuremen.Schema.{ReceiptItem}
use enterprise_ai_procuremen.Receipts.Service.{resolve_receipt_progress_status}

rejected_none_received :
    (items : List ReceiptItem)
    → all (λ i. leb i.quantity_ordered i.quantity_rejected && (i.quantity_received == 0)) items
      ≡ true
    → any (λ i. ltb 0 i.quantity_received) items ≡ false
rejected_none_received [] h = refl
rejected_none_received (i ∷ is) h = ground (arith, rejected_none_received is)

-- The flag `rejectionContext` never matters: receiving and rejecting resolve the same quantities to
-- the same status.
pub resolve_context :
    (items : List ReceiptItem)
    → resolve_receipt_progress_status items true ≡ resolve_receipt_progress_status items false
unfolding resolve_receipt_progress_status
resolve_context items = ground (arith, rejected_none_received items)
