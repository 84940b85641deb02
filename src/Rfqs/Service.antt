-- ===== src/Rfqs/Service.antt =====
-- apps/api/src/rfqs/rfqs.service.ts. `mapRfq` is left out: a method returns the row.
use enterprise_ai_procuremen.Prelude.{
  ℕ, ◌+◌, Bool, false, ◌||◌, Option, none, some, [], String, is_empty, leb, ◌==◌,
}
use enterprise_ai_procuremen.Results.{
  Done, bad_request, forbidden, not_found, conflict, pure, gets, or_throw, throw_if, throw_unless,
  ◌>>=◌, ◌>>◌, ◌===◌, or_else, is_some,
}
use enterprise_ai_procuremen.Schema.{DocumentNumber, procurement_manager, role_enum}
use enterprise_ai_procuremen.Database.{Surroundings, Caller}
use enterprise_ai_procuremen.Approvals.Schema.{ProcurementStatus, procurement_status_enum}
use enterprise_ai_procuremen.Approvals.Repository.{find_request}
use enterprise_ai_procuremen.Sourcing.Schema.{Rfq, RfqStatus, published, rfq_status_enum, M}
use enterprise_ai_procuremen.Sourcing.Lookup.{find_rfq, find_vendor}
use enterprise_ai_procuremen.Rfqs.Repository.{
  create_rfq, update_rfq, delete_rfq, publish_rfq, close_rfq, cancel_rfq, insert_invitation,
  find_vendor_invitation, count_rfqs,
}

pub record CreateRfqDto : Type 0 where
  pub procurement_request_id : ℕ
  pub title : String
  pub description : String
  pub closing_date : ℕ

-- `key_count` is the number of own keys of the object that the validation pipe hands over.
pub record UpdateRfqDto : Type 0 where
  pub title : Option String
  pub description : Option String
  pub closing_date : Option ℕ
  pub key_count : ℕ

unfoldable pub get_rfq_or_throw : ℕ → ℕ → M Rfq
get_rfq_or_throw org id = do or_throw (← gets (find_rfq id org)) (not_found "RFQ not found")

unfoldable pub generate_rfq_number : ℕ → ℕ → M DocumentNumber
generate_rfq_number year org = gets λ s. record { year = year; sequence = count_rfqs org s + 1 }

abbrev pub new_rfq : ℕ → CreateRfqDto → DocumentNumber → Rfq
new_rfq creator dto number = record {
  procurement_request_id = dto.procurement_request_id;
  rfq_number = number;
  title = dto.title;
  description = dto.description;
  closing_date = dto.closing_date;
  status = RfqStatus.draft;
  created_by_id = creator;
  vendors = [];
}

unfoldable pub create : Surroundings → ℕ → ℕ → CreateRfqDto → M Rfq
unfolding generate_rfq_number
create env org creator dto = do
  request ←
      or_throw (← gets λ s. find_request dto.procurement_request_id org s.approvals)
        (not_found "Procurement request not found")
  throw_unless (request.status === ProcurementStatus.approved)
      (bad_request "RFQs can only be created for approved procurement requests")
  throw_if (leb dto.closing_date env.now) (bad_request "Closing date must be in the future")
  number ← generate_rfq_number env.year org
  create_rfq env.new_id (new_rfq creator dto number)

unfoldable pub assert_editable : Rfq → M Done
assert_editable q = do
  throw_if (q.status === RfqStatus.closed) (bad_request "Closed RFQs cannot be edited")
  throw_if (q.status === RfqStatus.cancelled) (bad_request "Cancelled RFQs cannot be edited")

abbrev pub published_message : String
published_message = "Published RFQs can only have their closing date updated"

unfoldable pub build_published_update : UpdateRfqDto → M UpdateRfqDto
build_published_update dto = do
  throw_if (is_some dto.title || is_some dto.description) (bad_request published_message)
  throw_unless (is_some dto.closing_date) (bad_request published_message)
  pure (record { title = none; description = none; closing_date = dto.closing_date; key_count = 1 })

-- the value of `updateData`
unfoldable pub update_data : RfqStatus → UpdateRfqDto → M UpdateRfqDto
unfolding build_published_update
update_data published dto = build_published_update dto
update_data _ dto = pure dto

abbrev pub in_past : ℕ → Option ℕ → Bool
in_past now none = false
in_past now (some date) = leb date now

abbrev pub edited : UpdateRfqDto → Rfq → Rfq
edited dto q = record q {
  title = or_else dto.title q.title;
  description = or_else dto.description q.description;
  closing_date = or_else dto.closing_date q.closing_date;
}

unfoldable pub update : Surroundings → ℕ → ℕ → UpdateRfqDto → M Rfq
unfolding get_rfq_or_throw assert_editable
update env org id dto = do
  rfq ← get_rfq_or_throw org id
  assert_editable rfq
  data' ← update_data rfq.status dto
  throw_if (data'.key_count == 0) (bad_request "No valid fields provided for update")
  throw_if (in_past env.now data'.closing_date) (bad_request "Closing date must be in the future")
  update_rfq id (edited data')

unfoldable pub delete_draft : ℕ → ℕ → M Done
unfolding get_rfq_or_throw
delete_draft org id = do
  rfq ← get_rfq_or_throw org id
  throw_unless (rfq.status === RfqStatus.draft) (bad_request "Only draft RFQs can be deleted")
  delete_rfq id

unfoldable pub publish : ℕ → ℕ → M Rfq
unfolding get_rfq_or_throw
publish org id = do
  rfq ← get_rfq_or_throw org id
  throw_unless (rfq.status === RfqStatus.draft) (bad_request "Only draft RFQs can be published")
  throw_if (is_empty rfq.vendors)
      (bad_request "Cannot publish an RFQ without at least one invited vendor")
  publish_rfq id

unfoldable pub close : ℕ → ℕ → M Rfq
unfolding get_rfq_or_throw
close org id = do
  rfq ← get_rfq_or_throw org id
  throw_unless (rfq.status === RfqStatus.published)
      (bad_request "Only published RFQs can be closed")
  close_rfq id

unfoldable pub cancel : ℕ → ℕ → M Rfq
unfolding get_rfq_or_throw
cancel org id = do
  rfq ← get_rfq_or_throw org id
  throw_if (rfq.status === RfqStatus.closed) (bad_request "Closed RFQs cannot be cancelled")
  throw_if (rfq.status === RfqStatus.cancelled) (bad_request "RFQ is already cancelled")
  cancel_rfq id

unfoldable pub invite_vendor : Surroundings → Caller → ℕ → ℕ → M Rfq
unfolding get_rfq_or_throw
invite_vendor env caller id vendor_id = do
  throw_unless (caller.role === procurement_manager)
      (forbidden "Only procurement managers can invite vendors to an RFQ")
  rfq ← get_rfq_or_throw caller.organisation_id id
  throw_unless (rfq.status === RfqStatus.draft)
      (bad_request "Vendors can only be invited to draft RFQs")
  or_throw (← gets (find_vendor vendor_id caller.organisation_id)) (not_found "Vendor not found")
  existing ← gets (find_vendor_invitation id vendor_id)
  throw_if existing (conflict "Vendor has already been invited to this RFQ")
  insert_invitation id vendor_id env.now
  get_rfq_or_throw caller.organisation_id id
