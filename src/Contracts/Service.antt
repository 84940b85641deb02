-- ===== src/Contracts/Service.antt =====
-- apps/api/src/contracts/contracts.service.ts. `mapContract` is left out: a method returns the row.
-- The validation of a request admits values of at most two decimal places, which are numbers of cents
-- here.
use enterprise_ai_procuremen.Prelude.{
  ℕ, ◌+◌, Bool, true, false, ◌||◌, Option, none, some, [], String, leb,
}
use enterprise_ai_procuremen.Results.{
  err, Done, bad_request, forbidden, not_found, pure, gets, or_throw, throw_if, throw_unless, ◌>>=◌,
  ◌>>◌, ◌===◌, or_else, or_keep,
}
use enterprise_ai_procuremen.Schema.{
  Role, procurement_manager, finance, admin, BidStatus, bid_status_enum, PurchaseOrderStatus,
  DocumentNumber,
}
use enterprise_ai_procuremen.Database.{Caller, Surroundings}
use enterprise_ai_procuremen.Orders.Repository.{find_award, find_order}
use enterprise_ai_procuremen.Contracts.Schema.{
  Contract, ContractStatus, ContractDocument, ChangeSummary, contract_status_enum, M,
}
use enterprise_ai_procuremen.Contracts.Dto.{
  CreateContractDto, UpdateContractDto, RenewContractDto, UploadContractDocumentDto,
}
use enterprise_ai_procuremen.Contracts.Repository.{
  find_contract, create_contract, update_contract, delete_contract, activate_contract,
  terminate_contract, renew_contract, expire_contract, insert_document, create_version,
  get_next_version_number, count_contracts,
}

-- CONTRACT_MANAGE_ROLES
abbrev pub contract_manage_roles : Role → Bool
contract_manage_roles admin = true
contract_manage_roles procurement_manager = true
contract_manage_roles finance = true
contract_manage_roles _ = false

-- ELIGIBLE_PO_STATUSES
abbrev pub is_contractable : PurchaseOrderStatus → Bool
is_contractable PurchaseOrderStatus.draft = false
is_contractable PurchaseOrderStatus.cancelled = false
is_contractable _ = true

-- EDITABLE_STATUSES, READ_ONLY_STATUSES
abbrev pub is_editable : ContractStatus → Bool
is_editable s = (s === ContractStatus.draft) || (s === ContractStatus.under_review)

abbrev pub is_closed : ContractStatus → Bool
is_closed s = (s === ContractStatus.expired) || (s === ContractStatus.terminated)

-- Its `value` is not read by `create`, and is left out.
pub record ContractSource : Type 0 where
  pub vendor_id : ℕ
  pub procurement_request_id : ℕ
  pub award_id : Option ℕ
  pub purchase_order_id : Option ℕ
  pub currency : String

unfoldable pub assert_can_manage : Role → M Done
assert_can_manage role =
    throw_unless (contract_manage_roles role)
      (forbidden "Insufficient permissions to manage contracts")

unfoldable pub get_contract_or_throw : ℕ → ℕ → M Contract
get_contract_or_throw org id = do
  or_throw (← gets (find_contract id org)) (not_found "Contract not found")

unfoldable pub resolve_award_source : ℕ → ℕ → M ContractSource
resolve_award_source award_id org = do
  award ← or_throw (← gets λ s. find_award award_id org s.database) (not_found "Award not found")
  throw_unless (award.bid.status === BidStatus.awarded)
      (bad_request "Contracts can only be created from awarded bids")
  pure (record {
    vendor_id = award.bid.vendor_id;
    procurement_request_id = award.procurement_request_id;
    award_id = some award_id;
    purchase_order_id = none;
    currency = award.bid.currency;
  })

unfoldable pub resolve_purchase_order_source : ℕ → ℕ → M ContractSource
resolve_purchase_order_source order_id org = do
  order ←
      or_throw (← gets λ s. find_order order_id org s.database)
        (not_found "Purchase order not found")
  throw_unless (is_contractable order.status)
      (bad_request "Contracts can only be created from approved purchase orders")
  pure (record {
    vendor_id = order.vendor_id;
    procurement_request_id = order.procurement_request_id;
    award_id = some order.award_id;
    purchase_order_id = some order_id;
    currency = order.currency;
  })

-- the tests and the branch of `create` on the two keys of the request
unfoldable pub resolve_source : Option ℕ → Option ℕ → ℕ → M ContractSource
unfolding resolve_award_source resolve_purchase_order_source
resolve_source none none org s =
    (err (bad_request "Contract must be created from an award or purchase order"), s)
resolve_source (some _) (some _) org s =
    (err (bad_request "Provide either awardId or purchaseOrderId, not both"), s)
resolve_source (some award) none org s = resolve_award_source award org s
resolve_source none (some order) org s = resolve_purchase_order_source order org s

unfoldable pub generate_contract_number : ℕ → ℕ → M DocumentNumber
generate_contract_number year org =
    gets λ s. record { year = year; sequence = count_contracts org s + 1 }

unfoldable pub record_version : ℕ → ℕ → ChangeSummary → M Done
record_version id user summary = do
  version ← gets (get_next_version_number id)
  create_version id (record { version = version; change_summary = summary; created_by_id = user })

abbrev pub new_contract : Caller → CreateContractDto → ContractSource → DocumentNumber → Contract
new_contract caller dto source number = record {
  contract_number = number;
  organisation_id = caller.organisation_id;
  vendor_id = source.vendor_id;
  procurement_request_id = source.procurement_request_id;
  purchase_order_id = source.purchase_order_id;
  award_id = source.award_id;
  title = dto.title;
  description = dto.description;
  contract_type = dto.contract_type;
  start_date = dto.start_date;
  end_date = dto.end_date;
  value = dto.value;
  currency = or_else dto.currency source.currency;
  renewal_type = dto.renewal_type;
  renewal_date = dto.renewal_date;
  auto_renew = or_else dto.auto_renew false;
  status = ContractStatus.draft;
  signed_by_organisation = dto.signed_by_organisation;
  signed_by_vendor = dto.signed_by_vendor;
  created_by_id = caller.user_id;
  versions = [];
  documents = [];
}

unfoldable pub create : Surroundings → Caller → CreateContractDto → M Contract
create env caller dto = do
  assert_can_manage caller.role
  source ← resolve_source dto.award_id dto.purchase_order_id caller.organisation_id
  throw_if (leb dto.end_date dto.start_date) (bad_request "End date must be after start date")
  number ← generate_contract_number env.year caller.organisation_id
  create_contract env.new_id (new_contract caller dto source number)
  create_version env.new_id (record {
    version = 1;
    change_summary = ChangeSummary.created;
    created_by_id = caller.user_id;
  })
  get_contract_or_throw caller.organisation_id env.new_id

unfoldable pub assert_editable : Contract → M Done
assert_editable c = do
  throw_if (is_closed c.status) (bad_request "Expired or terminated contracts cannot be edited")
  throw_if (c.status === ContractStatus.terminated)
      (bad_request "Terminated contracts cannot be reactivated")
  throw_unless (is_editable c.status)
      (bad_request "Only draft or under-review contracts can be edited")

abbrev pub edited : UpdateContractDto → ℕ → ℕ → Contract → Contract
edited dto start_date end_date c = record c {
  title = or_else dto.title c.title;
  description = or_else dto.description c.description;
  contract_type = or_else dto.contract_type c.contract_type;
  start_date = start_date;
  end_date = end_date;
  value = or_else dto.value c.value;
  renewal_type = or_keep dto.renewal_type c.renewal_type;
  renewal_date = or_keep dto.renewal_date c.renewal_date;
  auto_renew = or_else dto.auto_renew c.auto_renew;
  signed_by_organisation = or_keep dto.signed_by_organisation c.signed_by_organisation;
  signed_by_vendor = or_keep dto.signed_by_vendor c.signed_by_vendor;
}

abbrev pub update_summary : Option String → ChangeSummary
update_summary none = ChangeSummary.updated
update_summary (some text) = ChangeSummary.given text

-- A date that the request leaves out is the stored one, in the test and in what is written.
unfoldable pub update : Caller → ℕ → UpdateContractDto → M Contract
update caller id dto = do
  assert_can_manage caller.role
  contract ← get_contract_or_throw caller.organisation_id id
  assert_editable contract
  let start_date = or_else dto.start_date contract.start_date
  let end_date = or_else dto.end_date contract.end_date
  throw_if (leb end_date start_date) (bad_request "End date must be after start date")
  update_contract id (edited dto start_date end_date)
  record_version id caller.user_id (update_summary dto.change_summary)
  get_contract_or_throw caller.organisation_id id

unfoldable pub delete : Caller → ℕ → M Done
delete caller id = do
  assert_can_manage caller.role
  contract ← get_contract_or_throw caller.organisation_id id
  throw_unless (contract.status === ContractStatus.draft)
      (bad_request "Only draft contracts can be deleted")
  delete_contract id

unfoldable pub activate : Caller → ℕ → M Contract
activate caller id = do
  assert_can_manage caller.role
  contract ← get_contract_or_throw caller.organisation_id id
  throw_unless (is_editable contract.status)
      (bad_request "Only draft or under-review contracts can be activated")
  activated ← activate_contract id
  record_version id caller.user_id ChangeSummary.activated
  pure activated

abbrev pub renewed_terms : RenewContractDto → Contract → Contract
renewed_terms dto c = record c {
  start_date = dto.start_date;
  end_date = dto.end_date;
  value = or_else dto.value c.value;
  renewal_date = or_keep dto.renewal_date c.renewal_date;
}

unfoldable pub renew : Caller → ℕ → RenewContractDto → M Contract
renew caller id dto = do
  assert_can_manage caller.role
  contract ← get_contract_or_throw caller.organisation_id id
  throw_unless (contract.status === ContractStatus.active)
      (bad_request "Only active contracts can be renewed")
  throw_if (leb dto.end_date dto.start_date) (bad_request "End date must be after start date")
  record_version id caller.user_id (ChangeSummary.period_ended dto.change_summary)
  renewed ← renew_contract id (renewed_terms dto)
  record_version id caller.user_id ChangeSummary.new_period
  pure renewed

unfoldable pub terminate : Caller → ℕ → String → M Contract
terminate caller id reason = do
  assert_can_manage caller.role
  contract ← get_contract_or_throw caller.organisation_id id
  throw_if (contract.status === ContractStatus.terminated)
      (bad_request "Contract is already terminated")
  throw_if (contract.status === ContractStatus.expired)
      (bad_request "Expired contracts cannot be terminated")
  terminated ← terminate_contract id
  record_version id caller.user_id (ChangeSummary.contract_terminated reason)
  pure terminated

unfoldable pub expire : Caller → ℕ → M Contract
expire caller id = do
  assert_can_manage caller.role
  contract ← get_contract_or_throw caller.organisation_id id
  throw_unless (contract.status === ContractStatus.active)
      (bad_request "Only active contracts can be expired")
  expired ← expire_contract id
  record_version id caller.user_id ChangeSummary.marked_expired
  pure expired

abbrev pub new_document : Caller → UploadContractDocumentDto → ContractDocument
new_document caller dto = record {
  file_name = dto.file_name;
  file_url = dto.file_url;
  mime_type = dto.mime_type;
  uploaded_by_id = caller.user_id;
}

unfoldable pub upload_document : Caller → ℕ → UploadContractDocumentDto → M Contract
upload_document caller id dto = do
  assert_can_manage caller.role
  contract ← get_contract_or_throw caller.organisation_id id
  throw_if (is_closed contract.status)
      (bad_request "Documents cannot be uploaded to expired or terminated contracts")
  insert_document id (new_document caller dto)
  record_version id caller.user_id (ChangeSummary.document_uploaded dto.file_name)
  get_contract_or_throw caller.organisation_id id
