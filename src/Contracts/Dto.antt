-- ===== src/Contracts/Dto.antt =====
-- apps/api/src/contracts/dto: the bodies of the requests.
use enterprise_ai_procuremen.Prelude.{ℕ, Bool, Option, String}
use enterprise_ai_procuremen.Contracts.Schema.{ContractType}

pub record CreateContractDto : Type 0 where
  pub award_id : Option ℕ
  pub purchase_order_id : Option ℕ
  pub title : String
  pub description : String
  pub contract_type : ContractType
  pub start_date : ℕ
  pub end_date : ℕ
  pub value : ℕ
  pub currency : Option String
  pub renewal_type : Option String
  pub renewal_date : Option ℕ
  pub auto_renew : Option Bool
  pub signed_by_organisation : Option String
  pub signed_by_vendor : Option String

pub record UpdateContractDto : Type 0 where
  pub title : Option String
  pub description : Option String
  pub contract_type : Option ContractType
  pub start_date : Option ℕ
  pub end_date : Option ℕ
  pub value : Option ℕ
  pub renewal_type : Option String
  pub renewal_date : Option ℕ
  pub auto_renew : Option Bool
  pub signed_by_organisation : Option String
  pub signed_by_vendor : Option String
  pub change_summary : Option String

pub record RenewContractDto : Type 0 where
  pub start_date : ℕ
  pub end_date : ℕ
  pub value : Option ℕ
  pub renewal_date : Option ℕ
  pub change_summary : String

pub record UploadContractDocumentDto : Type 0 where
  pub file_name : String
  pub file_url : String
  pub mime_type : String
