-- ===== src/Contracts/Schema.antt =====
-- The rows of apps/api/prisma/schema.prisma for contracts.
use enterprise_ai_procuremen.Prelude.{ℕ, Bool, Option, List, String}
use enterprise_ai_procuremen.Results.{Enum, Action}
use enterprise_ai_procuremen.Store.{Table}
use enterprise_ai_procuremen.Schema.{DocumentNumber}
use enterprise_ai_procuremen.Database.{Database}

pub data ContractStatus : Type 0 where
  draft under_review active expired terminated renewed : ContractStatus

instance abbrev pub contract_status_enum : Enum ContractStatus
contract_status_enum = record {
  index = elim [
    | draft ↦ 0
    | under_review ↦ 1
    | active ↦ 2
    | expired ↦ 3
    | terminated ↦ 4
    | renewed ↦ 5
  ];
}

pub data ContractType : Type 0 where
  goods services consulting software framework : ContractType

-- The text of a version, by its kind and the text from the request; dates are left out of it.
pub data ChangeSummary : Type 0 where
  created updated activated marked_expired new_period : ChangeSummary
  given period_ended contract_terminated document_uploaded : String → ChangeSummary

pub record ContractVersion : Type 0 where
  pub version : ℕ
  pub change_summary : ChangeSummary
  pub created_by_id : ℕ

pub record ContractDocument : Type 0 where
  pub file_name : String
  pub file_url : String
  pub mime_type : String
  pub uploaded_by_id : ℕ

pub record Contract : Type 0 where
  pub contract_number : DocumentNumber
  pub organisation_id : ℕ
  pub vendor_id : ℕ
  pub procurement_request_id : ℕ
  pub purchase_order_id : Option ℕ
  pub award_id : Option ℕ
  pub title : String
  pub description : String
  pub contract_type : ContractType
  pub start_date : ℕ
  pub end_date : ℕ
  pub value : ℕ
  pub currency : String
  pub renewal_type : Option String
  pub renewal_date : Option ℕ
  pub auto_renew : Bool
  pub status : ContractStatus
  pub signed_by_organisation : Option String
  pub signed_by_vendor : Option String
  pub created_by_id : ℕ
  pub versions : List ContractVersion
  pub documents : List ContractDocument

-- The tables that the contract service uses; it reads awards and orders.
pub record Contracting : Type 0 where
  pub database : Database
  pub contracts : Table Contract

abbrev pub M : Type 0 → Type 0
M A = Action Contracting A
