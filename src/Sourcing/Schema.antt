-- ===== src/Sourcing/Schema.antt =====
-- The rows of apps/api/prisma/schema.prisma for requests for quotation, bids, evaluations and awards.
-- A row does not repeat its primary key. A score with two decimal places is a number of hundredths.
use enterprise_ai_procuremen.Prelude.{ℕ, Option, List, String}
use enterprise_ai_procuremen.Results.{Enum, Action}
use enterprise_ai_procuremen.Store.{Table}
use enterprise_ai_procuremen.Decimals.{Double}
use enterprise_ai_procuremen.Schema.{BidStatus, DocumentNumber, Vendor}
use enterprise_ai_procuremen.Approvals.Schema.{Approvals}

pub data RfqStatus : Type 0 where
  draft published closed cancelled : RfqStatus

instance abbrev pub rfq_status_enum : Enum RfqStatus
rfq_status_enum = record { index = elim [ draft ↦ 0 | published ↦ 1 | closed ↦ 2 | cancelled ↦ 3 ] }

pub data VendorInvitationStatus : Type 0 where
  invited viewed responded declined : VendorInvitationStatus

-- a row of `RFQVendor`, which belongs to one request for quotation
pub record RfqVendor : Type 0 where
  pub vendor_id : ℕ
  pub invited_at : ℕ
  pub responded_at : Option ℕ
  pub status : VendorInvitationStatus

pub record Rfq : Type 0 where
  pub procurement_request_id : ℕ
  pub rfq_number : DocumentNumber
  pub title : String
  pub description : String
  pub closing_date : ℕ
  pub status : RfqStatus
  pub created_by_id : ℕ
  pub vendors : List RfqVendor

pub record BidItem : Type 0 where
  pub id : ℕ
  pub description : String
  pub quantity : ℕ
  pub unit_price : ℕ
  pub total_price : ℕ

pub record BidAttachment : Type 0 where
  pub file_name : String
  pub file_url : String
  pub file_type : String

pub record Bid : Type 0 where
  pub rfq_id : ℕ
  pub vendor_id : ℕ
  pub submitted_by_id : ℕ
  pub bid_number : DocumentNumber
  pub total_amount : ℕ
  pub currency : String
  pub delivery_period : Option String
  pub payment_terms : Option String
  pub warranty_period : Option String
  pub notes : Option String
  pub status : BidStatus
  pub submitted_at : Option ℕ
  pub items : List BidItem
  pub attachments : List BidAttachment

pub record EvaluationCriteria : Type 0 where
  pub organisation_id : ℕ
  pub name : String
  pub description : Option String
  pub weight : ℕ

pub record BidEvaluation : Type 0 where
  pub bid_id : ℕ
  pub evaluator_id : ℕ
  pub technical_score : Double
  pub commercial_score : Double
  pub compliance_score : Double
  pub delivery_score : Double
  pub total_score : ℕ
  pub comments : Option String

pub record Award : Type 0 where
  pub bid_id : ℕ
  pub procurement_request_id : ℕ
  pub awarded_by_id : ℕ
  pub award_reason : String
  pub awarded_at : ℕ

-- The tables that the sourcing services use; `approvals` holds the procurement requests.
pub record Sourcing : Type 0 where
  pub approvals : Approvals
  pub vendors : Table Vendor
  pub rfqs : Table Rfq
  pub bids : Table Bid
  pub criteria : List EvaluationCriteria
  pub evaluations : Table BidEvaluation
  pub awards : Table Award

abbrev pub M : Type 0 → Type 0
M A = Action Sourcing A
