-- ===== src/Approvals/Schema.antt =====
-- The rows of apps/api/prisma/schema.prisma for procurement requests and their approval.
use enterprise_ai_procuremen.Prelude.{ℕ, Option, List, String}
use enterprise_ai_procuremen.Results.{Enum, Action}
use enterprise_ai_procuremen.Store.{Table}
use enterprise_ai_procuremen.Schema.{Role, User}

pub data ProcurementStatus : Type 0 where
  draft submitted cancelled rejected approved : ProcurementStatus

instance abbrev pub procurement_status_enum : Enum ProcurementStatus
procurement_status_enum = record {
  index = elim [ draft ↦ 0 | submitted ↦ 1 | cancelled ↦ 2 | rejected ↦ 3 | approved ↦ 4 ];
}

pub data ApprovalStatus : Type 0 where
  pending approved rejected skipped : ApprovalStatus

instance abbrev pub approval_status_enum : Enum ApprovalStatus
approval_status_enum = record {
  index = elim [ pending ↦ 0 | approved ↦ 1 | rejected ↦ 2 | skipped ↦ 3 ];
}

pub data WorkflowStatus : Type 0 where
  in_progress approved rejected : WorkflowStatus

instance abbrev pub workflow_status_enum : Enum WorkflowStatus
workflow_status_enum = record { index = elim [ in_progress ↦ 0 | approved ↦ 1 | rejected ↦ 2 ] }

pub data ProcurementPriority : Type 0 where
  low medium high critical : ProcurementPriority

pub record ProcurementItem : Type 0 where
  pub id : ℕ
  pub description : String
  pub quantity : ℕ
  pub unit_price : ℕ
  pub total_price : ℕ

pub record ProcurementRequest : Type 0 where
  pub organisation_id : ℕ
  pub requester_id : ℕ
  pub title : String
  pub description : String
  pub justification : String
  pub department : String
  pub estimated_budget : ℕ
  pub currency : String
  pub priority : ProcurementPriority
  pub status : ProcurementStatus
  pub required_delivery_date : ℕ
  pub items : List ProcurementItem

-- The steps of a workflow have different levels, which name them here.
pub record ApprovalStep : Type 0 where
  pub level : ℕ
  pub approver_id : ℕ
  pub role : Role
  pub status : ApprovalStatus
  pub comments : Option String
  pub acted_at : Option ℕ

-- The steps are in the order of their levels, as the repository reads them.
pub record ApprovalWorkflow : Type 0 where
  pub procurement_request_id : ℕ
  pub current_level : ℕ
  pub status : WorkflowStatus
  pub steps : List ApprovalStep

-- the tables that the approval service uses
pub record Approvals : Type 0 where
  pub users : Table User
  pub requests : Table ProcurementRequest
  pub workflows : Table ApprovalWorkflow

abbrev pub M : Type 0 → Type 0
M A = Action Approvals A
