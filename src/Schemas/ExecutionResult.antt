-- ===== src/Schemas/ExecutionResult.antt =====
-- schemas/execution_result.py and daily_rationale.py: the outcome of routing a ticket, and the prose of
-- a day, which nothing reads.
use hermes_personal_options.Common.{
  ℕ, Bool, true, false, not, ◌&&◌, Option, List, String, ltb, leb, ◌==◌, str_eq, is_absent,
}
use hermes_personal_options.Decimal.{Decimal}
use hermes_personal_options.Time.{AwareDateTime}
use hermes_personal_options.Schemas.Enums.{OrderType}
use hermes_personal_options.Schemas.BrokerSubmission.{not_before}

pub data ExecutionStatus : Type 0 where
  filled partial rejected cancelled working : ExecutionStatus

abbrev is_filled_status : ExecutionStatus → Bool
is_filled_status filled = true
is_filled_status _ = false

pub record ExecutionResult : Type 0 where
  pub broker_order_id : String
  pub status : ExecutionStatus
  pub order_type : OrderType
  pub filled_contracts : ℕ
  pub requested_contracts : ℕ
  pub avg_fill_price : Option Decimal
  pub submitted_at : AwareDateTime
  pub completed_at : Option AwareDateTime

unfoldable pub fully_filled : ExecutionResult → Bool
fully_filled r = is_filled_status r.status && r.filled_contracts == r.requested_contracts

-- The bounds of the fields, and `_coherent`.
unfoldable pub execution_result_valid : ExecutionResult → Bool
execution_result_valid r =
    not (str_eq r.broker_order_id "")
    && ltb 0 r.requested_contracts
    && leb r.filled_contracts r.requested_contracts
    && not (is_filled_status r.status && is_absent r.avg_fill_price)
    && not_before r.completed_at r.submitted_at

pub record DailyRationale : Type 0 where
  pub date : AwareDateTime
  pub summary : String
  pub referenced_audit_artifact_ids : List String

unfoldable pub daily_rationale_valid : DailyRationale → Bool
daily_rationale_valid d = not (str_eq d.summary "")
