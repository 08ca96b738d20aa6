-- ===== src/Schemas/BrokerSubmission.antt =====
-- schemas/broker_submission.py and schemas/execution_report.py: the envelope of one submission and
-- the report of its outcome. `ticket_digest` is the SHA-256 of a ticket's JSON, in hex.
use hermes_personal_options.Common.{
  ℕ, ◌*◌, Bool, true, not, ◌&&◌, ◌||◌, Option, none, some, List, String, ltb, leb, ◌==◌, str_eq,
  is_empty, is_absent,
}
use Prim.Native.String.{◌++◌ as append}
use Prim.Native.String.{count as text_length}
use hermes_personal_options.Common.Int.{pos, ltb_ℤ}
use hermes_personal_options.Common.Text.{show_ℕ}
use hermes_personal_options.Decimal.{Decimal}
use hermes_personal_options.Time.{AwareDateTime, elapsed_us, before, us_per_second}
use hermes_personal_options.Schemas.Enums.{
  OrderType, OrderLifecycleState, SubmitMode, ReasonCode, is_limit, is_market, is_ticketed,
  is_filled,
}
use hermes_personal_options.Schemas.OrderTicket.{OrderTicket, market_orders_allowed}

abbrev pub ticket_max_age_seconds : ℕ
ticket_max_age_seconds = 300

pub record BrokerOrderId : Type 0 where
  pub value : String
  pub broker_name : String

unfoldable pub broker_order_id_valid : BrokerOrderId → Bool
broker_order_id_valid i = not (str_eq i.value "") && not (str_eq i.broker_name "")

pub record BrokerSubmitIntent : Type 0 where
  pub ticket : OrderTicket
  pub order_ticket_hash : String
  pub idempotency_key : String
  pub attempt_counter : ℕ
  pub submit_mode : SubmitMode
  pub submitted_at : AwareDateTime
  pub limit_price : Option Decimal

-- The age in seconds is a quotient of floats, and the next microsecond after 300 s is a float
-- above 300: the comparisons are those of the microseconds.
unfoldable pub from_future : AwareDateTime → AwareDateTime → Bool
from_future created_at now = ltb_ℤ (elapsed_us created_at now) (pos 0)

unfoldable pub is_stale : AwareDateTime → AwareDateTime → Bool
is_stale created_at now =
    ltb_ℤ (pos (ticket_max_age_seconds * us_per_second)) (elapsed_us created_at now)

-- f"{order_ticket_hash}:{attempt_counter}"
abbrev pub key_of : String → ℕ → String
key_of order_ticket_hash attempt_counter =
    append order_ticket_hash (append ":" (show_ℕ attempt_counter))

module _ (ticket_digest : OrderTicket → String) where
  -- The bounds of the fields, and `_coherent`.
  unfoldable pub submit_intent_valid : BrokerSubmitIntent → Bool
  submit_intent_valid i =
      text_length i.order_ticket_hash == 64
      && not (str_eq i.idempotency_key "")
      && leb 1 i.attempt_counter
      && str_eq i.order_ticket_hash (ticket_digest i.ticket)
      && not (from_future i.ticket.created_at i.submitted_at)
      && not (is_stale i.ticket.created_at i.submitted_at)
      && str_eq i.idempotency_key (key_of i.order_ticket_hash i.attempt_counter)
      && is_ticketed i.ticket.status
      && not (is_empty i.ticket.legs)
      && not (is_limit i.ticket.order_type && is_absent i.limit_price)
      && not (is_market i.ticket.order_type && not (is_absent i.limit_price))
      && not (is_market i.ticket.order_type && not (market_orders_allowed i.ticket.policy))

pub record BrokerOrderEnvelope : Type 0 where
  pub intent : BrokerSubmitIntent
  pub broker_order_id : BrokerOrderId
  pub lifecycle_state : OrderLifecycleState
  pub envelope_at : AwareDateTime

pub record RejectedSubmission : Type 0 where
  pub intent : BrokerSubmitIntent
  pub reason_codes : List ReasonCode
  pub rejected_at : AwareDateTime
  pub detail : String

-- `_requires_reason`
unfoldable pub rejected_submission_valid : RejectedSubmission → Bool
rejected_submission_valid r = not (is_empty r.reason_codes)

pub record ExecutionReport : Type 0 where
  pub order_ticket_hash : String
  pub idempotency_key : String
  pub broker_order_id : String
  pub lifecycle_state : OrderLifecycleState
  pub order_type : OrderType
  pub filled_contracts : ℕ
  pub requested_contracts : ℕ
  pub avg_fill_price : Option Decimal
  pub fill_timestamp : Option AwareDateTime
  pub submitted_at : AwareDateTime
  pub completed_at : Option AwareDateTime

-- The optional time does not lie before the submission.
abbrev pub not_before : Option AwareDateTime → AwareDateTime → Bool
not_before none submitted_at = true
not_before (some t) submitted_at = not (before t submitted_at)

-- A full fill has every contract, a price and a time.
abbrev pub fill_complete :
    OrderLifecycleState → ℕ → ℕ → Option Decimal → Option AwareDateTime → Bool
fill_complete state filled requested price timestamp =
    not (is_filled state)
    || (filled == requested && (not (is_absent price) && not (is_absent timestamp)))

unfoldable pub execution_report_valid : ExecutionReport → Bool
execution_report_valid r =
    text_length r.order_ticket_hash == 64
    && not (str_eq r.idempotency_key "")
    && not (str_eq r.broker_order_id "")
    && ltb 0 r.requested_contracts
    && leb r.filled_contracts r.requested_contracts
    && fill_complete r.lifecycle_state r.filled_contracts r.requested_contracts r.avg_fill_price
        r.fill_timestamp
    && not_before r.completed_at r.submitted_at
    && not_before r.fill_timestamp r.submitted_at
