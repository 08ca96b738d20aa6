-- ===== src/Gateway/BrokerSubmission.antt =====
-- gateway/broker_submission.py: the only path from a ticket to a submission, and from a submission
-- to its report. `ticket_digest` is the SHA-256 of a ticket's JSON.
pub mod Minting
pub mod Key
use hermes_personal_options.Common.{
  ℕ, Bool, true, false, not, ◌&&◌, Option, none, some, List, String, Result, ok, err, ◌>>=◌, ◌>>◌,
  raise_if, ltb, is_absent,
}
use hermes_personal_options.Decimal.{Decimal}
use hermes_personal_options.Time.{DateTime, naive, aware, AwareDateTime}
use hermes_personal_options.Schemas.Enums.{
  SubmitMode, OrderLifecycleState, is_ticketed, is_limit, is_market,
}
use hermes_personal_options.Schemas.Model.{ModelError, construct}
use hermes_personal_options.Schemas.OrderTicket.{OrderTicket}
use hermes_personal_options.Schemas.BrokerSubmission.{
  BrokerSubmitIntent, submit_intent_valid, from_future, is_stale, key_of, BrokerOrderId,
  ExecutionReport, execution_report_valid,
}

-- What minting a submission can raise.
pub data SubmitError : Type 0 where
  not_ticketed naive_as_of future_ticket stale_ticket bad_attempt_counter missing_limit_price
        limit_price_on_market invalid_intent :
      SubmitError

abbrev pub intent_result :
    Result ModelError BrokerSubmitIntent → Result SubmitError BrokerSubmitIntent
intent_result (ok i) = ok i
intent_result (err e) = err invalid_intent

-- `as_of`, or the reading of the clock; a naive time is refused.
abbrev pub reference_time : Option DateTime → AwareDateTime → Result SubmitError AwareDateTime
reference_time none clock = ok clock
reference_time (some (aware t)) clock = ok t
reference_time (some (naive t)) clock = err naive_as_of

module _ (ticket_digest : OrderTicket → String) where
  abbrev pub submit_intent_of :
      OrderTicket → ℕ → SubmitMode → Option Decimal → AwareDateTime → BrokerSubmitIntent
  submit_intent_of t attempt_counter mode limit_price now = record {
    ticket = t;
    order_ticket_hash = ticket_digest t;
    idempotency_key = key_of (ticket_digest t) attempt_counter;
    attempt_counter = attempt_counter;
    submit_mode = mode;
    submitted_at = now;
    limit_price = limit_price;
  }

  -- A counter below 0 is refused as 0 is. A ticket's time of creation is aware by its type.
  unfoldable pub mint_broker_submit_intent :
      OrderTicket
      → ℕ
      → SubmitMode
      → Option Decimal
      → Option DateTime
      → AwareDateTime
      → Result SubmitError BrokerSubmitIntent
  mint_broker_submit_intent t attempt_counter mode limit_price as_of clock = do
    raise_if (not (is_ticketed t.status)) not_ticketed
    now ← reference_time as_of clock
    raise_if (from_future t.created_at now) future_ticket
    raise_if (is_stale t.created_at now) stale_ticket
    raise_if (ltb attempt_counter 1) bad_attempt_counter
    raise_if (is_limit t.order_type && is_absent limit_price) missing_limit_price
    raise_if (is_market t.order_type && not (is_absent limit_price)) limit_price_on_market
    intent_result (
        construct (submit_intent_valid ticket_digest)
          (submit_intent_of t attempt_counter mode limit_price now))

-- What the broker reports of an order.
abbrev pub report_of :
    BrokerSubmitIntent
    → BrokerOrderId
    → OrderLifecycleState
    → ℕ
    → Option Decimal
    → Option AwareDateTime
    → Option AwareDateTime
    → ExecutionReport
report_of i order_id state filled price fill_timestamp completed_at = record {
  order_ticket_hash = i.order_ticket_hash;
  idempotency_key = i.idempotency_key;
  broker_order_id = order_id.value;
  lifecycle_state = state;
  order_type = i.ticket.order_type;
  filled_contracts = filled;
  requested_contracts = i.ticket.validated_intent.candidate.short_leg.contracts;
  avg_fill_price = price;
  fill_timestamp = fill_timestamp;
  submitted_at = i.submitted_at;
  completed_at = completed_at;
}

unfoldable pub mint_execution_report :
    BrokerSubmitIntent
    → BrokerOrderId
    → OrderLifecycleState
    → ℕ
    → Option Decimal
    → Option AwareDateTime
    → Option AwareDateTime
    → Result ModelError ExecutionReport
mint_execution_report i order_id state filled price fill_timestamp completed_at =
    construct execution_report_valid
      (report_of i order_id state filled price fill_timestamp completed_at)
