-- ===== src/Ops/StatusReport.antt =====
-- ops/status_report.py: what the operator's commands report.
use hermes_personal_options.Common.{ℕ, Bool, Option, List, [], String}
use hermes_personal_options.Common.Int.{ℤ}
use hermes_personal_options.Decimal.{Decimal}
use hermes_personal_options.Time.{AwareDateTime}
use hermes_personal_options.Schemas.Enums.{ReasonCode, ReArmMode, OrderLifecycleState}
use hermes_personal_options.Brokers.Base.{BrokerFill}
use hermes_personal_options.Brokers.Paper.{BrokerMode}

pub record OrderView : Type 0 where
  pub broker_order_id : String
  pub broker_name : String
  pub lifecycle_state : OrderLifecycleState
  pub filled_contracts : ℕ
  pub requested_contracts : ℕ

-- `_order_view`
abbrev pub order_view : BrokerFill → OrderView
order_view f = record {
  broker_order_id = f.broker_order_id.value;
  broker_name = f.broker_order_id.broker_name;
  lifecycle_state = f.lifecycle_state;
  filled_contracts = f.filled_contracts;
  requested_contracts = f.requested_contracts;
}

pub record PositionView : Type 0 where
  pub symbol : String
  pub quantity : ℤ
  pub average_price : Decimal

pub record StatusReport : Type 0 where
  pub halted : Bool
  pub reason_code : Option ReasonCode
  pub rearm_mode : Option ReArmMode
  pub kill_switch_command_id : Option String
  pub broker_mode : Option BrokerMode
  pub total_audit_events : ℕ
  pub generated_at : AwareDateTime

pub record OpenOrdersReport : Type 0 where
  pub orders : List OrderView
  pub generated_at : AwareDateTime

pub record FlattenReport : Type 0 where
  pub broker_mode : BrokerMode
  pub cancelled_orders : List OrderView
  pub open_positions_remaining : List PositionView
  pub note : String
  pub generated_at : AwareDateTime

-- The report of a flatten on a fake broker, which never has positions.
abbrev pub flatten_report : List OrderView → AwareDateTime → FlattenReport
flatten_report orders now = record {
  broker_mode = BrokerMode.paper;
  cancelled_orders = orders;
  open_positions_remaining = [];
  note =
      "v1 cancels working orders only; position-closing submission is gated by the disabled deterministic paper-submit path and is out of scope";
  generated_at = now;
}
