-- ===== src/Examples/Data.antt =====
-- One spread at half past ten in Chicago, and the request, the ticket and the positions of it.
use hermes_personal_options.Common.{ℕ, ◌+◌, ◌-◌, ◌*◌, true, false, none, some, List, [], String}
use hermes_personal_options.Common.Int.{negsuc}
use hermes_personal_options.Decimal.{Decimal, decimal_of}
use hermes_personal_options.Time.{AwareDateTime, utc, us_per_day, us_per_minute, us_per_second}
use hermes_personal_options.Schemas.Enums.{
  xsp, put, LegSide, short, long, put_credit, IntentStatus, ReasonCode, StrategyStage, no_tier,
  margin, european, cash, polygon, certified, SubmitMode, EmergencyState,
}
use hermes_personal_options.Schemas.Instrument.{constitution_config}
use hermes_personal_options.Schemas.ContractMetadata.{ContractMetadata}
use hermes_personal_options.Schemas.TradeIntent.{
  SpreadLeg, CandidateTradeIntent, ValidatedTradeIntent,
}
use hermes_personal_options.Schemas.OrderTicket.{RouteMode, OrderTicket}
use hermes_personal_options.Schemas.BrokerSubmission.{BrokerSubmitIntent}
use hermes_personal_options.Schemas.PositionState.{PositionLeg}
use hermes_personal_options.Gateway.Request.{GatewayRequest}
use hermes_personal_options.Gateway.Decision.{validated_intent}
use hermes_personal_options.Gateway.OrderRouting.{OrderRoutingState}
use hermes_personal_options.Gateway.OrderRouting.Ticket.{ticket_of}
use hermes_personal_options.Gateway.BrokerSubmission.{submit_intent_of}
use hermes_personal_options.Brokers.Paper.{PaperBrokerConfig, default_config}

-- 16:30 UTC of a day, which is 10:30 in Chicago, in winter.
abbrev pub half_past_ten : AwareDateTime
half_past_ten = utc (738000 * us_per_day + 990 * us_per_minute)

abbrev pub seconds_later : ℕ → AwareDateTime
seconds_later s = utc (738000 * us_per_day + 990 * us_per_minute + s * us_per_second)

-- `astimezone` of winter.
abbrev pub chicago_winter : AwareDateTime → AwareDateTime
chicago_winter t = record {
  wall_us = t.wall_us - 360 * us_per_minute;
  utc_offset_us = negsuc (360 * us_per_minute - 1);
}

abbrev pub short_put : SpreadLeg
short_put = record {
  side = short;
  option_type = put;
  strike = decimal_of 500 0;
  delta = record { coefficient = negsuc 7; exponent = negsuc 1 };
  contracts = 1;
}

abbrev pub long_put : SpreadLeg
long_put = record {
  side = long;
  option_type = put;
  strike = decimal_of 495 0;
  delta = record { coefficient = negsuc 4; exponent = negsuc 1 };
  contracts = 1;
}

abbrev pub put_spread : CandidateTradeIntent
put_spread = record {
  status = IntentStatus.candidate;
  underlying = xsp;
  direction = put_credit;
  short_leg = short_put;
  long_leg = long_put;
  net_credit = decimal_of 50 2;
  multiplier = 100;
  dte = 7;
  rationale_id = "r-1";
}

abbrev pub contract_of : String → Decimal → ContractMetadata
contract_of symbol strike = record {
  underlying = xsp;
  option_symbol = symbol;
  expiration_date = utc (738007 * us_per_day);
  expiration_time = utc (738007 * us_per_day + 1260 * us_per_minute);
  last_trading_time = utc (738007 * us_per_day + 1200 * us_per_minute);
  settlement_style = cash;
  exercise_style = european;
  multiplier = 100;
  strike = strike;
  option_type = put;
}

-- A request that meets every control, but for the delta of the short leg.
abbrev pub request_of : CandidateTradeIntent → GatewayRequest
request_of c = record {
  candidate = c;
  as_of = half_past_ten;
  account = record {
    account_type = margin;
    net_liquidating_value = decimal_of 25000 0;
    cash_balance = decimal_of 20000 0;
    buying_power = decimal_of 20000 0;
    day_pnl = decimal_of 0 0;
    week_pnl = decimal_of 0 0;
    trailing_high_water_value = decimal_of 26000 0;
  };
  heat = record {
    sum_defined_max_loss = decimal_of 450 0;
    broker_margin_requirement = decimal_of 500 0;
    net_liquidating_value = decimal_of 25000 0;
  };
  drawdown = record {
    active_tier = no_tier;
    triggered_action = none;
    rearm_mode = none;
    human_rearm_granted = false;
  };
  instrument = record { underlying = xsp };
  spread_contract = record {
    short_contract = contract_of "XSP500P" (decimal_of 500 0);
    long_contract = contract_of "XSP495P" (decimal_of 495 0);
  };
  underlying_policy = record {
    xsp_enabled = true;
    spx_phase_2_enabled = false;
    policy_version = "1";
    source = constitution_config;
    approved_by = none;
    effective_at = utc (737000 * us_per_day);
    expires_at = none;
  };
  data_snapshot = record {
    option_quote_ts = half_past_ten;
    underlying_price_ts = half_past_ten;
    vix_ts = half_past_ten;
    iv_rank_ts = half_past_ten;
    iv_rank_inputs_fresh = true;
    iv_rank_value = decimal_of 40 0;
  };
  reconciliation = record {
    broker_option_mid = decimal_of 200 2;
    secondary_option_mid = decimal_of 201 2;
    broker_underlying = decimal_of 51000 2;
    secondary_underlying = decimal_of 51010 2;
  };
  liquidity = record {
    bid = decimal_of 200 2;
    ask = decimal_of 204 2;
    open_interest = 500;
    top_of_book_size = 20;
  };
  execution_quality = record {
    rolling_avg_slippage_usd = decimal_of 1 2;
    failed_fill_attempts = 0;
    trades_in_window = 5;
    rearm_token = none;
  };
  concentration = record {
    concurrent_spreads_total = 1;
    open_spreads_same_expiry = 1;
    same_direction_spreads = 1;
    is_zero_dte = false;
    zero_dte_concurrent_spreads = 0;
    zero_dte_same_direction_spreads = 0;
    aggregate_short_delta_abs = decimal_of 8 2;
    aggregate_gamma_notional_pct_equity = decimal_of 5 1;
  };
  protection = record {
    long_leg_confirmed = true;
    broker_native_stop_present = true;
    agent_managed_stop_only = false;
    is_emergency_close = false;
  };
  multi_leg = record {
    broker_confirms_atomic_combo = true;
    legging = false;
    long_leg_first = true;
  };
  strategy_stage = record { stage = StrategyStage.live };
  feed_certification = record {
    feed = polygon;
    status = certified;
    certified_at = utc (737990 * us_per_day);
    coverage = record { covers_xsp = true; covers_spx = false; symbol_mapping_consistent = true };
    latency = record {
      option_quote_latency_ms = 100;
      underlying_quote_latency_ms = 50;
      option_latency_threshold_ms = 500;
      underlying_latency_threshold_ms = 250;
    };
    pending_recertification_triggers = [];
  };
  event_calendar = record { blackouts = [] };
}

abbrev pub digest_of_request : GatewayRequest → List ReasonCode → String
digest_of_request r codes = "0f0f"

abbrev pub validated_spread : ValidatedTradeIntent
validated_spread = validated_intent (request_of put_spread)

abbrev pub normal_routing : OrderRoutingState
normal_routing = record {
  route_mode = RouteMode.normal;
  order_type_policy = record {
    state = EmergencyState.normal;
    llm_may_request_market_order = false;
  };
  broker_native_combo_available = true;
  deterministic_market_order_allowed = false;
  requested_order_type = none;
}

-- A forced liquidation, in which the deterministic flag is set.
abbrev pub liquidation_routing : OrderRoutingState
liquidation_routing = record {
  route_mode = RouteMode.forced_liquidation;
  order_type_policy = record {
    state = EmergencyState.forced_liquidation;
    llm_may_request_market_order = false;
  };
  broker_native_combo_available = true;
  deterministic_market_order_allowed = true;
  requested_order_type = none;
}

abbrev pub put_ticket : OrderTicket
put_ticket = ticket_of validated_spread normal_routing half_past_ten

abbrev pub hash_of_ticket : OrderTicket → String
hash_of_ticket t = "0123456789abcdef0123456789abcdef0123456789abcdef0123456789abcdef"

abbrev pub digest_of_intent : BrokerSubmitIntent → String
digest_of_intent i = "fedcba9876543210fedcba9876543210fedcba9876543210fedcba9876543210"

abbrev pub put_submission : ℕ → BrokerSubmitIntent
put_submission attempt =
    submit_intent_of hash_of_ticket put_ticket attempt SubmitMode.paper (some (decimal_of 50 2))
      (seconds_later 10)

-- Paper trading, with both switches on.
abbrev pub armed_config : PaperBrokerConfig
armed_config = record default_config { submission_enabled = true; paper_submit_enabled = true }

abbrev pub position_of : LegSide → ℕ → ℕ → PositionLeg
position_of side strike contracts = record {
  underlying = xsp;
  option_symbol = "XSP";
  expiration_date = 738007;
  option_type = put;
  strike = decimal_of strike 0;
  side = side;
  contracts = contracts;
  average_price = none;
}
