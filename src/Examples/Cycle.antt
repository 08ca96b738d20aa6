-- ===== src/Examples/Cycle.antt =====
-- A paper cycle over one request that the gateway approves.
use hermes_personal_options.Storage.Json.{has_secret, is_secret_key}
use hermes_personal_options.Storage.Base.{
  append, assert_no_secrets, record_submit_attempt, row_for, unresolved_open_orders,
}
use hermes_personal_options.Schemas.TradeIntent.{
  delta_rejection_reason, short_delta_within_cap, validated_valid,
}
use hermes_personal_options.Schemas.StrategyStage.{rejection_reason_if_not_live, to_live_token}
use hermes_personal_options.Schemas.Protection.{
  active_reason_as_of, multi_leg_rejection_reason, protection_rejection_reason,
}
use hermes_personal_options.Schemas.PortfolioHeat.{
  approve, approved_heat_valid, buying_power_heat_pct, heat_rejection_reason, risk_heat_pct,
}
use hermes_personal_options.Schemas.OrderTicket.{
  order_leg_valid, order_ticket_valid, order_type_permitted,
}
use hermes_personal_options.Schemas.MarketData.{
  age_ms, freshness_reason, option_divergence_pct, reconciliation_rejection_reason,
  underlying_divergence_pct, within_tolerance,
}
use hermes_personal_options.Schemas.Liquidity.{
  execution_quality_rejection_reason, liquidity_passes, liquidity_rejection_reason, should_suspend,
  suspended, width_pct_mid, width_usd,
}
use hermes_personal_options.Schemas.Instrument.{is_active_as_of, permission_reason}
use hermes_personal_options.Schemas.FeedCertification.{
  feed_rejection_reason, is_valid_for_live_as_of, to_live_feed_token,
}
use hermes_personal_options.Schemas.Drawdown.{new_entries_allowed}
use hermes_personal_options.Schemas.ContractMetadata.{
  derived_dte, is_tradable_as_of, mandate_compliant, matches_candidate, matches_candidate_reason,
  spread_rejection_reason, spread_tradable_as_of,
}
use hermes_personal_options.Schemas.Concentration.{
  concentration_passes, concentration_rejection_reason,
}
use hermes_personal_options.Schemas.Audit.{artifact_valid, is_refusal}
use hermes_personal_options.Schemas.Account.{account_type_permitted, below_minimum_equity}
use hermes_personal_options.Gateway.Validate.{validate}
use hermes_personal_options.Gateway.Request.{
  GatewayRequest, dte_matches_claim, is_zero_dte_after_2pm_ct, require_spx_feed_coverage,
}
use hermes_personal_options.Gateway.OrderRouting.{
  decide_order_route, mint_order_ticket, ordered_legs,
}
use hermes_personal_options.Gateway.Gates.{
  gate_account_mode, gate_concentration, gate_contract_metadata, gate_data_freshness,
  gate_delta_band, gate_drawdown, gate_dte_match, gate_entry_window, gate_event_blackout,
  gate_execution_quality, gate_feed_certification, gate_instrument_permitted, gate_liquidity,
  gate_multi_leg, gate_portfolio_heat, gate_protection, gate_reconciliation, gate_strategy_live,
}
use hermes_personal_options.Gateway.BrokerSubmission.{
  mint_broker_submit_intent, mint_execution_report,
}
use hermes_personal_options.Float64.{whole_ms}
use hermes_personal_options.Common.Text.{show_ℕ}
use hermes_personal_options.Common.{
  ◌+◌, ℕ, true, false, some, Option, List, [], ◌∷◌, String, Result, ok, err, length, All, ◌≡◌, ◌⊎◌,
  refl, is_absent,
}
use hermes_personal_options.Common.Dict.{get}
use hermes_personal_options.Decimal.{
  decimal_of, abs_dec, add_dec, div_dec, le_dec, mul_dec, sub_dec,
}
use hermes_personal_options.Time.{AwareDateTime, elapsed_us, instant}
use hermes_personal_options.Schemas.BrokerSubmission.{
  BrokerSubmitIntent, broker_order_id_valid, execution_report_valid, from_future, is_stale,
  submit_intent_valid,
}
use hermes_personal_options.Brokers.Base.{BrokerFill, fill_valid}
use hermes_personal_options.Brokers.Fake.{fake_fill, new_fake, make_fill, order_id_for, simulate}
use hermes_personal_options.Brokers.Paper.{
  BrokerMode, PaperSubmitApproval, approval_of, paper_submission_armed, validate_human_confirmation,
  validate_submit,
}
use hermes_personal_options.Storage.Models.{
  RecordType, StoredEvent, derive_record_id, record_type_for, stored_event_valid,
}
use hermes_personal_options.Storage.Sqlite.{
  sqlite_store, sqlite_store-IsLawful, insert_row, rows_of,
}
use hermes_personal_options.Config.{AppEnv, AppConfig}
use hermes_personal_options.Services.Shadow.{ShadowCycleResult, is_shadow_safe, run_shadow_cycle}
use hermes_personal_options.Services.ShadowInert.{run_shadow_cycle-Inert}
use hermes_personal_options.Services.Steps.{
  CycleError, unsafe_config, Memory, call, give, ◌>>=◌, ◌>>◌,
}
use hermes_personal_options.Services.Paper.{
  Outside, LocalPaperBroker, PaperSubmitRequest, PaperCycleResult, is_paper_safe, no_counts,
}
use hermes_personal_options.Services.PaperCycle.{run_paper_cycle}
use hermes_personal_options.Services.Calls.{Sanctioned}
use hermes_personal_options.Services.Sanctions.{run_paper_cycle-Sanctioned}
use hermes_personal_options.Services.Counts.{run_paper_cycle-counts}
use hermes_personal_options.Services.Counters.{total, approved_count}
use hermes_personal_options.Services.Tally.{Rows, tally}
use hermes_personal_options.Examples.Data.{
  seconds_later, chicago_winter, request_of, put_spread, digest_of_request, hash_of_ticket,
  digest_of_intent, armed_config, normal_routing,
}
use hermes_personal_options.Examples.Store.{codec}
use hermes_personal_options.Examples.Agents.{paper_config}

abbrev outside : Outside
outside = record {
  codec = codec;
  request_digest = digest_of_request;
  chicago = chicago_winter;
  ticket_digest = hash_of_ticket;
  intent_digest = digest_of_intent;
  isoformat = λ t. "t";
  error_text = λ kind. "refused";
}

abbrev local_broker : LocalPaperBroker
local_broker = record { config = armed_config; kind = fake_fill }

abbrev clock : ℕ → AwareDateTime
clock ordinal = seconds_later 10

-- A human who approves what he is shown.
abbrev approving : BrokerSubmitIntent → Option PaperSubmitApproval
approving i = some (approval_of digest_of_intent i "operator" (seconds_later 20))

abbrev items : List PaperSubmitRequest
items = record { request = request_of put_spread; limit_price = some (decimal_of 50 2) } ∷ []

abbrev empty_memory : Memory (List StoredEvent)
empty_memory = record { store = []; broker = new_fake "fake"; record_ids = [] }

abbrev ran : Result CycleError PaperCycleResult × Memory (List StoredEvent)
ran =
    run_paper_cycle outside sqlite_store (seconds_later 30) local_broker clock approving 1
      paper_config items (some normal_routing) empty_memory

run_paper_cycle-Sanctioned_example :
    All
      (λ (e : String × BrokerFill).
        (is_absent (get empty_memory.broker.fills e.0) ≡ false)
        ⊎ Sanctioned outside sqlite_store sqlite_store-IsLawful
            (seconds_later 30)
            local_broker
            clock
            approving
            ran.1.store
            e.0)
      ran.1.broker.fills
    × (is_paper_safe paper_config armed_config ≡ false → ran ≡ (err unsafe_config, empty_memory))
run_paper_cycle-Sanctioned_example =
    run_paper_cycle-Sanctioned outside sqlite_store sqlite_store-IsLawful (seconds_later 30)
      local_broker clock approving 1 paper_config items (some normal_routing) empty_memory

abbrev answer : PaperCycleResult
answer = record {
  app_env = AppEnv.vm_paper;
  requests_evaluated = 1;
  counters = record no_counts { submitted = 1 };
  audit_record_ids = ran.1.record_ids;
}

it_answers : ran ≡ (ok answer, ran.1)
unfolding fill_valid make_fill order_id_for simulate
    hermes_personal_options.Brokers.Fake.submit_order paper_submission_armed
    hermes_personal_options.Brokers.Paper.submit_order validate_human_confirmation validate_submit
    show_ℕ abs_dec add_dec div_dec le_dec mul_dec sub_dec whole_ms mint_broker_submit_intent
    mint_execution_report gate_account_mode gate_concentration gate_contract_metadata
    gate_data_freshness gate_delta_band gate_drawdown gate_dte_match gate_entry_window
    gate_event_blackout gate_execution_quality gate_feed_certification gate_instrument_permitted
    gate_liquidity gate_multi_leg gate_portfolio_heat gate_protection gate_reconciliation
    gate_strategy_live decide_order_route mint_order_ticket ordered_legs dte_matches_claim
    is_zero_dte_after_2pm_ct require_spx_feed_coverage validate account_type_permitted
    below_minimum_equity artifact_valid is_refusal broker_order_id_valid execution_report_valid
    from_future is_stale submit_intent_valid concentration_passes concentration_rejection_reason
    derived_dte is_tradable_as_of mandate_compliant matches_candidate matches_candidate_reason
    spread_rejection_reason spread_tradable_as_of new_entries_allowed feed_rejection_reason
    is_valid_for_live_as_of to_live_feed_token is_active_as_of permission_reason
    execution_quality_rejection_reason liquidity_passes liquidity_rejection_reason should_suspend
    suspended width_pct_mid width_usd age_ms freshness_reason option_divergence_pct
    reconciliation_rejection_reason underlying_divergence_pct within_tolerance order_leg_valid
    order_ticket_valid order_type_permitted approve approved_heat_valid buying_power_heat_pct
    heat_rejection_reason risk_heat_pct active_reason_as_of multi_leg_rejection_reason
    protection_rejection_reason rejection_reason_if_not_live to_live_token delta_rejection_reason
    short_delta_within_cap validated_valid call give ◌>>=◌ ◌>>◌ append assert_no_secrets
    record_submit_attempt row_for has_secret is_secret_key derive_record_id record_type_for
    stored_event_valid insert_row elapsed_us instant is_paper_safe run_paper_cycle
it_answers = refl

-- The texts of artifacts are their decisions.
abbrev decision_in : String → String
decision_in t = t

abbrev rows_before : Rows
rows_before = tally decision_in empty_memory.store

abbrev rows_after : Rows
rows_after = tally decision_in ran.1.store

run_paper_cycle-counts_example :
    (is_paper_safe paper_config armed_config ≡ true)
    × (answer.requests_evaluated ≡ length items)
    × (total answer.counters ≡ length items)
    × (rows_after.requests ≡ rows_before.requests + length items)
    × (rows_after.validated ≡ rows_before.validated + approved_count answer.counters)
    × (rows_after.submissions
        ≡ rows_before.submissions + (answer.counters.submitted + answer.counters.submit_failed))
    × (rows_after.reports ≡ rows_before.reports + answer.counters.submitted)
    × (rows_after.duplicates ≡ rows_before.duplicates + answer.counters.duplicate_skipped)
run_paper_cycle-counts_example =
    run_paper_cycle-counts outside sqlite_store sqlite_store-IsLawful (seconds_later 30) decision_in
      (λ a. refl) local_broker clock approving 1 paper_config items (some normal_routing)
      empty_memory answer ran.1 it_answers

abbrev shadow_config : AppConfig
shadow_config = record paper_config {
  app_env = AppEnv.vm_shadow;
  broker_mode = BrokerMode.no_broker;
  submission_enabled = false;
  paper_submit_enabled = false;
}

abbrev shadow_requests : List GatewayRequest
shadow_requests = request_of put_spread ∷ []

abbrev shadow_ran : Result CycleError ShadowCycleResult × Memory (List StoredEvent)
shadow_ran =
    run_shadow_cycle outside sqlite_store (seconds_later 40) clock shadow_config shadow_requests
      (some normal_routing) ran.1

run_shadow_cycle-Inert_example :
    (shadow_ran.1.broker ≡ ran.1.broker)
    × (rows_of shadow_ran.1.store RecordType.broker_submit_intent
        ≡ rows_of ran.1.store RecordType.broker_submit_intent)
    × (rows_of shadow_ran.1.store RecordType.execution_report
        ≡ rows_of ran.1.store RecordType.execution_report)
    × (unresolved_open_orders codec sqlite_store shadow_ran.1.store
        ≡ unresolved_open_orders codec sqlite_store ran.1.store)
    × (is_shadow_safe shadow_config ≡ false → shadow_ran ≡ (err unsafe_config, ran.1))
run_shadow_cycle-Inert_example =
    run_shadow_cycle-Inert outside sqlite_store sqlite_store-IsLawful (seconds_later 40) clock ran.1
      shadow_config shadow_requests (some normal_routing)
