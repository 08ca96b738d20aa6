-- ===== src/Examples/Market.antt =====
-- Market data of one spread, three days before its expiration, and what the strategies make of it.
use mathlib.Core.List.{Permᴰ}
use hermes_personal_options.Common.{ℕ, ◌*◌, ◌+◌, true, List, [], ◌∷◌, map, String, ok, ◌≡◌, refl}
use hermes_personal_options.Common.Int.{ℤ, ◌*ℤ◌, ◌+ℤ◌, ◌-ℤ◌}
use hermes_personal_options.Common.Text.{show_ℕ}
use hermes_personal_options.Decimal.{
  Decimal, decimal_of, le_dec, scaled, sub_dec, abs_dec, fix, num_digits, round_half_even,
}
use hermes_personal_options.Time.{DateTime, aware, utc, us_per_day, us_per_minute, instant}
use hermes_personal_options.Schemas.Enums.{xsp, put_credit, catastrophe_premium_capture}
use hermes_personal_options.Schemas.ContractMetadata.{
  ContractMetadata, contract_valid, spread_contract_valid, derived_dte,
}
use hermes_personal_options.Schemas.TradeIntent.{
  candidate_valid, spread_leg_valid, structurally_defined_risk, spread_width,
}
use hermes_personal_options.Schemas.StrategyGate.{iv_rank_satisfied, dte_allowed}
use hermes_personal_options.Data.Base.{PriceInputs, get_spread_metadata}
use hermes_personal_options.Data.Fixtures.{
  MarketDataFixture, fixture_adapter, fresh_snapshot, certified_feed, empty_calendar,
}
use hermes_personal_options.Strategies.Base.{
  StrategyContext, StrategyProposal, collect_inputs, within_entry_window, context_ct_minutes,
  build_candidate, compute_rationale_id,
}
use hermes_personal_options.Strategies.Premium.{catastrophe_gate, generate_filtered, generate}
use hermes_personal_options.Strategies.Proposals.{Grounds, generate-justified}
use hermes_personal_options.Strategies.Scoring.{rank_proposals}
use hermes_personal_options.Strategies.Ranking.{rank_proposals-ordered, with_ratio, InOrder}
use hermes_personal_options.Examples.Data.{
  half_past_ten, chicago_winter, put_spread, contract_of, request_of,
}

abbrev near_contract : String → ℕ → ContractMetadata
near_contract symbol strike = record (contract_of symbol (decimal_of strike 0)) {
  expiration_date = utc (738003 * us_per_day);
  expiration_time = utc (738003 * us_per_day + 1260 * us_per_minute);
  last_trading_time = utc (738003 * us_per_day + 1200 * us_per_minute);
}

abbrev mid_of : ℕ → PriceInputs
mid_of cents = record {
  broker_option_mid = decimal_of cents 2;
  secondary_option_mid = decimal_of cents 2;
  broker_underlying = decimal_of 510 0;
  secondary_underlying = decimal_of 510 0;
}

abbrev market : MarketDataFixture
market = record {
  snapshots = ("XSP", fresh_snapshot half_past_ten true) ∷ [];
  liquidity =
      ("XSP500P", (request_of put_spread).liquidity)
      ∷ ("XSP495P", (request_of put_spread).liquidity)
      ∷ [];
  contracts =
      ("XSP500P", near_contract "XSP500P" 500) ∷ ("XSP495P", near_contract "XSP495P" 495) ∷ [];
  feed_certification = certified_feed half_past_ten;
  event_calendar = empty_calendar;
  price_inputs = ("XSP500P", mid_of 200) ∷ ("XSP495P", mid_of 150) ∷ [];
}

abbrev context : StrategyContext
context = record {
  as_of = aware half_past_ten;
  underlying = xsp;
  direction = put_credit;
  short_leg = record { option_symbol = "XSP500P"; delta = put_spread.short_leg.delta };
  long_leg = record { option_symbol = "XSP495P"; delta = put_spread.long_leg.delta };
  contracts = 1;
  adapter = fixture_adapter market;
}

abbrev fixed_digest : String → String
fixed_digest t = "0123456789abcdef0123"

abbrev plain_decimal : Decimal → String
plain_decimal d = "0"

abbrev plain_whole : ℤ → String
plain_whole n = "0"

abbrev plain_time : DateTime → String
plain_time t = "t"

abbrev premium_proposal : StrategyProposal
premium_proposal = record {
  strategy_name = catastrophe_premium_capture;
  candidate = record put_spread {
    dte = 3;
    rationale_id = "rationale-catastrophe_premium_capture-0123456789abcdef";
  };
  gate = catastrophe_gate;
}

premium_is_proposed :
    generate chicago_winter fixed_digest plain_decimal plain_whole plain_time context
    ≡ ok (premium_proposal ∷ [])
unfolding generate generate_filtered collect_inputs fixture_adapter get_spread_metadata
    spread_contract_valid contract_valid le_dec scaled instant within_entry_window
    context_ct_minutes iv_rank_satisfied fresh_snapshot dte_allowed derived_dte build_candidate
    candidate_valid spread_leg_valid structurally_defined_risk spread_width sub_dec abs_dec fix
    num_digits round_half_even compute_rationale_id show_ℕ ◌*ℤ◌ ◌+ℤ◌ ◌-ℤ◌
premium_is_proposed = refl

abbrev the_rest : List StrategyProposal
the_rest = []

generate-justified_example :
    Grounds chicago_winter fixed_digest plain_decimal plain_whole plain_time context
      premium_proposal
    × (the_rest ≡ [])
generate-justified_example =
    generate-justified chicago_winter fixed_digest plain_decimal plain_whole plain_time context
      {p = premium_proposal} {ps = the_rest} premium_is_proposed

abbrev two_proposals : List StrategyProposal
two_proposals = record premium_proposal { candidate = put_spread } ∷ premium_proposal ∷ []

rank_proposals-ordered_example :
    Permᴰ (rank_proposals two_proposals) (map with_ratio two_proposals)
    × InOrder (rank_proposals two_proposals)
rank_proposals-ordered_example = rank_proposals-ordered two_proposals
