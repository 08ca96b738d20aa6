-- ===== src/Data/Fixtures.antt =====
-- data/fixtures.py, calendar_adapter.py and contract_metadata_adapter.py: the replay of records that are
-- held in memory, and the builders of them. `occ_like_symbol` is the text of a contract.
use hermes_personal_options.Common.{
  ℕ, ◌-◌, ◌*◌, Bool, true, false, Option, none, some, List, [], map, String, Result, ok, err,
  str_eq, if◌then◌else◌,
}
use hermes_personal_options.Common.Dict
use hermes_personal_options.Decimal.{Decimal, decimal_of}
use hermes_personal_options.Time.{AwareDateTime, us_per_ms, us_per_day}
use hermes_personal_options.Schemas.Enums.{
  Underlying, OptionType, SettlementStyle, ExerciseStyle, MacroEvent, polygon, certified,
}
use hermes_personal_options.Schemas.EnumText.{underlying_value}
use hermes_personal_options.Schemas.Model.{ModelError, construct}
use hermes_personal_options.Schemas.MarketData.{BrokerDataSnapshot}
use hermes_personal_options.Schemas.Liquidity.{LiquidityGate}
use hermes_personal_options.Schemas.ContractMetadata.{
  ContractMetadata, contract_valid, SpreadContractMetadata, spread_contract_valid,
}
use hermes_personal_options.Schemas.Protection.{EventBlackoutCalendar, calendar_valid}
use hermes_personal_options.Schemas.FeedCertification.{SecondaryFeedCertification}
use hermes_personal_options.Data.Base.{MarketDataError, unavailable, PriceInputs, MarketDataAdapter}

pub record MarketDataFixture : Type 0 where
  pub snapshots : List (String × BrokerDataSnapshot)
  pub liquidity : List (String × LiquidityGate)
  pub contracts : List (String × ContractMetadata)
  pub feed_certification : SecondaryFeedCertification
  pub event_calendar : EventBlackoutCalendar
  pub price_inputs : List (String × PriceInputs)

-- A missing record is an error, and nothing is made up for it.
abbrev pub found_or_unavailable : {A : Type 0} → Option A → Result MarketDataError A
found_or_unavailable none = err unavailable
found_or_unavailable (some a) = ok a

-- The snapshots have the members of `Underlying` as keys, here by their values.
unfoldable pub fixture_adapter : MarketDataFixture → MarketDataAdapter
fixture_adapter f = record {
  get_data_snapshot = λ u. found_or_unavailable (Dict.get f.snapshots (underlying_value u));
  get_liquidity = λ s. found_or_unavailable (Dict.get f.liquidity s);
  get_contract_metadata = λ s. found_or_unavailable (Dict.get f.contracts s);
  get_event_calendar = ok f.event_calendar;
  get_feed_certification = ok f.feed_certification;
  get_price_inputs = λ s. found_or_unavailable (Dict.get f.price_inputs s);
}

abbrev default_multiplier : ℕ
default_multiplier = 100

unfoldable pub option_root : Underlying → String
option_root u = underlying_value u

-- `text or other`
abbrev text_or : Option String → String → String
text_or none t = t
text_or (some s) t = if str_eq s "" then t else s

abbrev time_or : Option AwareDateTime → AwareDateTime → AwareDateTime
time_or none t = t
time_or (some s) t = s

module _ (occ_like_symbol : String → AwareDateTime → OptionType → Decimal → String) where
  unfoldable pub build_contract_metadata :
      Underlying
      → Decimal
      → OptionType
      → AwareDateTime
      → Option AwareDateTime
      → Option String
      → ℕ
      → SettlementStyle
      → ExerciseStyle
      → Result ModelError ContractMetadata
  unfolding option_root
  build_contract_metadata u strike kind expiration last_trading symbol multiplier settlement
        exercise =
      construct contract_valid (record {
        underlying = u;
        option_symbol = text_or symbol (occ_like_symbol (option_root u) expiration kind strike);
        expiration_date = expiration;
        expiration_time = expiration;
        last_trading_time = time_or last_trading expiration;
        settlement_style = settlement;
        exercise_style = exercise;
        multiplier = multiplier;
        strike = strike;
        option_type = kind;
      })

unfoldable pub build_spread_metadata :
    ContractMetadata → ContractMetadata → Result ModelError SpreadContractMetadata
build_spread_metadata short_contract long_contract =
    construct spread_contract_valid
      (record { short_contract = short_contract; long_contract = long_contract })

unfoldable pub build_event_calendar :
    List (MacroEvent × AwareDateTime × AwareDateTime) → Result ModelError EventBlackoutCalendar
build_event_calendar entries = construct calendar_valid (record {
  blackouts =
      map
        (λ (e : MacroEvent × AwareDateTime × AwareDateTime). record {
          event = e.0;
          window_start = e.1;
          window_end = e.2;
        })
        entries;
})

abbrev pub empty_calendar : EventBlackoutCalendar
empty_calendar = record { blackouts = [] }

-- `as_of - timedelta(...)`
abbrev minus_us : AwareDateTime → ℕ → AwareDateTime
minus_us t d = record t { wall_us = t.wall_us - d }

unfoldable pub fresh_snapshot : AwareDateTime → Bool → BrokerDataSnapshot
fresh_snapshot as_of iv_rank_inputs_fresh = record {
  option_quote_ts = minus_us as_of (200 * us_per_ms);
  underlying_price_ts = minus_us as_of (200 * us_per_ms);
  vix_ts = minus_us as_of (1000 * us_per_ms);
  iv_rank_ts = minus_us as_of (2000 * us_per_ms);
  iv_rank_inputs_fresh = iv_rank_inputs_fresh;
  iv_rank_value = decimal_of 85 0;
}

unfoldable pub certified_feed : AwareDateTime → SecondaryFeedCertification
certified_feed as_of = record {
  feed = polygon;
  status = certified;
  certified_at = minus_us as_of (5 * us_per_day);
  coverage = record { covers_xsp = true; covers_spx = false; symbol_mapping_consistent = true };
  latency = record {
    option_quote_latency_ms = 100;
    underlying_quote_latency_ms = 100;
    option_latency_threshold_ms = 500;
    underlying_latency_threshold_ms = 500;
  };
  pending_recertification_triggers = [];
}
