-- ===== src/Data/Base.antt =====
-- data/base.py: what the gateway and the strategies read of the market, and how a read fails.
use hermes_personal_options.Common.{String, Result, ok, err, ◌>>=◌, Bool, true, false}
use hermes_personal_options.Decimal.{Decimal}
use hermes_personal_options.Schemas.Enums.{Underlying}
use hermes_personal_options.Schemas.Model.{ModelError, construct}
use hermes_personal_options.Schemas.MarketData.{
  BrokerDataSnapshot, PriceReconciliationCheck, price_check_valid,
}
use hermes_personal_options.Schemas.Liquidity.{LiquidityGate}
use hermes_personal_options.Schemas.ContractMetadata.{
  ContractMetadata, SpreadContractMetadata, spread_contract_valid,
}
use hermes_personal_options.Schemas.Protection.{EventBlackoutCalendar}
use hermes_personal_options.Schemas.FeedCertification.{SecondaryFeedCertification}

-- A record that is missing, a model that its checks refuse, or a time without a zone.
pub data MarketDataError : Type 0 where
  unavailable invalid_model naive_time : MarketDataError

pub record PriceInputs : Type 0 where
  pub broker_option_mid : Decimal
  pub secondary_option_mid : Decimal
  pub broker_underlying : Decimal
  pub secondary_underlying : Decimal

unfoldable pub assemble_price_reconciliation :
    PriceInputs → Result ModelError PriceReconciliationCheck
assemble_price_reconciliation p = construct price_check_valid (record {
  broker_option_mid = p.broker_option_mid;
  secondary_option_mid = p.secondary_option_mid;
  broker_underlying = p.broker_underlying;
  secondary_underlying = p.secondary_underlying;
})

pub record MarketDataAdapter : Type 0 where
  pub get_data_snapshot : Underlying → Result MarketDataError BrokerDataSnapshot
  pub get_liquidity : String → Result MarketDataError LiquidityGate
  pub get_contract_metadata : String → Result MarketDataError ContractMetadata
  pub get_event_calendar : Result MarketDataError EventBlackoutCalendar
  pub get_feed_certification : Result MarketDataError SecondaryFeedCertification
  pub get_price_inputs : String → Result MarketDataError PriceInputs

-- A model that its checks accept.
abbrev pub modelled {ℓ} : {A : Type ℓ} → (A → Bool) → A → Result MarketDataError A
modelled valid a = elim (valid a) [ true ↦ ok a | false ↦ err invalid_model ]

unfoldable pub get_spread_metadata :
    MarketDataAdapter → String → String → Result MarketDataError SpreadContractMetadata
get_spread_metadata adapter short_symbol long_symbol = do
  short_contract ← adapter.get_contract_metadata short_symbol
  long_contract ← adapter.get_contract_metadata long_symbol
  modelled spread_contract_valid
      (record { short_contract = short_contract; long_contract = long_contract })
