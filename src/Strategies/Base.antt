-- ===== src/Strategies/Base.antt =====
-- strategies/base.py: the inputs of a candidate, and its assembly. `chicago` is the zone, `sha256` a hex
-- digest, and `decimal_text`, `whole_text` and `isoformat` are the texts of numbers and of a time.
use Prim.Native.String.{◌++◌ as append_text}
use hermes_personal_options.Common.{
  ℕ, Bool, ◌&&◌, List, [], ◌∷◌, String, Result, ok, err, ◌>>=◌, leb, ltb,
}
use hermes_personal_options.Common.Int.{ℤ, pos, negsuc}
use hermes_personal_options.Common.Text.{show_ℕ, text_prefix}
use hermes_personal_options.Decimal.{Decimal, sub_dec}
use hermes_personal_options.Time.{AwareDateTime, DateTime, naive, aware, minutes_since_midnight}
use hermes_personal_options.Schemas.Enums.{
  Underlying, OptionType, SpreadDirection, StrategyName, LegSide, short, long, IntentStatus,
}
use hermes_personal_options.Schemas.EnumText.{
  strategy_value, underlying_value, direction_value, option_type_value,
}
use hermes_personal_options.Schemas.Instrument.{entry_window_open_ct_min, entry_window_close_ct_min}
use hermes_personal_options.Schemas.TradeIntent.{SpreadLeg, CandidateTradeIntent, candidate_valid}
use hermes_personal_options.Schemas.ContractMetadata.{derived_dte}
use hermes_personal_options.Schemas.StrategyGate.{StrategyGate, live_eligible}
use hermes_personal_options.Data.Base.{
  MarketDataError, invalid_model, naive_time, MarketDataAdapter, modelled, get_spread_metadata,
}

pub record SelectedLeg : Type 0 where
  pub option_symbol : String
  pub delta : Decimal

-- The fields `short` and `long` are `short_leg` and `long_leg` here.
pub record StrategyContext : Type 0 where
  pub as_of : DateTime
  pub underlying : Underlying
  pub direction : SpreadDirection
  pub short_leg : SelectedLeg
  pub long_leg : SelectedLeg
  pub contracts : ℕ
  pub adapter : MarketDataAdapter

-- A time without a zone is refused.
abbrev pub aware_or_raise : DateTime → Result MarketDataError AwareDateTime
aware_or_raise (naive us) = err naive_time
aware_or_raise (aware t) = ok t

module _ (chicago : AwareDateTime → AwareDateTime) where
  -- `StrategyContext.ct_minutes_since_midnight`
  unfoldable pub context_ct_minutes : StrategyContext → Result MarketDataError ℕ
  context_ct_minutes ctx = aware_or_raise ctx.as_of >>= λ t. ok (minutes_since_midnight (chicago t))

  unfoldable pub within_entry_window : StrategyContext → Result MarketDataError Bool
  unfolding context_ct_minutes
  within_entry_window ctx = context_ct_minutes ctx >>= λ m.
      ok (leb entry_window_open_ct_min m && ltb m entry_window_close_ct_min)

pub record CandidateInputs : Type 0 where
  pub iv_rank_value : Decimal
  pub dte : ℤ
  pub multiplier : ℕ
  pub short_strike : Decimal
  pub long_strike : Decimal
  pub option_type : OptionType
  pub net_credit : Decimal

unfoldable pub collect_inputs : StrategyContext → Result MarketDataError CandidateInputs
collect_inputs ctx = do
  snapshot ← ctx.adapter.get_data_snapshot ctx.underlying
  spread ← get_spread_metadata ctx.adapter ctx.short_leg.option_symbol ctx.long_leg.option_symbol
  short_liquidity ← ctx.adapter.get_liquidity ctx.short_leg.option_symbol
  long_liquidity ← ctx.adapter.get_liquidity ctx.long_leg.option_symbol
  short_px ← ctx.adapter.get_price_inputs ctx.short_leg.option_symbol
  long_px ← ctx.adapter.get_price_inputs ctx.long_leg.option_symbol
  at ← aware_or_raise ctx.as_of
  ok (record {
    iv_rank_value = snapshot.iv_rank_value;
    dte = derived_dte spread at;
    multiplier = spread.short_contract.multiplier;
    short_strike = spread.short_contract.strike;
    long_strike = spread.long_contract.strike;
    option_type = spread.short_contract.option_type;
    net_credit = sub_dec short_px.broker_option_mid long_px.broker_option_mid;
  })

-- A strategy's output, with the gate that it comes from.
pub record StrategyProposal : Type 0 where
  pub strategy_name : StrategyName
  pub candidate : CandidateTradeIntent
  pub gate : StrategyGate

-- `StrategyProposal.live_eligible`
unfoldable pub proposal_live_eligible : StrategyProposal → Bool
proposal_live_eligible p = live_eligible p.gate

-- `"|".join(parts)`
abbrev join_bar : List String → String
join_bar [] = ""
join_bar (t ∷ []) = t
join_bar (t ∷ s ∷ ts) = append_text t (append_text "|" (join_bar (s ∷ ts)))

abbrev leg_of_context : LegSide → OptionType → Decimal → SelectedLeg → ℕ → SpreadLeg
leg_of_context side kind strike selected contracts = record {
  side = side;
  option_type = kind;
  strike = strike;
  delta = selected.delta;
  contracts = contracts;
}

module _ (sha256 : String → String) (decimal_text : Decimal → String) (whole_text : ℤ → String)
    (isoformat : DateTime → String) where
  unfoldable pub compute_rationale_id : StrategyName → StrategyContext → CandidateInputs → String
  compute_rationale_id name ctx inputs = append_text "rationale-" (
      append_text (strategy_value name) (
        append_text "-" (
          text_prefix 16 (
            sha256 (
              join_bar (
                strategy_value name
                ∷ underlying_value ctx.underlying
                ∷ direction_value ctx.direction
                ∷ ctx.short_leg.option_symbol
                ∷ decimal_text ctx.short_leg.delta
                ∷ ctx.long_leg.option_symbol
                ∷ decimal_text ctx.long_leg.delta
                ∷ show_ℕ ctx.contracts
                ∷ option_type_value inputs.option_type
                ∷ decimal_text inputs.short_strike
                ∷ decimal_text inputs.long_strike
                ∷ decimal_text inputs.net_credit
                ∷ show_ℕ inputs.multiplier
                ∷ whole_text inputs.dte
                ∷ isoformat ctx.as_of
                ∷ []))))))

  -- The candidate that the inputs make, with a number of days that is 0 or more.
  abbrev pub candidate_of :
      StrategyContext → CandidateInputs → StrategyName → ℕ → CandidateTradeIntent
  candidate_of ctx inputs name dte = record {
    status = IntentStatus.candidate;
    underlying = ctx.underlying;
    direction = ctx.direction;
    short_leg =
        leg_of_context short inputs.option_type inputs.short_strike ctx.short_leg ctx.contracts;
    long_leg = leg_of_context long inputs.option_type inputs.long_strike ctx.long_leg ctx.contracts;
    net_credit = inputs.net_credit;
    multiplier = inputs.multiplier;
    dte = dte;
    rationale_id = compute_rationale_id name ctx inputs;
  }

  abbrev pub candidate_for :
      StrategyContext
      → CandidateInputs
      → StrategyName
      → ℤ
      → Result MarketDataError CandidateTradeIntent
  candidate_for ctx inputs name (pos dte) =
      modelled candidate_valid (candidate_of ctx inputs name dte)
  candidate_for ctx inputs name (negsuc n) = err invalid_model

  unfoldable pub build_candidate :
      StrategyContext → CandidateInputs → StrategyName → Result MarketDataError CandidateTradeIntent
  build_candidate ctx inputs name = candidate_for ctx inputs name inputs.dte
