-- ===== src/Strategies/Premium.antt =====
-- strategies/catastrophe_premium_capture.py and zero_dte_time_decay.py: the two generators.
use hermes_personal_options.Common.{
  Bool, true, false, not, List, [], ◌∷◌, String, Result, ok, ◌>>=◌, if◌then◌else◌,
}
use hermes_personal_options.Common.Int.{ℤ}
use hermes_personal_options.Decimal.{Decimal, decimal_of}
use hermes_personal_options.Time.{AwareDateTime, DateTime}
use hermes_personal_options.Schemas.Enums.{
  catastrophe_premium_capture, zero_dte_time_decay, StrategyStage,
}
use hermes_personal_options.Schemas.StrategyGate.{
  StrategyGate, no_promotion, iv_rank_satisfied, dte_allowed,
}
use hermes_personal_options.Data.Base.{MarketDataError}
use hermes_personal_options.Strategies.Base.{
  StrategyContext, CandidateInputs, StrategyProposal, within_entry_window, collect_inputs,
  build_candidate,
}

abbrev pub catastrophe_gate : StrategyGate
catastrophe_gate = record {
  name = catastrophe_premium_capture;
  stage = StrategyStage.paper;
  iv_rank_min = decimal_of 80 0;
  dte_min = 1;
  dte_max = 5;
  first_live_candidate = true;
  promotion = no_promotion;
  human_live_amendment = false;
}

abbrev pub zero_dte_gate : StrategyGate
zero_dte_gate = record {
  name = zero_dte_time_decay;
  stage = StrategyStage.hypothesis;
  iv_rank_min = decimal_of 50 0;
  dte_min = 0;
  dte_max = 0;
  first_live_candidate = false;
  promotion = no_promotion;
  human_live_amendment = false;
}

module _ (chicago : AwareDateTime → AwareDateTime) (sha256 : String → String)
    (decimal_text : Decimal → String) (whole_text : ℤ → String)
    (isoformat : DateTime → String) where
  -- The tests that come before the candidate.
  unfoldable pub generate_filtered :
      StrategyContext → CandidateInputs → Bool → Result MarketDataError (List StrategyProposal)
  generate_filtered ctx inputs in_window =
      if not in_window
      then ok []
      else if not (iv_rank_satisfied catastrophe_gate inputs.iv_rank_value)
      then ok []
      else if not (dte_allowed catastrophe_gate inputs.dte)
      then ok []
      else build_candidate sha256 decimal_text whole_text isoformat ctx inputs
          catastrophe_premium_capture
        >>= λ c. ok (
            record {
              strategy_name = catastrophe_premium_capture;
              candidate = c;
              gate = catastrophe_gate;
            }
            ∷ [])

  -- `CatastrophePremiumCapture.generate`
  unfoldable pub generate : StrategyContext → Result MarketDataError (List StrategyProposal)
  unfolding generate_filtered
  generate ctx = do
    inputs ← collect_inputs ctx
    in_window ← within_entry_window chicago ctx
    generate_filtered ctx inputs in_window

-- `ZeroDteTimeDecay.generate`
unfoldable pub generate_zero_dte : StrategyContext → Result MarketDataError (List StrategyProposal)
generate_zero_dte ctx = ok []
