-- ===== src/Strategies/Scoring.antt =====
-- strategies/scoring.py: the rank of proposals.
use hermes_personal_options.Common.{Bool, ◌&&◌, ◌||◌, List, map}
use hermes_personal_options.Common.Sort.{sort_by}
use hermes_personal_options.Common.TextOrder.{before_text}
use hermes_personal_options.Decimal.{Decimal, div_dec, neg_dec, lt_dec, eq_dec}
use hermes_personal_options.Schemas.TradeIntent.{spread_width}
use hermes_personal_options.Strategies.Base.{StrategyProposal}

pub record ScoredProposal : Type 0 where
  pub proposal : StrategyProposal
  pub score : Decimal

unfoldable pub score_proposal : StrategyProposal → ScoredProposal
score_proposal p = record {
  proposal = p;
  score = div_dec p.candidate.net_credit (spread_width p.candidate);
}

-- The order of two keys of three parts.
unfoldable pub ranks_before : ScoredProposal → ScoredProposal → Bool
ranks_before a b =
    lt_dec (neg_dec a.score) (neg_dec b.score)
    || eq_dec (neg_dec a.score) (neg_dec b.score)
      && (lt_dec a.proposal.candidate.short_leg.strike b.proposal.candidate.short_leg.strike
          || eq_dec a.proposal.candidate.short_leg.strike b.proposal.candidate.short_leg.strike
            && before_text a.proposal.candidate.rationale_id b.proposal.candidate.rationale_id)

unfoldable pub rank_proposals : List StrategyProposal → List ScoredProposal
unfolding score_proposal ranks_before
rank_proposals proposals = sort_by ranks_before (map score_proposal proposals)
