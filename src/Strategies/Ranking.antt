-- ===== src/Strategies/Ranking.antt =====
-- strategies/scoring.py: the ranking keeps the proposals, and puts the richer credit first.
use mathlib.Core.List.{Permᴰ}
use hermes_personal_options.Common.{
  Bool, true, false, not, ◌&&◌, ◌||◌, List, map, [], ◌∷◌, ◌≡◌, refl, ◌∙◌, sym, ap, arith, All,
}
use hermes_personal_options.Common.Sort.{
  sort_by-Perm, sort_by-Settled, Settled, IsAsymmetric, All-sort_by,
}
use hermes_personal_options.Common.TextOrder.{before_text, before_text_asymmetric}
use hermes_personal_options.Decimal.{Decimal, neg_dec, div_dec, lt_dec, eq_dec}
use hermes_personal_options.Decimal.Order.{le_dec_total}
use hermes_personal_options.Schemas.TradeIntent.{CandidateTradeIntent, spread_width}
use hermes_personal_options.Strategies.Base.{StrategyProposal}
use hermes_personal_options.Strategies.Scoring.{
  ScoredProposal, score_proposal, ranks_before, rank_proposals,
}

-- Two keys, the first by its descent: a pair of parts at a time.
key_asymmetric :
    (p q t u : Bool)
    → (q ≡ false → p ≡ true)
    → (t ≡ true → u ≡ false)
    → (not q || p && q && t) ≡ true
    → (not p || q && p && u) ≡ false
key_asymmetric p q t u total later h = ground arith

ranks_before-IsAsymmetric : IsAsymmetric ranks_before
unfolding ranks_before
ranks_before-IsAsymmetric a b h =
    key_asymmetric _ _ _ _ (le_dec_total (neg_dec b.score) (neg_dec a.score))
      (key_asymmetric _ _ _ _
        (le_dec_total b.proposal.candidate.short_leg.strike a.proposal.candidate.short_leg.strike)
        (before_text_asymmetric a.proposal.candidate.rationale_id
          b.proposal.candidate.rationale_id))
      h

-- The credit for each unit of width.
abbrev pub credit_to_width : CandidateTradeIntent → Decimal
credit_to_width c = div_dec c.net_credit (spread_width c)

abbrev pub with_ratio : StrategyProposal → ScoredProposal
with_ratio p = record { proposal = p; score = credit_to_width p.candidate }

-- A lower short strike, or the same with an id that is not behind.
abbrev strike_and_id_in_order : CandidateTradeIntent → CandidateTradeIntent → Bool
strike_and_id_in_order a b =
    lt_dec a.short_leg.strike b.short_leg.strike
    || eq_dec a.short_leg.strike b.short_leg.strike
      && not (before_text b.rationale_id a.rationale_id)

-- A higher ratio, or the same ratio with strike and id in order.
abbrev pub key_in_order : Decimal → CandidateTradeIntent → Decimal → CandidateTradeIntent → Bool
key_in_order r a q b =
    lt_dec (neg_dec r) (neg_dec q) || eq_dec (neg_dec r) (neg_dec q) && strike_and_id_in_order a b

abbrev pub may_precede : CandidateTradeIntent → CandidateTradeIntent → Bool
may_precede a b = key_in_order (credit_to_width a) a (credit_to_width b) b

-- Each proposal may precede the next one.
abbrev pub InOrder : List ScoredProposal → Type 0
InOrder [] = Unit
InOrder (s ∷ []) = Unit
InOrder (s ∷ t ∷ rest) =
    (may_precede s.proposal.candidate t.proposal.candidate ≡ true) × InOrder (t ∷ rest)

-- A key that is not before another one is not behind it the other way round.
key_not_before :
    (p q t u : Bool)
    → (p ≡ false → q ≡ true)
    → (t ≡ false → u ≡ true)
    → (not q || p && q && t) ≡ false
    → (not p || q && p && u) ≡ true
key_not_before p q t u total later h = ground arith

abbrev HasRatio : ScoredProposal → Type 0
HasRatio s = s.score ≡ credit_to_width s.proposal.candidate

not_before-may_precede :
    (s t : ScoredProposal)
    → HasRatio s
    → HasRatio t
    → ranks_before t s ≡ false
    → may_precede s.proposal.candidate t.proposal.candidate ≡ true
unfolding ranks_before
not_before-may_precede s t mine theirs h =
    let first = s.proposal.candidate in
    let second = t.proposal.candidate in
    let behind = before_text second.rationale_id first.rationale_id in
    let scored : key_in_order s.score first t.score second ≡ true =
      key_not_before _ _ _ _ (le_dec_total (neg_dec t.score) (neg_dec s.score))
        (key_not_before _ _ behind (not behind)
          (le_dec_total second.short_leg.strike first.short_leg.strike) (ap not))
        h in
    ap (λ r. key_in_order r first (credit_to_width second) second) (sym mine)
    ∙ ap (λ r. key_in_order s.score first r second) (sym theirs)
    ∙ scored

Settled-InOrder :
    (scored : List ScoredProposal)
    → All HasRatio scored
    → Settled ranks_before scored
    → InOrder scored
Settled-InOrder [] ratios h = tt
Settled-InOrder (s ∷ []) ratios h = tt
Settled-InOrder (s ∷ t ∷ rest) ratios h =
    (not_before-may_precede s t ratios.0 ratios.1.0 h.0, Settled-InOrder (t ∷ rest) ratios.1 h.1)

All-with_ratio : (proposals : List StrategyProposal) → All HasRatio (map with_ratio proposals)
All-with_ratio [] = tt
All-with_ratio (p ∷ proposals) = (refl, All-with_ratio proposals)

-- The ranking is a permutation of the proposals, each with the ratio of its credit to its width as
-- score, in which each stands before the next by a higher ratio (a lower negated ratio), or by a
-- lower short strike at the same ratio, or at the same ratio and strike by a rationale id that is
-- not behind.
pub rank_proposals-ordered :
    (proposals : List StrategyProposal)
    → Permᴰ (rank_proposals proposals) (map with_ratio proposals)
      × InOrder (rank_proposals proposals)
unfolding rank_proposals score_proposal
rank_proposals-ordered proposals = (
  sort_by-Perm ranks_before (map with_ratio proposals),
  Settled-InOrder (rank_proposals proposals)
      (All-sort_by HasRatio ranks_before (map with_ratio proposals) (All-with_ratio proposals))
      (sort_by-Settled ranks_before ranks_before-IsAsymmetric (map with_ratio proposals)),
)
