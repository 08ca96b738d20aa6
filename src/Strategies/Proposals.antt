-- ===== src/Strategies/Proposals.antt =====
-- strategies/catastrophe_premium_capture.py: what stands behind a proposal.
use mathlib.Core.Path.{subst}
use hermes_personal_options.Common.{
  ℕ, Bool, true, false, not, List, [], ◌∷◌, String, Result, ok, ◌≡◌, refl, sym, ap, ◌∙◌, ◌≤◌,
  Bool-cases, inl, inr, arith, >>=-eq-ok, if◌then◌else◌,
}
use hermes_personal_options.Common.Int.{ℤ, pos, negsuc}
use hermes_personal_options.Decimal.{Decimal, decimal_of, le_dec}
use hermes_personal_options.Time.{AwareDateTime, DateTime}
use hermes_personal_options.Schemas.Enums.{catastrophe_premium_capture}
use hermes_personal_options.Schemas.TradeIntent.{CandidateTradeIntent, candidate_valid}
use hermes_personal_options.Schemas.StrategyGate.{live_eligible, iv_rank_satisfied, dte_allowed}
use hermes_personal_options.Data.Base.{modelled}
use hermes_personal_options.Strategies.Base.{
  StrategyContext, CandidateInputs, StrategyProposal, proposal_live_eligible, within_entry_window,
  collect_inputs, candidate_of, candidate_for, build_candidate,
}
use hermes_personal_options.Strategies.Premium.{catastrophe_gate, generate_filtered, generate}

modelled-eq-ok :
    {A : Type 0} (valid : A → Bool) (a b : A) → modelled valid a ≡ ok b → (valid b ≡ true) × (b ≡ a)
modelled-eq-ok valid a b h = elim (Bool-cases (valid a)) [
  | inl accepted ↦ let same : b ≡ a = cc (h, accepted) in (ap valid same ∙ accepted, same)
  | inr refused ↦ absurd (cc (h, refused))
]

-- A test that stops without a proposal was passed where there is one.
passed :
    {E A : Type 0} (b : Bool) (rest : Result E (List A)) {p : A} {ps : List A}
    → (if not b then ok [] else rest) ≡ ok (p ∷ ps)
    → (b ≡ true) × (rest ≡ ok (p ∷ ps))
passed true rest h = (refl, h)
passed false rest h = absurd (cc h)

dte_allowed-bounds :
    (dte : ℤ)
    → dte_allowed catastrophe_gate dte ≡ true
    → (n : ℕ) × (dte ≡ pos n) × (1 ≤ n) × (n ≤ 5)
unfolding dte_allowed
dte_allowed-bounds (pos n) h = (n, refl, ground arith, ground arith)
dte_allowed-bounds (negsuc n) h = absurd (ground arith)

module _ (chicago : AwareDateTime → AwareDateTime) (sha256 : String → String)
    (decimal_text : Decimal → String) (whole_text : ℤ → String)
    (isoformat : DateTime → String) where
  -- The inputs that a candidate was made from, and the bounds that they keep.
  pub record Grounds (ctx : StrategyContext) (p : StrategyProposal) : Type 0 where
    pub inputs : CandidateInputs
    pub dte : ℕ
    pub read : collect_inputs ctx ≡ ok inputs
    pub open_window : within_entry_window chicago ctx ≡ ok true
    pub rank_high : le_dec (decimal_of 80 0) inputs.iv_rank_value ≡ true
    pub dte_is : inputs.dte ≡ pos dte
    pub dte_low : 1 ≤ dte
    pub dte_high : dte ≤ 5
    pub made :
        p.candidate
        ≡ candidate_of sha256 decimal_text whole_text isoformat ctx inputs
            catastrophe_premium_capture dte
    pub valid : candidate_valid p.candidate ≡ true
    pub not_live : proposal_live_eligible p ≡ false

  build_candidate-eq-ok :
      (ctx : StrategyContext) (inputs : CandidateInputs) (dte : ℕ) {c : CandidateTradeIntent}
      → inputs.dte ≡ pos dte
      → build_candidate sha256 decimal_text whole_text isoformat ctx inputs
          catastrophe_premium_capture
        ≡ ok c
      → (candidate_valid c ≡ true)
        × (c
            ≡ candidate_of sha256 decimal_text whole_text isoformat ctx inputs
                catastrophe_premium_capture dte)
  unfolding build_candidate
  build_candidate-eq-ok ctx inputs dte whole h = modelled-eq-ok candidate_valid _ _ (
      ap
        (candidate_for sha256 decimal_text whole_text isoformat ctx inputs
          catastrophe_premium_capture)
        (sym whole)
      ∙ h)

  proposed :
      (ctx : StrategyContext) (inputs : CandidateInputs) (w : Bool) {p : StrategyProposal}
      {ps : List StrategyProposal}
      → collect_inputs ctx ≡ ok inputs
      → within_entry_window chicago ctx ≡ ok w
      → generate_filtered chicago sha256 decimal_text whole_text isoformat ctx inputs w
        ≡ ok (p ∷ ps)
      → Grounds ctx p × (ps ≡ [])
  unfolding generate_filtered iv_rank_satisfied proposal_live_eligible live_eligible
  proposed ctx inputs w {p} read window h =
      let (in_window, h1) = passed w _ h in
      let (ranked, h2) = passed (iv_rank_satisfied catastrophe_gate inputs.iv_rank_value) _ h1 in
      let (timed, h3) = passed (dte_allowed catastrophe_gate inputs.dte) _ h2 in
      let (c, built, done) = >>=-eq-ok _ _ h3 in
      let (dte, dte_is, low, high) = dte_allowed-bounds inputs.dte timed in
      let (valid, made) = build_candidate-eq-ok ctx inputs dte dte_is built in
      let proposal : StrategyProposal = record {
        strategy_name = catastrophe_premium_capture;
        candidate = c;
        gate = catastrophe_gate;
      } in
      let same : proposal ≡ p = cc done in
      let grounds : Grounds ctx proposal = record {
        inputs = inputs;
        dte = dte;
        read = read;
        open_window = window ∙ ap ok in_window;
        rank_high = ranked;
        dte_is = dte_is;
        dte_low = low;
        dte_high = high;
        made = made;
        valid = valid;
        not_live = refl;
      } in
      (subst (Grounds ctx) same grounds, cc done)

  -- The strategy makes one proposal at most. Where it makes one, the inputs could be read, the entry window
  -- was open, the IV rank was at least 80, the expiration is 1 to 5 days away, the candidate is what these
  -- inputs make and it is valid, and the proposal is not live eligible.
  pub generate-justified :
      (ctx : StrategyContext) {p : StrategyProposal} {ps : List StrategyProposal}
      → generate chicago sha256 decimal_text whole_text isoformat ctx ≡ ok (p ∷ ps)
      → Grounds ctx p × (ps ≡ [])
  unfolding generate
  generate-justified ctx h =
      let (inputs, read, h1) = >>=-eq-ok _ _ h in
      let (w, window, h2) = >>=-eq-ok _ _ h1 in proposed ctx inputs w read window h2
