-- ===== src/Services/Counts.antt =====
-- services/paper_cycle.py: the counters of a run are those of the rows that it leaves.
use mathlib.Core.Path.{subst}
use hermes_personal_options.Common.{
  ℕ, suc, ◌+◌, Bool, true, false, not, ◌&&◌, Option, none, some, List, [], ◌∷◌, String, Result, ok,
  ok-injective, is_absent, is_empty, length, ◌≡◌, refl, ap, sym, ◌∙◌, Bool-cases, inl, inr, arith,
  if◌then◌else◌,
}
use hermes_personal_options.Time.{AwareDateTime}
use hermes_personal_options.Schemas.Audit.{AuditArtifact}
use hermes_personal_options.Schemas.TradeIntent.{ValidatedTradeIntent}
use hermes_personal_options.Schemas.BrokerSubmission.{BrokerSubmitIntent}
use hermes_personal_options.Gateway.OrderRouting.{OrderRoutingState}
use hermes_personal_options.Brokers.Paper.{PaperSubmitApproval}
use hermes_personal_options.Storage.Models.{HermesObject}
use hermes_personal_options.Storage.Backend.{Backend, IsLawful}
use hermes_personal_options.Config.{AppConfig}
use hermes_personal_options.Services.Steps.{
  CycleError, Memory, raise, >>=-answers, call-answers, give-answers,
}
use hermes_personal_options.Services.Paper.{
  Outside, LocalPaperBroker, PaperSubmitRequest, PaperCounters, PaperCycleResult, is_paper_safe,
  no_counts,
}
use hermes_personal_options.Services.PaperCycle.{
  decided, evaluate, evaluate_all, evaluate_routed, audit_start, summary, run_safe, run_paper_cycle,
}
use hermes_personal_options.Services.Tally.{
  Rows, tally, request-Adds, validated-Adds, ticket-Adds, artifact-Adds,
}
use hermes_personal_options.Services.Endings.{
  Ended, audit-answers, artifact-answers, submit_ticket-answers,
}
use hermes_personal_options.Services.Counters.{
  approved_count, total, Counted, Counted-trans, one_request, one_validated, Ended-Counted,
  rejected-Counted,
}
use hermes_personal_options.Services.PlainRejection.{Plain, validate-Plain}

chosen :
    {A : Type 0} (first second : Bool) (x y z : A)
    → first ≡ false
    → second ≡ false
    → (if first then x else if second then y else z) ≡ z
chosen true second x y z h k = cc h
chosen false true x y z h k = cc k
chosen false false x y z h k = refl

module _ (outside : Outside) (B : Backend) (L : IsLawful B) (recorded_at : AwareDateTime)
    (decision_in : String → String)
    (reads : (a : AuditArtifact)
      → decision_in (outside.codec.model_dump_json (HermesObject.audit_artifact a)) ≡ a.decision)
    (broker : LocalPaperBroker) (clock : ℕ → AwareDateTime)
    (confirmer : BrokerSubmitIntent → Option PaperSubmitApproval) (attempt_counter : ℕ) where
  open outside use {codec}

  -- The rows of the store, by their kind.
  abbrev pub rows_in : Memory B.State → Rows
  rows_in m = tally decision_in (B.iter_events m.store)

  decided-Counted :
      (routing : OrderRoutingState) (item : PaperSubmitRequest) (ordinal : ℕ)
      (approved : Option ValidatedTradeIntent) (rejection : Option AuditArtifact)
      (c d : PaperCounters) (m after : Memory B.State) (s : Rows)
      → Plain rejection
      → rows_in m ≡ one_request s
      → decided outside B recorded_at broker clock confirmer attempt_counter routing item ordinal
          approved rejection c m
        ≡ (ok d, after)
      → Counted 1 s (rows_in after) c d
  unfolding decided raise
  decided-Counted routing item ordinal none none c d m after s plain start h = absurd (cc h)
  decided-Counted routing item ordinal none (some rejection) c d m after s plain start h =
      let (mid, rows, last) =
        audit-answers outside B L recorded_at decision_in reads _ _ _ m d after
          (artifact-Adds decision_in codec rejection (reads rejection)) h in
      let (counted, same) = give-answers _ mid d after last in
      rejected-Counted s _ c d (ap rows_in (sym same) ∙ rows ∙ rw plain start) (sym counted)
  decided-Counted routing item ordinal (some validated) rejection c d m after s plain start h =
      let (mid, rows, rest) =
        audit-answers outside B L recorded_at decision_in reads _ _ _ m d after
          (validated-Adds decision_in codec validated) h in
      let (ticket, minted, rest') = call-answers _ _ _ mid d after rest in
      let (mid', rows', last) =
        audit-answers outside B L recorded_at decision_in reads _ _ _ mid d after
          (ticket-Adds decision_in codec ticket) rest' in
      let ended =
        submit_ticket-answers outside B L recorded_at decision_in reads broker clock confirmer
          attempt_counter ticket item.limit_price item.request.as_of ordinal c d mid' after last in
      Ended-Counted s _ c d
        (subst (λ x. Ended x (rows_in after) c d) (rows' ∙ rows ∙ ap one_validated start) ended)

  evaluate-Counted :
      (routing : OrderRoutingState) (item : PaperSubmitRequest) (ordinal : ℕ) (c d : PaperCounters)
      (m after : Memory B.State)
      → evaluate outside B recorded_at broker clock confirmer attempt_counter routing item ordinal c
          m
        ≡ (ok d, after)
      → Counted 1 (rows_in m) (rows_in after) c d
  unfolding evaluate
  evaluate-Counted routing item ordinal c d m after h =
      let (mid, rows, rest) =
        audit-answers outside B L recorded_at decision_in reads _ _ _ m d after
          (request-Adds decision_in codec item.request) h in
      let (decision, made, last) = call-answers _ _ _ mid d after rest in
      decided-Counted routing item ordinal decision.approved decision.rejection c d mid after
        (rows_in m)
        (validate-Plain outside.request_digest outside.chicago item.request decision made) rows last

  evaluate_all-Counted :
      (routing : OrderRoutingState) (items : List PaperSubmitRequest) (ordinal : ℕ)
      (c d : PaperCounters) (m after : Memory B.State)
      → evaluate_all outside B recorded_at broker clock confirmer attempt_counter routing items
          ordinal c m
        ≡ (ok d, after)
      → Counted (length items) (rows_in m) (rows_in after) c d
  unfolding evaluate_all
  evaluate_all-Counted routing [] ordinal c d m after h =
      let (counted, same) = give-answers c m d after h in
      subst (λ x. Counted 0 (rows_in m) (rows_in after) c x) counted
        (subst (λ x. Counted 0 (rows_in m) (rows_in x) c c) same
          (omega arith, omega arith, refl, refl, refl, refl))
  evaluate_all-Counted routing (item ∷ items) ordinal c d m after h =
      let (mid_counts, first, rest) =
        >>=-answers
          (evaluate outside B recorded_at broker clock confirmer attempt_counter routing item
            ordinal c)
          _ m d after h in
      Counted-trans (length items) (rows_in m) _ (rows_in after) c mid_counts d
        (evaluate-Counted routing item ordinal c mid_counts m _ first)
        (evaluate_all-Counted routing items (suc ordinal) mid_counts d _ after rest)

  evaluate_routed-Counted :
      (routing : Option OrderRoutingState) (items : List PaperSubmitRequest) (d : PaperCounters)
      (m after : Memory B.State)
      → (not (is_empty items) && is_absent routing) ≡ false
      → evaluate_routed outside B recorded_at broker clock confirmer attempt_counter routing items m
        ≡ (ok d, after)
      → Counted (length items) (rows_in m) (rows_in after) no_counts d
  unfolding evaluate_routed
  evaluate_routed-Counted none [] d m after routed h =
      let (counted, same) = give-answers no_counts m d after h in
      subst (λ x. Counted 0 (rows_in m) (rows_in after) no_counts x) counted
        (subst (λ x. Counted 0 (rows_in m) (rows_in x) no_counts no_counts) same
          (refl, omega arith, refl, refl, refl, refl))
  evaluate_routed-Counted none (item ∷ items) d m after routed h = absurd (cc routed)
  evaluate_routed-Counted (some routing) items d m after routed h =
      evaluate_all-Counted routing items 0 no_counts d m after h

  run_safe-Counted :
      (config : AppConfig) (requests : List PaperSubmitRequest) (routing : Option OrderRoutingState)
      (m : Memory B.State) (r : PaperCycleResult) (after : Memory B.State)
      → (not (is_empty requests) && is_absent routing) ≡ false
      → run_safe outside B recorded_at broker clock confirmer attempt_counter config requests
          routing m
        ≡ (ok r, after)
      → (r.requests_evaluated ≡ length requests)
        × Counted (length requests) (rows_in m) (rows_in after) no_counts r.counters
  unfolding run_safe audit_start summary
  run_safe-Counted config requests routing m r after routed h =
      let (mid, rows, rest) =
        artifact-answers outside B L recorded_at decision_in reads _ _ _ _ _ m r after h in
      let (counters, counted, done) = >>=-answers _ _ mid r after rest in
      let same =
        ok-injective (ap (λ (p : Result CycleError PaperCycleResult × Memory B.State). p.0) done) in
      let store = ap (λ (p : Result CycleError PaperCycleResult × Memory B.State). p.1) done in
      let ended : Memory B.State =
        (evaluate_routed outside B recorded_at broker clock confirmer attempt_counter routing
          requests mid).1 in
      let run = evaluate_routed-Counted routing requests counters mid ended routed counted in
      (
        ap (λ (x : PaperCycleResult). x.requests_evaluated) (sym same),
        subst (λ x. Counted (length requests) x (rows_in after) no_counts r.counters) rows
            (subst (λ x. Counted (length requests) (rows_in mid) (rows_in x) no_counts r.counters)
              store
              (subst
                (λ (x : PaperCycleResult).
                  Counted (length requests) (rows_in mid) (rows_in ended) no_counts x.counters)
                same run)),
      )

  -- A run that answers had a safe configuration, and its counters are those of the rows that it left: the
  -- items are as many as the counters' sum and as the requests that were stored; the approved ones (all
  -- but the rejected) as the validated intents; the submitted and the failed ones as the submissions;
  -- the submitted ones as the execution reports; and the skipped ones as the artifacts of a duplicate,
  -- where the decision of an artifact is read back from its text.
  pub run_paper_cycle-counts :
      (config : AppConfig) (requests : List PaperSubmitRequest) (routing : Option OrderRoutingState)
      (m : Memory B.State) (r : PaperCycleResult) (after : Memory B.State)
      → run_paper_cycle outside B recorded_at broker clock confirmer attempt_counter config requests
          routing m
        ≡ (ok r, after)
      → (is_paper_safe config broker.config ≡ true)
        × (r.requests_evaluated ≡ length requests)
        × (total r.counters ≡ length requests)
        × ((rows_in after).requests ≡ (rows_in m).requests + length requests)
        × ((rows_in after).validated ≡ (rows_in m).validated + approved_count r.counters)
        × ((rows_in after).submissions
            ≡ (rows_in m).submissions + (r.counters.submitted + r.counters.submit_failed))
        × ((rows_in after).reports ≡ (rows_in m).reports + r.counters.submitted)
        × ((rows_in after).duplicates ≡ (rows_in m).duplicates + r.counters.duplicate_skipped)
  unfolding run_paper_cycle raise
  run_paper_cycle-counts config requests routing m r after h =
      elim (Bool-cases (is_paper_safe config broker.config)) [
        | inr refused ↦ absurd (cc (h, refused))
        | inl safe ↦ elim (Bool-cases (not (is_empty requests) && is_absent routing)) [
          | inl missing ↦ absurd (cc (h, safe, missing))
          | inr routed ↦
              let start : Memory B.State = record m { record_ids = [] } in
              let (evaluated, counted) =
                run_safe-Counted config requests routing start r after routed
                  (sym (chosen _ _ _ _ _ (ap not safe) routed) ∙ h) in
              let (items, stored, validated, submissions, reports, duplicates) = counted in
              (
                safe,
                evaluated,
                omega arith,
                stored,
                omega arith,
                omega arith,
                omega arith,
                omega arith,
              )
        ]
      ]
