-- ===== src/Services/Sanctions.antt =====
-- services/paper_cycle.py: which orders a broker can hold after a run.
use hermes_personal_options.Common.{
  ℕ, suc, Bool, true, false, not, ◌&&◌, Option, none, some, List, [], ◌∷◌, String, Result, err, All,
  is_absent, is_empty, ◌≡◌, refl, ◌⊎◌, inl, if◌then◌else◌,
}
use hermes_personal_options.Common.Dict.{get}
use hermes_personal_options.Common.Sort.{All-map}
use hermes_personal_options.Time.{AwareDateTime}
use hermes_personal_options.Schemas.Enums.{is_limit}
use hermes_personal_options.Schemas.BrokerSubmission.{BrokerSubmitIntent}
use hermes_personal_options.Decimal.{Decimal}
use hermes_personal_options.Schemas.OrderTicket.{OrderTicket}
use hermes_personal_options.Schemas.TradeIntent.{ValidatedTradeIntent}
use hermes_personal_options.Schemas.Audit.{AuditArtifact}
use hermes_personal_options.Gateway.OrderRouting.{OrderRoutingState}
use hermes_personal_options.Brokers.Base.{BrokerFill}
use hermes_personal_options.Brokers.Fake.{FakeBroker}
use hermes_personal_options.Brokers.Paper.{PaperSubmitApproval}
use hermes_personal_options.Storage.Backend.{Backend, IsLawful}
use hermes_personal_options.Config.{AppConfig}
use hermes_personal_options.Services.Steps.{
  CycleError, unsafe_config, raise, Memory, Step, Keeps, >>=-Keeps, >>-Keeps, give-Keeps,
  raise-Keeps, call-Keeps, >>=-Keeps_with, >>=-Keeps_from,
}
use hermes_personal_options.Services.Paper.{
  Outside, LocalPaperBroker, PaperSubmitRequest, PaperCounters, is_paper_safe, no_counts,
}
use hermes_personal_options.Services.PaperCycle.{
  attempt, submit_recorded, submit_confirmed, submit_if_confirmed, submit_ticket, decided, evaluate,
  evaluate_all, evaluate_routed, audit_start, summary, run_safe, run_paper_cycle,
}
use hermes_personal_options.Services.Accounts.{own_keys}
use hermes_personal_options.Services.Calls.{
  Recorded, Sanctioned, Accounted, AllAccounted, audit-Keeps, attempt-Keeps, attempt-Recorded,
  submit-Keeps, artifact-Keeps, defer-Keeps, settle-Keeps,
}

module _ (outside : Outside) (B : Backend) (L : IsLawful B) (recorded_at : AwareDateTime) where
  module _ (broker : LocalPaperBroker) (clock : ℕ → AwareDateTime)
      (confirmer : BrokerSubmitIntent → Option PaperSubmitApproval) (attempt_counter : ℕ) where
    module _ (before : FakeBroker) where
      -- The orders are accounted for.
      abbrev Held : Memory B.State → Type 0
      Held m = AllAccounted outside B L recorded_at broker clock confirmer before m

      submit_recorded-Keeps :
          (i : BrokerSubmitIntent) (a : PaperSubmitApproval) (ordinal : ℕ) (c : PaperCounters)
          (put : Bool) (m : Memory B.State)
          → confirmer i ≡ some a
          → Held m
          → (put ≡ true → Recorded outside B L recorded_at m.store i.idempotency_key)
          → Held (submit_recorded outside B recorded_at broker clock i a ordinal c put m).1
      unfolding submit_recorded
      submit_recorded-Keeps i a ordinal c false m confirmed h row =
          >>-Keeps Held _ _
            ((artifact-Keeps outside B L recorded_at broker clock confirmer before) _ _ _ _)
            (give-Keeps Held _) m h
      submit_recorded-Keeps i a ordinal c true m confirmed h row =
          >>=-Keeps_from Held _ _ m
            ((submit-Keeps outside B L recorded_at broker clock confirmer before) i a ordinal m
              confirmed h (row refl))
            ((settle-Keeps outside B L recorded_at broker clock confirmer before) i ordinal c)

      submit_confirmed-Keeps :
          (i : BrokerSubmitIntent) (a : PaperSubmitApproval) (ordinal : ℕ) (c : PaperCounters)
          → confirmer i ≡ some a
          → Keeps Held (submit_confirmed outside B recorded_at broker clock i a ordinal c)
      unfolding submit_confirmed
      submit_confirmed-Keeps i a ordinal c confirmed =
          >>=-Keeps_with Held
            (λ put m. put ≡ true → Recorded outside B L recorded_at m.store i.idempotency_key)
            (attempt outside B recorded_at broker clock i) _
            ((attempt-Keeps outside B L recorded_at broker clock confirmer before) i)
            ((attempt-Recorded outside B L recorded_at broker clock confirmer before) i)
            (λ put m h row. submit_recorded-Keeps i a ordinal c put m confirmed h row)

      submit_if_confirmed-Keeps :
          (i : BrokerSubmitIntent) (answer : Option PaperSubmitApproval) (ordinal : ℕ)
          (c : PaperCounters)
          → confirmer i ≡ answer
          → Keeps Held (
              submit_if_confirmed outside B recorded_at broker clock confirmer attempt_counter i
                answer ordinal c)
      unfolding submit_if_confirmed
      submit_if_confirmed-Keeps i none ordinal c confirmed =
          >>-Keeps Held _ _
            ((defer-Keeps outside B L recorded_at broker clock confirmer before) _ _ _ _)
            (give-Keeps Held _)
      submit_if_confirmed-Keeps i (some a) ordinal c confirmed =
          submit_confirmed-Keeps i a ordinal c confirmed

      either-Keeps :
          (test : Bool) (first second : Step B.State PaperCounters)
          → Keeps Held first
          → Keeps Held second
          → Keeps Held (if test then first else second)
      either-Keeps true first second h k = h
      either-Keeps false first second h k = k

      either-ends :
          {A : Type 0} (test : Bool) (first second : Result CycleError A × Memory B.State)
          → Held first.1
          → Held second.1
          → Held (if test then first else second).1
      either-ends true first second h k = h
      either-ends false first second h k = k

      submit_ticket-Keeps :
          (ticket : OrderTicket) (price : Option Decimal) (as_of : AwareDateTime) (ordinal : ℕ)
          (c : PaperCounters)
          → Keeps Held (
              submit_ticket outside B recorded_at broker clock confirmer attempt_counter ticket
                price as_of ordinal c)
      unfolding submit_ticket
      submit_ticket-Keeps ticket price as_of ordinal c =
          either-Keeps (is_limit ticket.order_type && is_absent price) _ _
            (>>-Keeps Held _ _
              ((defer-Keeps outside B L recorded_at broker clock confirmer before) _ _ _ _)
              (give-Keeps Held _))
            (>>=-Keeps Held _ _ (call-Keeps Held _ _)
              (λ i. submit_if_confirmed-Keeps i (confirmer i) ordinal c refl))

      module _ (routing : OrderRoutingState) where
        decided-Keeps :
            (item : PaperSubmitRequest) (ordinal : ℕ) (approved : Option ValidatedTradeIntent)
            (rejection : Option AuditArtifact) (c : PaperCounters)
            → Keeps Held (
                decided outside B recorded_at broker clock confirmer attempt_counter routing item
                  ordinal approved rejection c)
        unfolding decided
        decided-Keeps item ordinal none none c = raise-Keeps _ Held _
        decided-Keeps item ordinal none (some rejection) c =
            >>-Keeps Held _ _
              ((audit-Keeps outside B L recorded_at broker clock confirmer before) _ _)
              (give-Keeps Held _)
        decided-Keeps item ordinal (some validated) rejection c =
            >>-Keeps Held _ _
              ((audit-Keeps outside B L recorded_at broker clock confirmer before) _ _)
              (>>=-Keeps Held _ _ (call-Keeps Held _ _) (λ ticket.
                >>-Keeps Held _ _
                  ((audit-Keeps outside B L recorded_at broker clock confirmer before) _ _)
                  (submit_ticket-Keeps ticket item.limit_price item.request.as_of ordinal c)))

        evaluate-Keeps :
            (item : PaperSubmitRequest) (ordinal : ℕ) (c : PaperCounters)
            → Keeps Held (
                evaluate outside B recorded_at broker clock confirmer attempt_counter routing item
                  ordinal c)
        unfolding evaluate
        evaluate-Keeps item ordinal c =
            >>-Keeps Held _ _
              ((audit-Keeps outside B L recorded_at broker clock confirmer before) _ _)
              (>>=-Keeps Held _ _ (call-Keeps Held _ _)
                (λ decision. decided-Keeps item ordinal decision.approved decision.rejection c))

        evaluate_all-Keeps :
            (items : List PaperSubmitRequest) (ordinal : ℕ) (counters : PaperCounters)
            → Keeps Held (
                evaluate_all outside B recorded_at broker clock confirmer attempt_counter routing
                  items ordinal counters)
        unfolding evaluate_all
        evaluate_all-Keeps [] ordinal counters = give-Keeps Held counters
        evaluate_all-Keeps (item ∷ items) ordinal counters =
            >>=-Keeps Held _ _ (evaluate-Keeps item ordinal counters)
              (evaluate_all-Keeps items (suc ordinal))

      evaluate_routed-Keeps :
          (routing : Option OrderRoutingState) (items : List PaperSubmitRequest)
          → Keeps Held (
              evaluate_routed outside B recorded_at broker clock confirmer attempt_counter routing
                items)
      unfolding evaluate_routed
      evaluate_routed-Keeps none items = give-Keeps Held no_counts
      evaluate_routed-Keeps (some routing) items = evaluate_all-Keeps routing items 0 no_counts

      run_safe-Keeps :
          (config : AppConfig) (requests : List PaperSubmitRequest)
          (routing : Option OrderRoutingState)
          → Keeps Held (
              run_safe outside B recorded_at broker clock confirmer attempt_counter config requests
                routing)
      unfolding run_safe audit_start summary
      run_safe-Keeps config requests routing =
          >>-Keeps Held _ _
            ((artifact-Keeps outside B L recorded_at broker clock confirmer before) _ _ _ _)
            (>>=-Keeps Held _ _ (evaluate_routed-Keeps routing requests) (λ counters m h. h))

      run_paper_cycle-Keeps :
          (config : AppConfig) (requests : List PaperSubmitRequest)
          (routing : Option OrderRoutingState)
          → Keeps Held (
              run_paper_cycle outside B recorded_at broker clock confirmer attempt_counter config
                requests routing)
      unfolding run_paper_cycle raise
      run_paper_cycle-Keeps config requests routing m h =
          either-ends (not (is_paper_safe config broker.config)) _ _ h (
            either-ends (not (is_empty requests) && is_absent routing) _ _ h
              (run_safe-Keeps config requests routing (record m { record_ids = [] }) h))

    own_orders :
        (b : FakeBroker) (s : B.State)
        → All
            (λ (e : String × BrokerFill).
              Accounted outside B L recorded_at broker clock confirmer b s e.0)
            b.fills
    own_orders b s =
        All-map (λ e. is_absent (get b.fills e.0) ≡ false)
          (λ e. Accounted outside B L recorded_at broker clock confirmer b s e.0) b.fills
          (λ e here. inl here) (own_keys b.fills)

    -- Whether the run answers or raises, each order that the broker holds after it was held before, or is
    -- the order of a paper intent that the confirmer approved, that passed the broker's policy with this
    -- approval, and whose attempt is in the store; and an unsafe configuration changes nothing.
    pub run_paper_cycle-Sanctioned :
        (config : AppConfig) (requests : List PaperSubmitRequest)
        (routing : Option OrderRoutingState) (m : Memory B.State)
        → All
            (λ (e : String × BrokerFill).
              (is_absent (get m.broker.fills e.0) ≡ false)
              ⊎ Sanctioned outside B L recorded_at broker clock confirmer
                  (run_paper_cycle outside B recorded_at broker clock confirmer attempt_counter
                    config requests routing m).1.store
                  e.0)
            (run_paper_cycle outside B recorded_at broker clock confirmer attempt_counter config
              requests routing m).1.broker.fills
          × (is_paper_safe config broker.config ≡ false
              → run_paper_cycle outside B recorded_at broker clock confirmer attempt_counter config
                  requests routing m
                ≡ (err unsafe_config, m))
    unfolding run_paper_cycle raise
    run_paper_cycle-Sanctioned config requests routing m = (
      run_paper_cycle-Keeps m.broker config requests routing m (own_orders m.broker m.store),
      λ refused. rw refused refl,
    )
