-- ===== src/Services/PaperCycle.antt =====
-- services/paper_cycle.py: `run_paper_cycle`, without the heartbeat file. `clock` is the time at the item
-- of a number.
use Prim.Native.String.{◌++◌ as append_text}
use hermes_personal_options.Common.{
  ℕ, suc, Bool, true, false, not, ◌&&◌, Option, none, some, List, [], ◌∷◌, String, Result, ok, err,
  is_absent, is_empty, length, if◌then◌else◌,
}
use hermes_personal_options.Common.Text.{show_ℕ}
use hermes_personal_options.Decimal.{Decimal}
use hermes_personal_options.Time.{AwareDateTime, aware}
use hermes_personal_options.Schemas.Enums.{
  ReasonCode, SubmitMode, is_limit, price_stale, human_rearm_required, internal_contradiction,
}
use hermes_personal_options.Schemas.Model.{ModelError, construct}
use hermes_personal_options.Schemas.Audit.{AuditArtifact, artifact_valid}
use hermes_personal_options.Schemas.TradeIntent.{ValidatedTradeIntent}
use hermes_personal_options.Schemas.OrderTicket.{OrderTicket}
use hermes_personal_options.Schemas.BrokerSubmission.{BrokerSubmitIntent}
use hermes_personal_options.Gateway.Validate.{validate}
use hermes_personal_options.Gateway.OrderRouting.{OrderRoutingState, mint_order_ticket}
use hermes_personal_options.Gateway.BrokerSubmission.{
  mint_broker_submit_intent, mint_execution_report,
}
use hermes_personal_options.Brokers.Base.{
  BrokerFill, BrokerErrorKind, audit_artifact_from_broker_error,
}
use hermes_personal_options.Brokers.Paper.{PaperSubmitApproval, submit_order}
use hermes_personal_options.Storage.Models.{HermesObject}
use hermes_personal_options.Storage.Backend.{Backend}
use hermes_personal_options.Storage.Base.{append, record_submit_attempt}
use hermes_personal_options.Config.{AppConfig, env_value, broker_mode_value, submission_armed}
use hermes_personal_options.Services.Steps.{CycleError, Step, ◌>>=◌, ◌>>◌, give, raise, call}
use hermes_personal_options.Services.Paper.{
  Outside, LocalPaperBroker, PaperSubmitRequest, PaperCounters, no_counts, count_rejected,
  count_deferred, count_submitted, count_failed, count_duplicate, PaperCycleResult, is_paper_safe,
  python_bool, noted, attempted, answered, report_created_at,
}

module _ (outside : Outside) (B : Backend) (recorded_at : AwareDateTime) where
  open outside use {
    codec, request_digest, chicago, ticket_digest, intent_digest, isoformat, error_text,
  }
  open B use {State}

  -- `_audit`
  unfoldable pub audit : HermesObject → AwareDateTime → Step State (Unit {0})
  audit obj created_at m = noted m (append codec B m.store obj created_at recorded_at none)

  -- An artifact that is made and kept.
  unfoldable pub audit_artifact : String → String → List ReasonCode → String → Step State (Unit {0})
  unfolding audit
  audit_artifact artifact_id decision reason_codes detail = do
    artifact ←
        call (λ (e : ModelError). CycleError.invalid_model)
          (construct artifact_valid (record {
            artifact_id = artifact_id;
            created_at = recorded_at;
            decision = decision;
            reason_codes = reason_codes;
            detail = detail;
          }))
    audit (HermesObject.audit_artifact artifact) recorded_at

  -- `paper-{tag}-{recorded_at}-{ordinal}`
  abbrev artifact_name : String → ℕ → String
  artifact_name tag ordinal = append_text "paper-" (
      append_text tag
        (append_text "-" (append_text (isoformat recorded_at) (append_text "-" (show_ℕ ordinal)))))

  -- `_defer`
  unfoldable pub defer : String → ReasonCode → String → ℕ → Step State (Unit {0})
  unfolding audit_artifact
  defer detail reason tag ordinal =
      audit_artifact (artifact_name tag ordinal) "PAPER_SUBMIT_DEFERRED" (reason ∷ []) detail

  unfoldable pub audit_start : AppConfig → LocalPaperBroker → ℕ → Step State (Unit {0})
  unfolding audit_artifact
  audit_start config broker count =
      audit_artifact (append_text "paper-startup-" (isoformat recorded_at)) "PAPER_CYCLE_START" [] (
        append_text "app_env=" (
          append_text (env_value config.app_env) (
            append_text " broker_mode=" (
              append_text (broker_mode_value config.broker_mode) (
                append_text " submission_armed=" (
                  append_text (python_bool (submission_armed config)) (
                    append_text " require_human_confirm=" (
                      append_text (python_bool broker.config.paper_require_human_confirm)
                        (append_text " requests=" (show_ℕ count))))))))))

  module _ (broker : LocalPaperBroker) (clock : ℕ → AwareDateTime) where
    -- `store.record_submit_attempt`, with the duplicate caught.
    unfoldable pub attempt : BrokerSubmitIntent → Step State Bool
    attempt i m = attempted m (record_submit_attempt codec B m.store i recorded_at)

    -- `broker.submit_order`, with a broker's error caught.
    unfoldable pub submit :
        BrokerSubmitIntent
        → PaperSubmitApproval
        → ℕ
        → Step State (Result (BrokerErrorKind × ReasonCode) BrokerFill)
    submit i approval ordinal m = answered m (
        submit_order intent_digest broker.config broker.kind m.broker i (some approval)
          (clock ordinal))

    -- What follows the broker's answer.
    unfoldable pub settle :
        BrokerSubmitIntent
        → ℕ
        → PaperCounters
        → Result (BrokerErrorKind × ReasonCode) BrokerFill
        → Step State PaperCounters
    unfolding audit
    settle i ordinal c (err (kind, reason)) = do
      artifact ←
          call (λ (e : ModelError). CycleError.invalid_model)
            (audit_artifact_from_broker_error reason (error_text kind)
              (artifact_name "submitfail" ordinal) recorded_at)
      audit (HermesObject.audit_artifact artifact) recorded_at
      give (count_failed c)
    settle i ordinal c (ok fill) = do
      report ←
          call (λ (e : ModelError). CycleError.invalid_model)
            (mint_execution_report i fill.broker_order_id fill.lifecycle_state fill.filled_contracts
              fill.avg_fill_price fill.fill_timestamp fill.completed_at)
      audit (HermesObject.execution_report report) (report_created_at report)
      give (count_submitted c)

    -- A confirmed intent: the attempt is kept before the broker is called.
    unfoldable pub submit_recorded :
        BrokerSubmitIntent
        → PaperSubmitApproval
        → ℕ
        → PaperCounters
        → Bool
        → Step State PaperCounters
    unfolding submit settle audit_artifact
    submit_recorded i approval ordinal c false = do
      audit_artifact (artifact_name "dupe" ordinal) "PAPER_SUBMIT_DUPLICATE_SKIPPED"
          (internal_contradiction ∷ [])
          (append_text "idempotency_key=" (
            append_text i.idempotency_key
              " already recorded; refusing to re-submit the same decision"))
      give (count_duplicate c)
    submit_recorded i approval ordinal c true = do
      answer ← submit i approval ordinal
      settle i ordinal c answer

    unfoldable pub submit_confirmed :
        BrokerSubmitIntent → PaperSubmitApproval → ℕ → PaperCounters → Step State PaperCounters
    unfolding attempt submit_recorded
    submit_confirmed i approval ordinal c = do
      recorded ← attempt i
      submit_recorded i approval ordinal c recorded

    module _ (confirmer : BrokerSubmitIntent → Option PaperSubmitApproval)
        (attempt_counter : ℕ) where
      unfoldable pub submit_if_confirmed :
          BrokerSubmitIntent
          → Option PaperSubmitApproval
          → ℕ
          → PaperCounters
          → Step State PaperCounters
      unfolding submit_confirmed defer
      submit_if_confirmed i none ordinal c = do
        defer
            (append_text "idempotency_key="
              (append_text i.idempotency_key " awaiting human confirmation"))
            human_rearm_required "noconfirm" ordinal
        give (count_deferred c)
      submit_if_confirmed i (some approval) ordinal c = submit_confirmed i approval ordinal c

      abbrev limit_of : OrderTicket → Option Decimal → Option Decimal
      limit_of ticket price = if is_limit ticket.order_type then price else none

      -- From a ticket on.
      unfoldable pub submit_ticket :
          OrderTicket
          → Option Decimal
          → AwareDateTime
          → ℕ
          → PaperCounters
          → Step State PaperCounters
      unfolding submit_if_confirmed defer
      submit_ticket ticket price as_of ordinal c =
          let deferral : Step State PaperCounters = (do
            defer
                (append_text "order_ticket_hash=" (
                  append_text (isoformat ticket.created_at)
                    " has no validated limit_price; LIMIT paper submit requires a reconciled price"))
                price_stale "noprice" ordinal
            give (count_deferred c)) in
          let submission : Step State PaperCounters = (do
            i ← call CycleError.submission (
                mint_broker_submit_intent ticket_digest ticket attempt_counter SubmitMode.paper
                  (limit_of ticket price) (some (aware as_of)) (clock ordinal))
            submit_if_confirmed i (confirmer i) ordinal c) in
          if is_limit ticket.order_type && is_absent price then deferral else submission

      module _ (routing : OrderRoutingState) where
        -- From the gateway's approval or rejection on.
        unfoldable pub decided :
            PaperSubmitRequest
            → ℕ
            → Option ValidatedTradeIntent
            → Option AuditArtifact
            → PaperCounters
            → Step State PaperCounters
        unfolding audit submit_ticket
        decided item ordinal none none c = raise CycleError.assertion
        decided item ordinal none (some rejection) c = do
          audit (HermesObject.audit_artifact rejection) rejection.created_at
          give (count_rejected c)
        decided item ordinal (some validated) rejection c = do
          audit (HermesObject.validated_trade_intent validated) item.request.as_of
          ticket ← call CycleError.ticketing (
              mint_order_ticket validated routing (some (aware item.request.as_of)) (clock ordinal))
          audit (HermesObject.order_ticket ticket) ticket.created_at
          submit_ticket ticket item.limit_price item.request.as_of ordinal c

        -- One item of the loop.
        unfoldable pub evaluate : PaperSubmitRequest → ℕ → PaperCounters → Step State PaperCounters
        unfolding audit decided
        evaluate item ordinal c = do
          audit (HermesObject.gateway_request item.request) item.request.as_of
          decision ← call CycleError.gateway (validate request_digest chicago item.request)
          decided item ordinal decision.approved decision.rejection c

        -- The loop, with the counters so far.
        unfoldable pub evaluate_all :
            List PaperSubmitRequest → ℕ → PaperCounters → Step State PaperCounters
        unfolding evaluate
        evaluate_all [] ordinal counters = give counters
        evaluate_all (item ∷ items) ordinal counters = do
          counted ← evaluate item ordinal counters
          evaluate_all items (suc ordinal) counted

      -- The items need a routing state.
      unfoldable pub evaluate_routed :
          Option OrderRoutingState → List PaperSubmitRequest → Step State PaperCounters
      unfolding evaluate_all
      evaluate_routed none items = give no_counts
      evaluate_routed (some routing) items = evaluate_all routing items 0 no_counts

      -- What is returned, with the ids of the run.
      unfoldable pub summary : AppConfig → ℕ → PaperCounters → Step State PaperCycleResult
      summary config count counters m = (
        ok (record {
          app_env = config.app_env;
          requests_evaluated = count;
          counters = counters;
          audit_record_ids = m.record_ids;
        }),
        m,
      )

      unfoldable pub run_safe :
          AppConfig
          → List PaperSubmitRequest
          → Option OrderRoutingState
          → Step State PaperCycleResult
      unfolding audit_start evaluate_routed summary
      run_safe config requests routing = do
        audit_start config broker (length requests)
        counters ← evaluate_routed routing requests
        summary config (length requests) counters

      unfoldable pub run_paper_cycle :
          AppConfig
          → List PaperSubmitRequest
          → Option OrderRoutingState
          → Step State PaperCycleResult
      unfolding run_safe
      run_paper_cycle config requests routing m =
          if not (is_paper_safe config broker.config)
          then raise CycleError.unsafe_config m
          else if not (is_empty requests) && is_absent routing
          then raise CycleError.no_routing_state m
          else run_safe config requests routing (record m { record_ids = [] })
