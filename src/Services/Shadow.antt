-- ===== src/Services/Shadow.antt =====
-- services/shadow_cycle.py: the gateway and the ticket of each request, with no submission. The heartbeat
-- file is left out, and the broker of the memory is not used. `clock` is the time at the item of a number.
use Prim.Native.String.{◌++◌ as append_text}
use hermes_personal_options.Common.{
  ℕ, suc, Bool, true, not, ◌&&◌, ◌||◌, Option, none, some, List, [], ◌∷◌, String, ok, length,
  if◌then◌else◌,
}
use hermes_personal_options.Common.Text.{show_ℕ}
use hermes_personal_options.Time.{AwareDateTime, aware}
use hermes_personal_options.Schemas.Audit.{AuditArtifact}
use hermes_personal_options.Schemas.TradeIntent.{ValidatedTradeIntent}
use hermes_personal_options.Gateway.Request.{GatewayRequest}
use hermes_personal_options.Gateway.Validate.{validate}
use hermes_personal_options.Gateway.OrderRouting.{OrderRoutingState, mint_order_ticket}
use hermes_personal_options.Storage.Models.{HermesObject}
use hermes_personal_options.Storage.Backend.{Backend}
use hermes_personal_options.Config.{
  AppEnv, AppConfig, env_value, broker_mode_value, is_shadow, is_no_broker, submission_armed,
}
use hermes_personal_options.Services.Steps.{CycleError, Step, ◌>>=◌, ◌>>◌, give, raise, call}
use hermes_personal_options.Services.Paper.{Outside, python_bool}
use hermes_personal_options.Services.PaperCycle.{audit, audit_artifact}

pub record ShadowCounters : Type 0 where
  pub approved : ℕ
  pub rejected : ℕ

pub record ShadowCycleResult : Type 0 where
  pub app_env : AppEnv
  pub requests_evaluated : ℕ
  pub approved_dry_run_tickets : ℕ
  pub rejected : ℕ
  pub audit_record_ids : List String

-- `require_shadow_safe`
unfoldable pub is_shadow_safe : AppConfig → Bool
is_shadow_safe c =
    is_shadow c
    && is_no_broker c.broker_mode
    && not (
        c.submission_enabled
        || c.paper_submit_enabled
        || c.live_submit_enabled
        || submission_armed c)

module _ (outside : Outside) (B : Backend) (recorded_at : AwareDateTime)
    (clock : ℕ → AwareDateTime) where
  open outside use {request_digest, chicago, isoformat}
  open B use {State}

  unfoldable pub audit_shadow_start : AppConfig → ℕ → Step State (Unit {0})
  audit_shadow_start config count =
      audit_artifact outside B recorded_at (append_text "shadow-startup-" (isoformat recorded_at))
        "SHADOW_CYCLE_START" []
        (append_text "app_env=" (
          append_text (env_value config.app_env) (
            append_text " broker_mode=" (
              append_text (broker_mode_value config.broker_mode) (
                append_text " submission_armed=" (
                  append_text (python_bool (submission_armed config))
                    (append_text " requests=" (show_ℕ count))))))))

  -- The ticket of the dry run, where ticketing is on and there is a routing state.
  unfoldable pub dry_run :
      Bool
      → Option OrderRoutingState
      → ValidatedTradeIntent
      → AwareDateTime
      → ℕ
      → ShadowCounters
      → Step State ShadowCounters
  dry_run true (some routing) validated as_of ordinal counters = do
    ticket ←
        call CycleError.ticketing
          (mint_order_ticket validated routing (some (aware as_of)) (clock ordinal))
    audit outside B recorded_at (HermesObject.order_ticket ticket) ticket.created_at
    give (record counters { approved = suc counters.approved })
  dry_run ticketing routing validated as_of ordinal counters = give counters

  module _ (ticketing : Bool) (routing : Option OrderRoutingState) where
    unfoldable pub shadow_decided :
        GatewayRequest
        → ℕ
        → ShadowCounters
        → Option ValidatedTradeIntent
        → Option AuditArtifact
        → Step State ShadowCounters
    unfolding dry_run
    shadow_decided request ordinal counters none none = raise CycleError.assertion
    shadow_decided request ordinal counters none (some rejection) = do
      audit outside B recorded_at (HermesObject.audit_artifact rejection) rejection.created_at
      give (record counters { rejected = suc counters.rejected })
    shadow_decided request ordinal counters (some validated) rejection = do
      audit outside B recorded_at (HermesObject.validated_trade_intent validated) request.as_of
      dry_run ticketing routing validated request.as_of ordinal counters

    -- The loop, with the counters so far.
    unfoldable pub shadow_all : List GatewayRequest → ℕ → ShadowCounters → Step State ShadowCounters
    unfolding shadow_decided
    shadow_all [] ordinal counters = give counters
    shadow_all (request ∷ requests) ordinal counters = do
      audit outside B recorded_at (HermesObject.gateway_request request) request.as_of
      decision ← call CycleError.gateway (validate request_digest chicago request)
      next ← shadow_decided request ordinal counters decision.approved decision.rejection
      shadow_all requests (suc ordinal) next

  unfoldable pub shadow_summary : AppConfig → ℕ → ShadowCounters → Step State ShadowCycleResult
  shadow_summary config count counters m = (
    ok (record {
      app_env = config.app_env;
      requests_evaluated = count;
      approved_dry_run_tickets = counters.approved;
      rejected = counters.rejected;
      audit_record_ids = m.record_ids;
    }),
    m,
  )

  unfoldable pub shadow_safe :
      AppConfig → List GatewayRequest → Option OrderRoutingState → Step State ShadowCycleResult
  unfolding audit_shadow_start shadow_all shadow_summary
  shadow_safe config requests routing = do
    audit_shadow_start config (length requests)
    counters ←
        shadow_all config.order_ticketing_enabled routing requests 0
          (record { approved = 0; rejected = 0 })
    shadow_summary config (length requests) counters

  unfoldable pub run_shadow_cycle :
      AppConfig → List GatewayRequest → Option OrderRoutingState → Step State ShadowCycleResult
  unfolding is_shadow_safe shadow_safe
  run_shadow_cycle config requests routing m =
      if not (is_shadow_safe config)
      then raise CycleError.unsafe_config m
      else shadow_safe config requests routing (record m { record_ids = [] })
