-- ===== src/Services/Paper.antt =====
-- services/paper_cycle.py: the gateway, the store and a paper broker, over the items of a run.
use hermes_personal_options.Common.{
  ℕ, suc, Bool, true, false, not, ◌&&◌, Option, none, some, List, [], ◌∷◌, ◌++◌, String, Result, ok,
  err,
}
use hermes_personal_options.Decimal.{Decimal}
use hermes_personal_options.Time.{AwareDateTime}
use hermes_personal_options.Schemas.Enums.{ReasonCode}
use hermes_personal_options.Schemas.OrderTicket.{OrderTicket}
use hermes_personal_options.Schemas.BrokerSubmission.{BrokerSubmitIntent, ExecutionReport}
use hermes_personal_options.Gateway.Request.{GatewayRequest}
use hermes_personal_options.Brokers.Base.{BrokerFill, Failure, broker_error, BrokerErrorKind}
use hermes_personal_options.Brokers.Fake.{FakeKind, FakeBroker}
use hermes_personal_options.Brokers.Paper.{PaperBrokerConfig, paper_submission_armed}
use hermes_personal_options.Storage.Models.{StorageError, Codec, StoredEvent}
use hermes_personal_options.Config.{AppEnv, AppConfig, is_paper_env, is_paper_broker}
use hermes_personal_options.Services.Steps.{CycleError, Memory}

-- Code that is not the repository's, and digests over JSON texts: a zone, hashes and texts.
pub record Outside : Type 0 where
  pub codec : Codec
  pub request_digest : GatewayRequest → List ReasonCode → String
  pub chicago : AwareDateTime → AwareDateTime
  pub ticket_digest : OrderTicket → String
  pub intent_digest : BrokerSubmitIntent → String
  pub isoformat : AwareDateTime → String
  pub error_text : BrokerErrorKind → String

-- A broker with its policy; `kind` says which broker is simulated.
pub record LocalPaperBroker : Type 0 where
  pub config : PaperBrokerConfig
  pub kind : FakeKind

pub record PaperSubmitRequest : Type 0 where
  pub request : GatewayRequest
  pub limit_price : Option Decimal

pub record PaperCounters : Type 0 where
  pub gateway_rejected : ℕ
  pub deferred : ℕ
  pub submitted : ℕ
  pub submit_failed : ℕ
  pub duplicate_skipped : ℕ

abbrev pub no_counts : PaperCounters
no_counts = record {
  gateway_rejected = 0;
  deferred = 0;
  submitted = 0;
  submit_failed = 0;
  duplicate_skipped = 0;
}

abbrev pub count_rejected : PaperCounters → PaperCounters
count_rejected c = record c { gateway_rejected = suc c.gateway_rejected }

abbrev pub count_deferred : PaperCounters → PaperCounters
count_deferred c = record c { deferred = suc c.deferred }

abbrev pub count_submitted : PaperCounters → PaperCounters
count_submitted c = record c { submitted = suc c.submitted }

abbrev pub count_failed : PaperCounters → PaperCounters
count_failed c = record c { submit_failed = suc c.submit_failed }

abbrev pub count_duplicate : PaperCounters → PaperCounters
count_duplicate c = record c { duplicate_skipped = suc c.duplicate_skipped }

pub record PaperCycleResult : Type 0 where
  pub app_env : AppEnv
  pub requests_evaluated : ℕ
  pub counters : PaperCounters
  pub audit_record_ids : List String

unfoldable pub is_paper_safe : AppConfig → PaperBrokerConfig → Bool
is_paper_safe config paper_config =
    is_paper_env config.app_env
    && is_paper_broker config.broker_mode
    && not config.live_submit_enabled
    && (config.submission_enabled && config.paper_submit_enabled)
    && is_paper_broker paper_config.broker_mode
    && not paper_config.live_submit_enabled
    && paper_submission_armed paper_config
    && paper_config.paper_require_human_confirm

abbrev pub python_bool : Bool → String
python_bool true = "True"
python_bool false = "False"

-- The event's id joins the ids of the run.
abbrev pub noted :
    {S : Type 0}
    → Memory S
    → Result StorageError StoredEvent × S
    → Result CycleError (Unit {0}) × Memory S
noted m (err e, s) = (err (CycleError.storage e), record m { store = s })
noted m (ok event, s) =
    (ok tt, record m { store = s; record_ids = m.record_ids ++ event.record_id ∷ [] })

-- An attempt that is recorded, or whose key is there already.
abbrev pub attempted :
    {S : Type 0}
    → Memory S
    → Result StorageError StoredEvent × S
    → Result CycleError Bool × Memory S
attempted m (err StorageError.duplicate_idempotency_key, s) = (ok false, record m { store = s })
attempted m (err e, s) = (err (CycleError.storage e), record m { store = s })
attempted m (ok event, s) =
    (ok true, record m { store = s; record_ids = m.record_ids ++ event.record_id ∷ [] })

-- A broker's answer, or the error that the cycle catches.
abbrev pub answered :
    {S : Type 0}
    → Memory S
    → Result Failure (BrokerFill × FakeBroker)
    → Result CycleError (Result (BrokerErrorKind × ReasonCode) BrokerFill) × Memory S
answered m (ok (fill, b)) = (ok (ok fill), record m { broker = b })
answered m (err (broker_error kind reason)) = (ok (err (kind, reason)), m)
answered m (err f) = (err (CycleError.broker f), m)

abbrev or_else : Option AwareDateTime → AwareDateTime → AwareDateTime
or_else none t = t
or_else (some s) t = s

-- `report.completed_at or report.fill_timestamp or report.submitted_at`
abbrev pub report_created_at : ExecutionReport → AwareDateTime
report_created_at r = or_else r.completed_at (or_else r.fill_timestamp r.submitted_at)
