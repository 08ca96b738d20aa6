-- ===== src/Brokers/Paper.antt =====
-- brokers/paper.py: the policy in front of a fake broker. `intent_digest` is the SHA-256 of the
-- JSON of a whole submission.
pub mod Policy
use Prim.Native.String.{count as text_length}
use hermes_personal_options.Common.{
  ℕ, Bool, true, false, not, ◌&&◌, ◌||◌, Option, none, some, List, [], ◌∷◌, Result, ok, err, ◌>>=◌,
  ◌>>◌, raise_if, String, ltb, leb, ◌==◌, str_eq, is_empty, any, all, if◌then◌else◌,
}
use hermes_personal_options.Common.Text.{codes}
use hermes_personal_options.Time.{AwareDateTime, before}
use hermes_personal_options.Schemas.Enums.{
  Underlying, xsp, SubmitMode, same_underlying, is_limit, is_paper_submit, internal_contradiction,
  human_rearm_required, instrument_not_permitted, concentration_limit_exceeded,
}
use hermes_personal_options.Schemas.Model.{ModelError, construct}
use hermes_personal_options.Schemas.BrokerSubmission.{BrokerSubmitIntent}
use hermes_personal_options.Brokers.Base.{
  BrokerFill, Failure, broker_error, live_submit_not_permitted, paper_submission_disabled,
  paper_policy_violation, human_confirmation_required,
}
use hermes_personal_options.Brokers.Fake.{FakeKind, FakeBroker, submit_order as inner_submit_order}

-- schemas/enums.py
pub data BrokerMode : Type 0 where
  paper no_broker live_readonly : BrokerMode

abbrev pub is_paper_mode : BrokerMode → Bool
is_paper_mode BrokerMode.paper = true
is_paper_mode _ = false

pub record PaperBrokerConfig : Type 0 where
  pub broker_mode : BrokerMode
  pub submission_enabled : Bool
  pub paper_submit_enabled : Bool
  pub live_submit_enabled : Bool
  pub paper_max_contracts : ℕ
  pub paper_allowed_underlyings : List Underlying
  pub paper_limit_only : Bool
  pub paper_require_human_confirm : Bool

-- `PaperBrokerConfig()`
abbrev pub default_config : PaperBrokerConfig
default_config = record {
  broker_mode = BrokerMode.paper;
  submission_enabled = false;
  paper_submit_enabled = false;
  live_submit_enabled = false;
  paper_max_contracts = 1;
  paper_allowed_underlyings = xsp ∷ [];
  paper_limit_only = true;
  paper_require_human_confirm = true;
}

-- The bound of the contracts, and `_fail_closed`.
unfoldable pub paper_config_valid : PaperBrokerConfig → Bool
paper_config_valid c =
    leb 1 c.paper_max_contracts
    && is_paper_mode c.broker_mode
    && not c.live_submit_enabled
    && not (is_empty c.paper_allowed_underlyings)

unfoldable pub paper_submission_armed : PaperBrokerConfig → Bool
paper_submission_armed c = c.submission_enabled && c.paper_submit_enabled

pub record PaperSubmitApproval : Type 0 where
  pub order_ticket_hash : String
  pub idempotency_key : String
  pub approved_by : String
  pub approved_at : AwareDateTime
  pub submit_mode : SubmitMode
  pub full_intent_digest : String

-- A digit of a hexadecimal number, in lower case.
abbrev is_hex : ℕ → Bool
is_hex c = (leb b'0' c && leb c b'9') || (leb b'a' c && leb c b'f')

-- The bounds and the pattern of the fields, and `_paper_only`.
unfoldable pub approval_valid : PaperSubmitApproval → Bool
approval_valid a =
    text_length a.order_ticket_hash == 64
    && not (str_eq a.idempotency_key "")
    && not (str_eq a.approved_by "")
    && (text_length a.full_intent_digest == 64 && all is_hex (codes a.full_intent_digest))
    && is_paper_submit a.submit_mode

-- The error of a missing or mismatched confirmation.
abbrev pub unconfirmed : Failure
unconfirmed = broker_error human_confirmation_required human_rearm_required

module _ (intent_digest : BrokerSubmitIntent → String) where
  -- `_validate_human_confirmation`
  unfoldable pub validate_human_confirmation :
      BrokerSubmitIntent → Option PaperSubmitApproval → Result Failure (Unit {0})
  validate_human_confirmation i none = err unconfirmed
  validate_human_confirmation i (some a) = do
    raise_if (not (str_eq a.order_ticket_hash i.order_ticket_hash)) unconfirmed
    raise_if (not (str_eq a.idempotency_key i.idempotency_key)) unconfirmed
    raise_if (before a.approved_at i.submitted_at) unconfirmed
    raise_if (not (str_eq a.full_intent_digest (intent_digest i))) unconfirmed

  -- `_validate_submit`
  unfoldable pub validate_submit :
      PaperBrokerConfig
      → BrokerSubmitIntent
      → Option PaperSubmitApproval
      → Result Failure (Unit {0})
  validate_submit c i human_confirmation = do
    let candidate = i.ticket.validated_intent.candidate
    raise_if (not (is_paper_submit i.submit_mode))
        (broker_error live_submit_not_permitted internal_contradiction)
    raise_if (not (paper_submission_armed c))
        (broker_error paper_submission_disabled human_rearm_required)
    raise_if (not (any (same_underlying candidate.underlying) c.paper_allowed_underlyings))
        (broker_error paper_policy_violation instrument_not_permitted)
    raise_if (ltb c.paper_max_contracts candidate.short_leg.contracts)
        (broker_error paper_policy_violation concentration_limit_exceeded)
    raise_if (c.paper_limit_only && not (is_limit i.ticket.order_type))
        (broker_error paper_policy_violation internal_contradiction)
    let confirmation = validate_human_confirmation i human_confirmation
    if c.paper_require_human_confirm then confirmation else ok tt

  -- `submit_order`, in front of a fake broker. The other operations are the inner broker's own.
  unfoldable pub submit_order :
      PaperBrokerConfig
      → FakeKind
      → FakeBroker
      → BrokerSubmitIntent
      → Option PaperSubmitApproval
      → AwareDateTime
      → Result Failure (BrokerFill × FakeBroker)
  submit_order c kind inner i human_confirmation now = do
    validate_submit c i human_confirmation
    inner_submit_order kind inner i now

  abbrev pub approval_of : BrokerSubmitIntent → String → AwareDateTime → PaperSubmitApproval
  approval_of i approved_by approved_at = record {
    order_ticket_hash = i.order_ticket_hash;
    idempotency_key = i.idempotency_key;
    approved_by = approved_by;
    approved_at = approved_at;
    submit_mode = SubmitMode.paper;
    full_intent_digest = intent_digest i;
  }

  -- `paper_submit_approval_for_intent`
  unfoldable pub paper_submit_approval_for_intent :
      BrokerSubmitIntent → String → AwareDateTime → Result ModelError PaperSubmitApproval
  paper_submit_approval_for_intent i approved_by approved_at =
      construct approval_valid (approval_of i approved_by approved_at)
