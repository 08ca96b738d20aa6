-- ===== src/Gateway/Reconciliation.antt =====
-- gateway/reconciliation.py: positions that a broker reports against those that the executions give.
pub mod Decision
pub mod Snapshots
use Prim.Native.String.{◌++◌ as append}
use hermes_personal_options.Common.{
  ℕ, Bool, true, false, not, ◌&&◌, ◌||◌, Option, none, some, List, [], ◌∷◌, ◌++◌, Result, ok, err,
  ◌>>=◌, ◌>>◌, raise_if, String, ◌==◌, str_eq, is_empty, map, if◌then◌else◌,
}
use hermes_personal_options.Common.Int.{ℤ, leb_ℤ}
use hermes_personal_options.Common.Sort.{same_elements}
use hermes_personal_options.Decimal.{Decimal}
use hermes_personal_options.Time.{DateTime, naive, aware, AwareDateTime}
use hermes_personal_options.Schemas.Enums.{
  EmergencyState, HumanRequiredKind, reconciliation_mismatch, protection_hierarchy_violation,
  same_underlying, same_option_type, is_short,
}
use hermes_personal_options.Schemas.Model.{ModelError, construct}
use hermes_personal_options.Schemas.Audit.{
  AuditArtifact, artifact_valid, HumanRequiredEvent, human_event_valid,
}
use hermes_personal_options.Schemas.BrokerSubmission.{ExecutionReport}
use hermes_personal_options.Schemas.PositionState.{
  PositionLeg, PositionSnapshot, PositionSnapshotSource, broker_report, execution_ledger,
  position_snapshot_valid, BrokerPositionReport, ExecutionPositionLedger, unprotected_short_legs,
  has_unprotected_short, unprotected_short_symbols,
}
use hermes_personal_options.Schemas.ReconciliationState.{
  ReconciliationSnapshot, ReconciliationStatus, ReconciliationPermission, reconciliation_valid,
}

-- What the module can raise.
pub data ReconciliationError : Type 0 where
  naive_created_at ids_do_not_match wrong_expected_source wrong_broker_source invalid_snapshot :
      ReconciliationError

abbrev pub model_or : {A : Type 0} → Result ModelError A → Result ReconciliationError A
model_or (ok a) = ok a
model_or (err e) = err invalid_snapshot

-- `_aware(created_at or datetime.now(tz=timezone.utc), "created_at")`
abbrev pub creation_time :
    Option DateTime → AwareDateTime → Result ReconciliationError AwareDateTime
creation_time none clock = ok clock
creation_time (some (aware t)) clock = ok t
creation_time (some (naive t)) clock = err naive_created_at

-- `given or default`, of texts: the empty one counts as absent.
abbrev pub text_or : Option String → String → String
text_or none other = other
text_or (some given) other = if str_eq given "" then other else given

-- `_emergency_state_for_legs`
unfoldable pub emergency_state_for_legs : List PositionLeg → EmergencyState
emergency_state_for_legs legs =
    if is_empty (unprotected_short_legs legs)
    then EmergencyState.normal
    else EmergencyState.broken_spread

abbrev pub broker_snapshot : BrokerPositionReport → AwareDateTime → Option String → PositionSnapshot
broker_snapshot r now snapshot_id = record {
  snapshot_id = text_or snapshot_id (append "pos-broker-" r.report_id);
  source = broker_report;
  source_id = r.report_id;
  created_at = now;
  as_of = r.reported_at;
  legs = r.legs;
  execution_report_ids = [];
  broker_name = some r.broker_name;
  emergency_state = emergency_state_for_legs r.legs;
}

unfoldable pub mint_position_snapshot_from_broker_report :
    BrokerPositionReport
    → Option DateTime
    → Option String
    → AwareDateTime
    → Result ReconciliationError PositionSnapshot
mint_position_snapshot_from_broker_report r created_at snapshot_id clock = do
  now ← creation_time created_at clock
  model_or (construct position_snapshot_valid (broker_snapshot r now snapshot_id))

abbrev pub ledger_snapshot :
    ExecutionPositionLedger → AwareDateTime → Option String → PositionSnapshot
ledger_snapshot l now snapshot_id = record {
  snapshot_id = text_or snapshot_id (append "pos-ledger-" l.ledger_id);
  source = execution_ledger;
  source_id = l.ledger_id;
  created_at = now;
  as_of = l.as_of;
  legs = l.legs;
  execution_report_ids = l.execution_report_ids;
  broker_name = none;
  emergency_state = emergency_state_for_legs l.legs;
}

-- The ledger names exactly the reports that are given.
abbrev pub ids_match : ExecutionPositionLedger → List ExecutionReport → Bool
ids_match l reports =
    same_elements str_eq l.execution_report_ids
      (map (λ (r : ExecutionReport). r.idempotency_key) reports)

unfoldable pub mint_position_snapshot_from_execution_ledger :
    ExecutionPositionLedger
    → List ExecutionReport
    → Option DateTime
    → Option String
    → AwareDateTime
    → Result ReconciliationError PositionSnapshot
mint_position_snapshot_from_execution_ledger l reports created_at snapshot_id clock = do
  raise_if (not (ids_match l reports)) ids_do_not_match
  now ← creation_time created_at clock
  model_or (construct position_snapshot_valid (ledger_snapshot l now snapshot_id))

-- `str` of two decimals is one text exactly if their digits and exponents are equal.
abbrev same_digits : Decimal → Decimal → Bool
same_digits a b =
    (leb_ℤ a.coefficient b.coefficient && leb_ℤ b.coefficient a.coefficient)
    && (leb_ℤ a.exponent b.exponent && leb_ℤ b.exponent a.exponent)

abbrev same_side : PositionLeg → PositionLeg → Bool
same_side a b =
    (is_short a.side && is_short b.side) || (not (is_short a.side) && not (is_short b.side))

-- Two legs have one normal form; the average price is no part of it.
unfoldable pub same_normalized_leg : PositionLeg → PositionLeg → Bool
same_normalized_leg a b =
    same_underlying a.underlying b.underlying
    && str_eq a.option_symbol b.option_symbol
    && a.expiration_date == b.expiration_date
    && same_option_type a.option_type b.option_type
    && same_digits a.strike b.strike
    && same_side a b
    && a.contracts == b.contracts

-- `_normalized_legs(xs) == _normalized_legs(ys)`: the normal forms are sorted.
unfoldable pub same_normalized_legs : List PositionLeg → List PositionLeg → Bool
unfolding same_normalized_leg
same_normalized_legs xs ys = same_elements same_normalized_leg xs ys

-- ",".join(texts)
abbrev join : List String → String
join [] = ""
join (t ∷ []) = t
join (t ∷ u ∷ ts) = append t (append "," (join (u ∷ ts)))

abbrev symbols : List PositionLeg → String
symbols legs = text_or (some (join (map (λ (l : PositionLeg). l.option_symbol) legs))) "none"

-- `_mismatch_detail`
unfoldable pub mismatch_detail : PositionSnapshot → PositionSnapshot → String
unfolding unprotected_short_symbols
mismatch_detail expected broker =
    let unprotected = unprotected_short_symbols expected ++ unprotected_short_symbols broker in
    let detail =
      append "expected=["
        (append (symbols expected.legs) (append "] broker=[" (append (symbols broker.legs) "]"))) in
    if is_empty unprotected
    then detail
    else append detail (append " unprotected_short=[" (append (join unprotected) "]"))

-- The positions differ, or a short leg of either is not protected.
unfoldable pub is_mismatch : PositionSnapshot → PositionSnapshot → Bool
is_mismatch expected broker =
    not (same_normalized_legs expected.legs broker.legs)
    || has_unprotected_short expected
    || has_unprotected_short broker

abbrev pub match_snapshot :
    PositionSnapshot → PositionSnapshot → AwareDateTime → String → ReconciliationSnapshot
match_snapshot expected broker now rid = record {
  reconciliation_id = rid;
  created_at = now;
  expected = expected;
  broker = broker;
  status = ReconciliationStatus.match;
  permission = ReconciliationPermission.new_entries_allowed;
  reason_codes = [];
  audit_artifact = none;
  human_required_event = none;
  managed_exit_allowed = false;
  flatten_allowed = false;
}

abbrev pub mismatch_artifact :
    PositionSnapshot → PositionSnapshot → AwareDateTime → String → AuditArtifact
mismatch_artifact expected broker now rid = record {
  artifact_id = append rid "-mismatch";
  created_at = now;
  decision = "HALT";
  reason_codes = reconciliation_mismatch ∷ [];
  detail = mismatch_detail expected broker;
}

abbrev pub broken_spread_event : AwareDateTime → String → HumanRequiredEvent
broken_spread_event now rid = record {
  kind = HumanRequiredKind.broken_spread;
  reason_code = protection_hierarchy_violation;
  created_at = now;
  audit_artifact_id = append rid "-mismatch";
  resolved = false;
}

abbrev pub mismatch_snapshot :
    PositionSnapshot
    → PositionSnapshot
    → AwareDateTime
    → String
    → AuditArtifact
    → Option HumanRequiredEvent
    → ReconciliationSnapshot
mismatch_snapshot expected broker now rid artifact event = record {
  reconciliation_id = rid;
  created_at = now;
  expected = expected;
  broker = broker;
  status = ReconciliationStatus.mismatch;
  permission = ReconciliationPermission.managed_exit_only;
  reason_codes = reconciliation_mismatch ∷ [];
  audit_artifact = some artifact;
  human_required_event = event;
  managed_exit_allowed = true;
  flatten_allowed = true;
}

-- A human is required where a short leg is not protected.
abbrev pub human_event :
    PositionSnapshot
    → PositionSnapshot
    → AwareDateTime
    → String
    → Result ModelError (Option HumanRequiredEvent)
human_event expected broker now rid =
    if has_unprotected_short expected || has_unprotected_short broker
    then elim (construct human_event_valid (broken_spread_event now rid)) [
      | ok e ↦ ok (some e)
      | err e ↦ err e
    ]
    else ok none

abbrev pub is_ledger : PositionSnapshotSource → Bool
is_ledger execution_ledger = true
is_ledger broker_report = false

abbrev pub default_id : PositionSnapshot → PositionSnapshot → String
default_id expected broker =
    append "recon-" (append expected.snapshot_id (append "-" broker.snapshot_id))

unfoldable pub reconcile_mismatch :
    PositionSnapshot
    → PositionSnapshot
    → AwareDateTime
    → String
    → Result ModelError ReconciliationSnapshot
reconcile_mismatch expected broker now rid = do
  artifact ← construct artifact_valid (mismatch_artifact expected broker now rid)
  event ← human_event expected broker now rid
  construct reconciliation_valid (mismatch_snapshot expected broker now rid artifact event)

unfoldable pub reconcile_positions :
    PositionSnapshot
    → PositionSnapshot
    → Option DateTime
    → Option String
    → AwareDateTime
    → Result ReconciliationError ReconciliationSnapshot
reconcile_positions expected broker created_at reconciliation_id clock = do
  raise_if (not (is_ledger expected.source)) wrong_expected_source
  raise_if (is_ledger broker.source) wrong_broker_source
  now ← creation_time created_at clock
  let rid = text_or reconciliation_id (default_id expected broker)
  let matched = model_or (construct reconciliation_valid (match_snapshot expected broker now rid))
  let mismatched = model_or (reconcile_mismatch expected broker now rid)
  if is_mismatch expected broker then mismatched else matched
