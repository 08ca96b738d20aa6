-- ===== src/Gateway/Reconciliation/Snapshots.antt =====
-- Snapshots from the two sources of evidence: an open short leg without protection never stands in
-- the way of a snapshot, and marks it as an emergency.
use Prim.Native.String.{◌++◌ as append, count as text_length}
use text.Mathlib.TextLemmas.{length-append}
use hermes_personal_options.Common.{
  ◌≡◌, refl, ◌∙◌, ap, Bool, true, false, not, ◌&&◌, Option, none, some, List, ok, err, String, leb,
  str_eq, is_empty, arith, Bool-cases, inl, inr, if◌then◌else◌,
}
use hermes_personal_options.Common.Text.{nonempty_text}
use hermes_personal_options.Time.{DateTime, AwareDateTime, before}
use hermes_personal_options.Schemas.Enums.{is_normal}
use hermes_personal_options.Schemas.Model.{construct, validation_error}
use hermes_personal_options.Schemas.BrokerSubmission.{ExecutionReport}
use hermes_personal_options.Schemas.PositionState.{
  PositionLeg, position_snapshot_valid, has_unprotected_short, unprotected_short_legs,
  BrokerPositionReport, position_report_valid, ExecutionPositionLedger, position_ledger_valid,
}
use hermes_personal_options.Gateway.Reconciliation.{
  invalid_snapshot, ids_do_not_match, creation_time, text_or, emergency_state_for_legs,
  broker_snapshot, mint_position_snapshot_from_broker_report, ledger_snapshot, ids_match,
  mint_position_snapshot_from_execution_ledger,
}

-- A given id, or a default with a prefix.
text_or-nonempty :
    (given : Option String) (other : String)
    → str_eq other "" ≡ false
    → str_eq (text_or given other) "" ≡ false
text_or-nonempty none other h = h
text_or-nonempty (some id) other h = elim (Bool-cases (str_eq id "")) [
  | inl empty ↦ rw empty h
  | inr there ↦ rw there there
]

prefixed : (p t : String) → leb 1 (text_length p) ≡ true → str_eq (append p t) "" ≡ false
prefixed p t h = nonempty_text (append p t) (ap (leb 1) (length-append p t) ∙ ground arith)

-- The emergency state of the legs is coherent with them.
emergency-coherent :
    (legs : List PositionLeg)
    → (not (is_empty (unprotected_short_legs legs)) && is_normal (emergency_state_for_legs legs))
      ≡ false
unfolding emergency_state_for_legs
emergency-coherent legs = ground arith

broker_snapshot-valid :
    (r : BrokerPositionReport) (now : AwareDateTime) (given : Option String)
    → position_report_valid r ≡ true
    → position_snapshot_valid (broker_snapshot r now given) ≡ not (before now r.reported_at)
unfolding position_snapshot_valid position_report_valid has_unprotected_short
broker_snapshot-valid r now given h =
    let id = text_or-nonempty given _ (prefixed "pos-broker-" r.report_id refl) in
    let coherent = emergency-coherent r.legs in ground arith

ledger_snapshot-valid :
    (l : ExecutionPositionLedger) (now : AwareDateTime) (given : Option String)
    → position_ledger_valid l ≡ true
    → position_snapshot_valid (ledger_snapshot l now given) ≡ not (before now l.as_of)
unfolding position_snapshot_valid position_ledger_valid has_unprotected_short
ledger_snapshot-valid l now given h =
    let id = text_or-nonempty given _ (prefixed "pos-ledger-" l.ledger_id refl) in
    let coherent = emergency-coherent l.legs in ground arith

constructed :
    {A : Type 0} (valid : A → Bool) (a : A) {test : Bool}
    → valid a ≡ test
    → construct valid a ≡ (if test then ok a else err validation_error)
constructed valid a {test} h = ground arith

-- A broker's report gives its snapshot unless it is of the future: whatever its legs are.
pub mint_position_snapshot_from_broker_report-decides :
    (r : BrokerPositionReport) (created_at : Option DateTime) (given : Option String)
    (clock now : AwareDateTime)
    → position_report_valid r ≡ true
    → creation_time created_at clock ≡ ok now
    → mint_position_snapshot_from_broker_report r created_at given clock ≡ (
        if before now r.reported_at then err invalid_snapshot else ok (broker_snapshot r now given))
unfolding mint_position_snapshot_from_broker_report
mint_position_snapshot_from_broker_report-decides r created_at given clock now h time = rw time (
    rw
      (constructed position_snapshot_valid (broker_snapshot r now given)
        (broker_snapshot-valid r now given h))
      (ground arith))

-- A ledger gives its snapshot exactly if it names the reports that are given, and is not of the
-- future: whatever its legs are.
pub mint_position_snapshot_from_execution_ledger-decides :
    (l : ExecutionPositionLedger) (reports : List ExecutionReport) (created_at : Option DateTime)
    (given : Option String) (clock now : AwareDateTime)
    → position_ledger_valid l ≡ true
    → creation_time created_at clock ≡ ok now
    → mint_position_snapshot_from_execution_ledger l reports created_at given clock ≡ (
        if not (ids_match l reports)
        then err ids_do_not_match
        else (if before now l.as_of
            then err invalid_snapshot
            else ok (ledger_snapshot l now given)))
unfolding mint_position_snapshot_from_execution_ledger
mint_position_snapshot_from_execution_ledger-decides l reports created_at given clock now h time =
    rw time (
      rw
        (constructed position_snapshot_valid (ledger_snapshot l now given)
          (ledger_snapshot-valid l now given h))
        (ground arith))
