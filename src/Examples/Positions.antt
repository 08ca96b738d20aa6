-- ===== src/Examples/Positions.antt =====
-- A spread of three contracts whose long legs stand at two strikes, and its reconciliation.
use hermes_personal_options.Common.{
  ◌≡◌, refl, none, List, [], ◌∷◌, ok, err, true, false, not, is_empty, if◌then◌else◌,
}
use hermes_personal_options.Common.Int.{◌*ℤ◌, ◌-ℤ◌, ◌+ℤ◌}
use hermes_personal_options.Decimal.{le_dec, scaled, neg_dec, fix, num_digits, round_half_even}
use hermes_personal_options.Time.{before}
use hermes_personal_options.Schemas.Enums.{short, long}
use hermes_personal_options.Schemas.PositionState.{
  PositionLeg, is_protective_long_for, shorts_most_constrained_first,
  eligible_longs_least_flexible_first, allocate, unprotected_among, unprotected_short_legs,
  BrokerPositionReport, position_report_valid, ExecutionPositionLedger, position_ledger_valid,
  PositionSnapshot,
}
use hermes_personal_options.Schemas.PositionState.Coverage.{Covered, unprotected_short_legs-Covered}
use hermes_personal_options.Schemas.ReconciliationState.{blocks_new_entries, ReconciliationSnapshot}
use hermes_personal_options.Gateway.Reconciliation.{
  broker_snapshot, mint_position_snapshot_from_broker_report, ledger_snapshot,
  mint_position_snapshot_from_execution_ledger, ids_match, invalid_snapshot, ids_do_not_match,
  reconcile_positions, same_normalized_legs, same_normalized_leg, text_or, default_id,
}
use hermes_personal_options.Gateway.Reconciliation.Snapshots.{
  mint_position_snapshot_from_broker_report-decides,
  mint_position_snapshot_from_execution_ledger-decides,
}
use hermes_personal_options.Gateway.Reconciliation.Decision.{
  agrees, reconciled, reconcile_positions-decides, reconcile_positions-allows,
}
use hermes_personal_options.Examples.Data.{half_past_ten, seconds_later, position_of}

abbrev spread_legs : List PositionLeg
spread_legs = position_of short 500 3 ∷ position_of long 495 2 ∷ position_of long 490 1 ∷ []

-- A long leg that two short ones would share protects one of them only.
shared_long_example :
    unprotected_short_legs
      (position_of short 500 1 ∷ position_of short 499 1 ∷ position_of long 495 1 ∷ [])
    ≡ position_of short 500 1 ∷ []
unfolding unprotected_short_legs unprotected_among allocate eligible_longs_least_flexible_first
    shorts_most_constrained_first is_protective_long_for le_dec scaled ◌*ℤ◌ ◌-ℤ◌ ◌+ℤ◌ neg_dec fix
    num_digits round_half_even
shared_long_example = refl

all_protected : is_empty (unprotected_short_legs spread_legs) ≡ true
unfolding unprotected_short_legs unprotected_among allocate eligible_longs_least_flexible_first
    shorts_most_constrained_first is_protective_long_for le_dec scaled ◌*ℤ◌ ◌-ℤ◌ ◌+ℤ◌ neg_dec fix
    num_digits round_half_even
all_protected = refl

unprotected_short_legs-Covered_example : Covered spread_legs
unprotected_short_legs-Covered_example = unprotected_short_legs-Covered spread_legs all_protected

abbrev paper_report : BrokerPositionReport
paper_report = record {
  report_id = "b-1";
  broker_name = "fake";
  reported_at = half_past_ten;
  legs = spread_legs;
}

abbrev paper_ledger : ExecutionPositionLedger
paper_ledger = record {
  ledger_id = "l-1";
  as_of = half_past_ten;
  legs = spread_legs;
  execution_report_ids = "k:1" ∷ [];
}

report_valid : position_report_valid paper_report ≡ true
unfolding position_report_valid
report_valid = refl

ledger_valid : position_ledger_valid paper_ledger ≡ true
unfolding position_ledger_valid
ledger_valid = refl

mint_position_snapshot_from_broker_report-decides_example :
    mint_position_snapshot_from_broker_report paper_report none none (seconds_later 1) ≡ (
      if before (seconds_later 1) paper_report.reported_at
      then err invalid_snapshot
      else ok (broker_snapshot paper_report (seconds_later 1) none))
mint_position_snapshot_from_broker_report-decides_example =
    mint_position_snapshot_from_broker_report-decides paper_report none none (seconds_later 1)
      (seconds_later 1) report_valid refl

mint_position_snapshot_from_execution_ledger-decides_example :
    mint_position_snapshot_from_execution_ledger paper_ledger [] none none (seconds_later 1) ≡ (
      if not (ids_match paper_ledger [])
      then err ids_do_not_match
      else (if before (seconds_later 1) paper_ledger.as_of
          then err invalid_snapshot
          else ok (ledger_snapshot paper_ledger (seconds_later 1) none)))
mint_position_snapshot_from_execution_ledger-decides_example =
    mint_position_snapshot_from_execution_ledger-decides paper_ledger [] none none (seconds_later 1)
      (seconds_later 1) ledger_valid refl

abbrev expected_positions : PositionSnapshot
expected_positions = ledger_snapshot paper_ledger (seconds_later 1) none

abbrev broker_positions : PositionSnapshot
broker_positions = broker_snapshot paper_report (seconds_later 1) none

reconcile_positions-decides_example :
    reconcile_positions expected_positions broker_positions none none (seconds_later 2)
    ≡ ok (
        reconciled expected_positions broker_positions
          (seconds_later 2)
          (text_or none (default_id expected_positions broker_positions)))
reconcile_positions-decides_example =
    reconcile_positions-decides expected_positions broker_positions none none (seconds_later 2)
      (seconds_later 2) refl refl refl

all_agree : agrees expected_positions broker_positions ≡ true
unfolding same_normalized_legs same_normalized_leg
all_agree = rw all_protected refl

abbrev outcome : ReconciliationSnapshot
outcome =
    reconciled expected_positions broker_positions (seconds_later 2)
      (text_or none (default_id expected_positions broker_positions))

entries_allowed : blocks_new_entries outcome ≡ false
unfolding blocks_new_entries
entries_allowed = rw all_agree refl

reconcile_positions-allows_example :
    (same_normalized_legs expected_positions.legs broker_positions.legs ≡ true)
    × Covered expected_positions.legs
    × Covered broker_positions.legs
reconcile_positions-allows_example =
    reconcile_positions-allows expected_positions broker_positions none none (seconds_later 2)
      (seconds_later 2) outcome refl refl refl
      (reconcile_positions-decides expected_positions broker_positions none none (seconds_later 2)
        (seconds_later 2) refl refl refl)
      entries_allowed
