-- ===== src/Gateway/Reconciliation/Decision.antt =====
-- What a reconciliation decides, and what it means that new entries are allowed.
use Prim.Native.String.{◌++◌ as append}
use text.Mathlib.TextLemmas.{length-append}
use hermes_personal_options.Common.{
  ◌==◌, ◌||◌, ◌≡◌, refl, sym, ◌∙◌, ap, true, false, not, ◌&&◌, Bool, Option, none, some, ok,
  ok-injective, String, leb, str_eq, is_empty, arith, Bool-cases, inl, inr, if◌then◌else◌,
}
use hermes_personal_options.Common.Text.{nonempty_text}
use hermes_personal_options.Time.{DateTime, AwareDateTime}
use hermes_personal_options.Common.Sort.{same_elements}
use hermes_personal_options.Common.Int.{leb_ℤ}
use hermes_personal_options.Schemas.Enums.{same_reason, same_underlying, same_option_type, is_short}
use hermes_personal_options.Schemas.Model.{construct-ok}
use hermes_personal_options.Schemas.Audit.{
  artifact_valid, is_refusal, HumanRequiredEvent, human_event_valid,
}
use hermes_personal_options.Schemas.PositionState.{
  PositionSnapshot, PositionLeg, has_unprotected_short, unprotected_short_legs,
}
use hermes_personal_options.Schemas.PositionState.Coverage.{Covered, unprotected_short_legs-Covered}
use hermes_personal_options.Schemas.ReconciliationState.{
  ReconciliationSnapshot, reconciliation_valid, blocks_new_entries,
}
use hermes_personal_options.Gateway.Reconciliation.{
  same_normalized_leg, creation_time, text_or, default_id, is_ledger, is_mismatch,
  same_normalized_legs, match_snapshot, mismatch_artifact, mismatch_snapshot, broken_spread_event,
  human_event, reconcile_mismatch, reconcile_positions,
}

prefix-nonempty : (t : String) → str_eq (append "recon-" t) "" ≡ false
prefix-nonempty t =
    nonempty_text (append "recon-" t) (ap (leb 1) (length-append "recon-" t) ∙ ground arith)

suffix-nonempty : (s : String) → str_eq (append s "-mismatch") "" ≡ false
suffix-nonempty s =
    nonempty_text (append s "-mismatch") (ap (leb 1) (length-append s "-mismatch") ∙ ground arith)

-- The id of a reconciliation is never empty.
id-nonempty :
    (given : Option String) (expected broker : PositionSnapshot)
    → str_eq (text_or given (default_id expected broker)) "" ≡ false
id-nonempty none expected broker = prefix-nonempty _
id-nonempty (some id) expected broker = elim (Bool-cases (str_eq id "")) [
  | inl empty ↦ rw empty (prefix-nonempty _)
  | inr there ↦ rw there there
]

match-valid :
    (expected broker : PositionSnapshot) (now : AwareDateTime) (rid : String)
    → str_eq rid "" ≡ false
    → reconciliation_valid (match_snapshot expected broker now rid) ≡ true
unfolding reconciliation_valid
match-valid expected broker now rid h = rw h refl

-- No short leg of either side is unprotected.
abbrev pub no_short_alone : PositionSnapshot → PositionSnapshot → Bool
no_short_alone expected broker =
    is_empty (unprotected_short_legs expected.legs) && is_empty (unprotected_short_legs broker.legs)

-- The same contract, side and count, whatever the average price was.
abbrev pub one_position : PositionLeg → PositionLeg → Bool
one_position a b =
    same_underlying a.underlying b.underlying
    && str_eq a.option_symbol b.option_symbol
    && a.expiration_date == b.expiration_date
    && same_option_type a.option_type b.option_type
    && ((leb_ℤ a.strike.coefficient b.strike.coefficient
          && leb_ℤ b.strike.coefficient a.strike.coefficient)
        && (leb_ℤ a.strike.exponent b.strike.exponent && leb_ℤ b.strike.exponent a.strike.exponent))
    && ((is_short a.side && is_short b.side) || (not (is_short a.side) && not (is_short b.side)))
    && a.contracts == b.contracts

-- What a match asks for.
abbrev pub agrees : PositionSnapshot → PositionSnapshot → Bool
agrees expected broker =
    same_elements one_position expected.legs broker.legs && no_short_alone expected broker

-- The event of a mismatch.
abbrev pub event_of :
    PositionSnapshot → PositionSnapshot → AwareDateTime → String → Option HumanRequiredEvent
event_of expected broker now rid =
    if no_short_alone expected broker then none else some (broken_spread_event now rid)

-- The outcome of a reconciliation.
abbrev pub reconciled :
    PositionSnapshot → PositionSnapshot → AwareDateTime → String → ReconciliationSnapshot
reconciled expected broker now rid =
    if agrees expected broker
    then match_snapshot expected broker now rid
    else mismatch_snapshot expected broker now rid (mismatch_artifact expected broker now rid)
        (event_of expected broker now rid)

artifact-valid :
    (expected broker : PositionSnapshot) (now : AwareDateTime) (rid : String)
    → artifact_valid (mismatch_artifact expected broker now rid) ≡ true
unfolding artifact_valid is_refusal
artifact-valid expected broker now rid = rw (suffix-nonempty rid) refl

event-valid :
    (now : AwareDateTime) (rid : String) → human_event_valid (broken_spread_event now rid) ≡ true
unfolding human_event_valid
event-valid now rid = rw (suffix-nonempty rid) refl

human_event_lem :
    (expected broker : PositionSnapshot) (now : AwareDateTime) (rid : String)
    → human_event expected broker now rid ≡ ok (event_of expected broker now rid)
unfolding has_unprotected_short
human_event_lem expected broker now rid =
    let made = construct-ok human_event_valid (broken_spread_event now rid) (event-valid now rid) in
    rw made (ground arith)

mismatch-valid :
    (expected broker : PositionSnapshot) (now : AwareDateTime) (rid : String)
    (event : Option HumanRequiredEvent)
    → str_eq rid "" ≡ false
    → reconciliation_valid (
        mismatch_snapshot expected broker now rid (mismatch_artifact expected broker now rid) event)
      ≡ true
unfolding reconciliation_valid same_reason
mismatch-valid expected broker now rid event h = rw h refl

reconcile_mismatch_lem :
    (expected broker : PositionSnapshot) (now : AwareDateTime) (rid : String)
    → str_eq rid "" ≡ false
    → reconcile_mismatch expected broker now rid
      ≡ ok (
          mismatch_snapshot expected broker now rid
            (mismatch_artifact expected broker now rid)
            (event_of expected broker now rid))
unfolding reconcile_mismatch
reconcile_mismatch_lem expected broker now rid h =
    rw
      (construct-ok artifact_valid (mismatch_artifact expected broker now rid)
        (artifact-valid expected broker now rid))
      (rw (human_event_lem expected broker now rid) (
        construct-ok reconciliation_valid _
          (mismatch-valid expected broker now rid (event_of expected broker now rid) h)))

-- A reconciliation of a ledger's positions with a broker's always has an outcome: a match, which
-- allows new entries, exactly if the legs are the same, in any order and at any average price, and no
-- short leg of either is unprotected, and else a mismatch with its artifact, which allows exits only,
-- and which calls for a human exactly if a short leg is unprotected.
pub reconcile_positions-decides :
    (expected broker : PositionSnapshot) (created_at : Option DateTime) (given : Option String)
    (clock now : AwareDateTime)
    → is_ledger expected.source ≡ true
    → is_ledger broker.source ≡ false
    → creation_time created_at clock ≡ ok now
    → reconcile_positions expected broker created_at given clock
      ≡ ok (reconciled expected broker now (text_or given (default_id expected broker)))
unfolding reconcile_positions is_mismatch has_unprotected_short same_normalized_legs
    same_normalized_leg
reconcile_positions-decides expected broker created_at given clock now ledger report time =
    let rid = text_or given (default_id expected broker) in
    let id = id-nonempty given expected broker in
    rw ledger (
      rw report (
        rw time (
          rw (reconcile_mismatch_lem expected broker now rid id) (
            rw
              (construct-ok reconciliation_valid (match_snapshot expected broker now rid)
                (match-valid expected broker now rid id))
              (ground arith)))))

reconciled-blocks :
    (expected broker : PositionSnapshot) (now : AwareDateTime) (rid : String)
    → blocks_new_entries (reconciled expected broker now rid) ≡ not (agrees expected broker)
unfolding blocks_new_entries
reconciled-blocks expected broker now rid = ground arith

calm_facts :
    (expected broker : PositionSnapshot)
    → not (agrees expected broker) ≡ false
    → (same_normalized_legs expected.legs broker.legs ≡ true)
      × (is_empty (unprotected_short_legs expected.legs) ≡ true)
      × (is_empty (unprotected_short_legs broker.legs) ≡ true)
unfolding same_normalized_legs same_normalized_leg
calm_facts expected broker h = (ground arith, ground arith, ground arith)

-- What a reconciliation that allows new entries stands for: the legs of the ledger and of the broker
-- are the same, and each short leg of both is covered by protecting long legs of its own.
pub reconcile_positions-allows :
    (expected broker : PositionSnapshot) (created_at : Option DateTime) (given : Option String)
    (clock now : AwareDateTime) (r : ReconciliationSnapshot)
    → is_ledger expected.source ≡ true
    → is_ledger broker.source ≡ false
    → creation_time created_at clock ≡ ok now
    → reconcile_positions expected broker created_at given clock ≡ ok r
    → blocks_new_entries r ≡ false
    → (same_normalized_legs expected.legs broker.legs ≡ true)
      × Covered expected.legs
      × Covered broker.legs
reconcile_positions-allows expected broker created_at given clock now r ledger report time done
      free =
    let rid = text_or given (default_id expected broker) in
    let same = ok-injective (
      sym
        (reconcile_positions-decides expected broker created_at given clock now ledger report time)
      ∙ done) in
    let calm =
      sym (reconciled-blocks expected broker now rid) ∙ ap blocks_new_entries same ∙ free in
    let (legs, mine, theirs) = calm_facts expected broker calm in
    (
      legs,
      unprotected_short_legs-Covered expected.legs mine,
      unprotected_short_legs-Covered broker.legs theirs,
    )
