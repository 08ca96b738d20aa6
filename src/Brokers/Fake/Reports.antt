-- ===== src/Brokers/Fake/Reports.antt =====
-- The gateway accepts what the fake brokers answer.
use Prim.Native.String.{count as text_length}
use text.Mathlib.TextLemmas.{length-append}
use hermes_personal_options.Common.{
  ℕ, ◌≡◌, sym, ◌∙◌, ap, Bool, true, false, not, none, ok, String, ltb, leb, ◌==◌, str_eq, arith,
  ◌&✓◌, not-false, inl, inr,
}
use hermes_personal_options.Common.Text.{nonempty_text}
use hermes_personal_options.Common.Dict.{get}
use hermes_personal_options.Time.{AwareDateTime, before}
use hermes_personal_options.Schemas.Enums.{OrderLifecycleState}
use hermes_personal_options.Schemas.Model.{construct-ok}
use hermes_personal_options.Schemas.OrderTicket.{OrderTicket}
use hermes_personal_options.Schemas.BrokerSubmission.{
  BrokerSubmitIntent, submit_intent_valid, ExecutionReport, execution_report_valid, fill_complete,
  not_before,
}
use hermes_personal_options.Gateway.BrokerSubmission.{report_of, mint_execution_report}
use hermes_personal_options.Brokers.Base.{BrokerFill}
use hermes_personal_options.Brokers.Fake.{
  FakeKind, FakeBroker, submit_order, order_id_value, fill_of, if_present,
}
use hermes_personal_options.Brokers.Fake.Invariant.{fill_sound}
use hermes_personal_options.Brokers.Fake.Simulation.{simulate-eq-ok, id_of}
use hermes_personal_options.Brokers.Fake.Orders.{submit_order-eq-ok}

-- The report of an answer.
abbrev pub report_fill : BrokerSubmitIntent → BrokerFill → ExecutionReport
report_fill i f =
    report_of i f.broker_order_id f.lifecycle_state f.filled_contracts f.avg_fill_price
      f.fill_timestamp f.completed_at

not_before-if_present :
    (test : Bool) (now submitted_at : AwareDateTime)
    → before now submitted_at ≡ false
    → not_before (if_present test now) submitted_at ≡ true
not_before-if_present test now submitted_at h = ground arith

order_id-nonempty : (key : String) → str_eq (order_id_value key) "" ≡ false
order_id-nonempty key =
    nonempty_text (order_id_value key) (ap (leb 1) (length-append "FAKE-" key) ∙ ground arith)

-- The hash and the key of a valid submission.
intent_facts :
    (ticket_digest : OrderTicket → String) (i : BrokerSubmitIntent)
    → submit_intent_valid ticket_digest i ≡ true
    → ((text_length i.order_ticket_hash == 64) ≡ true) × (not (str_eq i.idempotency_key "") ≡ true)
unfolding submit_intent_valid
intent_facts ticket_digest i valid = (ground arith, ground arith)

-- The contracts of a sound fill.
contract_facts :
    (f : BrokerFill)
    → fill_sound f ≡ true
    → (ltb 0 f.requested_contracts ≡ true)
      × (leb f.filled_contracts f.requested_contracts ≡ true)
      × (fill_complete f.lifecycle_state f.filled_contracts f.requested_contracts f.avg_fill_price
            f.fill_timestamp
          ≡ true)
unfolding fill_sound
contract_facts f sound = (ground arith, ground arith, ground arith)

fill_of-reported :
    (ticket_digest : OrderTicket → String) (i : BrokerSubmitIntent) (b : FakeBroker)
    (state : OrderLifecycleState) (count : ℕ) (completed : Bool) (now : AwareDateTime)
    → submit_intent_valid ticket_digest i ≡ true
    → before now i.submitted_at ≡ false
    → fill_sound (fill_of i (id_of b i) state count completed now) ≡ true
    → execution_report_valid (report_fill i (fill_of i (id_of b i) state count completed now))
      ≡ true
unfolding execution_report_valid
fill_of-reported ticket_digest i b state count completed now valid later sound =
    let (hash, key) = intent_facts ticket_digest i valid in
    let (positive, within, complete) =
      contract_facts (fill_of i (id_of b i) state count completed now) sound in
    hash
    &✓ key
    &✓ not-false (order_id-nonempty i.idempotency_key)
    &✓ positive
    &✓ within
    &✓ complete
    &✓ not_before-if_present completed now i.submitted_at later
    &✓ not_before-if_present (ltb 0 count) now i.submitted_at later

-- The answer to a new submission, of any fake broker, makes a valid execution report of that
-- submission, if the clock of the broker is not behind the submission.
pub mint_execution_report-submitted :
    (ticket_digest : OrderTicket → String) (kind : FakeKind) (b : FakeBroker)
    (i : BrokerSubmitIntent) (now : AwareDateTime) (f : BrokerFill) (after : FakeBroker)
    → submit_intent_valid ticket_digest i ≡ true
    → get b.fills i.idempotency_key ≡ none
    → before now i.submitted_at ≡ false
    → submit_order kind b i now ≡ ok (f, after)
    → mint_execution_report i f.broker_order_id f.lifecycle_state f.filled_contracts
        f.avg_fill_price f.fill_timestamp f.completed_at
      ≡ ok (report_fill i f)
unfolding mint_execution_report
mint_execution_report-submitted ticket_digest kind b i now f after valid new later done =
    elim (submit_order-eq-ok kind b i now f after done) [
      | inl (found, same) ↦ absurd (cc (new, found))
      | inr (absent, made, same) ↦
          let (state, count, completed, fill, sound) = simulate-eq-ok kind b i now f made in
          construct-ok execution_report_valid (report_fill i f) (
            ap (λ g. execution_report_valid (report_fill i g)) (sym fill)
            ∙ fill_of-reported ticket_digest i b state count completed now valid later
                (ap fill_sound fill ∙ sound))
    ]
