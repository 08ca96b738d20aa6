-- ===== src/Examples/Brokers.antt =====
-- The brokers on one submission: an order that fills, and one that works until it is cancelled.
use hermes_personal_options.Common.{
  ◌≡◌, refl, some, ok, err, true, false, ◌&&◌, not, ltb, str_eq, is_ok, if◌then◌else◌,
}
use hermes_personal_options.Common.Int.{◌-ℤ◌, ◌+ℤ◌}
use hermes_personal_options.Common.Text.{show_ℕ}
use hermes_personal_options.Time.{instant, elapsed_us, before}
use hermes_personal_options.Schemas.Enums.{working}
use hermes_personal_options.Schemas.BrokerSubmission.{
  submit_intent_valid, from_future, is_stale, broker_order_id_valid,
}
use hermes_personal_options.Gateway.BrokerSubmission.{mint_execution_report}
use hermes_personal_options.Brokers.Base.{BrokerFill, fill_valid, Failure}
use hermes_personal_options.Brokers.Fake.{
  fake_fill, fake_partial_fill, FakeBroker, new_fake, order_id_for, fill_of, make_fill, simulate,
  record_fill, submit_order, get_order, cancel_order, cancelled_fill, store_cancelled,
}
use hermes_personal_options.Brokers.Fake.Invariant.{well_formed}
use hermes_personal_options.Brokers.Fake.Simulation.{id_of}
use hermes_personal_options.Brokers.Fake.Retry.{submit_order-retry, here, cancelled, Continues}
use hermes_personal_options.Brokers.Fake.Cancellation.{
  get_order-submitted, cancel_order-open, after_cancel,
}
use hermes_personal_options.Brokers.Fake.Reachable.{
  Reachable, Reachable-well_formed, started, after_submit,
}
use hermes_personal_options.Brokers.Fake.Reports.{mint_execution_report-submitted, report_fill}
use hermes_personal_options.Brokers.Paper.{
  PaperSubmitApproval, approval_of, paper_submit_approval_for_intent, approval_valid,
  validate_human_confirmation, submit_order as paper_submit_order,
}
use hermes_personal_options.Brokers.Paper.Policy.{
  submit_order-permitted, permitted, approval-confirms,
}
use hermes_personal_options.Examples.Data.{
  seconds_later, hash_of_ticket, digest_of_intent, put_submission, armed_config,
}

abbrev working_fill : BrokerFill
working_fill =
    fill_of (put_submission 1) (id_of (new_fake "fake") (put_submission 1)) working 0 false
      (seconds_later 20)

abbrev working_broker : FakeBroker
working_broker = record_fill (new_fake "fake") (put_submission 1).idempotency_key working_fill

-- The submission is left working.
submitted_working :
    submit_order fake_partial_fill (new_fake "fake") (put_submission 1) (seconds_later 20)
    ≡ ok (working_fill, working_broker)
unfolding submit_order simulate make_fill order_id_for broker_order_id_valid fill_valid show_ℕ
submitted_working = refl

working_reachable : Reachable fake_partial_fill working_broker
working_reachable =
    after_submit (put_submission 1) (seconds_later 20) (started "fake") submitted_working

Reachable-well_formed_example : well_formed working_broker ≡ true
Reachable-well_formed_example =
    Reachable-well_formed fake_partial_fill working_broker working_reachable

new_fake-well_formed : well_formed (new_fake "fake") ≡ true
unfolding well_formed
new_fake-well_formed = refl

abbrev cancelled_broker : FakeBroker
cancelled_broker =
    after_cancel working_broker (put_submission 1).idempotency_key working_fill (seconds_later 25)

then_cancelled :
    cancel_order working_broker working_fill.broker_order_id (seconds_later 25)
    ≡ ok (cancelled_fill working_fill (seconds_later 25), cancelled_broker)
unfolding cancel_order get_order store_cancelled fill_valid show_ℕ
then_cancelled = refl

submit_order-retry_example :
    (g : BrokerFill) × Continues working_fill g
    × (submit_order fake_partial_fill cancelled_broker (put_submission 1) (seconds_later 30)
        ≡ ok (g, cancelled_broker))
    × (get_order cancelled_broker working_fill.broker_order_id ≡ ok g)
submit_order-retry_example =
    submit_order-retry fake_partial_fill (new_fake "fake") (put_submission 1) (put_submission 1)
      (seconds_later 20) (seconds_later 30) working_fill working_broker cancelled_broker
      new_fake-well_formed submitted_working
      (cancelled working_fill.broker_order_id (seconds_later 25) here then_cancelled) refl refl

get_order-submitted_example :
    get_order working_broker working_fill.broker_order_id ≡ ok working_fill
get_order-submitted_example =
    get_order-submitted fake_partial_fill (new_fake "fake") (put_submission 1) (seconds_later 20)
      working_fill working_broker new_fake-well_formed submitted_working

cancel_order-open_example :
    (after : FakeBroker) × (cancel_order working_broker working_fill.broker_order_id
        (seconds_later 60)
      ≡ ok (cancelled_fill working_fill (seconds_later 60), after))
    × (get_order after working_fill.broker_order_id
        ≡ ok (cancelled_fill working_fill (seconds_later 60)))
    × (ltb working_fill.filled_contracts working_fill.requested_contracts ≡ true)
cancel_order-open_example =
    cancel_order-open working_broker working_fill.broker_order_id (seconds_later 60) working_fill
      (Reachable-well_formed fake_partial_fill working_broker working_reachable)
      (get_order-submitted fake_partial_fill (new_fake "fake") (put_submission 1) (seconds_later 20)
        working_fill working_broker new_fake-well_formed submitted_working)
      refl

first_submission_valid : submit_intent_valid hash_of_ticket (put_submission 1) ≡ true
unfolding submit_intent_valid from_future is_stale instant elapsed_us show_ℕ ◌-ℤ◌ ◌+ℤ◌
first_submission_valid = refl

in_time : before (seconds_later 20) (put_submission 1).submitted_at ≡ false
unfolding instant ◌-ℤ◌ ◌+ℤ◌
in_time = refl

mint_execution_report-submitted_example :
    mint_execution_report
      (put_submission 1)
      working_fill.broker_order_id
      working_fill.lifecycle_state
      working_fill.filled_contracts
      working_fill.avg_fill_price
      working_fill.fill_timestamp
      working_fill.completed_at
    ≡ ok (report_fill (put_submission 1) working_fill)
mint_execution_report-submitted_example =
    mint_execution_report-submitted hash_of_ticket fake_partial_fill (new_fake "fake")
      (put_submission 1) (seconds_later 20) working_fill working_broker first_submission_valid refl
      in_time submitted_working

abbrev approval : PaperSubmitApproval
approval = approval_of digest_of_intent (put_submission 1) "operator" (seconds_later 15)

submit_order-permitted_example :
    (e : Failure) × (paper_submit_order digest_of_intent armed_config fake_fill
        (new_fake "fake")
        (put_submission 1)
        (some approval)
        (seconds_later 20)
      ≡ (if permitted digest_of_intent armed_config (put_submission 1) (some approval)
          then submit_order fake_fill (new_fake "fake") (put_submission 1) (seconds_later 20)
          else err e))
submit_order-permitted_example =
    submit_order-permitted digest_of_intent armed_config fake_fill (new_fake "fake")
      (put_submission 1) (some approval) (seconds_later 20)

-- That submission is let through.
permitted-approval :
    permitted digest_of_intent armed_config (put_submission 1) (some approval) ≡ true
unfolding instant show_ℕ ◌-ℤ◌ ◌+ℤ◌
permitted-approval = refl

approval_made :
    paper_submit_approval_for_intent digest_of_intent
      (put_submission 1)
      "operator"
      (seconds_later 15)
    ≡ ok approval
unfolding paper_submit_approval_for_intent approval_valid show_ℕ
approval_made = refl

approval-confirms_example :
    is_ok (validate_human_confirmation digest_of_intent (put_submission 2) (some approval)) ≡ (
      str_eq (put_submission 1).order_ticket_hash (put_submission 2).order_ticket_hash
      && str_eq (put_submission 1).idempotency_key (put_submission 2).idempotency_key
      && not (before (seconds_later 15) (put_submission 2).submitted_at)
      && str_eq (digest_of_intent (put_submission 1)) (digest_of_intent (put_submission 2)))
approval-confirms_example =
    approval-confirms digest_of_intent (put_submission 1) (put_submission 2) "operator"
      (seconds_later 15) approval approval_made
