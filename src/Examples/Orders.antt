-- ===== src/Examples/Orders.antt =====
-- The route, the submission and the life of one order.
use hermes_personal_options.Common.{◌≡◌, ◌↔◌, refl, none, some, ok, err, true, if◌then◌else◌}
use hermes_personal_options.Common.Int.{◌*ℤ◌, ◌-ℤ◌, ◌+ℤ◌}
use hermes_personal_options.Common.Text.{show_ℕ}
use hermes_personal_options.Decimal.{
  le_dec, scaled, sub_dec, abs_dec, fix, num_digits, round_half_even, decimal_of,
}
use hermes_personal_options.Time.{AwareDateTime, aware, instant, elapsed_us}
use hermes_personal_options.Schemas.Enums.{SubmitMode}
use hermes_personal_options.Schemas.TradeIntent.{
  candidate_valid, spread_leg_valid, structurally_defined_risk, spread_width,
}
use hermes_personal_options.Schemas.OrderTicket.{
  order_policy_valid, order_ticket_valid, leg_ordering_valid, order_type_permitted,
  allowed_order_types,
}
use hermes_personal_options.Schemas.BrokerSubmission.{submit_intent_valid, from_future, is_stale}
use hermes_personal_options.Gateway.OrderRouting.{
  routing_state_valid, decide_order_route, requests_market, rejected_route, approved_route,
  mint_order_ticket, TicketError, value_or,
}
use hermes_personal_options.Gateway.OrderRouting.Ticket.{
  decide_order_route-decides, order_type_of, mint_order_ticket-decides, ticket_of, ticket_at,
}
use hermes_personal_options.Gateway.BrokerSubmission.{mint_broker_submit_intent, submit_intent_of}
use hermes_personal_options.Gateway.BrokerSubmission.Minting.{
  mint_broker_submit_intent-decides, ok_value, may_submit,
}
use hermes_personal_options.Gateway.BrokerSubmission.Key.{idempotency_key-injective}
use hermes_personal_options.Examples.Data.{
  put_spread, half_past_ten, seconds_later, validated_spread, normal_routing, liquidation_routing,
  put_ticket, hash_of_ticket, put_submission,
}

normal_routing_valid : routing_state_valid normal_routing ≡ true
unfolding routing_state_valid order_policy_valid
normal_routing_valid = refl

liquidation_routing_valid : routing_state_valid liquidation_routing ≡ true
unfolding routing_state_valid order_policy_valid
liquidation_routing_valid = refl

put_spread_valid : candidate_valid put_spread ≡ true
unfolding candidate_valid spread_leg_valid structurally_defined_risk spread_width le_dec scaled
    sub_dec abs_dec fix instant ◌*ℤ◌ ◌-ℤ◌ ◌+ℤ◌ num_digits round_half_even
put_spread_valid = refl

decide_order_route-decides_example : decide_order_route liquidation_routing ≡ (
    if requests_market liquidation_routing.requested_order_type
    then ok (rejected_route liquidation_routing)
    else ok (approved_route liquidation_routing (order_type_of liquidation_routing)))
decide_order_route-decides_example =
    decide_order_route-decides liquidation_routing liquidation_routing_valid

mint_order_ticket-decides_example :
    ((t : AwareDateTime) → order_ticket_valid (ticket_of validated_spread normal_routing t) ≡ true)
    × (mint_order_ticket validated_spread normal_routing none half_past_ten ≡ (
        if requests_market normal_routing.requested_order_type
        then err TicketError.rejected_route_error
        else ticket_at validated_spread normal_routing (value_or none (aware half_past_ten))))
mint_order_ticket-decides_example =
    mint_order_ticket-decides validated_spread normal_routing none half_past_ten put_spread_valid
      normal_routing_valid

put_ticket_valid : order_ticket_valid put_ticket ≡ true
unfolding order_ticket_valid leg_ordering_valid order_type_permitted allowed_order_types
put_ticket_valid = refl

mint_broker_submit_intent-decides_example :
    ok_value (
      mint_broker_submit_intent hash_of_ticket put_ticket 1 SubmitMode.paper
        (some (decimal_of 50 2))
        (some (aware (seconds_later 10)))
        half_past_ten)
    ≡ (if may_submit put_ticket 1 (some (decimal_of 50 2)) (seconds_later 10)
        then some (
            submit_intent_of hash_of_ticket put_ticket 1 SubmitMode.paper
              (some (decimal_of 50 2))
              (seconds_later 10))
        else none)
mint_broker_submit_intent-decides_example =
    mint_broker_submit_intent-decides hash_of_ticket put_ticket 1 SubmitMode.paper
      (some (decimal_of 50 2)) (some (aware (seconds_later 10))) half_past_ten (seconds_later 10)
      refl put_ticket_valid refl

first_submission_valid : submit_intent_valid hash_of_ticket (put_submission 1) ≡ true
unfolding submit_intent_valid from_future is_stale instant elapsed_us show_ℕ ◌-ℤ◌ ◌+ℤ◌
first_submission_valid = refl

second_submission_valid : submit_intent_valid hash_of_ticket (put_submission 2) ≡ true
unfolding submit_intent_valid from_future is_stale instant elapsed_us show_ℕ ◌-ℤ◌ ◌+ℤ◌
second_submission_valid = refl

idempotency_key-injective_example :
    ((put_submission 1).idempotency_key ≡ (put_submission 2).idempotency_key) ↔ (
      ((put_submission 1).order_ticket_hash ≡ (put_submission 2).order_ticket_hash)
      × ((put_submission 1).attempt_counter ≡ (put_submission 2).attempt_counter))
idempotency_key-injective_example =
    idempotency_key-injective hash_of_ticket (put_submission 1) (put_submission 2)
      first_submission_valid second_submission_valid
