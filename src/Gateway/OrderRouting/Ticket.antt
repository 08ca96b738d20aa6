-- ===== src/Gateway/OrderRouting/Ticket.antt =====
-- What routing decides, and that it mints a ticket for every valid intent whose route is approved.
use hermes_personal_options.Common.{
  ◌≡◌, refl, ◌∙◌, ap, true, false, not, ◌&&◌, Option, List, [], ◌∷◌, Result, ok, err, arith,
  Bool-cases, all, inl, inr, if◌then◌else◌, ◌>>=◌,
}
use hermes_personal_options.Time.{DateTime, naive, aware, AwareDateTime}
use hermes_personal_options.Schemas.Enums.{OrderType, limit, market, is_normal, is_long, is_short}
use hermes_personal_options.Schemas.Model.{construct, construct-ok}
use hermes_personal_options.Schemas.TradeIntent.{
  ValidatedTradeIntent, candidate_valid, structurally_defined_risk,
}
use hermes_personal_options.Schemas.OrderTicket.{
  order_type_permitted, allowed_order_types, OrderLeg, OrderLegRole, order_leg_valid,
  route_decision_valid, OrderTicket, order_ticket_valid, leg_ordering_valid,
}
use hermes_personal_options.Gateway.OrderRouting.{
  OrderRoutingState, routing_state_valid, resolve_order_type, requests_market, rejected_route,
  approved_route, decide_order_route, ordered_legs, TicketError, value_or, minted_ticket,
  mint_order_ticket, model_result, aware_field,
}

-- Routing resolves MARKET only where the state permits it.
resolve-permitted :
    (s : OrderRoutingState)
    → routing_state_valid s ≡ true
    → order_type_permitted (resolve_order_type s) s.order_type_policy ≡ true
unfolding resolve_order_type order_type_permitted allowed_order_types
resolve-permitted s h = ground arith

-- The order type that a route resolves, as the state of the emergency has it.
abbrev pub order_type_of : OrderRoutingState → OrderType
order_type_of s =
    if not (is_normal s.order_type_policy.state) && s.deterministic_market_order_allowed
    then market
    else limit

resolve_order_type_lem :
    (s : OrderRoutingState) → routing_state_valid s ≡ true → resolve_order_type s ≡ order_type_of s
unfolding resolve_order_type routing_state_valid
resolve_order_type_lem s h = ground arith

approved_route-valid :
    (s : OrderRoutingState) (t : OrderType) → route_decision_valid (approved_route s t) ≡ true
unfolding route_decision_valid
approved_route-valid s t = ground arith

-- The route of a valid state: a request for MARKET is always refused, and every other route is
-- approved, for MARKET exactly if the state is an emergency and the deterministic flag is set, and
-- else for LIMIT.
pub decide_order_route-decides :
    (s : OrderRoutingState)
    → routing_state_valid s ≡ true
    → decide_order_route s ≡ (
        if requests_market s.requested_order_type
        then ok (rejected_route s)
        else ok (approved_route s (order_type_of s)))
unfolding decide_order_route
decide_order_route-decides s h = elim (Bool-cases (requests_market s.requested_order_type)) [
  | inl asked ↦ rw asked refl
  | inr not_asked ↦ rw not_asked (
      rw (resolve-permitted s h) (
        construct-ok route_decision_valid (approved_route s (resolve_order_type s))
          (approved_route-valid s (resolve_order_type s))
        ∙ ap (λ t. ok (approved_route s t)) (resolve_order_type_lem s h)))
]

route_refused :
    (s : OrderRoutingState)
    → routing_state_valid s ≡ true
    → requests_market s.requested_order_type ≡ true
    → decide_order_route s ≡ ok (rejected_route s)
route_refused s h asked = ground (arith, decide_order_route-decides s h)

route_approved :
    (s : OrderRoutingState)
    → routing_state_valid s ≡ true
    → requests_market s.requested_order_type ≡ false
    → decide_order_route s ≡ ok (approved_route s (order_type_of s))
route_approved s h other = ground (arith, decide_order_route-decides s h)

-- The legs of the ticket: the long one goes first.
abbrev pub legs_of : ValidatedTradeIntent → List OrderLeg
legs_of v =
    record { role = OrderLegRole.long_protective; source_leg = v.candidate.long_leg; sequence = 1 }
    ∷ record { role = OrderLegRole.short_risk; source_leg = v.candidate.short_leg; sequence = 2 }
    ∷ []

sides_of :
    (v : ValidatedTradeIntent)
    → candidate_valid v.candidate ≡ true
    → (is_long v.candidate.long_leg.side ≡ true) × (is_short v.candidate.short_leg.side ≡ true)
unfolding candidate_valid structurally_defined_risk
sides_of v h = (ground arith, ground arith)

order_leg_valid-met :
    (v : ValidatedTradeIntent)
    → candidate_valid v.candidate ≡ true
    → all order_leg_valid (legs_of v) ≡ true
unfolding order_leg_valid
order_leg_valid-met v h = ground (arith, sides_of v h)

ordered_legs_lem :
    (v : ValidatedTradeIntent)
    → candidate_valid v.candidate ≡ true
    → ordered_legs v ≡ ok (legs_of v)
unfolding ordered_legs
ordered_legs_lem v h = ground (arith, order_leg_valid-met v h)

minted_ticket-valid :
    (v : ValidatedTradeIntent) (s : OrderRoutingState) (t : AwareDateTime)
    → routing_state_valid s ≡ true
    → order_ticket_valid
        (minted_ticket v s t (order_type_of s) (approved_route s (order_type_of s)) (legs_of v))
      ≡ true
unfolding order_ticket_valid leg_ordering_valid order_type_permitted allowed_order_types
minted_ticket-valid v s t h = ground arith

-- The ticket that a valid state and an existing intent give.
abbrev pub ticket_of : ValidatedTradeIntent → OrderRoutingState → AwareDateTime → OrderTicket
ticket_of v s t =
    minted_ticket v s t (order_type_of s) (approved_route s (order_type_of s)) (legs_of v)

-- The outcome for each time of creation: a naive one is refused.
abbrev pub ticket_at :
    ValidatedTradeIntent → OrderRoutingState → DateTime → Result TicketError OrderTicket
ticket_at v s (aware t) = ok (ticket_of v s t)
ticket_at v s (naive t) = err TicketError.invalid_ticket

mint_from_route :
    (v : ValidatedTradeIntent) (s : OrderRoutingState) (d : DateTime)
    → candidate_valid v.candidate ≡ true
    → routing_state_valid s ≡ true
    → (model_result (aware_field d) >>= λ t. model_result (ordered_legs v) >>= λ legs.
        model_result (
          construct order_ticket_valid
            (minted_ticket v s t (order_type_of s) (approved_route s (order_type_of s)) legs)))
      ≡ ticket_at v s d
mint_from_route v s (naive t) fit h = refl
mint_from_route v s (aware t) fit h = rw (ordered_legs_lem v fit) (
    ap model_result
      (construct-ok order_ticket_valid (ticket_of v s t) (minted_ticket-valid v s t h)))

-- Minting is decided for every valid state and every intent of a valid candidate: a request for
-- MARKET is an error, a naive time of creation is an error, and everything else gives the ticket
-- whose long leg goes first and whose order type is the routed one. Such a ticket is always valid.
pub mint_order_ticket-decides :
    (v : ValidatedTradeIntent) (s : OrderRoutingState) (created_at : Option DateTime)
    (now : AwareDateTime)
    → candidate_valid v.candidate ≡ true
    → routing_state_valid s ≡ true
    → ((t : AwareDateTime) → order_ticket_valid (ticket_of v s t) ≡ true)
      × (mint_order_ticket v s created_at now ≡ (
          if requests_market s.requested_order_type
          then err TicketError.rejected_route_error
          else ticket_at v s (value_or created_at (aware now))))
unfolding mint_order_ticket
mint_order_ticket-decides v s created_at now fit h = (
  λ t. minted_ticket-valid v s t h,
  elim (Bool-cases (requests_market s.requested_order_type)) [
    | inl asked ↦ rw asked (rw (route_refused s h asked) refl)
    | inr other ↦ rw other (
        rw (route_approved s h other) (mint_from_route v s (value_or created_at (aware now)) fit h))
  ],
)
