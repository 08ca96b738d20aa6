-- ===== src/Gateway/OrderRouting.antt =====
-- gateway/order_routing.py: the route and the ticket of a validated intent.
pub mod Ticket
use hermes_personal_options.Common.{
  Bool, true, false, not, ◌&&◌, Option, none, some, List, [], ◌∷◌, Result, ok, err, ◌>>=◌,
  if◌then◌else◌,
}
use hermes_personal_options.Time.{DateTime, naive, aware, AwareDateTime}
use hermes_personal_options.Schemas.Enums.{
  OrderType, limit, market, EmergencyState, IntentStatus, broken_spread_state, is_market,
}
use hermes_personal_options.Schemas.Model.{ModelError, validation_error, construct}
use hermes_personal_options.Schemas.TradeIntent.{ValidatedTradeIntent}
use hermes_personal_options.Schemas.OrderTicket.{
  OrderTypePolicy, market_orders_allowed, order_policy_valid, order_type_permitted, RouteMode,
  OrderLeg, OrderLegRole, order_leg_valid, OrderRouteDecision, route_decision_valid, OrderTicket,
  order_ticket_valid,
}

pub record OrderRoutingState : Type 0 where
  pub route_mode : RouteMode
  pub order_type_policy : OrderTypePolicy
  pub broker_native_combo_available : Bool
  pub deterministic_market_order_allowed : Bool
  pub requested_order_type : Option OrderType

abbrev pub route_mode_for_state : EmergencyState → RouteMode
route_mode_for_state EmergencyState.normal = RouteMode.normal
route_mode_for_state EmergencyState.broken_spread = RouteMode.broken_spread
route_mode_for_state EmergencyState.forced_liquidation = RouteMode.forced_liquidation
route_mode_for_state EmergencyState.emergency_risk_reduction = RouteMode.emergency

abbrev pub same_route_mode : RouteMode → RouteMode → Bool
same_route_mode RouteMode.normal RouteMode.normal = true
same_route_mode RouteMode.emergency RouteMode.emergency = true
same_route_mode RouteMode.broken_spread RouteMode.broken_spread = true
same_route_mode RouteMode.forced_liquidation RouteMode.forced_liquidation = true
same_route_mode _ _ = false

abbrev pub is_normal_mode : RouteMode → Bool
is_normal_mode = same_route_mode RouteMode.normal

-- `_mode_matches_policy_state`, after the checks of the policy.
unfoldable pub routing_state_valid : OrderRoutingState → Bool
routing_state_valid s =
    order_policy_valid s.order_type_policy
    && same_route_mode s.route_mode (route_mode_for_state s.order_type_policy.state)
    && not (is_normal_mode s.route_mode && s.deterministic_market_order_allowed)

unfoldable pub resolve_order_type : OrderRoutingState → OrderType
resolve_order_type s =
    if not (is_normal_mode s.route_mode)
      && s.deterministic_market_order_allowed
      && market_orders_allowed s.order_type_policy
    then market
    else limit

abbrev pub requests_market : Option OrderType → Bool
requests_market none = false
requests_market (some t) = is_market t

abbrev pub rejected_route : OrderRoutingState → OrderRouteDecision
rejected_route s = record {
  approved = false;
  order_type = none;
  route_mode = s.route_mode;
  combo_preferred = s.broker_native_combo_available;
  broker_native_combo_required = false;
  reason_codes = broken_spread_state ∷ [];
}

abbrev pub approved_route : OrderRoutingState → OrderType → OrderRouteDecision
approved_route s t = record {
  approved = true;
  order_type = some t;
  route_mode = s.route_mode;
  combo_preferred = s.broker_native_combo_available;
  broker_native_combo_required = s.broker_native_combo_available;
  reason_codes = [];
}

-- The intent only has to be a validated one, which its type says.
unfoldable pub decide_order_route : OrderRoutingState → Result ModelError OrderRouteDecision
unfolding resolve_order_type route_decision_valid
decide_order_route s =
    let t = resolve_order_type s in
    if requests_market s.requested_order_type
    then construct route_decision_valid (rejected_route s)
    else (if not (order_type_permitted t s.order_type_policy)
        then construct route_decision_valid (rejected_route s)
        else construct route_decision_valid (approved_route s t))

unfoldable pub ordered_legs : ValidatedTradeIntent → Result ModelError (List OrderLeg)
ordered_legs v = do
  long_leg ← construct order_leg_valid (record {
    role = OrderLegRole.long_protective;
    source_leg = v.candidate.long_leg;
    sequence = 1;
  })
  short_leg ←
      construct order_leg_valid (record {
        role = OrderLegRole.short_risk;
        source_leg = v.candidate.short_leg;
        sequence = 2;
      })
  ok (long_leg ∷ short_leg ∷ [])

-- What minting a ticket can raise.
pub data TicketError : Type 0 where
  rejected_route_error order_type_missing invalid_ticket : TicketError

abbrev pub model_result : {A : Type 0} → Result ModelError A → Result TicketError A
model_result (ok a) = ok a
model_result (err e) = err TicketError.invalid_ticket

-- A field of the type AwareDatetime.
abbrev pub aware_field : DateTime → Result ModelError AwareDateTime
aware_field (aware t) = ok t
aware_field (naive t) = err validation_error

abbrev pub value_or {ℓ} : {A : Type ℓ} → Option A → A → A
value_or none d = d
value_or (some a) d = a

abbrev pub minted_ticket :
    ValidatedTradeIntent
    → OrderRoutingState
    → AwareDateTime
    → OrderType
    → OrderRouteDecision
    → List OrderLeg
    → OrderTicket
minted_ticket v s t order_type decision legs = record {
  status = IntentStatus.ticketed;
  validated_intent = v;
  created_at = t;
  order_type = order_type;
  policy = s.order_type_policy;
  route_decision = some decision;
  legs = legs;
}

-- `now` is the reading of the clock, which is used where no time is given.
unfoldable pub mint_order_ticket :
    ValidatedTradeIntent
    → OrderRoutingState
    → Option DateTime
    → AwareDateTime
    → Result TicketError OrderTicket
mint_order_ticket v s created_at now = do
  decision ← model_result (decide_order_route s)
  if not decision.approved then err TicketError.rejected_route_error else elim decision.order_type [
    | none ↦ err TicketError.order_type_missing
    | some order_type ↦ do
      t ← model_result (aware_field (value_or created_at (aware now)))
      legs ← model_result (ordered_legs v)
      model_result (construct order_ticket_valid (minted_ticket v s t order_type decision legs))
  ]
