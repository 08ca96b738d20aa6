-- ===== src/Schemas/OrderTicket.antt =====
-- schemas/order_type_policy.py and schemas/order_ticket.py: the order type that a state permits, and
-- the routed order.
use hermes_personal_options.Common.{
  ℕ, suc, Bool, true, false, not, ◌&&◌, Option, none, some, List, [], ◌∷◌, ltb, ◌==◌, is_empty,
  is_absent, any, if◌then◌else◌,
}
use hermes_personal_options.Time.{AwareDateTime}
use hermes_personal_options.Schemas.Enums.{
  OrderType, limit, market, EmergencyState, IntentStatus, ReasonCode, broken_spread_state,
  is_normal, is_market, is_ticketed, is_long, is_short, same_order_type,
  market_orders_allowed as state_allows_market,
}
use hermes_personal_options.Schemas.TradeIntent.{SpreadLeg, ValidatedTradeIntent}

pub record OrderTypePolicy : Type 0 where
  pub state : EmergencyState
  pub llm_may_request_market_order : Bool

-- `_llm_never_requests_market`
unfoldable pub order_policy_valid : OrderTypePolicy → Bool
order_policy_valid p = not p.llm_may_request_market_order

abbrev pub market_orders_allowed : OrderTypePolicy → Bool
market_orders_allowed p = state_allows_market p.state

unfoldable pub resolve_order_type : OrderTypePolicy → OrderType
resolve_order_type p = if is_normal p.state then limit else market

unfoldable pub allowed_order_types : OrderTypePolicy → List OrderType
allowed_order_types p = if is_normal p.state then limit ∷ [] else limit ∷ market ∷ []

unfoldable pub market_order_rejection_reason : OrderTypePolicy → OrderType → Option ReasonCode
market_order_rejection_reason p requested =
    if is_market requested && not (market_orders_allowed p) then some broken_spread_state else none

-- `order_type in policy.allowed_order_types()`
unfoldable pub order_type_permitted : OrderType → OrderTypePolicy → Bool
unfolding allowed_order_types
order_type_permitted t p = any (same_order_type t) (allowed_order_types p)

pub data RouteMode : Type 0 where
  normal emergency broken_spread forced_liquidation : RouteMode

pub data OrderLegRole : Type 0 where
  long_protective short_risk : OrderLegRole

pub record OrderLeg : Type 0 where
  pub role : OrderLegRole
  pub source_leg : SpreadLeg
  pub sequence : ℕ

abbrev pub is_short_risk : OrderLegRole → Bool
is_short_risk short_risk = true
is_short_risk long_protective = false

-- `_role_matches_source_leg`
abbrev role_fits : OrderLegRole → SpreadLeg → Bool
role_fits long_protective leg = is_long leg.side
role_fits short_risk leg = is_short leg.side

unfoldable pub order_leg_valid : OrderLeg → Bool
order_leg_valid leg = ltb 0 leg.sequence && role_fits leg.role leg.source_leg

pub record OrderRouteDecision : Type 0 where
  pub approved : Bool
  pub order_type : Option OrderType
  pub route_mode : RouteMode
  pub combo_preferred : Bool
  pub broker_native_combo_required : Bool
  pub reason_codes : List ReasonCode

-- `_approved_shape`
unfoldable pub route_decision_valid : OrderRouteDecision → Bool
route_decision_valid d =
    not (d.broker_native_combo_required && not d.combo_preferred)
    && (if d.approved
        then not (is_absent d.order_type) && is_empty d.reason_codes
        else is_absent d.order_type && not (is_empty d.reason_codes))

pub record OrderTicket : Type 0 where
  pub status : IntentStatus
  pub validated_intent : ValidatedTradeIntent
  pub created_at : AwareDateTime
  pub order_type : OrderType
  pub policy : OrderTypePolicy
  pub route_decision : Option OrderRouteDecision
  pub legs : List OrderLeg

-- `roles.count(role)`, for each of the roles.
abbrev pub count : {A : Type 0} → (A → Bool) → List A → ℕ
count p [] = 0
count p (x ∷ xs) = if p x then suc (count p xs) else count p xs

-- `sorted(self.legs, key=lambda leg: leg.sequence)` is stable: its head is the first leg of those
-- with the least sequence.
abbrev pub first_in_sequence : OrderLeg → List OrderLeg → OrderLeg
first_in_sequence first [] = first
first_in_sequence first (leg ∷ legs) =
    first_in_sequence (if ltb leg.sequence first.sequence then leg else first) legs

-- `_validate_leg_ordering`
unfoldable pub leg_ordering_valid : List OrderLeg → Bool
leg_ordering_valid [] = false
leg_ordering_valid (leg ∷ legs) =
    count (λ (l : OrderLeg). not (is_short_risk l.role)) (leg ∷ legs) == 1
    && count (λ (l : OrderLeg). is_short_risk l.role) (leg ∷ legs) == 1
    && not (is_short_risk (first_in_sequence leg legs).role)

-- The decision, where there is one, is approved and for this order type.
abbrev pub route_matches : OrderType → Option OrderRouteDecision → Bool
route_matches t none = true
route_matches t (some d) =
    d.approved && elim d.order_type [ none ↦ false | some u ↦ same_order_type u t ]

-- `_order_type_permitted`
unfoldable pub order_ticket_valid : OrderTicket → Bool
unfolding order_type_permitted leg_ordering_valid
order_ticket_valid t =
    is_ticketed t.status
    && order_type_permitted t.order_type t.policy
    && route_matches t.order_type t.route_decision
    && leg_ordering_valid t.legs
