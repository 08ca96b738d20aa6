-- ===== src/Schemas/PositionState.antt =====
-- schemas/position_state.py: the open option legs, and the short ones that no long leg protects.
pub mod Coverage
use hermes_personal_options.Common.{
  ℕ, zero, suc, ◌-◌, min, Bool, true, false, not, ◌&&◌, Option, none, some, List, [], ◌∷◌, String,
  ltb, leb, ◌==◌, str_eq, is_empty, is_absent, map, if◌then◌else◌,
}
use hermes_personal_options.Common.Sort.{sort_by, select, enumerate_from}
use hermes_personal_options.Decimal.{Decimal, zero_dec, lt_dec, neg_dec}
use hermes_personal_options.Time.{AwareDateTime, before}
use hermes_personal_options.Schemas.Enums.{
  Underlying, OptionType, LegSide, EmergencyState, is_short, is_long, is_put, is_normal,
  same_underlying, same_option_type,
}

pub data PositionSnapshotSource : Type 0 where
  broker_report execution_ledger : PositionSnapshotSource

-- The date is the ordinal of its day.
pub record PositionLeg : Type 0 where
  pub underlying : Underlying
  pub option_symbol : String
  pub expiration_date : ℕ
  pub option_type : OptionType
  pub strike : Decimal
  pub side : LegSide
  pub contracts : ℕ
  pub average_price : Option Decimal

unfoldable pub position_leg_valid : PositionLeg → Bool
position_leg_valid l =
    not (str_eq l.option_symbol "") && lt_dec zero_dec l.strike && ltb 0 l.contracts

-- `_is_protective_long_for`
unfoldable pub is_protective_long_for : PositionLeg → PositionLeg → Bool
is_protective_long_for short_leg long_leg =
    same_underlying short_leg.underlying long_leg.underlying
    && short_leg.expiration_date == long_leg.expiration_date
    && same_option_type short_leg.option_type long_leg.option_type
    && (if is_put short_leg.option_type
        then lt_dec long_leg.strike short_leg.strike
        else lt_dec short_leg.strike long_leg.strike)

abbrev sort_key : PositionLeg → Decimal
sort_key l = if is_put l.option_type then l.strike else neg_dec l.strike

-- `_shorts_most_constrained_first`
unfoldable pub shorts_most_constrained_first : List PositionLeg → List PositionLeg
shorts_most_constrained_first shorts =
    sort_by (λ (x : PositionLeg) (y : PositionLeg). lt_dec (sort_key x) (sort_key y)) shorts

-- The long of a smaller place in the order of a short's option type.
abbrev less_flexible : PositionLeg → ℕ × PositionLeg → ℕ × PositionLeg → Bool
less_flexible short_leg x y =
    if is_put short_leg.option_type
    then lt_dec y.1.strike x.1.strike
    else lt_dec x.1.strike y.1.strike

-- `_eligible_longs_least_flexible_first`, with each index its long leg.
unfoldable pub eligible_longs_least_flexible_first :
    PositionLeg → List PositionLeg → List (ℕ × PositionLeg)
eligible_longs_least_flexible_first short_leg longs = sort_by (less_flexible short_leg) (
    select (λ (e : ℕ × PositionLeg). is_protective_long_for short_leg e.1) (enumerate_from 0 longs))

-- `remaining[idx]`
abbrev pub at : List ℕ → ℕ → ℕ
at [] idx = 0
at (r ∷ rs) zero = r
at (r ∷ rs) (suc idx) = at rs idx

-- `remaining[idx] -= take`
abbrev pub subtract_at : List ℕ → ℕ → ℕ → List ℕ
subtract_at [] idx take = []
subtract_at (r ∷ rs) zero take = (r - take) ∷ rs
subtract_at (r ∷ rs) (suc idx) take = r ∷ subtract_at rs idx take

-- The inner loop: what is still needed, and what remains of the longs. After `needed` has reached 0
-- the loop is left.
unfoldable pub allocate : List (ℕ × PositionLeg) → ℕ → List ℕ → ℕ × List ℕ
allocate [] needed remaining = (needed, remaining)
allocate (e ∷ eligible) needed remaining =
    let take = min needed (at remaining e.0) in
    let rest = allocate eligible (needed - take) (subtract_at remaining e.0 take) in
    if leb needed 0 then (needed, remaining) else rest

-- The outer loop.
unfoldable pub unprotected_among : List PositionLeg → List PositionLeg → List ℕ → List PositionLeg
unprotected_among longs [] remaining = []
unprotected_among longs (s ∷ shorts) remaining =
    let left = allocate (eligible_longs_least_flexible_first s longs) s.contracts remaining in
    let rest = unprotected_among longs shorts left.1 in if ltb 0 left.0 then s ∷ rest else rest

abbrev pub shorts_of : List PositionLeg → List PositionLeg
shorts_of legs = select (λ (l : PositionLeg). is_short l.side) legs

abbrev pub longs_of : List PositionLeg → List PositionLeg
longs_of legs = select (λ (l : PositionLeg). is_long l.side) legs

abbrev pub capacities : List PositionLeg → List ℕ
capacities longs = map (λ (l : PositionLeg). l.contracts) longs

unfoldable pub unprotected_short_legs : List PositionLeg → List PositionLeg
unprotected_short_legs legs =
    unprotected_among (longs_of legs) (shorts_most_constrained_first (shorts_of legs))
      (capacities (longs_of legs))

pub record BrokerPositionReport : Type 0 where
  pub report_id : String
  pub broker_name : String
  pub reported_at : AwareDateTime
  pub legs : List PositionLeg

unfoldable pub position_report_valid : BrokerPositionReport → Bool
position_report_valid r = not (str_eq r.report_id "") && not (str_eq r.broker_name "")

pub record ExecutionPositionLedger : Type 0 where
  pub ledger_id : String
  pub as_of : AwareDateTime
  pub legs : List PositionLeg
  pub execution_report_ids : List String

-- `_legs_require_execution_report_evidence`
unfoldable pub position_ledger_valid : ExecutionPositionLedger → Bool
position_ledger_valid l =
    not (str_eq l.ledger_id "") && not (not (is_empty l.legs) && is_empty l.execution_report_ids)

pub record PositionSnapshot : Type 0 where
  pub snapshot_id : String
  pub source : PositionSnapshotSource
  pub source_id : String
  pub created_at : AwareDateTime
  pub as_of : AwareDateTime
  pub legs : List PositionLeg
  pub execution_report_ids : List String
  pub broker_name : Option String
  pub emergency_state : EmergencyState

unfoldable pub has_unprotected_short : PositionSnapshot → Bool
has_unprotected_short s = not (is_empty (unprotected_short_legs s.legs))

unfoldable pub unprotected_short_symbols : PositionSnapshot → List String
unprotected_short_symbols s =
    map (λ (l : PositionLeg). l.option_symbol) (unprotected_short_legs s.legs)

-- `not self.broker_name`
abbrev no_name : Option String → Bool
no_name none = true
no_name (some name) = str_eq name ""

abbrev source_coherent : PositionSnapshot → PositionSnapshotSource → Bool
source_coherent s broker_report = is_empty s.execution_report_ids && not (no_name s.broker_name)
source_coherent s execution_ledger =
    is_absent s.broker_name && not (not (is_empty s.legs) && is_empty s.execution_report_ids)

-- The bounds of the fields, and `_source_and_emergency_are_coherent`.
unfoldable pub position_snapshot_valid : PositionSnapshot → Bool
position_snapshot_valid s =
    not (str_eq s.snapshot_id "")
    && not (str_eq s.source_id "")
    && source_coherent s s.source
    && not (before s.created_at s.as_of)
    && not (has_unprotected_short s && is_normal s.emergency_state)
