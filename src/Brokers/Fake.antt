-- ===== src/Brokers/Fake.antt =====
-- brokers/fake.py: the in-memory brokers. They share one path of submission, and differ in what
-- they simulate.
pub mod Invariant
pub mod Simulation
pub mod Orders
pub mod Cancellation
pub mod Reachable
pub mod Retry
pub mod Reports
use Prim.Native.String.{◌++◌ as append}
use hermes_personal_options.Common.{
  ℕ, ◌-◌, Bool, true, false, not, ◌&&◌, Option, none, some, List, [], ◌∷◌, Result, ok, err, ◌>>=◌,
  ◌>>◌, raise_if, String, leb, ltb, if◌then◌else◌,
}
use hermes_personal_options.Common.Dict.{get, set}
use hermes_personal_options.Decimal.{Decimal, decimal_of, zero_dec, eq_dec}
use hermes_personal_options.Time.{AwareDateTime}
use hermes_personal_options.Schemas.Enums.{
  OrderLifecycleState, working, partial_fill, filled, cancelled, price_stale,
  internal_contradiction, execution_quality_suspended, is_paper_submit,
}
use hermes_personal_options.Schemas.Model.{construct}
use hermes_personal_options.Schemas.BrokerSubmission.{
  BrokerSubmitIntent, BrokerOrderId, broker_order_id_valid,
}
use hermes_personal_options.Brokers.Base.{
  BrokerFill, fill_valid, BrokerAccountView, Failure, broker_error, key_error, model_outcome,
  live_submit_not_permitted, broker_rejected, broker_disconnect, broker_timeout, unknown_order,
  order_not_cancellable, is_open,
}

-- The subclasses of `_FakeBrokerBase`.
pub data FakeKind : Type 0 where
  fake_fill fake_reject fake_partial_fill fake_disconnect fake_slow fake_duplicate_ack : FakeKind

-- `fills` maps an idempotency key to the latest fill, and `index` an order id to its key.
pub record FakeBroker : Type 0 where
  pub broker_name : String
  pub fills : List (String × BrokerFill)
  pub index : List (String × String)

abbrev pub new_fake : String → FakeBroker
new_fake name = record { broker_name = name; fills = []; index = [] }

abbrev pub fake_fill_price : Decimal
fake_fill_price = decimal_of 100 2

-- The value of the order id.
abbrev pub order_id_value : String → String
order_id_value key = append "FAKE-" key

unfoldable pub order_id_for : FakeBroker → BrokerSubmitIntent → Result Failure BrokerOrderId
order_id_for b i = model_outcome (
    construct broker_order_id_valid
      (record { value = order_id_value i.idempotency_key; broker_name = b.broker_name }))

abbrev pub requested : BrokerSubmitIntent → ℕ
requested i = i.ticket.validated_intent.candidate.short_leg.contracts

-- `intent.limit_price or _FAKE_FILL_PRICE`: a price of 0 is replaced, too.
abbrev pub fill_price : Option Decimal → Decimal
fill_price none = fake_fill_price
fill_price (some p) = if eq_dec p zero_dec then fake_fill_price else p

abbrev pub if_present : {A : Type 0} → Bool → A → Option A
if_present test a = if test then some a else none

abbrev pub fill_of :
    BrokerSubmitIntent → BrokerOrderId → OrderLifecycleState → ℕ → Bool → AwareDateTime → BrokerFill
fill_of i order_id lifecycle count completed now = record {
  broker_order_id = order_id;
  lifecycle_state = lifecycle;
  filled_contracts = count;
  requested_contracts = requested i;
  avg_fill_price = if_present (ltb 0 count) (fill_price i.limit_price);
  fill_timestamp = if_present (ltb 0 count) now;
  submitted_at = i.submitted_at;
  completed_at = if_present completed now;
}

-- `_fill`
unfoldable pub make_fill :
    FakeBroker
    → BrokerSubmitIntent
    → OrderLifecycleState
    → ℕ
    → Bool
    → AwareDateTime
    → Result Failure BrokerFill
make_fill b i lifecycle count completed now = do
  order_id ← order_id_for b i
  model_outcome (construct fill_valid (fill_of i order_id lifecycle count completed now))

-- `_simulate`, of each broker.
unfoldable pub simulate :
    FakeKind → FakeBroker → BrokerSubmitIntent → AwareDateTime → Result Failure BrokerFill
simulate fake_fill b i now = make_fill b i filled (requested i) true now
simulate fake_reject b i now = err (broker_error broker_rejected execution_quality_suspended)
simulate fake_partial_fill b i now =
    if leb (requested i) 1
    then make_fill b i working 0 false now
    else make_fill b i partial_fill (requested i - 1) false now
simulate fake_disconnect b i now = err (broker_error broker_disconnect internal_contradiction)
simulate fake_slow b i now = err (broker_error broker_timeout price_stale)
simulate fake_duplicate_ack b i now = make_fill b i filled (requested i) true now

-- A new order is recorded under its key.
abbrev pub record_fill : FakeBroker → String → BrokerFill → FakeBroker
record_fill b key fill = record b {
  fills = set b.fills key fill;
  index = set b.index fill.broker_order_id.value key;
}

-- `now` is the reading of the clock. An error leaves the broker as it is.
unfoldable pub submit_order :
    FakeKind
    → FakeBroker
    → BrokerSubmitIntent
    → AwareDateTime
    → Result Failure (BrokerFill × FakeBroker)
submit_order kind b i now = do
  raise_if (not (is_paper_submit i.submit_mode))
      (broker_error live_submit_not_permitted internal_contradiction)
  elim (get b.fills i.idempotency_key) [
    | some existing ↦ ok (existing, b)
    | none ↦ do fill ← simulate kind b i now; ok (fill, record_fill b i.idempotency_key fill)
  ]

-- `self._fills[key]`
abbrev pub fill_at : FakeBroker → String → Result Failure BrokerFill
fill_at b key = elim (get b.fills key) [ none ↦ err key_error | some f ↦ ok f ]

unfoldable pub get_order : FakeBroker → BrokerOrderId → Result Failure BrokerFill
get_order b order_id = elim (get b.index order_id.value) [
  | none ↦ err (broker_error unknown_order internal_contradiction)
  | some key ↦ fill_at b key
]

abbrev pub cancelled_fill : BrokerFill → AwareDateTime → BrokerFill
cancelled_fill f now = record f { lifecycle_state = cancelled; completed_at = some now }

-- `self._fills[self._index[order_id.value]] = cancelled`
abbrev pub store_cancelled :
    FakeBroker → BrokerOrderId → BrokerFill → Result Failure (BrokerFill × FakeBroker)
store_cancelled b order_id f = elim (get b.index order_id.value) [
  | none ↦ err key_error
  | some key ↦ ok (f, record b { fills = set b.fills key f })
]

unfoldable pub cancel_order :
    FakeBroker → BrokerOrderId → AwareDateTime → Result Failure (BrokerFill × FakeBroker)
cancel_order b order_id now = do
  current ← get_order b order_id
  raise_if (not (is_open current.lifecycle_state))
      (broker_error order_not_cancellable internal_contradiction)
  f ← model_outcome (construct fill_valid (cancelled_fill current now))
  store_cancelled b order_id f

abbrev open_fills : List (String × BrokerFill) → List BrokerFill
open_fills [] = []
open_fills (e ∷ d) =
    let rest = open_fills d in if is_open e.1.lifecycle_state then e.1 ∷ rest else rest

unfoldable pub get_open_orders : FakeBroker → List BrokerFill
get_open_orders b = open_fills b.fills

unfoldable pub get_account : FakeBroker → BrokerAccountView
get_account b = record {
  account_id = "FAKE-ACCOUNT";
  cash = decimal_of 20000 0;
  buying_power = decimal_of 20000 0;
  net_liquidating_value = decimal_of 20000 0;
}
