-- ===== src/Brokers/Fake/Reachable.antt =====
-- The fake brokers that a run of submissions and cancellations leads to, in any order.
use hermes_personal_options.Common.{◌≡◌, refl, true, ok, String}
use hermes_personal_options.Time.{AwareDateTime}
use hermes_personal_options.Schemas.BrokerSubmission.{BrokerSubmitIntent, BrokerOrderId}
use hermes_personal_options.Brokers.Base.{BrokerFill}
use hermes_personal_options.Brokers.Fake.{
  FakeKind, FakeBroker, new_fake, submit_order, cancel_order,
}
use hermes_personal_options.Brokers.Fake.Invariant.{well_formed}
use hermes_personal_options.Brokers.Fake.Orders.{submit_order-well_formed}
use hermes_personal_options.Brokers.Fake.Cancellation.{cancel_order-well_formed}

-- A call that raises leaves the broker as it is, and is no step.
pub data Reachable (kind : FakeKind) : FakeBroker → Type 0 where
  started : (name : String) → Reachable kind (new_fake name)
  after_submit :
      {b after : FakeBroker} {f : BrokerFill} (i : BrokerSubmitIntent) (now : AwareDateTime)
      → Reachable kind b
      → submit_order kind b i now ≡ ok (f, after)
      → Reachable kind after
  after_cancel :
      {b after : FakeBroker} {f : BrokerFill} (order_id : BrokerOrderId) (now : AwareDateTime)
      → Reachable kind b
      → cancel_order b order_id now ≡ ok (f, after)
      → Reachable kind after

new_fake-well_formed : (name : String) → well_formed (new_fake name) ≡ true
unfolding well_formed
new_fake-well_formed name = refl

-- Every broker that a run leads to is well formed: each fill stands under its key, has the id of
-- that key, which the index leads back to it, and is full with a price and a time, or lacks a
-- contract.
pub Reachable-well_formed :
    (kind : FakeKind) (b : FakeBroker) → Reachable kind b → well_formed b ≡ true
Reachable-well_formed kind b (started name) = new_fake-well_formed name
Reachable-well_formed kind b (after_submit {b = before} {f = f} i now run done) =
    submit_order-well_formed kind before i now f b (Reachable-well_formed kind before run) done
Reachable-well_formed kind b (after_cancel {b = before} {f = f} order_id now run done) =
    cancel_order-well_formed before order_id now f b (Reachable-well_formed kind before run) done
